-- ===== src/Lib.antt =====
-- The network experiments of the course: a spanning tree switch, a learning switch, a NAT box, and the
-- router and TCP stack that grow over the experiments 7 to 18. This library models their C code, part
-- by part, with what holds of it. Code of several experiments that is the same is modelled once, from
-- the last one.
--
-- Common     numbers as 32-bit words (sums and differences are written with their wrap-around), lists
--            measured by native numbers, Boolean tests, lexicographic order.
--
-- Stp        EXP06-STP/code/06-stp: the records stp_t and stp_port_t of include/stp.h, and every
--            function of stp.c and stp_timer.c that changes them. A handler runs under one lock and is
--            one step; it returns the switch with the packets that it sends. Stp/Priority has the two
--            priority tests, Stp/Root and Stp/Elect update_root, Stp/Handler and Stp/Reach the packet
--            and timer handlers over any history from stp_init on, Stp/Send the hello packets.
--
-- Switch     EXP05-Switch_Net/code/05-switching: the table of mac.c with its 256 buckets, and
--            handle_packet of main.c. Switch/Learning treats the table as a map from addresses to
--            ports, Switch/Ageing the sweep.
--
-- RingBuffer EXP18-TCP_Stack_4/code/18-tcp_stack/include/ring_buffer.h: RingBuffer/Refine reads a
--            buffer as the list of bytes that it holds; RingBuffer/Read and RingBuffer/Write show the
--            operations on that list. A failed assertion is none.
--
-- Checksum   checksum.h of the same stack, which experiments 13 to 18 share.
--
-- Arp        arpcache.c of the same stack, and in Arp/Messages arp.c. The random slot is an argument, a write outside the array
--            is none, and what goes to other layers is a list of outputs.
--
-- Ip         ip.c and rtable.c: routes, and forwarding on top of Arp.
--
-- Icmp       icmp.c and the rest of ip.c, on the bytes of packets: the messages with their checksums
--            (Headers), the answer to an echo request (Echo), and the handler (Handler).
--
-- Tcp        one socket of the same stack. Tcp/Seq: sequence numbers; Tcp/Sock: struct tcp_sock;
--            Tcp/Output: tcp_out.c, the send buffer, the retransmission timer; Tcp/Reno: congestion
--            control of tcp_in.c and the timeouts of tcp_timer.c; Tcp/Receive: handle_recv_data and
--            the out-of-order buffer, which writes to RingBuffer. The congestion window is a float: the
--            operations on it are a record that the theorems take, and nothing is assumed of them. A
--            thread that sleeps until there is room is an outcome of the function (sleeping).
--
--            Tcp/Conn has what tcp_process and the calls of the application do to one socket: two
--            sockets that open (Handshake) and close (Teardown) a connection, the states that it goes
--            through (Diagram), and tcp_sock_write as a loop (Writer), in which the other threads are a
--            function on the socket at each wake-up, and a sleep that does not end in `m` wake-ups
--            is none. A child has a copy of the receive buffer, where the code shares that of the
--            listening socket. The node of a timer is apart, in the list, or stuck there; the timers
--            behind one that is linked twice are in Links. Tcp/Stack is a host: a store of sockets, by their number, with the
--            hash tables, the ports, the listen and accept queues, and tcp_process and
--            handle_tcp_packet on it (Start, Tables, Lookup, Ports; Born and Child: the answer to a SYN;
--            Deaf, Stays and Hearing: what is left of the listening socket; Listener, Closing). What follows a NULL pointer or
--            takes a node out of no list is the outcome fault.
--
-- Ospf       EXP12-mOSPF/code/12-mopsf/mospf_daemon.c: neighbours and LSU packets (Neighbours), the
--            link-state database and flooding (Flood), and in Ospf/Routes the graph of the database
--            (Edges), Dijkstra's algorithm (Relax, Round, Shortest), the next hop (NextHop) and the
--            routing table that is written from them (Table). Adding and removing an entry of the
--            table are in the prebuilt libipstack, so they are parameters. A write beyond an array
--            is none. Ospf/Packets has the packets as bytes: how mospf_proto.c and the sending
--            functions write them, the checks of handle_mospf_packet, and in Ospf/Handler ip.c; what
--            the bytes of one router are to another is in the two Arrive. Ospf/Sum is the checksum.h
--            of this experiment.
--
-- Links      list.h as nodes with two pointers in a store: adding and deleting (Insert, Delete) against
--            the sequences that the other parts use, and the list of timers (Timer).
--
-- Text       words and numbers in text: strtok, strstr and net_parser, for Trie and Nat (Words: what
--            they make of well-formed text; Address: addresses; Decimal: a function for atoi, which
--            is a parameter).
--
-- Trie       EXP11-Lookup/code/leaf_pushing/lookup.c: inserting a route and looking an address up; the
--            variable that lookup may leave unset is none; what malloc leaves in the children of a new node is a
--            parameter, and the theorems take it to be NULL. Insert and Keeps: what one insertion
--            changes and keeps; Prefix: prefixes as numbers; Table: the whole table; Lines: the lines
--            of the file. Trie/Simple is EXP11-Lookup/code/simple/lookup.c.
--
-- Nat        EXP13-NAT/13-nat/nat.c: the port pool, the rules, both directions of do_translation; Nat/Timeout has
--            the timeout thread, Nat/Config the configuration file. The routing table is in the prebuilt libipstack, so its lookup is a parameter.
--
-- Loops are structural recursions on the lists and arrays that they walk; the loop over the 256 buckets
-- of a hash table, and those over the ports, count down the places that are left. The rounds of
-- Dijkstra's algorithm are counted; tcp_sock_write takes the length of its buffer as fuel, and
-- find_next_hop the distance, which are shown to be enough.
--
-- Not modelled: sockets, devices, netlink, files, logs, threads as such (each locked region is one
-- step), wake-ups; the byte layout of packets other than
-- IP, ICMP and mOSPF and their checksums; the bound of the arrays and of int in Dijkstra's algorithm (the
-- graphs of init_graph have at most four routers and edges of weight 1); the reference counts of sockets; compressing the plain trie of experiment 11, the HTTP client and
-- server.
pub mod Ospf
pub mod Links
pub mod Text
pub mod Checksum
pub mod Common
pub mod Stp
pub mod RingBuffer
pub mod Tcp
pub mod Arp
pub mod Nat
pub mod Switch
pub mod Ip
pub mod Icmp
pub mod Trie
