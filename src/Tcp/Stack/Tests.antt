-- ===== src/Tcp/Stack/Tests.antt =====
-- A host with a few sockets.
use mathlib.Core.Option
use ucas_computer_network.Common.{
  ℕ, ◌≡◌, ◌≢◌, refl, ◌∙◌, none, some, [], ◌∷◌, arith, false, ◌==◌, All, if◌then◌else◌,
}
use ucas_computer_network.Tcp.Sock.{
  Sock, Segment, closed, listen, syn_recv, last_ack, tcp_syn, tcp_ack, tcp_rst, has_flag,
}
use ucas_computer_network.Tcp.Output.{
  TcpCb, tcp_send_control_packet, segment_of, tcp_set_retrans_timer,
}
use ucas_computer_network.Tcp.Seq.{less_than_32b, less_or_equal_32b}
use ucas_computer_network.Tcp.Receive.{is_tcp_seq_valid}
use ucas_computer_network.Tcp.Conn.{connect_sock}
use ucas_computer_network.Tcp.Stack.Closing.{last_ack-leaves}
use ucas_computer_network.Tcp.Samples.{whole, sock, cb_at}
use ucas_computer_network.Tcp.Stack.{
  Tsk, Stack, stepped, fault, blank, linked, sock_of, bytes4, bytes2, tcp_hash_function, find_sock,
  has_tuple, tcp_sock_lookup_established, tcp_sock_lookup_listen, tcp_sock_lookup, or_else,
  link_listen, tcp_hash, tcp_hash_by, tcp_sock_listen, set_tsk, handle_tcp_packet, process_found,
  tcp_process, tcp_sock_set_sport, bind_to, tcp_sock_connect, tcp_bind_hash, set_sock, tcp_get_port,
  free_port_from, tcp_port_in_use, reads_port, process_syn_recv, tcp_sock_accept_queue_full,
}
use ucas_computer_network.Tcp.Stack.Tables.{Hashed, tcp_hash-Hashed}
use ucas_computer_network.Tcp.Stack.Listener.{listens_once}
use ucas_computer_network.Tcp.Stack.Hearing.{Hears}
use ucas_computer_network.Tcp.Stack.Child.{Child}
use ucas_computer_network.Tcp.Stack.Ports.{set_sport-binds}
use ucas_computer_network.Tcp.Stack.Start.{new_sock, init_tcp_stack, tcp_sock_bind}
use ucas_computer_network.Tcp.Stack.Start.Serving.{
  server-found, bound, none-established, table-listen, table-start,
}

abbrev tsk : Sock ℕ → Tsk ℕ
tsk s = record {
  sock = s;
  parent = none;
  backlog = 8;
  accept_backlog = 0;
  listen_queue = [];
  accept_queue = [];
  hash_node = blank;
  timewait = none;
}

-- Socket 0 is the listening one, the others are connected; no table holds any.
abbrev host : Stack ℕ
host = record {
  socks = λ i.
      if i == 0
      then tsk (record sock { state = listen; sip = 0; sport = 80; send_buf = [] })
      else tsk sock;
  next = 5;
  established_table = λ h. [];
  listen_table = λ h. [];
  bind_table = λ h. [];
}

-- A packet to port 80 with the flags given.
abbrev to_server : ℕ → TcpCb
to_server flags = record (cb_at 9 []) {
  saddr = 7;
  sport = 4000;
  daddr = 1;
  dport = 80;
  flags = flags;
}

tcp_hash_example : Hashed host 3 (tcp_hash host 3)
tcp_hash_example = tcp_hash-Hashed host 3 tt

-- A listening socket is found by its port.
abbrev server : Stack ℕ
server = (tcp_sock_listen host 0 4).1

listen_found : tcp_sock_lookup server (to_server tcp_syn) ≡ some 0
unfolding tcp_sock_lookup or_else tcp_sock_lookup_established tcp_sock_lookup_listen find_sock
    has_tuple tcp_sock_listen tcp_hash tcp_hash_by link_listen set_tsk tcp_hash_function bytes4
    bytes2
listen_found = refl

-- A packet for nobody.
unknown_crashes : handle_tcp_packet whole host (to_server tcp_ack) 0 0 ≡ fault
unfolding handle_tcp_packet process_found tcp_sock_lookup or_else tcp_sock_lookup_established
    tcp_sock_lookup_listen find_sock
unknown_crashes = refl

-- Nobody is connected.
nobody :
    tcp_sock_lookup_established host
      (to_server tcp_syn).daddr
      (to_server tcp_syn).saddr
      (to_server tcp_syn).dport
      (to_server tcp_syn).sport
    ≡ none
unfolding tcp_sock_lookup_established find_sock
nobody = refl

listens_once_example :
    (st' : Stack ℕ) × (answer : Segment) × (tcp_process whole host 0 (to_server tcp_syn) 100 0
      ≡ stepped tt st' (answer ∷ []))
    × Child host 0 100 (to_server tcp_syn) st' answer
    × ((later : Stack ℕ)
        → Hears whole 0 st' later
        → (cb' : TcpCb) (iss' now' : ℕ) → has_flag cb'.flags tcp_rst ≡ false
        → tcp_process whole later 0 cb' iss' now'
          ≡ (if has_flag cb'.flags tcp_ack then fault else stepped tt later []))
listens_once_example =
    listens_once whole host 0 100 0 (to_server tcp_syn) refl refl (omega arith) refl refl nobody tt

-- Child 1 of the listening socket waits to be accepted.
abbrev waiting : Stack ℕ
waiting = record host {
  socks = λ i.
      if i == 0
      then record (tsk sock) { accept_queue = 1 ∷ [] }
      else record (tsk (record sock { state = syn_recv })) { parent = some 0; hash_node = linked };
}

set_sport_example :
    tcp_sock_set_sport (λ i. i) (record host { bind_table = λ h. 3 ∷ [] }) 1 0
    ≡ bind_to (λ i. i) (record host { bind_table = λ h. 3 ∷ [] }) 1 12345
set_sport_example =
    set_sport-binds (λ i. i) (record host { bind_table = λ h. 3 ∷ [] }) 1 0 (λ h. (refl, tt))

-- The last acknowledgement.
abbrev leaving : Stack ℕ
leaving = record host {
  socks = λ i. record (tsk (record sock { state = last_ack })) { hash_node = linked };
}

last_ack_example :
    (st' : Stack ℕ) × (tcp_process whole leaving 2 (cb_at 5 []) 0 0 ≡ stepped tt st' [])
    × ((sock_of st' 2).state ≡ closed)
    × ((h : ℕ) → All (λ j. j ≢ 2) (st'.established_table h))
unfolding is_tcp_seq_valid less_than_32b less_or_equal_32b
last_ack_example = last_ack-leaves whole leaving 2 0 0 (cb_at 5 []) refl refl refl refl

-- An active connection, from port 12345; the SYN is the packet.
connect_syn : Option.map (λ r. r.1.sport) (tcp_sock_connect (λ i. i) host 2 1 2 80) ≡ some 12345
unfolding tcp_sock_connect tcp_get_port free_port_from tcp_port_in_use reads_port connect_sock
    tcp_set_retrans_timer tcp_send_control_packet segment_of
connect_syn = refl

bind_finds : ((bind_to (λ i. i) host 2 99).1.bind_table 99) ≡ 2 ∷ []
unfolding bind_to tcp_bind_hash tcp_hash_function bytes4 bytes2 set_sock set_tsk
bind_finds = refl

-- A child in SYN_RECV whose parent's queue has no room stays as it is.
full_stays :
    process_syn_recv
      (some 3)
      (record host { socks = λ i. record (tsk sock) { backlog = 0 } })
      1
      (to_server tcp_ack)
    ≡ stepped tt (record host { socks = λ i. record (tsk sock) { backlog = 0 } }) []
unfolding process_syn_recv tcp_sock_accept_queue_full
full_stays = refl

-- The first socket of a host is bound to port 80 and listens.
abbrev fresh : Stack ℕ
fresh = (new_sock 1 (init_tcp_stack 1)).1

server_example :
    tcp_sock_lookup
      (tcp_sock_listen (tcp_sock_bind (λ i. 0) fresh 0 80).1 0 8).1
      (to_server tcp_syn)
    ≡ some 0
server_example =
    server-found (λ i. 0) fresh 0 79 8 (to_server tcp_syn) (bound (λ i. 0) 1 79) refl
      (none-established (tcp_sock_listen (tcp_sock_bind (λ i. 0) fresh 0 80).1 0 8).1 1 7 80 4000
        (table-listen (tcp_sock_bind (λ i. 0) fresh 0 80).1 0 8 ∙ table-start (λ i. 0) 1 79))
