-- ===== src/Tcp/Stack.antt =====
-- The sockets of one host: the tables, ports and queues of tcp_sock.c, tcp_process of tcp_in.c and
-- handle_tcp_packet of tcp.c, in EXP18-TCP_Stack_4/code/18-tcp_stack. A pointer to a socket is its
-- number in a store. Reference counts, and what is freed by them, are left out.
pub mod Store
pub mod Tables
pub mod Lookup
pub mod Born
pub mod Child
pub mod Deaf
pub mod Stays
pub mod Hearing
pub mod Listener
pub mod Ports
pub mod Closing
pub mod Start
mod Tests
use Prim.Native.Nat.{bit_and, bit_xor}
use ucas_computer_network.Common.{
  ℕ, zero, suc, ◌+◌, ◌-◌, ◌*◌, ◌/◌, ◌%◌, ◌^◌, Bool, true, false, not, ◌&&◌, ◌||◌, Option, none,
  some, List, [], ◌∷◌, ◌++◌, if◌then◌else◌, ltb, leb, ◌==◌, keep,
}
use ucas_computer_network.Common.Tables.{update, hash8}
use ucas_computer_network.Tcp.Sock.{
  Sock, Segment, Float, TcpState, closed, listen, syn_recv, syn_sent, established, close_wait,
  last_ack, fin_wait_1, fin_wait_2, closing, time_wait, has_flag, tcp_syn, tcp_rst, tcp_ack,
}
use ucas_computer_network.Tcp.Output.{TcpCb}
use ucas_computer_network.Tcp.Receive.{Received, returned, sleeping, aborted, is_tcp_seq_valid}
use ucas_computer_network.Tcp.Conn.{
  connect_sock, alloc_child_tcp_sock, answer_syn, accept_ack, accept_sock, close_sock, process_by,
}

abbrev pub port_min : ℕ
port_min = 12345

abbrev pub port_max : ℕ
port_max = 23456

abbrev pub tcp_msl : ℕ
tcp_msl = 1000000

abbrev pub tcp_timewait_timeout : ℕ
tcp_timewait_timeout = 2 * tcp_msl

-- `hash_list` of a socket: never written, in a table, or what `list_delete_entry` or `memcpy` leaves.
pub data HashNode : Type 0 where
  blank linked stale : HashNode

-- What `struct tcp_sock` has besides the connection.
pub record Tsk (C : Type 0) : Type 0 where
  pub sock : Sock C
  pub parent : Option ℕ
  pub backlog : ℕ
  pub accept_backlog : ℕ
  pub listen_queue : List ℕ
  pub accept_queue : List ℕ
  pub hash_node : HashNode
  pub timewait : Option ℕ

-- `tcp_sock_table`, the sockets, and the number of the next one.
pub record Stack (C : Type 0) : Type 0 where
  pub socks : ℕ → Tsk C
  pub next : ℕ
  pub established_table : ℕ → List ℕ
  pub listen_table : ℕ → List ℕ
  pub bind_table : ℕ → List ℕ

-- How a call ends: with a result and the packets it has sent, asleep, or in undefined behaviour (a
-- NULL pointer is followed, a node that is in no list is taken out of one) or a failed assertion.
pub data Outcome (C A : Type 0) : Type 0 where
  stepped : A → Stack C → List Segment → Outcome C A
  slept : Stack C → List Segment → Outcome C A
  fault : Outcome C A

pub bytes4 : ℕ → List ℕ
bytes4 a = a % 256 ∷ a / 2 ^ 8 % 256 ∷ a / 2 ^ 16 % 256 ∷ a / 2 ^ 24 % 256 ∷ []

pub bytes2 : ℕ → List ℕ
bytes2 p = p % 256 ∷ p / 2 ^ 8 % 256 ∷ []

pub tcp_hash_function : ℕ → ℕ → ℕ → ℕ → ℕ
tcp_hash_function saddr daddr sport dport =
    bit_and
      (bit_xor
        (bit_xor (bit_xor (hash8 (bytes4 saddr)) (hash8 (bytes4 daddr))) (hash8 (bytes2 sport)))
        (hash8 (bytes2 dport)))
      255

pub or_else : Option ℕ → Option ℕ → Option ℕ
or_else none o = o
or_else (some i) o = some i

-- Where `tcp_sock_close` leaves the tables alone.
pub is_kept : TcpState → Bool
is_kept close_wait = true
is_kept established = true
is_kept closed = true
is_kept other = false

module _ {C : Type 0} where
  abbrev pub sock_of : Stack C → ℕ → Sock C
  sock_of st i = (st.socks i).sock

  pub set_tsk : Stack C → ℕ → Tsk C → Stack C
  set_tsk st i t = record st { socks = update st.socks i t }

  pub set_sock : Stack C → ℕ → Sock C → Stack C
  set_sock st i s = set_tsk st i (record (st.socks i) { sock = s })

  -- The first socket of a bucket that passes a test.
  pub find_sock : Stack C → (Sock C → Bool) → List ℕ → Option ℕ
  find_sock st test [] = none
  find_sock st test (i ∷ is) =
      let rest = find_sock st test is in if test (sock_of st i) then some i else rest

  pub has_tuple : ℕ → ℕ → ℕ → ℕ → Sock C → Bool
  has_tuple saddr daddr sport dport s =
      saddr == s.sip && daddr == s.dip && sport == s.sport && dport == s.dport

  pub tcp_sock_lookup_established : Stack C → ℕ → ℕ → ℕ → ℕ → Option ℕ
  tcp_sock_lookup_established st saddr daddr sport dport =
      find_sock st (has_tuple saddr daddr sport dport)
        (st.established_table (tcp_hash_function saddr daddr sport dport))

  pub tcp_sock_lookup_listen : Stack C → ℕ → Option ℕ
  tcp_sock_lookup_listen st sport =
      find_sock st (λ s. sport == s.sport) (st.listen_table (tcp_hash_function 0 0 sport 0))

  pub tcp_sock_lookup : Stack C → TcpCb → Option ℕ
  tcp_sock_lookup st cb =
      or_else (tcp_sock_lookup_established st cb.daddr cb.saddr cb.dport cb.sport)
        (tcp_sock_lookup_listen st cb.dport)

  pub tcp_bind_hash : Stack C → ℕ → Stack C
  tcp_bind_hash st i =
      let h = tcp_hash_function 0 0 (sock_of st i).sport 0 in
      record st { bind_table = update st.bind_table h (i ∷ st.bind_table h) }

  pub link_listen : Stack C → ℕ → Stack C
  link_listen st i =
      let h = tcp_hash_function 0 0 (sock_of st i).sport 0 in
      set_tsk (record st { listen_table = update st.listen_table h (i ∷ st.listen_table h) }) i
        (record (st.socks i) { hash_node = linked })

  pub link_established : Stack C → ℕ → Stack C
  link_established st i =
      let s = sock_of st i in
      let h = tcp_hash_function s.sip s.dip s.sport s.dport in
      set_tsk
        (record st {
          established_table = update st.established_table h (i ∷ st.established_table h);
        })
        i (record (st.socks i) { hash_node = linked })

  -- The result (0 or -1), and the stack after.
  pub tcp_hash_by : TcpState → Stack C → ℕ → Bool × Stack C
  tcp_hash_by closed st i = (false, st)
  tcp_hash_by listen st i = (true, link_listen st i)
  tcp_hash_by other st i =
      let s = sock_of st i in
      elim (tcp_sock_lookup_established st s.sip s.dip s.sport s.dport) [
        | none ↦ (true, link_established st i)
        | some j ↦ (false, st)
      ]

  pub tcp_hash : Stack C → ℕ → Bool × Stack C
  tcp_hash st i = tcp_hash_by (sock_of st i).state st i

  -- Out of whichever table the node is in.
  pub unlink : Stack C → ℕ → Stack C
  unlink st i =
      let others = keep (λ j. not (j == i)) in
      set_tsk
        (record st {
          established_table = λ h. others (st.established_table h);
          listen_table = λ h. others (st.listen_table h);
        })
        i (record (st.socks i) { hash_node = stale })

  pub unhash_by : HashNode → Stack C → ℕ → Outcome C Unit
  unhash_by linked st i = stepped tt (unlink st i) []
  unhash_by other st i = fault

  pub tcp_unhash : Stack C → ℕ → Outcome C Unit
  tcp_unhash st i = unhash_by (st.socks i).hash_node st i

  pub tcp_sock_listen : Stack C → ℕ → ℕ → Bool × Stack C
  tcp_sock_listen st i backlog =
      let t = st.socks i in
      tcp_hash
        (set_tsk st i (record t { backlog = backlog; sock = record (t.sock) { state = listen } })) i

  pub tcp_sock_accept_queue_full : Tsk C → Bool
  tcp_sock_accept_queue_full t = leb t.backlog t.accept_backlog

  pub tcp_sock_listen_enqueue : Stack C → ℕ → ℕ → Stack C
  tcp_sock_listen_enqueue st parent i =
      let t = st.socks parent in
      set_tsk st parent (record t { listen_queue = t.listen_queue ++ (i ∷ []) })

  -- The node leaves the queue that it is in.
  pub tcp_sock_accept_enqueue : Stack C → ℕ → ℕ → Stack C
  tcp_sock_accept_enqueue st parent i =
      let t = st.socks parent in
      let others = keep (λ j. not (j == i)) in
      set_tsk st parent (record t {
        listen_queue = others t.listen_queue;
        accept_queue = others t.accept_queue ++ (i ∷ []);
        accept_backlog = t.accept_backlog + 1;
      })

  -- `tcp_sock_accept`, with `tcp_sock_accept_dequeue`, by the accept queue.
  pub accept_from : C → List ℕ → Stack C → ℕ → Outcome C ℕ
  accept_from one [] st i = slept st []
  accept_from one (j ∷ js) st i =
      let st' = set_tsk st i (record (st.socks i) {
        accept_queue = js;
        accept_backlog = (st.socks i).accept_backlog - 1;
      }) in
      stepped j (set_sock st' j (accept_sock one (sock_of st' j))) []

  pub tcp_sock_accept : C → Stack C → ℕ → Outcome C ℕ
  tcp_sock_accept one st i = accept_from one (st.socks i).accept_queue st i

  pub then_close : Outcome C Unit → ℕ → Outcome C Unit
  then_close (stepped u st out) i = stepped u (set_sock st i (close_sock (sock_of st i)).0) out
  then_close (slept st out) i = slept st out
  then_close fault i = fault

  pub tcp_sock_close : Stack C → ℕ → Outcome C Unit
  tcp_sock_close st i =
      let (s, out) = close_sock (sock_of st i) in
      if is_kept (sock_of st i).state
      then stepped tt (set_sock st i s) out
      else then_close (tcp_unhash st i) i

  -- In LISTEN: the listening socket itself leaves the state LISTEN; its child is a copy of it.
  pub process_listen : Stack C → ℕ → TcpCb → ℕ → Outcome C Unit
  process_listen st i cb iss =
      if has_flag cb.flags tcp_syn
      then (let st' = set_sock st i (record (sock_of st i) { state = syn_recv }) in
          let child = record (st'.socks i) {
            sock = alloc_child_tcp_sock (sock_of st' i) cb iss;
            parent = some i;
            hash_node = stale;
          } in
          let born = set_tsk (record st' { next = st.next + 1 }) st.next child in
          let hashed = (tcp_hash (tcp_sock_listen_enqueue born i st.next) st.next).1 in
          let (s, p) = answer_syn (sock_of hashed st.next) in
          stepped tt (set_sock hashed st.next s) (p ∷ []))
      else stepped tt st []

  -- In SYN_RECV, by the parent: without one, the test of its queue follows a NULL pointer.
  pub process_syn_recv : Option ℕ → Stack C → ℕ → TcpCb → Outcome C Unit
  process_syn_recv none st i cb = if has_flag cb.flags tcp_ack then fault else stepped tt st []
  process_syn_recv (some parent) st i cb =
      if has_flag cb.flags tcp_ack
        && not (tcp_sock_accept_queue_full (st.socks parent))
        && is_tcp_seq_valid (sock_of st i) cb
      then stepped tt
          (tcp_sock_accept_enqueue (set_sock st i (accept_ack (sock_of st i) cb)) parent i) []
      else stepped tt st []

  -- The tables and the time-wait timer, when the state has moved on.
  pub follow_state : TcpState → TcpState → Stack C → ℕ → ℕ → Outcome C Unit
  follow_state last_ack closed st i now = tcp_unhash st i
  follow_state time_wait time_wait st i now = stepped tt st []
  follow_state before time_wait st i now =
      stepped tt (set_tsk st i (record (st.socks i) { timewait = some now })) []
  follow_state before after st i now = stepped tt st []

  pub with_out : List Segment → Outcome C Unit → Outcome C Unit
  with_out out (stepped u st out') = stepped u st (out ++ out')
  with_out out (slept st out') = slept st (out ++ out')
  with_out out fault = fault

  pub settle_sock : TcpState → Received C → Stack C → ℕ → ℕ → Outcome C Unit
  settle_sock before (returned c s out) st i now =
      with_out out (follow_state before s.state (set_sock st i s) i now)
  settle_sock before (sleeping s out) st i now = slept (set_sock st i s) out
  settle_sock before aborted st i now = fault

module _ (f : Float) where
  open f use {Cwnd}

  pub tcp_process_by : TcpState → Stack Cwnd → ℕ → TcpCb → ℕ → ℕ → Outcome Cwnd Unit
  tcp_process_by listen st i cb iss now = process_listen st i cb iss
  tcp_process_by syn_recv st i cb iss now = process_syn_recv (st.socks i).parent st i cb
  tcp_process_by before st i cb iss now =
      settle_sock before (process_by f before (sock_of st i) cb) st i now

  -- `tcp_process` on a socket; `iss` is the random number that a child would start from.
  pub tcp_process : Stack Cwnd → ℕ → TcpCb → ℕ → ℕ → Outcome Cwnd Unit
  tcp_process st i cb iss now =
      if has_flag cb.flags tcp_rst
      then tcp_sock_close st i
      else tcp_process_by (sock_of st i).state st i cb iss now

  pub process_found : Option ℕ → Stack Cwnd → TcpCb → ℕ → ℕ → Outcome Cwnd Unit
  process_found none st cb iss now = fault
  process_found (some i) st cb iss now = tcp_process st i cb iss now

  -- On a packet whose checksum is right. Without a socket, `tcp_process` follows a NULL pointer.
  pub handle_tcp_packet : Stack Cwnd → TcpCb → ℕ → ℕ → Outcome Cwnd Unit
  handle_tcp_packet st cb iss now = process_found (tcp_sock_lookup st cb) st cb iss now

-- Ports. `tcp_port_in_use` walks the bind table by the wrong node, `hash_list`, which lies 16 bytes
-- before `bind_hash_list`: instead of a socket's port it reads bytes 4 and 5 of its `parent`.
-- `address` is where a socket lies in memory.
pub port_read : (ℕ → ℕ) → Option ℕ → ℕ
port_read address none = 0
port_read address (some j) = address j / 2 ^ 32 % 2 ^ 16

module _ {C : Type 0} (address : ℕ → ℕ) where
  pub reads_port : Stack C → ℕ → List ℕ → Bool
  reads_port st sport [] = false
  reads_port st sport (i ∷ is) =
      let rest = reads_port st sport is in
      if port_read address (st.socks i).parent == sport then true else rest

  pub tcp_port_in_use : Stack C → ℕ → Bool
  tcp_port_in_use st sport = reads_port st sport (st.bind_table (tcp_hash_function 0 0 sport 0))

  pub free_port_from : Stack C → ℕ → ℕ → ℕ
  free_port_from st port zero = 0
  free_port_from st port (suc n) =
      let rest = free_port_from st (suc port) n in if tcp_port_in_use st port then rest else port

  pub tcp_get_port : Stack C → ℕ
  tcp_get_port st = free_port_from st port_min (port_max - port_min)

  pub bind_to : Stack C → ℕ → ℕ → Bool × Stack C
  bind_to st i port =
      (true, tcp_bind_hash (set_sock st i (record (sock_of st i) { sport = port })) i)

  -- `tcp_sock_bind`: 0 asks for any port.
  pub tcp_sock_set_sport : Stack C → ℕ → ℕ → Bool × Stack C
  tcp_sock_set_sport st i zero =
      if tcp_get_port st == 0 then (false, st) else bind_to st i (tcp_get_port st)
  tcp_sock_set_sport st i (suc p) =
      if tcp_port_in_use st (suc p) then (false, st) else bind_to st i (suc p)

  -- Up to the place where it sleeps, by the address of the interface of the route; `none` is the
  -- result -1.
  pub tcp_sock_connect : Stack C → ℕ → ℕ → ℕ → ℕ → Option (Stack C × Segment)
  tcp_sock_connect st i sip dip dport =
      let sport = tcp_get_port st in
      let (s, p) = connect_sock sip sport dip dport (sock_of st i) in
      let bound =
        tcp_bind_hash
          (set_sock st i
            (record (sock_of st i) { sip = sip; sport = sport; dip = dip; dport = dport }))
          i in
      if sport == 0 then none else some ((tcp_hash (set_sock bound i s) i).1, p)

-- The test of `tcp_scan_timer_list`: `timeout * TCP_MSL` is a product of two `int`s, taken to wrap.
pub is_expired : ℕ → ℕ → Bool
is_expired now timeout =
    let p = timeout * tcp_msl % 2 ^ 32 in
    ltb (tcp_timewait_timeout + p) (now * tcp_msl + (if leb (2 ^ 31) p then 2 ^ 32 else 0))
