-- ===== src/Tcp/Conn.antt =====
-- The life of one connection: what tcp_process of tcp_in.c and connect, accept, close, read and write
-- of tcp_sock.c do to the socket itself, in EXP18-TCP_Stack_4/code/18-tcp_stack. The tables, the
-- queues and the parent are in Tcp/Stack. A call that wakes a thread is left out.
pub mod Handshake
pub mod Teardown
pub mod Diagram
pub mod Writer
mod Tests
use Prim.Native.Nat.{bit_and}
use ucas_computer_network.Common.{
  ℕ, zero, suc, ◌+◌, ◌-◌, ◌*◌, ◌%◌, ◌^◌, Bool, true, false, not, ◌&&◌, List, [], ◌∷◌, ◌++◌,
  if◌then◌else◌, ◌==◌, length, min, take, drop, Option, none, some, ◌>>=◌,
}
use ucas_computer_network.Common.Words.{add32}
use ucas_computer_network.RingBuffer.{RingBuffer, ring_buffer_empty, read_ring_buffer}
use ucas_computer_network.Tcp.Seq.{less_or_equal_32b}
use ucas_computer_network.Tcp.Sock.{
  Sock, Segment, Float, TcpState, closed, listen, syn_recv, syn_sent, established, close_wait,
  last_ack, fin_wait_1, fin_wait_2, closing, time_wait, nr_open, RetransTimer, has_flag, tcp_fin,
  tcp_syn, tcp_rst, tcp_ack,
}
use ucas_computer_network.Tcp.Output.{
  TcpCb, mss, is_allow_to_send, delete_send_buffer_entry, tcp_send_packet, tcp_send_control_packet,
  tcp_set_retrans_timer, tcp_update_retrans_timer, tcp_unset_retrans_timer,
}
use ucas_computer_network.Tcp.Receive.{Received, returned, is_tcp_seq_valid, handle_recv_data}
use ucas_computer_network.Tcp.Reno.{tcp_new_reno_process}

-- `(flags & mask) == mask`
abbrev pub has_flags : ℕ → ℕ → Bool
has_flags flags mask = bit_and flags mask == mask

module _ {C : Type 0} where
  -- The part that `tcp_sock_connect` does before it sleeps, on the address of the route's interface
  -- and the port that it has found. The state changes after the packet is made.
  unfoldable pub connect_sock : ℕ → ℕ → ℕ → ℕ → Sock C → Sock C × Segment
  connect_sock sip sport dip dport s =
      let s' = record s { sip = sip; sport = sport; dip = dip; dport = dport } in
      let (s'', p) = tcp_send_control_packet (tcp_set_retrans_timer s') tcp_syn in
      (record s'' { state = syn_sent }, p)

  -- `alloc_child_tcp_sock`: a copy of the listening socket, whose state is SYN_RECV by then. The receive
  -- buffer is copied here; in the code the child shares it with the listening socket.
  unfoldable pub alloc_child_tcp_sock : Sock C → TcpCb → ℕ → Sock C
  alloc_child_tcp_sock s cb iss = record s {
    sip = cb.daddr;
    sport = cb.dport;
    dip = cb.saddr;
    dport = cb.sport;
    iss = iss;
    snd_nxt = iss;
    rcv_nxt = add32 cb.seq 1;
    send_buf = [];
    rcv_ofo_buf = [];
  }

  -- What the child of a SYN sends.
  unfoldable pub answer_syn : Sock C → Sock C × Segment
  answer_syn s = tcp_send_control_packet (tcp_set_retrans_timer s) (tcp_ack + tcp_syn)

  -- The send buffer's entries that `ack` covers go, and the timer leaves its list.
  pub acknowledge : ℕ → Sock C → Sock C
  acknowledge ack s =
      tcp_unset_retrans_timer (record s { send_buf = (delete_send_buffer_entry s.send_buf ack).0 })

  pub process_syn_sent : Sock C → TcpCb → Sock C × List Segment
  process_syn_sent s cb =
      if has_flags cb.flags (tcp_syn + tcp_ack)
      then (let s' = acknowledge cb.ack (record s { rcv_nxt = add32 cb.seq 1; snd_una = cb.ack }) in
          let (s'', p) = tcp_send_control_packet (record s' { state = established }) tcp_ack in
          (s'', p ∷ []))
      else (s, [])

  -- In SYN_RECV, once the parent's queue has room and the packet is valid.
  pub accept_ack : Sock C → TcpCb → Sock C
  accept_ack s cb = acknowledge cb.ack (record s { rcv_nxt = cb.seq; snd_una = cb.ack })

  -- In ESTABLISHED, a packet with FIN.
  pub process_fin : Sock C → TcpCb → Sock C × List Segment
  process_fin s cb =
      if is_tcp_seq_valid s cb
      then (let s' = record (tcp_unset_retrans_timer s) {
        state = close_wait;
        rcv_nxt = add32 cb.seq 1;
      } in
          let (s'', p) = tcp_send_control_packet s' tcp_ack in (s'', p ∷ []))
      else (s, [])

  pub process_last_ack : Sock C → TcpCb → Sock C
  process_last_ack s cb =
      if has_flag cb.flags tcp_ack && is_tcp_seq_valid s cb
      then record (acknowledge cb.ack s) { state = closed }
      else s

  pub process_fin_wait_2 : Sock C → TcpCb → Sock C × List Segment
  process_fin_wait_2 s cb =
      if has_flag cb.flags tcp_fin
      then (let s' = record (tcp_unset_retrans_timer s) { rcv_nxt = add32 cb.seq 1 } in
          let (s'', p) = tcp_send_control_packet s' tcp_ack in
          (record s'' { state = time_wait }, p ∷ []))
      else (s, [])

  -- The test of FIN_WAIT_2 follows in the code, and sees the new state.
  pub process_fin_wait_1 : Sock C → TcpCb → Sock C × List Segment
  process_fin_wait_1 s cb =
      if has_flag cb.flags tcp_ack && is_tcp_seq_valid s cb
      then process_fin_wait_2 (record (acknowledge cb.ack s) { state = fin_wait_2 }) cb
      else (s, [])

  -- `tcp_sock_accept` on the socket that it takes from the queue.
  unfoldable pub accept_sock : C → Sock C → Sock C
  accept_sock one s = record s {
    state = established;
    nr_state = nr_open;
    cwnd = one;
    ssthresh = 16;
  }

  -- `tcp_sock_close` on the socket itself; in every state but four it only becomes closed.
  unfoldable pub close_by : TcpState → Sock C → Sock C × List Segment
  close_by close_wait s =
      let (s', p) = tcp_send_control_packet (tcp_set_retrans_timer s) (tcp_fin + tcp_ack) in
      (record s' { state = last_ack }, p ∷ [])
  close_by established s =
      let s' = tcp_set_retrans_timer (record s { state = fin_wait_1 }) in
      let (s'', p) = tcp_send_control_packet s' (tcp_fin + tcp_ack) in (s'', p ∷ [])
  close_by closed s = (s, [])
  close_by other s = (record s { state = closed }, [])

  unfoldable pub close_sock : Sock C → Sock C × List Segment
  unfolding close_by
  close_sock s = close_by s.state s

  -- `tcp_sock_read` once there are bytes: the bytes, and the socket after.
  pub read_sock : Sock C → ℕ → List ℕ × Sock C
  read_sock s len =
      let (bytes, rb) = read_ring_buffer s.rcv_buf len in
      (bytes, tcp_unset_retrans_timer (record s { rcv_buf = rb }))

  -- One round of the loop of `tcp_sock_write`: the segment, and the bytes that are left.
  pub write_round : Sock C → List ℕ → Sock C × Segment × List ℕ
  write_round s buf =
      let len = min (length buf) mss in
      let (s', p) = tcp_send_packet s (take len buf) in (s', p, drop len buf)

  -- A loop that sleeps while a test holds, on the number of wake-ups that it waits for. `wake` is what
  -- the other threads do to the socket until a wake-up.
  pub wait_while : (Sock C → Bool) → (ℕ → Sock C → Sock C) → ℕ → Sock C → Option (Sock C)
  wait_while test wake zero s = if test s then none else some s
  wait_while test wake (suc n) s =
      let rest = wait_while test wake n (wake n s) in if test s then rest else some s

  pub is_window_shut : Sock C → Bool
  is_window_shut s = is_allow_to_send s == 0

  pub is_unacked : Sock C → Bool
  is_unacked s = not (length s.send_buf == 0)

  -- The loop of `tcp_sock_write`, on fuel; it sleeps at the end of a round while the window is shut, for
  -- `m` wake-ups at most. The bytes that are left come last.
  pub write_loop :
      ℕ → (ℕ → ℕ → Sock C → Sock C) → ℕ → Sock C → List ℕ → Option (Sock C × List Segment × List ℕ)
  write_loop m others zero s buf = some (s, [], buf)
  write_loop m others (suc n) s buf =
      let (s', p, rest) = write_round s buf in
      let after = wait_while is_window_shut (others (suc n)) m s' >>= λ t.
      write_loop m others n t rest >>= λ r. some (r.0, p ∷ r.1, r.2) in
      if length buf == 0 then some (s, [], buf) else after

  -- With the wait for the last acknowledgement. A write that sleeps for more than `m` wake-ups in a row
  -- is `none`.
  pub tcp_sock_write :
      ℕ → (ℕ → ℕ → Sock C → Sock C) → Sock C → List ℕ → Option (Sock C × List Segment × List ℕ)
  tcp_sock_write m others s buf =
      write_loop m others (length buf) (tcp_set_retrans_timer s) buf >>= λ r.
      wait_while is_unacked (others 0) m r.0 >>= λ t. some (tcp_unset_retrans_timer t, r.1, r.2)

module _ (f : Float) where
  open f use {Cwnd, min_window}

  -- `tcp_update_window_safe`, with `tcp_update_window`.
  pub tcp_update_window_safe : Sock Cwnd → TcpCb → Sock Cwnd
  tcp_update_window_safe s cb =
      if less_or_equal_32b s.snd_una cb.ack && less_or_equal_32b cb.ack s.snd_nxt
      then record s { snd_wnd = min_window cb.rwnd s.cwnd }
      else s

  -- In ESTABLISHED, a packet without FIN that acknowledges and carries no data.
  pub process_ack : Sock Cwnd → TcpCb → Sock Cwnd × List Segment
  process_ack s cb =
      let s' = tcp_update_window_safe (record s { rcv_nxt = cb.seq; snd_una = cb.ack }) cb in
      tcp_new_reno_process f (tcp_update_retrans_timer s') cb.ack

  abbrev pub done : Sock Cwnd × List Segment → Received Cwnd
  done (s, out) = returned true s out

  pub process_established : Sock Cwnd → TcpCb → Received Cwnd
  process_established s cb =
      if has_flag cb.flags tcp_fin
      then done (process_fin s cb)
      else if has_flag cb.flags tcp_ack
      then (if length cb.payload == 0 then done (process_ack s cb) else handle_recv_data s cb)
      else returned true s []

  -- The rest of `tcp_process`, for the states in which only the socket itself changes.
  pub process_by : TcpState → Sock Cwnd → TcpCb → Received Cwnd
  process_by syn_sent s cb = done (process_syn_sent s cb)
  process_by established s cb = process_established s cb
  process_by last_ack s cb = returned true (process_last_ack s cb) []
  process_by fin_wait_1 s cb = done (process_fin_wait_1 s cb)
  process_by fin_wait_2 s cb = done (process_fin_wait_2 s cb)
  process_by other s cb = returned true s []
