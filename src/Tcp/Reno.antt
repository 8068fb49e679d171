-- ===== src/Tcp/Reno.antt =====
-- Congestion control: `update_cwnd` and `tcp_new_reno_process` of tcp_in.c, and the retransmission
-- timer of tcp_timer.c, in EXP18-TCP_Stack_4/code/18-tcp_stack. The congestion window is a float.
pub mod States
pub mod Closing
pub mod Recovery
pub mod Timeout
use ucas_computer_network.Common.{
  ℕ, zero, suc, ◌+◌, ◌-◌, ◌*◌, ◌^◌, Bool, true, false, not, ◌&&◌, List, [], ◌∷◌, if◌then◌else◌, ltb,
  leb, ◌==◌, max,
}
use ucas_computer_network.Common.Words.{add32}
use ucas_computer_network.Tcp.Sock.{
  Sock, Segment, Float, TcpState, closed, NrState, nr_open, nr_loss, nr_disorder, nr_recovery,
  nr_cwr, RetransTimer, tcp_rst,
}
use ucas_computer_network.Tcp.Output.{
  delete_send_buffer_entry, retrans_send_buffer_packet, tcp_send_control_packet,
  tcp_unset_retrans_timer, tcp_retrans_interval_initial, is_linked,
}

abbrev pub tcp_retrans_scan_interval : ℕ
tcp_retrans_scan_interval = 10000

pub is_closed : TcpState → Bool
is_closed closed = true
is_closed other = false

module _ (f : Float) where
  open f use {Cwnd, one, increment, add_inverse, minus_half, half_to_u32, to_int, above}

  pub update_cwnd : Sock Cwnd → Sock Cwnd
  update_cwnd s =
      if ltb (to_int s.cwnd) s.ssthresh
      then record s { cwnd = increment s.cwnd }
      else record s { cwnd = add_inverse s.cwnd }

  -- What the duplicate acknowledgements and the window do in fast recovery.
  pub shrink_cwnd : Sock Cwnd → Sock Cwnd
  shrink_cwnd s =
      if above s.cwnd s.ssthresh && not s.cwnd_flag
      then record s { cwnd = minus_half s.cwnd }
      else record s { cwnd_flag = true }

  pub enter_recovery : Sock Cwnd → Sock Cwnd × List Segment
  enter_recovery s =
      let s' = record s {
        ssthresh = max (half_to_u32 s.cwnd) 1;
        cwnd = minus_half s.cwnd;
        cwnd_flag = false;
        recovery_point = s.snd_nxt;
      } in
      let (s'', out) = retrans_send_buffer_packet s' in (record s'' { nr_state = nr_recovery }, out)

  pub dup_ack : Sock Cwnd → Sock Cwnd
  dup_ack s = record s { dupacks = add32 s.dupacks 1 }

  -- By the state, and whether the packet acknowledged a packet of the send buffer.
  pub reno_step : NrState → Bool → Sock Cwnd → ℕ → Sock Cwnd × List Segment
  reno_step nr_open true s ack = (update_cwnd s, [])
  reno_step nr_open false s ack = (record (update_cwnd (dup_ack s)) { nr_state = nr_disorder }, [])
  reno_step nr_disorder true s ack =
      (record (update_cwnd s) { nr_state = nr_open; dupacks = 0 }, [])
  reno_step nr_disorder false s ack =
      let s' = update_cwnd (dup_ack s) in if s'.dupacks == 3 then enter_recovery s' else (s', [])
  reno_step nr_loss true s ack =
      let s' = update_cwnd s in
      (if leb s'.loss_point ack then record s' { nr_state = nr_open; dupacks = 0 } else s', [])
  reno_step nr_loss false s ack = (update_cwnd (dup_ack s), [])
  reno_step nr_recovery true s ack =
      let s' = shrink_cwnd s in
      if ltb ack s'.recovery_point
      then retrans_send_buffer_packet s'
      else (record s' { nr_state = nr_open; dupacks = 0 }, [])
  reno_step nr_recovery false s ack = (shrink_cwnd (dup_ack s), [])
  reno_step nr_cwr fresh s ack = (s, [])

  pub tcp_new_reno_process : Sock Cwnd → ℕ → Sock Cwnd × List Segment
  tcp_new_reno_process s ack =
      let (rest, fresh) = delete_send_buffer_entry s.send_buf ack in
      reno_step s.nr_state fresh (record s { send_buf = rest }) ack

  -- After eight retransmissions the connection is closed with a reset. (Threads that wait on the socket are told to leave, and its port is released.)
  pub give_up : Sock Cwnd → Sock Cwnd × List Segment
  give_up s =
      let s' = record (tcp_unset_retrans_timer s) { state = closed } in
      let (s'', p) = tcp_send_control_packet s' tcp_rst in (s'', p ∷ [])

  pub back_off : Sock Cwnd → Sock Cwnd × List Segment
  back_off s =
      let t = s.retrans_timer in
      retrans_send_buffer_packet (record s {
        ssthresh = max (half_to_u32 s.cwnd) 1;
        cwnd = one;
        nr_state = nr_loss;
        loss_point = s.snd_nxt;
        retrans_timer = record t {
          retrans_time = t.retrans_time + 1;
          timeout = tcp_retrans_interval_initial * (2 * 2 ^ (t.retrans_time + 1));
        };
      })

  -- The body of the loop of `tcp_scan_retrans_timer_list` for one socket whose timeout has come, with
  -- what it sends.
  pub retrans_timeout : Sock Cwnd → Sock Cwnd × List Segment
  retrans_timeout s =
      if leb 8 s.retrans_timer.retrans_time && not (is_closed s.state)
      then give_up s
      else if not (is_closed s.state)
      then back_off s
      else (s, [])

  -- A round of the loop of `tcp_scan_retrans_timer_list`. The timeout is only ever compared with 0, so
  -- it stops there.
  unfoldable pub count_down : Sock Cwnd → Sock Cwnd × List Segment
  count_down s =
      let left = s.retrans_timer.timeout - tcp_retrans_scan_interval in
      let s' = record s { retrans_timer = record (s.retrans_timer) { timeout = left } } in
      if left == 0 then retrans_timeout s' else (s', [])

  -- What `tcp_scan_retrans_timer_list` does to a socket: nothing unless its timer is in the list.
  unfoldable pub scan_retrans_timer : Sock Cwnd → Sock Cwnd × List Segment
  scan_retrans_timer s = if is_linked s.retrans_timer.node then count_down s else (s, [])
