-- ===== src/Tcp/Conn/Teardown.antt =====
-- Closing a connection between two sockets of the stack.
use ucas_computer_network.Common.{
  ◌+◌, ◌^◌, ◌<◌, ◌≡◌, refl, ap, ◌∙◌, sym, true, false, [], ◌∷◌, ◌++◌, arith,
}
use ucas_computer_network.Common.Words.{add32}
use ucas_computer_network.Tcp.Sock.{
  Sock, Segment, Float, TcpState, established, close_wait, last_ack, fin_wait_1, fin_wait_2,
  time_wait, closed, RetransTimer, stuck, tcp_fin, tcp_ack,
}
use ucas_computer_network.Tcp.Output.{
  TcpCb, tcp_cb_init, unlink_node, segment_of, tcp_send_control_packet, tcp_unset_retrans_timer,
  delete_send_buffer_entry,
}
use ucas_computer_network.Tcp.Output.Control.{fin_ack, announce, delete-one}
use ucas_computer_network.Tcp.Receive.{returned, is_tcp_seq_valid}
use ucas_computer_network.Tcp.Conn.{
  acknowledge, process_by, process_established, process_fin, process_fin_wait_1, process_fin_wait_2,
  process_last_ack, close_by, close_sock,
}
use ucas_computer_network.Tcp.Conn.Handshake.{Peers, next-valid}

module _ (f : Float) where
  open f use {Cwnd}

  -- `a` closes, `b` acknowledges and closes in turn, and `a` acknowledges.
  pub record Closes (a b : Sock Cwnd) : Type 0 where
    pub a₁ : Sock Cwnd
    pub a₂ : Sock Cwnd
    pub a₃ : Sock Cwnd
    pub b₁ : Sock Cwnd
    pub b₂ : Sock Cwnd
    pub b₃ : Sock Cwnd
    pub fin_a : Segment
    pub ack_b : Segment
    pub fin_b : Segment
    pub ack_a : Segment
    pub close_a : close_sock a ≡ (a₁, fin_a ∷ [])
    pub hear_b : process_by f b.state b (tcp_cb_init fin_a) ≡ returned true b₁ (ack_b ∷ [])
    pub hear_a : process_by f a₁.state a₁ (tcp_cb_init ack_b) ≡ returned true a₂ []
    pub close_b : close_sock b₁ ≡ (b₂, fin_b ∷ [])
    pub last_a : process_by f a₂.state a₂ (tcp_cb_init fin_b) ≡ returned true a₃ (ack_a ∷ [])
    pub last_b : process_by f b₂.state b₂ (tcp_cb_init ack_a) ≡ returned true b₃ []
    pub waits : a₃.state ≡ time_wait
    pub gone : b₃.state ≡ closed
    pub nothing_left : (a₃.send_buf ≡ []) × (b₃.send_buf ≡ [])
    pub timers_left : (a₃.retrans_timer.node ≡ stuck) × (b₃.retrans_timer.node ≡ stuck)

  -- The socket after it has sent FIN, in the state `st`.
  finished : TcpState → RetransTimer → Sock Cwnd → Sock Cwnd
  finished st t s = record s {
    state = st;
    snd_nxt = add32 s.snd_nxt 1;
    send_buf = segment_of s (tcp_fin + tcp_ack) [] ∷ [];
    retrans_timer = t;
  }

  close_established :
      (s : Sock Cwnd)
      → s.state ≡ established
      → s.send_buf ≡ []
      → (t : RetransTimer) × (close_sock s
          ≡ (finished fin_wait_1 t s, segment_of s (tcp_fin + tcp_ack) [] ∷ []))
        × (s.retrans_timer.enable ≡ false → t.node ≡ stuck)
  unfolding close_sock close_by finished segment_of
  close_established s on empty =
      let p = segment_of s (tcp_fin + tcp_ack) [] in
      let s' = record s { state = fin_wait_1 } in
      let (t, e, n) = announce s' fin_ack in
      (
        t,
        ap (λ st. close_by st s) on
            ∙ ap (λ r. (r.0, r.1 ∷ [])) e
            ∙ ap
                (λ ps. (
                  record s' {
                    snd_nxt = add32 s.snd_nxt 1;
                    send_buf = ps ++ (p ∷ []);
                    retrans_timer = t;
                  },
                  p ∷ [],
                ))
                empty,
        n,
      )

  close_waiting :
      (s : Sock Cwnd)
      → s.state ≡ close_wait
      → s.send_buf ≡ []
      → (t : RetransTimer) × (close_sock s
          ≡ (finished last_ack t s, segment_of s (tcp_fin + tcp_ack) [] ∷ []))
        × (s.retrans_timer.enable ≡ false → t.node ≡ stuck)
  unfolding close_sock close_by finished segment_of
  close_waiting s on empty =
      let p = segment_of s (tcp_fin + tcp_ack) [] in
      let (t, e, n) = announce s fin_ack in
      (
        t,
        ap (λ st. close_by st s) on
            ∙ ap (λ r. (record (r.0) { state = last_ack }, r.1 ∷ [])) e
            ∙ ap
                (λ ps. (
                  record s {
                    state = last_ack;
                    snd_nxt = add32 s.snd_nxt 1;
                    send_buf = ps ++ (p ∷ []);
                    retrans_timer = t;
                  },
                  p ∷ [],
                ))
                empty,
        n,
      )

  -- The socket after it has heard FIN, in the state `st`.
  heard : TcpState → TcpCb → Sock Cwnd → Sock Cwnd
  heard st cb s = record (tcp_unset_retrans_timer s) { state = st; rcv_nxt = add32 cb.seq 1 }

  hear_fin :
      (s : Sock Cwnd) (cb : TcpCb)
      → s.state ≡ established
      → cb.flags ≡ tcp_fin + tcp_ack
      → is_tcp_seq_valid s cb ≡ true
      → process_by f s.state s cb
        ≡ returned true (heard close_wait cb s) (segment_of (heard close_wait cb s) tcp_ack [] ∷ [])
  unfolding process_by process_established process_fin tcp_send_control_packet
      tcp_unset_retrans_timer segment_of heard
  hear_fin s cb on fl ok = ap (λ st. process_by f st s cb) on ∙ rw (ok, fl) refl

  hear_ack :
      (s : Sock Cwnd) (cb : TcpCb)
      → s.state ≡ fin_wait_1
      → cb.flags ≡ tcp_ack
      → is_tcp_seq_valid s cb ≡ true
      → process_by f s.state s cb
        ≡ returned true (record (acknowledge cb.ack s) { state = fin_wait_2 }) []
  unfolding process_by process_fin_wait_1 process_fin_wait_2
  hear_ack s cb on fl ok = ap (λ st. process_by f st s cb) on ∙ rw (ok, fl) refl

  hear_last_fin :
      (s : Sock Cwnd) (cb : TcpCb)
      → s.state ≡ fin_wait_2
      → cb.flags ≡ tcp_fin + tcp_ack
      → process_by f s.state s cb
        ≡ returned true (heard time_wait cb s) (segment_of (heard time_wait cb s) tcp_ack [] ∷ [])
  unfolding process_by process_fin_wait_2 tcp_send_control_packet tcp_unset_retrans_timer segment_of
      heard
  hear_last_fin s cb on fl = ap (λ st. process_by f st s cb) on ∙ rw fl refl

  pub hear_last_ack :
      (s : Sock Cwnd) (cb : TcpCb)
      → s.state ≡ last_ack
      → cb.flags ≡ tcp_ack
      → is_tcp_seq_valid s cb ≡ true
      → process_by f s.state s cb
        ≡ returned true (record (acknowledge cb.ack s) { state = closed }) []
  unfolding process_by process_last_ack
  hear_last_ack s cb on fl ok = ap (λ st. process_by f st s cb) on ∙ rw (ok, fl) refl

  -- When one end of an open connection with nothing in flight closes it, and then the other, the four
  -- packets that they send are all accepted: the first end waits in TIME_WAIT, the second is closed,
  -- and neither has a packet left to send again. But where the timers have not been enabled, which
  -- nothing in the code does, the retransmission timers of both are left in the list for good, since
  -- closing links each of them twice.
  pub teardown :
      (a b : Sock Cwnd)
      → Peers a b
      → a.snd_nxt < 2 ^ 32
      → b.snd_nxt < 2 ^ 32
      → a.rcv_wnd < 2 ^ 31
      → b.rcv_wnd < 2 ^ 31
      → a.retrans_timer.enable ≡ false
      → b.retrans_timer.enable ≡ false
      → Closes a b
  unfolding unlink_node finished heard segment_of tcp_cb_init acknowledge tcp_unset_retrans_timer
  teardown a b peers ha hb wa wb off_a off_b =
      let fin_a = segment_of a (tcp_fin + tcp_ack) [] in
      let (t, closed_a, stuck_a) = close_established a peers.open_a peers.empty_a in
      let a₁ = finished fin_wait_1 t a in
      let b₁ = heard close_wait (tcp_cb_init fin_a) b in
      let ack_b = segment_of b₁ tcp_ack [] in
      let a₂ = record (acknowledge ack_b.ack a₁) { state = fin_wait_2 } in
      let fin_b = segment_of b₁ (tcp_fin + tcp_ack) [] in
      let (u, closed_b, stuck_b) = close_waiting b₁ refl peers.empty_b in
      let b₂ = finished last_ack u b₁ in
      let a₃ = heard time_wait (tcp_cb_init fin_b) a₂ in
      let ack_a = segment_of a₃ tcp_ack [] in
      let emptied_a : delete_send_buffer_entry a₁.send_buf ack_b.ack ≡ ([], true) =
        delete-one fin_a ha in
      let emptied_b : delete_send_buffer_entry b₂.send_buf ack_a.ack ≡ ([], true) =
        delete-one fin_b hb in
      record {
        a₁ = a₁;
        a₂ = a₂;
        a₃ = a₃;
        b₁ = b₁;
        b₂ = b₂;
        b₃ = record (acknowledge ack_a.ack b₂) { state = closed };
        fin_a = fin_a;
        ack_b = ack_b;
        fin_b = fin_b;
        ack_a = ack_a;
        close_a = closed_a;
        hear_b = hear_fin b (tcp_cb_init fin_a) peers.open_b refl (
            next-valid b (tcp_cb_init fin_a) 1 (omega (arith, peers.to_b)) wb (sym peers.to_b)
              (omega (arith, peers.to_b)) (omega arith));
        hear_a = hear_ack a₁ (tcp_cb_init ack_b) refl refl (
            next-valid a₁ (tcp_cb_init ack_b) 0 (omega (arith, peers.to_a)) wa (sym peers.to_a)
              (omega (arith, peers.to_a)) (omega arith));
        close_b = closed_b;
        last_a = hear_last_fin a₂ (tcp_cb_init fin_b) refl refl;
        last_b =
            hear_last_ack b₂ (tcp_cb_init ack_a) refl refl (
              next-valid b₂ (tcp_cb_init ack_a) 0 (omega arith) wb refl (omega arith)
                (omega arith));
        waits = refl;
        gone = refl;
        nothing_left = (ap (λ r. r.0) emptied_a, ap (λ r. r.0) emptied_b);
        timers_left =
            (ap (λ n. unlink_node (unlink_node n)) (stuck_a off_a), ap unlink_node (stuck_b off_b));
      }
