-- ===== src/Tcp/Reno/Closing.antt =====
-- Congestion control leaves the state of the connection alone, but for the timeout that gives up.
use ucas_computer_network.Common.{
  ℕ, ◌-◌, ◌≡◌, ◌⊎◌, refl, ◌∙◌, Bool, true, false, not, ◌&&◌, leb, ltb, ◌==◌, arith, Bool-cases, inl,
  inr,
}
use ucas_computer_network.Tcp.Sock.{
  Sock, Float, closed, NrState, nr_open, nr_loss, nr_disorder, nr_recovery, nr_cwr, tcp_rst,
}
use ucas_computer_network.Tcp.Output.{
  retrans_send_buffer_packet, tcp_unset_retrans_timer, is_linked,
}
use ucas_computer_network.Tcp.Output.State.{state-send, state-retransmit}
use ucas_computer_network.Tcp.Reno.{
  update_cwnd, shrink_cwnd, enter_recovery, dup_ack, reno_step, tcp_new_reno_process,
  retrans_timeout, count_down, scan_retrans_timer, give_up, back_off, is_closed,
  tcp_retrans_scan_interval,
}

module _ (f : Float) where
  open f use {Cwnd}

  state-retrans : (s : Sock Cwnd) → (retrans_send_buffer_packet s).0.state ≡ s.state
  unfolding retrans_send_buffer_packet
  state-retrans s = state-retransmit s s.send_buf

  state-update_cwnd : (s : Sock Cwnd) → (update_cwnd f s).state ≡ s.state
  unfolding update_cwnd
  state-update_cwnd s = ground arith

  state-shrink : (s : Sock Cwnd) → (shrink_cwnd f s).state ≡ s.state
  unfolding shrink_cwnd
  state-shrink s = ground arith

  state-enter : (s : Sock Cwnd) → (enter_recovery f s).0.state ≡ s.state
  unfolding enter_recovery
  state-enter s = state-retrans _

  state-step :
      (nr : NrState) (fresh : Bool) (s : Sock Cwnd) (ack : ℕ)
      → (reno_step f nr fresh s ack).0.state ≡ s.state
  unfolding reno_step dup_ack
  state-step nr_open true s ack = state-update_cwnd s
  state-step nr_open false s ack = state-update_cwnd _
  state-step nr_disorder true s ack = state-update_cwnd s
  state-step nr_disorder false s ack =
      let s' = update_cwnd f (dup_ack f s) in
      elim (Bool-cases (s'.dupacks == 3)) [
        | inl third ↦ rw third (state-enter s' ∙ state-update_cwnd _)
        | inr other ↦ rw other (state-update_cwnd _)
      ]
  state-step nr_loss true s ack =
      let s' = update_cwnd f s in
      elim (Bool-cases (leb s'.loss_point ack)) [
        | inl over ↦ rw over (state-update_cwnd s)
        | inr more ↦ rw more (state-update_cwnd s)
      ]
  state-step nr_loss false s ack = state-update_cwnd _
  state-step nr_recovery true s ack =
      let s' = shrink_cwnd f s in
      elim (Bool-cases (ltb ack s'.recovery_point)) [
        | inl partial ↦ rw partial (state-retrans s' ∙ state-shrink s)
        | inr full ↦ rw full (state-shrink s)
      ]
  state-step nr_recovery false s ack = state-shrink _
  state-step nr_cwr fresh s ack = refl

  pub state-process : (s : Sock Cwnd) (ack : ℕ) → (tcp_new_reno_process f s ack).0.state ≡ s.state
  unfolding tcp_new_reno_process
  state-process s ack = state-step _ _ _ ack

  state-count_down :
      (s : Sock Cwnd) → ((count_down f s).0.state ≡ s.state) ⊎ ((count_down f s).0.state ≡ closed)
  unfolding count_down retrans_timeout give_up back_off tcp_unset_retrans_timer
  state-count_down s =
      elim (Bool-cases (s.retrans_timer.timeout - tcp_retrans_scan_interval == 0)) [
        | inl due ↦
            rw due
              (elim (Bool-cases (leb 8 s.retrans_timer.retrans_time && not (is_closed s.state))) [
                | inl over ↦ rw over (inr (state-send _ tcp_rst))
                | inr more ↦ rw more (elim (Bool-cases (not (is_closed s.state))) [
                  | inl live ↦ rw live (inl (state-retrans _))
                  | inr dead ↦ rw dead (inl refl)
                ])
              ])
        | inr early ↦ rw early (inl refl)
      ]

  pub state-scan :
      (s : Sock Cwnd)
      → ((scan_retrans_timer f s).0.state ≡ s.state) ⊎ ((scan_retrans_timer f s).0.state ≡ closed)
  unfolding scan_retrans_timer
  state-scan s = elim (Bool-cases (is_linked s.retrans_timer.node)) [
    | inl linked ↦ rw linked (state-count_down s)
    | inr away ↦ rw away (inl refl)
  ]
