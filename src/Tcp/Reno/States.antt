-- ===== src/Tcp/Reno/States.antt =====
-- The congestion states and the count of duplicate acknowledgements.
use ucas_computer_network.Common.{
  ℕ, ◌-◌, ◌≤◌, ◌≡◌, refl, Bool, true, false, not, ◌&&◌, List, [], ◌∷◌, arith, ltb, leb, ◌==◌,
  Bool-cases, inl, inr, ◌∙◌,
}
use ucas_computer_network.Tcp.Sock.{
  Sock, Segment, Float, NrState, nr_open, nr_loss, nr_disorder, nr_recovery, nr_cwr,
}
use ucas_computer_network.Tcp.Output.{
  is_linked, tcp_unset_retrans_timer, delete_send_buffer_entry, retrans_send_buffer_packet,
  retransmit, tcp_send_control_packet,
}
use ucas_computer_network.Tcp.Reno.{
  update_cwnd, shrink_cwnd, enter_recovery, dup_ack, reno_step, tcp_new_reno_process,
  retrans_timeout, count_down, scan_retrans_timer, give_up, back_off, is_closed,
  tcp_retrans_scan_interval,
}

-- No duplicates while open, one or two in disorder; `nr_cwr` is never entered.
abbrev pub CountOk : NrState → ℕ → Type 0
CountOk nr_open n = n ≡ 0
CountOk nr_loss n = Unit {0}
CountOk nr_disorder n = (1 ≤ n) × (n ≤ 2)
CountOk nr_recovery n = Unit {0}
CountOk nr_cwr n = ⊥

recovery_any : (nr : NrState) (n : ℕ) → nr ≡ nr_recovery → CountOk nr n
recovery_any nr_open n e = cc
recovery_any nr_loss n e = tt
recovery_any nr_disorder n e = cc
recovery_any nr_recovery n e = tt
recovery_any nr_cwr n e = cc

loss_any : (nr : NrState) (n : ℕ) → nr ≡ nr_loss → CountOk nr n
loss_any nr_open n e = cc
loss_any nr_loss n e = tt
loss_any nr_disorder n e = cc
loss_any nr_recovery n e = tt
loss_any nr_cwr n e = cc

module _ (f : Float) where
  open f use {Cwnd}

  abbrev pub NrInv : Sock Cwnd → Type 0
  NrInv s = CountOk s.nr_state s.dupacks

  retrans-same :
      (s : Sock Cwnd)
      → ((retrans_send_buffer_packet s).0.nr_state ≡ s.nr_state)
        × ((retrans_send_buffer_packet s).0.dupacks ≡ s.dupacks)
  unfolding retrans_send_buffer_packet
  retrans-same s = elim_buffer s.send_buf
    where
      elim_buffer :
          (b : List Segment)
          → ((retransmit s b).0.nr_state ≡ s.nr_state) × ((retransmit s b).0.dupacks ≡ s.dupacks)
      elim_buffer [] = (refl, refl)
      elim_buffer (p ∷ ps) = (refl, refl)

  nr_state-shrink : (s : Sock Cwnd) → (shrink_cwnd f s).nr_state ≡ s.nr_state
  unfolding shrink_cwnd
  nr_state-shrink s = ground arith

  reno_step-NrInv :
      (nr : NrState) (fresh : Bool) (s : Sock Cwnd) (ack : ℕ)
      → s.nr_state ≡ nr
      → CountOk nr s.dupacks
      → NrInv (reno_step f nr fresh s ack).0
  unfolding reno_step update_cwnd shrink_cwnd dup_ack enter_recovery
  reno_step-NrInv nr_open true s ack e h = ground arith
  reno_step-NrInv nr_open false s ack e h = ground arith
  reno_step-NrInv nr_disorder true s ack e h = ground arith
  reno_step-NrInv nr_disorder false s ack e h = ground arith
  reno_step-NrInv nr_loss true s ack e h = ground arith
  reno_step-NrInv nr_loss false s ack e h = ground arith
  reno_step-NrInv nr_recovery true s ack e h =
      elim (Bool-cases (ltb ack (shrink_cwnd f s).recovery_point)) [
        | inl partial ↦
            rw partial
              (recovery_any _ _ ((retrans-same (shrink_cwnd f s)).0 ∙ nr_state-shrink s ∙ e))
        | inr full ↦ rw full refl
      ]
  reno_step-NrInv nr_recovery false s ack e h = ground arith
  reno_step-NrInv nr_cwr fresh s ack e h = absurd h

  process-NrInv : (s : Sock Cwnd) (ack : ℕ) → NrInv s → NrInv (tcp_new_reno_process f s ack).0
  unfolding tcp_new_reno_process
  process-NrInv s ack h =
      let (rest, fresh) = delete_send_buffer_entry s.send_buf ack in
      reno_step-NrInv s.nr_state fresh (record s { send_buf = rest }) ack refl h

  back_off-NrInv : (s : Sock Cwnd) → NrInv (back_off f s).0
  unfolding back_off
  back_off-NrInv s = loss_any _ _ (retrans-same _).0

  give_up-NrInv : (s : Sock Cwnd) → NrInv s → NrInv (give_up f s).0
  unfolding give_up tcp_send_control_packet tcp_unset_retrans_timer
  give_up-NrInv s h = h

  timeout-NrInv : (s : Sock Cwnd) → NrInv s → NrInv (retrans_timeout f s).0
  unfolding retrans_timeout
  timeout-NrInv s h =
      elim (Bool-cases (leb 8 s.retrans_timer.retrans_time && not (is_closed s.state))) [
        | inl over ↦ rw over (give_up-NrInv s h)
        | inr more ↦ rw more (elim (Bool-cases (not (is_closed s.state))) [
          | inl live ↦ rw live (back_off-NrInv s)
          | inr dead ↦ rw dead h
        ])
      ]

  count_down-NrInv : (s : Sock Cwnd) → NrInv s → NrInv (count_down f s).0
  unfolding count_down
  count_down-NrInv s h =
      elim (Bool-cases (s.retrans_timer.timeout - tcp_retrans_scan_interval == 0)) [
        | inl due ↦ rw due (timeout-NrInv _ h)
        | inr early ↦ rw early h
      ]

  scan-NrInv : (s : Sock Cwnd) → NrInv s → NrInv (scan_retrans_timer f s).0
  unfolding scan_retrans_timer
  scan-NrInv s h = elim (Bool-cases (is_linked s.retrans_timer.node)) [
    | inl linked ↦ rw linked (count_down-NrInv s h)
    | inr away ↦ rw away h
  ]

  -- What the receiving thread and the timer thread do to the congestion state.
  pub data RenoEvent : Type 0 where
    acked : ℕ → RenoEvent
    scanned : RenoEvent

  pub run_reno : Sock Cwnd → List RenoEvent → Sock Cwnd
  run_reno s [] = s
  run_reno s (acked n ∷ es) = run_reno (tcp_new_reno_process f s n).0 es
  run_reno s (scanned ∷ es) = run_reno (scan_retrans_timer f s).0 es

  -- Over any sequence of acknowledgements and timer scans, a socket in which no duplicate is counted
  -- while its state is open, and one or two in disorder, stays such a socket, and never enters the
  -- state `nr_cwr`.
  pub run_reno-NrInv : (s : Sock Cwnd) (es : List RenoEvent) → NrInv s → NrInv (run_reno s es)
  unfolding run_reno
  run_reno-NrInv s [] h = h
  run_reno-NrInv s (acked n ∷ es) h =
      run_reno-NrInv (tcp_new_reno_process f s n).0 es (process-NrInv s n h)
  run_reno-NrInv s (scanned ∷ es) h = run_reno-NrInv (scan_retrans_timer f s).0 es (scan-NrInv s h)
