-- ===== src/Tcp/Reno/Timeout.antt =====
-- The retransmission timer: it backs off exponentially within its bounds, and gives up.
use native.Mathlib.Nat.{pow-le-pow_right}
use ucas_computer_network.Common.{
  ℕ, zero, suc, ◌+◌, ◌-◌, ◌*◌, ◌^◌, ◌≤◌, ◌<◌, ◌≡◌, refl, ap, ◌∙◌, true, not, ◌&&◌, List, [], ◌∷◌,
  arith, leb, ◌==◌, Bool-cases, inl, inr, ◌⊎◌,
}
use ucas_computer_network.Tcp.Sock.{Sock, Segment, Float, RetransTimer}
use ucas_computer_network.Tcp.Output.{
  is_linked, tcp_unset_retrans_timer, retrans_send_buffer_packet, retransmit,
  tcp_send_control_packet,
}
use ucas_computer_network.Tcp.Reno.{
  is_closed, give_up, back_off, retrans_timeout, count_down, scan_retrans_timer,
  tcp_retrans_scan_interval,
}

-- At most eight retransmissions, and the timeout at most 102.4 seconds.
abbrev pub TimerOk : RetransTimer → Type 0
TimerOk t = (t.retrans_time ≤ 8) × (t.timeout ≤ 102400000)

-- What is left until the stack gives up, in the worst case.
abbrev pub patience : RetransTimer → ℕ
patience t = (8 - t.retrans_time) * 102400001 + t.timeout

pow_bound : (n : ℕ) → n ≤ 8 → 2 ^ n ≤ 256
pow_bound n h = pow-le-pow_right {n = 2} (omega arith) h

weaken : {A : Type 0} (B : Type 0) (n m k : ℕ) → m ≤ k → A ⊎ (B × (n < m)) → A ⊎ (B × (n < k))
weaken B n m k h (inl a) = inl a
weaken B n m k h (inr (b, l)) = inr (b, omega arith)

module _ (f : Float) where
  open f use {Cwnd}

  pub scans : ℕ → Sock Cwnd → Sock Cwnd
  scans zero s = s
  scans (suc n) s = scans n (scan_retrans_timer f s).0

  retransmit-same :
      (s : Sock Cwnd) (b : List Segment)
      → ((retransmit s b).0.retrans_timer ≡ s.retrans_timer) × ((retransmit s b).0.state ≡ s.state)
  unfolding retransmit
  retransmit-same s [] = (refl, refl)
  retransmit-same s (p ∷ ps) = (refl, refl)

  back_off-timer :
      (s : Sock Cwnd)
      → let t = (back_off f s).0.retrans_timer in
        (t.retrans_time ≡ s.retrans_timer.retrans_time + 1)
        × (t.timeout ≡ 200000 * (2 * 2 ^ (s.retrans_timer.retrans_time + 1)))
        × (t.node ≡ s.retrans_timer.node)
  unfolding back_off retrans_send_buffer_packet
  back_off-timer s = rw ((retransmit-same _ s.send_buf).0) (refl, refl, refl)

  -- What one scan leads to: the socket is closed, or the timer is in the list as before and has used up
  -- patience.
  abbrev Progress : RetransTimer → Sock Cwnd → Type 0
  Progress t s' =
      TimerOk s'.retrans_timer
      × ((is_closed s'.state ≡ true)
          ⊎ ((s'.retrans_timer.node ≡ t.node) × (patience s'.retrans_timer < patience t)))

  back_off-Progress :
      (s : Sock Cwnd) → s.retrans_timer.retrans_time < 8 → Progress s.retrans_timer (back_off f s).0
  back_off-Progress s h =
      let (count, late, same) = back_off-timer s in
      let bound = pow_bound (s.retrans_timer.retrans_time + 1) (omega arith) in
      ((omega arith, omega arith), inr (same, omega arith))

  timeout-Progress :
      (s : Sock Cwnd) → TimerOk s.retrans_timer → Progress s.retrans_timer (retrans_timeout f s).0
  unfolding retrans_timeout give_up tcp_send_control_packet tcp_unset_retrans_timer is_closed
  timeout-Progress s h =
      elim (Bool-cases (leb 8 s.retrans_timer.retrans_time && not (is_closed s.state))) [
        | inl over ↦ rw over (h, inl refl)
        | inr more ↦ rw more (elim (Bool-cases (not (is_closed s.state))) [
          | inl live ↦ rw live (back_off-Progress s (ground arith))
          | inr dead ↦ rw dead (h, inl (ground arith))
        ])
      ]

  count_down-Progress :
      (s : Sock Cwnd) → TimerOk s.retrans_timer → Progress s.retrans_timer (count_down f s).0
  unfolding count_down
  count_down-Progress s h =
      elim (Bool-cases (s.retrans_timer.timeout - tcp_retrans_scan_interval == 0)) [
        | inl due ↦
            let (ok, rest) = timeout-Progress expired (h.0, omega arith) in
            rw due (ok, weaken _ _ (patience expired.retrans_timer) _ (omega arith) rest)
        | inr early ↦ rw early ((h.0, omega arith), inr (refl, ground arith))
      ]
    where
      expired : Sock Cwnd
      expired = record s {
        retrans_timer = record (s.retrans_timer) {
          timeout = s.retrans_timer.timeout - tcp_retrans_scan_interval;
        };
      }

  scan-linked :
      (s : Sock Cwnd)
      → is_linked s.retrans_timer.node ≡ true
      → scan_retrans_timer f s ≡ count_down f s
  unfolding scan_retrans_timer
  scan-linked s on = rw on refl

  count_down_closed :
      (s : Sock Cwnd) → is_closed s.state ≡ true → is_closed (count_down f s).0.state ≡ true
  unfolding count_down retrans_timeout
  count_down_closed s h = ground arith

  scan_closed :
      (s : Sock Cwnd) → is_closed s.state ≡ true → is_closed (scan_retrans_timer f s).0.state ≡ true
  unfolding scan_retrans_timer
  scan_closed s h = elim (Bool-cases (is_linked s.retrans_timer.node)) [
    | inl on ↦ rw on (count_down_closed s h)
    | inr off ↦ rw off h
  ]

  scans_closed :
      (n : ℕ) (s : Sock Cwnd) → is_closed s.state ≡ true → is_closed (scans n s).state ≡ true
  unfolding scans
  scans_closed zero s h = h
  scans_closed (suc n) s h = scans_closed n (scan_retrans_timer f s).0 (scan_closed s h)

  -- A socket that hears nothing while its retransmission timer is in the list is closed: from any timer
  -- within its bounds, the scans of the list close the socket within as many scans as the timer has
  -- patience.
  pub scans-closed :
      (n : ℕ) (s : Sock Cwnd)
      → is_linked s.retrans_timer.node ≡ true
      → TimerOk s.retrans_timer
      → patience s.retrans_timer < n
      → is_closed (scans n s).state ≡ true
  unfolding scans
  scans-closed zero s on h k = absurd (omega arith)
  scans-closed (suc n) s on h k =
      let (ok, rest) = count_down-Progress s h in
      ap (λ r. is_closed (scans n r.0).state) (scan-linked s on)
      ∙ go n (count_down f s).0 rest (λ same less.
        scans-closed n (count_down f s).0 (ap is_linked same ∙ on) ok (omega (arith, less, k)))
    where
      go :
          (n : ℕ) (s' : Sock Cwnd)
          → ((is_closed s'.state ≡ true)
              ⊎ ((s'.retrans_timer.node ≡ s.retrans_timer.node)
                  × (patience s'.retrans_timer < patience s.retrans_timer)))
          → (s'.retrans_timer.node ≡ s.retrans_timer.node
              → patience s'.retrans_timer < patience s.retrans_timer
              → is_closed (scans n s').state ≡ true)
          → is_closed (scans n s').state ≡ true
      go n s' (inl done) more = scans_closed n s' done
      go n s' (inr (same, less)) more = more same less

  scan-TimerOk :
      (s : Sock Cwnd) → TimerOk s.retrans_timer → TimerOk (scan_retrans_timer f s).0.retrans_timer
  unfolding scan_retrans_timer
  scan-TimerOk s h = elim (Bool-cases (is_linked s.retrans_timer.node)) [
    | inl on ↦ rw on (count_down-Progress s h).0
    | inr off ↦ rw off h
  ]

  -- The timer stays within its bounds for any number of scans: at most eight retransmissions, and a
  -- timeout of at most 102.4 seconds, which an `int` of microseconds holds.
  pub scans-TimerOk :
      (n : ℕ) (s : Sock Cwnd) → TimerOk s.retrans_timer → TimerOk (scans n s).retrans_timer
  unfolding scans
  scans-TimerOk zero s h = h
  scans-TimerOk (suc n) s h = scans-TimerOk n (scan_retrans_timer f s).0 (scan-TimerOk s h)
