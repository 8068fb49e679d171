-- ===== src/Tcp/Reno/Recovery.antt =====
-- Fast retransmit.
use ucas_computer_network.Common.{ℕ, ◌≡◌, false, List, [], ◌∷◌, arith, ◌∙◌, ap, ◌++◌, subst, sym}
use ucas_computer_network.Tcp.Sock.{
  Sock, Segment, Float, NrState, nr_open, nr_disorder, nr_recovery,
}
use ucas_computer_network.Tcp.Output.{delete_send_buffer_entry, retrans_send_buffer_packet}
use ucas_computer_network.Tcp.Reno.{
  update_cwnd, enter_recovery, dup_ack, reno_step, tcp_new_reno_process,
}

module _ (f : Float) where
  open f use {Cwnd}

  -- An acknowledgement that frees nothing in the send buffer.
  abbrev pub Duplicate : List Segment → ℕ → Type 0
  Duplicate b ack = delete_send_buffer_entry b ack ≡ (b, false)

  -- What leaves the host during a run of acknowledgements.
  pub acks : Sock Cwnd → List ℕ → Sock Cwnd × List Segment
  acks s [] = (s, [])
  acks s (n ∷ ns) =
      let (s', out) = tcp_new_reno_process f s n in
      let (s'', more) = acks s' ns in (s'', out ++ more)

  -- A socket whose state is `nr` with `n` duplicates, and whose queue and numbers are those of `s`.
  record Counts (s s' : Sock Cwnd) (nr : NrState) (n : ℕ) : Type 0 where
    nr_state : s'.nr_state ≡ nr
    dupacks : s'.dupacks ≡ n
    send_buf : s'.send_buf ≡ s.send_buf
    rcv_nxt : s'.rcv_nxt ≡ s.rcv_nxt
    snd_nxt : s'.snd_nxt ≡ s.snd_nxt

  process-Duplicate :
      (s : Sock Cwnd) (ack : ℕ) (nr : NrState)
      → s.nr_state ≡ nr
      → Duplicate s.send_buf ack
      → tcp_new_reno_process f s ack ≡ reno_step f nr false s ack
  unfolding tcp_new_reno_process
  process-Duplicate s ack nr e d = rw d (ap (λ x. reno_step f x false s ack) e)

  first_duplicate :
      (s : Sock Cwnd) (ack : ℕ)
      → s.dupacks ≡ 0
      → ((reno_step f nr_open false s ack).1 ≡ [])
        × Counts s (reno_step f nr_open false s ack).0 nr_disorder 1
  unfolding reno_step update_cwnd dup_ack
  first_duplicate s ack h = ground arith

  second_duplicate :
      (s : Sock Cwnd) (ack : ℕ)
      → s.dupacks ≡ 1
      → s.nr_state ≡ nr_disorder
      → ((reno_step f nr_disorder false s ack).1 ≡ [])
        × Counts s (reno_step f nr_disorder false s ack).0 nr_disorder 2
  unfolding reno_step update_cwnd dup_ack
  second_duplicate s ack h e = ground arith

  third_duplicate :
      (s : Sock Cwnd) (ack : ℕ) (p : Segment) (ps : List Segment)
      → s.dupacks ≡ 2
      → s.send_buf ≡ p ∷ ps
      → ((reno_step f nr_disorder false s ack).1 ≡ record p { ack = s.rcv_nxt } ∷ [])
        × Counts s (reno_step f nr_disorder false s ack).0 nr_recovery 3
        × ((reno_step f nr_disorder false s ack).0.recovery_point ≡ s.snd_nxt)
  unfolding reno_step update_cwnd dup_ack enter_recovery retrans_send_buffer_packet
  third_duplicate s ack p ps h e = ground arith

  -- The state after a fast retransmission of the first packet of `s`'s send buffer.
  pub record Retransmitted (s s' : Sock Cwnd) : Type 0 where
    pub nr_state : s'.nr_state ≡ nr_recovery
    pub dupacks : s'.dupacks ≡ 3
    pub recovery_point : s'.recovery_point ≡ s.snd_nxt
    pub send_buf : s'.send_buf ≡ s.send_buf

  moved_Duplicate : {b b' : List Segment} (n : ℕ) → b' ≡ b → Duplicate b n → Duplicate b' n
  moved_Duplicate n e d = subst (λ x. Duplicate x n) (sym e) d

  -- The third of three acknowledgements that free nothing, on an open socket with no duplicates
  -- counted and a packet in its send buffer, makes it send that packet again, with the current
  -- acknowledgement number, and nothing else; it is then in fast recovery up to `snd_nxt`.
  pub fast_retransmit :
      (s : Sock Cwnd) (p : Segment) (ps : List Segment) (n₁ n₂ n₃ : ℕ)
      → s.nr_state ≡ nr_open
      → s.dupacks ≡ 0
      → s.send_buf ≡ p ∷ ps
      → Duplicate s.send_buf n₁
      → Duplicate s.send_buf n₂
      → Duplicate s.send_buf n₃
      → ((acks s (n₁ ∷ n₂ ∷ n₃ ∷ [])).1 ≡ record p { ack = s.rcv_nxt } ∷ [])
        × Retransmitted s (acks s (n₁ ∷ n₂ ∷ n₃ ∷ [])).0
  unfolding acks
  fast_retransmit s p ps n₁ n₂ n₃ e h b d₁ d₂ d₃ =
      let (o₁, c₁) = first in
      let (o₂, c₂) = second c₁ in
      let (o₃, c₃, r) = third c₁ c₂ in
      (
        rw (o₁, o₂, o₃) (ap (λ k. record p { ack = k } ∷ []) (c₂.rcv_nxt ∙ c₁.rcv_nxt)),
        record {
          nr_state = c₃.nr_state;
          dupacks = c₃.dupacks;
          recovery_point = r ∙ c₂.snd_nxt ∙ c₁.snd_nxt;
          send_buf = c₃.send_buf ∙ c₂.send_buf ∙ c₁.send_buf;
        },
      )
    where
      s₁ : Sock Cwnd
      s₁ = (tcp_new_reno_process f s n₁).0

      s₂ : Sock Cwnd
      s₂ = (tcp_new_reno_process f s₁ n₂).0

      first : ((tcp_new_reno_process f s n₁).1 ≡ []) × Counts s s₁ nr_disorder 1
      first =
          subst (λ r. (r.1 ≡ []) × Counts s r.0 nr_disorder 1)
            (sym (process-Duplicate s n₁ nr_open e d₁)) (first_duplicate s n₁ h)

      second :
          Counts s s₁ nr_disorder 1
          → ((tcp_new_reno_process f s₁ n₂).1 ≡ []) × Counts s₁ s₂ nr_disorder 2
      second c =
          subst (λ r. (r.1 ≡ []) × Counts s₁ r.0 nr_disorder 2)
            (sym
              (process-Duplicate s₁ n₂ nr_disorder c.nr_state (moved_Duplicate n₂ c.send_buf d₂)))
            (second_duplicate s₁ n₂ c.dupacks c.nr_state)

      third :
          Counts s s₁ nr_disorder 1
          → Counts s₁ s₂ nr_disorder 2
          → ((tcp_new_reno_process f s₂ n₃).1 ≡ record p { ack = s₂.rcv_nxt } ∷ [])
            × Counts s₂ (tcp_new_reno_process f s₂ n₃).0 nr_recovery 3
            × ((tcp_new_reno_process f s₂ n₃).0.recovery_point ≡ s₂.snd_nxt)
      third c c' =
          subst
            (λ r.
              (r.1 ≡ record p { ack = s₂.rcv_nxt } ∷ [])
              × Counts s₂ r.0 nr_recovery 3
              × (r.0.recovery_point ≡ s₂.snd_nxt))
            (sym (
              process-Duplicate s₂ n₃ nr_disorder c'.nr_state
                (moved_Duplicate n₃ (c'.send_buf ∙ c.send_buf) d₃)))
            (third_duplicate s₂ n₃ p ps c'.dupacks (c'.send_buf ∙ c.send_buf ∙ b))
