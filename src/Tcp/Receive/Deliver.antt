-- ===== src/Tcp/Receive/Deliver.antt =====
-- What the out-of-order buffer delivers to the application.
use ucas_computer_network.Common.{
  ℕ, ◌-◌, ◌%◌, ◌^◌, ◌<◌, ◌≡◌, refl, Bool, true, false, List, [], ◌∷◌, ◌++◌, arith, ltb, ◌==◌,
  length, All, Bool-cases, inl, inr, ◌∙◌, ap, sym, append-nil, append_assoc, subst,
}
use ucas_computer_network.Common.Words.{add32}
use ucas_computer_network.RingBuffer.{ring_buffer_free}
use ucas_computer_network.RingBuffer.Refine.{IsValid, contents}
use ucas_computer_network.RingBuffer.Write.{write_lem}
use ucas_computer_network.Tcp.Seq.{less_than_32b}
use ucas_computer_network.Tcp.Sock.{Sock, Segment, OfoEntry}
use ucas_computer_network.Tcp.Output.{tcp_send_control_packet}
use ucas_computer_network.Tcp.Receive.{
  Received, returned, sleeping, aborted, after_sending, accept_entry, put_entries,
}

abbrev pub bytes_of : List OfoEntry → List ℕ
bytes_of [] = []
bytes_of (e ∷ es) = e.bytes ++ bytes_of es

-- The entries carry on from `seq`, one after the other, and end before `seq'`.
abbrev pub InSequence : ℕ → List OfoEntry → ℕ → Type 0
InSequence seq [] seq' = seq' ≡ seq
InSequence seq (e ∷ es) seq' = (e.seq ≡ seq) × InSequence (add32 seq (length e.bytes)) es seq'

-- The first entry left does not follow on directly.
abbrev pub Gap : ℕ → Bool → List OfoEntry → Type 0
Gap seq c [] = c ≡ true
Gap seq c (e ∷ es) = ((seq == e.seq) ≡ false) × (less_than_32b seq e.seq ≡ c)

module _ {C : Type 0} where
  -- `s'` has taken `taken` off the front of `es`: the bytes have gone to the receive buffer.
  pub record Took (s : Sock C) (es : List OfoEntry) (s' : Sock C) (taken : List OfoEntry)
      : Type 0 where
    pub split : es ≡ taken ++ s'.rcv_ofo_buf
    pub stored : contents s'.rcv_buf ≡ contents s.rcv_buf ++ bytes_of taken
    pub valid : IsValid s'.rcv_buf

  -- The result of the loop. Where it sleeps, it has already moved `rcv_nxt` past the entry for which
  -- there is no room.
  abbrev pub Delivers : Sock C → List OfoEntry → Received C → Type 0
  Delivers s es (returned c s' out) =
      (taken : List OfoEntry) × Took s es s' taken
      × InSequence s.rcv_nxt taken s'.rcv_nxt
      × Gap s'.rcv_nxt c s'.rcv_ofo_buf
  Delivers s es (sleeping s' out) =
      (taken : List OfoEntry) × (e : OfoEntry) × (rest : List OfoEntry) × Took s es s' taken
      × (s'.rcv_ofo_buf ≡ e ∷ rest)
      × InSequence s.rcv_nxt (taken ++ (e ∷ [])) s'.rcv_nxt
      × (ring_buffer_free s'.rcv_buf < length e.bytes)
  Delivers s es aborted = ⊥

  -- One more entry in front.
  Took-cons :
      (s s₂ s' : Sock C) (e : OfoEntry) (es taken : List OfoEntry)
      → contents s₂.rcv_buf ≡ contents s.rcv_buf ++ e.bytes
      → Took s₂ es s' taken
      → Took s (e ∷ es) s' (e ∷ taken)
  Took-cons s s₂ s' e es taken c t = record {
    split = ap (◌∷◌ e) t.split;
    stored =
        t.stored
        ∙ ap (λ b. b ++ bytes_of taken) c
        ∙ append_assoc (contents s.rcv_buf) e.bytes (bytes_of taken);
    valid = t.valid;
  }

  Delivers-cons :
      (s s₂ : Sock C) (e : OfoEntry) (es : List OfoEntry) (p : Segment) (r : Received C)
      → e.seq ≡ s.rcv_nxt
      → s₂.rcv_nxt ≡ add32 s.rcv_nxt (length e.bytes)
      → contents s₂.rcv_buf ≡ contents s.rcv_buf ++ e.bytes
      → Delivers s₂ es r
      → Delivers s (e ∷ es) (after_sending p r)
  unfolding after_sending
  Delivers-cons s s₂ e es p (returned c s' out) q n b (taken, t, i, g) = (
    e ∷ taken,
    Took-cons s s₂ s' e es taken b t,
    (q, subst (λ k. InSequence k taken s'.rcv_nxt) n i),
    g,
  )
  Delivers-cons s s₂ e es p (sleeping s' out) q n b (taken, x, rest, t, l, i, room) = (
    e ∷ taken,
    x,
    rest,
    Took-cons s s₂ s' e es taken b t,
    l,
    (q, subst (λ k. InSequence k (taken ++ (x ∷ [])) s'.rcv_nxt) n i),
    room,
  )
  Delivers-cons s s₂ e es p aborted q n b d = d

  -- For entries that are not empty and a valid receive buffer, the loop never fails its assertion.
  -- When it returns, it has moved exactly the entries that follow on from `rcv_nxt` to the receive
  -- buffer, in order, has advanced `rcv_nxt` by their bytes, and stops at the first that does not
  -- follow on, with 0 if that is later and -1 if it is not; when it sleeps, the next entry follows on
  -- and is longer than the free space.
  pub put_entries-Delivers :
      (s : Sock C) (es : List OfoEntry)
      → IsValid s.rcv_buf
      → All (λ e. 0 < length e.bytes) es
      → Delivers s es (put_entries s es)
  unfolding put_entries accept_entry tcp_send_control_packet after_sending
  put_entries-Delivers s [] v h =
      ([], record { split = refl; stored = sym (append-nil _); valid = v }, refl, refl)
  put_entries-Delivers s (e ∷ es) v h = elim (Bool-cases (s.rcv_nxt == e.seq)) [
    | inr gap ↦
        rw (gap, put_entries)
          ([], record { split = refl; stored = sym (append-nil _); valid = v }, refl, (gap, refl))
    | inl next ↦
        rw (next, put_entries)
          (elim (Bool-cases (ltb (ring_buffer_free s.rcv_buf) (length e.bytes))) [
            | inl full ↦ rw full (
              [],
              e,
              es,
              record { split = refl; stored = sym (append-nil _); valid = v },
              refl,
              (ground arith, refl),
              ground arith,
            )
            | inr room ↦
                let (rb, ok, stored, valid) = write_lem s.rcv_buf e.bytes v h.0 (ground arith) in
                let s₂ = record s {
                  rcv_nxt = add32 s.rcv_nxt (length e.bytes);
                  rcv_wnd = (ring_buffer_free s.rcv_buf - length e.bytes) % 2 ^ 16;
                  rcv_buf = rb;
                  rcv_ofo_buf = es;
                } in
                rw (room, ok, put_entries)
                  (Delivers-cons s s₂ e es _ _ (ground arith) refl stored
                    (put_entries-Delivers s₂ es valid h.1))
          ])
  ]
