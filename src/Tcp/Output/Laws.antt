-- ===== src/Tcp/Output/Laws.antt =====
-- The send buffer and the send window.
use ucas_computer_network.Common.{
  ℕ, ◌+◌, ◌-◌, ◌/◌, ◌^◌, ◌<◌, ◌≤◌, ◌≡◌, ◌↔◌, refl, ap, ◌∙◌, Bool, true, false, not, List, [], ◌∷◌,
  ◌++◌, arith, if◌then◌else◌, length, Bool-cases, inl, inr,
}
use ucas_computer_network.Common.Words.{add32, sub32}
use ucas_computer_network.Tcp.Seq.{less_than_32b, seq_offsets}
use ucas_computer_network.Tcp.Sock.{
  Sock, Segment, has_flag, tcp_fin, tcp_syn, tcp_rst, tcp_ack, tcp_psh,
}
use ucas_computer_network.Tcp.Output.{
  mss, delete_send_buffer_entry, tcp_send_packet, tcp_send_control_packet, segment_of,
  tcp_set_retrans_timer, tcp_update_retrans_timer, add_send_buffer_entry, inflight,
  is_allow_to_send,
}

-- The sequence numbers that a segment takes up: its bytes, and one for SYN or FIN.
abbrev pub seg_len : Segment → ℕ
seg_len p = length p.payload + (if has_flag p.flags (tcp_syn + tcp_fin) then 1 else 0)

abbrev pub span : List Segment → ℕ
span [] = 0
span (p ∷ ps) = seg_len p + span ps

-- The segments follow one another from offset `off` after `base` on, and none is empty.
abbrev pub Consecutive : ℕ → ℕ → List Segment → Type 0
Consecutive base off [] = Unit {0}
Consecutive base off (p ∷ ps) =
    (p.seq ≡ add32 base off) × (0 < seg_len p) × Consecutive base (off + seg_len p) ps

delete_above :
    (base off ack : ℕ) (ys : List Segment)
    → base < 2 ^ 32
    → Consecutive base off ys
    → ack ≤ off
    → off + span ys < 2 ^ 31
    → delete_send_buffer_entry ys (add32 base ack) ≡ (ys, false)
unfolding delete_send_buffer_entry
delete_above base off ack [] hb c h k = refl
delete_above base off ack (y ∷ ys) hb c h k =
    let kept : less_than_32b y.seq (add32 base ack) ≡ false =
      rw (c.0) ((seq_offsets base off ack hb (omega arith) (omega arith)).0 ∙ ground arith) in
    rw (kept, delete_above base (off + seg_len y) ack ys hb c.2 (omega arith) (omega arith))

abbrev pub is_empty : List Segment → Bool
is_empty [] = true
is_empty (p ∷ ps) = false

span-append : (xs ys : List Segment) → span (xs ++ ys) ≡ span xs + span ys
span-append [] ys = omega arith
span-append (x ∷ xs) ys = omega (arith, span-append xs ys)

-- On a send buffer of consecutive segments that span less than 2 ^ 31, an acknowledgement of
-- exactly the first segments deletes these and no others, and tells whether there were any.
pub delete-acked :
    (base off : ℕ) (xs ys : List Segment)
    → base < 2 ^ 32
    → Consecutive base off (xs ++ ys)
    → off + span (xs ++ ys) < 2 ^ 31
    → delete_send_buffer_entry (xs ++ ys) (add32 base (off + span xs)) ≡ (ys, not (is_empty xs))
unfolding delete_send_buffer_entry
delete-acked base off [] ys hb c k = delete_above base off (off + 0) ys hb c (omega arith) k
delete-acked base off (x ∷ xs) ys hb c k =
    let gone : less_than_32b x.seq (add32 base (off + (seg_len x + span xs))) ≡ true = rw (c.0) (
      (seq_offsets base off (off + (seg_len x + span xs)) hb (omega arith)
        (omega (arith, span-append xs ys))).0
      ∙ ground (arith, c.1)) in
    let regroup : off + (seg_len x + span xs) ≡ off + seg_len x + span xs = omega arith in
    let rest = delete-acked base (off + seg_len x) xs ys hb c.2 (omega arith) in
    rw gone (rw regroup (rw rest refl))

Consecutive-snoc :
    (base off : ℕ) (ps : List Segment) (p : Segment)
    → Consecutive base off ps
    → p.seq ≡ add32 base (off + span ps)
    → 0 < seg_len p
    → Consecutive base off (ps ++ (p ∷ []))
Consecutive-snoc base off [] p c e h = (e ∙ ap (add32 base) (omega arith), h, tt)
Consecutive-snoc base off (q ∷ ps) p c e h = (
  c.0,
  c.1,
  Consecutive-snoc base (off + seg_len q) ps p c.2 (e ∙ ap (add32 base) (omega arith)) h,
)

span-snoc : (ps : List Segment) (p : Segment) → span (ps ++ (p ∷ [])) ≡ span ps + seg_len p
span-snoc [] p = omega arith
span-snoc (q ∷ ps) p = omega (arith, span-snoc ps p)

-- The send buffer holds what was sent from `base` on, up to `snd_nxt`.
pub record Buffered {C : Type 0} (base : ℕ) (s : Sock C) : Type 0 where
  pub consecutive : Consecutive base 0 s.send_buf
  pub next : s.snd_nxt ≡ add32 base (span s.send_buf)

-- The flags of the control packets that the stack sends.
pub data Control : ℕ → Type 0 where
  ack_only : Control tcp_ack
  syn_only : Control tcp_syn
  syn_ack : Control (tcp_syn + tcp_ack)
  fin_ack : Control (tcp_fin + tcp_ack)
  rst_only : Control tcp_rst

module _ {C : Type 0} where
  Buffered-add :
      (base : ℕ) (s : Sock C) (p : Segment) (n : ℕ)
      → Buffered base s
      → p.seq ≡ s.snd_nxt
      → 0 < seg_len p
      → n ≡ add32 s.snd_nxt (seg_len p)
      → Buffered base (record s { send_buf = s.send_buf ++ (p ∷ []); snd_nxt = n })
  Buffered-add base s p n b e pos adv = record {
    consecutive =
        Consecutive-snoc base 0 s.send_buf p b.consecutive
          (e ∙ b.next ∙ ap (add32 base) (omega arith)) pos;
    next = omega (arith, adv, b.next, span-snoc s.send_buf p);
  }

  update_timer-Buffered :
      (base : ℕ) (s : Sock C) → Buffered base s → Buffered base (tcp_update_retrans_timer s)
  unfolding tcp_update_retrans_timer tcp_set_retrans_timer
  update_timer-Buffered base s b = elim (Bool-cases s.retrans_timer.enable) [
    | inl on ↦ rw on (record { consecutive = b.consecutive; next = b.next })
    | inr off ↦ rw off (record { consecutive = b.consecutive; next = b.next })
  ]

  -- Sending data keeps the send buffer consecutive and complete up to `snd_nxt`.
  pub send_packet-Buffered :
      (base : ℕ) (s : Sock C) (payload : List ℕ)
      → 0 < length payload
      → Buffered base s
      → Buffered base (tcp_send_packet s payload).0
  unfolding tcp_send_packet add_send_buffer_entry segment_of
  send_packet-Buffered base s payload pos b =
      let p = segment_of s (tcp_psh + tcp_ack) payload in
      let b' =
        Buffered-add base s p (add32 s.snd_nxt (length payload)) b refl (omega arith)
          (omega arith) in
      update_timer-Buffered base _ (record { consecutive = b'.consecutive; next = b'.next })

  Buffered-control :
      (base : ℕ) (s : Sock C) (flags : ℕ)
      → has_flag flags (tcp_syn + tcp_fin) ≡ true
      → Buffered base s
      → Buffered base (
          tcp_update_retrans_timer (
            add_send_buffer_entry
              (record s { snd_nxt = add32 s.snd_nxt 1 })
              (segment_of s flags [])))
  unfolding add_send_buffer_entry segment_of
  Buffered-control base s flags h b =
      let one : seg_len (segment_of s flags []) ≡ 1 = rw h (omega arith) in
      let b' =
        Buffered-add base s (segment_of s flags []) (add32 s.snd_nxt 1) b refl (omega (arith, one))
          (omega (arith, one)) in
      update_timer-Buffered base _ (record { consecutive = b'.consecutive; next = b'.next })

  -- So does sending each control packet that the stack sends.
  pub send_flags-Buffered :
      (base : ℕ) (s : Sock C) {flags : ℕ}
      → Control flags
      → Buffered base s
      → Buffered base (tcp_send_control_packet s flags).0
  unfolding tcp_send_control_packet add_send_buffer_entry segment_of
  send_flags-Buffered base s ack_only b = b
  send_flags-Buffered base s syn_only b = Buffered-control base s _ refl b
  send_flags-Buffered base s syn_ack b = Buffered-control base s _ refl b
  send_flags-Buffered base s fin_ack b = Buffered-control base s _ refl b
  send_flags-Buffered base s rst_only b = b

  -- How many segments are out, less the duplicate acknowledgements.
  abbrev pub outstanding : Sock C → ℕ
  outstanding s = sub32 s.snd_nxt s.snd_una / mss

  -- With no more duplicate acknowledgements than segments out, `is_allow_to_send` is 0 exactly when
  -- the window holds as many segments as are in flight; with more in flight than the window holds
  -- it is not 0, and the writer goes on sending.
  pub allow-exact :
      (s : Sock C)
      → s.snd_wnd < 2 ^ 32
      → s.dupacks ≤ outstanding s
      → (is_allow_to_send s ≡ 0) ↔ (s.snd_wnd / mss ≡ outstanding s - s.dupacks)
  unfolding is_allow_to_send inflight
  allow-exact s hw hd = (λ e. ground arith, λ e. ground arith)
