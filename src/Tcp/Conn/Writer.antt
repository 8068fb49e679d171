-- ===== src/Tcp/Conn/Writer.antt =====
-- What `tcp_sock_write` puts on the wire.
use mathlib.Core.Option.{some-injective}
use ucas_computer_network.Common.{
  ℕ, ◌==◌, Bool, Bool-cases, inl, inr, some, false, zero, suc, ◌+◌, ◌^◌, ◌<◌, ◌≤◌, ◌≡◌, refl, ap,
  sym, ◌∙◌, List, [], ◌∷◌, ◌++◌, arith, length, min, take, drop, length-take, length-drop,
  take-append-drop, subst,
}
use ucas_computer_network.Common.Words.{add32}
use ucas_computer_network.Tcp.Sock.{Sock, Segment}
use ucas_computer_network.Tcp.Output.{
  mss, tcp_send_packet, tcp_set_retrans_timer, tcp_update_retrans_timer, tcp_unset_retrans_timer,
  segment_of, add_send_buffer_entry,
}
use ucas_computer_network.Tcp.Output.Laws.{Consecutive, seg_len}
use ucas_computer_network.Tcp.Conn.{
  wait_while, is_window_shut, is_unacked, write_round, write_loop, tcp_sock_write,
}

-- The bytes that the segments carry.
abbrev pub payloads : List Segment → List ℕ
payloads [] = []
payloads (p ∷ ps) = p.payload ++ payloads ps

-- No segment is empty or longer than a packet can carry.
abbrev pub Sized : List Segment → Type 0
Sized [] = Unit {0}
Sized (p ∷ ps) = (0 < length p.payload) × (length p.payload ≤ mss) × Sized ps

module _ {C : Type 0} where
  -- The writer has sent all of `buf`, from offset `off` after `base` on.
  pub record Sent (base off : ℕ) (buf : List ℕ) (r : Sock C × List Segment × List ℕ) : Type 0 where
    pub left : r.2 ≡ []
    pub same : payloads r.1 ≡ buf
    pub sized : Sized r.1
    pub consecutive : Consecutive base off r.1
    pub next : r.0.snd_nxt ≡ add32 base (off + length buf)

  snd_nxt-set : (s : Sock C) → (tcp_set_retrans_timer s).snd_nxt ≡ s.snd_nxt
  unfolding tcp_set_retrans_timer
  snd_nxt-set s = ground arith

  snd_nxt-update : (s : Sock C) → (tcp_update_retrans_timer s).snd_nxt ≡ s.snd_nxt
  unfolding tcp_update_retrans_timer tcp_set_retrans_timer
  snd_nxt-update s = ground arith

  round_lem :
      (s : Sock C) (buf : List ℕ)
      → ((write_round s buf).0.snd_nxt ≡ add32 s.snd_nxt (min (length buf) mss))
        × ((write_round s buf).1 ≡ segment_of s 24 (take (min (length buf) mss) buf))
        × ((write_round s buf).2 ≡ drop (min (length buf) mss) buf)
  unfolding write_round tcp_send_packet add_send_buffer_entry
  round_lem s buf =
      let len : length (take (min (length buf) mss) buf) ≡ min (length buf) mss =
        length-take (min (length buf) mss) buf ∙ omega arith in
      (snd_nxt-update _ ∙ ap (add32 s.snd_nxt) len, refl, refl)

  Sent-nil : (base off : ℕ) (s : Sock C) → s.snd_nxt ≡ add32 base off → Sent base off [] (s, [], [])
  Sent-nil base off s at = record {
    left = refl;
    same = refl;
    sized = tt;
    consecutive = tt;
    next = at ∙ ap (add32 base) (omega arith);
  }

  -- One more round in front.
  Sent-cons :
      (base off : ℕ) (s : Sock C) (buf : List ℕ) (p : Segment) (r : Sock C × List Segment × List ℕ)
      → s.snd_nxt ≡ add32 base off
      → 0 < length buf
      → p ≡ segment_of s 24 (take (min (length buf) mss) buf)
      → Sent base (off + min (length buf) mss) (drop (min (length buf) mss) buf) r
      → Sent base off buf (r.0, p ∷ r.1, r.2)
  unfolding segment_of
  Sent-cons base off s buf p r at pos e sent =
      let n = min (length buf) mss in
      let len : length (take n buf) ≡ n = length-take n buf ∙ omega arith in
      let long : seg_len p ≡ n = ap seg_len e ∙ omega (arith, len) in
      record {
        left = sent.left;
        same = rw (e, sent.same) (take-append-drop n buf);
        sized = (rw e (omega (arith, len)), rw e (omega (arith, len)), sent.sized);
        consecutive = (
          ap (λ q. q.seq) e ∙ at,
          omega (arith, long),
          subst (λ m. Consecutive base (off + m) r.1) (sym long) sent.consecutive,
        );
        next = sent.next ∙ ap (add32 base) (omega (arith, length-drop n buf));
      }

  -- What a wait ends with has the same `snd_nxt`.
  snd_nxt-wait :
      (test : Sock C → Bool) (wake : ℕ → Sock C → Sock C)
      → ((j : ℕ) (s : Sock C) → (wake j s).snd_nxt ≡ s.snd_nxt)
      → (n : ℕ) (s t : Sock C) → wait_while test wake n s ≡ some t
      → t.snd_nxt ≡ s.snd_nxt
  unfolding wait_while
  snd_nxt-wait test wake keeps zero s t e = elim (Bool-cases (test s)) [
    | inl on ↦ absurd (ground (arith, on, e))
    | inr off ↦
        let stop : wait_while test wake zero s ≡ some s = rw off refl in
        sym (ap (λ x. x.snd_nxt) (some-injective s t (sym stop ∙ e)))
  ]
  snd_nxt-wait test wake keeps (suc n) s t e = elim (Bool-cases (test s)) [
    | inl on ↦
        let more : wait_while test wake (suc n) s ≡ wait_while test wake n (wake n s) =
          rw (wait_while, on) refl in
        snd_nxt-wait test wake keeps n (wake n s) t (sym more ∙ e) ∙ keeps n s
    | inr off ↦
        let stop : wait_while test wake (suc n) s ≡ some s = rw (wait_while, off) refl in
        sym (ap (λ x. x.snd_nxt) (some-injective s t (sym stop ∙ e)))
  ]

  -- The writer is woken in time: each wait ends within `m` wake-ups.
  abbrev pub EndsBy : ℕ → (Sock C → Bool) → (ℕ → Sock C → Sock C) → Type 0
  EndsBy m test wake = (s : Sock C) → (t : Sock C) × (wait_while test wake m s ≡ some t)

  loop-Sent :
      (m : ℕ) (others : ℕ → ℕ → Sock C → Sock C)
      → ((i j : ℕ) (s : Sock C) → (others i j s).snd_nxt ≡ s.snd_nxt)
      → ((i : ℕ) → EndsBy m is_window_shut (others i))
      → (base off n : ℕ) (s : Sock C) (buf : List ℕ) → s.snd_nxt ≡ add32 base off
      → length buf ≤ n
      → (r : Sock C × List Segment × List ℕ) × (write_loop m others n s buf ≡ some r)
        × Sent base off buf r
  unfolding write_loop
  loop-Sent m others keeps opens base off zero s [] at le = (_, refl, Sent-nil base off s at)
  loop-Sent m others keeps opens base off zero s (b ∷ bs) at le = absurd (omega arith)
  loop-Sent m others keeps opens base off (suc n) s [] at le = (_, refl, Sent-nil base off s at)
  loop-Sent m others keeps opens base off (suc n) s (b ∷ bs) at le =
      let buf = b ∷ bs in
      let (next, seg, rest) = round_lem s buf in
      let s' = (write_round s buf).0 in
      let left = (write_round s buf).2 in
      let off' = off + min (length buf) mss in
      let (t, woken) = opens (suc n) s' in
      let at' : t.snd_nxt ≡ add32 base off' = omega (
        arith,
        snd_nxt-wait is_window_shut (others (suc n)) (keeps (suc n)) m s' t woken,
        next,
        at,
      ) in
      let (r, ends, sent) =
        loop-Sent m others keeps opens base off' n t left at'
          (omega (arith, le, ap length rest, length-drop (min (length buf) mss) buf)) in
      let filled : (suc (length bs) == 0) ≡ false = ground arith in
      (
        (r.0, (write_round s buf).1 ∷ r.1, r.2),
        rw (filled, write_loop, woken, ends) refl,
        Sent-cons base off s buf (write_round s buf).1 r at (omega arith) seg
            (subst (λ ys. Sent base off' ys r) rest sent),
      )

  -- If the other threads leave `snd_nxt` alone while the writer sleeps, and, from any state of the socket,
  -- open the window and acknowledge all that was sent within `m` wake-ups each, `tcp_sock_write` ends,
  -- with nothing left to send: its segments carry exactly the bytes of the buffer, in order; each
  -- carries at least one byte and at most 1460, their sequence numbers follow one another from
  -- `snd_nxt` on, and `snd_nxt` ends behind the last byte.
  pub write-Sent :
      (m : ℕ) (others : ℕ → ℕ → Sock C → Sock C)
      → ((i j : ℕ) (s : Sock C) → (others i j s).snd_nxt ≡ s.snd_nxt)
      → ((i : ℕ) → EndsBy m is_window_shut (others i))
      → EndsBy m is_unacked (others 0)
      → (s : Sock C) (buf : List ℕ) → s.snd_nxt < 2 ^ 32
      → (r : Sock C × List Segment × List ℕ) × (tcp_sock_write m others s buf ≡ some r)
        × Sent s.snd_nxt 0 buf r
  unfolding tcp_sock_write tcp_unset_retrans_timer
  write-Sent m others keeps opens acked s buf h =
      let start : (tcp_set_retrans_timer s).snd_nxt ≡ add32 s.snd_nxt 0 =
        omega (arith, snd_nxt-set s) in
      let (r, ends, sent) =
        loop-Sent m others keeps opens s.snd_nxt 0 (length buf) (tcp_set_retrans_timer s) buf start
          (omega arith) in
      let (t, woken) = acked r.0 in
      let same = snd_nxt-wait is_unacked (others 0) (keeps 0) m r.0 t woken in
      (
        (tcp_unset_retrans_timer t, r.1, r.2),
        rw (ends, woken) refl,
        record {
          left = sent.left;
          same = sent.same;
          sized = sent.sized;
          consecutive = sent.consecutive;
          next = same ∙ sent.next;
        },
      )
