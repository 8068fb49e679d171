-- ===== src/RingBuffer/Read.antt =====
-- `read_ring_buffer` takes bytes off the front of the queue.
use native.Mathlib.Decide.{dec_le}
use ucas_computer_network.Common.{
  ℕ, ◌+◌, ◌-◌, ◌%◌, ◌≤◌, ◌<◌, ◌≡◌, refl, sym, ap, ap₂, ◌∙◌, inl, inr, List, [], ◌∷◌, ◌++◌, arith,
  length, min, take, drop, ltb, Bool-cases, zero, suc,
}
use ucas_computer_network.RingBuffer.Window.{
  window, window-append, window-mod, slice-window, mod_once, length-window,
}
use ucas_computer_network.RingBuffer.Refine.{
  IsValid, contents, used_cases, moved, moved-IsValid, used-moved, take-window, drop-window,
}
use ucas_computer_network.RingBuffer.{RingBuffer, ring_buffer_used, copy_out, read_ring_buffer}

-- Reading on from the end of the storage is reading from its start.
pub window_round :
    (buf : List ℕ) (size n : ℕ) → 0 < size → window buf size 0 n ≡ window buf size size n
window_round buf size n h =
    ap (λ k. window buf size k n) {x = 0} {y = size % size}
      (omega (arith, mod_once size size (omega arith)))
    ∙ window-mod buf size size n

copy_out-window :
    (r : RingBuffer) (len : ℕ)
    → IsValid r
    → len ≤ r.size
    → copy_out r len ≡ window r.buf r.size r.head len
unfolding copy_out
copy_out-window r len v h = elim (Bool-cases (ltb r.size (r.head + len))) [
  | inr straight ↦ rw straight (slice-window r.buf r.size r.head len v.storage (ground arith))
  | inl round ↦ rw round (
      ap₂ ◌++◌ (slice-window r.buf r.size r.head (r.size - r.head) v.storage (omega arith)) (
        slice-window r.buf r.size 0 (len - (r.size - r.head)) v.storage (ground arith)
        ∙ window_round r.buf r.size _ (omega arith)
        ∙ ap (λ k. window r.buf r.size k (len - (r.size - r.head))) {x = r.size}
            {y = r.head + (r.size - r.head)} (omega arith))
      ∙ sym (window-append r.buf r.size r.head (r.size - r.head) (len - (r.size - r.head)))
      ∙ ap (window r.buf r.size r.head) {x = r.size - r.head + (len - (r.size - r.head))} {y = len}
          (ground arith))
]

take-all : (n : ℕ) (xs : List ℕ) → length xs ≤ n → take n xs ≡ xs
take-all zero [] h = refl
take-all zero (x ∷ xs) h = absurd (omega arith)
take-all (suc n) [] h = refl
take-all (suc n) (x ∷ xs) h = ap (◌∷◌ x) (take-all n xs (omega arith))

drop-all : (n : ℕ) (xs : List ℕ) → length xs ≤ n → drop n xs ≡ []
drop-all zero [] h = refl
drop-all zero (x ∷ xs) h = absurd (omega arith)
drop-all (suc n) [] h = refl
drop-all (suc n) (x ∷ xs) h = drop-all n xs (omega arith)

take-min : (m n : ℕ) (xs : List ℕ) → length xs ≡ m → take (min m n) xs ≡ take n xs
take-min m n xs e = elim (dec_le m n) [
  | yes h ↦
      ap (λ k. take k xs) {x = min m n} {y = m} (omega arith)
      ∙ take-all m xs (omega arith)
      ∙ sym (take-all n xs (omega arith))
  | no h ↦ ap (λ k. take k xs) {x = min m n} {y = n} (omega arith)
]

drop-min : (m n : ℕ) (xs : List ℕ) → length xs ≡ m → drop (min m n) xs ≡ drop n xs
drop-min m n xs e = elim (dec_le m n) [
  | yes h ↦
      ap (λ k. drop k xs) {x = min m n} {y = m} (omega arith)
      ∙ drop-all m xs (omega arith)
      ∙ sym (drop-all n xs (omega arith))
  | no h ↦ ap (λ k. drop k xs) {x = min m n} {y = n} (omega arith)
]

contents-moved :
    (r : RingBuffer) (len : ℕ)
    → IsValid r
    → len ≤ ring_buffer_used r
    → contents (moved r len) ≡ drop len (contents r)
contents-moved r len v h =
    ap (window r.buf r.size ((r.head + len) % r.size)) (used-moved r len v h)
    ∙ window-mod r.buf r.size (r.head + len) (ring_buffer_used r - len)
    ∙ sym (drop-window r.buf r.size r.head len (ring_buffer_used r) h)

-- Reading at most `n` bytes from a valid buffer returns the first `n` bytes that it holds, or all
-- of them if there are fewer, leaves the rest in order, and leaves the buffer valid.
pub read_lem :
    (r : RingBuffer) (n : ℕ)
    → IsValid r
    → let (out, r') = read_ring_buffer r n in
      (out ≡ take n (contents r)) × (contents r' ≡ drop n (contents r)) × IsValid r'
unfolding read_ring_buffer
read_lem r n v = elim (Bool-cases (ltb 0 len)) [
  | inl some_bytes ↦ rw some_bytes (
    copy_out-window r len v (omega (arith, used_cases r v))
        ∙ sym (take-window r.buf r.size r.head len (ring_buffer_used r) (omega arith))
        ∙ take-min (ring_buffer_used r) n (contents r) count,
    contents-moved r len v (omega arith) ∙ drop-min (ring_buffer_used r) n (contents r) count,
    moved-IsValid r len v,
  )
  | inr no_bytes ↦
      let zero_len : len ≡ 0 = ground arith in
      rw no_bytes (
        sym (ap (λ k. take k (contents r)) zero_len)
            ∙ take-min (ring_buffer_used r) n (contents r) count,
        sym (ap (λ k. drop k (contents r)) zero_len)
            ∙ drop-min (ring_buffer_used r) n (contents r) count,
        v,
      )
]
  where
    len : ℕ
    len = min (ring_buffer_used r) n

    count : length (contents r) ≡ ring_buffer_used r
    count = length-window r.buf r.size r.head (ring_buffer_used r)
