-- ===== src/RingBuffer/Write.antt =====
-- `write_ring_buffer` puts bytes at the end of the queue.
use ucas_computer_network.Common.{
  ℕ, zero, suc, ◌+◌, ◌-◌, ◌%◌, ◌≤◌, ◌<◌, ◌≡◌, ◌⊎◌, ◌↔◌, refl, sym, ap, ap₂, ◌∙◌, inl, inr, List, [],
  ◌∷◌, ◌++◌, none, some, arith, length, get_or, take, drop, ltb, Bool-cases, length-take,
  length-drop,
}
use native.Mathlib.Nat.{mod-lt}
use native.Mathlib.Decide.{dec_lt}
use ucas_computer_network.RingBuffer.Window.{
  window, byte_at, window-append, window-mod, window-ext, window-copy_in, length-copy_in,
  get_or-copy_in, mod_once,
}
use ucas_computer_network.RingBuffer.Refine.{IsValid, contents, used_cases, used-add-free}
use ucas_computer_network.RingBuffer.Read.{window_round}
use ucas_computer_network.RingBuffer.{
  RingBuffer, ring_buffer_used, ring_buffer_free, stored, copy_in, write_ring_buffer,
}

pub take-append-drop : (n : ℕ) (xs : List ℕ) → take n xs ++ drop n xs ≡ xs
take-append-drop zero xs = refl
take-append-drop (suc n) [] = refl
take-append-drop (suc n) (x ∷ xs) = ap (◌∷◌ x) (take-append-drop n xs)

length-stored : (r : RingBuffer) (src : List ℕ) → length (stored r src) ≡ length r.buf
unfolding stored
length-stored r src = elim (Bool-cases (ltb r.size (r.tail + length src))) [
  | inl round ↦ rw round (
      length-copy_in (copy_in r.buf r.tail (take (r.size - r.tail) src)) 0
        (drop (r.size - r.tail) src)
      ∙ length-copy_in r.buf r.tail (take (r.size - r.tail) src))
  | inr straight ↦ rw straight (length-copy_in r.buf r.tail src)
]

-- Indices that the copy leaves alone.
abbrev Spared : RingBuffer → ℕ → ℕ → Type 0
Spared r n i =
    (i < r.size)
    × ((r.tail + n ≤ r.size → (i < r.tail) ⊎ (r.tail + n ≤ i)))
    × (r.size < r.tail + n → (i < r.tail) × (r.tail + n ≤ i + r.size))

get_or-stored :
    (r : RingBuffer) (src : List ℕ) (i : ℕ)
    → Spared r (length src) i
    → get_or (stored r src) i 0 ≡ get_or r.buf i 0
unfolding stored
get_or-stored r src i h = elim (Bool-cases (ltb r.size (r.tail + length src))) [
  | inl round ↦
      let over : r.size < r.tail + length src = ground arith in
      let spared = h.2 over in
      rw round (
        get_or-copy_in (copy_in r.buf r.tail (take (r.size - r.tail) src)) 0
          (drop (r.size - r.tail) src) i (inr (omega (arith, length-drop (r.size - r.tail) src)))
        ∙ get_or-copy_in r.buf r.tail (take (r.size - r.tail) src) i (inl spared.0))
  | inr straight ↦
      let inside : r.tail + length src ≤ r.size = ground arith in
      rw straight (get_or-copy_in r.buf r.tail src i (h.1 inside))
]

-- Two segments, up to the end of the storage and from its start.
window-two_copies :
    (buf : List ℕ) (size at : ℕ) (xs ys : List ℕ)
    → length buf ≡ size
    → 0 < size
    → at + length xs ≡ size
    → length ys ≤ at
    → window (copy_in (copy_in buf at xs) 0 ys) size at (length xs + length ys) ≡ xs ++ ys
window-two_copies buf size at xs ys e pos fits room =
    window-append twice size at (length xs) (length ys)
    ∙ ap₂ ◌++◌
        (window-ext twice once size at at (length xs) same
          ∙ window-copy_in buf size at xs e (omega arith))
        (ap (λ k. window twice size k (length ys)) fits
          ∙ sym (window_round twice size (length ys) pos)
          ∙ window-copy_in once size 0 ys (length-copy_in buf at xs ∙ e) (omega arith))
  where
    once : List ℕ
    once = copy_in buf at xs

    twice : List ℕ
    twice = copy_in once 0 ys

    same : (j : ℕ) → j < length xs → byte_at twice size (at + j) ≡ byte_at once size (at + j)
    same j h =
        get_or-copy_in once 0 ys ((at + j) % size)
          (inr (omega (arith, mod_once (at + j) size (omega arith))))

-- The written bytes stand behind the tail.
window-stored :
    (r : RingBuffer) (src : List ℕ)
    → IsValid r
    → length src < r.size
    → window (stored r src) r.size r.tail (length src) ≡ src
unfolding stored
window-stored r src v h = elim (Bool-cases (ltb r.size (r.tail + length src))) [
  | inl round ↦
      let over : r.size < r.tail + length src = ground arith in
      rw round (
        ap (window _ r.size r.tail) {x = length src} {y = length front + length back}
          (omega (arith, length-take right src, length-drop right src))
        ∙ window-two_copies r.buf r.size r.tail front back v.storage (omega arith)
            (omega (arith, length-take right src)) (omega (arith, length-drop right src))
        ∙ take-append-drop right src)
  | inr straight ↦ rw straight (window-copy_in r.buf r.size r.tail src v.storage (ground arith))
]
  where
    right : ℕ
    right = r.size - r.tail

    front : List ℕ
    front = take right src

    back : List ℕ
    back = drop right src

-- The bytes held before are not touched.
window-stored_old :
    (r : RingBuffer) (src : List ℕ)
    → IsValid r
    → ring_buffer_used r + length src < r.size
    → window (stored r src) r.size r.head (ring_buffer_used r) ≡ contents r
window-stored_old r src v h =
    window-ext (stored r src) r.buf r.size r.head r.head (ring_buffer_used r) λ j hj.
      get_or-stored r src ((r.head + j) % r.size)
        (spared j hj (mod_once (r.head + j) r.size (omega (arith, used_cases r v))))
  where
    spared :
        (j : ℕ)
        → j < ring_buffer_used r
        → ((r.head + j < r.size) × ((r.head + j) % r.size ≡ r.head + j))
          ⊎ ((r.size ≤ r.head + j) × ((r.head + j) % r.size ≡ r.head + j - r.size))
        → Spared r (length src) ((r.head + j) % r.size)
    spared j hj once = (
      omega (arith, once),
      λ s. elim (dec_lt ((r.head + j) % r.size) r.tail) [
        | yes below ↦ inl below
        | no above ↦ inr (omega (arith, used_cases r v))
      ],
      λ s. (omega (arith, used_cases r v), omega (arith, used_cases r v)),
    )

-- The next write goes on where this one ended.
head-add-used : (r : RingBuffer) → IsValid r → (r.head + ring_buffer_used r) % r.size ≡ r.tail
head-add-used r v = omega (
  arith,
  used_cases r v,
  mod_once (r.head + ring_buffer_used r) r.size (omega (arith, used_cases r v)),
)

abbrev written : RingBuffer → List ℕ → RingBuffer
written r src = record r { buf = stored r src; tail = (r.tail + length src) % r.size }

written-IsValid : (r : RingBuffer) (src : List ℕ) → IsValid r → IsValid (written r src)
written-IsValid r src v = record {
  storage = length-stored r src ∙ v.storage;
  head_in = v.head_in;
  tail_in = mod-lt (r.tail + length src) (omega arith);
}

used-written :
    (r : RingBuffer) (src : List ℕ)
    → IsValid r
    → ring_buffer_used r + length src < r.size
    → ring_buffer_used (written r src) ≡ ring_buffer_used r + length src
used-written r src v h =
    let once = mod_once (r.tail + length src) r.size (omega arith) in
    omega (arith, used_cases r v, used_cases (written r src) (written-IsValid r src v), once)

contents-written :
    (r : RingBuffer) (src : List ℕ)
    → IsValid r
    → ring_buffer_used r + length src < r.size
    → contents (written r src) ≡ contents r ++ src
contents-written r src v h =
    ap (window (stored r src) r.size r.head) (used-written r src v h)
    ∙ window-append (stored r src) r.size r.head (ring_buffer_used r) (length src)
    ∙ ap₂ ◌++◌ (window-stored_old r src v h) (
        sym (window-mod (stored r src) r.size (r.head + ring_buffer_used r) (length src))
        ∙ ap (λ k. window (stored r src) r.size k (length src)) (head-add-used r v)
        ∙ window-stored r src v (omega arith))

-- Writing a non-empty run of bytes that fits the free space of a valid buffer succeeds, appends
-- exactly these bytes in order, and leaves the buffer valid.
pub write_lem :
    (r : RingBuffer) (src : List ℕ)
    → IsValid r
    → 0 < length src
    → length src ≤ ring_buffer_free r
    → (r' : RingBuffer) × (write_ring_buffer r src ≡ some r')
      × (contents r' ≡ contents r ++ src)
      × IsValid r'
unfolding write_ring_buffer
write_lem r src v some_bytes fits = (
  written r src,
  ground arith,
  contents-written r src v (omega (arith, used-add-free r v)),
  written-IsValid r src v,
)

-- The assertion fails for no bytes, and for more bytes than the free space.
pub write_fails :
    (r : RingBuffer) (src : List ℕ)
    → (write_ring_buffer r src ≡ none) ↔ ((length src ≡ 0) ⊎ (ring_buffer_free r < length src))
unfolding write_ring_buffer
write_fails r src = (λ e. ground arith, λ e. ground arith)
