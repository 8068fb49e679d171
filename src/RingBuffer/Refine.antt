-- ===== src/RingBuffer/Refine.antt =====
-- The ring buffer behaves as a queue of bytes.
use native.Mathlib.Nat.{mod-lt}
use ucas_computer_network.Common.{
  ℕ, zero, suc, ◌+◌, ◌-◌, ◌%◌, ◌≤◌, ◌<◌, ◌≡◌, ◌↔◌, refl, ap, ap₂, ◌∙◌, ◌⊎◌, true, List, [], ◌∷◌,
  arith, length, take, drop, length-replicate,
}
use ucas_computer_network.RingBuffer.Window.{window, byte_at, length-window, mod_once}
use ucas_computer_network.RingBuffer.{
  RingBuffer, alloc_ring_buffer, ring_buffer_used, ring_buffer_free, ring_buffer_empty,
  ring_buffer_full,
}

pub record IsValid (r : RingBuffer) : Type 0 where
  pub storage : length r.buf ≡ r.size
  pub head_in : r.head < r.size
  pub tail_in : r.tail < r.size

-- The bytes held, oldest first.
abbrev pub contents : RingBuffer → List ℕ
contents r = window r.buf r.size r.head (ring_buffer_used r)

pub used_cases :
    (r : RingBuffer)
    → IsValid r
    → ((r.head ≤ r.tail) × (ring_buffer_used r ≡ r.tail - r.head))
      ⊎ ((r.tail < r.head) × (ring_buffer_used r ≡ r.tail + r.size - r.head))
unfolding ring_buffer_used
used_cases r v = ground (arith, mod_once (r.tail + r.size - r.head) r.size (omega arith))

-- The number of bytes held and the free space make up the capacity, one less than the size.
pub used-add-free :
    (r : RingBuffer) → IsValid r → ring_buffer_used r + ring_buffer_free r + 1 ≡ r.size
unfolding ring_buffer_free
used-add-free r v = omega (arith, used_cases r v)

size-alloc : (size : ℕ) → (alloc_ring_buffer size).size ≡ size + 1
unfolding alloc_ring_buffer
size-alloc size = refl

alloc_wf : (size : ℕ) → IsValid (alloc_ring_buffer size)
unfolding alloc_ring_buffer
alloc_wf size = omega (arith, length-replicate {A = ℕ} (size + 1) 0)

alloc_used : (size : ℕ) → ring_buffer_used (alloc_ring_buffer size) ≡ 0
unfolding alloc_ring_buffer
alloc_used size = omega (arith, used_cases (alloc_ring_buffer size) (alloc_wf size))

-- A fresh buffer is valid and empty, and its capacity is the size that it was asked for.
pub alloc-IsValid :
    (size : ℕ)
    → IsValid (alloc_ring_buffer size)
      × (contents (alloc_ring_buffer size) ≡ [])
      × (ring_buffer_free (alloc_ring_buffer size) ≡ size)
alloc-IsValid size =
    let none_used : ring_buffer_used (alloc_ring_buffer size) ≡ 0 = alloc_used size in
    (
      alloc_wf size,
      rw none_used refl,
      omega (
        arith,
        used-add-free (alloc_ring_buffer size) (alloc_wf size),
        none_used,
        size-alloc size,
      ),
    )

window_empty : (buf : List ℕ) (size k n : ℕ) → (n ≡ 0) ↔ (window buf size k n ≡ [])
window_empty buf size k zero = (λ _. refl, λ _. refl)
window_empty buf size k (suc n) = (λ e. absurd (omega arith), λ e. cc)

-- `ring_buffer_empty` and `ring_buffer_full` tell the contents: no byte, and all the size but one.
pub empty-full :
    (r : RingBuffer)
    → IsValid r
    → ((ring_buffer_empty r ≡ true) ↔ (contents r ≡ []))
      × ((ring_buffer_full r ≡ true) ↔ (length (contents r) + 1 ≡ r.size))
unfolding ring_buffer_empty ring_buffer_full
empty-full r v = (
  (
    λ e. (window_empty r.buf r.size r.head (ring_buffer_used r)).0 (ground arith),
    λ e. ground (arith, (window_empty r.buf r.size r.head (ring_buffer_used r)).1 e),
  ),
  (
    λ e. ground (arith, used-add-free r v, length-window r.buf r.size r.head (ring_buffer_used r)),
    λ e. ground (arith, used-add-free r v, length-window r.buf r.size r.head (ring_buffer_used r)),
  ),
)

abbrev pub moved : RingBuffer → ℕ → RingBuffer
moved r len = record r { head = (r.head + len) % r.size }

pub moved-IsValid : (r : RingBuffer) (len : ℕ) → IsValid r → IsValid (moved r len)
moved-IsValid r len v = record {
  storage = v.storage;
  head_in = mod-lt (r.head + len) (omega arith);
  tail_in = v.tail_in;
}

pub used-moved :
    (r : RingBuffer) (len : ℕ)
    → IsValid r
    → len ≤ ring_buffer_used r
    → ring_buffer_used (moved r len) ≡ ring_buffer_used r - len
used-moved r len v h =
    let once = mod_once (r.head + len) r.size (omega (arith, used_cases r v)) in
    omega (arith, used_cases r v, used_cases (moved r len) (moved-IsValid r len v), once)

pub take-window :
    (buf : List ℕ) (size k m n : ℕ) → m ≤ n → take m (window buf size k n) ≡ window buf size k m
take-window buf size k zero n h = refl
take-window buf size k (suc m) zero h = absurd (omega arith)
take-window buf size k (suc m) (suc n) h =
    ap (◌∷◌ (byte_at buf size k)) (take-window buf size (suc k) m n (omega arith))

pub drop-window :
    (buf : List ℕ) (size k m n : ℕ)
    → m ≤ n
    → drop m (window buf size k n) ≡ window buf size (k + m) (n - m)
drop-window buf size k zero n h = ap₂ (window buf size) (omega arith) (omega arith)
drop-window buf size k (suc m) zero h = absurd (omega arith)
drop-window buf size k (suc m) (suc n) h =
    drop-window buf size (suc k) m n (omega arith)
    ∙ ap₂ (window buf size) (omega arith) (omega arith)
