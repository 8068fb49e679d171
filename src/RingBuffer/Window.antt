-- ===== src/RingBuffer/Window.antt =====
-- The storage of a ring buffer read round its end, and what the two kinds of `memcpy` do to it.
use native.Mathlib.Nat.{mod-add-mod, mod-eq_of_lt, mod-eq-sub-mod}
use native.Mathlib.Decide.{dec_lt}
use ucas_computer_network.Common.{
  ℕ, zero, suc, ◌+◌, ◌-◌, ◌%◌, ◌≤◌, ◌<◌, ◌≡◌, refl, sym, ◌⊎◌, inl, inr, ap, ap₂, ◌∙◌, List, [], ◌∷◌,
  ◌++◌, arith, length, get_or, drop, set, length-set, get_or-set_self, get_or-set_ne,
}
use ucas_computer_network.RingBuffer.{slice, copy_in}

-- The byte at position `k`, counted round the end of the storage.
abbrev pub byte_at : List ℕ → ℕ → ℕ → ℕ
byte_at buf size k = get_or buf (k % size) 0

-- The `n` bytes from position `k` on.
abbrev pub window : List ℕ → ℕ → ℕ → ℕ → List ℕ
window buf size k zero = []
window buf size k (suc n) = byte_at buf size k ∷ window buf size (suc k) n

pub length-window : (buf : List ℕ) (size k n : ℕ) → length (window buf size k n) ≡ n
length-window buf size k zero = refl
length-window buf size k (suc n) = ap suc (length-window buf size (suc k) n)

-- Windows agree where their bytes do.
pub window-ext :
    (buf buf' : List ℕ) (size k k' n : ℕ)
    → ((j : ℕ) → j < n → byte_at buf size (k + j) ≡ byte_at buf' size (k' + j))
    → window buf size k n ≡ window buf' size k' n
window-ext buf buf' size k k' zero h = refl
window-ext buf buf' size k k' (suc n) h =
    ap₂ ◌∷◌ (at_zero k ∙ h 0 (omega arith) ∙ sym (at_zero' k')) (
      window-ext buf buf' size (suc k) (suc k') n
        (λ j hj. at_suc buf k j ∙ h (suc j) (omega arith) ∙ sym (at_suc buf' k' j)))
  where
    at_zero : (k : ℕ) → byte_at buf size k ≡ byte_at buf size (k + 0)
    at_zero k = ap (byte_at buf size) (omega arith)

    at_zero' : (k : ℕ) → byte_at buf' size k ≡ byte_at buf' size (k + 0)
    at_zero' k = ap (byte_at buf' size) (omega arith)

    at_suc : (b : List ℕ) (k j : ℕ) → byte_at b size (suc k + j) ≡ byte_at b size (k + suc j)
    at_suc b k j = ap (byte_at b size) (omega arith)

pub window-append :
    (buf : List ℕ) (size k m n : ℕ)
    → window buf size k (m + n) ≡ window buf size k m ++ window buf size (k + m) n
window-append buf size k zero n = ap₂ (window buf size) (omega arith) (omega arith)
window-append buf size k (suc m) n =
    ap (window buf size k) {x = suc m + n} {y = suc (m + n)} (omega arith)
    ∙ ap (◌∷◌ (byte_at buf size k)) (
        window-append buf size (suc k) m n
        ∙ ap (λ j. window buf size (suc k) m ++ window buf size j n) (omega arith))

-- Positions count modulo the size.
pub window-mod : (buf : List ℕ) (size k n : ℕ) → window buf size (k % size) n ≡ window buf size k n
window-mod buf size k n =
    window-ext buf buf size (k % size) k n (λ j _. ap (λ i. get_or buf i 0) (mod-add-mod k size j))

drop-lt : (buf : List ℕ) (k : ℕ) → k < length buf → drop k buf ≡ get_or buf k 0 ∷ drop (suc k) buf
drop-lt [] k h = absurd (omega arith)
drop-lt (x ∷ buf) zero h = refl
drop-lt (x ∷ buf) (suc k) h = drop-lt buf k (omega arith)

byte_at-lt : (buf : List ℕ) (size k : ℕ) → k < size → byte_at buf size k ≡ get_or buf k 0
byte_at-lt buf size k h = ap (λ i. get_or buf i 0) (mod-eq_of_lt h)

-- A `memcpy` out of the storage that does not pass its end.
pub slice-window :
    (buf : List ℕ) (size k n : ℕ)
    → length buf ≡ size
    → k + n ≤ size
    → slice buf k n ≡ window buf size k n
slice-window buf size k zero e h = refl
slice-window buf size k (suc n) e h = rw (drop-lt buf k (omega arith)) (
    ap₂ ◌∷◌ (sym (byte_at-lt buf size k (omega arith)))
      (slice-window buf size (suc k) n e (omega arith)))

pub length-copy_in : (buf : List ℕ) (at : ℕ) (xs : List ℕ) → length (copy_in buf at xs) ≡ length buf
unfolding copy_in
length-copy_in buf at [] = refl
length-copy_in buf at (x ∷ xs) = length-copy_in (set buf at x) (suc at) xs ∙ length-set buf at x

-- A `memcpy` into the storage writes nothing else.
pub get_or-copy_in :
    (buf : List ℕ) (at : ℕ) (xs : List ℕ) (i : ℕ)
    → ((i < at) ⊎ (at + length xs ≤ i))
    → get_or (copy_in buf at xs) i 0 ≡ get_or buf i 0
unfolding copy_in
get_or-copy_in buf at [] i h = refl
get_or-copy_in buf at (x ∷ xs) i h =
    get_or-copy_in (set buf at x) (suc at) xs i (omega arith)
    ∙ get_or-set_ne buf at i x 0 (omega arith)

-- What it wrote is read back.
pub window-copy_in :
    (buf : List ℕ) (size at : ℕ) (xs : List ℕ)
    → length buf ≡ size
    → at + length xs ≤ size
    → window (copy_in buf at xs) size at (length xs) ≡ xs
unfolding copy_in
window-copy_in buf size at [] e h = refl
window-copy_in buf size at (x ∷ xs) e h =
    ap₂ ◌∷◌
      (byte_at-lt (copy_in (set buf at x) (suc at) xs) size at (omega arith)
        ∙ get_or-copy_in (set buf at x) (suc at) xs at (inl (omega arith))
        ∙ get_or-set_self buf at x 0 (omega arith))
      (window-copy_in (set buf at x) size (suc at) xs (length-set buf at x ∙ e) (omega arith))

-- A position below twice the size goes round at most once.
pub mod_once :
    (x size : ℕ)
    → x < size + size
    → ((x < size) × (x % size ≡ x)) ⊎ ((size ≤ x) × (x % size ≡ x - size))
mod_once x size h = elim (dec_lt x size) [
  | yes p ↦ inl (p, mod-eq_of_lt p)
  | no p ↦ inr (
    omega arith,
    mod-eq-sub-mod {n = x} {m = size} (omega arith)
        ∙ mod-eq_of_lt {n = x - size} {m = size} (omega arith),
  )
]
