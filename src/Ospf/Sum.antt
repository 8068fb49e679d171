-- ===== src/Ospf/Sum.antt =====
-- The checksum of EXP12-mOSPF/code/12-mopsf/include/checksum.h, which adds an odd last byte after the
-- carries; the stacks of the later experiments add it before them.
mod Tests
use ucas_computer_network.Common.{
  ℕ, ◌+◌, ◌-◌, ◌*◌, ◌/◌, ◌%◌, ◌^◌, ◌<◌, ◌≡◌, refl, ap, List, [], ◌∷◌, arith, ◌==◌, inl, inr,
  Bool-cases,
}
use ucas_computer_network.Common.Words.{add32}
use ucas_computer_network.Checksum.{add_words, fold_carries, checksum, words_of}
use ucas_computer_network.Icmp.Headers.{Even}

-- The whole words of a buffer of bytes.
pub whole_words : List ℕ → List ℕ
whole_words [] = []
whole_words (a ∷ []) = []
whole_words (a ∷ b ∷ p) = (a + b * 256) ∷ whole_words p

-- What the last byte adds.
pub odd_byte : List ℕ → ℕ
odd_byte [] = 0
odd_byte (a ∷ []) = a
odd_byte (a ∷ b ∷ p) = odd_byte p

pub early_checksum : List ℕ → ℕ → ℕ
early_checksum p sum =
    let s = add_words (whole_words p) sum in
    let s₁ = s / 2 ^ 16 + s % 2 ^ 16 in
    let s₂ = s₁ + s₁ / 2 ^ 16 in 2 ^ 16 - 1 - (s₂ + odd_byte p) % 2 ^ 16

whole_words-Even : (p : List ℕ) → Even p → whole_words p ≡ words_of p
unfolding whole_words words_of
whole_words-Even [] h = refl
whole_words-Even (a ∷ []) h = absurd h
whole_words-Even (a ∷ b ∷ p) h = ap (◌∷◌ (a + b * 256)) (whole_words-Even p h)

odd_byte-Even : (p : List ℕ) → Even p → odd_byte p ≡ 0
unfolding odd_byte
odd_byte-Even [] h = refl
odd_byte-Even (a ∷ []) h = absurd h
odd_byte-Even (a ∷ b ∷ p) h = odd_byte-Even p h

add_words-lt : (ws : List ℕ) (sum : ℕ) → sum < 2 ^ 32 → add_words ws sum < 2 ^ 32
unfolding add_words
add_words-lt [] sum h = h
add_words-lt (w ∷ ws) sum h = add_words-lt ws (add32 sum w) (omega arith)

-- The two ways to add the carries in.
carries-same :
    (s : ℕ)
    → s < 2 ^ 32
    → (s / 2 ^ 16 + s % 2 ^ 16 + (s / 2 ^ 16 + s % 2 ^ 16) / 2 ^ 16) % 2 ^ 16
      ≡ fold_carries 2 s % 2 ^ 16
unfolding fold_carries
carries-same s h =
    let s₁ = s / 2 ^ 16 + s % 2 ^ 16 in
    elim (Bool-cases (s / 2 ^ 16 == 0)) [
      | inl done ↦ let z : s / 2 ^ 16 ≡ 0 = ground (arith, done) in rw done (omega (arith, z, h))
      | inr more ↦ elim (Bool-cases (s₁ / 2 ^ 16 == 0)) [
        | inl done ↦
            let z : s₁ / 2 ^ 16 ≡ 0 = ground (arith, done) in rw (more, done) (omega (arith, z))
        | inr again ↦ rw (more, again) (omega (arith, h))
      ]
    ]

-- On a buffer of an even number of bytes the checksum is that of the later stacks.
pub early_checksum-Even :
    (p : List ℕ) (sum : ℕ)
    → Even p
    → sum < 2 ^ 32
    → early_checksum p sum ≡ checksum (words_of p) sum
unfolding early_checksum checksum
early_checksum-Even p sum even h =
    let none_left = odd_byte-Even p even in
    let same = carries-same (add_words (words_of p) sum) (add_words-lt (words_of p) sum h) in
    rw (whole_words-Even p even) (omega (arith, none_left, same))
