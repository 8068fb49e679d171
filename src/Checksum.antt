-- ===== src/Checksum.antt =====
-- The checksum of checksum.h, the same in the experiments 13 and 15 to 18 (here
-- EXP18-TCP_Stack_4/code/18-tcp_stack/include), on the 16-bit words of the buffer; a last odd byte is
-- a word of its own. That of experiment 12 is in Ospf/Sum.
mod Tests
use ucas_computer_network.Common.{
  ℕ, zero, suc, ◌+◌, ◌-◌, ◌*◌, ◌/◌, ◌%◌, ◌^◌, ◌<◌, ◌≤◌, ◌≡◌, refl, ap, sym, ◌∙◌, List, [], ◌∷◌,
  ◌++◌, arith, length, All, ◌==◌, Bool, true, false, if◌then◌else◌, Bool-cases, inl, inr, subst,
}
use ucas_computer_network.Common.Words.{add32}

-- The first loop, on 32 bits.
unfoldable pub add_words : List ℕ → ℕ → ℕ
add_words [] sum = sum
add_words (w ∷ ws) sum = add_words ws (add32 sum w)

-- The second loop, on fuel.
unfoldable pub fold_carries : ℕ → ℕ → ℕ
fold_carries zero sum = sum
fold_carries (suc n) sum =
    let rest = fold_carries n (sum / 2 ^ 16 + sum % 2 ^ 16) in
    if sum / 2 ^ 16 == 0 then sum else rest

unfoldable pub checksum : List ℕ → ℕ → ℕ
checksum ws sum = 2 ^ 16 - 1 - fold_carries 2 (add_words ws sum) % 2 ^ 16

-- The 16-bit words that the checksum adds, as they stand in memory, and a word in memory.
unfoldable pub words_of : List ℕ → List ℕ
words_of [] = []
words_of (a ∷ []) = a ∷ []
words_of (a ∷ b ∷ p) = (a + b * 256) ∷ words_of p

abbrev pub in_memory : ℕ → List ℕ
in_memory w = w % 256 ∷ w / 256 ∷ []

-- `t` is what is left of `s` when its carries are added in.
pub record Folded (s t : ℕ) : Type 0 where
  pub small : t < 2 ^ 16
  pub carries : ℕ
  pub same : s ≡ t + 65535 * carries
  pub zero_only : t ≡ 0 → s ≡ 0

-- One round.
one_round : (s : ℕ) → s ≡ s / 2 ^ 16 + s % 2 ^ 16 + 65535 * (s / 2 ^ 16)
one_round s = omega arith

-- Two rounds are enough for 32 bits: then there is no carry left.
pub fold-Folded : (s : ℕ) → s < 2 ^ 32 → Folded s (fold_carries 2 s)
unfolding fold_carries
fold-Folded s h =
    let s₁ = s / 2 ^ 16 + s % 2 ^ 16 in
    elim (Bool-cases (s / 2 ^ 16 == 0)) [
      | inl done ↦ rw done (record {
        small = ground (arith, done);
        carries = 0;
        same = omega arith;
        zero_only = λ e. e;
      })
      | inr more ↦ elim (Bool-cases (s₁ / 2 ^ 16 == 0)) [
        | inl done ↦
            rw (more, done)
              (record {
                small = ground (arith, done);
                carries = s / 2 ^ 16;
                same = one_round s;
                zero_only = λ e. omega (arith, e);
              })
        | inr again ↦
            rw (more, again)
              (record {
                small = omega (arith, h);
                carries = s / 2 ^ 16 + s₁ / 2 ^ 16;
                same = omega (arith, one_round s, one_round s₁);
                zero_only = λ e. omega (arith, e);
              })
      ]
    ]

-- The sum without a bound.
unfoldable pub total : List ℕ → ℕ
total [] = 0
total (w ∷ ws) = w + total ws

total-append : (ws : List ℕ) (c : ℕ) → total (ws ++ (c ∷ [])) ≡ total ws + c
unfolding total
total-append [] c = omega arith
total-append (w ∷ ws) c = omega (arith, total-append ws c)

-- Without an overflow of the sum.
add_words-total :
    (ws : List ℕ) (sum : ℕ) → sum + total ws < 2 ^ 32 → add_words ws sum ≡ sum + total ws
unfolding add_words total
add_words-total [] sum h = omega arith
add_words-total (w ∷ ws) sum h =
    let here : add32 sum w ≡ sum + w = omega (arith, h) in
    add_words-total ws (add32 sum w) (omega (arith, h, here)) ∙ omega (arith, here)

total_bound : (ws : List ℕ) → All (λ w. w < 2 ^ 16) ws → total ws ≤ 65535 * length ws
unfolding total
total_bound [] h = omega arith
total_bound (w ∷ ws) (small, rest) = omega (arith, small, total_bound ws rest)

verified :
    (s c s' t t' k k' : ℕ)
    → t < 2 ^ 16
    → s ≡ t + 65535 * k
    → c ≡ 65535 - t
    → s' ≡ s + c
    → t' < 2 ^ 16
    → s' ≡ t' + 65535 * k'
    → (t' ≡ 0 → s' ≡ 0)
    → t' ≡ 65535
verified s c s' t t' k k' lt is ic is' lt' same zero_only = elim (Bool-cases (t' == 0)) [
  | inl none_left ↦
      let z : s' ≡ 0 = zero_only (ground (arith, none_left)) in
      absurd (omega (arith, z, is, ic, is', lt))
  | inr some_left ↦
      let pos : 0 < t' = ground (arith, some_left) in omega (arith, pos, lt, is, ic, is', lt', same)
]

-- Any words that add up to the others and their checksum.
pub checksum-total :
    (ws ws' : List ℕ) (sum : ℕ)
    → All (λ w. w < 2 ^ 16) ws
    → sum + 65535 * (length ws + 1) < 2 ^ 32
    → total ws' ≡ total ws + checksum ws sum
    → checksum ws' sum ≡ 0
unfolding checksum
checksum-total ws ws' sum words fits whole =
    let bound = total_bound ws words in
    let c = checksum ws sum in
    let s = add_words ws sum in
    let s' = add_words ws' sum in
    let sum_is : s ≡ sum + total ws = add_words-total ws sum (omega (arith, bound, fits)) in
    let sum_is' : s' ≡ sum + total ws + c =
      add_words-total ws' sum (omega (arith, bound, fits, whole)) ∙ omega (arith, whole) in
    let f = fold-Folded s (omega (arith, sum_is, bound, fits)) in
    let f' = fold-Folded s' (omega (arith, sum_is', bound, fits)) in
    let small = f.small in
    let last : fold_carries 2 s' ≡ 65535 =
      verified s c s' (fold_carries 2 s) (fold_carries 2 s') f.carries f'.carries f.small f.same
        (omega (arith, small)) (omega (arith, sum_is, sum_is')) f'.small f'.same f'.zero_only in
    omega (arith, last)

-- Up to some 65,000 words, and with an initial sum that leaves room for them: a buffer that ends with
-- its own checksum has checksum 0, from the same initial sum.
pub checksum-verifies :
    (ws : List ℕ) (sum : ℕ)
    → All (λ w. w < 2 ^ 16) ws
    → sum + 65535 * (length ws + 1) < 2 ^ 32
    → checksum (ws ++ (checksum ws sum ∷ [])) sum ≡ 0
checksum-verifies ws sum words fits =
    checksum-total ws (ws ++ (checksum ws sum ∷ [])) sum words fits
      (total-append ws (checksum ws sum))

pub checksum-lt : (ws : List ℕ) (sum : ℕ) → checksum ws sum < 2 ^ 16
unfolding checksum
checksum-lt ws sum = omega arith
