-- ===== src/Trie/Prefix.antt =====
-- Prefixes of addresses, as the trie walks them and as numbers.
use native.Mathlib.Nat.{div-div-eq-div-mul, pow-suc}
use ucas_computer_network.Common.{
  ℕ, zero, suc, ◌+◌, ◌-◌, ◌/◌, ◌%◌, ◌^◌, ◌≤◌, ◌<◌, ◌≡◌, ap, sym, ◌∙◌, subst, arith, ◌==◌, ltb,
  false, refl, Bool-cases, inl, inr,
}
use ucas_computer_network.Trie.{RouterEntry, zero_bit}
use ucas_computer_network.Trie.Insert.{Agree}

-- The number that the first `n` bits of an address form.
abbrev pub prefix : ℕ → ℕ → ℕ
prefix n a = a / 2 ^ (32 - n)

abbrev pub Covers : RouterEntry → ℕ → Type 0
Covers e a = prefix e.prefix_len a ≡ prefix e.prefix_len e.net

div-pow : (a k : ℕ) → a / 2 ^ k / 2 ≡ a / 2 ^ suc k
div-pow a k = div-div-eq-div-mul a (2 ^ k) 2 ∙ ap (λ x. a / x) (sym (pow-suc 2 k))

halve : (a n : ℕ) → n < 32 → prefix (suc n) a / 2 ≡ prefix n a
halve a n h =
    let e : suc (32 - suc n) ≡ 32 - n = omega arith in
    div-pow a (32 - suc n) ∙ ap (λ k. a / 2 ^ k) e

-- Equal prefixes have equal prefixes.
prefix-shorter :
    (a b k n : ℕ) → k + n ≤ 32 → prefix (k + n) a ≡ prefix (k + n) b → prefix n a ≡ prefix n b
prefix-shorter a b zero n h e = subst (λ x. prefix x a ≡ prefix x b) (omega arith) e
prefix-shorter a b (suc k) n h e =
    let at : suc k + n ≡ suc (k + n) = omega arith in
    let e' : prefix (suc (k + n)) a ≡ prefix (suc (k + n)) b =
      subst (λ x. prefix x a ≡ prefix x b) at e in
    prefix-shorter a b k n (omega arith)
      (sym (halve a (k + n) (omega arith)) ∙ ap (λ x. x / 2) e' ∙ halve b (k + n) (omega arith))

pub prefix-le : (a b m n : ℕ) → n ≤ m → m ≤ 32 → prefix m a ≡ prefix m b → prefix n a ≡ prefix n b
prefix-le a b m n le h e =
    prefix-shorter a b (m - n) n (omega arith)
      (subst (λ x. prefix x a ≡ prefix x b) (omega arith) e)

same_bit : (a b : ℕ) → a / 2 ≡ b / 2 → (a % 2 == 0) ≡ (b % 2 == 0) → a ≡ b
same_bit a b h e = elim (Bool-cases (a % 2 == 0)) [
  | inl even ↦
      let l : a % 2 ≡ 0 = ground (arith, even) in
      let r : b % 2 ≡ 0 = ground (arith, sym e ∙ even) in omega (arith, l, r, h)
  | inr odd ↦
      let l : a % 2 ≡ 1 = ground (arith, odd) in
      let r : b % 2 ≡ 1 = ground (arith, sym e ∙ odd) in omega (arith, l, r, h)
]

-- A bit of the address.
within : (a i : ℕ) → i < 32 → zero_bit a (suc i) ≡ (prefix (suc i) a % 2 == 0)
within a i h = let inside : ltb 32 (suc i) ≡ false = ground (arith, h) in rw inside refl

pub Agree-prefix :
    (a b n i : ℕ)
    → i + n ≤ 32
    → prefix i a ≡ prefix i b
    → Agree a b n (suc i)
    → prefix (i + n) a ≡ prefix (i + n) b
Agree-prefix a b zero i h e g = subst (λ x. prefix x a ≡ prefix x b) (omega arith) e
Agree-prefix a b (suc n) i h e (bit, g) =
    let next : prefix (suc i) a ≡ prefix (suc i) b =
      same_bit _ _ (halve a i (omega arith) ∙ e ∙ sym (halve b i (omega arith)))
        (sym (within a i (omega arith)) ∙ bit ∙ within b i (omega arith)) in
    subst (λ x. prefix x a ≡ prefix x b) (omega arith)
      (Agree-prefix a b n (suc i) (omega arith) next g)

pub prefix-Agree :
    (a b n i : ℕ) → i + n ≤ 32 → prefix (i + n) a ≡ prefix (i + n) b → Agree a b n (suc i)
prefix-Agree a b zero i h e = tt
prefix-Agree a b (suc n) i h e = (
  within a i (omega arith)
      ∙ ap (λ x. x % 2 == 0) (prefix-le a b (i + suc n) (suc i) (omega arith) h e)
      ∙ sym (within b i (omega arith)),
  prefix-Agree a b n (suc i) (omega arith) (subst (λ x. prefix x a ≡ prefix x b) (omega arith) e),
)
