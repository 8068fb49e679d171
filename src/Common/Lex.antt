-- ===== src/Common/Lex.antt =====
-- The lexicographic order of equally long keys, as a Boolean test.
use Prim.Native.Nat.{ℕ}
use mathlib.Core.Path.{◌≡◌, refl}
use mathlib.Core.Bool.{Bool, true, false}
use mathlib.Core.List.{List, [], ◌∷◌}
use native.Mathlib.Omega.{arith}
use ucas_computer_network.Common.Tests.{ltb, ◌==◌, if◌then◌else◌}
use ucas_computer_network.Common.Lists.{length}

unfoldable pub lex_lt : List ℕ → List ℕ → Bool
lex_lt [] ys = false
lex_lt (x ∷ xs) [] = false
lex_lt (x ∷ xs) (y ∷ ys) = if x == y then lex_lt xs ys else ltb x y

pub lex_lt_irrefl : (xs : List ℕ) → lex_lt xs xs ≡ false
unfolding lex_lt
lex_lt_irrefl [] = refl
lex_lt_irrefl (x ∷ xs) = ground (arith, lex_lt_irrefl xs)

pub lex_lt_trans :
    (xs ys zs : List ℕ) → lex_lt xs ys ≡ true → lex_lt ys zs ≡ true → lex_lt xs zs ≡ true
unfolding lex_lt
lex_lt_trans [] ys zs h k = cc
lex_lt_trans (x ∷ xs) [] zs h k = cc
lex_lt_trans (x ∷ xs) (y ∷ ys) [] h k = cc
lex_lt_trans (x ∷ xs) (y ∷ ys) (z ∷ zs) h k = ground (arith, lex_lt_trans xs ys zs)

-- Not less is transitive too, on keys of one length.
pub lex_ge_trans :
    (xs ys zs : List ℕ)
    → length xs ≡ length ys
    → length ys ≡ length zs
    → lex_lt xs ys ≡ false
    → lex_lt ys zs ≡ false
    → lex_lt xs zs ≡ false
unfolding lex_lt
lex_ge_trans [] ys zs p q h k = refl
lex_ge_trans (x ∷ xs) [] zs p q h k = absurd (omega arith)
lex_ge_trans (x ∷ xs) (y ∷ ys) [] p q h k = refl
lex_ge_trans (x ∷ xs) (y ∷ ys) (z ∷ zs) p q h k = ground (arith, lex_ge_trans xs ys zs)
