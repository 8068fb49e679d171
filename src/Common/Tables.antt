-- ===== src/Common/Tables.antt =====
-- Arrays indexed by numbers, and the hash of hash.h, which several experiments share.
use Prim.Native.Nat.{ℕ, bit_xor}
use mathlib.Core.List.{List, [], ◌∷◌}
use ucas_computer_network.Common.Tests.{◌==◌, if◌then◌else◌}

-- `a[i] = v`
abbrev pub update : {A : Type 0} → (ℕ → A) → ℕ → A → ℕ → A
update f k v i = if i == k then v else f i

abbrev pub hash8 : List ℕ → ℕ
hash8 [] = 0
hash8 (b ∷ bs) = bit_xor b (hash8 bs)
