-- ===== src/Text.antt =====
-- Numbers and words in text, as the routing tables of EXP11-Lookup/code/leaf_pushing/lookup.c and
-- EXP11-Lookup/code/simple/lookup.c and the configuration of EXP13-NAT/13-nat/nat.c are read. A text
-- is the list of its bytes, without the final 0. Of the C library, `strtok` and `strstr` are
-- written out, and `atoi` is a parameter.
pub mod Words
pub mod Address
pub mod Decimal
use Prim.Native.Char.{code}
use Prim.Native.String.{String}
use ucas_computer_network.Common.{
  ℕ, zero, suc, ◌+◌, ◌*◌, ◌%◌, ◌^◌, Bool, true, false, ◌&&◌, ◌||◌, Option, none, some, List, [],
  ◌∷◌, if◌then◌else◌, ◌==◌,
}
use ucas_computer_network.Common.Words.{add32}

-- The bytes of a literal.
abbrev pub bytes : String → List ℕ
bytes String.[] = []
bytes (String.◌∷◌ c cs) = code c ∷ bytes cs

-- The text from the first byte on that is no delimiter.
pub skip : (ℕ → Bool) → List ℕ → List ℕ
skip d [] = []
skip d (c ∷ cs) = if d c then skip d cs else c ∷ cs

-- The text up to the first delimiter, and what comes after it.
pub token : (ℕ → Bool) → List ℕ → List ℕ
token d [] = []
token d (c ∷ cs) = if d c then [] else c ∷ token d cs

pub after : (ℕ → Bool) → List ℕ → List ℕ
after d [] = []
after d (c ∷ cs) = if d c then cs else after d cs

-- The next word and what is left; `none` is the null pointer.
pub strtok : (ℕ → Bool) → List ℕ → Option (List ℕ × List ℕ)
strtok d s = elim (skip d s) [ [] ↦ none | c ∷ cs ↦ some (token d (c ∷ cs), after d (c ∷ cs)) ]

unfoldable pub starts_with : List ℕ → List ℕ → Bool
starts_with [] s = true
starts_with (b ∷ bs) [] = false
starts_with (b ∷ bs) (c ∷ cs) = b == c && starts_with bs cs

-- Whether the word, which is not empty, stands in the text: `strstr` is not null.
unfoldable pub strstr : List ℕ → List ℕ → Bool
strstr word [] = false
strstr word (c ∷ cs) = starts_with word (c ∷ cs) || strstr word cs

-- The inner loop of `net_parser` and the step that follows it: `none` when the text has ended, and the
-- code goes on behind its end.
pub after_dot : List ℕ → Option (List ℕ)
after_dot [] = none
after_dot (c ∷ cs) = if c == b'.' then some cs else after_dot cs

module _ (atoi : List ℕ → ℕ) where
  -- `n` rounds of the outer loop.
  pub net_from : ℕ → ℕ → List ℕ → Option ℕ
  net_from zero num s = some (add32 num (atoi s))
  net_from (suc n) num s = elim (after_dot s) [
    | none ↦ none
    | some s' ↦ net_from n (add32 num (atoi s) * 256 % 2 ^ 32) s'
  ]

  pub net_parser : List ℕ → Option ℕ
  net_parser s = net_from 3 0 s
