-- ===== src/Text/Words.antt =====
-- What the parsers make of well-formed text.
use ucas_computer_network.Common.{
  ℕ, ◌+◌, ◌-◌, ◌*◌, ◌^◌, ◌<◌, ◌≡◌, ◌≢◌, refl, ap, Bool, true, false, ◌&&◌, not, some, List, [], ◌∷◌,
  ◌++◌, arith, leb, ◌==◌, All,
}
use ucas_computer_network.Text.{skip, token, after, strtok, starts_with, strstr, after_dot}

abbrev pub is_digit : ℕ → Bool
is_digit c = leb b'0' c && leb c b'9'

-- The number that decimal digits denote.
unfoldable pub value_from : ℕ → List ℕ → ℕ
value_from n [] = n
value_from n (c ∷ cs) = value_from (10 * n + (c - b'0')) cs

abbrev pub value : List ℕ → ℕ
value cs = value_from 0 cs

abbrev pub Stops : List ℕ → Type 0
Stops [] = Unit {0}
Stops (c ∷ cs) = is_digit c ≡ false

-- A decimal number that an `int` can hold.
pub record Number (cs : List ℕ) : Type 0 where
  pub digits : All (λ c. is_digit c ≡ true) cs
  pub some_digit : cs ≢ []
  pub fits : value cs < 2 ^ 31

-- What is known of `atoi`: it reads such a number up to the first byte that is no digit.
abbrev pub ReadsNumbers : (List ℕ → ℕ) → Type 0
ReadsNumbers atoi = (cs rest : List ℕ) → Number cs → Stops rest → atoi (cs ++ rest) ≡ value cs

-- A word without delimiters.
abbrev pub Solid : (ℕ → Bool) → List ℕ → Type 0
Solid d cs = All (λ c. d c ≡ false) cs

abbrev pub is_solid : (ℕ → Bool) → List ℕ → Bool
is_solid d [] = true
is_solid d (c ∷ cs) = not (d c) && is_solid d cs

-- For a literal word, by evaluation.
pub is_solid-Solid : (d : ℕ → Bool) (cs : List ℕ) → is_solid d cs ≡ true → Solid d cs
is_solid-Solid d [] h = tt
is_solid-Solid d (c ∷ cs) h = (ground (arith, h), is_solid-Solid d cs (ground (arith, h)))

token-stop :
    (d : ℕ → Bool) (cs rest : List ℕ) (b : ℕ)
    → Solid d cs
    → d b ≡ true
    → token d (cs ++ b ∷ rest) ≡ cs
unfolding token
token-stop d [] rest b solid stop = rw stop refl
token-stop d (c ∷ cs) rest b (off, solid) stop =
    rw off (ap (◌∷◌ c) (token-stop d cs rest b solid stop))

after-stop :
    (d : ℕ → Bool) (cs rest : List ℕ) (b : ℕ)
    → Solid d cs
    → d b ≡ true
    → after d (cs ++ b ∷ rest) ≡ rest
unfolding after
after-stop d [] rest b solid stop = rw stop refl
after-stop d (c ∷ cs) rest b (off, solid) stop = rw off (after-stop d cs rest b solid stop)

pub strtok-word :
    (d : ℕ → Bool) (cs rest : List ℕ) (b : ℕ)
    → Solid d cs
    → cs ≢ []
    → d b ≡ true
    → strtok d (cs ++ b ∷ rest) ≡ some (cs, rest)
unfolding strtok skip
strtok-word d [] rest b solid ne stop = absurd (ne refl)
strtok-word d (c ∷ cs) rest b (off, solid) ne stop =
    rw (strtok, off)
      (cc (
        token-stop d (c ∷ cs) rest b (off, solid) stop,
        after-stop d (c ∷ cs) rest b (off, solid) stop,
      ))

token-end : (d : ℕ → Bool) (cs : List ℕ) → Solid d cs → token d cs ≡ cs
unfolding token
token-end d [] solid = refl
token-end d (c ∷ cs) (off, solid) = rw off (ap (◌∷◌ c) (token-end d cs solid))

after-end : (d : ℕ → Bool) (cs : List ℕ) → Solid d cs → after d cs ≡ []
unfolding after
after-end d [] solid = refl
after-end d (c ∷ cs) (off, solid) = rw off (after-end d cs solid)

-- The last word.
pub strtok-last : (d : ℕ → Bool) (cs : List ℕ) → Solid d cs → cs ≢ [] → strtok d cs ≡ some (cs, [])
unfolding strtok skip
strtok-last d [] solid ne = absurd (ne refl)
strtok-last d (c ∷ cs) (off, solid) ne =
    rw (strtok, off) (cc (token-end d (c ∷ cs) (off, solid), after-end d (c ∷ cs) (off, solid)))

pub after_dot-digits :
    (cs rest : List ℕ) → All (λ c. is_digit c ≡ true) cs → after_dot (cs ++ b'.' ∷ rest) ≡ some rest
unfolding after_dot
after_dot-digits [] rest h = refl
after_dot-digits (c ∷ cs) rest (digit, h) =
    let other : (c == b'.') ≡ false = ground (arith, digit) in rw other (after_dot-digits cs rest h)

-- A delimiter in front is skipped.
pub strtok-skip :
    (d : ℕ → Bool) (b : ℕ) (cs : List ℕ) → d b ≡ true → strtok d (b ∷ cs) ≡ strtok d cs
unfolding strtok skip
strtok-skip d b cs h = rw (strtok, h) refl

starts_with-absent :
    (pre post s : List ℕ) (b : ℕ) → Solid (λ c. c == b) s → starts_with (pre ++ b ∷ post) s ≡ false
unfolding starts_with
starts_with-absent [] post [] b h = refl
starts_with-absent [] post (c ∷ cs) b (off, h) = ground (arith, off)
starts_with-absent (p ∷ pre) post [] b h = refl
starts_with-absent (p ∷ pre) post (c ∷ cs) b (off, h) =
    ground (arith, starts_with-absent pre post cs b h)

-- A text that lacks one of its letters does not hold a word.
pub strstr-absent :
    (pre post s : List ℕ) (b : ℕ) → Solid (λ c. c == b) s → strstr (pre ++ b ∷ post) s ≡ false
unfolding strstr
strstr-absent pre post [] b h = refl
strstr-absent pre post (c ∷ cs) b (off, h) =
    ground (arith, starts_with-absent pre post (c ∷ cs) b (off, h), strstr-absent pre post cs b h)

abbrev pub all_digits : List ℕ → Bool
all_digits [] = true
all_digits (c ∷ cs) = is_digit c && all_digits cs

all_digits-digit : (cs : List ℕ) → all_digits cs ≡ true → All (λ c. is_digit c ≡ true) cs
all_digits-digit [] h = tt
all_digits-digit (c ∷ cs) h = (ground (arith, h), all_digits-digit cs (ground (arith, h)))

-- For a literal, by evaluation.
pub all_digits-Number :
    (cs : List ℕ) → all_digits cs ≡ true → cs ≢ [] → value cs < 2 ^ 31 → Number cs
all_digits-Number cs h ne fits = record {
  digits = all_digits-digit cs h;
  some_digit = ne;
  fits = fits;
}
