-- ===== src/Text/Decimal.antt =====
-- A function that reads numbers as `atoi` does: what is known of `atoi` can hold.
use ucas_computer_network.Common.{
  ℕ, ◌+◌, ◌-◌, ◌*◌, ◌≡◌, refl, true, List, [], ◌∷◌, ◌++◌, if◌then◌else◌, All,
}
use ucas_computer_network.Text.Words.{is_digit, value_from, ReadsNumbers, Stops}

pub leading : ℕ → List ℕ → ℕ
leading n [] = n
leading n (c ∷ cs) = let rest = leading (10 * n + (c - b'0')) cs in if is_digit c then rest else n

leading-stop : (n : ℕ) (rest : List ℕ) → Stops rest → leading n rest ≡ n
unfolding leading
leading-stop n [] h = refl
leading-stop n (c ∷ cs) h = rw h refl

leading-value :
    (n : ℕ) (cs rest : List ℕ)
    → All (λ c. is_digit c ≡ true) cs
    → Stops rest
    → leading n (cs ++ rest) ≡ value_from n cs
unfolding leading value_from
leading-value n [] rest h stop = leading-stop n rest stop
leading-value n (c ∷ cs) rest (digit, h) stop =
    rw digit (leading-value (10 * n + (c - b'0')) cs rest h stop)

pub leading-ReadsNumbers : ReadsNumbers (leading 0)
leading-ReadsNumbers cs rest h stop = leading-value 0 cs rest h.digits stop
