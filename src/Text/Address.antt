-- ===== src/Text/Address.antt =====
-- The addresses that net_parser reads: EXP11-Lookup/code/leaf_pushing/lookup.c, the same in the other
-- programs.
use ucas_computer_network.Common.{
  ℕ, zero, suc, ◌+◌, ◌*◌, ◌%◌, ◌^◌, ◌<◌, ◌≡◌, ◌≢◌, refl, sym, ap, ◌∙◌, true, false, some, List, [],
  ◌∷◌, ◌++◌, arith, All-append, All-map, append-ne-nil, append-nil, Bool,
}
use ucas_computer_network.Common.Words.{add32}
use ucas_computer_network.Text.{net_from, net_parser}
use ucas_computer_network.Text.Words.{
  is_digit, value, Number, ReadsNumbers, Solid, after_dot-digits,
}

-- An address in text: four numbers below 256.
pub record Dotted : Type 0 where
  pub first : List ℕ
  pub second : List ℕ
  pub third : List ℕ
  pub fourth : List ℕ

unfoldable pub text_of : Dotted → List ℕ
text_of a = a.first ++ b'.' ∷ (a.second ++ b'.' ∷ (a.third ++ b'.' ∷ a.fourth))

unfoldable pub address_of : Dotted → ℕ
address_of a = ((value a.first * 256 + value a.second) * 256 + value a.third) * 256 + value a.fourth

abbrev pub IsByte : List ℕ → Type 0
IsByte cs = Number cs × (value cs < 256)

pub record IsAddress (a : Dotted) : Type 0 where
  pub first : IsByte a.first
  pub second : IsByte a.second
  pub third : IsByte a.third
  pub fourth : IsByte a.fourth

join :
    (a b c d : ℕ)
    → a < 256
    → b < 256
    → c < 256
    → d < 256
    → add32 (add32 (add32 (add32 0 a * 256 % 2 ^ 32) b * 256 % 2 ^ 32) c * 256 % 2 ^ 32) d
      ≡ ((a * 256 + b) * 256 + c) * 256 + d
join a b c d ha hb hc hd =
    let x : add32 0 a * 256 % 2 ^ 32 ≡ a * 256 = omega (arith, ha) in
    let y : add32 (a * 256) b * 256 % 2 ^ 32 ≡ (a * 256 + b) * 256 = omega (arith, ha, hb) in
    let z : add32 ((a * 256 + b) * 256) c * 256 % 2 ^ 32 ≡ ((a * 256 + b) * 256 + c) * 256 =
      omega (arith, ha, hb, hc) in
    rw (x, y, z) (omega (arith, ha, hb, hc, hd))

module _ (atoi : List ℕ → ℕ) (reads : ReadsNumbers atoi) where
  net_step :
      (n num : ℕ) (cs rest : List ℕ)
      → Number cs
      → net_from atoi (suc n) num (cs ++ b'.' ∷ rest)
        ≡ net_from atoi n (add32 num (value cs) * 256 % 2 ^ 32) rest
  unfolding net_from
  net_step n num cs rest h =
      rw (net_from, after_dot-digits cs rest h.digits, reads cs (b'.' ∷ rest) h refl) refl

  net_end :
      (num : ℕ) (cs : List ℕ) → Number cs → net_from atoi zero num cs ≡ some (add32 num (value cs))
  unfolding net_from
  net_end num cs h = ap (λ v. some (add32 num v)) (ap atoi (sym (append-nil cs)) ∙ reads cs [] h tt)

  pub net_parser-dotted :
      (a : Dotted) → IsAddress a → net_parser atoi (text_of a) ≡ some (address_of a)
  unfolding net_parser text_of address_of
  net_parser-dotted a h =
      net_step 2 0 a.first _ h.first.0
      ∙ net_step 1 _ a.second _ h.second.0
      ∙ net_step 0 _ a.third _ h.third.0
      ∙ net_end _ a.fourth h.fourth.0
      ∙ ap some (
          join (value a.first) (value a.second) (value a.third) (value a.fourth) h.first.1
            h.second.1 h.third.1 h.fourth.1)

-- The text of an address has no byte that is neither a digit nor a dot.
pub text-Solid :
    (d : ℕ → Bool) (a : Dotted)
    → ((c : ℕ) → is_digit c ≡ true → d c ≡ false)
    → d b'.' ≡ false
    → IsAddress a
    → Solid d (text_of a)
unfolding text_of
text-Solid d a off dot h =
    let part = λ (cs : List ℕ) (n : Number cs).
      All-map (λ c. is_digit c ≡ true) (λ c. d c ≡ false) cs off n.digits in
    All-append (λ c. d c ≡ false) a.first _ (part a.first h.first.0)
      (
        dot,
        All-append (λ c. d c ≡ false) a.second _ (part a.second h.second.0)
            (
              dot,
              All-append (λ c. d c ≡ false) a.third _ (part a.third h.third.0)
                  (dot, part a.fourth h.fourth.0),
            ),
      )

pub text-ne-nil : (a : Dotted) → IsAddress a → text_of a ≢ []
unfolding text_of
text-ne-nil a h = append-ne-nil a.first _ h.first.0.some_digit

pub address-lt : (a : Dotted) → IsAddress a → address_of a < 2 ^ 32
unfolding address_of
address-lt a h = omega (arith, h.first.1, h.second.1, h.third.1, h.fourth.1)
