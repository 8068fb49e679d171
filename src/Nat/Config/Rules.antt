-- ===== src/Nat/Config/Rules.antt =====
-- The lines with a rule, as parse_dnat_rules of EXP13-NAT/13-nat/nat.c reads them.
use ucas_computer_network.Common.{
  ℕ, ◌%◌, ◌^◌, ◌≡◌, ◌≢◌, refl, sym, ap, ◌∙◌, Bool, true, false, some, List, [], ◌∷◌, ◌++◌,
  append-nil, arith, ◌==◌, All-map, All-append, append-ne-nil,
}
use ucas_computer_network.Text.{bytes, strtok, starts_with, strstr, net_parser}
use ucas_computer_network.Text.Words.{
  is_digit, value, Number, ReadsNumbers, Solid, strtok-word, strtok-last, strtok-skip,
  is_solid-Solid, is_solid,
}
use ucas_computer_network.Text.Address.{
  Dotted, text_of, address_of, IsAddress, net_parser-dotted, text-Solid, text-ne-nil,
}
use ucas_computer_network.Nat.{NatTable, DnatRule}
use ucas_computer_network.Nat.Config.{
  is_space, is_colon, colon_or_space, in_arrow, parse_dnat_rules,
}

-- A rule in text.
pub record TextRule : Type 0 where
  pub external : Dotted
  pub external_port : List ℕ
  pub internal : Dotted
  pub internal_port : List ℕ

pub record IsRule (r : TextRule) : Type 0 where
  pub external : IsAddress r.external
  pub external_port : Number r.external_port
  pub internal : IsAddress r.internal
  pub internal_port : Number r.internal_port

-- An address and a port.
endpoint : Dotted → List ℕ → List ℕ
endpoint a port = text_of a ++ b':' ∷ port

-- What follows the first word of a rule's line, and its arrow.
arrow_part : TextRule → List ℕ
arrow_part r = b' ' ∷ b'-' ∷ b'>' ∷ b' ' ∷ endpoint r.internal (r.internal_port ++ 10 ∷ [])

rule_part : TextRule → List ℕ
rule_part r = b':' ∷ b' ' ∷ (endpoint r.external r.external_port ++ arrow_part r)

pub dnat_line : TextRule → List ℕ
unfolding rule_part arrow_part endpoint
dnat_line r = bytes "dnat-rules" ++ rule_part r

pub rule_of : TextRule → DnatRule
rule_of r = record {
  external_ip = address_of r.external;
  external_port = value r.external_port % 2 ^ 16;
  internal_ip = address_of r.internal;
  internal_port = value r.internal_port % 2 ^ 16;
}

-- A delimiter or a letter that the numbers and addresses of a rule do not have.
record IsApart (d : ℕ → Bool) : Type 0 where
  digit : (c : ℕ) → is_digit c ≡ true → d c ≡ false
  dot : d b'.' ≡ false

number-Solid : (d : ℕ → Bool) (cs : List ℕ) → IsApart d → Number cs → Solid d cs
number-Solid d cs apart h =
    All-map (λ c. is_digit c ≡ true) (λ c. d c ≡ false) cs apart.digit h.digits

endpoint-Solid :
    (d : ℕ → Bool) (a : Dotted) (port : List ℕ)
    → IsApart d
    → d b':' ≡ false
    → IsAddress a
    → Solid d port
    → Solid d (endpoint a port)
unfolding endpoint
endpoint-Solid d a port apart colon ha hp =
    All-append (λ c. d c ≡ false) (text_of a) (b':' ∷ port)
      (text-Solid d a apart.digit apart.dot ha) (colon, hp)

endpoint-ne-nil : (a : Dotted) (port : List ℕ) → IsAddress a → endpoint a port ≢ []
unfolding endpoint
endpoint-ne-nil a port h = append-ne-nil (text_of a) (b':' ∷ port) (text-ne-nil a h)

space-IsApart : IsApart is_space
space-IsApart = record { digit = λ c h. ground arith; dot = refl }

colon-IsApart : IsApart is_colon
colon-IsApart = record { digit = λ c h. ground arith; dot = refl }

arrow-IsApart : IsApart in_arrow
arrow-IsApart = record { digit = λ c h. ground arith; dot = refl }

last-Solid :
    (d : ℕ → Bool) (cs : List ℕ) → IsApart d → d 10 ≡ false → Number cs → Solid d (cs ++ 10 ∷ [])
last-Solid d cs apart feed h =
    All-append (λ c. d c ≡ false) cs (10 ∷ []) (number-Solid d cs apart h) (feed, tt)

-- A line has no byte but those of its first word, of its marks, and of its numbers.
dnat_line-Solid :
    (d : ℕ → Bool) (r : TextRule)
    → IsApart d
    → Solid d (bytes "dnat-rules")
    → Solid d (bytes ": ->")
    → d 10 ≡ false
    → IsRule r
    → Solid d (dnat_line r)
unfolding dnat_line rule_part arrow_part
dnat_line-Solid d r apart word (colon, (space, (dash, (tip, _)))) feed h =
    let second =
      endpoint-Solid d r.internal _ apart colon h.internal
        (last-Solid d r.internal_port apart feed h.internal_port) in
    let first =
      endpoint-Solid d r.external r.external_port apart colon h.external
        (number-Solid d r.external_port apart h.external_port) in
    let ends =
      All-append (λ c. d c ≡ false) (endpoint r.external r.external_port) (arrow_part r) first
        (space, (dash, (tip, (space, second)))) in
    All-append (λ c. d c ≡ false) (bytes "dnat-rules") (rule_part r) word (colon, (space, ends))

module _ (atoi : List ℕ → ℕ) where
  -- A rule by its words.
  parse_words :
      (line w w' x x' y y' port1 port1' port2 port2' ip1 ip2 p1 p2 : List ℕ) (a b m n : ℕ)
      (nat : NatTable)
      → strtok colon_or_space line ≡ some (w, w')
      → strtok is_space w' ≡ some (x, x')
      → strtok in_arrow x' ≡ some (y, y')
      → strtok is_colon x ≡ some (ip1, p1)
      → strtok is_space p1 ≡ some (port1, port1')
      → strtok is_colon y ≡ some (ip2, p2)
      → strtok is_space p2 ≡ some (port2, port2')
      → net_parser atoi ip1 ≡ some a
      → net_parser atoi ip2 ≡ some b
      → atoi port1 ≡ m
      → atoi port2 ≡ n
      → parse_dnat_rules atoi line nat
        ≡ some (record nat {
          rules =
              nat.rules
              ++ record {
                external_ip = a;
                external_port = m % 2 ^ 16;
                internal_ip = b;
                internal_port = n % 2 ^ 16;
              }
                ∷ [];
        })
  unfolding parse_dnat_rules
  parse_words line w w' x x' y y' port1 port1' port2 port2' ip1 ip2 p1 p2 a b m n nat h₁ h₂ h₃ h₄ h₅
        h₆ h₇ h₈ h₉ h10 h11 =
      rw (parse_dnat_rules, h₁, h₂, h₃, h₄, h₅, h₆, h₇, h₈, h₉, h10, h11) refl

module _ (atoi : List ℕ → ℕ) (reads : ReadsNumbers atoi) where
  pub parse_dnat_rules-line :
      (r : TextRule) (nat : NatTable)
      → IsRule r
      → parse_dnat_rules atoi (dnat_line r) nat
        ≡ some (record nat { rules = nat.rules ++ rule_of r ∷ [] })
  unfolding dnat_line rule_part arrow_part rule_of endpoint
  parse_dnat_rules-line r nat h =
      let ep1 = endpoint r.external r.external_port in
      let port2 = r.internal_port ++ 10 ∷ [] in
      let ep2 = endpoint r.internal port2 in
      let after_arrow = b'-' ∷ b'>' ∷ b' ' ∷ ep2 in
      let first =
        strtok-word colon_or_space (bytes "dnat-rules") (b' ' ∷ (ep1 ++ b' ' ∷ after_arrow)) b':'
          (is_solid-Solid colon_or_space (bytes "dnat-rules") refl) (λ e. cc) refl in
      let second =
        strtok-skip is_space b' ' (ep1 ++ b' ' ∷ after_arrow) refl
        ∙ strtok-word is_space ep1 after_arrow b' '
            (endpoint-Solid is_space r.external r.external_port space-IsApart refl h.external
              (number-Solid is_space r.external_port space-IsApart h.external_port))
            (endpoint-ne-nil r.external r.external_port h.external) refl in
      let third =
        strtok-skip in_arrow b'-' (b'>' ∷ b' ' ∷ ep2) refl
        ∙ strtok-skip in_arrow b'>' (b' ' ∷ ep2) refl
        ∙ strtok-skip in_arrow b' ' ep2 refl
        ∙ strtok-last in_arrow ep2
            (endpoint-Solid in_arrow r.internal port2 arrow-IsApart refl h.internal
              (last-Solid in_arrow r.internal_port arrow-IsApart refl h.internal_port))
            (endpoint-ne-nil r.internal port2 h.internal) in
      let ip1 =
        strtok-word is_colon (text_of r.external) r.external_port b':'
          (text-Solid is_colon r.external colon-IsApart.digit refl h.external)
          (text-ne-nil r.external h.external) refl in
      let port1 =
        strtok-last is_space r.external_port
          (number-Solid is_space r.external_port space-IsApart h.external_port)
          h.external_port.some_digit in
      let ip2 =
        strtok-word is_colon (text_of r.internal) port2 b':'
          (text-Solid is_colon r.internal colon-IsApart.digit refl h.internal)
          (text-ne-nil r.internal h.internal) refl in
      let port2_is =
        strtok-last is_space port2
          (last-Solid is_space r.internal_port space-IsApart refl h.internal_port)
          (append-ne-nil r.internal_port (10 ∷ []) h.internal_port.some_digit) in
      let whole : atoi r.external_port ≡ value r.external_port =
        ap atoi (sym (append-nil r.external_port)) ∙ reads r.external_port [] h.external_port tt in
      parse_words atoi _ _ _ _ _ _ _ _ _ _ _ _ _ _ _ _ _ _ _ nat first second third ip1 port1 ip2
        port2_is (net_parser-dotted atoi reads r.external h.external)
        (net_parser-dotted atoi reads r.internal h.internal) whole
        (reads r.internal_port (10 ∷ []) h.internal_port refl)

letter-IsApart : (b : ℕ) → is_digit b ≡ false → (b'.' == b) ≡ false → IsApart (λ c. c == b)
letter-IsApart b h dot = record { digit = λ c d. ground (arith, h, d); dot = dot }

pub dnat_line-holds : (r : TextRule) → strstr (bytes "dnat-rules") (dnat_line r) ≡ true
unfolding dnat_line strstr starts_with
dnat_line-holds r = refl

pub dnat_line-lacks :
    (r : TextRule) (b : ℕ)
    → is_digit b ≡ false
    → is_solid (λ c. c == b) (bytes "dnat-rules") ≡ true
    → is_solid (λ c. c == b) (bytes ": ->.") ≡ true
    → (10 == b) ≡ false
    → IsRule r
    → Solid (λ c. c == b) (dnat_line r)
dnat_line-lacks r b digit word marks feed h =
    let (colon, (space, (dash, (tip, (dot, _))))) =
      is_solid-Solid (λ c. c == b) (bytes ": ->.") marks in
    dnat_line-Solid (λ c. c == b) r (letter-IsApart b digit dot)
      (is_solid-Solid (λ c. c == b) (bytes "dnat-rules") word) (colon, (space, (dash, (tip, tt))))
      feed h
