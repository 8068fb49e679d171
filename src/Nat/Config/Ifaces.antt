-- ===== src/Nat/Config/Ifaces.antt =====
-- The lines with an interface, as EXP13-NAT/13-nat/nat.c reads them.
use ucas_computer_network.Common.{
  ℕ, ◌≡◌, ◌≢◌, refl, ap, ◌∙◌, true, false, some, List, [], ◌∷◌, ◌++◌, All-append,
}
use ucas_computer_network.Text.{bytes, strtok, starts_with, strstr}
use ucas_computer_network.Text.Words.{Solid, strtok-word, strtok-last, strtok-skip, is_solid-Solid}
use ucas_computer_network.Nat.{NatTable}
use ucas_computer_network.Nat.Config.{
  NamedIface, if_name_to_iface, drop_last, is_space, colon_or_space, parse_internal_iface,
  parse_external_iface,
}

pub internal_line : List ℕ → List ℕ
internal_line name = bytes "internal-iface: " ++ (name ++ 10 ∷ [])

pub external_line : List ℕ → List ℕ
external_line name = bytes "external-iface: " ++ (name ++ 10 ∷ [])

-- The name of an interface in a line: it has no space, and does not contain the other keyword.
pub record IsName (name : List ℕ) : Type 0 where
  pub solid : Solid is_space name
  pub other : strstr (bytes "internal-iface") (name ++ 10 ∷ []) ≡ false

drop_last-feed : (cs : List ℕ) → drop_last (cs ++ 10 ∷ []) ≡ cs
unfolding drop_last
drop_last-feed [] = refl
drop_last-feed (c ∷ []) = refl
drop_last-feed (c ∷ d ∷ cs) = ap (◌∷◌ c) (drop_last-feed (d ∷ cs))

name_word :
    (name : List ℕ)
    → IsName name
    → strtok is_space (b' ' ∷ (name ++ 10 ∷ [])) ≡ some (name ++ 10 ∷ [], [])
name_word name h =
    strtok-skip is_space b' ' (name ++ 10 ∷ []) refl
    ∙ strtok-last is_space (name ++ 10 ∷ [])
        (All-append (λ c. is_space c ≡ false) name (10 ∷ []) h.solid (refl, tt)) (ne name)
  where
    ne : (cs : List ℕ) → cs ++ 10 ∷ [] ≢ []
    ne [] e = cc
    ne (c ∷ cs) e = cc

pub parse_internal_iface-line :
    (ifaces : List NamedIface) (i : NamedIface) (name : List ℕ) (nat : NatTable)
    → IsName name
    → if_name_to_iface ifaces name ≡ some i
    → parse_internal_iface ifaces (internal_line name) nat
      ≡ some (record nat { internal_iface = i.index })
unfolding parse_internal_iface internal_line
parse_internal_iface-line ifaces i name nat h found =
    let first =
      strtok-word colon_or_space (bytes "internal-iface") (b' ' ∷ (name ++ 10 ∷ [])) b':'
        (is_solid-Solid colon_or_space (bytes "internal-iface") refl) (λ e. cc) refl in
    rw (parse_internal_iface, first, name_word name h, drop_last-feed name, found) refl

pub parse_external_iface-line :
    (ifaces : List NamedIface) (i : NamedIface) (name : List ℕ) (nat : NatTable)
    → IsName name
    → if_name_to_iface ifaces name ≡ some i
    → parse_external_iface ifaces (external_line name) nat
      ≡ some (record nat { external_iface = i.index; external_ip = i.ip })
unfolding parse_external_iface external_line
parse_external_iface-line ifaces i name nat h found =
    let first =
      strtok-word colon_or_space (bytes "external-iface") (b' ' ∷ (name ++ 10 ∷ [])) b':'
        (is_solid-Solid colon_or_space (bytes "external-iface") refl) (λ e. cc) refl in
    rw (parse_external_iface, first, name_word name h, drop_last-feed name, found) refl

-- Which parser takes which line.
pub internal_line-holds :
    (name : List ℕ) → strstr (bytes "internal-iface") (internal_line name) ≡ true
unfolding internal_line strstr starts_with
internal_line-holds name = refl

pub external_line-other :
    (name : List ℕ) → IsName name → strstr (bytes "internal-iface") (external_line name) ≡ false
unfolding external_line strstr starts_with
external_line-other name h = h.other

pub external_line-holds :
    (name : List ℕ) → strstr (bytes "external-iface") (external_line name) ≡ true
unfolding external_line strstr starts_with
external_line-holds name = refl
