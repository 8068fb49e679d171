-- ===== src/Nat/Config.antt =====
-- Reading the configuration: nat_init, parse_config and the parsers of the lines in
-- EXP13-NAT/13-nat/nat.c. A file is the list of its lines.
pub mod Rules
pub mod Ifaces
pub mod Parsed
mod Tests
use ucas_computer_network.Common.{
  ℕ, ◌%◌, ◌^◌, Bool, false, ◌&&◌, ◌||◌, Option, none, some, List, [], ◌∷◌, ◌++◌, if◌then◌else◌,
  ◌==◌, ◌>>=◌,
}
use ucas_computer_network.Text.{bytes, strtok, strstr, net_parser}
use ucas_computer_network.Nat.{NatTable, DnatRule}

-- An interface of the router, by its index, which is not 0.
pub record NamedIface : Type 0 where
  pub name : List ℕ
  pub index : ℕ
  pub ip : ℕ

pub same_text : List ℕ → List ℕ → Bool
same_text [] [] = Bool.true
same_text [] (c ∷ cs) = false
same_text (b ∷ bs) [] = false
same_text (b ∷ bs) (c ∷ cs) = b == c && same_text bs cs

pub if_name_to_iface : List NamedIface → List ℕ → Option NamedIface
if_name_to_iface [] name = none
if_name_to_iface (i ∷ is) name = if same_text i.name name then some i else if_name_to_iface is name

-- `iface_name[strlen(iface_name) - 1] = '\0'`
pub drop_last : List ℕ → List ℕ
drop_last [] = []
drop_last (c ∷ []) = []
drop_last (c ∷ d ∷ cs) = c ∷ drop_last (d ∷ cs)

-- The sets of delimiters.
abbrev pub is_space : ℕ → Bool
is_space c = c == b' '

abbrev pub is_colon : ℕ → Bool
is_colon c = c == b':'

abbrev pub colon_or_space : ℕ → Bool
colon_or_space c = c == b':' || c == b' '

abbrev pub in_arrow : ℕ → Bool
in_arrow c = c == b'-' || c == b'>' || c == b' '

-- The null pointer has index 0.
abbrev pub index_of : Option NamedIface → ℕ
index_of none = 0
index_of (some i) = i.index

abbrev pub ip_of : Option NamedIface → ℕ
ip_of none = 0
ip_of (some i) = i.ip

-- A result `none` is a null pointer that is read, or a text that ends too soon.
pub parse_internal_iface : List NamedIface → List ℕ → NatTable → Option NatTable
parse_internal_iface ifaces line nat = strtok colon_or_space line >>= λ w.
    strtok is_space w.1 >>= λ x.
    some (record nat { internal_iface = index_of (if_name_to_iface ifaces (drop_last x.0)) })

pub parse_external_iface : List NamedIface → List ℕ → NatTable → Option NatTable
parse_external_iface ifaces line nat = strtok colon_or_space line >>= λ w.
    strtok is_space w.1 >>= λ x.
    let iface = if_name_to_iface ifaces (drop_last x.0) in
    some (record nat { external_iface = index_of iface; external_ip = ip_of iface })

module _ (atoi : List ℕ → ℕ) where
  pub parse_dnat_rules : List ℕ → NatTable → Option NatTable
  parse_dnat_rules line nat = strtok colon_or_space line >>= λ w. strtok is_space w.1 >>= λ x.
      strtok in_arrow x.1 >>= λ y. strtok is_colon x.0 >>= λ ip1. strtok is_space ip1.1 >>= λ port1.
      strtok is_colon y.0 >>= λ ip2. strtok is_space ip2.1 >>= λ port2.
      net_parser atoi ip1.0 >>= λ external_ip. net_parser atoi ip2.0 >>= λ internal_ip.
      some (record nat {
        rules =
            nat.rules
            ++ record {
              external_ip = external_ip;
              external_port = atoi port1.0 % 2 ^ 16;
              internal_ip = internal_ip;
              internal_port = atoi port2.0 % 2 ^ 16;
            }
              ∷ [];
      })

  pub parse_line : List NamedIface → List ℕ → NatTable → Option NatTable
  parse_line ifaces line nat =
      if strstr (bytes "internal-iface") line
      then parse_internal_iface ifaces line nat
      else if strstr (bytes "external-iface") line
      then parse_external_iface ifaces line nat
      else if strstr (bytes "dnat-rules") line
      then parse_dnat_rules line nat
      else some nat

  pub parse_config : List NamedIface → List (List ℕ) → NatTable → Option NatTable
  parse_config ifaces [] nat = some nat
  parse_config ifaces (line ∷ lines) nat =
      parse_line ifaces line nat >>= λ nat'. parse_config ifaces lines nat'

  -- From a table of zeros.
  pub nat_init : List NamedIface → List (List ℕ) → Option NatTable
  nat_init ifaces lines = parse_config ifaces lines (record {
    nat_mapping_list = λ h. [];
    internal_iface = 0;
    external_iface = 0;
    external_ip = 0;
    assigned_ports = λ p. false;
    rules = [];
  })
