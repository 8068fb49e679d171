-- ===== src/Nat/Config/Parsed.antt =====
-- A whole configuration, as parse_config of EXP13-NAT/13-nat/nat.c reads it.
use ucas_computer_network.Common.{
  ℕ, ◌≡◌, refl, sym, ap, ◌∙◌, false, some, List, [], ◌∷◌, ◌++◌, map, append-nil, append_assoc, All,
}
use ucas_computer_network.Text.{bytes}
use ucas_computer_network.Text.Words.{ReadsNumbers, strstr-absent}
use ucas_computer_network.Nat.{NatTable}
use ucas_computer_network.Nat.Config.{
  NamedIface, if_name_to_iface, parse_line, parse_config, nat_init,
}
use ucas_computer_network.Nat.Config.Rules.{
  TextRule, IsRule, dnat_line, rule_of, parse_dnat_rules-line, dnat_line-holds, dnat_line-lacks,
}
use ucas_computer_network.Nat.Config.Ifaces.{
  internal_line, external_line, IsName, parse_internal_iface-line, parse_external_iface-line,
  internal_line-holds, external_line-other, external_line-holds,
}

module _ (atoi : List ℕ → ℕ) (reads : ReadsNumbers atoi) (ifaces : List NamedIface) where
  parse_line-internal :
      (i : NamedIface) (name : List ℕ) (nat : NatTable)
      → IsName name
      → if_name_to_iface ifaces name ≡ some i
      → parse_line atoi ifaces (internal_line name) nat
        ≡ some (record nat { internal_iface = i.index })
  unfolding parse_line
  parse_line-internal i name nat h found =
      rw (internal_line-holds name) (parse_internal_iface-line ifaces i name nat h found)

  parse_line-external :
      (i : NamedIface) (name : List ℕ) (nat : NatTable)
      → IsName name
      → if_name_to_iface ifaces name ≡ some i
      → parse_line atoi ifaces (external_line name) nat
        ≡ some (record nat { external_iface = i.index; external_ip = i.ip })
  unfolding parse_line
  parse_line-external i name nat h found =
      rw (external_line-other name h, external_line-holds name)
        (parse_external_iface-line ifaces i name nat h found)

  parse_line-dnat :
      (r : TextRule) (nat : NatTable)
      → IsRule r
      → parse_line atoi ifaces (dnat_line r) nat
        ≡ some (record nat { rules = nat.rules ++ rule_of r ∷ [] })
  unfolding parse_line
  parse_line-dnat r nat h =
      let no_i =
        strstr-absent [] (bytes "nternal-iface") (dnat_line r) b'i'
          (dnat_line-lacks r b'i' refl refl refl refl h) in
      let no_x =
        strstr-absent (bytes "e") (bytes "ternal-iface") (dnat_line r) b'x'
          (dnat_line-lacks r b'x' refl refl refl refl h) in
      rw (no_i, no_x, dnat_line-holds r) (parse_dnat_rules-line atoi reads r nat h)

  parse_config-rules :
      (rs : List TextRule) (nat : NatTable)
      → All IsRule rs
      → parse_config atoi ifaces (map dnat_line rs) nat
        ≡ some (record nat { rules = nat.rules ++ map rule_of rs })
  unfolding parse_config
  parse_config-rules [] nat h =
      ap (λ rs. some (record nat { rules = rs })) (sym (append-nil nat.rules))
  parse_config-rules (r ∷ rs) nat (rule, h) =
      rw (parse_config, parse_line-dnat r nat rule)
        (parse_config-rules rs (record nat { rules = nat.rules ++ rule_of r ∷ [] }) h
          ∙ ap (λ rs. some (record nat { rules = rs }))
              (append_assoc nat.rules (rule_of r ∷ []) (map rule_of rs)))

-- Reading decimal numbers by `atoi`, a configuration of the line of the internal interface, the line
-- of the external one and any well-formed rules makes the table with these interfaces, the address of
-- the external one, and the rules in their order, the ports cut to 16 bits.
pub nat_init-config :
    (atoi : List ℕ → ℕ) (ifaces : List NamedIface) (i j : NamedIface) (n m : List ℕ)
    (rs : List TextRule)
    → ReadsNumbers atoi
    → IsName n
    → IsName m
    → if_name_to_iface ifaces n ≡ some i
    → if_name_to_iface ifaces m ≡ some j
    → All IsRule rs
    → nat_init atoi ifaces (internal_line n ∷ external_line m ∷ map dnat_line rs)
      ≡ some (record {
        nat_mapping_list = λ h. [];
        internal_iface = i.index;
        external_iface = j.index;
        external_ip = j.ip;
        assigned_ports = λ p. false;
        rules = map rule_of rs;
      })
unfolding nat_init parse_config
nat_init-config atoi ifaces i j n m rs reads hn hm found_n found_m rules =
    rw
      (
        parse_config,
        parse_line-internal atoi reads ifaces i n _ hn found_n,
        parse_line-external atoi reads ifaces j m _ hm found_m,
      )
      (parse_config-rules atoi reads ifaces rs _ rules)
