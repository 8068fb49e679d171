-- ===== src/Nat/Config/Tests.antt =====
-- The configuration exp2.conf of EXP13-NAT/13-nat, with one rule.
use ucas_computer_network.Common.{◌≡◌, refl, false, some, [], ◌∷◌, map, arith}
use ucas_computer_network.Text.{bytes, starts_with, strstr}
use ucas_computer_network.Text.Words.{value_from, is_solid-Solid, all_digits-Number}
use ucas_computer_network.Text.Decimal.{leading, leading-ReadsNumbers}
use ucas_computer_network.Nat.Config.{NamedIface, is_space, same_text, if_name_to_iface, nat_init}
use ucas_computer_network.Nat.Config.Rules.{TextRule, IsRule, dnat_line, rule_of}
use ucas_computer_network.Nat.Config.Ifaces.{internal_line, external_line, IsName}
use ucas_computer_network.Nat.Config.Parsed.{nat_init-config}

abbrev eth0 : NamedIface
eth0 = record { name = bytes "n1-eth0"; index = 1; ip = 0x0a1500fe }

abbrev eth1 : NamedIface
eth1 = record { name = bytes "n1-eth1"; index = 2; ip = 0x9fe2272b }

abbrev rule : TextRule
rule = record {
  external = record {
    first = bytes "159";
    second = bytes "226";
    third = bytes "39";
    fourth = bytes "43";
  };
  external_port = bytes "8000";
  internal = record {
    first = bytes "10";
    second = bytes "21";
    third = bytes "0";
    fourth = bytes "1";
  };
  internal_port = bytes "8000";
}

rule-IsRule : IsRule rule
unfolding value_from
rule-IsRule = record {
  external = record {
    first = (all_digits-Number (bytes "159") refl (λ e. cc) (omega arith), omega arith);
    second = (all_digits-Number (bytes "226") refl (λ e. cc) (omega arith), omega arith);
    third = (all_digits-Number (bytes "39") refl (λ e. cc) (omega arith), omega arith);
    fourth = (all_digits-Number (bytes "43") refl (λ e. cc) (omega arith), omega arith);
  };
  external_port = all_digits-Number (bytes "8000") refl (λ e. cc) (omega arith);
  internal = record {
    first = (all_digits-Number (bytes "10") refl (λ e. cc) (omega arith), omega arith);
    second = (all_digits-Number (bytes "21") refl (λ e. cc) (omega arith), omega arith);
    third = (all_digits-Number (bytes "0") refl (λ e. cc) (omega arith), omega arith);
    fourth = (all_digits-Number (bytes "1") refl (λ e. cc) (omega arith), omega arith);
  };
  internal_port = all_digits-Number (bytes "8000") refl (λ e. cc) (omega arith);
}

eth0-IsName : IsName (bytes "n1-eth0")
unfolding strstr starts_with
eth0-IsName = record { solid = is_solid-Solid is_space (bytes "n1-eth0") refl; other = refl }

eth1-IsName : IsName (bytes "n1-eth1")
unfolding strstr starts_with
eth1-IsName = record { solid = is_solid-Solid is_space (bytes "n1-eth1") refl; other = refl }

config_example :
    nat_init (leading 0) (eth0 ∷ eth1 ∷ []) (
      internal_line (bytes "n1-eth0") ∷ external_line (bytes "n1-eth1") ∷ map dnat_line (rule ∷ []))
    ≡ some (record {
      nat_mapping_list = λ h. [];
      internal_iface = 1;
      external_iface = 2;
      external_ip = 0x9fe2272b;
      assigned_ports = λ p. false;
      rules = map rule_of (rule ∷ []);
    })
unfolding if_name_to_iface same_text
config_example =
    nat_init-config (leading 0) (eth0 ∷ eth1 ∷ []) eth0 eth1 (bytes "n1-eth0") (bytes "n1-eth1")
      (rule ∷ []) leading-ReadsNumbers eth0-IsName eth1-IsName refl refl (rule-IsRule, tt)
