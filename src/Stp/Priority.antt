-- ===== src/Stp/Priority.antt =====
-- The two priority tests of stp.c against one lexicographic order.
use ucas_computer_network.Common.{
  ℕ, ◌+◌, ◌%◌, ◌^◌, ◌<◌, ◌≡◌, refl, true, false, not, ◌∷◌, [], List, arith,
}
use ucas_computer_network.Common.Lex.{lex_lt, lex_lt_irrefl, lex_lt_trans, lex_ge_trans}
use ucas_computer_network.Stp.{StpPort, Config, compare_ports_pirority, recv_has_higher_pirority}

-- An `int` held in a word, moved up so that words compare as the `int`s do.
abbrev pub signed_rank : ℕ → ℕ
signed_rank c = (c + 2 ^ 31) % 2 ^ 32

-- A port's vector with its cost as an `int`: root, cost, switch, port.
abbrev pub port_key : StpPort → List ℕ
port_key p =
    p.designated_root ∷ signed_rank p.designated_cost ∷ p.designated_switch ∷ p.designated_port ∷ []

-- The same with the cost as an unsigned word, and that of a packet.
abbrev pub wire_key : StpPort → List ℕ
wire_key p = p.designated_root ∷ p.designated_cost ∷ p.designated_switch ∷ p.designated_port ∷ []

abbrev pub config_key : Config → List ℕ
config_key c = c.root_id ∷ c.root_path_cost ∷ c.switch_id ∷ c.port_id ∷ []

abbrev pub IsWordCost : StpPort → Type 0
IsWordCost p = p.designated_cost < 2 ^ 32

-- `compare_ports_pirority` returns 0 exactly when the first port's vector is lexicographically
-- smaller, for costs that are 32-bit words.
pub compare-lex_lt :
    (p q : StpPort)
    → IsWordCost p
    → IsWordCost q
    → compare_ports_pirority p q ≡ not (lex_lt (port_key p) (port_key q))
unfolding compare_ports_pirority lex_lt
compare-lex_lt p q hp hq = ground arith

-- `recv_has_higher_pirority` returns 0 exactly when the port's stored vector is lexicographically
-- smaller than the packet's; a packet that ties with the port wins.
pub recv-lex_lt :
    (p : StpPort) (c : Config)
    → recv_has_higher_pirority p c ≡ not (lex_lt (wire_key p) (config_key c))
unfolding recv_has_higher_pirority lex_lt
recv-lex_lt p c = ground arith

-- No worse: what the loops of `update_root` compute with.
abbrev pub NoWorse : StpPort → StpPort → Type 0
NoWorse p q = lex_lt (port_key q) (port_key p) ≡ false

pub NoWorse-refl : (p : StpPort) → NoWorse p p
NoWorse-refl p = lex_lt_irrefl (port_key p)

pub NoWorse-trans : (p q r : StpPort) → NoWorse p q → NoWorse q r → NoWorse p r
NoWorse-trans p q r h k = lex_ge_trans (port_key r) (port_key q) (port_key p) refl refl k h

-- Strictly better is no worse.
pub lex_lt-asymm : (xs ys : List ℕ) → lex_lt xs ys ≡ true → lex_lt ys xs ≡ false
lex_lt-asymm xs ys h = ground (arith, lex_lt_irrefl xs, lex_lt_trans xs ys xs)
