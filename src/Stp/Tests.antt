-- ===== src/Stp/Tests.antt =====
-- A switch with three ports, and the theorems of Stp at it.
use ucas_computer_network.Common.{
  ℕ, ◌≡◌, refl, true, none, some, List, [], ◌∷◌, arith, ◌⊎◌, length, ◌≢◌,
}
use ucas_computer_network.Stp.Root.{Falling}
use ucas_computer_network.Stp.Elect.{Elected, candidates, update_root-Elected}
use ucas_computer_network.Stp.Handler.{Inv}
use ucas_computer_network.Stp.Reach.{packet, tick, run, run-init-Inv}
use ucas_computer_network.Stp.{
  Stp, StpPort, Config, Entry, compare_ports_pirority, update_root, stp_init, non_designated_from,
  stp_port_is_designated, scan_ports, select_root, follow_root, stp_port_state, Role, root_of,
  mac_to_id,
}

abbrev port : ℕ → ℕ → ℕ → ℕ → ℕ → StpPort
port id root cost switch number = record {
  port_id = id;
  path_cost = 1;
  designated_root = root;
  designated_switch = switch;
  designated_port = number;
  designated_cost = cost;
}

-- Switch 9: port 1 is its own, ports 2, 3 and 4 hear other switches; port 3 is the best.
abbrev ports_of : ℕ → List StpPort
ports_of last = port 1 9 0 9 1 ∷ port 2 5 2 7 1 ∷ port 3 4 1 6 2 ∷ port 4 last 1 8 2 ∷ []

abbrev switch : ℕ → Stp
switch last = record {
  switch_id = 9;
  designated_root = 9;
  root_path_cost = 0;
  root_port = none;
  hello_timer = record { active = true; time = 0; timeout = 512 };
  ports = ports_of last;
}

abbrev hello : Config
hello = record {
  proto_id = 0;
  version = 0;
  msg_type = 0;
  flags = 0;
  root_id = 4;
  root_path_cost = 1;
  switch_id = 6;
  port_id = 2;
  msg_age = 0;
  max_age = 5120;
  hello_time = 512;
  fwd_delay = 3840;
}

picks_port_3 : (update_root (switch 5)).root_port ≡ some 2
unfolding update_root non_designated_from stp_port_is_designated select_root scan_ports
    compare_ports_pirority follow_root
picks_port_3 = refl

roles :
    (stp_port_state (record (switch 5) { root_port = some 2 }) (port 3 4 1 6 2) ≡ Role.root)
    × (stp_port_state (switch 5) (port 1 9 0 9 1) ≡ Role.designated)
    × (stp_port_state (switch 5) (port 2 5 2 7 1) ≡ Role.alternate)
unfolding stp_port_state root_of
roles = (refl, refl, refl)

mac_id : mac_to_id 0 (2 ∷ 0 ∷ 1 ∷ []) ≡ 131073
unfolding mac_to_id
mac_id = refl

Elected_example :
    ((e : Entry) × Elected (switch 5) (update_root (switch 5)) e)
    ⊎ (((update_root (switch 5)).root_port ≡ none)
        × (length (candidates (switch 5)) ≢ 1)
        × Falling (candidates (switch 5)))
Elected_example = update_root-Elected (switch 5) (omega arith)

run_example : Inv (run (stp_init (2 ∷ 0 ∷ []) 3 0) (packet 1 hello ∷ tick 600 601 ∷ []))
run_example = run-init-Inv (2 ∷ 0 ∷ []) 3 0 (packet 1 hello ∷ tick 600 601 ∷ []) (omega arith)
