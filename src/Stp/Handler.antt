-- ===== src/Stp/Handler.antt =====
-- What the packet and timer handlers of stp.c keep true of a switch.
use ucas_computer_network.Common.{
  ℕ, zero, suc, ◌≤◌, ◌<◌, ◌^◌, ◌≡◌, ◌⊎◌, inl, inr, refl, sym, subst, ◌==◌, true, Option, none, some,
  List, [], ◌∷◌, map, arith, All, All-set, All-get_elem?, set, get_elem?, Bool-cases, Option-cases,
}
use mathlib.Core.Option
use ucas_computer_network.Stp.TickTimer.{start_timer, stop_timer, check_timer}
use ucas_computer_network.Stp.{
  Stp, StpPort, Config, stp_is_root_switch, stp_port_is_designated, root_of, follow_root,
  update_root, update_port_config, update_other_port, update_other_ports, settle, accept_config,
  recv_has_higher_pirority, stp_handle_config_packet, stp_port_handle_packet,
  stp_handle_hello_timeout, stp_timer_run_once, new_root_port, select_root, non_designated_from,
}

-- A port believes in no root above `id`, and its cost is a 32-bit word.
abbrev pub PortBelow : ℕ → StpPort → Type 0
PortBelow id p = (p.designated_root ≤ id) × (p.designated_cost < 2 ^ 32)

-- The root that follows from the root port.
abbrev pub root_by : ℕ → Option StpPort → ℕ
root_by id none = id
root_by id (some r) = r.designated_root

-- What holds of a switch between two handlers: it believes in no root above itself, nor do its
-- ports; its root is its root port's, or itself without one; and its hello timer runs only while it
-- believes to be the root.
pub record Inv (stp : Stp) : Type 0 where
  pub root_le : stp.designated_root ≤ stp.switch_id
  pub ports_le : All (PortBelow stp.switch_id) stp.ports
  pub follows : stp.designated_root ≡ root_by stp.switch_id (root_of stp)
  pub hello : stp.hello_timer.active ≡ true → stp.designated_root ≡ stp.switch_id

-- A packet that wins over a port names no higher root.
recv-root_le :
    (p : StpPort) (c : Config) → recv_has_higher_pirority p c ≡ true → c.root_id ≤ p.designated_root
unfolding recv_has_higher_pirority
recv-root_le p c h = ground arith

root_by-le :
    (id : ℕ) (ps : List StpPort) (o : Option StpPort)
    → All (PortBelow id) ps
    → ((o ≡ none) ⊎ ((p : StpPort) × (i : ℕ) × (o ≡ some p) × (get_elem? ps i ≡ some p)))
    → root_by id o ≤ id
root_by-le id ps o h (inl e) = rw e (omega arith)
root_by-le id ps o h (inr (p, i, e, k)) = rw e (All-get_elem? (PortBelow id) ps i h k).0

root_of-cases :
    (stp : Stp)
    → (root_of stp ≡ none)
      ⊎ ((p : StpPort) × (i : ℕ) × (root_of stp ≡ some p) × (get_elem? stp.ports i ≡ some p))
unfolding root_of
root_of-cases stp = elim (Option-cases stp.root_port) [
  | inl e ↦ inl (rw e refl)
  | inr (i, e) ↦ elim (Option-cases (get_elem? stp.ports i)) [
    | inl k ↦ inl (rw e k)
    | inr (p, k) ↦ inr (p, i, rw e k, k)
  ]
]

-- `update_root` keeps the ports, the name and the timer, and follows the root port that it leaves.
record Follows (stp stp' : Stp) : Type 0 where
  ports : stp'.ports ≡ stp.ports
  name : stp'.switch_id ≡ stp.switch_id
  timer : stp'.hello_timer ≡ stp.hello_timer
  root : stp'.designated_root ≡ root_by stp'.switch_id (root_of stp')
  cost : stp'.root_path_cost < 2 ^ 32

follow_root-Follows :
    (stp : Stp) (o : Option StpPort) → root_of stp ≡ o → Follows stp (follow_root stp o)
unfolding follow_root root_of
follow_root-Follows stp none e = record {
  ports = refl;
  name = refl;
  timer = refl;
  root = rw e refl;
  cost = omega arith;
}
follow_root-Follows stp (some r) e = record {
  ports = refl;
  name = refl;
  timer = refl;
  root = rw e refl;
  cost = omega arith;
}

update_root-Follows : (stp : Stp) → Follows stp (update_root stp)
unfolding update_root
update_root-Follows stp =
    let f = follow_root-Follows (record stp { root_port = new }) _ refl in
    record { ports = f.ports; name = f.name; timer = f.timer; root = f.root; cost = f.cost }
  where
    new : Option ℕ
    new = new_root_port (select_root (non_designated_from stp 0 stp.ports)) stp.root_port

update_other_port-PortBelow :
    (stp : Stp) (ps : List StpPort)
    → stp.designated_root ≤ stp.switch_id
    → stp.root_path_cost < 2 ^ 32
    → All (PortBelow stp.switch_id) ps
    → All (PortBelow stp.switch_id) (map (update_other_port stp) ps)
unfolding update_other_port
update_other_port-PortBelow stp [] h k a = tt
update_other_port-PortBelow stp (p ∷ ps) h k a =
    (ground arith, update_other_port-PortBelow stp ps h k a.1)

get_elem?-map :
    (f : StpPort → StpPort) (ps : List StpPort) (i : ℕ)
    → get_elem? (map f ps) i ≡ Option.map f (get_elem? ps i)
get_elem?-map f [] i = refl
get_elem?-map f (p ∷ ps) zero = refl
get_elem?-map f (p ∷ ps) (suc i) = get_elem?-map f ps i

root_of-other :
    (stp : Stp)
    → root_of (update_other_ports stp) ≡ Option.map (update_other_port stp) (root_of stp)
unfolding root_of update_other_ports update_other_port stp_port_is_designated
root_of-other stp = elim (Option-cases stp.root_port) [
  | inl e ↦ rw e refl
  | inr (i, e) ↦ rw e (get_elem?-map (update_other_port stp) stp.ports i)
]

-- Telling the designated ports of the root leaves the root of the root port as it is.
root_by-map :
    (stp : Stp) (o : Option StpPort)
    → stp.designated_root ≡ root_by stp.switch_id o
    → stp.designated_root ≡ root_by stp.switch_id (Option.map (update_other_port stp) o)
unfolding update_other_port
root_by-map stp none h = h
root_by-map stp (some p) h = ground arith

-- The invariant but for the timer.
record Core (stp : Stp) : Type 0 where
  root_le : stp.designated_root ≤ stp.switch_id
  ports_le : All (PortBelow stp.switch_id) stp.ports
  follows : stp.designated_root ≡ root_by stp.switch_id (root_of stp)

update_other_ports-Core :
    (stp : Stp) → Core stp → stp.root_path_cost < 2 ^ 32 → Core (update_other_ports stp)
unfolding update_other_ports
update_other_ports-Core stp v word = record {
  root_le = v.root_le;
  ports_le = update_other_port-PortBelow stp stp.ports v.root_le word v.ports_le;
  follows =
      subst (λ o. stp.designated_root ≡ root_by stp.switch_id o) (sym (root_of-other stp))
        (root_by-map stp (root_of stp) v.follows);
}

root_le_of :
    (stp : Stp)
    → All (PortBelow stp.switch_id) stp.ports
    → root_by stp.switch_id (root_of stp) ≤ stp.switch_id
root_le_of stp h = root_by-le stp.switch_id stp.ports (root_of stp) h (root_of-cases stp)

update_root-Core : (stp : Stp) → All (PortBelow stp.switch_id) stp.ports → Core (update_root stp)
update_root-Core stp h =
    let f = update_root-Follows stp in
    let ports_le : All (PortBelow (update_root stp).switch_id) (update_root stp).ports =
      subst (λ ps. All (PortBelow (update_root stp).switch_id) ps) (sym f.ports)
        (subst (λ id. All (PortBelow id) stp.ports) (sym f.name) h) in
    record {
      root_le = rw f.root (root_le_of (update_root stp) ports_le);
      ports_le = ports_le;
      follows = f.root;
    }

-- The end of `stp_handle_config_packet`: on a switch that is not the root the timer stops.
settle-Inv : (stp : Stp) → Core stp → Inv (settle stp).0
unfolding settle stp_is_root_switch stop_timer root_of
settle-Inv stp v = elim (Bool-cases (stp.designated_root == stp.switch_id)) [
  | inl yes_root ↦ rw yes_root (record {
    root_le = v.root_le;
    ports_le = v.ports_le;
    follows = v.follows;
    hello = λ _. ground arith;
  })
  | inr not_root ↦
      rw not_root (record {
        root_le = v.root_le;
        ports_le = v.ports_le;
        follows = v.follows;
        hello = λ e. cc;
      })
]

-- A packet accepted on port `p`, whose cost fits a word, leaves the invariant.
accept_config-Inv :
    (stp : Stp) (i : ℕ) (p : StpPort) (c : Config)
    → Inv stp
    → get_elem? stp.ports i ≡ some p
    → c.root_id ≤ p.designated_root
    → c.root_path_cost < 2 ^ 32
    → Inv (accept_config stp i p c).0
unfolding accept_config update_port_config
accept_config-Inv stp i p c v e le word =
    settle-Inv _ (
      update_other_ports-Core _ (update_root-Core stored ports_le)
        (update_root-Follows stored).cost)
  where
    stored : Stp
    stored = record stp { ports = set stp.ports i (update_port_config p c) }

    below : p.designated_root ≤ stp.switch_id
    below = (All-get_elem? (PortBelow stp.switch_id) stp.ports i v.ports_le e).0

    ports_le : All (PortBelow stp.switch_id) (set stp.ports i (update_port_config p c))
    ports_le =
        All-set (PortBelow stp.switch_id) stp.ports i _ v.ports_le (omega (arith, below), word)

-- The invariant survives any packet whose cost fits a word, on any port.
pub handle_packet-Inv :
    (stp : Stp) (i : ℕ) (c : Config)
    → c.root_path_cost < 2 ^ 32
    → Inv stp
    → Inv (stp_port_handle_packet stp i c).0
unfolding stp_port_handle_packet stp_handle_config_packet
handle_packet-Inv stp i c word v = elim (Bool-cases (c.msg_type == 0)) [
  | inr other ↦ rw other v
  | inl config ↦ rw config (elim (Option-cases (get_elem? stp.ports i)) [
    | inl e ↦ rw (e, stp_handle_config_packet) v
    | inr (p, e) ↦
        rw (e, stp_handle_config_packet)
          (elim (Bool-cases (recv_has_higher_pirority p c)) [
            | inr lost ↦ rw lost v
            | inl won ↦ rw won (accept_config-Inv stp i p c v e (recv-root_le p c won) word)
          ])
  ])
]

-- It survives the timer.
pub timer_run_once-Inv :
    (stp : Stp) (now now' : ℕ) → Inv stp → Inv (stp_timer_run_once stp now now').0
unfolding stp_timer_run_once stp_handle_hello_timeout check_timer start_timer root_of
timer_run_once-Inv stp now now' v = ground (arith, v.hello)
