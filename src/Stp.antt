-- ===== src/Stp.antt =====
-- The spanning tree protocol of a switch: EXP06-STP/code/06-stp/stp.c, stp.h, stp_proto.h and
-- stp_timer.c. A port pointer is the port's index in `ports`. A config packet is the record of its
-- fields in host order (each field is written by hton* and read by ntoh*).
pub mod TickTimer
pub mod Priority
pub mod Root
pub mod Elect
pub mod Handler
pub mod Reach
pub mod Send
mod Tests
use Prim.Native.Nat.{bit_or}
use ucas_computer_network.Common.{
  ℕ, zero, suc, ◌+◌, ◌*◌, ◌/◌, ◌%◌, ◌^◌, Bool, true, false, not, ◌&&◌, Option, none, some, List, [],
  ◌∷◌, ◌++◌, ltb, ◌==◌, if◌then◌else◌, get_elem?, set, map,
}
use ucas_computer_network.Common.Words.{add32, slt32}
use TickTimer.{Timer, init_timer, start_timer, stop_timer, check_timer}

abbrev pub stp_bridge_priority : ℕ
stp_bridge_priority = 32768

abbrev pub stp_port_priority : ℕ
stp_port_priority = 128

-- Ticks of 1 / 256 second.
abbrev pub stp_max_age : ℕ
stp_max_age = 20000 * 256 / 1000

abbrev pub stp_hello_time : ℕ
stp_hello_time = 2000 * 256 / 1000

abbrev pub stp_fwd_delay : ℕ
stp_fwd_delay = 15000 * 256 / 1000

-- `struct stp_port`, less its name and its pointers to the interface and to the switch.
pub record StpPort : Type 0 where
  pub port_id : ℕ
  pub path_cost : ℕ
  pub designated_root : ℕ
  pub designated_switch : ℕ
  pub designated_port : ℕ
  pub designated_cost : ℕ

-- `struct stp`, less its lock and thread; `nports` is the length of `ports`.
pub record Stp : Type 0 where
  pub switch_id : ℕ
  pub designated_root : ℕ
  pub root_path_cost : ℕ
  pub root_port : Option ℕ
  pub hello_timer : Timer
  pub ports : List StpPort

-- `struct stp_config`, its header included.
pub record Config : Type 0 where
  pub proto_id : ℕ
  pub version : ℕ
  pub msg_type : ℕ
  pub flags : ℕ
  pub root_id : ℕ
  pub root_path_cost : ℕ
  pub switch_id : ℕ
  pub port_id : ℕ
  pub msg_age : ℕ
  pub max_age : ℕ
  pub hello_time : ℕ
  pub fwd_delay : ℕ

pub stp_is_root_switch : Stp → Bool
stp_is_root_switch stp = stp.designated_root == stp.switch_id

pub stp_port_is_designated : Stp → StpPort → Bool
stp_port_is_designated stp p =
    p.designated_switch == stp.switch_id && p.designated_port == p.port_id

pub data Role : Type 0 where
  root designated alternate : Role

-- The port that `root_port` points to.
pub root_of : Stp → Option StpPort
root_of stp = elim stp.root_port [ none ↦ none | some r ↦ get_elem? stp.ports r ]

pub is_root_port : Option StpPort → StpPort → Bool
is_root_port none p = false
is_root_port (some r) p = p.port_id == r.port_id

pub stp_port_state : Stp → StpPort → Role
unfolding is_root_port root_of stp_port_is_designated
stp_port_state stp p =
    if is_root_port (root_of stp) p
    then root
    else if stp_port_is_designated stp p
    then designated
    else alternate

-- The packet that `stp_port_send_config` builds; the port id is cut to 16 bits.
pub config_of : Stp → StpPort → Config
config_of stp p = record {
  proto_id = 0;
  version = 0;
  msg_type = 0;
  flags = 0;
  root_id = stp.designated_root;
  root_path_cost = stp.root_path_cost;
  switch_id = stp.switch_id;
  port_id = p.port_id % 2 ^ 16;
  msg_age = 0;
  max_age = stp_max_age;
  hello_time = stp_hello_time;
  fwd_delay = stp_fwd_delay;
}

pub has_root_port : Option ℕ → Bool
has_root_port none = false
has_root_port (some r) = true

-- What goes out: nothing, or one packet.
pub stp_port_send_config : Stp → StpPort → List Config
unfolding has_root_port stp_is_root_switch
stp_port_send_config stp p =
    if not (stp_is_root_switch stp) && not (has_root_port stp.root_port)
    then []
    else config_of stp p ∷ []

-- The loop of `stp_send_config`, from port `i` on. A packet goes with the index of its port.
send_from : Stp → ℕ → List StpPort → List (ℕ × Config)
send_from stp i [] = []
send_from stp i (p ∷ ps) =
    (if stp_port_is_designated stp p then map (λ c. (i, c)) (stp_port_send_config stp p) else [])
    ++ send_from stp (suc i) ps

pub stp_send_config : Stp → List (ℕ × Config)
stp_send_config stp = send_from stp 0 stp.ports

-- The timer's function; `now` is the tick that it reads.
pub stp_handle_hello_timeout : Stp → ℕ → Stp × List (ℕ × Config)
stp_handle_hello_timeout stp now =
    (record stp { hello_timer = start_timer stp.hello_timer now }, stp_send_config stp)

-- `stp_timer_run_once` over the one timer; `now'` is the tick that its function reads.
pub stp_timer_run_once : Stp → ℕ → ℕ → Stp × List (ℕ × Config)
stp_timer_run_once stp now now' =
    let (t, fired) = check_timer stp.hello_timer now in
    let stp' = record stp { hello_timer = t } in
    if fired then stp_handle_hello_timeout stp' now' else (stp', [])

pub stp_port_init : Stp → StpPort → StpPort
stp_port_init stp p = record p {
  designated_root = stp.designated_root;
  designated_switch = stp.switch_id;
  designated_port = p.port_id;
  designated_cost = stp.root_path_cost;
}

-- `false` when the port's own vector wins. The costs are compared as unsigned words.
pub recv_has_higher_pirority : StpPort → Config → Bool
recv_has_higher_pirority p c =
    if not (p.designated_root == c.root_id)
    then not (ltb p.designated_root c.root_id)
    else if not (p.designated_cost == c.root_path_cost)
    then not (ltb p.designated_cost c.root_path_cost)
    else if not (p.designated_switch == c.switch_id)
    then not (ltb p.designated_switch c.switch_id)
    else if not (p.designated_port == c.port_id)
    then not (ltb p.designated_port c.port_id)
    else true

-- `false` when `p1` wins. The costs are compared as `int`s.
pub compare_ports_pirority : StpPort → StpPort → Bool
compare_ports_pirority p1 p2 =
    if not (p1.designated_root == p2.designated_root)
    then not (ltb p1.designated_root p2.designated_root)
    else if not (p1.designated_cost == p2.designated_cost)
    then not (slt32 p1.designated_cost p2.designated_cost)
    else if not (p1.designated_switch == p2.designated_switch)
    then not (ltb p1.designated_switch p2.designated_switch)
    else if not (p1.designated_port == p2.designated_port)
    then not (ltb p1.designated_port p2.designated_port)
    else true

pub update_port_config : StpPort → Config → StpPort
update_port_config p c = record p {
  designated_root = c.root_id;
  designated_switch = c.switch_id;
  designated_port = c.port_id;
  designated_cost = c.root_path_cost;
}

-- A port with its index.
abbrev pub Entry : Type 0
Entry = ℕ × StpPort

pub non_designated_from : Stp → ℕ → List StpPort → List Entry
non_designated_from stp i [] = []
non_designated_from stp i (p ∷ ps) =
    let rest = non_designated_from stp (suc i) ps in
    if stp_port_is_designated stp p then rest else (i, p) ∷ rest

-- The second loop of `update_root`: `none` is `judge == 0`, and `some` holds the port assigned so
-- far. The last port is only ever the right side of a comparison.
pub scan_ports : Option Entry → List Entry → Option Entry
scan_ports none (a ∷ b ∷ rest) =
    scan_ports (if not (compare_ports_pirority a.1 b.1) then some a else none) (b ∷ rest)
scan_ports (some r) (a ∷ b ∷ rest) =
    scan_ports (some (if not (compare_ports_pirority a.1 r.1) then a else r)) (b ∷ rest)
scan_ports r _ = r

-- The port that this run of `update_root` assigns to `root_port`, if it assigns one.
pub select_root : List Entry → Option Entry
select_root (e ∷ []) = some e
select_root es = scan_ports none es

new_root_port : Option Entry → Option ℕ → Option ℕ
new_root_port none old = old
new_root_port (some e) old = some e.0

-- The end of `update_root`: the switch's root and cost follow its root port.
pub follow_root : Stp → Option StpPort → Stp
follow_root stp none = record stp { designated_root = stp.switch_id; root_path_cost = 0 }
follow_root stp (some r) = record stp {
  designated_root = r.designated_root;
  root_path_cost = add32 r.designated_cost r.path_cost;
}

pub update_root : Stp → Stp
unfolding new_root_port root_of
update_root stp =
    let found = select_root (non_designated_from stp 0 stp.ports) in
    let stp' = record stp { root_port = new_root_port found stp.root_port } in
    follow_root stp' (root_of stp')

pub update_other_port : Stp → StpPort → StpPort
update_other_port stp p =
    if stp_port_is_designated stp p
    then record p { designated_root = stp.designated_root; designated_cost = stp.root_path_cost }
    else p

pub update_other_ports : Stp → Stp
update_other_ports stp = record stp { ports = map (update_other_port stp) stp.ports }

-- The end of `stp_handle_config_packet`: a switch that is not the root stops its hello timer and
-- passes the news on.
pub settle : Stp → Stp × List (ℕ × Config)
settle stp =
    if not (stp_is_root_switch stp)
    then (record stp { hello_timer = stop_timer stp.hello_timer }, stp_send_config stp)
    else (stp, [])

-- `stp_handle_config_packet` once the packet has won over port `i`, which is `p`.
pub accept_config : Stp → ℕ → StpPort → Config → Stp × List (ℕ × Config)
accept_config stp i p c = settle (
    update_other_ports
      (update_root (record stp { ports = set stp.ports i (update_port_config p c) })))

-- A packet on port `i`. No port has an index past the end: it is ignored.
pub stp_handle_config_packet : Stp → ℕ → Config → Stp × List (ℕ × Config)
stp_handle_config_packet stp i c = elim (get_elem? stp.ports i) [
  | none ↦ (stp, [])
  | some p ↦ if recv_has_higher_pirority p c then accept_config stp i p c else (stp, [])
]

-- Packets of another type are only logged.
pub stp_port_handle_packet : Stp → ℕ → Config → Stp × List (ℕ × Config)
stp_port_handle_packet stp i c =
    if c.msg_type == 0 then stp_handle_config_packet stp i c else (stp, [])

-- `mac_addr <<= 8; mac_addr += mac[i]` on a u64.
pub mac_to_id : ℕ → List ℕ → ℕ
mac_to_id acc [] = acc
mac_to_id acc (b ∷ bs) = mac_to_id ((acc * 256 + b) % 2 ^ 64) bs

-- The list of interfaces is taken by its length; the first one's hardware address names the switch.
init_ports : Stp → ℕ → ℕ → List StpPort
init_ports stp i zero = []
init_ports stp i (suc n) =
    stp_port_init stp (record {
      port_id = stp_port_priority * 256 + (i + 1);
      path_cost = 1;
      designated_root = 0;
      designated_switch = 0;
      designated_port = 0;
      designated_cost = 0;
    })
    ∷ init_ports stp (i + 1) n

pub stp_init : List ℕ → ℕ → ℕ → Stp
stp_init mac nifaces now =
    let id = bit_or (mac_to_id 0 mac) (stp_bridge_priority * 2 ^ 48) in
    let stp : Stp = record {
      switch_id = id;
      designated_root = id;
      root_path_cost = 0;
      root_port = none;
      hello_timer = start_timer (init_timer stp_hello_time) now;
      ports = [];
    } in
    record stp { ports = init_ports stp 0 nifaces }
