-- ===== src/Stp/Send.antt =====
-- What `stp_send_config` puts on the wire.
use ucas_computer_network.Common.{
  ℕ, suc, ◌≡◌, refl, true, false, not, ◌&&◌, List, [], ◌∷◌, map, arith, if◌then◌else◌, ◌⊎◌,
}
use ucas_computer_network.Stp.{
  Stp, StpPort, Entry, stp_send_config, send_from, stp_port_send_config, config_of,
  stp_is_root_switch, stp_port_is_designated, has_root_port,
}

-- The designated ports under their indices.
pub designated_from : Stp → ℕ → List StpPort → List Entry
designated_from stp i [] = []
designated_from stp i (p ∷ ps) =
    let rest = designated_from stp (suc i) ps in
    if stp_port_is_designated stp p then (i, p) ∷ rest else rest

-- A switch that is the root, or knows a way to it.
abbrev pub Attached : Stp → Type 0
Attached stp = (stp_is_root_switch stp ≡ true) ⊎ (has_root_port stp.root_port ≡ true)

send_from-attached :
    (stp : Stp) (i : ℕ) (ps : List StpPort)
    → not (stp_is_root_switch stp) && not (has_root_port stp.root_port) ≡ false
    → send_from stp i ps ≡ map (λ e. (e.0, config_of stp e.1)) (designated_from stp i ps)
unfolding send_from designated_from stp_port_send_config
send_from-attached stp i [] h = refl
send_from-attached stp i (p ∷ ps) h = ground (arith, send_from-attached stp (suc i) ps h)

send_from-detached :
    (stp : Stp) (i : ℕ) (ps : List StpPort)
    → not (stp_is_root_switch stp) && not (has_root_port stp.root_port) ≡ true
    → send_from stp i ps ≡ []
unfolding send_from stp_port_send_config
send_from-detached stp i [] h = refl
send_from-detached stp i (p ∷ ps) h = ground (arith, send_from-detached stp (suc i) ps h)

-- A switch that is the root or has a root port sends one config packet, which carries the switch's
-- root, cost and name, through each designated port and through no other, in the ports' order.
pub send_config-Attached :
    (stp : Stp)
    → Attached stp
    → stp_send_config stp ≡ map (λ e. (e.0, config_of stp e.1)) (designated_from stp 0 stp.ports)
unfolding stp_send_config
send_config-Attached stp h = send_from-attached stp 0 stp.ports (ground arith)

-- A switch that is neither sends nothing.
pub send_config-detached :
    (stp : Stp)
    → stp_is_root_switch stp ≡ false
    → has_root_port stp.root_port ≡ false
    → stp_send_config stp ≡ []
unfolding stp_send_config
send_config-detached stp h k = send_from-detached stp 0 stp.ports (ground arith)
