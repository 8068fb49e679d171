-- ===== src/Stp/Reach.antt =====
-- Whole histories of a switch: packets on its ports and readings of its timer.
use ucas_computer_network.Common.{ℕ, zero, suc, ◌+◌, ◌<◌, ◌^◌, ◌≡◌, refl, List, [], ◌∷◌, arith, All}
use ucas_computer_network.Stp.{
  Stp, Config, stp_port_handle_packet, stp_timer_run_once, stp_init, init_ports, stp_port_init,
  root_of,
}
use ucas_computer_network.Stp.Handler.{Inv, PortBelow, handle_packet-Inv, timer_run_once-Inv}

-- What the two threads do, under the switch's lock.
pub data Event : Type 0 where
  packet : ℕ → Config → Event
  tick : ℕ → ℕ → Event

unfoldable pub handle_event : Stp → Event → Stp
handle_event stp (packet i c) = (stp_port_handle_packet stp i c).0
handle_event stp (tick now now') = (stp_timer_run_once stp now now').0

unfoldable pub run : Stp → List Event → Stp
run stp [] = stp
run stp (e ∷ es) = run (handle_event stp e) es

-- The cost of a packet is a 32-bit word.
abbrev pub IsWordEvent : Event → Type 0
IsWordEvent (packet i c) = c.root_path_cost < 2 ^ 32
IsWordEvent (tick now now') = Unit {0}

init_ports-PortBelow :
    (stp : Stp) (i n : ℕ)
    → stp.designated_root ≡ stp.switch_id
    → stp.root_path_cost ≡ 0
    → All (PortBelow stp.switch_id) (init_ports stp i n)
unfolding init_ports stp_port_init
init_ports-PortBelow stp i zero e c = tt
init_ports-PortBelow stp i (suc n) e c =
    ((omega arith, omega arith), init_ports-PortBelow stp (i + 1) n e c)

init-Inv : (mac : List ℕ) (n now : ℕ) → Inv (stp_init mac n now)
unfolding stp_init root_of
init-Inv mac n now = record {
  root_le = omega arith;
  ports_le = init_ports-PortBelow _ 0 n refl refl;
  follows = refl;
  hello = λ _. refl;
}

run-Inv : (stp : Stp) (es : List Event) → All IsWordEvent es → Inv stp → Inv (run stp es)
unfolding run handle_event
run-Inv stp [] h v = v
run-Inv stp (packet i c ∷ es) h v =
    run-Inv (stp_port_handle_packet stp i c).0 es h.1 (handle_packet-Inv stp i c h.0 v)
run-Inv stp (tick now now' ∷ es) h v =
    run-Inv (stp_timer_run_once stp now now').0 es h.1 (timer_run_once-Inv stp now now' v)

-- After any history of packets, whose costs are 32-bit words, and timer readings, a switch and each
-- of its ports believe in no root above the switch itself, the switch's root is that of its root
-- port or itself without one, and its hello timer runs only while it believes to be the root.
pub run-init-Inv :
    (mac : List ℕ) (nifaces now : ℕ) (es : List Event)
    → All IsWordEvent es
    → Inv (run (stp_init mac nifaces now) es)
run-init-Inv mac nifaces now es h = run-Inv _ es h (init-Inv mac nifaces now)
