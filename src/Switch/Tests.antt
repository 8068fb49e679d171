-- ===== src/Switch/Tests.antt =====
-- Two hosts behind a switch of three ports, and the theorems of Switch at them.
use ucas_computer_network.Common.{ℕ, ◌≡◌, ◌≢◌, refl, none, some, List, [], ◌∷◌, arith}
use ucas_computer_network.Switch.{
  MacPortMap, mac_cmp, mac_cmp_from, handle_packet, lookup_port, find_mac, visit, insert_mac_port,
  broadcast_packet, learn, send_on,
}
use ucas_computer_network.Switch.Learning.{port_of, handle_packet_lem}

abbrev no_entries : MacPortMap
no_entries h = []

abbrev host_1 : List ℕ
host_1 = 0 ∷ 0 ∷ 0 ∷ 0 ∷ 0 ∷ 1 ∷ []

abbrev host_2 : List ℕ
host_2 = 0 ∷ 0 ∷ 0 ∷ 0 ∷ 0 ∷ 2 ∷ []

abbrev ports : List ℕ
ports = 1 ∷ 2 ∷ 3 ∷ []

-- The first packet is flooded, and its answer is not.
learns :
    let (t₁, out₁) = handle_packet 10 ports 1 host_2 host_1 no_entries in
    let (t₂, out₂) = handle_packet 11 ports 2 host_1 host_2 t₁ in
    (out₁ ≡ 2 ∷ 3 ∷ []) × (out₂ ≡ 1 ∷ [])
unfolding handle_packet learn send_on lookup_port find_mac visit insert_mac_port broadcast_packet
    mac_cmp mac_cmp_from
learns = (refl, refl)

-- A host that has moved to port 3 and goes on sending is still reached at port 1.
moved :
    let t₁ = (handle_packet 10 ports 1 host_2 host_1 no_entries).0 in
    let t₂ = (handle_packet 11 ports 3 host_2 host_1 t₁).0 in
    (handle_packet 12 ports 2 host_1 host_2 t₂).1 ≡ 1 ∷ []
unfolding handle_packet learn send_on lookup_port find_mac visit insert_mac_port broadcast_packet
    mac_cmp mac_cmp_from
moved = refl

differ : mac_cmp host_1 host_2 ≢ 0
unfolding mac_cmp mac_cmp_from
differ e = absurd (omega (arith, e))

handle_packet_example :
    let (t', out) = handle_packet 10 ports 1 host_2 host_1 no_entries in
    (out ≡ 2 ∷ 3 ∷ []) × (port_of t' host_1 ≡ some 1) × (port_of t' host_2 ≡ none)
unfolding find_mac
handle_packet_example = handle_packet_lem 10 1 ports host_2 host_1 host_2 no_entries differ

abbrev aged : MacPortMap
aged h =
    record { mac = host_1; iface = 1; visited = 10 }
    ∷ record { mac = host_2; iface = 2; visited = 20 }
    ∷ []
