-- ===== src/Ospf/Tests.antt =====
-- A router with two interfaces.
use ucas_computer_network.Common.{ℕ, true, ◌+◌, ◌≡◌, ◌⊎◌, refl, none, some, List, [], ◌∷◌, map}
use ucas_computer_network.Ospf.{
  Nbr, OspfIface, Router, Lsu, lsa_of, lsas_of, lsu_to, lsus_to, sending_mospf_lsu, known_nbr,
  forward_from, handle_mospf_lsu,
}
use ucas_computer_network.Ospf.Flood.{Overflows, flood_once}
use ucas_computer_network.Ospf.Neighbours.{sending-exact}

abbrev nbr : ℕ → Nbr
nbr id = record { nbr_id = id; nbr_ip = 100 + id; nbr_mask = 255; alive = 15 }

abbrev stub : OspfIface
stub = record { ip = 257; mask = 256; helloint = 5; num_nbr = 0; nbr_list = [] }

abbrev linked : OspfIface
linked = record { ip = 7; mask = 255; helloint = 5; num_nbr = 2; nbr_list = nbr 2 ∷ nbr 3 ∷ [] }

abbrev router : Router
router = record { router_id = 1; sequence_num = 65535; ifaces = stub ∷ linked ∷ []; db = [] }

-- The sequence number wraps.
sending_example :
    sending_mospf_lsu router
    ≡ some (record router { sequence_num = 0 }, lsus_to 1 0 (lsas_of router.ifaces) router.ifaces)
sending_example = sending-exact router (refl, (refl, tt))

lsus_sent : map (λ p. p.daddr) (lsus_to 1 0 (lsas_of router.ifaces) router.ifaces) ≡ 102 ∷ 103 ∷ []
unfolding lsus_to lsu_to
lsus_sent = refl

lsas_made : map (λ a. a.rid) (lsas_of router.ifaces) ≡ 0 ∷ 2 ∷ 3 ∷ []
unfolding lsas_of lsa_of
lsas_made = refl

known : known_nbr 103 linked.nbr_list ≡ true
unfolding known_nbr
known = refl

-- From router 2, with one advertisement.
abbrev lsu : Lsu
lsu = record {
  saddr = 102;
  daddr = 7;
  rid = 2;
  seq = 5;
  ttl = 9;
  lsas = record { network = 0; mask = 0; rid = 1 } ∷ [];
}

flood_example :
    ((handle_mospf_lsu router lsu ≡ none) × Overflows lsu [])
    ⊎ ((r' : Router) × (out : List Lsu) × (handle_mospf_lsu router lsu ≡ some (r', out))
        × (handle_mospf_lsu r' lsu ≡ some (r', [])))
flood_example = flood_once router lsu

-- It is passed on to the other neighbour only.
forwarded : map (λ p. p.daddr) (forward_from lsu router.ifaces) ≡ 103 ∷ []
unfolding forward_from
forwarded = refl
