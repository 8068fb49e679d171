-- ===== src/Ospf/Packets/Start.antt =====
-- The router at the start: mospf_init of EXP12-mOSPF/code/12-mopsf/mospf_daemon.c.
use ucas_computer_network.Common.{◌≡◌, refl, some, List, [], ◌∷◌, map, All}
use ucas_computer_network.Ospf.{OspfIface, Router}
use ucas_computer_network.Ospf.Neighbours.{Counted}
use ucas_computer_network.Ospf.Packets.{init_iface, mospf_init}

init-Counted : (is : List OspfIface) → All (λ i. i.num_nbr ≡ 0) is → All Counted (map init_iface is)
unfolding init_iface
init-Counted [] h = tt
init-Counted (i ∷ is) (own, rest) = (own, init-Counted is rest)

-- Once `mospf_init` has run on interfaces that main.c has cleared, the counts of the neighbours are
-- right.
pub mospf_init-Counted :
    (i : OspfIface) (is : List OspfIface)
    → All (λ i. i.num_nbr ≡ 0) (i ∷ is)
    → (r : Router) × (mospf_init (i ∷ is) ≡ some r) × All Counted r.ifaces
unfolding mospf_init
mospf_init-Counted i is h = (_, refl, init-Counted (i ∷ is) h)
