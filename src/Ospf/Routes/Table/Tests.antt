-- ===== src/Ospf/Routes/Table/Tests.antt =====
-- A routing table written from a small database.
use ucas_computer_network.Common.{
  ℕ, zero, suc, ◌<◌, ◌≡◌, ◌≢◌, refl, true, false, none, some, List, [], ◌∷◌, arith, get_or,
}
use ucas_computer_network.Common.Tables.{update}
use ucas_computer_network.Ospf.{DbEntry, OspfIface}
use ucas_computer_network.Ospf.Routes.{
  Graph, Search, far, no_edge, set_edge, relax_at, relax_upto, pick, min_dist, search_rounds,
  start_search, init_graph, add_entries, add_edges, get_router_list_index, index_from, dijkstra,
}
use ucas_computer_network.Ospf.Routes.Table.{
  Route, nbr_ip_of, gateway, drop_gateways, own_marked, update_rounds, update_rtable,
}
use ucas_computer_network.Ospf.Routes.Table.LastRound.{update_rtable-out}
use ucas_computer_network.Ospf.Routes.Table.Covers.{Links, Covered, update_rounds-Covers}

abbrev add_first : Route → List Route → List Route
add_first e rt = e ∷ rt

abbrev remove_none : Route → List Route → List Route
remove_none e rt = rt

add_first-Links : Links add_first
add_first-Links e rt = ([], rt, refl, refl)

-- Router 10 has the neighbour 20, which advertises the network 5 as well.
abbrev iface : OspfIface
iface = record {
  ip = 1;
  mask = 255;
  helloint = 5;
  num_nbr = 1;
  nbr_list = record { nbr_id = 20; nbr_ip = 2; nbr_mask = 255; alive = 0 } ∷ [];
}

abbrev db : List DbEntry
db =
    record {
      rid = 20;
      seq = 1;
      nadv = 2;
      alive = 0;
      array =
          record { network = 1; mask = 255; rid = 10 }
          ∷ record { network = 5; mask = 255; rid = 0 }
          ∷ [];
    }
    ∷ []

abbrev pair : Graph
pair = set_edge (λ i j. no_edge) 1 0

abbrev near : Search
near = relax_upto pair 0 2 (record start_search { visited = update (λ v. false) 0 true })

abbrev done : Search
done = relax_upto pair 1 2 (record near { visited = update near.visited 1 true })

built : init_graph 10 db ≡ some (10 ∷ 20 ∷ [], pair)
unfolding init_graph add_entries add_edges get_router_list_index index_from
built = refl

found : dijkstra pair 2 ≡ some done
unfolding dijkstra search_rounds min_dist pick start_search relax_upto relax_at set_edge
found = refl

reach : (t : ℕ) → t < 2 → done.dist t < far
unfolding start_search relax_upto relax_at set_edge
reach zero lt = omega arith
reach (suc zero) lt = omega arith
reach (suc (suc t)) lt = absurd (omega (arith, lt))

next_to :
    (h : ℕ)
    → pair 0 h ≡ 1
    → (gw : ℕ) × (i : OspfIface) × (gateway (iface ∷ []) (get_or (10 ∷ 20 ∷ []) h 0) ≡ some (gw, i))
unfolding set_edge gateway nbr_ip_of
next_to zero e = absurd (omega (arith, e))
next_to (suc zero) e = (2, iface, refl)
next_to (suc (suc h)) e = absurd (ground (arith, e))

covers_example :
    (rt' : List Route) × (update_rounds add_first remove_none
        (iface ∷ [])
        (10 ∷ 20 ∷ [])
        done
        db
        1
        own_marked
        (drop_gateways add_first remove_none [] [])
      ≡ some rt')
    × ((t : ℕ) → t < 2 → t ≢ 0 → Covered (get_or (10 ∷ 20 ∷ []) t 0) db rt')
covers_example =
    update_rounds-Covers add_first remove_none (iface ∷ []) 10 db [] (10 ∷ 20 ∷ []) pair done
      add_first-Links built found reach next_to

table_out_example : update_rtable add_first remove_none (iface ∷ []) 10 db [] ≡ none
table_out_example = update_rtable-out add_first remove_none (iface ∷ []) 10 db []
