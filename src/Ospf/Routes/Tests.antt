-- ===== src/Ospf/Routes/Tests.antt =====
-- Routes at small databases.
use ucas_computer_network.Common.{ℕ, ◌≡◌, refl, none, some, List, [], ◌∷◌, arith}
use ucas_computer_network.Ospf.{Lsa, DbEntry}
use ucas_computer_network.Ospf.Routes.{
  Graph, Search, init_graph, add_entries, add_edges, get_router_list_index, index_from, set_edge,
  dijkstra, no_edge,
}
use ucas_computer_network.Ospf.Routes.Shortest.{IsShortest, dijkstra-IsShortest}
use ucas_computer_network.Ospf.Routes.Edges.{Routed, init_graph-Routed}

abbrev lsa : ℕ → Lsa
lsa rid = record { network = 0; mask = 0; rid = rid }

-- Router 10 with its neighbour 20, behind which is 30.
abbrev db : List DbEntry
db =
    record { rid = 20; seq = 1; nadv = 2; alive = 0; array = lsa 10 ∷ lsa 30 ∷ [] }
    ∷ record { rid = 30; seq = 1; nadv = 1; alive = 0; array = lsa 20 ∷ [] }
    ∷ []

abbrev line : Graph
line = set_edge (set_edge (set_edge (λ i j. no_edge) 1 0) 1 2) 2 1

built : init_graph 10 db ≡ some (10 ∷ 20 ∷ 30 ∷ [], line)
unfolding init_graph add_entries add_edges get_router_list_index index_from
built = refl

routed_example : Routed (10 ∷ 20 ∷ 30 ∷ []) line
routed_example = init_graph-Routed 10 db (10 ∷ 20 ∷ 30 ∷ []) line built

-- A neighbour that has sent no LSU yet.
unknown_router :
    init_graph 10 (record { rid = 20; seq = 1; nadv = 1; alive = 0; array = lsa 30 ∷ [] } ∷ [])
    ≡ none
unfolding init_graph add_entries add_edges get_router_list_index index_from
unknown_router = refl

dijkstra_example : (s : Search) × (dijkstra line 3 ≡ some s) × IsShortest line 3 s
dijkstra_example = dijkstra-IsShortest line 3 (omega arith)
