-- ===== src/Ospf/Routes/Edges.antt =====
-- The graph of the database, and the routes on it.
use ucas_computer_network.Common.{
  ℕ, ◌<◌, ◌≤◌, ◌≡◌, ◌≢◌, ◌⊎◌, inl, inr, refl, subst, ◌&&◌, Option, none, some, List, [], ◌∷◌, arith,
  ltb, ◌==◌, Bool-cases, Option-cases, length, map, take,
}
use ucas_computer_network.Ospf.{Lsa, DbEntry}
use ucas_computer_network.Ospf.Routes.{
  Graph, Search, far, no_edge, router_num, set_edge, add_edges, add_entries, init_graph,
  get_router_list_index, dijkstra, find_next_hop,
}
use ucas_computer_network.Ospf.Routes.Shortest.{IsShortest, dijkstra-IsShortest}
use ucas_computer_network.Ospf.Routes.NextHop.{Hop, find_next_hop-Hop}

-- Each two routers are joined both ways, by an edge of length 1, or not at all.
pub record IsGraph (g : Graph) : Type 0 where
  pub symmetric : (i j : ℕ) → g i j ≡ g j i
  pub unit : (i j : ℕ) → (g i j ≡ 1) ⊎ (g i j ≡ no_edge)

set_edge-IsGraph : (g : Graph) (u v : ℕ) → IsGraph g → IsGraph (set_edge g u v)
unfolding set_edge
set_edge-IsGraph g u v h = record {
  symmetric = λ i j. ground (arith, h.symmetric i j);
  unit = λ i j. elim (Bool-cases (i == u && j == v)) [
    | inl on ↦ rw on (inl refl)
    | inr off ↦ rw off (elim (Bool-cases (i == v && j == u)) [
      | inl on ↦ rw on (inl refl)
      | inr off' ↦ rw off' (h.unit i j)
    ])
  ];
}

-- What a loop that adds edges results in.
abbrev Grows : Option Graph → Type 0
Grows none = Unit {0}
Grows (some g) = IsGraph g

add_edges-Grows :
    (routers : List ℕ) (u : ℕ) (lsas : List Lsa) (g : Graph)
    → IsGraph g
    → Grows (add_edges routers u lsas g)
unfolding add_edges
add_edges-Grows routers u [] g h = h
add_edges-Grows routers u (a ∷ lsas) g h = elim (Bool-cases (a.rid == 0)) [
  | inl stub ↦ rw (stub, add_edges) (add_edges-Grows routers u lsas g h)
  | inr link ↦ elim (Option-cases (get_router_list_index routers a.rid)) [
    | inl e ↦ rw (link, add_edges, e) tt
    | inr (v, e) ↦
        rw (link, add_edges, e)
          (add_edges-Grows routers u lsas (set_edge g u v) (set_edge-IsGraph g u v h))
  ]
]

add_entries-Grows :
    (routers : List ℕ) (db : List DbEntry) (g : Graph)
    → IsGraph g
    → Grows (add_entries routers db g)
unfolding add_entries
add_entries-Grows routers [] g h = h
add_entries-Grows routers (e ∷ es) g h = elim (Option-cases (get_router_list_index routers e.rid)) [
  | inl x ↦ rw (x, add_entries) tt
  | inr (u, x) ↦
      let edges = add_edges-Grows routers u (take e.nadv e.array) g h in
      elim (Option-cases (add_edges routers u (take e.nadv e.array) g)) [
        | inl y ↦ rw (x, add_entries, y) tt
        | inr (g', y) ↦
            rw (x, add_entries, y) (add_entries-Grows routers es g' (subst Grows y edges))
      ]
]

empty-IsGraph : IsGraph (λ i j. no_edge)
empty-IsGraph = record { symmetric = λ i j. refl; unit = λ i j. inr refl }

-- What is computed from a database.
pub record Routed (routers : List ℕ) (g : Graph) : Type 0 where
  pub own : 0 < length routers
  pub fits : length routers ≤ router_num
  pub graph : IsGraph g
  pub search : Search
  pub runs : dijkstra g (length routers) ≡ some search
  pub short : IsShortest g (length routers) search
  pub hops :
      (v : ℕ)
      → search.dist v < far
      → v ≢ 0
      → (h : ℕ) × (find_next_hop far search.prev v ≡ some h) × (g 0 h ≡ 1)

first_edge :
    (g : Graph) (n v h : ℕ) (s : Search)
    → IsGraph g
    → IsShortest g n s
    → s.dist v < far
    → Hop g n s v h
    → g 0 h ≡ 1
first_edge g n v h s graph short near hop = elim (graph.unit 0 h) [
  | inl one ↦ one
  | inr none_there ↦ absurd (omega (arith, hop.edge, hop.on_way, near, none_there))
]

graph-Routed :
    (routers : List ℕ) (g : Graph)
    → 0 < length routers
    → length routers ≤ router_num
    → IsGraph g
    → Routed routers g
graph-Routed routers g pos fits graph =
    let (s, runs, short) = dijkstra-IsShortest g (length routers) pos in
    record {
      own = pos;
      fits = fits;
      graph = graph;
      search = s;
      runs = runs;
      short = short;
      hops = λ v near ne.
          let positive : (i j : ℕ) → 1 ≤ g i j = λ i j. elim (graph.unit i j) [
            | inl one ↦ omega (arith, one)
            | inr none_there ↦ omega (arith, none_there)
          ] in
          let (h, found, hop) =
            find_next_hop-Hop g (length routers) far v s positive short near ne
              (omega (arith, near)) in
          (h, found, first_edge g (length routers) v h s graph short near hop);
    }

Builds : Option (List ℕ × Graph) → Type 0
Builds none = Unit {0}
Builds (some (routers, g)) = Routed routers g

init_graph-Builds : (router_id : ℕ) (db : List DbEntry) → Builds (init_graph router_id db)
unfolding init_graph Builds
init_graph-Builds router_id db =
    let all : List ℕ = router_id ∷ map (λ e. e.rid) db in
    let grows = add_entries-Grows all db (λ i j. no_edge) empty-IsGraph in
    elim (Bool-cases (ltb router_num (length all))) [
      | inl many ↦ rw (many, Builds) tt
      | inr few ↦ elim (Option-cases (add_entries all db (λ i j. no_edge))) [
        | inl x ↦ rw (few, x, Builds) tt
        | inr (g, x) ↦
            let graph : IsGraph g = subst Grows x grows in
            rw (few, x, Builds) (graph-Routed all g (omega arith) (ground (arith, few)) graph)
      ]
    ]

-- Whenever the graph of a database can be built, there are at most four routers, each two joined both
-- ways or not at all; Dijkstra's algorithm ends with the shortest distances from this router; and for
-- each other router within reach the next hop is found, a direct neighbour of this router.
pub init_graph-Routed :
    (router_id : ℕ) (db : List DbEntry) (routers : List ℕ) (g : Graph)
    → init_graph router_id db ≡ some (routers, g)
    → Routed routers g
unfolding Builds
init_graph-Routed router_id db routers g built = subst Builds built (init_graph-Builds router_id db)
