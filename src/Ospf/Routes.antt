-- ===== src/Ospf/Routes.antt =====
-- The shortest paths of mospf_daemon.c in EXP12-mOSPF/code/12-mopsf: the graph from the database,
-- Dijkstra's algorithm, and the next hop. An index of -1 is `none`; a read or a write with it is
-- undefined, and so is `none` as a result. Weights are unbounded and the arrays have no length of their
-- own: the graphs of `init_graph` have at most four routers and edges of weight 1.
pub mod Relax
pub mod Round
pub mod Shortest
pub mod NextHop
pub mod Edges
pub mod Table
mod Tests
use ucas_computer_network.Common.{
  ℕ, zero, suc, ◌+◌, Bool, true, false, not, ◌&&◌, Option, none, some, List, [], ◌∷◌, map,
  if◌then◌else◌, ltb, leb, ◌==◌, length, take,
}
use ucas_computer_network.Common.Tables.{update}
use ucas_computer_network.Ospf.{Lsa, DbEntry}

abbrev pub router_num : ℕ
router_num = 4

-- `INT8_MAX`
abbrev pub far : ℕ
far = 127

-- What `memset(graph, INT8_MAX - 1, ...)` makes of an `int`.
abbrev pub no_edge : ℕ
no_edge = 0x7e7e7e7e

-- `get_router_list_index`
pub index_from : ℕ → List ℕ → ℕ → Option ℕ
index_from i [] rid = none
index_from i (r ∷ rs) rid =
    let rest = index_from (suc i) rs rid in if r == rid then some i else rest

pub get_router_list_index : List ℕ → ℕ → Option ℕ
get_router_list_index routers rid = index_from 0 routers rid

abbrev pub Graph : Type 0
Graph = ℕ → ℕ → ℕ

pub set_edge : Graph → ℕ → ℕ → Graph
set_edge g u v i j = if i == u && j == v then 1 else if i == v && j == u then 1 else g i j

-- The advertisements of router `u`; a neighbour that is not in the list has index -1.
pub add_edges : List ℕ → ℕ → List Lsa → Graph → Option Graph
add_edges routers u [] g = some g
add_edges routers u (a ∷ lsas) g =
    if a.rid == 0 then add_edges routers u lsas g else elim (get_router_list_index routers a.rid) [
      | none ↦ none
      | some v ↦ add_edges routers u lsas (set_edge g u v)
    ]

pub add_entries : List ℕ → List DbEntry → Graph → Option Graph
add_entries routers [] g = some g
add_entries routers (e ∷ es) g = elim (get_router_list_index routers e.rid) [
  | none ↦ none
  | some u ↦ elim (add_edges routers u (take e.nadv e.array) g) [
    | none ↦ none
    | some g' ↦ add_entries routers es g'
  ]
]

-- The list of routers has room for `router_num`.
pub init_graph : ℕ → List DbEntry → Option (List ℕ × Graph)
init_graph router_id db =
    let routers = router_id ∷ map (λ e. e.rid) db in
    if ltb router_num (length routers)
    then none
    else elim (add_entries routers db (λ i j. no_edge)) [ none ↦ none | some g ↦ some (routers, g) ]

-- The arrays of `Dijkstra`.
pub record Search : Type 0 where
  pub dist : ℕ → ℕ
  pub prev : ℕ → Option ℕ
  pub visited : ℕ → Bool

pub pick : (ℕ → ℕ) → Option ℕ → ℕ → Option ℕ
pick dist none u = some u
pick dist (some i) u = if ltb (dist u) (dist i) then some u else some i

-- The first of the nodes below `num` that are not visited with the least distance.
pub min_dist : (ℕ → ℕ) → (ℕ → Bool) → ℕ → Option ℕ
min_dist dist visited zero = none
min_dist dist visited (suc u) =
    let best = min_dist dist visited u in if visited u then best else pick dist best u

-- One round of the inner loop.
pub relax_at : Graph → ℕ → ℕ → Search → Search
relax_at g u v s =
    if not (s.visited v) && ltb (s.dist u + g u v) (s.dist v)
    then record s { dist = update s.dist v (s.dist u + g u v); prev = update s.prev v (some u) }
    else s

-- The inner loop up to `n`.
pub relax_upto : Graph → ℕ → ℕ → Search → Search
relax_upto g u zero s = s
relax_upto g u (suc v) s = relax_at g u v (relax_upto g u v s)

pub start_search : Search
start_search = record { dist = update (λ v. far) 0 0; prev = λ v. none; visited = λ v. false }

-- `m` rounds of the outer loop, on `n` routers.
pub search_rounds : Graph → ℕ → ℕ → Search → Option Search
search_rounds g n zero s = some s
search_rounds g n (suc m) s = elim (min_dist s.dist s.visited n) [
  | none ↦ none
  | some u ↦ search_rounds g n m (relax_upto g u n (record s { visited = update s.visited u true }))
]

pub dijkstra : Graph → ℕ → Option Search
dijkstra g n = search_rounds g n n start_search

-- The loop of `find_next_hop`, on fuel.
pub find_next_hop : ℕ → (ℕ → Option ℕ) → ℕ → Option ℕ
find_next_hop zero prev i = none
find_next_hop (suc n) prev i = elim (prev i) [
  | none ↦ none
  | some j ↦ (let rest = find_next_hop n prev j in if j == 0 then some i else rest)
]
