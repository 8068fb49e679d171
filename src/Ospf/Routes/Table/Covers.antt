-- ===== src/Ospf/Routes/Table/Covers.antt =====
-- What the rounds of update_router of mospf_daemon.c in EXP12-mOSPF/code/12-mopsf have written before
-- the last one.
use ucas_computer_network.Common.{
  ℕ, zero, suc, ◌-◌, ◌<◌, ◌≡◌, ◌≢◌, inl, inr, refl, ap, sym, subst, Bool, true, false, ◌&&◌, some,
  List, [], ◌∷◌, ◌++◌, arith, ◌==◌, Bool-cases, Option-cases, length, take, get_or, All, All-map,
  if◌then◌else◌,
}
use ucas_computer_network.Common.Tables.{update}
use ucas_computer_network.Ospf.{Lsa, DbEntry, OspfIface}
use ucas_computer_network.Ospf.Routes.{
  Graph, Search, far, min_dist, init_graph, dijkstra, find_next_hop,
}
use ucas_computer_network.Ospf.Routes.Relax.{Nearest, min_dist-Nearest}
use ucas_computer_network.Ospf.Routes.Shortest.{
  open_count, open_count-mark, open_count-none, open_count-zero,
}
use ucas_computer_network.Ospf.Routes.Edges.{init_graph-Routed}
use ucas_computer_network.Ospf.Routes.Table.{
  Route, check_rtable, gateway, drop_gateways, own_marked, add_routes, add_router, update_rounds,
}
use ucas_computer_network.Ospf.Routes.Table.LastRound.{own_marked-count}

-- Adding an entry links it in somewhere, and leaves the others as they are.
abbrev pub Links : (Route → List Route → List Route) → Type 0
Links add_rt_entry =
    (e : Route) (rt : List Route)
    → (xs ys : List Route) × (rt ≡ xs ++ ys) × (add_rt_entry e rt ≡ xs ++ e ∷ ys)

abbrev pub Has : List Route → Lsa → Type 0
Has rt a = check_rtable rt a.network a.mask ≡ true

-- Each advertisement of the router `rid` that the database holds has an entry in the table.
abbrev pub Covered : ℕ → List DbEntry → List Route → Type 0
Covered rid db rt = All (λ e. e.rid ≡ rid → All (Has rt) (take e.nadv e.array)) db

check-between :
    (xs ys : List Route) (e : Route) (network mask : ℕ)
    → check_rtable (xs ++ ys) network mask ≡ true
    → check_rtable (xs ++ e ∷ ys) network mask ≡ true
unfolding check_rtable
check-between [] ys e network mask h = ground (arith, h)
check-between (x ∷ xs) ys e network mask h =
    elim (Bool-cases (x.dest == network && x.mask == mask)) [
      | inl on ↦ rw (check_rtable, on) refl
      | inr off ↦
          rw (check_rtable, off) (check-between xs ys e network mask (ground (arith, h, off)))
    ]

check-linked : (xs ys : List Route) (e : Route) → check_rtable (xs ++ e ∷ ys) e.dest e.mask ≡ true
unfolding check_rtable
check-linked [] ys e = ground arith
check-linked (x ∷ xs) ys e = elim (Bool-cases (x.dest == e.dest && x.mask == e.mask)) [
  | inl on ↦ rw (check_rtable, on) refl
  | inr off ↦ rw (check_rtable, off) (check-linked xs ys e)
]

Covered-keeps :
    (rid : ℕ) (db : List DbEntry) (rt rt' : List Route)
    → ((a : Lsa) → Has rt a → Has rt' a)
    → Covered rid db rt
    → Covered rid db rt'
Covered-keeps rid db rt rt' keeps h =
    All-map (λ e. e.rid ≡ rid → All (Has rt) (take e.nadv e.array))
      (λ e. e.rid ≡ rid → All (Has rt') (take e.nadv e.array)) db
      (λ e old eq. All-map (Has rt) (Has rt') (take e.nadv e.array) keeps (old eq)) h

module _ (add_rt_entry remove_rt_entry : Route → List Route → List Route)
    (links : Links add_rt_entry) where
  added-Has : (e : Route) (rt : List Route) → check_rtable (add_rt_entry e rt) e.dest e.mask ≡ true
  added-Has e rt =
      let (xs, ys, _, after) = links e rt in
      subst (λ r. check_rtable r e.dest e.mask ≡ true) (sym after) (check-linked xs ys e)

  added-keeps : (e : Route) (rt : List Route) (a : Lsa) → Has rt a → Has (add_rt_entry e rt) a
  added-keeps e rt a h =
      let (xs, ys, before, after) = links e rt in
      subst (λ r. Has r a) (sym after)
        (check-between xs ys e a.network a.mask (subst (λ r. Has r a) before h))

  routes-keeps :
      (gw : ℕ) (iface : OspfIface) (lsas : List Lsa) (rt : List Route) (a : Lsa)
      → Has rt a
      → Has (add_routes add_rt_entry remove_rt_entry gw iface lsas rt) a
  unfolding add_routes
  routes-keeps gw iface [] rt a h = h
  routes-keeps gw iface (b ∷ lsas) rt a h = elim (Bool-cases (check_rtable rt b.network b.mask)) [
    | inl on ↦ rw (add_routes, on) (routes-keeps gw iface lsas rt a h)
    | inr off ↦ rw (add_routes, off) (routes-keeps gw iface lsas _ a (added-keeps _ rt a h))
  ]

  -- The table after one advertisement.
  abbrev with_route : ℕ → OspfIface → Lsa → List Route → List Route
  with_route gw iface a rt =
      if check_rtable rt a.network a.mask
      then rt
      else add_rt_entry (record { dest = a.network; mask = a.mask; gw = gw; iface = iface }) rt

  with_route-Has :
      (gw : ℕ) (iface : OspfIface) (a : Lsa) (rt : List Route) → Has (with_route gw iface a rt) a
  with_route-Has gw iface a rt = elim (Bool-cases (check_rtable rt a.network a.mask)) [
    | inl on ↦ rw on on
    | inr off ↦ rw off (added-Has _ rt)
  ]

  routes-Has :
      (gw : ℕ) (iface : OspfIface) (lsas : List Lsa) (rt : List Route)
      → All (Has (add_routes add_rt_entry remove_rt_entry gw iface lsas rt)) lsas
  unfolding add_routes
  routes-Has gw iface [] rt = tt
  routes-Has gw iface (a ∷ lsas) rt =
      let rt' = with_route gw iface a rt in
      (
        routes-keeps gw iface lsas rt' a (with_route-Has gw iface a rt),
        routes-Has gw iface lsas rt',
      )

  Keeps : List Route → List Route → Type 0
  Keeps rt rt' = (a : Lsa) → Has rt a → Has rt' a

  module _ (ifaces : List OspfIface) (routers : List ℕ) (s : Search) where
    router-Covers :
        (t h gw : ℕ) (iface : OspfIface) (db : List DbEntry) (rt : List Route)
        → find_next_hop far s.prev t ≡ some h
        → gateway ifaces (get_or routers h 0) ≡ some (gw, iface)
        → (rt' : List Route) × (add_router add_rt_entry remove_rt_entry ifaces routers s t db rt
            ≡ some rt')
          × Keeps rt rt'
          × Covered (get_or routers t 0) db rt'
    unfolding add_router Keeps
    router-Covers t h gw iface [] rt hop nbr = (rt, refl, λ a has. has, tt)
    router-Covers t h gw iface (e ∷ es) rt hop nbr =
        elim (Bool-cases (e.rid == get_or routers t 0)) [
          | inr off ↦
              let (rt', is, keeps, rest) = router-Covers t h gw iface es rt hop nbr in
              (rt', rw (off, add_router) is, keeps, (λ eq. absurd (ground (arith, off, eq)), rest))
          | inl on ↦
              let lsas = take e.nadv e.array in
              let mid = add_routes add_rt_entry remove_rt_entry gw iface lsas rt in
              let (rt', is, keeps, rest) = router-Covers t h gw iface es mid hop nbr in
              (
                rt',
                rw (on, add_router, hop, nbr) is,
                λ a has. keeps a (routes-keeps gw iface lsas rt a has),
                (λ eq. All-map (Has mid) (Has rt') lsas keeps (routes-Has gw iface lsas rt), rest),
              )
        ]

    rounds-Covers :
        (db : List DbEntry) (m : ℕ) (visited : ℕ → Bool) (rt : List Route)
        → open_count visited (length routers) ≡ m
        → visited 0 ≡ true
        → ((t : ℕ)
            → t < length routers
            → t ≢ 0
            → (h : ℕ) × (gw : ℕ) × (iface : OspfIface) × (find_next_hop far s.prev t ≡ some h)
              × (gateway ifaces (get_or routers h 0) ≡ some (gw, iface)))
        → (rt' : List Route) × (update_rounds add_rt_entry remove_rt_entry ifaces routers s db m
              visited rt
            ≡ some rt')
          × Keeps rt rt'
          × ((t : ℕ) → t < length routers → visited t ≡ false → Covered (get_or routers t 0) db rt')
    unfolding update_rounds Keeps
    rounds-Covers db zero visited rt count own hops = (
      rt,
      refl,
      λ a has. has,
      λ t lt new. absurd (ground (arith, new, open_count-zero visited (length routers) count t lt)),
    )
    rounds-Covers db (suc m) visited rt count own hops =
        let near = min_dist-Nearest s.dist visited (length routers) in
        elim (Option-cases (min_dist s.dist visited (length routers))) [
          | inl e ↦
              let all = subst (Nearest s.dist visited (length routers)) e near in
              absurd (omega (arith, open_count-none visited (length routers) all, count))
          | inr (t, e) ↦
              let (lt, free, _) = subst (Nearest s.dist visited (length routers)) e near in
              let less = open_count-mark visited t (length routers) lt free in
              let (h, gw, iface, hop, nbr) =
                hops t lt (λ at. absurd (ground (arith, own, free, ap visited at))) in
              let (mid, is_mid, keeps_mid, covered) = router-Covers t h gw iface db rt hop nbr in
              let (rt', is, keeps, rest) =
                rounds-Covers db m (update visited t true) mid (omega (arith, less, count))
                  (ground (arith, own)) hops in
              (
                rt',
                rw (e, update_rounds, is_mid) is,
                λ a has. keeps a (keeps_mid a has),
                λ x lt_x new. elim (Bool-cases (x == t)) [
                  | inl on ↦
                      let at : t ≡ x = ground (arith, on) in
                      subst (λ y. Covered (get_or routers y 0) db rt') at
                        (Covered-keeps (get_or routers t 0) db mid rt' keeps covered)
                  | inr off ↦ rest x lt_x (ground (arith, off, new))
                ],
              )
        ]

-- When adding an entry links it in, the graph of the database is built, each router is within reach
-- and each router next to this one is a neighbour on one of the interfaces, the rounds of
-- update_router but the last write a table in which each network that another router advertises has an
-- entry.
pub update_rounds-Covers :
    (add_rt_entry remove_rt_entry : Route → List Route → List Route) (ifaces : List OspfIface)
    (router_id : ℕ) (db : List DbEntry) (rt : List Route) (routers : List ℕ) (g : Graph)
    (s : Search)
    → Links add_rt_entry
    → init_graph router_id db ≡ some (routers, g)
    → dijkstra g (length routers) ≡ some s
    → ((t : ℕ) → t < length routers → s.dist t < far)
    → ((h : ℕ)
        → g 0 h ≡ 1
        → (gw : ℕ) × (iface : OspfIface) × (gateway ifaces (get_or routers h 0) ≡ some (gw, iface)))
    → (rt' : List Route) × (update_rounds add_rt_entry remove_rt_entry ifaces routers s db
          (length routers - 1)
          own_marked
          (drop_gateways add_rt_entry remove_rt_entry rt rt)
        ≡ some rt')
      × ((t : ℕ) → t < length routers → t ≢ 0 → Covered (get_or routers t 0) db rt')
update_rounds-Covers add_rt_entry remove_rt_entry ifaces router_id db rt routers g s links built
      runs reach nbrs =
    let r = init_graph-Routed router_id db routers g built in
    let same : r.search ≡ s = cc (r.runs, runs) in
    let (rt', is, _, covered) =
      rounds-Covers add_rt_entry remove_rt_entry links ifaces routers s db (length routers - 1)
        own_marked (drop_gateways add_rt_entry remove_rt_entry rt rt)
        (own_marked-count (length routers) r.own) (ground arith)
        (λ t lt ne.
          let near : r.search.dist t < far = subst (λ x. x.dist t < far) (sym same) (reach t lt) in
          let (h, found, edge) = r.hops t near ne in
          let (gw, iface, nbr) = nbrs h edge in
          (h, gw, iface, subst (λ x. find_next_hop far x.prev t ≡ some h) same found, nbr)) in
    (rt', is, λ t lt ne. covered t lt (ground (arith, ne)))
