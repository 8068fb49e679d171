-- ===== src/Ospf/Routes/Table/LastRound.antt =====
-- The rounds of update_router of mospf_daemon.c in EXP12-mOSPF/code/12-mopsf, one by one.
use ucas_computer_network.Common.{
  ℕ, zero, suc, ◌-◌, ◌<◌, ◌≡◌, inl, inr, refl, subst, Bool, true, false, none, List, arith,
  Option-cases, length,
}
use ucas_computer_network.Common.Tables.{update}
use ucas_computer_network.Ospf.{DbEntry, OspfIface}
use ucas_computer_network.Ospf.Routes.{Search, min_dist, init_graph}
use ucas_computer_network.Ospf.Routes.Relax.{Nearest, min_dist-Nearest}
use ucas_computer_network.Ospf.Routes.Shortest.{open_count, open_count-mark, open_count-start}
use ucas_computer_network.Ospf.Routes.Edges.{init_graph-Routed}
use ucas_computer_network.Ospf.Routes.Table.{
  Route, drop_gateways, own_marked, add_router, update_rounds, update_router, update_rtable,
}

pub own_marked-count : (n : ℕ) → 0 < n → open_count own_marked n ≡ n - 1
own_marked-count n pos =
    let all = open_count-start n in
    let less = open_count-mark (λ v. false) 0 n pos refl in omega (arith, all, less)

module _ (add_rt_entry remove_rt_entry : Route → List Route → List Route) (ifaces : List OspfIface)
    (routers : List ℕ) (s : Search) where
  -- More rounds than routers that are left.
  rounds-out :
      (db : List DbEntry) (m : ℕ) (visited : ℕ → Bool) (rt : List Route)
      → open_count visited (length routers) < m
      → update_rounds add_rt_entry remove_rt_entry ifaces routers s db m visited rt ≡ none
  unfolding update_rounds
  rounds-out db zero visited rt h = absurd (omega (arith, h))
  rounds-out db (suc m) visited rt h =
      let near = min_dist-Nearest s.dist visited (length routers) in
      elim (Option-cases (min_dist s.dist visited (length routers))) [
        | inl e ↦ rw (e, update_rounds) refl
        | inr (t, e) ↦
            let (lt, free, _) = subst (Nearest s.dist visited (length routers)) e near in
            let less = open_count-mark visited t (length routers) lt free in
            elim (Option-cases (add_router add_rt_entry remove_rt_entry ifaces routers s t db rt)) [
              | inl x ↦ rw (e, update_rounds, x) refl
              | inr (rt', x) ↦
                  rw (e, update_rounds, x)
                    (rounds-out db m (update visited t true) rt' (omega (arith, less, h)))
            ]
      ]

-- Whatever the database, the interfaces and the table hold, and whatever adding and removing an entry
-- do, update_rtable does not end well: it fails before, or its last round finds no router and marks
-- the one with index -1.
pub update_rtable-out :
    (add_rt_entry remove_rt_entry : Route → List Route → List Route) (ifaces : List OspfIface)
    (router_id : ℕ) (db : List DbEntry) (rt : List Route)
    → update_rtable add_rt_entry remove_rt_entry ifaces router_id db rt ≡ none
unfolding update_rtable update_router
update_rtable-out add_rt_entry remove_rt_entry ifaces router_id db rt =
    elim (Option-cases (init_graph router_id db)) [
      | inl e ↦ rw (update_rtable, e) refl
      | inr ((routers, g), e) ↦
          let r = init_graph-Routed router_id db routers g e in
          let left = own_marked-count (length routers) r.own in
          rw (update_rtable, e, r.runs, update_router)
            (rounds-out add_rt_entry remove_rt_entry ifaces routers r.search db (length routers)
              own_marked (drop_gateways add_rt_entry remove_rt_entry rt rt)
              (omega (arith, left, r.own)))
    ]
