-- ===== src/Ospf/Routes/Table.antt =====
-- The routing table that update_router of mospf_daemon.c in EXP12-mOSPF/code/12-mopsf writes, and its
-- caller update_rtable. Adding and removing an entry are functions of the prebuilt libipstack, and so
-- are parameters.
pub mod LastRound
pub mod Covers
mod Tests
use ucas_computer_network.Common.{
  ℕ, zero, suc, Bool, true, false, ◌&&◌, Option, none, some, List, [], ◌∷◌, if◌then◌else◌, ◌==◌,
  length, take, get_or,
}
use ucas_computer_network.Common.Tables.{update}
use ucas_computer_network.Ospf.{Lsa, DbEntry, Nbr, OspfIface}
use ucas_computer_network.Ospf.Routes.{Search, far, min_dist, init_graph, dijkstra, find_next_hop}

-- What mOSPF uses of `rt_entry_t`.
pub record Route : Type 0 where
  pub dest : ℕ
  pub mask : ℕ
  pub gw : ℕ
  pub iface : OspfIface

pub check_rtable : List Route → ℕ → ℕ → Bool
check_rtable [] network mask = false
check_rtable (e ∷ es) network mask =
    if e.dest == network && e.mask == mask then true else check_rtable es network mask

-- The address of a neighbour by its router id.
pub nbr_ip_of : List Nbr → ℕ → Option ℕ
nbr_ip_of [] rid = none
nbr_ip_of (n ∷ ns) rid = if n.nbr_id == rid then some n.nbr_ip else nbr_ip_of ns rid

-- Router 0 is marked before the rounds.
abbrev pub own_marked : ℕ → Bool
own_marked = update (λ v. false) 0 true

-- The neighbour with that router id, on the first interface that has one, and the interface.
pub gateway : List OspfIface → ℕ → Option (ℕ × OspfIface)
gateway [] rid = none
gateway (i ∷ is) rid = elim (nbr_ip_of i.nbr_list rid) [
  | some ip ↦ some (ip, i)
  | none ↦ gateway is rid
]

module _ (add_rt_entry remove_rt_entry : Route → List Route → List Route) where
  -- The first loop of `update_router`, over the entries that the table has at its start.
  pub drop_gateways : List Route → List Route → List Route
  drop_gateways [] rt = rt
  drop_gateways (e ∷ es) rt = drop_gateways es (if e.gw == 0 then rt else remove_rt_entry e rt)

  -- The loop over the advertisements of a router.
  pub add_routes : ℕ → OspfIface → List Lsa → List Route → List Route
  add_routes gw iface [] rt = rt
  add_routes gw iface (a ∷ lsas) rt = add_routes gw iface lsas (
      if check_rtable rt a.network a.mask
      then rt
      else add_rt_entry (record { dest = a.network; mask = a.mask; gw = gw; iface = iface }) rt)

  module _ (ifaces : List OspfIface) (routers : List ℕ) (s : Search) where
    -- The loop over the database, for router `t`. All indices but -1 are below the number of routers.
    pub add_router : ℕ → List DbEntry → List Route → Option (List Route)
    add_router t [] rt = some rt
    add_router t (e ∷ es) rt =
        if e.rid == get_or routers t 0
        then elim (find_next_hop far s.prev t) [
          | none ↦ none
          | some h ↦ elim (gateway ifaces (get_or routers h 0)) [
            | none ↦ some rt
            | some (gw, iface) ↦ add_router t es (add_routes gw iface (take e.nadv e.array) rt)
          ]
        ]
        else add_router t es rt

    -- So many rounds of the second loop of `update_router`.
    pub update_rounds : List DbEntry → ℕ → (ℕ → Bool) → List Route → Option (List Route)
    update_rounds db zero visited rt = some rt
    update_rounds db (suc m) visited rt = elim (min_dist s.dist visited (length routers)) [
      | none ↦ none
      | some t ↦ elim (add_router t db rt) [
        | none ↦ none
        | some rt' ↦ update_rounds db m (update visited t true) rt'
      ]
    ]

    -- `idx` is the number of routers.
    pub update_router : List DbEntry → List Route → Option (List Route)
    update_router db rt = update_rounds db (length routers) own_marked (drop_gateways rt rt)

  pub update_rtable : List OspfIface → ℕ → List DbEntry → List Route → Option (List Route)
  update_rtable ifaces router_id db rt = elim (init_graph router_id db) [
    | none ↦ none
    | some (routers, g) ↦ elim (dijkstra g (length routers)) [
      | none ↦ none
      | some s ↦ update_router ifaces routers s db rt
    ]
  ]
