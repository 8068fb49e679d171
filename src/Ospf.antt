-- ===== src/Ospf.antt =====
-- The mOSPF daemon: mospf_daemon.c and mospf_proto.c of EXP12-mOSPF/code/12-mopsf. Each locked region
-- is one step, which returns the router with the LSU packets that it sends. A result `none` is a
-- write beyond an array. Headers and checksums are in Packets; an LSU has as many advertisements as
-- it says.
pub mod Flood
pub mod Neighbours
pub mod Routes
pub mod Sum
pub mod Packets
pub mod Handler
mod Tests
use ucas_computer_network.Common.{
  ℕ, zero, suc, ◌+◌, ◌-◌, ◌*◌, ◌%◌, ◌^◌, Bool, true, false, not, Option, none, some, List, [], ◌∷◌,
  ◌++◌, if◌then◌else◌, ltb, leb, ◌==◌, length, take, drop, replicate, keep, map, ◌>>=◌,
}
use Prim.Native.Nat.{bit_and}

abbrev pub mospf_database_timeout : ℕ
mospf_database_timeout = 40

abbrev pub mospf_max_lsu_ttl : ℕ
mospf_max_lsu_ttl = 255

-- `struct mospf_lsa`
pub record Lsa : Type 0 where
  pub network : ℕ
  pub mask : ℕ
  pub rid : ℕ

-- `mospf_db_entry_t`: `nadv` elements of `array`, which has room for as many as it was allocated with.
pub record DbEntry : Type 0 where
  pub rid : ℕ
  pub seq : ℕ
  pub nadv : ℕ
  pub alive : ℕ
  pub array : List Lsa

-- `mospf_nbr_t`
pub record Nbr : Type 0 where
  pub nbr_id : ℕ
  pub nbr_ip : ℕ
  pub nbr_mask : ℕ
  pub alive : ℕ

-- What mOSPF uses of `iface_info_t`.
pub record OspfIface : Type 0 where
  pub ip : ℕ
  pub mask : ℕ
  pub helloint : ℕ
  pub num_nbr : ℕ
  pub nbr_list : List Nbr

-- What mOSPF uses of `ustack_t`, with the database.
pub record Router : Type 0 where
  pub router_id : ℕ
  pub sequence_num : ℕ
  pub ifaces : List OspfIface
  pub db : List DbEntry

-- An LSU packet, in host order.
pub record Lsu : Type 0 where
  pub saddr : ℕ
  pub daddr : ℕ
  pub rid : ℕ
  pub seq : ℕ
  pub ttl : ℕ
  pub lsas : List Lsa

-- The first loop of `sending_mospf_lsu`.
pub count_nbrs : List OspfIface → ℕ
count_nbrs [] = 0
count_nbrs (i ∷ is) = (if i.num_nbr == 0 then 1 else i.num_nbr) + count_nbrs is

pub lsa_of : Nbr → Lsa
lsa_of n = record { mask = n.nbr_mask; network = bit_and n.nbr_ip n.nbr_mask; rid = n.nbr_id }

pub lsas_of : List OspfIface → List Lsa
lsas_of [] = []
lsas_of (i ∷ is) =
    (if i.num_nbr == 0
      then record { mask = i.mask; network = bit_and i.ip i.mask; rid = 0 } ∷ []
      else map lsa_of i.nbr_list)
    ++ lsas_of is

-- What the packets carry: the array is zero where nothing is written.
pub advertised : List OspfIface → List Lsa
advertised is =
    take (count_nbrs is)
      (lsas_of is ++ replicate (count_nbrs is) (record { network = 0; mask = 0; rid = 0 }))

pub lsu_to : ℕ → ℕ → List Lsa → ℕ → Nbr → Lsu
lsu_to router_id seq lsas ip n = record {
  saddr = ip;
  daddr = n.nbr_ip;
  rid = router_id;
  seq = seq;
  ttl = mospf_max_lsu_ttl;
  lsas = lsas;
}

pub lsus_to : ℕ → ℕ → List Lsa → List OspfIface → List Lsu
lsus_to router_id seq lsas [] = []
lsus_to router_id seq lsas (i ∷ is) =
    map (lsu_to router_id seq lsas i.ip) i.nbr_list ++ lsus_to router_id seq lsas is

-- The array has one element more than the first loop counts.
pub sending_mospf_lsu : Router → Option (Router × List Lsu)
sending_mospf_lsu r =
    let seq = (r.sequence_num + 1) % 2 ^ 16 in
    if leb (length (lsas_of r.ifaces)) (count_nbrs r.ifaces + 1)
    then some
        (record r { sequence_num = seq }, lsus_to r.router_id seq (advertised r.ifaces) r.ifaces)
    else none

-- The neighbour that a Hello comes from, if it is known.
pub known_nbr : ℕ → List Nbr → Bool
known_nbr ip [] = false
known_nbr ip (n ∷ ns) = if n.nbr_ip == ip then true else known_nbr ip ns

pub refresh_nbr : ℕ → List Nbr → List Nbr
refresh_nbr ip [] = []
refresh_nbr ip (n ∷ ns) =
    if n.nbr_ip == ip then record n { alive = 0 } ∷ ns else n ∷ refresh_nbr ip ns

-- On the interface `i` that lies between others.
pub handle_mospf_hello :
    Router → List OspfIface → OspfIface → List OspfIface → ℕ → ℕ → ℕ → Option (Router × List Lsu)
handle_mospf_hello r before i after id ip mask =
    if known_nbr ip i.nbr_list
    then some (
      record r { ifaces = before ++ (record i { nbr_list = refresh_nbr ip i.nbr_list } ∷ after) },
      [],
    )
    else (let n : Nbr = record { alive = 0; nbr_id = id; nbr_ip = ip; nbr_mask = mask } in
        let i' = record i { nbr_list = i.nbr_list ++ (n ∷ []); num_nbr = i.num_nbr + 1 } in
        sending_mospf_lsu (record r { ifaces = before ++ (i' ∷ after) }))

-- The loop of `checking_nbr_thread` over the neighbours of an interface: `kept` have had their turn.
pub age_nbrs :
    Router
    → List OspfIface
    → OspfIface
    → List OspfIface
    → List Nbr
    → List Nbr
    → Option (Router × OspfIface × List Lsu)
age_nbrs r before i after kept [] = some (r, record i { nbr_list = kept }, [])
age_nbrs r before i after kept (n ∷ ns) =
    let n' = record n { alive = (n.alive + 1) % 256 } in
    if ltb (3 * i.helloint) n'.alive
    then (do
      let i' = record i { num_nbr = i.num_nbr - 1 }
      (r', out) ←
          sending_mospf_lsu
            (record r { ifaces = before ++ (record i' { nbr_list = kept ++ ns } ∷ after) })
      (r'', i'', out') ← age_nbrs r' before i' after kept ns
      some (r'', i'', out ++ out'))
    else age_nbrs r before i after (kept ++ (n' ∷ [])) ns

pub age_ifaces :
    Router → List OspfIface → List OspfIface → Option (Router × List OspfIface × List Lsu)
age_ifaces r before [] = some (r, before, [])
age_ifaces r before (i ∷ is) = do
  (r', i', out) ← age_nbrs r before i is [] i.nbr_list
  (r'', ifaces, out') ← age_ifaces r' (before ++ (i' ∷ [])) is
  some (r'', ifaces, out ++ out')

-- One round of `checking_nbr_thread`.
pub check_nbrs : Router → Option (Router × List Lsu)
check_nbrs r = do
  (r', ifaces, out) ← age_ifaces r [] r.ifaces
  some (record r' { ifaces = ifaces }, out)

-- One round of `checking_database_thread`.
pub age_db : List DbEntry → List DbEntry
age_db [] = []
age_db (e ∷ es) =
    if ltb mospf_database_timeout (e.alive + 1)
    then age_db es
    else record e { alive = e.alive + 1 } ∷ age_db es

-- The database, and whether it is updated.
pub update_db : Lsu → List DbEntry → Option (List DbEntry × Bool)
update_db p [] = some (
  record { rid = p.rid; seq = p.seq; nadv = length p.lsas; alive = 0; array = p.lsas } ∷ [],
  true,
)
update_db p (e ∷ es) =
    if e.rid == p.rid
    then (if ltb e.seq p.seq
        then (if leb (length p.lsas) (length e.array)
            then some (
              record e {
                seq = p.seq;
                nadv = length p.lsas;
                alive = 0;
                array = p.lsas ++ drop (length p.lsas) e.array;
              }
                  ∷ es,
              true,
            )
            else none)
        else some (e ∷ es, false))
    else (do (es', changed) ← update_db p es; some (e ∷ es', changed))

pub forward_from : Lsu → List OspfIface → List Lsu
forward_from p [] = []
forward_from p (i ∷ is) =
    map (λ n. record p { saddr = i.ip; daddr = n.nbr_ip })
      (keep (λ n. not (n.nbr_id == p.rid)) i.nbr_list)
    ++ forward_from p is

pub handle_mospf_lsu : Router → Lsu → Option (Router × List Lsu)
handle_mospf_lsu r p = do
  (db, changed) ← update_db p r.db
  let p' = record p { ttl = (p.ttl + 255) % 256 }
  some (
    record r { db = db },
    if changed then (if ltb 0 p'.ttl then forward_from p' r.ifaces else []) else [],
  )
