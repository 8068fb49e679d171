-- ===== src/Ospf/Packets.antt =====
-- mOSPF packets as bytes: mospf_proto.c, mospf_proto.h and, of mospf_daemon.c, handle_mospf_packet and
-- the packets that the sending functions make, all of EXP12-mOSPF/code/12-mopsf. A packet is the list
-- of its bytes from the IP header on, which has at least 20 bytes. `ip_init_hdr` is in the prebuilt
-- libipstack. A read beyond the packet is none.
pub mod Header
pub mod Start
pub mod Arrive
use ucas_computer_network.Checksum.{in_memory}
use ucas_computer_network.Common.{
  ℕ, zero, suc, ◌+◌, ◌*◌, ◌%◌, ◌/◌, ◌^◌, Bool, true, false, not, ◌&&◌, Option, none, some, List, [],
  ◌∷◌, ◌++◌, if◌then◌else◌, ltb, leb, ◌==◌, length, get_or, take, drop, map,
}
use ucas_computer_network.Icmp.{u16_at, u32_at, be16, be32, hdr_size, saddr, daddr}
use ucas_computer_network.Ospf.{
  Lsa, DbEntry, OspfIface, Router, Lsu, handle_mospf_hello, handle_mospf_lsu,
}
use ucas_computer_network.Ospf.Sum.{early_checksum}

abbrev pub mospf_version : ℕ
mospf_version = 2

abbrev pub mospf_allspfrouters : ℕ
mospf_allspfrouters = 0xe0000005

abbrev pub mospf_type_hello : ℕ
mospf_type_hello = 1

abbrev pub mospf_type_lsu : ℕ
mospf_type_lsu = 4

abbrev pub mospf_default_helloint : ℕ
mospf_default_helloint = 5

abbrev pub ipproto_mospf : ℕ
ipproto_mospf = 90

-- `mospf_init`: the router has the address of its first interface. The area is 0, and the number of
-- neighbours is what it was.
pub init_iface : OspfIface → OspfIface
init_iface i = record i { helloint = mospf_default_helloint; nbr_list = [] }

pub mospf_init : List OspfIface → Option Router
mospf_init [] = none
mospf_init (i ∷ is) =
    some (record { router_id = i.ip; sequence_num = 0; ifaces = map init_iface (i ∷ is); db = [] })

-- The packet is cleared before: its checksum is 0.
pub mospf_init_hdr : ℕ → ℕ → ℕ → ℕ → List ℕ
mospf_init_hdr type len rid aid =
    mospf_version ∷ type ∷ (be16 len ++ (be32 rid ++ (be32 aid ++ 0 ∷ 0 ∷ 0 ∷ 0 ∷ [])))

pub mospf_init_hello : ℕ → List ℕ
mospf_init_hello mask = be32 mask ++ (be16 mospf_default_helloint ++ 0 ∷ 0 ∷ [])

pub mospf_init_lsu : ℕ → ℕ → ℕ → List ℕ
mospf_init_lsu seq ttl nadv = be16 seq ++ (ttl % 256 ∷ 0 ∷ be32 nadv)

pub lsas_bytes : List Lsa → List ℕ
lsas_bytes [] = []
lsas_bytes (a ∷ rest) = be32 a.network ++ (be32 a.mask ++ (be32 a.rid ++ lsas_bytes rest))

-- From the header on, with its checksum field as 0, for as many bytes as it says.
pub mospf_checksum : List ℕ → ℕ
mospf_checksum m = early_checksum (take (u16_at 2 m) (take 12 m ++ 0 ∷ 0 ∷ drop 14 m)) 0

pub set_checksum : List ℕ → List ℕ
set_checksum m = take 12 m ++ (in_memory (mospf_checksum m) ++ drop 14 m)

module _ (ip_init_hdr : ℕ → ℕ → ℕ → ℕ → List ℕ) where
  -- The packet of `sending_mospf_hello_thread` on an interface; its area is always 0.
  pub hello_packet : ℕ → OspfIface → List ℕ
  hello_packet router_id i =
      ip_init_hdr i.ip mospf_allspfrouters 44 ipproto_mospf
      ++ set_checksum (mospf_init_hdr mospf_type_hello 24 router_id 0 ++ mospf_init_hello i.mask)

  -- The packet of `sending_mospf_lsu` to a neighbour.
  pub lsu_packet : ℕ → Lsu → List ℕ
  lsu_packet area_id l =
      let len = 24 + length l.lsas * 12 in
      ip_init_hdr l.saddr l.daddr (20 + len) ipproto_mospf
      ++ set_checksum (
          mospf_init_hdr mospf_type_lsu len l.rid area_id
          ++ (mospf_init_lsu l.seq l.ttl (length l.lsas) ++ lsas_bytes l.lsas))

-- The advertisements of a received LSU.
pub lsas_at : ℕ → List ℕ → List Lsa
lsas_at zero m = []
lsas_at (suc n) m =
    record { network = u32_at 0 m; mask = u32_at 4 m; rid = u32_at 8 m } ∷ lsas_at n (drop 12 m)

-- Whether the loop of `handle_mospf_lsu` over the database comes to read the advertisements.
pub reads_lsas : ℕ → ℕ → List DbEntry → Bool
reads_lsas rid seq [] = true
reads_lsas rid seq (e ∷ es) = if e.rid == rid then ltb e.seq seq else reads_lsas rid seq es

-- `m` is what follows the IP header, from `src` to `dst`.
pub receive_lsu : Router → ℕ → ℕ → List ℕ → Option (Router × List Lsu)
receive_lsu r src dst m =
    if leb 24 (length m)
    then (if leb (24 + u32_at 20 m * 12) (length m)
        then handle_mospf_lsu r (record {
          saddr = src;
          daddr = dst;
          rid = u32_at 4 m;
          seq = u16_at 16 m;
          ttl = get_or m 18 0;
          lsas = lsas_at (u32_at 20 m) (drop 24 m);
        })
        else (if reads_lsas (u32_at 4 m) (u16_at 16 m) r.db then none else some (r, [])))
    else none

-- On the interface `i` that lies between others.
pub dispatch :
    Router
    → List OspfIface
    → OspfIface
    → List OspfIface
    → ℕ
    → ℕ
    → List ℕ
    → Option (Router × List Lsu)
dispatch r before i after src dst m =
    if get_or m 1 0 == mospf_type_hello
    then (if leb 20 (length m)
        then handle_mospf_hello r before i after (u32_at 4 m) src (u32_at 16 m)
        else none)
    else (if get_or m 1 0 == mospf_type_lsu then receive_lsu r src dst m else some (r, []))

-- A packet that is dropped changes nothing.
pub check_header :
    ℕ
    → Router
    → List OspfIface
    → OspfIface
    → List OspfIface
    → ℕ
    → ℕ
    → List ℕ
    → Option (Router × List Lsu)
check_header area_id r before i after src dst m =
    if leb 1 (length m)
    then (if get_or m 0 0 == mospf_version
        then (if leb 14 (length m) && leb (u16_at 2 m) (length m)
            then (if (get_or m 12 0 + get_or m 13 0 * 256) == mospf_checksum m
                then (if u32_at 8 m == area_id
                    then dispatch r before i after src dst m
                    else some (r, []))
                else some (r, []))
            else none)
        else some (r, []))
    else none

pub handle_mospf_packet :
    ℕ → Router → List OspfIface → OspfIface → List OspfIface → List ℕ → Option (Router × List Lsu)
handle_mospf_packet area_id r before i after p =
    check_header area_id r before i after (saddr p) (daddr p) (drop (hdr_size p) p)
