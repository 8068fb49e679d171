-- ===== src/Ospf/Handler/Arrive.antt =====
-- What a router makes of the packets of another: mospf_daemon.c and ip.c of
-- EXP12-mOSPF/code/12-mopsf.
use ucas_computer_network.Common.{
  ℕ, ◌+◌, ◌%◌, ◌^◌, ◌<◌, ◌≡◌, refl, ap, sym, ◌∙◌, true, Option, some, List, [], ◌∷◌, ◌++◌, arith,
  ◌==◌, All, Bool-cases, inl, inr, length-append,
}
use ucas_computer_network.Icmp.{protocol, daddr}
use ucas_computer_network.Ospf.{
  Nbr, OspfIface, Router, Lsu, known_nbr, refresh_nbr, lsas_of, lsus_to, handle_mospf_hello,
  handle_mospf_lsu,
}
use ucas_computer_network.Ospf.Neighbours.{Counted, All-insert, length-refresh, sending-exact}
use ucas_computer_network.Ospf.Packets.{
  mospf_allspfrouters, ipproto_mospf, hello_packet, lsu_packet, handle_mospf_packet,
}
use ucas_computer_network.Ospf.Packets.Header.{InitsHeader}
use ucas_computer_network.Ospf.Packets.Arrive.{Fits, hello_packet-arrives, lsu_packet-arrives}
use ucas_computer_network.Ospf.Handler.{routed, of_mospf, handle_ip_packet}

known-refresh :
    (ip : ℕ) (ns : List Nbr) → known_nbr ip ns ≡ true → known_nbr ip (refresh_nbr ip ns) ≡ true
unfolding known_nbr refresh_nbr
known-refresh ip [] h = h
known-refresh ip (n ∷ ns) h = elim (Bool-cases (n.nbr_ip == ip)) [
  | inl on ↦ rw (on, known_nbr, on) refl
  | inr off ↦
      let later : known_nbr ip ns ≡ true = rw off at h in
      rw (off, known_nbr, off) (known-refresh ip ns later)
]

known-last :
    (ip : ℕ) (ns : List Nbr) (n : Nbr) → n.nbr_ip ≡ ip → known_nbr ip (ns ++ (n ∷ [])) ≡ true
unfolding known_nbr
known-last ip [] n h = let on : (n.nbr_ip == ip) ≡ true = ground (arith, h) in rw on refl
known-last ip (x ∷ xs) n h = elim (Bool-cases (x.nbr_ip == ip)) [
  | inl on ↦ rw on refl
  | inr off ↦ rw (off, known_nbr) (known-last ip xs n h)
]

-- After a Hello its sender is a neighbour on the interface that it came in on.
record Heard (ip : ℕ) (before after : List OspfIface) (o : Option (Router × List Lsu))
    : Type 0 where
  router : Router
  out : List Lsu
  iface : OspfIface
  handled : o ≡ some (router, out)
  ifaces : router.ifaces ≡ before ++ (iface ∷ after)
  known : known_nbr ip iface.nbr_list ≡ true
  counted : All Counted router.ifaces

handle_mospf_hello-Heard :
    (r : Router) (before after : List OspfIface) (i : OspfIface) (id ip mask : ℕ)
    → All Counted before
    → Counted i
    → All Counted after
    → Heard ip before after (handle_mospf_hello r before i after id ip mask)
unfolding handle_mospf_hello
handle_mospf_hello-Heard r before after i id ip mask b c a =
    elim (Bool-cases (known_nbr ip i.nbr_list)) [
      | inl old ↦
          let i' = record i { nbr_list = refresh_nbr ip i.nbr_list } in
          record {
            router = record r { ifaces = before ++ (i' ∷ after) };
            out = [];
            iface = i';
            handled = rw old refl;
            ifaces = refl;
            known = known-refresh ip i.nbr_list old;
            counted = All-insert before after i' b (c ∙ sym (length-refresh ip i.nbr_list)) a;
          }
      | inr new ↦
          let n : Nbr = record { alive = 0; nbr_id = id; nbr_ip = ip; nbr_mask = mask } in
          let i' = record i { nbr_list = i.nbr_list ++ (n ∷ []); num_nbr = i.num_nbr + 1 } in
          let c' : Counted i' = omega (arith, c, length-append i.nbr_list (n ∷ [])) in
          let all = All-insert before after i' b c' a in
          let sent = sending-exact (record r { ifaces = before ++ (i' ∷ after) }) all in
          record {
            router = record r {
              ifaces = before ++ (i' ∷ after);
              sequence_num = (r.sequence_num + 1) % 2 ^ 16;
            };
            out =
                lsus_to r.router_id ((r.sequence_num + 1) % 2 ^ 16)
                  (lsas_of (before ++ (i' ∷ after))) (before ++ (i' ∷ after));
            iface = i';
            handled = rw new sent;
            ifaces = refl;
            known = known-last ip i.nbr_list n refl;
            counted = all;
          }
    ]

module _ (area_id : ℕ) (r : Router) (before : List OspfIface) (i : OspfIface)
    (after : List OspfIface) where
  to_all_routers :
      (p : List ℕ)
      → daddr p ≡ mospf_allspfrouters
      → protocol p ≡ ipproto_mospf
      → handle_ip_packet area_id r before i after p
        ≡ of_mospf (handle_mospf_packet area_id r before i after p)
  unfolding handle_ip_packet
  to_all_routers p target kind =
      let group : (daddr p == mospf_allspfrouters) ≡ true = ground (arith, target) in
      elim (Bool-cases (daddr p == i.ip)) [
        | inl own ↦ rw (own, kind) refl
        | inr other ↦ rw (other, group, kind) refl
      ]

  to_own_address :
      (p : List ℕ)
      → daddr p ≡ i.ip
      → protocol p ≡ ipproto_mospf
      → handle_ip_packet area_id r before i after p
        ≡ of_mospf (handle_mospf_packet area_id r before i after p)
  unfolding handle_ip_packet
  to_own_address p target kind =
      let own : (daddr p == i.ip) ≡ true = ground (arith, target) in rw (own, kind) refl

-- A Hello packet that a router sends, received by a router of area 0 whose interfaces have right
-- counts of their neighbours, is handled without a fault: on the interface that it came in on the
-- sender is then a known neighbour, the other interfaces are as they were, and the counts are right.
-- The header is any without options that has the addresses and the protocol it is made for.
pub hello-heard :
    (ip_init_hdr : ℕ → ℕ → ℕ → ℕ → List ℕ) (router_id : ℕ) (sender : OspfIface) (r : Router)
    (before after : List OspfIface) (i : OspfIface)
    → InitsHeader ip_init_hdr
    → router_id < 2 ^ 32
    → sender.ip < 2 ^ 32
    → sender.mask < 2 ^ 32
    → All Counted before
    → Counted i
    → All Counted after
    → (r' : Router) × (out : List Lsu) × (i' : OspfIface) × (handle_ip_packet 0 r before i after
          (hello_packet ip_init_hdr router_id sender)
        ≡ routed r' out)
      × (r'.ifaces ≡ before ++ (i' ∷ after))
      × (known_nbr sender.ip i'.nbr_list ≡ true)
      × All Counted r'.ifaces
unfolding of_mospf
hello-heard ip_init_hdr router_id sender r before after i inits hr hi hm b c a =
    let arrives =
      hello_packet-arrives ip_init_hdr router_id sender r before after i inits hr hi hm in
    let heard = handle_mospf_hello-Heard r before after i router_id sender.ip sender.mask b c a in
    (
      heard.router,
      heard.out,
      heard.iface,
      to_all_routers 0 r before i after _ arrives.0 arrives.1
          ∙ ap of_mospf (arrives.2 ∙ heard.handled),
      heard.ifaces,
      heard.known,
      heard.counted,
    )

-- An LSU packet whose fields fit in their words and that is at most 65,535 bytes long, made by a
-- router of the same area and received on the interface that it is addressed to, is handled as the LSU
-- that it was made from: the checks of the header pass, and the fields and advertisements are read
-- back. The header is any without options that has the addresses and the protocol it is made for.
pub lsu-arrives :
    (ip_init_hdr : ℕ → ℕ → ℕ → ℕ → List ℕ) (area_id : ℕ) (l : Lsu) (r : Router)
    (before after : List OspfIface) (i : OspfIface)
    → InitsHeader ip_init_hdr
    → area_id < 2 ^ 32
    → Fits l
    → l.daddr ≡ i.ip
    → handle_ip_packet area_id r before i after (lsu_packet ip_init_hdr area_id l)
      ≡ of_mospf (handle_mospf_lsu r l)
lsu-arrives ip_init_hdr area_id l r before after i inits ha fits target =
    let arrives = lsu_packet-arrives ip_init_hdr area_id l r before after i inits ha fits in
    to_own_address area_id r before i after _ (arrives.0 ∙ target) arrives.1 ∙ ap of_mospf arrives.2
