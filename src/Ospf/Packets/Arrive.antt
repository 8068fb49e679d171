-- ===== src/Ospf/Packets/Arrive.antt =====
-- What a router makes of the packets of another: both ends of mospf_daemon.c of
-- EXP12-mOSPF/code/12-mopsf.
use ucas_computer_network.Common.{
  ℕ, ◌+◌, ◌*◌, ◌^◌, ◌<◌, ◌≡◌, refl, ap, ◌∙◌, true, List, [], ◌∷◌, ◌++◌, arith, leb, length, get_or,
  drop, All,
}
use ucas_computer_network.Icmp.{protocol, daddr, u16_at, u32_at}
use ucas_computer_network.Ospf.{Lsa, OspfIface, Router, Lsu, handle_mospf_hello, handle_mospf_lsu}
use ucas_computer_network.Ospf.Packets.{
  mospf_init_hdr, mospf_init_hello, mospf_init_lsu, lsas_bytes, set_checksum, mospf_allspfrouters,
  ipproto_mospf, hello_packet, lsu_packet, lsas_at, receive_lsu, dispatch, handle_mospf_packet,
}
use ucas_computer_network.Ospf.Packets.Header.{
  InitsHeader, IsIpHeader-IsPacket, Says, behind_header, mospf_init_hdr-Says, accepted,
}

hello_dispatched :
    (rid mask s d : ℕ) (r : Router) (before after : List OspfIface) (i : OspfIface)
    → rid < 2 ^ 32
    → mask < 2 ^ 32
    → dispatch r before i after s d
        (set_checksum (mospf_init_hdr 1 24 rid 0 ++ mospf_init_hello mask))
      ≡ handle_mospf_hello r before i after rid s mask
unfolding dispatch set_checksum mospf_init_hdr mospf_init_hello
hello_dispatched rid mask s d r before after i hr hm =
    let id : u32_at 4 (set_checksum (mospf_init_hdr 1 24 rid 0 ++ mospf_init_hello mask)) ≡ rid =
      omega (arith, hr) in
    let net : u32_at 16 (set_checksum (mospf_init_hdr 1 24 rid 0 ++ mospf_init_hello mask)) ≡ mask =
      omega (arith, hm) in
    ap
      (λ x.
        handle_mospf_hello r before i after x s
          (u32_at 16 (set_checksum (mospf_init_hdr 1 24 rid 0 ++ mospf_init_hello mask))))
      id
    ∙ ap (handle_mospf_hello r before i after rid s) net

length-hello : (mask : ℕ) → length (mospf_init_hello mask) ≡ 8
unfolding mospf_init_hello
length-hello mask = refl

pub hello_packet-arrives :
    (ip_init_hdr : ℕ → ℕ → ℕ → ℕ → List ℕ) (router_id : ℕ) (sender : OspfIface) (r : Router)
    (before after : List OspfIface) (i : OspfIface)
    → InitsHeader ip_init_hdr
    → router_id < 2 ^ 32
    → sender.ip < 2 ^ 32
    → sender.mask < 2 ^ 32
    → (daddr (hello_packet ip_init_hdr router_id sender) ≡ mospf_allspfrouters)
      × (protocol (hello_packet ip_init_hdr router_id sender) ≡ ipproto_mospf)
      × (handle_mospf_packet 0 r before i after (hello_packet ip_init_hdr router_id sender)
          ≡ handle_mospf_hello r before i after router_id sender.ip sender.mask)
unfolding hello_packet
hello_packet-arrives ip_init_hdr router_id sender r before after i inits hr hi hm =
    let m = set_checksum (mospf_init_hdr 1 24 router_id 0 ++ mospf_init_hello sender.mask) in
    let says =
      mospf_init_hdr-Says 1 24 router_id 0 (mospf_init_hello sender.mask) (omega arith)
        (omega (arith, length-hello sender.mask)) hr (omega arith) in
    let packet =
      IsIpHeader-IsPacket sender.ip 0xe0000005 90 _ m
        (inits sender.ip 0xe0000005 44 90 hi (omega arith)) in
    (
      packet.target,
      packet.kind,
      behind_header 0 sender.ip 0xe0000005 90 r before after i m _ packet
          ∙ accepted 1 24 router_id 0 sender.ip 0xe0000005 r before after i m says (omega arith)
          ∙ hello_dispatched router_id sender.mask sender.ip 0xe0000005 r before after i hr hm,
    )

-- An LSU whose fields fit in their words, in a packet of at most 65,535 bytes.
abbrev pub FitsWord : Lsa → Type 0
FitsWord a = (a.network < 2 ^ 32) × (a.mask < 2 ^ 32) × (a.rid < 2 ^ 32)

pub record Fits (l : Lsu) : Type 0 where
  pub source : l.saddr < 2 ^ 32
  pub target : l.daddr < 2 ^ 32
  pub router : l.rid < 2 ^ 32
  pub seq_fits : l.seq < 2 ^ 16
  pub ttl_fits : l.ttl < 2 ^ 8
  pub lsas_fit : All FitsWord l.lsas
  pub size : 44 + length l.lsas * 12 < 2 ^ 16

length-lsas_bytes : (ls : List Lsa) → length (lsas_bytes ls) ≡ length ls * 12
unfolding lsas_bytes
length-lsas_bytes [] = refl
length-lsas_bytes (a ∷ ls) = omega (arith, length-lsas_bytes ls)

lsas_at-lsas_bytes : (ls : List Lsa) → All FitsWord ls → lsas_at (length ls) (lsas_bytes ls) ≡ ls
unfolding lsas_bytes lsas_at
lsas_at-lsas_bytes [] h = refl
lsas_at-lsas_bytes (a ∷ ls) ((hn, hm, hr), h) =
    let m = lsas_bytes (a ∷ ls) in
    let n : u32_at 0 m ≡ a.network = omega (arith, hn) in
    let k : u32_at 4 m ≡ a.mask = omega (arith, hm) in
    let d : u32_at 8 m ≡ a.rid = omega (arith, hr) in rw (n, k, d, lsas_at-lsas_bytes ls h) refl

length-lsu :
    (seq ttl nadv : ℕ) (b : List ℕ) → length (mospf_init_lsu seq ttl nadv ++ b) ≡ 8 + length b
unfolding mospf_init_lsu
length-lsu seq ttl nadv b = omega arith

-- The fields of an LSU that is written.
record SaysLsu (seq ttl nadv : ℕ) (b m : List ℕ) : Type 0 where
  number : u16_at 16 m ≡ seq
  lives : get_or m 18 0 ≡ ttl
  count : u32_at 20 m ≡ nadv
  rest : drop 24 m ≡ b

mospf_init_lsu-SaysLsu :
    (len rid area seq ttl nadv : ℕ) (b : List ℕ)
    → seq < 2 ^ 16
    → ttl < 2 ^ 8
    → nadv < 2 ^ 32
    → SaysLsu seq ttl nadv b
        (set_checksum (mospf_init_hdr 4 len rid area ++ (mospf_init_lsu seq ttl nadv ++ b)))
unfolding set_checksum mospf_init_hdr mospf_init_lsu
mospf_init_lsu-SaysLsu len rid area seq ttl nadv b hs ht hn = record {
  number = omega (arith, hs);
  lives = omega (arith, ht);
  count = omega (arith, hn);
  rest = refl;
}

lsu_dispatched :
    (s d : ℕ) (r : Router) (before after : List OspfIface) (i : OspfIface) (m : List ℕ)
    → get_or m 1 0 ≡ 4
    → dispatch r before i after s d m ≡ receive_lsu r s d m
unfolding dispatch
lsu_dispatched s d r before after i m kind = rw kind refl

lsu_received :
    (len area : ℕ) (l : Lsu) (r : Router) (m : List ℕ)
    → Fits l
    → Says 4 len l.rid area m
    → len ≡ 24 + length l.lsas * 12
    → SaysLsu l.seq l.ttl (length l.lsas) (lsas_bytes l.lsas) m
    → receive_lsu r l.saddr l.daddr m ≡ handle_mospf_lsu r l
unfolding receive_lsu
lsu_received len area l r m fits h size says =
    let header : leb 24 (length m) ≡ true = ground (arith, h.whole, size) in
    let whole : leb (24 + u32_at 20 m * 12) (length m) ≡ true =
      ground (arith, h.whole, size, says.count) in
    rw
      (
        header,
        whole,
        says.count,
        says.number,
        says.lives,
        h.router,
        says.rest,
        lsas_at-lsas_bytes l.lsas fits.lsas_fit,
      )
      refl

pub lsu_packet-arrives :
    (ip_init_hdr : ℕ → ℕ → ℕ → ℕ → List ℕ) (area_id : ℕ) (l : Lsu) (r : Router)
    (before after : List OspfIface) (i : OspfIface)
    → InitsHeader ip_init_hdr
    → area_id < 2 ^ 32
    → Fits l
    → (daddr (lsu_packet ip_init_hdr area_id l) ≡ l.daddr)
      × (protocol (lsu_packet ip_init_hdr area_id l) ≡ ipproto_mospf)
      × (handle_mospf_packet area_id r before i after (lsu_packet ip_init_hdr area_id l)
          ≡ handle_mospf_lsu r l)
unfolding lsu_packet
lsu_packet-arrives ip_init_hdr area_id l r before after i inits ha fits =
    let n = length l.lsas in
    let len = 24 + n * 12 in
    let b = mospf_init_lsu l.seq l.ttl n ++ lsas_bytes l.lsas in
    let m = set_checksum (mospf_init_hdr 4 len l.rid area_id ++ b) in
    let bytes : length b ≡ 8 + n * 12 =
      length-lsu l.seq l.ttl n (lsas_bytes l.lsas) ∙ ap (λ x. 8 + x) (length-lsas_bytes l.lsas) in
    let size = fits.size in
    let says =
      mospf_init_hdr-Says 4 len l.rid area_id b (omega (arith, size)) (omega (arith, bytes))
        fits.router ha in
    let says_lsu =
      mospf_init_lsu-SaysLsu len l.rid area_id l.seq l.ttl n (lsas_bytes l.lsas) fits.seq_fits
        fits.ttl_fits (omega (arith, size)) in
    let packet =
      IsIpHeader-IsPacket l.saddr l.daddr 90 _ m
        (inits l.saddr l.daddr (20 + len) 90 fits.source fits.target) in
    (
      packet.target,
      packet.kind,
      behind_header area_id l.saddr l.daddr 90 r before after i m _ packet
          ∙ accepted 4 len l.rid area_id l.saddr l.daddr r before after i m says (omega arith)
          ∙ lsu_dispatched l.saddr l.daddr r before after i m says.kind
          ∙ lsu_received len area_id l r m fits says refl says_lsu,
    )
