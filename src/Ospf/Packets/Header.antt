-- ===== src/Ospf/Packets/Header.antt =====
-- The header of a mOSPF packet, written and checked: mospf_proto.c and handle_mospf_packet of
-- EXP12-mOSPF/code/12-mopsf.
use ucas_computer_network.Common.{
  ℕ, zero, ◌+◌, ◌*◌, ◌^◌, ◌<◌, ◌≤◌, ◌≡◌, refl, ap, sym, ◌∙◌, true, List, [], ◌∷◌, ◌++◌, arith, leb,
  ◌==◌, length, get_or, drop, suc,
}
use ucas_computer_network.Icmp.{hdr_size, protocol, saddr, daddr, u16_at, u32_at}
use ucas_computer_network.Ospf.{OspfIface, Router}
use ucas_computer_network.Ospf.Packets.{
  mospf_init_hdr, mospf_checksum, set_checksum, dispatch, check_header, handle_mospf_packet,
}

-- A header without options that has the addresses it is made for.
pub record IsIpHeader (s d proto : ℕ) (h : List ℕ) : Type 0 where
  pub size : length h ≡ 20
  pub version_ihl : get_or h 0 0 ≡ 0x45
  pub source : u32_at 12 h ≡ s
  pub target : u32_at 16 h ≡ d
  pub protocol : get_or h 9 0 ≡ proto

-- What libipstack's `ip_init_hdr` makes.
abbrev pub InitsHeader : (ℕ → ℕ → ℕ → ℕ → List ℕ) → Type 0
InitsHeader ip_init_hdr =
    (s d len proto : ℕ) → s < 2 ^ 32 → d < 2 ^ 32 → IsIpHeader s d proto (ip_init_hdr s d len proto)

get_or-append_left :
    (xs ys : List ℕ) (i : ℕ) → i < length xs → get_or (xs ++ ys) i 0 ≡ get_or xs i 0
get_or-append_left [] ys i h = absurd (omega arith)
get_or-append_left (x ∷ xs) ys zero h = refl
get_or-append_left (x ∷ xs) ys (suc i) h = get_or-append_left xs ys i (omega arith)

drop-append_left : (xs ys : List ℕ) → drop (length xs) (xs ++ ys) ≡ ys
drop-append_left [] ys = refl
drop-append_left (x ∷ xs) ys = drop-append_left xs ys

u32_at-append_left :
    (xs ys : List ℕ) (i : ℕ) → i + 3 < length xs → u32_at i (xs ++ ys) ≡ u32_at i xs
u32_at-append_left xs ys i h =
    rw
      (
        get_or-append_left xs ys i (omega arith),
        get_or-append_left xs ys (i + 1) (omega arith),
        get_or-append_left xs ys (i + 2) (omega arith),
        get_or-append_left xs ys (i + 3) (omega arith),
      )
      refl

-- What the header says with a message behind it.
pub record IsPacket (s d proto : ℕ) (m p : List ℕ) : Type 0 where
  pub source : saddr p ≡ s
  pub target : daddr p ≡ d
  pub kind : protocol p ≡ proto
  pub message : drop (hdr_size p) p ≡ m

pub IsIpHeader-IsPacket :
    (s d proto : ℕ) (h m : List ℕ) → IsIpHeader s d proto h → IsPacket s d proto m (h ++ m)
IsIpHeader-IsPacket s d proto h m ip =
    let size = ip.size in
    let first : get_or (h ++ m) 0 0 ≡ 0x45 =
      get_or-append_left h m 0 (omega (arith, size)) ∙ ip.version_ihl in
    let hdr : hdr_size (h ++ m) ≡ length h = omega (arith, first, size) in
    record {
      source = u32_at-append_left h m 12 (omega (arith, size)) ∙ ip.source;
      target = u32_at-append_left h m 16 (omega (arith, size)) ∙ ip.target;
      kind = get_or-append_left h m 9 (omega (arith, size)) ∙ ip.protocol;
      message = ap (λ n. drop n (h ++ m)) hdr ∙ drop-append_left h m;
    }

pub behind_header :
    (area s d proto : ℕ) (r : Router) (before after : List OspfIface) (i : OspfIface) (m p : List ℕ)
    → IsPacket s d proto m p
    → handle_mospf_packet area r before i after p ≡ check_header area r before i after s d m
unfolding handle_mospf_packet
behind_header area s d proto r before after i m p h = rw (h.source, h.target, h.message) refl

sum_kept :
    (type len rid aid : ℕ) (b : List ℕ)
    → mospf_checksum (set_checksum (mospf_init_hdr type len rid aid ++ b))
      ≡ mospf_checksum (mospf_init_hdr type len rid aid ++ b)
unfolding mospf_checksum set_checksum mospf_init_hdr
sum_kept type len rid aid b = refl

sum_stored :
    (type len rid aid : ℕ) (b : List ℕ)
    → get_or (set_checksum (mospf_init_hdr type len rid aid ++ b)) 12 0
        + get_or (set_checksum (mospf_init_hdr type len rid aid ++ b)) 13 0 * 256
      ≡ mospf_checksum (mospf_init_hdr type len rid aid ++ b)
unfolding set_checksum mospf_init_hdr
sum_stored type len rid aid b = omega arith

-- The fields of a header that is written.
pub record Says (type len rid aid : ℕ) (m : List ℕ) : Type 0 where
  pub version : get_or m 0 0 ≡ 2
  pub kind : get_or m 1 0 ≡ type
  pub says : u16_at 2 m ≡ len
  pub router : u32_at 4 m ≡ rid
  pub area : u32_at 8 m ≡ aid
  pub checked : get_or m 12 0 + get_or m 13 0 * 256 ≡ mospf_checksum m
  pub whole : length m ≡ len

pub mospf_init_hdr-Says :
    (type len rid aid : ℕ) (b : List ℕ)
    → len < 2 ^ 16
    → len ≡ 16 + length b
    → rid < 2 ^ 32
    → aid < 2 ^ 32
    → Says type len rid aid (set_checksum (mospf_init_hdr type len rid aid ++ b))
unfolding set_checksum mospf_init_hdr
mospf_init_hdr-Says type len rid aid b hl whole hr ha = record {
  version = refl;
  kind = refl;
  says = omega (arith, hl);
  router = omega (arith, hr);
  area = omega (arith, ha);
  checked = sum_stored type len rid aid b ∙ sym (sum_kept type len rid aid b);
  whole = omega (arith, whole);
}

pub accepted :
    (type len rid area s d : ℕ) (r : Router) (before after : List OspfIface) (i : OspfIface)
    (m : List ℕ)
    → Says type len rid area m
    → 14 ≤ len
    → check_header area r before i after s d m ≡ dispatch r before i after s d m
unfolding check_header
accepted type len rid area s d r before after i m h min =
    let first : leb 1 (length m) ≡ true = ground (arith, h.whole, min) in
    let version : (get_or m 0 0 == 2) ≡ true = ground (arith, h.version) in
    let header : leb 14 (length m) ≡ true = ground (arith, h.whole, min) in
    let whole : leb (u16_at 2 m) (length m) ≡ true = ground (arith, h.whole, h.says) in
    let sum : (get_or m 12 0 + get_or m 13 0 * 256 == mospf_checksum m) ≡ true =
      ground (arith, h.checked) in
    let here : (u32_at 8 m == area) ≡ true = ground (arith, h.area) in
    rw (first, version, header, whole, sum, here) refl
