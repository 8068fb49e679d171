-- ===== src/Ip/Forward.antt =====
-- A packet to forward whose next hop is not in the ARP cache yet.
use ucas_computer_network.Common.{
  ℕ, zero, suc, ◌+◌, ◌-◌, ◌*◌, ◌/◌, ◌%◌, ◌<◌, ◌≤◌, ◌≡◌, ◌∙◌, ◌++◌, take, drop, get_or, length-take,
  inr, ap, refl, true, false, none, some, List, [], ◌∷◌, arith, leb, length,
}
use ucas_computer_network.Arp.{
  ArpCache, Iface, Packet, arp_send_request, addressed, append_to, arpcache_append_packet,
  arpcache_insert, arpcache_lookup, has_free, max_arp_size,
}
use ucas_computer_network.Arp.Deliver.{append-insert}
use ucas_computer_network.Checksum.{checksum, words_of, in_memory}
use ucas_computer_network.Icmp.{hdr_size, with_checksum}
use ucas_computer_network.Icmp.Headers.{Bytes, Bytes-take, with_checksum-verifies}
use ucas_computer_network.Ip.{
  ip_checksum, aged_body, RtEntry, handed_on, ttl_of, aged, longest_prefix_match, get_next_hop,
  send_by_arp, ip_forward_packet,
}

-- What forwarding makes of a packet: the same, but for the time to live and a correct checksum.
pub record IsAged (h h' : List ℕ) : Type 0 where
  pub ttl : get_or h' 8 0 + 1 ≡ get_or h 8 0
  pub front : take 8 h' ≡ take 8 h
  pub kind : get_or h' 9 0 ≡ get_or h 9 0
  pub rest : drop 12 h' ≡ drop 12 h
  pub sum : checksum (words_of (take (hdr_size h) h')) 0 ≡ 0

-- A packet of bytes with a whole IP header.
pub record HasHeader (h : List ℕ) : Type 0 where
  pub bytes : Bytes h
  pub header : 20 ≤ hdr_size h
  pub whole : hdr_size h ≤ length h

take-split : (xs ys : List ℕ) (n m : ℕ) → n ≡ length xs + m → take n (xs ++ ys) ≡ xs ++ take m ys
take-split [] ys n m h = ap (λ k. take k ys) (omega (arith, h))
take-split (x ∷ xs) ys zero m h = absurd (omega (arith, h))
take-split (x ∷ xs) ys (suc n) m h = ap (◌∷◌ x) (take-split xs ys n m (omega (arith, h)))

aged_body-IsAged : (h : List ℕ) → HasHeader h → 1 < get_or h 8 0 → IsAged h (aged_body h)
unfolding aged_body ip_checksum with_checksum
aged_body-IsAged (a ∷ b ∷ c ∷ d ∷ e ∷ f ∷ g ∷ i ∷ t ∷ k ∷ x ∷ y ∷ r) h live =
    let n = a % 16 * 4 in
    let front = a ∷ b ∷ c ∷ d ∷ e ∷ f ∷ g ∷ i ∷ (t - 1) ∷ k ∷ [] in
    let back = take (n - 12) r in
    let header = h.header in
    let (ha, (hb, (hc, (hd, (he, (hf, (hg, (hi, (ht, (hk, (hx, (hy, hr)))))))))))) = h.bytes in
    let blank : take n (front ++ 0 ∷ 0 ∷ r) ≡ front ++ 0 ∷ 0 ∷ back =
      take-split (a ∷ b ∷ c ∷ d ∷ e ∷ f ∷ g ∷ i ∷ (t - 1) ∷ k ∷ 0 ∷ 0 ∷ []) r n (n - 12)
        (omega (arith, header)) in
    let s = checksum (words_of (take n (front ++ 0 ∷ 0 ∷ r))) 0 in
    let filled : take n (front ++ (in_memory s ++ r)) ≡ front ++ (in_memory s ++ back) =
      take-split (a ∷ b ∷ c ∷ d ∷ e ∷ f ∷ g ∷ i ∷ (t - 1) ∷ k ∷ s % 256 ∷ s / 256 ∷ []) r n (n - 12)
        (omega (arith, header)) in
    let same : s ≡ checksum (words_of (front ++ 0 ∷ 0 ∷ back)) 0 =
      ap (λ z. checksum (words_of z) 0) blank in
    record {
      ttl = omega (arith, live);
      front = refl;
      kind = refl;
      rest = refl;
      sum =
          ap (λ z. checksum (words_of z) 0) (filled ∙ ap (λ z. front ++ (in_memory z ++ back)) same)
          ∙ with_checksum-verifies front back tt
              (ha, (hb, (hc, (hd, (he, (hf, (hg, (hi, (omega (arith, ht), (hk, tt))))))))))
              (Bytes-take (n - 12) r hr) (omega (arith, length-take (n - 12) r));
    }
aged_body-IsAged short h live = absurd (omega (arith, h.header, h.whole))

send_by_arp-unknown :
    (now ip4 : ℕ) (iface : Iface) (p : Packet) (c : ArpCache)
    → arpcache_lookup c ip4 ≡ none
    → send_by_arp now iface ip4 p c ≡ arpcache_append_packet now iface ip4 p c
unfolding send_by_arp
send_by_arp-unknown now ip4 iface p c h = rw (h, send_by_arp) refl

-- A packet with a whole IP header, time to live left and a route, whose next hop the ARP cache does not know and has
-- no request for, makes the router ask for the next hop. Once the hop answers, given that the cache
-- has a free slot, one packet goes out of the route's interface to the hop's address: the same one,
-- with one hop less to live and a correct header checksum.
pub forward-insert :
    (rand now now' ip_dst : ℕ) (rtable : List RtEntry) (e : RtEntry) (mac : List ℕ) (p : Packet)
    (c : ArpCache)
    → HasHeader p.body
    → 1 < ttl_of p
    → longest_prefix_match rtable ip_dst ≡ some e
    → arpcache_lookup c (get_next_hop e ip_dst) ≡ none
    → append_to c.req_list e.iface (get_next_hop e ip_dst) (aged p) ≡ none
    → length c.entries ≡ max_arp_size
    → has_free c.entries ≡ true
    → (c' : ArpCache) × (c'' : ArpCache) × (ip_forward_packet now rtable ip_dst p c
        ≡ handed_on c' (arp_send_request e.iface (get_next_hop e ip_dst) ∷ []))
      × (arpcache_insert rand now' (get_next_hop e ip_dst) mac c'
          ≡ some (c'', addressed mac e.iface (aged p) ∷ []))
      × IsAged p.body (aged p).body
unfolding ip_forward_packet
forward-insert rand now now' ip_dst rtable e mac p c header live route unknown new size room =
    let hop = get_next_hop e ip_dst in
    let young : leb (ttl_of p) 1 ≡ false = ground arith in
    let (asked, c'', answered, found) =
      append-insert rand now now' hop e.iface mac (aged p) c size (inr room) new in
    (
      (arpcache_append_packet now e.iface hop (aged p) c).0,
      c'',
      rw (ip_forward_packet, young, route, send_by_arp-unknown now hop e.iface (aged p) c unknown)
          (ap (handed_on (arpcache_append_packet now e.iface hop (aged p) c).0) asked),
      answered,
      aged_body-IsAged p.body header live,
    )
