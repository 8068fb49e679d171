-- ===== src/Arp/Messages.antt =====
-- ARP messages: arp.c of EXP18-TCP_Stack_4/code/18-tcp_stack, on the cache. The fields of the header
-- that are the same in every message are left out. A handler that makes the cache write outside its
-- array is none.
use ucas_computer_network.Common.{
  ℕ, ◌≡◌, ◌⊎◌, refl, true, Option, none, some, List, [], ◌∷◌, arith, if◌then◌else◌, ◌==◌, length,
  replicate, ◌>>=◌,
}
use ucas_computer_network.Arp.{
  ArpCache, Iface, Packet, Output, iface_send_packet, arpcache_lookup, arpcache_insert,
  arpcache_append_packet, is_known, has_free, max_arp_size,
}
use ucas_computer_network.Arp.Insert.{insert-lookup}

abbrev pub arpop_request : ℕ
arpop_request = 1

abbrev pub arpop_reply : ℕ
arpop_reply = 2

pub record EtherArp : Type 0 where
  pub arp_op : ℕ
  pub arp_sha : List ℕ
  pub arp_spa : ℕ
  pub arp_tha : List ℕ
  pub arp_tpa : ℕ

-- With the addresses of the Ethernet header.
pub record ArpFrame : Type 0 where
  pub dhost : List ℕ
  pub shost : List ℕ
  pub arp : EtherArp

-- The address of an interface is an argument beside it.
pub request_frame : Iface → ℕ → ℕ → ArpFrame
request_frame iface ip dst_ip = record {
  dhost = replicate 6 255;
  shost = iface.mac;
  arp = record {
    arp_op = arpop_request;
    arp_sha = iface.mac;
    arp_spa = ip;
    arp_tha = replicate 6 0;
    arp_tpa = dst_ip;
  };
}

pub arp_send_reply : Iface → ℕ → EtherArp → ArpFrame
arp_send_reply iface ip req = record {
  dhost = req.arp_sha;
  shost = iface.mac;
  arp = record {
    arp_op = arpop_reply;
    arp_sha = iface.mac;
    arp_spa = ip;
    arp_tha = req.arp_sha;
    arp_tpa = req.arp_spa;
  };
}

-- The cache after, the replies, and what the cache lets go.
pub handle_arp_packet :
    ℕ → ℕ → Iface → ℕ → EtherArp → ArpCache → Option (ArpCache × List ArpFrame × List Output)
handle_arp_packet rand now iface ip a c =
    if a.arp_op == arpop_request
    then (if ip == a.arp_tpa
        then (do
          (c', out) ← arpcache_insert rand now a.arp_spa a.arp_sha c
          some (c', arp_send_reply iface ip a ∷ [], out))
        else some (c, [], []))
    else if a.arp_op == arpop_reply
    then (if ip == a.arp_tpa
        then (do (c', out) ← arpcache_insert rand now a.arp_spa a.arp_sha c; some (c', [], out))
        else some (c, [], []))
    else some (c, [], [])

-- The source address is set in any case.
pub iface_send_packet_by_arp : ℕ → Iface → ℕ → Packet → ArpCache → ArpCache × List Output
iface_send_packet_by_arp now iface dst_ip p c =
    let p' = record p { shost = iface.mac } in
    elim (arpcache_lookup c dst_ip) [
      | some mac ↦ (c, iface_send_packet iface (record p' { dhost = mac }) ∷ [])
      | none ↦ arpcache_append_packet now iface dst_ip p' c
    ]

pub by_arp-known :
    (now hop : ℕ) (iface : Iface) (p : Packet) (c : ArpCache) (mac : List ℕ)
    → arpcache_lookup c hop ≡ some mac
    → iface_send_packet_by_arp now iface hop p c
      ≡ (c, iface_send_packet iface (record p { dhost = mac; shost = iface.mac }) ∷ [])
unfolding iface_send_packet_by_arp
by_arp-known now hop iface p c mac h = rw (iface_send_packet_by_arp, h) refl

-- The cache can take the address in.
abbrev pub HasRoom : ArpCache → ℕ → Type 0
HasRoom c ip4 =
    (length c.entries ≡ max_arp_size)
    × ((is_known c.entries ip4 ≡ true) ⊎ (has_free c.entries ≡ true))

-- What the two ends of an exchange know after it.
pub record Resolved (a b : Iface) (ip_a ip_b now : ℕ) (p : Packet) (cache_a cache_b : ArpCache)
    (rand : ℕ) : Type 0 where
  pub cache_b₁ : ArpCache
  pub reply : ArpFrame
  pub out_b : List Output
  pub cache_a₁ : ArpCache
  pub out_a : List Output
  pub answers :
      handle_arp_packet rand now b ip_b (request_frame a ip_a ip_b).arp cache_b
      ≡ some (cache_b₁, reply ∷ [], out_b)
  pub to_a : reply.dhost ≡ a.mac
  pub hears : handle_arp_packet rand now a ip_a reply.arp cache_a ≡ some (cache_a₁, [], out_a)
  pub sends_on :
      iface_send_packet_by_arp now a ip_b p cache_a₁
      ≡ (cache_a₁, iface_send_packet a (record p { dhost = b.mac; shost = a.mac }) ∷ [])
  pub sends_back :
      iface_send_packet_by_arp now b ip_a p cache_b₁
      ≡ (cache_b₁, iface_send_packet b (record p { dhost = a.mac; shost = b.mac }) ∷ [])

insert-handled :
    (rand now : ℕ) (iface : Iface) (ip : ℕ) (a : EtherArp) (c c' : ArpCache) (out : List Output)
    → ip ≡ a.arp_tpa
    → arpcache_insert rand now a.arp_spa a.arp_sha c ≡ some (c', out)
    → (a.arp_op ≡ arpop_request
        → handle_arp_packet rand now iface ip a c ≡ some (c', arp_send_reply iface ip a ∷ [], out))
      × (a.arp_op ≡ arpop_reply → handle_arp_packet rand now iface ip a c ≡ some (c', [], out))
unfolding handle_arp_packet
insert-handled rand now iface ip a c c' out own stored =
    let mine : (ip == a.arp_tpa) ≡ true = ground (arith, own) in
    (λ op. rw (mine, stored, op) refl, λ op. rw (mine, stored, op) refl)

send-known :
    (now : ℕ) (iface : Iface) (ip : ℕ) (mac : List ℕ) (p : Packet) (c : ArpCache)
    → arpcache_lookup c ip ≡ some mac
    → iface_send_packet_by_arp now iface ip p c
      ≡ (c, iface_send_packet iface (record p { dhost = mac; shost = iface.mac }) ∷ [])
unfolding iface_send_packet_by_arp
send-known now iface ip mac p c found = rw (found, iface_send_packet_by_arp) refl

-- When both caches can take the other's address in, a request is answered by its owner, to the one who
-- asked, and from then on both ends know each other: a packet for the other's address goes out to its
-- hardware address at once, in both directions.
pub exchange-Resolved :
    (a b : Iface) (ip_a ip_b now : ℕ) (p : Packet) (cache_a cache_b : ArpCache) (rand : ℕ)
    → HasRoom cache_b ip_a
    → HasRoom cache_a ip_b
    → Resolved a b ip_a ip_b now p cache_a cache_b rand
unfolding request_frame arp_send_reply
exchange-Resolved a b ip_a ip_b now p cache_a cache_b rand (len_b, room_b) (len_a, room_a) =
    let asked = (request_frame a ip_a ip_b).arp in
    let reply = arp_send_reply b ip_b asked in
    let (cache_b₁, out_b, stored_b, found_b) =
      insert-lookup rand now ip_a a.mac cache_b len_b room_b in
    let (cache_a₁, out_a, stored_a, found_a) =
      insert-lookup rand now ip_b b.mac cache_a len_a room_a in
    record {
      cache_b₁ = cache_b₁;
      reply = reply;
      out_b = out_b;
      cache_a₁ = cache_a₁;
      out_a = out_a;
      answers = (insert-handled rand now b ip_b asked cache_b cache_b₁ out_b refl stored_b).0 refl;
      to_a = refl;
      hears =
          (insert-handled rand now a ip_a reply.arp cache_a cache_a₁ out_a refl stored_a).1 refl;
      sends_on = send-known now a ip_b b.mac p cache_a₁ found_a;
      sends_back = send-known now b ip_a a.mac p cache_b₁ found_b;
    }
