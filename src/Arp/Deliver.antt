-- ===== src/Arp/Deliver.antt =====
-- A packet that waits goes out when its answer comes.
use ucas_computer_network.Common.{
  ℕ, ◌≡◌, ◌⊎◌, refl, true, none, some, List, [], ◌∷◌, arith, ◌==◌, length,
}
use ucas_computer_network.Arp.{
  ArpCache, Iface, Packet, arp_send_request, addressed, append_to, arpcache_append_packet, answer,
  arpcache_insert, arpcache_lookup, is_known, has_free, max_arp_size,
}
use ucas_computer_network.Arp.Insert.{lookup-insert_entry}

-- A packet that starts a request makes the cache ask for the address. If the cache knows the address
-- or has a free slot, the answer sends exactly this packet, with the Ethernet addresses of the two
-- ends, and the address is known from then on.
pub append-insert :
    (rand now now' ip4 : ℕ) (iface : Iface) (mac : List ℕ) (p : Packet) (c : ArpCache)
    → length c.entries ≡ max_arp_size
    → (is_known c.entries ip4 ≡ true) ⊎ (has_free c.entries ≡ true)
    → append_to c.req_list iface ip4 p ≡ none
    → let (c', out) = arpcache_append_packet now iface ip4 p c in
      (out ≡ arp_send_request iface ip4 ∷ [])
      × (c'' : ArpCache) × (arpcache_insert rand now' ip4 mac c'
          ≡ some (c'', addressed mac iface p ∷ []))
      × (arpcache_lookup c'' ip4 ≡ some mac)
unfolding arpcache_append_packet arpcache_insert arpcache_lookup answer
append-insert rand now now' ip4 iface mac p c size room new =
    let (es, stored, found) = lookup-insert_entry rand now' ip4 mac c.entries size room in
    let same : (ip4 == ip4) ≡ true = ground arith in
    rw (new, arpcache_append_packet)
      (
        refl,
        record { entries = es; req_list = c.req_list },
        rw (arpcache_insert, stored, same) refl,
        found,
      )
