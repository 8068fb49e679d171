-- ===== src/Arp/Tests.antt =====
-- A small cache, and the theorems of Arp at it.
use ucas_computer_network.Common.{
  ℕ, ◌≡◌, ◌↔◌, refl, true, false, none, [], ◌∷◌, replicate, inr, All,
}
use ucas_computer_network.Arp.{
  ArpCache, ArpCacheEntry, ArpReq, Iface, Packet, arp_send_request, iface_send_packet,
  arpcache_append_packet, append_to, arpcache_insert, insert_entry, is_known, has_free, answer,
}
use ucas_computer_network.Arp.Messages.{Resolved, exchange-Resolved}
use ucas_computer_network.Arp.Insert.{Unknown, insert-overflows}

abbrev eth0 : Iface
eth0 = record { index = 1; mac = 9 ∷ [] }

abbrev unsent : Packet
unsent = record { dhost = []; shost = []; body = 42 ∷ [] }

abbrev used : ℕ → ArpCacheEntry
used ip4 = record { ip4 = ip4; mac = 7 ∷ []; added = 100; valid = true }

abbrev unused : ArpCacheEntry
unused = record { ip4 = 0; mac = []; added = 0; valid = false }

abbrev request : ArpReq
request = record { iface = eth0; ip4 = 3; sent = 100; retries = 1; cached_packets = unsent ∷ [] }

abbrev cache : ArpCache
cache = record { entries = used 1 ∷ used 2 ∷ replicate 30 unused; req_list = request ∷ [] }

-- A second packet for the same address joins the request; one for another address starts one.
joins : arpcache_append_packet 105 eth0 3 unsent cache ≡ (
  record cache { req_list = record request { cached_packets = unsent ∷ unsent ∷ [] } ∷ [] },
  [],
)
unfolding arpcache_append_packet append_to
joins = refl

starts : (arpcache_append_packet 105 eth0 4 unsent cache).1 ≡ arp_send_request eth0 4 ∷ []
unfolding arpcache_append_packet append_to
starts = refl

answered :
    answer 3 (5 ∷ []) cache.req_list
    ≡ ([], iface_send_packet eth0 (record { dhost = 5 ∷ []; shost = 9 ∷ []; body = 42 ∷ [] }) ∷ [])
unfolding answer
answered = refl

abbrev full_cache : ArpCache
full_cache = record { entries = replicate 32 (used 1); req_list = [] }

overflows_example :
    (arpcache_insert 33 110 3 (5 ∷ []) full_cache ≡ none)
    ↔ (Unknown 3 full_cache.entries × All (λ e. e.valid ≡ true) full_cache.entries)
overflows_example = insert-overflows 33 110 3 (5 ∷ []) full_cache

overflows : arpcache_insert 33 110 3 (5 ∷ []) full_cache ≡ none
unfolding arpcache_insert is_known has_free insert_entry
overflows = refl

-- Two neighbours that do not know each other yet.
exchange_example :
    Resolved
      (record { index = 1; mac = 7 ∷ [] })
      (record { index = 2; mac = 8 ∷ [] })
      11
      12
      110
      (record { dhost = []; shost = []; body = [] })
      cache
      cache
      33
unfolding has_free
exchange_example =
    exchange-Resolved (record { index = 1; mac = 7 ∷ [] }) (record { index = 2; mac = 8 ∷ [] }) 11
      12 110 (record { dhost = []; shost = []; body = [] }) cache cache 33 (refl, inr refl)
      (refl, inr refl)
