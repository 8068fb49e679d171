-- ===== src/Arp/Entries.antt =====
-- Looking up, and the ageing of the entries.
use ucas_computer_network.Common.{ℕ, ◌-◌, ◌≡◌, refl, Bool, List, [], ◌∷◌, map, arith, ltb, keep}
use ucas_computer_network.Arp.{
  ArpCache, ArpCacheEntry, lookup_from, arpcache_lookup, expire, arpcache_sweep, arp_entry_timeout,
}

-- Added less than 15 seconds before `now`.
abbrev pub is_fresh : ℕ → ArpCacheEntry → Bool
is_fresh now e = ltb (now - e.added) arp_entry_timeout

lookup-expire :
    (now ip4 : ℕ) (es : List ArpCacheEntry)
    → lookup_from (map (expire now) es) ip4 ≡ lookup_from (keep (is_fresh now) es) ip4
unfolding lookup_from expire
lookup-expire now ip4 [] = refl
lookup-expire now ip4 (e ∷ es) = ground (arith, lookup-expire now ip4 es)

-- After a sweep, a lookup finds what it would find if the cache held only the entries added less
-- than 15 seconds ago.
pub lookup-sweep :
    (now ip4 : ℕ) (c : ArpCache)
    → arpcache_lookup (arpcache_sweep now c).0 ip4 ≡ lookup_from (keep (is_fresh now) c.entries) ip4
unfolding arpcache_lookup arpcache_sweep
lookup-sweep now ip4 c = lookup-expire now ip4 c.entries
