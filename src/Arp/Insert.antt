-- ===== src/Arp/Insert.antt =====
-- What an insertion leaves in the cache.
use ucas_computer_network.Common.{
  ℕ, zero, suc, ◌%◌, ◌<◌, ◌≡◌, ◌≢◌, ◌↔◌, ◌⊎◌, refl, sym, ◌∙◌, ◌==◌, All, true, false, none, some,
  List, [], ◌∷◌, map, arith, set, length, Bool-cases, inl, inr,
}
use ucas_computer_network.Arp.{
  ArpCache, ArpCacheEntry, Output, holds, lookup_from, arpcache_lookup, is_known, has_free, refresh,
  insert_entry, answer, arpcache_insert, max_arp_size,
}

lookup-refresh :
    (now ip4 : ℕ) (mac : List ℕ) (es : List ArpCacheEntry)
    → is_known es ip4 ≡ true
    → lookup_from (map (refresh now ip4 mac) es) ip4 ≡ some mac
unfolding lookup_from refresh is_known
lookup-refresh now ip4 mac [] h = cc
lookup-refresh now ip4 mac (e ∷ es) h = elim (Bool-cases (holds ip4 e)) [
  | inl here ↦ rw (here, here) refl
  | inr later ↦ rw (later, later) (lookup-refresh now ip4 mac es (ground arith))
]

lookup-set :
    (i ip4 : ℕ) (e : ArpCacheEntry) (es : List ArpCacheEntry)
    → i < length es
    → is_known es ip4 ≡ false
    → holds ip4 e ≡ true
    → lookup_from (set es i e) ip4 ≡ some e.mac
unfolding lookup_from is_known
lookup-set i ip4 e [] h k o = absurd (omega arith)
lookup-set zero ip4 e (x ∷ es) h k o = rw o refl
lookup-set (suc i) ip4 e (x ∷ es) h k o = elim (Bool-cases (holds ip4 x)) [
  | inl here ↦ ground arith
  | inr later ↦ rw later (lookup-set i ip4 e es (omega arith) (ground arith) o)
]

pub lookup-insert_entry :
    (rand now ip4 : ℕ) (mac : List ℕ) (es : List ArpCacheEntry)
    → length es ≡ max_arp_size
    → (is_known es ip4 ≡ true) ⊎ (has_free es ≡ true)
    → (es' : List ArpCacheEntry) × (insert_entry rand now ip4 mac es ≡ some es')
      × (lookup_from es' ip4 ≡ some mac)
unfolding insert_entry
lookup-insert_entry rand now ip4 mac es h room = elim (Bool-cases (is_known es ip4)) [
  | inl known ↦ (map (refresh now ip4 mac) es, rw known refl, lookup-refresh now ip4 mac es known)
  | inr unknown ↦
      let e : ArpCacheEntry = record { ip4 = ip4; mac = mac; added = now; valid = true } in
      let free : has_free es ≡ true = ground arith in
      (
        set es (rand % max_arp_size) e,
        rw (unknown, free) refl,
        lookup-set (rand % max_arp_size) ip4 e es (omega arith) unknown (ground arith),
      )
]

-- If the cache knows the address or has a free slot, insertion succeeds, whatever the random
-- number, and a lookup of the address then gives the new MAC address.
pub insert-lookup :
    (rand now ip4 : ℕ) (mac : List ℕ) (c : ArpCache)
    → length c.entries ≡ max_arp_size
    → (is_known c.entries ip4 ≡ true) ⊎ (has_free c.entries ≡ true)
    → (c' : ArpCache) × (out : List Output) × (arpcache_insert rand now ip4 mac c ≡ some (c', out))
      × (arpcache_lookup c' ip4 ≡ some mac)
unfolding arpcache_insert arpcache_lookup
insert-lookup rand now ip4 mac c h room =
    let (es, stored, found) = lookup-insert_entry rand now ip4 mac c.entries h room in
    (
      record { entries = es; req_list = (answer ip4 mac c.req_list).0 },
      (answer ip4 mac c.req_list).1,
      rw (arpcache_insert, stored) refl,
      found,
    )

-- No entry is valid and for the address.
abbrev pub Unknown : ℕ → List ArpCacheEntry → Type 0
Unknown ip4 es = All (λ e. (e.valid ≡ true) → e.ip4 ≢ ip4) es

is_known-Unknown : (ip4 : ℕ) (es : List ArpCacheEntry) → is_known es ip4 ≡ false → Unknown ip4 es
unfolding is_known
is_known-Unknown ip4 [] h = tt
is_known-Unknown ip4 (e ∷ es) h =
    ((λ on same. ground (arith, h, on, same)), is_known-Unknown ip4 es (ground (arith, h)))

Unknown-is_known : (ip4 : ℕ) (es : List ArpCacheEntry) → Unknown ip4 es → is_known es ip4 ≡ false
unfolding is_known
Unknown-is_known ip4 [] h = refl
Unknown-is_known ip4 (e ∷ es) (own, h) =
    let rest = Unknown-is_known ip4 es h in
    elim (Bool-cases e.valid) [
      | inl on ↦
          let other : (e.ip4 == ip4) ≡ false = ground (arith, own on) in
          rw (on, other, is_known) rest
      | inr off ↦ rw (off, is_known) rest
    ]

has_free-Valid : (es : List ArpCacheEntry) → has_free es ≡ false → All (λ e. e.valid ≡ true) es
unfolding has_free
has_free-Valid [] h = tt
has_free-Valid (e ∷ es) h = elim (Bool-cases e.valid) [
  | inl on ↦ (on, has_free-Valid es (sym (rw (on, has_free) refl) ∙ h))
  | inr off ↦ absurd (ground (arith, off, h))
]

Valid-has_free : (es : List ArpCacheEntry) → All (λ e. e.valid ≡ true) es → has_free es ≡ false
unfolding has_free
Valid-has_free [] h = refl
Valid-has_free (e ∷ es) (on, h) = rw (on, has_free) (Valid-has_free es h)

-- Insertion writes outside the array exactly when every entry is valid and none is for the address.
pub insert-overflows :
    (rand now ip4 : ℕ) (mac : List ℕ) (c : ArpCache)
    → (arpcache_insert rand now ip4 mac c ≡ none)
      ↔ (Unknown ip4 c.entries × All (λ e. e.valid ≡ true) c.entries)
unfolding arpcache_insert insert_entry
insert-overflows rand now ip4 mac c = (
  λ e.
      let known : is_known c.entries ip4 ≡ false = ground (arith, e) in
      let free : has_free c.entries ≡ false = ground (arith, e) in
      (is_known-Unknown ip4 c.entries known, has_free-Valid c.entries free),
  λ h.
      let known = Unknown-is_known ip4 c.entries h.0 in
      let free = Valid-has_free c.entries h.1 in
      rw (arpcache_insert, insert_entry, known, free) refl,
)
