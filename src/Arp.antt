-- ===== src/Arp.antt =====
-- The ARP cache: arpcache.c of EXP18-TCP_Stack_4/code/18-tcp_stack, the same in each stack of the
-- repository. Each function runs under the cache's lock and is one step; the time and the random
-- number are arguments.
pub mod Entries
pub mod Insert
pub mod Pending
pub mod Deliver
pub mod Messages
mod Tests
use ucas_computer_network.Common.{
  ℕ, zero, suc, ◌+◌, ◌-◌, ◌%◌, Bool, true, false, ◌&&◌, ◌||◌, Option, none, some, List, [], ◌∷◌,
  ◌++◌, map, if◌then◌else◌, ltb, leb, ◌==◌, set, get_or,
}

abbrev pub max_arp_size : ℕ
max_arp_size = 32

abbrev pub arp_entry_timeout : ℕ
arp_entry_timeout = 15

abbrev pub arp_request_max_retries : ℕ
arp_request_max_retries = 5

-- An interface, by its index and its address.
pub record Iface : Type 0 where
  pub index : ℕ
  pub mac : List ℕ

-- A packet with its Ethernet addresses.
pub record Packet : Type 0 where
  pub dhost : List ℕ
  pub shost : List ℕ
  pub body : List ℕ

pub record ArpReq : Type 0 where
  pub iface : Iface
  pub ip4 : ℕ
  pub sent : ℕ
  pub retries : ℕ
  pub cached_packets : List Packet

pub record ArpCacheEntry : Type 0 where
  pub ip4 : ℕ
  pub mac : List ℕ
  pub added : ℕ
  pub valid : Bool

pub record ArpCache : Type 0 where
  pub entries : List ArpCacheEntry
  pub req_list : List ArpReq

-- What the cache hands to the layers around it.
pub data Output : Type 0 where
  arp_send_request : Iface → ℕ → Output
  iface_send_packet : Iface → Packet → Output
  icmp_unreachable : Packet → Output

abbrev pub holds : ℕ → ArpCacheEntry → Bool
holds ip4 e = e.valid && e.ip4 == ip4

unfoldable pub lookup_from : List ArpCacheEntry → ℕ → Option (List ℕ)
lookup_from [] ip4 = none
lookup_from (e ∷ es) ip4 = if holds ip4 e then some e.mac else lookup_from es ip4

unfoldable pub arpcache_lookup : ArpCache → ℕ → Option (List ℕ)
arpcache_lookup c ip4 = lookup_from c.entries ip4

-- The packet joins the request for its interface and address; `none` if there is none yet.
unfoldable pub append_to : List ArpReq → Iface → ℕ → Packet → Option (List ArpReq)
append_to [] iface ip4 p = none
append_to (q ∷ qs) iface ip4 p =
    if q.iface.index == iface.index && q.ip4 == ip4
    then some (record q { cached_packets = q.cached_packets ++ (p ∷ []) } ∷ qs)
    else elim (append_to qs iface ip4 p) [ none ↦ none | some qs' ↦ some (q ∷ qs') ]

pub arpcache_append_packet : ℕ → Iface → ℕ → Packet → ArpCache → ArpCache × List Output
arpcache_append_packet now iface ip4 p c = elim (append_to c.req_list iface ip4 p) [
  | some qs ↦ (record c { req_list = qs }, [])
  | none ↦ (
    record c {
      req_list =
          record { iface = iface; ip4 = ip4; sent = now; retries = 1; cached_packets = p ∷ [] }
          ∷ c.req_list;
    },
    arp_send_request iface ip4 ∷ [],
  )
]

pub is_known : List ArpCacheEntry → ℕ → Bool
is_known [] ip4 = false
is_known (e ∷ es) ip4 = holds ip4 e || is_known es ip4

-- Whether the loop leaves `pos` other than -1.
unfoldable pub has_free : List ArpCacheEntry → Bool
has_free [] = false
has_free (e ∷ es) = if e.valid then has_free es else true

pub refresh : ℕ → ℕ → List ℕ → ArpCacheEntry → ArpCacheEntry
refresh now ip4 mac e = if holds ip4 e then record e { mac = mac; added = now } else e

-- The entries after the insertion. The free slot is not used: if there is one, a random slot is
-- overwritten, and if there is none, the write goes to `entries[-1]` (`none`).
pub insert_entry : ℕ → ℕ → ℕ → List ℕ → List ArpCacheEntry → Option (List ArpCacheEntry)
insert_entry rand now ip4 mac es =
    if is_known es ip4
    then some (map (refresh now ip4 mac) es)
    else if has_free es
    then some
        (set es (rand % max_arp_size) (record { ip4 = ip4; mac = mac; added = now; valid = true }))
    else none

abbrev pub addressed : List ℕ → Iface → Packet → Output
addressed mac iface p = iface_send_packet iface (record p { dhost = mac; shost = iface.mac })

-- The first request for the address is answered: its packets go out, and it is removed.
pub answer : ℕ → List ℕ → List ArpReq → List ArpReq × List Output
answer ip4 mac [] = ([], [])
answer ip4 mac (q ∷ qs) =
    let (rest, out) = answer ip4 mac qs in
    if q.ip4 == ip4 then (qs, map (addressed mac q.iface) q.cached_packets) else (q ∷ rest, out)

pub arpcache_insert : ℕ → ℕ → ℕ → List ℕ → ArpCache → Option (ArpCache × List Output)
arpcache_insert rand now ip4 mac c =
    let (reqs, out) = answer ip4 mac c.req_list in
    elim (insert_entry rand now ip4 mac c.entries) [
      | none ↦ none
      | some es ↦ some (record { entries = es; req_list = reqs }, out)
    ]

pub expire : ℕ → ArpCacheEntry → ArpCacheEntry
expire now e =
    if e.valid && leb arp_entry_timeout (now - e.added) then record e { valid = false } else e

-- The requests that stay, those that are sent again, and the packets that are given up.
pub sweep_reqs : ℕ → List ArpReq → List ArpReq × List Output × List Packet
sweep_reqs now [] = ([], [], [])
sweep_reqs now (q ∷ qs) =
    let (kept, again, dropped) = sweep_reqs now qs in
    if ltb (now - q.sent) 1
    then (q ∷ kept, again, dropped)
    else if ltb q.retries arp_request_max_retries
    then (
      record q { retries = q.retries + 1 } ∷ kept,
      arp_send_request q.iface q.ip4 ∷ again,
      dropped,
    )
    else (kept, again, q.cached_packets ++ dropped)

-- One round of the loop of `arpcache_sweep`.
pub arpcache_sweep : ℕ → ArpCache → ArpCache × List Output
arpcache_sweep now c =
    let (kept, again, dropped) = sweep_reqs now c.req_list in
    (
      record { entries = map (expire now) c.entries; req_list = kept },
      again ++ map icmp_unreachable dropped,
    )
