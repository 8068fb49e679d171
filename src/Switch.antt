-- ===== src/Switch.antt =====
-- The learning switch: mac.c, hash.h, packet.c and handle_packet of main.c in
-- EXP05-Switch_Net/code/05-switching. Each operation holds the table's lock; an interface is its
-- index, and the time is an argument.
pub mod Learning
pub mod Ageing
mod Tests
use ucas_computer_network.Common.{
  ℕ, zero, suc, ◌+◌, ◌-◌, Bool, true, false, not, Option, none, some, List, [], ◌∷◌, ◌++◌,
  if◌then◌else◌, ltb, ◌==◌, keep,
}
use ucas_computer_network.Common.Tables.{hash8}

abbrev pub mac_port_timeout : ℕ
mac_port_timeout = 30

pub record MacPortEntry : Type 0 where
  pub mac : List ℕ
  pub iface : ℕ
  pub visited : ℕ

-- `mac_port_map_t`: the 256 buckets.
abbrev pub MacPortMap : Type 0
MacPortMap = ℕ → List MacPortEntry

-- 0, or one more than the place of the first difference.
pub mac_cmp_from : ℕ → List ℕ → List ℕ → ℕ
mac_cmp_from i [] ys = 0
mac_cmp_from i (x ∷ xs) [] = 0
mac_cmp_from i (x ∷ xs) (y ∷ ys) =
    let rest = mac_cmp_from (suc i) xs ys in if x == y then rest else suc i

pub mac_cmp : List ℕ → List ℕ → ℕ
mac_cmp xs ys = mac_cmp_from 0 xs ys

abbrev pub set_bucket : MacPortMap → ℕ → List MacPortEntry → MacPortMap
set_bucket t h es i = if i == h then es else t i

-- The first entry of the bucket with the address.
pub find_mac : List ℕ → List MacPortEntry → Option ℕ
find_mac mac [] = none
find_mac mac (e ∷ es) = if mac_cmp e.mac mac == 0 then some e.iface else find_mac mac es

-- That entry's `visited` is set.
pub visit : ℕ → List ℕ → List MacPortEntry → List MacPortEntry
visit now mac [] = []
visit now mac (e ∷ es) =
    let rest = visit now mac es in
    if mac_cmp e.mac mac == 0 then record e { visited = now } ∷ es else e ∷ rest

pub lookup_port : ℕ → List ℕ → MacPortMap → Option ℕ × MacPortMap
lookup_port now mac t =
    (find_mac mac (t (hash8 mac)), set_bucket t (hash8 mac) (visit now mac (t (hash8 mac))))

pub insert_mac_port : ℕ → List ℕ → ℕ → MacPortMap → MacPortMap
insert_mac_port now mac iface t =
    set_bucket t (hash8 mac)
      (t (hash8 mac) ++ (record { mac = mac; iface = iface; visited = now } ∷ []))

-- The interfaces that a broadcast goes out of.
pub broadcast_packet : List ℕ → ℕ → List ℕ
broadcast_packet ifaces iface = keep (λ i. not (i == iface)) ifaces

-- What `handle_packet` does by the results of its two lookups.
pub learn : ℕ → List ℕ → ℕ → Option ℕ → MacPortMap → MacPortMap
learn now shost iface none t = insert_mac_port now shost iface t
learn now shost iface (some i) t = t

pub send_on : List ℕ → ℕ → Option ℕ → List ℕ
send_on ifaces iface none = broadcast_packet ifaces iface
send_on ifaces iface (some i) = i ∷ []

-- The table after a packet, and the interfaces that it goes out of.
pub handle_packet : ℕ → List ℕ → ℕ → List ℕ → List ℕ → MacPortMap → MacPortMap × List ℕ
handle_packet now ifaces iface dhost shost t =
    let (port, t₁) = lookup_port now dhost t in
    let (known, t₂) = lookup_port now shost t₁ in
    (learn now shost iface known t₂, send_on ifaces iface port)

abbrev pub is_young : ℕ → MacPortEntry → Bool
is_young now e = not (ltb mac_port_timeout (now - e.visited))

-- The buckets from 256 less `n` on.
pub sweep_from : ℕ → ℕ → MacPortMap → MacPortMap
sweep_from now zero t = t
sweep_from now (suc n) t =
    sweep_from now n (set_bucket t (256 - suc n) (keep (is_young now) (t (256 - suc n))))

pub sweep_aged_mac_port_entry : ℕ → MacPortMap → MacPortMap
sweep_aged_mac_port_entry now t = sweep_from now 256 t
