-- ===== src/Ip.antt =====
-- Routing and forwarding: ip.c and rtable.c in EXP18-TCP_Stack_4/code/18-tcp_stack, on the ARP cache
-- of Arp.
pub mod Route
pub mod Forward
mod Tests
use Prim.Native.Nat.{bit_and}
use ucas_computer_network.Common.{
  ℕ, ◌-◌, Bool, Option, none, some, List, [], ◌∷◌, not, ◌||◌, if◌then◌else◌, ltb, leb, ◌==◌, get_or,
  set, take, drop, ◌++◌, ◌%◌, ◌*◌,
}
use ucas_computer_network.Checksum.{checksum, words_of, in_memory}
use ucas_computer_network.Arp.{
  ArpCache, Iface, Packet, Output, iface_send_packet, arpcache_lookup, arpcache_append_packet,
}

-- `rt_entry_t`, less its flags and the name of the interface.
pub record RtEntry : Type 0 where
  pub dest : ℕ
  pub mask : ℕ
  pub gw : ℕ
  pub iface : Iface

abbrev pub matches : ℕ → RtEntry → Bool
matches dst e = bit_and dst e.mask == bit_and e.dest e.mask

-- Whether an entry replaces the one selected so far.
unfoldable pub is_longer : Option RtEntry → RtEntry → Bool
is_longer none e = Bool.true
is_longer (some s) e = ltb s.mask e.mask

-- The loop of `longest_prefix_match`.
unfoldable pub select_from : Option RtEntry → List RtEntry → ℕ → Option RtEntry
select_from selected [] dst = selected
select_from selected (e ∷ es) dst =
    select_from
      (if matches dst e then (if is_longer selected e then some e else selected) else selected) es
      dst

unfoldable pub longest_prefix_match : List RtEntry → ℕ → Option RtEntry
longest_prefix_match rtable dst = select_from none rtable dst

unfoldable pub get_next_hop : RtEntry → ℕ → ℕ
get_next_hop e dst = if e.gw == 0 then dst else e.gw

-- The end of `ip_forward_packet`, from the lookup of the next hop on.
pub send_by_arp : ℕ → Iface → ℕ → Packet → ArpCache → ArpCache × List Output
send_by_arp now iface ip4 p c = elim (arpcache_lookup c ip4) [
  | some mac ↦ (c, iface_send_packet iface (record p { dhost = mac; shost = iface.mac }) ∷ [])
  | none ↦ arpcache_append_packet now iface ip4 p c
]

-- What becomes of a packet to forward: it is handed to the ARP layer, or an ICMP message is sent.
pub data Forwarded : Type 0 where
  handed_on : ArpCache → List Output → Forwarded
  time_exceeded : Packet → Forwarded
  net_unreachable : Packet → Forwarded

-- The time to live is byte 8 of the IP header.
abbrev pub ttl_of : Packet → ℕ
ttl_of p = get_or p.body 8 0

-- With the checksum field as 0, for as long as the header says that it is.
pub ip_checksum : List ℕ → ℕ
ip_checksum h =
    checksum (words_of (take (get_or h 0 0 % 16 * 4) (take 10 h ++ 0 ∷ 0 ∷ drop 12 h))) 0

-- With one hop less to live, and the checksum for it.
pub aged_body : List ℕ → List ℕ
aged_body h =
    let b = set h 8 (get_or h 8 0 - 1) in take 10 b ++ (in_memory (ip_checksum b) ++ drop 12 b)

abbrev pub aged : Packet → Packet
aged p = record p { body = aged_body p.body }

pub ip_forward_packet : ℕ → List RtEntry → ℕ → Packet → ArpCache → Forwarded
ip_forward_packet now rtable ip_dst p c =
    if leb (ttl_of p) 1 then time_exceeded p else elim (longest_prefix_match rtable ip_dst) [
      | none ↦ net_unreachable (aged p)
      | some e ↦
          let (c', out) = send_by_arp now e.iface (get_next_hop e ip_dst) (aged p) c in
          handed_on c' out
    ]
