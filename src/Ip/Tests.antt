-- ===== src/Ip/Tests.antt =====
-- A router with two routes, and the theorems of Ip and of Arp.Deliver at it.
use ucas_computer_network.Common.{ℕ, ◌≡◌, refl, false, none, some, List, [], ◌∷◌, arith, replicate}
use ucas_computer_network.Arp.{
  lookup_from, has_free, ArpCache, Iface, Packet, arp_send_request, addressed, append_to,
  arpcache_insert, arpcache_lookup,
}
use ucas_computer_network.Ip.{
  RtEntry, handed_on, time_exceeded, net_unreachable, longest_prefix_match, select_from, is_longer,
  aged, get_next_hop, ip_forward_packet,
}
use ucas_computer_network.Ip.Route.{Longest, longest_prefix_match-Longest}
use ucas_computer_network.Ip.Forward.{IsAged, forward-insert}
use ucas_computer_network.Icmp.Headers.{Bytes}

abbrev eth0 : Iface
eth0 = record { index = 1; mac = 1 ∷ [] }

-- 10.0.0.0/8 through a gateway, and 10.1.0.0/16 directly.
abbrev wide : RtEntry
wide = record { dest = 0x0a000000; mask = 0xff000000; gw = 0x0a000001; iface = eth0 }

abbrev narrow : RtEntry
narrow = record { dest = 0x0a010000; mask = 0xffff0000; gw = 0; iface = eth0 }

abbrev routes : List RtEntry
routes = wide ∷ narrow ∷ []

longest : longest_prefix_match routes 0x0a010203 ≡ some narrow
unfolding longest_prefix_match select_from is_longer
longest = refl

gateway : get_next_hop wide 0x0a020304 ≡ 0x0a000001
unfolding get_next_hop
gateway = refl

abbrev packet : ℕ → Packet
packet ttl = record {
  dhost = [];
  shost = [];
  body =
      0x45 ∷ 0 ∷ 0 ∷ 20 ∷ 0 ∷ 0 ∷ 0 ∷ 0 ∷ ttl ∷ 17 ∷ 0 ∷ 0 ∷ 10 ∷ 2 ∷ 0 ∷ 9 ∷ 10 ∷ 1 ∷ 2 ∷ 3 ∷ [];
}

abbrev cold : ArpCache
cold = record {
  entries = replicate 32 (record { ip4 = 0; mac = []; added = 0; valid = false });
  req_list = [];
}

expires : ip_forward_packet 5 routes 0x0a010203 (packet 1) cold ≡ time_exceeded (packet 1)
unfolding ip_forward_packet
expires = refl

no_route : ip_forward_packet 5 routes 0x0b000000 (packet 9) cold ≡ net_unreachable (aged (packet 9))
unfolding ip_forward_packet longest_prefix_match select_from
no_route = refl

longest_example : Longest routes 0x0a010203 (longest_prefix_match routes 0x0a010203)
longest_example = longest_prefix_match-Longest routes 0x0a010203

unknown_hop : arpcache_lookup cold (get_next_hop narrow 0x0a010203) ≡ none
unfolding arpcache_lookup lookup_from
unknown_hop = refl

small_bytes : Bytes (packet 9).body
small_bytes = (
  omega arith,
  (
    omega arith,
    (
      omega arith,
      (
        omega arith,
        (
          omega arith,
          (
            omega arith,
            (
              omega arith,
              (
                omega arith,
                (
                  omega arith,
                  (
                    omega arith,
                    (
                      omega arith,
                      (
                        omega arith,
                        (
                          omega arith,
                          (
                            omega arith,
                            (
                              omega arith,
                              (
                                omega arith,
                                (omega arith, (omega arith, (omega arith, (omega arith, tt)))),
                              ),
                            ),
                          ),
                        ),
                      ),
                    ),
                  ),
                ),
              ),
            ),
          ),
        ),
      ),
    ),
  ),
)

forward_example :
    (c' : ArpCache) × (c'' : ArpCache) × (ip_forward_packet 5 routes 0x0a010203 (packet 9) cold
      ≡ handed_on c' (arp_send_request eth0 (get_next_hop narrow 0x0a010203) ∷ []))
    × (arpcache_insert 7 6 (get_next_hop narrow 0x0a010203) (2 ∷ []) c'
        ≡ some (c'', addressed (2 ∷ []) eth0 (aged (packet 9)) ∷ []))
    × IsAged (packet 9).body (aged (packet 9)).body
unfolding has_free append_to
forward_example =
    forward-insert 7 5 6 0x0a010203 routes narrow (2 ∷ []) (packet 9) cold
      (record { bytes = small_bytes; header = omega arith; whole = omega arith }) (omega arith)
      longest unknown_hop refl refl refl
