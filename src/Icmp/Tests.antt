-- ===== src/Icmp/Tests.antt =====
-- An echo request from 10.0.0.1 to 10.0.0.2.
use ucas_computer_network.Common.{ℕ, ◌≡◌, refl, true, some, List, [], ◌∷◌, arith}
use ucas_computer_network.Arp.{
  ArpCache, Iface, Packet, lookup_from, arpcache_lookup, iface_send_packet,
}
use ucas_computer_network.Ip.{RtEntry, longest_prefix_match, select_from, is_longer, get_next_hop}
use ucas_computer_network.Icmp.{handle_ip_packet, sent_out, saddr}
use ucas_computer_network.Icmp.Echo.{IsMessage, Answers}
use ucas_computer_network.Icmp.Handler.{handle_ip_packet-Answers}

abbrev eth0 : Iface
eth0 = record { index = 1; mac = 1 ∷ [] }

abbrev request : Packet
request = record {
  dhost = [];
  shost = [];
  body =
      0x45 ∷ 0 ∷ 0 ∷ 29 ∷ 0 ∷ 0 ∷ 0x40 ∷ 0 ∷ 64 ∷ 1 ∷ 0 ∷ 0 ∷ 10 ∷ 0 ∷ 0 ∷ 1 ∷ 10 ∷ 0 ∷ 0 ∷ 2 ∷ 8
      ∷ 0 ∷ 0 ∷ 0 ∷ 0 ∷ 7 ∷ 0 ∷ 1 ∷ 99 ∷ [];
}

abbrev direct : RtEntry
direct = record { dest = 0x0a000000; mask = 0xff000000; gw = 0; iface = eth0 }

abbrev cache : ArpCache
cache = record {
  entries = record { ip4 = 0x0a000001; mac = 2 ∷ []; added = 0; valid = true } ∷ [];
  req_list = [];
}

request-IsMessage : IsMessage request.body
request-IsMessage = record {
  bytes = omega arith;
  header = omega arith;
  message = omega arith;
  whole = omega arith;
}

route : longest_prefix_match (direct ∷ []) (saddr request.body) ≡ some direct
unfolding longest_prefix_match select_from is_longer
route = refl

known : arpcache_lookup cache (get_next_hop direct (saddr request.body)) ≡ some (2 ∷ [])
unfolding arpcache_lookup lookup_from get_next_hop
known = refl

echo_example :
    (reply : List ℕ) × (handle_ip_packet (λ i. 0x0a000002) (direct ∷ []) 7 5 eth0 request cache
      ≡ sent_out cache
          (iface_send_packet eth0 (record { dhost = 2 ∷ []; shost = 1 ∷ []; body = reply }) ∷ []))
    × Answers request.body reply
echo_example =
    handle_ip_packet-Answers (λ i. 0x0a000002) (direct ∷ []) 7 5 eth0 request cache direct (2 ∷ [])
      request-IsMessage refl refl refl route known
