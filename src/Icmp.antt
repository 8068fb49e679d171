-- ===== src/Icmp.antt =====
-- ICMP messages and the handler of IP packets: icmp.c and ip.c of
-- EXP18-TCP_Stack_4/code/18-tcp_stack. A packet is the list of its bytes from the IP header on, as long
-- as the frame that was received less its 14 bytes of Ethernet header; memory is always granted. The
-- address of an interface is a function of its index.
pub mod Headers
pub mod Echo
pub mod Handler
mod Tests
use ucas_computer_network.Common.{
  ℕ, zero, suc, ◌+◌, ◌-◌, ◌*◌, ◌/◌, ◌%◌, ◌^◌, Bool, ◌&&◌, Option, none, some, List, [], ◌∷◌, ◌++◌,
  if◌then◌else◌, ltb, leb, ◌==◌, length, get_or, take, drop, replicate,
}
use ucas_computer_network.Checksum.{checksum, words_of, in_memory}
use ucas_computer_network.Arp.{ArpCache, Iface, Packet, Output}
use ucas_computer_network.Arp.Messages.{iface_send_packet_by_arp}
use ucas_computer_network.Ip.{
  RtEntry, Forwarded, handed_on, time_exceeded, net_unreachable, longest_prefix_match, get_next_hop,
  ip_forward_packet,
}

abbrev pub icmp_echoreply : ℕ
icmp_echoreply = 0

abbrev pub icmp_echorequest : ℕ
icmp_echorequest = 8

abbrev pub icmp_dest_unreach : ℕ
icmp_dest_unreach = 3

abbrev pub icmp_time_exceeded : ℕ
icmp_time_exceeded = 11

abbrev pub ipproto_icmp : ℕ
ipproto_icmp = 1

abbrev pub ipproto_tcp : ℕ
ipproto_tcp = 6

-- Fields in network order.
abbrev pub u16_at : ℕ → List ℕ → ℕ
u16_at i p = get_or p i 0 * 256 + get_or p (i + 1) 0

abbrev pub u32_at : ℕ → List ℕ → ℕ
u32_at i p =
    ((get_or p i 0 * 256 + get_or p (i + 1) 0) * 256 + get_or p (i + 2) 0) * 256
    + get_or p (i + 3) 0

abbrev pub be16 : ℕ → List ℕ
be16 n = n / 256 % 256 ∷ n % 256 ∷ []

abbrev pub be32 : ℕ → List ℕ
be32 n = n / 2 ^ 24 % 256 ∷ n / 2 ^ 16 % 256 ∷ n / 2 ^ 8 % 256 ∷ n % 256 ∷ []

-- `struct iphdr`
abbrev pub hdr_size : List ℕ → ℕ
hdr_size p = get_or p 0 0 % 16 * 4

abbrev pub tot_len : List ℕ → ℕ
tot_len p = u16_at 2 p

abbrev pub protocol : List ℕ → ℕ
protocol p = get_or p 9 0

abbrev pub saddr : List ℕ → ℕ
saddr p = u32_at 12 p

abbrev pub daddr : List ℕ → ℕ
daddr p = u32_at 16 p

-- A message with its checksum in two bytes that are 0 before.
unfoldable pub with_checksum : List ℕ → List ℕ → List ℕ
with_checksum front back =
    front ++ (in_memory (checksum (words_of (front ++ 0 ∷ 0 ∷ back)) 0) ++ back)

-- `id` is a random number.
unfoldable pub ip_init_hdr : ℕ → ℕ → ℕ → ℕ → ℕ → List ℕ
ip_init_hdr id saddr daddr len proto =
    with_checksum
      (0x45 ∷ 0 ∷ (be16 len ++ (in_memory (id % 2 ^ 16) ++ (0x40 ∷ 0 ∷ 64 ∷ proto ∷ []))))
      (be32 saddr ++ be32 daddr)

-- `rest` starts with the identifier and the sequence number.
pub icmp_message : ℕ → ℕ → List ℕ → List ℕ
icmp_message type code rest = with_checksum (type ∷ code ∷ []) rest

-- What `icmp_send_packet` comes to: it reads or writes outside a packet, finds no route, or has a
-- packet to send.
pub data Sending : Type 0 where
  out_of_bounds : Sending
  no_route : Sending
  packet : List ℕ → Sending

-- The replica of the request's data. The memory for the answer is as long as the request.
pub echo_reply : ℕ → ℕ → List ℕ → Sending
echo_reply id code p =
    let icmp_len = tot_len p - hdr_size p in
    if leb (hdr_size p + 8) (tot_len p)
      && leb (tot_len p) (length p)
      && leb (20 + icmp_len) (length p)
    then packet (
        ip_init_hdr id (daddr p) (saddr p) (20 + icmp_len) ipproto_icmp
        ++ (icmp_message icmp_echoreply code (take (icmp_len - 4) (drop (hdr_size p + 4) p))
            ++ replicate (length p - (20 + icmp_len)) 0))
    else out_of_bounds

module _ (ip_of : ℕ → ℕ) (rtable : List RtEntry) where
  -- The header of the packet and 8 bytes of its data.
  pub error_message : ℕ → ℕ → ℕ → List ℕ → Sending
  error_message id type code p =
      if leb (hdr_size p + 8) (length p)
      then elim (longest_prefix_match rtable (saddr p)) [
        | none ↦ no_route
        | some e ↦ packet (
            ip_init_hdr id (ip_of e.iface.index) (saddr p) (20 + (8 + hdr_size p + 8)) ipproto_icmp
            ++ icmp_message type code (0 ∷ 0 ∷ 0 ∷ 0 ∷ take (hdr_size p + 8) p))
      ]
      else out_of_bounds

  pub icmp_send_packet : ℕ → ℕ → ℕ → List ℕ → Sending
  icmp_send_packet id type code p =
      if ltb (length p) 20
      then out_of_bounds
      else if type == icmp_echoreply
      then echo_reply id code p
      else error_message id type code p

  pub ip_send_packet : ℕ → List ℕ → ArpCache → ArpCache × List Output
  ip_send_packet now p c = elim (longest_prefix_match rtable (daddr p)) [
    | none ↦ (c, [])
    | some e ↦
        iface_send_packet_by_arp now e.iface (get_next_hop e (daddr p))
          (record { dhost = []; shost = []; body = p }) c
  ]

  -- What becomes of a received packet: memory is read or written that is not the packet's, the packet
  -- goes to TCP, or others are sent.
  pub data Handled : Type 0 where
    fault : Handled
    to_tcp : List ℕ → Handled
    sent_out : ArpCache → List Output → Handled

  pub send_icmp : ℕ → ArpCache → Sending → Handled
  send_icmp now c out_of_bounds = fault
  send_icmp now c no_route = sent_out c []
  send_icmp now c (packet p) = let (c', out) = ip_send_packet now p c in sent_out c' out

  pub forwarded : ℕ → ℕ → ArpCache → Forwarded → Handled
  forwarded id now c (handed_on c' out) = sent_out c' out
  forwarded id now c (time_exceeded p) =
      send_icmp now c (icmp_send_packet id icmp_time_exceeded 0 p.body)
  forwarded id now c (net_unreachable p) =
      send_icmp now c (icmp_send_packet id icmp_dest_unreach 0 p.body)

  pub handle_ip_packet : ℕ → ℕ → Iface → Packet → ArpCache → Handled
  handle_ip_packet id now iface p c =
      if ltb (length p.body) 20
      then fault
      else if daddr p.body == ip_of iface.index
      then (if protocol p.body == ipproto_icmp
          then (if leb (length p.body) (hdr_size p.body)
              then fault
              else if get_or p.body (hdr_size p.body) 0 == icmp_echorequest
              then send_icmp now c (icmp_send_packet id icmp_echoreply 0 p.body)
              else sent_out c [])
          else if protocol p.body == ipproto_tcp
          then to_tcp p.body
          else sent_out c [])
      else forwarded id now c (ip_forward_packet now rtable (daddr p.body) p c)
