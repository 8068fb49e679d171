-- ===== src/Icmp/Handler.antt =====
-- The handler of IP packets at an echo request: ip.c and icmp.c of EXP18-TCP_Stack_4/code/18-tcp_stack.
use ucas_computer_network.Common.{
  ℕ, ◌≡◌, refl, ap, ◌∙◌, true, false, some, List, [], ◌∷◌, arith, ltb, leb, ◌==◌, length, get_or,
}
use ucas_computer_network.Arp.{ArpCache, Iface, Packet, iface_send_packet, arpcache_lookup}
use ucas_computer_network.Arp.Messages.{by_arp-known}
use ucas_computer_network.Ip.{RtEntry, longest_prefix_match, get_next_hop}
use ucas_computer_network.Icmp.{
  icmp_echoreply, icmp_echorequest, ipproto_icmp, hdr_size, protocol, saddr, daddr, packet,
  echo_reply, icmp_send_packet, ip_send_packet, sent_out, send_icmp, handle_ip_packet,
}
use ucas_computer_network.Icmp.Echo.{IsMessage, Answers, reply_of, reply-Answers, echo_reply-reply}

module _ (ip_of : ℕ → ℕ) (rtable : List RtEntry) where
  ip_send_packet-known :
      (now a : ℕ) (q : List ℕ) (e : RtEntry) (c : ArpCache) (mac : List ℕ)
      → daddr q ≡ a
      → longest_prefix_match rtable a ≡ some e
      → arpcache_lookup c (get_next_hop e a) ≡ some mac
      → ip_send_packet ip_of rtable now q c ≡ (
        c,
        iface_send_packet e.iface (record { dhost = mac; shost = e.iface.mac; body = q }) ∷ [],
      )
  unfolding ip_send_packet
  ip_send_packet-known now a q e c mac target route known =
      let route' : longest_prefix_match rtable (daddr q) ≡ some e =
        ap (longest_prefix_match rtable) target ∙ route in
      let known' : arpcache_lookup c (get_next_hop e (daddr q)) ≡ some mac =
        ap (λ x. arpcache_lookup c (get_next_hop e x)) target ∙ known in
      rw (ip_send_packet, route')
        (by_arp-known now (get_next_hop e (daddr q)) e.iface
          (record { dhost = []; shost = []; body = q }) c mac known')

  sent_on :
      (now a : ℕ) (q : List ℕ) (e : RtEntry) (c : ArpCache) (mac : List ℕ)
      → daddr q ≡ a
      → longest_prefix_match rtable a ≡ some e
      → arpcache_lookup c (get_next_hop e a) ≡ some mac
      → send_icmp ip_of rtable now c (packet q)
        ≡ sent_out c
            (iface_send_packet e.iface (record { dhost = mac; shost = e.iface.mac; body = q }) ∷ [])
  unfolding send_icmp
  sent_on now a q e c mac target route known =
      rw (ip_send_packet-known now a q e c mac target route known) refl

  icmp_send-reply :
      (id code : ℕ) (p : List ℕ)
      → ltb (length p) 20 ≡ false
      → icmp_send_packet ip_of rtable id icmp_echoreply code p ≡ echo_reply id code p
  unfolding icmp_send_packet
  icmp_send-reply id code p long = rw long refl

  accepted :
      (id now : ℕ) (iface : Iface) (p : Packet) (c : ArpCache)
      → IsMessage p.body
      → daddr p.body ≡ ip_of iface.index
      → protocol p.body ≡ ipproto_icmp
      → get_or p.body (hdr_size p.body) 0 ≡ icmp_echorequest
      → handle_ip_packet ip_of rtable id now iface p c
        ≡ send_icmp ip_of rtable now c (echo_reply id 0 p.body)
  unfolding handle_ip_packet
  accepted id now iface p c h mine icmp request =
      let long : ltb (length p.body) 20 ≡ false = ground (arith, h.header, h.message, h.whole) in
      let own : (daddr p.body == ip_of iface.index) ≡ true = ground (arith, mine) in
      let kind : (protocol p.body == ipproto_icmp) ≡ true = ground (arith, icmp) in
      let read : leb (length p.body) (hdr_size p.body) ≡ false =
        ground (arith, h.message, h.whole) in
      let asks : (get_or p.body (hdr_size p.body) 0 == icmp_echorequest) ≡ true =
        ground (arith, request) in
      rw (long, own, kind, read, asks)
        (ap (send_icmp ip_of rtable now c) (icmp_send-reply id 0 p.body long))

-- A well-formed echo request to the address of the interface that it comes in on, from a source to
-- which there is a route whose next hop is in the ARP cache, is answered: exactly one packet goes out
-- of the interface of that route to the hop's address, with the addresses of the request exchanged,
-- its identifier, sequence number and data, and correct checksums.
pub handle_ip_packet-Answers :
    (ip_of : ℕ → ℕ) (rtable : List RtEntry) (id now : ℕ) (iface : Iface) (p : Packet) (c : ArpCache)
    (e : RtEntry) (mac : List ℕ)
    → IsMessage p.body
    → daddr p.body ≡ ip_of iface.index
    → protocol p.body ≡ ipproto_icmp
    → get_or p.body (hdr_size p.body) 0 ≡ icmp_echorequest
    → longest_prefix_match rtable (saddr p.body) ≡ some e
    → arpcache_lookup c (get_next_hop e (saddr p.body)) ≡ some mac
    → (reply : List ℕ) × (handle_ip_packet ip_of rtable id now iface p c
        ≡ sent_out c (
            iface_send_packet e.iface (record { dhost = mac; shost = e.iface.mac; body = reply })
            ∷ []))
      × Answers p.body reply
handle_ip_packet-Answers ip_of rtable id now iface p c e mac h mine icmp request route known =
    let answers = reply-Answers id p.body h in
    (
      reply_of id p.body h,
      accepted ip_of rtable id now iface p c h mine icmp request
          ∙ ap (send_icmp ip_of rtable now c) (echo_reply-reply id p.body h)
          ∙ sent_on ip_of rtable now (saddr p.body) (reply_of id p.body h) e c mac answers.target
              route known,
      answers,
    )
