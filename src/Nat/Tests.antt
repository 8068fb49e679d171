-- ===== src/Nat/Tests.antt =====
-- A NAT box with one internal host and one rule, and the theorems of Nat at it.
use ucas_computer_network.Common.{
  ◌+◌, ◌≡◌, ◌≢◌, refl, true, false, none, some, [], ◌∷◌, arith, if◌then◌else◌, ◌==◌,
}
use ucas_computer_network.Nat.{
  NatTable, TcpPacket, sent, crashed, blank_conn, find, add_tail, note_internal, note_external,
  translate_in, translate_out, assign_port, first_free, remote_hash, check_rules,
  nat_translate_packet, get_packet_direction, tcp_ack, tcp_fin,
}
use ucas_computer_network.Nat.RoundTrip.{Inv, answer_to, answer-returns}
use ucas_computer_network.Nat.Keeps.{translate_in-Inv}
use ucas_computer_network.Nat.Timeout.{is_flow_finished}

abbrev box : NatTable
box = record {
  nat_mapping_list = λ h. [];
  internal_iface = 1;
  external_iface = 2;
  external_ip = 99;
  assigned_ports = λ k. false;
  rules =
      record { external_ip = 99; external_port = 8000; internal_ip = 11; internal_port = 80 } ∷ [];
}

box-Inv : Inv box
box-Inv = record { pooled = λ h. tt; unique = λ h. tt }

abbrev request : TcpPacket
request = record {
  saddr = 10;
  daddr = 50;
  sport = 1000;
  dport = 80;
  flags = tcp_ack;
  seq = 1;
  ack = 2;
}

abbrev any_packet : TcpPacket
any_packet = record {
  saddr = 0;
  daddr = 0;
  sport = 0;
  dport = 0;
  flags = tcp_ack;
  seq = 3;
  ack = 4;
}

-- The rule applies to a packet from outside, and a port of the pool to one from inside.
ruled :
    (translate_in 5
      (record request { saddr = 50; sport = 80; daddr = 99; dport = 8000 })
      box).1.daddr
    ≡ 11
unfolding translate_in find check_rules
ruled = refl

goes_out : (translate_out 5 request box).1 ≡ record request { saddr = 99; sport = 12345 }
unfolding translate_out find assign_port first_free
goes_out = refl

routed :
    (nat_translate_packet (λ a. if a == 10 then some 1 else none) 5 true request box).1
    ≡ sent (record request { saddr = 99; sport = 12345 })
unfolding nat_translate_packet get_packet_direction translate_out find assign_port first_free
routed = refl

no_route : (nat_translate_packet (λ a. none) 5 true request box).1 ≡ crashed
unfolding nat_translate_packet get_packet_direction
no_route = refl

-- A stray packet from outside to a port that the pool has not given out yet is taken as a mapping
-- to the address 0; the internal host that gets the port later does not see its replies.
stray :
    let p = record request { saddr = 50; sport = 80; daddr = 99; dport = 12345 } in
    let nat' = (translate_in 5 p box).0 in
    let (nat'', q) = translate_out 6 request nat' in
    (translate_in 7 (answer_to request q any_packet) nat'').1.daddr ≡ 0
unfolding translate_in translate_out find check_rules assign_port first_free add_tail remote_hash
    note_internal note_external
stray = refl

-- Both ends have sent FIN together with ACK, as they do, and the flow does not count as finished.
not_finished :
    is_flow_finished
      (note_external 5
        (record any_packet { flags = tcp_fin + tcp_ack })
        (note_internal 5
          (record any_packet { flags = tcp_fin + tcp_ack })
          (record {
            internal_ip = 10;
            internal_port = 1000;
            external_ip = 99;
            external_port = 12345;
            update_time = 0;
            conn = blank_conn;
          }))).conn
    ≡ false
unfolding is_flow_finished note_internal note_external
not_finished = refl

live_port : (translate_out 5 request box).1.sport ≢ 0
unfolding translate_out find assign_port first_free
live_port e = absurd (omega (arith, e))

answer_example :
    let (nat', q) = translate_out 5 request box in
    let back = (translate_in 6 (answer_to request q any_packet) nat').1 in
    (back.daddr ≡ 10) × (back.dport ≡ 1000)
answer_example = answer-returns 5 6 request any_packet box box-Inv live_port

in-Inv_example : Inv (translate_in 5 (record request { dport = 8000 }) box).0
in-Inv_example =
    translate_in-Inv 5 (record request { dport = 8000 }) box box-Inv
      (λ p. absurd (omega (arith, p)))
