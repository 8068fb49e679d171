-- ===== src/Nat.antt =====
-- The NAT box: nat.c of EXP13-NAT/13-nat. Each packet, and each round of the timeout thread, runs
-- under the table's lock and is one step. The routing table belongs to the prebuilt libipstack: its
-- lookup is a parameter. Checksums, which libipstack checks too, are left out.
pub mod Ports
pub mod Table
pub mod RoundTrip
pub mod Keeps
pub mod Timeout
pub mod Config
mod Tests
use ucas_computer_network.Common.{
  ℕ, zero, suc, ◌+◌, ◌-◌, ◌*◌, ◌/◌, ◌%◌, ◌^◌, Bool, true, false, not, ◌&&◌, ◌||◌, Option, none,
  some, List, [], ◌∷◌, if◌then◌else◌, ltb, leb, ◌==◌,
}
use ucas_computer_network.Common.Tables.{update, hash8}

abbrev pub nat_port_min : ℕ
nat_port_min = 12345

abbrev pub nat_port_max : ℕ
nat_port_max = 23456

abbrev pub tcp_established_timeout : ℕ
tcp_established_timeout = 60

abbrev pub tcp_fin : ℕ
tcp_fin = 0x01

abbrev pub tcp_ack : ℕ
tcp_ack = 0x10

pub data PacketDir : Type 0 where
  dir_in dir_out dir_invalid : PacketDir

-- `struct nat_connection`
pub record NatConnection : Type 0 where
  pub internal_fin : ℕ
  pub external_fin : ℕ
  pub internal_seq_end : ℕ
  pub external_seq_end : ℕ
  pub internal_ack : ℕ
  pub external_ack : ℕ

-- `struct nat_mapping`, less the remote address, which nothing sets.
pub record NatMapping : Type 0 where
  pub internal_ip : ℕ
  pub internal_port : ℕ
  pub external_ip : ℕ
  pub external_port : ℕ
  pub update_time : ℕ
  pub conn : NatConnection

pub record DnatRule : Type 0 where
  pub external_ip : ℕ
  pub external_port : ℕ
  pub internal_ip : ℕ
  pub internal_port : ℕ

-- `struct nat_table`: the interfaces by their index, and the external address.
pub record NatTable : Type 0 where
  pub nat_mapping_list : ℕ → List NatMapping
  pub internal_iface : ℕ
  pub external_iface : ℕ
  pub external_ip : ℕ
  pub assigned_ports : ℕ → Bool
  pub rules : List DnatRule

-- What the NAT reads and writes of a packet: addresses and ports in host order, and the sequence
-- numbers as they stand in the packet.
pub record TcpPacket : Type 0 where
  pub saddr : ℕ
  pub daddr : ℕ
  pub sport : ℕ
  pub dport : ℕ
  pub flags : ℕ
  pub seq : ℕ
  pub ack : ℕ

-- Of the eight bytes of `rmt_set_t`.
pub remote_hash : ℕ → ℕ → ℕ
remote_hash addr port = hash8 (
    addr / 2 ^ 24 % 256
    ∷ addr / 2 ^ 16 % 256
    ∷ addr / 2 ^ 8 % 256
    ∷ addr % 256
    ∷ port % 256
    ∷ port / 2 ^ 8 % 256
    ∷ 0
    ∷ 0
    ∷ [])

-- The loop of `assign_port`: the first of `n` ports from `i` on that is not assigned, or 0.
pub first_free : (ℕ → Bool) → ℕ → ℕ → ℕ
first_free used i zero = 0
first_free used i (suc n) = let rest = first_free used (suc i) n in if used i then rest else i

-- The flag is set only if the loop finds a port.
pub assign_port : NatTable → ℕ × NatTable
assign_port nat =
    let port = first_free nat.assigned_ports nat_port_min (nat_port_max - nat_port_min) in
    (
      port,
      (if port == 0
          then nat
          else record nat { assigned_ports = update nat.assigned_ports port true }),
    )

-- The last rule that matches decides.
pub check_rules : List DnatRule → NatMapping → NatMapping
check_rules [] m = m
check_rules (r ∷ rs) m = check_rules rs (
    if r.external_ip == m.external_ip && r.external_port == m.external_port
    then record m { internal_ip = r.internal_ip; internal_port = r.internal_port }
    else m)

abbrev pub blank_conn : NatConnection
blank_conn = record {
  internal_fin = 0;
  external_fin = 0;
  internal_seq_end = 0;
  external_seq_end = 0;
  internal_ack = 0;
  external_ack = 0;
}

-- The first mapping of the bucket that passes the test.
pub find : (NatMapping → Bool) → List NatMapping → Option NatMapping
find t [] = none
find t (m ∷ ms) = if t m then some m else find t ms

-- The bucket after the code has written to that mapping through its pointer.
pub write_first :
    (NatMapping → Bool) → (NatMapping → NatMapping) → List NatMapping → List NatMapping
write_first t f [] = []
write_first t f (m ∷ ms) = let rest = write_first t f ms in if t m then f m ∷ ms else m ∷ rest

-- `list_add_tail`
pub add_tail : List NatMapping → NatMapping → List NatMapping
add_tail [] m = m ∷ []
add_tail (x ∷ xs) m = x ∷ add_tail xs m

abbrev pub is_external : ℕ → ℕ → NatMapping → Bool
is_external ip port m = m.external_ip == ip && m.external_port == port

abbrev pub is_internal : ℕ → ℕ → NatMapping → Bool
is_internal ip port m = m.internal_ip == ip && m.internal_port == port

abbrev pub set_bucket : NatTable → ℕ → List NatMapping → NatTable
set_bucket nat h ms = record nat { nat_mapping_list = update nat.nat_mapping_list h ms }

-- What a packet from outside leaves in its mapping.
pub note_external : ℕ → TcpPacket → NatMapping → NatMapping
note_external now p m = record m {
  update_time = now;
  conn = record (m.conn) {
    external_fin = if p.flags == tcp_fin then tcp_fin else 0;
    external_seq_end = p.seq;
    external_ack = if p.flags == tcp_ack then p.ack else m.conn.external_ack;
  };
}

pub note_internal : ℕ → TcpPacket → NatMapping → NatMapping
note_internal now p m = record m {
  update_time = now;
  conn = record (m.conn) {
    internal_fin = if p.flags == tcp_fin then tcp_fin else 0;
    internal_seq_end = p.seq;
    internal_ack = if p.flags == tcp_ack then p.ack else m.conn.internal_ack;
  };
}

abbrev pub to_internal : NatMapping → TcpPacket → TcpPacket
to_internal m p = record p { daddr = m.internal_ip; dport = m.internal_port }

abbrev pub to_external : NatMapping → TcpPacket → TcpPacket
to_external m p = record p { saddr = m.external_ip; sport = m.external_port }

abbrev pub fresh_in : NatTable → TcpPacket → NatMapping
fresh_in nat p = check_rules nat.rules (record {
  internal_ip = 0;
  internal_port = 0;
  external_ip = p.daddr;
  external_port = p.dport;
  update_time = 0;
  conn = blank_conn;
})

abbrev pub fresh_out : NatTable → TcpPacket → ℕ → NatMapping
fresh_out nat p port = record {
  internal_ip = p.saddr;
  internal_port = p.sport;
  external_ip = nat.external_ip;
  external_port = port;
  update_time = 0;
  conn = blank_conn;
}

-- `do_translation`, by the direction, with the packet that is sent on.
pub translate_in : ℕ → TcpPacket → NatTable → NatTable × TcpPacket
translate_in now p nat =
    let h = remote_hash p.saddr p.sport in
    let ms = nat.nat_mapping_list h in
    elim (find (is_external p.daddr p.dport) ms) [
      | some m ↦ (
        set_bucket nat h (write_first (is_external p.daddr p.dport) (note_external now p) ms),
        to_internal m p,
      )
      | none ↦
          let m = fresh_in nat p in
          (set_bucket nat h (add_tail ms (note_external now p m)), to_internal m p)
    ]

pub translate_out : ℕ → TcpPacket → NatTable → NatTable × TcpPacket
translate_out now p nat =
    let h = remote_hash p.daddr p.dport in
    let ms = nat.nat_mapping_list h in
    elim (find (is_internal p.saddr p.sport) ms) [
      | some m ↦ (
        set_bucket nat h (write_first (is_internal p.saddr p.sport) (note_internal now p) ms),
        to_external m p,
      )
      | none ↦
          let (port, nat') = assign_port nat in
          let m = fresh_out nat p port in
          (set_bucket nat' h (add_tail ms (note_internal now p m)), to_external m p)
    ]

-- How a packet leaves the NAT; without a route to its source, the code reads through a null pointer.
pub data Translated : Type 0 where
  sent : TcpPacket → Translated
  unreachable dropped crashed : Translated

pub get_packet_direction : (ℕ → Option ℕ) → NatTable → TcpPacket → Option PacketDir
get_packet_direction route nat p = elim (route p.saddr) [
  | none ↦ none
  | some index ↦
      if index == nat.internal_iface
      then some dir_out
      else if index == nat.external_iface
      then some dir_in
      else some dir_invalid
]

-- Whether the packet's protocol is TCP comes beside it.
pub nat_translate_packet : (ℕ → Option ℕ) → ℕ → Bool → TcpPacket → NatTable → NatTable × Translated
nat_translate_packet route now is_tcp p nat = elim (get_packet_direction route nat p) [
  | none ↦ (nat, crashed)
  | some dir_invalid ↦ (nat, unreachable)
  | some dir_in ↦
      if is_tcp then (let (nat', q) = translate_in now p nat in (nat', sent q)) else (nat, dropped)
  | some dir_out ↦
      if is_tcp then (let (nat', q) = translate_out now p nat in (nat', sent q)) else (nat, dropped)
]
