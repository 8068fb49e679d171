-- ===== src/Ospf/Handler.antt =====
-- The handler of IP packets: ip.c of EXP12-mOSPF/code/12-mopsf. Echo replies and forwarding are in the
-- prebuilt libipstack, so they are outcomes.
pub mod Arrive
mod Tests
use ucas_computer_network.Common.{
  ℕ, Option, none, some, List, if◌then◌else◌, leb, ◌==◌, length, get_or,
}
use ucas_computer_network.Icmp.{hdr_size, protocol, daddr, ipproto_icmp, icmp_echorequest}
use ucas_computer_network.Ospf.{OspfIface, Router, Lsu}
use ucas_computer_network.Ospf.Packets.{mospf_allspfrouters, ipproto_mospf, handle_mospf_packet}

-- `failed` is a failed assertion, a read beyond the packet or a write beyond an array.
pub data IpHandled : Type 0 where
  failed : IpHandled
  ignored : IpHandled
  replied : List ℕ → IpHandled
  forward : ℕ → List ℕ → IpHandled
  routed : Router → List Lsu → IpHandled

pub of_mospf : Option (Router × List Lsu) → IpHandled
of_mospf none = failed
of_mospf (some (r, out)) = routed r out

-- On the interface `i` that lies between others, in the area `area_id`.
pub handle_ip_packet : ℕ → Router → List OspfIface → OspfIface → List OspfIface → List ℕ → IpHandled
handle_ip_packet area_id r before i after p =
    if daddr p == i.ip
    then (if protocol p == ipproto_icmp
        then (if leb (length p) (hdr_size p)
            then failed
            else (if get_or p (hdr_size p) 0 == icmp_echorequest then replied p else ignored))
        else (if protocol p == ipproto_mospf
            then of_mospf (handle_mospf_packet area_id r before i after p)
            else ignored))
    else (if daddr p == mospf_allspfrouters
        then (if protocol p == ipproto_mospf
            then of_mospf (handle_mospf_packet area_id r before i after p)
            else failed)
        else forward (daddr p) p)
