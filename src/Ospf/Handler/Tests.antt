-- ===== src/Ospf/Handler/Tests.antt =====
-- Packets between two routers.
use ucas_computer_network.Common.{◌≡◌, refl, List, [], ◌∷◌, arith, All, true}
use ucas_computer_network.Icmp.{ip_init_hdr, with_checksum}
use ucas_computer_network.Ospf.{Nbr, OspfIface, Router, Lsu, known_nbr, handle_mospf_lsu}
use ucas_computer_network.Ospf.Neighbours.{Counted}
use ucas_computer_network.Ospf.Packets.{hello_packet, lsu_packet}
use ucas_computer_network.Ospf.Packets.Header.{InitsHeader}
use ucas_computer_network.Ospf.Handler.{routed, of_mospf, handle_ip_packet}
use ucas_computer_network.Ospf.Handler.Arrive.{hello-heard, lsu-arrives}

-- The function of the later stacks.
inits : InitsHeader (ip_init_hdr 7)
unfolding ip_init_hdr with_checksum
inits s d len proto hs hd = record {
  size = refl;
  version_ihl = refl;
  source = omega (arith, hs);
  target = omega (arith, hd);
  protocol = refl;
}

abbrev nbr : Nbr
nbr = record { nbr_id = 3; nbr_ip = 0x0a000103; nbr_mask = 0xffffff00; alive = 15 }

abbrev sender : OspfIface
sender = record { ip = 0x0a000102; mask = 0xffffff00; helloint = 5; num_nbr = 0; nbr_list = [] }

abbrev receiver : OspfIface
receiver = record {
  ip = 0x0a000101;
  mask = 0xffffff00;
  helloint = 5;
  num_nbr = 1;
  nbr_list = nbr ∷ [];
}

abbrev router : Router
router = record {
  router_id = 0x0a000101;
  sequence_num = 8;
  ifaces = receiver ∷ sender ∷ [];
  db = [];
}

hello_example :
    (r' : Router) × (out : List Lsu) × (i' : OspfIface) × (handle_ip_packet 0 router [] receiver
        (sender ∷ [])
        (hello_packet (ip_init_hdr 7) 0x0a000102 sender)
      ≡ routed r' out)
    × (r'.ifaces ≡ i' ∷ sender ∷ [])
    × (known_nbr 0x0a000102 i'.nbr_list ≡ true)
    × All Counted r'.ifaces
hello_example =
    hello-heard (ip_init_hdr 7) 0x0a000102 sender router [] (sender ∷ []) receiver inits
      (omega arith) (omega arith) (omega arith) tt refl (refl, tt)

abbrev lsu : Lsu
lsu = record {
  saddr = 0x0a000102;
  daddr = 0x0a000101;
  rid = 0x0a000102;
  seq = 5;
  ttl = 255;
  lsas = record { network = 0x0a000100; mask = 0xffffff00; rid = 0x0a000101 } ∷ [];
}

lsu_example :
    handle_ip_packet 0 router [] receiver (sender ∷ []) (lsu_packet (ip_init_hdr 7) 0 lsu)
    ≡ of_mospf (handle_mospf_lsu router lsu)
lsu_example =
    lsu-arrives (ip_init_hdr 7) 0 lsu router [] (sender ∷ []) receiver inits (omega arith)
      (record {
        source = omega arith;
        target = omega arith;
        router = omega arith;
        seq_fits = omega arith;
        ttl_fits = omega arith;
        lsas_fit = ((omega arith, omega arith, omega arith), tt);
        size = omega arith;
      })
      refl
