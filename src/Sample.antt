-- ===== src/Sample.antt =====
-- Test data: a router that has just started, hosts of its LAN, and packets.
use cs489_router.Prelude.{[], ◌∷◌}
use cs489_router.Address.{IpAddr, zero_ip, zero_mac}
use cs489_router.Interfaces.{interface_arr, wan_initial}
use cs489_router.Devices.{empty_map}
use cs489_router.Hashmap.{hashmap_init}
use cs489_router.State.{Packet, Router, disarmed}
use cs489_router.Napt.{napt_extern_key_hash, napt_intern_key_hash}

abbrev pub printer : IpAddr
printer = record { b0 = 192; b1 = 168; b2 = 1; b3 = 7 }

abbrev pub laptop : IpAddr
laptop = record { b0 = 192; b1 = 168; b2 = 1; b3 = 100 }

-- A datagram and a segment from the laptop to the Internet, another datagram from another port to
-- the same place, and an answer to the first from there to port 1024 of the router.
abbrev pub udp_packet : Packet
udp_packet =
    69 ∷ 0 ∷ 0 ∷ 30 ∷ 0 ∷ 1 ∷ 0 ∷ 0 ∷ 64 ∷ 17 ∷ 0 ∷ 0 ∷ 192 ∷ 168 ∷ 1 ∷ 100 ∷ 8 ∷ 8 ∷ 8 ∷ 8 ∷ 48
    ∷ 57 ∷ 0 ∷ 53 ∷ 0 ∷ 10 ∷ 18 ∷ 52 ∷ 7 ∷ 9 ∷ []

abbrev pub tcp_packet : Packet
tcp_packet =
    69 ∷ 0 ∷ 0 ∷ 41 ∷ 0 ∷ 1 ∷ 0 ∷ 0 ∷ 64 ∷ 6 ∷ 0 ∷ 0 ∷ 192 ∷ 168 ∷ 1 ∷ 100 ∷ 8 ∷ 8 ∷ 8 ∷ 8 ∷ 48 ∷ 57
    ∷ 0 ∷ 80 ∷ 0 ∷ 0 ∷ 0 ∷ 1 ∷ 0 ∷ 0 ∷ 0 ∷ 2 ∷ 80 ∷ 24 ∷ 1 ∷ 0 ∷ 0 ∷ 0 ∷ 0 ∷ 0 ∷ 65 ∷ 0 ∷ []

abbrev pub other_packet : Packet
other_packet =
    69 ∷ 0 ∷ 0 ∷ 30 ∷ 0 ∷ 1 ∷ 0 ∷ 0 ∷ 64 ∷ 17 ∷ 0 ∷ 0 ∷ 192 ∷ 168 ∷ 1 ∷ 100 ∷ 8 ∷ 8 ∷ 8 ∷ 8 ∷ 64
    ∷ 57 ∷ 0 ∷ 53 ∷ 0 ∷ 10 ∷ 18 ∷ 52 ∷ 7 ∷ 9 ∷ []

abbrev pub answer_packet : Packet
answer_packet =
    69 ∷ 0 ∷ 0 ∷ 30 ∷ 0 ∷ 1 ∷ 0 ∷ 0 ∷ 64 ∷ 17 ∷ 0 ∷ 0 ∷ 8 ∷ 8 ∷ 8 ∷ 8 ∷ 192 ∷ 168 ∷ 0 ∷ 2 ∷ 0 ∷ 53
    ∷ 4 ∷ 0 ∷ 0 ∷ 10 ∷ 18 ∷ 52 ∷ 7 ∷ 9 ∷ []

abbrev pub idle : Router
idle = record {
  interfaces = interface_arr;
  wan = wan_initial;
  devices = empty_map;
  fresh_pair = record { ip_addr = zero_ip; mac_addr = zero_mac };
  delta_list = [];
  timer = disarmed;
  napt_extern = hashmap_init napt_extern_key_hash 9 24 0;
  napt_intern = hashmap_init napt_intern_key_hash 7 24 0;
  sent = [];
  dropped = [];
}
