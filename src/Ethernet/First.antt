-- ===== src/Ethernet/First.antt =====
-- The first datagram of the laptop to the Internet, as an idle router receives it in a frame.
use cs489_router.Prelude.{ℕ, ◌≡◌, refl, arith, List, ◌∷◌, get_u16, htons}
use cs489_router.Address.{ip_addr_equals, apply_mask, create_subnet_mask}
use cs489_router.Interfaces.{
  get_interface_for_ip, interface_get_side, interface_get_type, interface_get_ip, wan_initial,
}
use cs489_router.Interfaces.Route.{IsConfig}
use cs489_router.Sample.{idle, udp_packet, answer_packet}
use cs489_router.Timer.Queue.{timetable, IsQueue}
use cs489_router.Outgoing.{read_ip, ip_src, ip_dst}
use cs489_router.Outgoing.Send.{wan_network, IsNextHop, by_gateway}
use cs489_router.Napt.{is_local_broadcast, random_port}
use cs489_router.Napt.Held.{translating}
use cs489_router.Ethernet.Inbound.{ArrivesOnWan, IsOnLan}
use cs489_router.Napt.Idle.{
  udp_packet-IsWhole, udp_packet-AllSmall, public-IsIp, idle_tables, no_extern, no_intern,
  idle_light, idle_free, is_udp,
}
use cs489_router.Ethernet.{ethertype_ipv4}
use cs489_router.Ethernet.Outbound.{IsFirst, LeavesLan}

abbrev pub udp_frame : List ℕ
udp_frame = 2 ∷ 0 ∷ 0 ∷ 0 ∷ 0 ∷ 1 ∷ 2 ∷ 0 ∷ 0 ∷ 0 ∷ 0 ∷ 100 ∷ 8 ∷ 0 ∷ udp_packet

pub udp_frame_type : htons (get_u16 udp_frame 12) ≡ ethertype_ipv4
unfolding htons get_u16
udp_frame_type = refl

pub udp_packet-IsFirst : IsFirst idle udp_packet (random_port 0)
udp_packet-IsFirst = record {
  ports = is_udp;
  whole = udp_packet-IsWhole;
  bytes = udp_packet-AllSmall;
  public_ip = public-IsIp;
  tables = idle_tables;
  intern_free = idle_free.0;
  extern_free = idle_free.1;
  extern_room = idle_light.0;
  intern_room = idle_light.1;
  port_unused = no_extern udp_packet 1024;
  unknown = no_intern udp_packet;
}

pub udp_packet-LeavesLan : LeavesLan idle udp_packet 0 1
unfolding is_local_broadcast get_interface_for_ip apply_mask create_subnet_mask ip_addr_equals
    ip_dst read_ip interface_get_side interface_get_type
udp_packet-LeavesLan = record {
  unicast = refl;
  inside = refl;
  route = refl;
  another = λ e. absurd (omega (arith, e));
  outside = refl;
  ether = refl;
}

pub idle-IsConfig : IsConfig (wan_network idle.wan)
idle-IsConfig = (omega arith, (omega arith, omega arith, omega arith, omega arith))

pub to_gateway : IsNextHop idle 1 (ip_dst udp_packet) wan_initial.gateway_ip
unfolding ip_dst read_ip interface_get_side
to_gateway = by_gateway refl (λ e. absurd (omega (arith, e)))

pub idle-IsQueue : IsQueue idle.delta_list
unfolding timetable
idle-IsQueue = tt

-- The answer to it, in a frame from the WAN.
abbrev pub answer_frame : List ℕ
answer_frame = 2 ∷ 0 ∷ 0 ∷ 0 ∷ 0 ∷ 2 ∷ 2 ∷ 0 ∷ 0 ∷ 0 ∷ 0 ∷ 1 ∷ 8 ∷ 0 ∷ answer_packet

pub answer_frame_type : htons (get_u16 answer_frame 12) ≡ ethertype_ipv4
unfolding htons get_u16
answer_frame_type = refl

pub answer_packet-ArrivesOnWan : ArrivesOnWan translating answer_packet 1
unfolding is_local_broadcast ip_addr_equals ip_dst read_ip interface_get_side interface_get_ip
answer_packet-ArrivesOnWan = record { unicast = refl; side = refl; own = refl }

pub laptop-IsOnLan : IsOnLan translating (ip_src udp_packet) 0
unfolding get_interface_for_ip apply_mask create_subnet_mask ip_addr_equals ip_src read_ip
    interface_get_side interface_get_type
laptop-IsOnLan = record {
  is_ip = (omega arith, omega arith, omega arith, omega arith);
  route = refl;
  ether = refl;
  side = refl;
}
