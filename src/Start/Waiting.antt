-- ===== src/Start/Waiting.antt =====
-- A run from the start: a datagram waits for the hardware address of the gateway.
use cs489_router.Prelude.{true, ◌≡◌, refl, some, [], ◌∷◌, arith}
use cs489_router.Address.{zero_ip, zero_mac}
use cs489_router.Interfaces.{wan_initial}
use cs489_router.Devices.{IpMacPair}
use cs489_router.State.{Router}
use cs489_router.Sample.{idle}
use cs489_router.Napt.{napt_init}
use cs489_router.Ethernet.{ethernet_handle}
use cs489_router.Ethernet.Outbound.{ethernet_handle-translates}
use cs489_router.Ethernet.First.{
  udp_frame, udp_frame_type, udp_packet-IsFirst, udp_packet-LeavesLan, idle-IsConfig, to_gateway,
  idle-IsQueue,
}
use cs489_router.Run.{received, Reaches, started, went}
use cs489_router.Start.{configure, globals, boot}

abbrev pub no_pair : IpMacPair
no_pair = record { ip_addr = zero_ip; mac_addr = zero_mac }

pub boots_idle : boot no_pair 0 [] ≡ some idle
unfolding boot configure globals napt_init
boots_idle = refl

abbrev pub waiting_router : Router
waiting_router =
    (ethernet_handle-translates 0 [] 1 idle udp_frame 0 1 wan_initial.gateway_ip udp_frame_type
      udp_packet-LeavesLan udp_packet-IsFirst idle-IsConfig to_gateway idle-IsQueue).0

waits : ethernet_handle (0 ∷ []) 1 idle udp_frame 0 ≡ some waiting_router
waits =
    (ethernet_handle-translates 0 [] 1 idle udp_frame 0 1 wan_initial.gateway_ip udp_frame_type
      udp_packet-LeavesLan udp_packet-IsFirst idle-IsConfig to_gateway idle-IsQueue).4

pub datagram_waits : Reaches true idle waiting_router
datagram_waits = went started (received (0 ∷ []) 1 udp_frame 0 (omega arith) waits)
