-- ===== src/Outgoing/Send.antt =====
-- `send_ipv4`: the next hop, and the frame or the queue.
use mathlib.Core.Path.{subst}
use cs489_router.Prelude.{
  ℕ, ◌≡◌, ◌∙◌, sym, ap, inl, inr, Option, none, some, List, ◌∷◌, ◌++◌, Bool-cases, htons,
  read_bytes,
}
use cs489_router.Address.{IpAddr, MacAddr, ip_addr_equals, apply_mask, create_subnet_mask}
use cs489_router.Address.Laws.{IsIp}
use cs489_router.Interfaces.{
  InterfaceConfig, no_config, Wan, int_side_lan, int_side_wan, int_type_ether, get_interface_for_ip,
  interface_get_side, interface_get_type, interface_get_mac_addr,
}
use cs489_router.Interfaces.Route.{Covers, IsConfig, matches→Covers, not_matches→not_Covers}
use cs489_router.Devices.{has_mac_for_ip}
use cs489_router.Devices.Table.{known}
use cs489_router.State.{Packet, Router, emit}
use cs489_router.Arp.{mac_bytes, ethernet_frame}
use cs489_router.Timer.Queue.{IsQueue}
use cs489_router.Timer.Add.{IsAdded, timer_add_packet-IsAdded}
use cs489_router.Outgoing.{ip_dst, total_length, fill_checksums, local_dst_ip, transmit, send_ipv4}

-- The network that the WAN interface is connected to, as a row of the routing table.
abbrev pub wan_network : Wan → InterfaceConfig
wan_network wan = record no_config {
  network_ip = wan.network_ip;
  cidr_prefix_len = wan.cidr_prefix_len;
}

-- Who a packet that leaves on an interface is sent to: its destination, or the gateway of the WAN
-- if the destination is not on the network there.
pub data IsNextHop (r : Router) (int_id : ℕ) (dst : IpAddr) : IpAddr → Type 0 where
  on_lan : interface_get_side r.interfaces int_id ≡ int_side_lan → IsNextHop r int_id dst dst
  on_wan :
      interface_get_side r.interfaces int_id ≡ int_side_wan
      → Covers (wan_network r.wan) dst
      → IsNextHop r int_id dst dst
  by_gateway :
      interface_get_side r.interfaces int_id ≡ int_side_wan
      → ¬ Covers (wan_network r.wan) dst
      → IsNextHop r int_id dst r.wan.gateway_ip

-- Only the interfaces and the WAN matter for it.
pub IsNextHop-same :
    (r r' : Router) (int_id : ℕ) (dst hop : IpAddr)
    → r'.interfaces ≡ r.interfaces
    → r'.wan ≡ r.wan
    → IsNextHop r int_id dst hop
    → IsNextHop r' int_id dst hop
IsNextHop-same r r' int_id dst hop same_ifs same_wan (on_lan side) =
    on_lan (ap (λ ifs. interface_get_side ifs int_id) same_ifs ∙ side)
IsNextHop-same r r' int_id dst hop same_ifs same_wan (on_wan side covers) =
    on_wan (ap (λ ifs. interface_get_side ifs int_id) same_ifs ∙ side)
      (subst (λ wan. Covers (wan_network wan) dst) (sym same_wan) covers)
IsNextHop-same r r' int_id dst hop same_ifs same_wan (by_gateway side far) =
    subst (λ gateway. IsNextHop r' int_id dst gateway) (ap (λ wan. wan.gateway_ip) same_wan)
      (by_gateway (ap (λ ifs. interface_get_side ifs int_id) same_ifs ∙ side)
        (subst (λ wan. ¬ Covers (wan_network wan) dst) (sym same_wan) far))

local_dst_ip-IsNextHop :
    (r : Router) (int_id : ℕ) (dst hop : IpAddr)
    → IsConfig (wan_network r.wan)
    → IsIp dst
    → IsNextHop r int_id dst hop
    → local_dst_ip r int_id dst ≡ some hop
unfolding local_dst_ip
local_dst_ip-IsNextHop r int_id dst hop config ip (on_lan side) = rw side
local_dst_ip-IsNextHop r int_id dst hop config ip (on_wan side covers) =
    rw side
      (elim (Bool-cases (
        ip_addr_equals (apply_mask (create_subnet_mask r.wan.cidr_prefix_len) dst)
          r.wan.network_ip)) [
            | inl same ↦ rw same
            | inr differ ↦
                absurd (not_matches→not_Covers (wan_network r.wan) dst config ip differ covers)
          ])
local_dst_ip-IsNextHop r int_id dst hop config ip (by_gateway side far) =
    rw side
      (elim (Bool-cases (
        ip_addr_equals (apply_mask (create_subnet_mask r.wan.cidr_prefix_len) dst)
          r.wan.network_ip)) [
            | inl same ↦ absurd (far (matches→Covers (wan_network r.wan) dst config ip same))
            | inr differ ↦ rw differ
          ])

-- A frame to a hardware address that is known, and otherwise a place in the queue of the timer.
abbrev pub IsSent : Router → ℕ → IpAddr → List ℕ → Option MacAddr → Router → Type 0
IsSent r int_id hop payload (some mac) r' =
    r'
    ≡ emit r int_id (
        mac_bytes mac
        ++ (mac_bytes (interface_get_mac_addr r.interfaces int_id) ++ (0x08 ∷ 0x00 ∷ payload)))
IsSent r int_id hop payload none r' = IsAdded r payload int_id hop r'

transmit-IsSent :
    (r : Router) (pkt : Packet) (int_id : ℕ) (hop : IpAddr)
    → IsQueue r.delta_list
    → interface_get_type r.interfaces int_id ≡ int_type_ether
    → IsSent r int_id hop
        (read_bytes pkt 0 (total_length pkt))
        (known r.devices hop)
        (transmit r pkt int_id hop)
unfolding transmit ethernet_frame htons
transmit-IsSent r pkt int_id hop queue ether = elim (Bool-cases (has_mac_for_ip r.devices hop)) [
  | inl has ↦ rw (has, ether)
  | inr unknown ↦
      rw unknown (timer_add_packet-IsAdded r (read_bytes pkt 0 (total_length pkt)) int_id hop queue)
]

-- For a destination with an Ethernet interface, a WAN network of at most 24 bits, and a delta list
-- as `timer_add_packet` keeps it, `send_ipv4` returns and leaves the packet with its checksums
-- filled in. If the hardware address of the next hop is known then the packet, cut to its length,
-- leaves on that interface in a frame for it; otherwise it is added to the packets that wait for
-- the next hop.
pub send_ipv4-IsSent :
    (r : Router) (pkt : Packet) (int_id : ℕ) (hop : IpAddr)
    → get_interface_for_ip r.interfaces (ip_dst pkt) ≡ some int_id
    → interface_get_type r.interfaces int_id ≡ int_type_ether
    → IsConfig (wan_network r.wan)
    → IsIp (ip_dst pkt)
    → IsNextHop r int_id (ip_dst pkt) hop
    → IsQueue r.delta_list
    → (r' : Router) × (send_ipv4 r pkt ≡ some (r', fill_checksums pkt))
      × IsSent r int_id hop
          (read_bytes (fill_checksums pkt) 0 (total_length (fill_checksums pkt)))
          (known r.devices hop)
          r'
unfolding send_ipv4
send_ipv4-IsSent r pkt int_id hop route ether config ip next queue = (
  transmit r (fill_checksums pkt) int_id hop,
  rw (route, local_dst_ip-IsNextHop r int_id (ip_dst pkt) hop config ip next),
  transmit-IsSent r (fill_checksums pkt) int_id hop queue ether,
)
