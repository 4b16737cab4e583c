-- ===== src/Ethernet/Firewall.antt =====
-- The IPv4 frames that go no further.
use cs489_router.Prelude.{
  ℕ, ◌≡◌, ◌≢◌, refl, inl, inr, true, false, none, some, List, drop, get_u16, htons, ==_refl, ≢→==,
  Bool-cases,
}
use cs489_router.Address.{ip_addr_equals}
use cs489_router.Interfaces.{
  int_side_wan, get_interface_for_ip, interface_get_side, interface_get_ip,
}
use cs489_router.Devices.{IpMacPair}
use cs489_router.Hashmap.Table.{stored}
use cs489_router.State.{Packet, Router}
use cs489_router.Outgoing.{ip_dst, protocol}
use cs489_router.Resolve.{learn}
use cs489_router.Napt.{has_ports, is_local_broadcast, napt_inc_handle, route_from_lan, ipv4_handle}
use cs489_router.Napt.Incoming.{IsFree, from_extern, napt_inc_handle-unknown}
use cs489_router.Ethernet.{ethertype_ipv4, header_size, ethernet_handle}
use cs489_router.Ethernet.Outbound.{sender_of}

-- What the router does not let through.
pub data IsUnwanted (r : Router) (pkt : Packet) (int_id : ℕ) : Type 0 where
  -- a broadcast
  broadcast : is_local_broadcast pkt ≡ true → IsUnwanted r pkt int_id
  -- from the WAN, for another address than the router's own
  foreign :
      interface_get_side r.interfaces int_id ≡ int_side_wan
      → ip_addr_equals (ip_dst pkt) (interface_get_ip r.interfaces int_id) ≡ false
      → IsUnwanted r pkt int_id
  -- from the WAN, and neither TCP nor UDP
  portless :
      interface_get_side r.interfaces int_id ≡ int_side_wan
      → has_ports (protocol pkt) ≡ false
      → IsUnwanted r pkt int_id
  -- from the WAN, and nobody of the LAN began the flow
  unknown :
      interface_get_side r.interfaces int_id ≡ int_side_wan
      → IsFree r.napt_extern 9
      → stored r.napt_extern (from_extern pkt) ≡ some none
      → IsUnwanted r pkt int_id
  -- from the LAN, with a route back to where it came from
  local :
      interface_get_side r.interfaces int_id ≢ int_side_wan
      → get_interface_for_ip r.interfaces (ip_dst pkt) ≡ some int_id
      → IsUnwanted r pkt int_id

napt_inc_handle-portless :
    (r : Router) (pkt : Packet)
    → has_ports (protocol pkt) ≡ false
    → napt_inc_handle r pkt ≡ some (r, pkt)
unfolding napt_inc_handle
napt_inc_handle-portless r pkt ports = rw ports refl

-- On the WAN, what the translation leaves alone is dropped.
dropped-wan :
    (rands : List ℕ) (r : Router) (pkt : Packet) (int_id : ℕ)
    → interface_get_side r.interfaces int_id ≡ int_side_wan
    → napt_inc_handle r pkt ≡ some (r, pkt)
    → ipv4_handle rands r pkt int_id ≡ some (r, pkt)
unfolding ipv4_handle
dropped-wan rands r pkt int_id side left_alone = elim (Bool-cases (is_local_broadcast pkt)) [
  | inl all ↦ rw all refl
  | inr not_all ↦
      rw (not_all, side)
        (elim (Bool-cases (ip_addr_equals (ip_dst pkt) (interface_get_ip r.interfaces int_id))) [
          | inl own ↦ rw own left_alone
          | inr other ↦ rw other refl
        ])
]

ipv4_handle-drops :
    (rands : List ℕ) (r : Router) (pkt : Packet) (int_id : ℕ)
    → IsUnwanted r pkt int_id
    → ipv4_handle rands r pkt int_id ≡ some (r, pkt)
unfolding ipv4_handle route_from_lan
ipv4_handle-drops rands r pkt int_id (broadcast all) = rw all refl
ipv4_handle-drops rands r pkt int_id (foreign side other) =
    elim (Bool-cases (is_local_broadcast pkt)) [
      | inl all ↦ rw all refl
      | inr not_all ↦ rw (not_all, side, other) refl
    ]
ipv4_handle-drops rands r pkt int_id (portless side ports) =
    dropped-wan rands r pkt int_id side (napt_inc_handle-portless r pkt ports)
ipv4_handle-drops rands r pkt int_id (unknown side ready miss) =
    dropped-wan rands r pkt int_id side (elim (Bool-cases (has_ports (protocol pkt))) [
      | inl ports ↦ napt_inc_handle-unknown r pkt ports ready miss
      | inr ports ↦ napt_inc_handle-portless r pkt ports
    ])
ipv4_handle-drops rands r pkt int_id (local side route) =
    elim (Bool-cases (is_local_broadcast pkt)) [
      | inl all ↦ rw all refl
      | inr not_all ↦ rw (not_all, ≢→== _ _ side, route, ==_refl int_id) refl
    ]

learn-IsUnwanted :
    (r : Router) (pair : IpMacPair) (pkt : Packet) (int_id : ℕ)
    → IsUnwanted r pkt int_id
    → IsUnwanted (learn r pair) pkt int_id
unfolding learn
learn-IsUnwanted r pair pkt int_id (broadcast all) = broadcast all
learn-IsUnwanted r pair pkt int_id (foreign side other) = foreign side other
learn-IsUnwanted r pair pkt int_id (portless side ports) = portless side ports
learn-IsUnwanted r pair pkt int_id (unknown side ready miss) = unknown side ready miss
learn-IsUnwanted r pair pkt int_id (local side route) = local side route

-- An IPv4 frame with a packet that is a broadcast; or that came from the WAN and is for another
-- address than the router's own, or neither TCP nor UDP, or of a flow that the external table does
-- not hold, where that table keeps its invariant and its mutex is free; or that came from the LAN
-- and has its route through the interface that it came in on: `ethernet_handle` returns, nothing
-- was sent or set to wait, and the state has changed in one respect only, that the sender's
-- hardware address is noted.
pub ethernet_handle-drops :
    (rands : List ℕ) (left : ℕ) (r : Router) (frame : List ℕ) (int_id : ℕ)
    → htons (get_u16 frame 12) ≡ ethertype_ipv4
    → IsUnwanted r (drop header_size frame) int_id
    → ethernet_handle rands left r frame int_id ≡ some (learn r (sender_of frame))
unfolding ethernet_handle
ethernet_handle-drops rands left r frame int_id ipv4 unwanted =
    rw
      (
        ipv4,
        ipv4_handle-drops rands (learn r (sender_of frame)) (drop header_size frame) int_id
            (learn-IsUnwanted r (sender_of frame) (drop header_size frame) int_id unwanted),
      )
      refl
