-- ===== src/Resolve.antt =====
-- What the answer of a host sets off: `timer_update_packets` of src/timer.c and `arp_handle` of
-- src/arp.c.
pub mod Answer
pub mod Delivery
mod Tests
use cs489_router.Prelude.{ℕ, Option, none, some, List, [], ◌∷◌, not, ◌==◌, if◌then◌else◌, htons}
use cs489_router.Address.{IpAddr, zero_ip, ip_addr_equals}
use cs489_router.Devices.{IpMacPair, update_ip_mac_pair}
use cs489_router.State.{Packet, DeltaNode, Router, ◌>>=◌}
use cs489_router.Arp.{ArpHdr}
use cs489_router.Timer.{remove_node, timer_after_remove}
use cs489_router.Outgoing.{send_ipv4}

-- The loop over the packets of the removed node. Each is freed when it was sent.
unfoldable pub send_all : List Packet → Router → Option Router
send_all [] r = some r
send_all (pkt ∷ pkts) r = send_ipv4 r pkt >>= λ sent. send_all pkts sent.0

-- What follows the search for the node.
unfoldable pub release : Router → IpAddr → ℕ → Option (DeltaNode × List DeltaNode) → Option Router
release r dst left none = some r
release r dst left (some (node, rest)) =
    send_all node.pkt_list
      (record r { delta_list = rest; timer = timer_after_remove r.timer r.delta_list dst left })

-- `left` is the `tv_nsec` that `timer_gettime` gives.
unfoldable pub timer_update_packets : Router → IpAddr → ℕ → Option Router
timer_update_packets r dst left = release r dst left (remove_node r.delta_list dst)

unfoldable pub learn : Router → IpMacPair → Router
learn r pair = record r { devices = update_ip_mac_pair r.fresh_pair r.devices pair }

-- The last test of `arp_handle` has nothing behind it.
unfoldable pub arp_handle : Router → ArpHdr → ℕ → Option Router
arp_handle r pkt left =
    let sender_pair : IpMacPair = record { ip_addr = pkt.sender_ip; mac_addr = pkt.sender_mac } in
    if not (htons pkt.protocol_type == 0x0800)
    then some r
    else if not (htons pkt.hardware_type == 0x0001)
    then some r
    else if ip_addr_equals pkt.sender_ip zero_ip
    then some r
    else timer_update_packets (learn r sender_pair) pkt.sender_ip left
