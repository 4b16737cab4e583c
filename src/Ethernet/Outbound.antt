-- ===== src/Ethernet/Outbound.antt =====
-- A frame from the LAN with the first packet of a flow to the Internet, through all the handlers.
use mathlib.Core.Path.{subst}
use cs489_router.Prelude.{
  arith, ℕ, ◌/◌, ◌<◌, ◌≡◌, ◌≢◌, ◌∙◌, refl, sym, ap, true, false, none, some, List, ◌∷◌, drop,
  get_u16, htons, read_bytes, ◌==◌, ≢→==, AllSmall,
}
use cs489_router.Address.{IpAddr}
use cs489_router.Address.Laws.{IsIp}
use cs489_router.Interfaces.{
  int_side_lan, int_side_wan, int_type_ether, get_interface_for_ip, interface_get_side,
  interface_get_type, interface_get_ip, interface_get_wan_id,
}
use cs489_router.Interfaces.Route.{IsConfig}
use cs489_router.Devices.{IpMacPair}
use cs489_router.Devices.Table.{known}
use cs489_router.Hashmap.{Hashmap}
use cs489_router.Hashmap.Table.{stored}
use cs489_router.State.{Packet, Router, OnSuccess}
use cs489_router.Timer.Queue.{IsQueue}
use cs489_router.Outgoing.{
  read_ip, header_len, ip_src, ip_dst, protocol, total_length, fill_checksums, send_ipv4,
}
use cs489_router.Outgoing.Keep.{IsSent-IsQueue, send_ipv4-Keeps}
use cs489_router.Timer.Keep.{Keeps}
use cs489_router.Outgoing.Send.{wan_network, IsNextHop, IsNextHop-same, IsSent, send_ipv4-IsSent}
use cs489_router.Resolve.{learn}
use cs489_router.Napt.{
  has_ports, random_port, new_entry, is_local_broadcast, route_from_lan, napt_out_handle,
  ipv4_handle,
}
use cs489_router.Napt.Rewrite.{IsWhole, header_len-same}
use cs489_router.Outgoing.Untouched.{IsChecked, fill_checksums-IsChecked}
use cs489_router.Napt.Entries.{AreTables, AreStored, to_extern, to_intern, flow_entry}
use cs489_router.Napt.Leaving.{IsForwarded, napt_out_handle-new}
use cs489_router.Ethernet.{ethertype_ipv4, header_size, read_mac, ethernet_handle}

-- The first packet of a flow of TCP or UDP, and tables that have room for it.
pub record IsFirst (r : Router) (pkt : Packet) (port : ℕ) : Type 0 where
  pub ports : has_ports (protocol pkt) ≡ true
  pub whole : IsWhole pkt
  pub bytes : AllSmall pkt
  pub public_ip : IsIp (interface_get_ip r.interfaces interface_get_wan_id)
  pub tables : AreTables r.napt_extern r.napt_intern
  pub intern_free : r.napt_intern.lock.locked ≡ false
  pub extern_free : r.napt_extern.lock.locked ≡ false
  pub extern_room : r.napt_extern.size < r.napt_extern.size_allocated / 2
  pub intern_room : r.napt_intern.size < r.napt_intern.size_allocated / 2
  pub port_unused : stored r.napt_extern (to_extern pkt port) ≡ some none
  pub unknown : stored r.napt_intern (to_intern pkt) ≡ some none

-- A packet that came in on an interface of the LAN and whose route is an Ethernet of another side.
pub record LeavesLan (r : Router) (pkt : Packet) (int_id out : ℕ) : Type 0 where
  pub unicast : is_local_broadcast pkt ≡ false
  pub inside : (interface_get_side r.interfaces int_id == int_side_wan) ≡ false
  pub route : get_interface_for_ip r.interfaces (ip_dst pkt) ≡ some out
  pub another : out ≢ int_id
  pub outside : (interface_get_side r.interfaces out == int_side_lan) ≡ false
  pub ether : interface_get_type r.interfaces out ≡ int_type_ether

-- The sender, as `arp.c` and `ethernet.c` note it.
abbrev pub sender_of : List ℕ → IpMacPair
sender_of frame = record { ip_addr = ip_src (drop header_size frame); mac_addr = read_mac frame 6 }

-- The router once the sender is noted and the flow is stored.
abbrev pub noted : Router → IpMacPair → Hashmap → Hashmap → Router
noted r pair extern intern = record (learn r pair) { napt_extern = extern; napt_intern = intern }

module _ (r : Router) (pair : IpMacPair) (extern intern : Hashmap) (out : ℕ) where
  -- The translated packet, to the same destination.
  send-noted :
      (pkt pkt' : Packet) (hop : IpAddr)
      → ip_dst pkt' ≡ ip_dst pkt
      → get_interface_for_ip r.interfaces (ip_dst pkt) ≡ some out
      → interface_get_type r.interfaces out ≡ int_type_ether
      → IsConfig (wan_network r.wan)
      → IsIp (ip_dst pkt)
      → IsNextHop r out (ip_dst pkt) hop
      → IsQueue r.delta_list
      → (r' : Router) × (send_ipv4 (noted r pair extern intern) pkt'
          ≡ some (r', fill_checksums pkt'))
        × IsSent
            (noted r pair extern intern)
            out
            hop
            (read_bytes (fill_checksums pkt') 0 (total_length (fill_checksums pkt')))
            (known (noted r pair extern intern).devices hop)
            r'
  unfolding learn
  send-noted pkt pkt' hop same route ether config is_ip next queue =
      send_ipv4-IsSent (noted r pair extern intern) pkt' out hop
        (ap (get_interface_for_ip r.interfaces) same ∙ route) ether config
        (subst IsIp (sym same) is_ip)
        (subst (λ dst. IsNextHop (noted r pair extern intern) out dst hop) (sym same)
          (IsNextHop-same r (noted r pair extern intern) out (ip_dst pkt) hop refl refl next))
        queue

ip_dst-IsIp : (pkt : Packet) → AllSmall pkt → IsIp (ip_dst pkt)
unfolding ip_dst read_ip
ip_dst-IsIp pkt small = (small 16, small 17, small 18, small 19)

-- What a packet that leaves does not change, and that the router is ready for the next.
abbrev pub IsLeft : Router → Router → Type 0
IsLeft before r' =
    Keeps before r'
    × IsQueue r'.delta_list
    × (before.napt_extern.lock.locked ≡ false)
    × (before.napt_intern.lock.locked ≡ false)

-- What `napt_out_handle` makes of the packet, once the sender is noted.
translate :
    (rand : ℕ) (rands : List ℕ) (r : Router) (pair : IpMacPair) (pkt : Packet)
    → IsFirst r pkt (random_port rand)
    → (extern intern : Hashmap) × (pkt' : Packet) × (napt_out_handle
          (rand ∷ rands)
          (learn r pair)
          pkt
        ≡ send_ipv4 (noted r pair extern intern) pkt')
      × IsForwarded r pkt (random_port rand) pkt'
      × AreStored r.napt_extern r.napt_intern extern intern
          (to_extern pkt (random_port rand))
          (to_intern pkt)
          (flow_entry r pkt (random_port rand))
      × (extern.lock.locked ≡ false)
      × (intern.lock.locked ≡ false)
unfolding learn new_entry
translate rand rands r pair pkt first =
    napt_out_handle-new rand rands (learn r pair) pkt first.ports first.whole first.bytes
      first.public_ip first.tables first.intern_free first.extern_free first.extern_room
      first.intern_room first.port_unused first.unknown

ipv4_handle-translates :
    (rands : List ℕ) (r : Router) (pair : IpMacPair) (pkt : Packet) (int_id out : ℕ)
    → LeavesLan r pkt int_id out
    → ipv4_handle rands (learn r pair) pkt int_id ≡ napt_out_handle rands (learn r pair) pkt
unfolding ipv4_handle route_from_lan learn
ipv4_handle-translates rands r pair pkt int_id out leaves =
    rw (leaves.unicast, leaves.inside, leaves.route, ≢→== out int_id leaves.another, leaves.outside)

-- A frame with an IPv4 packet that leaves the LAN, the first of its flow, with a delta list as the
-- timer keeps it and a WAN network of at most 24 bits: if the first random port is free then
-- `ethernet_handle` returns. It has noted the sender, stored the flow in both tables, and sent the
-- packet, with the public address and that port as its source and its other bytes as they were, but
-- for the checksums, which are filled in, and a zero behind data of an odd length. The packet is cut
-- to its length and leaves on the route's interface in a frame to the next hop if its hardware
-- address is known, and otherwise goes to the packets that wait for it. The delta list stays as the
-- timer keeps it, and the mutexes of the tables are free.
pub ethernet_handle-translates :
    (rand : ℕ) (rands : List ℕ) (left : ℕ) (r : Router) (frame : List ℕ) (int_id out : ℕ)
    (hop : IpAddr)
    → htons (get_u16 frame 12) ≡ ethertype_ipv4
    → LeavesLan r (drop header_size frame) int_id out
    → IsFirst r (drop header_size frame) (random_port rand)
    → IsConfig (wan_network r.wan)
    → IsNextHop r out (ip_dst (drop header_size frame)) hop
    → IsQueue r.delta_list
    → let pkt = drop header_size frame in
      (r' : Router) × (extern intern : Hashmap) × (pkt' : Packet) × (ethernet_handle
          (rand ∷ rands)
          left
          r
          frame
          int_id
        ≡ some r')
      × IsForwarded r pkt (random_port rand) pkt'
      × IsChecked pkt' (fill_checksums pkt')
      × AreStored r.napt_extern r.napt_intern extern intern
          (to_extern pkt (random_port rand))
          (to_intern pkt)
          (flow_entry r pkt (random_port rand))
      × IsSent
          (noted r (sender_of frame) extern intern)
          out
          hop
          (read_bytes (fill_checksums pkt') 0 (total_length (fill_checksums pkt')))
          (known (noted r (sender_of frame) extern intern).devices hop)
          r'
      × IsLeft (noted r (sender_of frame) extern intern) r'
unfolding ethernet_handle
ethernet_handle-translates rand rands left r frame int_id out hop ipv4 leaves first config next
      queue =
    let (extern, intern, pkt', run, forwarded, held, free, free') =
      translate rand rands r (sender_of frame) pkt first in
    let (r', send, sent) =
      send-noted r (sender_of frame) extern intern out pkt pkt' hop forwarded.0.destination
        leaves.route leaves.ether config (ip_dst-IsIp pkt first.bytes) next queue in
    (
      r',
      extern,
      intern,
      pkt',
      rw (
        ipv4,
        ipv4_handle-translates (rand ∷ rands) r (sender_of frame) pkt int_id out leaves,
        run,
        send,
      ),
      forwarded,
      fill_checksums-IsChecked pkt' (
          omega (
            arith,
            first.whole.header,
            header_len-same pkt pkt' 12 (header_len pkt) forwarded.1 (omega arith)
                (omega (arith, first.whole.header)),
          )),
      held,
      sent,
      (
        subst
            (OnSuccess (λ (out_sent : Router × Packet).
              Keeps (noted r (sender_of frame) extern intern) out_sent.0))
            send (send_ipv4-Keeps (noted r (sender_of frame) extern intern) pkt'),
        IsSent-IsQueue (noted r (sender_of frame) extern intern) out hop _ _ r'
            (unfold learn in queue) sent,
        free,
        free',
      ),
    )
  where
    pkt : Packet
    pkt = drop header_size frame
