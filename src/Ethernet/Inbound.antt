-- ===== src/Ethernet/Inbound.antt =====
-- A frame from the WAN with an answer to a translated packet, through all the handlers.
use mathlib.Core.Path.{subst}
use cs489_router.Prelude.{
  ◌+◌, arith, ℕ, ◌≡◌, ◌∙◌, sym, ap, true, false, some, List, drop, get_u16, htons, read_bytes,
}
use cs489_router.Address.{IpAddr, ip_addr_equals}
use cs489_router.Address.Laws.{IsIp}
use cs489_router.Interfaces.{
  int_side_lan, int_side_wan, int_type_ether, get_interface_for_ip, interface_get_side,
  interface_get_type, interface_get_ip,
}
use cs489_router.Interfaces.Route.{IsConfig}
use cs489_router.Devices.{IpMacPair}
use cs489_router.Devices.Table.{known}
use cs489_router.State.{Packet, Router, OnSuccess}
use cs489_router.Timer.Keep.{Keeps}
use cs489_router.Outgoing.Keep.{send_ipv4-Keeps}
use cs489_router.Timer.Queue.{IsQueue}
use cs489_router.Outgoing.{
  header_len, ip_src, ip_dst, protocol, total_length, fill_checksums, send_ipv4,
}
use cs489_router.Outgoing.Send.{wan_network, on_lan, IsSent, send_ipv4-IsSent}
use cs489_router.Outgoing.Untouched.{IsChecked, fill_checksums-IsChecked}
use cs489_router.Resolve.{learn}
use cs489_router.Napt.{has_ports, port_src, is_local_broadcast, napt_inc_handle, ipv4_handle}
use cs489_router.Napt.Rewrite.{header_len-same, IsWhole, IsReturned}
use cs489_router.Napt.Entries.{AreStored, to_extern, to_intern, flow_entry}
use cs489_router.Napt.Incoming.{IsFree, twice_unlocked}
use cs489_router.Napt.Answer.{IsAnswer, napt_inc_handle-answer}
use cs489_router.Ethernet.{ethertype_ipv4, header_size, ethernet_handle}
use cs489_router.Ethernet.Outbound.{sender_of}

-- A packet that came in on an interface of the WAN, for this interface's address.
pub record ArrivesOnWan (r : Router) (pkt : Packet) (int_id : ℕ) : Type 0 where
  pub unicast : is_local_broadcast pkt ≡ false
  pub side : interface_get_side r.interfaces int_id ≡ int_side_wan
  pub own : ip_addr_equals (ip_dst pkt) (interface_get_ip r.interfaces int_id) ≡ true

-- An address with a route to an Ethernet interface of the LAN.
pub record IsOnLan (r : Router) (host : IpAddr) (out : ℕ) : Type 0 where
  pub is_ip : IsIp host
  pub route : get_interface_for_ip r.interfaces host ≡ some out
  pub ether : interface_get_type r.interfaces out ≡ int_type_ether
  pub side : interface_get_side r.interfaces out ≡ int_side_lan

-- The router once the sender is noted and the flow is looked up.
abbrev pub answered : Router → IpMacPair → Router
answered r pair = twice_unlocked (learn r pair)

send-answered :
    (r : Router) (pair : IpMacPair) (pkt' : Packet) (host : IpAddr) (out : ℕ)
    → IsOnLan r host out
    → ip_dst pkt' ≡ host
    → IsConfig (wan_network r.wan)
    → IsQueue r.delta_list
    → (r' : Router) × (send_ipv4 (answered r pair) pkt' ≡ some (r', fill_checksums pkt'))
      × IsSent
          (answered r pair)
          out
          host
          (read_bytes (fill_checksums pkt') 0 (total_length (fill_checksums pkt')))
          (known (answered r pair).devices host)
          r'
unfolding learn
send-answered r pair pkt' host out lan same config queue =
    subst
      (λ dst.
        (r' : Router) × (send_ipv4 (answered r pair) pkt' ≡ some (r', fill_checksums pkt'))
        × IsSent (answered r pair) out dst
            (read_bytes (fill_checksums pkt') 0 (total_length (fill_checksums pkt')))
            (known (answered r pair).devices dst) r')
      same
      (send_ipv4-IsSent (answered r pair) pkt' out (ip_dst pkt')
        (ap (get_interface_for_ip r.interfaces) same ∙ lan.route) lan.ether config
        (subst IsIp (sym same) lan.is_ip) (on_lan lan.side) queue)

answer-run :
    (rands : List ℕ) (r : Router) (pair : IpMacPair) (pkt : Packet) (int_id : ℕ)
    → ArrivesOnWan r pkt int_id
    → ipv4_handle rands (learn r pair) pkt int_id ≡ napt_inc_handle (learn r pair) pkt
unfolding ipv4_handle learn
answer-run rands r pair pkt int_id arrives = rw (arrives.unicast, arrives.side, arrives.own)

-- In a state whose tables hold the flow that a router `before` stored for a packet, with the external
-- table's mutex free, a delta list as the timer keeps it and a WAN network of at most 24 bits: when a
-- frame comes from the WAN with an answer to the packet, of TCP or UDP and whole, to the router's own
-- address, and the first packet came from a host of the LAN, then `ethernet_handle` returns. It has
-- noted the sender and unlocked the external table once more than it was locked, and sent the answer,
-- with the address and port that the first packet came from as its destination and its other bytes
-- as they were, but for the checksums, which are filled in, and a zero behind data of an odd length.
-- The answer is cut to its length and leaves in a frame to the host if its hardware address is
-- known, and otherwise goes to the packets that wait for it. The interfaces, the WAN, the table of
-- hardware addresses and the translation tables are then as they were noted.
pub ethernet_handle-answers :
    (rands : List ℕ) (left : ℕ) (before r : Router) (pkt : Packet) (port : ℕ) (frame : List ℕ)
    (int_id out : ℕ)
    → htons (get_u16 frame 12) ≡ ethertype_ipv4
    → ArrivesOnWan r (drop header_size frame) int_id
    → before.napt_extern.size_key ≡ 9
    → AreStored before.napt_extern before.napt_intern r.napt_extern r.napt_intern
        (to_extern pkt port)
        (to_intern pkt)
        (flow_entry before pkt port)
    → IsFree r.napt_extern 9
    → IsAnswer pkt port (drop header_size frame)
    → IsWhole (drop header_size frame)
    → has_ports (protocol (drop header_size frame)) ≡ true
    → IsOnLan r (ip_src pkt) out
    → IsConfig (wan_network r.wan)
    → IsQueue r.delta_list
    → let answer = drop header_size frame in
      (r' : Router) × (pkt' : Packet) × (ethernet_handle rands left r frame int_id ≡ some r')
      × IsReturned answer (ip_src pkt) (port_src pkt) pkt'
      × IsChecked pkt' (fill_checksums pkt')
      × IsSent
          (answered r (sender_of frame))
          out
          (ip_src pkt)
          (read_bytes (fill_checksums pkt') 0 (total_length (fill_checksums pkt')))
          (known (answered r (sender_of frame)).devices (ip_src pkt))
          r'
      × Keeps (answered r (sender_of frame)) r'
unfolding ethernet_handle
ethernet_handle-answers rands left before r pkt port frame int_id out ipv4 arrives keys held ready
      answers whole ports lan config queue =
    let (pkt', run, flow) =
      napt_inc_handle-answer before (learn r (sender_of frame)) pkt (drop header_size frame) port
        keys (unfold learn in held) (unfold learn in ready) answers whole ports in
    let (r', send, sent) =
      send-answered r (sender_of frame) pkt' (ip_src pkt) out lan flow.0.destination config queue in
    (
      r',
      pkt',
      rw (
        ipv4,
        answer-run rands r (sender_of frame) (drop header_size frame) int_id arrives,
        run,
        send,
      ),
      flow,
      fill_checksums-IsChecked pkt' (
          omega (
            arith,
            whole.header,
            header_len-same answer pkt' 16 (header_len answer + 2) flow.1 (omega arith)
                (omega arith),
          )),
      sent,
      subst
          (OnSuccess
            (λ (out_sent : Router × Packet). Keeps (answered r (sender_of frame)) out_sent.0))
          send (send_ipv4-Keeps (answered r (sender_of frame)) pkt'),
    )
  where
    answer : Packet
    answer = drop header_size frame
