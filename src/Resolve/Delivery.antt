-- ===== src/Resolve/Delivery.antt =====
-- The packets that an ARP answer sets free reach the wire.
use mathlib.Core.Path.{subst}
use cs489_router.Prelude.{
  ℕ, ◌≡◌, ◌∙◌, refl, sym, ap, ap₂, false, some, List, [], ◌∷◌, ◌++◌, append_assoc, append-nil, All,
  htons, read_bytes,
}
use cs489_router.Address.{IpAddr, MacAddr, zero_ip, ip_addr_equals}
use cs489_router.Address.Laws.{IsIp, ip_addr_equals_refl}
use cs489_router.Interfaces.{
  int_type_ether, get_interface_for_ip, interface_get_type, interface_get_mac_addr,
}
use cs489_router.Interfaces.Route.{IsConfig}
use cs489_router.Devices.Table.{IsValid, known}
use cs489_router.State.{Packet, Frame, Router, emit}
use cs489_router.Arp.{ArpHdr, mac_bytes}
use cs489_router.Timer.Queue.{waiting, IsQueue}
use cs489_router.Outgoing.{ip_dst, total_length, fill_checksums, send_ipv4}
use cs489_router.Outgoing.Send.{wan_network, IsNextHop, IsNextHop-same, IsSent, send_ipv4-IsSent}
use cs489_router.Resolve.{send_all, arp_handle}
use cs489_router.Resolve.Answer.{arp_handle-IsReleased}

-- A packet whose route is an Ethernet interface and whose next hop is `hop`.
pub record IsFor (r : Router) (hop : IpAddr) (pkt : Packet) : Type 0 where
  pub out : ℕ
  pub route : get_interface_for_ip r.interfaces (ip_dst pkt) ≡ some out
  pub ether : interface_get_type r.interfaces out ≡ int_type_ether
  pub is_ip : IsIp (ip_dst pkt)
  pub next : IsNextHop r out (ip_dst pkt) hop

-- The frame that a packet leaves in: cut to its length, with its checksums filled in.
unfoldable pub frame_of : Router → MacAddr → ℕ → Packet → Frame
frame_of r mac out pkt =
    let sent_pkt = fill_checksums pkt in
    record {
      int_id = out;
      bytes =
          mac_bytes mac
          ++ (mac_bytes (interface_get_mac_addr r.interfaces out)
              ++ (0x08 ∷ 0x00 ∷ read_bytes sent_pkt 0 (total_length sent_pkt)));
    }

unfoldable pub frames_of :
    (r : Router) (hop : IpAddr)
    → MacAddr
    → (pkts : List Packet) → All (IsFor r hop) pkts
    → List Frame
frames_of r hop mac [] routed = []
frames_of r hop mac (pkt ∷ pkts) routed =
    frame_of r mac routed.0.out pkt ∷ frames_of r hop mac pkts routed.1

module _ (r : Router) (hop : IpAddr) (mac : MacAddr) (config : IsConfig (wan_network r.wan))
    (queue : IsQueue r.delta_list) (resolved : known r.devices hop ≡ some mac) where
  send-frame :
      (sent : List Frame) (pkt : Packet) (routed : IsFor r hop pkt)
      → send_ipv4 (record r { sent = sent }) pkt
        ≡ some
            (record r { sent = sent ++ (frame_of r mac routed.out pkt ∷ []) }, fill_checksums pkt)
  unfolding emit frame_of
  send-frame sent pkt routed =
      let (r', run, is_sent) =
        send_ipv4-IsSent (record r { sent = sent }) pkt routed.out hop routed.route routed.ether
          config routed.is_ip
          (IsNextHop-same r (record r { sent = sent }) routed.out (ip_dst pkt) hop refl refl
            routed.next)
          queue in
      run
      ∙ ap (λ r1. some (r1, fill_checksums pkt))
          (subst
            (λ k.
              IsSent (record r { sent = sent }) routed.out hop
                (read_bytes (fill_checksums pkt) 0 (total_length (fill_checksums pkt))) k r')
            resolved is_sent)

  send_all-frames :
      (pkts : List Packet) (sent : List Frame) (routed : All (IsFor r hop) pkts)
      → send_all pkts (record r { sent = sent })
        ≡ some (record r { sent = sent ++ frames_of r hop mac pkts routed })
  unfolding send_all frames_of
  send_all-frames [] sent routed = ap (λ s. some (record r { sent = s })) (sym (append-nil sent))
  send_all-frames (pkt ∷ pkts) sent routed = rw (send-frame sent pkt routed.0) (
      send_all-frames pkts (sent ++ (frame_of r mac routed.0.out pkt ∷ [])) routed.1
      ∙ ap (λ s. some (record r { sent = s })) (append_assoc sent _ _))

-- The routes of packets in a router with the same interfaces and WAN.
IsFor-same :
    (r r' : Router) (hop : IpAddr) (pkts : List Packet)
    → r'.interfaces ≡ r.interfaces
    → r'.wan ≡ r.wan
    → All (IsFor r hop) pkts
    → All (IsFor r' hop) pkts
IsFor-same r r' hop [] same_ifs same_wan routed = tt
IsFor-same r r' hop (pkt ∷ pkts) same_ifs same_wan (one, more) = (
  record {
    out = one.out;
    route = ap (λ ifs. get_interface_for_ip ifs (ip_dst pkt)) same_ifs ∙ one.route;
    ether = ap (λ ifs. interface_get_type ifs one.out) same_ifs ∙ one.ether;
    is_ip = one.is_ip;
    next = IsNextHop-same r r' one.out (ip_dst pkt) hop same_ifs same_wan one.next;
  },
  IsFor-same r r' hop pkts same_ifs same_wan more,
)

frames_of-same :
    (r r' : Router) (hop : IpAddr) (mac : MacAddr) (pkts : List Packet)
    (same_ifs : r'.interfaces ≡ r.interfaces) (same_wan : r'.wan ≡ r.wan)
    (routed : All (IsFor r hop) pkts)
    → frames_of r' hop mac pkts (IsFor-same r r' hop pkts same_ifs same_wan routed)
      ≡ frames_of r hop mac pkts routed
unfolding frames_of frame_of IsFor-same interface_get_mac_addr read_bytes
frames_of-same r r' hop mac [] same_ifs same_wan routed = refl
frames_of-same r r' hop mac (pkt ∷ pkts) same_ifs same_wan (one, more) =
    rw (same_ifs, frames_of-same r r' hop mac pkts same_ifs same_wan more)

-- If an ARP packet for Ethernet and IPv4 has a sender address that is not zero, the table of
-- hardware addresses and the delta list keep their invariants, the WAN network has at most 24 bits,
-- and the sender is the next hop of each packet that waits for it, on an Ethernet interface: then
-- `arp_handle` returns, and it has sent each of these packets in a frame to the sender's hardware
-- address, cut to its length and with its checksums filled in, the oldest first, and nothing else.
-- No packet waits for the sender any more.
pub arp_handle-delivers :
    (r : Router) (pkt : ArpHdr) (left : ℕ)
    → htons pkt.protocol_type ≡ 0x0800
    → htons pkt.hardware_type ≡ 0x0001
    → ip_addr_equals pkt.sender_ip zero_ip ≡ false
    → IsValid r.devices
    → IsQueue r.delta_list
    → IsConfig (wan_network r.wan)
    → (routed : All (IsFor r pkt.sender_ip) (waiting r.delta_list pkt.sender_ip))
    → (r' : Router) × (arp_handle r pkt left ≡ some r')
      × (r'.sent
          ≡ r.sent
            ++ frames_of r pkt.sender_ip pkt.sender_mac (waiting r.delta_list pkt.sender_ip) routed)
      × (waiting r'.delta_list pkt.sender_ip ≡ [])
arp_handle-delivers r pkt left ipv4 ethernet sender valid queue config routed =
    let (r1, run, knows, packets, queue1, sent_same, ifs_same, wan_same) =
      arp_handle-IsReleased r pkt left ipv4 ethernet sender valid queue in
    let pkts = waiting r.delta_list pkt.sender_ip in
    let routed1 = IsFor-same r r1 pkt.sender_ip pkts ifs_same wan_same routed in
    (
      record r1 { sent = r1.sent ++ frames_of r1 pkt.sender_ip pkt.sender_mac pkts routed1 },
      run
          ∙ send_all-frames r1 pkt.sender_ip pkt.sender_mac
              (subst (λ wan. IsConfig (wan_network wan)) (sym wan_same) config) queue1
              (knows pkt.sender_ip ∙ rw (ip_addr_equals_refl pkt.sender_ip)) pkts r1.sent routed1,
      ap₂ ◌++◌ sent_same
          (frames_of-same r r1 pkt.sender_ip pkt.sender_mac pkts ifs_same wan_same routed),
      packets pkt.sender_ip ∙ rw (ip_addr_equals_refl pkt.sender_ip),
    )
