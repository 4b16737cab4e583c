-- ===== src/Ethernet.antt =====
-- `ethernet_handle` of src/ethernet.c: a frame that an interface received.
pub mod Outbound
pub mod Inbound
pub mod Conversation
pub mod Firewall
pub mod First
mod Tests
use cs489_router.Prelude.{
  ℕ, ◌+◌, Option, none, some, List, ◌==◌, if◌then◌else◌, byte_at, drop, get_u16, htons, write_bytes,
}
use cs489_router.Address.{MacAddr}
use cs489_router.Devices.{IpMacPair}
use cs489_router.State.{Packet, Router, ◌>>=◌}
use cs489_router.Arp.{ArpHdr}
use cs489_router.Outgoing.{read_ip, ip_src}
use cs489_router.Resolve.{learn, arp_handle}
use cs489_router.Napt.{ipv4_handle}

abbrev pub ethertype_ipv4 : ℕ
ethertype_ipv4 = 0x0800

abbrev pub ethertype_arp : ℕ
ethertype_arp = 0x0806

-- `sizeof(ethernet_hdr_t)`
abbrev pub header_size : ℕ
header_size = 14

unfoldable pub read_mac : List ℕ → ℕ → MacAddr
read_mac mem off = record {
  m0 = byte_at mem off;
  m1 = byte_at mem (off + 1);
  m2 = byte_at mem (off + 2);
  m3 = byte_at mem (off + 3);
  m4 = byte_at mem (off + 4);
  m5 = byte_at mem (off + 5);
}

-- `arp_hdr_t` in memory.
unfoldable pub read_arp : List ℕ → ArpHdr
read_arp mem = record {
  hardware_type = get_u16 mem 0;
  protocol_type = get_u16 mem 2;
  hardware_length = byte_at mem 4;
  protocol_length = byte_at mem 5;
  operation = get_u16 mem 6;
  sender_mac = read_mac mem 8;
  sender_ip = read_ip mem 14;
  target_mac = read_mac mem 18;
  target_ip = read_ip mem 24;
}

-- `rands` and `left` are what `rand()` and `timer_gettime` give while the frame is handled.
unfoldable pub ethernet_handle : List ℕ → ℕ → Router → List ℕ → ℕ → Option Router
ethernet_handle rands left r frame int_id =
    let ethertype = htons (get_u16 frame 12) in
    let payload = drop header_size frame in
    let sender_pair : IpMacPair = record {
      ip_addr = ip_src payload;
      mac_addr = read_mac frame 6;
    } in
    let as_ipv4 =
      ipv4_handle rands (learn r sender_pair) payload int_id >>= λ handled. some handled.0 in
    if ethertype == ethertype_ipv4
    then as_ipv4
    else if ethertype == ethertype_arp
    then arp_handle r (read_arp payload) left
    else some r

-- The packet is handled where it lies in the frame's memory, so it is rewritten there.
unfoldable pub rewritten_frame : List ℕ → Option (Router × Packet) → List ℕ
rewritten_frame frame none = frame
rewritten_frame frame (some (r, pkt)) = write_bytes frame header_size pkt

-- What the frame's memory holds after `ethernet_handle`.
unfoldable pub frame_after : List ℕ → Router → List ℕ → ℕ → List ℕ
unfolding rewritten_frame
frame_after rands r frame int_id =
    let payload = drop header_size frame in
    let sender_pair : IpMacPair = record {
      ip_addr = ip_src payload;
      mac_addr = read_mac frame 6;
    } in
    let handled = rewritten_frame frame (ipv4_handle rands (learn r sender_pair) payload int_id) in
    if htons (get_u16 frame 12) == ethertype_ipv4 then handled else frame
