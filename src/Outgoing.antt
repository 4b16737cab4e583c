-- ===== src/Outgoing.antt =====
-- `send_ipv4` of src/outgoing.c. The packet is changed in place, so the caller's memory is a
-- result.
pub mod Transport
pub mod Checksums
pub mod Header
pub mod Send
pub mod Keep
pub mod Untouched
mod Tests
use cs489_router.Prelude.{
  ℕ, ◌+◌, ◌-◌, ◌*◌, ◌%◌, ◌^◌, Option, none, some, List, [], ◌∷◌, ◌++◌, not, ◌==◌, if◌then◌else◌,
  byte_at, read_bytes, get_u16, set_u16, htons,
}
use cs489_router.Address.{IpAddr, create_subnet_mask, apply_mask, ip_addr_equals}
use cs489_router.Interfaces.{
  InterfaceConfig, Wan, int_side_lan, int_side_wan, int_type_ether, get_interface_for_ip,
  interface_get_side, interface_get_type, interface_get_mac_addr,
}
use cs489_router.Devices.{has_mac_for_ip, get_mac_from_ip}
use cs489_router.State.{Packet, Router, emit, ◌>>=◌}
use cs489_router.Arp.{ip_bytes, u16_bytes, ethernet_frame}
use cs489_router.Checksum.{calculate_checksum}
use cs489_router.Timer.{timer_add_packet}

-- The fields of `ipv4_hdr_t`, whose layout is packed.
unfoldable pub read_ip : List ℕ → ℕ → IpAddr
read_ip mem off = record {
  b0 = byte_at mem off;
  b1 = byte_at mem (off + 1);
  b2 = byte_at mem (off + 2);
  b3 = byte_at mem (off + 3);
}

-- `(pkt->ver_ihl & 0xF) * 4`, where the header of the transport layer begins.
unfoldable pub header_len : Packet → ℕ
header_len pkt = byte_at pkt 0 % 16 * 4

unfoldable pub total_length : Packet → ℕ
total_length pkt = htons (get_u16 pkt 2)

unfoldable pub protocol : Packet → ℕ
protocol pkt = byte_at pkt 9

unfoldable pub ip_src : Packet → IpAddr
unfolding read_ip
ip_src pkt = read_ip pkt 12

unfoldable pub ip_dst : Packet → IpAddr
unfolding read_ip
ip_dst pkt = read_ip pkt 16

-- `struct ip_pseudo_hdr`; `udp_length` as it lies in memory.
unfoldable pub pseudo_header : Packet → ℕ → List ℕ
pseudo_header pkt udp_length =
    ip_bytes (ip_src pkt) ++ (ip_bytes (ip_dst pkt) ++ (0 ∷ protocol pkt ∷ u16_bytes udp_length))

-- Where the fields of `udp_hdr_t` and `tcp_hdr_t` lie.
abbrev pub udp_length_at : ℕ
udp_length_at = 4

abbrev pub udp_checksum_at : ℕ
udp_checksum_at = 6

abbrev pub tcp_checksum_at : ℕ
tcp_checksum_at = 16

-- The header's own checksum.
unfoldable pub fill_header_checksum : Packet → Packet
fill_header_checksum pkt =
    let (pkt', checksum) = calculate_checksum (set_u16 pkt 10 0) 0 (header_len pkt) in
    set_u16 pkt' 10 checksum

-- The checksum of the transport layer at `field`: first the sum of the pseudo header, then that of
-- the `len` bytes from `start` on.
unfoldable pub fill_transport_checksum : Packet → ℕ → ℕ → ℕ → ℕ → List ℕ × ℕ
fill_transport_checksum pkt start field len udp_length =
    let pseudo_checksum = (calculate_checksum (pseudo_header pkt udp_length) 0 12).1 in
    calculate_checksum (set_u16 pkt field (0xffff - pseudo_checksum)) start len

unfoldable pub fill_udp_checksum : Packet → Packet
fill_udp_checksum pkt =
    let udp = header_len pkt in
    let udp_length = get_u16 pkt (udp + udp_length_at) in
    let (pkt', checksum) =
      fill_transport_checksum pkt udp (udp + udp_checksum_at) (htons udp_length) udp_length in
    if get_u16 pkt (udp + udp_checksum_at) == 0
    then pkt
    else set_u16 pkt' (udp + udp_checksum_at) (if checksum == 0 then 0xffff else checksum)

unfoldable pub fill_tcp_checksum : Packet → Packet
fill_tcp_checksum pkt =
    let tcp = header_len pkt in
    let tcp_len = (total_length pkt + 2 ^ 16 - tcp) % 2 ^ 16 in
    let (pkt', checksum) =
      fill_transport_checksum pkt tcp (tcp + tcp_checksum_at) tcp_len (htons tcp_len) in
    set_u16 pkt' (tcp + tcp_checksum_at) checksum

unfoldable pub fill_checksums : Packet → Packet
fill_checksums pkt =
    let pkt' = fill_header_checksum pkt in
    if protocol pkt' == 0x11
    then fill_udp_checksum pkt'
    else if protocol pkt' == 0x06
    then fill_tcp_checksum pkt'
    else pkt'

-- `local_dst_ip`; on the WAN the gateway stands for what is not on its network.
unfoldable pub local_dst_ip : Router → ℕ → IpAddr → Option IpAddr
local_dst_ip r int_id dst_ip =
    let wan = r.wan in
    let dst_masked = apply_mask (create_subnet_mask wan.cidr_prefix_len) dst_ip in
    if interface_get_side r.interfaces int_id == int_side_lan
    then some dst_ip
    else if interface_get_side r.interfaces int_id == int_side_wan
    then some (if ip_addr_equals dst_masked wan.network_ip then dst_ip else wan.gateway_ip)
    else none

-- The frame, or the packet's copy in the queue of the timer.
unfoldable pub transmit : Router → Packet → ℕ → IpAddr → Router
transmit r pkt int_id local_ip =
    let payload = read_bytes pkt 0 (total_length pkt) in
    let frame =
      ethernet_frame (get_mac_from_ip r.devices local_ip)
        (interface_get_mac_addr r.interfaces int_id) (htons 0x0800) payload in
    if not (has_mac_for_ip r.devices local_ip)
    then timer_add_packet r payload int_id local_ip
    else if interface_get_type r.interfaces int_id == int_type_ether
    then emit r int_id frame
    else r

unfoldable pub send_ipv4 : Router → Packet → Option (Router × Packet)
send_ipv4 r pkt = do
  int_id ← get_interface_for_ip r.interfaces (ip_dst pkt)
  let pkt' = fill_checksums pkt
  local_ip ← local_dst_ip r int_id (ip_dst pkt)
  some (transmit r pkt' int_id local_ip, pkt')
