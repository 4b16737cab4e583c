-- ===== src/Outgoing/Tests.antt =====
-- A UDP and a TCP packet from the LAN to a host of the Internet.
use cs489_router.Prelude.{◌≡◌, refl, arith, some, read_bytes, AllSmall, AreBytes-AllSmall}
use cs489_router.Address.{ip_addr_equals, apply_mask, create_subnet_mask}
use cs489_router.Interfaces.{
  interface_arr, wan_initial, get_interface_for_ip, interface_get_type, interface_get_side,
}
use cs489_router.Devices.{empty_map}
use cs489_router.Devices.Table.{known}
use cs489_router.State.{Router}
use cs489_router.Sample.{idle, udp_packet}
use cs489_router.Checksum.{calculate_checksum}
use cs489_router.Timer.Queue.{timetable}
use cs489_router.Outgoing.{read_ip, ip_dst, header_len, total_length, fill_checksums, send_ipv4}
use cs489_router.Outgoing.Header.{fill_checksums-verifies}
use cs489_router.Outgoing.Send.{IsSent, by_gateway, send_ipv4-IsSent}

udp_packet-AllSmall : AllSmall udp_packet
udp_packet-AllSmall = AreBytes-AllSmall udp_packet (omega arith)

fill_checksums-verifies_example :
    (calculate_checksum (fill_checksums udp_packet) 0 (header_len udp_packet)).1 ≡ 0
unfolding header_len
fill_checksums-verifies_example =
    fill_checksums-verifies udp_packet udp_packet-AllSmall (omega arith) (omega arith)

to_internet : get_interface_for_ip interface_arr (ip_dst udp_packet) ≡ some 1
unfolding get_interface_for_ip apply_mask create_subnet_mask ip_addr_equals ip_dst read_ip
to_internet = refl

-- The gateway's hardware address is not known yet, so the packet waits for it.
send_ipv4-IsSent_example :
    (r' : Router) × (send_ipv4 idle udp_packet ≡ some (r', fill_checksums udp_packet))
    × IsSent idle 1 wan_initial.gateway_ip
        (read_bytes (fill_checksums udp_packet) 0 (total_length (fill_checksums udp_packet)))
        (known empty_map wan_initial.gateway_ip)
        r'
unfolding timetable ip_dst read_ip interface_get_type interface_get_side
send_ipv4-IsSent_example =
    send_ipv4-IsSent idle udp_packet 1 wan_initial.gateway_ip to_internet refl (omega arith)
      (omega arith) (by_gateway refl (λ e. absurd (omega (arith, e)))) tt
