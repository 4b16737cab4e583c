-- ===== src/Outgoing/Checksums.antt =====
-- The three checksums of `send_ipv4`.
use cs489_router.Prelude.{
  ℕ, ◌+◌, ◌-◌, ◌*◌, ◌%◌, ◌^◌, ◌≤◌, ◌≡◌, arith, length, byte_at, get_u16, set_u16, AllSmall,
}
use cs489_router.State.{Packet}
use cs489_router.Checksum.{calculate_checksum}
use cs489_router.Checksum.Sum.{set_u16-AllSmall, get_u16-set_u16_self, length-set_u16}
use cs489_router.Checksum.Verify.{calculate_checksum-verifies}
use cs489_router.Outgoing.{header_len, total_length, fill_header_checksum}

-- For a packet of bytes that holds its whole header, of at least 12 bytes,
-- `fill_header_checksum` makes `calculate_checksum` of the header 0.
pub fill_header_checksum-verifies :
    (pkt : Packet)
    → AllSmall pkt
    → 12 ≤ header_len pkt
    → header_len pkt ≤ length pkt
    → (calculate_checksum (fill_header_checksum pkt) 0 (header_len pkt)).1 ≡ 0
unfolding fill_header_checksum header_len
fill_header_checksum-verifies pkt small long room = rw words (
    calculate_checksum-verifies (set_u16 pkt 10 0) 0 (2 * (byte_at pkt 0 % 16)) 5
      (set_u16-AllSmall pkt 10 0 small) (omega arith) (omega arith)
      (omega (arith, length-set_u16 pkt 10 0))
      (get_u16-set_u16_self pkt 10 0 (omega arith) (omega arith)))
  where
    words : byte_at pkt 0 % 16 * 4 ≡ 2 * (2 * (byte_at pkt 0 % 16))
    words = omega arith

-- The length of the TCP segment, as `send_ipv4` computes it.
abbrev pub tcp_length : Packet → ℕ
tcp_length pkt = (total_length pkt + 2 ^ 16 - header_len pkt) % 2 ^ 16

-- The length field of a UDP datagram, as it lies in memory.
abbrev pub udp_length : Packet → ℕ
udp_length pkt = get_u16 pkt (header_len pkt + 4)
