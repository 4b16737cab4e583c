-- ===== src/Dhcp.antt =====
-- src/dhcp.c and include/dhcp.h: the lease table and the messages of the DHCP server.
pub mod Leases
pub mod Pool
pub mod Messages
pub mod Serve
pub mod Exchange
pub mod Refusal
mod Tests
use cs489_router.Prelude.{
  ℕ, zero, suc, ◌+◌, ◌-◌, ◌*◌, ◌/◌, ◌%◌, ◌^◌, Bool, true, false, ◌&&◌, ◌||◌, not, Option, none,
  some, List, [], ◌∷◌, ◌++◌, ltb, leb, ◌==◌, if◌then◌else◌, byte_at, read_bytes, write_bytes, set,
  replicate, length,
}

abbrev pub max_leases : ℕ
max_leases = 10

abbrev pub buffer_size : ℕ
buffer_size = 1024

abbrev pub option_message_type : ℕ
option_message_type = 53

abbrev pub option_requested_ip : ℕ
option_requested_ip = 50

abbrev pub option_lease_time : ℕ
option_lease_time = 51

abbrev pub option_subnet_mask : ℕ
option_subnet_mask = 1

abbrev pub option_router : ℕ
option_router = 3

abbrev pub option_dns : ℕ
option_dns = 6

abbrev pub dhcp_discover : ℕ
dhcp_discover = 1

abbrev pub dhcp_offer : ℕ
dhcp_offer = 2

abbrev pub dhcp_request : ℕ
dhcp_request = 3

abbrev pub dhcp_ack : ℕ
dhcp_ack = 5

abbrev pub dhcp_nak : ℕ
dhcp_nak = 6

abbrev pub dhcp_end : ℕ
dhcp_end = 255

-- `s_addr` is the number that the little-endian host reads from the four bytes of an address:
-- `inet_aton` of "a.b.c.d", and the bytes of such a number.
unfoldable pub s_addr : ℕ → ℕ → ℕ → ℕ → ℕ
s_addr a b c d = a + b * 2 ^ 8 + c * 2 ^ 16 + d * 2 ^ 24

unfoldable pub addr_bytes : ℕ → List ℕ
addr_bytes v = v % 256 ∷ v / 2 ^ 8 % 256 ∷ v / 2 ^ 16 % 256 ∷ v / 2 ^ 24 % 256 ∷ []

-- `htonl` and `ntohl` swap the four bytes.
unfoldable pub htonl : ℕ → ℕ
htonl v = v % 256 * 2 ^ 24 + v / 2 ^ 8 % 256 * 2 ^ 16 + v / 2 ^ 16 % 256 * 2 ^ 8 + v / 2 ^ 24 % 256

-- `dhcp_lease_t`. Nothing writes its `mac`, which stays zero.
pub record Lease : Type 0 where
  pub ip : ℕ
  pub lease_start : ℕ
  pub lease_expiry : ℕ
  pub allocated : Bool

abbrev pub free_lease : Lease
free_lease = record { ip = 0; lease_start = 0; lease_expiry = 0; allocated = false }

-- The globals of the server, and the messages that it has broadcast.
pub record Server : Type 0 where
  pub lease_table : List Lease
  pub pool_start : ℕ
  pub pool_end : ℕ
  pub sent : List (List ℕ)

-- `init_dhcp_pool`
abbrev pub initial_server : Server
initial_server = record {
  lease_table = replicate max_leases free_lease;
  pool_start = 192 + 168 * 2 ^ 8 + 1 * 2 ^ 16 + 100 * 2 ^ 24;
  pool_end = 192 + 168 * 2 ^ 8 + 1 * 2 ^ 16 + 110 * 2 ^ 24;
  sent = [];
}

unfoldable pub is_ip_in_pool : Server → ℕ → Bool
is_ip_in_pool s ip = leb s.pool_start ip && leb ip s.pool_end

-- `now` is `time(NULL)`, the same for the whole of one message.
unfoldable pub available_loop : ℕ → List Lease → ℕ → Bool
available_loop now [] ip = true
available_loop now (lease ∷ rest) ip =
    let later = available_loop now rest ip in
    if lease.allocated && (lease.ip == ip && ltb now lease.lease_expiry) then false else later

unfoldable pub is_ip_available : ℕ → Server → ℕ → Bool
is_ip_available now s ip = available_loop now s.lease_table ip

unfoldable pub cleanup_loop : ℕ → List Lease → List Lease
cleanup_loop now [] = []
cleanup_loop now (lease ∷ rest) =
    (if lease.allocated && leb lease.lease_expiry now then free_lease else lease)
    ∷ cleanup_loop now rest

unfoldable pub cleanup_expired_leases : ℕ → Server → Server
cleanup_expired_leases now s = record s { lease_table = cleanup_loop now s.lease_table }

-- The lease that `get_available_ip` writes into slot `i`.
unfoldable pub new_lease : ℕ → Server → ℕ → Lease
new_lease now s i = record {
  ip = htonl ((htonl s.pool_start + i) % 2 ^ 32);
  lease_start = now;
  lease_expiry = now + 180000;
  allocated = true;
}

-- The loop of `get_available_ip` from slot `i` on: the address, 0 if no slot is free, and the rest
-- of the table.
unfoldable pub allocate_loop : ℕ → Server → ℕ → List Lease → ℕ × List Lease
allocate_loop now s i [] = (0, [])
allocate_loop now s i (lease ∷ rest) =
    let later = allocate_loop now s (i + 1) rest in
    if not lease.allocated
    then ((new_lease now s i).ip, new_lease now s i ∷ rest)
    else (later.0, lease ∷ later.1)

unfoldable pub get_available_ip : ℕ → Server → ℕ × Server
get_available_ip now s =
    let cleaned = cleanup_expired_leases now s in
    let (ip, table) = allocate_loop now cleaned 0 cleaned.lease_table in
    (ip, record cleaned { lease_table = table })

-- The loops along the options of a message, at offset `at`: the offset of an option of the kind
-- that is wanted. Each round moves on by two bytes at least, so 512 rounds are enough for the
-- buffer. Behind the buffer the source reads one more byte, which cannot change the result.
unfoldable pub option_loop : ℕ → List ℕ → ℕ → ℕ → ℕ → Option ℕ
option_loop zero buffer wanted limit at = none
option_loop (suc fuel) buffer wanted limit at =
    let next = option_loop fuel buffer wanted limit (at + 2 + byte_at buffer (at + 1)) in
    if not (byte_at buffer at == dhcp_end) && ltb at limit
    then (if byte_at buffer at == wanted then some at else next)
    else none

abbrev pub option_rounds : ℕ
option_rounds = 512

type_at : List ℕ → Option ℕ → ℕ
type_at buffer none = 0
type_at buffer (some at) = byte_at buffer (at + 2)

ip_at : List ℕ → Option ℕ → ℕ
ip_at buffer none = 0
ip_at buffer (some at) =
    byte_at buffer (at + 2)
    + byte_at buffer (at + 3) * 2 ^ 8
    + byte_at buffer (at + 4) * 2 ^ 16
    + byte_at buffer (at + 5) * 2 ^ 24

-- `message_type` of `handle_dhcp_packet`, 0 if the message has none.
unfoldable pub message_type : List ℕ → ℕ → ℕ
unfolding type_at
message_type buffer recv_len =
    type_at buffer (option_loop option_rounds buffer option_message_type recv_len 240)

unfoldable pub extract_requested_ip : List ℕ → ℕ
unfolding ip_at
extract_requested_ip buffer =
    ip_at buffer (option_loop option_rounds buffer option_requested_ip buffer_size 240)

-- The options of an offer and of an acknowledgement.
unfoldable pub lease_options : ℕ → ℕ → List ℕ
lease_options kind ip =
    option_message_type
    ∷ 1
    ∷ kind
    ∷ option_requested_ip
    ∷ 4
    ∷ (addr_bytes ip
        ++ (option_lease_time
            ∷ 4
            ∷ (addr_bytes (htonl 18000)
                ++ (option_subnet_mask ∷ 4 ∷ 255 ∷ 255 ∷ 255 ∷ 0 ∷ option_router ∷ 4 ∷ 192 ∷ 168 ∷ 1
                    ∷ 1 ∷ option_dns ∷ 4 ∷ 8 ∷ 8 ∷ 8 ∷ 8 ∷ dhcp_end ∷ []))))

-- The options begin at `240 * 4`, and the message ends behind them.
abbrev pub options_offset : ℕ
options_offset = 240 * 4

-- A reply of `buffer_size` zeros into which the first `kept` bytes of the request are copied.
unfoldable pub reply_header : List ℕ → ℕ → List ℕ
reply_header buffer kept =
    set (write_bytes (replicate buffer_size 0) 0 (read_bytes buffer 0 kept)) 0 0x02

unfoldable pub finish_reply : List ℕ → List ℕ → List ℕ
finish_reply packet options =
    read_bytes (write_bytes packet options_offset options) 0 (options_offset + length options)

unfoldable pub offer_packet : ℕ → List ℕ → List ℕ
offer_packet offered_ip buffer =
    let with_ip = write_bytes (reply_header buffer 240) 16 (addr_bytes offered_ip) in
    let with_server = write_bytes with_ip 24 (192 ∷ 168 ∷ 1 ∷ 1 ∷ []) in
    let with_gateway = write_bytes with_server 24 (192 ∷ 168 ∷ 1 ∷ 1 ∷ []) in
    finish_reply with_gateway (lease_options dhcp_offer offered_ip)

unfoldable pub ack_packet : ℕ → List ℕ → List ℕ
ack_packet allocated_ip buffer =
    finish_reply (write_bytes (reply_header buffer 240) 16 (addr_bytes allocated_ip))
      (lease_options dhcp_ack allocated_ip)

unfoldable pub nak_packet : List ℕ → List ℕ
nak_packet buffer =
    finish_reply (reply_header buffer (240 * 4))
      (option_message_type ∷ 1 ∷ dhcp_nak ∷ dhcp_end ∷ [])

unfoldable pub broadcast : Server → List ℕ → Server
broadcast s packet = record s { sent = s.sent ++ (packet ∷ []) }

unfoldable pub send_dhcp_offer : ℕ → Server → List ℕ → Server
send_dhcp_offer now s buffer =
    let (offered_ip, s') = get_available_ip now s in broadcast s' (offer_packet offered_ip buffer)

unfoldable pub send_dhcp_ack : Server → ℕ → List ℕ → Server
send_dhcp_ack s allocated_ip buffer = broadcast s (ack_packet allocated_ip buffer)

unfoldable pub send_dhcp_nak : Server → List ℕ → Server
send_dhcp_nak s buffer = broadcast s (nak_packet buffer)

unfoldable pub handle_dhcp_packet : ℕ → Server → List ℕ → ℕ → Server
handle_dhcp_packet now s buffer recv_len =
    let kind = message_type buffer recv_len in
    let requested_ip = extract_requested_ip buffer in
    if kind == dhcp_discover
    then send_dhcp_offer now s buffer
    else if kind == dhcp_request
    then (if not (is_ip_in_pool s requested_ip) || is_ip_available now s requested_ip
        then send_dhcp_nak s buffer
        else send_dhcp_ack s requested_ip buffer)
    else s
