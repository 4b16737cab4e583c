-- ===== src/Napt/Rewrite.antt =====
-- What the translation writes into a packet, and the fields of an entry.
use cs489_router.Prelude.{
  ℕ, ◌+◌, ◌*◌, ◌%◌, ◌^◌, ◌<◌, ◌≤◌, ◌≡◌, ap, ap₂, ◌∙◌, inl, inr, ◌⊎◌, arith, length, byte_at,
  get_u16, set_u16, write_bytes, byte_at-write_bytes, byte_at-write_bytes_ne, length-write_bytes,
  htons, htons-htons,
}
use cs489_router.Address.{IpAddr}
use cs489_router.State.{Packet}
use cs489_router.Arp.{ip_bytes}
use cs489_router.Checksum.Sum.{
  byte_at-set_u16_ne, length-set_u16, get_u16-set_u16_self, get_u16-set_u16_ne,
}
use cs489_router.Outgoing.{read_ip, header_len, protocol, ip_src, ip_dst}
use cs489_router.Napt.{
  to_port, from_port, NaptEntry, entry_bytes, entry_lan_ip, entry_lan_port, entry_public_port,
  port_src, port_dst, set_ip, restore_lan, replace_source,
}

-- A packet with a whole header and the two ports behind it.
pub record IsWhole (pkt : Packet) : Type 0 where
  pub header : 20 ≤ header_len pkt
  pub ports : header_len pkt + 4 ≤ length pkt

-- An address written into the header, and a port behind it.
abbrev rewritten : Packet → IpAddr → ℕ → ℕ → ℕ → Packet
rewritten pkt ip port off at = set_u16 (set_ip pkt off ip) at (from_port port)

record IsPlace (pkt : Packet) (off at : ℕ) : Type 0 where
  in_header : off + 4 ≤ 20
  not_first : 0 < off
  behind : 20 ≤ at
  room : at + 2 ≤ length pkt

module _ (pkt : Packet) (ip : IpAddr) (port off at : ℕ) (place : IsPlace pkt off at) where
  open place use {in_header, not_first, behind, room}

  abbrev new : Packet
  new = rewritten pkt ip port off at

  read_ip-rewritten : read_ip new off ≡ ip
  unfolding set_ip read_ip
  read_ip-rewritten = rw (first, byte 1 (omega arith), byte 2 (omega arith), byte 3 (omega arith))
    where
      byte : (i : ℕ) → i < 4 → byte_at new (off + i) ≡ byte_at (ip_bytes ip) i
      byte i lt =
          byte_at-set_u16_ne (write_bytes pkt off (ip_bytes ip)) at (from_port port) (off + i)
            (inl (omega arith))
          ∙ byte_at-write_bytes pkt off (ip_bytes ip) i (omega arith) lt

      first : byte_at new off ≡ ip.b0
      first = ap (byte_at new) {x = off} {y = off + 0} (omega arith) ∙ byte 0 (omega arith)

  -- The other bytes of the header are as they were.
  byte_at-rewritten : (q : ℕ) → q < 20 → (q < off) ⊎ (off + 4 ≤ q) → byte_at new q ≡ byte_at pkt q
  unfolding set_ip
  byte_at-rewritten q lt apart =
      byte_at-set_u16_ne (write_bytes pkt off (ip_bytes ip)) at (from_port port) q
        (inl (omega arith))
      ∙ byte_at-write_bytes_ne pkt off (ip_bytes ip) q apart

  header_len-rewritten : header_len new ≡ header_len pkt
  unfolding header_len
  header_len-rewritten =
      ap (λ (b : ℕ). b % 16 * 4) (byte_at-rewritten 0 (omega arith) (inl not_first))

  to_port-rewritten : port < 2 ^ 16 → to_port (get_u16 new at) ≡ port
  unfolding set_ip to_port from_port
  to_port-rewritten lt =
      ap htons (
        get_u16-set_u16_self (write_bytes pkt off (ip_bytes ip)) at (htons port)
          (omega (arith, length-write_bytes pkt off (ip_bytes ip))) (unfold htons in omega arith))
      ∙ htons-htons port lt

  -- The other port.
  get_u16-rewritten : (q : ℕ) → 20 ≤ q → (q + 2 ≤ at) ⊎ (at + 2 ≤ q) → get_u16 new q ≡ get_u16 pkt q
  unfolding set_ip
  get_u16-rewritten q le apart =
      get_u16-set_u16_ne (write_bytes pkt off (ip_bytes ip)) at (from_port port) q apart ∙ same
    where
      same : get_u16 (write_bytes pkt off (ip_bytes ip)) q ≡ get_u16 pkt q
      same =
          unfold get_u16 in
          ap₂ (λ (a b : ℕ). a + b * 256)
            (byte_at-write_bytes_ne pkt off (ip_bytes ip) q (inr (omega arith)))
            (byte_at-write_bytes_ne pkt off (ip_bytes ip) (q + 1) (inr (omega arith)))

-- A packet is another one but for the four bytes of an address at `off` and the two of a port at `at`.
pub record IsSameBut (pkt : Packet) (off at : ℕ) (pkt' : Packet) : Type 0 where
  pub same_length : length pkt' ≡ length pkt
  pub same_bytes :
      (q : ℕ) → (q < off) ⊎ (off + 4 ≤ q) → (q < at) ⊎ (at + 2 ≤ q) → byte_at pkt' q ≡ byte_at pkt q

rewritten-IsSameBut :
    (pkt : Packet) (ip : IpAddr) (port off at : ℕ)
    → IsSameBut pkt off at (rewritten pkt ip port off at)
unfolding set_ip
rewritten-IsSameBut pkt ip port off at = record {
  same_length =
      length-set_u16 (write_bytes pkt off (ip_bytes ip)) at (from_port port)
      ∙ length-write_bytes pkt off (ip_bytes ip);
  same_bytes = λ q apart apart'.
      byte_at-set_u16_ne (write_bytes pkt off (ip_bytes ip)) at (from_port port) q apart'
      ∙ byte_at-write_bytes_ne pkt off (ip_bytes ip) q apart;
}

pub header_len-same :
    (pkt pkt' : Packet) (off at : ℕ)
    → IsSameBut pkt off at pkt'
    → 0 < off
    → 0 < at
    → header_len pkt' ≡ header_len pkt
unfolding header_len
header_len-same pkt pkt' off at same lt lt' =
    ap (λ (b : ℕ). b % 16 * 4) (same.same_bytes 0 (inl lt) (inl lt'))

-- The addresses, the ports and the protocol of a packet.
pub record HasFlow (pkt : Packet) (src : IpAddr) (src_port : ℕ) (dst : IpAddr) (dst_port proto : ℕ)
    : Type 0 where
  pub source : ip_src pkt ≡ src
  pub source_port : port_src pkt ≡ src_port
  pub destination : ip_dst pkt ≡ dst
  pub destination_port : port_dst pkt ≡ dst_port
  pub protocol_is : protocol pkt ≡ proto

-- A packet as it was, length and payload included, but for a new source address and port.
abbrev pub IsSourced : Packet → IpAddr → ℕ → Packet → Type 0
IsSourced pkt ip port pkt' =
    HasFlow pkt' ip port (ip_dst pkt) (port_dst pkt) (protocol pkt)
    × IsSameBut pkt 12 (header_len pkt) pkt'

-- A packet as it was, length and payload included, but for a new destination address and port.
abbrev pub IsReturned : Packet → IpAddr → ℕ → Packet → Type 0
IsReturned pkt ip port pkt' =
    HasFlow pkt' (ip_src pkt) (port_src pkt) ip port (protocol pkt)
    × IsSameBut pkt 16 (header_len pkt + 2) pkt'

-- In a packet with a whole header and its ports, `replace_source` replaces the source address and
-- the source port by the given ones, and keeps the destination and the protocol.
pub replace_source-HasFlow :
    (pkt : Packet) (ip : IpAddr) (port : ℕ)
    → IsWhole pkt
    → port < 2 ^ 16
    → HasFlow (replace_source pkt ip port) ip port (ip_dst pkt) (port_dst pkt) (protocol pkt)
unfolding replace_source ip_src ip_dst protocol port_src port_dst
replace_source-HasFlow pkt ip port whole lt = record {
  source = read_ip-rewritten pkt ip port 12 at place;
  source_port = rw len (to_port-rewritten pkt ip port 12 at place lt);
  destination =
      unfold read_ip in
      rw (
        kept 16 (omega arith) (omega arith),
        kept 17 (omega arith) (omega arith),
        kept 18 (omega arith) (omega arith),
        kept 19 (omega arith) (omega arith),
      );
  destination_port = rw len (
      ap to_port (
        get_u16-rewritten pkt ip port 12 at place (at + 2) (omega (arith, whole.header))
          (inr (omega arith))));
  protocol_is = kept 9 (omega arith) (omega arith);
}
  where
    at : ℕ
    at = header_len pkt

    place : IsPlace pkt 12 at
    place = record {
      in_header = omega arith;
      not_first = omega arith;
      behind = whole.header;
      room = omega (arith, whole.ports);
    }

    len : header_len (rewritten pkt ip port 12 at) ≡ at
    len = header_len-rewritten pkt ip port 12 at place

    kept :
        (q : ℕ)
        → q < 20
        → (q < 12) ⊎ (16 ≤ q)
        → byte_at (rewritten pkt ip port 12 at) q ≡ byte_at pkt q
    kept = byte_at-rewritten pkt ip port 12 at place

-- In a packet with a whole header and its ports, `restore_lan` replaces the destination address and
-- the destination port by those of the entry, and keeps the source and the protocol.
pub restore_lan-HasFlow :
    (pkt : Packet) (e : NaptEntry)
    → IsWhole pkt
    → e.lan_port < 2 ^ 16
    → HasFlow
        (restore_lan pkt (entry_bytes e))
        (ip_src pkt)
        (port_src pkt)
        e.lan_ip
        e.lan_port
        (protocol pkt)
unfolding restore_lan entry_lan_ip entry_bytes ip_src ip_dst protocol port_src port_dst
restore_lan-HasFlow pkt e whole lt = rw stored_port (record {
  source =
      unfold read_ip in
      rw (
        kept 12 (omega arith) (omega arith),
        kept 13 (omega arith) (omega arith),
        kept 14 (omega arith) (omega arith),
        kept 15 (omega arith) (omega arith),
      );
  source_port = rw len (
      ap to_port (
        get_u16-rewritten pkt e.lan_ip e.lan_port 16 at place (header_len pkt) whole.header
          (inl (omega arith))));
  destination = unfold read_ip entry_bytes in read_ip-rewritten pkt e.lan_ip e.lan_port 16 at place;
  destination_port = rw len (to_port-rewritten pkt e.lan_ip e.lan_port 16 at place lt);
  protocol_is = kept 9 (omega arith) (omega arith);
})
  where
    at : ℕ
    at = header_len pkt + 2

    stored_port : entry_lan_port (entry_bytes e) ≡ e.lan_port
    stored_port = unfold entry_lan_port entry_bytes get_u16 in omega arith

    place : IsPlace pkt 16 at
    place = record {
      in_header = omega arith;
      not_first = omega arith;
      behind = omega (arith, whole.header);
      room = omega (arith, whole.ports);
    }

    len : header_len (rewritten pkt e.lan_ip e.lan_port 16 at) ≡ header_len pkt
    len = header_len-rewritten pkt e.lan_ip e.lan_port 16 at place

    kept :
        (q : ℕ)
        → q < 20
        → (q < 16) ⊎ (20 ≤ q)
        → byte_at (rewritten pkt e.lan_ip e.lan_port 16 at) q ≡ byte_at pkt q
    kept = byte_at-rewritten pkt e.lan_ip e.lan_port 16 at place

pub replace_source-IsSourced :
    (pkt : Packet) (ip : IpAddr) (port : ℕ)
    → IsWhole pkt
    → port < 2 ^ 16
    → IsSourced pkt ip port (replace_source pkt ip port)
replace_source-IsSourced pkt ip port whole lt = (
  replace_source-HasFlow pkt ip port whole lt,
  unfold replace_source in rewritten-IsSameBut pkt ip port 12 (header_len pkt),
)

restore_lan-IsSameBut :
    (pkt : Packet) (e : NaptEntry)
    → IsSameBut pkt 16 (header_len pkt + 2) (restore_lan pkt (entry_bytes e))
unfolding restore_lan
restore_lan-IsSameBut pkt e =
    rewritten-IsSameBut pkt (entry_lan_ip (entry_bytes e)) (entry_lan_port (entry_bytes e)) 16
      (header_len pkt + 2)

pub restore_lan-IsReturned :
    (pkt : Packet) (e : NaptEntry)
    → IsWhole pkt
    → e.lan_port < 2 ^ 16
    → IsReturned pkt e.lan_ip e.lan_port (restore_lan pkt (entry_bytes e))
restore_lan-IsReturned pkt e whole lt =
    (restore_lan-HasFlow pkt e whole lt, restore_lan-IsSameBut pkt e)

pub entry_public_port-entry_bytes :
    (e : NaptEntry) → e.public_port < 2 ^ 16 → entry_public_port (entry_bytes e) ≡ e.public_port
unfolding entry_public_port entry_bytes get_u16
entry_public_port-entry_bytes e lt = omega arith
