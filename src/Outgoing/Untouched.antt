-- ===== src/Outgoing/Untouched.antt =====
-- What `calculate_checksum` and its callers in `send_ipv4` do not write.
use cs489_router.Prelude.{
  Bool, true, false, ℕ, ◌+◌, ◌-◌, ◌*◌, ◌%◌, ◌^◌, ◌<◌, ◌≤◌, ◌≡◌, ◌≢◌, refl, ap, ap₂, sym, ◌∙◌, inl,
  inr, ◌⊎◌, arith, ◌==◌, Bool-cases, length, byte_at, get_u16, set_u16, htons, get_or-set_ne,
}
use cs489_router.State.{Packet}
use cs489_router.Checksum.{calculate_checksum, pad}
use cs489_router.Checksum.Sum.{byte_at-set_u16_ne, length-set_u16}
use cs489_router.Checksum.Cover.{length-pad}
use cs489_router.Outgoing.{
  header_len, total_length, protocol, udp_length_at, udp_checksum_at, tcp_checksum_at,
  fill_header_checksum, fill_transport_checksum, fill_udp_checksum, fill_tcp_checksum,
  fill_checksums,
}
use cs489_router.Outgoing.Header.{header_len-fill_header_checksum, fill_checksums-Agree}

byte_at-pad_ne :
    (mem : Packet) (ptr len q : ℕ) → q ≢ ptr + len → byte_at (pad mem ptr len) q ≡ byte_at mem q
unfolding pad
byte_at-pad_ne mem ptr len q differ = elim (Bool-cases (len % 2 == 1)) [
  | inl odd ↦ rw odd (get_or-set_ne mem (ptr + len) q 0 0 (λ e. differ (sym e)))
  | inr even ↦ rw even
]

-- Where the data of UDP ends by its own length, and that of TCP by the packet's.
abbrev pub udp_end : Packet → ℕ
udp_end pkt = header_len pkt + htons (get_u16 pkt (header_len pkt + udp_length_at))

abbrev pub tcp_end : Packet → ℕ
tcp_end pkt = header_len pkt + (total_length pkt + 2 ^ 16 - header_len pkt) % 2 ^ 16

-- A byte outside of a checksum, and not the one behind the data that it covers, which is cleared if
-- the data has an odd length.
abbrev pub IsOutside : ℕ → ℕ → ℕ → Type 0
IsOutside field end q = ((q < field) ⊎ (field + 2 ≤ q)) × (q ≢ end)

-- A byte outside of the header's checksum and of that of the packet's own transport layer.
pub record IsApart (pkt : Packet) (q : ℕ) : Type 0 where
  pub header : (q < 10) ⊎ (12 ≤ q)
  pub udp :
      ((protocol pkt == 0x11) ≡ false)
      ⊎ IsOutside (header_len pkt + udp_checksum_at) (udp_end pkt) q
  pub tcp :
      ((protocol pkt == 0x06) ≡ false)
      ⊎ IsOutside (header_len pkt + tcp_checksum_at) (tcp_end pkt) q

-- A packet is another one but for such bytes.
pub record IsChecked (pkt pkt' : Packet) : Type 0 where
  pub same_length : length pkt' ≡ length pkt
  pub same_total : total_length pkt' ≡ total_length pkt
  pub same_bytes : (q : ℕ) → IsApart pkt q → byte_at pkt' q ≡ byte_at pkt q

module _ (pkt : Packet) where
  fill_header_checksum-same :
      (q : ℕ) → (q < 10) ⊎ (12 ≤ q) → byte_at (fill_header_checksum pkt) q ≡ byte_at pkt q
  unfolding fill_header_checksum calculate_checksum pad header_len
  fill_header_checksum-same q apart =
      rw even
        (byte_at-set_u16_ne (set_u16 pkt 10 0) 10 _ q apart ∙ byte_at-set_u16_ne pkt 10 0 q apart)
    where
      even : byte_at pkt 0 % 16 * 4 % 2 ≡ 0
      even = omega arith

  length-fill_header_checksum : length (fill_header_checksum pkt) ≡ length pkt
  unfolding fill_header_checksum calculate_checksum
  length-fill_header_checksum =
      length-set_u16 (pad (set_u16 pkt 10 0) 0 (header_len pkt)) 10 _
      ∙ length-pad (set_u16 pkt 10 0) 0 (header_len pkt)
      ∙ length-set_u16 pkt 10 0

  get_u16-fill_header_checksum :
      (q : ℕ) → (q + 2 ≤ 10) ⊎ (12 ≤ q) → get_u16 (fill_header_checksum pkt) q ≡ get_u16 pkt q
  unfolding get_u16
  get_u16-fill_header_checksum q apart =
      ap₂ (λ (a b : ℕ). a + b * 256) (fill_header_checksum-same q (omega arith))
        (fill_header_checksum-same (q + 1) (omega arith))

  -- The checksum of a transport layer, with the byte behind its data.
  fill_transport_checksum-same :
      (start field len udp_length v q : ℕ)
      → (q < field) ⊎ (field + 2 ≤ q)
      → q ≢ start + len
      → byte_at (set_u16 (fill_transport_checksum pkt start field len udp_length).0 field v) q
        ≡ byte_at pkt q
  unfolding fill_transport_checksum calculate_checksum
  fill_transport_checksum-same start field len udp_length v q apart differ =
      byte_at-set_u16_ne _ field v q apart
      ∙ byte_at-pad_ne _ start len q differ
      ∙ byte_at-set_u16_ne pkt field _ q apart

  length-fill_transport :
      (start field len udp_length v : ℕ)
      → length (set_u16 (fill_transport_checksum pkt start field len udp_length).0 field v)
        ≡ length pkt
  unfolding fill_transport_checksum calculate_checksum
  length-fill_transport start field len udp_length v =
      length-set_u16 _ field v ∙ length-pad _ start len ∙ length-set_u16 pkt field _

-- What the checksum of the transport layer leaves alone.
record IsFilled (pkt pkt' : Packet) : Type 0 where
  filled_length : length pkt' ≡ length pkt
  filled_bytes : (q : ℕ) → IsApart pkt q → byte_at pkt' q ≡ byte_at pkt q

IsOutside-of :
    (b : Bool) (field end q : ℕ)
    → b ≡ true
    → (b ≡ false) ⊎ IsOutside field end q
    → IsOutside field end q
IsOutside-of b field end q e (inl other) = absurd (cc (sym e ∙ other))
IsOutside-of b field end q e (inr outside) = outside

fill_udp_checksum-IsFilled :
    (pkt : Packet) → (protocol pkt == 0x11) ≡ true → IsFilled pkt (fill_udp_checksum pkt)
unfolding fill_udp_checksum
fill_udp_checksum-IsFilled pkt is_udp =
    elim (Bool-cases (get_u16 pkt (header_len pkt + udp_checksum_at) == 0)) [
      | inl off ↦ rw off (record { filled_length = refl; filled_bytes = λ q apart. refl })
      | inr on ↦ rw on (record {
        filled_length = length-fill_transport pkt (header_len pkt) _ _ _ _;
        filled_bytes = λ q apart.
            let (out, end) = IsOutside-of _ _ _ q is_udp apart.udp in
            fill_transport_checksum-same pkt (header_len pkt) _ _ _ _ q out end;
      })
    ]

fill_tcp_checksum-IsFilled :
    (pkt : Packet) → (protocol pkt == 0x06) ≡ true → IsFilled pkt (fill_tcp_checksum pkt)
unfolding fill_tcp_checksum
fill_tcp_checksum-IsFilled pkt is_tcp = record {
  filled_length = length-fill_transport pkt (header_len pkt) _ _ _ _;
  filled_bytes = λ q apart.
      let (out, end) = IsOutside-of _ _ _ q is_tcp apart.tcp in
      fill_transport_checksum-same pkt (header_len pkt) _ _ _ _ q out end;
}

fill_checksums-IsFilled : (pkt : Packet) → IsFilled (fill_header_checksum pkt) (fill_checksums pkt)
unfolding fill_checksums
fill_checksums-IsFilled pkt = elim (Bool-cases (protocol (fill_header_checksum pkt) == 0x11)) [
  | inl udp ↦ rw udp (fill_udp_checksum-IsFilled (fill_header_checksum pkt) udp)
  | inr other ↦ elim (Bool-cases (protocol (fill_header_checksum pkt) == 0x06)) [
    | inl tcp ↦ rw (other, tcp) (fill_tcp_checksum-IsFilled (fill_header_checksum pkt) tcp)
    | inr neither ↦
        rw (other, neither) (record { filled_length = refl; filled_bytes = λ q apart. refl })
  ]
]

module _ (pkt : Packet) (whole : 20 ≤ header_len pkt) where
  abbrev headed : Packet
  headed = fill_header_checksum pkt

  total_length-headed : total_length headed ≡ total_length pkt
  unfolding total_length
  total_length-headed = ap htons (get_u16-fill_header_checksum pkt 2 (inl (omega arith)))

  udp_end-headed : udp_end headed ≡ udp_end pkt
  udp_end-headed = rw (
    header_len-fill_header_checksum pkt,
    get_u16-fill_header_checksum pkt (header_len pkt + udp_length_at) (inr (omega arith)),
  )

  tcp_end-headed : tcp_end headed ≡ tcp_end pkt
  tcp_end-headed = rw (header_len-fill_header_checksum pkt, total_length-headed)

  protocol-headed : protocol headed ≡ protocol pkt
  unfolding protocol
  protocol-headed = fill_header_checksum-same pkt 9 (inl (omega arith))

  IsApart-headed : (q : ℕ) → IsApart pkt q → IsApart headed q
  IsApart-headed q apart = record {
    header = apart.header;
    udp = elim apart.udp [
      | inl other ↦ inl (rw protocol-headed other)
      | inr (out, end) ↦
          inr (rw (header_len-fill_header_checksum pkt) out, λ e. end (e ∙ udp_end-headed))
    ];
    tcp = elim apart.tcp [
      | inl other ↦ inl (rw protocol-headed other)
      | inr (out, end) ↦
          inr (rw (header_len-fill_header_checksum pkt) out, λ e. end (e ∙ tcp_end-headed))
    ];
  }

  kept_byte : (q : ℕ) → q < 10 → byte_at (fill_checksums pkt) q ≡ byte_at pkt q
  kept_byte q lt =
      fill_checksums-Agree pkt q (rw (header_len-fill_header_checksum pkt) (omega arith))
      ∙ fill_header_checksum-same pkt q (inl lt)

  same_total-fill_checksums : total_length (fill_checksums pkt) ≡ total_length pkt
  unfolding total_length get_u16
  same_total-fill_checksums =
      ap₂ (λ (a b : ℕ). htons (a + b * 256)) (kept_byte 2 (omega arith)) (kept_byte 3 (omega arith))

  -- If the header has at least 20 bytes, then `fill_checksums` changes nothing of a packet but its
  -- checksums and, behind data of an odd length, the next byte: the length of the memory and the
  -- packet's total length stay, and so do all the other bytes.
  pub fill_checksums-IsChecked : IsChecked pkt (fill_checksums pkt)
  fill_checksums-IsChecked = record {
    same_length = (fill_checksums-IsFilled pkt).filled_length ∙ length-fill_header_checksum pkt;
    same_total = same_total-fill_checksums;
    same_bytes = λ q apart.
        (fill_checksums-IsFilled pkt).filled_bytes q (IsApart-headed q apart)
        ∙ fill_header_checksum-same pkt q apart.header;
  }
