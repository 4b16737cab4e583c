-- ===== src/Outgoing/Transport.antt =====
-- The checksums that `send_ipv4` fills in, as a receiver tests them.
use cs489_router.Prelude.{
  ℕ, ◌+◌, ◌-◌, ◌*◌, ◌/◌, ◌^◌, ◌<◌, ◌≤◌, ◌≡◌, refl, ◌∙◌, inl, ◌⊎◌, arith, length, byte_at, get_u16,
  set_u16, AllSmall, AreBytes, AreBytes-AllSmall,
}
use cs489_router.State.{Packet}
use cs489_router.Checksum.{calculate_checksum, pad, fold_loop}
use cs489_router.Checksum.Fold.{fold_loop-IsFolded}
use cs489_router.Checksum.Sum.{
  words, words-le, set_u16-AllSmall, get_u16-set_u16_self, length-set_u16, byte_at-set_u16_ne,
}
use cs489_router.Checksum.Verify.{folded, calculate_checksum-even}
use cs489_router.Checksum.Cover.{
  pad-AllSmall, length-pad, byte_at-pad, get_u16-pad, calculate_checksum-padded, covered,
}
use cs489_router.Outgoing.{
  read_ip, protocol, ip_src, ip_dst, pseudo_header, fill_transport_checksum,
}

-- What a receiver sums up, pseudo header and segment, folded: all ones for an intact segment.
unfoldable pub transport_sum : Packet → ℕ → ℕ → ℕ → ℕ
transport_sum pkt start len udp_length =
    fold_loop 3 (words (pseudo_header pkt udp_length) 0 6 + words pkt start ((len + 1) / 2))

pseudo_header-AllSmall : (pkt : Packet) (l : ℕ) → AllSmall pkt → AllSmall (pseudo_header pkt l)
unfolding pseudo_header ip_src ip_dst read_ip protocol
pseudo_header-AllSmall pkt l small = AreBytes-AllSmall (pseudo_header pkt l) bytes
  where
    bytes : AreBytes (pseudo_header pkt l)
    bytes = omega (
      arith,
      small 9,
      small 12,
      small 13,
      small 14,
      small 15,
      small 16,
      small 17,
      small 18,
      small 19,
    )

-- The pseudo header only reads the bytes 9 and 12 to 19.
pseudo_header_congr :
    (pkt pkt' : Packet) (l : ℕ)
    → ((i : ℕ) → i < 20 → byte_at pkt' i ≡ byte_at pkt i)
    → pseudo_header pkt' l ≡ pseudo_header pkt l
unfolding pseudo_header ip_src ip_dst read_ip protocol
pseudo_header_congr pkt pkt' l same = rw (
  same 12 (omega arith),
  same 13 (omega arith),
  same 14 (omega arith),
  same 15 (omega arith),
  same 16 (omega arith),
  same 17 (omega arith),
  same 18 (omega arith),
  same 19 (omega arith),
  same 9 (omega arith),
)

module _ (pkt : Packet) (start k len udp_length : ℕ) (small : AllSmall pkt) (fits : len < 2 ^ 16)
    (behind : 20 ≤ start) (inside : 2 * k + 2 ≤ len)
    (room : start + 2 * ((len + 1) / 2) ≤ length pkt) where
  abbrev field : ℕ
  field = start + 2 * k

  abbrev front : ℕ
  front = words (pseudo_header pkt udp_length) 0 6

  front-le : front ≤ 6 * 0xffff
  front-le =
      words-le (pseudo_header pkt udp_length) 0 6 (pseudo_header-AllSmall pkt udp_length small)

  -- The complement of the complement.
  started : 0xffff - (calculate_checksum (pseudo_header pkt udp_length) 0 12).1 ≡ fold_loop 3 front
  unfolding folded
  started =
      rw
        (calculate_checksum-even (pseudo_header pkt udp_length) 0 6
          (pseudo_header-AllSmall pkt udp_length small) (omega arith))
        (omega (arith, (fold_loop-IsFolded front (omega (arith, front-le))).fits))

  abbrev mem : Packet
  mem = set_u16 pkt field (fold_loop 3 front)

  abbrev padded : Packet
  padded = pad mem start len

  filled :
      fill_transport_checksum pkt start field len udp_length
      ≡ (padded, 0xffff - folded padded start ((len + 1) / 2))
  unfolding fill_transport_checksum
  filled = rw started (
      calculate_checksum-padded mem start len (set_u16-AllSmall pkt field (fold_loop 3 front) small)
        fits)

  -- A value that is written into the field, if it is the checksum or stands for it.
  pub transport_sum-filled :
      (v : ℕ)
      → (v ≡ (fill_transport_checksum pkt start field len udp_length).1)
        ⊎ (((fill_transport_checksum pkt start field len udp_length).1 ≡ 0) × (v ≡ 0xffff))
      → transport_sum
          (set_u16 (fill_transport_checksum pkt start field len udp_length).0 field v)
          start
          len
          udp_length
        ≡ 0xffff
  unfolding transport_sum
  transport_sum-filled v =
      rw (filled, same_front v)
        (covered padded start ((len + 1) / 2) k field front v
          (pad-AllSmall mem start len (set_u16-AllSmall pkt field (fold_loop 3 front) small))
          (omega arith) refl (omega arith)
          (omega (arith, length-pad mem start len, length-set_u16 pkt field (fold_loop 3 front)))
          front-le held)
    where
      held : get_u16 padded field ≡ fold_loop 3 front
      held =
          get_u16-pad mem start len field (omega arith)
          ∙ get_u16-set_u16_self pkt field (fold_loop 3 front) (omega arith)
              (fold_loop-IsFolded front (omega (arith, front-le))).fits

      same_front :
          (w : ℕ) → pseudo_header (set_u16 padded field w) udp_length ≡ pseudo_header pkt udp_length
      same_front w = pseudo_header_congr pkt (set_u16 padded field w) udp_length λ i lt.
          byte_at-set_u16_ne padded field w i (inl (omega arith))
          ∙ byte_at-pad mem start len i (omega arith)
          ∙ byte_at-set_u16_ne pkt field (fold_loop 3 front) i (inl (omega arith))

  pub length-fill_transport_checksum :
      length (fill_transport_checksum pkt start field len udp_length).0 ≡ length pkt
  length-fill_transport_checksum =
      rw filled (length-pad mem start len ∙ length-set_u16 pkt field (fold_loop 3 front))

  pub fill_transport_checksum-lt :
      (fill_transport_checksum pkt start field len udp_length).1 < 2 ^ 16
  fill_transport_checksum-lt = rw filled (omega arith)
