-- ===== src/Outgoing/Header.antt =====
-- The header's checksum after the transport layer's was filled in behind it.
use cs489_router.Prelude.{
  ℕ, zero, suc, ◌+◌, ◌-◌, ◌*◌, ◌/◌, ◌%◌, ◌^◌, ◌<◌, ◌≤◌, ◌≡◌, refl, ap, ◌∙◌, inl, inr, List, arith,
  ◌==◌, Bool-cases, length, byte_at, get_u16, set_u16, AllSmall,
}
use cs489_router.State.{Packet}
use cs489_router.Checksum.{calculate_checksum, pad, sum_loop, fold_loop}
use cs489_router.Checksum.Sum.{byte_at-set_u16_ne}
use cs489_router.Checksum.Cover.{byte_at-pad}
use cs489_router.Outgoing.{
  header_len, protocol, fill_header_checksum, fill_transport_checksum, fill_udp_checksum,
  fill_tcp_checksum, fill_checksums,
}
use cs489_router.Outgoing.Checksums.{fill_header_checksum-verifies}

-- The two memories agree below an offset.
abbrev pub Agree : List ℕ → List ℕ → ℕ → Type 0
Agree m m' n = (i : ℕ) → i < n → byte_at m i ≡ byte_at m' i

sum_loop_congr :
    (m m' : List ℕ) (off n acc : ℕ)
    → Agree m m' (off + 2 * n)
    → sum_loop m off n acc ≡ sum_loop m' off n acc
unfolding sum_loop get_u16
sum_loop_congr m m' off zero acc same = refl
sum_loop_congr m m' off (suc n) acc same =
    rw (same off (omega arith), same (off + 1) (omega arith))
      (sum_loop_congr m m' (off + 2) n _ (λ i lt. same i (omega arith)))

calculate_checksum_congr :
    (m m' : List ℕ) (len : ℕ)
    → len % 2 ≡ 0
    → Agree m m' len
    → (calculate_checksum m 0 len).1 ≡ (calculate_checksum m' 0 len).1
unfolding calculate_checksum pad
calculate_checksum_congr m m' len even same = rw even (
    ap (λ (s : ℕ). 0xffff - fold_loop 3 s % 2 ^ 16)
      (sum_loop_congr m m' 0 ((len + 1) / 2) 0 (λ i lt. same i (omega arith))))

-- The checksums of the transport layer are written behind the header.
fill_transport_checksum-Agree :
    (pkt : Packet) (start k len udp_length v : ℕ)
    → Agree
        (set_u16 (fill_transport_checksum pkt start (start + k) len udp_length).0 (start + k) v)
        pkt
        start
unfolding fill_transport_checksum calculate_checksum
fill_transport_checksum-Agree pkt start k len udp_length v i lt =
    byte_at-set_u16_ne _ (start + k) v i (inl (omega arith))
    ∙ byte_at-pad _ start len i (omega arith)
    ∙ byte_at-set_u16_ne pkt (start + k) _ i (inl (omega arith))

fill_udp_checksum-Agree : (pkt : Packet) → Agree (fill_udp_checksum pkt) pkt (header_len pkt)
unfolding fill_udp_checksum
fill_udp_checksum-Agree pkt = elim (Bool-cases (get_u16 pkt (header_len pkt + 6) == 0)) [
  | inl off ↦ rw off (λ i lt. refl)
  | inr on ↦ rw on (fill_transport_checksum-Agree pkt (header_len pkt) 6 _ _ _)
]

fill_tcp_checksum-Agree : (pkt : Packet) → Agree (fill_tcp_checksum pkt) pkt (header_len pkt)
unfolding fill_tcp_checksum
fill_tcp_checksum-Agree pkt = fill_transport_checksum-Agree pkt (header_len pkt) 16 _ _ _

pub header_len-fill_header_checksum :
    (pkt : Packet) → header_len (fill_header_checksum pkt) ≡ header_len pkt
unfolding header_len fill_header_checksum calculate_checksum pad
header_len-fill_header_checksum pkt = rw even (
    ap (λ (b : ℕ). b % 16 * 4)
      (byte_at-set_u16_ne (set_u16 pkt 10 0) 10 _ 0 (inl (omega arith))
        ∙ byte_at-set_u16_ne pkt 10 0 0 (inl (omega arith))))
  where
    even : byte_at pkt 0 % 16 * 4 % 2 ≡ 0
    even = omega arith

pub fill_checksums-Agree :
    (pkt : Packet)
    → Agree (fill_checksums pkt) (fill_header_checksum pkt) (header_len (fill_header_checksum pkt))
unfolding fill_checksums
fill_checksums-Agree pkt = elim (Bool-cases (protocol (fill_header_checksum pkt) == 0x11)) [
  | inl udp ↦ rw udp (fill_udp_checksum-Agree (fill_header_checksum pkt))
  | inr other ↦ elim (Bool-cases (protocol (fill_header_checksum pkt) == 0x06)) [
    | inl tcp ↦ rw (other, tcp) (fill_tcp_checksum-Agree (fill_header_checksum pkt))
    | inr neither ↦ rw (other, neither) (λ i lt. refl)
  ]
]

-- For a packet of bytes that holds its whole header, of at least 12 bytes, and whatever lies behind
-- it, `calculate_checksum` of the header is 0 after all the checksums were filled in.
pub fill_checksums-verifies :
    (pkt : Packet)
    → AllSmall pkt
    → 12 ≤ header_len pkt
    → header_len pkt ≤ length pkt
    → (calculate_checksum (fill_checksums pkt) 0 (header_len pkt)).1 ≡ 0
fill_checksums-verifies pkt small long room =
    calculate_checksum_congr (fill_checksums pkt) (fill_header_checksum pkt) (header_len pkt)
      (unfold header_len in omega arith)
      (λ i lt. fill_checksums-Agree pkt i (rw (header_len-fill_header_checksum pkt) lt))
    ∙ fill_header_checksum-verifies pkt small long room
