-- ===== src/Checksum/Tests.antt =====
-- The example header of RFC 1071's readers: 20 bytes, the checksum at byte 10.
use cs489_router.Prelude.{
  ℕ, ◌+◌, ◌*◌, ◌≡◌, refl, List, [], ◌∷◌, arith, get_u16, set_u16, AreBytes-AllSmall,
}
use cs489_router.Checksum.{calculate_checksum}
use cs489_router.Checksum.Verify.{calculate_checksum-verifies}

abbrev header : List ℕ
header =
    0x45 ∷ 0x00 ∷ 0x00 ∷ 0x73 ∷ 0x00 ∷ 0x00 ∷ 0x40 ∷ 0x00 ∷ 0x40 ∷ 0x11 ∷ 0x00 ∷ 0x00 ∷ 0xc0 ∷ 0xa8
    ∷ 0x00 ∷ 0x01 ∷ 0xc0 ∷ 0xa8 ∷ 0x00 ∷ 0xc7 ∷ []

-- On the wire: b8 61.
checksum-header : (calculate_checksum header 0 20).1 ≡ 0x61b8
unfolding calculate_checksum get_u16
checksum-header = refl

-- For an odd length the byte behind the end is overwritten.
odd_length : (calculate_checksum (1 ∷ 2 ∷ 3 ∷ 4 ∷ []) 0 3).0 ≡ 1 ∷ 2 ∷ 3 ∷ 0 ∷ []
unfolding calculate_checksum
odd_length = refl

calculate_checksum-verifies_example :
    let (padded, checksum) = calculate_checksum header 0 (2 * 10) in
    (calculate_checksum (set_u16 padded (0 + 2 * 5) checksum) 0 (2 * 10)).1 ≡ 0
calculate_checksum-verifies_example =
    calculate_checksum-verifies header 0 10 5 (AreBytes-AllSmall header (omega arith)) (omega arith)
      (omega arith) (omega arith) (unfold get_u16 in refl)
