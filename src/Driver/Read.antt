-- ===== src/Driver/Read.antt =====
-- What the driver reads of a record that the stub wrote.
use cs489_router.Prelude.{
  ℕ, ◌+◌, ◌^◌, ◌<◌, ◌≡◌, refl, ap, some, List, [], ◌∷◌, ◌++◌, lt→ltb, length, length-append, take,
  drop, set, get_u16, read_bytes, write_bytes, read_bytes_whole, arith,
}
use cs489_router.Stub.{u32_bytes, get_u32, pcaprec_hdr_size, pcaprec_hdr_bytes, pkt_record}
use cs489_router.Driver.{read_packet}

module _ {ℓ} {A : Type ℓ} where
  take-append : (xs ys : List A) → take (length xs) (xs ++ ys) ≡ xs
  take-append [] ys = refl
  take-append (x ∷ xs) ys = ap (λ more. x ∷ more) (take-append xs ys)

  drop-append : (xs ys : List A) → drop (length xs) (xs ++ ys) ≡ ys
  drop-append [] ys = refl
  drop-append (x ∷ xs) ys = drop-append xs ys

-- The buffer once a packet is read into it.
abbrev pub loaded : List ℕ → List ℕ → List ℕ
loaded buffer pkt = set (write_bytes buffer 0 pkt) (length pkt) 0

pub read_packet-record :
    (buffer pkt rest : List ℕ)
    → length pkt < length buffer
    → read_packet buffer (pkt ++ rest) (length pkt) ≡ some (loaded buffer pkt, rest)
unfolding read_packet
read_packet-record buffer pkt rest fits =
    rw (lt→ltb (length pkt) (length buffer) fits, take-append pkt rest, drop-append pkt rest)

module _ (pkt rest : List ℕ) where
  pub length-record :
      length (pkt_record pkt (length pkt) ++ rest) ≡ pcaprec_hdr_size + length pkt + length rest
  unfolding pkt_record pcaprec_hdr_bytes u32_bytes
  length-record =
      omega (
        arith,
        length-append (read_bytes pkt 0 (length pkt)) rest,
        ap length (read_bytes_whole pkt),
      )

  pub drop-record : drop pcaprec_hdr_size (pkt_record pkt (length pkt) ++ rest) ≡ pkt ++ rest
  unfolding pkt_record pcaprec_hdr_bytes u32_bytes
  drop-record = ap (λ bytes. bytes ++ rest) (read_bytes_whole pkt)

  pub get_u32-record :
      length pkt < 2 ^ 32 → get_u32 (pkt_record pkt (length pkt) ++ rest) 8 ≡ length pkt
  unfolding pkt_record pcaprec_hdr_bytes u32_bytes get_u32 get_u16
  get_u32-record lt = omega arith
