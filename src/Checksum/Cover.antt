-- ===== src/Checksum/Cover.antt =====
-- The checksum of a segment that starts from the sum of a pseudo header.
use native.Mathlib.Nat.{zero-add, mod-eq_of_lt}
use cs489_router.Prelude.{
  ℕ, ◌+◌, ◌-◌, ◌*◌, ◌/◌, ◌%◌, ◌^◌, ◌<◌, ◌≤◌, ◌≡◌, ap, ap₂, inl, inr, ◌⊎◌, List, arith, ◌==◌,
  Bool-cases, length, length-set, byte_at, get_or-set_ne, get_u16, set_u16, AllSmall, set-AllSmall,
}
use cs489_router.Checksum.{calculate_checksum, pad, fold_loop}
use cs489_router.Checksum.Fold.{IsFolded, fold_loop-IsFolded, all_ones}
use cs489_router.Checksum.Sum.{words, words-le, sum_loop-words, set_u16-AllSmall, words-set_u16}
use cs489_router.Checksum.Verify.{folded, folded-IsFolded}

pub pad-AllSmall : (mem : List ℕ) (ptr len : ℕ) → AllSmall mem → AllSmall (pad mem ptr len)
unfolding pad
pad-AllSmall mem ptr len small = elim (Bool-cases (len % 2 == 1)) [
  | inl odd ↦ rw odd (set-AllSmall mem (ptr + len) 0 small (omega arith))
  | inr even ↦ rw even small
]

pub length-pad : (mem : List ℕ) (ptr len : ℕ) → length (pad mem ptr len) ≡ length mem
unfolding pad
length-pad mem ptr len = elim (Bool-cases (len % 2 == 1)) [
  | inl odd ↦ rw odd (length-set mem (ptr + len) 0)
  | inr even ↦ rw even
]

pub byte_at-pad :
    (mem : List ℕ) (ptr len q : ℕ) → (q < ptr + len) → byte_at (pad mem ptr len) q ≡ byte_at mem q
unfolding pad
byte_at-pad mem ptr len q lt = elim (Bool-cases (len % 2 == 1)) [
  | inl odd ↦ rw odd (get_or-set_ne mem (ptr + len) q 0 0 (λ e. absurd (omega arith)))
  | inr even ↦ rw even
]

pub get_u16-pad :
    (mem : List ℕ) (ptr len p : ℕ) → p + 2 ≤ ptr + len → get_u16 (pad mem ptr len) p ≡ get_u16 mem p
unfolding get_u16
get_u16-pad mem ptr len p le =
    ap₂ (λ (a b : ℕ). a + b * 256) (byte_at-pad mem ptr len p (omega arith))
      (byte_at-pad mem ptr len (p + 1) (omega arith))

pub calculate_checksum-padded :
    (mem : List ℕ) (ptr len : ℕ)
    → AllSmall mem
    → len < 2 ^ 16
    → calculate_checksum mem ptr len
      ≡ (pad mem ptr len, 0xffff - folded (pad mem ptr len) ptr ((len + 1) / 2))
unfolding calculate_checksum folded
calculate_checksum-padded mem ptr len small lt =
    rw
      (
        sum_loop-words (pad mem ptr len) ptr ((len + 1) / 2) 0 (pad-AllSmall mem ptr len small)
            (omega arith),
        zero-add (words (pad mem ptr len) ptr ((len + 1) / 2)),
      )
      (ap (λ (c : ℕ). (pad mem ptr len, 0xffff - c))
        (mod-eq_of_lt
          (folded-IsFolded (pad mem ptr len) ptr ((len + 1) / 2) (pad-AllSmall mem ptr len small)
            (omega arith)).fits))

-- What is left of a sum once the field holds the complement, or all ones in place of 0.
pub covered :
    (mem : List ℕ) (start n k field first v : ℕ)
    → AllSmall mem
    → n ≤ 2 ^ 15
    → field ≡ start + 2 * k
    → k < n
    → start + 2 * n ≤ length mem
    → first ≤ 6 * 0xffff
    → get_u16 mem field ≡ fold_loop 3 first
    → (v ≡ 0xffff - folded mem start n) ⊎ ((0xffff - folded mem start n ≡ 0) × (v ≡ 0xffff))
    → fold_loop 3 (first + words (set_u16 mem field v) start n) ≡ 0xffff
covered mem start n k field first v small le at lt room few held filled =
    all_ones _ _
      (fold_loop-IsFolded (first + words (set_u16 mem field v) start n) (
        omega (arith, words-le (set_u16 mem field v) start n (set_u16-AllSmall mem field v small))))
      (omega (arith, added, held, body.same, body.fits, front.same, filled))
      (λ e. omega (arith, added, held, body.zero_to, body.fits, front.zero_to, filled, e))
  where
    body : IsFolded (words mem start n) (folded mem start n)
    body = folded-IsFolded mem start n small le

    front : IsFolded first (fold_loop 3 first)
    front = fold_loop-IsFolded first (omega arith)

    added : words (set_u16 mem field v) start n + get_u16 mem field ≡ words mem start n + v
    added = words-set_u16 mem start n k field v at lt room (omega (arith, filled))
