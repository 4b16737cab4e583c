-- ===== src/Checksum/Verify.antt =====
-- A receiver's test: with the checksum in place, the checksum of the whole is 0.
use cs489_router.Prelude.{
  ℕ, ◌+◌, ◌-◌, ◌*◌, ◌/◌, ◌^◌, ◌<◌, ◌≤◌, ◌≡◌, refl, ap, List, arith, length, get_u16, set_u16,
  AllSmall,
}
use native.Mathlib.Nat.{zero-add, mod-eq_of_lt}
use cs489_router.Checksum.{calculate_checksum, pad, fold_loop}
use cs489_router.Checksum.Fold.{IsFolded, fold_loop-IsFolded, all_ones}
use cs489_router.Checksum.Sum.{words, words-le, sum_loop-words, set_u16-AllSmall, words-set_u16}

pad_even : (mem : List ℕ) (ptr n : ℕ) → pad mem ptr (2 * n) ≡ mem
unfolding pad
pad_even mem ptr n = ground arith

-- The checksum of `n` words, as the fold of their sum.
unfoldable pub folded : List ℕ → ℕ → ℕ → ℕ
folded mem ptr n = fold_loop 3 (words mem ptr n)

pub folded-IsFolded :
    (mem : List ℕ) (ptr n : ℕ)
    → AllSmall mem
    → n ≤ 2 ^ 15
    → IsFolded (words mem ptr n) (folded mem ptr n)
unfolding folded
folded-IsFolded mem ptr n small le =
    fold_loop-IsFolded (words mem ptr n) (omega (arith, words-le mem ptr n small))

pub calculate_checksum-even :
    (mem : List ℕ) (ptr n : ℕ)
    → AllSmall mem
    → n ≤ 2 ^ 15
    → calculate_checksum mem ptr (2 * n) ≡ (mem, 0xffff - folded mem ptr n)
unfolding calculate_checksum folded
calculate_checksum-even mem ptr n small le =
    rw (pad_even mem ptr n, half, sum_loop-words mem ptr n 0 small (omega arith), zero-add)
      (ap (λ (c : ℕ). (mem, 0xffff - c)) (mod-eq_of_lt (folded-IsFolded mem ptr n small le).fits))
  where
    half : (2 * n + 1) / 2 ≡ n
    half = omega arith

-- `calculate_checksum` over an even number of bytes, of which one 16-bit word is zero, written
-- into that word, makes `calculate_checksum` of the same bytes 0.
pub calculate_checksum-verifies :
    (mem : List ℕ) (ptr n k : ℕ)
    → AllSmall mem
    → n ≤ 2 ^ 15
    → k < n
    → ptr + 2 * n ≤ length mem
    → get_u16 mem (ptr + 2 * k) ≡ 0
    → let (padded, checksum) = calculate_checksum mem ptr (2 * n) in
      (calculate_checksum (set_u16 padded (ptr + 2 * k) checksum) ptr (2 * n)).1 ≡ 0
calculate_checksum-verifies mem ptr n k small le lt room hole =
    rw
      (
        calculate_checksum-even mem ptr n small le,
        calculate_checksum-even (set_u16 mem (ptr + 2 * k) (0xffff - folded mem ptr n)) ptr n
            (set_u16-AllSmall mem (ptr + 2 * k) _ small) le,
      )
      (omega (arith, ones))
  where
    v : ℕ
    v = 0xffff - folded mem ptr n

    before : IsFolded (words mem ptr n) (folded mem ptr n)
    before = folded-IsFolded mem ptr n small le

    added :
        words (set_u16 mem (ptr + 2 * k) v) ptr n + get_u16 mem (ptr + 2 * k) ≡ words mem ptr n + v
    added = words-set_u16 mem ptr n k (ptr + 2 * k) v refl lt room (omega arith)

    ones : folded (set_u16 mem (ptr + 2 * k) v) ptr n ≡ 0xffff
    ones =
        all_ones _ _
          (folded-IsFolded (set_u16 mem (ptr + 2 * k) v) ptr n
            (set_u16-AllSmall mem (ptr + 2 * k) v small) le)
          (omega (arith, added, hole, before.same, before.fits))
          (λ e. omega (arith, added, hole, before.zero_to, before.fits, e))
