-- ===== src/Checksum.antt =====
-- `calculate_checksum` of src/outgoing.c: the Internet checksum over a part of memory.
pub mod Fold
pub mod Sum
pub mod Verify
pub mod Cover
mod Tests
use cs489_router.Prelude.{
  ℕ, zero, suc, ◌+◌, ◌-◌, ◌/◌, ◌%◌, ◌^◌, List, ltb, ◌==◌, if◌then◌else◌, set, get_u16,
}

-- The loop over the 16-bit words, into a `uint32_t`.
unfoldable pub sum_loop : List ℕ → ℕ → ℕ → ℕ → ℕ
sum_loop mem off zero checksum = checksum
sum_loop mem off (suc left) checksum =
    sum_loop mem (off + 2) left ((checksum + get_u16 mem off) % 2 ^ 32)

-- The loop that adds the carries. A `uint32_t` needs two rounds at most.
pub fold_loop : ℕ → ℕ → ℕ
fold_loop zero checksum = checksum
fold_loop (suc fuel) checksum =
    let rest = fold_loop fuel (checksum % 2 ^ 16 + checksum / 2 ^ 16) in
    if ltb 0xffff checksum then rest else checksum

-- For an odd length the byte behind the end is cleared first.
unfoldable pub pad : List ℕ → ℕ → ℕ → List ℕ
pad mem ptr len = if len % 2 == 1 then set mem (ptr + len) 0 else mem

-- The checksum of `len` bytes from `ptr` on, and the memory that the call leaves.
unfoldable pub calculate_checksum : List ℕ → ℕ → ℕ → List ℕ × ℕ
unfolding sum_loop fold_loop pad
calculate_checksum mem ptr len =
    let padded = pad mem ptr len in
    let checksum = fold_loop 3 (sum_loop padded ptr ((len + 1) / 2) 0) in
    (padded, 0xffff - checksum % 2 ^ 16)
