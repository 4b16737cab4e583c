-- ===== src/Checksum/Sum.antt =====
-- The sum of the 16-bit words of a part of memory.
use cs489_router.Prelude.{
  ℕ, zero, suc, ◌+◌, ◌*◌, ◌/◌, ◌%◌, ◌^◌, ◌<◌, ◌≤◌, ◌≡◌, refl, ap, ap₂, ◌∙◌, List, arith, length,
  length-set, set, byte_at, get_or-set_ne, get_or-set_self, get_u16, set_u16, AllSmall,
  set-AllSmall, ◌⊎◌, inl, inr,
}
use cs489_router.Checksum.{sum_loop}

-- Over unbounded numbers.
unfoldable pub words : List ℕ → ℕ → ℕ → ℕ
words mem off zero = 0
words mem off (suc n) = get_u16 mem off + words mem (off + 2) n

pub get_u16-lt : (mem : List ℕ) (off : ℕ) → AllSmall mem → get_u16 mem off < 2 ^ 16
unfolding get_u16
get_u16-lt mem off small = omega (arith, small off, small (off + 1))

pub words-le : (mem : List ℕ) (off n : ℕ) → AllSmall mem → words mem off n ≤ n * 0xffff
unfolding words
words-le mem off zero small = omega arith
words-le mem off (suc n) small =
    omega (arith, get_u16-lt mem off small, words-le mem (off + 2) n small)

-- Up to 2 ^ 15 words the `uint32_t` does not wrap.
pub sum_loop-words :
    (mem : List ℕ) (off n acc : ℕ)
    → AllSmall mem
    → acc + n * 0xffff < 2 ^ 32
    → sum_loop mem off n acc ≡ acc + words mem off n
unfolding sum_loop words
sum_loop-words mem off zero acc small h = omega arith
sum_loop-words mem off (suc n) acc small h = rw no_wrap (
    sum_loop-words mem (off + 2) n (acc + get_u16 mem off) small
      (omega (arith, get_u16-lt mem off small))
    ∙ omega arith)
  where
    no_wrap : (acc + get_u16 mem off) % 2 ^ 32 ≡ acc + get_u16 mem off
    no_wrap = omega (arith, get_u16-lt mem off small)

pub length-set_u16 : (mem : List ℕ) (p v : ℕ) → length (set_u16 mem p v) ≡ length mem
unfolding set_u16
length-set_u16 mem p v =
    length-set (set mem p (v % 256)) (p + 1) (v / 256 % 256) ∙ length-set mem p (v % 256)

pub set_u16-AllSmall : (mem : List ℕ) (p v : ℕ) → AllSmall mem → AllSmall (set_u16 mem p v)
unfolding set_u16
set_u16-AllSmall mem p v small =
    set-AllSmall _ (p + 1) (v / 256 % 256) (set-AllSmall mem p (v % 256) small (omega arith))
      (omega arith)

pub byte_at-set_u16_ne :
    (mem : List ℕ) (p v q : ℕ) → (q < p) ⊎ (p + 2 ≤ q) → byte_at (set_u16 mem p v) q ≡ byte_at mem q
unfolding set_u16
byte_at-set_u16_ne mem p v q apart =
    get_or-set_ne (set mem p (v % 256)) (p + 1) q (v / 256 % 256) 0 (omega arith)
    ∙ get_or-set_ne mem p q (v % 256) 0 (omega arith)

pub get_u16-set_u16_ne :
    (mem : List ℕ) (p v q : ℕ)
    → (q + 2 ≤ p) ⊎ (p + 2 ≤ q)
    → get_u16 (set_u16 mem p v) q ≡ get_u16 mem q
unfolding get_u16
get_u16-set_u16_ne mem p v q apart =
    ap₂ (λ (a b : ℕ). a + b * 256) (byte_at-set_u16_ne mem p v q (omega arith))
      (byte_at-set_u16_ne mem p v (q + 1) (omega arith))

pub get_u16-set_u16_self :
    (mem : List ℕ) (p v : ℕ) → p + 2 ≤ length mem → v < 2 ^ 16 → get_u16 (set_u16 mem p v) p ≡ v
unfolding get_u16 set_u16
get_u16-set_u16_self mem p v room h =
    rw
      (
        get_or-set_ne (set mem p (v % 256)) (p + 1) p (v / 256 % 256) 0 (omega arith),
        get_or-set_self mem p (v % 256) 0 (omega arith),
        get_or-set_self (set mem p (v % 256)) (p + 1) (v / 256 % 256) 0
            (omega (arith, length-set mem p (v % 256))),
      )
      (omega arith)

-- A word written elsewhere does not change the sum.
pub words-set_u16_ne :
    (mem : List ℕ) (off n p v : ℕ)
    → (off + 2 * n ≤ p) ⊎ (p + 2 ≤ off)
    → words (set_u16 mem p v) off n ≡ words mem off n
unfolding words
words-set_u16_ne mem off zero p v apart = refl
words-set_u16_ne mem off (suc n) p v apart =
    ap₂ ◌+◌ (get_u16-set_u16_ne mem p v off (omega arith))
      (words-set_u16_ne mem (off + 2) n p v (omega arith))

-- A word written at one of the summed places replaces the one that was there.
pub words-set_u16 :
    (mem : List ℕ) (off n k p v : ℕ)
    → p ≡ off + 2 * k
    → k < n
    → off + 2 * n ≤ length mem
    → v < 2 ^ 16
    → words (set_u16 mem p v) off n + get_u16 mem p ≡ words mem off n + v
unfolding words
words-set_u16 mem off zero k p v at lt room h = absurd (omega arith)
words-set_u16 mem off (suc n) zero p v at lt room h = omega (
  arith,
  ap (get_u16 (set_u16 mem p v)) {x = off} {y = p} (omega arith),
  ap (get_u16 mem) {x = off} {y = p} (omega arith),
  get_u16-set_u16_self mem p v (omega arith) h,
  words-set_u16_ne mem (off + 2) n p v (inr (omega arith)),
)
words-set_u16 mem off (suc n) (suc k) p v at lt room h = omega (
  arith,
  get_u16-set_u16_ne mem p v off (inl (omega arith)),
  words-set_u16 mem (off + 2) n k p v (omega arith) (omega arith) (omega arith) h,
)
