-- ===== src/Checksum/Fold.antt =====
-- Folding the carries of a sum.
use native.Mathlib.Decide.{ℕ_discrete}
use cs489_router.Prelude.{
  ℕ, ◌+◌, ◌/◌, ◌%◌, ◌^◌, ◌<◌, ◌≤◌, ◌≡◌, ◌≢◌, refl, inl, inr, arith, ltb, ltb→lt, ltb→ge, ge→ltb,
  Bool-cases,
}
use cs489_router.Checksum.{fold_loop}

-- What is left fits 16 bits, is the same number modulo 2 ^ 16 - 1, and is 0 for 0 and only for 0.
pub record IsFolded (s c : ℕ) : Type 0 where
  pub fits : c < 2 ^ 16
  pub same : c % 0xffff ≡ s % 0xffff
  pub zero_of : c ≡ 0 → s ≡ 0
  pub zero_to : s ≡ 0 → c ≡ 0

fold_once : (s c : ℕ) → IsFolded (s % 2 ^ 16 + s / 2 ^ 16) c → s < 2 ^ 32 → IsFolded s c
fold_once s c f h = record {
  fits = f.fits;
  same = omega (arith, f.same);
  zero_of = λ e. omega (arith, f.zero_of e);
  zero_to = λ e. f.zero_to (omega arith);
}

fold_small : (s : ℕ) → s < 2 ^ 16 → IsFolded s s
fold_small s h = record { fits = h; same = refl; zero_of = λ e. e; zero_to = λ e. e }

pub fold_loop-IsFolded : (s : ℕ) → s < 2 ^ 32 → IsFolded s (fold_loop 3 s)
unfolding fold_loop
fold_loop-IsFolded s h = elim (Bool-cases (ltb 0xffff s)) [
  | inr small ↦ rw small (fold_small s (omega (arith, ltb→ge 0xffff s small)))
  | inl big ↦ rw big (fold_once s _ (second (s % 2 ^ 16 + s / 2 ^ 16) (omega arith)) h)
]
  where
    second : (t : ℕ) → t ≤ 0x1fffe → IsFolded t (fold_loop 2 t)
    second t le = elim (Bool-cases (ltb 0xffff t)) [
      | inr small ↦ rw small (fold_small t (omega (arith, ltb→ge 0xffff t small)))
      | inl big ↦
          rw (big, ge→ltb 0xffff (t % 2 ^ 16 + t / 2 ^ 16) (omega (arith, ltb→lt 0xffff t big)))
            (fold_once t _
              (fold_small (t % 2 ^ 16 + t / 2 ^ 16) (omega (arith, ltb→lt 0xffff t big)))
              (omega arith))
    ]

-- The only 16-bit number but 0 that is 0 modulo 2 ^ 16 - 1.
pub all_ones : (s c : ℕ) → IsFolded s c → s % 0xffff ≡ 0 → s ≢ 0 → c ≡ 0xffff
all_ones s c f zero_mod ne = elim (ℕ_discrete c 0) [
  | yes e ↦ absurd (ne (f.zero_of e))
  | no nz ↦ omega (arith, f.same, f.fits)
]
