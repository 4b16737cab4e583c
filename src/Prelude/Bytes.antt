-- ===== src/Prelude/Bytes.antt =====
-- Memory as a list of bytes, and the unsigned words of the little-endian host.
use Prim.Native.Nat.{ℕ, zero, suc, ◌+◌, ◌*◌, ◌/◌, ◌%◌, ◌<◌, ◌≤◌}
use mathlib.Core.Path.{◌≡◌, refl, ◌∙◌, ap, ap₂}
use mathlib.Core.Logic.{◌⊎◌, inl}
use mathlib.Core.Bool.{Bool, true, false}
use mathlib.Core.List.{List, [], ◌∷◌}
use native.Mathlib.Omega.{arith}
use native.Mathlib.Nat.{le_refl}
use native.Mathlib.Decide.{ℕ_discrete, dec_lt}
use cs489_router.Prelude.Tests.{if◌then◌else◌}
use cs489_router.Prelude.Lists.{
  length, get_or, set, length-set, get_or-set_self, get_or-set_ne, get_or_past, get_or-replicate,
  replicate, length-replicate, All,
}

-- The byte at an offset; the model reads 0 outside of the memory block.
abbrev pub byte_at : List ℕ → ℕ → ℕ
byte_at mem i = get_or mem i 0

abbrev pub IsByte : ℕ → Type 0
IsByte b = b < 256

abbrev pub AreBytes : List ℕ → Type 0
AreBytes bs = All IsByte bs

-- The `n` bytes from an offset on.
unfoldable pub read_bytes : List ℕ → ℕ → ℕ → List ℕ
read_bytes mem off zero = []
read_bytes mem off (suc n) = byte_at mem off ∷ read_bytes mem (off + 1) n

-- `memcpy` to an offset.
unfoldable pub write_bytes : List ℕ → ℕ → List ℕ → List ℕ
write_bytes mem off [] = mem
write_bytes mem off (b ∷ bs) = write_bytes (set mem off b) (off + 1) bs

-- A `uint16_t` in memory, read as the little-endian host reads it.
unfoldable pub get_u16 : List ℕ → ℕ → ℕ
get_u16 mem off = byte_at mem off + byte_at mem (off + 1) * 256

unfoldable pub set_u16 : List ℕ → ℕ → ℕ → List ℕ
set_u16 mem off v = set (set mem off (v % 256)) (off + 1) (v / 256 % 256)

-- `htons` and `ntohs`, which on this host both swap the two bytes.
unfoldable pub htons : ℕ → ℕ
htons v = v % 256 * 256 + v / 256 % 256

pub htons-htons : (v : ℕ) → v < 65536 → htons (htons v) ≡ v
unfolding htons
htons-htons v h = omega arith

pub length-read_bytes : (mem : List ℕ) (off n : ℕ) → length (read_bytes mem off n) ≡ n
unfolding read_bytes
length-read_bytes mem off zero = refl
length-read_bytes mem off (suc n) = ap suc (length-read_bytes mem (off + 1) n)

pub length-write_bytes :
    (mem : List ℕ) (off : ℕ) (bs : List ℕ) → length (write_bytes mem off bs) ≡ length mem
unfolding write_bytes
length-write_bytes mem off [] = refl
length-write_bytes mem off (b ∷ bs) =
    length-write_bytes (set mem off b) (off + 1) bs ∙ length-set mem off b

-- A write leaves the bytes before and behind it alone.
pub byte_at-write_bytes_ne :
    (mem : List ℕ) (off : ℕ) (bs : List ℕ) (i : ℕ)
    → (i < off) ⊎ (off + length bs ≤ i)
    → byte_at (write_bytes mem off bs) i ≡ byte_at mem i
unfolding write_bytes
byte_at-write_bytes_ne mem off [] i h = refl
byte_at-write_bytes_ne mem off (b ∷ bs) i h =
    byte_at-write_bytes_ne (set mem off b) (off + 1) bs i (omega arith)
    ∙ get_or-set_ne mem off i b 0 (omega arith)

pub byte_at-write_bytes :
    (mem : List ℕ) (off : ℕ) (bs : List ℕ) (i : ℕ)
    → off + length bs ≤ length mem
    → i < length bs
    → byte_at (write_bytes mem off bs) (off + i) ≡ byte_at bs i
unfolding write_bytes
byte_at-write_bytes mem off [] i h lt = absurd (omega arith)
byte_at-write_bytes mem off (b ∷ bs) zero h lt =
    byte_at-write_bytes_ne (set mem off b) (off + 1) bs (off + 0) (inl (omega arith))
    ∙ ap (byte_at (set mem off b)) {x = off + 0} {y = off} (omega arith)
    ∙ get_or-set_self mem off b 0 (omega arith)
byte_at-write_bytes mem off (b ∷ bs) (suc i) h lt =
    ap (byte_at (write_bytes (set mem off b) (off + 1) bs)) {x = off + suc i} {y = off + 1 + i}
      (omega arith)
    ∙ byte_at-write_bytes (set mem off b) (off + 1) bs i (omega (arith, length-set mem off b))
        (omega arith)

-- Reads that see the same bytes give the same list.
pub read_bytes_congr :
    (m m' : List ℕ) (off off' n : ℕ)
    → ((i : ℕ) → i < n → byte_at m (off + i) ≡ byte_at m' (off' + i))
    → read_bytes m off n ≡ read_bytes m' off' n
unfolding read_bytes
read_bytes_congr m m' off off' zero h = refl
read_bytes_congr m m' off off' (suc n) h =
    ap₂ ◌∷◌
      (ap (byte_at m) {x = off} {y = off + 0} (omega arith)
        ∙ h 0 (omega arith)
        ∙ ap (byte_at m') {x = off' + 0} {y = off'} (omega arith))
      (read_bytes_congr m m' (off + 1) (off' + 1) n λ i lt.
        ap (byte_at m) {x = off + 1 + i} {y = off + suc i} (omega arith)
        ∙ h (suc i) (omega arith)
        ∙ ap (byte_at m') {x = off' + suc i} {y = off' + 1 + i} (omega arith))

-- What `memcpy` wrote is read back.
pub read_bytes-write_bytes :
    (mem : List ℕ) (off : ℕ) (bs : List ℕ)
    → off + length bs ≤ length mem
    → read_bytes (write_bytes mem off bs) off (length bs) ≡ bs
unfolding read_bytes write_bytes
read_bytes-write_bytes mem off [] h = refl
read_bytes-write_bytes mem off (b ∷ bs) h =
    ap₂ ◌∷◌
      (byte_at-write_bytes_ne (set mem off b) (off + 1) bs off (inl (omega arith))
        ∙ get_or-set_self mem off b 0 (omega arith))
      (read_bytes-write_bytes (set mem off b) (off + 1) bs (omega (arith, length-set mem off b)))

-- A read is not changed by a write elsewhere.
pub read_bytes-write_bytes_ne :
    (mem : List ℕ) (off : ℕ) (bs : List ℕ) (at n : ℕ)
    → (at + n ≤ off) ⊎ (off + length bs ≤ at)
    → read_bytes (write_bytes mem off bs) at n ≡ read_bytes mem at n
read_bytes-write_bytes_ne mem off bs at n h =
    read_bytes_congr (write_bytes mem off bs) mem at at n
      (λ i lt. byte_at-write_bytes_ne mem off bs (at + i) (omega arith))

pub read_bytes-set_ne :
    (mem : List ℕ) (k v at n : ℕ)
    → (k < at) ⊎ (at + n ≤ k)
    → read_bytes (set mem k v) at n ≡ read_bytes mem at n
read_bytes-set_ne mem k v at n h =
    read_bytes_congr (set mem k v) mem at at n
      (λ i lt. get_or-set_ne mem k (at + i) v 0 (omega arith))

-- Reading as many bytes as there are.
pub read_bytes_whole : (bs : List ℕ) → read_bytes bs 0 (length bs) ≡ bs
unfolding read_bytes
read_bytes_whole [] = refl
read_bytes_whole (b ∷ bs) =
    ap (λ rest. b ∷ rest)
      (read_bytes_congr (b ∷ bs) bs (0 + 1) 0 (length bs) (λ i lt.
          ap (byte_at (b ∷ bs)) {x = 0 + 1 + i} {y = suc i} (omega arith)
          ∙ ap (byte_at bs) {x = i} {y = 0 + i} (omega arith))
        ∙ read_bytes_whole bs)

pub byte_at-read_bytes :
    (mem : List ℕ) (at n i : ℕ) → i < n → byte_at (read_bytes mem at n) i ≡ byte_at mem (at + i)
unfolding read_bytes
byte_at-read_bytes mem at zero i h = absurd (omega arith)
byte_at-read_bytes mem at (suc n) zero h = ap (byte_at mem) {x = at} {y = at + 0} (omega arith)
byte_at-read_bytes mem at (suc n) (suc i) h =
    byte_at-read_bytes mem (at + 1) n i (omega arith)
    ∙ ap (byte_at mem) {x = at + 1 + i} {y = at + suc i} (omega arith)

-- Zeros stay zeros where zeros are written.
abbrev pub AreZeros : List ℕ → Type 0
AreZeros bs = (i : ℕ) → byte_at bs i ≡ 0

pub replicate-AreZeros : (n : ℕ) → AreZeros (replicate n 0)
replicate-AreZeros zero i = refl
replicate-AreZeros (suc n) zero = refl
replicate-AreZeros (suc n) (suc i) = replicate-AreZeros n i

pub write_bytes-zero :
    (mem : List ℕ) (off : ℕ) (bs : List ℕ) (i : ℕ)
    → AreZeros bs
    → byte_at mem i ≡ 0
    → byte_at (write_bytes mem off bs) i ≡ 0
unfolding write_bytes
write_bytes-zero mem off [] i z h = h
write_bytes-zero mem off (b ∷ bs) i z h =
    write_bytes-zero (set mem off b) (off + 1) bs i (λ j. z (suc j))
      (elim (ℕ_discrete off i) [
        | no ne ↦ get_or-set_ne mem off i b 0 ne ∙ h
        | yes e ↦ elim (dec_lt i (length mem)) [
          | yes lt ↦ rw (e, get_or-set_self mem i b 0 lt) (z 0)
          | no ge ↦ get_or_past (set mem off b) i 0 (omega (arith, length-set mem off b))
        ]
      ])

pub read_bytes-AreZeros :
    (mem : List ℕ) (at n : ℕ)
    → ((i : ℕ) → at ≤ i → byte_at mem i ≡ 0)
    → AreZeros (read_bytes mem at n)
unfolding read_bytes
read_bytes-AreZeros mem at zero h i = refl
read_bytes-AreZeros mem at (suc n) h zero = h at (le_refl at)
read_bytes-AreZeros mem at (suc n) h (suc i) =
    read_bytes-AreZeros mem (at + 1) n (λ j le. h j (omega arith)) i

-- Bytes stay bytes.
abbrev pub AllSmall : List ℕ → Type 0
AllSmall mem = (i : ℕ) → byte_at mem i < 256

pub AreBytes-AllSmall : (bs : List ℕ) → AreBytes bs → AllSmall bs
AreBytes-AllSmall [] h i = omega arith
AreBytes-AllSmall (b ∷ bs) h zero = h.0
AreBytes-AllSmall (b ∷ bs) h (suc i) = AreBytes-AllSmall bs h.1 i

pub set-AllSmall : (mem : List ℕ) (k v : ℕ) → AllSmall mem → v < 256 → AllSmall (set mem k v)
set-AllSmall mem k v h hv i = elim (ℕ_discrete k i) [
  | no ne ↦ rw (get_or-set_ne mem k i v 0 ne) (h i)
  | yes e ↦ elim (dec_lt i (length mem)) [
    | yes lt ↦ rw (e, get_or-set_self mem i v 0 lt) hv
    | no ge ↦ rw (get_or_past (set mem k v) i 0 (omega (arith, length-set mem k v))) (omega arith)
  ]
]

pub write_bytes-AllSmall :
    (mem : List ℕ) (off : ℕ) (bs : List ℕ)
    → AllSmall mem
    → AllSmall bs
    → AllSmall (write_bytes mem off bs)
unfolding write_bytes
write_bytes-AllSmall mem off [] h hb = h
write_bytes-AllSmall mem off (b ∷ bs) h hb =
    write_bytes-AllSmall (set mem off b) (off + 1) bs (set-AllSmall mem off b h (hb 0))
      (λ i. hb (suc i))

pub replicate-AllSmall : (n v : ℕ) → v < 256 → AllSmall (replicate n v)
replicate-AllSmall n v hv i = elim (dec_lt i n) [
  | yes lt ↦ rw (get_or-replicate n i v 0 lt) hv
  | no ge ↦ rw (get_or_past (replicate n v) i 0 (omega (arith, length-replicate n v))) (omega arith)
]

-- A test of each number below a bound, by evaluation.
unfoldable pub every : ℕ → (ℕ → Bool) → Bool
every zero test = true
every (suc bound) test = let smaller = every bound test in if test bound then smaller else false

every-step :
    (bound : ℕ) (test : ℕ → Bool)
    → every (suc bound) test ≡ true
    → (test bound ≡ true) × (every bound test ≡ true)
unfolding every
every-step bound test passed = ground (arith, passed)

pub every-lt :
    (bound : ℕ) (test : ℕ → Bool) (k : ℕ) → every bound test ≡ true → k < bound → test k ≡ true
every-lt zero test k passed below = absurd (omega arith)
every-lt (suc bound) test k passed below = elim (ℕ_discrete k bound) [
  | yes last ↦ rw last (every-step bound test passed).0
  | no earlier ↦ every-lt bound test k (every-step bound test passed).1 (omega arith)
]
