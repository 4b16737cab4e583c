-- ===== src/Hashmap/Missed.antt =====
-- What `hashmap_remove` of src/hashmap.c does to a key that it looks for in the wrong bytes.
use mathlib.Core.Path.{subst}
use native.Mathlib.Decide.{ℕ_discrete, dec_lt}
use cs489_router.Hashmap.{size_init, tag_set, hashmap_init, hashmap_insert}
use cs489_router.Hashmap.Slots.{tag_get-fill_slot}
use cs489_router.Hashmap.Probe.{bytes_equal→≡}
use cs489_router.Hashmap.Table.{stored}
use cs489_router.Hashmap.{insert_loop}
use cs489_router.Hashmap.Probe.{bytes_equal_refl}
use cs489_router.Hashmap.Empty.{vacant, hashmap_init_lem}
use cs489_router.Hashmap.Insert.{hashmap_insert_lem}
use cs489_router.Prelude.{
  Option, ◌%◌, [], ◌∷◌, true, length, Bool-cases, byte_at-read_bytes, replicate-AreZeros,
}
use cs489_router.Hashmap.{tag_get, fill_slot, key_offset}
use cs489_router.Hashmap.Slots.{IsBlock, Fits, with_both, fill_slot_bytes, room}
use cs489_router.Prelude.{
  ◌-◌, ◌*◌, ◌/◌, ◌≤◌, ◌≢◌, sym, ap, ◌∙◌, byte_at, AreZeros, get_or-set_ne, byte_at-write_bytes,
  byte_at-write_bytes_ne, ℕ, zero, suc, ◌+◌, ◌<◌, ◌≡◌, refl, inl, inr, false, some, List, arith,
}
use cs489_router.Hashmap.{Hashmap, Search, endless, absent, found, key_matches}
use cs489_router.Hashmap.Slots.{Entry, entry_at, slot}
use cs489_router.Hashmap.Probe.{pos, Taken, slot_cases, pos-lt, pos_next, from_step}
use cs489_router.Hashmap.Table.{IsTable, home, home-lt, loose, not_full, start_pos}
use cs489_router.Hashmap.Deletion.{remove_loop, bury, hashmap_remove}

-- At no taken slot the bytes that `hashmap_remove` compares with the key are the key.
abbrev Misses : Hashmap → List ℕ → Type 0
Misses m key =
    (i : ℕ)
    → i < m.size_allocated
    → tag_get m i ≡ 1
    → key_matches m (m.size_value + m.size_key + i) key ≡ false

-- What such a search from step `a` on says of the slots.
abbrev Missed : Hashmap → ℕ → ℕ → Search → Type 0
Missed m h a endless = Taken m h a m.size_allocated
Missed m h a absent = Unit {0}
Missed m h a (found i) = ⊥

module _ (m : Hashmap) (table : IsTable m) (key : List ℕ) (misses : Misses m key) (h : ℕ)
    (start : h < m.size_allocated) where
  Missed-later :
      (a : ℕ) (r : Search)
      → (e : Entry) × (slot m (pos m h a) ≡ some e)
      → Missed m h (a + 1) r
      → Missed m h a r
  Missed-later a endless here rest = from_step m table.block h start _ a m.size_allocated here rest
  Missed-later a absent here rest = tt
  Missed-later a (found i) here rest = rest

  remove_loop-Missed :
      (fuel a : ℕ) → a + fuel ≡ m.size_allocated → Missed m h a (remove_loop fuel (pos m h a) m key)
  unfolding remove_loop
  remove_loop-Missed zero a e = λ s lo hi. absurd (omega arith)
  remove_loop-Missed (suc fuel) a e =
      elim (slot_cases m table.block h start (pos m h a) (pos-lt m table.block h start a)) [
        | inl (free, vacant) ↦ rw free tt
        | inr (taken, here) ↦
            rw
              (
                taken,
                misses (pos m h a) (pos-lt m table.block h start a) taken,
                pos_next m table.block h start a,
              )
              (Missed-later a _ (entry_at m (pos m h a), here)
                (remove_loop-Missed fuel (a + 1) (omega arith)))
      ]

bury-Missed :
    (m : Hashmap) (table : IsTable m) (h : ℕ)
    → h < m.size_allocated
    → (r : Search) → Missed m h 0 r
    → bury m r ≡ some m
unfolding bury
bury-Missed m table h start endless all =
    absurd (not_full m table.block (loose m table) h start all)
bury-Missed m table h start absent all = refl
bury-Missed m table h start (found i) all = absurd all

-- Then the search ends without a slot, and nothing is changed.
hashmap_remove-Misses :
    (m : Hashmap) (key : List ℕ) → IsTable m → Misses m key → hashmap_remove m key ≡ some m
unfolding hashmap_remove
hashmap_remove-Misses m key table misses =
    bury-Missed m table (home m key) (home-lt m table.block (loose m table) key) _ (
      subst (λ at. Missed m (home m key) 0 (remove_loop m.size_allocated at m key))
        (start_pos m table.block (loose m table) key)
        (remove_loop-Missed m table key misses (home m key)
          (home-lt m table.block (loose m table) key) m.size_allocated 0 (omega arith)))

byte_past : (bs : List ℕ) (q : ℕ) → length bs ≤ q → byte_at bs q ≡ 0
byte_past [] q le = refl
byte_past (b ∷ bs) zero le = absurd (omega arith)
byte_past (b ∷ bs) (suc q) le = byte_past bs q (omega arith)

-- The bytes compared for a slot that is not the first lie in front of the slot's key, or begin in
-- front of it.
times_suc : (w k : ℕ) → w * suc k ≡ w * k + w
times_suc w k = grind arith

le_times : (w k : ℕ) → 0 < w → k ≤ w * k
le_times w zero h = omega arith
le_times w (suc k) h = omega (arith, le_times w k h, times_suc w k)

begins_before : (w j : ℕ) → 0 < w → 0 < j → w + j < 2 + w * j
begins_before w zero hw hj = absurd (omega arith)
begins_before w (suc k) hw hj = omega (arith, le_times w k hw, times_suc w k)

-- One key in a block of zeros, not in the first slot.
module _ (m : Hashmap) (key value : List ℕ) (zeros : AreZeros m.bytes) (block : IsBlock m)
    (fits : Fits m key value) (large : 5 ≤ m.size_allocated) (j : ℕ) (inside : j < m.size_allocated)
    (later_slot : 0 < j) where
  abbrev stored_key : Hashmap
  stored_key = fill_slot m j key value

  abbrev width : ℕ
  width = m.size_value + m.size_key

  byte_before : (p : ℕ) → p ≢ j / 4 → p < key_offset m j → byte_at stored_key.bytes p ≡ 0
  byte_before p ne lt = rw (fill_slot_bytes m j key value block fits inside) (
      get_or-set_ne (with_both m j key value block fits inside) (j / 4) p _ 0 (λ e. ne (sym e))
      ∙ byte_at-write_bytes_ne _ (key_offset m j + m.size_key) value p (inl (omega arith))
      ∙ byte_at-write_bytes_ne m.bytes (key_offset m j) key p (inl lt)
      ∙ zeros p)

  byte_of_key :
      (q : ℕ) → q < m.size_key → byte_at stored_key.bytes (key_offset m j + q) ≡ byte_at key q
  byte_of_key q lt = rw (fill_slot_bytes m j key value block fits inside) (
      get_or-set_ne (with_both m j key value block fits inside) (j / 4) _ _ 0 (omega arith)
      ∙ byte_at-write_bytes_ne _ (key_offset m j + m.size_key) value _ (inl (omega arith))
      ∙ byte_at-write_bytes m.bytes (key_offset m j) key q
          (omega (arith, room m j key value block fits inside, fits.key_length))
          (omega (arith, fits.key_length)))

  -- If the bytes compared are the key, then each of its bytes repeats an earlier one, or a zero.
  module _
      (same : (q : ℕ)
        → q < m.size_key
        → byte_at key q ≡ byte_at stored_key.bytes (width + j + q)) where
    all_zero : (n q : ℕ) → q < n → q < m.size_key → byte_at key q ≡ 0
    all_zero zero q lt small = absurd (omega arith)
    all_zero (suc n) q lt small = elim (dec_lt (width + j + q) (key_offset m j)) [
      | yes before ↦ same q small ∙ byte_before (width + j + q) (omega arith) before
      | no reached ↦
          same q small
          ∙ ap (byte_at stored_key.bytes) {x = width + j + q}
              {y = key_offset m j + (width + j + q - key_offset m j)} (omega arith)
          ∙ byte_of_key (width + j + q - key_offset m j)
              (omega (arith, begins_before width j (omega arith) later_slot))
          ∙ all_zero n (width + j + q - key_offset m j)
              (omega (arith, begins_before width j (omega arith) later_slot))
              (omega (arith, begins_before width j (omega arith) later_slot))
    ]

  matches_same :
      key_matches stored_key (width + j) key ≡ true
      → (q : ℕ) → q < m.size_key
      → byte_at key q ≡ byte_at stored_key.bytes (width + j + q)
  unfolding key_matches fill_slot tag_set
  matches_same match q lt =
      ap (byte_at key) {x = q} {y = 0 + q} (omega arith)
      ∙ sym (byte_at-read_bytes key 0 m.size_key q lt)
      ∙ ap (λ (bs : List ℕ). byte_at bs q) (sym (bytes_equal→≡ _ _ match))
      ∙ byte_at-read_bytes stored_key.bytes (width + j) m.size_key q lt

  key_missed : ¬ AreZeros key → key_matches stored_key (width + j) key ≡ false
  key_missed nonzero = elim (Bool-cases (key_matches stored_key (width + j) key)) [
    | inr differ ↦ differ
    | inl match ↦ absurd (
        nonzero (λ q. elim (dec_lt q m.size_key) [
          | yes lt ↦ all_zero (matches_same match) (suc q) q (omega arith) lt
          | no ge ↦ byte_past key q (omega (arith, fits.key_length))
        ]))
  ]

  stored_key-Misses : ¬ AreZeros key → Misses stored_key key
  unfolding fill_slot tag_set
  stored_key-Misses nonzero i lt taken = elim (ℕ_discrete j i) [
    | yes e ↦ subst (λ k. key_matches stored_key (width + k) key ≡ false) e (key_missed nonzero)
    | no ne ↦ absurd (
        ground (
          arith,
          ne,
          taken,
          tag_get-fill_slot m j key value block fits inside i lt,
          vacant m zeros i,
        ))
  ]

module _ (hash_func : List ℕ → ℕ) (size_key size_value : ℕ) where
  abbrev made : Hashmap
  made = hashmap_init hash_func size_key size_value 0

  made-AreZeros : AreZeros made.bytes
  unfolding hashmap_init
  made-AreZeros = replicate-AreZeros _

  first_insert :
      (depth : ℕ) (key value : List ℕ)
      → hashmap_insert (suc depth) made key value
        ≡ some (fill_slot made (hash_func key % size_init) key value)
  unfolding hashmap_insert insert_loop hashmap_init
  first_insert depth key value = rw (vacant made made-AreZeros (hash_func key % size_init)) refl

-- In a table that `hashmap_init` made, with keys and values of any sizes, the first key that is
-- inserted, if it is not all zeros and its hash does not lead to the first slot: `hashmap_insert`
-- returns, `hashmap_remove` of the key then returns too and leaves the table as it is, and
-- `hashmap_get` still finds the key's value.
pub hashmap_remove_misses :
    (hash_func : List ℕ → ℕ) (size_key size_value depth : ℕ) (key value : List ℕ)
    → Fits (hashmap_init hash_func size_key size_value 0) key value
    → ¬ AreZeros key
    → 0 < hash_func key % size_init
    → (m : Hashmap) × (hashmap_insert
          (suc depth)
          (hashmap_init hash_func size_key size_value 0)
          key
          value
        ≡ some m)
      × (hashmap_remove m key ≡ some m)
      × (stored m key ≡ some (some value))
hashmap_remove_misses hash_func size_key size_value depth key value fits nonzero later_slot =
    let (m, run, table, more, sizes, holds) =
      hashmap_insert_lem made0 (hashmap_init_lem hash_func size_key size_value).0 key value fits
        (unfold hashmap_init in omega arith)
        ((hashmap_init_lem hash_func size_key size_value).2 key
          (fits.key_length ∙ unfold hashmap_init in refl))
        depth in
    let same : m ≡ put = some_injective (sym run ∙ insert) in
    (
      put,
      insert,
      hashmap_remove-Misses put key (subst IsTable same table) (
          unfold hashmap_init in
          stored_key-Misses made0 key value (made-AreZeros hash_func size_key size_value)
            (hashmap_init_lem hash_func size_key size_value).0.block fits (omega arith)
            (hash_func key % size_init) (omega arith) later_slot nonzero),
      subst (λ t. stored t key ≡ some (some value)) same
          (holds key fits.key_length ∙ rw (bytes_equal_refl key) refl),
    )
  where
    made0 : Hashmap
    made0 = hashmap_init hash_func size_key size_value 0

    put : Hashmap
    put = fill_slot made0 (hash_func key % size_init) key value

    insert : hashmap_insert (suc depth) made0 key value ≡ some put
    insert = first_insert hash_func size_key size_value depth key value

    some_injective : {t t' : Hashmap} → ◌≡◌ {A = Option Hashmap} (some t) (some t') → t ≡ t'
    some_injective e = cc
