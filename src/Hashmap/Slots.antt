-- ===== src/Hashmap/Slots.antt =====
-- The block of memory as an array of slots: what `hashmap_insert` writes into one slot.
use cs489_router.Prelude.{
  ℕ, ◌+◌, ◌*◌, ◌/◌, ◌%◌, ◌<◌, ◌≤◌, ◌≡◌, ◌≢◌, sym, ap, ap₂, ==_refl, ≢→==, ◌∙◌, inl, inr, ◌⊎◌,
  Option, none, some, List, arith, ◌==◌, if◌then◌else◌, length, set, byte_at, read_bytes,
  write_bytes, length-set, length-write_bytes, byte_at-write_bytes_ne, read_bytes-write_bytes,
  read_bytes-write_bytes_ne, read_bytes-set_ne, read_bytes_whole, AreZeros, write_bytes-zero,
  AllSmall, set-AllSmall, write_bytes-AllSmall, get_or-set_self, get_or-set_ne,
}
use native.Mathlib.Nat.{le_refl}
use native.Mathlib.Decide.{ℕ_discrete, dec_lt}
use cs489_router.Hashmap.{
  Hashmap, tag_taken, tag_get, tag_set, with_tag_bits, key_offset, fill_slot,
}
use cs489_router.Hashmap.Bits.{tag_bits-with_tag_bits, with_tag_bits-lt}

-- The key and the value of a taken slot.
abbrev pub Entry : Type 0
Entry = List ℕ × List ℕ

abbrev pub entry_at : Hashmap → ℕ → Entry
entry_at m i = (
  read_bytes m.bytes (key_offset m i) m.size_key,
  read_bytes m.bytes (key_offset m i + m.size_key) m.size_value,
)

unfoldable pub slot : Hashmap → ℕ → Option Entry
slot m i = if tag_get m i == tag_taken then some (entry_at m i) else none

-- The block has its length, holds bytes, and no slot of it is a grave.
pub record IsBlock (m : Hashmap) : Type 0 where
  pub whole : length m.bytes ≡ key_offset m m.size_allocated
  pub small : AllSmall m.bytes
  pub tags : (i : ℕ) → i < m.size_allocated → tag_get m i ≤ 1

-- A key and a value for the table.
pub record Fits (m : Hashmap) (key value : List ℕ) : Type 0 where
  pub key_length : length key ≡ m.size_key
  pub value_length : length value ≡ m.size_value
  pub key_small : AllSmall key
  pub value_small : AllSmall value

-- Slots lie one after the other.
offset_step : (w i j : ℕ) → i < j → w * i + w ≤ w * j
offset_step w i j h = grind arith

module _ (m : Hashmap) (i : ℕ) (key value : List ℕ) (block : IsBlock m) (fits : Fits m key value)
    (inside : i < m.size_allocated) where
  open m use {size_key, size_value, size_allocated, bytes}

  abbrev pub with_key : List ℕ
  with_key = write_bytes bytes (key_offset m i) key

  abbrev pub with_both : List ℕ
  with_both = write_bytes with_key (key_offset m i + size_key) value

  abbrev pub filled : List ℕ
  filled = set with_both (i / 4) (with_tag_bits (byte_at with_both (i / 4)) (i % 4 * 2) tag_taken)

  pub fill_slot_bytes : (fill_slot m i key value).bytes ≡ filled
  unfolding fill_slot tag_set
  fill_slot_bytes =
      rw (← fits.key_length, ← fits.value_length, read_bytes_whole key, read_bytes_whole value)

  pub room : key_offset m i + size_key + size_value ≤ length bytes
  room = omega (arith, block.whole, offset_step (size_value + size_key) i size_allocated inside)

  -- The copies leave the tags alone.
  tag_byte : (j : ℕ) → j < size_allocated → byte_at with_both (j / 4) ≡ byte_at bytes (j / 4)
  tag_byte j h =
      byte_at-write_bytes_ne with_key (key_offset m i + size_key) value (j / 4) (omega arith)
      ∙ byte_at-write_bytes_ne bytes (key_offset m i) key (j / 4) (omega arith)

  length-with_both : length with_both ≡ length bytes
  length-with_both =
      length-write_bytes with_key (key_offset m i + size_key) value
      ∙ length-write_bytes bytes (key_offset m i) key

  pub tag_get-fill_slot :
      (j : ℕ)
      → j < size_allocated
      → tag_get (fill_slot m i key value) j ≡ (if i == j then 1 else tag_get m j)
  unfolding tag_get
  tag_get-fill_slot j h = rw fill_slot_bytes (elim (ℕ_discrete (i / 4) (j / 4)) [
    | no ne ↦
        rw
          (
            get_or-set_ne with_both (i / 4) (j / 4)
                (with_tag_bits (byte_at with_both (i / 4)) (i % 4 * 2) tag_taken) 0 ne,
            tag_byte j h,
          )
          (ground arith)
    | yes e ↦
        rw
          (
            ← e,
            get_or-set_self with_both (i / 4)
                (with_tag_bits (byte_at with_both (i / 4)) (i % 4 * 2) tag_taken) 0
                (omega (arith, room, length-with_both)),
            tag_byte i inside,
          )
          (ground (
            arith,
            tag_bits-with_tag_bits (byte_at bytes (i / 4)) (i % 4) (j % 4) 1,
            block.small (i / 4),
          ))
  ])

  -- What a read behind the tags finds.
  read_filled :
      (at n : ℕ)
      → (size_allocated + 3) / 4 ≤ at
      → read_bytes filled at n ≡ read_bytes with_both at n
  read_filled at n h = read_bytes-set_ne with_both (i / 4) _ at n (omega arith)

  abbrev entry_in : List ℕ → ℕ → Entry
  entry_in mem j = (
    read_bytes mem (key_offset m j) size_key,
    read_bytes mem (key_offset m j + size_key) size_value,
  )

  written : entry_in with_both i ≡ (key, value)
  written =
      ap₂ (λ k v. (k, v))
        (read_bytes-write_bytes_ne with_key (key_offset m i + size_key) value (key_offset m i)
            size_key (inl (le_refl _))
          ∙ ap (read_bytes with_key (key_offset m i)) (sym fits.key_length)
          ∙ read_bytes-write_bytes bytes (key_offset m i) key
              (omega (arith, room, fits.key_length)))
        (ap (read_bytes with_both (key_offset m i + size_key)) (sym fits.value_length)
          ∙ read_bytes-write_bytes with_key (key_offset m i + size_key) value (
              omega
                (arith, room, fits.value_length, length-write_bytes bytes (key_offset m i) key)))

  kept_at :
      (at n j : ℕ)
      → i ≢ j
      → key_offset m j ≤ at
      → at + n ≤ key_offset m j + size_key + size_value
      → read_bytes with_both at n ≡ read_bytes bytes at n
  kept_at at n j ne lo hi =
      read_bytes-write_bytes_ne with_key (key_offset m i + size_key) value at n apart_value
      ∙ read_bytes-write_bytes_ne bytes (key_offset m i) key at n apart_key
    where
      apart :
          (key_offset m i + size_key + size_value ≤ key_offset m j)
          ⊎ (key_offset m j + size_key + size_value ≤ key_offset m i)
      apart = elim (dec_lt i j) [
        | yes lt ↦ inl (omega (arith, offset_step (size_value + size_key) i j lt))
        | no ge ↦ inr (omega (arith, offset_step (size_value + size_key) j i (omega arith)))
      ]

      apart_value :
          (at + n ≤ key_offset m i + size_key) ⊎ (key_offset m i + size_key + length value ≤ at)
      apart_value = elim apart [
        | inl before ↦ inr (omega (arith, fits.value_length))
        | inr after ↦ inl (omega arith)
      ]

      apart_key : (at + n ≤ key_offset m i) ⊎ (key_offset m i + length key ≤ at)
      apart_key = elim apart [
        | inl before ↦ inr (omega (arith, fits.key_length))
        | inr after ↦ inl (omega arith)
      ]

  kept : (j : ℕ) → i ≢ j → entry_in with_both j ≡ entry_in bytes j
  kept j ne =
      ap₂ (λ k v. (k, v)) (kept_at (key_offset m j) size_key j ne (le_refl _) (omega arith))
        (kept_at (key_offset m j + size_key) size_value j ne (omega arith) (le_refl _))

  entry_at-fill_slot :
      (j : ℕ)
      → entry_at (fill_slot m i key value) j ≡ (if i == j then (key, value) else entry_at m j)
  entry_at-fill_slot j =
      opened
      ∙ ap₂ (λ k v. (k, v)) (read_filled _ _ (omega arith)) (read_filled _ _ (omega arith))
      ∙ elim (ℕ_discrete i j) [
        | yes e ↦ rw (← e, ==_refl i) written
        | no ne ↦ rw (≢→== i j ne) (kept j ne)
      ]
    where
      opened : entry_at (fill_slot m i key value) j ≡ entry_in filled j
      opened = unfold fill_slot tag_set in rw (← fill_slot_bytes)

  -- `fill_slot` fills the one slot and keeps the others.
  pub slot-fill_slot :
      (j : ℕ)
      → j < size_allocated
      → slot (fill_slot m i key value) j ≡ (if i == j then some (key, value) else slot m j)
  unfolding slot
  slot-fill_slot j h = rw (tag_get-fill_slot j h, entry_at-fill_slot j) (ground arith)

  pub fill_slot-IsBlock : IsBlock (fill_slot m i key value)
  unfolding fill_slot
  fill_slot-IsBlock = record {
    whole = rw fill_slot_bytes (
        unfold fill_slot tag_set in
        (length-set with_both (i / 4) _ ∙ length-with_both ∙ block.whole));
    small = rw fill_slot_bytes (
        set-AllSmall with_both (i / 4) _
          (write_bytes-AllSmall _ _ _ (write_bytes-AllSmall _ _ _ block.small fits.key_small)
            fits.value_small)
          (with_tag_bits-lt _ _ _));
    tags = λ j h. rw (tag_get-fill_slot j h) (ground (arith, block.tags j));
  }

  -- A block of zeros behind the tags stays one if zeros are written.
  pub fill_slot-zero :
      AreZeros key
      → AreZeros value
      → ((j : ℕ) → (size_allocated + 3) / 4 ≤ j → byte_at bytes j ≡ 0)
      → (j : ℕ) → (size_allocated + 3) / 4 ≤ j
      → byte_at (fill_slot m i key value).bytes j ≡ 0
  fill_slot-zero zk zv h j le =
      rw
        (
          fill_slot_bytes,
          get_or-set_ne with_both (i / 4) j
              (with_tag_bits (byte_at with_both (i / 4)) (i % 4 * 2) tag_taken) 0 (omega arith),
        )
        (write_bytes-zero with_key (key_offset m i + size_key) value j zv
          (write_bytes-zero bytes (key_offset m i) key j zk (h j le)))
