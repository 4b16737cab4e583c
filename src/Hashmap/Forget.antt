-- ===== src/Hashmap/Forget.antt =====
-- `hashmap_grow` and the entries of the old table.
use cs489_router.Prelude.{
  ℕ, zero, suc, ◌+◌, ◌*◌, ◌/◌, ◌<◌, ◌≤◌, ◌≡◌, refl, sym, ◌∙◌, inl, inr, none, some, List, arith,
  ◌==◌, length, length-replicate, byte_at, read_bytes, length-read_bytes, read_bytes-AreZeros,
  AreZeros, replicate-AreZeros, AllSmall, Bool-cases,
}
use cs489_router.Hashmap.{
  Hashmap, tag_taken, tag_bits, fill_slot, insert_loop, enlarge, grow_tags, grow_bytes,
  hashmap_insert, hashmap_grow,
}
use cs489_router.Hashmap.Slots.{Fits, fill_slot-zero}
use cs489_router.Hashmap.Empty.{zeros-IsBlock, none_occupied, vacant_slot}
use cs489_router.Hashmap.Table.{none_ne_some, home, stored, insert_loop-Inserted-home}
use cs489_router.Hashmap.Grow.{Sparse, loose', filled_of, sparse_stored}

-- The new table while at most `k` entries were moved, where the old table `m` had its slots.
record Blank (m : Hashmap) (k : ℕ) (r : Hashmap) : Type 0 where
  sparse : Sparse AreZeros r
  zeros : (j : ℕ) → (r.size_allocated + 3) / 4 ≤ j → byte_at r.bytes j ≡ 0
  width : r.size_allocated ≡ m.size_allocated * 2 + 1
  few : r.size ≤ k
  key_size : r.size_key ≡ m.size_key
  value_size : r.size_value ≡ m.size_value

AreZeros-AllSmall : (bs : List ℕ) → AreZeros bs → AllSmall bs
AreZeros-AllSmall bs z i = omega (arith, z i)

module _ (m : Hashmap) where
  weaken : {k l : ℕ} {r : Hashmap} → k ≤ l → Blank m k r → Blank m l r
  weaken le b = record {
    sparse = b.sparse;
    zeros = b.zeros;
    width = b.width;
    few = omega (arith, b.few);
    key_size = b.key_size;
    value_size = b.value_size;
  }

  Blank-fill :
      (k i : ℕ) (r : Hashmap) (key value : List ℕ)
      → Blank m k r
      → Fits r key value
      → AreZeros key
      → AreZeros value
      → i < r.size_allocated
      → Sparse AreZeros (fill_slot r i key value)
      → Blank m (k + 1) (fill_slot r i key value)
  unfolding fill_slot
  Blank-fill k i r key value b fits zk zv inside sparse = record {
    sparse = sparse;
    zeros = fill_slot-zero r i key value b.sparse.block fits inside zk zv b.zeros;
    width = b.width;
    few = omega (arith, b.few);
    key_size = b.key_size;
    value_size = b.value_size;
  }

  -- A zero key with a zero value is inserted, and the table does not grow again.
  insert_Blank :
      (depth k : ℕ) (r : Hashmap) (key value : List ℕ)
      → Blank m k r
      → k < m.size_allocated
      → length key ≡ r.size_key
      → length value ≡ r.size_value
      → AreZeros key
      → AreZeros value
      → (r' : Hashmap) × (hashmap_insert (suc depth) r key value ≡ some r') × Blank m (k + 1) r'
  insert_Blank depth k r key value b lt lk lv zk zv =
      let (i, inside, made, sparse) =
        filled_of AreZeros r b.sparse key value fits (omega (arith, b.few, b.width)) zk _
          (insert_loop-Inserted-home r b.sparse.block (loose' AreZeros r b.sparse) key value) in
      (
        fill_slot r i key value,
        enters ∙ made,
        Blank-fill k i r key value b fits zk zv inside sparse,
      )
    where
      fits : Fits r key value
      fits = record {
        key_length = lk;
        value_length = lv;
        key_small = AreZeros-AllSmall key zk;
        value_small = AreZeros-AllSmall value zv;
      }

      light : r.size < r.size_allocated / 2
      light = omega (arith, b.few, b.width)

      enters :
          hashmap_insert (suc depth) r key value
          ≡ insert_loop r.size_allocated (home r key) r key value
      enters = unfold hashmap_insert in ground arith

  module _ (tags : ℕ) (behind : (m.size_allocated * 2 + 1 + 3) / 4 ≤ tags) where
    -- The entry that one round of the loop reads and inserts.
    round_Blank :
        (depth k at : ℕ) (r : Hashmap)
        → Blank m k r
        → k < m.size_allocated
        → (r' : Hashmap) × (hashmap_insert
              (suc depth)
              r
              (read_bytes r.bytes (tags + at) r.size_key)
              (read_bytes r.bytes (tags + at + r.size_key) r.size_value)
            ≡ some r')
          × Blank m (k + 1) r'
    round_Blank depth k at r b lt =
        insert_Blank depth k r _ _ b lt (length-read_bytes r.bytes (tags + at) r.size_key)
          (length-read_bytes r.bytes (tags + at + r.size_key) r.size_value)
          (read_bytes-AreZeros r.bytes _ _ (λ j le. b.zeros j (omega (arith, b.width))))
          (read_bytes-AreZeros r.bytes _ _ (λ j le. b.zeros j (omega (arith, b.width))))

    grow_tags-Blank :
        (depth tag_byte i j left : ℕ) (r : Hashmap)
        → Blank m (i * 4 + j) r
        → i * 4 + j + left ≤ m.size_allocated
        → (r' : Hashmap) × (grow_tags (hashmap_insert (suc depth)) tags tag_byte i j left r
            ≡ some r')
          × Blank m (i * 4 + j + left) r'
    unfolding grow_tags
    grow_tags-Blank depth tag_byte i j zero r b le = (r, refl, weaken (omega arith) b)
    grow_tags-Blank depth tag_byte i j (suc left) r b le =
        elim (Bool-cases (tag_bits tag_byte (j * 2) == tag_taken)) [
          | inl taken ↦
              let (r₁, inserted, b₁) =
                round_Blank depth (i * 4 + j) (r.size_value + r.size_key + i * 4 + j) r b
                  (omega arith) in
              let (r', rest, b') =
                grow_tags-Blank depth tag_byte i (j + 1) left r₁ (weaken (omega arith) b₁)
                  (omega arith) in
              (r', rw (taken, inserted) rest, weaken (omega arith) b')
          | inr other ↦
              let (r', rest, b') =
                grow_tags-Blank depth tag_byte i (j + 1) left r (weaken (omega arith) b)
                  (omega arith) in
              (r', rw other rest, weaken (omega arith) b')
        ]

    grow_bytes-Blank :
        (depth : ℕ) (old_tags : List ℕ) (i left : ℕ) (r : Hashmap)
        → Blank m (i * 4) r
        → (i + left) * 4 ≤ m.size_allocated
        → (r' : Hashmap) × (grow_bytes (hashmap_insert (suc depth)) tags old_tags i left r
            ≡ some r')
          × Blank m ((i + left) * 4) r'
    unfolding grow_bytes
    grow_bytes-Blank depth old_tags i zero r b le = (r, refl, weaken (omega arith) b)
    grow_bytes-Blank depth old_tags i (suc left) r b le =
        let (r₁, inner, b₁) =
          grow_tags-Blank depth (byte_at old_tags i) i 0 4 r (weaken (omega arith) b)
            (omega arith) in
        let (r', rest, b') =
          grow_bytes-Blank depth old_tags (i + 1) left r₁ (weaken (omega arith) b₁) (omega arith) in
        (r', rw inner rest, weaken (omega arith) b')

-- The new block before anything is moved.
module _ (m : Hashmap) where
  zeros_at : AreZeros (enlarge m).bytes
  unfolding enlarge
  zeros_at = replicate-AreZeros _

  enlarge-Blank : Blank m 0 (enlarge m)
  unfolding enlarge
  enlarge-Blank = record {
    sparse = record {
      block = zeros-IsBlock (enlarge m) zeros_at (length-replicate _ 0 ∙ omega arith);
      counted = sym (none_occupied (enlarge m) zeros_at (m.size_allocated * 2 + 1));
      loose = omega arith;
      keys =
          λ j e h there. absurd (none_ne_some (sym (vacant_slot (enlarge m) zeros_at j) ∙ there));
    };
    zeros = λ j h. zeros_at j;
    width = refl;
    few = omega arith;
    key_size = refl;
    value_size = refl;
  }

  -- `hashmap_grow` returns, and forgets every entry of the table, whatever it held: a search for
  -- any key that is not all zeros then finds nothing.
  pub hashmap_grow_forgets :
      (depth : ℕ)
      → (m' : Hashmap) × (hashmap_grow (suc (suc depth)) m ≡ some m')
        × (m'.size_allocated ≡ m.size_allocated * 2 + 1)
        × ((q : List ℕ) → length q ≡ m.size_key → ¬ AreZeros q → stored m' q ≡ some none)
  hashmap_grow_forgets depth =
      let (m', run, b) =
        grow_bytes-Blank m (((m.size_allocated * 2 + 1) * 2 + 7) / 8) (omega arith) depth m.bytes 0
          (m.size_allocated / 4) (enlarge m) enlarge-Blank (omega arith) in
      (
        m',
        unfold hashmap_grow enlarge in run,
        b.width,
        λ q fit unlike. sparse_stored AreZeros m' b.sparse q (fit ∙ sym b.key_size) unlike,
      )
