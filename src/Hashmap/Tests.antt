-- ===== src/Hashmap/Tests.antt =====
-- The table at a small size: keys and values of one byte, hashed by the key's byte.
use cs489_router.Prelude.{
  ℕ, zero, suc, ◌+◌, ◌*◌, ◌<◌, ◌≡◌, refl, true, if◌then◌else◌, Option, none, some, List, [], ◌∷◌,
  arith, length, AreZeros, byte_at, read_bytes, write_bytes,
}
use cs489_router.Hashmap.Missed.{hashmap_remove_misses}
use cs489_router.Hashmap.Deletion.{hashmap_remove, remove_loop, bury, sweep_loop}
use cs489_router.Hashmap.{
  Hashmap, hashmap_init, hashmap_insert, hashmap_grow, hashmap_get, hashmap_cyclic_hash,
  hashmap_lock, ring_size, bytes_equal, enlarge, insert_loop, grow_tags, grow_bytes, get_loop,
  search_slot, get_result, key_matches, fill_slot, tag_get, tag_set, tag_bits, with_tag_bits,
  value_at, hashmap_unlock, mutex_unlock, mutex_lock, with_tag_bits,
}
use cs489_router.Hashmap.Slots.{Fits}
use cs489_router.Hashmap.Table.{IsTable, stored, read_pointer}
use cs489_router.Hashmap.Insert.{KeepsSizes, hashmap_insert_lem}
use cs489_router.Hashmap.Empty.{hashmap_init_lem}
use cs489_router.Hashmap.Forget.{hashmap_grow_forgets}
use cs489_router.Hashmap.Hash.{hashmap_cyclic_hash_lem, exact_hash}
use cs489_router.Hashmap.Locking.{hashmap_get-Handed, Handed, lock-IsTable}

abbrev first_byte : List ℕ → ℕ
first_byte key = byte_at key 0

abbrev fresh : Hashmap
fresh = hashmap_init first_byte 1 1 0

program : Unit {0}
unfolding hashmap_init hashmap_insert hashmap_grow hashmap_get hashmap_remove insert_loop grow_tags
    grow_bytes enlarge get_loop search_slot get_result key_matches fill_slot tag_get tag_set
    tag_bits with_tag_bits value_at hashmap_unlock mutex_unlock mutex_lock read_bytes write_bytes
    stored read_pointer bytes_equal hashmap_lock remove_loop bury sweep_loop
program = tt

-- Two keys with one hash lie in neighbouring slots.
abbrev seven : List ℕ
seven = 7 ∷ []

abbrev collision : Option Hashmap
collision = elim (hashmap_insert 4 fresh seven (70 ∷ [])) [
  | none ↦ none
  | some m ↦ hashmap_insert 4 m (18 ∷ []) (180 ∷ [])
]

found_both : elim collision [ none ↦ none | some m ↦ stored m (18 ∷ []) ] ≡ some (some (180 ∷ []))
unfolding program
found_both = refl

hashmap_init_lem_example :
    let m = hashmap_init first_byte 1 1 0 in
    IsTable m × (m.size ≡ 0) × ((q : List ℕ) → length q ≡ 1 → stored m q ≡ some none)
hashmap_init_lem_example = hashmap_init_lem first_byte 1 1

fresh-Fits : Fits fresh seven (70 ∷ [])
unfolding hashmap_init
fresh-Fits = record {
  key_length = refl;
  value_length = refl;
  key_small = small 7 (omega arith);
  value_small = small 70 (omega arith);
}
  where
    small : (b : ℕ) → b < 256 → (i : ℕ) → byte_at (b ∷ []) i < 256
    small b h zero = h
    small b h (suc i) = omega arith

hashmap_insert_lem_example :
    (m' : Hashmap) × (hashmap_insert 4 fresh seven (70 ∷ []) ≡ some m')
    × IsTable m'
    × (m'.size ≡ fresh.size + 1)
    × KeepsSizes fresh m'
    × ((q : List ℕ)
        → length q ≡ fresh.size_key
        → stored m' q ≡ (if bytes_equal seven q then some (some (70 ∷ [])) else stored fresh q))
hashmap_insert_lem_example =
    hashmap_insert_lem fresh (hashmap_init_lem first_byte 1 1).0 seven (70 ∷ []) fresh-Fits
      (unfold hashmap_init in omega arith) (unfold program in refl) 3

-- The table with one entry.
filled : (m' : Hashmap) × (hashmap_insert 4 fresh seven (70 ∷ []) ≡ some m')
filled =
    let (m', run, table, size, sizes, holds) =
      hashmap_insert_lem fresh (hashmap_init_lem first_byte 1 1).0 seven (70 ∷ []) fresh-Fits
        (unfold hashmap_init in omega arith) (unfold program in refl) 3 in
    (m', run)

hashmap_grow_forgets_example :
    (m' : Hashmap) × (hashmap_grow 2 filled.0 ≡ some m')
    × (m'.size_allocated ≡ filled.0.size_allocated * 2 + 1)
    × ((q : List ℕ) → length q ≡ filled.0.size_key → ¬ AreZeros q → stored m' q ≡ some none)
hashmap_grow_forgets_example = hashmap_grow_forgets filled.0 0

hashmap_cyclic_hash_lem_example :
    (hashmap_cyclic_hash (1 ∷ 2 ∷ 3 ∷ []) 3 < ring_size)
    × (hashmap_cyclic_hash (1 ∷ 2 ∷ 3 ∷ []) 3 ≡ exact_hash (read_bytes (1 ∷ 2 ∷ 3 ∷ []) 0 3) 0)
hashmap_cyclic_hash_lem_example = hashmap_cyclic_hash_lem (1 ∷ 2 ∷ 3 ∷ []) 3

hashmap_remove_misses_example :
    (m : Hashmap) × (hashmap_insert 4 fresh seven (70 ∷ []) ≡ some m)
    × (hashmap_remove m seven ≡ some m)
    × (stored m seven ≡ some (some (70 ∷ [])))
hashmap_remove_misses_example =
    hashmap_remove_misses first_byte 1 1 3 seven (70 ∷ []) fresh-Fits
      (λ zeros. absurd (omega (arith, zeros 0))) (omega arith)

abbrev held : Hashmap
held = record fresh { lock = record { locked = true; stray_unlocks = 0 } }

hashmap_get-Handed_example :
    (p : Option ℕ) × (m' : Hashmap) × (hashmap_get held seven ≡ some (p, m'))
    × Handed held seven p m'
hashmap_get-Handed_example =
    hashmap_get-Handed held seven (lock-IsTable fresh _ (hashmap_init_lem first_byte 1 1).0)
      (unfold hashmap_init in refl) refl
