-- ===== src/Hashmap.antt =====
-- src/hashmap.c and include/hashmap.h: a hash table with open addressing in one block of memory,
-- two tag bits for each slot and then the keys and values.
-- A `size_t` of the table counts bytes of memory that exist, so its sums do not wrap; where an
-- index can step below zero (Deletion) the wrap is written out.
pub mod Bits
pub mod Slots
pub mod Probe
pub mod Table
pub mod Fill
pub mod Insert
pub mod Grow
pub mod Empty
pub mod Forget
pub mod Hash
pub mod Locking
pub mod Deletion
pub mod Missed
mod Tests
use cs489_router.Prelude.{
  ℕ, zero, suc, ◌+◌, ◌-◌, ◌*◌, ◌/◌, ◌%◌, ◌^◌, bit_and, bit_or, bit_xor, Bool, true, false, ◌&&◌,
  ◌||◌, Option, none, some, List, [], ◌∷◌, ltb, ◌==◌, if◌then◌else◌, length, byte_at, read_bytes,
  write_bytes, set, replicate,
}

-- The state of a `pthread_mutex_t`: whether it is locked, and how often it was unlocked while
-- nobody held it, which POSIX leaves undefined and Linux lets pass.
pub record Mutex : Type 0 where
  pub locked : Bool
  pub stray_unlocks : ℕ

abbrev pub unlocked : Mutex
unlocked = record { locked = false; stray_unlocks = 0 }

unfoldable pub mutex_unlock : Mutex → Mutex
mutex_unlock l =
    if l.locked
    then record l { locked = false }
    else record l { stray_unlocks = l.stray_unlocks + 1 }

-- `none`: the thread waits, and nobody of this model wakes it.
unfoldable pub mutex_lock : Mutex → Option Mutex
mutex_lock l = if l.locked then none else some (record l { locked = true })

-- `hashmap_t`
pub record Hashmap : Type 0 where
  pub hash_func : List ℕ → ℕ
  pub size : ℕ
  pub size_allocated : ℕ
  pub size_value : ℕ
  pub size_key : ℕ
  pub bytes : List ℕ
  pub lock : Mutex

abbrev pub size_init : ℕ
size_init = 11

abbrev pub tag_empty : ℕ
tag_empty = 0

abbrev pub tag_taken : ℕ
tag_taken = 1

abbrev pub tag_grave : ℕ
tag_grave = 2

-- `hashmap_lock` and `hashmap_unlock`
unfoldable pub hashmap_lock : Hashmap → Option Hashmap
unfolding mutex_lock
hashmap_lock m = elim (mutex_lock m.lock) [ none ↦ none | some l ↦ some (record m { lock = l }) ]

unfoldable pub hashmap_unlock : Hashmap → Hashmap
hashmap_unlock m = record m { lock = mutex_unlock m.lock }

abbrev pub zero_map : Hashmap
zero_map = record {
  hash_func = λ key. 0;
  size = 0;
  size_allocated = 0;
  size_value = 0;
  size_key = 0;
  bytes = [];
  lock = unlocked;
}

-- `mutex_result` is what `pthread_mutex_init` returns.
unfoldable pub hashmap_init : (List ℕ → ℕ) → ℕ → ℕ → ℕ → Hashmap
hashmap_init hash_func size_key size_value mutex_result =
    let size_tag_map = (size_init * 2 + 7) / 8 in
    let size_data_map = (size_value + size_key) * size_init in
    if mutex_result == 0
    then record {
      hash_func = hash_func;
      size = 0;
      size_allocated = size_init;
      size_value = size_value;
      size_key = size_key;
      bytes = replicate (size_tag_map + size_data_map) 0;
      lock = unlocked;
    }
    else zero_map

-- `ring_size` of `hashmap_cyclic_hash`: 2 ^ 31 - 1.
abbrev pub ring_size : ℕ
ring_size = 2 ^ 31 - 1

cyclic_hash_loop : List ℕ → ℕ → ℕ
cyclic_hash_loop [] hash = hash
cyclic_hash_loop (val ∷ bs) hash =
    cyclic_hash_loop bs (bit_xor (hash * 47 % 2 ^ 64) val % ring_size)

unfoldable pub hashmap_cyclic_hash : List ℕ → ℕ → ℕ
unfolding cyclic_hash_loop
hashmap_cyclic_hash ptr size = cyclic_hash_loop (read_bytes ptr 0 size) 0

-- The two tag bits of a slot within its byte, and the byte with other tag bits.
pub tag_bits : ℕ → ℕ → ℕ
tag_bits byte bit_index = bit_and (byte / 2 ^ bit_index) 3

pub with_tag_bits : ℕ → ℕ → ℕ → ℕ
with_tag_bits byte bit_index tag =
    bit_or (bit_and byte (255 - 3 * 2 ^ bit_index)) (tag * 2 ^ bit_index) % 256

unfoldable pub tag_get : Hashmap → ℕ → ℕ
unfolding tag_bits
tag_get m index = tag_bits (byte_at m.bytes (index / 4)) (index % 4 * 2)

unfoldable pub tag_set : Hashmap → ℕ → ℕ → Hashmap
unfolding with_tag_bits
tag_set m index tag = record m {
  bytes = set m.bytes (index / 4) (with_tag_bits (byte_at m.bytes (index / 4)) (index % 4 * 2) tag);
}

-- `key_ptr` of `hashmap_insert` and `hashmap_get`, as an offset in the block.
abbrev pub key_offset : Hashmap → ℕ → ℕ
key_offset m index = (m.size_allocated + 3) / 4 + (m.size_value + m.size_key) * index

unfoldable pub bytes_equal : List ℕ → List ℕ → Bool
bytes_equal [] [] = true
bytes_equal [] (y ∷ ys) = false
bytes_equal (x ∷ xs) [] = false
bytes_equal (x ∷ xs) (y ∷ ys) = x == y && bytes_equal xs ys

-- `memcmp(key_ptr, key, size_key) == 0` at an offset of the block.
unfoldable pub key_matches : Hashmap → ℕ → List ℕ → Bool
unfolding bytes_equal read_bytes
key_matches m offset key =
    bytes_equal (read_bytes m.bytes offset m.size_key) (read_bytes key 0 m.size_key)

-- The two copies into a free slot, its tag, and the count.
unfoldable pub fill_slot : Hashmap → ℕ → List ℕ → List ℕ → Hashmap
unfolding tag_set
fill_slot m index key value =
    let key_ptr = key_offset m index in
    let with_key = write_bytes m.bytes key_ptr (read_bytes key 0 m.size_key) in
    let with_value =
      write_bytes with_key (key_ptr + m.size_key) (read_bytes value 0 m.size_value) in
    let tagged = tag_set (record m { bytes = with_value }) index tag_taken in
    record tagged { size = m.size + 1 }

-- The loop of `hashmap_insert`; `none` if the fuel runs out, which is when no slot is free.
pub insert_loop : ℕ → ℕ → Hashmap → List ℕ → List ℕ → Option Hashmap
insert_loop zero index m key value = none
insert_loop (suc fuel) index m key value =
    let tag = tag_get m index in
    let rest = insert_loop fuel ((index + 1) % m.size_allocated) m key value in
    if tag == tag_empty || tag == tag_grave then some (fill_slot m index key value) else rest

-- A call that may not return, and what follows it.
infixl 5 ◌>>=◌
abbrev ◌>>=◌ : Option Hashmap → (Hashmap → Option Hashmap) → Option Hashmap
none >>= k = none
some m >>= k = k m

-- The inner loop of `hashmap_grow` over the tags of one byte, from tag `j` on. The source takes
-- the key and the value at `size_value + size_key + i * 4 + j` of the new block's data, whose tags
-- have `tags` bytes. They are read when `hashmap_insert` is called.
grow_tags :
    (Hashmap → List ℕ → List ℕ → Option Hashmap) → ℕ → ℕ → ℕ → ℕ → ℕ → Hashmap → Option Hashmap
grow_tags insert tags tag_byte i j zero m = some m
grow_tags insert tags tag_byte i j (suc left) m =
    let key_ptr = tags + (m.size_value + m.size_key + i * 4 + j) in
    let key = read_bytes m.bytes key_ptr m.size_key in
    let value = read_bytes m.bytes (key_ptr + m.size_key) m.size_value in
    let inserted = if tag_bits tag_byte (j * 2) == tag_taken then insert m key value else some m in
    inserted >>= grow_tags insert tags tag_byte i (j + 1) left

-- The outer loop over the old tag bytes, at byte `i`.
grow_bytes :
    (Hashmap → List ℕ → List ℕ → Option Hashmap) → ℕ → List ℕ → ℕ → ℕ → Hashmap → Option Hashmap
unfolding grow_tags
grow_bytes insert tags old_tags i zero m = some m
grow_bytes insert tags old_tags i (suc left) m = do
  m' ← grow_tags insert tags (byte_at old_tags i) i 0 4 m
  grow_bytes insert tags old_tags (i + 1) left m'

-- The new, empty block of `hashmap_grow`.
unfoldable pub enlarge : Hashmap → Hashmap
enlarge m =
    let size_tag_map = ((m.size_allocated * 2 + 1) * 2 + 7) / 8 in
    let size_data_map = (m.size_value + m.size_key) * (m.size_allocated * 2 + 1) in
    record m {
      size_allocated = m.size_allocated * 2 + 1;
      bytes = replicate (size_tag_map + size_data_map) 0;
      size = 0;
    }

-- `hashmap_insert` and `hashmap_grow` call one another; the fuel bounds how deep.
unfoldable mutual
  unfolding insert_loop grow_tags grow_bytes tag_bits enlarge

  pub hashmap_insert : ℕ → Hashmap → List ℕ → List ℕ → Option Hashmap
  hashmap_insert zero m key value = none
  hashmap_insert (suc depth) m key value =
      let hash = m.hash_func key in
      let grown = hashmap_grow depth m in
      let ready = if ltb m.size (m.size_allocated / 2) then some m else grown in
      ready >>= λ r. insert_loop r.size_allocated (hash % r.size_allocated) r key value

  pub hashmap_grow : ℕ → Hashmap → Option Hashmap
  hashmap_grow zero m = none
  hashmap_grow (suc depth) m =
      let r = enlarge m in
      grow_bytes (hashmap_insert depth) ((r.size_allocated * 2 + 7) / 8) m.bytes 0
        (m.size_allocated / 4) r

-- What a search along the slots comes to: it never ends, it meets an empty slot, or it stops at a
-- slot.
pub data Search : Type 0 where
  endless absent : Search
  found : ℕ → Search

-- The loop of `hashmap_get`.
pub get_loop : ℕ → ℕ → Hashmap → List ℕ → Search
get_loop zero index m key = endless
get_loop (suc fuel) index m key =
    let tag = tag_get m index in
    let rest = get_loop fuel ((index + 1) % m.size_allocated) m key in
    if tag == tag_empty
    then absent
    else if tag == tag_taken && key_matches m (key_offset m index) key
    then found index
    else rest

unfoldable pub search_slot : Hashmap → List ℕ → Search
unfolding get_loop
search_slot m key = get_loop m.size_allocated (m.hash_func key % m.size_allocated) m key

-- The returned pointer is the offset of the value in the block. A hit unlocks the table's mutex.
unfoldable pub get_result : Hashmap → Search → Option (Option ℕ × Hashmap)
get_result m endless = none
get_result m absent = some (none, m)
get_result m (found index) = some (some (key_offset m index + m.size_key), hashmap_unlock m)

unfoldable pub hashmap_get : Hashmap → List ℕ → Option (Option ℕ × Hashmap)
hashmap_get m key = get_result m (search_slot m key)

-- The value behind a pointer that `hashmap_get` returned.
unfoldable pub value_at : Hashmap → ℕ → List ℕ
value_at m value_ptr = read_bytes m.bytes value_ptr m.size_value

is_non_null : Option (Option ℕ × Hashmap) → Option (Bool × Hashmap)
is_non_null none = none
is_non_null (some (none, m)) = some (false, m)
is_non_null (some (some p, m)) = some (true, m)

unfoldable pub hashmap_contains : Hashmap → List ℕ → Option (Bool × Hashmap)
unfolding is_non_null
hashmap_contains m key = is_non_null (hashmap_get m key)
