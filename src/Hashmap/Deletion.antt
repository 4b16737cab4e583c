-- ===== src/Hashmap/Deletion.antt =====
-- `hashmap_remove` of src/hashmap.c, which nothing calls.
use cs489_router.Prelude.{
  ℕ, zero, suc, ◌+◌, ◌-◌, ◌*◌, ◌%◌, ◌^◌, ◌&&◌, Option, none, some, List, ◌==◌, if◌then◌else◌,
  length,
}
use cs489_router.Hashmap.{
  Hashmap, Search, endless, absent, found, tag_empty, tag_taken, tag_grave, tag_get, tag_set,
  key_matches,
}

-- The first loop of `hashmap_remove`, which computes the key's place otherwise than `hashmap_get`.
unfoldable pub remove_loop : ℕ → ℕ → Hashmap → List ℕ → Search
remove_loop zero index m key = endless
remove_loop (suc fuel) index m key =
    let tag = tag_get m index in
    let rest = remove_loop fuel ((index + 1) % m.size_allocated) m key in
    let key_ptr = m.size_value + m.size_key + index in
    if tag == tag_empty
    then absent
    else if tag == tag_taken && key_matches m key_ptr key
    then found index
    else rest

-- The second loop: graves in front of an empty slot become empty. `index` is a `size_t`.
unfoldable pub sweep_loop : ℕ → ℕ → Hashmap → Option Hashmap
sweep_loop zero index m = none
sweep_loop (suc fuel) index m =
    let rest = sweep_loop fuel ((index + 2 ^ 64 - 1) % 2 ^ 64) (tag_set m index tag_empty) in
    if tag_get m index == tag_grave then rest else some m

-- What follows the first loop. Each round of the second clears a grave, and a block of `n` bytes
-- holds `4 * n` tags at most.
unfoldable pub bury : Hashmap → Search → Option Hashmap
unfolding sweep_loop
bury m endless = none
bury m absent = some m
bury m (found index) =
    let graved = tag_set m index tag_grave in
    let less = record graved { size = (m.size + 2 ^ 64 - 1) % 2 ^ 64 } in
    let swept = sweep_loop (4 * length m.bytes + 1) index less in
    if tag_get less (index + 1) == tag_empty then swept else some less

unfoldable pub hashmap_remove : Hashmap → List ℕ → Option Hashmap
unfolding remove_loop bury
hashmap_remove m key =
    bury m (remove_loop m.size_allocated (m.hash_func key % m.size_allocated) m key)
