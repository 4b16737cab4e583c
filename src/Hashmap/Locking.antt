-- ===== src/Hashmap/Locking.antt =====
-- The mutex of the table around a call of `hashmap_get`.
use cs489_router.Prelude.{
  ℕ, zero, suc, ◌+◌, ◌%◌, ◌≡◌, refl, sym, ap, ◌∙◌, true, false, Option, none, some, List, length,
}
use cs489_router.Hashmap.{
  Hashmap, Mutex, tag_get, Search, endless, absent, found, search_slot, get_loop, key_matches,
  get_result, is_non_null, hashmap_get, hashmap_contains, hashmap_unlock, mutex_unlock, value_at,
  key_offset,
}
use cs489_router.Hashmap.Slots.{slot, entry_at}
use cs489_router.Hashmap.Table.{
  IsTable, occupied, Outcome, stored, read_pointer, search_slot-Outcome, stored-eq, value_found,
}

-- What a caller that holds the mutex has after the call: still the mutex, if nothing was found;
-- otherwise the mutex is free, and the caller's own unlock is one of a free mutex.
abbrev pub Handed : Hashmap → List ℕ → Option ℕ → Hashmap → Type 0
Handed m key none m' = (stored m key ≡ some none) × (m' ≡ m) × (m'.lock.locked ≡ true)
Handed m key (some p) m' =
    (stored m key ≡ some (some (value_at m' p)))
    × (m' ≡ hashmap_unlock m)
    × (m'.lock.locked ≡ false)
    × ((hashmap_unlock m').lock.stray_unlocks ≡ m.lock.stray_unlocks + 1)

lock-occupied :
    (m : Hashmap) (l : Mutex) (k : ℕ) → occupied (record m { lock = l }) k ≡ occupied m k
unfolding occupied slot tag_get
lock-occupied m l zero = refl
lock-occupied m l (suc k) = rw (lock-occupied m l k)

-- The mutex is no part of the table's contents.
pub lock-IsTable : (m : Hashmap) (l : Mutex) → IsTable m → IsTable (record m { lock = l })
unfolding slot tag_get
lock-IsTable m l table = record {
  block = record { whole = table.block.whole; small = table.block.small; tags = table.block.tags };
  positive = table.positive;
  counted = table.counted ∙ sym (lock-occupied m l m.size_allocated);
  load = table.load;
  reachable = table.reachable;
  unique = table.unique;
}

Handed-of :
    (m : Hashmap) (key : List ℕ) (r : Search)
    → Outcome m key r
    → m.lock.locked ≡ true
    → stored m key ≡ read_pointer (get_result m r)
    → (p : Option ℕ) × (m' : Hashmap) × (get_result m r ≡ some (p, m')) × Handed m key p m'
unfolding get_result read_pointer
Handed-of m key endless out held reads = absurd out
Handed-of m key absent out held reads = (none, m, refl, (reads, refl, held))
Handed-of m key (found i) out held reads = (
  some _,
  hashmap_unlock m,
  refl,
  unfold hashmap_unlock mutex_unlock value_at in (reads, refl, rw held, rw held),
)

-- `hashmap_get`, called by a thread that holds the table's mutex, as its callers do: if it finds
-- nothing, the thread still holds the mutex; if it finds the key, it has released the mutex, and
-- the unlock that the caller makes afterwards is one of a mutex that nobody holds.
pub hashmap_get-Handed :
    (m : Hashmap) (key : List ℕ)
    → IsTable m
    → length key ≡ m.size_key
    → m.lock.locked ≡ true
    → (p : Option ℕ) × (m' : Hashmap) × (hashmap_get m key ≡ some (p, m')) × Handed m key p m'
unfolding hashmap_get stored
hashmap_get-Handed m key table fit held =
    Handed-of m key (search_slot m key) (search_slot-Outcome m table key fit) held refl

get_loop-lock :
    (m : Hashmap) (l : Mutex) (fuel at : ℕ) (key : List ℕ)
    → get_loop fuel at (record m { lock = l }) key ≡ get_loop fuel at m key
unfolding get_loop tag_get key_matches
get_loop-lock m l zero at key = refl
get_loop-lock m l (suc fuel) at key = rw (get_loop-lock m l fuel ((at + 1) % m.size_allocated) key)

value_found-lock :
    (m : Hashmap) (l : Mutex) (s : Search) → value_found (record m { lock = l }) s ≡ value_found m s
unfolding value_found
value_found-lock m l endless = refl
value_found-lock m l absent = refl
value_found-lock m l (found i) = refl

-- What a caller learns of a key does not depend on the mutex.
pub stored-lock :
    (m : Hashmap) (l : Mutex) (key : List ℕ) → stored (record m { lock = l }) key ≡ stored m key
unfolding search_slot
stored-lock m l key =
    stored-eq (record m { lock = l }) key
    ∙ ap (value_found (record m { lock = l }))
        (get_loop-lock m l m.size_allocated (m.hash_func key % m.size_allocated) key)
    ∙ value_found-lock m l (search_slot m key)
    ∙ sym (stored-eq m key)

found_only :
    (m : Hashmap) (v : List ℕ) (s : Search)
    → value_found m s ≡ some (some v)
    → (i : ℕ) × (s ≡ found i) × ((entry_at m i).1 ≡ v)
unfolding value_found
found_only m v endless e = cc
found_only m v absent e = cc
found_only m v (found i) e = (i, refl, cc)

absent_only : (m : Hashmap) (s : Search) → value_found m s ≡ some none → s ≡ absent
unfolding value_found
absent_only m endless e = cc
absent_only m absent e = refl
absent_only m (found i) e = cc

-- Calls of which the outcome is known.
pub hashmap_get_hit :
    (m : Hashmap) (key v : List ℕ)
    → stored m key ≡ some (some v)
    → (p : ℕ) × (hashmap_get m key ≡ some (some p, hashmap_unlock m))
      × (value_at (hashmap_unlock m) p ≡ v)
unfolding hashmap_get get_result value_at hashmap_unlock
hashmap_get_hit m key v e =
    let (i, at, same) = found_only m v (search_slot m key) (sym (stored-eq m key) ∙ e) in
    (key_offset m i + m.size_key, ap (get_result m) at, same)

pub hashmap_get_miss :
    (m : Hashmap) (key : List ℕ) → stored m key ≡ some none → hashmap_get m key ≡ some (none, m)
unfolding hashmap_get get_result
hashmap_get_miss m key e = rw (absent_only m (search_slot m key) (sym (stored-eq m key) ∙ e))

pub hashmap_contains_hit :
    (m : Hashmap) (key v : List ℕ)
    → stored m key ≡ some (some v)
    → hashmap_contains m key ≡ some (true, hashmap_unlock m)
unfolding hashmap_contains is_non_null
hashmap_contains_hit m key v e = let (p, run, same) = hashmap_get_hit m key v e in rw run

pub hashmap_contains_miss :
    (m : Hashmap) (key : List ℕ)
    → stored m key ≡ some none
    → hashmap_contains m key ≡ some (false, m)
unfolding hashmap_contains is_non_null
hashmap_contains_miss m key e = rw (hashmap_get_miss m key e)
