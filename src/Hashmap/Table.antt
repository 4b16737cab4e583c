-- ===== src/Hashmap/Table.antt =====
-- The table as a partial function from keys to values: what `hashmap_get` finds, and what
-- `hashmap_insert` changes, as long as the table does not have to grow.
use mathlib.Core.Path.{subst}
use native.Mathlib.Nat.{mod-eq_of_lt}
use native.Mathlib.Decide.{ℕ_discrete, dec_lt}
use cs489_router.Prelude.{
  ℕ, zero, suc, ◌+◌, ◌/◌, ◌%◌, ◌<◌, ◌≤◌, ◌≡◌, ◌≢◌, refl, sym, ap, ◌∙◌, inl, inr, Option, none, some,
  List, arith, length, Option-cases,
}
use cs489_router.Hashmap.{
  Hashmap, Search, endless, absent, found, get_loop, search_slot, insert_loop, hashmap_get,
  get_result, value_at, hashmap_unlock,
}
use cs489_router.Hashmap.Slots.{Entry, entry_at, slot, IsBlock}
use cs489_router.Hashmap.Probe.{
  pos, Taken, Searched, Inserted, get_loop-Searched, insert_loop-Inserted, step_to, pos-lt,
}

-- How many of the first `k` slots are taken.
unfoldable pub occupied : Hashmap → ℕ → ℕ
occupied m zero = 0
occupied m (suc k) = occupied m k + elim (slot m k) [ none ↦ 0 | some e ↦ 1 ]

abbrev pub home : Hashmap → List ℕ → ℕ
home m key = m.hash_func key % m.size_allocated

-- A slot's key is found on the walk from the key's home.
abbrev pub IsReachable : Hashmap → ℕ → Entry → Type 0
IsReachable m i e =
    (t : ℕ) × (t < m.size_allocated) × (pos m (home m e.0) t ≡ i) × Taken m (home m e.0) 0 t

-- The representation invariant, for tables from which nothing was removed.
pub record IsTable (m : Hashmap) : Type 0 where
  pub block : IsBlock m
  pub positive : 0 < m.size_allocated
  pub counted : m.size ≡ occupied m m.size_allocated
  pub load : m.size ≤ m.size_allocated / 2
  pub reachable : (i : ℕ) (e : Entry) → i < m.size_allocated → slot m i ≡ some e → IsReachable m i e
  pub unique :
      (i j : ℕ) (e e' : Entry)
      → i < m.size_allocated
      → j < m.size_allocated
      → slot m i ≡ some e
      → slot m j ≡ some e'
      → e.0 ≡ e'.0
      → i ≡ j

free_slot : (m : Hashmap) (k : ℕ) → occupied m k < k → (i : ℕ) × (i < k) × (slot m i ≡ none)
unfolding occupied
free_slot m zero h = absurd (omega arith)
free_slot m (suc k) h = elim (Option-cases (slot m k)) [
  | inl free ↦ (k, omega arith, free)
  | inr (e, taken) ↦
      let (i, lt, free) = free_slot m k (ground (arith, taken)) in (i, omega arith, free)
]

pub none_ne_some : {e : Entry} → ◌≡◌ {A = Option Entry} none (some e) → ⊥
none_ne_some h = cc

pub some_injective : {e e' : Entry} → ◌≡◌ {A = Option Entry} (some e) (some e') → e ≡ e'
some_injective h = cc

-- A search ends, at the key's slot if it has one.
abbrev pub Holds : Hashmap → List ℕ → ℕ → Type 0
Holds m key i = (i < m.size_allocated) × (slot m i ≡ some (entry_at m i)) × ((entry_at m i).0 ≡ key)

abbrev pub Outcome : Hashmap → List ℕ → Search → Type 0
Outcome m key endless = ⊥
Outcome m key absent = (i : ℕ) (e : Entry) → i < m.size_allocated → slot m i ≡ some e → e.0 ≢ key
Outcome m key (found i) = Holds m key i

module _ (m : Hashmap) (block : IsBlock m)
    (loose : occupied m m.size_allocated < m.size_allocated) where
  pub home-lt : (key : List ℕ) → home m key < m.size_allocated
  home-lt key = omega arith

  pub start_pos : (key : List ℕ) → pos m (home m key) 0 ≡ home m key
  start_pos key =
      ap (λ (k : ℕ). k % m.size_allocated) {x = home m key + 0} {y = home m key} (omega arith)
      ∙ mod-eq_of_lt (home-lt key)

  -- A walk once round the table meets a free slot.
  pub not_full : (h : ℕ) → h < m.size_allocated → Taken m h 0 m.size_allocated → ⊥
  not_full h start all =
      let (i, lt, free) = free_slot m m.size_allocated loose in
      let (t, below, there) = step_to m block h start i lt in
      let (e, taken) = all t (omega arith) below in
      none_ne_some (sym free ∙ subst (λ j. slot m j ≡ some e) there taken)

  pub search_slot-Searched :
      (key : List ℕ) → length key ≡ m.size_key → Searched m (home m key) key 0 (search_slot m key)
  unfolding search_slot
  search_slot-Searched key fit =
      subst (λ at. Searched m (home m key) key 0 (get_loop m.size_allocated at m key))
        (start_pos key)
        (get_loop-Searched m block (home m key) (home-lt key) m.size_allocated 0 key fit
          (omega arith))

  pub insert_loop-Inserted-home :
      (key value : List ℕ)
      → Inserted m (home m key) key value 0 (insert_loop m.size_allocated (home m key) m key value)
  insert_loop-Inserted-home key value =
      subst
        (λ at. Inserted m (home m key) key value 0 (insert_loop m.size_allocated at m key value))
        (start_pos key)
        (insert_loop-Inserted m block (home m key) (home-lt key) m.size_allocated 0 key value
          (omega arith))

module _ (m : Hashmap) (table : IsTable m) where
  pub loose : occupied m m.size_allocated < m.size_allocated
  loose = omega (arith, table.counted, table.load, table.positive)

  outcome : (key : List ℕ) (r : Search) → Searched m (home m key) key 0 r → Outcome m key r
  outcome key endless all =
      not_full m table.block loose (home m key) (home-lt m table.block loose key) all
  outcome key (found i) (t, lo, hi, place, same, taken) = (
    subst (λ j. j < m.size_allocated) (sym place)
        (pos-lt m table.block (home m key) (home-lt m table.block loose key) t),
    taken,
    same,
  )
  outcome key absent (t, lo, hi, free, passed) = λ i e lt there same.
      let (u, below, at_u, taken) =
        subst
          (λ k.
            (u : ℕ) × (u < m.size_allocated) × (pos m (home m k) u ≡ i) × Taken m (home m k) 0 u)
          same (table.reachable i e lt there) in
      let at_u' : slot m (pos m (home m key) u) ≡ some e = rw at_u there in
      elim (dec_lt u t) [
        | yes before ↦
            let (e', found', other) = passed u (omega arith) before in
            other (ap (λ (p : Entry). p.0) (some_injective (sym found' ∙ at_u')) ∙ same)
        | no not_before ↦ elim (ℕ_discrete u t) [
          | yes same_step ↦
              none_ne_some
                (sym free ∙ subst (λ k. slot m (pos m (home m key) k) ≡ some e) same_step at_u')
          | no other_step ↦
              let (e', found') = taken t (omega arith) (omega arith) in
              none_ne_some (sym free ∙ found')
        ]
      ]

  -- A search ends: at the slot of the key, or with the knowledge that no slot has it.
  pub search_slot-Outcome :
      (key : List ℕ) → length key ≡ m.size_key → Outcome m key (search_slot m key)
  search_slot-Outcome key fit = outcome key _ (search_slot-Searched m table.block loose key fit)

-- What a caller of `hashmap_get` learns: `none` if the call never returns, else the value behind
-- the pointer, if there is one.
unfoldable pub read_pointer : Option (Option ℕ × Hashmap) → Option (Option (List ℕ))
read_pointer none = none
read_pointer (some (none, m)) = some none
read_pointer (some (some p, m)) = some (some (value_at m p))

unfoldable pub stored : Hashmap → List ℕ → Option (Option (List ℕ))
unfolding read_pointer
stored m key = read_pointer (hashmap_get m key)

unfoldable pub value_found : Hashmap → Search → Option (Option (List ℕ))
value_found m endless = none
value_found m absent = some none
value_found m (found i) = some (some (entry_at m i).1)

stored_search : (m : Hashmap) (r : Search) → read_pointer (get_result m r) ≡ value_found m r
unfolding read_pointer get_result value_found value_at hashmap_unlock
stored_search m endless = refl
stored_search m absent = refl
stored_search m (found i) = refl

pub stored-eq : (m : Hashmap) (key : List ℕ) → stored m key ≡ value_found m (search_slot m key)
unfolding stored hashmap_get
stored-eq m key = stored_search m (search_slot m key)

-- What a search says of a result that is known.
absent_of :
    (m : Hashmap) (key : List ℕ) (r : Search)
    → Outcome m key r
    → value_found m r ≡ some none
    → Outcome m key absent
unfolding value_found
absent_of m key endless no_end e = absurd no_end
absent_of m key absent out e = out
absent_of m key (found i) out e = cc

pub stored-none :
    (m : Hashmap) (key : List ℕ)
    → IsTable m
    → length key ≡ m.size_key
    → stored m key ≡ some none
    → Outcome m key absent
stored-none m key table fit e =
    absent_of m key (search_slot m key) (search_slot-Outcome m table key fit)
      (sym (stored-eq m key) ∙ e)
