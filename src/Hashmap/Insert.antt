-- ===== src/Hashmap/Insert.antt =====
-- `hashmap_insert` as long as the table does not have to grow.
use mathlib.Core.Path.{subst}
use native.Mathlib.Nat.{le_refl}
use native.Mathlib.Decide.{ℕ_discrete}
use cs489_router.Prelude.{
  ℕ, suc, ◌+◌, ◌/◌, ◌<◌, ◌≡◌, ◌≢◌, refl, sym, ap, ◌∙◌, inl, inr, Option, none, some, List, arith,
  if◌then◌else◌, length, Bool-cases,
}
use cs489_router.Hashmap.{
  Hashmap, bytes_equal, fill_slot, Search, endless, absent, found, search_slot, insert_loop,
  hashmap_insert,
}
use cs489_router.Hashmap.Slots.{Entry, entry_at, slot, Fits, fill_slot-IsBlock}
use cs489_router.Hashmap.Probe.{pos, Taken, Inserted, pos-lt, bytes_equal→≡, bytes_equal→≢}
use cs489_router.Hashmap.Fill.{same_sizes, slot_self, slot_other, slot_cases, occupied-after}
use cs489_router.Hashmap.Table.{
  IsTable, IsReachable, Outcome, home, home-lt, loose, not_full, insert_loop-Inserted-home,
  search_slot-Outcome, stored, stored-none, stored-eq, value_found, none_ne_some, some_injective,
}

-- Insertion below the load at which the table grows.
-- The table has as many slots, for keys and values of the same sizes.
abbrev pub KeepsSizes : Hashmap → Hashmap → Type 0
KeepsSizes m m' =
    (m'.size_allocated ≡ m.size_allocated)
    × (m'.size_key ≡ m.size_key)
    × (m'.size_value ≡ m.size_value)

module _ (m : Hashmap) (table : IsTable m) (key value : List ℕ) (fits : Fits m key value)
    (light : m.size < m.size_allocated / 2) (fresh : stored m key ≡ some none) where
  insert_enters :
      (depth : ℕ)
      → hashmap_insert (suc depth) m key value
        ≡ insert_loop m.size_allocated (home m key) m key value
  unfolding hashmap_insert
  insert_enters depth = ground arith

  -- `i` is the slot that the walk chooses.
  record Chosen (i : ℕ) : Type 0 where
    inside : i < m.size_allocated
    free : slot m i ≡ none
    step : ℕ
    below : step < m.size_allocated
    place : pos m (home m key) step ≡ i
    taken : Taken m (home m key) 0 step
    result : (depth : ℕ) → hashmap_insert (suc depth) m key value ≡ some (fill_slot m i key value)

  Chosen-of :
      (r : Option Hashmap)
      → insert_loop m.size_allocated (home m key) m key value ≡ r
      → Inserted m (home m key) key value 0 r
      → (i : ℕ) × Chosen i
  Chosen-of none e all = absurd (
      not_full m table.block (loose m table) (home m key)
        (home-lt m table.block (loose m table) key) all)
  Chosen-of (some m') e (t, lo, hi, free, taken, made) = (
    pos m (home m key) t,
    record {
      inside = pos-lt m table.block (home m key) (home-lt m table.block (loose m table) key) t;
      free = free;
      step = t;
      below = hi;
      place = refl;
      taken = taken;
      result = λ depth. insert_enters depth ∙ e ∙ ap some made;
    },
  )

  chosen : (i : ℕ) × Chosen i
  chosen = Chosen-of _ refl (insert_loop-Inserted-home m table.block (loose m table) key value)

  -- No slot has the key.
  no_slot : (i : ℕ) (e : Entry) → i < m.size_allocated → slot m i ≡ some e → e.0 ≢ key
  no_slot = stored-none m key table fits.key_length fresh

  module _ (i : ℕ) (c : Chosen i) where
    abbrev after : Hashmap
    after = fill_slot m i key value

    open_sizes :
        (after.size_allocated ≡ m.size_allocated)
        × (after.size_key ≡ m.size_key)
        × (after.size_value ≡ m.size_value)
        × (after.size ≡ m.size + 1)
    open_sizes = same_sizes m i key value table.block fits c.inside c.free

    kept_taken :
        (j : ℕ)
        → j < m.size_allocated
        → (e : Entry) × (slot m j ≡ some e)
        → (e : Entry) × (slot after j ≡ some e)
    kept_taken j lt (e, there) = elim (ℕ_discrete i j) [
      | yes same ↦ (
        (key, value),
        subst (λ k. slot after k ≡ some (key, value)) same
            (slot_self m i key value table.block fits c.inside c.free),
      )
      | no ne ↦ (e, (slot_other m i key value table.block fits c.inside c.free) j lt ne ∙ there)
    ]

    Taken_after : (h t : ℕ) → Taken m h 0 t → Taken after h 0 t
    unfolding fill_slot
    Taken_after h t all =
        λ s lo hi. kept_taken (pos m h s) (omega (arith, table.positive)) (all s lo hi)

    IsReachable-after :
        (j : ℕ) (e : Entry) → j < m.size_allocated → slot after j ≡ some e → IsReachable after j e
    unfolding fill_slot
    IsReachable-after j e lt there =
        elim ((slot_cases m i key value table.block fits c.inside c.free) j e lt there) [
          | inl (here, new) ↦
              subst (IsReachable after j) (sym new)
                (c.step, c.below, c.place ∙ sym here, Taken_after (home m key) c.step c.taken)
          | inr (ne, old) ↦
              let (t, below, place, taken) = table.reachable j e lt old in
              (t, below, place, Taken_after (home m e.0) t taken)
        ]

    unique_after :
        (j k : ℕ) (e e' : Entry)
        → j < m.size_allocated
        → k < m.size_allocated
        → slot after j ≡ some e
        → slot after k ≡ some e'
        → e.0 ≡ e'.0
        → j ≡ k
    unique_after j k e e' hj hk at_j at_k same =
        elim ((slot_cases m i key value table.block fits c.inside c.free) j e hj at_j) [
          | inl (j_new, e_new) ↦
              elim ((slot_cases m i key value table.block fits c.inside c.free) k e' hk at_k) [
                | inl (k_new, _) ↦ j_new ∙ sym k_new
                | inr (_, k_old) ↦
                    absurd (no_slot k e' hk k_old (sym same ∙ ap (λ (p : Entry). p.0) e_new))
              ]
          | inr (_, j_old) ↦
              elim ((slot_cases m i key value table.block fits c.inside c.free) k e' hk at_k) [
                | inl (_, e'_new) ↦
                    absurd (no_slot j e hj j_old (same ∙ ap (λ (p : Entry). p.0) e'_new))
                | inr (_, k_old) ↦ table.unique j k e e' hj hk j_old k_old same
              ]
        ]

    after-IsTable : IsTable after
    unfolding fill_slot
    after-IsTable = record {
      block = fill_slot-IsBlock m i key value table.block fits c.inside;
      positive = table.positive;
      counted = omega (
        arith,
        table.counted,
        (occupied-after m i key value table.block fits c.inside c.free) m.size_allocated c.inside
            (le_refl _),
      );
      load = omega (arith, light);
      reachable = IsReachable-after;
      unique = unique_after;
    }

    -- The search for the new key afterwards.
    found_new :
        (q : List ℕ) (r : Search)
        → key ≡ q
        → Outcome after q r
        → value_found after r ≡ some (some value)
    unfolding value_found
    found_new q endless same out = absurd out
    found_new q absent same out = absurd (
        out i (key, value) (omega (arith, open_sizes, c.inside))
          (slot_self m i key value table.block fits c.inside c.free) same)
    found_new q (found j) same (lt, there, is_q) =
        elim ((slot_cases m i key value table.block fits c.inside c.free) j _
          (omega (arith, open_sizes)) there) [
            | inl (_, new) ↦ ap (λ (p : Entry). some (some p.1)) new
            | inr (_, old) ↦ absurd (no_slot j _ (omega (arith, open_sizes)) old (is_q ∙ sym same))
          ]

    -- The searches for another key, before and afterwards.
    found_other :
        (q : List ℕ) (r r' : Search)
        → key ≢ q
        → Outcome m q r
        → Outcome after q r'
        → value_found after r' ≡ value_found m r
    unfolding value_found
    found_other q endless r' ne out out' = absurd out
    found_other q r endless ne out out' = absurd out'
    found_other q absent absent ne out out' = refl
    found_other q (found k) absent ne (lt, there, is_q) out' = absurd (
        out' k _ (omega (arith, open_sizes))
          ((slot_other m i key value table.block fits c.inside c.free) k lt apart ∙ there) is_q)
      where
        apart : i ≢ k
        apart e =
            none_ne_some (sym c.free ∙ subst (λ j. slot m j ≡ some (entry_at m k)) (sym e) there)
    found_other q r (found j) ne out (lt, there, is_q) =
        elim ((slot_cases m i key value table.block fits c.inside c.free) j _
          (omega (arith, open_sizes)) there) [
            | inl (_, new) ↦ absurd (ne (sym (ap (λ (p : Entry). p.0) new) ∙ is_q))
            | inr (_, old) ↦
                same_value r out (entry_at after j) (omega (arith, open_sizes)) old is_q
          ]
      where
        same_value :
            (r : Search)
            → Outcome m q r
            → (e : Entry) → j < m.size_allocated
            → slot m j ≡ some e
            → e.0 ≡ q
            → some (some e.1) ≡ value_found m r
        same_value endless o e lt old is_q = absurd o
        same_value absent o e lt old is_q = absurd (o j e lt old is_q)
        same_value (found k) (ltk, at_k, k_q) e lt old is_q =
            ap (λ (p : Entry). some (some p.1))
              (some_injective (
                sym old
                ∙ subst (λ x. slot m x ≡ some (entry_at m k))
                    (sym (table.unique j k e _ lt ltk old at_k (is_q ∙ sym k_q))) at_k))

    stored-after :
        (q : List ℕ)
        → length q ≡ m.size_key
        → stored after q ≡ (if bytes_equal key q then some (some value) else stored m q)
    stored-after q fit =
        rw (stored-eq after q, stored-eq m q)
          (elim (Bool-cases (bytes_equal key q)) [
            | inl same ↦ rw same (found_new q _ (bytes_equal→≡ key q same) out')
            | inr other ↦ rw other (
                found_other q _ _ (bytes_equal→≢ key q other) (search_slot-Outcome m table q fit)
                  out')
          ])
      where
        out' : Outcome after q (search_slot after q)
        out' = search_slot-Outcome after after-IsTable q (fit ∙ sym open_sizes.1)

  -- In a table below the load at which it grows, `hashmap_insert` of a key that the table does not
  -- hold returns; afterwards `hashmap_get` returns for every key, with the new value for the new
  -- key and as before for every other; the count is one more, the other sizes are the same, and the
  -- table keeps its invariant.
  pub hashmap_insert_lem :
      (depth : ℕ)
      → (m' : Hashmap) × (hashmap_insert (suc depth) m key value ≡ some m')
        × IsTable m'
        × (m'.size ≡ m.size + 1)
        × KeepsSizes m m'
        × ((q : List ℕ)
            → length q ≡ m.size_key
            → stored m' q ≡ (if bytes_equal key q then some (some value) else stored m q))
  hashmap_insert_lem depth =
      let (i, c) = chosen in
      (
        fill_slot m i key value,
        c.result depth,
        after-IsTable i c,
        (open_sizes i c).3,
        ((open_sizes i c).0, (open_sizes i c).1, (open_sizes i c).2),
        stored-after i c,
      )
