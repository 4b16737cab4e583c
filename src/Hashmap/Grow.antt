-- ===== src/Hashmap/Grow.antt =====
-- `hashmap_grow` reads the entries to move from the new block, which holds only zeros.
use mathlib.Core.Path.{subst}
use native.Mathlib.Nat.{le_refl}
use cs489_router.Prelude.{
  ℕ, ◌+◌, ◌<◌, ◌≡◌, refl, sym, ap, ◌∙◌, inl, inr, Option, none, some, List, arith, length,
}
use cs489_router.Hashmap.{Hashmap, fill_slot, Search, endless, absent, found}
use cs489_router.Hashmap.Slots.{Entry, slot, IsBlock, Fits, fill_slot-IsBlock}
use cs489_router.Hashmap.Probe.{pos, Searched, Inserted, pos-lt}
use cs489_router.Hashmap.Fill.{slot_cases, occupied-after}
use cs489_router.Hashmap.Table.{
  home, occupied, not_full, home-lt, search_slot-Searched, stored, stored-eq, value_found,
}

-- A table with a free slot, whose keys all satisfy `P`. Two slots may have the same key.
pub record Sparse (P : List ℕ → Type 0) (r : Hashmap) : Type 0 where
  pub block : IsBlock r
  pub counted : r.size ≡ occupied r r.size_allocated
  pub loose : r.size < r.size_allocated
  pub keys : (i : ℕ) (e : Entry) → i < r.size_allocated → slot r i ≡ some e → P e.0

module _ (P : List ℕ → Type 0) (r : Hashmap) (sparse : Sparse P r) where
  pub loose' : occupied r r.size_allocated < r.size_allocated
  loose' = omega (arith, sparse.counted, sparse.loose)

  stored_of :
      (q : List ℕ) (s : Search) → ¬ P q → Searched r (home r q) q 0 s → value_found r s ≡ some none
  unfolding value_found
  stored_of q endless unlike all =
      absurd (not_full r sparse.block loose' (home r q) (home-lt r sparse.block loose' q) all)
  stored_of q absent unlike searched = refl
  stored_of q (found i) unlike (t, lo, hi, place, same, taken) =
      absurd (unlike (subst P same (sparse.keys i _ inside taken)))
    where
      inside : i < r.size_allocated
      inside =
          subst (λ j. j < r.size_allocated) (sym place)
            (pos-lt r sparse.block (home r q) (home-lt r sparse.block loose' q) t)

  -- A search for another key ends at a free slot.
  pub sparse_stored : (q : List ℕ) → length q ≡ r.size_key → ¬ P q → stored r q ≡ some none
  sparse_stored q fit unlike =
      stored-eq r q ∙ stored_of q _ unlike (search_slot-Searched r sparse.block loose' q fit)

  module _ (key value : List ℕ) (fits : Fits r key value) (more : r.size + 1 < r.size_allocated)
      (wanted : P key) where
    Sparse-fill :
        (i : ℕ) → i < r.size_allocated → slot r i ≡ none → Sparse P (fill_slot r i key value)
    unfolding fill_slot
    Sparse-fill i inside free = record {
      block = fill_slot-IsBlock r i key value sparse.block fits inside;
      counted = omega (
        arith,
        sparse.counted,
        occupied-after r i key value sparse.block fits inside free r.size_allocated inside
            (le_refl _),
      );
      loose = more;
      keys = λ j e lt there.
          elim (slot_cases r i key value sparse.block fits inside free j e lt there) [
            | inl (_, new) ↦ subst (λ (p : Entry). P p.0) (sym new) wanted
            | inr (_, old) ↦ sparse.keys j e lt old
          ];
    }

    pub filled_of :
        (o : Option Hashmap)
        → Inserted r (home r key) key value 0 o
        → (i : ℕ) × (i < r.size_allocated)
          × (o ≡ some (fill_slot r i key value))
          × Sparse P (fill_slot r i key value)
    filled_of none all =
        absurd (not_full r sparse.block loose' (home r key) (home-lt r sparse.block loose' key) all)
    filled_of (some r') (t, lo, hi, free, taken, made) =
        let i = pos r (home r key) t in
        let inside = pos-lt r sparse.block (home r key) (home-lt r sparse.block loose' key) t in
        (i, inside, ap some made, Sparse-fill i inside free)
