-- ===== src/Hashmap/Fill.antt =====
-- The slots of a table in which one free slot was filled.
use mathlib.Core.Path.{subst}
use native.Mathlib.Decide.{ℕ_discrete}
use cs489_router.Prelude.{
  ℕ, zero, suc, ◌+◌, ◌<◌, ◌≤◌, ◌≡◌, ◌≢◌, refl, sym, ◌∙◌, inl, inr, ◌⊎◌, none, some, List, arith,
  ==_refl, ≢→==,
}
use cs489_router.Hashmap.{Hashmap, fill_slot}
use cs489_router.Hashmap.Slots.{Entry, slot, IsBlock, Fits, slot-fill_slot}
use cs489_router.Hashmap.Table.{occupied, some_injective}

module _ (m : Hashmap) (i : ℕ) (key value : List ℕ) (block : IsBlock m) (fits : Fits m key value)
    (inside : i < m.size_allocated) (free : slot m i ≡ none) where
  abbrev pub after : Hashmap
  after = fill_slot m i key value

  pub same_sizes :
      (after.size_allocated ≡ m.size_allocated)
      × (after.size_key ≡ m.size_key)
      × (after.size_value ≡ m.size_value)
      × (after.size ≡ m.size + 1)
  unfolding fill_slot
  same_sizes = (refl, refl, refl, refl)

  pub slot_self : slot after i ≡ some (key, value)
  slot_self = slot-fill_slot m i key value block fits inside i inside ∙ rw (==_refl i)

  pub slot_other : (j : ℕ) → j < m.size_allocated → i ≢ j → slot after j ≡ slot m j
  slot_other j lt ne = slot-fill_slot m i key value block fits inside j lt ∙ rw (≢→== i j ne)

  pub slot_cases :
      (j : ℕ) (e : Entry)
      → j < m.size_allocated
      → slot after j ≡ some e
      → ((j ≡ i) × (e ≡ (key, value))) ⊎ ((i ≢ j) × (slot m j ≡ some e))
  slot_cases j e lt there = elim (ℕ_discrete i j) [
    | yes same ↦ inl (
      sym same,
      some_injective (sym there ∙ subst (λ k. slot after k ≡ some (key, value)) same slot_self),
    )
    | no ne ↦ inr (ne, sym (slot_other j lt ne) ∙ there)
  ]

  occupied_before : (k : ℕ) → k ≤ i → occupied after k ≡ occupied m k
  unfolding occupied
  occupied_before zero h = refl
  occupied_before (suc k) h =
      rw (slot_other k (omega (arith, inside)) (omega arith), occupied_before k (omega arith))

  pub occupied-after : (k : ℕ) → i < k → k ≤ m.size_allocated → occupied after k ≡ occupied m k + 1
  unfolding occupied
  occupied-after zero h le = absurd (omega arith)
  occupied-after (suc k) h le = elim (ℕ_discrete i k) [
    | yes same ↦ rw (← same, slot_self, free, occupied_before i (omega arith)) (omega arith)
    | no ne ↦
        rw (slot_other k (omega arith) ne, occupied-after k (omega arith) (omega arith))
          (omega arith)
  ]
