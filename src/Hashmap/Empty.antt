-- ===== src/Hashmap/Empty.antt =====
-- Tables whose block holds only zeros, as `calloc` gives it: `hashmap_init`.
use native.Mathlib.Nat.{zero-div}
use cs489_router.Prelude.{
  ℕ, zero, suc, ◌/◌, ◌<◌, ◌≡◌, refl, sym, ◌∙◌, none, some, List, arith, length, length-replicate,
  AreZeros, replicate-AreZeros,
}
use cs489_router.Hashmap.{
  Hashmap, tag_get, tag_bits, key_offset, hashmap_init, Search, endless, absent, found,
}
use cs489_router.Hashmap.Slots.{slot, IsBlock}
use cs489_router.Hashmap.Table.{
  IsTable, Outcome, occupied, stored, stored-eq, value_found, search_slot-Outcome, none_ne_some,
}

module _ (r : Hashmap) (zeros : AreZeros r.bytes) where
  pub vacant : (j : ℕ) → tag_get r j ≡ 0
  unfolding tag_get tag_bits
  vacant j = rw (zeros (j / 4), zero-div)

  pub vacant_slot : (j : ℕ) → slot r j ≡ none
  unfolding slot
  vacant_slot j = rw (vacant j)

  pub none_occupied : (k : ℕ) → occupied r k ≡ 0
  unfolding occupied
  none_occupied zero = refl
  none_occupied (suc k) = rw (none_occupied k, vacant_slot k)

  pub zeros-IsBlock : length r.bytes ≡ key_offset r r.size_allocated → IsBlock r
  zeros-IsBlock whole = record {
    whole = whole;
    small = λ j. omega (arith, zeros j);
    tags = λ j h. omega (arith, vacant j);
  }

  zeros-IsTable :
      length r.bytes ≡ key_offset r r.size_allocated → 0 < r.size_allocated → r.size ≡ 0 → IsTable r
  zeros-IsTable whole positive empty = record {
    block = zeros-IsBlock whole;
    positive = positive;
    counted = empty ∙ sym (none_occupied r.size_allocated);
    load = omega arith;
    reachable = λ i e lt there. absurd (none_ne_some (sym (vacant_slot i) ∙ there));
    unique = λ i j e e' hi hj at_i at_j same. absurd (none_ne_some (sym (vacant_slot i) ∙ at_i));
  }

  stored_vacant : (q : List ℕ) (s : Search) → Outcome r q s → value_found r s ≡ some none
  unfolding value_found
  stored_vacant q endless out = absurd out
  stored_vacant q absent out = refl
  stored_vacant q (found i) out = absurd (none_ne_some (sym (vacant_slot i) ∙ out.1))

-- If the mutex can be made, `hashmap_init` gives an empty table that keeps the invariant, and
-- `hashmap_get` then returns and finds nothing.
pub hashmap_init_lem :
    (hash_func : List ℕ → ℕ) (size_key size_value : ℕ)
    → let m = hashmap_init hash_func size_key size_value 0 in
      IsTable m × (m.size ≡ 0) × ((q : List ℕ) → length q ≡ size_key → stored m q ≡ some none)
unfolding hashmap_init
hashmap_init_lem hash_func size_key size_value = (
  table,
  refl,
  λ q fit. stored-eq m q ∙ stored_vacant m zeros q _ (search_slot-Outcome m table q fit),
)
  where
    m : Hashmap
    m = hashmap_init hash_func size_key size_value 0

    zeros : AreZeros m.bytes
    zeros = replicate-AreZeros _

    table : IsTable m
    table = zeros-IsTable m zeros (length-replicate _ 0 ∙ omega arith) (omega arith) refl
