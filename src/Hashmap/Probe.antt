-- ===== src/Hashmap/Probe.antt =====
-- The walks of `hashmap_get` and `hashmap_insert` along the slots.
use native.Mathlib.Nat.{mod-add-mod, mod-eq_of_lt}
use native.Mathlib.Decide.{ℕ_discrete, dec_lt}
use mathlib.Core.Path.{subst}
use cs489_router.Prelude.{
  ℕ, zero, suc, ◌+◌, ◌-◌, ◌%◌, ◌<◌, ◌≤◌, ◌≡◌, ◌≢◌, refl, ap, ◌∙◌, inl, inr, ◌⊎◌, true, false,
  Option, none, some, List, [], ◌∷◌, arith, length, read_bytes_whole, Bool-cases,
}
use cs489_router.Hashmap.{
  Hashmap, tag_get, bytes_equal, key_matches, key_offset, fill_slot, Search, endless, absent, found,
  get_loop, insert_loop,
}
use cs489_router.Hashmap.Slots.{Entry, entry_at, slot, IsBlock}

pub bytes_equal→≡ : (xs ys : List ℕ) → bytes_equal xs ys ≡ true → xs ≡ ys
unfolding bytes_equal
bytes_equal→≡ [] [] h = refl
bytes_equal→≡ [] (y ∷ ys) h = cc
bytes_equal→≡ (x ∷ xs) [] h = cc
bytes_equal→≡ (x ∷ xs) (y ∷ ys) h = ground (arith, bytes_equal→≡ xs ys)

pub bytes_equal_refl : (xs : List ℕ) → bytes_equal xs xs ≡ true
unfolding bytes_equal
bytes_equal_refl [] = refl
bytes_equal_refl (x ∷ xs) = ground (arith, bytes_equal_refl xs)

pub bytes_equal→≢ : (xs ys : List ℕ) → bytes_equal xs ys ≡ false → xs ≢ ys
bytes_equal→≢ xs ys h e = ground (arith, ap (bytes_equal xs) e, bytes_equal_refl xs)

-- The slot that is `t` steps from the start `h`, going round.
abbrev pub pos : Hashmap → ℕ → ℕ → ℕ
pos m h t = (h + t) % m.size_allocated

-- The steps from `a` up to `t` meet taken slots.
abbrev pub Taken : Hashmap → ℕ → ℕ → ℕ → Type 0
Taken m h a t = (s : ℕ) → a ≤ s → s < t → (e : Entry) × (slot m (pos m h s) ≡ some e)

abbrev pub Passed : Hashmap → ℕ → List ℕ → ℕ → ℕ → Type 0
Passed m h key a t =
    (s : ℕ) → a ≤ s → s < t → (e : Entry) × (slot m (pos m h s) ≡ some e) × (e.0 ≢ key)

-- What a search from step `a` on says of the slots.
abbrev pub Searched : Hashmap → ℕ → List ℕ → ℕ → Search → Type 0
Searched m h key a endless = Taken m h a m.size_allocated
Searched m h key a absent =
    (t : ℕ) × (a ≤ t) × (t < m.size_allocated) × (slot m (pos m h t) ≡ none) × Passed m h key a t
Searched m h key a (found i) =
    (t : ℕ) × (a ≤ t)
    × (t < m.size_allocated)
    × (i ≡ pos m h t)
    × ((entry_at m i).0 ≡ key)
    × (slot m i ≡ some (entry_at m i))

-- What an insertion from step `a` on does.
abbrev pub Inserted : Hashmap → ℕ → List ℕ → List ℕ → ℕ → Option Hashmap → Type 0
Inserted m h key value a none = Taken m h a m.size_allocated
Inserted m h key value a (some m') =
    (t : ℕ) × (a ≤ t)
    × (t < m.size_allocated)
    × (slot m (pos m h t) ≡ none)
    × Taken m h a t
    × (m' ≡ fill_slot m (pos m h t) key value)

module _ (m : Hashmap) (block : IsBlock m) (h : ℕ) (start : h < m.size_allocated) where
  abbrev pub n : ℕ
  n = m.size_allocated

  pub pos_next : (a : ℕ) → (pos m h a + 1) % n ≡ pos m h (a + 1)
  pos_next a =
      mod-add-mod (h + a) n 1
      ∙ ap (λ (k : ℕ). k % n) {x = h + a + 1} {y = h + (a + 1)} (omega arith)

  pub pos-lt : (a : ℕ) → pos m h a < n
  pos-lt a = omega arith

  pub slot_cases :
      (i : ℕ)
      → i < n
      → ((tag_get m i ≡ 0) × (slot m i ≡ none))
        ⊎ ((tag_get m i ≡ 1) × (slot m i ≡ some (entry_at m i)))
  unfolding slot
  slot_cases i lt = ground (arith, block.tags i lt)

  key_matches_lem :
      (i : ℕ) (key : List ℕ)
      → length key ≡ m.size_key
      → key_matches m (key_offset m i) key ≡ bytes_equal (entry_at m i).0 key
  unfolding key_matches
  key_matches_lem i key e = rw (← e, read_bytes_whole key)

  -- A statement about the steps from `a` on, from the step `a` and the later ones.
  pub from_step :
      (P : ℕ → Type 0) (a t : ℕ)
      → P a
      → ((s : ℕ) → a + 1 ≤ s → s < t → P s)
      → (s : ℕ) → a ≤ s
      → s < t
      → P s
  from_step P a t first rest s lo hi = elim (ℕ_discrete a s) [
    | yes e ↦ subst P e first
    | no ne ↦ rest s (omega arith) hi
  ]

  search_later :
      (key : List ℕ) (a : ℕ) (r : Search)
      → (e : Entry) × (slot m (pos m h a) ≡ some e) × (e.0 ≢ key)
      → Searched m h key (a + 1) r
      → Searched m h key a r
  search_later key a endless here rest = from_step _ a n (here.0, here.1) rest
  search_later key a absent here (t, lo, hi, free, passed) =
      (t, omega arith, hi, free, from_step _ a t here passed)
  search_later key a (found i) here (t, lo, hi, place, same, taken) =
      (t, omega arith, hi, place, same, taken)

  pub get_loop-Searched :
      (fuel a : ℕ) (key : List ℕ)
      → length key ≡ m.size_key
      → a + fuel ≡ n
      → Searched m h key a (get_loop fuel (pos m h a) m key)
  unfolding get_loop
  get_loop-Searched zero a key fit e = λ s lo hi. absurd (omega arith)
  get_loop-Searched (suc fuel) a key fit e = elim (slot_cases (pos m h a) (pos-lt a)) [
    | inl (free, vacant) ↦
        rw free (a, omega arith, omega arith, vacant, λ s lo hi. absurd (omega arith))
    | inr (taken, here) ↦
        rw (taken, key_matches_lem (pos m h a) key fit, pos_next a)
          (elim (Bool-cases (bytes_equal (entry_at m (pos m h a)).0 key)) [
            | inl same ↦ rw same (a, omega arith, omega arith, refl, bytes_equal→≡ _ _ same, here)
            | inr other ↦ rw other (
                search_later key a _ (entry_at m (pos m h a), here, bytes_equal→≢ _ _ other)
                  (get_loop-Searched fuel (a + 1) key fit (omega arith)))
          ])
  ]

  insert_later :
      (key value : List ℕ) (a : ℕ) (r : Option Hashmap)
      → (e : Entry) × (slot m (pos m h a) ≡ some e)
      → Inserted m h key value (a + 1) r
      → Inserted m h key value a r
  insert_later key value a none here rest = from_step _ a n here rest
  insert_later key value a (some m') here (t, lo, hi, free, taken, e) =
      (t, omega arith, hi, free, from_step _ a t here taken, e)

  pub insert_loop-Inserted :
      (fuel a : ℕ) (key value : List ℕ)
      → a + fuel ≡ n
      → Inserted m h key value a (insert_loop fuel (pos m h a) m key value)
  unfolding insert_loop
  insert_loop-Inserted zero a key value e = λ s lo hi. absurd (omega arith)
  insert_loop-Inserted (suc fuel) a key value e = elim (slot_cases (pos m h a) (pos-lt a)) [
    | inl (free, vacant) ↦
        rw free (a, omega arith, omega arith, vacant, λ s lo hi. absurd (omega arith), refl)
    | inr (taken, here) ↦
        rw (taken, pos_next a)
          (insert_later key value a _ (entry_at m (pos m h a), here)
            (insert_loop-Inserted fuel (a + 1) key value (omega arith)))
  ]

  -- Every slot is some steps from the start.
  pub step_to : (i : ℕ) → i < n → (t : ℕ) × (t < n) × (pos m h t ≡ i)
  step_to i lt = elim (dec_lt i h) [
    | no ge ↦ (
      i - h,
      omega arith,
      ap (λ (k : ℕ). k % n) {x = h + (i - h)} {y = i} (omega arith) ∙ mod-eq_of_lt lt,
    )
    | yes below ↦ (
      i + n - h,
      omega arith,
      ap (λ (k : ℕ). k % n) {x = h + (i + n - h)} {y = i + n} (omega arith) ∙ grind (arith, lt),
    )
  ]
