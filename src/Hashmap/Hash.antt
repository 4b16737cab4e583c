-- ===== src/Hashmap/Hash.antt =====
-- The hash: its range, and its arithmetic without the wrap of `size_t`.
use cs489_router.Prelude.{
  ℕ, ◌*◌, ◌%◌, ◌^◌, ◌<◌, ◌≡◌, refl, bit_xor, List, [], ◌∷◌, arith, read_bytes,
}
use cs489_router.Hashmap.{ring_size, cyclic_hash_loop, hashmap_cyclic_hash}

-- The hash over unbounded numbers.
abbrev pub exact_hash : List ℕ → ℕ → ℕ
exact_hash [] hash = hash
exact_hash (val ∷ bs) hash = exact_hash bs (bit_xor (hash * 47) val % ring_size)

cyclic_hash_loop_lem :
    (bs : List ℕ) (hash : ℕ)
    → hash < ring_size
    → (cyclic_hash_loop bs hash < ring_size) × (cyclic_hash_loop bs hash ≡ exact_hash bs hash)
unfolding cyclic_hash_loop
cyclic_hash_loop_lem [] hash h = (h, refl)
cyclic_hash_loop_lem (val ∷ bs) hash h =
    rw no_wrap (cyclic_hash_loop_lem bs (bit_xor (hash * 47) val % ring_size) (omega arith))
  where
    no_wrap : hash * 47 % 2 ^ 64 ≡ hash * 47
    no_wrap = omega arith

-- `hashmap_cyclic_hash` stays below 2 ^ 31 - 1, and no multiplication of it wraps.
pub hashmap_cyclic_hash_lem :
    (ptr : List ℕ) (size : ℕ)
    → (hashmap_cyclic_hash ptr size < ring_size)
      × (hashmap_cyclic_hash ptr size ≡ exact_hash (read_bytes ptr 0 size) 0)
unfolding hashmap_cyclic_hash
hashmap_cyclic_hash_lem ptr size = cyclic_hash_loop_lem (read_bytes ptr 0 size) 0 (omega arith)
