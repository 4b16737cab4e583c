-- ===== src/Hashmap/Bits.antt =====
-- The two tag bits of a slot within their byte.
use cs489_router.Prelude.{
  ℕ, ◌*◌, ◌<◌, ◌≡◌, refl, true, arith, ◌==◌, ==→≡, if◌then◌else◌, every, every-lt,
}
use cs489_router.Hashmap.{tag_bits, with_tag_bits}

tag_table :
    every 256 (λ byte. every 4 (λ c. every 4 (λ d. every 4 (λ tag.
      tag_bits (with_tag_bits byte (c * 2) tag) (d * 2)
      == (if c == d then tag else tag_bits byte (d * 2))))))
    ≡ true
unfolding every tag_bits with_tag_bits
tag_table = refl

-- Setting the bits of one slot gives them back, and leaves those of the other three alone.
pub tag_bits-with_tag_bits :
    (byte c d tag : ℕ)
    → byte < 256
    → c < 4
    → d < 4
    → tag < 4
    → tag_bits (with_tag_bits byte (c * 2) tag) (d * 2)
      ≡ (if c == d then tag else tag_bits byte (d * 2))
tag_bits-with_tag_bits byte c d tag hb hc hd ht =
    ==→≡ _ _ (
      every-lt 4 _ tag (every-lt 4 _ d (every-lt 4 _ c (every-lt 256 _ byte tag_table hb) hc) hd)
        ht)

pub with_tag_bits-lt : (byte c tag : ℕ) → with_tag_bits byte c tag < 256
unfolding with_tag_bits
with_tag_bits-lt byte c tag = omega arith
