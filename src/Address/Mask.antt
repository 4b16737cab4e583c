-- ===== src/Address/Mask.antt =====
-- Subnet masks against the masks of the leading bits.
use mathlib.Core.Path.{subst}
use native.Mathlib.Decide.{ℕ_discrete, dec_lt}
use cs489_router.Prelude.{
  ℕ, zero, suc, ◌+◌, ◌-◌, ◌*◌, ◌/◌, ◌%◌, ◌^◌, ◌<◌, ◌≤◌, ◌≡◌, refl, sym, ap, ◌∙◌, min, bit_and, Bool,
  true, false, Option, none, some, arith, ltb, ◌==◌, ==→≡, if◌then◌else◌, every, every-lt,
}
use cs489_router.Address.{IpAddr, ip_addr_equals, apply_mask, create_subnet_mask, prefix_len_get}
use cs489_router.Address.Laws.{IsIp, ip_value, ip_addr_equals→≡}

-- The mask of `p` leading ones, for `p` up to 32.
unfoldable pub netmask : ℕ → IpAddr
netmask p =
    let v = 2 ^ 32 - 2 ^ (32 - p) in
    record { b0 = v / 2 ^ 24; b1 = v / 2 ^ 16 % 256; b2 = v / 2 ^ 8 % 256; b3 = v % 256 }

create_subnet_mask_table :
    every 256 (λ p. ip_addr_equals (create_subnet_mask p) (netmask (min p 24))) ≡ true
unfolding every ip_addr_equals create_subnet_mask netmask
create_subnet_mask_table = refl

-- For every prefix length that fits the `uint8_t`, `create_subnet_mask` gives the mask of as many
-- leading ones, but of 24 for all the lengths above 24.
pub create_subnet_mask-netmask : (p : ℕ) → p < 256 → create_subnet_mask p ≡ netmask (min p 24)
create_subnet_mask-netmask p h = ip_addr_equals→≡ _ _ (every-lt 256 _ p create_subnet_mask_table h)

same_length : Option ℕ → Option ℕ → Bool
same_length none none = true
same_length (some p) (some q) = p == q
same_length _ _ = false

same_length→≡ : (o u : Option ℕ) → same_length o u ≡ true → o ≡ u
unfolding same_length
same_length→≡ none none h = refl
same_length→≡ none (some q) h = cc
same_length→≡ (some p) none h = cc
same_length→≡ (some p) (some q) h = ap some (==→≡ p q h)

abbrev length_of_netmask : ℕ → Option ℕ
length_of_netmask p = if ltb p 32 then some p else none

prefix_len_get_table :
    every 33 (λ p. same_length (prefix_len_get (netmask p)) (length_of_netmask p)) ≡ true
unfolding every same_length prefix_len_get netmask
prefix_len_get_table = refl

-- `prefix_len_get` gives back the number of leading ones of every mask but that of all ones, for
-- which it reaches its end without a `return`.
pub prefix_len_get-netmask :
    (p : ℕ) → p ≤ 32 → prefix_len_get (netmask p) ≡ (if ltb p 32 then some p else none)
prefix_len_get-netmask p h = same_length→≡ _ _ (every-lt 33 _ p prefix_len_get_table (omega arith))

-- The two functions of src/utils.c are inverse up to length 24.
pub prefix_len_get-create_subnet_mask :
    (p : ℕ) → p < 256 → prefix_len_get (create_subnet_mask p) ≡ some (min p 24)
prefix_len_get-create_subnet_mask p h =
    rw (create_subnet_mask-netmask p h, prefix_len_get-netmask (min p 24) (omega arith))
      (ground arith)

masked_table : every 9 (λ k. every 256 (λ b. bit_and (256 - 2 ^ k) b == b - b % 2 ^ k)) ≡ true
unfolding every
masked_table = refl

masked : (k b : ℕ) → k < 9 → b < 256 → bit_and (256 - 2 ^ k) b ≡ b - b % 2 ^ k
masked k b hk hb = ==→≡ _ _ (every-lt 256 _ b (every-lt 9 _ k masked_table hk) hb)

-- A statement about every number from `lo` on, `n` of them, as a tuple.
abbrev EachFrom : ℕ → ℕ → (ℕ → Type 0) → Type 0
EachFrom lo zero P = Unit
EachFrom lo (suc n) P = P lo × EachFrom (lo + 1) n P

each_from : (lo n : ℕ) (P : ℕ → Type 0) → EachFrom lo n P → (k : ℕ) → lo ≤ k → k < lo + n → P k
each_from lo zero P all k h l = absurd (omega arith)
each_from lo (suc n) P all k h l = elim (ℕ_discrete k lo) [
  | yes e ↦ subst P (sym e) all.0
  | no ne ↦ each_from (lo + 1) n P all.1 k (omega arith) (omega arith)
]

-- The four masked bytes, by the number of low bits that each mask clears.
masked_value :
    (k0 k1 k2 k3 : ℕ) (ip : IpAddr)
    → k0 < 9
    → k1 < 9
    → k2 < 9
    → k3 < 9
    → IsIp ip
    → ip_value (
        apply_mask
          (record { b0 = 256 - 2 ^ k0; b1 = 256 - 2 ^ k1; b2 = 256 - 2 ^ k2; b3 = 256 - 2 ^ k3 })
          ip)
      ≡ ip_value (record {
        b0 = ip.b0 - ip.b0 % 2 ^ k0;
        b1 = ip.b1 - ip.b1 % 2 ^ k1;
        b2 = ip.b2 - ip.b2 % 2 ^ k2;
        b3 = ip.b3 - ip.b3 % 2 ^ k3;
      })
unfolding apply_mask
masked_value k0 k1 k2 k3 ip h0 h1 h2 h3 h =
    rw (
      masked k0 ip.b0 h0 h.0,
      masked k1 ip.b1 h1 h.1,
      masked k2 ip.b2 h2 h.2,
      masked k3 ip.b3 h3 h.3,
    )

module _ (ip : IpAddr) (h : IsIp ip) where
  -- `256 - 2 ^ low j p` is byte `j` of the mask of `p` ones.
  abbrev low : ℕ → ℕ → ℕ
  low j p = 8 - min 8 (p - 8 * j)

  abbrev Keeps : ℕ → Type 0
  Keeps p =
      ip_value (record {
        b0 = ip.b0 - ip.b0 % 2 ^ low 0 p;
        b1 = ip.b1 - ip.b1 % 2 ^ low 1 p;
        b2 = ip.b2 - ip.b2 % 2 ^ low 2 p;
        b3 = ip.b3 - ip.b3 % 2 ^ low 3 p;
      })
      ≡ ip_value ip - ip_value ip % 2 ^ (32 - p)

  Keeps-first : EachFrom 0 8 Keeps
  Keeps-first = omega arith

  Keeps-second : EachFrom 8 8 Keeps
  Keeps-second = omega arith

  Keeps-third : EachFrom 16 8 Keeps
  Keeps-third = omega arith

  Keeps-fourth : EachFrom 24 9 Keeps
  Keeps-fourth = omega arith

  keeps : (p : ℕ) → p ≤ 32 → Keeps p
  keeps p hp = elim (dec_lt p 8) [
    | yes l0 ↦ each_from 0 8 Keeps Keeps-first p (omega arith) (omega arith)
    | no g0 ↦ elim (dec_lt p 16) [
      | yes l1 ↦ each_from 8 8 Keeps Keeps-second p (omega arith) (omega arith)
      | no g1 ↦ elim (dec_lt p 24) [
        | yes l2 ↦ each_from 16 8 Keeps Keeps-third p (omega arith) (omega arith)
        | no g2 ↦ each_from 24 9 Keeps Keeps-fourth p (omega arith) (omega arith)
      ]
    ]
  ]

netmask_table :
    every 33 (λ p. ip_addr_equals (netmask p) (record {
      b0 = 256 - 2 ^ (8 - min 8 (p - 0));
      b1 = 256 - 2 ^ (8 - min 8 (p - 8));
      b2 = 256 - 2 ^ (8 - min 8 (p - 16));
      b3 = 256 - 2 ^ (8 - min 8 (p - 24));
    }))
    ≡ true
unfolding every ip_addr_equals netmask
netmask_table = refl

-- Under the mask of `p` leading ones `apply_mask` keeps the `p` leading bits and clears the rest.
pub apply_mask-netmask :
    (p : ℕ) (ip : IpAddr)
    → p ≤ 32
    → IsIp ip
    → ip_value (apply_mask (netmask p) ip) ≡ ip_value ip - ip_value ip % 2 ^ (32 - p)
apply_mask-netmask p ip hp h =
    rw (ip_addr_equals→≡ _ _ (every-lt 33 _ p netmask_table (omega arith))) (
      masked_value _ _ _ _ ip (omega arith) (omega arith) (omega arith) (omega arith) h
      ∙ keeps ip h p hp)

pub apply_mask-IsIp : (p : ℕ) (ip : IpAddr) → p ≤ 32 → IsIp ip → IsIp (apply_mask (netmask p) ip)
apply_mask-IsIp p ip hp h =
    rw (ip_addr_equals→≡ _ _ (every-lt 33 _ p netmask_table (omega arith))) (
      unfold apply_mask in
      omega (
        arith,
        masked (8 - min 8 (p - 0)) ip.b0 (omega arith) h.0,
        masked (8 - min 8 (p - 8)) ip.b1 (omega arith) h.1,
        masked (8 - min 8 (p - 16)) ip.b2 (omega arith) h.2,
        masked (8 - min 8 (p - 24)) ip.b3 (omega arith) h.3,
      ))
