-- ===== src/Interfaces/Route.antt =====
-- `get_interface_for_ip` is the longest prefix match.
use cs489_router.Prelude.{
  ℕ, zero, suc, ◌+◌, ◌-◌, ◌%◌, ◌^◌, ◌<◌, ◌≤◌, ◌≡◌, ◌∙◌, sym, refl, ap, ◌⊎◌, inl, inr, Option, none,
  some, List, [], ◌∷◌, Bool, true, false, arith, leb, leb→le, min, length, get_or, All, Bool-cases,
}
use cs489_router.Address.{IpAddr, ip_addr_equals, apply_mask, create_subnet_mask}
use cs489_router.Address.Laws.{
  IsIp, ip_value, ip_addr_equals→≡, ip_addr_equals→≢, ip_value_injective,
}
use cs489_router.Address.Mask.{create_subnet_mask-netmask, apply_mask-netmask, apply_mask-IsIp}
use cs489_router.Interfaces.{InterfaceConfig, no_config, route_loop, get_interface_for_ip}

-- The address has the leading bits of the interface's network, and the network has no others.
abbrev pub Covers : InterfaceConfig → IpAddr → Type 0
Covers c ip = ip_value c.network_ip ≡ ip_value ip - ip_value ip % 2 ^ (32 - c.cidr_prefix_len)

abbrev pub IsConfig : InterfaceConfig → Type 0
IsConfig c = (c.cidr_prefix_len ≤ 24) × IsIp c.network_ip

abbrev pub matches : InterfaceConfig → IpAddr → Bool
matches c ip = ip_addr_equals (apply_mask (create_subnet_mask c.cidr_prefix_len) ip) c.network_ip

masked_ip_value :
    (c : InterfaceConfig) (ip : IpAddr)
    → IsConfig c
    → IsIp ip
    → (ip_value (apply_mask (create_subnet_mask c.cidr_prefix_len) ip)
        ≡ ip_value ip - ip_value ip % 2 ^ (32 - c.cidr_prefix_len))
      × IsIp (apply_mask (create_subnet_mask c.cidr_prefix_len) ip)
masked_ip_value c ip hc h = rw (create_subnet_mask-netmask c.cidr_prefix_len (omega arith)) (
    rw least (
      apply_mask-netmask c.cidr_prefix_len ip (omega arith) h,
      apply_mask-IsIp c.cidr_prefix_len ip (omega arith) h,
    ))
  where
    least : min c.cidr_prefix_len 24 ≡ c.cidr_prefix_len
    least = omega arith

pub matches→Covers :
    (c : InterfaceConfig) (ip : IpAddr) → IsConfig c → IsIp ip → matches c ip ≡ true → Covers c ip
matches→Covers c ip hc h e =
    ap ip_value (sym (ip_addr_equals→≡ _ _ e)) ∙ (masked_ip_value c ip hc h).0

pub not_matches→not_Covers :
    (c : InterfaceConfig) (ip : IpAddr)
    → IsConfig c
    → IsIp ip
    → matches c ip ≡ false
    → ¬ Covers c ip
not_matches→not_Covers c ip hc h e covers = ip_addr_equals→≢ _ _ e (
    ip_value_injective _ _ (masked_ip_value c ip hc h).1 hc.1
      ((masked_ip_value c ip hc h).0 ∙ sym covers))

-- A statement about every index of a list, from its head and its tail.
each_cons :
    (P : ℕ → Type 0) (n : ℕ) → P 0 → ((j : ℕ) → j < n → P (suc j)) → (j : ℕ) → j < suc n → P j
each_cons P n head tail zero h = head
each_cons P n head tail (suc j) h = tail j (omega arith)

module _ (ip : IpAddr) where
  abbrev pub config_at : List InterfaceConfig → ℕ → InterfaceConfig
  config_at cs j = get_or cs j no_config

  -- No interface of the list covers the address with a longer prefix than entry `k`, and none
  -- before it with one as long.
  abbrev pub IsLongest : List InterfaceConfig → ℕ → Type 0
  IsLongest cs k =
      (j : ℕ)
      → j < length cs
      → Covers (config_at cs j) ip
      → ((config_at cs j).cidr_prefix_len ≤ (config_at cs k).cidr_prefix_len)
        × ((config_at cs j).cidr_prefix_len ≡ (config_at cs k).cidr_prefix_len → k ≤ j)

  -- What the loop does with the rest `cs` of the array: it keeps what it had, or it ends at the
  -- longest prefix of the rest.
  abbrev Kept : List InterfaceConfig → Option ℕ → ℕ → Option ℕ → Type 0
  Kept cs int_id highest r =
      (r ≡ int_id)
      × ((j : ℕ)
          → j < length cs
          → Covers (config_at cs j) ip
          → (config_at cs j).cidr_prefix_len + 128 ≤ highest)

  record Improved (cs : List InterfaceConfig) (i highest : ℕ) (r : Option ℕ) : Type 0 where
    place : ℕ
    inside : place < length cs
    result : r ≡ some (i + place)
    covers : Covers (config_at cs place) ip
    longer : highest < (config_at cs place).cidr_prefix_len + 128
    longest : IsLongest cs place

  module _ (c : InterfaceConfig) (cs : List InterfaceConfig) where
    skip_head :
        (i highest : ℕ) (int_id r : Option ℕ)
        → (Covers c ip → c.cidr_prefix_len + 128 ≤ highest)
        → Kept cs int_id highest r ⊎ Improved cs (i + 1) highest r
        → Kept (c ∷ cs) int_id highest r ⊎ Improved (c ∷ cs) i highest r
    skip_head i highest int_id r small (inl kept) =
        inl (kept.0, each_cons _ (length cs) small (λ j h. kept.1 j h))
    skip_head i highest int_id r small (inr better) = inr (record {
      place = suc better.place;
      inside = omega (arith, better.inside);
      result = better.result ∙ ap some (omega arith);
      covers = better.covers;
      longer = better.longer;
      longest =
          each_cons _ (length cs) (λ cov. omega (arith, small cov, better.longer))
            (λ j h cov.
              let (le, first) = better.longest j h cov in (le, λ e. omega (arith, first e)));
    })

    take_head :
        (i highest : ℕ) (int_id r : Option ℕ)
        → Covers c ip
        → highest < c.cidr_prefix_len + 128
        → Kept cs (some i) (c.cidr_prefix_len + 128) r
          ⊎ Improved cs (i + 1) (c.cidr_prefix_len + 128) r
        → Kept (c ∷ cs) int_id highest r ⊎ Improved (c ∷ cs) i highest r
    take_head i highest int_id r cov above (inl kept) = inr (record {
      place = 0;
      inside = omega arith;
      result = kept.0 ∙ ap some (omega arith);
      covers = cov;
      longer = above;
      longest =
          each_cons _ (length cs) (λ _. omega arith) (λ j h cov'. omega (arith, kept.1 j h cov'));
    })
    take_head i highest int_id r cov above (inr better) = inr (record {
      place = suc better.place;
      inside = omega (arith, better.inside);
      result = better.result ∙ ap some (omega arith);
      covers = better.covers;
      longer = omega (arith, better.longer);
      longest =
          each_cons _ (length cs) (λ _. omega (arith, better.longer))
            (λ j h cov'.
              let (le, first) = better.longest j h cov' in (le, λ e. omega (arith, first e)));
    })

  route_loop_lem :
      (cs : List InterfaceConfig) (i highest : ℕ) (int_id : Option ℕ)
      → All IsConfig cs
      → IsIp ip
      → Kept cs int_id highest (route_loop cs i int_id highest ip)
        ⊎ Improved cs i highest (route_loop cs i int_id highest ip)
  unfolding route_loop
  route_loop_lem [] i highest int_id hc h = inl (refl, λ j lt. absurd (omega arith))
  route_loop_lem (c ∷ cs) i highest int_id hc h =
      elim (Bool-cases (leb (c.cidr_prefix_len + 128) highest)) [
        | inl short ↦ rw short (
            skip_head c cs i highest int_id _ (λ _. leb→le _ _ short)
              (route_loop_lem cs (i + 1) highest int_id hc.1 h))
        | inr long ↦ rw long (elim (Bool-cases (matches c ip)) [
          | inl yes_match ↦
              rw (yes_match, small)
                (take_head c cs i highest int_id _ (matches→Covers c ip hc.0 h yes_match)
                  (ground arith)
                  (route_loop_lem cs (i + 1) (c.cidr_prefix_len + 128) (some i) hc.1 h))
          | inr no_match ↦ rw no_match (
              skip_head c cs i highest int_id _
                (λ cov. absurd (not_matches→not_Covers c ip hc.0 h no_match cov))
                (route_loop_lem cs (i + 1) highest int_id hc.1 h))
        ])
      ]
    where
      small : (c.cidr_prefix_len + 128) % 256 ≡ c.cidr_prefix_len + 128
      small = omega arith

  -- What an answer for the whole array says.
  abbrev pub IsRoute : List InterfaceConfig → Option ℕ → Type 0
  IsRoute arr none = (j : ℕ) → j < length arr → ¬ Covers (config_at arr j) ip
  IsRoute arr (some k) = (k < length arr) × Covers (config_at arr k) ip × IsLongest arr k

IsRoute-of_loop :
    (ip : IpAddr) (arr : List InterfaceConfig) (r : Option ℕ)
    → Kept ip arr none 127 r ⊎ Improved ip arr 0 127 r
    → IsRoute ip arr r
IsRoute-of_loop ip arr none (inl kept) = λ j h cov. omega (arith, kept.1 j h cov)
IsRoute-of_loop ip arr (some k) (inl kept) = absurd (cc kept.0)
IsRoute-of_loop ip arr none (inr better) = absurd (cc better.result)
IsRoute-of_loop ip arr (some k) (inr better) =
    let e : k ≡ better.place = ground (arith, better.result) in
    rw e (better.inside, better.covers, better.longest)

-- `get_interface_for_ip` is the longest prefix match, for every array whose networks have at most
-- 24 bits: the interface that it returns covers the address, no interface covers it with a longer
-- prefix and none before it with one as long; it returns nothing (an uninitialised variable in C)
-- only if no interface covers the address.
pub get_interface_for_ip-IsRoute :
    (arr : List InterfaceConfig) (ip : IpAddr)
    → All IsConfig arr
    → IsIp ip
    → IsRoute ip arr (get_interface_for_ip arr ip)
unfolding get_interface_for_ip
get_interface_for_ip-IsRoute arr ip hc h =
    IsRoute-of_loop ip arr _ (route_loop_lem ip arr 0 127 none hc h)
