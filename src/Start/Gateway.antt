-- ===== src/Start/Gateway.antt =====
-- The gateway that `main` makes up lies on the network of the WAN's address.
use native.Mathlib.Nat.{add-mul-mod_self_left, mod-eq_of_lt, div-add-mod, pow-le-pow_right}
use cs489_router.Prelude.{
  ℕ, ◌+◌, ◌-◌, ◌*◌, ◌/◌, ◌%◌, ◌^◌, ◌<◌, ◌≤◌, ◌≡◌, ◌∙◌, refl, ap, true, some, lt→ltb, ◌==◌, ==→≡,
  every, every-lt, arith,
}
use cs489_router.Address.{IpAddr, apply_mask, prefix_len_get}
use cs489_router.Address.Laws.{IsIp, ip_value}
use cs489_router.Address.Mask.{netmask, apply_mask-IsIp, prefix_len_get-netmask}
use cs489_router.Interfaces.Default.{zero_and}
use cs489_router.Start.{gateway_of}

-- The number behind a multiple of a power has the same leading bits.
pub covers_next :
    (v net power : ℕ) → 1 < power → net ≡ v - v % power → net ≡ net + 1 - (net + 1) % power
covers_next v net power lt is_net = omega (arith, remainder)
  where
    multiple : net ≡ power * (v / power)
    multiple = omega (arith, is_net, div-add-mod v power)

    remainder : (net + 1) % power ≡ 1
    remainder =
        ap (λ (n : ℕ). n % power) {x = net + 1} {y = 1 + power * (v / power)}
          (omega (arith, multiple))
        ∙ add-mul-mod_self_left 1 power (v / power)
        ∙ mod-eq_of_lt lt

pub last_byte_table : every 25 (λ p. (netmask p).b3 == 0) ≡ true
unfolding every netmask
last_byte_table = refl

pub last_byte : (p : ℕ) → p ≤ 24 → (netmask p).b3 ≡ 0
last_byte p le = ==→≡ _ 0 (every-lt 25 _ p last_byte_table (omega arith))

pub gateway_value :
    (p : ℕ) (ip : IpAddr)
    → p ≤ 24
    → ip_value (gateway_of (apply_mask (netmask p) ip)) ≡ ip_value (apply_mask (netmask p) ip) + 1
unfolding gateway_of apply_mask
gateway_value p ip le = rw (last_byte p le, zero_and ip.b3) (omega arith)

pub gateway_of-IsIp :
    (p : ℕ) (ip : IpAddr) → p ≤ 24 → IsIp ip → IsIp (gateway_of (apply_mask (netmask p) ip))
unfolding gateway_of
gateway_of-IsIp p ip le is_ip =
    let bytes = apply_mask-IsIp p ip (omega arith) is_ip in
    (
      bytes.0,
      bytes.1,
      bytes.2,
      unfold apply_mask in rw (last_byte p le, zero_and ip.b3) (omega arith),
    )

pub prefix_len : (p : ℕ) → p ≤ 24 → prefix_len_get (netmask p) ≡ some p
prefix_len p le = prefix_len_get-netmask p (omega arith) ∙ rw (lt→ltb p 32 (omega arith))

pub big_power : (p : ℕ) → p ≤ 24 → 1 < 2 ^ (32 - p)
big_power p le =
    omega (arith, pow-le-pow_right {n = 2} (omega arith) {i = 1} {j = 32 - p} (omega arith))
