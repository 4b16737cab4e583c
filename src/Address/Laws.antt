-- ===== src/Address/Laws.antt =====
-- `ip_addr_equals` decides equality, and addresses as numbers.
use cs489_router.Prelude.{ℕ, ◌+◌, ◌*◌, ◌≡◌, ◌≢◌, ◌↔◌, true, false, arith, IsByte}
use cs489_router.Address.{IpAddr, ip_addr_equals}

abbrev pub IsIp : IpAddr → Type 0
IsIp ip = IsByte ip.b0 × IsByte ip.b1 × IsByte ip.b2 × IsByte ip.b3

-- The address as a 32-bit number, its first byte the most significant.
abbrev pub ip_value : IpAddr → ℕ
ip_value ip = ((ip.b0 * 256 + ip.b1) * 256 + ip.b2) * 256 + ip.b3

pub ip_addr_equals_refl : (a : IpAddr) → ip_addr_equals a a ≡ true
unfolding ip_addr_equals
ip_addr_equals_refl a = ground arith

pub ip_addr_equals→≡ : (a b : IpAddr) → ip_addr_equals a b ≡ true → a ≡ b
unfolding ip_addr_equals
ip_addr_equals→≡ a b h = ground arith

pub ip_addr_equals→≢ : (a b : IpAddr) → ip_addr_equals a b ≡ false → a ≢ b
unfolding ip_addr_equals
ip_addr_equals→≢ a b h e = ground arith

pub ip_addr_equals_iff : (a b : IpAddr) → (ip_addr_equals a b ≡ true) ↔ (a ≡ b)
unfolding ip_addr_equals
ip_addr_equals_iff a b = ground arith

pub ip_addr_equals_comm : (a b : IpAddr) → ip_addr_equals a b ≡ ip_addr_equals b a
unfolding ip_addr_equals
ip_addr_equals_comm a b = ground arith

pub ip_value_injective : (a b : IpAddr) → IsIp a → IsIp b → ip_value a ≡ ip_value b → a ≡ b
ip_value_injective a b ha hb e = ground arith

pub ip_addr_equals_congr :
    (a b c : IpAddr) → ip_addr_equals a b ≡ true → ip_addr_equals a c ≡ ip_addr_equals c b
ip_addr_equals_congr a b c h = rw (ip_addr_equals→≡ a b h) (ip_addr_equals_comm b c)
