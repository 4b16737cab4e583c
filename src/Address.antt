-- ===== src/Address.antt =====
-- The addresses of include/structs.h and the functions of src/utils.c on them.
pub mod Laws
pub mod Mask
pub mod Text
mod Tests
use cs489_router.Prelude.{
  ℕ, zero, suc, ◌+◌, ◌-◌, ◌*◌, ◌/◌, ◌%◌, ◌^◌, bit_and, Bool, ◌&&◌, not, Option, none, some, List,
  [], ◌∷◌, ltb, leb, ◌==◌, if◌then◌else◌,
}

-- `ip_addr_t`: `bytes[0]` to `bytes[3]`.
pub record IpAddr : Type 0 where
  pub b0 : ℕ
  pub b1 : ℕ
  pub b2 : ℕ
  pub b3 : ℕ

-- `mac_addr_t`: `bytes[0]` to `bytes[5]`.
pub record MacAddr : Type 0 where
  pub m0 : ℕ
  pub m1 : ℕ
  pub m2 : ℕ
  pub m3 : ℕ
  pub m4 : ℕ
  pub m5 : ℕ

abbrev pub zero_ip : IpAddr
zero_ip = record { b0 = 0; b1 = 0; b2 = 0; b3 = 0 }

abbrev pub zero_mac : MacAddr
zero_mac = record { m0 = 0; m1 = 0; m2 = 0; m3 = 0; m4 = 0; m5 = 0 }

abbrev pub broadcast_mac : MacAddr
broadcast_mac = record { m0 = 0xff; m1 = 0xff; m2 = 0xff; m3 = 0xff; m4 = 0xff; m5 = 0xff }

unfoldable pub ip_addr_equals : IpAddr → IpAddr → Bool
ip_addr_equals ip1 ip2 =
    ip1.b0 == ip2.b0 && (ip1.b1 == ip2.b1 && (ip1.b2 == ip2.b2 && ip1.b3 == ip2.b3))

unfoldable pub apply_mask : IpAddr → IpAddr → IpAddr
apply_mask mask ip = record {
  b0 = bit_and mask.b0 ip.b0;
  b1 = bit_and mask.b1 ip.b1;
  b2 = bit_and mask.b2 ip.b2;
  b3 = bit_and mask.b3 ip.b3;
}

-- `mask.bytes[i] = v`
set_byte : IpAddr → ℕ → ℕ → IpAddr
set_byte ip zero v = record ip { b0 = v }
set_byte ip (suc zero) v = record ip { b1 = v }
set_byte ip (suc (suc zero)) v = record ip { b2 = v }
set_byte ip (suc (suc (suc i))) v = record ip { b3 = v }

-- The loop of `create_subnet_mask` at index `i`. `-1 << k` is stored as a byte: 256 - 2 ^ k, which
-- is 0 for k = 8.
mask_loop : ℕ → ℕ → ℕ → IpAddr → IpAddr
mask_loop zero i cidr mask = mask
mask_loop (suc left) i cidr mask =
    let rest = mask_loop left (i + 1) (cidr - 8) (set_byte mask i 0xff) in
    if leb cidr 8 then set_byte mask i ((256 - 2 ^ (8 - cidr)) % 256) else rest

unfoldable pub create_subnet_mask : ℕ → IpAddr
unfolding mask_loop set_byte
create_subnet_mask cidr = mask_loop 3 0 cidr zero_ip

-- The inner loop of `prefix_len_get`. `byte_len` starts at 8 and falls, so nine rounds are enough.
byte_len_loop : ℕ → ℕ → ℕ → ℕ
byte_len_loop zero val byte_len = byte_len
byte_len_loop (suc fuel) val byte_len =
    let rest = byte_len_loop fuel (val / 2) (byte_len - 1) in
    if bit_and val 1 == 0 && ltb 0 byte_len then rest else byte_len

-- The outer loop over the bytes that are left. `none` is the end of the function that is reached
-- with no `return`.
prefix_loop : List ℕ → ℕ → Option ℕ
prefix_loop [] prefix_len = none
prefix_loop (b ∷ bs) prefix_len =
    let byte_len = byte_len_loop 9 b 8 in
    let rest = prefix_loop bs (prefix_len + byte_len) in
    if not (byte_len == 8) then some (prefix_len + byte_len) else rest

unfoldable pub prefix_len_get : IpAddr → Option ℕ
unfolding byte_len_loop prefix_loop
prefix_len_get mask = prefix_loop (mask.b0 ∷ mask.b1 ∷ mask.b2 ∷ mask.b3 ∷ []) 0
