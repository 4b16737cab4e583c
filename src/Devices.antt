-- ===== src/Devices.antt =====
-- src/devices.c and include/devices.h: the table of the hardware addresses seen on the network.
-- Each function runs under `ip_mac_map_mutex` from its first to its last statement, so a call is
-- one step of the model.
pub mod Table
mod Tests
use cs489_router.Prelude.{
  ℕ, zero, suc, ◌+◌, ◌-◌, ◌*◌, Bool, true, false, Option, none, some, List, [], ◌∷◌, ◌++◌, leb,
  ◌==◌, if◌then◌else◌, length, set, replicate,
}
use cs489_router.Address.{IpAddr, MacAddr, zero_mac, ip_addr_equals}

-- `ip_mac_pair_t`
pub record IpMacPair : Type 0 where
  pub ip_addr : IpAddr
  pub mac_addr : MacAddr

-- `ip_mac_map_arr`, `ip_mac_map_alloc_amt` and `ip_mac_map_amt`.
pub record IpMacMap : Type 0 where
  pub arr : List IpMacPair
  pub alloc_amt : ℕ
  pub amt : ℕ

abbrev pub empty_map : IpMacMap
empty_map = record { arr = []; alloc_amt = 0; amt = 0 }

keep_pair : IpMacPair → Option (List IpMacPair) → Option (List IpMacPair)
keep_pair e none = none
keep_pair e (some arr) = some (e ∷ arr)

-- The loop of `update_ip_mac_pair` over the first `left` pairs; `none` if no pair has the address.
update_loop : ℕ → List IpMacPair → IpMacPair → Option (List IpMacPair)
unfolding keep_pair
update_loop zero arr pair = none
update_loop (suc left) [] pair = none
update_loop (suc left) (e ∷ arr) pair =
    let rest = keep_pair e (update_loop left arr pair) in
    if ip_addr_equals pair.ip_addr e.ip_addr
    then some (record e { mac_addr = pair.mac_addr } ∷ arr)
    else rest

has_loop : ℕ → List IpMacPair → IpAddr → Bool
has_loop zero arr ip = false
has_loop (suc left) [] ip = false
has_loop (suc left) (e ∷ arr) ip =
    let rest = has_loop left arr ip in if ip_addr_equals ip e.ip_addr then true else rest

-- The loop of `get_mac_from_ip`, with the variable `mac`.
get_loop : ℕ → List IpMacPair → IpAddr → MacAddr → MacAddr
get_loop zero arr ip mac = mac
get_loop (suc left) [] ip mac = mac
get_loop (suc left) (e ∷ arr) ip mac =
    let rest = get_loop left arr ip mac in if ip_addr_equals ip e.ip_addr then e.mac_addr else rest

unfoldable pub has_mac_for_ip : IpMacMap → IpAddr → Bool
unfolding has_loop
has_mac_for_ip m ip = has_loop m.amt m.arr ip

unfoldable pub get_mac_from_ip : IpMacMap → IpAddr → MacAddr
unfolding get_loop
get_mac_from_ip m ip = get_loop m.amt m.arr ip zero_mac

-- `realloc` keeps the pairs; what it finds in the new memory is the parameter `fresh`.
module _ (fresh : IpMacPair) where
  reserve : IpMacMap → IpMacMap
  reserve m =
      let alloc_amt = if m.alloc_amt == 0 then 5 else m.alloc_amt in
      if leb m.alloc_amt m.amt
      then record m {
        arr = m.arr ++ replicate (alloc_amt * 2 - length m.arr) fresh;
        alloc_amt = alloc_amt * 2;
      }
      else m

  append_pair : IpMacMap → IpMacPair → IpMacMap
  append_pair m pair = record m { arr = set m.arr m.amt pair; amt = m.amt + 1 }

  -- What follows the loop: the early return, or the append.
  after_loop : IpMacMap → IpMacPair → Option (List IpMacPair) → IpMacMap
  unfolding reserve append_pair
  after_loop m pair (some arr) = record m { arr = arr }
  after_loop m pair none = append_pair (reserve m) pair

  unfoldable pub update_ip_mac_pair : IpMacMap → IpMacPair → IpMacMap
  unfolding update_loop after_loop
  update_ip_mac_pair m pair = after_loop m pair (update_loop m.amt m.arr pair)
