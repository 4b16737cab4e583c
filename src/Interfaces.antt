-- ===== src/Interfaces.antt =====
-- src/interfaces.c and include/interfaces.h: the configured interfaces and the choice of one.
-- The array is a parameter of the functions; `interface_arr` is its value at the start.
pub mod Route
pub mod Default
mod Tests
use cs489_router.Prelude.{
  ℕ, suc, ◌+◌, ◌%◌, Option, none, some, List, [], ◌∷◌, leb, if◌then◌else◌, length, get_or,
}
use cs489_router.Address.{
  IpAddr, MacAddr, zero_ip, zero_mac, ip_addr_equals, apply_mask, create_subnet_mask,
}

abbrev pub int_type_ether : ℕ
int_type_ether = 0

abbrev pub int_type_wifi : ℕ
int_type_wifi = 1

abbrev pub int_side_lan : ℕ
int_side_lan = 0

abbrev pub int_side_wan : ℕ
int_side_wan = 1

-- `interface_config_t`. The name is the list of its character codes; `type` has 2 bits, `side` 1
-- and `fd` 5.
pub record InterfaceConfig : Type 0 where
  pub name : List ℕ
  pub device_mac_addr : MacAddr
  pub network_ip : IpAddr
  pub interface_ip : IpAddr
  pub cidr_prefix_len : ℕ
  pub type : ℕ
  pub side : ℕ
  pub fd : ℕ

-- What a read behind the end of the array gives.
abbrev pub no_config : InterfaceConfig
no_config = record {
  name = [];
  device_mac_addr = zero_mac;
  network_ip = zero_ip;
  interface_ip = zero_ip;
  cidr_prefix_len = 0;
  type = 0;
  side = 0;
  fd = 0;
}

-- The array as it is initialised: "veth-router" and "veth-hostroute".
abbrev pub interface_arr : List InterfaceConfig
interface_arr =
    record {
      name = b'v' ∷ b'e' ∷ b't' ∷ b'h' ∷ b'-' ∷ b'r' ∷ b'o' ∷ b'u' ∷ b't' ∷ b'e' ∷ b'r' ∷ [];
      device_mac_addr = zero_mac;
      network_ip = record { b0 = 192; b1 = 168; b2 = 1; b3 = 0 };
      interface_ip = record { b0 = 192; b1 = 168; b2 = 1; b3 = 1 };
      cidr_prefix_len = 24;
      type = int_type_ether;
      side = int_side_lan;
      fd = 0;
    }
    ∷ record {
      name =
          b'v' ∷ b'e' ∷ b't' ∷ b'h' ∷ b'-' ∷ b'h' ∷ b'o' ∷ b's' ∷ b't' ∷ b'r' ∷ b'o' ∷ b'u' ∷ b't'
          ∷ b'e' ∷ [];
      device_mac_addr = zero_mac;
      network_ip = zero_ip;
      interface_ip = record { b0 = 192; b1 = 168; b2 = 0; b3 = 2 };
      cidr_prefix_len = 0;
      type = int_type_ether;
      side = int_side_wan;
      fd = 0;
    }
    ∷ []

-- The addresses that the WAN gives: `wan_network_ip`, `wan_cidr_prefix_len`, `wan_gateway_ip`.
pub record Wan : Type 0 where
  pub network_ip : IpAddr
  pub cidr_prefix_len : ℕ
  pub gateway_ip : IpAddr

abbrev pub wan_initial : Wan
wan_initial = record {
  network_ip = record { b0 = 192; b1 = 168; b2 = 0; b3 = 0 };
  cidr_prefix_len = 24;
  gateway_ip = record { b0 = 192; b1 = 168; b2 = 0; b3 = 1 };
}

unfoldable pub interface_get_wan_id : ℕ
interface_get_wan_id = 1

module _ (arr : List InterfaceConfig) where
  unfoldable pub interface_get_amt : ℕ
  interface_get_amt = length arr

  unfoldable pub interface_get_config : ℕ → InterfaceConfig
  interface_get_config int_id = get_or arr int_id no_config

  unfoldable pub interface_get_side : ℕ → ℕ
  unfolding interface_get_config
  interface_get_side int_id = (interface_get_config int_id).side

  unfoldable pub interface_get_type : ℕ → ℕ
  unfolding interface_get_config
  interface_get_type int_id = (interface_get_config int_id).type

  unfoldable pub interface_get_ip : ℕ → IpAddr
  unfolding interface_get_config
  interface_get_ip int_id = (interface_get_config int_id).interface_ip

  unfoldable pub interface_get_network_ip : ℕ → IpAddr
  unfolding interface_get_config
  interface_get_network_ip int_id = (interface_get_config int_id).network_ip

  unfoldable pub interface_get_mac_addr : ℕ → MacAddr
  interface_get_mac_addr int_id = (get_or arr int_id no_config).device_mac_addr

  unfoldable pub interface_get_subnet_mask : ℕ → IpAddr
  unfolding interface_get_config
  interface_get_subnet_mask int_id =
      create_subnet_mask (interface_get_config int_id).cidr_prefix_len

-- The loop of `get_interface_for_ip` over the rest of the array, at index `i`. `int_id` is `none`
-- while C leaves it uninitialised. `highest` is `highest_cidr_prefix_len + 128`, so that the -1 of
-- the start is 127 and the conversion of a length to `int8_t` is a remainder.
route_loop : List InterfaceConfig → ℕ → Option ℕ → ℕ → IpAddr → Option ℕ
route_loop [] i int_id highest ip = int_id
route_loop (config ∷ rest) i int_id highest ip =
    let next = route_loop rest (i + 1) int_id highest ip in
    let found = route_loop rest (i + 1) (some i) ((config.cidr_prefix_len + 128) % 256) ip in
    if leb (config.cidr_prefix_len + 128) highest
    then next
    else if ip_addr_equals (apply_mask (create_subnet_mask config.cidr_prefix_len) ip)
        config.network_ip
    then found
    else next

unfoldable pub get_interface_for_ip : List InterfaceConfig → IpAddr → Option ℕ
unfolding route_loop
get_interface_for_ip arr ip = route_loop arr 0 none 127 ip
