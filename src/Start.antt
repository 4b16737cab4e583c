-- ===== src/Start.antt =====
-- The start of the program: `main` of src/main.c up to the threads, and the names and addresses that
-- `getifaddrs` reports.
pub mod Gateway
pub mod Network
pub mod Boot
pub mod Waiting
pub mod Receive
pub mod Open
mod Tests
use cs489_router.Prelude.{
  ℕ, zero, suc, ◌+◌, bit_or, Bool, true, false, Option, none, some, List, [], ◌∷◌, ◌==◌,
  if◌then◌else◌, length, set, take, write_bytes,
}
use cs489_router.Address.{IpAddr, MacAddr, apply_mask, prefix_len_get}
use cs489_router.Interfaces.{
  InterfaceConfig, Wan, interface_arr, wan_initial, interface_get_config, interface_get_wan_id,
}
use cs489_router.Devices.{IpMacPair, empty_map}
use cs489_router.Hashmap.{Hashmap, unlocked}
use cs489_router.State.{Router, disarmed, ◌>>=◌}
use cs489_router.Napt.{napt_init}
use cs489_router.Ethernet.{ethernet_handle, frame_after}

-- What `ifa_addr` and `ifa_netmask` hold, by the family of the address: `AF_INET`, `AF_PACKET`, or
-- another family or none.
pub data IfaAddr : Type 0 where
  inet : IpAddr → IpAddr → IfaAddr
  packet : MacAddr → IfaAddr
  other_family : IfaAddr

-- `struct ifaddrs`. A name is the list of its character codes, none of which is zero.
pub record Ifaddrs : Type 0 where
  pub ifa_name : List ℕ
  pub ifa_addr : IfaAddr

-- `strncmp` gives 0.
unfoldable pub strncmp_equal : List ℕ → List ℕ → ℕ → Bool
strncmp_equal s1 s2 zero = true
strncmp_equal [] [] (suc n) = true
strncmp_equal [] (c ∷ s2) (suc n) = false
strncmp_equal (c ∷ s1) [] (suc n) = false
strncmp_equal (c1 ∷ s1) (c2 ∷ s2) (suc n) =
    let rest = strncmp_equal s1 s2 n in if c1 == c2 then rest else false

-- `strcmp` gives 0.
unfoldable pub strcmp_equal : List ℕ → List ℕ → Bool
strcmp_equal [] [] = true
strcmp_equal [] (c ∷ s2) = false
strcmp_equal (c ∷ s1) [] = false
strcmp_equal (c1 ∷ s1) (c2 ∷ s2) = let rest = strcmp_equal s1 s2 in if c1 == c2 then rest else false

-- `ip_gateway`: the network's address with its last bit set.
unfoldable pub gateway_of : IpAddr → IpAddr
gateway_of ip_network = record ip_network { b3 = bit_or ip_network.b3 1 }

-- The WAN, from the address and the mask of its interface.
unfoldable pub set_up_wan : Router → IpAddr → IpAddr → Option Router
set_up_wan r ip mask = do
  prefix_len ← prefix_len_get mask
  let ip_network = apply_mask mask ip
  let config = interface_get_config r.interfaces interface_get_wan_id
  some (record r {
    wan = record {
      network_ip = ip_network;
      cidr_prefix_len = prefix_len;
      gateway_ip = gateway_of ip_network;
    };
    interfaces = set r.interfaces interface_get_wan_id (record config { interface_ip = ip });
  })

-- The loop over the interfaces: the first of that name gets the hardware address.
unfoldable pub set_mac : List InterfaceConfig → List ℕ → MacAddr → List InterfaceConfig
set_mac [] name mac = []
set_mac (config ∷ rest) name mac =
    let rest' = set_mac rest name mac in
    if strcmp_equal name config.name
    then record config { device_mac_addr = mac } ∷ rest
    else config ∷ rest'

-- The body of the loop over the reported addresses. The name of the WAN's interface is compared as
-- far as it goes.
unfoldable pub configure_one : Router → List ℕ → IfaAddr → Option Router
configure_one r name (inet ip mask) =
    let wan_name = (interface_get_config r.interfaces interface_get_wan_id).name in
    let set_up = set_up_wan r ip mask in
    if strncmp_equal wan_name name (length wan_name) then set_up else some r
configure_one r name (packet mac) = some (record r { interfaces = set_mac r.interfaces name mac })
configure_one r name other_family = some r

unfoldable pub configure : Router → List Ifaddrs → Option Router
configure r [] = some r
configure r (ifa ∷ addrs) = configure_one r ifa.ifa_name ifa.ifa_addr >>= λ r'. configure r' addrs

-- The zeros of an uninitialised global; `napt_init` sets both tables.
abbrev unset_table : Hashmap
unset_table = record {
  hash_func = λ key. 0;
  size = 0;
  size_allocated = 0;
  size_value = 0;
  size_key = 0;
  bytes = [];
  lock = unlocked;
}

-- The globals as they are initialised; `fresh_pair` is what `realloc` will find in fresh memory.
unfoldable pub globals : IpMacPair → Router
globals fresh_pair = record {
  interfaces = interface_arr;
  wan = wan_initial;
  devices = empty_map;
  fresh_pair = fresh_pair;
  delta_list = [];
  timer = disarmed;
  napt_extern = unset_table;
  napt_intern = unset_table;
  sent = [];
  dropped = [];
}

-- `main` up to the start of the threads, with what `pthread_mutex_init` returns and what
-- `getifaddrs` reports.
unfoldable pub boot : IpMacPair → ℕ → List Ifaddrs → Option Router
boot fresh_pair mutex_result addrs = configure (napt_init (globals fresh_pair) mutex_result) addrs

-- `ETHER_MTU`
abbrev pub ether_mtu : ℕ
ether_mtu = 1518

-- A frame that `read` gives, and what `rand()` and `timer_gettime` give while it is handled.
pub record Arrival : Type 0 where
  pub frame : List ℕ
  pub rands : List ℕ
  pub left : ℕ

-- `read` writes over the first bytes of the buffer, which keeps the rest of earlier frames.
unfoldable pub read_frame : List ℕ → List ℕ → List ℕ
read_frame buffer frame = write_bytes buffer 0 (take ether_mtu frame)

-- The loop of `thread_start`, for an interface, as long as frames arrive.
unfoldable pub thread_loop : ℕ → List ℕ → List Arrival → Router → Option Router
thread_loop int_id buffer [] r = some r
thread_loop int_id buffer (arrival ∷ later) r =
    let buffer' = read_frame buffer arrival.frame in
    ethernet_handle arrival.rands arrival.left r buffer' int_id >>= λ r'.
    thread_loop int_id (frame_after arrival.rands r buffer' int_id) later r'
