-- ===== src/Start/Network.antt =====
-- What `main` makes of the WAN's address.
use cs489_router.Prelude.{
  ℕ, zero, suc, ◌-◌, ◌%◌, ◌^◌, ◌<◌, ◌≤◌, ◌≡◌, ◌∙◌, refl, sym, ap, inl, inr, true, some, List, [],
  ◌∷◌, All, length, set, get_or, get_or-set_self, length-set, Bool-cases, arith,
}
use cs489_router.Address.{IpAddr, MacAddr, apply_mask}
use cs489_router.Address.Laws.{IsIp, ip_value}
use cs489_router.Address.Mask.{netmask, apply_mask-netmask, apply_mask-IsIp}
use cs489_router.Interfaces.{
  InterfaceConfig, no_config, interface_arr, interface_get_config, interface_get_wan_id,
  interface_get_ip,
}
use cs489_router.Interfaces.Route.{Covers, IsConfig}
use cs489_router.Devices.{IpMacPair}
use cs489_router.State.{Router}
use cs489_router.Napt.{napt_init}
use cs489_router.Outgoing.Send.{wan_network}
use cs489_router.Start.Gateway.{covers_next, gateway_value, gateway_of-IsIp, prefix_len, big_power}
use cs489_router.Start.{
  IfaAddr, Ifaddrs, inet, packet, other_family, strncmp_equal, strcmp_equal, gateway_of, set_up_wan,
  set_mac, configure_one, configure, globals, boot,
}

-- What the address and the gateway of the WAN have in common.
pub record IsOnWan (wan_name : List ℕ) (r : Router) : Type 0 where
  pub name_same : (interface_get_config r.interfaces interface_get_wan_id).name ≡ wan_name
  pub present : interface_get_wan_id < length r.interfaces
  pub config : IsConfig (wan_network r.wan)
  pub own : Covers (wan_network r.wan) (interface_get_ip r.interfaces interface_get_wan_id)
  pub gateway : Covers (wan_network r.wan) r.wan.gateway_ip
  pub gateway_ip : IsIp r.wan.gateway_ip

module _ (wan_name : List ℕ) (r : Router) (on : IsOnWan wan_name r) where
  set_up_wan-IsOnWan :
      (ip : IpAddr) (p : ℕ)
      → IsIp ip
      → p ≤ 24
      → (r' : Router) × (set_up_wan r ip (netmask p) ≡ some r') × IsOnWan wan_name r'
  unfolding set_up_wan interface_get_config interface_get_ip
  set_up_wan-IsOnWan ip p is_ip le = (
    record r {
      wan = record { network_ip = network; cidr_prefix_len = p; gateway_ip = gateway_of network };
      interfaces = set r.interfaces interface_get_wan_id (record config { interface_ip = ip });
    },
    rw (prefix_len p le),
    record {
      name_same =
          ap (λ (c : InterfaceConfig). c.name)
            (get_or-set_self r.interfaces interface_get_wan_id _ no_config on.present)
          ∙ on.name_same;
      present = omega (
        arith,
        on.present,
        length-set r.interfaces interface_get_wan_id (record config { interface_ip = ip }),
      );
      config = (le, apply_mask-IsIp p ip (omega arith) is_ip);
      own =
          apply_mask-netmask p ip (omega arith) is_ip
          ∙ ap (λ (own : IpAddr). ip_value own - ip_value own % 2 ^ (32 - p)) (sym own_ip);
      gateway = rw (gateway_value p ip le) (
          covers_next (ip_value ip) (ip_value network) (2 ^ (32 - p)) (big_power p le)
            (apply_mask-netmask p ip (omega arith) is_ip));
      gateway_ip = gateway_of-IsIp p ip le is_ip;
    },
  )
    where
      network : IpAddr
      network = apply_mask (netmask p) ip

      config : InterfaceConfig
      config = get_or r.interfaces interface_get_wan_id no_config

      own_ip :
          interface_get_ip
            (set r.interfaces interface_get_wan_id (record config { interface_ip = ip }))
            interface_get_wan_id
          ≡ ip
      own_ip =
          ap (λ (c : InterfaceConfig). c.interface_ip)
            (get_or-set_self r.interfaces interface_get_wan_id _ no_config on.present)

-- `set_mac` at an index leaves the name and the address alone.
module _ (name : List ℕ) (mac : MacAddr) where
  set_mac-get_or :
      (arr : List InterfaceConfig) (i : ℕ)
      → ((get_or (set_mac arr name mac) i no_config).name ≡ (get_or arr i no_config).name)
        × ((get_or (set_mac arr name mac) i no_config).interface_ip
            ≡ (get_or arr i no_config).interface_ip)
  unfolding set_mac
  set_mac-get_or [] i = (refl, refl)
  set_mac-get_or (config ∷ rest) zero = elim (Bool-cases (strcmp_equal name config.name)) [
    | inl same ↦ rw same (refl, refl)
    | inr differ ↦ rw differ (refl, refl)
  ]
  set_mac-get_or (config ∷ rest) (suc i) = elim (Bool-cases (strcmp_equal name config.name)) [
    | inl same ↦ rw same (refl, refl)
    | inr differ ↦ rw differ (set_mac-get_or rest i)
  ]

  length-set_mac : (arr : List InterfaceConfig) → length (set_mac arr name mac) ≡ length arr
  unfolding set_mac
  length-set_mac [] = refl
  length-set_mac (config ∷ rest) = elim (Bool-cases (strcmp_equal name config.name)) [
    | inl same ↦ rw same
    | inr differ ↦ rw differ (ap suc (length-set_mac rest))
  ]

  set_mac-IsOnWan :
      (wan_name : List ℕ) (r : Router)
      → IsOnWan wan_name r
      → IsOnWan wan_name (record r { interfaces = set_mac r.interfaces name mac })
  unfolding interface_get_config interface_get_ip
  set_mac-IsOnWan wan_name r on = record {
    name_same = kept.0 ∙ on.name_same;
    present = omega (arith, on.present, length-set_mac r.interfaces);
    config = on.config;
    own =
        on.own
        ∙ ap (λ (own : IpAddr). ip_value own - ip_value own % 2 ^ (32 - r.wan.cidr_prefix_len))
            (sym kept.1);
    gateway = on.gateway;
    gateway_ip = on.gateway_ip;
  }
    where
      kept :
          ((get_or (set_mac r.interfaces name mac) interface_get_wan_id no_config).name
            ≡ (get_or r.interfaces interface_get_wan_id no_config).name)
          × ((get_or (set_mac r.interfaces name mac) interface_get_wan_id no_config).interface_ip
              ≡ (get_or r.interfaces interface_get_wan_id no_config).interface_ip)
      kept = set_mac-get_or r.interfaces interface_get_wan_id

module _ (wan_name : List ℕ) where
  -- An address of the WAN's interface has a mask of at most 24 leading ones.
  abbrev pub IsUsable : List ℕ → IfaAddr → Type 0
  IsUsable name (inet ip mask) =
      strncmp_equal wan_name name (length wan_name) ≡ true
      → IsIp ip × ((p : ℕ) × (p ≤ 24) × (mask ≡ netmask p))
  IsUsable name (packet mac) = Unit
  IsUsable name other_family = Unit

  configure_one-IsOnWan :
      (r : Router) (name : List ℕ) (addr : IfaAddr)
      → IsUsable name addr
      → IsOnWan wan_name r
      → (r' : Router) × (configure_one r name addr ≡ some r') × IsOnWan wan_name r'
  unfolding configure_one
  configure_one-IsOnWan r name (packet mac) usable on = (
    record r { interfaces = set_mac r.interfaces name mac },
    refl,
    set_mac-IsOnWan name mac wan_name r on,
  )
  configure_one-IsOnWan r name other_family usable on = (r, refl, on)
  configure_one-IsOnWan r name (inet ip mask) usable on =
      elim (Bool-cases (strncmp_equal wan_name name (length wan_name))) [
        | inr other ↦ rw (on.name_same, other) (r, refl, on)
        | inl same ↦
            rw (on.name_same, same, (usable same).1.2)
              (set_up_wan-IsOnWan wan_name r on ip (usable same).1.0 (usable same).0
                (usable same).1.1)
      ]

  configure-IsOnWan :
      (r : Router) (addrs : List Ifaddrs)
      → All (λ (ifa : Ifaddrs). IsUsable ifa.ifa_name ifa.ifa_addr) addrs
      → IsOnWan wan_name r
      → (r' : Router) × (configure r addrs ≡ some r') × IsOnWan wan_name r'
  unfolding configure
  configure-IsOnWan r [] usable on = (r, refl, on)
  configure-IsOnWan r (ifa ∷ addrs) usable on =
      let (r1, run, on1) = configure_one-IsOnWan r ifa.ifa_name ifa.ifa_addr usable.0 on in
      rw run (configure-IsOnWan r1 addrs usable.1 on1)

-- "veth-hostroute"
abbrev pub wan_interface : List ℕ
wan_interface = (interface_get_config interface_arr interface_get_wan_id).name

globals-IsOnWan :
    (fresh_pair : IpMacPair) (mutex_result : ℕ)
    → IsOnWan wan_interface (napt_init (globals fresh_pair) mutex_result)
unfolding napt_init globals interface_get_config interface_get_ip interface_get_wan_id
globals-IsOnWan fresh_pair mutex_result = record {
  name_same = refl;
  present = omega arith;
  config = (omega arith, (omega arith, omega arith, omega arith, omega arith));
  own = omega arith;
  gateway = omega arith;
  gateway_ip = (omega arith, omega arith, omega arith, omega arith);
}

-- If each IPv4 address that the system reports for the WAN's interface has a mask of at most 24
-- leading ones, then `main` comes to the start of the threads, with a WAN whose network is that of
-- its interface's own address and contains the gateway. Names and masks of other interfaces, and
-- addresses of other families, may be anything.
pub boot-IsOnWan :
    (fresh_pair : IpMacPair) (mutex_result : ℕ) (addrs : List Ifaddrs)
    → All (λ (ifa : Ifaddrs). IsUsable wan_interface ifa.ifa_name ifa.ifa_addr) addrs
    → (r : Router) × (boot fresh_pair mutex_result addrs ≡ some r) × IsOnWan wan_interface r
unfolding boot
boot-IsOnWan fresh_pair mutex_result addrs usable =
    configure-IsOnWan wan_interface (napt_init (globals fresh_pair) mutex_result) addrs usable
      (globals-IsOnWan fresh_pair mutex_result)
