-- ===== src/Start/Boot.antt =====
-- The state that the program starts in, and what a run from it goes through.
use mathlib.Core.Path.{subst}
use cs489_router.Prelude.{
  Bool, ℕ, zero, suc, ◌≡◌, refl, inl, inr, some, List, [], ◌∷◌, length, set, get_or, Bool-cases,
  arith,
}
use cs489_router.Address.{IpAddr, MacAddr, prefix_len_get}
use cs489_router.Interfaces.{
  InterfaceConfig, no_config, Wan, interface_get_config, interface_get_wan_id,
}
use cs489_router.Interfaces.Default.{HasDefault, here, behind}
use cs489_router.Devices.{IpMacPair}
use cs489_router.State.{Router, OnSuccess, bind-OnSuccess, any-OnSuccess}
use cs489_router.Timer.{timer_handler}
use cs489_router.Timer.Queue.{timetable}
use cs489_router.Timer.Due.{due}
use cs489_router.Napt.{napt_init}
use cs489_router.Run.{Reaches}
use cs489_router.Run.Sound.{IsSound}
use cs489_router.Run.Reach.{reached-IsSound, reached-timer_handler}
use cs489_router.Start.{
  IfaAddr, Ifaddrs, inet, packet, other_family, strncmp_equal, strcmp_equal, set_up_wan, set_mac,
  configure_one, configure, globals, boot,
}

set_mac-HasDefault :
    (arr : List InterfaceConfig) (name : List ℕ) (mac : MacAddr)
    → HasDefault arr
    → HasDefault (set_mac arr name mac)
unfolding set_mac
set_mac-HasDefault [] name mac default = default
set_mac-HasDefault (config ∷ rest) name mac (here len network) =
    elim (Bool-cases (strcmp_equal name config.name)) [
      | inl same ↦ rw same (here len network)
      | inr differ ↦ rw differ (here len network)
    ]
set_mac-HasDefault (config ∷ rest) name mac (behind later) =
    elim (Bool-cases (strcmp_equal name config.name)) [
      | inl same ↦ rw same (behind later)
      | inr differ ↦ rw differ (behind (set_mac-HasDefault rest name mac later))
    ]

set_ip-HasDefault :
    (arr : List InterfaceConfig) (i : ℕ) (ip : IpAddr)
    → HasDefault arr
    → HasDefault (set arr i (record (get_or arr i no_config) { interface_ip = ip }))
set_ip-HasDefault [] i ip default = default
set_ip-HasDefault (config ∷ rest) zero ip (here len network) = here len network
set_ip-HasDefault (config ∷ rest) zero ip (behind later) = behind later
set_ip-HasDefault (config ∷ rest) (suc i) ip (here len network) = here len network
set_ip-HasDefault (config ∷ rest) (suc i) ip (behind later) =
    behind (set_ip-HasDefault rest i ip later)

-- Nothing was received yet.
record IsFresh (r : Router) : Type 0 where
  default : HasDefault r.interfaces
  sound : (timed : Bool) → IsSound timed r.interfaces r.wan r

-- A change of the interfaces and the WAN only.
reconfigured :
    (r : Router) (interfaces : List InterfaceConfig) (wan : Wan)
    → IsFresh r
    → HasDefault interfaces
    → IsFresh (record r { interfaces = interfaces; wan = wan })
reconfigured r interfaces wan fresh default = record {
  default = default;
  sound = λ timed. record {
    interfaces_same = refl;
    wan_same = refl;
    devices = (fresh.sound timed).devices;
    queue = (fresh.sound timed).queue;
    armed = (fresh.sound timed).armed;
  };
}

set_up_wan-IsFresh :
    (r : Router) (ip mask : IpAddr) → IsFresh r → OnSuccess IsFresh (set_up_wan r ip mask)
unfolding set_up_wan interface_get_config
set_up_wan-IsFresh r ip mask fresh = any-OnSuccess IsFresh (prefix_len_get mask) _ (λ prefix_len.
    reconfigured r _ _ fresh (set_ip-HasDefault r.interfaces interface_get_wan_id ip fresh.default))

configure_one-IsFresh :
    (r : Router) (name : List ℕ) (addr : IfaAddr)
    → IsFresh r
    → OnSuccess IsFresh (configure_one r name addr)
unfolding configure_one
configure_one-IsFresh r name (inet ip mask) fresh =
    elim (Bool-cases (strncmp_equal wan_name name (length wan_name))) [
      | inl same ↦ rw same (set_up_wan-IsFresh r ip mask fresh)
      | inr other ↦ rw other fresh
    ]
  where
    wan_name : List ℕ
    wan_name = (interface_get_config r.interfaces interface_get_wan_id).name
configure_one-IsFresh r name (packet mac) fresh =
    reconfigured r (set_mac r.interfaces name mac) r.wan fresh
      (set_mac-HasDefault r.interfaces name mac fresh.default)
configure_one-IsFresh r name other_family fresh = fresh

configure-IsFresh :
    (r : Router) (addrs : List Ifaddrs) → IsFresh r → OnSuccess IsFresh (configure r addrs)
unfolding configure
configure-IsFresh r [] fresh = fresh
configure-IsFresh r (ifa ∷ addrs) fresh =
    bind-OnSuccess IsFresh IsFresh (configure_one r ifa.ifa_name ifa.ifa_addr) _
      (configure_one-IsFresh r ifa.ifa_name ifa.ifa_addr fresh)
      (λ r' after. configure-IsFresh r' addrs after)

globals-IsFresh :
    (fresh_pair : IpMacPair) (mutex_result : ℕ)
    → IsFresh (napt_init (globals fresh_pair) mutex_result)
unfolding napt_init globals timetable
globals-IsFresh fresh_pair mutex_result = record {
  default = behind (here refl refl);
  sound = λ timed. record {
    interfaces_same = refl;
    wan_same = refl;
    devices = record { allocated = refl; within = omega arith };
    queue = tt;
    armed = refl;
  };
}

module _ (fresh_pair : IpMacPair) (mutex_result : ℕ) (addrs : List Ifaddrs) (start : Router)
    (run : boot fresh_pair mutex_result addrs ≡ some start) where
  boot-IsFresh : IsFresh start
  unfolding boot
  boot-IsFresh = subst (OnSuccess IsFresh) run (
      configure-IsFresh (napt_init (globals fresh_pair) mutex_result) addrs
        (globals-IsFresh fresh_pair mutex_result))

  -- Whatever addresses the system reports at the start, and whatever frames and time-outs come: the
  -- interfaces and the WAN stay as `main` set them up, the table of hardware addresses is valid, the
  -- delta list has no address twice and no time over a second away, and the timer is disarmed if no
  -- packet waits. In a run that is `timed`, in which `timer_gettime` never gave zero nanoseconds,
  -- the timer also runs whenever a packet waits.
  pub boot-IsSound :
      (timed : Bool) (r : Router)
      → Reaches timed start r
      → IsSound timed start.interfaces start.wan r
  boot-IsSound timed r reaches =
      reached-IsSound timed start.interfaces start.wan boot-IsFresh.default start r
        (boot-IsFresh.sound timed) reaches

  -- Whatever addresses the system reports at the start, and whatever frames and time-outs come,
  -- `timer_handler` returns when it is called, and leaves no node whose time is up.
  pub boot-timer_handler :
      (timed : Bool) (r : Router)
      → Reaches timed start r
      → (r' : Router) × (timer_handler r ≡ some r') × (due r'.delta_list ≡ [])
  boot-timer_handler timed r reaches =
      reached-timer_handler timed start.interfaces start.wan boot-IsFresh.default start r
        (boot-IsFresh.sound timed) reaches
