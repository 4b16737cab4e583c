-- ===== src/Run/Sound.antt =====
-- What stays true while the router runs.
use cs489_router.Prelude.{Bool, true, false, ◌+◌, ◌<◌, ◌≡◌, List, [], ◌∷◌}
use cs489_router.Address.{zero_ip}
use cs489_router.Interfaces.{InterfaceConfig, Wan}
use cs489_router.Hashmap.{Hashmap}
use cs489_router.Devices.{IpMacPair}
use cs489_router.Devices.Table.{IsValid, known-update_ip_mac_pair}
use cs489_router.State.{TimerValue, disarmed, Router}
use cs489_router.Timer.Queue.{Due, timetable, IsQueue}
use cs489_router.Resolve.{learn}

-- The timer is disarmed if no packet waits and, if `timed`, runs if one does.
abbrev pub IsArmedFor : Bool → List Due → TimerValue → Type 0
IsArmedFor timed [] timer = timer ≡ disarmed
IsArmedFor true (due ∷ rest) timer = 0 < timer.tv_sec + timer.tv_nsec
IsArmedFor false (due ∷ rest) timer = Unit {0}

-- The interfaces and the WAN are those of the start, the arrays of hardware addresses fit their
-- counts, the delta list has no address twice and no time over a second away, and the timer is
-- disarmed if the list is empty and, if `timed`, runs if it is not.
pub record IsSound (timed : Bool) (interfaces : List InterfaceConfig) (wan : Wan) (r : Router)
    : Type 0 where
  pub interfaces_same : r.interfaces ≡ interfaces
  pub wan_same : r.wan ≡ wan
  pub devices : IsValid r.devices
  pub queue : IsQueue r.delta_list
  pub armed : IsArmedFor timed (timetable 0 r.delta_list) r.timer

module _ (timed : Bool) (interfaces : List InterfaceConfig) (wan : Wan) (r : Router)
    (sound : IsSound timed interfaces wan r) where
  open sound use {interfaces_same, wan_same, devices, queue, armed}

  pub tables-IsSound :
      (extern intern : Hashmap)
      → IsSound timed interfaces wan (record r { napt_extern = extern; napt_intern = intern })
  tables-IsSound extern intern = record {
    interfaces_same = interfaces_same;
    wan_same = wan_same;
    devices = devices;
    queue = queue;
    armed = armed;
  }

  pub learn-IsSound : (pair : IpMacPair) → IsSound timed interfaces wan (learn r pair)
  unfolding learn
  learn-IsSound pair = record {
    interfaces_same = interfaces_same;
    wan_same = wan_same;
    devices = (known-update_ip_mac_pair r.fresh_pair r.devices devices pair zero_ip).1;
    queue = queue;
    armed = armed;
  }
