-- ===== src/Run/Ticking.antt =====
-- `timer_handler` keeps the router sound, and returns.
use mathlib.Core.Path.{subst}
use cs489_router.Prelude.{
  Bool, true, false, ◌<◌, ◌≡◌, ◌∙◌, refl, sym, ap, some, List, [], ◌∷◌, All, arith, length,
}
use cs489_router.Interfaces.{InterfaceConfig, Wan}
use cs489_router.Interfaces.Default.{HasDefault, get_interface_for_ip-default}
use cs489_router.Devices.Table.{IsValid}
use cs489_router.State.{DeltaNode, TimerValue, Router, OnSuccess}
use cs489_router.Timer.{timer_handler}
use cs489_router.Timer.Queue.{timetable}
use cs489_router.Timer.Due.{due}
use cs489_router.Timer.Expire.{HasRoute}
use cs489_router.Timer.Handler.{IsSetFor, IsHandled, timer_handler-IsHandled}
use cs489_router.Timer.Keep.{Keeps, timer_handler-Keeps}
use cs489_router.Run.Sound.{IsArmedFor, IsSound}

armed_for :
    (timed : Bool) (list : List DeltaNode) (timer : TimerValue)
    → IsSetFor list timer
    → IsArmedFor timed (timetable 0 list) timer
unfolding timetable
armed_for timed [] timer set = set
armed_for true (node ∷ rest) timer set = omega (arith, set.0, set.2)
armed_for false (node ∷ rest) timer set = tt

every-HasRoute :
    (interfaces : List InterfaceConfig) (list : List DeltaNode)
    → HasDefault interfaces
    → All (HasRoute interfaces) list
every-HasRoute interfaces [] default = tt
every-HasRoute interfaces (node ∷ rest) default = (
  get_interface_for_ip-default interfaces node.ip_addr default,
  every-HasRoute interfaces rest default,
)

module _ (timed : Bool) (interfaces : List InterfaceConfig) (wan : Wan) (r : Router)
    (sound : IsSound timed interfaces wan r) where
  handled-IsSound : (r' : Router) → Keeps r r' → IsHandled r r' → IsSound timed interfaces wan r'
  handled-IsSound r' keeps handled = record {
    interfaces_same = keeps.0 ∙ sound.interfaces_same;
    wan_same = keeps.1 ∙ sound.wan_same;
    devices = subst IsValid (sym keeps.2) sound.devices;
    queue = handled.expired.queue;
    armed = armed_for timed r'.delta_list r'.timer handled.set;
  }

  -- The handler returns, in a sound state with no node whose time is up.
  abbrev pub IsTicked : Router → Type 0
  IsTicked r' =
      (timer_handler r ≡ some r') × IsSound timed interfaces wan r' × (due r'.delta_list ≡ [])

  idle_tick : r.delta_list ≡ [] → IsTicked r
  unfolding timer_handler due
  idle_tick empty = (rw empty, sound, rw empty)

  busy_tick : 0 < length r.delta_list → HasDefault interfaces → (r' : Router) × IsTicked r'
  busy_tick busy default =
      let (r', run, handled) = timer_handler-IsHandled r busy sound.queue (
        every-HasRoute r.interfaces r.delta_list
          (subst HasDefault (sym sound.interfaces_same) default)) in
      (
        r',
        (
          run,
          handled-IsSound r' (subst (OnSuccess (Keeps r)) run (timer_handler-Keeps r)) handled,
          handled.expired.ahead,
        ),
      )

  pub timer_handler-IsTicked : HasDefault interfaces → (r' : Router) × IsTicked r'
  timer_handler-IsTicked default = split r.delta_list refl
    where
      split : (list : List DeltaNode) → r.delta_list ≡ list → (r' : Router) × IsTicked r'
      split [] e = (r, idle_tick e)
      split (node ∷ rest) e = busy_tick (omega (arith, ap length e)) default
