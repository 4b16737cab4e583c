-- ===== src/Timer/Handler.antt =====
-- `timer_handler` as a whole.
use cs489_router.Prelude.{
  ℕ, suc, ◌+◌, ◌*◌, ◌≤◌, ◌<◌, ◌≡◌, refl, inl, inr, false, Option, some, List, [], ◌∷◌, Bool-cases,
  arith, All, ◌==◌, ≢→==, length,
}
use cs489_router.Address.{IpAddr}
use cs489_router.Interfaces.{InterfaceConfig}
use cs489_router.State.{DeltaNode, TimerValue, disarmed, Router, ◌>>=◌}
use cs489_router.Timer.{timer_value, expire, timer_for, zero_first, set_timer, timer_handler}
use cs489_router.Timer.Queue.{timetable, Absent, IsTimetable, IsQueue}
use cs489_router.Timer.Due.{due}
use cs489_router.Timer.Expire.{Expired, HasRoute, Finished}
use cs489_router.Timer.Expire.Loop.{expire-Finished}

Absent-shift :
    (from to : ℕ) (list : List DeltaNode) (ip : IpAddr)
    → Absent ip (timetable from list)
    → Absent ip (timetable to list)
unfolding timetable
Absent-shift from to [] ip h = tt
Absent-shift from to (node ∷ rest) ip h =
    (h.0, Absent-shift (from + node.msec) (to + node.msec) rest ip h.1)

IsTimetable-shift :
    (from to : ℕ) (list : List DeltaNode)
    → to ≤ from
    → IsTimetable (timetable from list)
    → IsTimetable (timetable to list)
unfolding timetable
IsTimetable-shift from to [] le h = tt
IsTimetable-shift from to (node ∷ rest) le h = (
  omega (arith, h.0),
  Absent-shift (from + node.msec) (to + node.msec) rest node.ip_addr h.1,
  IsTimetable-shift (from + node.msec) (to + node.msec) rest (omega arith) h.2,
)

zero_first-IsQueue : (list : List DeltaNode) → IsQueue list → IsQueue (zero_first list)
unfolding zero_first timetable
zero_first-IsQueue [] h = tt
zero_first-IsQueue (node ∷ rest) h = (
  omega arith,
  Absent-shift (0 + node.msec) 0 rest node.ip_addr h.1,
  IsTimetable-shift (0 + node.msec) 0 rest (omega arith) h.2,
)

zero_first-routes :
    (ifs : List InterfaceConfig) (list : List DeltaNode)
    → All (HasRoute ifs) list
    → All (HasRoute ifs) (zero_first list)
unfolding zero_first
zero_first-routes ifs [] h = tt
zero_first-routes ifs (node ∷ rest) h = h

length-due : (list : List DeltaNode) → length (due list) ≤ length list
unfolding due
length-due [] = omega arith
length-due (node ∷ rest) = elim (Bool-cases (node.msec == 0)) [
  | inl now ↦ rw now (omega (arith, length-due rest))
  | inr wait ↦ rw wait (omega arith)
]

length-zero_first : (list : List DeltaNode) → length (zero_first list) ≡ length list
unfolding zero_first
length-zero_first [] = refl
length-zero_first (node ∷ rest) = refl

-- The timer is disarmed for an empty list, and set to the first node's time otherwise, which is
-- not zero, since that would disarm it.
abbrev pub IsSetFor : List DeltaNode → TimerValue → Type 0
IsSetFor [] timer = timer ≡ disarmed
IsSetFor (node ∷ rest) timer =
    (timer.tv_sec * 1000000000 + timer.tv_nsec ≡ node.msec * 1000000)
    × (timer.tv_nsec < 1000000000)
    × (0 < node.msec)

timer_for-IsSetFor : (list : List DeltaNode) → due list ≡ [] → IsSetFor list (timer_for list)
unfolding timer_for timer_value due
timer_for-IsSetFor [] h = refl
timer_for-IsSetFor (node ∷ rest) h = (
  omega arith,
  omega arith,
  elim (Bool-cases (node.msec == 0)) [
    | inl now ↦ absurd (ground (arith, h, now))
    | inr wait ↦ ground (arith, wait)
  ],
)

pub record IsHandled (r r' : Router) : Type 0 where
  pub expired : Expired r.interfaces (zero_first r.delta_list) r.dropped r.sent r'
  pub set : IsSetFor r'.delta_list r'.timer

set_timer-IsHandled :
    (r : Router) (o : Option Router)
    → Finished r.interfaces (zero_first r.delta_list) r.dropped r.sent o
    → (r' : Router) × ((o >>= λ r1. some (set_timer r1)) ≡ some r') × IsHandled r r'
unfolding set_timer
set_timer-IsHandled r o (r', e, ex) = (
  set_timer r',
  rw e,
  record {
    expired = record {
      plan = ex.plan;
      packets = ex.packets;
      losses = ex.losses;
      questions = ex.questions;
      tried = ex.tried;
      ahead = ex.ahead;
      queue = ex.queue;
    };
    set = timer_for-IsSetFor r'.delta_list ex.ahead;
  },
)

-- On a delta list that is not empty, has no repeated address, no time over a second away, and
-- only addresses with an interface, `timer_handler` returns. Of the nodes whose time is up, the
-- first one included, those that have not asked again do: one request is sent for each
-- whose route is an Ethernet, in their order, and nothing else; they have asked again once and are due in a second, with their packets.
-- The packets of the others are dropped. The nodes whose time is not up keep their packets, their
-- times, counted from the first one's, and the number of times that they asked. The list stays such a list, no node is left whose time is up, and the timer is set
-- to the first node's time, or disarmed if none is left.
pub timer_handler-IsHandled :
    (r : Router)
    → 0 < length r.delta_list
    → IsQueue r.delta_list
    → All (HasRoute r.interfaces) r.delta_list
    → (r' : Router) × (timer_handler r ≡ some r') × IsHandled r r'
unfolding timer_handler
timer_handler-IsHandled r some_wait queue routes = rw not_empty (
    set_timer-IsHandled r (expire (suc (length r.delta_list)) start) (
      expire-Finished (suc (length r.delta_list)) start (zero_first-IsQueue r.delta_list queue)
        (zero_first-routes r.interfaces r.delta_list routes)
        (omega (arith, length-due (zero_first r.delta_list), length-zero_first r.delta_list))))
  where
    start : Router
    start = record r { delta_list = zero_first r.delta_list }

    not_empty : (length r.delta_list == 0) ≡ false
    not_empty = ≢→== (length r.delta_list) 0 (λ e. absurd (omega arith))
