-- ===== src/Run/Reach.antt =====
-- Every state that a run reaches.
use mathlib.Core.Path.{subst}
use cs489_router.Prelude.{Bool, ◌≡◌, sym, ◌∙◌, some, List, []}
use cs489_router.Interfaces.{InterfaceConfig, Wan}
use cs489_router.Interfaces.Default.{HasDefault}
use cs489_router.State.{Router, OnSuccess}
use cs489_router.Timer.{timer_handler}
use cs489_router.Timer.Due.{due}
use cs489_router.Run.{Step, received, ticked, Reaches, started, went}
use cs489_router.Run.Sound.{IsSound}
use cs489_router.Run.Handling.{ethernet_handle-IsSound}
use cs489_router.Run.Ticking.{timer_handler-IsTicked}

module _ (timed : Bool) (interfaces : List InterfaceConfig) (wan : Wan)
    (default : HasDefault interfaces) where
  Step-IsSound :
      (r r' : Router)
      → Step timed r r'
      → IsSound timed interfaces wan r
      → IsSound timed interfaces wan r'
  Step-IsSound r r' (received rands left frame int_id lt run) sound =
      subst (OnSuccess (IsSound timed interfaces wan)) run
        (ethernet_handle-IsSound timed interfaces wan rands left r frame int_id lt sound)
  Step-IsSound r r' (ticked run) sound =
      let (r1, done) = timer_handler-IsTicked timed interfaces wan r sound default in
      subst (OnSuccess (IsSound timed interfaces wan)) (sym done.0 ∙ run) done.1

  -- If one interface is a default route, then what holds at the start holds in every state that a
  -- run of frames and time-outs reaches.
  pub reached-IsSound :
      (start r : Router)
      → IsSound timed interfaces wan start
      → Reaches timed start r
      → IsSound timed interfaces wan r
  reached-IsSound start r sound started = sound
  reached-IsSound start r sound (went reaches step) =
      Step-IsSound _ r step (reached-IsSound start _ sound reaches)

  -- If one interface is a default route, then in every state that a run of frames and time-outs
  -- reaches from a sound one `timer_handler` returns, and leaves no node whose time is up.
  pub reached-timer_handler :
      (start r : Router)
      → IsSound timed interfaces wan start
      → Reaches timed start r
      → (r' : Router) × (timer_handler r ≡ some r') × (due r'.delta_list ≡ [])
  reached-timer_handler start r sound reaches =
      let (r', done) =
        timer_handler-IsTicked timed interfaces wan r (reached-IsSound start r sound reaches)
          default in
      (r', done.0, done.2)
