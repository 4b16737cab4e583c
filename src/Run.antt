-- ===== src/Run.antt =====
-- The program at work, as the threads of src/main.c run it: frames that arrive (src/ethernet.c) and
-- the timer's time-outs (src/timer.c), one after the other.
pub mod Sound
pub mod Sending
pub mod Handling
pub mod Ticking
pub mod Reach
use cs489_router.Prelude.{ℕ, ◌<◌, ◌≡◌, some, List, Bool, true, false}
use cs489_router.State.{Router}
use cs489_router.Timer.{timer_handler}
use cs489_router.Ethernet.{ethernet_handle}

-- Whether a run may read any number of nanoseconds from the timer, or, if `timed`, none that is zero.
-- `timer_gettime` gives zero nanoseconds when whole seconds are left.
abbrev pub IsRead : Bool → ℕ → Type 0
IsRead true left = 0 < left
IsRead false left = Unit {0}

-- One turn of the loop of `thread_start`, or one of the timer's thread.
pub data Step (timed : Bool) : Router → Router → Type 0 where
  received :
      {r r' : Router} (rands : List ℕ) (left : ℕ) (frame : List ℕ) (int_id : ℕ)
      → IsRead timed left
      → ethernet_handle rands left r frame int_id ≡ some r'
      → Step timed r r'
  ticked : {r r' : Router} → timer_handler r ≡ some r' → Step timed r r'

-- The states that a run goes through.
pub data Reaches (timed : Bool) (start : Router) : Router → Type 0 where
  started : Reaches timed start start
  went : {r r' : Router} → Reaches timed start r → Step timed r r' → Reaches timed start r'
