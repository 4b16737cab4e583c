-- ===== src/Timer/Init.antt =====
-- `timer_init` of src/timer.c, on the mutex of the delta list.
use cs489_router.Prelude.{◌≡◌, refl, Bool, true, false, Option, none, some, if◌then◌else◌}
use cs489_router.Hashmap.{Mutex, unlocked, mutex_lock, mutex_unlock}
use cs489_router.State.{◌>>=◌}

-- `created` is whether `timer_create` succeeds.
unfoldable pub timer_init : Mutex → Bool → Option Mutex
timer_init timer_mutex created =
    mutex_lock timer_mutex >>= λ locked. some (if created then mutex_unlock locked else locked)

-- If the timer was created then the mutex is free, and otherwise the next lock of it never returns.
pub timer_init-lock :
    (created : Bool)
    → (timer_init unlocked created >>= mutex_lock) ≡ (if created then mutex_lock unlocked else none)
unfolding timer_init mutex_lock mutex_unlock
timer_init-lock true = refl
timer_init-lock false = refl
