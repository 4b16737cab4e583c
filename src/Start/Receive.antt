-- ===== src/Start/Receive.antt =====
-- The loop of a thread makes steps of a run.
use cs489_router.Prelude.{Bool, ℕ, ◌≡◌, refl, Option, none, some, List, [], ◌∷◌, All}
use cs489_router.State.{Router, OnSuccess, bind-OnSuccess}
use cs489_router.Ethernet.{ethernet_handle, frame_after}
use cs489_router.Run.{IsRead, Step, received, Reaches, went}
use cs489_router.Start.{Arrival, read_frame, thread_loop}

abbrev IsTimed : Bool → Arrival → Type 0
IsTimed timed arrival = IsRead timed arrival.left

one-Step :
    (timed : Bool) (arrival : Arrival) (buffer : List ℕ) (int_id : ℕ) (r : Router)
    (o : Option Router)
    → IsTimed timed arrival
    → ethernet_handle arrival.rands arrival.left r buffer int_id ≡ o
    → OnSuccess (Step timed r) o
one-Step timed arrival buffer int_id r none read run = tt
one-Step timed arrival buffer int_id r (some r') read run =
    received arrival.rands arrival.left buffer int_id read run

pub thread_loop-Reaches :
    (timed : Bool) (int_id : ℕ) (buffer : List ℕ) (arrivals : List Arrival) (start r : Router)
    → All (IsTimed timed) arrivals
    → Reaches timed start r
    → OnSuccess (Reaches timed start) (thread_loop int_id buffer arrivals r)
unfolding thread_loop
thread_loop-Reaches timed int_id buffer [] start r all reaches = reaches
thread_loop-Reaches timed int_id buffer (arrival ∷ later) start r all reaches =
    bind-OnSuccess (Step timed r) (Reaches timed start)
      (ethernet_handle arrival.rands arrival.left r (read_frame buffer arrival.frame) int_id) _
      (one-Step timed arrival (read_frame buffer arrival.frame) int_id r _ all.0 refl)
      (λ r' step.
        thread_loop-Reaches timed int_id
          (frame_after arrival.rands r (read_frame buffer arrival.frame) int_id) later start r'
          all.1 (went reaches step))
