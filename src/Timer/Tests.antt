-- ===== src/Timer/Tests.antt =====
-- The delta list at concrete inputs.
use cs489_router.Prelude.{◌≡◌, refl, arith, List, [], ◌∷◌, some}
use cs489_router.Address.{ip_addr_equals, apply_mask, create_subnet_mask}
use cs489_router.Interfaces.{interface_arr, get_interface_for_ip}
use cs489_router.State.{DeltaNode, Router}
use cs489_router.Sample.{printer, laptop, idle}
use cs489_router.Timer.{timer_add_packet, timer_handler, remove_node}
use cs489_router.Timer.Queue.{IsQueue, timetable}
use cs489_router.Timer.Add.{IsAdded, timer_add_packet-IsAdded}
use cs489_router.Timer.Remove.{Removed, remove_node-Removed}
use cs489_router.Timer.Handler.{IsHandled, timer_handler-IsHandled}

abbrev pending : List DeltaNode
pending =
    record { msec = 400; ip_addr = printer; pkt_list = (1 ∷ []) ∷ []; retry_amt = 1 }
    ∷ record { msec = 600; ip_addr = laptop; pkt_list = (2 ∷ []) ∷ (3 ∷ []) ∷ []; retry_amt = 0 }
    ∷ []

abbrev busy : Router
busy = record idle { delta_list = pending }

pending-IsQueue : IsQueue pending
unfolding timetable ip_addr_equals
pending-IsQueue = (omega arith, (refl, tt), (omega arith, tt, tt))

timer_add_packet-IsAdded_example :
    IsAdded busy (4 ∷ []) 0 laptop (timer_add_packet busy (4 ∷ []) 0 laptop)
timer_add_packet-IsAdded_example = timer_add_packet-IsAdded busy (4 ∷ []) 0 laptop pending-IsQueue

remove_node-Removed_example : Removed 0 pending laptop (remove_node pending laptop)
remove_node-Removed_example = remove_node-Removed 0 pending laptop pending-IsQueue

to_printer : get_interface_for_ip interface_arr printer ≡ some 0
unfolding get_interface_for_ip apply_mask create_subnet_mask ip_addr_equals
to_printer = refl

to_laptop : get_interface_for_ip interface_arr laptop ≡ some 0
unfolding get_interface_for_ip apply_mask create_subnet_mask ip_addr_equals
to_laptop = refl

timer_handler-IsHandled_example : (r' : Router) × (timer_handler busy ≡ some r') × IsHandled busy r'
timer_handler-IsHandled_example =
    timer_handler-IsHandled busy (omega arith) pending-IsQueue
      ((0, to_printer), ((0, to_laptop), tt))
