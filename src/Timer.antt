-- ===== src/Timer.antt =====
-- The delta list of src/timer.c: packets that wait for a hardware address. Each function holds
-- `timer_mutex` while it works on the list, so its part on the list is one step.
pub mod Queue
pub mod Add
pub mod Remove
pub mod Due
pub mod Expire
pub mod Handler
pub mod Keep
pub mod Tries
pub mod Init
mod Tests
use cs489_router.Prelude.{
  ℕ, zero, suc, ◌+◌, ◌-◌, ◌*◌, ◌/◌, ◌%◌, ◌^◌, min, Option, none, some, List, [], ◌∷◌, ◌++◌, ltb,
  leb, ◌==◌, if◌then◌else◌, length,
}
use cs489_router.Address.{IpAddr, ip_addr_equals}
use cs489_router.Interfaces.{get_interface_for_ip}
use cs489_router.State.{Packet, DeltaNode, TimerValue, disarmed, Router, ◌>>=◌}
use cs489_router.Arp.{send_arp, arp_request}

-- The time of the last node, which the loops add up.
unfoldable pub total_time : List DeltaNode → ℕ
total_time [] = 0
total_time (node ∷ rest) = node.msec + total_time rest

-- What is left of a second after `total` milliseconds.
abbrev pub rest_of_second : ℕ → ℕ
rest_of_second total = 1000 - (if ltb 1000 total then 1000 else total)

-- `msec * 1000000` nanoseconds, in seconds and nanoseconds.
unfoldable pub timer_value : ℕ → TimerValue
timer_value total = record { tv_sec = total / 1000000000; tv_nsec = total % 1000000000 }

-- The first loop of `timer_add_packet`, when a node waits for the address already.
unfoldable pub join_node : List DeltaNode → Packet → IpAddr → Option (List DeltaNode)
join_node [] pkt dst = none
join_node (node ∷ rest) pkt dst =
    let later = join_node rest pkt dst in
    if ip_addr_equals node.ip_addr dst
    then some (record node { pkt_list = node.pkt_list ++ (pkt ∷ []) } ∷ rest)
    else later >>= λ rest'. some (node ∷ rest')

-- The rest of `timer_add_packet`: a request, and a new node at the end of the list.
pub new_node : Router → Packet → ℕ → IpAddr → Router
new_node r pkt int_id dst =
    let r' = send_arp r (arp_request r.interfaces int_id dst) int_id in
    let node : DeltaNode = record {
      msec = rest_of_second (total_time r.delta_list);
      ip_addr = dst;
      pkt_list = pkt ∷ [];
      retry_amt = 0;
    } in
    record r' {
      delta_list = r.delta_list ++ (node ∷ []);
      timer = if length r.delta_list == 0 then record { tv_sec = 1; tv_nsec = 0 } else r.timer;
    }

after_join : Router → Packet → ℕ → IpAddr → Option (List DeltaNode) → Router
unfolding new_node
after_join r pkt int_id dst (some list) = record r { delta_list = list }
after_join r pkt int_id dst none = new_node r pkt int_id dst

unfoldable pub timer_add_packet : Router → Packet → ℕ → IpAddr → Router
unfolding after_join
timer_add_packet r pkt int_id dst = after_join r pkt int_id dst (join_node r.delta_list pkt dst)

-- A node whose time is up for the first time asks again and goes to the end of the list.
resend : Router → DeltaNode → List DeltaNode → Option Router
resend r node rest = do
  int_id ← get_interface_for_ip r.interfaces node.ip_addr
  let r' = send_arp r (arp_request r.interfaces int_id node.ip_addr) int_id
  let node' : DeltaNode = record node {
    msec = rest_of_second (total_time rest);
    retry_amt = (node.retry_amt + 1) % 2 ^ 8;
  }
  some (record r' { delta_list = rest ++ (node' ∷ []) })

-- One whose time is up again is given up, with its packets.
give_up : Router → DeltaNode → List DeltaNode → Router
give_up r node rest = record r { delta_list = rest; dropped = r.dropped ++ node.pkt_list }

expire_node : Router → DeltaNode → List DeltaNode → Option Router
unfolding resend give_up
expire_node r node rest =
    if leb 1 node.retry_amt then some (give_up r node rest) else resend r node rest

-- The loop of `timer_handler` over the nodes whose time is up. One round for each node of the list
-- is enough, since a node that goes to its end waits again.
expire_list : (Router → Option Router) → List DeltaNode → Router → Option Router
unfolding expire_node
expire_list again [] r = some r
expire_list again (node ∷ rest) r =
    let next = expire_node r node rest >>= again in if node.msec == 0 then next else some r

pub expire : ℕ → Router → Option Router
unfolding expire_list
expire zero r = none
expire (suc fuel) r = expire_list (expire fuel) r.delta_list r

-- The timer for the first node of a list.
unfoldable pub timer_for : List DeltaNode → TimerValue
timer_for [] = disarmed
timer_for (node ∷ rest) = timer_value (node.msec * 1000000)

-- `delta_list->msec = 0`
pub zero_first : List DeltaNode → List DeltaNode
zero_first [] = []
zero_first (node ∷ rest) = record node { msec = 0 } ∷ rest

set_timer : Router → Router
set_timer r = record r { timer = timer_for r.delta_list }

-- The handler returns at once if the list is empty.
unfoldable pub timer_handler : Router → Option Router
unfolding expire zero_first set_timer
timer_handler r =
    let start = record r { delta_list = zero_first r.delta_list } in
    let run = expire (suc (length r.delta_list)) start >>= λ r'. some (set_timer r') in
    if length r.delta_list == 0 then some r else run

-- The first loop of `timer_update_packets`: the node of an address, and the list without it. The
-- time of the removed node is added to the next.
lend : ℕ → List DeltaNode → List DeltaNode
lend msec [] = []
lend msec (node ∷ rest) = record node { msec = (node.msec + msec) % 2 ^ 32 } ∷ rest

unfoldable pub remove_node : List DeltaNode → IpAddr → Option (DeltaNode × List DeltaNode)
unfolding lend
remove_node [] dst = none
remove_node (node ∷ rest) dst =
    let later = remove_node rest dst in
    if ip_addr_equals node.ip_addr dst
    then some (node, lend node.msec rest)
    else later >>= λ found. some (found.0, node ∷ found.1)

-- The timer after the first node was removed; `left` is the `tv_nsec` that `timer_gettime` gives.
-- The seconds that it gives are not used.
unfoldable pub timer_without_first : List DeltaNode → ℕ → TimerValue
timer_without_first [] left = disarmed
timer_without_first (next ∷ rest) left = timer_value (left + next.msec * 1000000)

-- The timer that `timer_update_packets` sets, if the node is the first of the list.
unfoldable pub timer_after_remove : TimerValue → List DeltaNode → IpAddr → ℕ → TimerValue
timer_after_remove old [] dst left = old
timer_after_remove old (node ∷ rest) dst left =
    if ip_addr_equals node.ip_addr dst then timer_without_first rest left else old
