-- ===== src/Timer/Expire/Loop.antt =====
-- The loop of `timer_handler` ends, round by round.
use mathlib.Core.Path.{subst}
use cs489_router.Prelude.{
  ℕ, zero, suc, ◌+◌, ◌<◌, ◌≡◌, refl, ap, sym, ◌∙◌, inl, inr, true, false, Option, some, List, [],
  ◌∷◌, ◌++◌, Bool-cases, arith, All, All-append, leb, ◌==◌, ==→≡, length,
}
use cs489_router.Interfaces.{InterfaceConfig, get_interface_for_ip}
use cs489_router.State.{Frame, Packet, DeltaNode, Router, ◌>>=◌}
use cs489_router.Arp.{send_arp, arp_request}
use cs489_router.Timer.{resend, give_up, expire_node, expire_list, expire}
use cs489_router.Timer.Queue.{timetable, Absent, IsTimetable, IsQueue, append-IsTimetable}
use cs489_router.Timer.Add.{append_node-second}
use cs489_router.Timer.Due.{due, later, due-append, send_arp-keeps, send_arp-request}
use cs489_router.Timer.Expire.{
  Expired, HasRoute, Finished, stop, again_node, second_ahead, after_give_up, after_resend,
}

finish :
    (interfaces interfaces' : List InterfaceConfig) (list list' : List DeltaNode)
    (dropped dropped' : List Packet) (sent sent' : List Frame) (o : Option Router)
    → ((r' : Router)
        → Expired interfaces list dropped sent r'
        → Expired interfaces' list' dropped' sent' r')
    → Finished interfaces list dropped sent o
    → Finished interfaces' list' dropped' sent' o
finish interfaces interfaces' list list' dropped dropped' sent sent' o f (r', e, ex) =
    (r', e, f r' ex)

append_again-IsQueue :
    (node : DeltaNode) (rest : List DeltaNode)
    → IsQueue rest
    → Absent node.ip_addr (timetable 0 rest)
    → IsQueue (rest ++ (again_node node rest ∷ []))
append_again-IsQueue node rest queue absent =
    subst IsTimetable (sym (append_node-second rest (again_node node rest) queue refl))
      (append-IsTimetable (timetable 0 rest) (node.ip_addr, 1000) queue absent (omega arith))

pub tail-IsQueue :
    (node : DeltaNode) (rest : List DeltaNode)
    → (node.msec == 0) ≡ true
    → IsQueue (node ∷ rest)
    → IsQueue rest × Absent node.ip_addr (timetable 0 rest)
unfolding timetable
tail-IsQueue node rest now queue = (
  subst (λ (t : ℕ). IsTimetable (timetable t rest)) zero_time queue.2,
  subst (λ (t : ℕ). Absent node.ip_addr (timetable t rest)) zero_time queue.1,
)
  where
    zero_time : 0 + node.msec ≡ 0
    zero_time = omega (arith, ==→≡ node.msec 0 now)

due_tail :
    (node : DeltaNode) (rest : List DeltaNode) (fuel : ℕ)
    → (node.msec == 0) ≡ true
    → length (due (node ∷ rest)) < suc fuel
    → length (due rest) < fuel
unfolding due
due_tail node rest fuel now lt = omega (arith, fewer)
  where
    fewer : length (due (node ∷ rest)) ≡ suc (length (due rest))
    fewer = rw now

-- One round, if the rest of the loop ends well whenever less than `fuel` nodes are due.
module _ (fuel : ℕ) (next : Router → Option Router)
    (ih : (r : Router)
      → IsQueue r.delta_list
      → All (HasRoute r.interfaces) r.delta_list
      → length (due r.delta_list) < fuel
      → Finished r.interfaces r.delta_list r.dropped r.sent (next r)) where
  resend-Finished :
      (r : Router) (node : DeltaNode) (rest : List DeltaNode) (int_id : ℕ)
      → (node.msec == 0) ≡ true
      → leb 1 node.retry_amt ≡ false
      → get_interface_for_ip r.interfaces node.ip_addr ≡ some int_id
      → IsQueue rest
      → Absent node.ip_addr (timetable 0 rest)
      → All (HasRoute r.interfaces) rest
      → length (due rest) < fuel
      → Finished r.interfaces (node ∷ rest) r.dropped r.sent (resend r node rest >>= next)
  unfolding resend
  resend-Finished r node rest int_id now first route queue absent routes lt = rw route (
      finish sent.interfaces r.interfaces (rest ++ (again_node node rest ∷ [])) (node ∷ rest)
        sent.dropped r.dropped sent.sent r.sent
        (next (record sent { delta_list = rest ++ (again_node node rest ∷ []) }))
        (λ r' ex. after_resend r.interfaces node rest r.dropped r.sent r' now first queue (
          subst (λ s. Expired r.interfaces (rest ++ (again_node node rest ∷ [])) r.dropped s r')
            (send_arp-request r node.ip_addr int_id route)
            (subst (λ ifs. Expired ifs (rest ++ (again_node node rest ∷ [])) r.dropped sent.sent r')
              (send_arp-keeps r _ int_id).0
              (subst
                (λ d. Expired sent.interfaces (rest ++ (again_node node rest ∷ [])) d sent.sent r')
                (send_arp-keeps r _ int_id).1 ex))))
        (ih (record sent { delta_list = rest ++ (again_node node rest ∷ []) })
          (append_again-IsQueue node rest queue absent)
          (subst (λ ifs. All (HasRoute ifs) (rest ++ (again_node node rest ∷ [])))
            (sym (send_arp-keeps r _ int_id).0)
            (All-append (HasRoute r.interfaces) rest (again_node node rest ∷ [])
              ((int_id, route), tt) routes))
          (rw
            (due-append (again_node node rest) rest
              (second_ahead r.interfaces node rest r.dropped r.sent r now))
            lt)))
    where
      sent : Router
      sent = send_arp r (arp_request r.interfaces int_id node.ip_addr) int_id

  give_up-Finished :
      (r : Router) (node : DeltaNode) (rest : List DeltaNode)
      → (node.msec == 0) ≡ true
      → leb 1 node.retry_amt ≡ true
      → IsQueue rest
      → All (HasRoute r.interfaces) rest
      → length (due rest) < fuel
      → Finished r.interfaces (node ∷ rest) r.dropped r.sent (next (give_up r node rest))
  unfolding give_up
  give_up-Finished r node rest now old queue routes lt =
      finish r.interfaces r.interfaces rest (node ∷ rest) (r.dropped ++ node.pkt_list) r.dropped
        r.sent r.sent (next (give_up r node rest))
        (λ r' ex. after_give_up r.interfaces node rest r.dropped r.sent r' now old ex)
        (ih (give_up r node rest) queue routes lt)

  expire_list-Finished :
      (r : Router) (list : List DeltaNode)
      → r.delta_list ≡ list
      → IsQueue list
      → All (HasRoute r.interfaces) list
      → length (due list) < suc fuel
      → Finished r.interfaces list r.dropped r.sent (expire_list next list r)
  unfolding expire_list expire_node due later
  expire_list-Finished r [] e queue routes lt = (
    r,
    refl,
    subst (λ l. Expired r.interfaces l r.dropped r.sent r) e
        (stop r (ap due e) (ap later e ∙ sym e) (subst IsQueue (sym e) queue)),
  )
  expire_list-Finished r (node ∷ rest) e queue routes lt = elim (Bool-cases (node.msec == 0)) [
    | inr wait ↦ rw wait (
      r,
      refl,
      subst (λ l. Expired r.interfaces l r.dropped r.sent r) e
          (stop r (ap due e ∙ rw wait) (ap later e ∙ rw wait (sym e))
            (subst IsQueue (sym e) queue)),
    )
    | inl now ↦ elim (Bool-cases (leb 1 node.retry_amt)) [
      | inl old ↦
          rw (now, old)
            (give_up-Finished r node rest now old (tail-IsQueue node rest now queue).0 routes.1
              (due_tail node rest fuel now lt))
      | inr first ↦
          rw (now, first)
            (resend-Finished r node rest routes.0.0 now first routes.0.1
              (tail-IsQueue node rest now queue).0 (tail-IsQueue node rest now queue).1 routes.1
              (due_tail node rest fuel now lt))
    ]
  ]

pub expire-Finished :
    (fuel : ℕ) (r : Router)
    → IsQueue r.delta_list
    → All (HasRoute r.interfaces) r.delta_list
    → length (due r.delta_list) < fuel
    → Finished r.interfaces r.delta_list r.dropped r.sent (expire fuel r)
unfolding expire
expire-Finished zero r queue routes lt = absurd (omega arith)
expire-Finished (suc fuel) r queue routes lt =
    expire_list-Finished fuel (expire fuel) (expire-Finished fuel) r r.delta_list refl queue routes
      lt
