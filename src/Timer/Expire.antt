-- ===== src/Timer/Expire.antt =====
-- The loop of `timer_handler`: what it makes of the delta list, and that it ends.
pub mod Loop
use mathlib.Core.Path.{subst}
use cs489_router.Prelude.{
  ℕ, zero, suc, ◌+◌, ◌^◌, ◌%◌, ◌<◌, ◌≡◌, ◌≢◌, refl, ap, sym, ◌∙◌, inl, inr, Bool, true, false,
  Option, some, List, [], ◌∷◌, ◌++◌, append-nil, append_assoc, if◌then◌else◌, Bool-cases, arith,
  All, All-append, leb, ◌==◌, ==→≡, length,
}
use cs489_router.Address.{IpAddr, ip_addr_equals}
use cs489_router.Interfaces.{InterfaceConfig, get_interface_for_ip}
use cs489_router.State.{Frame, Packet, DeltaNode, Router, ◌>>=◌}
use cs489_router.Arp.{send_arp, arp_request}
use cs489_router.Timer.{
  total_time, rest_of_second, resend, give_up, expire_node, expire_list, expire,
}
use cs489_router.Timer.Queue.{waiting, timetable, Absent, IsTimetable, IsQueue, append-IsTimetable}
use cs489_router.Timer.Add.{append_node-second, waiting-append_node}
use cs489_router.Timer.Due.{
  request, requests, counts, once_each, counts-append, due, later, asking, given_up, in_a_second,
  due-append, later-append, total_time-later, later-IsQueue, send_arp-keeps,
}

-- What the handler makes of a list: the nodes whose time is up and that have not asked again do, with
-- a request for each, and are due in a second; the packets of the others are dropped. No node is
-- left whose time is up.
pub record Expired (interfaces : List InterfaceConfig) (list : List DeltaNode)
    (dropped : List Packet) (sent : List Frame) (r' : Router) : Type 0 where
  pub plan : timetable 0 r'.delta_list ≡ timetable 0 (later list) ++ in_a_second (asking (due list))
  pub packets :
      (ip : IpAddr)
      → waiting r'.delta_list ip ≡ waiting (later list) ip ++ waiting (asking (due list)) ip
  pub losses : r'.dropped ≡ dropped ++ given_up (due list)
  pub questions : r'.sent ≡ sent ++ requests interfaces (asking (due list))
  pub tried : counts r'.delta_list ≡ counts (later list) ++ once_each (asking (due list))
  pub ahead : due r'.delta_list ≡ []
  pub queue : IsQueue r'.delta_list

abbrev pub HasRoute : List InterfaceConfig → DeltaNode → Type 0
HasRoute interfaces node =
    (int_id : ℕ) × (get_interface_for_ip interfaces node.ip_addr ≡ some int_id)

stop :
    (r : Router)
    → due r.delta_list ≡ []
    → later r.delta_list ≡ r.delta_list
    → IsQueue r.delta_list
    → Expired r.interfaces r.delta_list r.dropped r.sent r
unfolding asking requests once_each in_a_second given_up waiting
stop r none_due all_later queue = record {
  plan = rw (none_due, all_later) (sym (append-nil (timetable 0 r.delta_list)));
  packets = λ ip. rw (none_due, all_later) (sym (append-nil (waiting r.delta_list ip)));
  losses = rw none_due (sym (append-nil r.dropped));
  questions = rw none_due (sym (append-nil r.sent));
  tried = rw (none_due, all_later) (sym (append-nil (counts r.delta_list)));
  ahead = none_due;
  queue = queue;
}

append_if :
    (b : Bool) (xs ys zs : List Packet)
    → (xs ++ (if b then ys else [])) ++ zs ≡ xs ++ (if b then ys ++ zs else zs)
append_if true xs ys zs = append_assoc xs ys zs
append_if false xs ys zs = ap (λ l. l ++ zs) (append-nil xs)

-- A node that has asked again, as it is appended.
abbrev again_node : DeltaNode → List DeltaNode → DeltaNode
again_node node rest = record node {
  msec = rest_of_second (total_time rest);
  retry_amt = (node.retry_amt + 1) % 2 ^ 8;
}

module _ (interfaces : List InterfaceConfig) (node : DeltaNode) (rest : List DeltaNode)
    (dropped : List Packet) (sent : List Frame) (r' : Router) (now : (node.msec == 0) ≡ true) where
  after_give_up :
      leb 1 node.retry_amt ≡ true
      → Expired interfaces rest (dropped ++ node.pkt_list) sent r'
      → Expired interfaces (node ∷ rest) dropped sent r'
  unfolding due later asking given_up
  after_give_up old ex = record {
    plan = rw (now, old) ex.plan;
    packets = λ ip. rw (now, old) (ex.packets ip);
    losses = rw (now, old) (ex.losses ∙ append_assoc dropped node.pkt_list _);
    questions = rw (now, old) ex.questions;
    tried = rw (now, old) ex.tried;
    ahead = ex.ahead;
    queue = ex.queue;
  }

  abbrev again : DeltaNode
  again = again_node node rest

  second_ahead : total_time rest ≡ 0 → again.msec ≢ 0
  second_ahead e z = absurd (ground (arith, e, z))

  after_resend :
      leb 1 node.retry_amt ≡ false
      → IsQueue rest
      → Expired interfaces
          (rest ++ (again ∷ []))
          dropped
          (sent ++ request interfaces node.ip_addr)
          r'
      → Expired interfaces (node ∷ rest) dropped sent r'
  unfolding due later asking given_up in_a_second waiting requests once_each
  after_resend first queue ex = record {
    plan =
        rw (now, first)
          (ex.plan ∙ rw (dues, laters, second) (append_assoc (timetable 0 (later rest)) _ _));
    packets = λ ip.
        rw (now, first)
          (ex.packets ip
            ∙ rw (dues, laters, waiting-append_node (later rest) again ip)
                (append_if (ip_addr_equals node.ip_addr ip) (waiting (later rest) ip) node.pkt_list
                  _));
    losses = rw (now, first) (ex.losses ∙ rw dues);
    questions =
        rw (now, first)
          (ex.questions ∙ rw dues (append_assoc sent (request interfaces node.ip_addr) _));
    tried =
        rw (now, first)
          (ex.tried
            ∙ rw (dues, laters, counts-append (later rest) again, once)
                (append_assoc (counts (later rest)) _ _));
    ahead = ex.ahead;
    queue = ex.queue;
  }
    where
      dues : due (rest ++ (again ∷ [])) ≡ due rest
      dues = due-append again rest second_ahead

      laters : later (rest ++ (again ∷ [])) ≡ later rest ++ (again ∷ [])
      laters = later-append again rest second_ahead

      once : (node.retry_amt + 1) % 2 ^ 8 ≡ 1
      once = ground (arith, first)

      second :
          timetable 0 (later rest ++ (again ∷ []))
          ≡ timetable 0 (later rest) ++ ((node.ip_addr, 1000) ∷ [])
      second =
          append_node-second (later rest) again (later-IsQueue rest queue)
            (ap rest_of_second (sym (total_time-later rest)))

-- A run of the loop that ends well.
abbrev pub Finished :
    List InterfaceConfig → List DeltaNode → List Packet → List Frame → Option Router → Type 0
Finished interfaces list dropped sent o =
    (r' : Router) × (o ≡ some r') × Expired interfaces list dropped sent r'
