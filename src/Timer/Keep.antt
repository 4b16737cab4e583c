-- ===== src/Timer/Keep.antt =====
-- What the functions of the delta list leave alone: the interfaces, the WAN, the hardware
-- addresses and the tables of the address translation.
use cs489_router.Prelude.{
  ℕ, zero, suc, ◌≡◌, ◌∙◌, refl, inl, inr, Option, none, some, List, [], ◌∷◌, Bool-cases, leb, ◌==◌,
  length,
}
use cs489_router.Address.{IpAddr}
use cs489_router.Interfaces.{get_interface_for_ip}
use cs489_router.State.{Packet, DeltaNode, Router, OnSuccess, bind-OnSuccess, any-OnSuccess}
use cs489_router.Arp.{arp_request}
use cs489_router.Timer.{
  join_node, new_node, after_join, timer_add_packet, resend, give_up, expire_node, expire_list,
  expire, zero_first, set_timer, timer_handler,
}
use cs489_router.Timer.Due.{send_arp-keeps}

abbrev pub Keeps : Router → Router → Type 0
Keeps r r' =
    (r'.interfaces ≡ r.interfaces)
    × (r'.wan ≡ r.wan)
    × (r'.devices ≡ r.devices)
    × (r'.napt_extern ≡ r.napt_extern)
    × (r'.napt_intern ≡ r.napt_intern)

after_join-Keeps :
    (r : Router) (pkt : Packet) (int_id : ℕ) (dst : IpAddr) (o : Option (List DeltaNode))
    → Keeps r (after_join r pkt int_id dst o)
unfolding after_join new_node
after_join-Keeps r pkt int_id dst (some list) = (refl, refl, refl, refl, refl)
after_join-Keeps r pkt int_id dst none =
    let keeps = send_arp-keeps r (arp_request r.interfaces int_id dst) int_id in
    (keeps.0, keeps.2, keeps.3, keeps.4, keeps.5)

pub timer_add_packet-Keeps :
    (r : Router) (pkt : Packet) (int_id : ℕ) (dst : IpAddr)
    → Keeps r (timer_add_packet r pkt int_id dst)
unfolding timer_add_packet
timer_add_packet-Keeps r pkt int_id dst =
    after_join-Keeps r pkt int_id dst (join_node r.delta_list pkt dst)

resend-Keeps :
    (r : Router) (node : DeltaNode) (rest : List DeltaNode)
    → OnSuccess (Keeps r) (resend r node rest)
unfolding resend
resend-Keeps r node rest =
    any-OnSuccess (Keeps r) (get_interface_for_ip r.interfaces node.ip_addr) _ (λ int_id.
      let keeps = send_arp-keeps r (arp_request r.interfaces int_id node.ip_addr) int_id in
      (keeps.0, keeps.2, keeps.3, keeps.4, keeps.5))

expire_node-Keeps :
    (r : Router) (node : DeltaNode) (rest : List DeltaNode)
    → OnSuccess (Keeps r) (expire_node r node rest)
unfolding expire_node give_up
expire_node-Keeps r node rest = elim (Bool-cases (leb 1 node.retry_amt)) [
  | inl old ↦ rw old (refl, refl, refl, refl, refl)
  | inr first ↦ rw first (resend-Keeps r node rest)
]

Keeps-trans : (r r1 r2 : Router) → Keeps r r1 → Keeps r1 r2 → Keeps r r2
Keeps-trans r r1 r2 first second = (
  second.0 ∙ first.0,
  second.1 ∙ first.1,
  second.2 ∙ first.2,
  second.3 ∙ first.3,
  second.4 ∙ first.4,
)

weaken :
    (r r1 : Router) (o : Option Router)
    → Keeps r r1
    → OnSuccess (Keeps r1) o
    → OnSuccess (Keeps r) o
weaken r r1 none keeps h = tt
weaken r r1 (some r2) keeps h = Keeps-trans r r1 r2 keeps h

expire_list-Keeps :
    (again : Router → Option Router) (list : List DeltaNode) (r : Router)
    → ((r' : Router) → OnSuccess (Keeps r') (again r'))
    → OnSuccess (Keeps r) (expire_list again list r)
unfolding expire_list
expire_list-Keeps again [] r h = (refl, refl, refl, refl, refl)
expire_list-Keeps again (node ∷ rest) r h = elim (Bool-cases (node.msec == 0)) [
  | inl now ↦ rw now (
      bind-OnSuccess (Keeps r) (Keeps r) (expire_node r node rest) again
        (expire_node-Keeps r node rest) (λ r' keeps. weaken r r' (again r') keeps (h r')))
  | inr wait ↦ rw wait (refl, refl, refl, refl, refl)
]

expire-Keeps : (fuel : ℕ) (r : Router) → OnSuccess (Keeps r) (expire fuel r)
unfolding expire
expire-Keeps zero r = tt
expire-Keeps (suc fuel) r = expire_list-Keeps (expire fuel) r.delta_list r (expire-Keeps fuel)

pub timer_handler-Keeps : (r : Router) → OnSuccess (Keeps r) (timer_handler r)
unfolding timer_handler set_timer
timer_handler-Keeps r = elim (Bool-cases (length r.delta_list == 0)) [
  | inl empty ↦ rw empty (refl, refl, refl, refl, refl)
  | inr busy ↦ rw busy (
      bind-OnSuccess (Keeps r) (Keeps r) (expire (suc (length r.delta_list)) start) _
        (expire-Keeps (suc (length r.delta_list)) start) (λ r' keeps. keeps))
]
  where
    start : Router
    start = record r { delta_list = zero_first r.delta_list }
