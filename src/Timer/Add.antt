-- ===== src/Timer/Add.antt =====
-- `timer_add_packet` on the packets that wait and on the timetable.
use cs489_router.Prelude.{
  ℕ, ◌+◌, ◌≤◌, ◌≡◌, refl, ap, sym, ◌∙◌, inl, inr, true, false, Option, none, some, List, [], ◌∷◌,
  ◌++◌, append_assoc, append-nil, if◌then◌else◌, ltb, ◌⊎◌, ◌==◌, length, Bool-cases, arith,
}
use cs489_router.Address.{IpAddr, ip_addr_equals}
use cs489_router.Address.Laws.{ip_addr_equals→≡}
use cs489_router.State.{Packet, DeltaNode, Router, ◌>>=◌}
use cs489_router.Timer.{
  total_time, rest_of_second, join_node, new_node, after_join, timer_add_packet,
}
use cs489_router.Arp.{send_arp, arp_request}
use mathlib.Core.Path.{subst}
use cs489_router.Timer.Queue.{
  waiting, timetable, Absent, IsTimetable, IsQueue, waiting-Absent, append-IsTimetable,
}

-- The packets for `ip` after one for `dst` was added.
abbrev pub added : List Packet → Packet → IpAddr → IpAddr → List Packet
added before pkt dst ip = before ++ (if ip_addr_equals dst ip then pkt ∷ [] else [])

-- The first loop: it ends without a node, or the packet is behind the others for its address.
abbrev Joined : ℕ → List DeltaNode → Packet → IpAddr → Option (List DeltaNode) → Type 0
Joined start list pkt dst none = Absent dst (timetable start list)
Joined start list pkt dst (some list') =
    (timetable start list' ≡ timetable start list)
    × ((ip : IpAddr) → waiting list' ip ≡ added (waiting list ip) pkt dst ip)

keep_node :
    (start : ℕ) (node : DeltaNode) (rest : List DeltaNode) (pkt : Packet) (dst : IpAddr)
    (o : Option (List DeltaNode))
    → ip_addr_equals node.ip_addr dst ≡ false
    → Joined (start + node.msec) rest pkt dst o
    → Joined start (node ∷ rest) pkt dst (o >>= λ rest'. some (node ∷ rest'))
unfolding timetable waiting
keep_node start node rest pkt dst none differ h = (differ, h)
keep_node start node rest pkt dst (some rest') differ h = (
  ap (λ more. (node.ip_addr, start + node.msec) ∷ more) h.0,
  λ ip. elim (Bool-cases (ip_addr_equals node.ip_addr ip)) [
    | inl same ↦ rw (same, h.1 ip) (sym (append_assoc node.pkt_list (waiting rest ip) _))
    | inr other ↦ rw (other, h.1 ip)
  ],
)

-- A packet behind those of the node.
join_here :
    (node : DeltaNode) (pkt : Packet) (dst ip : IpAddr)
    → ip_addr_equals node.ip_addr dst ≡ true
    → (rest : List DeltaNode) → waiting rest node.ip_addr ≡ []
    → waiting (record node { pkt_list = node.pkt_list ++ (pkt ∷ []) } ∷ rest) ip
      ≡ added (waiting (node ∷ rest) ip) pkt dst ip
unfolding waiting
join_here node pkt dst ip same rest none_left = elim (Bool-cases (ip_addr_equals node.ip_addr ip)) [
  | inl here ↦ rw (
    here,
    ← ip_addr_equals→≡ node.ip_addr dst same,
    here,
    ← ip_addr_equals→≡ node.ip_addr ip here,
    none_left,
    append-nil node.pkt_list,
    append-nil (node.pkt_list ++ (pkt ∷ [])),
  )
  | inr other ↦ rw (other, ← ip_addr_equals→≡ node.ip_addr dst same, other, append-nil)
]

join_node-Joined :
    (start : ℕ) (list : List DeltaNode) (pkt : Packet) (dst : IpAddr)
    → IsTimetable (timetable start list)
    → Joined start list pkt dst (join_node list pkt dst)
unfolding join_node timetable
join_node-Joined start [] pkt dst h = tt
join_node-Joined start (node ∷ rest) pkt dst h =
    elim (Bool-cases (ip_addr_equals node.ip_addr dst)) [
      | inl same ↦ rw same (
        refl,
        λ ip.
            join_here node pkt dst ip same rest
              (waiting-Absent (start + node.msec) rest node.ip_addr h.1),
      )
      | inr differ ↦ rw differ (
          keep_node start node rest pkt dst (join_node rest pkt dst) differ
            (join_node-Joined (start + node.msec) rest pkt dst h.2))
    ]

-- A node of its own at the end.
append_node :
    (start : ℕ) (list : List DeltaNode) (node : DeltaNode)
    → timetable start (list ++ (node ∷ []))
      ≡ timetable start list ++ ((node.ip_addr, start + total_time list + node.msec) ∷ [])
unfolding timetable total_time
append_node start [] node =
    ap (λ (t : ℕ). (node.ip_addr, t + node.msec) ∷ []) {x = start} {y = start + 0} (omega arith)
append_node start (first ∷ rest) node =
    ap (λ more. (first.ip_addr, start + first.msec) ∷ more)
      (append_node (start + first.msec) rest node
        ∙ ap
            (λ (t : ℕ). timetable (start + first.msec) rest ++ ((node.ip_addr, t + node.msec) ∷ []))
            (omega arith))

pub waiting-append_node :
    (list : List DeltaNode) (node : DeltaNode) (ip : IpAddr)
    → waiting (list ++ (node ∷ [])) ip
      ≡ waiting list ip ++ (if ip_addr_equals node.ip_addr ip then node.pkt_list else [])
unfolding waiting
waiting-append_node [] node ip = elim (Bool-cases (ip_addr_equals node.ip_addr ip)) [
  | inl same ↦ rw (same, append-nil node.pkt_list)
  | inr other ↦ rw other
]
waiting-append_node (first ∷ rest) node ip = elim (Bool-cases (ip_addr_equals first.ip_addr ip)) [
  | inl same ↦
      rw (same, waiting-append_node rest node ip)
        (sym (append_assoc first.pkt_list (waiting rest ip) _))
  | inr other ↦ rw (other, waiting-append_node rest node ip)
]

-- The last line of a timetable is the total time.
pub total_time-le :
    (start : ℕ) (list : List DeltaNode)
    → IsTimetable (timetable start list)
    → start ≤ 1000
    → start + total_time list ≤ 1000
unfolding timetable total_time
total_time-le start [] h le = omega arith
total_time-le start (node ∷ rest) h le =
    omega (arith, total_time-le (start + node.msec) rest h.2 h.0)

-- `1000 - total_time` milliseconds behind the last node is a second from the timer's start.
pub append_node-second :
    (list : List DeltaNode) (node : DeltaNode)
    → IsQueue list
    → node.msec ≡ rest_of_second (total_time list)
    → timetable 0 (list ++ (node ∷ [])) ≡ timetable 0 list ++ ((node.ip_addr, 1000) ∷ [])
append_node-second list node queue msec =
    append_node 0 list node ∙ ap (λ (t : ℕ). timetable 0 list ++ ((node.ip_addr, t) ∷ [])) second
  where
    le : 0 + total_time list ≤ 1000
    le = total_time-le 0 list queue (omega arith)

    not_late : ltb 1000 (total_time list) ≡ false
    not_late = ground (arith, le)

    second : 0 + total_time list + node.msec ≡ 1000
    second = rw (msec, not_late) (omega (arith, le))

-- What an added packet changes: if packets wait for its address already then only their number,
-- and otherwise a request is sent and the address is due in a second.
pub record IsAdded (r : Router) (pkt : Packet) (int_id : ℕ) (dst : IpAddr) (r' : Router)
    : Type 0 where
  pub packets :
      (ip : IpAddr) → waiting r'.delta_list ip ≡ added (waiting r.delta_list ip) pkt dst ip
  pub queue : IsQueue r'.delta_list
  pub plan :
      ((timetable 0 r'.delta_list ≡ timetable 0 r.delta_list)
        × (r'.sent ≡ r.sent)
        × (r'.timer ≡ r.timer))
      ⊎ (Absent dst (timetable 0 r.delta_list)
          × (timetable 0 r'.delta_list ≡ timetable 0 r.delta_list ++ ((dst, 1000) ∷ []))
          × (r'.sent ≡ (send_arp r (arp_request r.interfaces int_id dst) int_id).sent)
          × (r'.timer
              ≡ (if length r.delta_list == 0 then record { tv_sec = 1; tv_nsec = 0 } else r.timer)))

after_join-IsAdded :
    (r : Router) (pkt : Packet) (int_id : ℕ) (dst : IpAddr) (o : Option (List DeltaNode))
    → IsQueue r.delta_list
    → Joined 0 r.delta_list pkt dst o
    → IsAdded r pkt int_id dst (after_join r pkt int_id dst o)
unfolding after_join new_node
after_join-IsAdded r pkt int_id dst (some list) queue joined = record {
  packets = joined.1;
  queue = subst IsTimetable (sym joined.0) queue;
  plan = inl (joined.0, refl, refl);
}
after_join-IsAdded r pkt int_id dst none queue absent = record {
  packets = waiting-append_node r.delta_list _;
  queue =
      subst IsTimetable (sym second)
        (append-IsTimetable (timetable 0 r.delta_list) (dst, 1000) queue absent (omega arith));
  plan = inr (absent, second, refl, refl);
}
  where
    second :
        timetable 0 (new_node r pkt int_id dst).delta_list
        ≡ timetable 0 r.delta_list ++ ((dst, 1000) ∷ [])
    second = append_node-second r.delta_list _ queue refl

-- On a delta list without a repeated address, whose times are at most a second away,
-- `timer_add_packet` puts the packet behind those that wait for its address and leaves the other
-- addresses' packets alone, and the list stays such a list. If packets wait for the address
-- already, then no time changes and nothing is sent; otherwise a request is sent, the address is
-- due in a second, and the timer is started if the list was empty.
pub timer_add_packet-IsAdded :
    (r : Router) (pkt : Packet) (int_id : ℕ) (dst : IpAddr)
    → IsQueue r.delta_list
    → IsAdded r pkt int_id dst (timer_add_packet r pkt int_id dst)
unfolding timer_add_packet
timer_add_packet-IsAdded r pkt int_id dst queue =
    after_join-IsAdded r pkt int_id dst (join_node r.delta_list pkt dst) queue
      (join_node-Joined 0 r.delta_list pkt dst queue)
