-- ===== src/Timer/Remove.antt =====
-- `remove_node`, the first loop of `timer_update_packets`, on the packets and on the timetable.
use mathlib.Core.Path.{subst}
use cs489_router.Prelude.{
  ℕ, ◌+◌, ◌^◌, ◌%◌, ◌≡◌, refl, ap, sym, ◌∙◌, inl, inr, true, false, Option, none, some, List, [],
  ◌∷◌, append-nil, if◌then◌else◌, Bool-cases, arith,
}
use cs489_router.Address.{IpAddr, ip_addr_equals}
use cs489_router.Address.Laws.{ip_addr_equals→≡, ip_addr_equals_comm}
use cs489_router.State.{Packet, DeltaNode, ◌>>=◌}
use cs489_router.Timer.{lend, remove_node}
use cs489_router.Timer.Queue.{
  waiting, timetable, Absent, IsTimetable, without, waiting-Absent, without-Absent,
}

timetable-lend :
    (start msec : ℕ) (list : List DeltaNode)
    → IsTimetable (timetable (start + msec) list)
    → timetable start (lend msec list) ≡ timetable (start + msec) list
unfolding timetable lend
timetable-lend start msec [] h = refl
timetable-lend start msec (node ∷ rest) h =
    ap (λ (t : ℕ). (node.ip_addr, t) ∷ timetable t rest) {x = start + (node.msec + msec) % 2 ^ 32}
      {y = start + msec + node.msec} (omega (arith, h.0))

waiting-lend :
    (msec : ℕ) (list : List DeltaNode) (ip : IpAddr) → waiting (lend msec list) ip ≡ waiting list ip
unfolding waiting lend
waiting-lend msec [] ip = refl
waiting-lend msec (node ∷ rest) ip = refl

-- The packets that are left when those for `dst` are taken.
abbrev pub taken : List Packet → IpAddr → IpAddr → List Packet
taken before dst ip = if ip_addr_equals dst ip then [] else before

-- The loop ends without a node for an address that is not in the list, and otherwise with all the
-- packets that wait for it and the list without it.
abbrev pub Removed : ℕ → List DeltaNode → IpAddr → Option (DeltaNode × List DeltaNode) → Type 0
Removed start list dst none = Absent dst (timetable start list)
Removed start list dst (some (node, rest)) =
    (node.ip_addr ≡ dst)
    × (node.pkt_list ≡ waiting list dst)
    × (timetable start rest ≡ without dst (timetable start list))
    × ((ip : IpAddr) → waiting rest ip ≡ taken (waiting list ip) dst ip)
    × ¬ Absent dst (timetable start list)

remove_here :
    (start : ℕ) (node : DeltaNode) (rest : List DeltaNode) (dst : IpAddr)
    → ip_addr_equals node.ip_addr dst ≡ true
    → IsTimetable (timetable start (node ∷ rest))
    → Removed start (node ∷ rest) dst (some (node, lend node.msec rest))
unfolding waiting timetable without
remove_here start node rest dst same h = (
  is_dst,
  rw (same, none_left dst same) (sym (append-nil node.pkt_list)),
  rw (same, without-Absent dst (timetable (start + node.msec) rest) absent)
      (timetable-lend start node.msec rest h.2),
  λ ip. elim (Bool-cases (ip_addr_equals node.ip_addr ip)) [
    | inl here ↦ rw (← is_dst, here, waiting-lend node.msec rest ip) (none_left ip here)
    | inr other ↦ rw (← is_dst, other, waiting-lend node.msec rest ip)
  ],
  λ nowhere. absurd (cc (sym same ∙ nowhere.0)),
)
  where
    is_dst : node.ip_addr ≡ dst
    is_dst = ip_addr_equals→≡ node.ip_addr dst same

    absent : Absent dst (timetable (start + node.msec) rest)
    absent = subst (λ ip. Absent ip (timetable (start + node.msec) rest)) is_dst h.1

    none_left : (ip : IpAddr) → ip_addr_equals node.ip_addr ip ≡ true → waiting rest ip ≡ []
    none_left ip e = waiting-Absent (start + node.msec) rest ip (
        subst (λ to. Absent to (timetable (start + node.msec) rest))
          (ip_addr_equals→≡ node.ip_addr ip e) h.1)

remove_later :
    (start : ℕ) (node : DeltaNode) (rest : List DeltaNode) (dst : IpAddr)
    (o : Option (DeltaNode × List DeltaNode))
    → ip_addr_equals node.ip_addr dst ≡ false
    → Removed (start + node.msec) rest dst o
    → Removed start (node ∷ rest) dst (o >>= λ found. some (found.0, node ∷ found.1))
unfolding waiting timetable without
remove_later start node rest dst none differ h = (differ, h)
remove_later start node rest dst (some (first, rest')) differ h = (
  h.0,
  rw differ h.1,
  rw differ (ap (λ more. (node.ip_addr, start + node.msec) ∷ more) h.2),
  λ ip. elim (Bool-cases (ip_addr_equals node.ip_addr ip)) [
    | inl here ↦ rw (
      here,
      h.3 ip,
      ← ip_addr_equals→≡ node.ip_addr ip here,
      ip_addr_equals_comm dst node.ip_addr,
      differ,
    )
    | inr other ↦ rw (other, h.3 ip)
  ],
  λ nowhere. h.4 nowhere.1,
)

-- On a delta list without a repeated address, whose times are at most a second away, `remove_node`
-- finds nothing exactly when the address is not in the list. Otherwise its node holds all the
-- packets that wait for the address, and the list that is left has the other addresses' packets and
-- times unchanged.
pub remove_node-Removed :
    (start : ℕ) (list : List DeltaNode) (dst : IpAddr)
    → IsTimetable (timetable start list)
    → Removed start list dst (remove_node list dst)
unfolding remove_node timetable
remove_node-Removed start [] dst h = tt
remove_node-Removed start (node ∷ rest) dst h =
    elim (Bool-cases (ip_addr_equals node.ip_addr dst)) [
      | inl same ↦ rw same (remove_here start node rest dst same h)
      | inr differ ↦ rw differ (
          remove_later start node rest dst (remove_node rest dst) differ
            (remove_node-Removed (start + node.msec) rest dst h.2))
    ]
