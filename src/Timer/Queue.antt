-- ===== src/Timer/Queue.antt =====
-- What the delta list stands for: for each address the packets that wait, and a timetable.
use cs489_router.Prelude.{
  ℕ, ◌+◌, ◌≤◌, ◌≡◌, refl, ap, ◌∙◌, inl, inr, false, List, [], ◌∷◌, ◌++◌, if◌then◌else◌, All,
  Bool-cases,
}
use cs489_router.Address.{IpAddr, ip_addr_equals}
use cs489_router.Address.Laws.{ip_addr_equals_comm}
use cs489_router.State.{Packet, DeltaNode}

-- All the packets that wait for an address, the oldest first.
unfoldable pub waiting : List DeltaNode → IpAddr → List Packet
waiting [] ip = []
waiting (node ∷ rest) ip =
    let later = waiting rest ip in
    if ip_addr_equals node.ip_addr ip then node.pkt_list ++ later else later

-- An address, and the milliseconds from the timer's last start to the end of its time.
abbrev pub Due : Type 0
Due = IpAddr × ℕ

-- The timetable of a list whose first node counts from `start`.
unfoldable pub timetable : ℕ → List DeltaNode → List Due
timetable start [] = []
timetable start (node ∷ rest) =
    (node.ip_addr, start + node.msec) ∷ timetable (start + node.msec) rest

abbrev pub Absent : IpAddr → List Due → Type 0
Absent ip = All (λ (due : Due). ip_addr_equals due.0 ip ≡ false)

-- No address stands twice, and no time is over a second away.
abbrev pub IsTimetable : List Due → Type 0
IsTimetable [] = Unit
IsTimetable (due ∷ rest) = (due.1 ≤ 1000) × Absent due.0 rest × IsTimetable rest

abbrev pub IsQueue : List DeltaNode → Type 0
IsQueue list = IsTimetable (timetable 0 list)

-- A timetable without the lines of an address.
unfoldable pub without : IpAddr → List Due → List Due
without ip [] = []
without ip (due ∷ rest) =
    let rest' = without ip rest in if ip_addr_equals due.0 ip then rest' else due ∷ rest'

pub waiting-Absent :
    (start : ℕ) (list : List DeltaNode) (ip : IpAddr)
    → Absent ip (timetable start list)
    → waiting list ip ≡ []
unfolding waiting timetable
waiting-Absent start [] ip h = refl
waiting-Absent start (node ∷ rest) ip h = rw h.0 (waiting-Absent (start + node.msec) rest ip h.1)

pub without-Absent : (ip : IpAddr) (due : List Due) → Absent ip due → without ip due ≡ due
unfolding without
without-Absent ip [] h = refl
without-Absent ip (due ∷ rest) h = rw h.0 (ap (λ more. due ∷ more) (without-Absent ip rest h.1))

pub Absent-without :
    (ip other : IpAddr) (due : List Due) → Absent other due → Absent other (without ip due)
unfolding without
Absent-without ip other [] h = tt
Absent-without ip other (due ∷ rest) h = elim (Bool-cases (ip_addr_equals due.0 ip)) [
  | inl same ↦ rw same (Absent-without ip other rest h.1)
  | inr differ ↦ rw differ (h.0, Absent-without ip other rest h.1)
]

pub without-IsTimetable :
    (ip : IpAddr) (due : List Due) → IsTimetable due → IsTimetable (without ip due)
unfolding without
without-IsTimetable ip [] h = tt
without-IsTimetable ip (due ∷ rest) h = elim (Bool-cases (ip_addr_equals due.0 ip)) [
  | inl same ↦ rw same (without-IsTimetable ip rest h.2)
  | inr differ ↦ rw differ (h.0, Absent-without ip due.0 rest h.1, without-IsTimetable ip rest h.2)
]

pub Absent-append :
    (ip : IpAddr) (due : List Due) (last : Due)
    → Absent ip due
    → ip_addr_equals last.0 ip ≡ false
    → Absent ip (due ++ (last ∷ []))
Absent-append ip [] last h hl = (hl, tt)
Absent-append ip (due ∷ rest) last h hl = (h.0, Absent-append ip rest last h.1 hl)

-- A line for a new address at the end.
pub append-IsTimetable :
    (due : List Due) (last : Due)
    → IsTimetable due
    → Absent last.0 due
    → last.1 ≤ 1000
    → IsTimetable (due ++ (last ∷ []))
append-IsTimetable [] last h absent le = (le, tt, tt)
append-IsTimetable (due ∷ rest) last h absent le = (
  h.0,
  Absent-append due.0 rest last h.1 (ip_addr_equals_comm last.0 due.0 ∙ absent.0),
  append-IsTimetable rest last h.2 absent.1 le,
)
