-- ===== src/Timer/Due.antt =====
-- The nodes of the delta list whose time is up.
use mathlib.Core.Path.{subst}
use cs489_router.Prelude.{
  none, some, sym, ◌∙◌, Option, append-nil, htons, ℕ, ◌≡◌, ◌≢◌, refl, ap, inl, inr, List, [], ◌∷◌,
  ◌++◌, if◌then◌else◌, Bool-cases, arith, leb, ◌==◌, ==→≡, ≢→==,
}
use cs489_router.Interfaces.{
  InterfaceConfig, int_type_ether, get_interface_for_ip, interface_get_type, interface_get_mac_addr,
}
use cs489_router.Address.{IpAddr, broadcast_mac}
use cs489_router.State.{Frame, Packet, DeltaNode, Router, emit}
use cs489_router.Arp.{ArpHdr, arp_bytes, ethernet_frame, arp_request, send_arp}
use cs489_router.Timer.{total_time}
use cs489_router.Timer.Queue.{Due, timetable, IsTimetable, IsQueue}

-- The first nodes of a list, whose time is up, and those behind them.
unfoldable pub due : List DeltaNode → List DeltaNode
due [] = []
due (node ∷ rest) = let more = due rest in if node.msec == 0 then node ∷ more else []

unfoldable pub later : List DeltaNode → List DeltaNode
later [] = []
later (node ∷ rest) = let more = later rest in if node.msec == 0 then more else node ∷ rest

-- Of the nodes whose time is up, those that ask again, and the packets of the others.
unfoldable pub asking : List DeltaNode → List DeltaNode
asking [] = []
asking (node ∷ rest) = let more = asking rest in if leb 1 node.retry_amt then more else node ∷ more

unfoldable pub given_up : List DeltaNode → List Packet
given_up [] = []
given_up (node ∷ rest) =
    let more = given_up rest in if leb 1 node.retry_amt then node.pkt_list ++ more else more

unfoldable pub in_a_second : List DeltaNode → List Due
in_a_second [] = []
in_a_second (node ∷ rest) = (node.ip_addr, 1000) ∷ in_a_second rest

-- The frame of a request for an address: on an Ethernet that is its route.
unfoldable pub request_on : List InterfaceConfig → IpAddr → Option ℕ → List Frame
request_on interfaces ip none = []
request_on interfaces ip (some int_id) =
    if interface_get_type interfaces int_id == int_type_ether
    then record {
      int_id = int_id;
      bytes =
          ethernet_frame broadcast_mac (interface_get_mac_addr interfaces int_id) (htons 0x0806)
            (arp_bytes (arp_request interfaces int_id ip));
    }
      ∷ []
    else []

abbrev pub request : List InterfaceConfig → IpAddr → List Frame
request interfaces ip = request_on interfaces ip (get_interface_for_ip interfaces ip)

-- One request for each of the nodes, in their order.
unfoldable pub requests : List InterfaceConfig → List DeltaNode → List Frame
requests interfaces [] = []
requests interfaces (node ∷ rest) = request interfaces node.ip_addr ++ requests interfaces rest

-- How often the nodes have asked again.
unfoldable pub counts : List DeltaNode → List ℕ
counts [] = []
counts (node ∷ rest) = node.retry_amt ∷ counts rest

unfoldable pub once_each : List DeltaNode → List ℕ
once_each [] = []
once_each (node ∷ rest) = 1 ∷ once_each rest

pub counts-append :
    (list : List DeltaNode) (node : DeltaNode)
    → counts (list ++ (node ∷ [])) ≡ counts list ++ (node.retry_amt ∷ [])
unfolding counts
counts-append [] node = refl
counts-append (first ∷ rest) node = ap (λ more. first.retry_amt ∷ more) (counts-append rest node)

module _ (node : DeltaNode) where
  pub due-append :
      (rest : List DeltaNode)
      → (total_time rest ≡ 0 → node.msec ≢ 0)
      → due (rest ++ (node ∷ [])) ≡ due rest
  unfolding due total_time
  due-append [] h = rw (≢→== node.msec 0 (h refl))
  due-append (first ∷ rest) h = elim (Bool-cases (first.msec == 0)) [
    | inl now ↦ rw now (
        ap (λ more. first ∷ more)
          (due-append rest (λ e. h (omega (arith, ==→≡ first.msec 0 now, e)))))
    | inr wait ↦ rw wait
  ]

  pub later-append :
      (rest : List DeltaNode)
      → (total_time rest ≡ 0 → node.msec ≢ 0)
      → later (rest ++ (node ∷ [])) ≡ later rest ++ (node ∷ [])
  unfolding later total_time
  later-append [] h = rw (≢→== node.msec 0 (h refl))
  later-append (first ∷ rest) h = elim (Bool-cases (first.msec == 0)) [
    | inl now ↦ rw now (later-append rest (λ e. h (omega (arith, ==→≡ first.msec 0 now, e))))
    | inr wait ↦ rw wait
  ]

pub total_time-later : (list : List DeltaNode) → total_time (later list) ≡ total_time list
unfolding total_time later
total_time-later [] = refl
total_time-later (node ∷ rest) = elim (Bool-cases (node.msec == 0)) [
  | inl now ↦ rw now (omega (arith, total_time-later rest, ==→≡ node.msec 0 now))
  | inr wait ↦ rw wait
]

pub later-IsQueue : (list : List DeltaNode) → IsQueue list → IsQueue (later list)
unfolding later timetable
later-IsQueue [] h = tt
later-IsQueue (node ∷ rest) h = elim (Bool-cases (node.msec == 0)) [
  | inl now ↦ rw now (
      later-IsQueue rest (
        subst (λ (t : ℕ). IsTimetable (timetable t rest)) (omega (arith, ==→≡ node.msec 0 now))
          h.2))
  | inr wait ↦ rw wait h
]

-- A request changes nothing but what was sent.
pub send_arp-keeps :
    (r : Router) (pkt : ArpHdr) (int_id : ℕ)
    → ((send_arp r pkt int_id).interfaces ≡ r.interfaces)
      × ((send_arp r pkt int_id).dropped ≡ r.dropped)
      × ((send_arp r pkt int_id).wan ≡ r.wan)
      × ((send_arp r pkt int_id).devices ≡ r.devices)
      × ((send_arp r pkt int_id).napt_extern ≡ r.napt_extern)
      × ((send_arp r pkt int_id).napt_intern ≡ r.napt_intern)
unfolding send_arp emit
send_arp-keeps r pkt int_id =
    elim (Bool-cases (interface_get_type r.interfaces int_id == int_type_ether)) [
      | inl ether ↦ rw ether (refl, refl, refl, refl, refl, refl)
      | inr other ↦ rw other (refl, refl, refl, refl, refl, refl)
    ]

-- What the handler sends for an address with a route.
pub send_arp-request :
    (r : Router) (ip : IpAddr) (int_id : ℕ)
    → get_interface_for_ip r.interfaces ip ≡ some int_id
    → (send_arp r (arp_request r.interfaces int_id ip) int_id).sent
      ≡ r.sent ++ request r.interfaces ip
unfolding send_arp emit request_on arp_request
send_arp-request r ip int_id route =
    elim (Bool-cases (interface_get_type r.interfaces int_id == int_type_ether)) [
      | inl ether ↦ rw ether refl
      | inr other ↦ rw other (sym (append-nil r.sent))
    ]
    ∙ ap (λ o. r.sent ++ request_on r.interfaces ip o) (sym route)
