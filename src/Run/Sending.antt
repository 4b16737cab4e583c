-- ===== src/Run/Sending.antt =====
-- `send_ipv4`, `timer_update_packets` and `arp_handle` keep the router sound.
use mathlib.Core.Path.{subst}
use cs489_router.Prelude.{
  Bool, true, false, ℕ, ◌+◌, ≢→==, ◌∙◌, refl, sym, inl, inr, Option, none, some, List, [], ◌∷◌,
  ◌++◌, if◌then◌else◌, ◌==◌, length, Bool-cases, arith, htons, read_bytes,
}
use cs489_router.Address.{IpAddr, zero_ip, ip_addr_equals}
use cs489_router.Interfaces.{
  InterfaceConfig, Wan, int_type_ether, get_interface_for_ip, interface_get_type,
}
use cs489_router.Address.Laws.{ip_addr_equals→≡}
use cs489_router.Devices.Table.{IsValid}
use cs489_router.Devices.{IpMacPair, has_mac_for_ip}
use cs489_router.State.{
  Packet, DeltaNode, TimerValue, Router, emit, OnSuccess, bind-OnSuccess, any-OnSuccess,
}
use cs489_router.Arp.{ArpHdr}
use cs489_router.Timer.{
  timer_add_packet, timer_value, remove_node, timer_without_first, timer_after_remove,
}
use cs489_router.Timer.Queue.{
  Due, timetable, Absent, IsTimetable, IsQueue, without, without-IsTimetable,
}
use cs489_router.Timer.Add.{IsAdded, timer_add_packet-IsAdded}
use cs489_router.Timer.Remove.{Removed, remove_node-Removed}
use cs489_router.Timer.Keep.{Keeps, timer_add_packet-Keeps}
use cs489_router.Outgoing.{ip_dst, total_length, fill_checksums, local_dst_ip, transmit, send_ipv4}
use cs489_router.Resolve.{send_all, release, timer_update_packets, learn, arp_handle}
use cs489_router.Run.{IsRead}
use cs489_router.Run.Sound.{IsArmedFor, IsSound, learn-IsSound}

-- A new node starts the timer of an empty list.
armed_append :
    (timed : Bool) (list : List DeltaNode) (due : Due) (timer : TimerValue)
    → IsArmedFor timed (timetable 0 list) timer
    → IsArmedFor timed
        (timetable 0 list ++ (due ∷ []))
        (if length list == 0 then record { tv_sec = 1; tv_nsec = 0 } else timer)
unfolding timetable
armed_append true [] due timer armed = omega arith
armed_append false [] due timer armed = tt
armed_append true (node ∷ rest) due timer armed =
    rw (≢→== (length (node ∷ rest)) 0 (λ e. absurd (omega arith))) armed
armed_append false (node ∷ rest) due timer armed = tt

armed_next :
    (timed : Bool) (rest : List DeltaNode) (start : ℕ) (dst : IpAddr) (left : ℕ)
    → IsRead timed left
    → Absent dst (timetable start rest)
    → IsArmedFor timed (without dst (timetable start rest)) (timer_without_first rest left)
unfolding timetable without timer_without_first timer_value
armed_next timed [] start dst left lt absent = refl
armed_next true (next ∷ more) start dst left lt absent = rw absent.0 (omega arith)
armed_next false (next ∷ more) start dst left lt absent = rw absent.0 tt

-- The timer after the node of an address was taken out.
armed_without :
    (timed : Bool) (list : List DeltaNode) (dst : IpAddr) (left : ℕ) (timer : TimerValue)
    → IsRead timed left
    → IsQueue list
    → IsArmedFor timed (timetable 0 list) timer
    → IsArmedFor timed (without dst (timetable 0 list)) (timer_after_remove timer list dst left)
unfolding timetable without timer_after_remove
armed_without timed [] dst left timer lt queue armed = armed
armed_without timed (node ∷ rest) dst left timer lt queue armed =
    elim (Bool-cases (ip_addr_equals node.ip_addr dst)) [
      | inr differ ↦ rw differ (kept timed armed)
      | inl same ↦ rw same (
          armed_next timed rest (0 + node.msec) dst left lt (
            subst (λ ip. Absent ip (timetable (0 + node.msec) rest))
              (ip_addr_equals→≡ node.ip_addr dst same) queue.1))
    ]
  where
    kept :
        (timed : Bool)
        → IsArmedFor timed (timetable 0 (node ∷ rest)) timer
        → IsArmedFor timed
            ((node.ip_addr, 0 + node.msec) ∷ without dst (timetable (0 + node.msec) rest))
            timer
    kept true armed = armed
    kept false armed = tt

module _ (timed : Bool) (interfaces : List InterfaceConfig) (wan : Wan) where
  abbrev Sound : Router → Type 0
  Sound r = IsSound timed interfaces wan r

  add-IsSound :
      (r : Router) (pkt : Packet) (int_id : ℕ) (dst : IpAddr)
      → Sound r
      → Sound (timer_add_packet r pkt int_id dst)
  add-IsSound r pkt int_id dst sound = record {
    interfaces_same = kept.0 ∙ sound.interfaces_same;
    wan_same = kept.1 ∙ sound.wan_same;
    devices = subst IsValid (sym kept.2) sound.devices;
    queue = add.queue;
    armed = elim add.plan [
      | inl (plan, sent, timer) ↦ rw (plan, timer) sound.armed
      | inr (absent, plan, sent, timer) ↦
          rw (plan, timer) (armed_append timed r.delta_list (dst, 1000) r.timer sound.armed)
    ];
  }
    where
      kept : Keeps r (timer_add_packet r pkt int_id dst)
      kept = timer_add_packet-Keeps r pkt int_id dst

      add : IsAdded r pkt int_id dst (timer_add_packet r pkt int_id dst)
      add = timer_add_packet-IsAdded r pkt int_id dst sound.queue

  transmit-IsSound :
      (r : Router) (pkt : Packet) (int_id : ℕ) (hop : IpAddr)
      → Sound r
      → Sound (transmit r pkt int_id hop)
  unfolding transmit emit
  transmit-IsSound r pkt int_id hop sound = elim (Bool-cases (has_mac_for_ip r.devices hop)) [
    | inr unknown ↦
        rw unknown (add-IsSound r (read_bytes pkt 0 (total_length pkt)) int_id hop sound)
    | inl has ↦
        rw has (elim (Bool-cases (interface_get_type r.interfaces int_id == int_type_ether)) [
          | inr other ↦ rw other sound
          | inl ether ↦ rw ether (record {
            interfaces_same = sound.interfaces_same;
            wan_same = sound.wan_same;
            devices = sound.devices;
            queue = sound.queue;
            armed = sound.armed;
          })
        ])
  ]

  pub send_ipv4-IsSound :
      (r : Router) (pkt : Packet)
      → Sound r
      → OnSuccess (λ (sent : Router × Packet). Sound sent.0) (send_ipv4 r pkt)
  unfolding send_ipv4
  send_ipv4-IsSound r pkt sound =
      any-OnSuccess _ (get_interface_for_ip r.interfaces (ip_dst pkt)) _ (λ int_id.
        any-OnSuccess _ (local_dst_ip r int_id (ip_dst pkt)) _
          (λ hop. transmit-IsSound r (fill_checksums pkt) int_id hop sound))

  send_all-IsSound : (pkts : List Packet) (r : Router) → Sound r → OnSuccess Sound (send_all pkts r)
  unfolding send_all
  send_all-IsSound [] r sound = sound
  send_all-IsSound (pkt ∷ pkts) r sound =
      bind-OnSuccess _ Sound (send_ipv4 r pkt) _ (send_ipv4-IsSound r pkt sound)
        (λ sent kept. send_all-IsSound pkts sent.0 kept)

  release-IsSound :
      (r : Router) (dst : IpAddr) (left : ℕ) (o : Option (DeltaNode × List DeltaNode))
      → IsRead timed left
      → Sound r
      → Removed 0 r.delta_list dst o
      → OnSuccess Sound (release r dst left o)
  unfolding release
  release-IsSound r dst left none lt sound absent = sound
  release-IsSound r dst left (some (node, rest)) lt sound removed =
      send_all-IsSound node.pkt_list _ (record {
        interfaces_same = sound.interfaces_same;
        wan_same = sound.wan_same;
        devices = sound.devices;
        queue =
            subst IsTimetable (sym removed.2)
              (without-IsTimetable dst (timetable 0 r.delta_list) sound.queue);
        armed =
            subst (λ due. IsArmedFor timed due (timer_after_remove r.timer r.delta_list dst left))
              (sym removed.2)
              (armed_without timed r.delta_list dst left r.timer lt sound.queue sound.armed);
      })

  pub arp_handle-IsSound :
      (r : Router) (pkt : ArpHdr) (left : ℕ)
      → IsRead timed left
      → Sound r
      → OnSuccess Sound (arp_handle r pkt left)
  unfolding arp_handle timer_update_packets
  arp_handle-IsSound r pkt left lt sound = elim (Bool-cases (htons pkt.protocol_type == 0x0800)) [
    | inr other ↦ rw other sound
    | inl ipv4 ↦ rw ipv4 (elim (Bool-cases (htons pkt.hardware_type == 0x0001)) [
      | inr other ↦ rw other sound
      | inl ethernet ↦ rw ethernet (elim (Bool-cases (ip_addr_equals pkt.sender_ip zero_ip)) [
        | inl blank ↦ rw blank sound
        | inr sender ↦ rw sender (
            release-IsSound (learn r pair) pkt.sender_ip left
              (remove_node (learn r pair).delta_list pkt.sender_ip) lt taught
              (remove_node-Removed 0 (learn r pair).delta_list pkt.sender_ip taught.queue))
      ])
    ])
  ]
    where
      pair : IpMacPair
      pair = record { ip_addr = pkt.sender_ip; mac_addr = pkt.sender_mac }

      taught : Sound (learn r pair)
      taught = learn-IsSound timed interfaces wan r sound pair
