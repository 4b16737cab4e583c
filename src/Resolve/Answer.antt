-- ===== src/Resolve/Answer.antt =====
-- An ARP answer: what it teaches, and which packets it sets free.
use mathlib.Core.Path.{subst}
use cs489_router.Prelude.{
  ℕ, ◌≡◌, ◌∙◌, refl, sym, ap, inl, inr, false, Option, none, some, List, htons, if◌then◌else◌,
  Bool-cases,
}
use cs489_router.Address.{IpAddr, zero_ip, ip_addr_equals}
use cs489_router.Address.Laws.{ip_addr_equals→≡}
use cs489_router.Devices.{IpMacPair}
use cs489_router.Devices.Table.{IsValid, known, known-update_ip_mac_pair}
use cs489_router.State.{DeltaNode, Router}
use cs489_router.Arp.{ArpHdr}
use cs489_router.Timer.{remove_node, timer_after_remove}
use cs489_router.Timer.Queue.{
  waiting, timetable, IsTimetable, IsQueue, waiting-Absent, without-IsTimetable,
}
use cs489_router.Timer.Remove.{taken, Removed, remove_node-Removed}
use cs489_router.Resolve.{send_all, release, timer_update_packets, learn, arp_handle}

-- The delta list without the packets for an address; nothing was sent yet.
pub record IsReleased (r : Router) (dst : IpAddr) (r' : Router) : Type 0 where
  pub packets : (ip : IpAddr) → waiting r'.delta_list ip ≡ taken (waiting r.delta_list ip) dst ip
  pub queue : IsQueue r'.delta_list
  pub devices_same : r'.devices ≡ r.devices
  pub sent_same : r'.sent ≡ r.sent
  pub interfaces_same : r'.interfaces ≡ r.interfaces
  pub wan_same : r'.wan ≡ r.wan

release-IsReleased :
    (r : Router) (dst : IpAddr) (left : ℕ) (o : Option (DeltaNode × List DeltaNode))
    → IsQueue r.delta_list
    → Removed 0 r.delta_list dst o
    → (r' : Router) × (release r dst left o ≡ send_all (waiting r.delta_list dst) r')
      × IsReleased r dst r'
unfolding release send_all
release-IsReleased r dst left none queue absent = (
  r,
  rw (waiting-Absent 0 r.delta_list dst absent),
  record {
    packets = λ ip. elim (Bool-cases (ip_addr_equals dst ip)) [
      | inl same ↦
          rw (same, ← ip_addr_equals→≡ dst ip same) (waiting-Absent 0 r.delta_list dst absent)
      | inr other ↦ rw other
    ];
    queue = queue;
    devices_same = refl;
    sent_same = refl;
    interfaces_same = refl;
    wan_same = refl;
  },
)
release-IsReleased r dst left (some (node, rest)) queue removed = (
  record r { delta_list = rest; timer = timer_after_remove r.timer r.delta_list dst left },
  ap
      (λ pkts.
        send_all pkts (record r {
          delta_list = rest;
          timer = timer_after_remove r.timer r.delta_list dst left;
        }))
      removed.1,
  record {
    packets = removed.3;
    queue =
        subst IsTimetable (sym removed.2)
          (without-IsTimetable dst (timetable 0 r.delta_list) queue);
    devices_same = refl;
    sent_same = refl;
    interfaces_same = refl;
    wan_same = refl;
  },
)

-- If an ARP packet for Ethernet and IPv4 has a sender address that is not zero, the table of
-- hardware addresses and the delta list keep their invariants, then `arp_handle` does what the loop
-- over all the packets that wait for the sender does, the oldest first, in a state in which the
-- sender's hardware address is known and the others are as before, and in which just these packets
-- wait no longer, nothing was sent yet, and the interfaces and the WAN are as before.
pub arp_handle-IsReleased :
    (r : Router) (pkt : ArpHdr) (left : ℕ)
    → htons pkt.protocol_type ≡ 0x0800
    → htons pkt.hardware_type ≡ 0x0001
    → ip_addr_equals pkt.sender_ip zero_ip ≡ false
    → IsValid r.devices
    → IsQueue r.delta_list
    → (r' : Router) × (arp_handle r pkt left ≡ send_all (waiting r.delta_list pkt.sender_ip) r')
      × ((ip : IpAddr)
          → known r'.devices ip
            ≡ (if ip_addr_equals pkt.sender_ip ip then some pkt.sender_mac else known r.devices ip))
      × ((ip : IpAddr)
          → waiting r'.delta_list ip ≡ taken (waiting r.delta_list ip) pkt.sender_ip ip)
      × IsQueue r'.delta_list
      × (r'.sent ≡ r.sent)
      × (r'.interfaces ≡ r.interfaces)
      × (r'.wan ≡ r.wan)
unfolding arp_handle timer_update_packets learn
arp_handle-IsReleased r pkt left ipv4 ethernet sender valid queue =
    let (r', run, released) =
      release-IsReleased (learn r pair) pkt.sender_ip left (remove_node r.delta_list pkt.sender_ip)
        queue (remove_node-Removed 0 r.delta_list pkt.sender_ip queue) in
    (
      r',
      rw (ipv4, ethernet, sender) run,
      λ ip.
          ap (λ m. known m ip) released.devices_same
          ∙ (known-update_ip_mac_pair r.fresh_pair r.devices valid pair ip).0,
      released.packets,
      released.queue,
      released.sent_same,
      released.interfaces_same,
      released.wan_same,
    )
  where
    pair : IpMacPair
    pair = record { ip_addr = pkt.sender_ip; mac_addr = pkt.sender_mac }
