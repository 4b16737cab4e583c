-- ===== src/Outgoing/Keep.antt =====
-- What `send_ipv4` leaves alone.
use mathlib.Core.Path.{subst}
use cs489_router.Prelude.{
  ℕ, refl, inl, inr, ◌==◌, sym, Option, none, List, some, Bool-cases, read_bytes,
}
use cs489_router.Address.{IpAddr, MacAddr}
use cs489_router.Interfaces.{int_type_ether, get_interface_for_ip, interface_get_type}
use cs489_router.Devices.{has_mac_for_ip}
use cs489_router.State.{Packet, Router, emit, OnSuccess, any-OnSuccess}
use cs489_router.Timer.Keep.{Keeps, timer_add_packet-Keeps}
use cs489_router.Timer.Queue.{IsQueue}
use cs489_router.Outgoing.{ip_dst, total_length, fill_checksums, local_dst_ip, transmit, send_ipv4}
use cs489_router.Outgoing.Send.{IsSent}

transmit-Keeps :
    (r : Router) (pkt : Packet) (int_id : ℕ) (hop : IpAddr) → Keeps r (transmit r pkt int_id hop)
unfolding transmit emit
transmit-Keeps r pkt int_id hop = elim (Bool-cases (has_mac_for_ip r.devices hop)) [
  | inr unknown ↦
      rw unknown (timer_add_packet-Keeps r (read_bytes pkt 0 (total_length pkt)) int_id hop)
  | inl has ↦ rw has (elim (Bool-cases (interface_get_type r.interfaces int_id == int_type_ether)) [
    | inr other ↦ rw other (refl, refl, refl, refl, refl)
    | inl ether ↦ rw ether (refl, refl, refl, refl, refl)
  ])
]

pub send_ipv4-Keeps :
    (r : Router) (pkt : Packet)
    → OnSuccess (λ (sent : Router × Packet). Keeps r sent.0) (send_ipv4 r pkt)
unfolding send_ipv4
send_ipv4-Keeps r pkt =
    any-OnSuccess _ (get_interface_for_ip r.interfaces (ip_dst pkt)) _ (λ int_id.
      any-OnSuccess _ (local_dst_ip r int_id (ip_dst pkt)) _
        (λ hop. transmit-Keeps r (fill_checksums pkt) int_id hop))

-- Whether it was sent or waits, the delta list stays as the timer keeps it.
pub IsSent-IsQueue :
    (r : Router) (int_id : ℕ) (hop : IpAddr) (payload : List ℕ) (k : Option MacAddr) (r' : Router)
    → IsQueue r.delta_list
    → IsSent r int_id hop payload k r'
    → IsQueue r'.delta_list
unfolding emit
IsSent-IsQueue r int_id hop payload none r' queue sent = sent.queue
IsSent-IsQueue r int_id hop payload (some mac) r' queue sent =
    subst (λ (r1 : Router). IsQueue r1.delta_list) (sym sent) queue
