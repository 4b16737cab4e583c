-- ===== src/Run/Handling.antt =====
-- `ipv4_handle` and `ethernet_handle` keep the router sound.
use cs489_router.Prelude.{
  take, Bool, ℕ, inl, inr, Option, none, some, List, drop, get_u16, htons, ◌==◌, Bool-cases,
}
use cs489_router.Address.{ip_addr_equals}
use cs489_router.Interfaces.{
  InterfaceConfig, Wan, int_side_lan, int_side_wan, get_interface_for_ip, interface_get_side,
  interface_get_ip,
}
use cs489_router.Devices.{IpMacPair}
use cs489_router.Hashmap.{Hashmap, hashmap_lock, hashmap_unlock, hashmap_get, value_at}
use cs489_router.State.{Packet, Router, OnSuccess, bind-OnSuccess, any-OnSuccess}
use cs489_router.Outgoing.{protocol, ip_src, ip_dst}
use cs489_router.Resolve.{learn}
use cs489_router.Napt.{
  Tables, has_ports, extern_key, intern_key, port_src, port_dst, restore_lan, inc_found,
  napt_inc_handle, max_attempts, try_ports, forward, after_attempts, out_found, napt_out_handle,
  is_local_broadcast, route_from_lan, ipv4_handle,
}
use cs489_router.Ethernet.{
  ethertype_ipv4, ethertype_arp, header_size, read_mac, read_arp, ethernet_handle,
}
use cs489_router.Run.{IsRead}
use cs489_router.Run.Sound.{IsSound, tables-IsSound, learn-IsSound}
use cs489_router.Run.Sending.{send_ipv4-IsSound, arp_handle-IsSound}

module _ (timed : Bool) (interfaces : List InterfaceConfig) (wan : Wan) where
  abbrev Sound : Router → Type 0
  Sound r = IsSound timed interfaces wan r

  abbrev SoundAfter : Option (Router × Packet) → Type 0
  SoundAfter o = OnSuccess (λ (handled : Router × Packet). Sound handled.0) o

  inc_found-IsSound :
      (r : Router) (pkt : Packet) (o : Option ℕ) (table : Hashmap)
      → Sound r
      → SoundAfter (inc_found r pkt o table)
  unfolding inc_found
  inc_found-IsSound r pkt none table sound =
      tables-IsSound timed interfaces wan r sound (hashmap_unlock table) r.napt_intern
  inc_found-IsSound r pkt (some entry) table sound =
      send_ipv4-IsSound timed interfaces wan _ (restore_lan pkt (value_at table entry))
        (tables-IsSound timed interfaces wan r sound (hashmap_unlock table) r.napt_intern)

  napt_inc_handle-IsSound :
      (r : Router) (pkt : Packet) → Sound r → SoundAfter (napt_inc_handle r pkt)
  unfolding napt_inc_handle
  napt_inc_handle-IsSound r pkt sound = elim (Bool-cases (has_ports (protocol pkt))) [
    | inr other ↦ rw other sound
    | inl ports ↦ rw ports (
        any-OnSuccess _ (hashmap_lock r.napt_extern) _ (λ table.
          any-OnSuccess _
            (hashmap_get table
              (extern_key (ip_src pkt) (port_dst pkt) (port_src pkt) (protocol pkt)))
            _ (λ found. inc_found-IsSound r pkt found.0 found.1 sound)))
  ]

  after_attempts-IsSound :
      (r : Router) (pkt : Packet) (result : Option ℕ × Tables)
      → Sound r
      → SoundAfter (after_attempts r pkt result)
  unfolding after_attempts forward
  after_attempts-IsSound r pkt (none, (extern, intern)) sound =
      tables-IsSound timed interfaces wan r sound (hashmap_unlock extern) intern
  after_attempts-IsSound r pkt (some port, (extern, intern)) sound =
      send_ipv4-IsSound timed interfaces wan _ _ (
        tables-IsSound timed interfaces wan r sound (hashmap_unlock extern) (hashmap_unlock intern))

  out_found-IsSound :
      (rands : List ℕ) (r : Router) (pkt : Packet) (o : Option ℕ) (intern : Hashmap)
      → Sound r
      → SoundAfter (out_found rands r pkt o intern)
  unfolding out_found forward
  out_found-IsSound rands r pkt (some entry) intern sound =
      send_ipv4-IsSound timed interfaces wan _ _
        (tables-IsSound timed interfaces wan r sound r.napt_extern (hashmap_unlock intern))
  out_found-IsSound rands r pkt none intern sound =
      any-OnSuccess _ (hashmap_lock r.napt_extern) _ (λ extern.
        any-OnSuccess _ (try_ports (take max_attempts rands) r pkt (extern, intern)) _
          (λ result. after_attempts-IsSound r pkt result sound))

  napt_out_handle-IsSound :
      (rands : List ℕ) (r : Router) (pkt : Packet)
      → Sound r
      → SoundAfter (napt_out_handle rands r pkt)
  unfolding napt_out_handle
  napt_out_handle-IsSound rands r pkt sound = elim (Bool-cases (has_ports (protocol pkt))) [
    | inr other ↦ rw other sound
    | inl ports ↦ rw ports (
        any-OnSuccess _ (hashmap_lock r.napt_intern) _ (λ table.
          any-OnSuccess _
            (hashmap_get table (intern_key (ip_src pkt) (port_src pkt) (protocol pkt))) _
            (λ found. out_found-IsSound rands r pkt found.0 found.1 sound)))
  ]

  route_from_lan-IsSound :
      (rands : List ℕ) (r : Router) (pkt : Packet) (int_id out_int_id : ℕ)
      → Sound r
      → SoundAfter (route_from_lan rands r pkt int_id out_int_id)
  unfolding route_from_lan
  route_from_lan-IsSound rands r pkt int_id out_int_id sound =
      elim (Bool-cases (out_int_id == int_id)) [
        | inl same ↦ rw same sound
        | inr differ ↦
            rw differ
              (elim (Bool-cases (interface_get_side r.interfaces out_int_id == int_side_lan)) [
                | inl lan ↦ rw lan (send_ipv4-IsSound timed interfaces wan r pkt sound)
                | inr outside ↦ rw outside (napt_out_handle-IsSound rands r pkt sound)
              ])
      ]

  pub ipv4_handle-IsSound :
      (rands : List ℕ) (r : Router) (pkt : Packet) (int_id : ℕ)
      → Sound r
      → SoundAfter (ipv4_handle rands r pkt int_id)
  unfolding ipv4_handle
  ipv4_handle-IsSound rands r pkt int_id sound = elim (Bool-cases (is_local_broadcast pkt)) [
    | inl all ↦ rw all sound
    | inr one ↦ rw one (elim (Bool-cases (interface_get_side r.interfaces int_id == int_side_wan)) [
      | inr lan ↦ rw lan (
          any-OnSuccess _ (get_interface_for_ip r.interfaces (ip_dst pkt)) _
            (λ out_int_id. route_from_lan-IsSound rands r pkt int_id out_int_id sound))
      | inl outside ↦
          rw outside
            (elim (Bool-cases
              (ip_addr_equals (ip_dst pkt) (interface_get_ip r.interfaces int_id))) [
                | inr foreign ↦ rw foreign sound
                | inl own ↦ rw own (napt_inc_handle-IsSound r pkt sound)
              ])
    ])
  ]

  pub ethernet_handle-IsSound :
      (rands : List ℕ) (left : ℕ) (r : Router) (frame : List ℕ) (int_id : ℕ)
      → IsRead timed left
      → Sound r
      → OnSuccess Sound (ethernet_handle rands left r frame int_id)
  unfolding ethernet_handle
  ethernet_handle-IsSound rands left r frame int_id lt sound =
      elim (Bool-cases (htons (get_u16 frame 12) == ethertype_ipv4)) [
        | inl ipv4 ↦ rw ipv4 (
            bind-OnSuccess _ Sound (ipv4_handle rands (learn r pair) payload int_id) _
              (ipv4_handle-IsSound rands (learn r pair) payload int_id
                (learn-IsSound timed interfaces wan r sound pair))
              (λ handled kept. kept))
        | inr other ↦ rw other (elim (Bool-cases (htons (get_u16 frame 12) == ethertype_arp)) [
          | inl arp ↦
              rw arp (arp_handle-IsSound timed interfaces wan r (read_arp payload) left lt sound)
          | inr unknown ↦ rw unknown sound
        ])
      ]
    where
      payload : List ℕ
      payload = drop header_size frame

      pair : IpMacPair
      pair = record { ip_addr = ip_src payload; mac_addr = read_mac frame 6 }
