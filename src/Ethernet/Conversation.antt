-- ===== src/Ethernet/Conversation.antt =====
-- A packet from the LAN to the Internet, and the answer to it.
use mathlib.Core.Path.{subst}
use cs489_router.Prelude.{
  ℕ, ◌≡◌, ◌∙◌, sym, ap, inl, inr, true, false, some, List, ◌∷◌, drop, get_u16, htons, read_bytes,
  Bool-cases,
}
use cs489_router.Address.{IpAddr, ip_addr_equals}
use cs489_router.Address.Laws.{ip_addr_equals_refl, ip_addr_equals→≡}
use cs489_router.Interfaces.{get_interface_for_ip}
use cs489_router.Interfaces.Route.{IsConfig}
use cs489_router.Devices.{IpMacPair}
use cs489_router.Devices.Table.{IsValid, known, known-update_ip_mac_pair}
use cs489_router.Hashmap.{Hashmap}
use cs489_router.State.{Packet, Router}
use cs489_router.Timer.Queue.{IsQueue}
use cs489_router.Timer.Keep.{Keeps}
use cs489_router.Outgoing.{ip_src, ip_dst, protocol, total_length, fill_checksums}
use cs489_router.Outgoing.Send.{wan_network, IsNextHop, IsSent}
use cs489_router.Outgoing.Untouched.{IsChecked}
use cs489_router.Resolve.{learn}
use cs489_router.Napt.{has_ports, port_src, random_port}
use cs489_router.Napt.Rewrite.{IsWhole, IsReturned}
use cs489_router.Napt.Entries.{AreStored, to_extern, to_intern, flow_entry}
use cs489_router.Napt.Incoming.{IsFree}
use cs489_router.Napt.Answer.{IsAnswer}
use cs489_router.Ethernet.{ethertype_ipv4, header_size, read_mac, ethernet_handle}
use cs489_router.Ethernet.Outbound.{
  IsFirst, LeavesLan, sender_of, noted, ethernet_handle-translates,
}
use cs489_router.Ethernet.Inbound.{ArrivesOnWan, IsOnLan, answered, ethernet_handle-answers}

-- A frame from the WAN with a whole answer of TCP or UDP to a packet that left from `port`.
pub record ComesBack (r : Router) (pkt : Packet) (port out : ℕ) (frame : List ℕ) : Type 0 where
  pub ipv4 : htons (get_u16 frame 12) ≡ ethertype_ipv4
  pub arrives : ArrivesOnWan r (drop header_size frame) out
  pub answers : IsAnswer pkt port (drop header_size frame)
  pub whole : IsWhole (drop header_size frame)
  pub ports : has_ports (protocol (drop header_size frame)) ≡ true

ArrivesOnWan-same :
    (r r' : Router) (pkt : Packet) (int_id : ℕ)
    → r'.interfaces ≡ r.interfaces
    → ArrivesOnWan r pkt int_id
    → ArrivesOnWan r' pkt int_id
ArrivesOnWan-same r r' pkt int_id same arrives = record {
  unicast = arrives.unicast;
  side = rw same arrives.side;
  own = rw same arrives.own;
}

IsOnLan-same :
    (r r' : Router) (host : IpAddr) (out : ℕ)
    → r'.interfaces ≡ r.interfaces
    → IsOnLan r host out
    → IsOnLan r' host out
IsOnLan-same r r' host out same lan = record {
  is_ip = lan.is_ip;
  route = rw same lan.route;
  ether = rw same lan.ether;
  side = rw same lan.side;
}

-- The addresses at the two ends are different, since they have different routes.
ends_differ :
    (r : Router) (pkt : Packet) (int_id out : ℕ)
    → LeavesLan r pkt int_id out
    → IsOnLan r (ip_src pkt) int_id
    → ip_addr_equals (ip_dst pkt) (ip_src pkt) ≡ false
ends_differ r pkt int_id out leaves lan =
    elim (Bool-cases (ip_addr_equals (ip_dst pkt) (ip_src pkt))) [
      | inr differ ↦ differ
      | inl same ↦ absurd (
          leaves.another (
            cc (
              sym leaves.route
              ∙ ap (get_interface_for_ip r.interfaces)
                  (ip_addr_equals→≡ (ip_dst pkt) (ip_src pkt) same)
              ∙ lan.route)))
    ]

-- What the router knows of the host after it noted the host, and then somebody else.
known-noted :
    (r r' : Router) (pair other : IpMacPair) (extern intern : Hashmap)
    → IsValid r.devices
    → Keeps (noted r pair extern intern) r'
    → ip_addr_equals other.ip_addr pair.ip_addr ≡ false
    → known (answered r' other).devices pair.ip_addr ≡ some pair.mac_addr
unfolding learn
known-noted r r' pair other extern intern valid keeps differ =
    (known-update_ip_mac_pair r'.fresh_pair r'.devices
      (subst IsValid (sym keeps.2)
        (known-update_ip_mac_pair r.fresh_pair r.devices valid pair pair.ip_addr).1)
      other pair.ip_addr).0
    ∙ rw differ (
        ap (λ m. known m pair.ip_addr) keeps.2
        ∙ (known-update_ip_mac_pair r.fresh_pair r.devices valid pair pair.ip_addr).0
        ∙ rw (ip_addr_equals_refl pair.ip_addr))

-- The state after the first packet is one in which the answer finds its way.
module _ (r r' : Router) (pair : IpMacPair) (extern intern : Hashmap) (pkt : Packet) (port : ℕ)
    (keeps : Keeps (noted r pair extern intern) r')
    (held : AreStored r.napt_extern r.napt_intern extern intern
      (to_extern pkt port)
      (to_intern pkt)
      (flow_entry r pkt port)) where
  still-AreStored :
      AreStored r.napt_extern r.napt_intern r'.napt_extern r'.napt_intern
        (to_extern pkt port)
        (to_intern pkt)
        (flow_entry r pkt port)
  still-AreStored =
      subst
        (λ (e : Hashmap).
          AreStored r.napt_extern r.napt_intern e r'.napt_intern (to_extern pkt port)
            (to_intern pkt) (flow_entry r pkt port))
        (sym keeps.3)
        (subst
          (λ (i : Hashmap).
            AreStored r.napt_extern r.napt_intern extern i (to_extern pkt port) (to_intern pkt)
              (flow_entry r pkt port))
          (sym keeps.4) held)

  still-IsFree : extern.lock.locked ≡ false → IsFree r'.napt_extern 9
  still-IsFree free =
      subst (λ (e : Hashmap). IsFree e 9) (sym keeps.3)
        (record {
          table = held.valid.extern_table;
          keys = held.valid.extern_key_length;
          free = free;
        })

-- A frame from a host of the LAN with the first packet of a flow to the Internet, and then a frame
-- from the WAN with a whole answer to it, to the router's own address: if the first random port is
-- free, the tables have room and their mutexes are free, the delta list and the table of hardware
-- addresses keep their invariants and the WAN network has at most 24 bits, then `ethernet_handle`
-- returns for both, and the answer leaves in a frame to the hardware address that the first frame
-- came from, on the interface that it came in on, with the address and port that the first packet
-- came from as its destination and its other bytes as they were but for the checksums, which are
-- filled in, and a zero behind data of an odd length, cut to its length.
pub ethernet_handle-conversation :
    (rand : ℕ) (rands rands' : List ℕ) (left left' : ℕ) (r : Router) (frame frame' : List ℕ)
    (int_id out : ℕ) (hop : IpAddr)
    → htons (get_u16 frame 12) ≡ ethertype_ipv4
    → LeavesLan r (drop header_size frame) int_id out
    → IsFirst r (drop header_size frame) (random_port rand)
    → IsConfig (wan_network r.wan)
    → IsNextHop r out (ip_dst (drop header_size frame)) hop
    → IsQueue r.delta_list
    → IsValid r.devices
    → IsOnLan r (ip_src (drop header_size frame)) int_id
    → ComesBack r (drop header_size frame) (random_port rand) out frame'
    → let pkt = drop header_size frame in
      let answer = drop header_size frame' in
      (r' r'' : Router) × (pkt' : Packet) × (ethernet_handle (rand ∷ rands) left r frame int_id
        ≡ some r')
      × (ethernet_handle rands' left' r' frame' out ≡ some r'')
      × IsReturned answer (ip_src pkt) (port_src pkt) pkt'
      × IsChecked pkt' (fill_checksums pkt')
      × IsSent
          (answered r' (sender_of frame'))
          int_id
          (ip_src pkt)
          (read_bytes (fill_checksums pkt') 0 (total_length (fill_checksums pkt')))
          (some (read_mac frame 6))
          r''
ethernet_handle-conversation rand rands rands' left left' r frame frame' int_id out hop ipv4 leaves
      first config next queue valid lan back =
    let (r', extern, intern, pkt1, run, forwarded, checked, held, sent, ready) =
      ethernet_handle-translates rand rands left r frame int_id out hop ipv4 leaves first config
        next queue in
    let keeps = ready.0 in
    let ifs_same : r'.interfaces ≡ r.interfaces = unfold learn in keeps.0 in
    let wan_same : r'.wan ≡ r.wan = unfold learn in keeps.1 in
    let (r'', pkt', run', flow, checked', sent', keeps') =
      ethernet_handle-answers rands' left' r r' (drop header_size frame) (random_port rand) frame'
        out int_id back.ipv4 (ArrivesOnWan-same r r' _ out ifs_same back.arrives)
        first.tables.extern_key_length
        (still-AreStored r r' (sender_of frame) extern intern (drop header_size frame)
          (random_port rand) keeps held)
        (still-IsFree r r' (sender_of frame) extern intern (drop header_size frame)
          (random_port rand) keeps held ready.2)
        back.answers back.whole back.ports (IsOnLan-same r r' _ int_id ifs_same lan)
        (subst (λ wan. IsConfig (wan_network wan)) (sym wan_same) config) ready.1 in
    (
      r',
      r'',
      pkt',
      run,
      run',
      flow,
      checked',
      subst
          (λ k.
            IsSent (answered r' (sender_of frame')) int_id (ip_src (drop header_size frame))
              (read_bytes (fill_checksums pkt') 0 (total_length (fill_checksums pkt'))) k r'')
          (known-noted r r' (sender_of frame) (sender_of frame') extern intern valid keeps (
            ap (λ ip. ip_addr_equals ip (ip_src (drop header_size frame))) back.answers.from
            ∙ ends_differ r (drop header_size frame) int_id out leaves lan))
          sent',
    )
