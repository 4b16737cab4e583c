-- ===== src/Arp.antt =====
-- `arp_hdr_t` of include/arp.h, and `send_arp` of src/outgoing.c.
use cs489_router.Prelude.{ℕ, ◌/◌, ◌%◌, List, [], ◌∷◌, ◌++◌, ◌==◌, if◌then◌else◌, htons}
use cs489_router.Address.{IpAddr, MacAddr, broadcast_mac}
use cs489_router.Interfaces.{
  InterfaceConfig, int_type_ether, interface_get_ip, interface_get_mac_addr, interface_get_type,
}
use cs489_router.State.{Router, emit}

-- The 16-bit fields are kept as the host reads them from memory.
pub record ArpHdr : Type 0 where
  pub hardware_type : ℕ
  pub protocol_type : ℕ
  pub hardware_length : ℕ
  pub protocol_length : ℕ
  pub operation : ℕ
  pub sender_mac : MacAddr
  pub sender_ip : IpAddr
  pub target_mac : MacAddr
  pub target_ip : IpAddr

-- A `uint16_t` in the memory of the little-endian host, and the addresses.
abbrev pub u16_bytes : ℕ → List ℕ
u16_bytes v = v % 256 ∷ v / 256 % 256 ∷ []

abbrev pub ip_bytes : IpAddr → List ℕ
ip_bytes ip = ip.b0 ∷ ip.b1 ∷ ip.b2 ∷ ip.b3 ∷ []

abbrev pub mac_bytes : MacAddr → List ℕ
mac_bytes mac = mac.m0 ∷ mac.m1 ∷ mac.m2 ∷ mac.m3 ∷ mac.m4 ∷ mac.m5 ∷ []

unfoldable pub arp_bytes : ArpHdr → List ℕ
arp_bytes h =
    u16_bytes h.hardware_type
    ++ (u16_bytes h.protocol_type
        ++ (h.hardware_length
            ∷ h.protocol_length
            ∷ (u16_bytes h.operation
                ++ (mac_bytes h.sender_mac
                    ++ (ip_bytes h.sender_ip
                        ++ (mac_bytes h.target_mac ++ ip_bytes h.target_ip))))))

-- The frame of `ethernet_hdr_t`, with the payload behind it.
unfoldable pub ethernet_frame : MacAddr → MacAddr → ℕ → List ℕ → List ℕ
ethernet_frame mac_dst mac_src ethertype payload =
    mac_bytes mac_dst ++ (mac_bytes mac_src ++ (u16_bytes ethertype ++ payload))

unfoldable pub send_arp : Router → ArpHdr → ℕ → Router
unfolding arp_bytes ethernet_frame
send_arp r pkt int_id =
    if interface_get_type r.interfaces int_id == int_type_ether
    then emit r int_id (ethernet_frame broadcast_mac pkt.sender_mac (htons 0x0806) (arp_bytes pkt))
    else r

-- The request that `timer_add_packet` and `timer_handler` build for an address.
unfoldable pub arp_request : List InterfaceConfig → ℕ → IpAddr → ArpHdr
arp_request interfaces int_id dst = record {
  hardware_type = htons 0x0001;
  protocol_type = htons 0x0800;
  hardware_length = 6;
  protocol_length = 4;
  operation = htons 0x01;
  sender_mac = interface_get_mac_addr interfaces int_id;
  sender_ip = interface_get_ip interfaces int_id;
  target_mac = broadcast_mac;
  target_ip = dst;
}
