-- ===== src/Ethernet/Tests.antt =====
-- The first datagram of the laptop, which waits for the hardware address of the gateway, and an
-- answer to it.
use cs489_router.Address.{ip_addr_equals}
use cs489_router.Prelude.{◌≡◌, refl, arith, some, [], ◌∷◌, read_bytes}
use cs489_router.Interfaces.{wan_initial, interface_get_side, interface_get_ip}
use cs489_router.Devices.Table.{known}
use cs489_router.Hashmap.{Hashmap, hashmap_init}
use cs489_router.Hashmap.Empty.{hashmap_init_lem}
use cs489_router.Outgoing.Untouched.{IsChecked}
use cs489_router.Resolve.{learn}
use cs489_router.Napt.Incoming.{from_extern}
use cs489_router.Ethernet.Firewall.{IsUnwanted, unknown, ethernet_handle-drops}
use cs489_router.State.{Packet, Router}
use cs489_router.Sample.{idle, udp_packet, answer_packet}
use cs489_router.Outgoing.{read_ip, protocol, ip_src, ip_dst, total_length, fill_checksums}
use cs489_router.Outgoing.Send.{IsSent}
use cs489_router.Napt.{
  extern_key, napt_extern_key_hash, has_ports, is_local_broadcast, port_src, random_port,
}
use cs489_router.Napt.Entries.{AreStored, to_extern, to_intern, flow_entry}
use cs489_router.Napt.Leaving.{IsForwarded}
use cs489_router.Ethernet.{read_mac, ethernet_handle}
use cs489_router.Ethernet.Outbound.{sender_of, noted, IsLeft, ethernet_handle-translates}
use cs489_router.Ethernet.Conversation.{ComesBack, ethernet_handle-conversation}
use cs489_router.Ethernet.Inbound.{IsOnLan, answered, ethernet_handle-answers}
use cs489_router.Napt.Rewrite.{IsReturned}
use cs489_router.Timer.Keep.{Keeps}
use cs489_router.Napt.Idle.{idle_tables, idle_free, answer_packet-IsWhole}
use cs489_router.Napt.Held.{translating, flow_held, translating-IsFree, answers}
use cs489_router.Ethernet.First.{
  udp_frame, udp_frame_type, udp_packet-IsFirst, udp_packet-LeavesLan, idle-IsConfig, to_gateway,
  idle-IsQueue, answer_frame, answer_frame_type, answer_packet-ArrivesOnWan, laptop-IsOnLan,
}

ethernet_handle-translates_example :
    (r' : Router) × (extern intern : Hashmap) × (pkt' : Packet) × (ethernet_handle
        (0 ∷ [])
        1
        idle
        udp_frame
        0
      ≡ some r')
    × IsForwarded idle udp_packet (random_port 0) pkt'
    × IsChecked pkt' (fill_checksums pkt')
    × AreStored idle.napt_extern idle.napt_intern extern intern
        (to_extern udp_packet (random_port 0))
        (to_intern udp_packet)
        (flow_entry idle udp_packet (random_port 0))
    × IsSent
        (noted idle (sender_of udp_frame) extern intern)
        1
        wan_initial.gateway_ip
        (read_bytes (fill_checksums pkt') 0 (total_length (fill_checksums pkt')))
        (known (noted idle (sender_of udp_frame) extern intern).devices wan_initial.gateway_ip)
        r'
    × IsLeft (noted idle (sender_of udp_frame) extern intern) r'
ethernet_handle-translates_example =
    ethernet_handle-translates 0 [] 1 idle udp_frame 0 1 wan_initial.gateway_ip udp_frame_type
      udp_packet-LeavesLan udp_packet-IsFirst idle-IsConfig to_gateway idle-IsQueue

ethernet_handle-answers_example :
    (r' : Router) × (pkt' : Packet) × (ethernet_handle [] 1 translating answer_frame 1 ≡ some r')
    × IsReturned answer_packet (ip_src udp_packet) (port_src udp_packet) pkt'
    × IsChecked pkt' (fill_checksums pkt')
    × IsSent
        (answered translating (sender_of answer_frame))
        0
        (ip_src udp_packet)
        (read_bytes (fill_checksums pkt') 0 (total_length (fill_checksums pkt')))
        (known (answered translating (sender_of answer_frame)).devices (ip_src udp_packet))
        r'
    × Keeps (answered translating (sender_of answer_frame)) r'
unfolding has_ports protocol
ethernet_handle-answers_example =
    ethernet_handle-answers [] 1 idle translating udp_packet 1024 answer_frame 1 0 answer_frame_type
      answer_packet-ArrivesOnWan idle_tables.extern_key_length flow_held translating-IsFree answers
      answer_packet-IsWhole refl laptop-IsOnLan idle-IsConfig idle-IsQueue

answer_frame-ComesBack : ComesBack idle udp_packet (random_port 0) 1 answer_frame
unfolding has_ports protocol is_local_broadcast ip_addr_equals ip_dst read_ip interface_get_side
    interface_get_ip
answer_frame-ComesBack = record {
  ipv4 = answer_frame_type;
  arrives = record { unicast = refl; side = refl; own = refl };
  answers = answers;
  whole = answer_packet-IsWhole;
  ports = refl;
}

laptop_at_home : IsOnLan idle (ip_src udp_packet) 0
laptop_at_home = record {
  is_ip = laptop-IsOnLan.is_ip;
  route = laptop-IsOnLan.route;
  ether = laptop-IsOnLan.ether;
  side = laptop-IsOnLan.side;
}

ethernet_handle-conversation_example :
    (r' r'' : Router) × (pkt' : Packet) × (ethernet_handle (0 ∷ []) 1 idle udp_frame 0 ≡ some r')
    × (ethernet_handle [] 1 r' answer_frame 1 ≡ some r'')
    × IsReturned answer_packet (ip_src udp_packet) (port_src udp_packet) pkt'
    × IsChecked pkt' (fill_checksums pkt')
    × IsSent
        (answered r' (sender_of answer_frame))
        0
        (ip_src udp_packet)
        (read_bytes (fill_checksums pkt') 0 (total_length (fill_checksums pkt')))
        (some (read_mac udp_frame 6))
        r''
ethernet_handle-conversation_example =
    ethernet_handle-conversation 0 [] [] 1 1 idle udp_frame answer_frame 0 1 wan_initial.gateway_ip
      udp_frame_type udp_packet-LeavesLan udp_packet-IsFirst idle-IsConfig to_gateway idle-IsQueue
      (record { allocated = refl; within = omega arith }) laptop_at_home answer_frame-ComesBack

-- Without the datagram before it, the answer is dropped.
answer_packet-IsUnwanted : IsUnwanted idle answer_packet 1
unfolding interface_get_side
answer_packet-IsUnwanted =
    unknown refl
      (record {
        table = idle_tables.extern_table;
        keys = idle_tables.extern_key_length;
        free = idle_free.1;
      })
      ((hashmap_init_lem napt_extern_key_hash 9 24).2 (from_extern answer_packet)
        (unfold hashmap_init extern_key in refl))

ethernet_handle-drops_example :
    ethernet_handle [] 1 idle answer_frame 1 ≡ some (learn idle (sender_of answer_frame))
ethernet_handle-drops_example =
    ethernet_handle-drops [] 1 idle answer_frame 1 answer_frame_type answer_packet-IsUnwanted
