-- ===== src/Napt/Tests.antt =====
-- The translation at concrete packets.
use cs489_router.Prelude.{
  ◌+◌, ◌^◌, ◌<◌, ◌≡◌, ◌∙◌, refl, ap, arith, false, some, none, [], ◌∷◌, replicate, get_u16, htons,
}
use cs489_router.Hashmap.{Hashmap, hashmap_init, bytes_equal}
use cs489_router.Hashmap.Table.{stored}
use cs489_router.Hashmap.Probe.{bytes_equal_refl}
use cs489_router.State.{Packet, Router}
use cs489_router.Sample.{idle, udp_packet, other_packet, answer_packet}
use cs489_router.Outgoing.{read_ip, header_len, protocol, ip_src, ip_dst, send_ipv4}
use cs489_router.Napt.{
  extern_key, intern_key, to_port, new_entry, entry_bytes, NaptEntry, port_src, port_dst, has_ports,
  random_port, napt_inc_handle, napt_out_handle,
}
use cs489_router.Napt.Rewrite.{IsReturned}
use cs489_router.Napt.Entries.{AreStored, to_extern, to_intern, flow_entry}
use cs489_router.Napt.Incoming.{from_extern, twice_unlocked, napt_inc_handle-known}
use cs489_router.Napt.Leaving.{IsForwarded, napt_out_handle-new, napt_out_handle-known}
use cs489_router.Napt.Answer.{napt_inc_handle-answer}
use cs489_router.Napt.Idle.{
  udp_packet-IsWhole, answer_packet-IsWhole, udp_packet-AllSmall, public-IsIp, idle_tables,
  no_extern, no_intern, idle_light, idle_free, is_udp,
}
use cs489_router.Napt.Held.{translating, flow_held, translating-IsFree, answers}
use cs489_router.Napt.Blocked.{IsUsed, napt_out_handle-blocked}

abbrev flow : NaptEntry
flow = new_entry idle udp_packet 1024

flow_ports : (flow.lan_port < 2 ^ 16) × (flow.public_port < 2 ^ 16)
unfolding new_entry port_src to_port htons
flow_ports = (omega arith, omega arith)

napt_out_handle-new_example :
    (extern' intern' : Hashmap) × (pkt' : Packet) × (napt_out_handle (0 ∷ []) idle udp_packet
      ≡ send_ipv4 (record idle { napt_extern = extern'; napt_intern = intern' }) pkt')
    × IsForwarded idle udp_packet (random_port 0) pkt'
    × AreStored idle.napt_extern idle.napt_intern extern' intern'
        (to_extern udp_packet (random_port 0))
        (to_intern udp_packet)
        (flow_entry idle udp_packet (random_port 0))
    × (extern'.lock.locked ≡ false)
    × (intern'.lock.locked ≡ false)
napt_out_handle-new_example =
    napt_out_handle-new 0 [] idle udp_packet is_udp udp_packet-IsWhole udp_packet-AllSmall
      public-IsIp idle_tables idle_free.0 idle_free.1 idle_light.0 idle_light.1
      (no_extern udp_packet 1024) (no_intern udp_packet)

in_extern :
    stored translating.napt_extern (to_extern udp_packet 1024) ≡ some (some (entry_bytes flow))
unfolding hashmap_init extern_key
in_extern =
    flow_held.in_extern (to_extern udp_packet 1024) refl
    ∙ rw (bytes_equal_refl (to_extern udp_packet 1024))

in_intern : stored translating.napt_intern (to_intern udp_packet) ≡ some (some (entry_bytes flow))
unfolding hashmap_init intern_key
in_intern =
    flow_held.in_intern (to_intern udp_packet) refl ∙ rw (bytes_equal_refl (to_intern udp_packet))

answer_key : from_extern answer_packet ≡ to_extern udp_packet 1024
answer_key = rw (answers.from, answers.from_port, answers.to_port, answers.same_protocol)

napt_inc_handle-known_example :
    (pkt' : Packet) × (napt_inc_handle translating answer_packet
      ≡ send_ipv4 (twice_unlocked translating) pkt')
    × IsReturned answer_packet flow.lan_ip flow.lan_port pkt'
unfolding has_ports protocol
napt_inc_handle-known_example =
    napt_inc_handle-known translating answer_packet flow refl answer_packet-IsWhole flow_ports.0
      translating-IsFree (ap (stored translating.napt_extern) answer_key ∙ in_extern)

napt_out_handle-known_example :
    (pkt' : Packet) × (napt_out_handle [] translating udp_packet
      ≡ send_ipv4
          (record translating {
            napt_intern = record translating.napt_intern {
              lock = record { locked = false; stray_unlocks = 0 + 1 };
            };
          })
          pkt')
    × IsForwarded translating udp_packet flow.public_port pkt'
napt_out_handle-known_example =
    napt_out_handle-known [] translating udp_packet flow is_udp udp_packet-IsWhole flow_ports.1 refl
      in_intern

napt_inc_handle-answer_example :
    (pkt' : Packet) × (napt_inc_handle translating answer_packet
      ≡ send_ipv4 (twice_unlocked translating) pkt')
    × IsReturned answer_packet (ip_src udp_packet) (port_src udp_packet) pkt'
unfolding has_ports protocol
napt_inc_handle-answer_example =
    napt_inc_handle-answer idle translating udp_packet answer_packet 1024
      idle_tables.extern_key_length flow_held translating-IsFree answers answer_packet-IsWhole refl

other_key : to_extern other_packet 1024 ≡ to_extern udp_packet 1024
unfolding ip_dst read_ip port_dst to_port htons header_len get_u16 protocol
other_key = refl

other_flow : stored translating.napt_intern (to_intern other_packet) ≡ some none
unfolding hashmap_init intern_key
other_flow = flow_held.in_intern (to_intern other_packet) refl ∙ rw differ (no_intern other_packet)
  where
    differ : bytes_equal (to_intern udp_packet) (to_intern other_packet) ≡ false
    differ =
        unfold bytes_equal ip_src read_ip port_src to_port htons header_len get_u16 protocol in refl

-- Ten times the same value of `rand()`, and the one port that it stands for is in use.
napt_out_handle-blocked_example :
    (r' : Router) × (napt_out_handle (replicate 10 0) translating other_packet
      ≡ some (r', other_packet))
    × (r'.sent ≡ translating.sent)
    × (napt_out_handle (1 ∷ []) r' udp_packet ≡ none)
unfolding has_ports protocol
napt_out_handle-blocked_example =
    napt_out_handle-blocked (replicate 10 0) (1 ∷ []) translating other_packet udp_packet refl refl
      refl refl other_flow
      (used, (used, (used, (used, (used, (used, (used, (used, (used, (used, tt))))))))))
  where
    used : IsUsed translating.napt_extern other_packet 0
    used = (_, ap (stored translating.napt_extern) other_key ∙ in_extern)
