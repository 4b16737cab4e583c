-- ===== src/Napt/Held.antt =====
-- A router that translates a flow of the laptop already, and an answer to it.
use cs489_router.Prelude.{refl, get_u16, htons}
use cs489_router.Hashmap.{Hashmap, unlocked}
use cs489_router.State.{Router}
use cs489_router.Sample.{idle, udp_packet, answer_packet}
use cs489_router.Outgoing.{read_ip, header_len, protocol, ip_src, ip_dst}
use cs489_router.Napt.{to_port, port_src, port_dst}
use cs489_router.Napt.Entries.{AreStored, to_extern, to_intern, flow_entry, store_entry-AreStored}
use cs489_router.Napt.Incoming.{IsFree}
use cs489_router.Napt.Leaving.{held_unlocked}
use cs489_router.Napt.Answer.{IsAnswer}
use cs489_router.Napt.Idle.{
  udp_packet-AllSmall, public-IsIp, idle_tables, no_extern, no_intern, idle_light,
}

-- Tables that hold the flow of `udp_packet`, with free mutexes.
pub flow_tables :
    (extern' intern' : Hashmap) × AreStored idle.napt_extern idle.napt_intern extern' intern'
      (to_extern udp_packet 1024)
      (to_intern udp_packet)
      (flow_entry idle udp_packet 1024)
flow_tables =
    let (extern', intern', run, held) =
      store_entry-AreStored idle udp_packet 1024 idle.napt_extern idle.napt_intern
        udp_packet-AllSmall public-IsIp idle_tables idle_light.0 idle_light.1
        (no_extern udp_packet 1024) (no_intern udp_packet) in
    (extern', intern', held)

abbrev pub translating : Router
translating = record idle {
  napt_extern = record flow_tables.0 { lock = unlocked };
  napt_intern = record flow_tables.1 { lock = unlocked };
}

pub flow_held :
    AreStored idle.napt_extern idle.napt_intern translating.napt_extern translating.napt_intern
      (to_extern udp_packet 1024)
      (to_intern udp_packet)
      (flow_entry idle udp_packet 1024)
flow_held =
    held_unlocked idle.napt_extern idle.napt_intern flow_tables.0 flow_tables.1 unlocked unlocked
      flow_tables.2

pub translating-IsFree : IsFree translating.napt_extern 9
translating-IsFree = record {
  table = flow_held.valid.extern_table;
  keys = flow_held.valid.extern_key_length;
  free = refl;
}

pub answers : IsAnswer udp_packet 1024 answer_packet
unfolding ip_src ip_dst read_ip port_src port_dst to_port htons header_len get_u16 protocol
answers = record { from = refl; from_port = refl; to_port = refl; same_protocol = refl }
