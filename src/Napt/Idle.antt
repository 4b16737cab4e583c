-- ===== src/Napt/Idle.antt =====
-- The idle router and the packets of the tests meet what the theorems ask for.
use cs489_router.Prelude.{
  ℕ, ◌/◌, ◌<◌, ◌≡◌, refl, arith, true, false, some, none, AllSmall, AreBytes-AllSmall,
}
use cs489_router.Address.Laws.{IsIp}
use cs489_router.Interfaces.{interface_get_ip, interface_get_wan_id}
use cs489_router.Hashmap.{hashmap_init}
use cs489_router.Hashmap.Table.{stored}
use cs489_router.Hashmap.Empty.{hashmap_init_lem}
use cs489_router.State.{Packet}
use cs489_router.Sample.{idle, udp_packet, answer_packet}
use cs489_router.Outgoing.{header_len, protocol}
use cs489_router.Napt.{
  napt_extern_key_hash, napt_intern_key_hash, extern_key, intern_key, has_ports,
}
use cs489_router.Napt.Rewrite.{IsWhole}
use cs489_router.Napt.Entries.{AreTables, to_extern, to_intern}

pub udp_packet-IsWhole : IsWhole udp_packet
unfolding header_len
udp_packet-IsWhole = record { header = omega arith; ports = omega arith }

pub answer_packet-IsWhole : IsWhole answer_packet
unfolding header_len
answer_packet-IsWhole = record { header = omega arith; ports = omega arith }

pub udp_packet-AllSmall : AllSmall udp_packet
udp_packet-AllSmall = AreBytes-AllSmall udp_packet (omega arith)

pub public-IsIp : IsIp (interface_get_ip idle.interfaces interface_get_wan_id)
unfolding interface_get_ip interface_get_wan_id
public-IsIp = omega arith

pub idle_tables : AreTables idle.napt_extern idle.napt_intern
unfolding hashmap_init
idle_tables = record {
  extern_table = (hashmap_init_lem napt_extern_key_hash 9 24).0;
  intern_table = (hashmap_init_lem napt_intern_key_hash 7 24).0;
  extern_key_length = refl;
  intern_key_length = refl;
  extern_value_length = refl;
  intern_value_length = refl;
}

pub no_extern : (pkt : Packet) (port : ℕ) → stored idle.napt_extern (to_extern pkt port) ≡ some none
unfolding extern_key
no_extern pkt port = (hashmap_init_lem napt_extern_key_hash 9 24).2 (to_extern pkt port) refl

pub no_intern : (pkt : Packet) → stored idle.napt_intern (to_intern pkt) ≡ some none
unfolding intern_key
no_intern pkt = (hashmap_init_lem napt_intern_key_hash 7 24).2 (to_intern pkt) refl

pub idle_light :
    (idle.napt_extern.size < idle.napt_extern.size_allocated / 2)
    × (idle.napt_intern.size < idle.napt_intern.size_allocated / 2)
unfolding hashmap_init
idle_light = (omega arith, omega arith)

pub idle_free : (idle.napt_intern.lock.locked ≡ false) × (idle.napt_extern.lock.locked ≡ false)
unfolding hashmap_init
idle_free = (refl, refl)

pub is_udp : has_ports (protocol udp_packet) ≡ true
unfolding has_ports protocol
is_udp = refl
