-- ===== src/Napt.antt =====
-- src/ipv4.c and include/ipv4.h: forwarding, and the translation of addresses and ports.
pub mod Rewrite
pub mod Entries
pub mod Incoming
pub mod Leaving
pub mod Answer
pub mod Blocked
pub mod Idle
pub mod Held
mod Tests
use cs489_router.Prelude.{
  take, ℕ, zero, suc, ◌+◌, ◌-◌, ◌*◌, ◌/◌, ◌%◌, ◌^◌, Bool, true, false, ◌&&◌, ◌||◌, Option, none,
  some, List, [], ◌∷◌, ◌++◌, not, ltb, ◌==◌, if◌then◌else◌, byte_at, read_bytes, write_bytes,
  get_u16, set_u16, htons,
}
use cs489_router.Address.{IpAddr, ip_addr_equals}
use cs489_router.Interfaces.{
  int_side_lan, int_side_wan, get_interface_for_ip, interface_get_side, interface_get_ip,
  interface_get_wan_id,
}
use cs489_router.Hashmap.{
  Hashmap, hashmap_init, hashmap_cyclic_hash, hashmap_lock, hashmap_unlock, hashmap_get,
  hashmap_contains, hashmap_insert, value_at,
}
use cs489_router.State.{Packet, Router, ◌>>=◌}
use cs489_router.Arp.{ip_bytes, u16_bytes}
use cs489_router.Outgoing.{read_ip, header_len, protocol, ip_src, ip_dst, send_ipv4}

-- `port_t` holds a port in the order of the host.
unfoldable pub to_port : ℕ → ℕ
to_port port = htons port

unfoldable pub from_port : ℕ → ℕ
from_port port = htons port

-- The keys as they lie in memory: both structures are packed.
unfoldable pub extern_key : IpAddr → ℕ → ℕ → ℕ → List ℕ
extern_key ip_dst port_src port_dst protocol =
    ip_bytes ip_dst ++ (u16_bytes port_src ++ (u16_bytes port_dst ++ (protocol ∷ [])))

unfoldable pub intern_key : IpAddr → ℕ → ℕ → List ℕ
intern_key ip_src port_src protocol = ip_bytes ip_src ++ (u16_bytes port_src ++ (protocol ∷ []))

abbrev pub extern_key_size : ℕ
extern_key_size = 9

abbrev pub intern_key_size : ℕ
intern_key_size = 7

-- `napt_entry_t`: 18 bytes, two of padding and the timestamp.
pub record NaptEntry : Type 0 where
  pub lan_ip : IpAddr
  pub lan_port : ℕ
  pub public_ip : IpAddr
  pub public_port : ℕ
  pub dst_ip : IpAddr
  pub dst_port : ℕ
  pub timestamp : ℕ

abbrev pub entry_size : ℕ
entry_size = 24

-- The padding is written as zeros; C leaves it as it finds it, and nothing reads it.
unfoldable pub entry_bytes : NaptEntry → List ℕ
entry_bytes e =
    ip_bytes e.lan_ip
    ++ (u16_bytes e.lan_port
        ++ (ip_bytes e.public_ip
            ++ (u16_bytes e.public_port
                ++ (ip_bytes e.dst_ip
                    ++ (u16_bytes e.dst_port
                        ++ (0
                            ∷ 0
                            ∷ (u16_bytes (e.timestamp % 2 ^ 16)
                                ++ u16_bytes (e.timestamp / 2 ^ 16))))))))

-- The fields that the handlers read through the pointer of `hashmap_get`.
unfoldable pub entry_lan_ip : List ℕ → IpAddr
entry_lan_ip mem = read_ip mem 0

unfoldable pub entry_lan_port : List ℕ → ℕ
entry_lan_port mem = get_u16 mem 4

unfoldable pub entry_public_port : List ℕ → ℕ
entry_public_port mem = get_u16 mem 10

unfoldable pub napt_extern_key_hash : List ℕ → ℕ
napt_extern_key_hash key = hashmap_cyclic_hash key extern_key_size

unfoldable pub napt_intern_key_hash : List ℕ → ℕ
napt_intern_key_hash key = hashmap_cyclic_hash key intern_key_size

-- `mutex_result` is what `pthread_mutex_init` returns.
unfoldable pub napt_init : Router → ℕ → Router
napt_init r mutex_result = record r {
  napt_extern = hashmap_init napt_extern_key_hash extern_key_size entry_size mutex_result;
  napt_intern = hashmap_init napt_intern_key_hash intern_key_size entry_size mutex_result;
}

-- `TCP` and `UDP`, whose headers both begin with the two ports.
unfoldable pub has_ports : ℕ → Bool
has_ports protocol = protocol == 6 || protocol == 17

unfoldable pub port_src : Packet → ℕ
port_src pkt = to_port (get_u16 pkt (header_len pkt))

unfoldable pub port_dst : Packet → ℕ
port_dst pkt = to_port (get_u16 pkt (header_len pkt + 2))

-- How deep `hashmap_insert` and `hashmap_grow` may call one another: an insertion that grows the
-- table makes insertions that do not.
abbrev pub insert_depth : ℕ
insert_depth = 4

-- `pkt->ip_dst`, `pkt->ip_src` and the ports, written in place.
unfoldable pub set_ip : Packet → ℕ → IpAddr → Packet
set_ip pkt off ip = write_bytes pkt off (ip_bytes ip)

-- The packet with its destination replaced; `transport_ptr` was computed from the packet before.
unfoldable pub restore_lan : Packet → List ℕ → Packet
unfolding set_ip
restore_lan pkt entry =
    set_u16 (set_ip pkt 16 (entry_lan_ip entry)) (header_len pkt + 2)
      (from_port (entry_lan_port entry))

unfoldable pub replace_source : Packet → IpAddr → ℕ → Packet
unfolding set_ip
replace_source pkt public_ip new_port_src =
    set_u16 (set_ip pkt 12 public_ip) (header_len pkt) (from_port new_port_src)

-- What follows the lookup of `napt_inc_handle`.
unfoldable pub inc_found : Router → Packet → Option ℕ → Hashmap → Option (Router × Packet)
inc_found r pkt none table = some (record r { napt_extern = hashmap_unlock table }, pkt)
inc_found r pkt (some entry) table =
    send_ipv4 (record r { napt_extern = hashmap_unlock table })
      (restore_lan pkt (value_at table entry))

unfoldable pub napt_inc_handle : Router → Packet → Option (Router × Packet)
napt_inc_handle r pkt =
    let key = extern_key (ip_src pkt) (port_dst pkt) (port_src pkt) (protocol pkt) in
    let look = hashmap_lock r.napt_extern >>= λ table.
    hashmap_get table key >>= λ found. inc_found r pkt found.0 found.1 in
    if has_ports (protocol pkt) then look else some (r, pkt)

-- The entry that a new translation stores in both tables.
unfoldable pub new_entry : Router → Packet → ℕ → NaptEntry
new_entry r pkt new_port_src = record {
  lan_ip = ip_src pkt;
  lan_port = port_src pkt;
  public_ip = interface_get_ip r.interfaces interface_get_wan_id;
  public_port = new_port_src;
  dst_ip = ip_dst pkt;
  dst_port = port_dst pkt;
  timestamp = 0;
}

-- The two tables while a translation is made: the external one and the internal one.
abbrev pub Tables : Type 0
Tables = Hashmap × Hashmap

unfoldable pub store_entry : Router → Packet → ℕ → Tables → Option Tables
store_entry r pkt new_port_src (extern, intern) = do
  let value = entry_bytes (new_entry r pkt new_port_src)
  extern' ←
      hashmap_insert insert_depth extern
        (extern_key (ip_dst pkt) new_port_src (port_dst pkt) (protocol pkt)) value
  intern' ←
      hashmap_insert insert_depth intern (intern_key (ip_src pkt) (port_src pkt) (protocol pkt))
        value
  some (extern', intern')

-- A value of `rand()`, which is not negative, as a port.
abbrev pub random_port : ℕ → ℕ
random_port rand = rand % (60000 - 1024) + 1024

-- How often a port is tried.
abbrev pub max_attempts : ℕ
max_attempts = 10

-- The loop over the attempts, with the values of `rand()` for those that are left. The port, if one was
-- found, and the tables.
unfoldable pub try_ports : List ℕ → Router → Packet → Tables → Option (Option ℕ × Tables)
try_ports [] r pkt tables = some (none, tables)
try_ports (rand ∷ rands) r pkt (extern, intern) =
    hashmap_contains extern
      (extern_key (ip_dst pkt) (random_port rand) (port_dst pkt) (protocol pkt))
    >>= λ looked.
        let again = try_ports rands r pkt (looked.1, intern) in
        let stored = store_entry r pkt (random_port rand) (looked.1, intern) >>= λ tables.
        some (some (random_port rand), tables) in
        if looked.0 then again else stored

-- The end of `napt_out_handle`: the packet leaves with the public address and the new port.
unfoldable pub forward : Router → Packet → ℕ → Option (Router × Packet)
forward r pkt new_port_src =
    send_ipv4 r
      (replace_source pkt (interface_get_ip r.interfaces interface_get_wan_id) new_port_src)

-- After the attempts. If none succeeded, the internal table stays locked.
unfoldable pub after_attempts : Router → Packet → Option ℕ × Tables → Option (Router × Packet)
after_attempts r pkt (none, (extern, intern)) =
    some (record r { napt_extern = hashmap_unlock extern; napt_intern = intern }, pkt)
after_attempts r pkt (some new_port_src, (extern, intern)) =
    forward (record r { napt_extern = hashmap_unlock extern; napt_intern = hashmap_unlock intern })
      pkt new_port_src

-- After the lookup in the internal table.
unfoldable pub out_found : List ℕ → Router → Packet → Option ℕ → Hashmap → Option (Router × Packet)
out_found rands r pkt (some entry) intern =
    forward (record r { napt_intern = hashmap_unlock intern }) pkt
      (entry_public_port (value_at intern entry))
out_found rands r pkt none intern = hashmap_lock r.napt_extern >>= λ extern.
    try_ports (take max_attempts rands) r pkt (extern, intern) >>= after_attempts r pkt

-- `rands` holds the values that `rand()` gives, of which the attempts use ten at most.
unfoldable pub napt_out_handle : List ℕ → Router → Packet → Option (Router × Packet)
napt_out_handle rands r pkt =
    let key = intern_key (ip_src pkt) (port_src pkt) (protocol pkt) in
    let look = hashmap_lock r.napt_intern >>= λ table.
    hashmap_get table key >>= λ found. out_found rands r pkt found.0 found.1 in
    if has_ports (protocol pkt) then look else some (r, pkt)

unfoldable pub is_local_broadcast : Packet → Bool
is_local_broadcast pkt =
    byte_at pkt 16 == 0xff
    && (byte_at pkt 17 == 0xff && (byte_at pkt 18 == 0xff && byte_at pkt 19 == 0xff))

-- The packet's way from the LAN, once the interface for its destination is known.
unfoldable pub route_from_lan : List ℕ → Router → Packet → ℕ → ℕ → Option (Router × Packet)
route_from_lan rands r pkt int_id out_int_id =
    if out_int_id == int_id
    then some (r, pkt)
    else if interface_get_side r.interfaces out_int_id == int_side_lan
    then send_ipv4 r pkt
    else napt_out_handle rands r pkt

unfoldable pub ipv4_handle : List ℕ → Router → Packet → ℕ → Option (Router × Packet)
ipv4_handle rands r pkt int_id =
    let from_lan =
      get_interface_for_ip r.interfaces (ip_dst pkt) >>= route_from_lan rands r pkt int_id in
    if is_local_broadcast pkt
    then some (r, pkt)
    else if interface_get_side r.interfaces int_id == int_side_wan
    then (if not (ip_addr_equals (ip_dst pkt) (interface_get_ip r.interfaces int_id))
        then some (r, pkt)
        else napt_inc_handle r pkt)
    else from_lan
