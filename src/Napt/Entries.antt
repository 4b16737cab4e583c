-- ===== src/Napt/Entries.antt =====
-- A new translation in the two tables.
use cs489_router.Prelude.{
  ℕ, ◌/◌, ◌<◌, ◌≡◌, ◌∙◌, sym, none, some, List, arith, length, if◌then◌else◌, AllSmall, AreBytes,
  AreBytes-AllSmall,
}
use cs489_router.Address.{IpAddr}
use cs489_router.Address.Laws.{IsIp}
use cs489_router.Interfaces.{interface_get_ip, interface_get_wan_id}
use cs489_router.Hashmap.{Hashmap, bytes_equal}
use cs489_router.Hashmap.Slots.{Fits}
use cs489_router.Hashmap.Table.{IsTable, stored}
use cs489_router.Hashmap.Insert.{hashmap_insert_lem}
use cs489_router.State.{Packet, Router}
use cs489_router.Outgoing.{read_ip, protocol, ip_src, ip_dst}
use cs489_router.Napt.{
  extern_key, intern_key, NaptEntry, entry_bytes, new_entry, store_entry, port_src, port_dst,
}

-- The two tables, which nothing was removed from.
pub record AreTables (extern intern : Hashmap) : Type 0 where
  pub extern_table : IsTable extern
  pub intern_table : IsTable intern
  pub extern_key_length : extern.size_key ≡ 9
  pub intern_key_length : intern.size_key ≡ 7
  pub extern_value_length : extern.size_value ≡ 24
  pub intern_value_length : intern.size_value ≡ 24

pub ip_src-IsIp : (pkt : Packet) → AllSmall pkt → IsIp (ip_src pkt)
unfolding ip_src read_ip
ip_src-IsIp pkt small = omega (arith, small 12, small 13, small 14, small 15)

pub ip_dst-IsIp : (pkt : Packet) → AllSmall pkt → IsIp (ip_dst pkt)
unfolding ip_dst read_ip
ip_dst-IsIp pkt small = omega (arith, small 16, small 17, small 18, small 19)

entry_bytes-AreBytes :
    (e : NaptEntry) → IsIp e.lan_ip → IsIp e.public_ip → IsIp e.dst_ip → AreBytes (entry_bytes e)
unfolding entry_bytes
entry_bytes-AreBytes e lan public dst = omega arith

extern_key-AreBytes : (ip : IpAddr) (a b p : ℕ) → IsIp ip → p < 256 → AreBytes (extern_key ip a b p)
unfolding extern_key
extern_key-AreBytes ip a b p h lt = omega arith

intern_key-AreBytes : (ip : IpAddr) (a p : ℕ) → IsIp ip → p < 256 → AreBytes (intern_key ip a p)
unfolding intern_key
intern_key-AreBytes ip a p h lt = omega arith

-- The keys of a packet that leaves, and the entry of its flow.
abbrev pub to_extern : Packet → ℕ → List ℕ
to_extern pkt port = extern_key (ip_dst pkt) port (port_dst pkt) (protocol pkt)

abbrev pub to_intern : Packet → List ℕ
to_intern pkt = intern_key (ip_src pkt) (port_src pkt) (protocol pkt)

abbrev pub flow_entry : Router → Packet → ℕ → List ℕ
flow_entry r pkt port = entry_bytes (new_entry r pkt port)

module _ (r : Router) (pkt : Packet) (port : ℕ) (small : AllSmall pkt)
    (public : IsIp (interface_get_ip r.interfaces interface_get_wan_id)) where
  flow_entry-AllSmall : AllSmall (flow_entry r pkt port)
  flow_entry-AllSmall = AreBytes-AllSmall (flow_entry r pkt port) (
      entry_bytes-AreBytes (new_entry r pkt port) (unfold new_entry in ip_src-IsIp pkt small)
        (unfold new_entry in public) (unfold new_entry in ip_dst-IsIp pkt small))

  extern-Fits :
      (m : Hashmap)
      → m.size_key ≡ 9
      → m.size_value ≡ 24
      → Fits m (to_extern pkt port) (flow_entry r pkt port)
  unfolding protocol
  extern-Fits m k v = record {
    key_length = unfold extern_key in sym k;
    value_length = unfold entry_bytes in sym v;
    key_small = AreBytes-AllSmall (to_extern pkt port) (
        extern_key-AreBytes (ip_dst pkt) port (port_dst pkt) (protocol pkt) (ip_dst-IsIp pkt small)
          (small 9));
    value_small = flow_entry-AllSmall;
  }

  intern-Fits :
      (m : Hashmap)
      → m.size_key ≡ 7
      → m.size_value ≡ 24
      → Fits m (to_intern pkt) (flow_entry r pkt port)
  unfolding protocol
  intern-Fits m k v = record {
    key_length = unfold intern_key in sym k;
    value_length = unfold entry_bytes in sym v;
    key_small = AreBytes-AllSmall (to_intern pkt) (
        intern_key-AreBytes (ip_src pkt) (port_src pkt) (protocol pkt) (ip_src-IsIp pkt small)
          (small 9));
    value_small = flow_entry-AllSmall;
  }

-- What two tables hold after an entry for two keys was added.
pub record AreStored (extern intern extern' intern' : Hashmap) (key key' value : List ℕ)
    : Type 0 where
  pub valid : AreTables extern' intern'
  pub in_extern :
      (q : List ℕ)
      → length q ≡ extern.size_key
      → stored extern' q ≡ (if bytes_equal key q then some (some value) else stored extern q)
  pub in_intern :
      (q : List ℕ)
      → length q ≡ intern.size_key
      → stored intern' q ≡ (if bytes_equal key' q then some (some value) else stored intern q)

-- If the packet consists of bytes, the public address of four, and the flow is in neither table
-- and neither has to grow, then `store_entry` returns, both tables keep their invariant, the entry
-- of the flow is found under its key in both, and what was found under the other keys still is.
pub store_entry-AreStored :
    (r : Router) (pkt : Packet) (port : ℕ) (extern intern : Hashmap)
    → AllSmall pkt
    → IsIp (interface_get_ip r.interfaces interface_get_wan_id)
    → AreTables extern intern
    → extern.size < extern.size_allocated / 2
    → intern.size < intern.size_allocated / 2
    → stored extern (to_extern pkt port) ≡ some none
    → stored intern (to_intern pkt) ≡ some none
    → (extern' intern' : Hashmap) × (store_entry r pkt port (extern, intern)
        ≡ some (extern', intern'))
      × AreStored extern intern extern' intern'
          (to_extern pkt port)
          (to_intern pkt)
          (flow_entry r pkt port)
unfolding store_entry
store_entry-AreStored r pkt port extern intern small public tables light light' fresh fresh' =
    let (extern', run, valid, size, sizes, holds) =
      hashmap_insert_lem extern tables.extern_table (to_extern pkt port) (flow_entry r pkt port)
        (extern-Fits r pkt port small public extern tables.extern_key_length
          tables.extern_value_length)
        light fresh 3 in
    let (intern', run', valid', size', sizes', holds') =
      hashmap_insert_lem intern tables.intern_table (to_intern pkt) (flow_entry r pkt port)
        (intern-Fits r pkt port small public intern tables.intern_key_length
          tables.intern_value_length)
        light' fresh' 3 in
    (
      extern',
      intern',
      rw (run, run'),
      record {
        valid = record {
          extern_table = valid;
          intern_table = valid';
          extern_key_length = sizes.1 ∙ tables.extern_key_length;
          intern_key_length = sizes'.1 ∙ tables.intern_key_length;
          extern_value_length = sizes.2 ∙ tables.extern_value_length;
          intern_value_length = sizes'.2 ∙ tables.intern_value_length;
        };
        in_extern = holds;
        in_intern = holds';
      },
    )
