-- ===== src/Napt/Incoming.antt =====
-- `napt_inc_handle`: the firewall, and the way back of an answer.
use cs489_router.Prelude.{
  ℕ, ◌+◌, ◌^◌, ◌<◌, ◌≡◌, refl, ap, ◌∙◌, sym, true, false, Option, none, some, List, length,
}
use cs489_router.Hashmap.{
  Hashmap, hashmap_lock, hashmap_unlock, mutex_lock, mutex_unlock, hashmap_get, value_at,
}
use cs489_router.Hashmap.Table.{IsTable, stored}
use cs489_router.Hashmap.Locking.{hashmap_get-Handed, Handed, lock-IsTable, stored-lock}
use cs489_router.State.{Packet, Router}
use cs489_router.Outgoing.{protocol, ip_src, send_ipv4}
use cs489_router.Napt.{
  extern_key, NaptEntry, entry_bytes, port_src, port_dst, has_ports, restore_lan, inc_found,
  napt_inc_handle,
}
use cs489_router.Napt.Rewrite.{IsWhole, IsReturned, restore_lan-IsReturned}

-- The key under which the flow that a packet from the WAN answers is stored.
abbrev pub from_extern : Packet → List ℕ
from_extern pkt = extern_key (ip_src pkt) (port_dst pkt) (port_src pkt) (protocol pkt)

abbrev pub locked_table : Hashmap → Hashmap
locked_table m = record m { lock = record m.lock { locked = true } }

-- A table whose mutex is free.
pub record IsFree (m : Hashmap) (key_length : ℕ) : Type 0 where
  pub table : IsTable m
  pub keys : m.size_key ≡ key_length
  pub free : m.lock.locked ≡ false

pub lock_free : (m : Hashmap) → m.lock.locked ≡ false → hashmap_lock m ≡ some (locked_table m)
unfolding hashmap_lock mutex_lock
lock_free m free = rw free

-- What the lookup of a handler that has just locked the table comes to.
pub looked_up :
    (m : Hashmap) (n : ℕ) (key : List ℕ)
    → IsFree m n
    → length key ≡ n
    → (p : Option ℕ) × (m' : Hashmap) × (hashmap_get (locked_table m) key ≡ some (p, m'))
      × Handed (locked_table m) key p m'
looked_up m n key ready fit =
    hashmap_get-Handed (locked_table m) key (lock-IsTable m _ ready.table) (fit ∙ sym ready.keys)
      refl

inc_miss :
    (r : Router) (pkt : Packet) (key : List ℕ) (p : Option ℕ) (m' : Hashmap)
    → r.napt_extern.lock.locked ≡ false
    → stored r.napt_extern key ≡ some none
    → Handed (locked_table r.napt_extern) key p m'
    → inc_found r pkt p m' ≡ some (r, pkt)
unfolding inc_found hashmap_unlock mutex_unlock
inc_miss r pkt key none m' free miss (reads, same, held) = rw (same, ← free)
inc_miss r pkt key (some p) m' free miss (reads, same, held, stray) =
    cc (sym miss ∙ sym (stored-lock r.napt_extern _ key) ∙ reads)

-- The firewall: if the packet is of TCP or UDP, the external table's mutex is free, and the table
-- has no entry for the packet's flow, then `napt_inc_handle` returns, and neither the packet nor
-- any part of the state has changed; in particular nothing was sent.
pub napt_inc_handle-unknown :
    (r : Router) (pkt : Packet)
    → has_ports (protocol pkt) ≡ true
    → IsFree r.napt_extern 9
    → stored r.napt_extern (from_extern pkt) ≡ some none
    → napt_inc_handle r pkt ≡ some (r, pkt)
unfolding napt_inc_handle
napt_inc_handle-unknown r pkt ports ready miss =
    let (p, m', run, handed) =
      looked_up r.napt_extern 9 (from_extern pkt) ready (unfold extern_key in refl) in
    rw (ports, lock_free r.napt_extern ready.free, run)
      (inc_miss r pkt (from_extern pkt) p m' ready.free miss handed)

-- The state after a hit: the table has been unlocked twice.
abbrev pub twice_unlocked : Router → Router
twice_unlocked r = record r {
  napt_extern = record r.napt_extern {
    lock = record { locked = false; stray_unlocks = r.napt_extern.lock.stray_unlocks + 1 };
  };
}

inc_hit :
    (r : Router) (pkt : Packet) (key value : List ℕ) (p : Option ℕ) (m' : Hashmap)
    → stored r.napt_extern key ≡ some (some value)
    → Handed (locked_table r.napt_extern) key p m'
    → inc_found r pkt p m' ≡ send_ipv4 (twice_unlocked r) (restore_lan pkt value)
unfolding inc_found hashmap_unlock mutex_unlock
inc_hit r pkt key value none m' hit (reads, same, held) =
    cc (sym hit ∙ sym (stored-lock r.napt_extern _ key) ∙ reads)
inc_hit r pkt key value (some p) m' hit (reads, same, free, stray) = rw (← holds) (
    ap
      (λ m.
        send_ipv4 (record r { napt_extern = hashmap_unlock m }) (restore_lan pkt (value_at m' p)))
      same)
  where
    holds : value_at m' p ≡ value
    holds = cc (sym hit ∙ sym (stored-lock r.napt_extern _ key) ∙ reads)

-- The way back: if the packet is of TCP or UDP with a whole header and its ports, the external
-- table's mutex is free, and the table has an entry for the packet's flow, then `napt_inc_handle`
-- does what `send_ipv4` does with the packet as it was, its length and payload included, but for its
-- destination, which is the address and port of the LAN that the entry names. The table's contents stay, and its mutex is
-- unlocked once more than it was locked.
pub napt_inc_handle-known :
    (r : Router) (pkt : Packet) (e : NaptEntry)
    → has_ports (protocol pkt) ≡ true
    → IsWhole pkt
    → e.lan_port < 2 ^ 16
    → IsFree r.napt_extern 9
    → stored r.napt_extern (from_extern pkt) ≡ some (some (entry_bytes e))
    → (pkt' : Packet) × (napt_inc_handle r pkt ≡ send_ipv4 (twice_unlocked r) pkt')
      × IsReturned pkt e.lan_ip e.lan_port pkt'
unfolding napt_inc_handle
napt_inc_handle-known r pkt e ports whole lt ready hit =
    let (p, m', run, handed) =
      looked_up r.napt_extern 9 (from_extern pkt) ready (unfold extern_key in refl) in
    (
      restore_lan pkt (entry_bytes e),
      rw (ports, lock_free r.napt_extern ready.free, run)
          (inc_hit r pkt (from_extern pkt) (entry_bytes e) p m' hit handed),
      restore_lan-IsReturned pkt e whole lt,
    )
