-- ===== src/Napt/Leaving.antt =====
-- `napt_out_handle` for a flow that is new, and for one that is known.
use cs489_router.Prelude.{
  ℕ, ◌+◌, ◌/◌, ◌^◌, ◌<◌, ◌≡◌, ◌∙◌, true, false, inl, inr, Bool-cases, none, some, List, ◌∷◌, arith,
  AllSmall,
}
use cs489_router.Address.Laws.{IsIp}
use cs489_router.Interfaces.{interface_get_ip, interface_get_wan_id}
use cs489_router.Hashmap.{Hashmap, Mutex, hashmap_unlock, mutex_unlock}
use cs489_router.Hashmap.Table.{stored}
use cs489_router.Hashmap.Locking.{
  hashmap_get_hit, hashmap_get_miss, hashmap_contains_miss, stored-lock, lock-IsTable,
}
use cs489_router.State.{Packet, Router}
use cs489_router.Outgoing.{protocol, send_ipv4}
use cs489_router.Napt.{
  has_ports, random_port, NaptEntry, entry_bytes, replace_source, try_ports, after_attempts,
  out_found, forward, napt_out_handle,
}
use cs489_router.Napt.Rewrite.{
  IsWhole, IsSourced, replace_source-IsSourced, entry_public_port-entry_bytes,
}
use cs489_router.Napt.Entries.{
  AreTables, AreStored, to_extern, to_intern, flow_entry, store_entry-AreStored,
}
use cs489_router.Napt.Incoming.{locked_table, lock_free}

unlock-free : (m : Hashmap) → (hashmap_unlock m).lock.locked ≡ false
unfolding hashmap_unlock mutex_unlock
unlock-free m = elim (Bool-cases m.lock.locked) [ inl locked ↦ rw locked | inr free ↦ rw free ]

-- What a packet is sent as: as it was, but with the public address and a port as its source.
abbrev pub IsForwarded : Router → Packet → ℕ → Packet → Type 0
IsForwarded r pkt port pkt' =
    IsSourced pkt (interface_get_ip r.interfaces interface_get_wan_id) port pkt'

relocked :
    (extern intern : Hashmap) (l l' : Mutex)
    → AreTables extern intern
    → AreTables (record extern { lock = l }) (record intern { lock = l' })
relocked extern intern l l' t = record {
  extern_table = lock-IsTable extern l t.extern_table;
  intern_table = lock-IsTable intern l' t.intern_table;
  extern_key_length = t.extern_key_length;
  intern_key_length = t.intern_key_length;
  extern_value_length = t.extern_value_length;
  intern_value_length = t.intern_value_length;
}

-- What the tables hold does not depend on their mutexes.
pub held_unlocked :
    (extern intern extern' intern' : Hashmap) (l l' : Mutex) {key key' value : List ℕ}
    → AreStored extern intern extern' intern' key key' value
    → AreStored extern intern
        (record extern' { lock = l })
        (record intern' { lock = l' })
        key
        key'
        value
held_unlocked extern intern extern' intern' l l' s = record {
  valid = relocked extern' intern' l l' s.valid;
  in_extern = λ q fit. stored-lock extern' l q ∙ s.in_extern q fit;
  in_intern = λ q fit. stored-lock intern' l' q ∙ s.in_intern q fit;
}

held_locked :
    (extern intern extern' intern' : Hashmap) {key key' value : List ℕ}
    → AreStored (locked_table extern) (locked_table intern) extern' intern' key key' value
    → AreStored extern intern extern' intern' key key' value
held_locked extern intern extern' intern' s = record {
  valid = s.valid;
  in_extern = λ q fit. s.in_extern q fit ∙ rw (stored-lock extern _ q);
  in_intern = λ q fit. s.in_intern q fit ∙ rw (stored-lock intern _ q);
}

-- For a packet of bytes, of TCP or UDP with a whole header and its ports, whose flow is in neither
-- table, if the first random port is not in use for its destination, both mutexes are free and no
-- table has to grow: `napt_out_handle` does what `send_ipv4` does with the packet as it was, its
-- length and payload included, but for its source, which is the public address and that port. Both tables keep their invariant and hold the flow's entry and
-- what they held before, and their mutexes are free again.
pub napt_out_handle-new :
    (rand : ℕ) (rands : List ℕ) (r : Router) (pkt : Packet)
    → has_ports (protocol pkt) ≡ true
    → IsWhole pkt
    → AllSmall pkt
    → IsIp (interface_get_ip r.interfaces interface_get_wan_id)
    → AreTables r.napt_extern r.napt_intern
    → r.napt_intern.lock.locked ≡ false
    → r.napt_extern.lock.locked ≡ false
    → r.napt_extern.size < r.napt_extern.size_allocated / 2
    → r.napt_intern.size < r.napt_intern.size_allocated / 2
    → stored r.napt_extern (to_extern pkt (random_port rand)) ≡ some none
    → stored r.napt_intern (to_intern pkt) ≡ some none
    → (extern' intern' : Hashmap) × (pkt' : Packet) × (napt_out_handle (rand ∷ rands) r pkt
        ≡ send_ipv4 (record r { napt_extern = extern'; napt_intern = intern' }) pkt')
      × IsForwarded r pkt (random_port rand) pkt'
      × AreStored r.napt_extern r.napt_intern extern' intern'
          (to_extern pkt (random_port rand))
          (to_intern pkt)
          (flow_entry r pkt (random_port rand))
      × (extern'.lock.locked ≡ false)
      × (intern'.lock.locked ≡ false)
unfolding napt_out_handle out_found try_ports after_attempts forward
napt_out_handle-new rand rands r pkt ports whole small public tables free free' light light' fresh
      fresh' =
    let (extern', intern', run, held) =
      store_entry-AreStored r pkt port (locked_table r.napt_extern) (locked_table r.napt_intern)
        small public (relocked r.napt_extern r.napt_intern _ _ tables) light light'
        (stored-lock r.napt_extern _ (to_extern pkt port) ∙ fresh) miss in
    (
      hashmap_unlock extern',
      hashmap_unlock intern',
      replace_source pkt (interface_get_ip r.interfaces interface_get_wan_id) port,
      rw (
        ports,
        lock_free r.napt_intern free,
        hashmap_get_miss (locked_table r.napt_intern) (to_intern pkt) miss,
        lock_free r.napt_extern free',
        hashmap_contains_miss (locked_table r.napt_extern) (to_extern pkt port)
            (stored-lock r.napt_extern _ (to_extern pkt port) ∙ fresh),
        run,
      ),
      replace_source-IsSourced pkt (interface_get_ip r.interfaces interface_get_wan_id) port whole
          (omega arith),
      unfold hashmap_unlock in
          held_unlocked r.napt_extern r.napt_intern extern' intern' _ _
            (held_locked r.napt_extern r.napt_intern extern' intern' held),
      unlock-free extern',
      unlock-free intern',
    )
  where
    port : ℕ
    port = random_port rand

    miss : stored (locked_table r.napt_intern) (to_intern pkt) ≡ some none
    miss = stored-lock r.napt_intern _ (to_intern pkt) ∙ fresh'

-- For a packet of TCP or UDP with a whole header and its ports, whose flow is in the internal table:
-- if that table's mutex is free, then `napt_out_handle` does what `send_ipv4` does with the packet
-- as it was, its length and payload included, but for its source, which is the public address and
-- the port of the flow's entry. The table's contents stay,
-- and its mutex is unlocked once more than it was locked.
pub napt_out_handle-known :
    (rands : List ℕ) (r : Router) (pkt : Packet) (e : NaptEntry)
    → has_ports (protocol pkt) ≡ true
    → IsWhole pkt
    → e.public_port < 2 ^ 16
    → r.napt_intern.lock.locked ≡ false
    → stored r.napt_intern (to_intern pkt) ≡ some (some (entry_bytes e))
    → (pkt' : Packet) × (napt_out_handle rands r pkt
        ≡ send_ipv4
            (record r {
              napt_intern = record r.napt_intern {
                lock = record {
                  locked = false;
                  stray_unlocks = r.napt_intern.lock.stray_unlocks + 1;
                };
              };
            })
            pkt')
      × IsForwarded r pkt e.public_port pkt'
unfolding napt_out_handle out_found forward hashmap_unlock mutex_unlock
napt_out_handle-known rands r pkt e ports whole lt free hit =
    let (p, run, holds) =
      hashmap_get_hit (locked_table r.napt_intern) (to_intern pkt) (entry_bytes e)
        (stored-lock r.napt_intern _ (to_intern pkt) ∙ hit) in
    (
      replace_source pkt (interface_get_ip r.interfaces interface_get_wan_id) e.public_port,
      rw (ports, lock_free r.napt_intern free, run, holds, entry_public_port-entry_bytes e lt),
      replace_source-IsSourced pkt (interface_get_ip r.interfaces interface_get_wan_id)
          e.public_port whole lt,
    )
