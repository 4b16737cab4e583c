-- ===== src/Napt/Blocked.antt =====
-- `napt_out_handle` when no port is found.
use cs489_router.Prelude.{take, ℕ, ◌≡◌, refl, ◌∙◌, true, false, none, some, List, [], ◌∷◌, All}
use cs489_router.Hashmap.{Hashmap, Mutex, hashmap_lock, hashmap_unlock, mutex_lock}
use cs489_router.Hashmap.Table.{stored}
use cs489_router.Hashmap.Locking.{hashmap_get_miss, hashmap_contains_hit, stored-lock}
use cs489_router.State.{Packet, Router}
use cs489_router.Outgoing.{protocol}
use cs489_router.Napt.{
  has_ports, random_port, max_attempts, try_ports, after_attempts, out_found, napt_out_handle,
}
use cs489_router.Napt.Entries.{to_extern, to_intern}
use cs489_router.Napt.Incoming.{locked_table, lock_free}

-- The port that a value of `rand()` stands for is in use for the packet's destination.
abbrev pub IsUsed : Hashmap → Packet → ℕ → Type 0
IsUsed extern pkt rand =
    (value : List ℕ) × (stored extern (to_extern pkt (random_port rand)) ≡ some (some value))

IsUsed-lock :
    (extern : Hashmap) (l : Mutex) (pkt : Packet) (rands : List ℕ)
    → All (IsUsed extern pkt) rands
    → All (IsUsed (record extern { lock = l }) pkt) rands
IsUsed-lock extern l pkt [] h = tt
IsUsed-lock extern l pkt (rand ∷ rands) h = (
  (h.0.0, stored-lock extern l (to_extern pkt (random_port rand)) ∙ h.0.1),
  IsUsed-lock extern l pkt rands h.1,
)

try_ports-used :
    (rands : List ℕ) (r : Router) (pkt : Packet) (extern intern : Hashmap)
    → All (IsUsed extern pkt) rands
    → (extern' : Hashmap) × (try_ports rands r pkt (extern, intern)
        ≡ some (none, (extern', intern)))
unfolding try_ports
try_ports-used [] r pkt extern intern h = (extern, refl)
try_ports-used (rand ∷ rands) r pkt extern intern h =
    let (extern', run) =
      try_ports-used rands r pkt (hashmap_unlock extern) intern
        (unfold hashmap_unlock in IsUsed-lock extern _ pkt rands h.1) in
    (extern', rw (hashmap_contains_hit extern (to_extern pkt (random_port rand)) h.0.0 h.0.1) run)

-- If both mutexes are free, the flow is new, and all the ports that are tried are in use for its
-- destination, then `napt_out_handle` returns and drops the packet, but the internal table stays
-- locked: the next call of `napt_out_handle`, for any TCP or UDP packet, never returns.
pub napt_out_handle-blocked :
    (rands rands' : List ℕ) (r : Router) (pkt pkt' : Packet)
    → has_ports (protocol pkt) ≡ true
    → has_ports (protocol pkt') ≡ true
    → r.napt_intern.lock.locked ≡ false
    → r.napt_extern.lock.locked ≡ false
    → stored r.napt_intern (to_intern pkt) ≡ some none
    → All (IsUsed r.napt_extern pkt) (take max_attempts rands)
    → (r' : Router) × (napt_out_handle rands r pkt ≡ some (r', pkt))
      × (r'.sent ≡ r.sent)
      × (napt_out_handle rands' r' pkt' ≡ none)
unfolding napt_out_handle out_found after_attempts
napt_out_handle-blocked rands rands' r pkt pkt' ports ports' free free' new used =
    let (extern', run) =
      try_ports-used (take max_attempts rands) r pkt (locked_table r.napt_extern)
        (locked_table r.napt_intern) relocked in
    (
      record r { napt_extern = hashmap_unlock extern'; napt_intern = locked_table r.napt_intern },
      rw (
        ports,
        lock_free r.napt_intern free,
        hashmap_get_miss (locked_table r.napt_intern) (to_intern pkt) miss,
        lock_free r.napt_extern free',
        run,
      ),
      refl,
      rw ports' (unfold hashmap_lock mutex_lock in refl),
    )
  where
    miss : stored (locked_table r.napt_intern) (to_intern pkt) ≡ some none
    miss = stored-lock r.napt_intern _ (to_intern pkt) ∙ new

    relocked : All (IsUsed (locked_table r.napt_extern) pkt) (take max_attempts rands)
    relocked = IsUsed-lock r.napt_extern _ pkt (take max_attempts rands) used
