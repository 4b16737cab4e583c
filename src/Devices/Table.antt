-- ===== src/Devices/Table.antt =====
-- The table behaves as a partial function from addresses to hardware addresses.
use native.Mathlib.Numerals.{add-one}
use cs489_router.Prelude.{
  ℕ, zero, suc, ◌-◌, ◌*◌, ◌≤◌, ◌<◌, ◌≡◌, refl, ◌∙◌, sym, ap, false, Option, none, some, List, [],
  ◌∷◌, ◌++◌, arith, if◌then◌else◌, length, set, replicate, length-append, length-replicate,
  length-set, append-nil, leb, leb→le, ◌==◌, Bool-cases, inl, inr,
}
use cs489_router.Address.{IpAddr, MacAddr, zero_mac, ip_addr_equals}
use cs489_router.Address.Laws.{
  ip_addr_equals→≡, ip_addr_equals_comm, ip_addr_equals_refl, ip_addr_equals_congr,
}
use cs489_router.Devices.{
  IpMacPair, IpMacMap, keep_pair, update_loop, has_loop, get_loop, has_mac_for_ip, get_mac_from_ip,
  reserve, append_pair, after_loop, update_ip_mac_pair,
}

-- The array has the length that is recorded, and the pairs in use fit.
pub record IsValid (m : IpMacMap) : Type 0 where
  pub allocated : length m.arr ≡ m.alloc_amt
  pub within : m.amt ≤ m.alloc_amt

-- What a caller can learn of an address.
abbrev pub known : IpMacMap → IpAddr → Option MacAddr
known m ip = if has_mac_for_ip m ip then some (get_mac_from_ip m ip) else none

find : ℕ → List IpMacPair → IpAddr → Option MacAddr
find n arr ip = if has_loop n arr ip then some (get_loop n arr ip zero_mac) else none

abbrev Updated : ℕ → List IpMacPair → IpMacPair → IpAddr → Option (List IpMacPair) → Type 0
Updated n arr pair ip none = Unit
Updated n arr pair ip (some arr') =
    (find n arr' ip
      ≡ (if ip_addr_equals pair.ip_addr ip then some pair.mac_addr else find n arr ip))
    × (length arr' ≡ length arr)

keep_pair-Updated :
    (n : ℕ) (arr : List IpMacPair) (pair e : IpMacPair) (ip : IpAddr) (o : Option (List IpMacPair))
    → ip_addr_equals pair.ip_addr e.ip_addr ≡ false
    → Updated n arr pair ip o
    → Updated (suc n) (e ∷ arr) pair ip (keep_pair e o)
unfolding keep_pair find has_loop get_loop
keep_pair-Updated n arr pair e ip none differ u = tt
keep_pair-Updated n arr pair e ip (some arr') differ u =
    ground (arith, ip_addr_equals_congr pair.ip_addr ip e.ip_addr, ip_addr_equals_comm ip e.ip_addr)

update_loop-Updated :
    (n : ℕ) (arr : List IpMacPair) (pair : IpMacPair) (ip : IpAddr)
    → Updated n arr pair ip (update_loop n arr pair)
unfolding update_loop find has_loop get_loop
update_loop-Updated zero arr pair ip = tt
update_loop-Updated (suc n) [] pair ip = tt
update_loop-Updated (suc n) (e ∷ arr) pair ip =
    elim (Bool-cases (ip_addr_equals pair.ip_addr e.ip_addr)) [
      | inl same ↦ rw same (ground (arith, ip_addr_equals_congr pair.ip_addr e.ip_addr ip), refl)
      | inr differ ↦ rw differ (
          keep_pair-Updated n arr pair e ip (update_loop n arr pair) differ
            (update_loop-Updated n arr pair ip))
    ]

find-append_pair :
    (n : ℕ) (arr : List IpMacPair) (pair : IpMacPair) (ip : IpAddr)
    → n < length arr
    → update_loop n arr pair ≡ none
    → find (suc n) (set arr n pair) ip
      ≡ (if ip_addr_equals pair.ip_addr ip then some pair.mac_addr else find n arr ip)
unfolding find update_loop has_loop get_loop
find-append_pair n [] pair ip h miss = absurd (omega arith)
find-append_pair zero (e ∷ arr) pair ip h miss = ground (arith, ip_addr_equals_comm pair.ip_addr ip)
find-append_pair (suc n) (e ∷ arr) pair ip h miss = ground (
  arith,
  find-append_pair n arr pair ip,
  ip_addr_equals_congr pair.ip_addr e.ip_addr ip,
  ip_addr_equals→≡ ip e.ip_addr,
  ip_addr_equals→≡ pair.ip_addr ip,
  ip_addr_equals_refl e.ip_addr,
)

find-append :
    (n : ℕ) (arr more : List IpMacPair) (ip : IpAddr)
    → n ≤ length arr
    → find n (arr ++ more) ip ≡ find n arr ip
unfolding find has_loop get_loop
find-append zero arr more ip h = refl
find-append (suc n) [] more ip h = absurd (omega arith)
find-append (suc n) (e ∷ arr) more ip h = ground (arith, find-append n arr more ip)

update_loop-append :
    (n : ℕ) (arr more : List IpMacPair) (pair : IpMacPair)
    → n ≤ length arr
    → update_loop n arr pair ≡ none
    → update_loop n (arr ++ more) pair ≡ none
unfolding update_loop keep_pair
update_loop-append zero arr more pair h miss = refl
update_loop-append (suc n) [] more pair h miss = absurd (omega arith)
update_loop-append (suc n) (e ∷ arr) more pair h miss =
    ground (arith, update_loop-append n arr more pair)

module _ (fresh : IpMacPair) (m : IpMacMap) (valid : IsValid m) where
  -- After the reallocation there is room for one more pair, and the pairs in use are as before.
  record Reserved (r : IpMacMap) : Type 0 where
    more : List IpMacPair
    kept : r.arr ≡ m.arr ++ more
    allocated : length r.arr ≡ r.alloc_amt
    room : m.amt < r.alloc_amt
    same_amt : r.amt ≡ m.amt

  reserve-Reserved : Reserved (reserve fresh m)
  unfolding reserve
  reserve-Reserved = elim (Bool-cases (leb m.alloc_amt m.amt)) [
    | inr room ↦ rw room (record {
      more = [];
      kept = sym (append-nil m.arr);
      allocated = valid.allocated;
      room = ground arith;
      same_amt = refl;
    })
    | inl full ↦ rw full (record {
      more = replicate (wanted * 2 - length m.arr) fresh;
      kept = refl;
      allocated =
          rw (length-append, length-replicate) (ground (arith, valid.allocated, valid.within));
      room = ground (arith, valid.within, leb→le m.alloc_amt m.amt full);
      same_amt = refl;
    })
  ]
    where
      wanted : ℕ
      wanted = if m.alloc_amt == 0 then 5 else m.alloc_amt

  abbrev Sets : IpMacPair → IpAddr → IpMacMap → Type 0
  Sets pair ip r =
      (known r ip ≡ (if ip_addr_equals pair.ip_addr ip then some pair.mac_addr else known m ip))
      × IsValid r

  append_pair-Sets :
      (r : IpMacMap) (pair : IpMacPair) (ip : IpAddr)
      → Reserved r
      → update_loop m.amt m.arr pair ≡ none
      → Sets pair ip (append_pair fresh r pair)
  unfolding append_pair has_mac_for_ip get_mac_from_ip
  append_pair-Sets r pair ip res miss =
      let found =
        find-append_pair m.amt (m.arr ++ res.more) pair ip longer
          (update_loop-append m.amt m.arr res.more pair fits miss) in
      (
        rw (res.same_amt, res.kept, add-one)
            (unfold find in rw (← find-append m.amt m.arr res.more ip fits) found),
        record {
          allocated = length-set r.arr r.amt pair ∙ res.allocated;
          within = omega (arith, res.room, res.same_amt);
        },
      )
    where
      fits : m.amt ≤ length m.arr
      fits = omega (arith, valid.allocated, valid.within)

      longer : m.amt < length (m.arr ++ res.more)
      longer = omega (arith, ap length res.kept, res.allocated, res.room)

  after_loop-Sets :
      (o : Option (List IpMacPair)) (pair : IpMacPair) (ip : IpAddr)
      → update_loop m.amt m.arr pair ≡ o
      → Updated m.amt m.arr pair ip o
      → Sets pair ip (after_loop fresh m pair o)
  unfolding after_loop has_mac_for_ip get_mac_from_ip find
  after_loop-Sets none pair ip e u = append_pair-Sets (reserve fresh m) pair ip reserve-Reserved e
  after_loop-Sets (some arr) pair ip e u =
      (u.0, record { allocated = u.1 ∙ valid.allocated; within = valid.within })

  -- `update_ip_mac_pair` sets what is known of the pair's address and nothing else, and keeps the
  -- array and its counts in step, whether it overwrites a pair, appends one or reallocates first.
  pub known-update_ip_mac_pair :
      (pair : IpMacPair) (ip : IpAddr)
      → (known (update_ip_mac_pair fresh m pair) ip
          ≡ (if ip_addr_equals pair.ip_addr ip then some pair.mac_addr else known m ip))
        × IsValid (update_ip_mac_pair fresh m pair)
  unfolding update_ip_mac_pair
  known-update_ip_mac_pair pair ip =
      after_loop-Sets (update_loop m.amt m.arr pair) pair ip refl
        (update_loop-Updated m.amt m.arr pair ip)
