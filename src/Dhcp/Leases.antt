-- ===== src/Dhcp/Leases.antt =====
-- The lease table: no address is leased twice.
use mathlib.Core.Path.{subst}
use cs489_router.Prelude.{
  ℕ, suc, ◌+◌, ◌%◌, ◌^◌, ◌<◌, ◌≤◌, ◌≡◌, refl, ap, ◌∙◌, sym, inl, inr, ◌⊎◌, Bool, true, false, not,
  ◌&&◌, ◌==◌, ≢→==, ==_refl, ltb, leb, lt→ltb, List, [], ◌∷◌, All, length, if◌then◌else◌,
  Bool-cases, arith,
}
use cs489_router.Dhcp.{
  Lease, free_lease, Server, htonl, available_loop, cleanup_loop, cleanup_expired_leases, new_lease,
  allocate_loop, get_available_ip,
}

-- The address that belongs to a slot of the table: the start of the pool, counted up.
abbrev pub slot_ip : ℕ → ℕ → ℕ
slot_ip pool_start i = htonl ((htonl pool_start + i) % 2 ^ 32)

htonl_injective : (a b : ℕ) → a < 2 ^ 32 → b < 2 ^ 32 → htonl a ≡ htonl b → a ≡ b
unfolding htonl
htonl_injective a b ha hb e = omega arith

slot_ip_injective :
    (pool_start i j : ℕ)
    → i < 2 ^ 32
    → j < 2 ^ 32
    → slot_ip pool_start i ≡ slot_ip pool_start j
    → i ≡ j
slot_ip_injective pool_start i j hi hj e = omega (
  arith,
  htonl_injective ((htonl pool_start + i) % 2 ^ 32) ((htonl pool_start + j) % 2 ^ 32) (omega arith)
      (omega arith) e,
)

-- An allocated lease is for the address of its slot.
abbrev pub AreLeases : ℕ → ℕ → List Lease → Type 0
AreLeases pool_start i [] = Unit
AreLeases pool_start i (lease ∷ rest) =
    (lease.allocated ≡ true → lease.ip ≡ slot_ip pool_start i) × AreLeases pool_start (i + 1) rest

-- A lease that is in force.
abbrev pub IsCurrent : ℕ → Lease → Type 0
IsCurrent now lease = (lease.allocated ≡ true) × (now < lease.lease_expiry)

-- Whether a lease makes an address unavailable.
abbrev blocks : ℕ → Lease → ℕ → Bool
blocks now lease ip = lease.allocated && (lease.ip == ip && ltb now lease.lease_expiry)

-- The lease as `cleanup_expired_leases` leaves it.
abbrev cleaned : ℕ → Lease → Lease
cleaned now lease = if lease.allocated && leb lease.lease_expiry now then free_lease else lease

cleaned-cases :
    (now : ℕ) (lease : Lease)
    → (IsCurrent now lease × (cleaned now lease ≡ lease))
      ⊎ (((cleaned now lease).allocated ≡ false) × ((ip : ℕ) → blocks now lease ip ≡ false))
cleaned-cases now lease = elim (Bool-cases lease.allocated) [
  | inr free ↦ inr (rw (not_taken free) free, λ ip. rw free)
  | inl taken ↦ elim (Bool-cases (leb lease.lease_expiry now)) [
    | inl old ↦ inr (rw (taken, old), λ ip. ground (arith, taken, old))
    | inr new ↦ inl ((taken, ground (arith, new)), rw (not_old taken new))
  ]
]
  where
    not_taken : lease.allocated ≡ false → (lease.allocated && leb lease.lease_expiry now) ≡ false
    not_taken free = rw free

    not_old :
        lease.allocated ≡ true
        → leb lease.lease_expiry now ≡ false
        → (lease.allocated && leb lease.lease_expiry now) ≡ false
    not_old taken new = rw (taken, new)

and_false : (b : Bool) → (b && false) ≡ false
and_false true = refl
and_false false = refl

module _ (now : ℕ) (s : Server) where
  open s use {pool_start}

  -- The addresses of other slots are available, as far as a table goes.
  available_other :
      (i k : ℕ) (table : List Lease)
      → AreLeases pool_start i table
      → k < i
      → i + length table ≤ 2 ^ 32
      → available_loop now table (slot_ip pool_start k) ≡ true
  unfolding available_loop
  available_other i k [] leases lt le = refl
  available_other i k (lease ∷ rest) leases lt le =
      rw (not_blocked, available_other (i + 1) k rest leases.1 (omega arith) (omega arith))
    where
      not_blocked : blocks now lease (slot_ip pool_start k) ≡ false
      not_blocked = elim (Bool-cases lease.allocated) [
        | inr free ↦ rw free
        | inl taken ↦ rw (
          taken,
          leases.0 taken,
          ≢→== (slot_ip pool_start i) (slot_ip pool_start k) (λ e.
              absurd
                (omega (arith, slot_ip_injective pool_start i k (omega arith) (omega arith) e))),
        )
      ]

  -- What comes of a request for an address from slot `i` on: every lease is in force, and 0 and the
  -- same table; or the address of a slot, which was available and is not for the next 180000 seconds.
  abbrev pub IsAllocated : ℕ → List Lease → ℕ × List Lease → Type 0
  IsAllocated i table (ip, table') =
      AreLeases pool_start i table'
      × (length table' ≡ length table)
      × ((All (IsCurrent now) table × (ip ≡ 0) × (table' ≡ table))
          ⊎ ((k : ℕ) × (i ≤ k)
              × (k < i + length table)
              × (ip ≡ slot_ip pool_start k)
              × (available_loop now table ip ≡ true)
              × ((t : ℕ) → t < now + 180000 → available_loop t table' ip ≡ false)))

  cleanup-AreLeases :
      (i : ℕ) (table : List Lease)
      → AreLeases pool_start i table
      → AreLeases pool_start i (cleanup_loop now table)
        × (length (cleanup_loop now table) ≡ length table)
  unfolding cleanup_loop
  cleanup-AreLeases i [] leases = (tt, refl)
  cleanup-AreLeases i (lease ∷ rest) leases =
      let (rest_leases, same) = cleanup-AreLeases (i + 1) rest leases.1 in
      ((head (cleaned-cases now lease), rest_leases), ap suc same)
    where
      head :
          (IsCurrent now lease × (cleaned now lease ≡ lease))
            ⊎ (((cleaned now lease).allocated ≡ false) × ((ip : ℕ) → blocks now lease ip ≡ false))
          → (cleaned now lease).allocated ≡ true
          → (cleaned now lease).ip ≡ slot_ip pool_start i
      head (inl (current, same)) e = rw same (leases.0 current.0)
      head (inr (free, more)) e = absurd (cc (sym free ∙ e))

  -- A lease in force in front.
  keep_lease :
      (i : ℕ) (lease : Lease) (rest : List Lease) (ip : ℕ) (rest' : List Lease)
      → IsCurrent now lease
      → lease.ip ≡ slot_ip pool_start i
      → i + suc (length rest) ≤ 2 ^ 32
      → IsAllocated (i + 1) rest (ip, rest')
      → IsAllocated i (lease ∷ rest) (ip, lease ∷ rest')
  unfolding available_loop
  keep_lease i lease rest ip rest' current own le (leases, same, inl (all, none_left, same_table)) =
      (
        ((λ e. own), leases),
        ap suc same,
        inl ((current, all), none_left, ap (λ more. lease ∷ more) same_table),
      )
  keep_lease i lease rest ip rest' current own le
        (leases, same, inr (k, ge, lt, at, before, after)) =
      (
        ((λ e. own), leases),
        ap suc same,
        inr (
          k,
          omega arith,
          omega arith,
          at,
          rw (not_blocked now, before),
          λ t lt. rw (not_blocked t, after t lt),
        ),
      )
    where
      not_blocked : (t : ℕ) → blocks t lease ip ≡ false
      not_blocked t =
          rw
            (
              at,
              own,
              ≢→== (slot_ip pool_start i) (slot_ip pool_start k) (λ e.
                  absurd (
                    omega (arith, slot_ip_injective pool_start i k (omega arith) (omega arith) e))),
            )
            (and_false lease.allocated)

  loop_taken :
      (i : ℕ) (lease : Lease) (rest : List Lease)
      → lease.allocated ≡ true
      → allocate_loop now s i (lease ∷ rest)
        ≡ ((allocate_loop now s (i + 1) rest).0, lease ∷ (allocate_loop now s (i + 1) rest).1)
  unfolding allocate_loop
  loop_taken i lease rest taken = rw (not_free taken)
    where
      not_free : lease.allocated ≡ true → not lease.allocated ≡ false
      not_free e = rw e

  allocate_loop-IsAllocated :
      (i : ℕ) (table : List Lease)
      → AreLeases pool_start i table
      → i + length table ≤ 2 ^ 32
      → IsAllocated i table (allocate_loop now s i (cleanup_loop now table))
  unfolding allocate_loop cleanup_loop available_loop new_lease
  allocate_loop-IsAllocated i [] leases le = (tt, refl, inl (tt, refl, refl))
  allocate_loop-IsAllocated i (lease ∷ rest) leases le = elim (cleaned-cases now lease) [
    | inr (free, unblocked) ↦ rw free (
      ((λ e. refl), (cleanup-AreLeases (i + 1) rest leases.1).0),
      ap suc (cleanup-AreLeases (i + 1) rest leases.1).1,
      inr (
        i,
        omega arith,
        omega arith,
        refl,
        rw (unblocked (slot_ip pool_start i))
            (available_other (i + 1) i rest leases.1 (omega arith) (omega arith)),
        λ t lt. rw (==_refl (slot_ip pool_start i), lt→ltb t (now + 180000) lt),
      ),
    )
    | inl (current, same) ↦
        subst
          (λ c. IsAllocated i (lease ∷ rest) (allocate_loop now s i (c ∷ cleanup_loop now rest)))
          (sym same)
          (subst (IsAllocated i (lease ∷ rest))
            (sym (loop_taken i lease (cleanup_loop now rest) current.0))
            (keep_lease i lease rest _ _ current (leases.0 current.0) (omega arith)
              (allocate_loop-IsAllocated (i + 1) rest leases.1 (omega arith))))
  ]

-- If every allocated lease is for the address of its slot, `get_available_ip` keeps it so. If every
-- lease is in force then it returns 0 and changes nothing; otherwise it returns the address of a
-- slot, for which no lease was in force before, and one is afterwards, for 180000 seconds.
pub get_available_ip-IsAllocated :
    (now : ℕ) (s : Server)
    → AreLeases s.pool_start 0 s.lease_table
    → length s.lease_table ≤ 2 ^ 32
    → let (ip, s') = get_available_ip now s in
      IsAllocated now s 0 s.lease_table (ip, s'.lease_table)
unfolding get_available_ip cleanup_expired_leases
get_available_ip-IsAllocated now s leases le =
    allocate_loop-IsAllocated now (record s { lease_table = cleanup_loop now s.lease_table }) 0
      s.lease_table leases (omega arith)
