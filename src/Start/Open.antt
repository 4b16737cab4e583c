-- ===== src/Start/Open.antt =====
-- The first part of `thread_start` of src/main.c: the thread opens its interface, and waits until
-- the other threads have opened theirs.
use cs489_router.Prelude.{
  ℕ, zero, suc, ◌*◌, ◌%◌, ◌^◌, ◌<◌, ◌≡◌, ◌≢◌, refl, ap, ◌∙◌, inl, inr, Bool, true, false, Option,
  none, some, List, [], ◌∷◌, ◌==◌, if◌then◌else◌, length, set, get_or, get_or-set_self, length-set,
  Bool-cases, arith,
}
use cs489_router.Interfaces.{InterfaceConfig, no_config, interface_get_config}

-- The thread returned because something failed, or waits with its interface's descriptor set.
pub data ThreadStart : Type 0 where
  returned : ThreadStart
  waits : List InterfaceConfig → ThreadStart

-- `fd` has 5 bits.
unfoldable pub set_fd : List InterfaceConfig → ℕ → ℕ → List InterfaceConfig
set_fd arr int_id sockfd =
    set arr int_id (record (interface_get_config arr int_id) { fd = sockfd % 2 ^ 5 })

-- `sockfd` is what `socket` returns, if that is not negative, and `bound` whether `bind` succeeds.
unfoldable pub open_interface : List InterfaceConfig → ℕ → Option ℕ → Bool → ThreadStart
open_interface arr int_id none bound = returned
open_interface arr int_id (some sockfd) false = returned
open_interface arr int_id (some sockfd) true = waits (set_fd arr int_id sockfd)

-- Whether the loop over the interfaces, which waits for each descriptor that is zero, comes to its
-- end.
unfoldable pub all_open : List InterfaceConfig → Bool
all_open [] = true
all_open (config ∷ rest) = let later = all_open rest in if config.fd == 0 then false else later

all_open-at :
    (arr : List InterfaceConfig) (i : ℕ)
    → i < length arr
    → all_open arr ≡ true
    → (get_or arr i no_config).fd ≢ 0
unfolding all_open
all_open-at [] i lt passed e = absurd (omega arith)
all_open-at (config ∷ rest) zero lt passed e = absurd (ground (arith, passed, e))
all_open-at (config ∷ rest) (suc i) lt passed e =
    all_open-at rest i (omega arith) (ground (arith, passed)) e

-- A descriptor that is a multiple of 32 is stored as zero, and the threads wait for ever.
pub open_interface-waits :
    (arr : List InterfaceConfig) (int_id k : ℕ)
    → int_id < length arr
    → (arr' : List InterfaceConfig) × (open_interface arr int_id (some (k * 32)) true ≡ waits arr')
      × (all_open arr' ≡ false)
unfolding open_interface set_fd
open_interface-waits arr int_id k lt = (
  set arr int_id opened,
  refl,
  elim (Bool-cases (all_open (set arr int_id opened))) [
    | inr blocked ↦ blocked
    | inl passed ↦ absurd (
        all_open-at (set arr int_id opened) int_id (omega (arith, lt, length-set arr int_id opened))
          passed
          (ap (λ (c : InterfaceConfig). c.fd) (get_or-set_self arr int_id opened no_config lt)
            ∙ omega arith))
  ],
)
  where
    opened : InterfaceConfig
    opened = record (interface_get_config arr int_id) { fd = k * 32 % 2 ^ 5 }
