-- ===== src/State.antt =====
-- The state that the packet handlers share, as globals of the program: the interfaces and the WAN
-- (src/interfaces.c), the hardware addresses (src/devices.c), the delta list and the timer
-- (src/timer.c), and the two tables of the address translation (src/ipv4.c). `sent` and `dropped`
-- record the effects: what was written to the interfaces' sockets, and the packets that were freed
-- without being sent.
use cs489_router.Prelude.{ℕ, Option, none, some, List, [], ◌∷◌, ◌++◌}
use cs489_router.Address.{IpAddr}
use cs489_router.Interfaces.{InterfaceConfig, Wan}
use cs489_router.Devices.{IpMacPair, IpMacMap}
use cs489_router.Hashmap.{Hashmap}

-- A packet is the bytes from its IPv4 header on.
abbrev pub Packet : Type 0
Packet = List ℕ

-- `struct delta_node`: a destination whose hardware address is asked for, the packets that wait
-- for it, and the milliseconds after the node before it at which its time is up.
pub record DeltaNode : Type 0 where
  pub msec : ℕ
  pub ip_addr : IpAddr
  pub pkt_list : List Packet
  pub retry_amt : ℕ

-- The value that `timer_settime` was last given; two zeros disarm the timer.
pub record TimerValue : Type 0 where
  pub tv_sec : ℕ
  pub tv_nsec : ℕ

abbrev pub disarmed : TimerValue
disarmed = record { tv_sec = 0; tv_nsec = 0 }

-- One call of `write`: the interface whose descriptor it is for, and the Ethernet frame.
pub record Frame : Type 0 where
  pub int_id : ℕ
  pub bytes : List ℕ

pub record Router : Type 0 where
  pub interfaces : List InterfaceConfig
  pub wan : Wan
  pub devices : IpMacMap
  pub fresh_pair : IpMacPair
  pub delta_list : List DeltaNode
  pub timer : TimerValue
  pub napt_extern : Hashmap
  pub napt_intern : Hashmap
  pub sent : List Frame
  pub dropped : List Packet

-- `none` is a step that C leaves undefined, such as the use of a variable that was never set, or
-- one that never returns.
infixl 5 ◌>>=◌
abbrev pub ◌>>=◌ {ℓ κ} :
    {From : Type ℓ} {To : Type κ} → Option From → (From → Option To) → Option To
some result >>= step = step result
none >>= step = none

-- A result that is fine if there is one.
abbrev pub OnSuccess {ℓ} : {A : Type ℓ} → (A → Type 0) → Option A → Type 0
OnSuccess Good none = Unit
OnSuccess Good (some a) = Good a

module _ {ℓ κ} {From : Type ℓ} {To : Type κ} where
  pub bind-OnSuccess :
      (Before : From → Type 0) (After : To → Type 0) (o : Option From) (step : From → Option To)
      → OnSuccess Before o
      → ((a : From) → Before a → OnSuccess After (step a))
      → OnSuccess After (o >>= step)
  bind-OnSuccess Before After none step h next = tt
  bind-OnSuccess Before After (some a) step h next = next a h

  pub any-OnSuccess :
      (After : To → Type 0) (o : Option From) (step : From → Option To)
      → ((a : From) → OnSuccess After (step a))
      → OnSuccess After (o >>= step)
  any-OnSuccess After none step next = tt
  any-OnSuccess After (some a) step next = next a

unfoldable pub emit : Router → ℕ → List ℕ → Router
emit r int_id bytes = record r { sent = r.sent ++ (record { int_id = int_id; bytes = bytes } ∷ []) }
