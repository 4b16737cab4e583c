-- ===== src/Interfaces/Default.antt =====
-- A default route: with it, `get_interface_for_ip` finds an interface for every address.
use Prim.Native.Nat.{bit_and-bitwise}
use cs489_router.Prelude.{
  ℕ, ◌+◌, ◌≡◌, refl, inl, inr, true, bit_and, Option, none, some, List, [], ◌∷◌, leb, Bool-cases,
}
use cs489_router.Address.{IpAddr, zero_ip, ip_addr_equals, apply_mask, create_subnet_mask}
use cs489_router.Interfaces.{InterfaceConfig, route_loop, get_interface_for_ip}

-- Every address matches 0.0.0.0/0.
pub data HasDefault : List InterfaceConfig → Type 0 where
  here :
      {config : InterfaceConfig} {rest : List InterfaceConfig}
      → config.cidr_prefix_len ≡ 0
      → config.network_ip ≡ zero_ip
      → HasDefault (config ∷ rest)
  behind :
      {config : InterfaceConfig} {rest : List InterfaceConfig}
      → HasDefault rest
      → HasDefault (config ∷ rest)

abbrev IsFound : Option ℕ → Type 0
IsFound o = (int_id : ℕ) × (o ≡ some int_id)

pub zero_and : (b : ℕ) → bit_and 0 b ≡ 0
zero_and b = λ i. bit_and-bitwise 0 b i

default_matches :
    (ip : IpAddr) → ip_addr_equals (apply_mask (create_subnet_mask 0) ip) zero_ip ≡ true
unfolding apply_mask create_subnet_mask ip_addr_equals
default_matches ip = rw (zero_and ip.b0, zero_and ip.b1, zero_and ip.b2, zero_and ip.b3)

route_loop-some :
    (arr : List InterfaceConfig) (i j highest : ℕ) (ip : IpAddr)
    → IsFound (route_loop arr i (some j) highest ip)
unfolding route_loop
route_loop-some [] i j highest ip = (j, refl)
route_loop-some (config ∷ rest) i j highest ip =
    elim (Bool-cases (leb (config.cidr_prefix_len + 128) highest)) [
      | inl shorter ↦ rw shorter (route_loop-some rest (i + 1) j highest ip)
      | inr longer ↦
          rw longer
            (elim (Bool-cases (
              ip_addr_equals (apply_mask (create_subnet_mask config.cidr_prefix_len) ip)
                config.network_ip)) [
                  | inl same ↦ rw same (route_loop-some rest (i + 1) i _ ip)
                  | inr differ ↦ rw differ (route_loop-some rest (i + 1) j highest ip)
                ])
    ]

route_loop-default :
    (arr : List InterfaceConfig) (i : ℕ) (ip : IpAddr)
    → HasDefault arr
    → IsFound (route_loop arr i none 127 ip)
unfolding route_loop
route_loop-default [] i ip default = elim default [ ]
route_loop-default (config ∷ rest) i ip (here length network) =
    rw (length, network, default_matches ip) (route_loop-some rest (i + 1) i _ ip)
route_loop-default (config ∷ rest) i ip (behind later) =
    elim (Bool-cases (leb (config.cidr_prefix_len + 128) 127)) [
      | inl shorter ↦ rw shorter (route_loop-default rest (i + 1) ip later)
      | inr longer ↦
          rw longer
            (elim (Bool-cases (
              ip_addr_equals (apply_mask (create_subnet_mask config.cidr_prefix_len) ip)
                config.network_ip)) [
                  | inl same ↦ rw same (route_loop-some rest (i + 1) i _ ip)
                  | inr differ ↦ rw differ (route_loop-default rest (i + 1) ip later)
                ])
    ]

pub get_interface_for_ip-default :
    (arr : List InterfaceConfig) (ip : IpAddr)
    → HasDefault arr
    → (int_id : ℕ) × (get_interface_for_ip arr ip ≡ some int_id)
unfolding get_interface_for_ip
get_interface_for_ip-default arr ip default = route_loop-default arr 0 ip default
