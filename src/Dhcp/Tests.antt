-- ===== src/Dhcp/Tests.antt =====
-- The server at concrete times.
use cs489_router.Prelude.{
  ℕ, ◌≡◌, refl, sym, ap, ◌∙◌, inl, true, arith, length, List, [], ◌∷◌, ◌++◌, replicate,
}
use cs489_router.Dhcp.{
  initial_server, s_addr, is_ip_in_pool, get_available_ip, htonl, new_lease, allocate_loop,
  cleanup_loop, cleanup_expired_leases, dhcp_offer, dhcp_ack, message_type, extract_requested_ip,
  offer_packet, ack_packet, handle_dhcp_packet, broadcast, option_loop, dhcp_discover, dhcp_request,
}
use cs489_router.Dhcp.Leases.{AreLeases, IsAllocated, get_available_ip-IsAllocated}
use cs489_router.Dhcp.Serve.{serve}
use cs489_router.Dhcp.Exchange.{IsServed, handle_dhcp_packet-exchange}
use cs489_router.Dhcp.Refusal.{handle_dhcp_packet-refusal}
use cs489_router.Dhcp.Messages.{offer_packet-parsed, ack_packet-parsed}
use cs489_router.Dhcp.Pool.{is_ip_in_pool-foreign}

no_leases : AreLeases initial_server.pool_start 0 initial_server.lease_table
no_leases = grind arith

-- The first address is the start of the pool.
first_address : (get_available_ip 1000 initial_server).0 ≡ s_addr 192 168 1 100
unfolding get_available_ip cleanup_expired_leases cleanup_loop allocate_loop new_lease htonl s_addr
first_address = refl

get_available_ip-IsAllocated_example :
    IsAllocated 1000 initial_server 0 initial_server.lease_table (
      (get_available_ip 1000 initial_server).0,
      (get_available_ip 1000 initial_server).1.lease_table,
    )
get_available_ip-IsAllocated_example =
    get_available_ip-IsAllocated 1000 initial_server no_leases (omega arith)

-- 10.0.0.105
is_ip_in_pool-foreign_example : is_ip_in_pool initial_server (s_addr 10 0 0 105) ≡ true
is_ip_in_pool-foreign_example =
    is_ip_in_pool-foreign 10 0 0 105 (omega arith) (omega arith) (omega arith) (omega arith)
      (omega arith)

-- A discovery with one option.
abbrev discover : List ℕ
discover = replicate 240 1 ++ (53 ∷ 1 ∷ 1 ∷ 255 ∷ [])

offer_packet-parsed_example :
    (message_type
        (offer_packet (s_addr 192 168 1 100) discover)
        (length (offer_packet (s_addr 192 168 1 100) discover))
      ≡ dhcp_offer)
    × (extract_requested_ip (offer_packet (s_addr 192 168 1 100) discover) ≡ s_addr 192 168 1 100)
offer_packet-parsed_example =
    offer_packet-parsed (s_addr 192 168 1 100) discover (unfold s_addr in omega arith)

ack_packet-parsed_example :
    (message_type
        (ack_packet (s_addr 192 168 1 100) discover)
        (length (ack_packet (s_addr 192 168 1 100) discover))
      ≡ dhcp_ack)
    × (extract_requested_ip (ack_packet (s_addr 192 168 1 100) discover) ≡ s_addr 192 168 1 100)
ack_packet-parsed_example =
    ack_packet-parsed (s_addr 192 168 1 100) discover (unfold s_addr in omega arith)

-- A request for the first address of the pool, and one for 10.0.0.1.
abbrev request : List ℕ
request = replicate 240 1 ++ (53 ∷ 1 ∷ 3 ∷ 50 ∷ 4 ∷ 192 ∷ 168 ∷ 1 ∷ 100 ∷ 255 ∷ [])

abbrev foreign_request : List ℕ
foreign_request = replicate 240 1 ++ (53 ∷ 1 ∷ 3 ∷ 50 ∷ 4 ∷ 10 ∷ 0 ∷ 0 ∷ 1 ∷ 255 ∷ [])

type_of :
    (message_type discover 244 ≡ dhcp_discover)
    × (message_type request 250 ≡ dhcp_request)
    × (message_type foreign_request 250 ≡ dhcp_request)
unfolding message_type option_loop
type_of = (refl, refl, refl)

handle_dhcp_packet-refusal_example :
    (packet : List ℕ) × (handle_dhcp_packet 1000 initial_server foreign_request 250
      ≡ broadcast initial_server packet)
    × (message_type packet (length packet) ≡ dhcp_request)
unfolding option_loop extract_requested_ip is_ip_in_pool
handle_dhcp_packet-refusal_example =
    handle_dhcp_packet-refusal 1000 initial_server foreign_request 250 240 type_of.2 refl
      (omega arith) (inl refl)

wants_offer :
    extract_requested_ip request
    ≡ extract_requested_ip (offer_packet (get_available_ip 1000 initial_server).0 discover)
unfolding option_loop extract_requested_ip s_addr
wants_offer =
    sym (offer_packet-parsed (s_addr 192 168 1 100) discover (omega arith)).1
    ∙ ap (λ (ip : ℕ). extract_requested_ip (offer_packet ip discover)) (sym first_address)

handle_dhcp_packet-exchange_example :
    IsServed 1000 initial_server discover request
      (handle_dhcp_packet 1001 (handle_dhcp_packet 1000 initial_server discover 244) request 250)
unfolding serve
handle_dhcp_packet-exchange_example =
    handle_dhcp_packet-exchange [] [] 1000 1001 discover request 244 250
      (λ all. absurd (cc all.0.0)) type_of.0 type_of.1 wants_offer (omega arith)
