-- ===== src/Dhcp/Exchange.antt =====
-- The exchange of a client with the server: discovery, offer, request, acknowledgement.
use mathlib.Core.Path.{subst}
use cs489_router.Prelude.{
  ℕ, ◌+◌, ◌^◌, ◌<◌, ◌≡◌, ◌∙◌, refl, sym, ap, ap₂, inl, inr, true, false, ◌&&◌, List, [], ◌∷◌, ◌++◌,
  append_assoc, All, ltb, ltb→lt, leb, every, every-lt, arith,
}
use cs489_router.Dhcp.{
  dhcp_discover, dhcp_request, htonl, Server, initial_server, is_ip_in_pool, is_ip_available,
  get_available_ip, cleanup_expired_leases, message_type, extract_requested_ip, offer_packet,
  ack_packet, broadcast, send_dhcp_offer, send_dhcp_ack, handle_dhcp_packet,
}
use cs489_router.Dhcp.Leases.{slot_ip, IsCurrent}
use cs489_router.Dhcp.Messages.{offer_packet-parsed}
use cs489_router.Dhcp.Serve.{
  Datagram, serve, IsServer, initial-IsServer, allocated, get_available_ip-IsServer, serve-IsServer,
}

in_pool_table :
    every 10 (λ k. is_ip_in_pool initial_server (slot_ip initial_server.pool_start k)) ≡ true
unfolding every is_ip_in_pool htonl
in_pool_table = refl

small_table : every 10 (λ k. ltb (slot_ip initial_server.pool_start k) (2 ^ 32)) ≡ true
unfolding every htonl
small_table = refl

is_ip_in_pool_same :
    (s : Server) (ip : ℕ) → IsServer s → is_ip_in_pool s ip ≡ is_ip_in_pool initial_server ip
unfolding is_ip_in_pool
is_ip_in_pool_same s ip server =
    ap₂ (λ (first last : ℕ). leb first ip && leb ip last) server.start_same server.end_same

-- What an offer leaves behind: an address of the pool, which is not available until the lease is
-- over.
record IsOffered (now : ℕ) (s : Server) : Type 0 where
  available : is_ip_available now s (get_available_ip now s).0 ≡ true
  in_pool : is_ip_in_pool (get_available_ip now s).1 (get_available_ip now s).0 ≡ true
  taken :
      (t : ℕ)
      → t < now + 180000
      → is_ip_available t (get_available_ip now s).1 (get_available_ip now s).0 ≡ false
  small : (get_available_ip now s).0 < 2 ^ 32

get_available_ip-IsOffered :
    (now : ℕ) (s : Server) → IsServer s → ¬ All (IsCurrent now) s.lease_table → IsOffered now s
unfolding is_ip_available
get_available_ip-IsOffered now s server room = elim (allocated s server now).2 [
  | inl full ↦ absurd (room full.0)
  | inr slot ↦
      let ip_is = slot.3 ∙ ap (λ (start : ℕ). slot_ip start slot.0) server.start_same in
      record {
        available = slot.4;
        in_pool =
            is_ip_in_pool_same _ _ (get_available_ip-IsServer s server now)
            ∙ ap (is_ip_in_pool initial_server) ip_is
            ∙ every-lt 10 _ slot.0 in_pool_table (omega (arith, slot.2, server.size));
        taken = slot.5;
        small =
            subst (λ (ip : ℕ). ip < 2 ^ 32) (sym ip_is)
              (ltb→lt _ _ (every-lt 10 _ slot.0 small_table (omega (arith, slot.2, server.size))));
      }
]

-- The server after a discovery was answered.
abbrev pub offered : ℕ → Server → List ℕ → Server
offered now s discover =
    broadcast (get_available_ip now s).1 (offer_packet (get_available_ip now s).0 discover)

discover-offered :
    (now : ℕ) (s : Server) (discover : List ℕ) (len : ℕ)
    → message_type discover len ≡ dhcp_discover
    → handle_dhcp_packet now s discover len ≡ offered now s discover
unfolding handle_dhcp_packet send_dhcp_offer
discover-offered now s discover len kind = rw kind

request-acknowledged :
    (now : ℕ) (s : Server) (request : List ℕ) (len ip : ℕ)
    → message_type request len ≡ dhcp_request
    → extract_requested_ip request ≡ ip
    → is_ip_in_pool s ip ≡ true
    → is_ip_available now s ip ≡ false
    → handle_dhcp_packet now s request len ≡ broadcast s (ack_packet ip request)
unfolding handle_dhcp_packet send_dhcp_ack
request-acknowledged now s request len ip kind wanted pool taken = rw (kind, wanted, pool, taken)

sent-broadcast_twice :
    (now : ℕ) (s : Server) (first second : List ℕ)
    → (broadcast (broadcast (get_available_ip now s).1 first) second).sent
      ≡ s.sent ++ (first ∷ second ∷ [])
unfolding get_available_ip cleanup_expired_leases broadcast
sent-broadcast_twice now s first second = append_assoc s.sent (first ∷ []) (second ∷ [])

-- What comes of the exchange: an address that was available, one of the pool, and the two replies.
abbrev pub IsServed : ℕ → Server → List ℕ → List ℕ → Server → Type 0
IsServed now s discover request s' =
    (ip : ℕ) × (is_ip_available now s ip ≡ true)
    × (is_ip_in_pool s' ip ≡ true)
    × (s'.sent ≡ s.sent ++ (offer_packet ip discover ∷ ack_packet ip request ∷ []))

exchange :
    (now later : ℕ) (s : Server) (discover request : List ℕ) (len' : ℕ)
    → IsServer s
    → ¬ All (IsCurrent now) s.lease_table
    → message_type request len' ≡ dhcp_request
    → extract_requested_ip request
      ≡ extract_requested_ip (offer_packet (get_available_ip now s).0 discover)
    → later < now + 180000
    → IsServed now s discover request
        (handle_dhcp_packet later (offered now s discover) request len')
unfolding broadcast is_ip_in_pool is_ip_available
exchange now later s discover request len' server room kind wanted soon =
    rw acknowledged
      ((get_available_ip now s).0, offer.available, offer.in_pool, sent-broadcast_twice now s _ _)
  where
    offer : IsOffered now s
    offer = get_available_ip-IsOffered now s server room

    acknowledged :
        handle_dhcp_packet later (offered now s discover) request len'
        ≡ broadcast (offered now s discover) (ack_packet (get_available_ip now s).0 request)
    acknowledged =
        request-acknowledged later (offered now s discover) request len' (get_available_ip now s).0
          kind (wanted ∙ (offer_packet-parsed (get_available_ip now s).0 discover offer.small).1)
          offer.in_pool (offer.taken later soon)

-- After whatever messages the server has handled, if a lease is free or over when a client's
-- discovery comes, then the server broadcasts an offer of an address for which no lease is in force;
-- and if the client requests the address that it reads from the offer, within 180000 seconds and
-- before other messages, then the server broadcasts an acknowledgement of this address, which is in
-- the pool.
pub handle_dhcp_packet-exchange :
    (buffer : List ℕ) (earlier : List Datagram) (now later : ℕ) (discover request : List ℕ)
    (len len' : ℕ)
    → let s = serve buffer earlier initial_server in
      ¬ All (IsCurrent now) s.lease_table
      → message_type discover len ≡ dhcp_discover
      → message_type request len' ≡ dhcp_request
      → let s = serve buffer earlier initial_server in
        extract_requested_ip request
          ≡ extract_requested_ip (offer_packet (get_available_ip now s).0 discover)
        → later < now + 180000
        → let s = serve buffer earlier initial_server in
          IsServed now s discover request
            (handle_dhcp_packet later (handle_dhcp_packet now s discover len) request len')
handle_dhcp_packet-exchange buffer earlier now later discover request len len' room kind kind'
      wanted soon =
    rw (discover-offered now s discover len kind) (
      exchange now later s discover request len'
        (serve-IsServer buffer earlier initial_server initial-IsServer) room kind' wanted soon)
  where
    s : Server
    s = serve buffer earlier initial_server
