-- ===== src/Dhcp/Serve.antt =====
-- The loop of `dhcp_server_start` in src/dhcp.c, and what stays true of the lease table in it.
use mathlib.Core.Path.{subst}
use cs489_router.Prelude.{
  ℕ, ◌≡◌, ◌∙◌, sym, refl, Bool, true, false, List, [], ◌∷◌, ltb, ◌==◌, if◌then◌else◌, length,
  write_bytes, arith,
}
use cs489_router.Dhcp.{
  max_leases, dhcp_discover, dhcp_request, Server, initial_server, get_available_ip,
  cleanup_expired_leases, message_type, broadcast, send_dhcp_offer, send_dhcp_ack, send_dhcp_nak,
  handle_dhcp_packet,
}
use cs489_router.Dhcp.Leases.{AreLeases, IsAllocated, get_available_ip-IsAllocated}

-- A message that `recvfrom` gives, and the time when it is handled.
pub record Datagram : Type 0 where
  pub now : ℕ
  pub bytes : List ℕ

-- `recvfrom` writes over the first bytes of the buffer, which keeps the rest of earlier messages.
unfoldable pub serve : List ℕ → List Datagram → Server → Server
serve buffer [] s = s
serve buffer (datagram ∷ later) s =
    let buffer' = write_bytes buffer 0 datagram.bytes in
    let recv_len = length datagram.bytes in
    let handled = handle_dhcp_packet datagram.now s buffer' recv_len in
    serve buffer' later (if ltb 0 recv_len then handled else s)

-- The pool is the initial one, and each allocated lease is for the address of its slot.
pub record IsServer (s : Server) : Type 0 where
  pub start_same : s.pool_start ≡ initial_server.pool_start
  pub end_same : s.pool_end ≡ initial_server.pool_end
  pub size : length s.lease_table ≡ max_leases
  pub leases : AreLeases s.pool_start 0 s.lease_table

pub initial-IsServer : IsServer initial_server
initial-IsServer = record { start_same = refl; end_same = refl; size = refl; leases = grind arith }

module _ (s : Server) (server : IsServer s) where
  broadcast-IsServer : (packet : List ℕ) → IsServer (broadcast s packet)
  unfolding broadcast
  broadcast-IsServer packet = record {
    start_same = server.start_same;
    end_same = server.end_same;
    size = server.size;
    leases = server.leases;
  }

  pub allocated :
      (now : ℕ)
      → IsAllocated now s 0 s.lease_table
          ((get_available_ip now s).0, (get_available_ip now s).1.lease_table)
  allocated now = get_available_ip-IsAllocated now s server.leases (omega (arith, server.size))

  pub get_available_ip-IsServer : (now : ℕ) → IsServer (get_available_ip now s).1
  get_available_ip-IsServer now = record {
    start_same = pools.0 ∙ server.start_same;
    end_same = pools.1 ∙ server.end_same;
    size = (allocated now).1 ∙ server.size;
    leases =
        subst (λ p. AreLeases p 0 (get_available_ip now s).1.lease_table) (sym pools.0)
          (allocated now).0;
  }
    where
      pools :
          ((get_available_ip now s).1.pool_start ≡ s.pool_start)
          × ((get_available_ip now s).1.pool_end ≡ s.pool_end)
      pools = unfold get_available_ip cleanup_expired_leases in (refl, refl)

-- A test for which the two results are servers.
either-IsServer :
    (b : Bool) (s s' : Server) → IsServer s → IsServer s' → IsServer (if b then s else s')
either-IsServer true s s' server server' = server
either-IsServer false s s' server server' = server'

pub handle_dhcp_packet-IsServer :
    (now : ℕ) (s : Server) (buffer : List ℕ) (recv_len : ℕ)
    → IsServer s
    → IsServer (handle_dhcp_packet now s buffer recv_len)
unfolding handle_dhcp_packet send_dhcp_offer send_dhcp_ack send_dhcp_nak
handle_dhcp_packet-IsServer now s buffer recv_len server =
    either-IsServer (message_type buffer recv_len == dhcp_discover) _ _
      (broadcast-IsServer (get_available_ip now s).1 (get_available_ip-IsServer s server now) _)
      (either-IsServer (message_type buffer recv_len == dhcp_request) _ s
        (either-IsServer _ _ _ (broadcast-IsServer s server _) (broadcast-IsServer s server _))
        server)

pub serve-IsServer :
    (buffer : List ℕ) (datagrams : List Datagram) (s : Server)
    → IsServer s
    → IsServer (serve buffer datagrams s)
unfolding serve
serve-IsServer buffer [] s server = server
serve-IsServer buffer (datagram ∷ later) s server =
    serve-IsServer (write_bytes buffer 0 datagram.bytes) later _ (
      either-IsServer (ltb 0 (length datagram.bytes)) _ s
        (handle_dhcp_packet-IsServer datagram.now s (write_bytes buffer 0 datagram.bytes)
          (length datagram.bytes) server)
        server)
