-- ===== src/Dhcp/Pool.antt =====
-- The test for the pool's addresses, which compares them as the host reads them.
use cs489_router.Prelude.{ℕ, ◌<◌, ◌≡◌, true, arith}
use cs489_router.Dhcp.{initial_server, s_addr, is_ip_in_pool}

-- `is_ip_in_pool` accepts every address whose last byte lies strictly between those of the first and
-- the last address of the initial pool, 192.168.1.100 and 192.168.1.110, whatever its network is.
pub is_ip_in_pool-foreign :
    (a b c d : ℕ)
    → a < 256
    → b < 256
    → c < 256
    → 100 < d
    → d < 110
    → is_ip_in_pool initial_server (s_addr a b c d) ≡ true
unfolding is_ip_in_pool s_addr
is_ip_in_pool-foreign a b c d ha hb hc low high = ground arith
