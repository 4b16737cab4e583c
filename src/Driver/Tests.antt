-- ===== src/Driver/Tests.antt =====
-- The driver on the packets of src/testcases.c, and on a datagram that waits.
use cs489_router.Prelude.{◌≡◌, some, [], ◌∷◌, read_bytes, write_bytes, set_u16, arith}
use cs489_router.State.{◌>>=◌}
use cs489_router.Sample.{idle}
use cs489_router.Stub.{test_pkt, test_pkt_arp}
use cs489_router.Driver.{wait_loop, wait_rounds, driver_main}
use cs489_router.Stub.Writes.{capture}
use cs489_router.Driver.Replay.{replay, stub_snaplen, driver_main-replay}

driver_main-replay_example :
    driver_main 2 (some (capture (test_pkt ∷ test_pkt_arp ∷ []))) [] (λ index. (0 ∷ [], 1)) idle ≡ (
      replay
        (λ index. (0 ∷ [], 1))
        0
        (read_bytes [] 0 stub_snaplen)
        (test_pkt ∷ test_pkt_arp ∷ [])
        idle
      >>= λ r1. wait_loop (wait_rounds r1) r1 >>= λ r2. some (0, r2))
unfolding test_pkt test_pkt_arp set_u16 write_bytes
driver_main-replay_example =
    driver_main-replay 2 (test_pkt ∷ test_pkt_arp ∷ []) [] (λ index. (0 ∷ [], 1)) idle (omega arith)
      (omega arith, (omega arith, tt))
