-- ===== src/Driver.antt =====
-- `driver_main` of src/driver.c: the frames of a pcap file in place of those of the interfaces.
pub mod Read
pub mod Replay
pub mod Wait
mod Tests
use cs489_router.Prelude.{
  ℕ, zero, suc, ◌+◌, ◌*◌, Option, none, some, List, [], ◌∷◌, ◌++◌, ltb, ◌==◌, if◌then◌else◌, length,
  take, drop, set, read_bytes, write_bytes,
}
use cs489_router.State.{Router, ◌>>=◌}
use cs489_router.Timer.{timer_handler}
use cs489_router.Ethernet.{ethernet_handle, frame_after}
use cs489_router.Stub.{get_u32, pcap_hdr_size, pcaprec_hdr_size}

-- What `rand()` and `timer_gettime` give while the frame of an index is handled.
abbrev pub Environment : Type 0
Environment = ℕ → List ℕ × ℕ

-- `fread` of the captured bytes into the buffer, as many as there are, and the zero behind them.
-- `none`: the length is the buffer's or more, and C writes behind the buffer.
unfoldable pub read_packet : List ℕ → List ℕ → ℕ → Option (List ℕ × List ℕ)
read_packet buffer file incl_len =
    if ltb incl_len (length buffer)
    then some (set (write_bytes buffer 0 (take incl_len file)) incl_len 0, drop incl_len file)
    else none

-- The loop, with `buffer`, `index` and what is left of the file. It ends where no whole header of a
-- record can be read. Each round reads 16 bytes at least, so the length of the file is enough fuel.
unfoldable pub driver_loop : ℕ → Environment → ℕ → List ℕ → List ℕ → Router → Option Router
driver_loop zero env index buffer file r = none
driver_loop (suc fuel) env index buffer file r =
    let incl_len = get_u32 file 8 in
    let round = read_packet buffer (drop pcaprec_hdr_size file) incl_len >>= λ loaded.
    ethernet_handle (env index).0 (env index).1 r loaded.0 0 >>= λ r'.
    driver_loop fuel env (index + 1) (frame_after (env index).0 r loaded.0 0) loaded.1 r' in
    if ltb (length file) pcaprec_hdr_size then some r else round

-- The loop that waits until the delta list is empty, in which only the timer's thread does anything.
-- `none`: it waits for ever.
unfoldable pub wait_loop : ℕ → Router → Option Router
wait_loop zero r = none
wait_loop (suc fuel) r =
    let next = timer_handler r >>= wait_loop fuel in
    if length r.delta_list == 0 then some r else next

-- Two time-outs for each node are enough.
abbrev pub wait_rounds : Router → ℕ
wait_rounds r = suc (2 * length r.delta_list)

-- The rest of `driver_main` once the file is open. `fresh` is what `malloc` finds in the memory of the
-- buffer.
unfoldable pub driver_file : List ℕ → Environment → List ℕ → Router → Option (ℕ × Router)
driver_file fresh env file r =
    let buffer = read_bytes fresh 0 (get_u32 file 16) in
    let run = driver_loop (suc (length file)) env 0 buffer (drop pcap_hdr_size file) r >>= λ r1.
    wait_loop (wait_rounds r1) r1 >>= λ r2. some (0, r2) in
    if ltb (length file) pcap_hdr_size then some (1, r) else run

-- `driver_main`: its return value, and the router. The file is `none` if `fopen` cannot open it.
unfoldable pub driver_main :
    ℕ → Option (List ℕ) → List ℕ → Environment → Router → Option (ℕ × Router)
driver_main argc none fresh env r = some (1, r)
driver_main argc (some file) fresh env r =
    let opened = driver_file fresh env file r in if ltb argc 2 then some (1, r) else opened
