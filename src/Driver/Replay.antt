-- ===== src/Driver/Replay.antt =====
-- The driver on a file of the stub's making.
use cs489_router.Prelude.{
  none, inl, inr, Bool-cases, htons, ◌==◌, ℕ, zero, suc, ◌+◌, ◌^◌, ◌<◌, ◌≤◌, ◌≡◌, refl, ◌∙◌, false,
  Option, some, List, [], ◌∷◌, ◌++◌, ltb, length, length-set, drop, All, read_bytes,
  length-read_bytes, write_bytes, length-write_bytes, get_u16, arith,
}
use cs489_router.State.{Packet, Router, ◌>>=◌}
use cs489_router.Ethernet.{
  ethertype_ipv4, header_size, rewritten_frame, ethernet_handle, frame_after,
}
use cs489_router.Stub.{
  u32_bytes, get_u32, pcap_hdr_size, pcaprec_hdr_size, pcap_hdr_bytes, pkt_record,
}
use cs489_router.Stub.Writes.{records, capture}
use cs489_router.Driver.{Environment, driver_loop, wait_loop, wait_rounds, driver_file, driver_main}
use cs489_router.Driver.Read.{
  loaded, read_packet-record, length-record, drop-record, get_u32-record,
}

-- The packets one after the other, each in the buffer over what `ethernet_handle` left there of those
-- before it.
unfoldable pub replay : Environment → ℕ → List ℕ → List (List ℕ) → Router → Option Router
replay env index buffer [] r = some r
replay env index buffer (pkt ∷ pkts) r =
    ethernet_handle (env index).0 (env index).1 r (loaded buffer pkt) 0 >>= λ r'.
    replay env (index + 1) (frame_after (env index).0 r (loaded buffer pkt) 0) pkts r'

length-rewritten_frame :
    (frame : List ℕ) (o : Option (Router × Packet))
    → length (rewritten_frame frame o) ≡ length frame
unfolding rewritten_frame
length-rewritten_frame frame none = refl
length-rewritten_frame frame (some (r, pkt)) = length-write_bytes frame header_size pkt

length-frame_after :
    (rands : List ℕ) (r : Router) (frame : List ℕ) (int_id : ℕ)
    → length (frame_after rands r frame int_id) ≡ length frame
unfolding frame_after
length-frame_after rands r frame int_id =
    elim (Bool-cases (htons (get_u16 frame 12) == ethertype_ipv4)) [
      | inl ipv4 ↦ rw ipv4 (length-rewritten_frame frame _)
      | inr other ↦ rw other refl
    ]

length-loaded : (buffer pkt : List ℕ) → length (loaded buffer pkt) ≡ length buffer
length-loaded buffer pkt =
    length-set (write_bytes buffer 0 pkt) (length pkt) 0 ∙ length-write_bytes buffer 0 pkt

abbrev pub Fits : ℕ → List ℕ → Type 0
Fits snaplen pkt = length pkt < snaplen

driver_loop-replay :
    (fuel : ℕ) (env : Environment) (index snaplen : ℕ) (buffer : List ℕ) (pkts : List (List ℕ))
    (r : Router)
    → length (records pkts) < fuel
    → length buffer ≡ snaplen
    → snaplen < 2 ^ 32
    → All (Fits snaplen) pkts
    → driver_loop fuel env index buffer (records pkts) r ≡ replay env index buffer pkts r
unfolding driver_loop replay records
driver_loop-replay zero env index snaplen buffer pkts r enough size small fit = absurd (omega arith)
driver_loop-replay (suc fuel) env index snaplen buffer [] r enough size small fit = refl
driver_loop-replay (suc fuel) env index snaplen buffer (pkt ∷ pkts) r enough size small fit =
    rw
      (
        whole,
        get_u32-record pkt (records pkts) (omega (arith, fit.0)),
        drop-record pkt (records pkts),
        read_packet-record buffer pkt (records pkts) (omega (arith, fit.0, size)),
      )
      (λ i. ethernet_handle (env index).0 (env index).1 r (loaded buffer pkt) 0 >>= λ r'.
        driver_loop-replay fuel env (index + 1) snaplen
          (frame_after (env index).0 r (loaded buffer pkt) 0) pkts r'
          (omega (arith, enough, length-record pkt (records pkts)))
          (length-frame_after (env index).0 r (loaded buffer pkt) 0
            ∙ length-loaded buffer pkt
            ∙ size)
          small fit.1 i)
  where
    whole : ltb (length (pkt_record pkt (length pkt) ++ records pkts)) pcaprec_hdr_size ≡ false
    whole = ground (arith, length-record pkt (records pkts))

-- The number of bytes that the stub's header announces.
abbrev pub stub_snaplen : ℕ
stub_snaplen = 65535

get_u32-capture : (pkts : List (List ℕ)) → get_u32 (capture pkts) 16 ≡ stub_snaplen
unfolding pcap_hdr_bytes u32_bytes get_u32 get_u16
get_u32-capture pkts = refl

drop-capture : (pkts : List (List ℕ)) → drop pcap_hdr_size (capture pkts) ≡ records pkts
unfolding pcap_hdr_bytes u32_bytes
drop-capture pkts = refl

length-capture : (pkts : List (List ℕ)) → length (capture pkts) ≡ 24 + length (records pkts)
unfolding pcap_hdr_bytes u32_bytes
length-capture pkts = omega arith

-- On a file with a header and records as the stub writes them, of packets of less than 65535 bytes,
-- `driver_main` hands each packet to `ethernet_handle`, in order and as received on interface 0, with
-- a zero behind it and then what the buffer still holds of the earlier packets, as the handlers
-- rewrote them, and then waits for the timer.
pub driver_main-replay :
    (argc : ℕ) (pkts : List (List ℕ)) (fresh : List ℕ) (env : Environment) (r : Router)
    → 2 ≤ argc
    → All (Fits stub_snaplen) pkts
    → driver_main argc (some (capture pkts)) fresh env r ≡ (
        replay env 0 (read_bytes fresh 0 stub_snaplen) pkts r >>= λ r1.
        wait_loop (wait_rounds r1) r1 >>= λ r2. some (0, r2))
unfolding driver_main driver_file
driver_main-replay argc pkts fresh env r args fit = rw (
  enough_args,
  whole,
  get_u32-capture pkts,
  drop-capture pkts,
  driver_loop-replay (suc (length (capture pkts))) env 0 stub_snaplen
      (read_bytes fresh 0 stub_snaplen) pkts r (omega (arith, length-capture pkts))
      (length-read_bytes fresh 0 stub_snaplen) (omega arith) fit,
)
  where
    enough_args : ltb argc 2 ≡ false
    enough_args = ground (arith, args)

    whole : ltb (length (capture pkts)) pcap_hdr_size ≡ false
    whole = ground (arith, length-capture pkts)
