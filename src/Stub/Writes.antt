-- ===== src/Stub/Writes.antt =====
-- The files that the stub leaves.
use cs489_router.Prelude.{ℕ, ◌≡◌, refl, ap, sym, List, [], ◌∷◌, ◌++◌, append-nil, length}
use cs489_router.Stub.{pcap_hdr_bytes, stub_hdr, pkt_record, Captures, stub_init, stub_write_pkt}

-- A file with a record for each packet.
unfoldable pub records : List (List ℕ) → List ℕ
records [] = []
records (pkt ∷ pkts) = pkt_record pkt (length pkt) ++ records pkts

abbrev pub capture : List (List ℕ) → List ℕ
capture pkts = pcap_hdr_bytes stub_hdr ++ records pkts

-- The first packet that is written gives a file with a header and its record.
pub first-capture :
    (files : Captures) (pkt : List ℕ)
    → (stub_write_pkt (stub_init files) pkt (length pkt)).out2 ≡ capture (pkt ∷ [])
unfolding stub_init stub_write_pkt records
first-capture files pkt =
    ap (λ more. pcap_hdr_bytes stub_hdr ++ more) (sym (append-nil (pkt_record pkt (length pkt))))

-- A second packet takes the place of the file: what is left is its record, without a header.
pub second-record :
    (files : Captures) (pkt next : List ℕ) (size next_size : ℕ)
    → (stub_write_pkt (stub_write_pkt files pkt size) next next_size).out2
      ≡ pkt_record next next_size
unfolding stub_write_pkt
second-record files pkt next size next_size = refl
