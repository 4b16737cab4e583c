-- ===== src/Stub.antt =====
-- src/stub.c and include/stub.h, which write packets into a pcap file, and src/testcases.c, which
-- makes two of them.
pub mod Writes
use cs489_router.Prelude.{
  ℕ, ◌+◌, ◌*◌, ◌/◌, ◌%◌, ◌^◌, List, [], ◌∷◌, ◌++◌, replicate, set, byte_at, get_u16, read_bytes,
  write_bytes, set_u16, htons,
}
use cs489_router.Address.{IpAddr, MacAddr}
use cs489_router.Devices.{IpMacPair, IpMacMap, update_ip_mac_pair}
use cs489_router.Arp.{ip_bytes, mac_bytes, u16_bytes}

-- A `uint32_t` in the memory of the little-endian host.
unfoldable pub u32_bytes : ℕ → List ℕ
u32_bytes v = u16_bytes (v % 2 ^ 16) ++ u16_bytes (v / 2 ^ 16)

unfoldable pub get_u32 : List ℕ → ℕ → ℕ
get_u32 mem off = get_u16 mem off + get_u16 mem (off + 2) * 2 ^ 16

-- `pcap_hdr_t`
pub record PcapHdr : Type 0 where
  pub magic_number : ℕ
  pub version_major : ℕ
  pub version_minor : ℕ
  pub thiszone : ℕ
  pub sigfigs : ℕ
  pub snaplen : ℕ
  pub network : ℕ

-- `pcaprec_hdr_t`
pub record PcaprecHdr : Type 0 where
  pub ts_sec : ℕ
  pub ts_usec : ℕ
  pub incl_len : ℕ
  pub orig_len : ℕ

abbrev pub pcap_hdr_size : ℕ
pcap_hdr_size = 24

abbrev pub pcaprec_hdr_size : ℕ
pcaprec_hdr_size = 16

unfoldable pub pcap_hdr_bytes : PcapHdr → List ℕ
pcap_hdr_bytes h =
    u32_bytes h.magic_number
    ++ (u16_bytes h.version_major
        ++ (u16_bytes h.version_minor
            ++ (u32_bytes h.thiszone
                ++ (u32_bytes h.sigfigs ++ (u32_bytes h.snaplen ++ u32_bytes h.network)))))

unfoldable pub pcaprec_hdr_bytes : PcaprecHdr → List ℕ
pcaprec_hdr_bytes h =
    u32_bytes h.ts_sec ++ (u32_bytes h.ts_usec ++ (u32_bytes h.incl_len ++ u32_bytes h.orig_len))

-- The header that `stub_init` writes.
abbrev pub stub_hdr : PcapHdr
stub_hdr = record {
  magic_number = 0xa1b2c3d4;
  version_major = 2;
  version_minor = 4;
  thiszone = 0;
  sigfigs = 0;
  snaplen = 65535;
  network = 1;
}

-- What `stub_write_pkt` writes for a packet.
unfoldable pub pkt_record : List ℕ → ℕ → List ℕ
pkt_record ptr size =
    pcaprec_hdr_bytes (record { ts_sec = 0; ts_usec = 0; incl_len = size; orig_len = size })
    ++ read_bytes ptr 0 size

-- The files "./out.pcap", which `file` is open on, and "./out2.pcap".
pub record Captures : Type 0 where
  pub out : List ℕ
  pub out2 : List ℕ

unfoldable pub stub_init : Captures → Captures
stub_init files = record files { out = pcap_hdr_bytes stub_hdr }

-- The file is renamed, and the file that is opened for the next packet is a new one.
unfoldable pub stub_write_pkt : Captures → List ℕ → ℕ → Captures
stub_write_pkt files ptr size = record { out = []; out2 = files.out ++ pkt_record ptr size }

-- `fresh` is what `realloc` finds in fresh memory.
unfoldable pub add_ip_mac_pair : IpMacPair → IpMacMap → IpAddr → MacAddr → IpMacMap
add_ip_mac_pair fresh m ip mac =
    update_ip_mac_pair fresh m (record { ip_addr = ip; mac_addr = mac })

unfoldable pub to_ip : ℕ → ℕ → IpAddr
to_ip b2 b3 = record { b0 = 192; b1 = 168; b2 = b2; b3 = b3 }

unfoldable pub to_mac : ℕ → MacAddr
to_mac b0 = record { m0 = b0; m1 = b0; m2 = b0; m3 = b0; m4 = b0; m5 = b0 }

-- `pkt`, whose IPv4 header begins at 14 and whose UDP header at 34.
unfoldable pub test_pkt : List ℕ
test_pkt =
    let pkt0 = replicate 42 0 in
    let pkt1 = write_bytes pkt0 6 (mac_bytes (to_mac 0x22)) in
    let pkt2 = write_bytes pkt1 0 (mac_bytes (to_mac 0x21)) in
    let pkt3 = set_u16 pkt2 12 (htons 0x0800) in
    let pkt4 = write_bytes pkt3 26 (ip_bytes (to_ip 2 2)) in
    let pkt5 = write_bytes pkt4 30 (ip_bytes (to_ip 50 50)) in
    let pkt6 = set pkt5 14 0x45 in
    let pkt7 = set pkt6 23 0x11 in
    let pkt8 = set_u16 pkt7 16 (htons 28) in
    let pkt9 = set_u16 pkt8 38 (htons 8) in
    let pkt10 = set_u16 pkt9 36 (htons 80) in set_u16 pkt10 34 (htons 50001)

-- `pktArp`, whose ARP packet begins at 14.
unfoldable pub test_pkt_arp : List ℕ
test_pkt_arp =
    let pkt0 = replicate 42 0 in
    let pkt1 = write_bytes pkt0 6 (mac_bytes (to_mac 0x01)) in
    let pkt2 = write_bytes pkt1 0 (mac_bytes (to_mac 0xff)) in
    let pkt3 = set_u16 pkt2 12 (htons 0x0806) in
    let pkt4 = write_bytes pkt3 28 (ip_bytes (to_ip 0 1)) in
    let pkt5 = write_bytes pkt4 38 (ip_bytes (to_ip 0 1)) in
    let pkt6 = write_bytes pkt5 22 (mac_bytes (to_mac 0x01)) in
    let pkt7 = write_bytes pkt6 32 (mac_bytes (to_mac 0x01)) in
    let pkt8 = set_u16 pkt7 20 (htons 0x02) in
    let pkt9 = set pkt8 18 6 in
    let pkt10 = set pkt9 19 4 in
    let pkt11 = set_u16 pkt10 14 (htons 1) in set_u16 pkt11 16 (htons 0x0800)

unfoldable pub testcase_run : Captures → Captures
testcase_run files = stub_write_pkt (stub_write_pkt files test_pkt 42) test_pkt_arp 42
