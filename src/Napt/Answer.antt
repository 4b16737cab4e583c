-- ===== src/Napt/Answer.antt =====
-- The answer to a packet that was translated.
use cs489_router.Prelude.{ℕ, ◌^◌, ◌<◌, ◌≡◌, ◌∙◌, sym, true, arith, htons}
use cs489_router.Hashmap.Probe.{bytes_equal_refl}
use cs489_router.State.{Packet, Router}
use cs489_router.Outgoing.{protocol, ip_src, ip_dst, send_ipv4}
use cs489_router.Napt.{
  extern_key, to_port, has_ports, new_entry, port_src, port_dst, napt_inc_handle,
}
use cs489_router.Napt.Rewrite.{IsWhole, IsReturned}
use cs489_router.Napt.Entries.{AreStored, to_extern, to_intern, flow_entry}
use cs489_router.Napt.Incoming.{IsFree, from_extern, twice_unlocked, napt_inc_handle-known}

-- The answer comes from where the packet went, to the port that stands for the packet's source.
pub record IsAnswer (pkt : Packet) (port : ℕ) (answer : Packet) : Type 0 where
  pub from : ip_src answer ≡ ip_dst pkt
  pub from_port : port_src answer ≡ port_dst pkt
  pub to_port : port_dst answer ≡ port
  pub same_protocol : protocol answer ≡ protocol pkt

same_key :
    (pkt : Packet) (port : ℕ) (answer : Packet)
    → IsAnswer pkt port answer
    → from_extern answer ≡ to_extern pkt port
same_key pkt port answer a = rw (a.from, a.from_port, a.to_port, a.same_protocol)

port_src-lt : (pkt : Packet) → port_src pkt < 2 ^ 16
unfolding port_src to_port htons
port_src-lt pkt = omega arith

-- In a state whose tables hold the flow that a router `r` stored for a packet, and whose external
-- table's mutex is free, `napt_inc_handle` does with an answer, of TCP or UDP with a whole header
-- and its ports, what `send_ipv4` does with the answer as it was, its length and payload included,
-- but for its destination, which is the address and port of the LAN that the first packet came from.
pub napt_inc_handle-answer :
    (r r' : Router) (pkt answer : Packet) (port : ℕ)
    → r.napt_extern.size_key ≡ 9
    → AreStored r.napt_extern r.napt_intern r'.napt_extern r'.napt_intern
        (to_extern pkt port)
        (to_intern pkt)
        (flow_entry r pkt port)
    → IsFree r'.napt_extern 9
    → IsAnswer pkt port answer
    → IsWhole answer
    → has_ports (protocol answer) ≡ true
    → (pkt' : Packet) × (napt_inc_handle r' answer ≡ send_ipv4 (twice_unlocked r') pkt')
      × IsReturned answer (ip_src pkt) (port_src pkt) pkt'
unfolding new_entry
napt_inc_handle-answer r r' pkt answer port keys held ready answers whole ports =
    napt_inc_handle-known r' answer (new_entry r pkt port) ports whole (port_src-lt pkt) ready (
      rw (same_key pkt port answer answers) (
        held.in_extern (to_extern pkt port) (unfold extern_key in sym keys)
        ∙ rw (bytes_equal_refl (to_extern pkt port))))
