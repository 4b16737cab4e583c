-- ===== src/Dhcp/Refusal.antt =====
-- A request that is refused.
use cs489_router.Prelude.{
  ℕ, zero, suc, ◌+◌, ◌<◌, ◌≤◌, ◌≡◌, refl, ap, ◌∙◌, sym, ◌⊎◌, inl, inr, Bool, true, false, not, ◌&&◌,
  Option, none, some, List, ltb, ◌==◌, if◌then◌else◌, length, replicate, byte_at, read_bytes,
  write_bytes, get_or-set_ne, byte_at-read_bytes, byte_at-write_bytes, byte_at-write_bytes_ne,
  length-read_bytes, length-replicate, arith,
}
use cs489_router.Dhcp.{
  option_message_type, dhcp_end, dhcp_request, buffer_size, Server, is_ip_in_pool, is_ip_available,
  option_loop, option_rounds, type_at, message_type, extract_requested_ip, reply_header,
  finish_reply, nak_packet, broadcast, send_dhcp_nak, handle_dhcp_packet,
}

finish_reply-before :
    (packet options : List ℕ) (i : ℕ)
    → i < 960
    → byte_at (finish_reply packet options) i ≡ byte_at packet i
unfolding finish_reply
finish_reply-before packet options i lt =
    byte_at-read_bytes written 0 (960 + length options) i (omega arith)
    ∙ ap (byte_at written) {x = 0 + i} {y = i} (omega arith)
    ∙ byte_at-write_bytes_ne packet 960 options i (inl lt)
  where
    written : List ℕ
    written = write_bytes packet 960 options

reply_header-kept :
    (buffer : List ℕ) (kept i : ℕ)
    → 0 < i
    → i < kept
    → kept ≤ buffer_size
    → byte_at (reply_header buffer kept) i ≡ byte_at buffer i
unfolding reply_header
reply_header-kept buffer kept i pos lt le =
    get_or-set_ne copied 0 i 2 0 (λ e. absurd (omega (arith, e)))
    ∙ ap (byte_at copied) {x = i} {y = 0 + i} (omega arith)
    ∙ byte_at-write_bytes (replicate buffer_size 0) 0 (read_bytes buffer 0 kept) i
        (omega (arith, length-read_bytes buffer 0 kept, length-replicate {A = ℕ} buffer_size 0))
        (omega (arith, length-read_bytes buffer 0 kept))
    ∙ byte_at-read_bytes buffer 0 kept i lt
    ∙ ap (byte_at buffer) {x = 0 + i} {y = i} (omega arith)
  where
    copied : List ℕ
    copied = write_bytes (replicate buffer_size 0) 0 (read_bytes buffer 0 kept)

-- The client's options are in the reply, up to where the server's own begin.
nak_packet-same :
    (buffer : List ℕ) (i : ℕ) → 240 ≤ i → i < 960 → byte_at (nak_packet buffer) i ≡ byte_at buffer i
unfolding nak_packet
nak_packet-same buffer i lo hi =
    finish_reply-before (reply_header buffer 960) _ i hi
    ∙ reply_header-kept buffer 960 i (omega arith) hi (omega arith)

-- How a round of the loop that finds an option went.
round-cases :
    (go here : Bool) (at k : ℕ) (next : Option ℕ)
    → (if go then (if here then some at else next) else none) ≡ some k
    → (go ≡ true) × (((here ≡ true) × (at ≡ k)) ⊎ ((here ≡ false) × (next ≡ some k)))
round-cases true true at k next e = (refl, inl (refl, cc e))
round-cases true false at k next e = (refl, inr (refl, e))
round-cases false here at k next e = absurd (cc e)

module _ (wanted : ℕ) (buffer : List ℕ) where
  -- Whether the loop goes on, whether the option is there, and where the next one is.
  abbrev goes : List ℕ → ℕ → ℕ → Bool
  goes mem limit at = not (byte_at mem at == dhcp_end) && ltb at limit

  abbrev next_at : List ℕ → ℕ → ℕ
  next_at mem at = at + 2 + byte_at mem (at + 1)

  option_loop-ge : (fuel limit at k : ℕ) → option_loop fuel buffer wanted limit at ≡ some k → at ≤ k
  unfolding option_loop
  option_loop-ge zero limit at k found = absurd (cc found)
  option_loop-ge (suc fuel) limit at k found =
      elim (round-cases (goes buffer limit at) (byte_at buffer at == wanted) at k
        (option_loop fuel buffer wanted limit (next_at buffer at)) found).1 [
          | inl (same, e) ↦ omega (arith, e)
          | inr (other, later) ↦
              omega (arith, option_loop-ge fuel limit (next_at buffer at) k later)
        ]

  -- A second list with the same bytes on the way to the option.
  option_loop-same :
      (fuel limit limit' at k : ℕ) (other : List ℕ)
      → ((i : ℕ) → 240 ≤ i → i < 960 → byte_at other i ≡ byte_at buffer i)
      → option_loop fuel buffer wanted limit at ≡ some k
      → 240 ≤ at
      → k < 960
      → k < limit'
      → option_loop fuel other wanted limit' at ≡ some k
  unfolding option_loop
  option_loop-same zero limit limit' at k other same found lo hi lt = absurd (cc found)
  option_loop-same (suc fuel) limit limit' at k other same found lo hi lt =
      let (go, rest) =
        round-cases (goes buffer limit at) (byte_at buffer at == wanted) at k
          (option_loop fuel buffer wanted limit (next_at buffer at)) found in
      let le = option_loop-ge (suc fuel) limit at k found in
      let going : goes other limit' at ≡ true =
        rw (same at lo (omega (arith, le))) (ground (arith, go, le, lt)) in
      elim rest [
        | inl (here, e) ↦ rw (going, same at lo (omega (arith, le)), here, e)
        | inr (elsewhere, later) ↦
            let le' = option_loop-ge fuel limit (next_at buffer at) k later in
            rw
              (
                going,
                same at lo (omega (arith, le)),
                elsewhere,
                same (at + 1) (omega arith) (omega (arith, le')),
              )
              (option_loop-same fuel limit limit' (next_at buffer at) k other same later
                (omega arith) hi lt)
      ]

length-nak_packet : (buffer : List ℕ) → length (nak_packet buffer) ≡ 964
unfolding nak_packet finish_reply
length-nak_packet buffer = length-read_bytes _ 0 964

-- The server's own parser reads a refusal as what the client sent, if that had its message type
-- within the first 960 bytes.
nak_packet-echoes :
    (buffer : List ℕ) (len at : ℕ)
    → option_loop option_rounds buffer option_message_type len 240 ≡ some at
    → at + 2 < 960
    → message_type (nak_packet buffer) (length (nak_packet buffer)) ≡ message_type buffer len
unfolding message_type type_at
nak_packet-echoes buffer len at found lt =
    ap (type_at (nak_packet buffer)) in_reply
    ∙ nak_packet-same buffer (at + 2) (omega (arith, later)) lt
    ∙ ap (type_at buffer) (sym found)
  where
    later : 240 ≤ at
    later = option_loop-ge option_message_type buffer option_rounds len 240 at found

    long : at < length (nak_packet buffer)
    long = omega (arith, lt, length-nak_packet buffer)

    in_reply :
        option_loop option_rounds
          (nak_packet buffer)
          option_message_type
          (length (nak_packet buffer))
          240
        ≡ some at
    in_reply =
        option_loop-same option_message_type buffer option_rounds len (length (nak_packet buffer))
          240 at (nak_packet buffer) (nak_packet-same buffer) found (omega arith)
          (omega (arith, lt)) long

-- A request for an address that is not in the pool, or for which no lease is in force, is refused
-- with a message that the server's own parser reads as a request: the client's options stand in it
-- before the server's. The request's message type is the first that a parser finds, within its
-- first 960 bytes.
pub handle_dhcp_packet-refusal :
    (now : ℕ) (s : Server) (request : List ℕ) (len at : ℕ)
    → message_type request len ≡ dhcp_request
    → option_loop option_rounds request option_message_type len 240 ≡ some at
    → at + 2 < 960
    → (is_ip_in_pool s (extract_requested_ip request) ≡ false)
      ⊎ (is_ip_available now s (extract_requested_ip request) ≡ true)
    → (packet : List ℕ) × (handle_dhcp_packet now s request len ≡ broadcast s packet)
      × (message_type packet (length packet) ≡ dhcp_request)
unfolding handle_dhcp_packet send_dhcp_nak
handle_dhcp_packet-refusal now s request len at kind found lt refused = (
  nak_packet request,
  rw kind (elim refused [ inl outside ↦ rw outside | inr available ↦ ground (arith, available) ]),
  nak_packet-echoes request len at found lt ∙ kind,
)
