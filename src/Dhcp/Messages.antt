-- ===== src/Dhcp/Messages.antt =====
-- The server's own parser on the offers and acknowledgements that it sends.
use cs489_router.Prelude.{
  ℕ, zero, suc, ◌+◌, ◌*◌, ◌^◌, ◌<◌, ◌≤◌, ◌≡◌, ◌≢◌, ap, ◌∙◌, sym, inl, inr, ≢→==, ==_refl, lt→ltb,
  some, List, [], ◌∷◌, length, replicate, arith, byte_at, read_bytes, write_bytes,
  byte_at-read_bytes, byte_at-write_bytes, byte_at-write_bytes_ne, length-write_bytes,
  length-read_bytes, length-set, length-replicate, get_or-set_ne, replicate-AreZeros,
}
use cs489_router.Dhcp.{
  addr_bytes, buffer_size, option_rounds, option_message_type, option_requested_ip, dhcp_end,
  dhcp_offer, dhcp_ack, option_loop, type_at, ip_at, message_type, extract_requested_ip,
  lease_options, reply_header, finish_reply, offer_packet, ack_packet,
}

-- Two zeros are an option that nobody wants, of length 0.
skip_zeros :
    (n fuel : ℕ) (p : List ℕ) (wanted limit at : ℕ)
    → wanted ≢ 0
    → at + 2 * n ≤ limit
    → ((i : ℕ) → at ≤ i → i < at + 2 * n → byte_at p i ≡ 0)
    → option_loop (n + fuel) p wanted limit at ≡ option_loop fuel p wanted limit (at + 2 * n)
unfolding option_loop
skip_zeros zero fuel p wanted limit at ne le zeros =
    ap (λ (f : ℕ). option_loop f p wanted limit at) {x = zero + fuel} {y = fuel} (omega arith)
    ∙ ap (option_loop fuel p wanted limit) {x = at} {y = at + 2 * zero} (omega arith)
skip_zeros (suc n) fuel p wanted limit at ne le zeros =
    ap (λ (f : ℕ). option_loop f p wanted limit at) {x = suc n + fuel} {y = suc (n + fuel)}
      (omega arith)
    ∙ rw
        (
          zeros at (omega arith) (omega arith),
          lt→ltb at limit (omega arith),
          ≢→== 0 wanted (λ e. ne (sym e)),
          zeros (at + 1) (omega arith) (omega arith),
        )
        (ap (option_loop (n + fuel) p wanted limit) {x = at + 2 + 0} {y = at + 2} (omega arith)
          ∙ skip_zeros n fuel p wanted limit (at + 2) ne (omega arith)
              (λ i lo hi. zeros i (omega arith) (omega arith))
          ∙ ap (option_loop fuel p wanted limit) {x = at + 2 + 2 * n} {y = at + 2 * suc n}
              (omega arith))

-- One round at an option that is not the end.
stop_at :
    (fuel : ℕ) (p : List ℕ) (wanted limit at : ℕ)
    → wanted ≢ dhcp_end
    → at < limit
    → byte_at p at ≡ wanted
    → option_loop (suc fuel) p wanted limit at ≡ some at
unfolding option_loop
stop_at fuel p wanted limit at ne lt there =
    rw (there, ≢→== wanted dhcp_end ne, lt→ltb at limit lt, ==_refl wanted)

pass_by :
    (fuel : ℕ) (p : List ℕ) (wanted limit at kind size : ℕ)
    → kind ≢ dhcp_end
    → kind ≢ wanted
    → at < limit
    → byte_at p at ≡ kind
    → byte_at p (at + 1) ≡ size
    → option_loop (suc fuel) p wanted limit at ≡ option_loop fuel p wanted limit (at + 2 + size)
unfolding option_loop
pass_by fuel p wanted limit at kind size ne other lt there long =
    rw (there, long, ≢→== kind dhcp_end ne, lt→ltb at limit lt, ≢→== kind wanted other)

-- A reply: zeros up to the options, and the options at its end.
record IsReply (p options : List ℕ) : Type 0 where
  zeros : (i : ℕ) → 240 ≤ i → i < 960 → byte_at p i ≡ 0
  ends : (i : ℕ) → i < length options → byte_at p (960 + i) ≡ byte_at options i
  whole : length p ≡ 960 + length options

finish_reply-IsReply :
    (packet options : List ℕ)
    → ((i : ℕ) → 240 ≤ i → i < 960 → byte_at packet i ≡ 0)
    → 960 + length options ≤ length packet
    → IsReply (finish_reply packet options) options
unfolding finish_reply
finish_reply-IsReply packet options zeros room = record {
  zeros = λ i lo hi.
      byte_at-read_bytes written 0 (960 + length options) i (omega arith)
      ∙ ap (byte_at written) {x = 0 + i} {y = i} (omega arith)
      ∙ byte_at-write_bytes_ne packet 960 options i (inl hi)
      ∙ zeros i lo hi;
  ends = λ i lt.
      byte_at-read_bytes written 0 (960 + length options) (960 + i) (omega arith)
      ∙ ap (byte_at written) {x = 0 + (960 + i)} {y = 960 + i} (omega arith)
      ∙ byte_at-write_bytes packet 960 options i room lt;
  whole = length-read_bytes written 0 (960 + length options);
}
  where
    written : List ℕ
    written = write_bytes packet 960 options

module _ (p : List ℕ) (kind ip : ℕ) (reply : IsReply p (lease_options kind ip)) where
  long : length p ≡ 994
  unfolding lease_options addr_bytes
  long = reply.whole

  find_type : option_loop option_rounds p option_message_type 994 240 ≡ some 960
  unfolding lease_options
  find_type =
      skip_zeros 360 152 p option_message_type 994 240 (λ e. absurd (omega (arith, e)))
        (omega arith) reply.zeros
      ∙ stop_at 151 p option_message_type 994 960 (λ e. absurd (omega (arith, e))) (omega arith)
          (reply.ends 0 (omega arith))

  find_ip : option_loop option_rounds p option_requested_ip buffer_size 240 ≡ some 963
  unfolding lease_options
  find_ip =
      skip_zeros 360 152 p option_requested_ip buffer_size 240 (λ e. absurd (omega (arith, e)))
        (omega arith) reply.zeros
      ∙ pass_by 151 p option_requested_ip buffer_size 960 option_message_type 1
          (λ e. absurd (omega (arith, e))) (λ e. absurd (omega (arith, e))) (omega arith)
          (reply.ends 0 (omega arith)) (reply.ends 1 (omega arith))
      ∙ stop_at 150 p option_requested_ip buffer_size 963 (λ e. absurd (omega (arith, e)))
          (omega arith) (reply.ends 3 (omega arith))

  reply-message_type : message_type p (length p) ≡ kind
  unfolding message_type lease_options
  reply-message_type =
      ap (λ (n : ℕ). type_at p (option_loop option_rounds p option_message_type n 240)) long
      ∙ ap (type_at p) find_type
      ∙ unfold type_at in reply.ends 2 (omega arith)

  reply-requested_ip : ip < 2 ^ 32 → extract_requested_ip p ≡ ip
  unfolding extract_requested_ip
  reply-requested_ip lt =
      ap (ip_at p) find_ip
      ∙ unfold ip_at lease_options addr_bytes in
        omega (
          arith,
          lt,
          reply.ends 5 (omega arith),
          reply.ends 6 (omega arith),
          reply.ends 7 (omega arith),
          reply.ends 8 (omega arith),
        )

-- A packet in the making: only its first 240 bytes are written yet.
record IsBlank (packet : List ℕ) : Type 0 where
  zeros : (i : ℕ) → 240 ≤ i → i < 960 → byte_at packet i ≡ 0
  size : length packet ≡ 1024

reply_header-IsBlank : (buffer : List ℕ) → IsBlank (reply_header buffer 240)
unfolding reply_header
reply_header-IsBlank buffer = record {
  zeros = λ i lo hi.
      get_or-set_ne copied 0 i 2 0 (λ e. absurd (omega arith))
      ∙ byte_at-write_bytes_ne (replicate buffer_size 0) 0 (read_bytes buffer 0 240) i
          (inr (omega (arith, length-read_bytes buffer 0 240)))
      ∙ replicate-AreZeros buffer_size i;
  size =
      length-set copied 0 2
      ∙ length-write_bytes (replicate buffer_size 0) 0 (read_bytes buffer 0 240)
      ∙ length-replicate {A = ℕ} buffer_size 0;
}
  where
    copied : List ℕ
    copied = write_bytes (replicate buffer_size 0) 0 (read_bytes buffer 0 240)

write_bytes-IsBlank :
    (packet : List ℕ) (off : ℕ) (bs : List ℕ)
    → off + length bs ≤ 240
    → IsBlank packet
    → IsBlank (write_bytes packet off bs)
write_bytes-IsBlank packet off bs le blank = record {
  zeros =
      λ i lo hi. byte_at-write_bytes_ne packet off bs i (inr (omega arith)) ∙ blank.zeros i lo hi;
  size = length-write_bytes packet off bs ∙ blank.size;
}

finish_lease-IsReply :
    (packet : List ℕ) (kind ip : ℕ)
    → IsBlank packet
    → IsReply (finish_reply packet (lease_options kind ip)) (lease_options kind ip)
finish_lease-IsReply packet kind ip blank =
    finish_reply-IsReply packet (lease_options kind ip) blank.zeros
      (unfold lease_options addr_bytes in omega (arith, blank.size))

-- Whatever the client sent, the server's own parser reads the type of an offer, and the offered
-- address, back from the message that `send_dhcp_offer` sends.
pub offer_packet-parsed :
    (ip : ℕ) (buffer : List ℕ)
    → ip < 2 ^ 32
    → (message_type (offer_packet ip buffer) (length (offer_packet ip buffer)) ≡ dhcp_offer)
      × (extract_requested_ip (offer_packet ip buffer) ≡ ip)
unfolding offer_packet
offer_packet-parsed ip buffer lt =
    (reply-message_type _ dhcp_offer ip reply, reply-requested_ip _ dhcp_offer ip reply lt)
  where
    server : List ℕ
    server = 192 ∷ 168 ∷ 1 ∷ 1 ∷ []

    reply : IsReply (offer_packet ip buffer) (lease_options dhcp_offer ip)
    reply = finish_lease-IsReply _ dhcp_offer ip (
        write_bytes-IsBlank _ 24 server (omega arith) (
          write_bytes-IsBlank _ 24 server (omega arith) (
            write_bytes-IsBlank _ 16 (addr_bytes ip) (unfold addr_bytes in omega arith)
              (reply_header-IsBlank buffer))))

-- Whatever the client sent, the server's own parser reads the type of an acknowledgement, and the
-- address, back from the message that `send_dhcp_ack` sends.
pub ack_packet-parsed :
    (ip : ℕ) (buffer : List ℕ)
    → ip < 2 ^ 32
    → (message_type (ack_packet ip buffer) (length (ack_packet ip buffer)) ≡ dhcp_ack)
      × (extract_requested_ip (ack_packet ip buffer) ≡ ip)
unfolding ack_packet
ack_packet-parsed ip buffer lt =
    (reply-message_type _ dhcp_ack ip reply, reply-requested_ip _ dhcp_ack ip reply lt)
  where
    reply : IsReply (ack_packet ip buffer) (lease_options dhcp_ack ip)
    reply = finish_lease-IsReply _ dhcp_ack ip (
        write_bytes-IsBlank _ 16 (addr_bytes ip) (unfold addr_bytes in omega arith)
          (reply_header-IsBlank buffer))
