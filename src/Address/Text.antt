-- ===== src/Address/Text.antt =====
-- Addresses as text: `to_string_ip` and `to_string_mac` of src/utils.c, and `mac_addr_to_string` of
-- src/main.c. A text is the list of its ASCII codes, with the zero at its end.
use cs489_router.Prelude.{
  ℕ, ◌+◌, ◌*◌, ◌/◌, ◌%◌, ◌≡◌, refl, List, [], ◌∷◌, ◌++◌, ltb, ◌==◌, if◌then◌else◌, set, read_bytes,
}
use cs489_router.Address.{IpAddr, MacAddr}

-- `%d` of a byte.
unfoldable pub decimal : ℕ → List ℕ
decimal b =
    let ones = 48 + b % 10 in
    let tens = 48 + b / 10 % 10 in
    if ltb b 10
    then ones ∷ []
    else if ltb b 100
    then tens ∷ ones ∷ []
    else (48 + b / 100) ∷ tens ∷ ones ∷ []

unfoldable pub hex_digit : ℕ → ℕ
hex_digit d = if ltb d 10 then 48 + d else 87 + d

-- `%02x` of a byte.
unfoldable pub hex_byte : ℕ → List ℕ
hex_byte b = hex_digit (b / 16) ∷ hex_digit (b % 16) ∷ []

unfoldable pub to_string_ip : IpAddr → List ℕ
to_string_ip ip =
    decimal ip.b0
    ++ (b'.' ∷ decimal ip.b1 ++ (b'.' ∷ decimal ip.b2 ++ (b'.' ∷ decimal ip.b3 ++ (0 ∷ []))))

unfoldable pub to_string_mac : MacAddr → List ℕ
to_string_mac mac =
    hex_byte mac.m0
    ++ (b':' ∷ hex_byte mac.m1
        ++ (b':' ∷ hex_byte mac.m2
            ++ (b':' ∷ hex_byte mac.m3
                ++ (b':' ∷ hex_byte mac.m4 ++ (b':' ∷ hex_byte mac.m5 ++ (0 ∷ []))))))

-- `sprintf(&mac_addr_str[at], "%02x", b)`, with the zero that it writes at the end.
unfoldable pub sprintf_hex : List ℕ → ℕ → ℕ → List ℕ
sprintf_hex str at b =
    set (set (set str at (hex_digit (b / 16))) (at + 1) (hex_digit (b % 16))) (at + 2) 0

-- The loop over the bytes from the `i`th on.
unfoldable pub mac_text_loop : List ℕ → ℕ → List ℕ → List ℕ
mac_text_loop [] i str = str
mac_text_loop (b ∷ bytes) i str =
    mac_text_loop bytes (i + 1)
      (set (sprintf_hex str (i * 3) b) (i * 3 + 2) (if i == 5 then 0 else b':'))

-- `fresh` is what `malloc` finds in the 18 bytes.
unfoldable pub mac_addr_to_string : List ℕ → MacAddr → List ℕ
mac_addr_to_string fresh mac =
    mac_text_loop (mac.m0 ∷ mac.m1 ∷ mac.m2 ∷ mac.m3 ∷ mac.m4 ∷ mac.m5 ∷ []) 0
      (read_bytes fresh 0 18)

-- The two functions give the same text.
pub mac_addr_to_string-to_string_mac :
    (fresh : List ℕ) (mac : MacAddr) → mac_addr_to_string fresh mac ≡ to_string_mac mac
unfolding mac_addr_to_string mac_text_loop sprintf_hex to_string_mac hex_byte read_bytes
mac_addr_to_string-to_string_mac fresh mac = refl

-- "192.168.1.100"
to_string_ip_test :
    to_string_ip (record { b0 = 192; b1 = 168; b2 = 1; b3 = 100 })
    ≡ b'1' ∷ b'9' ∷ b'2' ∷ b'.' ∷ b'1' ∷ b'6' ∷ b'8' ∷ b'.' ∷ b'1' ∷ b'.' ∷ b'1' ∷ b'0' ∷ b'0' ∷ 0
      ∷ []
unfolding to_string_ip decimal
to_string_ip_test = refl
