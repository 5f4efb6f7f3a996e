-- ===== src/Stun/Answering.antt =====
-- The response of SendStunResponse beside ParseBindingResponse.
use neko_chat.Common.{
  ℕ, ◌+◌, ◌*◌, ◌/◌, ◌%◌, ◌^◌, ◌<◌, ◌≡◌, ap, ap₂, ◌∙◌, some, [], ◌∷◌, bit_xor, arith,
}
use neko_chat.Common.Bits.{bit_xor_twice, bit_xor-lt}
use neko_chat.Common.Text.{Bytes, bytes_eq_refl}
use neko_chat.Wire.Words.{htons, htonl, load8, load16, load32}
use neko_chat.Wire.Order.{htons_twice, htonl-lt, htons-lt, word16, word32}
use neko_chat.Stun.{
  Address, stun_response, parse_binding_response, read_attributes, read_attribute, read_address,
  magic,
}
use neko_chat.Stun.Swapping.{htons-bit_xor}

-- The port that is read is the port that was hidden.
port_back :
    (port : ℕ)
    → port < 2 ^ 16
    → let sent = htons (bit_xor (htons port) 0x2112) in
      bit_xor (sent % 256 + 256 * (sent / 256 % 256)) (htons 0x2112) ≡ port
port_back port h =
    ap (λ (w : ℕ). bit_xor w (htons 0x2112))
      (word16 (htons (bit_xor (htons port) 0x2112)) (htons-lt (bit_xor (htons port) 0x2112))
        ∙ htons-bit_xor (htons port) 0x2112 (htons-lt port) (omega arith))
    ∙ bit_xor_twice (htons (htons port)) (htons 0x2112)
    ∙ htons_twice port h

addr_back :
    (addr : ℕ)
    → addr < 2 ^ 32
    → let sent = bit_xor addr (htonl magic) in
      bit_xor
        (sent % 256
          + 256 * (sent / 256 % 256)
          + 65536 * (sent / 65536 % 256)
          + 16777216 * (sent / 16777216 % 256))
        (htonl magic)
      ≡ addr
addr_back addr h =
    ap (λ (w : ℕ). bit_xor w (htonl magic))
      (word32 (bit_xor addr (htonl magic)) (bit_xor-lt 32 addr (htonl magic) h (htonl-lt magic)))
    ∙ bit_xor_twice addr (htonl magic)

abbrev the_address : ℕ → ℕ → Address
the_address x y = record { sin_port = x; s_addr = y }

-- The response to an address gives the address back, for any transaction id of 12 bytes.
pub parse-stun_response :
    (from : Address) (a b c d e f g h i j k l : ℕ)
    → from.sin_port < 2 ^ 16
    → from.s_addr < 2 ^ 32
    → let tid : Bytes = a ∷ b ∷ c ∷ d ∷ e ∷ f ∷ g ∷ h ∷ i ∷ j ∷ k ∷ l ∷ [] in
      parse_binding_response (stun_response from tid) tid ≡ some (some from)
unfolding parse_binding_response stun_response read_attributes read_attribute read_address load8
    load16 load32 htons htonl
parse-stun_response from a b c d e f g h i j k l hp ha = rw bytes_eq_refl (
    ap₂ (λ (x y : ℕ). some (some (the_address x y))) (port_back from.sin_port hp)
      (addr_back from.s_addr ha))
