-- ===== src/Stun.antt =====
-- STUN messages: StunClient of STUN.hpp and SendStunResponse of IceAgent.cpp.
pub mod Swapping
pub mod Answering
pub mod Rounds
mod Tests
use neko_chat.Common.{
  ℕ, zero, suc, ◌+◌, ◌-◌, ◌*◌, ◌/◌, Bool, true, false, ◌&&◌, not, Option, none, some, List, [], ◌∷◌,
  ◌++◌, take, drop, length, bit_xor, ltb, leb, ◌==◌, if◌then◌else◌,
}
use neko_chat.Common.Text.{Bytes, substr, bytes_eq}
use neko_chat.Wire.Words.{htons, htonl, mem16, mem32, load8, load16, load32}
use neko_chat.Files.Packets.{◌>>=◌}

abbrev pub binding_request : ℕ
binding_request = 0x0001

abbrev pub binding_response : ℕ
binding_response = 0x0101

abbrev pub mapped_address : ℕ
mapped_address = 0x0001

abbrev pub xor_mapped_address : ℕ
xor_mapped_address = 0x0020

abbrev pub magic : ℕ
magic = 0x2112A442

abbrev pub stun_header_size : ℕ
stun_header_size = 20

-- The port and the address of a sockaddr_in, both in network order.
pub record Address : Type 0 where
  pub sin_port : ℕ
  pub s_addr : ℕ

-- BuildBindingRequest
unfoldable pub build_binding_request : Bytes → Bytes
build_binding_request transaction_id =
    mem16 (htons binding_request) ++ (mem16 0 ++ (mem32 (htonl magic) ++ transaction_id))

-- The response of SendStunResponse to `from`.
unfoldable pub stun_response : Address → Bytes → Bytes
stun_response from tid =
    mem16 (htons binding_response)
    ++ (mem16 (htons 12)
        ++ (mem32 (htonl magic)
            ++ (tid
                ++ (mem16 (htons xor_mapped_address)
                    ++ (mem16 (htons 8)
                        ++ (0 ∷ 0x01 ∷ mem16 (htons (bit_xor (htons from.sin_port) 0x2112))
                            ++ mem32 (bit_xor from.s_addr (htonl magic))))))))

-- A round of the loop over the attributes: an address is found, or so many bytes of a value are
-- skipped.
pub data Round : Type 0 where
  found : Address → Round
  skip : ℕ → Round

-- (length + 3) & ~3
abbrev pub padded : ℕ → ℕ
padded n = (n + 3) / 4 * 4

-- The value of an address attribute at `p` of `len` bytes, which masks hide, a mask of 0 none of it;
-- families other than IPv4 are skipped.
unfoldable pub read_address : Bytes → ℕ → ℕ → ℕ → ℕ → Option Round
read_address bytes p len port_mask addr_mask = do
  family ← load8 bytes (p + 5)
  if not (family == 0x01) then some (skip (padded len)) else do
    port ← load16 bytes (p + 6)
    addr ← load32 bytes (p + 8)
    some (found (record { sin_port = bit_xor port port_mask; s_addr = bit_xor addr addr_mask }))

-- The attribute at `p`; a result of none is a read behind what was received.
unfoldable pub read_attribute : Bytes → ℕ → Option Round
read_attribute bytes p = do
  type_field ← load16 bytes p
  length_field ← load16 bytes (p + 2)
  let kind = htons type_field
  let len = htons length_field
  if kind == xor_mapped_address && leb 8 len
      then read_address bytes p len (htons 0x2112) (htonl magic)
      else if kind == mapped_address && leb 8 len
      then read_address bytes p len 0 0
      else some (skip (padded len))

-- What a round says, and the rounds after a skip.
abbrev pub after_round : (ℕ → Option (Option Address)) → Round → Option (Option Address)
after_round next (found address) = some (some address)
after_round next (skip n) = next n

-- The loop over the attributes up to `stop`, `fuel` rounds at most: none too when the rounds run out
-- before the loop has come to its end.
unfoldable pub read_attributes : ℕ → Bytes → ℕ → ℕ → Option (Option Address)
read_attributes zero bytes stop p = none
read_attributes (suc fuel) bytes stop p =
    let next = λ (n : ℕ). read_attributes fuel bytes stop (p + 4 + n) in
    if leb (p + 4) stop then read_attribute bytes p >>= after_round next else some none

-- ParseBindingResponse: some none for false, none for a read behind what was received.
unfoldable pub parse_binding_response : Bytes → Bytes → Option (Option Address)
parse_binding_response bytes expected_tid =
    if ltb (length bytes) stun_header_size then some none else do
      type_field ← load16 bytes 0
      length_field ← load16 bytes 2
      cookie ← load32 bytes 4
      let stop = stun_header_size + htons length_field
      if not (htons type_field == binding_response)
          then some none
          else if not (htonl cookie == magic)
          then some none
          else if not (bytes_eq (substr bytes 8 12) expected_tid)
          then some none
          else read_attributes stop bytes stop stun_header_size
