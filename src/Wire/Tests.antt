-- ===== src/Wire/Tests.antt =====
-- The byte level on concrete inputs.
use neko_chat.Common.{ℕ, ◌<◌, ◌≡◌, All, map, bit_xor, arith}
use neko_chat.Common.Text.{Bytes, codes}
use neko_chat.Wire.Words.{mem64, net64, host_to_network64, network_to_host64}
use neko_chat.Wire.Order.{network64}
use neko_chat.Wire.Xor.{apply_xor55, apply_xor55_twice}

abbrev file_size : ℕ
file_size = 5000000000

network64_example :
    (mem64 (host_to_network64 file_size) ≡ net64 file_size)
    × (network_to_host64 (host_to_network64 file_size) ≡ file_size)
network64_example = network64 file_size (omega arith)

-- Twenty bytes: one block and four bytes of the scalar loop.
abbrev greeting : Bytes
greeting = codes "hello, this is NEKO!"

apply_xor55_twice_example :
    (apply_xor55 greeting ≡ map (λ b. bit_xor b 0x55) greeting)
    × All (λ b. b < 256) (apply_xor55 greeting)
    × (apply_xor55 (apply_xor55 greeting) ≡ greeting)
apply_xor55_twice_example = apply_xor55_twice greeting small
  where
    small : All (λ b. b < 256) greeting
    small = ground arith
