-- ===== src/Wire/Words.antt =====
-- Words as the host stores them, lowest byte first, and the byte-order functions. `htons` and its
-- family are byte reversal on these hosts; the 64-bit pair is of P2PChat.cpp.
use neko_chat.Common.{ℕ, ◌+◌, ◌*◌, ◌/◌, ◌%◌, ◌^◌, Option, none, some, [], ◌∷◌, ◌++◌, drop}
use neko_chat.Common.Text.{Bytes}

-- The memory of a uint16_t, uint32_t and uint64_t.
abbrev pub mem16 : ℕ → Bytes
mem16 w = w % 256 ∷ w / 256 % 256 ∷ []

abbrev pub mem32 : ℕ → Bytes
mem32 w = w % 256 ∷ w / 256 % 256 ∷ w / 65536 % 256 ∷ w / 16777216 % 256 ∷ []

abbrev pub mem64 : ℕ → Bytes
mem64 w = mem32 (w % 2 ^ 32) ++ mem32 (w / 2 ^ 32)

-- The same words highest byte first, as they travel.
abbrev pub net16 : ℕ → Bytes
net16 w = w / 256 % 256 ∷ w % 256 ∷ []

abbrev pub net32 : ℕ → Bytes
net32 w = w / 16777216 % 256 ∷ w / 65536 % 256 ∷ w / 256 % 256 ∷ w % 256 ∷ []

abbrev pub net64 : ℕ → Bytes
net64 w = net32 (w / 2 ^ 32) ++ net32 (w % 2 ^ 32)

-- `memcpy` of a byte or a word out of a buffer; none is a read past its end.
abbrev pub first8 : Bytes → Option ℕ
first8 (a ∷ s) = some a
first8 s = none

abbrev pub first16 : Bytes → Option ℕ
first16 (a ∷ b ∷ s) = some (a + 256 * b)
first16 s = none

abbrev pub first32 : Bytes → Option ℕ
first32 (a ∷ b ∷ c ∷ d ∷ s) = some (a + 256 * b + 65536 * c + 16777216 * d)
first32 s = none

unfoldable pub load8 : Bytes → ℕ → Option ℕ
load8 s p = first8 (drop p s)

unfoldable pub load16 : Bytes → ℕ → Option ℕ
load16 s p = first16 (drop p s)

unfoldable pub load32 : Bytes → ℕ → Option ℕ
load32 s p = first32 (drop p s)

abbrev pub join64 : Option ℕ → Option ℕ → Option ℕ
join64 (some lo) (some hi) = some (lo + 2 ^ 32 * hi)
join64 none hi = none
join64 (some lo) none = none

unfoldable pub load64 : Bytes → ℕ → Option ℕ
load64 s p = join64 (first32 (drop p s)) (first32 (drop 4 (drop p s)))

-- htons, ntohs
unfoldable pub htons : ℕ → ℕ
htons w = w % 256 * 256 + w / 256 % 256

-- htonl, ntohl
unfoldable pub htonl : ℕ → ℕ
htonl w = w % 256 * 16777216 + w / 256 % 256 * 65536 + w / 65536 % 256 * 256 + w / 16777216 % 256

-- HostToNetwork64; a shift of a 32-bit half by 32 and an `|` with the other half is a sum.
unfoldable pub host_to_network64 : ℕ → ℕ
host_to_network64 value =
    let hi = htonl (value / 2 ^ 32 % 2 ^ 32) in let lo = htonl (value % 2 ^ 32) in lo * 2 ^ 32 + hi

-- NetworkToHost64
unfoldable pub network_to_host64 : ℕ → ℕ
network_to_host64 value =
    let hi = htonl (value % 2 ^ 32) in let lo = htonl (value / 2 ^ 32 % 2 ^ 32) in hi * 2 ^ 32 + lo
