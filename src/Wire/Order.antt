-- ===== src/Wire/Order.antt =====
-- What the byte-order functions leave in memory and how they combine.
use neko_chat.Common.{ℕ, ◌+◌, ◌*◌, ◌/◌, ◌%◌, ◌^◌, ◌<◌, ◌≡◌, ap, ap₂, ◌∙◌, ◌++◌, arith}
use neko_chat.Common.Text.{Bytes}
use neko_chat.Wire.Words.{
  mem16, mem32, mem64, net16, net32, net64, htons, htonl, host_to_network64, network_to_host64,
}

pub htons_twice : (w : ℕ) → w < 2 ^ 16 → htons (htons w) ≡ w
unfolding htons
htons_twice w h = omega arith

pub htonl_twice : (w : ℕ) → w < 2 ^ 32 → htonl (htonl w) ≡ w
unfolding htonl
htonl_twice w h = omega arith

pub htonl-lt : (w : ℕ) → htonl w < 2 ^ 32
unfolding htonl
htonl-lt w = omega arith

pub mem16-htons : (w : ℕ) → mem16 (htons w) ≡ net16 w
unfolding htons
mem16-htons w = ground arith

pub mem32-htonl : (w : ℕ) → mem32 (htonl w) ≡ net32 w
unfolding htonl
mem32-htonl w = ground arith

low_half : (v : ℕ) → host_to_network64 v % 2 ^ 32 ≡ htonl (v / 2 ^ 32 % 2 ^ 32)
unfolding host_to_network64
low_half v = omega (arith, htonl-lt (v / 2 ^ 32 % 2 ^ 32))

high_half : (v : ℕ) → host_to_network64 v / 2 ^ 32 ≡ htonl (v % 2 ^ 32)
unfolding host_to_network64
high_half v = omega (arith, htonl-lt (v / 2 ^ 32 % 2 ^ 32))

wide_half : (v : ℕ) → host_to_network64 v / 2 ^ 32 % 2 ^ 32 ≡ htonl (v % 2 ^ 32)
wide_half v = omega (arith, high_half v, htonl-lt (v % 2 ^ 32))

mem64-host_to_network64 : (v : ℕ) → v < 2 ^ 64 → mem64 (host_to_network64 v) ≡ net64 v
mem64-host_to_network64 v h =
    ap₂ (λ (a b : ℕ). mem32 a ++ mem32 b) (low_half v) (high_half v)
    ∙ ap₂ (λ (a b : Bytes). a ++ b) (mem32-htonl (v / 2 ^ 32 % 2 ^ 32)) (mem32-htonl (v % 2 ^ 32))
    ∙ ap (λ (a : ℕ). net32 a ++ net32 (v % 2 ^ 32)) (omega arith)

network_to_host64-host_to_network64 :
    (v : ℕ) → v < 2 ^ 64 → network_to_host64 (host_to_network64 v) ≡ v
unfolding network_to_host64
network_to_host64-host_to_network64 v h =
    ap₂ (λ (a b : ℕ). htonl a * 2 ^ 32 + htonl b) (low_half v) (wide_half v)
    ∙ omega (
      arith,
      htonl_twice (v / 2 ^ 32 % 2 ^ 32) (omega arith),
      htonl_twice (v % 2 ^ 32) (omega arith),
    )

-- The 64-bit conversion of the file headers puts the highest byte first in memory, and reading back
-- what was sent gives the number again.
pub network64 :
    (v : ℕ)
    → v < 2 ^ 64
    → (mem64 (host_to_network64 v) ≡ net64 v) × (network_to_host64 (host_to_network64 v) ≡ v)
network64 v h = (mem64-host_to_network64 v h, network_to_host64-host_to_network64 v h)

pub host_to_network64-lt : (v : ℕ) → host_to_network64 v < 2 ^ 64
unfolding host_to_network64
host_to_network64-lt v = omega (arith, htonl-lt (v / 2 ^ 32 % 2 ^ 32), htonl-lt (v % 2 ^ 32))

pub htons-lt : (w : ℕ) → htons w < 2 ^ 16
unfolding htons
htons-lt w = omega arith

-- The bytes of a word make up the word.
pub word16 : (w : ℕ) → w < 2 ^ 16 → w % 256 + 256 * (w / 256 % 256) ≡ w
word16 w h = omega arith

pub word32 :
    (w : ℕ)
    → w < 2 ^ 32
    → w % 256 + 256 * (w / 256 % 256) + 65536 * (w / 65536 % 256) + 16777216 * (w / 16777216 % 256)
      ≡ w
word32 w h = omega arith
