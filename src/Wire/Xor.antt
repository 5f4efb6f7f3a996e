-- ===== src/Wire/Xor.antt =====
-- ApplyXor55, declared alike in P2PChat.cpp and IceAgent.cpp: the text obfuscation, in its SSE2
-- form (blocks of 16 bytes, then the rest one by one).
use neko_chat.Common.{
  ℕ, zero, suc, ◌<◌, ◌≡◌, refl, ap, ap₂, ◌∙◌, sym, [], ◌∷◌, ◌++◌, map, take, drop, length, leb,
  if◌then◌else◌, bit_xor, arith, All, take-append-drop, Bool-cases, inl, inr,
}
use mathlib.Core.List.{map-append}
use neko_chat.Common.Bits.{bit_xor_twice, bit_xor-lt}
use neko_chat.Common.Text.{Bytes}

-- `data[i] ^= 0x55`; also one lane of `_mm_xor_si128(block, _mm_set1_epi8(0x55))`.
abbrev xor55 : ℕ → ℕ
xor55 b = bit_xor b 0x55

-- The scalar loop from `i` on: what is left of the buffer.
tail_loop : Bytes → Bytes
tail_loop [] = []
tail_loop (b ∷ rest) = xor55 b ∷ tail_loop rest

-- The block loop, `fuel` blocks at most, then the scalar loop.
block_loop : ℕ → Bytes → Bytes
unfolding tail_loop
block_loop zero s = tail_loop s
block_loop (suc fuel) s =
    let rest = map xor55 (take 16 s) ++ block_loop fuel (drop 16 s) in
    if leb 16 (length s) then rest else tail_loop s

unfoldable pub apply_xor55 : Bytes → Bytes
unfolding block_loop
apply_xor55 s = block_loop (length s) s

tail_loop-map : (s : Bytes) → tail_loop s ≡ map xor55 s
unfolding tail_loop
tail_loop-map [] = refl
tail_loop-map (b ∷ s) = ap (◌∷◌ (xor55 b)) (tail_loop-map s)

block_loop-map : (fuel : ℕ) (s : Bytes) → block_loop fuel s ≡ map xor55 s
unfolding block_loop
block_loop-map zero s = tail_loop-map s
block_loop-map (suc fuel) s = elim (Bool-cases (leb 16 (length s))) [
  | inl e ↦ rw e (
      ap (λ (t : Bytes). map xor55 (take 16 s) ++ t) (block_loop-map fuel (drop 16 s))
      ∙ sym (map-append xor55 (take 16 s) (drop 16 s))
      ∙ ap (map xor55) (take-append-drop 16 s))
  | inr e ↦ rw e (tail_loop-map s)
]

-- The block form does what the scalar form does: one exclusive or per byte.
pub apply_xor55-map : (s : Bytes) → apply_xor55 s ≡ map xor55 s
unfolding apply_xor55
apply_xor55-map s = block_loop-map (length s) s

map_twice : (s : Bytes) → map xor55 (map xor55 s) ≡ s
map_twice [] = refl
map_twice (b ∷ s) = ap₂ (λ (x : ℕ) (t : Bytes). x ∷ t) (bit_xor_twice b 0x55) (map_twice s)

map-bytes : (s : Bytes) → All (λ b. b < 256) s → All (λ b. b < 256) (map xor55 s)
map-bytes [] h = tt
map-bytes (b ∷ s) h = (bit_xor-lt 8 b 0x55 h.0 (omega arith), map-bytes s h.1)

-- The obfuscation is the byte-wise exclusive or with 0x55 whatever the length, its result fits
-- bytes again, and the receiver's second application restores the text.
pub apply_xor55_twice :
    (s : Bytes)
    → All (λ b. b < 256) s
    → (apply_xor55 s ≡ map (λ b. bit_xor b 0x55) s)
      × All (λ b. b < 256) (apply_xor55 s)
      × (apply_xor55 (apply_xor55 s) ≡ s)
apply_xor55_twice s h = (
  apply_xor55-map s,
  rw apply_xor55-map (map-bytes s h),
  ap apply_xor55 (apply_xor55-map s) ∙ apply_xor55-map (map xor55 s) ∙ map_twice s,
)
