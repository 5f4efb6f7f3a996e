-- ===== src/Stun/Swapping.antt =====
-- The exclusive or of words and the order of their bytes.
use neko_chat.Common.{
  ℕ, zero, suc, ◌+◌, ◌*◌, ◌/◌, ◌%◌, ◌^◌, ◌<◌, ◌≡◌, sym, ap, ap₂, ◌∙◌, bit_xor, arith,
}
use native.Mathlib.Nat.{zero-add}
use neko_chat.Common.Bits.{bit_xor_step, bit_xor-lt}
use neko_chat.Wire.Words.{htons}

-- `k` bits up.
abbrev scale : ℕ → ℕ → ℕ
scale zero y = y
scale (suc k) y = 2 * scale k y

-- A number of `k` bits.
abbrev Fits : ℕ → ℕ → Type 0
Fits zero x = x ≡ 0
Fits (suc k) x = Fits k (x / 2)

add_scale : (k x y : ℕ) → (x + 2 * y) / 2 ≡ x / 2 + y
add_scale k x y = omega arith

xor_parts :
    (k x u y v : ℕ)
    → Fits k x
    → Fits k u
    → bit_xor (x + scale k y) (u + scale k v) ≡ bit_xor x u + scale k (bit_xor y v)
xor_parts zero x u y v hx hu =
    ap₂ (λ (a b : ℕ). bit_xor (a + y) (b + v)) hx hu
    ∙ ap₂ bit_xor (zero-add y) (zero-add v)
    ∙ sym (ap₂ (λ (a b : ℕ). bit_xor a b + bit_xor y v) hx hu ∙ zero-add (bit_xor y v))
xor_parts (suc k) x u y v hx hu =
    let a = scale k y in
    let b = scale k v in
    let halves =
      ap₂ bit_xor (add_scale k x a) (add_scale k u b) ∙ xor_parts k (x / 2) (u / 2) y v hx hu in
    omega (arith, halves, bit_xor_step (x + 2 * a) (u + 2 * b), bit_xor_step x u)

-- The exclusive or of two words of two bytes is that of their bytes.
xor_bytes :
    (x u y v : ℕ)
    → x < 256
    → u < 256
    → bit_xor (x + 256 * y) (u + 256 * v) ≡ bit_xor x u + 256 * bit_xor y v
xor_bytes x u y v hx hu =
    ap₂ bit_xor (ap (λ (n : ℕ). x + n) (scale8 y)) (ap (λ (n : ℕ). u + n) (scale8 v))
    ∙ xor_parts 8 x u y v (omega arith) (omega arith)
    ∙ ap (λ (n : ℕ). bit_xor x u + n) (sym (scale8 (bit_xor y v)))
  where
    scale8 : (n : ℕ) → 256 * n ≡ scale 8 n
    scale8 n = omega arith

word : (w : ℕ) → w < 2 ^ 16 → w ≡ w % 256 + 256 * (w / 256)
word w h = omega arith

htons_word : (x y : ℕ) → x < 256 → y < 256 → htons (x + 256 * y) ≡ y + 256 * x
unfolding htons
htons_word x y hx hy = omega arith

-- The order of bytes does not matter to an exclusive or.
pub htons-bit_xor :
    (a b : ℕ) → a < 2 ^ 16 → b < 2 ^ 16 → htons (bit_xor a b) ≡ bit_xor (htons a) (htons b)
htons-bit_xor a b ha hb =
    let x = a % 256 in
    let y = a / 256 in
    let u = b % 256 in
    let v = b / 256 in
    let hx : x < 256 = omega arith in
    let hy : y < 256 = omega arith in
    let hu : u < 256 = omega arith in
    let hv : v < 256 = omega arith in
    ap htons (ap₂ bit_xor (word a ha) (word b hb) ∙ xor_bytes x u y v hx hu)
    ∙ htons_word (bit_xor x u) (bit_xor y v) (bit_xor-lt 8 x u hx hu) (bit_xor-lt 8 y v hy hv)
    ∙ sym (xor_bytes y v x u hy hv)
    ∙ ap₂ bit_xor (sym (htons_word x y hx hy)) (sym (htons_word u v hu hv))
    ∙ ap₂ (λ (m n : ℕ). bit_xor (htons m) (htons n)) (sym (word a ha)) (sym (word b hb))
