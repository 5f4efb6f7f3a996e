-- ===== src/Common/Decimal.antt =====
-- std::to_string of an unsigned number.
use Prim.Native.Nat.{ℕ, zero, suc, ◌+◌, ◌-◌, ◌*◌, ◌/◌, ◌%◌, ◌<◌, ◌≤◌}
use mathlib.Core.Path.{◌≡◌, refl, ap, ◌∙◌, sym}
use mathlib.Core.Bool.{false}
use mathlib.Core.List.{[], ◌∷◌, ◌++◌}
use mathlib.Core.Logic.{inl, inr}
use native.Mathlib.Omega.{arith}
use neko_chat.Common.Lists.{All, All-append}
use neko_chat.Common.Tests.{ltb, ltb→lt, if◌then◌else◌, Bool-cases}
use neko_chat.Common.Text.{Bytes, has_byte, has_byte-append}

digits_fuel : ℕ → ℕ → Bytes
digits_fuel zero n = []
digits_fuel (suc f) n =
    let more = digits_fuel f (n / 10) ++ (48 + n % 10) ∷ [] in
    if ltb n 10 then (48 + n) ∷ [] else more

unfoldable pub to_string : ℕ → Bytes
unfolding digits_fuel
to_string n = digits_fuel (suc n) n

-- The number that a digit string stands for, from the left.
unfoldable pub value_from : ℕ → Bytes → ℕ
value_from acc [] = acc
value_from acc (d ∷ ds) = value_from (acc * 10 + (d - 48)) ds

value_from-append :
    (acc : ℕ) (xs ys : Bytes) → value_from acc (xs ++ ys) ≡ value_from (value_from acc xs) ys
unfolding value_from
value_from-append acc [] ys = refl
value_from-append acc (x ∷ xs) ys = value_from-append (acc * 10 + (x - 48)) xs ys

value_from-digits : (f n : ℕ) → n < f → value_from 0 (digits_fuel f n) ≡ n
unfolding value_from digits_fuel
value_from-digits zero n h = absurd (omega arith)
value_from-digits (suc f) n h = elim (Bool-cases (ltb n 10)) [
  | inl e ↦ rw e (omega arith)
  | inr e ↦ rw e (
      value_from-append 0 (digits_fuel f (n / 10)) ((48 + n % 10) ∷ [])
      ∙ omega (arith, value_from-digits f (n / 10) (ground arith)))
]

pub to_string-injective : (m n : ℕ) → to_string m ≡ to_string n → m ≡ n
unfolding to_string
to_string-injective m n e =
    sym (value_from-digits (suc m) m (omega arith))
    ∙ ap (value_from 0) e
    ∙ value_from-digits (suc n) n (omega arith)

digits_fuel-has_byte : (c f n : ℕ) → c < 48 → has_byte c (digits_fuel f n) ≡ false
unfolding digits_fuel has_byte
digits_fuel-has_byte c zero n h = refl
digits_fuel-has_byte c (suc f) n h = ground (
  arith,
  has_byte-append c (digits_fuel f (n / 10)) ((48 + n % 10) ∷ []),
  digits_fuel-has_byte c f (n / 10) h,
)

-- No separator below the digits' codes is in a printed number.
pub has_byte-to_string : (c n : ℕ) → c < 48 → has_byte c (to_string n) ≡ false
unfolding to_string
has_byte-to_string c n h = digits_fuel-has_byte c (suc n) n h

pub value_from-to_string : (n : ℕ) → value_from 0 (to_string n) ≡ n
unfolding to_string
value_from-to_string n = value_from-digits (suc n) n (omega arith)

-- A decimal digit's code.
abbrev pub IsDigit : ℕ → Type 0
IsDigit d = (48 ≤ d) × (d < 58)

digits_fuel-IsDigit : (f n : ℕ) → All IsDigit (digits_fuel f n)
unfolding digits_fuel
digits_fuel-IsDigit zero n = tt
digits_fuel-IsDigit (suc f) n = elim (Bool-cases (ltb n 10)) [
  | inl e ↦ rw e ((omega arith, omega (arith, ltb→lt n 10 e)), tt)
  | inr e ↦ rw e (
      All-append IsDigit (digits_fuel f (n / 10)) ((48 + n % 10) ∷ [])
        (digits_fuel-IsDigit f (n / 10)) ((omega arith, omega arith), tt))
]

pub to_string-IsDigit : (n : ℕ) → All IsDigit (to_string n)
unfolding to_string
to_string-IsDigit n = digits_fuel-IsDigit (suc n) n

append-cons : (xs ys : Bytes) (y : ℕ) → (d : ℕ) × (ds : Bytes) × (xs ++ y ∷ ys ≡ d ∷ ds)
append-cons [] ys y = (y, ys, refl)
append-cons (x ∷ xs) ys y = (x, xs ++ y ∷ ys, refl)

pub to_string-cons : (n : ℕ) → (d : ℕ) × (ds : Bytes) × (to_string n ≡ d ∷ ds)
unfolding to_string digits_fuel
to_string-cons n = elim (Bool-cases (ltb n 10)) [
  | inl e ↦ (48 + n, [], rw e refl)
  | inr e ↦ rw e (append-cons (digits_fuel n (n / 10)) [] (48 + n % 10))
]
