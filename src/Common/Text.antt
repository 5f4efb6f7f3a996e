-- ===== src/Common/Text.antt =====
-- Byte strings: `std::string` and packet buffers as lists of bytes.
use Prim.Native.Char.{code}
use Prim.Native.String.{String}
use Prim.Native.Nat.{ℕ, suc, ◌+◌}
use mathlib.Core.Path.{◌≡◌, refl}
use mathlib.Core.Logic.{◌↔◌}
use mathlib.Core.Bool.{Bool, true, false, ◌&&◌, ◌||◌}
use mathlib.Core.Option.{Option, none, some}
use mathlib.Core.Option
use mathlib.Core.List.{List, [], ◌∷◌, ◌++◌}
use native.Mathlib.Omega.{arith}
use neko_chat.Common.Tests.{◌==◌, if◌then◌else◌, ltb}
use neko_chat.Common.Lists.{length, take, drop}

abbrev pub Bytes : Type 0
Bytes = List ℕ

-- The bytes of an ASCII literal.
abbrev pub codes : String → Bytes
codes String.[] = []
codes (String.◌∷◌ c s) = code c ∷ codes s

-- operator==
unfoldable pub bytes_eq : Bytes → Bytes → Bool
bytes_eq [] [] = true
bytes_eq [] (y ∷ ys) = false
bytes_eq (x ∷ xs) [] = false
bytes_eq (x ∷ xs) (y ∷ ys) = x == y && bytes_eq xs ys

pub bytes_eq_iff : (xs ys : Bytes) → (bytes_eq xs ys ≡ true) ↔ (xs ≡ ys)
unfolding bytes_eq
bytes_eq_iff [] [] = ground arith
bytes_eq_iff [] (y ∷ ys) = ground arith
bytes_eq_iff (x ∷ xs) [] = ground arith
bytes_eq_iff (x ∷ xs) (y ∷ ys) = ground (arith, bytes_eq_iff xs ys)

pub bytes_eq_refl : (xs : Bytes) → bytes_eq xs xs ≡ true
bytes_eq_refl xs = (bytes_eq_iff xs xs).1 refl

-- operator<, byte by byte
unfoldable pub bytes_lt : Bytes → Bytes → Bool
bytes_lt [] [] = false
bytes_lt [] (y ∷ ys) = true
bytes_lt (x ∷ xs) [] = false
bytes_lt (x ∷ xs) (y ∷ ys) = ltb x y || (x == y && bytes_lt xs ys)

-- `s.compare(0, p.size(), p) == 0`
unfoldable pub starts_with : Bytes → Bytes → Bool
starts_with [] s = true
starts_with (p ∷ ps) [] = false
starts_with (p ∷ ps) (x ∷ xs) = p == x && starts_with ps xs

-- `s.find(c)`, none for npos
unfoldable pub find_byte : ℕ → Bytes → Option ℕ
find_byte c [] = none
find_byte c (x ∷ xs) = if x == c then some 0 else Option.map suc (find_byte c xs)

-- `s.find(c, pos)`
unfoldable pub find_from : ℕ → Bytes → ℕ → Option ℕ
unfolding find_byte
find_from c s pos = Option.map (λ i. pos + i) (find_byte c (drop pos s))

-- `s.substr(pos, n)`
abbrev pub substr : Bytes → ℕ → ℕ → Bytes
substr s pos n = take n (drop pos s)

unfoldable pub is_empty : Bytes → Bool
is_empty [] = true
is_empty (x ∷ xs) = false

unfoldable pub has_byte : ℕ → Bytes → Bool
has_byte c [] = false
has_byte c (x ∷ xs) = x == c || has_byte c xs

pub starts_with-append : (p s : Bytes) → starts_with p (p ++ s) ≡ true
unfolding starts_with
starts_with-append [] s = refl
starts_with-append (x ∷ p) s = ground (arith, starts_with-append p s)

pub find_byte-none : (c : ℕ) (s : Bytes) → has_byte c s ≡ false → find_byte c s ≡ none
unfolding has_byte find_byte
find_byte-none c [] h = refl
find_byte-none c (x ∷ xs) h = ground (arith, find_byte-none c xs)

pub find_byte-append :
    (c : ℕ) (a b : Bytes) → has_byte c a ≡ false → find_byte c (a ++ c ∷ b) ≡ some (length a)
unfolding has_byte find_byte
find_byte-append c [] b h = ground arith
find_byte-append c (x ∷ a) b h = ground (arith, find_byte-append c a b)

pub has_byte-append : (c : ℕ) (a b : Bytes) → has_byte c (a ++ b) ≡ (has_byte c a || has_byte c b)
unfolding has_byte
has_byte-append c [] b = refl
has_byte-append c (x ∷ a) b = ground (arith, has_byte-append c a b)
