-- ===== src/Files/Names/Keys.antt =====
-- MakeIncomingFileKey and MakeFileAckKey as keys of the transfer tables.
use neko_chat.Common.{ℕ, ◌^◌, ◌<◌, ◌≡◌, refl, ap, true, false, [], ◌∷◌, ◌++◌, arith}
use neko_chat.Common.Text.{Bytes, has_byte}
use neko_chat.Common.Decimal.{to_string, to_string-injective, has_byte-to_string}
use neko_chat.Files.Names.{make_incoming_file_key, make_file_ack_key}

has_byte_middle : (c : ℕ) (q ys : Bytes) → has_byte c (q ++ c ∷ ys) ≡ true
unfolding has_byte
has_byte_middle c [] ys = ground arith
has_byte_middle c (b ∷ q) ys = ground (arith, has_byte_middle c q ys)

has_byte_clash : (c : ℕ) (q xs ys : Bytes) → has_byte c xs ≡ false → xs ≡ q ++ c ∷ ys → ⊥
has_byte_clash c q xs ys h e = cc (has_byte_middle c q ys, ap (has_byte c) e)

-- A separator that neither tail holds splits a text in one way only.
split_once :
    (c : ℕ) (p q xs ys : Bytes)
    → has_byte c xs ≡ false
    → has_byte c ys ≡ false
    → p ++ c ∷ xs ≡ q ++ c ∷ ys
    → (p ≡ q) × (xs ≡ ys)
split_once c [] [] xs ys hx hy e = (refl, cc)
split_once c [] (b ∷ q) xs ys hx hy e = absurd (has_byte_clash c q xs ys hx (cc))
split_once c (a ∷ p) [] xs ys hx hy e = absurd (has_byte_clash c p ys xs hy (cc))
split_once c (a ∷ p) (b ∷ q) xs ys hx hy e =
    let r = split_once c p q xs ys hx hy (cc) in (cc (r.0), r.1)

-- Two transfers have the same table key only if they are of the same peer and have the same number,
-- whatever characters the peers' names hold.
pub make_incoming_file_key-injective :
    (p q : Bytes) (m n : ℕ)
    → make_incoming_file_key p m ≡ make_incoming_file_key q n
    → (p ≡ q) × (m ≡ n)
unfolding make_incoming_file_key
make_incoming_file_key-injective p q m n e =
    let r =
      split_once b'#' p q (to_string m) (to_string n) (has_byte-to_string b'#' m (omega arith))
        (has_byte-to_string b'#' n (omega arith)) e in
    (r.0, to_string-injective m n r.1)

-- Two acknowledgements have the same table key only if they are of the same transfer number and the
-- same chunk index, for indices of 32 bits.
pub make_file_ack_key-injective :
    (t u i j : ℕ)
    → i < 2 ^ 32
    → j < 2 ^ 32
    → make_file_ack_key t i ≡ make_file_ack_key u j
    → (t ≡ u) × (i ≡ j)
unfolding make_file_ack_key
make_file_ack_key-injective t u i j hi hj e = (omega arith, omega arith)
