-- ===== src/Signal/Relay/Parsing.antt =====
-- How both ends take a relayed line apart.
use neko_chat.Common.{
  ℕ, suc, ◌+◌, ◌≡◌, refl, sym, ap, ap₂, ◌∙◌, false, some, [], ◌∷◌, ◌++◌, take, drop, length, arith,
  drop-append_left, take-append_left, drop-add,
}
use mathlib.Core.Option
use neko_chat.Common.Text.{Bytes, find_byte, find_from, find_byte-append, substr, has_byte}
use neko_chat.Common.Assoc.{bytes_key}
use neko_chat.Signal.Server.{Server, relay_text, say_to, without_return}
use neko_chat.Signal.Client.{notify_text, notify, c_string}

drop_past : (t : Bytes) (b : ℕ) (x : Bytes) → drop (suc (length t)) (t ++ b ∷ x) ≡ x
drop_past [] b x = refl
drop_past (c ∷ t) b x = drop_past t b x

-- A word behind `start` bytes ends at the next space.
module _ (start : ℕ) (p : Bytes) (e : length p ≡ start) where
  behind : (y : Bytes) → drop start (p ++ y) ≡ y
  behind y = ap (λ (n : ℕ). drop n (p ++ y)) (sym e) ∙ drop-append_left p y

  pub find_word :
      (t x : Bytes)
      → has_byte b' ' t ≡ false
      → find_from b' ' (p ++ (t ++ b' ' ∷ x)) start ≡ some (start + length t)
  unfolding find_from
  find_word t x h =
      ap (λ (s : Bytes). Option.map (λ i. start + i) (find_byte b' ' s)) (behind (t ++ b' ' ∷ x))
      ∙ ap (Option.map (λ i. start + i)) (find_byte-append b' ' t x h)

  pub word_at : (t x : Bytes) (n : ℕ) → n ≡ length t → substr (p ++ (t ++ b' ' ∷ x)) start n ≡ t
  word_at t x n h =
      ap₂ (λ (k : ℕ) (s : Bytes). take k s) h (behind (t ++ b' ' ∷ x))
      ∙ take-append_left t (b' ' ∷ x)

  pub text_past : (t x : Bytes) → drop (suc (start + length t)) (p ++ (t ++ b' ' ∷ x)) ≡ x
  text_past t x =
      ap (λ (n : ℕ). drop n (p ++ (t ++ b' ' ∷ x))) {x = suc (start + length t)} (omega arith)
      ∙ sym (drop-add start (suc (length t)) (p ++ (t ++ b' ' ∷ x)))
      ∙ ap (drop (suc (length t))) (behind (t ++ b' ' ∷ x))
      ∙ drop_past t b' ' x

pub relay_text_lem :
    (c start : ℕ) (p t x word malformed : Bytes) (s : Server)
    → length p ≡ start
    → has_byte b' ' t ≡ false
    → relay_text c start word malformed (p ++ (t ++ b' ' ∷ x)) s
      ≡ say_to t (word ++ ((s.contexts c).client_id ++ b' ' ∷ (x ++ b'\n' ∷ []))) s
unfolding relay_text
relay_text_lem c start p t x word malformed s e h =
    rw (find_word start p e t x h, relay_text)
      (ap₂
        (λ (u v : Bytes).
          say_to u (word ++ ((s.contexts c).client_id ++ b' ' ∷ (v ++ b'\n' ∷ []))) s)
        (word_at start p e t x _ (omega arith)) (text_past start p e t x))

pub notify_text_lem :
    (kind p t x : Bytes) (space1 : ℕ)
    → length p ≡ suc space1
    → has_byte b' ' t ≡ false
    → notify_text kind (p ++ (t ++ b' ' ∷ x)) space1 ≡ notify t kind x
unfolding notify_text
notify_text_lem kind p t x space1 e h =
    rw (find_word (suc space1) p e t x h, notify_text)
      (ap₂ (λ (u v : Bytes). notify u kind v) (word_at (suc space1) p e t x _ (omega arith))
        (text_past (suc space1) p e t x))

pub without_return-plain : (s : Bytes) → has_byte b'\r' s ≡ false → without_return s ≡ s
unfolding without_return has_byte
without_return-plain [] h = refl
without_return-plain (x ∷ []) h = ground arith
without_return-plain (x ∷ y ∷ s) h = ap (◌∷◌ x) (without_return-plain (y ∷ s) (ground arith))

pub c_string-plain : (s : Bytes) → has_byte 0 s ≡ false → c_string s ≡ s
unfolding c_string has_byte
c_string-plain [] h = refl
c_string-plain (x ∷ s) h = ground (arith, c_string-plain s)
