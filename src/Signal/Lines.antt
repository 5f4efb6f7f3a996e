-- ===== src/Signal/Lines.antt =====
-- How both ends cut what they receive into lines: the loop on find('\n'), substr and erase.
use neko_chat.Common.{
  ℕ, zero, suc, ◌≤◌, ◌≡◌, refl, ap, ◌∙◌, sym, true, false, none, some, List, [], ◌∷◌, ◌++◌, take,
  drop, length, ◌==◌, if◌then◌else◌, arith, Bool-cases, inl, inr, Option-cases,
}
use mathlib.Core.Option
use neko_chat.Common.Text.{Bytes, find_byte, has_byte}

-- The lines of a buffer and what is left, `fuel` lines at most.
unfoldable pub lines_of : ℕ → Bytes → List Bytes × Bytes
lines_of zero buffer = ([], buffer)
lines_of (suc fuel) buffer = elim (find_byte b'\n' buffer) [
  | none ↦ ([], buffer)
  | some pos ↦
      let (lines, rest) = lines_of fuel (drop (suc pos) buffer) in (take pos buffer ∷ lines, rest)
]

-- The loop runs until no line end is left.
unfoldable pub take_lines : Bytes → List Bytes × Bytes
unfolding lines_of
take_lines buffer = lines_of (length buffer) buffer

-- A byte in front of lines.
abbrev pub with_byte : ℕ → List Bytes × Bytes → List Bytes × Bytes
with_byte c ([], rest) = ([], c ∷ rest)
with_byte c (line ∷ lines, rest) = ((c ∷ line) ∷ lines, rest)

abbrev pub with_line : List Bytes × Bytes → List Bytes × Bytes
with_line (lines, rest) = ([] ∷ lines, rest)

-- The lines of a buffer, byte by byte.
unfoldable pub split_lines : Bytes → List Bytes × Bytes
split_lines [] = ([], [])
split_lines (c ∷ s) =
    let rest = split_lines s in if c == b'\n' then with_line rest else with_byte c rest

find_byte_head : (c : ℕ) (s : Bytes) → c == b'\n' ≡ true → find_byte b'\n' (c ∷ s) ≡ some 0
unfolding find_byte
find_byte_head c s e = rw e refl

find_byte_later :
    (c : ℕ) (s : Bytes)
    → c == b'\n' ≡ false
    → find_byte b'\n' (c ∷ s) ≡ Option.map suc (find_byte b'\n' s)
unfolding find_byte
find_byte_later c s e = rw e refl

no_line : (fuel : ℕ) (s : Bytes) → find_byte b'\n' s ≡ none → lines_of (suc fuel) s ≡ ([], s)
unfolding lines_of
no_line fuel s e = rw (e, lines_of) refl

line_at :
    (fuel : ℕ) (s : Bytes) (pos : ℕ)
    → find_byte b'\n' s ≡ some pos
    → lines_of (suc fuel) s
      ≡ (take pos s ∷ (lines_of fuel (drop (suc pos) s)).0, (lines_of fuel (drop (suc pos) s)).1)
unfolding lines_of
line_at fuel s pos e = rw (e, lines_of) refl

with_byte-lines_of :
    (c : ℕ) (fuel : ℕ) (s : Bytes)
    → c == b'\n' ≡ false
    → lines_of (suc fuel) (c ∷ s) ≡ with_byte c (lines_of (suc fuel) s)
with_byte-lines_of c fuel s e = elim (Option-cases (find_byte b'\n' s)) [
  | inl f ↦
      no_line fuel (c ∷ s) (find_byte_later c s e ∙ ap (Option.map suc) f)
      ∙ sym (ap (with_byte c) (no_line fuel s f))
  | inr (pos, f) ↦
      line_at fuel (c ∷ s) (suc pos) (find_byte_later c s e ∙ ap (Option.map suc) f)
      ∙ sym (ap (with_byte c) (line_at fuel s pos f))
]

-- The loop finds the lines of the buffer: as many rounds as it has bytes are enough.
lines_of-split_lines : (fuel : ℕ) (s : Bytes) → length s ≤ fuel → lines_of fuel s ≡ split_lines s
unfolding lines_of split_lines find_byte
lines_of-split_lines zero [] h = refl
lines_of-split_lines (suc fuel) [] h = refl
lines_of-split_lines zero (c ∷ s) h = absurd (omega arith)
lines_of-split_lines (suc fuel) (c ∷ s) h = elim (Bool-cases (c == b'\n')) [
  | inl e ↦
      line_at fuel (c ∷ s) 0 (find_byte_head c s e)
      ∙ ap with_line (lines_of-split_lines fuel s (omega arith))
      ∙ sym (rw e refl)
  | inr e ↦
      with_byte-lines_of c fuel s e
      ∙ ap (with_byte c) (lines_of-split_lines (suc fuel) s (omega arith))
      ∙ sym (rw e refl)
]

pub take_lines-split_lines : (s : Bytes) → take_lines s ≡ split_lines s
unfolding take_lines
take_lines-split_lines s = lines_of-split_lines (length s) s (omega arith)

-- Lines in front of what follows.
abbrev pub then_lines : List Bytes × Bytes → Bytes → List Bytes × Bytes
then_lines (lines, rest) b = let more = split_lines (rest ++ b) in (lines ++ more.0, more.1)

with_line-then :
    (r : List Bytes × Bytes) (b : Bytes) → with_line (then_lines r b) ≡ then_lines (with_line r) b
with_line-then (lines, rest) b = refl

with_byte-then :
    (c : ℕ) (r : List Bytes × Bytes) (b : Bytes)
    → c == b'\n' ≡ false
    → with_byte c (then_lines r b) ≡ then_lines (with_byte c r) b
unfolding split_lines
with_byte-then c ([], rest) b e = rw e refl
with_byte-then c (line ∷ lines, rest) b e = refl

-- Bytes that come in two pieces give the same lines as in one.
pub split_lines-append : (a b : Bytes) → split_lines (a ++ b) ≡ then_lines (split_lines a) b
unfolding split_lines
split_lines-append [] b = refl
split_lines-append (c ∷ a) b = elim (Bool-cases (c == b'\n')) [
  | inl e ↦ rw e (ap with_line (split_lines-append a b) ∙ with_line-then (split_lines a) b)
  | inr e ↦ rw e (ap (with_byte c) (split_lines-append a b) ∙ with_byte-then c (split_lines a) b e)
]

-- A line and its end are one line.
pub split_lines-line :
    (line : Bytes)
    → has_byte b'\n' line ≡ false
    → split_lines (line ++ b'\n' ∷ []) ≡ (line ∷ [], [])
unfolding split_lines has_byte
split_lines-line [] h = refl
split_lines-line (c ∷ line) h = elim (Bool-cases (c == b'\n')) [
  | inl e ↦ absurd (ground arith)
  | inr e ↦ rw e (ap (with_byte c) (split_lines-line line (ground arith)))
]
