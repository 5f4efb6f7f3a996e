-- ===== src/Files/Names/Safety.antt =====
-- What a sanitized file name looks like.
use neko_chat.Common.{
  ℕ, zero, suc, ◌-◌, ◌≤◌, ◌≡◌, refl, ap, true, false, ◌&&◌, ◌||◌, Option, none, some, [], ◌∷◌, ◌++◌,
  map, take, length, ltb, leb, ◌==◌, if◌then◌else◌, arith, All, All-append, length-append,
  length-take, Bool-cases, inl, inr, ◌↔◌, append-nil,
}
use neko_chat.Common.Text.{Bytes, is_empty}
use neko_chat.Files.Names.{
  is_allowed, safe_char, dot_at_head, split_last_dot, split_name, path_split, trim_end, or_fallback,
  shorten, sanitize_file_name, path_filename, max_file_name_bytes,
}

abbrev Allowed : ℕ → Type 0
Allowed c = is_allowed c ≡ true

-- Letters, digits, dot, underscore, dash and space only, and not empty.
abbrev pub IsSafeName : Bytes → Type 0
IsSafeName s = All (λ c. is_allowed c ≡ true) s × (is_empty s ≡ false)

safe_char-Allowed : (c : ℕ) → Allowed (safe_char c)
unfolding safe_char is_allowed
safe_char-Allowed c = ground arith

map-Allowed : (s : Bytes) → All Allowed (map safe_char s)
map-Allowed [] = tt
map-Allowed (c ∷ s) = (safe_char-Allowed c, map-Allowed s)

trim_end-Allowed : (s : Bytes) → All Allowed s → All Allowed (trim_end s)
unfolding trim_end
trim_end-Allowed [] h = tt
trim_end-Allowed (c ∷ s) h = elim (Bool-cases (is_empty (trim_end s) && (c == b' ' || c == b'.'))) [
  | inl e ↦ rw e tt
  | inr e ↦ rw e (h.0, trim_end-Allowed s h.1)
]

take-Allowed : (n : ℕ) (s : Bytes) → All Allowed s → All Allowed (take n s)
take-Allowed zero s h = tt
take-Allowed (suc n) [] h = tt
take-Allowed (suc n) (c ∷ s) h = (h.0, take-Allowed n s h.1)

or_fallback-IsSafeName : (s : Bytes) → All Allowed s → IsSafeName (or_fallback s)
unfolding or_fallback is_allowed is_empty
or_fallback-IsSafeName [] h =
    ((refl, (refl, (refl, (refl, (refl, (refl, (refl, (refl, tt)))))))), refl)
or_fallback-IsSafeName (c ∷ s) h = (h, refl)

-- The two parts of a name are the name.
abbrev Joins : Bytes → Option (Bytes × Bytes) → Type 0
Joins s none = Unit {0}
Joins s (some p) = p.0 ++ p.1 ≡ s

dot_at_head-Joins :
    (c : ℕ) (s : Bytes) (o : Option (Bytes × Bytes)) → Joins s o → Joins (c ∷ s) (dot_at_head c s o)
unfolding dot_at_head
dot_at_head-Joins c s (some (a, b)) h = ap (◌∷◌ c) h
dot_at_head-Joins c s none h = elim (Bool-cases (c == b'.')) [ inl e ↦ rw e refl | inr e ↦ rw e tt ]

split_last_dot-Joins : (s : Bytes) → Joins s (split_last_dot s)
unfolding split_last_dot
split_last_dot-Joins [] = tt
split_last_dot-Joins (c ∷ s) = dot_at_head-Joins c s (split_last_dot s) (split_last_dot-Joins s)

split_name-append :
    (s : Bytes) (o : Option (Bytes × Bytes))
    → Joins s o
    → (split_name s o).0 ++ (split_name s o).1 ≡ s
unfolding split_name
split_name-append s none h = append-nil s
split_name-append s (some ([], b)) h = append-nil s
split_name-append s (some (c ∷ a, b)) h = h

path_split-append : (s : Bytes) → (path_split s).0 ++ (path_split s).1 ≡ s
unfolding path_split
path_split-append s = split_name-append s (split_last_dot s) (split_last_dot-Joins s)

All-parts : (xs ys : Bytes) → All Allowed (xs ++ ys) → All Allowed xs × All Allowed ys
All-parts [] ys h = (tt, h)
All-parts (x ∷ xs) ys h = let r = All-parts xs ys h.1 in ((h.0, r.0), r.1)

path_split-Allowed :
    (s : Bytes) → All Allowed s → All Allowed (path_split s).0 × All Allowed (path_split s).1
path_split-Allowed s h = All-parts (path_split s).0 (path_split s).1 (rw path_split-append h)

shorten-IsSafeName : (s : Bytes) → All Allowed s → IsSafeName (shorten s)
unfolding shorten
shorten-IsSafeName s h =
    let r = path_split-Allowed s h in
    or_fallback-IsSafeName _ (All-append Allowed _ _ (take-Allowed _ _ r.0) r.1)

-- Whatever name a peer sends, the sanitized name has only letters, digits, `.`, `_`, `-` and space,
-- and is not empty.
pub sanitize_file_name-IsSafeName : (original : Bytes) → IsSafeName (sanitize_file_name original)
unfolding sanitize_file_name
sanitize_file_name-IsSafeName original =
    let safe : Bytes =
      or_fallback (trim_end (map safe_char (or_fallback (path_filename original)))) in
    let h : IsSafeName safe = or_fallback-IsSafeName _ (trim_end-Allowed _ (map-Allowed _)) in
    elim (Bool-cases (ltb max_file_name_bytes (length safe))) [
      | inl e ↦ rw e (shorten-IsSafeName safe h.0)
      | inr e ↦ rw e h
    ]

-- The sanitized name before the truncation.
abbrev cleaned : Bytes → Bytes
cleaned original = or_fallback (trim_end (map safe_char (or_fallback (path_filename original))))

length-or_fallback : (s : Bytes) (n : ℕ) → 8 ≤ n → length s ≤ n → length (or_fallback s) ≤ n
unfolding or_fallback
length-or_fallback [] n h k = h
length-or_fallback (c ∷ s) n h k = k

length-or_fallback_ge : (s : Bytes) → length s ≤ length (or_fallback s)
unfolding or_fallback
length-or_fallback_ge [] = omega arith
length-or_fallback_ge (c ∷ s) = omega arith

length-shorten_le : (s : Bytes) → length (path_split s).1 ≤ 240 → length (shorten s) ≤ 240
unfolding shorten
length-shorten_le s h = length-or_fallback _ 240 (omega arith) (
    ground (
      arith,
      length-append
          (take (if leb 240 (length (path_split s).1) then 0 else 240 - length (path_split s).1)
            (path_split s).0)
          (path_split s).1,
      length-take (if leb 240 (length (path_split s).1) then 0 else 240 - length (path_split s).1)
          (path_split s).0,
    ))

length-shorten_ge : (s : Bytes) → length (path_split s).1 ≤ length (shorten s)
unfolding shorten
length-shorten_ge s = omega (
  arith,
  length-append
      (take (if leb 240 (length (path_split s).1) then 0 else 240 - length (path_split s).1)
        (path_split s).0)
      (path_split s).1,
  length-or_fallback_ge (
      take (if leb 240 (length (path_split s).1) then 0 else 240 - length (path_split s).1)
        (path_split s).0
      ++ (path_split s).1),
)

-- The truncation keeps a name to 240 bytes exactly when its extension has at most 240 bytes.
pub length-shorten_iff : (s : Bytes) → (length (shorten s) ≤ 240) ↔ (length (path_split s).1 ≤ 240)
length-shorten_iff s = ((λ h. omega (arith, length-shorten_ge s)), length-shorten_le s)
