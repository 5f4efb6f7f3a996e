-- ===== src/Files/Names.antt =====
-- SanitizeFileName, MakeIncomingFileKey and MakeFileAckKey of P2PChat.cpp, with what they use of
-- std::filesystem::path on Windows: root names, separators and the last dot, but no conversion
-- between character sets, which can throw.
pub mod Safety
pub mod Keys
use neko_chat.Common.{
  ℕ, zero, suc, ◌+◌, ◌-◌, ◌*◌, ◌^◌, ◌≤◌, ◌<◌, ◌≡◌, refl, Bool, true, false, not, ◌&&◌, ◌||◌, Option,
  none, some, List, [], ◌∷◌, ◌++◌, map, take, drop, length, ltb, leb, ◌==◌, if◌then◌else◌, arith,
}
use neko_chat.Common.Text.{Bytes, codes, is_empty}
use neko_chat.Common.Decimal.{to_string}

abbrev pub max_file_name_bytes : ℕ
max_file_name_bytes = 240

abbrev pub in_range : ℕ → ℕ → ℕ → Bool
in_range lo hi c = leb lo c && leb c hi

-- std::isalnum in the "C" locale
abbrev is_letter : ℕ → Bool
is_letter c = in_range b'A' b'Z' c || in_range b'a' b'z' c

abbrev is_alnum : ℕ → Bool
is_alnum c = in_range b'0' b'9' c || is_letter c

unfoldable pub is_allowed : ℕ → Bool
is_allowed c = is_alnum c || c == b'.' || c == b'_' || c == b'-' || c == b' '

-- The body of the loop over the name's characters.
unfoldable pub safe_char : ℕ → ℕ
safe_char c = if is_allowed c then c else b'_'

abbrev is_separator : ℕ → Bool
is_separator c = c == b'/' || c == b'\\'

has_separator : Bytes → Bool
has_separator [] = false
has_separator (c ∷ s) = is_separator c || has_separator s

-- path::filename: what follows the last separator, or the root name.
last_component : Bytes → Bytes
unfolding has_separator
last_component [] = []
last_component (c ∷ s) =
    if has_separator s then last_component s else if is_separator c then s else c ∷ s

-- The root name of a path goes: a drive like `C:`, or a server like `\\server`.
starts_with_name : Bytes → Bool
starts_with_name [] = false
starts_with_name (c ∷ s) = not (is_separator c)

without_server : Bytes → Bytes
without_server [] = []
without_server (c ∷ s) = let rest = without_server s in if is_separator c then c ∷ s else rest

without_root : Bytes → Bytes
unfolding starts_with_name without_server
without_root [] = []
without_root (c ∷ []) = c ∷ []
without_root (c ∷ d ∷ s) =
    if is_letter c && d == b':'
    then s
    else if is_separator c && is_separator d && starts_with_name s
    then without_server s
    else c ∷ d ∷ s

unfoldable pub path_filename : Bytes → Bytes
unfolding last_component without_root
path_filename s = last_component (without_root s)

-- The last dot of a name: what stands before it, and what it begins.
dot_at_head : ℕ → Bytes → Option (Bytes × Bytes) → Option (Bytes × Bytes)
dot_at_head c s (some (a, b)) = some (c ∷ a, b)
dot_at_head c s none = if c == b'.' then some ([], c ∷ s) else none

split_last_dot : Bytes → Option (Bytes × Bytes)
unfolding dot_at_head
split_last_dot [] = none
split_last_dot (c ∷ s) = dot_at_head c s (split_last_dot s)

-- path::stem and path::extension of a name without separators; a leading dot begins no extension.
split_name : Bytes → Option (Bytes × Bytes) → Bytes × Bytes
split_name s none = (s, [])
split_name s (some ([], b)) = (s, [])
split_name s (some (c ∷ a, b)) = (c ∷ a, b)

unfoldable pub path_split : Bytes → Bytes × Bytes
unfolding split_last_dot split_name
path_split s = split_name s (split_last_dot s)

-- The loop that pops spaces and dots off the end.
unfoldable pub trim_end : Bytes → Bytes
trim_end [] = []
trim_end (c ∷ s) =
    let rest = trim_end s in if is_empty rest && (c == b' ' || c == b'.') then [] else c ∷ rest

abbrev pub fallback_name : Bytes
fallback_name = codes "file.bin"

unfoldable pub or_fallback : Bytes → Bytes
or_fallback [] = fallback_name
or_fallback (c ∷ s) = c ∷ s

-- The truncation to max_file_name_bytes, which keeps the extension.
unfoldable pub shorten : Bytes → Bytes
unfolding path_split
shorten s =
    let (stem, ext) = path_split s in
    let max_stem =
      if leb max_file_name_bytes (length ext) then 0 else max_file_name_bytes - length ext in
    or_fallback (take max_stem stem ++ ext)

-- SanitizeFileName
unfoldable pub sanitize_file_name : Bytes → Bytes
sanitize_file_name original =
    let name = or_fallback (path_filename original) in
    let sanitized = or_fallback (trim_end (map safe_char name)) in
    if ltb max_file_name_bytes (length sanitized) then shorten sanitized else sanitized

-- MakeIncomingFileKey
unfoldable pub make_incoming_file_key : Bytes → ℕ → Bytes
make_incoming_file_key peer_id transfer_id = peer_id ++ b'#' ∷ to_string transfer_id

-- MakeFileAckKey; the shift and the `|` of 32-bit halves are a sum.
unfoldable pub make_file_ack_key : ℕ → ℕ → ℕ
make_file_ack_key transfer_id chunk_index = transfer_id * 2 ^ 32 + chunk_index
