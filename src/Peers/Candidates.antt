-- ===== src/Peers/Candidates.antt =====
-- Candidates as text in P2PChat.cpp: TryParseCandidateMessage and the text that SendCandidate is
-- given. What `%d` gives for a number that no int holds is a parameter: C leaves it open.
pub mod RoundTrip
use neko_chat.Common.{
  ℕ, zero, suc, ◌+◌, ◌-◌, ◌*◌, ◌%◌, ◌^◌, Bool, true, false, ◌&&◌, ◌||◌, Option, none, some, List,
  [], ◌∷◌, ◌++◌, length, take, drop, leb, ltb, ◌==◌, if◌then◌else◌,
}
use neko_chat.Common.Options.{◌>>=◌}
use neko_chat.Common.Text.{Bytes, codes, is_empty, starts_with}
use neko_chat.Common.Decimal.{to_string, value_from}
use neko_chat.Signal.Client.{c_string}
use neko_chat.Ice.Pairs.{Candidate, CandidateType, host, server_reflexive, is_host}
use neko_chat.Peers.Users.{is_space, trim_front}

-- An address and a port with the colon between.
unfoldable pub endpoint_text : Bytes → ℕ → Bytes
endpoint_text ip port = ip ++ b':' ∷ to_string port

-- `candStr`
unfoldable pub candidate_text : Candidate → Bytes
candidate_text cand =
    if is_host cand.kind
    then codes "host " ++ endpoint_text cand.ip cand.port
    else codes "srflx "
      ++ (endpoint_text cand.ip cand.port
          ++ (codes " related " ++ endpoint_text cand.related_ip cand.related_port))

-- A word of a format: a directive's own characters, and white space for any white space.
unfoldable pub scan_word : Bytes → Bytes → Option Bytes
scan_word [] s = some s
scan_word (p ∷ ps) [] = if is_space p then scan_word ps [] else none
scan_word (p ∷ ps) (c ∷ s) =
    if is_space p
    then scan_word ps (trim_front (c ∷ s))
    else if p == c
    then scan_word ps s
    else none

-- `%63[^:]`, `width` characters at most: what is read and what is left.
unfoldable pub scan_until_colon : ℕ → Bytes → Bytes × Bytes
scan_until_colon zero s = ([], s)
scan_until_colon (suc width) [] = ([], [])
scan_until_colon (suc width) (c ∷ s) =
    let (read, left) = scan_until_colon width s in
    if c == b':' then ([], c ∷ s) else (c ∷ read, left)

unfoldable pub scan_address : Bytes → Option (Bytes × Bytes)
scan_address s =
    let (read, left) = scan_until_colon 63 s in if is_empty read then none else some (read, left)

unfoldable pub is_digit : ℕ → Bool
is_digit c = leb b'0' c && leb c b'9'

unfoldable pub scan_digits : Bytes → Bytes × Bytes
scan_digits [] = ([], [])
scan_digits (c ∷ s) =
    let (read, left) = scan_digits s in if is_digit c then (c ∷ read, left) else ([], c ∷ s)

-- `static_cast<uint16_t>` of an int of the sign and the size
unfoldable pub port_of : Bool → ℕ → ℕ
port_of negative n = if negative then (2 ^ 16 - n % 2 ^ 16) % 2 ^ 16 else n % 2 ^ 16

-- A sign may stand before the digits of `%d`.
unfoldable pub scan_sign : Bytes → Bool × Bytes
scan_sign [] = (false, [])
scan_sign (c ∷ s) =
    if c == b'-' then (true, s) else if c == b'+' then (false, s) else (false, c ∷ s)

-- `%d` and the conversion of what it gives to a port.
unfoldable pub scan_port : (Bool → Bytes → ℕ) → Bytes → Option (ℕ × Bytes)
scan_port wide s =
    let (negative, unsigned) = scan_sign (trim_front s) in
    let (digits, left) = scan_digits unsigned in
    let n = value_from 0 digits in
    if is_empty digits
    then none
    else some (if ltb n (2 ^ 31) then port_of negative n else wide negative digits, left)

-- `%63[^:]:%d`
unfoldable pub scan_endpoint : (Bool → Bytes → ℕ) → Bytes → Option (Bytes × ℕ × Bytes)
scan_endpoint wide s = do
  (ip, colon) ← scan_address s
  number ← scan_word (codes ":") colon
  (port, left) ← scan_port wide number
  some (ip, port, left)

-- `host %63[^:]:%d`
unfoldable pub parse_host : (Bool → Bytes → ℕ) → Bytes → Option Candidate
parse_host wide text = do
  s ← scan_word (codes "host ") text
  (ip, port, left) ← scan_endpoint wide s
  some
      (record { kind = host; ip = ip; port = port; sock = none; related_ip = []; related_port = 0 })

-- `srflx %63[^:]:%d related %63[^:]:%d`
unfoldable pub parse_srflx : (Bool → Bytes → ℕ) → Bytes → Option Candidate
parse_srflx wide text = do
  s ← scan_word (codes "srflx ") text
  (ip, port, rest) ← scan_endpoint wide s
  r ← scan_word (codes " related ") rest
  (related_ip, related_port, left) ← scan_endpoint wide r
  some (record {
    kind = server_reflexive;
    ip = ip;
    port = port;
    sock = none;
    related_ip = related_ip;
    related_port = related_port;
  })

-- TryParseCandidateMessage on a new Candidate; none for false.
unfoldable pub try_parse_candidate_message : (Bool → Bytes → ℕ) → Bytes → Option Candidate
try_parse_candidate_message wide message =
    if starts_with (codes "host") message
    then parse_host wide (c_string message)
    else if starts_with (codes "srflx") message
    then parse_srflx wide (c_string message)
    else none
