-- ===== src/Peers/Candidates/RoundTrip.antt =====
-- TryParseCandidateMessage reads what candidateStr writes.
use neko_chat.Common.{
  ℕ, zero, suc, ◌^◌, ◌≤◌, ◌<◌, Bool, true, false, none, some, [], ◌∷◌, ◌++◌, All, length, lt→ltb,
  ◌==◌, if◌then◌else◌, ◌≡◌, refl, sym, ap, ◌∙◌, subst, append_assoc, append-nil, arith, inl, inr,
  Bool-cases,
}
use neko_chat.Common.Text.{Bytes, codes, is_empty, starts_with, has_byte, has_byte-append}
use neko_chat.Common.Decimal.{
  to_string, value_from, value_from-to_string, IsDigit, to_string-IsDigit, to_string-cons,
  has_byte-to_string,
}
use neko_chat.Signal.Relay.Parsing.{c_string-plain}
use neko_chat.Ice.Pairs.{Candidate, CandidateType, host, server_reflexive, is_host}
use neko_chat.Peers.Users.{is_space, trim_front}
use neko_chat.Peers.Candidates.{
  endpoint_text, candidate_text, scan_word, scan_until_colon, scan_address, is_digit, scan_digits,
  port_of, scan_sign, scan_port, scan_endpoint, parse_host, parse_srflx,
  try_parse_candidate_message,
}

-- What an address in text is: not empty, at most 63 characters, none of them a colon, white space or
-- a zero byte.
pub record IsAddress (ip : Bytes) : Type 0 where
  pub filled : is_empty ip ≡ false
  pub short : length ip ≤ 63
  pub no_colon : has_byte b':' ip ≡ false
  pub no_zero : has_byte 0 ip ≡ false
  pub no_space : All (λ c. is_space c ≡ false) ip

trim_front-address : (ip s : Bytes) → IsAddress ip → trim_front (ip ++ s) ≡ ip ++ s
unfolding trim_front is_empty
trim_front-address [] s h = absurd (let e = h.filled in cc)
trim_front-address (c ∷ ip) s h = rw h.no_space.0 refl

scan_until_colon-append :
    (width : ℕ) (ip s : Bytes)
    → length ip ≤ width
    → has_byte b':' ip ≡ false
    → scan_until_colon width (ip ++ b':' ∷ s) ≡ (ip, b':' ∷ s)
unfolding scan_until_colon has_byte
scan_until_colon-append zero [] s l h = refl
scan_until_colon-append zero (c ∷ ip) s l h = absurd (omega arith)
scan_until_colon-append (suc width) [] s l h = refl
scan_until_colon-append (suc width) (c ∷ ip) s l h = elim (Bool-cases (c == b':')) [
  | inl q ↦ absurd (ground arith)
  | inr q ↦ rw q (
      ap (λ (r : Bytes × Bytes). (c ∷ r.0, r.1))
        (scan_until_colon-append width ip s (omega arith) (ground arith)))
]

is_digit-IsDigit : (d : ℕ) → IsDigit d → is_digit d ≡ true
unfolding is_digit
is_digit-IsDigit d h = ground arith

scan_digits-append :
    (ds s : Bytes) → All IsDigit ds → scan_digits s ≡ ([], s) → scan_digits (ds ++ s) ≡ (ds, s)
unfolding scan_digits
scan_digits-append [] s h e = e
scan_digits-append (d ∷ ds) s h e =
    rw (is_digit-IsDigit d h.0)
      (ap (λ (r : Bytes × Bytes). (d ∷ r.0, r.1)) (scan_digits-append ds s h.1 e))

trim_front-digit : (d : ℕ) (s : Bytes) → IsDigit d → trim_front (d ∷ s) ≡ d ∷ s
unfolding trim_front is_space
trim_front-digit d s h = ground arith

scan_sign-digit : (d : ℕ) (s : Bytes) → IsDigit d → scan_sign (d ∷ s) ≡ (false, d ∷ s)
unfolding scan_sign
scan_sign-digit d s h = ground arith

-- `scan_port` from the place where its parts are known.
scan_port-parts :
    (wide : Bool → Bytes → ℕ) (t u digits left : Bytes) (n : ℕ)
    → scan_sign (trim_front t) ≡ (false, u)
    → scan_digits u ≡ (digits, left)
    → is_empty digits ≡ false
    → value_from 0 digits ≡ n
    → n < 2 ^ 16
    → scan_port wide t ≡ some (n, left)
unfolding scan_port port_of
scan_port-parts wide t u digits left n sign scanned filled v small =
    rw (sign, scanned, filled, v, lt→ltb n (2 ^ 31) (omega arith))
      (ap (λ m. some (m, left)) (omega arith))

scan_port-to_string :
    (wide : Bool → Bytes → ℕ) (n : ℕ) (s : Bytes)
    → n < 2 ^ 16
    → scan_digits s ≡ ([], s)
    → scan_port wide (to_string n ++ s) ≡ some (n, s)
unfolding is_empty
scan_port-to_string wide n s small e =
    let (d, ds, q) = to_string-cons n in
    let digits : All IsDigit (d ∷ ds) = subst (All IsDigit) q (to_string-IsDigit n) in
    let v : value_from 0 (d ∷ ds) ≡ n =
      subst (λ t. value_from 0 t ≡ n) q (value_from-to_string n) in
    subst (λ t. scan_port wide (t ++ s) ≡ some (n, s)) (sym q)
      (scan_port-parts wide (d ∷ ds ++ s) (d ∷ ds ++ s) (d ∷ ds) s n
        (ap scan_sign (trim_front-digit d (ds ++ s) digits.0)
          ∙ scan_sign-digit d (ds ++ s) digits.0)
        (scan_digits-append (d ∷ ds) s digits e) refl v small)

scan_address-append :
    (ip s : Bytes) → IsAddress ip → scan_address (ip ++ b':' ∷ s) ≡ some (ip, b':' ∷ s)
unfolding scan_address
scan_address-append ip s h = rw (scan_until_colon-append 63 ip s h.short h.no_colon, h.filled) refl

scan_endpoint-text :
    (wide : Bool → Bytes → ℕ) (ip : Bytes) (port : ℕ) (s : Bytes)
    → IsAddress ip
    → port < 2 ^ 16
    → scan_digits s ≡ ([], s)
    → scan_endpoint wide (endpoint_text ip port ++ s) ≡ some (ip, port, s)
unfolding scan_endpoint endpoint_text scan_word is_space
scan_endpoint-text wide ip port s h small e =
    rw
      (
        append_assoc ip (b':' ∷ to_string port) s,
        scan_address-append ip (to_string port ++ s) h,
        scan_port-to_string wide port s small e,
      )
      refl

trim_front-endpoint :
    (ip : Bytes) (port : ℕ) (s : Bytes)
    → IsAddress ip
    → trim_front (endpoint_text ip port ++ s) ≡ endpoint_text ip port ++ s
unfolding endpoint_text
trim_front-endpoint ip port s h =
    subst (λ t. trim_front t ≡ t) (sym (append_assoc ip (b':' ∷ to_string port) s))
      (trim_front-address ip (b':' ∷ to_string port ++ s) h)

-- The words of the formats, whose white space skips none of an address.
scan_host :
    (ip : Bytes) (port : ℕ)
    → IsAddress ip
    → scan_word (codes "host ") (codes "host " ++ endpoint_text ip port)
      ≡ some (endpoint_text ip port)
unfolding scan_word trim_front is_space endpoint_text
scan_host ip port h = ap some (trim_front-address ip (b':' ∷ to_string port) h)

scan_srflx :
    (ip : Bytes) (port : ℕ) (s : Bytes)
    → IsAddress ip
    → scan_word (codes "srflx ") (codes "srflx " ++ (endpoint_text ip port ++ s))
      ≡ some (endpoint_text ip port ++ s)
unfolding scan_word trim_front is_space
scan_srflx ip port s h = ap some (trim_front-endpoint ip port s h)

scan_related :
    (ip : Bytes) (port : ℕ)
    → IsAddress ip
    → scan_word (codes " related ") (codes " related " ++ endpoint_text ip port)
      ≡ some (endpoint_text ip port)
unfolding scan_word trim_front is_space endpoint_text
scan_related ip port h = ap some (trim_front-address ip (b':' ∷ to_string port) h)

has_byte-endpoint :
    (ip : Bytes) (port : ℕ) → IsAddress ip → has_byte 0 (endpoint_text ip port) ≡ false
unfolding endpoint_text has_byte
has_byte-endpoint ip port h =
    ground
      (arith, has_byte-append 0 ip (b':' ∷ to_string port), has_byte-to_string 0 port, h.no_zero)

-- The candidate that is read: the socket stays here, and a host has no related address.
abbrev pub as_received : Candidate → Candidate
as_received cand =
    if is_host cand.kind
    then record cand { sock = none; related_ip = []; related_port = 0 }
    else record cand { sock = none }

-- A candidate that has an address, and unless it is a host a related address.
pub record IsSendable (cand : Candidate) : Type 0 where
  pub address : IsAddress cand.ip
  pub port : cand.port < 2 ^ 16
  pub related : is_host cand.kind ≡ false → IsAddress cand.related_ip
  pub related_port : cand.related_port < 2 ^ 16

scan_endpoint-end :
    (wide : Bool → Bytes → ℕ) (ip : Bytes) (port : ℕ)
    → IsAddress ip
    → port < 2 ^ 16
    → scan_endpoint wide (endpoint_text ip port) ≡ some (ip, port, [])
unfolding scan_digits
scan_endpoint-end wide ip port h small =
    ap (scan_endpoint wide) (sym (append-nil (endpoint_text ip port)))
    ∙ scan_endpoint-text wide ip port [] h small refl

parse_host-text :
    (wide : Bool → Bytes → ℕ) (ip : Bytes) (port : ℕ)
    → IsAddress ip
    → port < 2 ^ 16
    → parse_host wide (codes "host " ++ endpoint_text ip port)
      ≡ some (record {
        kind = host;
        ip = ip;
        port = port;
        sock = none;
        related_ip = [];
        related_port = 0;
      })
unfolding parse_host
parse_host-text wide ip port h small =
    rw (scan_host ip port h, scan_endpoint-end wide ip port h small) refl

parse_srflx-text :
    (wide : Bool → Bytes → ℕ) (ip rip : Bytes) (port rport : ℕ)
    → IsAddress ip
    → port < 2 ^ 16
    → IsAddress rip
    → rport < 2 ^ 16
    → parse_srflx wide (
        codes "srflx " ++ (endpoint_text ip port ++ (codes " related " ++ endpoint_text rip rport)))
      ≡ some (record {
        kind = server_reflexive;
        ip = ip;
        port = port;
        sock = none;
        related_ip = rip;
        related_port = rport;
      })
unfolding parse_srflx scan_digits is_digit
parse_srflx-text wide ip rip port rport h small rh rsmall =
    rw
      (
        scan_srflx ip port (codes " related " ++ endpoint_text rip rport) h,
        scan_endpoint-text wide ip port (codes " related " ++ endpoint_text rip rport) h small refl,
        scan_related rip rport rh,
        scan_endpoint-end wide rip rport rh rsmall,
      )
      refl

host-plain :
    (ip : Bytes) (port : ℕ)
    → IsAddress ip
    → has_byte 0 (codes "host " ++ endpoint_text ip port) ≡ false
unfolding has_byte
host-plain ip port h = has_byte-endpoint ip port h

srflx-plain :
    (ip rip : Bytes) (port rport : ℕ)
    → IsAddress ip
    → IsAddress rip
    → has_byte 0 (
        codes "srflx " ++ (endpoint_text ip port ++ (codes " related " ++ endpoint_text rip rport)))
      ≡ false
unfolding has_byte
srflx-plain ip rip port rport h rh = ground (
  arith,
  has_byte-append 0 (endpoint_text ip port) (codes " related " ++ endpoint_text rip rport),
  has_byte-endpoint ip port h,
  has_byte-endpoint rip rport rh,
)

candidate_of : CandidateType → Candidate → Candidate
candidate_of kind cand = record cand { kind = kind }

parse-text_of :
    (wide : Bool → Bytes → ℕ) (kind : CandidateType) (cand : Candidate)
    → IsSendable (candidate_of kind cand)
    → try_parse_candidate_message wide (candidate_text (candidate_of kind cand))
      ≡ some (as_received (candidate_of kind cand))
unfolding try_parse_candidate_message candidate_text starts_with is_host candidate_of
parse-text_of wide host cand h =
    ap (parse_host wide) (c_string-plain _ (host-plain cand.ip cand.port h.address))
    ∙ parse_host-text wide cand.ip cand.port h.address h.port
parse-text_of wide server_reflexive cand h =
    let related = h.related refl in
    ap (parse_srflx wide) (
      c_string-plain _
        (srflx-plain cand.ip cand.related_ip cand.port cand.related_port h.address related))
    ∙ parse_srflx-text wide cand.ip cand.related_ip cand.port cand.related_port h.address h.port
        related h.related_port

-- The text of a candidate, as it is sent through the signalling server, is read as this candidate,
-- without its socket and for a host without a related address, if its addresses are not empty, have
-- at most 63 characters and no colon, no white space and no zero byte.
pub parse-candidate_text :
    (wide : Bool → Bytes → ℕ) (cand : Candidate)
    → IsSendable cand
    → try_parse_candidate_message wide (candidate_text cand) ≡ some (as_received cand)
unfolding candidate_of
parse-candidate_text wide cand h = parse-text_of wide cand.kind cand h
