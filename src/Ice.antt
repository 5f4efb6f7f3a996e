-- ===== src/Ice.antt =====
-- IceAgent: its state, and the requests, batches and retries of a connectivity check. A loop over
-- m_pairs knows a pair by its place; the table of requests, which outlives the order, by its `id`.
pub mod Pairs
pub mod Frames
pub mod Turns
pub mod Trying
pub mod Retries
pub mod Forming
pub mod Growing
pub mod Incoming
pub mod Requests
pub mod Booking
pub mod Numbering
pub mod Reaching
pub mod Connecting
pub mod Running
pub mod Naming
mod Tests
use neko_chat.Common.{
  ℕ, zero, suc, ◌+◌, ◌-◌, ◌*◌, ◌/◌, ◌^◌, Bool, true, false, ◌&&◌, ◌||◌, not, Option, none, some,
  List, [], ◌∷◌, ◌++◌, length, get_elem?, set, ltb, leb, ◌==◌, ==_iff, if◌then◌else◌, ◌↔◌, arith,
  ◌≡◌,
}
use neko_chat.Common.Text.{Bytes, bytes_eq}
use neko_chat.Common.Assoc.{Map, Key, nat_key, bytes_key, lookup, put, erase}
use neko_chat.Common.Decimal.{to_string}
use neko_chat.Stun.{Address}
use neko_chat.Ice.Pairs.{
  CandidateType, is_host, Candidate, PairState, is_in_progress, may_start, is_failed, CandidatePair,
  is_private_or_shared_ipv4, is_link_local_ipv4, are_likely_same_subnet, Surroundings, host_major,
  hosts_major, major_of, same_subnet, compute_pair_priority, pair_key, new_pair, is_seen, pairs_of,
  all_pairs, insert_pair, sort_pairs, form_pairs, host, server_reflexive, waiting, in_progress,
  succeeded, failed,
}

-- What an agent says to the program: the callback of the checks, text on the console, the callbacks
-- for audio, screen and file packets, and the packets that it sends beside binding requests.
pub data Report : Type 0 where
  connected : CandidatePair → Report
  exhausted : Report
  text : Bytes → Bytes → Report
  audio : Bytes → Report
  screen : Bytes → Report
  file : Bytes → Report
  response : ℕ → Address → Bytes → Report
  ping : ℕ → Candidate → Report

-- The members of IceAgent. `receiving` is the sockets of m_recvContexts, `calls` counts the binding
-- requests that were sent or tried, `next_id` is the number of the next pair that is made, and
-- `reports` is what was said so far. An active socket of none is INVALID_SOCKET.
pub record Agent : Type 0 where
  pub peer_id : Bytes
  pub has_port : Bool
  pub local_candidates : List Candidate
  pub remote_candidates : List Candidate
  pub receiving : List ℕ
  pub success_notified : Bool
  pub active_socket : Option ℕ
  pub active_remote : Candidate
  pub last_activity : ℕ
  pub started : Bool
  pub last_check_time : ℕ
  pub next_id : ℕ
  pub reports : List Report
  pub pairs : List CandidatePair
  pub pending : Map (List ℕ) ℕ
  pub current_pair_index : ℕ
  pub max_retries : ℕ
  pub retry_timeout_ms : ℕ
  pub calls : ℕ

-- PendingKey
abbrev pub request_key : Option ℕ → ℕ → List ℕ
request_key none tid = tid ∷ []
request_key (some socket) tid = socket ∷ tid ∷ []

unfoldable pub set_pair : ℕ → CandidatePair → Agent → Agent
set_pair i p a = record a { pairs = set a.pairs i p }

-- The pending request of a pair goes, and its transaction id.
unfoldable pub drop_request : ℕ → CandidatePair → Agent → Agent
drop_request i p a = elim p.active_tid [
  | none ↦ a
  | some tid ↦
      set_pair i (record p { active_tid = none })
        (record a { pending = erase (request_key p.socket tid) a.pending })
]

-- SendBindingRequest for the pair at `i`, which is `p`.
unfoldable pub send_binding_request : Surroundings → ℕ → CandidatePair → Agent → Agent × Bool
send_binding_request net i p a = elim p.socket [
  | none ↦ (a, false)
  | some socket ↦
      let dropped = drop_request i p a in
      let tid = net.tids a.calls in
      let called = record dropped { calls = dropped.calls + 1 } in
      let sent =
        set_pair i (record p { active_tid = some tid })
          (record called { pending = put (request_key p.socket tid) p.id called.pending }) in
      elim (net.parse_ipv4 p.remote.ip) [
        | none ↦ (dropped, false)
        | some addr ↦ if net.sends a.calls then (sent, true) else (called, false)
      ]
]

-- The body of the loop of CheckPairTimeouts for the pair at `i`, which is `p`; the Boolean is
-- whether it has failed.
unfoldable pub check_pair : Surroundings → ℕ → ℕ → CandidatePair → Agent → Agent × Bool
check_pair net now i p a =
    let retried = record p { retry_count = p.retry_count + 1; last_sent = now } in
    let retry = set_pair i retried a in
    let dropped = drop_request i retried retry in
    if not (is_in_progress p.state) || leb (now - p.last_sent) a.retry_timeout_ms
    then (a, false)
    else if ltb p.retry_count a.max_retries
    then ((send_binding_request net i (record retried { active_tid = none }) dropped).0, false)
    else (set_pair i (record p { state = failed }) a, true)

unfoldable pub check_at : Surroundings → ℕ → ℕ → Agent → Agent × Bool
check_at net now i a = elim (get_elem? a.pairs i) [
  | none ↦ (a, false)
  | some p ↦ check_pair net now i p a
]

-- The loop of CheckPairTimeouts from `i` on, `left` pairs, as one step: the loop leaves m_cs around
-- each SendBindingRequest, and no other call comes in between here.
unfoldable pub check_pairs : Surroundings → ℕ → ℕ → ℕ → Agent → Agent × Bool
check_pairs net now i zero a = (a, false)
check_pairs net now i (suc left) a =
    let (checked, gone) = check_at net now i a in
    let (rest, more) = check_pairs net now (i + 1) left checked in (rest, gone || more)

-- A pair whose request was not sent.
unfoldable pub fail_at : ℕ → Agent → Agent
fail_at i a = elim (get_elem? a.pairs i) [
  | none ↦ a
  | some p ↦ set_pair i (record p { state = failed }) a
]

-- StartNextBatch for the pair at `i`, which is `p`: whether its request was sent.
unfoldable pub start_pair : Surroundings → ℕ → ℕ → CandidatePair → Agent → Agent × Bool
start_pair net now i p a =
    let begun = record p {
      state = in_progress;
      retry_count = if is_failed p.state then 0 else p.retry_count;
      last_sent = now;
      last_activity = now;
    } in
    let (asked, sent) = send_binding_request net i begun (set_pair i begun a) in
    let tried = if sent then asked else fail_at i asked in
    (record tried { current_pair_index = i + 1 }, sent)

-- The loop of StartNextBatch from `i` on, `left` pairs; the number is `started`. It is one step too,
-- though the loop leaves m_cs around each SendBindingRequest.
unfoldable pub start_pairs : Surroundings → ℕ → ℕ → ℕ → ℕ → ℕ → Agent → Agent × ℕ
start_pairs net now max_parallel i zero started a = (a, started)
start_pairs net now max_parallel i (suc left) started a =
    let skipped = start_pairs net now max_parallel (i + 1) left started a in
    let tried : CandidatePair → Agent × ℕ = λ p.
      let (next, sent) = start_pair net now i p a in
      start_pairs net now max_parallel (i + 1) left (if sent then started + 1 else started) next in
    if leb max_parallel started then (a, started) else elim (get_elem? a.pairs i) [
      | none ↦ skipped
      | some p ↦ if may_start p.state then tried p else skipped
    ]

unfoldable pub report : Report → Agent → Agent
report r a = record a { reports = a.reports ++ r ∷ [] }

-- StartNextBatch
unfoldable pub start_next_batch : Surroundings → ℕ → ℕ → Agent → Agent
start_next_batch net now max_parallel a =
    let i = a.current_pair_index in
    let (next, started) = start_pairs net now max_parallel i (length a.pairs - i) 0 a in
    if started == 0 && leb (length next.pairs) next.current_pair_index
    then report exhausted next
    else next

-- CheckPairTimeouts
unfoldable pub check_pair_timeouts : Surroundings → ℕ → Agent → Agent
check_pair_timeouts net now a =
    let (checked, need_more_pairs) = check_pairs net now 0 (length a.pairs) a in
    if need_more_pairs then start_next_batch net now 2 checked else checked
