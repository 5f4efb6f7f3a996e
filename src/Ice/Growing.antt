-- ===== src/Ice/Growing.antt =====
-- Candidates that come, and the start of the checks: AddLocalCandidate, AddRemoteCandidate,
-- AddNewPairsIncrementalInternal, StartConnectivityChecks, StartReceiving.
use neko_chat.Common.{
  ℕ, ◌+◌, Bool, true, false, ◌&&◌, ◌||◌, not, none, some, List, [], ◌∷◌, ◌++◌, length, ◌==◌,
  if◌then◌else◌,
}
use neko_chat.Common.Text.{Bytes, bytes_eq}
use neko_chat.Ice.Pairs.{
  Candidate, CandidatePair, Surroundings, pair_key, all_pairs, number_pairs, sort_pairs, form_pairs,
}
use neko_chat.Ice.{Agent, start_next_batch}

unfoldable pub has_socket : ℕ → List ℕ → Bool
has_socket sock [] = false
has_socket sock (s ∷ ss) = s == sock || has_socket sock ss

-- StartReceiving: whether the socket can be watched and the first receive be started is the word of
-- `listens`.
unfoldable pub start_receiving : Surroundings → ℕ → Agent → Agent
start_receiving net sock a =
    if has_socket sock a.receiving || not (net.listens sock)
    then a
    else record a { receiving = sock ∷ a.receiving }

-- A candidate of the same address and port is there.
unfoldable pub has_candidate : Candidate → List Candidate → Bool
has_candidate cand [] = false
has_candidate cand (c ∷ cs) = bytes_eq c.ip cand.ip && c.port == cand.port || has_candidate cand cs

unfoldable pub keys_of : List CandidatePair → List Bytes
keys_of [] = []
keys_of (p ∷ ps) = pair_key p.local p.remote ∷ keys_of ps

unfoldable pub has_none : {A : Type 0} → List A → Bool
has_none [] = true
has_none (x ∷ xs) = false

-- AddNewPairsIncrementalInternal; the Boolean is its result.
unfoldable pub add_new_pairs : Surroundings → ℕ → Agent → Agent × Bool
add_new_pairs net now a =
    let found =
      number_pairs a.next_id
        (all_pairs net now a.local_candidates a.remote_candidates (keys_of a.pairs)) in
    if has_none found then (a, false) else (
      record a {
        pairs = sort_pairs (a.pairs ++ found);
        current_pair_index = 0;
        next_id = a.next_id + length found;
      },
      true,
    )

-- While checks run, new pairs are made and tried.
unfoldable pub grow : Surroundings → ℕ → Agent → Agent
grow net now a =
    let (grown, more) = add_new_pairs net now a in
    if not a.started || a.success_notified
    then a
    else if more
    then start_next_batch net now 2 grown
    else grown

-- AddLocalCandidate
unfoldable pub add_local_candidate : Surroundings → ℕ → Candidate → Agent → Agent
add_local_candidate net now cand a =
    let added = record a { local_candidates = a.local_candidates ++ cand ∷ [] } in
    let listening : Agent = elim cand.sock [
      | none ↦ added
      | some sock ↦
          if a.has_port && not (has_socket sock a.receiving)
          then start_receiving net sock added
          else added
    ] in
    if has_candidate cand a.local_candidates then a else grow net now listening

-- AddRemoteCandidate
unfoldable pub add_remote_candidate : Surroundings → ℕ → Candidate → Agent → Agent
add_remote_candidate net now cand a =
    if has_candidate cand a.remote_candidates
    then a
    else grow net now (record a { remote_candidates = a.remote_candidates ++ cand ∷ [] })

-- StartConnectivityChecks; the Boolean is its result.
unfoldable pub start_connectivity_checks : Surroundings → ℕ → Agent → Agent × Bool
start_connectivity_checks net now a =
    let reset = record a {
      success_notified = false;
      current_pair_index = 0;
      last_activity = now;
    } in
    let pairs = form_pairs net now a.next_id a.local_candidates a.remote_candidates in
    let formed = record reset {
      pairs = pairs;
      next_id = a.next_id + length pairs;
      started = true;
      last_check_time = now;
    } in
    if has_none a.local_candidates || has_none a.remote_candidates
    then (reset, false)
    else (start_next_batch net now 4 formed, true)
