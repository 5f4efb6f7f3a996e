-- ===== src/Ice/Turns.antt =====
-- A call of CheckPairTimeouts and a pair whose turn to be started is over.
use neko_chat.Common.{
  ℕ, zero, suc, ◌+◌, ◌-◌, ◌<◌, ◌≡◌, refl, ◌∙◌, Bool, ◌||◌, not, none, get_elem?, ltb, leb, arith,
  Option-cases, inl, inr, if_either, length,
}
use neko_chat.Ice.{
  Agent, set_pair, drop_request, send_binding_request, check_pair, check_at, check_pairs,
  start_next_batch, check_pair_timeouts,
}
use neko_chat.Ice.Pairs.{CandidatePair, is_in_progress, Surroundings}
use neko_chat.Ice.Frames.{IsKept, IsKept-trans, check_pairs-checks, start_next_batch-IsKept}

-- The checks themselves start nothing.
module _ (net : Surroundings) where
  drop_request-index :
      (j : ℕ) (p : CandidatePair) (a : Agent)
      → (drop_request j p a).current_pair_index ≡ a.current_pair_index
  unfolding drop_request set_pair
  drop_request-index j p a = elim (Option-cases p.active_tid) [
    | inl e ↦ rw (e, drop_request) refl
    | inr (tid, e) ↦ rw (e, drop_request) refl
  ]

  send-index :
      (j : ℕ) (p : CandidatePair) (a : Agent)
      → (send_binding_request net j p a).0.current_pair_index ≡ a.current_pair_index
  unfolding send_binding_request set_pair
  send-index j p a = elim (Option-cases p.socket) [
    | inl e ↦ rw (e, send_binding_request) refl
    | inr (socket, e) ↦
        let d = drop_request-index j p a in
        elim (Option-cases (net.parse_ipv4 p.remote.ip)) [
          | inl f ↦ rw (e, f, send_binding_request) d
          | inr (addr, f) ↦
              rw (e, f, send_binding_request)
                (if_either (λ (r : Agent × Bool). r.0.current_pair_index ≡ a.current_pair_index)
                  (net.sends a.calls) _ _ d d)
        ]
  ]

  check_at-index :
      (now j : ℕ) (a : Agent) → (check_at net now j a).0.current_pair_index ≡ a.current_pair_index
  unfolding check_at check_pair set_pair
  check_at-index now j a = elim (Option-cases (get_elem? a.pairs j)) [
    | inl e ↦ rw (e, check_at) refl
    | inr (p, e) ↦
        let retried : CandidatePair = record p {
          retry_count = p.retry_count + 1;
          last_sent = now;
        } in
        let P = λ (r : Agent × Bool). r.0.current_pair_index ≡ a.current_pair_index in
        rw (e, check_at)
          (if_either P (not (is_in_progress p.state) || leb (now - p.last_sent) a.retry_timeout_ms)
            _ _ refl
            (if_either P (ltb p.retry_count a.max_retries) _ _
              (send-index j (record retried { active_tid = none }) _
                ∙ drop_request-index j retried _)
              refl))
  ]

  check_pairs-index :
      (now left j : ℕ) (a : Agent)
      → (check_pairs net now j left a).0.current_pair_index ≡ a.current_pair_index
  unfolding check_pairs
  check_pairs-index now zero j a = refl
  check_pairs-index now (suc left) j a =
      check_pairs-index now left (j + 1) (check_at net now j a).0 ∙ check_at-index now j a

  -- CheckPairTimeouts checks a pair whose turn is over once, and otherwise leaves it.
  pub timeouts-checks :
      (now i : ℕ) (a : Agent)
      → i < length a.pairs
      → i < a.current_pair_index
      → (b : Agent) × IsKept i a b
        × IsKept i (check_at net now i b).0 (check_pair_timeouts net now a)
        × (i < (check_pair_timeouts net now a).current_pair_index)
  unfolding check_pair_timeouts
  timeouts-checks now i a there turn =
      let (b, before, after) =
        check_pairs-checks net now i (length a.pairs) 0 a (omega arith) (omega (arith, there)) in
      let checked = check_pairs net now 0 (length a.pairs) a in
      let turn' : i < checked.0.current_pair_index =
        omega (arith, check_pairs-index now (length a.pairs) 0 a, turn) in
      let batch = start_next_batch-IsKept net now i 2 checked.0 turn' in
      let P = λ (c : Agent). IsKept i (check_at net now i b).0 c × (i < c.current_pair_index) in
      let (kept, past) =
        if_either P checked.1 (start_next_batch net now 2 checked.0) checked.0
          (IsKept-trans i after batch, batch.behind turn') (after, turn') in
      (b, before, kept, past)
