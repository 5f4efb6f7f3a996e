-- ===== src/Ice/Frames.antt =====
-- What the loops of CheckPairTimeouts and StartNextBatch leave of a pair that they do not touch.
use neko_chat.Common.{
  ℕ, zero, suc, ◌+◌, ◌-◌, ◌<◌, ◌≤◌, ◌≡◌, ◌≢◌, refl, ap, ◌∙◌, Bool, ◌||◌, ◌&&◌, not, none, some,
  List, [], ◌∷◌, get_elem?, set, ltb, leb, ◌==◌, arith, Bool-cases, Option-cases, inl, inr, subst,
  if_either, length, if◌then◌else◌,
}
use neko_chat.Ice.{
  Agent, set_pair, drop_request, send_binding_request, check_pair, check_at, check_pairs, fail_at,
  start_pair, start_pairs, start_next_batch, report,
}
use neko_chat.Ice.Pairs.{
  CandidatePair, in_progress, failed, is_in_progress, is_failed, may_start, Surroundings,
}

get-set_ne :
    (ps : List CandidatePair) (j i : ℕ) (q : CandidatePair)
    → j ≢ i
    → get_elem? (set ps j q) i ≡ get_elem? ps i
get-set_ne [] j i q ne = refl
get-set_ne (x ∷ ps) zero zero q ne = absurd (ne refl)
get-set_ne (x ∷ ps) zero (suc i) q ne = refl
get-set_ne (x ∷ ps) (suc j) zero q ne = refl
get-set_ne (x ∷ ps) (suc j) (suc i) q ne = get-set_ne ps j i q (λ e. ne (ap suc e))

-- The pair at `i`, the settings, and that its turn to be started is over.
pub record IsKept (i : ℕ) (a b : Agent) : Type 0 where
  pub pair : get_elem? b.pairs i ≡ get_elem? a.pairs i
  pub limit : b.max_retries ≡ a.max_retries
  pub patience : b.retry_timeout_ms ≡ a.retry_timeout_ms
  pub behind : i < a.current_pair_index → i < b.current_pair_index

pub IsKept-refl : (i : ℕ) (a : Agent) → IsKept i a a
IsKept-refl i a = record { pair = refl; limit = refl; patience = refl; behind = λ h. h }

pub IsKept-trans : (i : ℕ) {a b c : Agent} → IsKept i a b → IsKept i b c → IsKept i a c
IsKept-trans i h k = record {
  pair = k.pair ∙ h.pair;
  limit = k.limit ∙ h.limit;
  patience = k.patience ∙ h.patience;
  behind = λ l. k.behind (h.behind l);
}

module _ (net : Surroundings) (i j : ℕ) (ne : j ≢ i) where
  set_pair-IsKept : (p : CandidatePair) (a : Agent) → IsKept i a (set_pair j p a)
  unfolding set_pair
  set_pair-IsKept p a = record {
    pair = get-set_ne a.pairs j i p ne;
    limit = refl;
    patience = refl;
    behind = λ h. h;
  }

  drop_request-IsKept : (p : CandidatePair) (a : Agent) → IsKept i a (drop_request j p a)
  unfolding drop_request set_pair
  drop_request-IsKept p a = elim (Option-cases p.active_tid) [
    | inl e ↦ rw (e, drop_request) (IsKept-refl i a)
    | inr (tid, e) ↦
        rw (e, drop_request)
          (record {
            pair = get-set_ne a.pairs j i (record p { active_tid = none }) ne;
            limit = refl;
            patience = refl;
            behind = λ h. h;
          })
  ]

  send-IsKept : (p : CandidatePair) (a : Agent) → IsKept i a (send_binding_request net j p a).0
  unfolding send_binding_request set_pair
  send-IsKept p a = elim (Option-cases p.socket) [
    | inl e ↦ rw (e, send_binding_request) (IsKept-refl i a)
    | inr (socket, e) ↦
        let d = drop_request-IsKept p a in
        elim (Option-cases (net.parse_ipv4 p.remote.ip)) [
          | inl f ↦ rw (e, f, send_binding_request) d
          | inr (addr, f) ↦
              rw (e, f, send_binding_request)
                (if_either (λ (r : Agent × Bool). IsKept i a r.0) (net.sends a.calls) _ _
                  (record {
                    pair =
                        get-set_ne (drop_request j p a).pairs j i
                          (record p { active_tid = some (net.tids a.calls) }) ne
                        ∙ d.pair;
                    limit = d.limit;
                    patience = d.patience;
                    behind = d.behind;
                  })
                  (record {
                    pair = d.pair;
                    limit = d.limit;
                    patience = d.patience;
                    behind = d.behind;
                  }))
        ]
  ]

  pub check_at-IsKept : (now : ℕ) (a : Agent) → IsKept i a (check_at net now j a).0
  unfolding check_at check_pair
  check_at-IsKept now a = elim (Option-cases (get_elem? a.pairs j)) [
    | inl e ↦ rw (e, check_at) (IsKept-refl i a)
    | inr (p, e) ↦
        let retried : CandidatePair = record p {
          retry_count = p.retry_count + 1;
          last_sent = now;
        } in
        let P = λ (r : Agent × Bool). IsKept i a r.0 in
        rw (e, check_at)
          (if_either P (not (is_in_progress p.state) || leb (now - p.last_sent) a.retry_timeout_ms)
            _ _ (IsKept-refl i a)
            (if_either P (ltb p.retry_count a.max_retries) _ _
              (IsKept-trans i (set_pair-IsKept retried a) (
                IsKept-trans i (drop_request-IsKept retried (set_pair j retried a))
                  (send-IsKept (record retried { active_tid = none }) _)))
              (set_pair-IsKept (record p { state = failed }) a)))
  ]

  fail_at-IsKept : (a : Agent) → IsKept i a (fail_at j a)
  unfolding fail_at
  fail_at-IsKept a = elim (Option-cases (get_elem? a.pairs j)) [
    | inl e ↦ rw (e, fail_at) (IsKept-refl i a)
    | inr (p, e) ↦ rw (e, fail_at) (set_pair-IsKept (record p { state = failed }) a)
  ]

  start_pair-IsKept :
      (now : ℕ) (p : CandidatePair) (a : Agent) → i < j → IsKept i a (start_pair net now j p a).0
  unfolding start_pair
  start_pair-IsKept now p a after =
      let begun : CandidatePair = record p {
        state = in_progress;
        retry_count = if is_failed p.state then 0 else p.retry_count;
        last_sent = now;
        last_activity = now;
      } in
      let sent = send_binding_request net j begun (set_pair j begun a) in
      let asked =
        IsKept-trans i (set_pair-IsKept begun a) (send-IsKept begun (set_pair j begun a)) in
      let tried =
        if_either (λ (b : Agent). IsKept i a b) sent.1 sent.0 (fail_at j sent.0) asked
          (IsKept-trans i asked (fail_at-IsKept sent.0)) in
      record {
        pair = tried.pair;
        limit = tried.limit;
        patience = tried.patience;
        behind = λ h. omega (arith, after);
      }

module _ (net : Surroundings) (now i : ℕ) where
  pub check_pairs-IsKept :
      (left j : ℕ) (a : Agent) → i < j → IsKept i a (check_pairs net now j left a).0
  unfolding check_pairs
  check_pairs-IsKept zero j a after = IsKept-refl i a
  check_pairs-IsKept (suc left) j a after =
      IsKept-trans i (check_at-IsKept net i j (λ e. omega (arith, e, after)) now a)
        (check_pairs-IsKept left (j + 1) (check_at net now j a).0 (omega (arith, after)))

  -- The loop checks the pair at `i` once; before and after that it leaves it.
  pub check_pairs-checks :
      (left j : ℕ) (a : Agent)
      → j ≤ i
      → i < j + left
      → (b : Agent) × IsKept i a b
        × IsKept i (check_at net now i b).0 (check_pairs net now j left a).0
  unfolding check_pairs
  check_pairs-checks zero j a from to = absurd (omega (arith, from, to))
  check_pairs-checks (suc left) j a from to = elim (Bool-cases (j == i)) [
    | inl e ↦
        let here : j ≡ i = ground (arith, e) in
        (
          a,
          IsKept-refl i a,
          subst
              (λ (k : ℕ). IsKept i (check_at net now k a).0 (check_pairs net now j (suc left) a).0)
              here (check_pairs-IsKept left (j + 1) (check_at net now j a).0 (omega (arith, here))),
        )
    | inr e ↦
        let other : j ≢ i = λ q. ground (arith, e, q) in
        let (b, before, after) =
          check_pairs-checks left (j + 1) (check_at net now j a).0 (omega (arith, other, from))
            (omega (arith, to)) in
        (b, IsKept-trans i (check_at-IsKept net i j other now a) before, after)
  ]

  start_pairs-IsKept :
      (left limit j started : ℕ) (a : Agent)
      → i < j
      → IsKept i a (start_pairs net now limit j left started a).0
  unfolding start_pairs
  start_pairs-IsKept zero limit j started a after = IsKept-refl i a
  start_pairs-IsKept (suc left) limit j started a after =
      let P = λ (r : Agent × ℕ). IsKept i a r.0 in
      let skipped = start_pairs-IsKept left limit (j + 1) started a (omega (arith, after)) in
      if_either P (leb limit started) _ _ (IsKept-refl i a)
        (elim (Option-cases (get_elem? a.pairs j)) [
          | inl e ↦ rw e skipped
          | inr (p, e) ↦ rw e (
              if_either P (may_start p.state) _ _
                (IsKept-trans i
                  (start_pair-IsKept net i j (λ q. omega (arith, q, after)) now p a after)
                  (start_pairs-IsKept left limit (j + 1) _ _ (omega (arith, after))))
                skipped)
        ])

  -- A batch starts no pair whose turn is over.
  pub start_next_batch-IsKept :
      (limit : ℕ) (a : Agent)
      → i < a.current_pair_index
      → IsKept i a (start_next_batch net now limit a)
  unfolding start_next_batch report
  start_next_batch-IsKept limit a turn =
      let k = a.current_pair_index in
      let h = start_pairs-IsKept (length a.pairs - k) limit k 0 a turn in
      let next = start_pairs net now limit k (length a.pairs - k) 0 a in
      if_either (λ (b : Agent). IsKept i a b)
        (next.1 == 0 && leb (length next.0.pairs) next.0.current_pair_index) _ _
        (record { pair = h.pair; limit = h.limit; patience = h.patience; behind = h.behind }) h
