-- ===== src/Ice/Booking.antt =====
-- The batches and retries, the candidates that come, and the table of pending requests.
use neko_chat.Common.{
  ℕ, zero, suc, ◌+◌, ◌-◌, ◌≡◌, refl, sym, Bool, ◌&&◌, none, some, get_elem?, length, leb, ◌==◌,
  if◌then◌else◌, Option-cases, inl, inr, if_either,
}
use neko_chat.Ice.Pairs.{CandidatePair, Surroundings, may_start, is_failed, in_progress, failed}
use neko_chat.Ice.{
  Agent, exhausted, report, set_pair, send_binding_request, check_pair, check_at, check_pairs,
  fail_at, start_pair, start_pairs, start_next_batch, check_pair_timeouts,
}
use neko_chat.Ice.Trying.{get-set}
use neko_chat.Ice.Requests.{
  IsBooked, SameRequest, set_pair-IsBooked, drop_request-IsReleased, send_binding_request-IsBooked,
}

module _ (net : Surroundings) (now : ℕ) where
  check_pair-IsBooked :
      (i : ℕ) (p : CandidatePair) (a : Agent)
      → get_elem? a.pairs i ≡ some p
      → IsBooked a
      → IsBooked (check_pair net now i p a).0
  unfolding check_pair set_pair
  check_pair-IsBooked i p a e h =
      let P = λ (r : Agent × Bool). IsBooked r.0 in
      let retried : CandidatePair = record p { retry_count = p.retry_count + 1; last_sent = now } in
      let retry = set_pair i retried a in
      let r =
        drop_request-IsReleased i retried retried retry (get-set a.pairs i retried e)
          (record { id = refl; socket = refl; active_tid = refl })
          (set_pair-IsBooked i p retried a e
            (record { id = refl; socket = refl; active_tid = refl }) h) in
      if_either P _ _ _ h (
        if_either P _ _ _
          (send_binding_request-IsBooked i net (record retried { active_tid = none }) r.pair _
            r.here (record { id = sym r.id; socket = sym r.socket; active_tid = sym r.idle })
            r.books)
          (set_pair-IsBooked i p (record p { state = failed }) a e
            (record { id = refl; socket = refl; active_tid = refl }) h))

  check_at-IsBooked : (i : ℕ) (a : Agent) → IsBooked a → IsBooked (check_at net now i a).0
  unfolding check_at
  check_at-IsBooked i a h = elim (Option-cases (get_elem? a.pairs i)) [
    | inl e ↦ rw (e, check_at) h
    | inr (p, e) ↦ rw (e, check_at) (check_pair-IsBooked i p a e h)
  ]

  check_pairs-IsBooked :
      (i left : ℕ) (a : Agent) → IsBooked a → IsBooked (check_pairs net now i left a).0
  unfolding check_pairs
  check_pairs-IsBooked i zero a h = h
  check_pairs-IsBooked i (suc left) a h =
      check_pairs-IsBooked (i + 1) left (check_at net now i a).0 (check_at-IsBooked i a h)

  fail_at-IsBooked : (i : ℕ) (a : Agent) → IsBooked a → IsBooked (fail_at i a)
  unfolding fail_at
  fail_at-IsBooked i a h = elim (Option-cases (get_elem? a.pairs i)) [
    | inl e ↦ rw (e, fail_at) h
    | inr (p, e) ↦
        rw (e, fail_at)
          (set_pair-IsBooked i p (record p { state = failed }) a e
            (record { id = refl; socket = refl; active_tid = refl }) h)
  ]

  start_pair-IsBooked :
      (i : ℕ) (p : CandidatePair) (a : Agent)
      → get_elem? a.pairs i ≡ some p
      → IsBooked a
      → IsBooked (start_pair net now i p a).0
  unfolding start_pair set_pair
  start_pair-IsBooked i p a e h =
      let begun : CandidatePair = record p {
        state = in_progress;
        retry_count = if is_failed p.state then 0 else p.retry_count;
        last_sent = now;
        last_activity = now;
      } in
      let same : SameRequest p begun = record { id = refl; socket = refl; active_tid = refl } in
      let asked = (send_binding_request net i begun (set_pair i begun a)).0 in
      let sent = (send_binding_request net i begun (set_pair i begun a)).1 in
      let k : IsBooked asked =
        send_binding_request-IsBooked i net begun begun (set_pair i begun a)
          (get-set a.pairs i begun e) (record { id = refl; socket = refl; active_tid = refl })
          (set_pair-IsBooked i p begun a e same h) in
      let m = if_either IsBooked sent asked (fail_at i asked) k (fail_at-IsBooked i asked k) in
      record { numbered = m.numbered; distinct = m.distinct; booked = m.booked }

  start_pairs-IsBooked :
      (max_parallel i left started : ℕ) (a : Agent)
      → IsBooked a
      → IsBooked (start_pairs net now max_parallel i left started a).0
  unfolding start_pairs
  start_pairs-IsBooked max_parallel i zero started a h = h
  start_pairs-IsBooked max_parallel i (suc left) started a h =
      let P = λ (r : Agent × ℕ). IsBooked r.0 in
      let skipped = start_pairs-IsBooked max_parallel (i + 1) left started a h in
      elim (Option-cases (get_elem? a.pairs i)) [
        | inl e ↦ rw (e, start_pairs) (if_either P (leb max_parallel started) _ _ h skipped)
        | inr (p, e) ↦
            rw (e, start_pairs)
              (if_either P (leb max_parallel started) _ _ h (
                if_either P (may_start p.state) _ _
                  (start_pairs-IsBooked max_parallel (i + 1) left _ (start_pair net now i p a).0
                    (start_pair-IsBooked i p a e h))
                  skipped))
      ]

  pub start_next_batch-IsBooked :
      (max_parallel : ℕ) (a : Agent)
      → IsBooked a
      → IsBooked (start_next_batch net now max_parallel a)
  unfolding start_next_batch report
  start_next_batch-IsBooked max_parallel a h =
      let i = a.current_pair_index in
      let k = start_pairs-IsBooked max_parallel i (length a.pairs - i) 0 a h in
      let (next, started) = start_pairs net now max_parallel i (length a.pairs - i) 0 a in
      if_either IsBooked (started == 0 && leb (length next.pairs) next.current_pair_index)
        (report exhausted next) next
        (record { numbered = k.numbered; distinct = k.distinct; booked = k.booked }) k

  pub check_pair_timeouts-IsBooked :
      (a : Agent) → IsBooked a → IsBooked (check_pair_timeouts net now a)
  unfolding check_pair_timeouts
  check_pair_timeouts-IsBooked a h =
      let k = check_pairs-IsBooked 0 (length a.pairs) a h in
      if_either IsBooked (check_pairs net now 0 (length a.pairs) a).1 _ _
        (start_next_batch-IsBooked 2 _ k) k
