-- ===== src/Ice/Numbering.antt =====
-- New pairs have new numbers: AddNewPairsIncrementalInternal and FormPairsInternal with the table of
-- pending requests.
use neko_chat.Common.{
  ℕ, suc, ◌+◌, ◌<◌, ◌≤◌, ◌≡◌, ◌≢◌, refl, sym, ap, ◌∙◌, subst, Bool, ◌&&◌, true, false, ◌||◌, not,
  List, [], ◌∷◌, ◌++◌, length, ltb, All, All-map, All-append, arith, Bool-cases, Option-cases, inl,
  inr, if_either,
}
use neko_chat.Ice.Pairs.{
  Candidate, CandidatePair, Surroundings, all_pairs, number_pairs, insert_pair, sort_pairs,
  form_pairs,
}
use neko_chat.Ice.{Agent}
use neko_chat.Ice.Forming.{All-insert, All-sort}
use neko_chat.Ice.Growing.{
  start_receiving, has_socket, has_candidate, has_none, keys_of, add_new_pairs, grow,
  add_local_candidate, add_remote_candidate, start_connectivity_checks,
}
use neko_chat.Ice.Requests.{Asks, IsDistinct, IsBooked}
use neko_chat.Ice.Booking.{start_next_batch-IsBooked}

number_pairs-range :
    (next : ℕ) (ps : List CandidatePair)
    → All (λ p. (next ≤ p.id) × (p.id < next + length ps)) (number_pairs next ps)
unfolding number_pairs
number_pairs-range next [] = tt
number_pairs-range next (p ∷ ps) = (
  (omega arith, omega arith),
  All-map _ _ (λ q h. (omega (arith, h.0), omega (arith, h.1))) (number_pairs (next + 1) ps)
      (number_pairs-range (next + 1) ps),
)

length-number_pairs :
    (next : ℕ) (ps : List CandidatePair) → length (number_pairs next ps) ≡ length ps
unfolding number_pairs
length-number_pairs next [] = refl
length-number_pairs next (p ∷ ps) = ap suc (length-number_pairs (next + 1) ps)

number_pairs-IsDistinct : (next : ℕ) (ps : List CandidatePair) → IsDistinct (number_pairs next ps)
unfolding number_pairs
number_pairs-IsDistinct next [] = tt
number_pairs-IsDistinct next (p ∷ ps) = (
  All-map _ _ (λ q h e. omega (arith, h.0)) (number_pairs (next + 1) ps)
      (number_pairs-range (next + 1) ps),
  number_pairs-IsDistinct (next + 1) ps,
)

append-IsDistinct :
    (ps qs : List CandidatePair)
    → All (λ p. All (λ q. q.id ≢ p.id) qs) ps
    → IsDistinct ps
    → IsDistinct qs
    → IsDistinct (ps ++ qs)
append-IsDistinct [] qs apart h k = k
append-IsDistinct (p ∷ ps) qs apart h k =
    (All-append _ ps qs h.0 apart.0, append-IsDistinct ps qs apart.1 h.1 k)

insert_pair-IsDistinct :
    (p : CandidatePair) (ps : List CandidatePair)
    → All (λ q. q.id ≢ p.id) ps
    → IsDistinct ps
    → IsDistinct (insert_pair p ps)
unfolding insert_pair
insert_pair-IsDistinct p [] new h = (tt, tt)
insert_pair-IsDistinct p (q ∷ qs) new h = elim (Bool-cases (ltb p.priority q.priority)) [
  | inl e ↦ rw e (
    All-insert (λ r. r.id ≢ q.id) p qs (λ k. new.0 (sym k)) h.0,
    insert_pair-IsDistinct p qs new.1 h.1,
  )
  | inr e ↦ rw e (new, h)
]

sort_pairs-IsDistinct : (ps : List CandidatePair) → IsDistinct ps → IsDistinct (sort_pairs ps)
unfolding sort_pairs
sort_pairs-IsDistinct [] h = tt
sort_pairs-IsDistinct (p ∷ ps) h =
    insert_pair-IsDistinct p (sort_pairs ps) (All-sort _ ps h.0) (sort_pairs-IsDistinct ps h.1)

length-insert_pair :
    (p : CandidatePair) (ps : List CandidatePair) → length (insert_pair p ps) ≡ suc (length ps)
unfolding insert_pair
length-insert_pair p [] = refl
length-insert_pair p (q ∷ qs) = elim (Bool-cases (ltb p.priority q.priority)) [
  | inl e ↦ rw e (ap suc (length-insert_pair p qs))
  | inr e ↦ rw e refl
]

length-sort_pairs : (ps : List CandidatePair) → length (sort_pairs ps) ≡ length ps
unfolding sort_pairs
length-sort_pairs [] = refl
length-sort_pairs (p ∷ ps) = length-insert_pair p (sort_pairs ps) ∙ ap suc (length-sort_pairs ps)

-- Pairs that are kept, and new ones.
renewed :
    (a : Agent) (kept new : List CandidatePair)
    → All (λ p. p.id < a.next_id) kept
    → IsDistinct kept
    → All (λ e. (e.1 < a.next_id) × All (Asks e.0 e.1) kept) a.pending
    → let found = number_pairs a.next_id new in
      IsBooked (record a { pairs = sort_pairs (kept ++ found); next_id = a.next_id + length found })
renewed a kept new numbered distinct booked =
    let found = number_pairs a.next_id new in
    let range = number_pairs-range a.next_id new in
    let size = length-number_pairs a.next_id new in
    let InRange : CandidatePair → Type 0 =
      λ q. (a.next_id ≤ q.id) × (q.id < a.next_id + length new) in
    record {
      numbered = All-sort _ (kept ++ found) (
          All-append _ kept found
            (All-map _ _ (λ (p : CandidatePair) (h : p.id < a.next_id). omega (arith, h)) kept
              numbered)
            (All-map _ _ (λ (p : CandidatePair) (h : InRange p). omega (arith, h.1, size)) found
              range));
      distinct = sort_pairs-IsDistinct (kept ++ found) (
          append-IsDistinct kept found
            (All-map _ _
              (λ (p : CandidatePair) (h : p.id < a.next_id).
                All-map InRange (λ (q : CandidatePair). q.id ≢ p.id)
                  (λ (q : CandidatePair) (k : InRange q) (e : q.id ≡ p.id).
                    absurd (omega (arith, k.0)))
                  found range)
              kept numbered)
            distinct (number_pairs-IsDistinct a.next_id new));
      booked =
          All-map _ _
            (λ e k. (
              omega (arith, k.0),
              All-sort (Asks e.0 e.1) (kept ++ found) (
                  All-append (Asks e.0 e.1) kept found k.1 (
                    All-map InRange (Asks e.0 e.1)
                      (λ (q : CandidatePair) (r : InRange q) own.
                        absurd (omega (arith, r.0, k.0, own)))
                      found range)),
            ))
            a.pending booked;
    }

module _ (net : Surroundings) (now : ℕ) where
  add_new_pairs-IsBooked : (a : Agent) → IsBooked a → IsBooked (add_new_pairs net now a).0
  unfolding add_new_pairs
  add_new_pairs-IsBooked a h =
      let new = all_pairs net now a.local_candidates a.remote_candidates (keys_of a.pairs) in
      let k = renewed a a.pairs new h.numbered h.distinct h.booked in
      if_either (λ (r : Agent × Bool). IsBooked r.0) (has_none (number_pairs a.next_id new)) _ _ h
        (record { numbered = k.numbered; distinct = k.distinct; booked = k.booked })

  grow-IsBooked : (a : Agent) → IsBooked a → IsBooked (grow net now a)
  unfolding grow
  grow-IsBooked a h =
      let k = add_new_pairs-IsBooked a h in
      if_either IsBooked (not a.started || a.success_notified) _ _ h (
        if_either IsBooked (add_new_pairs net now a).1 _ _ (start_next_batch-IsBooked net now 2 _ k)
          k)

  pub add_remote_candidate-IsBooked :
      (cand : Candidate) (a : Agent) → IsBooked a → IsBooked (add_remote_candidate net now cand a)
  unfolding add_remote_candidate
  add_remote_candidate-IsBooked cand a h =
      if_either IsBooked (has_candidate cand a.remote_candidates) _ _ h (
        grow-IsBooked _
          (record { numbered = h.numbered; distinct = h.distinct; booked = h.booked }))

  pub start_connectivity_checks-IsBooked :
      (a : Agent) → IsBooked a → IsBooked (start_connectivity_checks net now a).0
  unfolding start_connectivity_checks form_pairs
  start_connectivity_checks-IsBooked a h =
      let new = all_pairs net now a.local_candidates a.remote_candidates [] in
      let k = renewed a [] new tt tt (All-map _ _ (λ e r. (r.0, tt)) a.pending h.booked) in
      if_either (λ (r : Agent × Bool). IsBooked r.0)
        (has_none a.local_candidates || has_none a.remote_candidates) _ _
        (record { numbered = h.numbered; distinct = h.distinct; booked = h.booked })
        (start_next_batch-IsBooked net now 4 _ (
          subst
            (λ (n : ℕ). IsBooked (record a {
              success_notified = false;
              current_pair_index = 0;
              last_activity = now;
              pairs = sort_pairs (number_pairs a.next_id new);
              next_id = a.next_id + n;
              started = true;
              last_check_time = now;
            }))
            (sym (length-sort_pairs (number_pairs a.next_id new)))
            (record { numbered = k.numbered; distinct = k.distinct; booked = k.booked })))

  listening-IsBooked : (sock : ℕ) (a : Agent) → IsBooked a → IsBooked (start_receiving net sock a)
  unfolding start_receiving
  listening-IsBooked sock a h =
      if_either IsBooked (has_socket sock a.receiving || not (net.listens sock)) _ _ h
        (record { numbered = h.numbered; distinct = h.distinct; booked = h.booked })

  pub add_local_candidate-IsBooked :
      (cand : Candidate) (a : Agent) → IsBooked a → IsBooked (add_local_candidate net now cand a)
  unfolding add_local_candidate has_candidate
  add_local_candidate-IsBooked cand a h =
      let added = record a { local_candidates = a.local_candidates ++ cand ∷ [] } in
      let k : IsBooked added = record {
        numbered = h.numbered;
        distinct = h.distinct;
        booked = h.booked;
      } in
      elim (Option-cases cand.sock) [
        | inl e ↦
            rw (e, add_local_candidate)
              (if_either IsBooked (has_candidate cand a.local_candidates) _ _ h
                (grow-IsBooked added k))
        | inr (sock, e) ↦
            rw (e, add_local_candidate)
              (if_either IsBooked (has_candidate cand a.local_candidates) _ _ h (
                grow-IsBooked _ (
                  if_either IsBooked (a.has_port && not (has_socket sock a.receiving)) _ _
                    (listening-IsBooked sock added k) k)))
      ]
