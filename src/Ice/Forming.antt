-- ===== src/Ice/Forming.antt =====
-- FormPairsInternal: the order of the pairs and what each of them is.
use neko_chat.Common.{
  ℕ, ◌+◌, ◌≤◌, ◌≡◌, refl, none, List, [], ◌∷◌, ltb, All, All-append, arith, Bool-cases, inl, inr,
  if_either,
}
use neko_chat.Common.Text.{Bytes}
use neko_chat.Ice.Pairs.{
  Candidate, CandidatePair, waiting, Surroundings, compute_pair_priority, new_pair, is_seen,
  pair_key, pairs_of, all_pairs, number_pairs, insert_pair, sort_pairs, form_pairs,
}

-- No pair has a higher priority than one before it.
abbrev pub IsFalling : List CandidatePair → Type 0
IsFalling [] = Unit {0}
IsFalling (p ∷ ps) = All (λ q. q.priority ≤ p.priority) ps × IsFalling ps

-- A pair that no check has touched yet.
pub record IsNew (net : Surroundings) (p : CandidatePair) : Type 0 where
  pub untouched : p.state ≡ waiting
  pub ranked : p.priority ≡ compute_pair_priority net p.local p.remote
  pub own_socket : p.socket ≡ p.local.sock
  pub unasked : p.active_tid ≡ none

pub All-insert :
    (P : CandidatePair → Type 0) (p : CandidatePair) (ps : List CandidatePair)
    → P p
    → All P ps
    → All P (insert_pair p ps)
unfolding insert_pair
All-insert P p [] h k = (h, tt)
All-insert P p (q ∷ qs) h k = elim (Bool-cases (ltb p.priority q.priority)) [
  | inl e ↦ rw e (k.0, All-insert P p qs h k.1)
  | inr e ↦ rw e (h, k)
]

pub All-sort :
    (P : CandidatePair → Type 0) (ps : List CandidatePair) → All P ps → All P (sort_pairs ps)
unfolding sort_pairs
All-sort P [] h = tt
All-sort P (p ∷ ps) h = All-insert P p (sort_pairs ps) h.0 (All-sort P ps h.1)

All-below :
    (m n : ℕ) (ps : List CandidatePair)
    → m ≤ n
    → All (λ q. q.priority ≤ m) ps
    → All (λ q. q.priority ≤ n) ps
All-below m n [] h k = tt
All-below m n (p ∷ ps) h k = (omega (arith, k.0), All-below m n ps h k.1)

insert_pair-IsFalling :
    (p : CandidatePair) (ps : List CandidatePair) → IsFalling ps → IsFalling (insert_pair p ps)
unfolding insert_pair
insert_pair-IsFalling p [] h = (tt, tt)
insert_pair-IsFalling p (q ∷ qs) h = elim (Bool-cases (ltb p.priority q.priority)) [
  | inl e ↦ rw e (
    All-insert (λ r. r.priority ≤ q.priority) p qs (ground arith) h.0,
    insert_pair-IsFalling p qs h.1,
  )
  | inr e ↦
      let low : q.priority ≤ p.priority = ground arith in
      rw e ((low, All-below q.priority p.priority qs low h.0), h)
]

pub sort_pairs-IsFalling : (ps : List CandidatePair) → IsFalling (sort_pairs ps)
unfolding sort_pairs
sort_pairs-IsFalling [] = tt
sort_pairs-IsFalling (p ∷ ps) = insert_pair-IsFalling p (sort_pairs ps) (sort_pairs-IsFalling ps)

module _ (net : Surroundings) (now : ℕ) where
  pairs_of-IsNew :
      (local : Candidate) (remotes : List Candidate) (seen : List Bytes)
      → All (IsNew net) (pairs_of net now local remotes seen).0
  unfolding pairs_of new_pair
  pairs_of-IsNew local [] seen = tt
  pairs_of-IsNew local (remote ∷ remotes) seen =
      let key = pair_key local remote in
      let old = pairs_of net now local remotes seen in
      let new = pairs_of net now local remotes (key ∷ seen) in
      if_either (λ (r : List CandidatePair × List Bytes). All (IsNew net) r.0) (is_seen key seen)
        (old.0, old.1) (new_pair net now local remote ∷ new.0, new.1)
        (pairs_of-IsNew local remotes seen)
        (
          record { untouched = refl; ranked = refl; own_socket = refl; unasked = refl },
          pairs_of-IsNew local remotes (key ∷ seen),
        )

  pub all_pairs-IsNew :
      (locals remotes : List Candidate) (seen : List Bytes)
      → All (IsNew net) (all_pairs net now locals remotes seen)
  unfolding all_pairs
  all_pairs-IsNew [] remotes seen = tt
  all_pairs-IsNew (local ∷ locals) remotes seen =
      All-append (IsNew net) _ _ (pairs_of-IsNew local remotes seen)
        (all_pairs-IsNew locals remotes _)

  pub number_pairs-IsNew :
      (next : ℕ) (ps : List CandidatePair)
      → All (IsNew net) ps
      → All (IsNew net) (number_pairs next ps)
  unfolding number_pairs
  number_pairs-IsNew next [] h = tt
  number_pairs-IsNew next (p ∷ ps) h = (
    record {
      untouched = h.0.untouched;
      ranked = h.0.ranked;
      own_socket = h.0.own_socket;
      unasked = h.0.unasked;
    },
    number_pairs-IsNew (next + 1) ps h.1,
  )

  -- The pairs that are formed stand in falling order of priority, and each waits, with the priority
  -- of its two candidates, on the socket of its local one, with no request under way.
  pub form_pairs-IsFalling :
      (next : ℕ) (locals remotes : List Candidate)
      → IsFalling (form_pairs net now next locals remotes)
        × All (IsNew net) (form_pairs net now next locals remotes)
  unfolding form_pairs
  form_pairs-IsFalling next locals remotes = (
    sort_pairs-IsFalling (number_pairs next (all_pairs net now locals remotes [])),
    All-sort (IsNew net) _ (number_pairs-IsNew next _ (all_pairs-IsNew locals remotes [])),
  )
