-- ===== src/Ice/Reaching.antt =====
-- Every step of an agent and the table of pending requests.
use neko_chat.Common.{
  ℕ, ◌<◌, ◌≡◌, ◌≢◌, refl, sym, ap, ◌∙◌, subst, none, some, List, [], ◌∷◌, ◌==◌, All, All-map,
  All-zip, arith, Bool-cases, inl, inr, if_either, if_cases, some_inj,
}
use neko_chat.Common.Assoc.{bytes_key, lookup, erase, erase-ne, All-lookup, All-erase}
use neko_chat.Ice.Pairs.{CandidatePair}
use neko_chat.Ice.{Agent, request_key}
use neko_chat.Ice.Incoming.{
  find_pair, release_pair, succeed_all, connect, is_live, touch_all, update_activity,
}
use neko_chat.Ice.Requests.{Asks, IsDistinct, IsBooked, SameRequest, Asks-same}

-- A change of all pairs that the table does not see.
abbrev SameRequests : List CandidatePair → List CandidatePair → Type 0
SameRequests [] [] = Unit {0}
SameRequests [] (q ∷ qs) = ⊥
SameRequests (p ∷ ps) [] = ⊥
SameRequests (p ∷ ps) (q ∷ qs) = SameRequest p q × SameRequests ps qs

All-same :
    (P : CandidatePair → Type 0) (ps qs : List CandidatePair)
    → ((p q : CandidatePair) → SameRequest p q → P p → P q)
    → SameRequests ps qs
    → All P ps
    → All P qs
All-same P [] [] f s h = tt
All-same P [] (q ∷ qs) f s h = absurd s
All-same P (p ∷ ps) [] f s h = absurd s
All-same P (p ∷ ps) (q ∷ qs) f s h = (f p q s.0 h.0, All-same P ps qs f s.1 h.1)

IsDistinct-same : (ps qs : List CandidatePair) → SameRequests ps qs → IsDistinct ps → IsDistinct qs
IsDistinct-same [] [] s h = tt
IsDistinct-same [] (q ∷ qs) s h = absurd s
IsDistinct-same (p ∷ ps) [] s h = absurd s
IsDistinct-same (p ∷ ps) (q ∷ qs) s h = (
  All-same (λ r. r.id ≢ q.id) ps qs (λ x y t ne e. ne (sym t.id ∙ e)) s.1
      (All-map _ _ (λ x ne e. ne (e ∙ s.0.id)) ps h.0),
  IsDistinct-same ps qs s.1 h.1,
)

IsBooked-same :
    (a : Agent) (qs : List CandidatePair)
    → SameRequests a.pairs qs
    → IsBooked a
    → IsBooked (record a { pairs = qs })
IsBooked-same a qs s h = record {
  numbered =
      All-same (λ p. p.id < a.next_id) a.pairs qs (λ p q t k. omega (arith, t.id)) s h.numbered;
  distinct = IsDistinct-same a.pairs qs s h.distinct;
  booked =
      All-map _ _
        (λ e k. (k.0, All-same (Asks e.0 e.1) a.pairs qs (λ p q t. Asks-same e.0 e.1 t) s k.1))
        a.pending h.booked;
}

touch_all-same : (now : ℕ) (ps : List CandidatePair) → SameRequests ps (touch_all now ps)
unfolding touch_all
touch_all-same now [] = tt
touch_all-same now (p ∷ ps) = (
  if_either (SameRequest p) (is_live p.state) (record p { last_activity = now }) p
      (record { id = refl; socket = refl; active_tid = refl })
      (record { id = refl; socket = refl; active_tid = refl }),
  touch_all-same now ps,
)

succeed_all-same : (ps : List CandidatePair) → SameRequests ps (succeed_all ps)
unfolding succeed_all
succeed_all-same [] = tt
succeed_all-same (p ∷ ps) =
    (record { id = refl; socket = refl; active_tid = refl }, succeed_all-same ps)

pub connect-IsBooked :
    (p : CandidatePair) (now : ℕ) (a : Agent) → IsBooked a → IsBooked (connect p now a)
unfolding connect
connect-IsBooked p now a h =
    let k = IsBooked-same a (succeed_all a.pairs) (succeed_all-same a.pairs) h in
    record { numbered = k.numbered; distinct = k.distinct; booked = tt }

pub update_activity-IsBooked : (now : ℕ) (a : Agent) → IsBooked a → IsBooked (update_activity now a)
unfolding update_activity
update_activity-IsBooked now a h =
    let k = IsBooked-same a (touch_all now a.pairs) (touch_all-same now a.pairs) h in
    record { numbered = k.numbered; distinct = k.distinct; booked = k.booked }

find_pair_lem :
    (P : CandidatePair → Type 0) (id : ℕ) (ps : List CandidatePair) {p : CandidatePair}
    → find_pair id ps ≡ some p
    → All P ps
    → (p.id ≡ id) × P p
unfolding find_pair
find_pair_lem P id [] e h = absurd (cc)
find_pair_lem P id (q ∷ qs) {p = p} e h = elim (Bool-cases (q.id == id)) [
  | inl own ↦
      subst (λ (x : CandidatePair). (x.id ≡ id) × P x) (some_inj (rw own at e)) (ground arith, h.0)
  | inr other ↦ find_pair_lem P id qs (rw other at e) h.1
]

release_pair-ids :
    (P : ℕ → Type 0) (id : ℕ) (ps : List CandidatePair)
    → All (λ p. P p.id) ps
    → All (λ p. P p.id) (release_pair id ps)
unfolding release_pair
release_pair-ids P id [] h = tt
release_pair-ids P id (p ∷ ps) h = (
  if_either (λ (x : CandidatePair). P x.id) (p.id == id) (record p { active_tid = none }) p h.0 h.0,
  release_pair-ids P id ps h.1,
)

release_pair-IsDistinct :
    (id : ℕ) (ps : List CandidatePair) → IsDistinct ps → IsDistinct (release_pair id ps)
unfolding release_pair
release_pair-IsDistinct id [] h = tt
release_pair-IsDistinct id (p ∷ ps) h = (
  if_either (λ (x : CandidatePair). All (λ q. q.id ≢ x.id) (release_pair id ps)) (p.id == id)
      (record p { active_tid = none }) p (release_pair-ids (λ n. n ≢ p.id) id ps h.0)
      (release_pair-ids (λ n. n ≢ p.id) id ps h.0),
  release_pair-IsDistinct id ps h.1,
)

-- The pair whose request is taken off the table waits no more, and other requests are others'.
release_pair-Asks :
    (key other : List ℕ) (id n : ℕ) (ps : List CandidatePair)
    → other ≢ key
    → All (Asks key id) ps
    → All (Asks other n) ps
    → All (Asks other n) (release_pair id ps)
unfolding release_pair
release_pair-Asks key other id n [] ne h k = tt
release_pair-Asks key other id n (p ∷ ps) ne h k = (
  if_cases (Asks other n) (p.id == id) (record p { active_tid = none }) p
      (λ own e.
        let (t, active, known) = h.0 (ground arith) in
        let (u, active', known') = k.0 e in
        absurd
          (ne (known' ∙ ap (request_key p.socket) (some_inj (sym active' ∙ active)) ∙ sym known)))
      (λ _. k.0),
  release_pair-Asks key other id n ps ne h.1 k.1,
)

pub released-IsBooked :
    (key : List ℕ) (id : ℕ) (a : Agent)
    → lookup key a.pending ≡ some id
    → IsBooked a
    → IsBooked (record a { pending = erase key a.pending; pairs = release_pair id a.pairs })
released-IsBooked key id a e h =
    let (small, asks) =
      All-lookup (λ k n. (n < a.next_id) × All (Asks k n) a.pairs) key a.pending h.booked e in
    record {
      numbered = release_pair-ids (λ n. n < a.next_id) id a.pairs h.numbered;
      distinct = release_pair-IsDistinct id a.pairs h.distinct;
      booked =
          All-map _ _ (λ r k. (k.1.0, release_pair-Asks key r.0 id r.1 a.pairs k.0 asks k.1.1))
            (erase key a.pending)
            (All-zip _ _ (erase key a.pending) (erase-ne key a.pending)
              (All-erase (λ k n. (n < a.next_id) × All (Asks k n) a.pairs) key a.pending h.booked));
    }
