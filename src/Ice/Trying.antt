-- ===== src/Ice/Trying.antt =====
-- A check of CheckPairTimeouts on a pair in progress: a retry, or the end.
use neko_chat.Common.{
  ℕ, zero, suc, ◌+◌, ◌-◌, ◌<◌, ◌≡◌, refl, ap, ◌∙◌, Bool, true, false, none, some, List, [], ◌∷◌,
  get_elem?, set, ltb, leb, arith, Option-cases, inl, inr, if_either,
}
use neko_chat.Ice.{Agent, set_pair, drop_request, send_binding_request, check_pair, check_at}
use neko_chat.Ice.Pairs.{CandidatePair, in_progress, failed, is_in_progress, Surroundings}

pub get-set :
    (ps : List CandidatePair) (i : ℕ) {p : CandidatePair} (q : CandidatePair)
    → get_elem? ps i ≡ some p
    → get_elem? (set ps i q) i ≡ some q
get-set [] i q e = absurd (cc)
get-set (x ∷ ps) zero q e = refl
get-set (x ∷ ps) (suc i) q e = get-set ps i q e

-- The pair at `i` is in progress with so many retries since a time, under the agent's settings.
pub record IsTrying (i retries since : ℕ) (s a : Agent) : Type 0 where
  pub pair : CandidatePair
  pub here : get_elem? a.pairs i ≡ some pair
  pub going : pair.state ≡ in_progress
  pub tried : pair.retry_count ≡ retries
  pub last : pair.last_sent ≡ since
  pub limit : a.max_retries ≡ s.max_retries
  pub patience : a.retry_timeout_ms ≡ s.retry_timeout_ms

module _ (net : Surroundings) (i : ℕ) (s : Agent) where
  IsTrying-set :
      (retries since r t : ℕ) (p : CandidatePair) (a : Agent)
      → p.state ≡ in_progress
      → p.retry_count ≡ retries
      → p.last_sent ≡ since
      → IsTrying i r t s a
      → IsTrying i retries since s (set_pair i p a)
  unfolding set_pair
  IsTrying-set retries since r t p a going tried last h = record {
    pair = p;
    here = get-set a.pairs i p h.here;
    going = going;
    tried = tried;
    last = last;
    limit = h.limit;
    patience = h.patience;
  }

  -- Bookkeeping of requests does not touch the pairs.
  IsTrying-books :
      (retries since : ℕ) (a b : Agent)
      → b.pairs ≡ a.pairs
      → b.max_retries ≡ a.max_retries
      → b.retry_timeout_ms ≡ a.retry_timeout_ms
      → IsTrying i retries since s a
      → IsTrying i retries since s b
  IsTrying-books retries since a b same limit patience h = record {
    pair = h.pair;
    here = ap (λ (ps : List CandidatePair). get_elem? ps i) same ∙ h.here;
    going = h.going;
    tried = h.tried;
    last = h.last;
    limit = limit ∙ h.limit;
    patience = patience ∙ h.patience;
  }

  module _ (retries since : ℕ) (p : CandidatePair) (going : p.state ≡ in_progress)
      (tried : p.retry_count ≡ retries) (last : p.last_sent ≡ since) where
    IsTrying-drop :
        (a : Agent) → IsTrying i retries since s a → IsTrying i retries since s (drop_request i p a)
    unfolding drop_request
    IsTrying-drop a h = elim (Option-cases p.active_tid) [
      | inl e ↦ rw (e, drop_request) h
      | inr (tid, e) ↦
          rw (e, drop_request)
            (IsTrying-set retries since retries since (record p { active_tid = none }) _ going tried
              last (IsTrying-books retries since a _ refl refl refl h))
    ]

    IsTrying-send :
        (a : Agent)
        → IsTrying i retries since s a
        → IsTrying i retries since s (send_binding_request net i p a).0
    unfolding send_binding_request
    IsTrying-send a h = elim (Option-cases p.socket) [
      | inl e ↦ rw (e, send_binding_request) h
      | inr (socket, e) ↦
          let d = IsTrying-drop a h in
          elim (Option-cases (net.parse_ipv4 p.remote.ip)) [
            | inl f ↦ rw (e, f, send_binding_request) d
            | inr (addr, f) ↦
                rw (e, f, send_binding_request)
                  (if_either (λ (r : Agent × Bool). IsTrying i retries since s r.0)
                    (net.sends a.calls) _ _
                    (IsTrying-set retries since retries since
                      (record p { active_tid = some (net.tids a.calls) }) _ going tried last
                      (IsTrying-books retries since (drop_request i p a) _ refl refl refl d))
                    (IsTrying-books retries since (drop_request i p a) _ refl refl refl d))
          ]
    ]

  pub going_lem : (p : CandidatePair) → p.state ≡ in_progress → is_in_progress p.state ≡ true
  unfolding is_in_progress
  going_lem p e = ap is_in_progress e

  pub late_lem :
      (since now : ℕ) (a : Agent) (p : CandidatePair)
      → p.last_sent ≡ since
      → a.retry_timeout_ms ≡ s.retry_timeout_ms
      → s.retry_timeout_ms < now - since
      → leb (now - p.last_sent) a.retry_timeout_ms ≡ false
  late_lem since now a p last patience late = ground arith

  pub few_lem :
      (r : ℕ) (a : Agent) (p : CandidatePair)
      → p.retry_count ≡ r
      → a.max_retries ≡ s.max_retries
      → r < s.max_retries
      → ltb p.retry_count a.max_retries ≡ true
  few_lem r a p tried limit few = ground arith

  all_lem :
      (a : Agent) (p : CandidatePair)
      → p.retry_count ≡ s.max_retries
      → a.max_retries ≡ s.max_retries
      → ltb p.retry_count a.max_retries ≡ false
  all_lem a p tried limit = ground arith

  pub check_pair-retry :
      (r since now : ℕ) (a : Agent)
      → r < s.max_retries
      → s.retry_timeout_ms < now - since
      → IsTrying i r since s a
      → IsTrying i (r + 1) now s (check_at net now i a).0
  unfolding check_at check_pair
  check_pair-retry r since now a few late h =
      let p = h.pair in
      let retried : CandidatePair = record p { retry_count = p.retry_count + 1; last_sent = now } in
      let set : IsTrying i (r + 1) now s (set_pair i retried a) =
        IsTrying-set (r + 1) now r since retried a h.going (omega (arith, h.tried)) refl h in
      rw (h.here, check_at)
        (rw
          (
            going_lem p h.going,
            late_lem since now a p h.last h.patience late,
            few_lem r a p h.tried h.limit few,
          )
          (IsTrying-send (r + 1) now (record retried { active_tid = none }) h.going
            (omega (arith, h.tried)) refl _
            (IsTrying-drop (r + 1) now retried h.going (omega (arith, h.tried)) refl _ set)))

  pub check_pair-fail :
      (since now : ℕ) (a : Agent)
      → s.retry_timeout_ms < now - since
      → IsTrying i s.max_retries since s a
      → (p : CandidatePair) × (get_elem? (check_at net now i a).0.pairs i ≡ some p)
        × (p.state ≡ failed)
  unfolding check_at check_pair set_pair
  check_pair-fail since now a late h =
      let p = h.pair in
      rw (h.here, check_at)
        (rw
          (
            going_lem p h.going,
            late_lem since now a p h.last h.patience late,
            all_lem a p h.tried h.limit,
          )
          (record p { state = failed }, get-set a.pairs i _ h.here, refl))
