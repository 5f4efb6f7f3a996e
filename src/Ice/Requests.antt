-- ===== src/Ice/Requests.antt =====
-- The table of pending requests and the pairs: an entry that leads to a pair is of its latest
-- request.
use neko_chat.Common.{
  ℕ, zero, suc, ◌+◌, ◌<◌, ◌≡◌, ◌≢◌, refl, sym, ap, ap₂, ◌∙◌, subst, Bool, Option, none, some, List,
  [], ◌∷◌, get_elem?, set, All, All-map, All-get, All-set, All-zip, arith, Option-cases, inl, inr,
  if_either, some_inj,
}
use neko_chat.Common.Assoc.{bytes_key, put, erase, erase-ne, All-erase}
use neko_chat.Ice.Pairs.{CandidatePair, Surroundings}
use neko_chat.Ice.{Agent, request_key, set_pair, drop_request, send_binding_request}
use neko_chat.Ice.Trying.{get-set}

-- If the pair is the one with this number, the key is of the request that it waits for.
abbrev pub Asks : List ℕ → ℕ → CandidatePair → Type 0
Asks key id p = p.id ≡ id → (tid : ℕ) × (p.active_tid ≡ some tid) × (key ≡ request_key p.socket tid)

abbrev pub IsDistinct : List CandidatePair → Type 0
IsDistinct [] = Unit {0}
IsDistinct (p ∷ ps) = All (λ q. q.id ≢ p.id) ps × IsDistinct ps

pub record IsBooked (a : Agent) : Type 0 where
  pub numbered : All (λ p. p.id < a.next_id) a.pairs
  pub distinct : IsDistinct a.pairs
  pub booked : All (λ e. (e.1 < a.next_id) × All (Asks e.0 e.1) a.pairs) a.pending

-- A pair that is the same for the table.
pub record SameRequest (p q : CandidatePair) : Type 0 where
  pub id : q.id ≡ p.id
  pub socket : q.socket ≡ p.socket
  pub active_tid : q.active_tid ≡ p.active_tid

pub Asks-same :
    {p q : CandidatePair} (key : List ℕ) (id : ℕ) → SameRequest p q → Asks key id p → Asks key id q
Asks-same key id same asks e =
    let (tid, active, known) = asks (sym same.id ∙ e) in
    (
      tid,
      same.active_tid ∙ active,
      known ∙ ap (λ (s : Option ℕ). request_key s tid) (sym same.socket),
    )

set-IsDistinct :
    (ps : List CandidatePair) (i : ℕ) {p : CandidatePair} (q : CandidatePair)
    → get_elem? ps i ≡ some p
    → q.id ≡ p.id
    → IsDistinct ps
    → IsDistinct (set ps i q)
set-IsDistinct [] i q e same h = tt
set-IsDistinct (x ∷ ps) zero {p = p} q e same h = (
  All-map _ _ (λ r ne k. ne (k ∙ same ∙ ap (λ (y : CandidatePair). y.id) (sym (some_inj e)))) ps
      h.0,
  h.1,
)
set-IsDistinct (x ∷ ps) (suc i) {p = p} q e same h = (
  All-set (λ r. r.id ≢ x.id) ps i q e (λ ne k. ne (sym same ∙ k)) h.0,
  set-IsDistinct ps i q e same h.1,
)

-- Only one pair has a number.
only_at :
    (P : CandidatePair → Type 0) (ps : List CandidatePair) (i id : ℕ) {p : CandidatePair}
    (q : CandidatePair)
    → get_elem? ps i ≡ some p
    → p.id ≡ id
    → P q
    → IsDistinct ps
    → All (λ r. r.id ≡ id → P r) (set ps i q)
only_at P [] i id q e own h d = tt
only_at P (x ∷ ps) zero id {p = p} q e own h d = (
  (λ _. h),
  All-map _ _
      (λ r ne k. absurd (ne (k ∙ sym own ∙ ap (λ (y : CandidatePair). y.id) (sym (some_inj e))))) ps
      d.0,
)
only_at P (x ∷ ps) (suc i) id {p = p} q e own h d = (
  (λ k. absurd (All-get (λ r. r.id ≢ x.id) ps i d.0 e (own ∙ sym k))),
  only_at P ps i id q e own h d.1,
)

same_key :
    {p q : CandidatePair} (key : List ℕ) (id tid : ℕ)
    → SameRequest q p
    → p.active_tid ≡ some tid
    → Asks key id q
    → id ≡ p.id
    → key ≡ request_key p.socket tid
same_key key id tid same busy asks own =
    let (t, active, known) = asks (sym same.id ∙ sym own) in
    known ∙ ap₂ request_key (sym same.socket) (some_inj (sym active ∙ sym same.active_tid ∙ busy))

module _ (i : ℕ) where
  pub set_pair-IsBooked :
      (p q : CandidatePair) (a : Agent)
      → get_elem? a.pairs i ≡ some p
      → SameRequest p q
      → IsBooked a
      → IsBooked (set_pair i q a)
  unfolding set_pair
  set_pair-IsBooked p q a e same h = record {
    numbered = All-set _ a.pairs i q e (λ k. omega (arith, same.id)) h.numbered;
    distinct = set-IsDistinct a.pairs i q e same.id h.distinct;
    booked =
        All-map _ _
          (λ r k. (k.0, All-set (Asks r.0 r.1) a.pairs i q e (Asks-same r.0 r.1 same) k.1))
          a.pending h.booked;
  }

  -- The pair at `i` waits for no answer.
  pub record IsReleased (p : CandidatePair) (a : Agent) : Type 0 where
    pub books : IsBooked a
    pub pair : CandidatePair
    pub here : get_elem? a.pairs i ≡ some pair
    pub id : pair.id ≡ p.id
    pub socket : pair.socket ≡ p.socket
    pub idle : pair.active_tid ≡ none
    pub free : All (λ e. e.1 ≢ p.id) a.pending

  pub drop_request-IsReleased :
      (p q : CandidatePair) (a : Agent)
      → get_elem? a.pairs i ≡ some q
      → SameRequest q p
      → IsBooked a
      → IsReleased p (drop_request i p a)
  unfolding drop_request set_pair
  drop_request-IsReleased p q a e same h =
      let asks = All-map _ _ (λ r k. All-get (Asks r.0 r.1) a.pairs i k.1 e) a.pending h.booked in
      elim (Option-cases p.active_tid) [
        | inl idle ↦
            rw (idle, drop_request)
              (record {
                books = h;
                pair = q;
                here = e;
                id = sym same.id;
                socket = sym same.socket;
                idle = sym same.active_tid ∙ idle;
                free =
                    All-map _ _
                      (λ r k own.
                        let (tid, active, known) = k (sym same.id ∙ sym own) in
                        cc (active, same.active_tid, idle))
                      a.pending asks;
              })
        | inr (tid, busy) ↦
            let key = request_key p.socket tid in
            let free : All (λ e. e.1 ≢ p.id) (erase key a.pending) =
              All-map _ _ (λ r k own. k.0 (same_key r.0 r.1 tid same busy k.1 own))
                (erase key a.pending)
                (All-zip _ _ (erase key a.pending) (erase-ne key a.pending)
                  (All-erase (λ k id. Asks k id q) key a.pending asks)) in
            rw (busy, drop_request)
              (record {
                books = record {
                  numbered = All-set _ a.pairs i _ e (λ k. omega (arith, same.id)) h.numbered;
                  distinct = set-IsDistinct a.pairs i _ e same.id h.distinct;
                  booked =
                      All-map _ _
                        (λ r k. (
                          k.1.0,
                          All-set (Asks r.0 r.1) a.pairs i _ e (λ _ own. absurd (k.0 (sym own)))
                              k.1.1,
                        ))
                        (erase key a.pending)
                        (All-zip _ _ (erase key a.pending) free (
                          All-erase (λ k id. (id < a.next_id) × All (Asks k id) a.pairs) key
                            a.pending h.booked));
                };
                pair = record p { active_tid = none };
                here = get-set a.pairs i (record p { active_tid = none }) e;
                id = refl;
                socket = refl;
                idle = refl;
                free = free;
              })
      ]

  -- A new request of a pair that waits for no answer.
  sent-IsBooked :
      (p : CandidatePair) (tid : ℕ) (d : Agent)
      → IsReleased p d
      → IsBooked (
          set_pair i
            (record p { active_tid = some tid })
            (record d {
              pending = put (request_key p.socket tid) p.id d.pending;
              calls = d.calls + 1;
            }))
  unfolding set_pair put
  sent-IsBooked p tid d r =
      let key = request_key p.socket tid in
      let asking : CandidatePair = record p { active_tid = some tid } in
      let old : All (λ e. (e.1 ≢ p.id) × ((e.1 < d.next_id) × All (Asks e.0 e.1) d.pairs))
          (erase key d.pending) =
        All-erase (λ k id. (id ≢ p.id) × ((id < d.next_id) × All (Asks k id) d.pairs)) key d.pending
          (All-zip _ _ d.pending r.free r.books.booked) in
      record {
        numbered = All-set _ d.pairs i asking r.here (λ k. omega (arith, r.id)) r.books.numbered;
        distinct = set-IsDistinct d.pairs i asking r.here (sym r.id) r.books.distinct;
        booked = (
          (
            subst (λ (x : ℕ). x < d.next_id) r.id
                (All-get (λ (x : CandidatePair). x.id < d.next_id) d.pairs i r.books.numbered
                  r.here),
            only_at (λ x. (t : ℕ) × (x.active_tid ≡ some t) × (key ≡ request_key x.socket t))
                d.pairs i p.id asking r.here r.id (tid, refl, refl) r.books.distinct,
          ),
          All-map _ _
              (λ e k. (
                k.1.0,
                All-set (Asks e.0 e.1) d.pairs i asking r.here (λ _ own. absurd (k.0 (sym own)))
                    k.1.1,
              ))
              (erase key d.pending) old,
        );
      }

  pub send_binding_request-IsBooked :
      (net : Surroundings) (p q : CandidatePair) (a : Agent)
      → get_elem? a.pairs i ≡ some q
      → SameRequest q p
      → IsBooked a
      → IsBooked (send_binding_request net i p a).0
  unfolding send_binding_request set_pair put
  send_binding_request-IsBooked net p q a e same h =
      let d = drop_request i p a in
      let r = drop_request-IsReleased p q a e same h in
      elim (Option-cases p.socket) [
        | inl closed ↦ rw (closed, send_binding_request) h
        | inr (socket, open_socket) ↦ elim (Option-cases (net.parse_ipv4 p.remote.ip)) [
          | inl bad ↦ rw (open_socket, bad, send_binding_request) r.books
          | inr (addr, good) ↦
              rw (open_socket, good, send_binding_request)
                (if_either (λ (x : Agent × Bool). IsBooked x.0) (net.sends a.calls) _ _
                  (sent-IsBooked p (net.tids a.calls) d r)
                  (record {
                    numbered = r.books.numbered;
                    distinct = r.books.distinct;
                    booked = r.books.booked;
                  }))
        ]
      ]
