-- ===== src/Ice/Running.antt =====
-- An agent's life as steps, and what a connection rests on.
use neko_chat.Common.{
  ℕ, ◌≡◌, sym, true, false, not, ◌||◌, some, [], ltb, ◌-◌, inl, inr, if_either, subst, All-nil,
}
use neko_chat.Common.Text.{Bytes}
use neko_chat.Common.Options.{Returns}
use neko_chat.Stun.{Address}
use neko_chat.Ice.Pairs.{Candidate, CandidatePair, Surroundings}
use neko_chat.Ice.{Agent, check_pair_timeouts}
use neko_chat.Ice.Growing.{add_local_candidate, add_remote_candidate, start_connectivity_checks}
use neko_chat.Ice.Incoming.{on_udp_packet, set_pair_succeeded, update_activity, process, cancel}
use neko_chat.Ice.Requests.{IsDistinct, IsBooked}
use neko_chat.Ice.Booking.{check_pair_timeouts-IsBooked}
use neko_chat.Ice.Numbering.{
  add_local_candidate-IsBooked, add_remote_candidate-IsBooked, start_connectivity_checks-IsBooked,
}
use neko_chat.Ice.Reaching.{connect-IsBooked, update_activity-IsBooked}
use neko_chat.Ice.Connecting.{IsLeft, IsConnectedBy, on_udp_packet-IsLeft}

-- A call of a public member of IceAgent at some time.
pub data Step (net : Surroundings) : Agent → Agent → Type 0 where
  local_comes :
      (now : ℕ) (cand : Candidate) (a : Agent) → Step net a (add_local_candidate net now cand a)
  remote_comes :
      (now : ℕ) (cand : Candidate) (a : Agent) → Step net a (add_remote_candidate net now cand a)
  checks_start : (now : ℕ) (a : Agent) → Step net a (start_connectivity_checks net now a).0
  packet_comes :
      (socket : ℕ) (from : Address) (bytes : Bytes) (now : ℕ) (a b : Agent)
      → on_udp_packet net socket from bytes now a ≡ some b
      → Step net a b
  pair_succeeds :
      (now : ℕ) (p : CandidatePair) (a : Agent) → Step net a (set_pair_succeeded p now a)
  activity : (now : ℕ) (a : Agent) → Step net a (update_activity now a)
  time_passes : (now : ℕ) (a : Agent) → Step net a (process net now a)
  is_cancelled : (a : Agent) → Step net a (cancel a)

pub data Reach (net : Surroundings) (s : Agent) : Agent → Type 0 where
  here : Reach net s s
  next : {a b : Agent} → Reach net s a → Step net a b → Reach net s b

set_pair_succeeded-IsBooked :
    (p : CandidatePair) (now : ℕ) (a : Agent) → IsBooked a → IsBooked (set_pair_succeeded p now a)
unfolding set_pair_succeeded
set_pair_succeeded-IsBooked p now a h =
    if_either IsBooked a.success_notified _ _ h (connect-IsBooked p now a h)

process-IsBooked :
    (net : Surroundings) (now : ℕ) (a : Agent) → IsBooked a → IsBooked (process net now a)
unfolding process
process-IsBooked net now a h =
    let k = check_pair_timeouts-IsBooked net now a h in
    if_either IsBooked (not a.started || a.success_notified) _ _ h (
      if_either IsBooked (ltb 500 (now - (check_pair_timeouts net now a).last_check_time)) _ _
        (record { numbered = k.numbered; distinct = k.distinct; booked = k.booked }) k)

cancel-IsBooked : (a : Agent) → IsBooked (cancel a)
unfolding cancel
cancel-IsBooked a = record { numbered = tt; distinct = tt; booked = tt }

Step-IsBooked : (net : Surroundings) {a b : Agent} → Step net a b → IsBooked a → IsBooked b
Step-IsBooked net (local_comes now cand a) h = add_local_candidate-IsBooked net now cand a h
Step-IsBooked net (remote_comes now cand a) h = add_remote_candidate-IsBooked net now cand a h
Step-IsBooked net (checks_start now a) h = start_connectivity_checks-IsBooked net now a h
Step-IsBooked net (packet_comes socket from bytes now a b e) h =
    (subst (Returns (IsLeft socket bytes now a h)) e
      (on_udp_packet-IsLeft socket bytes now a h net from)).0
Step-IsBooked net (pair_succeeds now p a) h = set_pair_succeeded-IsBooked p now a h
Step-IsBooked net (activity now a) h = update_activity-IsBooked now a h
Step-IsBooked net (time_passes now a) h = process-IsBooked net now a h
Step-IsBooked net (is_cancelled a) h = cancel-IsBooked a

-- An agent that has made no pairs and asked nothing.
pub record IsUnused (a : Agent) : Type 0 where
  pub no_pairs : a.pairs ≡ []
  pub no_requests : a.pending ≡ []

IsUnused-IsBooked : (a : Agent) → IsUnused a → IsBooked a
IsUnused-IsBooked a n = record {
  numbered = All-nil _ a.pairs n.no_pairs;
  distinct = subst IsDistinct (sym n.no_pairs) tt;
  booked = All-nil _ a.pending n.no_requests;
}

Reach-IsBooked : (net : Surroundings) {s a : Agent} → IsUnused s → Reach net s a → IsBooked a
Reach-IsBooked net {s} n here = IsUnused-IsBooked s n
Reach-IsBooked net n (next r st) = Step-IsBooked net st (Reach-IsBooked net n r)

connected_by :
    (socket : ℕ) (bytes : Bytes) (now : ℕ) (a b : Agent) (h : IsBooked a)
    → IsLeft socket bytes now a h b
    → a.success_notified ≡ false
    → b.success_notified ≡ true
    → IsConnectedBy socket bytes a b
connected_by socket bytes now a b h left before after = elim (left.1 after) [
  | inl e ↦ absurd (cc)
  | inr c ↦ c
]

-- Whatever calls an agent has had since it was made, in whatever order, and whatever sends have
-- failed: a packet connects an agent that was not connected only as a response to the latest request
-- of one of its pairs, on that pair's socket and with that request's transaction id; the connection is
-- then to this pair's remote candidate over this pair's socket, and the callback is told of this pair
-- and of nothing else.
pub connects_by_latest_request :
    (net : Surroundings) (s a b : Agent) (socket : ℕ) (from : Address) (bytes : Bytes) (now : ℕ)
    → IsUnused s
    → Reach net s a
    → on_udp_packet net socket from bytes now a ≡ some b
    → a.success_notified ≡ false
    → b.success_notified ≡ true
    → IsConnectedBy socket bytes a b
connects_by_latest_request net s a b socket from bytes now n r e before after =
    let h = Reach-IsBooked net n r in
    connected_by socket bytes now a b h
      (subst (Returns (IsLeft socket bytes now a h)) e
        (on_udp_packet-IsLeft socket bytes now a h net from))
      before after
