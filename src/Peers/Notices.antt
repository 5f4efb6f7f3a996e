-- ===== src/Peers/Notices.antt =====
-- What the signalling client tells P2PClient, and the user's commands on peers: the callback of
-- Connect in Start, and `offer` and `reconnect` of ExecuteCommand, of P2PChat.cpp.
use neko_chat.Common.{ℕ, Bool, true, false, Option, none, some, [], ◌∷◌, ◌++◌, if◌then◌else◌}
use neko_chat.Common.Text.{Bytes, codes, bytes_eq}
use neko_chat.Common.Assoc.{bytes_key, lookup, insert}
use neko_chat.Signal.Client.{Notice}
use neko_chat.Ice.Pairs.{Candidate, Surroundings}
use neko_chat.Ice.Growing.{add_remote_candidate}
use neko_chat.Peers.Users.{parse_user_list_payload}
use neko_chat.Peers.Candidates.{endpoint_text, try_parse_candidate_message}
use neko_chat.Peers.State.{P2pClient, Peer, update_peer, after_call, get_or_create_agent}
use neko_chat.Peers.Tasks.{schedule_delayed_ice, try_start_ice, cancel_pending_ice}
use neko_chat.Peers.Offers.{queue_incoming_offer_prompt, process_incoming_offer, send_candidates}

-- RegisterPeerAddress
unfoldable pub register_peer_address : Bytes → ℕ → ℕ → P2pClient → P2pClient
register_peer_address ip port i c = record c {
  addr_to_agent = insert (endpoint_text ip port) i c.addr_to_agent;
}

unfoldable pub is_ready : Option Peer → Bool
is_ready none = false
is_ready (some p) = p.negotiation_ready

-- A candidate of the peer `from`.
unfoldable pub take_candidate : (ℕ → Surroundings) → ℕ → Bytes → Candidate → P2pClient → P2pClient
take_candidate net now from cand c =
    let (made, i) = get_or_create_agent net now from c in
    let agent = add_remote_candidate (net i) now cand (made.agents i) in
    let added = register_peer_address cand.ip cand.port i (after_call i agent made) in
    if is_ready (lookup from added.peers) then try_start_ice net now from false added else added

-- An answer of the peer `from`.
unfoldable pub take_answer : (ℕ → Surroundings) → ℕ → Bytes → P2pClient → P2pClient
take_answer net now from c =
    let (made, i) = get_or_create_agent net now from c in
    let ready =
      update_peer from (λ p. record p { reconnecting = false; negotiation_ready = true }) made in
    schedule_delayed_ice from 500 now (send_candidates from (ready.agents i).local_candidates ready)

-- The callback that Start gives to Connect. What `%d` gives out of range is `wide`.
unfoldable pub on_notice :
    (ℕ → Surroundings) → (Bool → Bytes → ℕ) → ℕ → Notice → P2pClient → P2pClient
on_notice net wide now n c =
    if bytes_eq n.kind (codes "offer")
    then if c.approval_required
      then queue_incoming_offer_prompt n.from c
      else process_incoming_offer net now n.from c
    else if bytes_eq n.kind (codes "candidate")
    then elim (try_parse_candidate_message wide n.text) [
      | none ↦ c
      | some cand ↦ take_candidate net now n.from cand c
    ]
    else if bytes_eq n.kind (codes "answer")
    then take_answer net now n.from c
    else if bytes_eq n.kind (codes "list")
    then record c { online_users = parse_user_list_payload n.text }
    else c

-- The command `offer` up to StartGathering, which is under way then.
unfoldable pub offer_to : (ℕ → Surroundings) → ℕ → Bytes → P2pClient → P2pClient
offer_to net now target c =
    let (made, i) = get_or_create_agent net now target c in
    let reset =
      update_peer target (λ p. record p { ice_started = false; negotiation_ready = false }) made in
    let cancelled = cancel_pending_ice target reset in
    record cancelled {
      gatherings =
          cancelled.gatherings ++ record { peer_id = target; agent = i; is_incoming = false } ∷ [];
    }
