-- ===== src/Peers/Offers.antt =====
-- Incoming offers and their prompts in P2PChat.cpp: QueueIncomingOfferPrompt,
-- PopPendingOfferPrompt, ProcessIncomingOffer, AcceptPendingOffer, DeclinePendingOffer.
pub mod Answering
use neko_chat.Common.{
  ℕ, zero, suc, get_elem?, Bool, true, false, not, Option, none, some, List, [], ◌∷◌, ◌++◌,
  if◌then◌else◌,
}
use neko_chat.Common.Text.{Bytes, bytes_eq}
use neko_chat.Common.Assoc.{bytes_key, lookup}
use neko_chat.Signal.Client.{Command, candidate, answer, offer, offer_declined}
use neko_chat.Ice.{Agent}
use neko_chat.Ice.Pairs.{Candidate, Surroundings}
use neko_chat.Peers.Users.{has_user}
use neko_chat.Peers.Candidates.{candidate_text}
use neko_chat.Peers.State.{
  P2pClient, Gathering, Peer, send_command, update_peer, after_call, add_local_candidates,
  get_or_create_agent,
}
use neko_chat.Peers.Tasks.{schedule_delayed_ice}

unfoldable pub remove_user : Bytes → List Bytes → List Bytes
remove_user u [] = []
remove_user u (v ∷ vs) = let rest = remove_user u vs in if bytes_eq v u then rest else v ∷ rest

-- QueueIncomingOfferPrompt
unfoldable pub queue_incoming_offer_prompt : Bytes → P2pClient → P2pClient
queue_incoming_offer_prompt peer_id c =
    if has_user peer_id c.pending_offer_peers then c else record c {
      pending_offer_peers = c.pending_offer_peers ++ peer_id ∷ [];
      pending_offer_prompts = c.pending_offer_prompts ++ peer_id ∷ [];
    }

-- PopPendingOfferPrompt; none for false.
unfoldable pub take_prompt : List Bytes → P2pClient → P2pClient × Option Bytes
take_prompt [] c = (c, none)
take_prompt (peer_id ∷ rest) c = (record c { pending_offer_prompts = rest }, some peer_id)

unfoldable pub pop_pending_offer_prompt : P2pClient → P2pClient × Option Bytes
pop_pending_offer_prompt c = take_prompt c.pending_offer_prompts c

-- ProcessIncomingOffer up to StartGathering, which is under way then.
unfoldable pub process_incoming_offer : (ℕ → Surroundings) → ℕ → Bytes → P2pClient → P2pClient
process_incoming_offer net now from c =
    let (made, i) = get_or_create_agent net now from c in
    let gathering = record made {
      gatherings = made.gatherings ++ record { peer_id = from; agent = i; is_incoming = true } ∷ [];
    } in
    elim (lookup from made.peers) [
      | none ↦ gathering
      | some p ↦ if p.reconnecting then made else gathering
    ]

-- AcceptPendingOffer; the Boolean is its result.
unfoldable pub accept_pending_offer : (ℕ → Surroundings) → ℕ → Bytes → P2pClient → P2pClient × Bool
accept_pending_offer net now peer_id c =
    let erased = record c { pending_offer_peers = remove_user peer_id c.pending_offer_peers } in
    if not (has_user peer_id c.pending_offer_peers)
    then (c, false)
    else (process_incoming_offer net now peer_id erased, true)

-- DeclinePendingOffer
unfoldable pub decline_pending_offer : Bytes → P2pClient → P2pClient
decline_pending_offer peer_id c =
    let erased = record c { pending_offer_peers = remove_user peer_id c.pending_offer_peers } in
    if not (has_user peer_id c.pending_offer_peers)
    then c
    else send_command (offer_declined peer_id) erased

-- SendCandidate for each of the candidates.
unfoldable pub send_candidates : Bytes → List Candidate → P2pClient → P2pClient
send_candidates peer_id [] c = c
send_candidates peer_id (cand ∷ cands) c =
    send_candidates peer_id cands (send_command (candidate peer_id (candidate_text cand)) c)

-- The callbacks of StartGathering in ProcessIncomingOffer and in ExecuteCommand, up to where they
-- part: the candidates that were found are the agent's and are sent.
unfoldable pub share_candidates :
    (ℕ → Surroundings) → ℕ → Gathering → List Candidate → P2pClient → P2pClient
share_candidates net now g locals c =
    let kept = record c { my_local_candidates = locals } in
    let agent = add_local_candidates (net g.agent) now locals (c.agents g.agent) in
    send_candidates g.peer_id agent.local_candidates (after_call g.agent agent kept)

-- The callback of StartGathering.
unfoldable pub gathered :
    (ℕ → Surroundings) → ℕ → Gathering → List Candidate → P2pClient → P2pClient
gathered net now g locals c =
    let shared = share_candidates net now g locals c in
    let answered = send_command (answer g.peer_id) shared in
    let ready = update_peer g.peer_id (λ p. record p { negotiation_ready = true }) answered in
    if g.is_incoming
    then schedule_delayed_ice g.peer_id 250 now ready
    else send_command (offer g.peer_id) shared

unfoldable pub remove_at : ℕ → List Gathering → List Gathering
remove_at k [] = []
remove_at zero (g ∷ gs) = gs
remove_at (suc k) (g ∷ gs) = g ∷ remove_at k gs

-- The StartGathering at place `k` ends.
unfoldable pub end_gathering : (ℕ → Surroundings) → ℕ → ℕ → List Candidate → P2pClient → P2pClient
end_gathering net now k locals c = elim (get_elem? c.gatherings k) [
  | none ↦ c
  | some g ↦ gathered net now g locals (record c { gatherings = remove_at k c.gatherings })
]
