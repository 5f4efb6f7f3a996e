-- ===== src/Peers/Wiring/Notices.antt =====
-- Notices, commands, packets and the rounds over all peers of P2PChat.cpp keep the agents with their peers.
use neko_chat.Common.{
  ℕ, ◌+◌, Bool, false, ◌||◌, not, List, [], ◌∷◌, leb, ltb, refl, subst, All-append, if_either,
}
use neko_chat.Common.Text.{Bytes, codes, bytes_eq}
use neko_chat.Common.Options.{elim_either, Returns, Returns-bind}
use neko_chat.Common.Assoc.{Map, bytes_key, lookup}
use neko_chat.Signal.Client.{Notice, list}
use neko_chat.Stun.{Address}
use neko_chat.Ice.Pairs.{Candidate, Surroundings}
use neko_chat.Ice.Growing.{add_remote_candidate}
use neko_chat.Ice.Incoming.{process, send_ping, on_udp_packet}
use neko_chat.Ice.Naming.{
  add_remote_candidate-IsOf, process-IsOf, send_ping-IsOf, on_udp_packet-IsOf,
}
use neko_chat.Peers.Candidates.{try_parse_candidate_message}
use neko_chat.Peers.State.{
  P2pClient, Peer, Gathering, update_peer, get_or_create_agent, send_command,
}
use neko_chat.Peers.Tasks.{cancel_scheduled_task, cancel_pending_ice, schedule_delayed_ice}
use neko_chat.Peers.Offers.{queue_incoming_offer_prompt}
use neko_chat.Peers.Notices.{
  register_peer_address, is_ready, take_candidate, take_answer, on_notice, offer_to,
}
use neko_chat.Peers.Rounds.{
  process_peers, process_agents, ping_peers, is_connected, disconnect_peers, PingState, ping_round,
  agent_for, take_packet, stop_peers,
}
use neko_chat.Peers.Users.{has_user}
use neko_chat.Peers.Wiring.{
  IsAgentOf, IsWired, update_peer-IsWired, set_agent-IsWired, after_call-IsWired,
  get_or_create-IsWired,
}
use neko_chat.Peers.Wiring.Calls.{
  schedule_task-IsWired, schedule_reconnect-IsWired, try_start_ice-IsWired,
  process_incoming_offer-IsWired, send_candidates-IsWired,
}

take_candidate-IsWired :
    (net : ℕ → Surroundings) (now : ℕ) (from : Bytes) (cand : Candidate) (c : P2pClient)
    → IsWired c
    → IsWired (take_candidate net now from cand c)
unfolding take_candidate register_peer_address
take_candidate-IsWired net now from cand c h =
    let (wired, own) = get_or_create-IsWired net now from c h in
    let (made, i) = get_or_create_agent net now from c in
    let added =
      after_call-IsWired i (add_remote_candidate (net i) now cand (made.agents i)) made
        (add_remote_candidate-IsOf _ (net i) now cand (made.agents i) refl) wired in
    if_either IsWired (is_ready _) _ _ (try_start_ice-IsWired net now from false _ added) added

take_answer-IsWired :
    (net : ℕ → Surroundings) (now : ℕ) (from : Bytes) (c : P2pClient)
    → IsWired c
    → IsWired (take_answer net now from c)
unfolding take_answer schedule_delayed_ice
take_answer-IsWired net now from c h =
    let (wired, own) = get_or_create-IsWired net now from c h in
    schedule_task-IsWired _ _ _ _
      (send_candidates-IsWired from _ _ (update_peer-IsWired from _ _ (λ p. refl) wired))

queue-IsWired :
    (peer_id : Bytes) (c : P2pClient) → IsWired c → IsWired (queue_incoming_offer_prompt peer_id c)
unfolding queue_incoming_offer_prompt
queue-IsWired peer_id c h = if_either IsWired (has_user peer_id c.pending_offer_peers) _ _ h h

pub on_notice-IsWired :
    (net : ℕ → Surroundings) (wide : Bool → Bytes → ℕ) (now : ℕ) (n : Notice) (c : P2pClient)
    → IsWired c
    → IsWired (on_notice net wide now n c)
unfolding on_notice
on_notice-IsWired net wide now n c h =
    if_either IsWired (bytes_eq n.kind (codes "offer")) _ _
      (if_either IsWired c.approval_required _ _ (queue-IsWired n.from c h)
        (process_incoming_offer-IsWired net now n.from c h))
      (if_either IsWired (bytes_eq n.kind (codes "candidate")) _ _
        (elim_either IsWired (try_parse_candidate_message wide n.text) c _ h
          (λ cand e. take_candidate-IsWired net now n.from cand c h))
        (if_either IsWired (bytes_eq n.kind (codes "answer")) _ _
          (take_answer-IsWired net now n.from c h)
          (if_either IsWired (bytes_eq n.kind (codes "list")) _ _ h h)))

pub offer_to-IsWired :
    (net : ℕ → Surroundings) (now : ℕ) (target : Bytes) (c : P2pClient)
    → IsWired c
    → IsWired (offer_to net now target c)
unfolding offer_to cancel_pending_ice cancel_scheduled_task update_peer
offer_to-IsWired net now target c h =
    let (wired, own) = get_or_create-IsWired net now target c h in
    let made = (get_or_create_agent net now target c).0 in
    let reset =
      update_peer-IsWired target (λ p. record p { ice_started = false; negotiation_ready = false })
        made (λ p. refl) wired in
    (
      reset.0,
      All-append (λ (g : Gathering). IsAgentOf made.agents made.next_agent g.agent g.peer_id)
          made.gatherings (record { peer_id = target; agent = _; is_incoming = false } ∷ []) wired.1
          (own, tt),
    )

process_peers-IsWired :
    (net : ℕ → Surroundings) (now : ℕ) (peers : Map Bytes Peer) (c : P2pClient)
    → IsWired c
    → IsWired (process_peers net now peers c)
unfolding process_peers
process_peers-IsWired net now [] c h = h
process_peers-IsWired net now ((peer_id, p) ∷ peers) c h = process_peers-IsWired net now peers _ (
    if_either IsWired p.reconnecting _ _ h (
      after_call-IsWired p.agent (process (net p.agent) now (c.agents p.agent)) c
        (process-IsOf _ (net p.agent) now (c.agents p.agent) refl) h))

pub process_agents-IsWired :
    (net : ℕ → Surroundings) (now : ℕ) (c : P2pClient)
    → IsWired c
    → IsWired (process_agents net now c)
unfolding process_agents
process_agents-IsWired net now c h = process_peers-IsWired net now c.peers c h

ping_peers-IsWired :
    (now : ℕ) (peers : Map Bytes Peer) (c : P2pClient)
    → IsWired c
    → IsWired (ping_peers now peers c)
unfolding ping_peers
ping_peers-IsWired now [] c h = h
ping_peers-IsWired now ((peer_id, p) ∷ peers) c h = ping_peers-IsWired now peers _ (
    if_either IsWired (p.reconnecting || not (is_connected (c.agents p.agent))) _ _ h (
      update_peer-IsWired peer_id _ _ (λ q. refl)
        (set_agent-IsWired p.agent (send_ping (c.agents p.agent)) c
          (send_ping-IsOf _ (c.agents p.agent) refl) h)))

disconnect_peers-IsWired :
    (now : ℕ) (ids : List Bytes) (c : P2pClient) → IsWired c → IsWired (disconnect_peers now ids c)
unfolding disconnect_peers
disconnect_peers-IsWired now [] c h = h
disconnect_peers-IsWired now (peer_id ∷ ids) c h =
    elim_either IsWired (lookup peer_id c.peers) _ _ (disconnect_peers-IsWired now ids c h)
      (λ p e. disconnect_peers-IsWired now ids _ (schedule_reconnect-IsWired peer_id now c h))

pub ping_round-IsWired :
    (now : ℕ) (s : PingState) → IsWired s.client → IsWired (ping_round now s).client
unfolding ping_round send_command
ping_round-IsWired now s h =
    let Q = λ (t : PingState). IsWired t.client in
    let listed =
      if_either Q (leb s.next_list_at now)
        (record s { next_list_at = now + 6000; client = send_command list s.client }) s h h in
    if_either Q (not s.client.running) _ _ h (
      if_either Q (ltb now s.next_ping_at) _ _ listed
        (disconnect_peers-IsWired now _ _ (ping_peers-IsWired now _ _ listed)))

pub take_packet-IsWired :
    (net : ℕ → Surroundings) (i socket : ℕ) (from : Address) (bytes : Bytes) (now : ℕ)
    (c : P2pClient)
    → IsWired c
    → Returns IsWired (take_packet net i socket from bytes now c)
unfolding take_packet
take_packet-IsWired net i socket from bytes now c h =
    let t = agent_for net i from c in
    let named =
      on_udp_packet-IsOf (c.agents t).peer_id (net t) socket from bytes now (c.agents t) refl in
    Returns-bind IsWired (on_udp_packet (net t) socket from bytes now (c.agents t)) _
      (λ a e. after_call-IsWired t a c (subst (Returns _) e named) h)

pub stop_peers-IsWired : (c : P2pClient) → IsWired c → IsWired (stop_peers c)
unfolding stop_peers
stop_peers-IsWired c h = (tt, h.1)
