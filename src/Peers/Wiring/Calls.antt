-- ===== src/Peers/Wiring/Calls.antt =====
-- Tasks and offers of P2PChat.cpp keep the agents with their peers.
use neko_chat.Common.{
  ℕ, zero, suc, Bool, true, ◌&&◌, ◌||◌, not, List, [], ◌∷◌, ◌++◌, get_elem?, leb, refl, All,
  All-append, if_either,
}
use neko_chat.Common.Text.{Bytes}
use neko_chat.Common.Options.{elim_either}
use neko_chat.Common.Assoc.{bytes_key, lookup, All-erase}
use neko_chat.Ice.Pairs.{Candidate, Surroundings}
use neko_chat.Ice.Growing.{start_connectivity_checks}
use neko_chat.Ice.Naming.{start_connectivity_checks-IsOf}
use neko_chat.Peers.State.{
  P2pClient, Peer, Gathering, Action, start_ice, reconnect, add_local_candidates,
  get_or_create_agent, send_command,
}
use neko_chat.Peers.Tasks.{
  cancel_scheduled_task, schedule_task, cancel_pending_ice, schedule_delayed_ice,
  schedule_reconnect, start_checks, try_start_ice, perform, run_task,
}
use neko_chat.Peers.Offers.{
  process_incoming_offer, accept_pending_offer, decline_pending_offer, send_candidates,
  share_candidates, gathered, remove_at, end_gathering,
}
use neko_chat.Peers.Users.{has_user}
use neko_chat.Peers.Wiring.{
  IsAgentOf, IsWired, update_peer-IsWired, after_call-IsWired, add_local_candidates-IsOf,
  get_or_create-IsWired,
}

pub schedule_task-IsWired :
    (key : Bytes) (due : ℕ) (action : Action) (c : P2pClient)
    → IsWired c
    → IsWired (schedule_task key due action c)
unfolding schedule_task cancel_scheduled_task
schedule_task-IsWired key due action c h = h

pub schedule_reconnect-IsWired :
    (peer_id : Bytes) (now : ℕ) (c : P2pClient)
    → IsWired c
    → IsWired (schedule_reconnect peer_id now c)
unfolding schedule_reconnect schedule_task cancel_pending_ice cancel_scheduled_task
schedule_reconnect-IsWired peer_id now c h = update_peer-IsWired peer_id _ c (λ p. refl) h

start_checks-IsWired :
    (net : ℕ → Surroundings) (now : ℕ) (peer_id : Bytes) (p : Peer) (c : P2pClient)
    → IsWired c
    → IsWired (start_checks net now peer_id p c)
unfolding start_checks cancel_pending_ice cancel_scheduled_task
start_checks-IsWired net now peer_id p c h =
    let started = start_connectivity_checks (net p.agent) now (c.agents p.agent) in
    let called =
      after_call-IsWired p.agent started.0 c
        (start_connectivity_checks-IsOf _ (net p.agent) now (c.agents p.agent) refl) h in
    if_either IsWired (c.agents p.agent).success_notified _ _ h
      (if_either IsWired started.1 _ _ (update_peer-IsWired peer_id _ _ (λ p. refl) called) called)

pub try_start_ice-IsWired :
    (net : ℕ → Surroundings) (now : ℕ) (peer_id : Bytes) (force : Bool) (c : P2pClient)
    → IsWired c
    → IsWired (try_start_ice net now peer_id force c)
unfolding try_start_ice
try_start_ice-IsWired net now peer_id force c h =
    elim_either IsWired (lookup peer_id c.peers) c _ h (λ p e.
      if_either IsWired (p.reconnecting || not force && p.ice_started) _ _ h
        (start_checks-IsWired net now peer_id p c h))

perform-IsWired :
    (net : ℕ → Surroundings) (now : ℕ) (action : Action) (c : P2pClient)
    → IsWired c
    → IsWired (perform net now action c)
unfolding perform send_command
perform-IsWired net now (start_ice peer_id) c h = try_start_ice-IsWired net now peer_id true c h
perform-IsWired net now (reconnect peer_id) c h = (
  All-erase (λ (k : Bytes) (p : Peer). IsAgentOf c.agents c.next_agent p.agent k) peer_id c.peers
      h.0,
  h.1,
)

pub run_task-IsWired :
    (net : ℕ → Surroundings) (now : ℕ) (key : Bytes) (c : P2pClient)
    → IsWired c
    → IsWired (run_task net now key c)
unfolding run_task
run_task-IsWired net now key c h = elim_either IsWired (lookup key c.pending_tasks) c _ h (λ t e.
    if_either IsWired (c.running && not t.has_run && leb t.due now) _ _
      (perform-IsWired net now t.action _ h) h)

pub process_incoming_offer-IsWired :
    (net : ℕ → Surroundings) (now : ℕ) (from : Bytes) (c : P2pClient)
    → IsWired c
    → IsWired (process_incoming_offer net now from c)
unfolding process_incoming_offer
process_incoming_offer-IsWired net now from c h =
    let (wired, own) = get_or_create-IsWired net now from c h in
    let made = (get_or_create_agent net now from c).0 in
    let gathering : IsWired (record made { gatherings = made.gatherings ++ _ ∷ [] }) = (
      wired.0,
      All-append (λ (g : Gathering). IsAgentOf made.agents made.next_agent g.agent g.peer_id)
          made.gatherings (record { peer_id = from; agent = _; is_incoming = true } ∷ []) wired.1
          (own, tt),
    ) in
    elim_either IsWired (lookup from made.peers) _ _ gathering
      (λ p e. if_either IsWired p.reconnecting _ _ wired gathering)

pub accept_pending_offer-IsWired :
    (net : ℕ → Surroundings) (now : ℕ) (peer_id : Bytes) (c : P2pClient)
    → IsWired c
    → IsWired (accept_pending_offer net now peer_id c).0
unfolding accept_pending_offer
accept_pending_offer-IsWired net now peer_id c h =
    if_either (λ (r : P2pClient × Bool). IsWired r.0) (not (has_user peer_id c.pending_offer_peers))
      _ _ h (process_incoming_offer-IsWired net now peer_id _ h)

pub decline_pending_offer-IsWired :
    (peer_id : Bytes) (c : P2pClient) → IsWired c → IsWired (decline_pending_offer peer_id c)
unfolding decline_pending_offer send_command
decline_pending_offer-IsWired peer_id c h =
    if_either IsWired (not (has_user peer_id c.pending_offer_peers)) _ _ h h

pub send_candidates-IsWired :
    (peer_id : Bytes) (cands : List Candidate) (c : P2pClient)
    → IsWired c
    → IsWired (send_candidates peer_id cands c)
unfolding send_candidates send_command
send_candidates-IsWired peer_id [] c h = h
send_candidates-IsWired peer_id (cand ∷ cands) c h = send_candidates-IsWired peer_id cands _ h

gathered-IsWired :
    (net : ℕ → Surroundings) (now : ℕ) (g : Gathering) (locals : List Candidate) (c : P2pClient)
    → IsWired c
    → IsWired (gathered net now g locals c)
unfolding gathered share_candidates send_command schedule_delayed_ice schedule_task
    cancel_scheduled_task
gathered-IsWired net now g locals c h =
    let a = add_local_candidates (net g.agent) now locals (c.agents g.agent) in
    let shared = send_candidates-IsWired g.peer_id a.local_candidates _ (
      after_call-IsWired g.agent a (record c { my_local_candidates = locals })
        (add_local_candidates-IsOf (net g.agent) now _ locals (c.agents g.agent) refl) h) in
    if_either IsWired g.is_incoming _ _ (update_peer-IsWired g.peer_id _ _ (λ p. refl) shared)
      shared

All-remove_at :
    (P : Gathering → Type 0) (k : ℕ) (gs : List Gathering) → All P gs → All P (remove_at k gs)
unfolding remove_at
All-remove_at P k [] h = tt
All-remove_at P zero (g ∷ gs) h = h.1
All-remove_at P (suc k) (g ∷ gs) h = (h.0, All-remove_at P k gs h.1)

pub end_gathering-IsWired :
    (net : ℕ → Surroundings) (now k : ℕ) (locals : List Candidate) (c : P2pClient)
    → IsWired c
    → IsWired (end_gathering net now k locals c)
unfolding end_gathering
end_gathering-IsWired net now k locals c h =
    elim_either IsWired (get_elem? c.gatherings k) c _ h (λ g e.
      gathered-IsWired net now g locals _ (
        h.0,
        All-remove_at (λ (g : Gathering). IsAgentOf c.agents c.next_agent g.agent g.peer_id) k
            c.gatherings h.1,
      ))
