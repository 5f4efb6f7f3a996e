-- ===== src/Peers/Wiring/Running.antt =====
-- What a client comes to, whatever happens: the steps of P2PClient's handlers on peers in any order.
use neko_chat.Common.{ℕ, Bool, some, List, [], ◌∷◌, All-nil, ◌≡◌, sym, ap, ◌∙◌, subst}
use neko_chat.Common.Text.{Bytes}
use neko_chat.Common.Options.{Returns}
use neko_chat.Common.Assoc.{bytes_key, lookup, All-lookup}
use neko_chat.Signal.Client.{Notice}
use neko_chat.Stun.{Address}
use neko_chat.Ice.Pairs.{Candidate, Surroundings}
use neko_chat.Peers.State.{P2pClient, Peer}
use neko_chat.Peers.Tasks.{run_task, schedule_reconnect}
use neko_chat.Peers.Offers.{
  pop_pending_offer_prompt, take_prompt, accept_pending_offer, decline_pending_offer, end_gathering,
}
use neko_chat.Peers.Notices.{on_notice, offer_to}
use neko_chat.Peers.Rounds.{process_agents, ping_round, take_packet, stop_peers}
use neko_chat.Peers.Wiring.{IsAgentOf, IsWired}
use neko_chat.Peers.Wiring.Calls.{
  run_task-IsWired, schedule_reconnect-IsWired, accept_pending_offer-IsWired,
  decline_pending_offer-IsWired, end_gathering-IsWired,
}
use neko_chat.Peers.Wiring.Notices.{
  on_notice-IsWired, offer_to-IsWired, process_agents-IsWired, ping_round-IsWired,
  take_packet-IsWired, stop_peers-IsWired,
}

-- One thing that happens to a client.
pub data Step (net : ℕ → Surroundings) (wide : Bool → Bytes → ℕ)
    : P2pClient → P2pClient → Type 0 where
  is_told : (now : ℕ) (n : Notice) (c : P2pClient) → Step net wide c (on_notice net wide now n c)
  prompts : (c : P2pClient) → Step net wide c (pop_pending_offer_prompt c).0
  accepts :
      (now : ℕ) (peer_id : Bytes) (c : P2pClient)
      → Step net wide c (accept_pending_offer net now peer_id c).0
  declines : (peer_id : Bytes) (c : P2pClient) → Step net wide c (decline_pending_offer peer_id c)
  offers : (now : ℕ) (target : Bytes) (c : P2pClient) → Step net wide c (offer_to net now target c)
  reconnects :
      (now : ℕ) (target : Bytes) (c : P2pClient) → Step net wide c (schedule_reconnect target now c)
  gathers :
      (now k : ℕ) (locals : List Candidate) (c : P2pClient)
      → Step net wide c (end_gathering net now k locals c)
  task_ends : (now : ℕ) (key : Bytes) (c : P2pClient) → Step net wide c (run_task net now key c)
  time_passes : (now : ℕ) (c : P2pClient) → Step net wide c (process_agents net now c)
  pings :
      (now next_ping_at next_list_at : ℕ) (c : P2pClient)
      → Step net wide c
          (ping_round now (record {
            next_ping_at = next_ping_at;
            next_list_at = next_list_at;
            client = c;
          })).client
  packet_comes :
      (i socket : ℕ) (from : Address) (bytes : Bytes) (now : ℕ) (c d : P2pClient)
      → take_packet net i socket from bytes now c ≡ some d
      → Step net wide c d
  stops : (c : P2pClient) → Step net wide c (stop_peers c)

pub data Reach (net : ℕ → Surroundings) (wide : Bool → Bytes → ℕ) (s : P2pClient)
    : P2pClient → Type 0 where
  here : Reach net wide s s
  next : {c d : P2pClient} → Reach net wide s c → Step net wide c d → Reach net wide s d

take_prompt-IsWired :
    (prompts : List Bytes) (c : P2pClient) → IsWired c → IsWired (take_prompt prompts c).0
unfolding take_prompt
take_prompt-IsWired [] c h = h
take_prompt-IsWired (peer_id ∷ rest) c h = h

pop-IsWired : (c : P2pClient) → IsWired c → IsWired (pop_pending_offer_prompt c).0
unfolding pop_pending_offer_prompt
pop-IsWired c h = take_prompt-IsWired c.pending_offer_prompts c h

Step-IsWired :
    (net : ℕ → Surroundings) (wide : Bool → Bytes → ℕ) {c d : P2pClient}
    → Step net wide c d
    → IsWired c
    → IsWired d
Step-IsWired net wide (is_told now n c) h = on_notice-IsWired net wide now n c h
Step-IsWired net wide (prompts c) h = pop-IsWired c h
Step-IsWired net wide (accepts now peer_id c) h = accept_pending_offer-IsWired net now peer_id c h
Step-IsWired net wide (declines peer_id c) h = decline_pending_offer-IsWired peer_id c h
Step-IsWired net wide (offers now target c) h = offer_to-IsWired net now target c h
Step-IsWired net wide (reconnects now target c) h = schedule_reconnect-IsWired target now c h
Step-IsWired net wide (gathers now k locals c) h = end_gathering-IsWired net now k locals c h
Step-IsWired net wide (task_ends now key c) h = run_task-IsWired net now key c h
Step-IsWired net wide (time_passes now c) h = process_agents-IsWired net now c h
Step-IsWired net wide (pings now next_ping_at next_list_at c) h = ping_round-IsWired now _ h
Step-IsWired net wide (packet_comes i socket from bytes now c d e) h =
    subst (Returns IsWired) e (take_packet-IsWired net i socket from bytes now c h)
Step-IsWired net wide (stops c) h = stop_peers-IsWired c h

-- A client that knows no peers yet.
pub record IsNewClient (c : P2pClient) : Type 0 where
  pub no_peers : c.peers ≡ []
  pub no_gatherings : c.gatherings ≡ []

Reach-IsWired :
    (net : ℕ → Surroundings) (wide : Bool → Bytes → ℕ) {s c : P2pClient}
    → IsNewClient s
    → Reach net wide s c
    → IsWired c
Reach-IsWired net wide {s = s} n here =
    (All-nil _ s.peers n.no_peers, All-nil _ s.gatherings n.no_gatherings)
Reach-IsWired net wide n (next r st) = Step-IsWired net wide st (Reach-IsWired net wide n r)

-- Whatever happens to a client that starts without peers, notices, packets, offers, reconnects, late
-- callbacks and scheduled tasks in any order: the agent of each of its peers was made for this peer
-- and carries its id, and so two peers never have the same agent.
pub peers_own_agents :
    (net : ℕ → Surroundings) (wide : Bool → Bytes → ℕ) (s c : P2pClient)
    → IsNewClient s
    → Reach net wide s c
    → ((peer_id : Bytes) (p : Peer)
        → lookup peer_id c.peers ≡ some p
        → IsAgentOf c.agents c.next_agent p.agent peer_id)
      × ((peer_id other_id : Bytes) (p q : Peer)
          → lookup peer_id c.peers ≡ some p
          → lookup other_id c.peers ≡ some q
          → p.agent ≡ q.agent
          → peer_id ≡ other_id)
peers_own_agents net wide s c n r =
    let own : (peer_id : Bytes) (p : Peer)
        → lookup peer_id c.peers ≡ some p
        → IsAgentOf c.agents c.next_agent p.agent peer_id =
      λ peer_id p e.
        All-lookup (λ (k : Bytes) (q : Peer). IsAgentOf c.agents c.next_agent q.agent k) peer_id
          c.peers (Reach-IsWired net wide n r).0 e in
    (
      own,
      λ peer_id other_id p q e f same.
          sym (own peer_id p e).1 ∙ ap (λ i. (c.agents i).peer_id) same ∙ (own other_id q f).1,
    )
