-- ===== src/Peers/Wiring.antt =====
-- Which agent belongs to which peer in P2PChat.cpp: every peer's agent, and that of every
-- StartGathering, has the peer's own id.
pub mod Calls
pub mod Notices
pub mod Running
use neko_chat.Common.{
  ℕ, zero, suc, ◌+◌, ◌-◌, ◌<◌, ◌≤◌, Bool, true, false, ◌&&◌, ◌||◌, not, Option, none, some, List,
  [], ◌∷◌, ◌++◌, length, drop, get_elem?, ◌==◌, ==_refl, if◌then◌else◌, ◌≡◌, refl, sym, ap, ◌∙◌,
  subst, All, All-map, All-append, All-get, if_either, if_cases, Bool-cases, inl, inr, arith,
}
use neko_chat.Common.Text.{Bytes}
use neko_chat.Common.Options.{elim_either, Returns, Returns-bind}
use neko_chat.Common.Assoc.{
  Map, Key, bytes_key, lookup, insert, erase, modify, All-lookup, All-erase, All-insert, All-modify,
}
use neko_chat.Ice.{Agent, Report, connected, exhausted, text, audio, screen, file, response, ping}
use neko_chat.Ice.Pairs.{Candidate, Surroundings}
use neko_chat.Ice.Naming.{add_local_candidate-IsOf}
use neko_chat.Peers.State.{
  P2pClient, Peer, Gathering, new_agent, new_peer, set_agent, update_peer, hear_report, hear,
  after_call, add_local_candidates, create_agent, get_or_create_agent,
}

-- Agent `i` was made, and for this peer.
abbrev pub IsAgentOf : (ℕ → Agent) → ℕ → ℕ → Bytes → Type 0
IsAgentOf agents next_agent i peer_id = (i < next_agent) × ((agents i).peer_id ≡ peer_id)

abbrev pub ArePeers : (ℕ → Agent) → ℕ → Map Bytes Peer → Type 0
ArePeers agents next_agent peers = All (λ e. IsAgentOf agents next_agent e.1.agent e.0) peers

abbrev pub AreGatherings : (ℕ → Agent) → ℕ → List Gathering → Type 0
AreGatherings agents next_agent gs = All (λ g. IsAgentOf agents next_agent g.agent g.peer_id) gs

abbrev pub IsWired : P2pClient → Type 0
IsWired c =
    ArePeers c.agents c.next_agent c.peers × AreGatherings c.agents c.next_agent c.gatherings

-- No agent that was made goes or gets another id.
abbrev pub Extends : (ℕ → Agent) → ℕ → (ℕ → Agent) → ℕ → Type 0
Extends agents n agents' n' =
    (n ≤ n') × ((i : ℕ) → i < n → (agents' i).peer_id ≡ (agents i).peer_id)

module _ (agents : ℕ → Agent) (n : ℕ) (agents' : ℕ → Agent) (n' : ℕ)
    (x : Extends agents n agents' n') where
  IsAgentOf-extends :
      (i : ℕ) (peer_id : Bytes) → IsAgentOf agents n i peer_id → IsAgentOf agents' n' i peer_id
  IsAgentOf-extends i peer_id h = (omega (arith, x.0, h.0), x.1 i h.0 ∙ h.1)

  pub ArePeers-extends :
      (peers : Map Bytes Peer) → ArePeers agents n peers → ArePeers agents' n' peers
  ArePeers-extends peers h =
      All-map (λ (e : Bytes × Peer). IsAgentOf agents n e.1.agent e.0)
        (λ (e : Bytes × Peer). IsAgentOf agents' n' e.1.agent e.0)
        (λ e k. IsAgentOf-extends e.1.agent e.0 k) peers h

  pub AreGatherings-extends :
      (gs : List Gathering) → AreGatherings agents n gs → AreGatherings agents' n' gs
  AreGatherings-extends gs h =
      All-map (λ (g : Gathering). IsAgentOf agents n g.agent g.peer_id)
        (λ (g : Gathering). IsAgentOf agents' n' g.agent g.peer_id)
        (λ g k. IsAgentOf-extends g.agent g.peer_id k) gs h

-- A change of a peer that leaves its agent.
pub update_peer-IsWired :
    (peer_id : Bytes) (f : Peer → Peer) (c : P2pClient)
    → ((p : Peer) → (f p).agent ≡ p.agent)
    → IsWired c
    → IsWired (update_peer peer_id f c)
unfolding update_peer
update_peer-IsWired peer_id f c same h = (
  All-modify (λ (k : Bytes) (p : Peer). IsAgentOf c.agents c.next_agent p.agent k) peer_id f c.peers
      (λ k p q. subst (λ i. IsAgentOf c.agents c.next_agent i k) (sym (same p)) q) h.0,
  h.1,
)

hear_report-IsWired :
    (peer_id : Bytes) (r : Report) (c : P2pClient) → IsWired c → IsWired (hear_report peer_id r c)
unfolding hear_report
hear_report-IsWired peer_id (connected p) c h = update_peer-IsWired peer_id _ c (λ p. refl) h
hear_report-IsWired peer_id exhausted c h = update_peer-IsWired peer_id _ c (λ p. refl) h
hear_report-IsWired peer_id (text from message) c h = h
hear_report-IsWired peer_id (audio payload) c h = h
hear_report-IsWired peer_id (screen payload) c h = h
hear_report-IsWired peer_id (file payload) c h = h
hear_report-IsWired peer_id (response sock to bytes) c h = h
hear_report-IsWired peer_id (ping sock to) c h = h

hear-IsWired :
    (peer_id : Bytes) (rs : List Report) (c : P2pClient) → IsWired c → IsWired (hear peer_id rs c)
unfolding hear
hear-IsWired peer_id [] c h = h
hear-IsWired peer_id (r ∷ rs) c h =
    hear-IsWired peer_id rs (hear_report peer_id r c) (hear_report-IsWired peer_id r c h)

set_agent-Extends :
    (i : ℕ) (a : Agent) (c : P2pClient)
    → a.peer_id ≡ (c.agents i).peer_id
    → Extends c.agents c.next_agent (set_agent i a c).agents c.next_agent
unfolding set_agent
set_agent-Extends i a c e = (
  omega arith,
  λ j l.
      if_cases (λ (b : Agent). b.peer_id ≡ (c.agents j).peer_id) (j == i) a (c.agents j)
        (λ q. e ∙ ap (λ k. (c.agents k).peer_id) (ground (arith, q))) (λ q. refl),
)

-- A call that leaves the agent's id.
pub set_agent-IsWired :
    (i : ℕ) (a : Agent) (c : P2pClient)
    → a.peer_id ≡ (c.agents i).peer_id
    → IsWired c
    → IsWired (set_agent i a c)
unfolding set_agent
set_agent-IsWired i a c e h =
    let x = set_agent-Extends i a c e in
    (
      ArePeers-extends c.agents c.next_agent (set_agent i a c).agents c.next_agent x c.peers h.0,
      AreGatherings-extends c.agents c.next_agent (set_agent i a c).agents c.next_agent x
          c.gatherings h.1,
    )

pub after_call-IsWired :
    (i : ℕ) (a : Agent) (c : P2pClient)
    → a.peer_id ≡ (c.agents i).peer_id
    → IsWired c
    → IsWired (after_call i a c)
unfolding after_call
after_call-IsWired i a c e h = hear-IsWired a.peer_id _ _ (set_agent-IsWired i a c e h)

pub add_local_candidates-IsOf :
    (net : Surroundings) (now : ℕ) (peer_id : Bytes) (cands : List Candidate) (a : Agent)
    → a.peer_id ≡ peer_id
    → (add_local_candidates net now cands a).peer_id ≡ peer_id
unfolding add_local_candidates
add_local_candidates-IsOf net now peer_id [] a h = h
add_local_candidates-IsOf net now peer_id (cand ∷ cands) a h =
    add_local_candidates-IsOf net now peer_id cands _
      (add_local_candidate-IsOf peer_id net now cand a h)

new_agent-IsOf : (peer_id : Bytes) (now : ℕ) → (new_agent peer_id now).peer_id ≡ peer_id
unfolding new_agent
new_agent-IsOf peer_id now = refl

-- The new agent has the peer's id and a number of its own.
create_agent-IsWired :
    (net : ℕ → Surroundings) (now : ℕ) (peer_id : Bytes) (c : P2pClient)
    → IsWired c
    → let (made, i) = create_agent net now peer_id c in
      IsWired made × IsAgentOf made.agents made.next_agent i peer_id
unfolding create_agent set_agent new_peer
create_agent-IsWired net now peer_id c h =
    let i = c.next_agent in
    let a = add_local_candidates (net i) now c.my_local_candidates (new_agent peer_id now) in
    let made = (create_agent net now peer_id c).0 in
    let named : a.peer_id ≡ peer_id =
      add_local_candidates-IsOf (net i) now peer_id c.my_local_candidates _
        (new_agent-IsOf peer_id now) in
    let own : IsAgentOf made.agents made.next_agent i peer_id = (
      omega arith,
      if_cases (λ (b : Agent). b.peer_id ≡ peer_id) (i == i) a (c.agents i) (λ q. named)
          (λ q. absurd (cc (q, ==_refl i))),
    ) in
    let x : Extends c.agents c.next_agent made.agents made.next_agent = (
      omega arith,
      λ j l.
          if_cases (λ (b : Agent). b.peer_id ≡ (c.agents j).peer_id) (j == i) a (c.agents j)
            (λ q. absurd (ground (arith, q, l))) (λ q. refl),
    ) in
    (
      (
        All-insert (λ (k : Bytes) (p : Peer). IsAgentOf made.agents made.next_agent p.agent k)
            peer_id (new_peer i) c.peers own
            (ArePeers-extends c.agents c.next_agent made.agents made.next_agent x c.peers h.0),
        AreGatherings-extends c.agents c.next_agent made.agents made.next_agent x c.gatherings h.1,
      ),
      own,
    )

pub get_or_create-IsWired :
    (net : ℕ → Surroundings) (now : ℕ) (peer_id : Bytes) (c : P2pClient)
    → IsWired c
    → let (made, i) = get_or_create_agent net now peer_id c in
      IsWired made × IsAgentOf made.agents made.next_agent i peer_id
unfolding get_or_create_agent
get_or_create-IsWired net now peer_id c h =
    let created = create_agent-IsWired net now peer_id c h in
    let P = λ (r : P2pClient × ℕ). IsWired r.0 × IsAgentOf r.0.agents r.0.next_agent r.1 peer_id in
    elim_either P (lookup peer_id c.peers) (create_agent net now peer_id c) _ created (λ p e.
      if_either P (not p.reconnecting) (c, p.agent) (create_agent net now peer_id c)
        (
          h,
          All-lookup (λ (k : Bytes) (q : Peer). IsAgentOf c.agents c.next_agent q.agent k) peer_id
              c.peers h.0 e,
        )
        created)
