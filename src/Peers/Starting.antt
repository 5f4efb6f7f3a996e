-- ===== src/Peers/Starting.antt =====
-- From an answer to the start of the checks in P2PChat.cpp.
use neko_chat.Common.{
  ℕ, ◌+◌, ◌≤◌, true, false, not, none, some, List, [], ◌∷◌, leb, ==_refl, ◌≡◌, refl, sym, ap, ◌∙◌,
  subst, if_cases, arith,
}
use neko_chat.Common.Text.{Bytes}
use neko_chat.Common.Options.{elim_either}
use neko_chat.Common.Assoc.{
  Map, bytes_key, lookup, insert, modify, lookup-insert, lookup-erase_self, lookup-modify_self,
  beq_self,
}
use neko_chat.Ice.{Agent, Report, connected, exhausted, text, audio, screen, file, response, ping}
use neko_chat.Ice.Pairs.{Candidate, Surroundings}
use neko_chat.Ice.Growing.{has_none, start_connectivity_checks}
use neko_chat.Peers.State.{
  P2pClient, Peer, Task, start_ice, update_peer, set_agent, hear_report, hear, after_call,
  create_agent, get_or_create_agent, new_peer, send_command,
}
use neko_chat.Peers.Tasks.{
  ice_task_key, cancel_scheduled_task, schedule_task, cancel_pending_ice, schedule_delayed_ice,
  start_checks, try_start_ice, perform, run_task,
}
use neko_chat.Peers.Offers.{send_candidates}
use neko_chat.Peers.Notices.{take_answer}

lookup-insert_self : (k : Bytes) (p : Peer) (m : Map Bytes Peer) → lookup k (insert k p m) ≡ some p
lookup-insert_self k p m = rw (lookup-insert, beq_self k) refl

-- The peer's entry has the agent that was asked for and waits for no reconnect.
abbrev pub IsUsable : Bytes → P2pClient × ℕ → Type 0
IsUsable peer_id r =
    (p : Peer) × (lookup peer_id r.0.peers ≡ some p) × (p.agent ≡ r.1) × (p.reconnecting ≡ false)

create_agent-IsUsable :
    (net : ℕ → Surroundings) (now : ℕ) (peer_id : Bytes) (c : P2pClient)
    → IsUsable peer_id (create_agent net now peer_id c)
unfolding create_agent set_agent new_peer
create_agent-IsUsable net now peer_id c =
    (new_peer c.next_agent, lookup-insert_self peer_id (new_peer c.next_agent) c.peers, refl, refl)

-- GetOrCreateAgent gives the agent of the peer's entry, which is then no longer reconnecting: so the
-- test of ProcessIncomingOffer for a peer that reconnects never holds.
pub get_or_create-IsUsable :
    (net : ℕ → Surroundings) (now : ℕ) (peer_id : Bytes) (c : P2pClient)
    → IsUsable peer_id (get_or_create_agent net now peer_id c)
unfolding get_or_create_agent
get_or_create-IsUsable net now peer_id c =
    let created = create_agent-IsUsable net now peer_id c in
    elim_either (IsUsable peer_id) (lookup peer_id c.peers) (create_agent net now peer_id c) _
      created
      (λ p e.
        if_cases (IsUsable peer_id) (not p.reconnecting) (c, p.agent)
          (create_agent net now peer_id c) (λ q. (p, e, refl, ground (arith, q))) (λ q. created))

hear_report-agents :
    (peer_id : Bytes) (r : Report) (c : P2pClient) → (hear_report peer_id r c).agents ≡ c.agents
unfolding hear_report update_peer
hear_report-agents peer_id (connected p) c = refl
hear_report-agents peer_id exhausted c = refl
hear_report-agents peer_id (text from message) c = refl
hear_report-agents peer_id (audio payload) c = refl
hear_report-agents peer_id (screen payload) c = refl
hear_report-agents peer_id (file payload) c = refl
hear_report-agents peer_id (response sock to bytes) c = refl
hear_report-agents peer_id (ping sock to) c = refl

hear-agents :
    (peer_id : Bytes) (rs : List Report) (c : P2pClient) → (hear peer_id rs c).agents ≡ c.agents
unfolding hear
hear-agents peer_id [] c = refl
hear-agents peer_id (r ∷ rs) c =
    hear-agents peer_id rs (hear_report peer_id r c) ∙ hear_report-agents peer_id r c

after_call-agent : (i : ℕ) (a : Agent) (c : P2pClient) → (after_call i a c).agents i ≡ a
unfolding after_call set_agent
after_call-agent i a c =
    ap (λ (agents : ℕ → Agent). agents i) (hear-agents a.peer_id _ (set_agent i a c))
    ∙ (rw (==_refl i) refl)

-- The checks of the agent have been started at the time, and no delayed start is left.
abbrev pub HasStarted : (ℕ → Surroundings) → ℕ → Bytes → ℕ → P2pClient → P2pClient → Type 0
HasStarted net now peer_id i before after =
    (after.agents i ≡ (start_connectivity_checks (net i) now (before.agents i)).0)
    × (lookup (ice_task_key peer_id) after.pending_tasks ≡ none)

start_connectivity_checks-starts :
    (net : Surroundings) (now : ℕ) (a : Agent)
    → has_none a.local_candidates ≡ false
    → has_none a.remote_candidates ≡ false
    → (start_connectivity_checks net now a).1 ≡ true
unfolding start_connectivity_checks
start_connectivity_checks-starts net now a local remote = rw (local, remote) refl

start_checks-HasStarted :
    (net : ℕ → Surroundings) (now : ℕ) (peer_id : Bytes) (p : Peer) (c : P2pClient)
    → (c.agents p.agent).success_notified ≡ false
    → has_none (c.agents p.agent).local_candidates ≡ false
    → has_none (c.agents p.agent).remote_candidates ≡ false
    → HasStarted net now peer_id p.agent c (start_checks net now peer_id p c)
unfolding start_checks cancel_pending_ice cancel_scheduled_task update_peer
start_checks-HasStarted net now peer_id p c free local remote =
    let started = start_connectivity_checks (net p.agent) now (c.agents p.agent) in
    let P = HasStarted net now peer_id p.agent c in
    if_cases P (c.agents p.agent).success_notified _ _ (λ e. absurd (cc (e, free)))
      (λ e.
        if_cases P started.1 _ _
          (λ e. (after_call-agent p.agent started.0 c, lookup-erase_self (ice_task_key peer_id) _))
          (λ e. absurd (
            cc (
              e,
              start_connectivity_checks-starts (net p.agent) now (c.agents p.agent) local remote,
            ))))

try_start_ice-there :
    (net : ℕ → Surroundings) (now : ℕ) (peer_id : Bytes) (c : P2pClient) (p : Peer)
    → lookup peer_id c.peers ≡ some p
    → p.reconnecting ≡ false
    → try_start_ice net now peer_id true c ≡ start_checks net now peer_id p c
unfolding try_start_ice
try_start_ice-there net now peer_id c p e waits = rw (e, try_start_ice, waits) refl

try_start_ice-HasStarted :
    (net : ℕ → Surroundings) (now : ℕ) (peer_id : Bytes) (c : P2pClient) (p : Peer)
    → lookup peer_id c.peers ≡ some p
    → p.reconnecting ≡ false
    → (c.agents p.agent).success_notified ≡ false
    → has_none (c.agents p.agent).local_candidates ≡ false
    → has_none (c.agents p.agent).remote_candidates ≡ false
    → HasStarted net now peer_id p.agent c (try_start_ice net now peer_id true c)
try_start_ice-HasStarted net now peer_id c p e waits free local remote =
    subst (HasStarted net now peer_id p.agent c)
      (sym (try_start_ice-there net now peer_id c p e waits))
      (start_checks-HasStarted net now peer_id p c free local remote)

-- What an answer leaves of the client but the commands: the peer's entry and the delayed start.
abbrev pub IsAwaiting : Bytes → ℕ → ℕ → P2pClient → Type 0
IsAwaiting peer_id due i c =
    (lookup (ice_task_key peer_id) c.pending_tasks
      ≡ some (record { due = due; action = start_ice peer_id; has_run = false }))
    × ((p : Peer) × (lookup peer_id c.peers ≡ some p)
        × (p.agent ≡ i)
        × (p.reconnecting ≡ false)
        × (p.negotiation_ready ≡ true))

send_candidates-peers :
    (peer_id : Bytes) (cands : List Candidate) (c : P2pClient)
    → (send_candidates peer_id cands c).peers ≡ c.peers
unfolding send_candidates send_command
send_candidates-peers peer_id [] c = refl
send_candidates-peers peer_id (cand ∷ cands) c = send_candidates-peers peer_id cands _

-- After an answer the peer is ready and no longer reconnecting, and the start is due in half a
-- second.
take_answer-IsAwaiting :
    (net : ℕ → Surroundings) (now : ℕ) (from : Bytes) (c : P2pClient)
    → IsAwaiting from
        (now + 500)
        (get_or_create_agent net now from c).1
        (take_answer net now from c)
unfolding take_answer schedule_delayed_ice schedule_task cancel_scheduled_task update_peer
take_answer-IsAwaiting net now from c =
    let (p, there, own, waits) = get_or_create-IsUsable net now from c in
    (
      rw (lookup-insert, beq_self (ice_task_key from)) refl,
      (
        record p { reconnecting = false; negotiation_ready = true },
        ap (lookup from) (send_candidates-peers from _ _)
            ∙ lookup-modify_self from
                (λ (q : Peer). record q { reconnecting = false; negotiation_ready = true })
                (get_or_create_agent net now from c).0.peers there,
        own,
        refl,
        refl,
      ),
    )

-- The client while the task's thread is at its action.
abbrev begun : Bytes → P2pClient → P2pClient
begun peer_id c = record c {
  pending_tasks =
      modify (ice_task_key peer_id) (λ (t : Task). record t { has_run = true }) c.pending_tasks;
}

run_task-begins :
    (net : ℕ → Surroundings) (now due : ℕ) (peer_id : Bytes) (c : P2pClient)
    → lookup (ice_task_key peer_id) c.pending_tasks
      ≡ some (record { due = due; action = start_ice peer_id; has_run = false })
    → leb due now ≡ true
    → c.running ≡ true
    → run_task net now (ice_task_key peer_id) c
      ≡ try_start_ice net now peer_id true (begun peer_id c)
unfolding run_task perform
run_task-begins net now due peer_id c e over runs = rw (e, run_task, runs, over) refl

-- After an answer of a peer the delayed start, once its half second is over, starts the connectivity
-- checks of the peer's agent and is gone, if the client runs, the agent has no connection yet and
-- candidates of both sides are there.
pub take_answer-HasStarted :
    (net : ℕ → Surroundings) (now later : ℕ) (from : Bytes) (c : P2pClient)
    → let after = take_answer net now from c in
      let i = (get_or_create_agent net now from c).1 in
      now + 500 ≤ later
      → after.running ≡ true
      → (after.agents i).success_notified ≡ false
      → has_none (after.agents i).local_candidates ≡ false
      → has_none (after.agents i).remote_candidates ≡ false
      → HasStarted net later from i after (run_task net later (ice_task_key from) after)
take_answer-HasStarted net now later from c due runs free local remote =
    let after = take_answer net now from c in
    let (task, (p, there, own, waits, ready)) = take_answer-IsAwaiting net now from c in
    let started =
      try_start_ice-HasStarted net later from (begun from after) p there waits
        (subst (λ k. (after.agents k).success_notified ≡ false) (sym own) free)
        (subst (λ k. has_none (after.agents k).local_candidates ≡ false) (sym own) local)
        (subst (λ k. has_none (after.agents k).remote_candidates ≡ false) (sym own) remote) in
    subst (λ k. HasStarted net later from k after (run_task net later (ice_task_key from) after))
      own
      (subst (HasStarted net later from p.agent after)
        (sym (run_task-begins net later (now + 500) from after task (ground arith) runs)) started)
