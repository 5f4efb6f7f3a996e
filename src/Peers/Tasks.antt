-- ===== src/Peers/Tasks.antt =====
-- Scheduled tasks, the start of the checks and reconnects in P2PChat.cpp: CancelScheduledTask,
-- ScheduleTask, ScheduleDelayedICE, ScheduleReconnect, TryStartICE.
use neko_chat.Common.{
  ℕ, ◌+◌, Bool, true, false, ◌&&◌, ◌||◌, not, none, some, ◌++◌, leb, if◌then◌else◌,
}
use neko_chat.Common.Text.{Bytes, codes}
use neko_chat.Common.Assoc.{bytes_key, lookup, insert, erase, modify}
use neko_chat.Signal.Client.{offer}
use neko_chat.Ice.Pairs.{Surroundings}
use neko_chat.Ice.Growing.{start_connectivity_checks}
use neko_chat.Peers.State.{
  Action, P2pClient, Peer, start_ice, reconnect, send_command, update_peer, after_call,
}

-- IceTaskKey, ReconnectTaskKey
unfoldable pub ice_task_key : Bytes → Bytes
ice_task_key peer_id = codes "ice:" ++ peer_id

unfoldable pub reconnect_task_key : Bytes → Bytes
reconnect_task_key peer_id = codes "reconnect:" ++ peer_id

-- CancelScheduledTask: the task's thread ends without its action if it has not come to it.
unfoldable pub cancel_scheduled_task : Bytes → P2pClient → P2pClient
cancel_scheduled_task key c = record c { pending_tasks = erase key c.pending_tasks }

-- ScheduleTask
unfoldable pub schedule_task : Bytes → ℕ → Action → P2pClient → P2pClient
schedule_task key due action c =
    let cancelled = cancel_scheduled_task key c in
    record cancelled {
      pending_tasks =
          insert key (record { due = due; action = action; has_run = false })
            cancelled.pending_tasks;
    }

-- CancelPendingICE
unfoldable pub cancel_pending_ice : Bytes → P2pClient → P2pClient
cancel_pending_ice peer_id = cancel_scheduled_task (ice_task_key peer_id)

-- ScheduleDelayedICE
unfoldable pub schedule_delayed_ice : Bytes → ℕ → ℕ → P2pClient → P2pClient
schedule_delayed_ice peer_id delay now =
    schedule_task (ice_task_key peer_id) (now + delay) (start_ice peer_id)

-- ScheduleReconnect
unfoldable pub schedule_reconnect : Bytes → ℕ → P2pClient → P2pClient
schedule_reconnect peer_id now c =
    let lost =
      update_peer peer_id
        (λ p. record p { reconnecting = true; ice_started = false; negotiation_ready = false }) c in
    schedule_task (reconnect_task_key peer_id) (now + 2000) (reconnect peer_id)
      (cancel_scheduled_task (reconnect_task_key peer_id) (cancel_pending_ice peer_id lost))

-- TryStartICE for a peer that is there.
unfoldable pub start_checks : (ℕ → Surroundings) → ℕ → Bytes → Peer → P2pClient → P2pClient
start_checks net now peer_id p c =
    let (agent, started) = start_connectivity_checks (net p.agent) now (c.agents p.agent) in
    let called = after_call p.agent agent c in
    if (c.agents p.agent).success_notified
    then c
    else if started
    then cancel_pending_ice peer_id
        (update_peer peer_id (λ p. record p { ice_started = true }) called)
    else called

-- TryStartICE
unfoldable pub try_start_ice : (ℕ → Surroundings) → ℕ → Bytes → Bool → P2pClient → P2pClient
try_start_ice net now peer_id force c = elim (lookup peer_id c.peers) [
  | none ↦ c
  | some p ↦
      if p.reconnecting || not force && p.ice_started then c else start_checks net now peer_id p c
]

-- The actions of ScheduleDelayedICE and ScheduleReconnect.
unfoldable pub perform : (ℕ → Surroundings) → ℕ → Action → P2pClient → P2pClient
perform net now (start_ice peer_id) c = try_start_ice net now peer_id true c
perform net now (reconnect peer_id) c =
    send_command (offer peer_id) (record c { peers = erase peer_id c.peers })

-- The end of a task's thread: its action, if the task is due and the client runs.
unfoldable pub run_task : (ℕ → Surroundings) → ℕ → Bytes → P2pClient → P2pClient
run_task net now key c = elim (lookup key c.pending_tasks) [
  | none ↦ c
  | some t ↦
      let begun = record c {
        pending_tasks = modify key (λ t. record t { has_run = true }) c.pending_tasks;
      } in
      if c.running && not t.has_run && leb t.due now then perform net now t.action begun else c
]
