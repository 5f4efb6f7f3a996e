-- ===== src/Peers/Rounds.antt =====
-- What P2PChat.cpp does with all peers: ProcessAgents, PingLoop, BroadcastMessage, GetPeerIds,
-- GetConnectedPeerIds, and the clearing of the peers' members in Stop.
use neko_chat.Common.{
  ℕ, ◌+◌, Bool, true, false, ◌&&◌, ◌||◌, not, Option, none, some, List, [], ◌∷◌, leb, ltb, ◌==◌,
  if◌then◌else◌,
}
use neko_chat.Common.Text.{Bytes}
use neko_chat.Common.Assoc.{Map, bytes_key, lookup}
use neko_chat.Signal.Client.{list}
use neko_chat.Wire.Xor.{apply_xor55}
use neko_chat.Ice.{Agent}
use neko_chat.Ice.Pairs.{Candidate, Surroundings}
use neko_chat.Ice.Incoming.{process, send_ping, check_activity_timeout, on_udp_packet}
use neko_chat.Stun.{Address}
use neko_chat.Wire.Words.{htons}
use neko_chat.Common.Options.{◌>>=◌}
use neko_chat.Peers.Candidates.{endpoint_text}
use neko_chat.Peers.Users.{sort_users}
use neko_chat.Peers.State.{
  P2pClient, Gathering, Peer, send_command, update_peer, set_agent, after_call,
}
use neko_chat.Peers.Tasks.{schedule_reconnect}

-- TryGetActiveSocket: an agent with a connection and a socket for it.
unfoldable pub try_get_active_socket : Agent → Option (ℕ × Candidate)
try_get_active_socket a = elim a.active_socket [
  | none ↦ none
  | some sock ↦ if a.success_notified then some (sock, a.active_remote) else none
]

unfoldable pub is_connected : Agent → Bool
is_connected a = elim (try_get_active_socket a) [ none ↦ false | some to ↦ true ]

-- ProcessAgents: the peers are those at its start.
unfoldable pub process_peers : (ℕ → Surroundings) → ℕ → Map Bytes Peer → P2pClient → P2pClient
process_peers net now [] c = c
process_peers net now ((peer_id, p) ∷ peers) c =
    let called = after_call p.agent (process (net p.agent) now (c.agents p.agent)) c in
    process_peers net now peers (if p.reconnecting then c else called)

unfoldable pub process_agents : (ℕ → Surroundings) → ℕ → P2pClient → P2pClient
process_agents net now c = process_peers net now c.peers c

-- PingLoop, the pings.
unfoldable pub ping_peers : ℕ → Map Bytes Peer → P2pClient → P2pClient
ping_peers now [] c = c
ping_peers now ((peer_id, p) ∷ peers) c =
    let pinged =
      update_peer peer_id (λ q. record q { last_ping_sent = now })
        (set_agent p.agent (send_ping (c.agents p.agent)) c) in
    ping_peers now peers
      (if p.reconnecting || not (is_connected (c.agents p.agent)) then c else pinged)

-- PingLoop, `timedOutPeers`
unfoldable pub timed_out_peers : ℕ → (ℕ → Agent) → Map Bytes Peer → List Bytes
timed_out_peers now agents [] = []
timed_out_peers now agents ((peer_id, p) ∷ peers) =
    let rest = timed_out_peers now agents peers in
    if not p.reconnecting && check_activity_timeout now (agents p.agent)
    then peer_id ∷ rest
    else rest

-- PingLoop, onDisconnected of the peers that are there.
unfoldable pub disconnect_peers : ℕ → List Bytes → P2pClient → P2pClient
disconnect_peers now [] c = c
disconnect_peers now (peer_id ∷ ids) c = elim (lookup peer_id c.peers) [
  | none ↦ disconnect_peers now ids c
  | some p ↦ disconnect_peers now ids (schedule_reconnect peer_id now c)
]

-- PingLoop: nextPingAt and nextListAt with the client.
pub record PingState : Type 0 where
  pub next_ping_at : ℕ
  pub next_list_at : ℕ
  pub client : P2pClient

unfoldable pub ping_round : ℕ → PingState → PingState
ping_round now s =
    let listed =
      if leb s.next_list_at now
      then record s { next_list_at = now + 6000; client = send_command list s.client }
      else s in
    let pinged = ping_peers now listed.client.peers listed.client in
    let timed_out = timed_out_peers now pinged.agents pinged.peers in
    if not s.client.running then s else if ltb now s.next_ping_at then listed else record listed {
      next_ping_at = now + 25000;
      client = disconnect_peers now timed_out pinged;
    }

-- BroadcastMessage: the packet, with the socket and the peer that each sending goes to.
unfoldable pub broadcast_to : (ℕ → Agent) → Bytes → Map Bytes Peer → List (ℕ × Candidate × Bytes)
broadcast_to agents packet [] = []
broadcast_to agents packet ((peer_id, p) ∷ peers) =
    let rest = broadcast_to agents packet peers in
    elim (try_get_active_socket (agents p.agent)) [
      | none ↦ rest
      | some to ↦ (to.0, to.1, packet) ∷ rest
    ]

unfoldable pub broadcast_message : Bytes → P2pClient → List (ℕ × Candidate × Bytes)
broadcast_message text c = broadcast_to c.agents (0x01 ∷ apply_xor55 text) c.peers

-- GetPeerIds
unfoldable pub get_peer_ids : Map Bytes Peer → List Bytes
get_peer_ids [] = []
get_peer_ids ((peer_id, p) ∷ peers) = peer_id ∷ get_peer_ids peers

-- GetConnectedPeerIds
unfoldable pub connected_of : (ℕ → Agent) → Map Bytes Peer → List Bytes
connected_of agents [] = []
connected_of agents ((peer_id, p) ∷ peers) =
    let rest = connected_of agents peers in
    if not p.reconnecting && is_connected (agents p.agent) then peer_id ∷ rest else rest

unfoldable pub get_connected_peer_ids : P2pClient → List Bytes
get_connected_peer_ids c = sort_users (connected_of c.agents c.peers)

-- weak_ptr::lock of addrToAgent: an agent lives while a peer or a StartGathering has it.
unfoldable pub is_held_by_peer : ℕ → Map Bytes Peer → Bool
is_held_by_peer i [] = false
is_held_by_peer i ((peer_id, p) ∷ peers) = p.agent == i || is_held_by_peer i peers

unfoldable pub is_held_by_gathering : ℕ → List Gathering → Bool
is_held_by_gathering i [] = false
is_held_by_gathering i (g ∷ gs) = g.agent == i || is_held_by_gathering i gs

unfoldable pub live_agent : ℕ → P2pClient → Option ℕ
live_agent i c =
    if is_held_by_peer i c.peers || is_held_by_gathering i c.gatherings then some i else none

-- The worker of Start, for a packet that came in on the receive context of agent `i`: the agent that
-- its sender's address is registered for has it, or else agent `i`.
unfoldable pub agent_for : (ℕ → Surroundings) → ℕ → Address → P2pClient → ℕ
agent_for net i from c =
    let key = endpoint_text ((net i).print_ipv4 from.s_addr) (htons from.sin_port) in
    elim (lookup key c.addr_to_agent >>= λ t. live_agent t c) [ none ↦ i | some t ↦ t ]

unfoldable pub take_packet :
    (ℕ → Surroundings) → ℕ → ℕ → Address → Bytes → ℕ → P2pClient → Option P2pClient
take_packet net i socket from bytes now c = do
  let t = agent_for net i from c
  a ← on_udp_packet (net t) socket from bytes now (c.agents t)
  some (after_call t a c)

-- Stop, the members of the peers.
unfoldable pub stop_peers : P2pClient → P2pClient
stop_peers c = record c {
  running = false;
  pending_tasks = [];
  peers = [];
  addr_to_agent = [];
  online_users = [];
  pending_offer_prompts = [];
  pending_offer_peers = [];
}
