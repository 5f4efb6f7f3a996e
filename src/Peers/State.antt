-- ===== src/Peers/State.antt =====
-- The members of P2PClient that the peers need, and its agents: PeerState, ScheduledTask, P2PClient,
-- the constructor of IceAgent.
use neko_chat.Common.{
  ℕ, ◌+◌, Bool, true, false, not, none, some, List, [], ◌∷◌, ◌++◌, drop, length, ◌==◌,
  if◌then◌else◌,
}
use neko_chat.Common.Text.{Bytes}
use neko_chat.Common.Assoc.{Map, nat_key, bytes_key, lookup, insert, modify}
use neko_chat.Signal.Client.{Command}
use neko_chat.Ice.{Agent, Report, connected, exhausted, text, audio, screen, file, response, ping}
use neko_chat.Ice.Pairs.{Candidate, Surroundings, host}
use neko_chat.Ice.Growing.{add_local_candidate}

-- PeerState without its counters; `agent` is the number of the agent it points to.
pub record Peer : Type 0 where
  pub agent : ℕ
  pub last_ping_sent : ℕ
  pub reconnecting : Bool
  pub ice_started : Bool
  pub negotiation_ready : Bool

-- What a scheduled task does.
pub data Action : Type 0 where
  start_ice : Bytes → Action
  reconnect : Bytes → Action

-- ScheduledTask: when it is due, what it does, and whether its thread has come to that.
pub record Task : Type 0 where
  pub due : ℕ
  pub action : Action
  pub has_run : Bool

-- A StartGathering that is under way: for an incoming offer or for one's own.
pub record Gathering : Type 0 where
  pub peer_id : Bytes
  pub agent : ℕ
  pub is_incoming : Bool

-- The members of P2PClient. `agents` is the agents that were made, by number, of which there are
-- `next_agent`; `commands` is what was sent to the signalling server; pendingOfferPeers is a list
-- without repetitions.
pub record P2pClient : Type 0 where
  pub running : Bool
  pub agents : ℕ → Agent
  pub next_agent : ℕ
  pub peers : Map Bytes Peer
  pub my_local_candidates : List Candidate
  pub online_users : List Bytes
  pub approval_required : Bool
  pub pending_offer_prompts : List Bytes
  pub pending_offer_peers : List Bytes
  pub addr_to_agent : Map Bytes ℕ
  pub pending_tasks : Map Bytes Task
  pub gatherings : List Gathering
  pub commands : List Command

-- IceAgent::IceAgent, and the peer's id that GetOrCreateAgent gives it.
unfoldable pub new_agent : Bytes → ℕ → Agent
new_agent peer_id now = record {
  peer_id = peer_id;
  has_port = true;
  local_candidates = [];
  remote_candidates = [];
  receiving = [];
  success_notified = false;
  active_socket = none;
  active_remote = record {
    kind = host;
    ip = [];
    port = 0;
    sock = none;
    related_ip = [];
    related_port = 0;
  };
  last_activity = now;
  started = false;
  last_check_time = now;
  next_id = 0;
  reports = [];
  pairs = [];
  pending = [];
  current_pair_index = 0;
  max_retries = 3;
  retry_timeout_ms = 2000;
  calls = 0;
}

unfoldable pub send_command : Command → P2pClient → P2pClient
send_command m c = record c { commands = c.commands ++ m ∷ [] }

-- A change of `peers[peer_id]` where the peer is there.
unfoldable pub update_peer : Bytes → (Peer → Peer) → P2pClient → P2pClient
update_peer peer_id f c = record c { peers = modify peer_id f c.peers }

unfoldable pub set_agent : ℕ → Agent → P2pClient → P2pClient
set_agent i a c = record c { agents = λ j. if j == i then a else c.agents j }

-- The callback of the checks that TryStartICE sets, for one report of the agent. The packets go to
-- the receivers of audio, screen and files, which are not of the peers' state.
unfoldable pub hear_report : Bytes → Report → P2pClient → P2pClient
hear_report peer_id (connected p) c = update_peer peer_id (λ p. record p { reconnecting = false }) c
hear_report peer_id exhausted c = update_peer peer_id (λ p. record p { ice_started = false }) c
hear_report peer_id (text from message) c = c
hear_report peer_id (audio payload) c = c
hear_report peer_id (screen payload) c = c
hear_report peer_id (file payload) c = c
hear_report peer_id (response sock to bytes) c = c
hear_report peer_id (ping sock to) c = c

unfoldable pub hear : Bytes → List Report → P2pClient → P2pClient
hear peer_id [] c = c
hear peer_id (r ∷ rs) c = hear peer_id rs (hear_report peer_id r c)

-- A call of agent `i` that leaves it as `a`: its new reports are heard.
unfoldable pub after_call : ℕ → Agent → P2pClient → P2pClient
after_call i a c = hear a.peer_id (drop (length (c.agents i).reports) a.reports) (set_agent i a c)

unfoldable pub add_local_candidates : Surroundings → ℕ → List Candidate → Agent → Agent
add_local_candidates net now [] a = a
add_local_candidates net now (cand ∷ cands) a =
    add_local_candidates net now cands (add_local_candidate net now cand a)

unfoldable pub new_peer : ℕ → Peer
new_peer i = record {
  agent = i;
  last_ping_sent = 0;
  reconnecting = false;
  ice_started = false;
  negotiation_ready = false;
}

-- GetOrCreateAgent, the making of an agent.
unfoldable pub create_agent : (ℕ → Surroundings) → ℕ → Bytes → P2pClient → P2pClient × ℕ
create_agent net now peer_id c =
    let i = c.next_agent in
    let a = add_local_candidates (net i) now c.my_local_candidates (new_agent peer_id now) in
    let made = record (set_agent i a c) {
      next_agent = i + 1;
      peers = insert peer_id (new_peer i) c.peers;
    } in
    (made, i)

-- GetOrCreateAgent
unfoldable pub get_or_create_agent : (ℕ → Surroundings) → ℕ → Bytes → P2pClient → P2pClient × ℕ
get_or_create_agent net now peer_id c = elim (lookup peer_id c.peers) [
  | none ↦ create_agent net now peer_id c
  | some p ↦ if not p.reconnecting then (c, p.agent) else create_agent net now peer_id c
]
