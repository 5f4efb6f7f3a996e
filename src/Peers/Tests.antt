-- ===== src/Peers/Tests.antt =====
-- Peers at concrete inputs.
use neko_chat.Common.{ℕ, true, false, some, [], ◌∷◌, ◌++◌, ◌≡◌, refl, arith}
use neko_chat.Common.Text.{Bytes, codes, has_byte, is_empty, bytes_eq, bytes_lt}
use neko_chat.Common.Assoc.{bytes_key, lookup, insert, modify}
use neko_chat.Signal.Server.{Server, list_ids, say, process_command}
use neko_chat.Signal.Client.{Notice, notify, process_line}
use neko_chat.Ice.Pairs.{Candidate, Surroundings, server_reflexive}
use neko_chat.Ice.Growing.{has_none}
use neko_chat.Peers.Users.{
  is_space, trim_front, trim_back, trim_spaces, has_user, parse_user_list_payload, join_user_list,
}
use neko_chat.Peers.Users.Lists.{IsUserList, parse-join_user_list}
use neko_chat.Peers.Users.Serving.{others, list_line, list-reaches_client}
use neko_chat.Peers.Candidates.{candidate_text, try_parse_candidate_message}
use neko_chat.Peers.Candidates.RoundTrip.{IsAddress, IsSendable, as_received, parse-candidate_text}
use neko_chat.Peers.State.{
  send_command, P2pClient, Peer, new_peer, new_agent, create_agent, get_or_create_agent, set_agent,
  update_peer, add_local_candidates,
}
use neko_chat.Peers.Offers.{send_candidates}
use neko_chat.Peers.Notices.{on_notice, take_answer}
use neko_chat.Peers.Tasks.{
  ice_task_key, run_task, schedule_delayed_ice, schedule_task, cancel_scheduled_task,
}
use neko_chat.Peers.Starting.{IsUsable, HasStarted, get_or_create-IsUsable, take_answer-HasStarted}
use neko_chat.Peers.Wiring.{IsAgentOf}
use neko_chat.Peers.Wiring.Running.{IsNewClient, here, next, is_told, peers_own_agents}

abbrev al : Bytes
al = codes "al"

abbrev bo : Bytes
bo = codes "bo"

users : IsUserList (al ∷ bo ∷ [])
unfolding is_empty has_byte trim_spaces trim_front trim_back is_space has_user bytes_eq bytes_lt
users = record {
  names = (
    record { filled = refl; plain = refl; trimmed = refl },
    (record { filled = refl; plain = refl; trimmed = refl }, tt),
  );
  new = (refl, (refl, tt));
  sorted = (refl, tt);
}

parse-join_user_list_example :
    parse_user_list_payload (join_user_list (al ∷ bo ∷ [])) ≡ al ∷ bo ∷ []
parse-join_user_list_example = parse-join_user_list al (bo ∷ []) users

abbrev serving : Server
serving = record {
  running = true;
  contexts = λ c. record {
    client_id = codes "me";
    is_registered = true;
    active = true;
    connected = true;
    received = [];
  };
  clients = 1 ∷ 2 ∷ 3 ∷ [];
  id_to_client = (al, 1) ∷ (bo, 2) ∷ (codes "me", 3) ∷ [];
  accepts = λ n. 9;
  sends = 0;
}

list-reaches_client_example :
    (process_command 3 (codes "LIST") serving ≡ say 3 (list_line 3 serving ++ b'\n' ∷ []) serving)
    × (process_line (list_line 3 serving)
        ≡ notify (codes "server") (codes "list") (list_ids 3 true serving.id_to_client))
    × (parse_user_list_payload (list_ids 3 true serving.id_to_client)
        ≡ others 3 serving.id_to_client)
list-reaches_client_example = list-reaches_client 3 serving refl users

abbrev reflexive : Candidate
reflexive = record {
  kind = server_reflexive;
  ip = codes "8.8.4.4";
  port = 6000;
  sock = some 4;
  related_ip = codes "8.8.4.4";
  related_port = 5000;
}

reflexive-IsAddress : IsAddress (codes "8.8.4.4")
unfolding is_empty has_byte is_space
reflexive-IsAddress = record {
  filled = refl;
  short = omega arith;
  no_colon = refl;
  no_zero = refl;
  no_space = (refl, (refl, (refl, (refl, (refl, (refl, (refl, tt)))))));
}

reflexive-IsSendable : IsSendable reflexive
reflexive-IsSendable = record {
  address = reflexive-IsAddress;
  port = omega arith;
  related = λ e. reflexive-IsAddress;
  related_port = omega arith;
}

parse-candidate_text_example :
    try_parse_candidate_message (λ negative digits. 0) (candidate_text reflexive)
    ≡ some (as_received reflexive)
parse-candidate_text_example =
    parse-candidate_text (λ negative digits. 0) reflexive reflexive-IsSendable

-- A client that asks its user, with an offer of bo.
abbrev asked : P2pClient
asked = record {
  running = true;
  agents = λ i. new_agent [] 0;
  next_agent = 0;
  peers = [];
  my_local_candidates = [];
  online_users = [];
  approval_required = true;
  pending_offer_prompts = bo ∷ [];
  pending_offer_peers = bo ∷ [];
  addr_to_agent = [];
  pending_tasks = [];
  gatherings = [];
  commands = [];
}

abbrev silent : ℕ → Surroundings
silent i = record {
  print_ipv4 = λ addr. codes "8.8.4.4";
  listens = λ sock. true;
  parse_ipv4 = λ ip. some 134743044;
  sends = λ n. true;
  tids = λ n. n;
}

abbrev answer_comes : Notice
answer_comes = record { from = bo; kind = codes "answer"; text = [] }

-- The same client when an answer of bo has come.
abbrev answered : P2pClient
answered = on_notice silent (λ negative digits. 0) 10 answer_comes asked

abbrev bo_peer : Peer
bo_peer = record {
  agent = 0;
  last_ping_sent = 0;
  reconnecting = false;
  ice_started = false;
  negotiation_ready = true;
}

bo_is_there : lookup bo answered.peers ≡ some bo_peer
unfolding lookup on_notice bytes_eq take_answer schedule_delayed_ice schedule_task
    cancel_scheduled_task send_candidates update_peer get_or_create_agent create_agent set_agent
    add_local_candidates new_agent modify insert new_peer
bo_is_there = refl

asked-IsNewClient : IsNewClient asked
asked-IsNewClient = record { no_peers = refl; no_gatherings = refl }

peers_own_agents_example : IsAgentOf answered.agents answered.next_agent 0 bo
peers_own_agents_example =
    (peers_own_agents silent (λ negative digits. 0) asked answered asked-IsNewClient
        (next here (is_told 10 answer_comes asked))).0
      bo bo_peer bo_is_there

get_or_create-IsUsable_example : IsUsable bo (get_or_create_agent silent 10 bo asked)
get_or_create-IsUsable_example = get_or_create-IsUsable silent 10 bo asked

-- A client whose peer bo has candidates of both sides.
abbrev negotiating : P2pClient
negotiating = record asked {
  agents = λ i. record (new_agent bo 0) {
    local_candidates = reflexive ∷ [];
    remote_candidates = reflexive ∷ [];
  };
  next_agent = 1;
  peers = (bo, new_peer 0) ∷ [];
}

take_answer-HasStarted_example :
    HasStarted silent 600 bo 0
      (take_answer silent 10 bo negotiating)
      (run_task silent 600 (ice_task_key bo) (take_answer silent 10 bo negotiating))
unfolding get_or_create_agent take_answer schedule_delayed_ice schedule_task cancel_scheduled_task
    send_candidates update_peer lookup bytes_eq new_peer send_command new_agent has_none
take_answer-HasStarted_example =
    take_answer-HasStarted silent 10 600 bo negotiating (omega arith) refl refl refl refl
