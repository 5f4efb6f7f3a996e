-- ===== src/Ice/Tests.antt =====
-- A pair that is tried on a network that never answers.
use neko_chat.Common.{◌≡◌, refl, Option, true, false, none, some, [], ◌∷◌}
use neko_chat.Common.Text.{Bytes, codes, bytes_eq}
use neko_chat.Common.{All}
use neko_chat.Ice.Forming.{IsFalling, IsNew, form_pairs-IsFalling}
use neko_chat.Ice.{
  Agent, set_pair, drop_request, send_binding_request, check_pair, check_at, check_pairs, fail_at,
  start_pair, start_pairs, report, start_next_batch, check_pair_timeouts,
}
use neko_chat.Ice.Pairs.{
  form_pairs, server_reflexive, host, Candidate, CandidatePair, in_progress, Surroundings, is_host,
  is_in_progress, may_start, is_failed, is_private_or_shared_ipv4, is_link_local_ipv4,
  are_likely_same_subnet, host_major, hosts_major, major_of, same_subnet, compute_pair_priority,
  pair_key, new_pair, is_seen, pairs_of, all_pairs, number_pairs, insert_pair, sort_pairs,
}
use neko_chat.Ice.Growing.{
  has_socket, start_receiving, has_candidate, keys_of, has_none, add_new_pairs, grow,
  add_local_candidate, add_remote_candidate, start_connectivity_checks,
}
use neko_chat.Ice.Incoming.{
  number_of, find_pair, release_pair, find_address, succeed, succeed_all, connect,
  set_pair_succeeded, accept_response, handle_stun_response, is_live, touch_all, update_activity,
  check_activity_timeout, is_candidate, packet_report, is_stun, handle_payload, handle_stun,
  on_udp_packet, send_ping, get_active_connection, process, cancel,
}
use neko_chat.Stun.{Address, stun_response}
use neko_chat.Common.Assoc.{bytes_key, lookup, erase, put}
use neko_chat.Wire.Words.{load8, load16, load32, htons, htonl}
use neko_chat.Ice.Connecting.{IsConnectedBy}
use neko_chat.Ice.Running.{IsUnused, checks_start, here, next, connects_by_latest_request}

abbrev silent : Surroundings
silent = record {
  print_ipv4 = λ addr. codes "192.168.1.1";
  listens = λ sock. true;
  parse_ipv4 = λ ip. some 3232235777;
  sends = λ n. true;
  tids = λ n. n;
}

abbrev candidate : Candidate
candidate = record {
  kind = host;
  ip = codes "192.168.1.1";
  port = 5000;
  sock = some 4;
  related_ip = [];
  related_port = 0;
}

abbrev tried_pair : CandidatePair
tried_pair = record {
  id = 0;
  local = candidate;
  remote = candidate;
  socket = some 4;
  state = in_progress;
  priority = 1;
  last_sent = 1000;
  retry_count = 2;
  last_activity = 1000;
  active_tid = none;
}

abbrev trying : Agent
trying = record {
  peer_id = codes "bo";
  has_port = true;
  local_candidates = candidate ∷ [];
  remote_candidates = candidate ∷ [];
  receiving = [];
  success_notified = false;
  active_socket = none;
  active_remote = candidate;
  last_activity = 1000;
  started = true;
  last_check_time = 1000;
  next_id = 1;
  reports = [];
  pairs = tried_pair ∷ [];
  pending = [];
  current_pair_index = 1;
  max_retries = 3;
  retry_timeout_ms = 2000;
  calls = 3;
}

abbrev other : Candidate
other = record {
  kind = server_reflexive;
  ip = codes "8.8.4.4";
  port = 6000;
  sock = some 4;
  related_ip = [];
  related_port = 0;
}

form_pairs-IsFalling_example :
    IsFalling (form_pairs silent 50 7 (candidate ∷ other ∷ []) (other ∷ candidate ∷ []))
    × All (IsNew silent) (form_pairs silent 50 7 (candidate ∷ other ∷ []) (other ∷ candidate ∷ []))
form_pairs-IsFalling_example =
    form_pairs-IsFalling silent 50 7 (candidate ∷ other ∷ []) (other ∷ candidate ∷ [])

-- One local and one remote candidate; the checks start, and the answer to the first request comes.
abbrev ready : Agent
ready = record trying {
  remote_candidates = other ∷ [];
  started = false;
  pairs = [];
  current_pair_index = 0;
  calls = 0;
  next_id = 0;
}

ready-IsUnused : IsUnused ready
ready-IsUnused = record { no_pairs = refl; no_requests = refl }

abbrev from_other : Address
from_other = record { sin_port = 28695; s_addr = 67373064 }

abbrev answer : Bytes
answer = stun_response from_other (0 ∷ 0 ∷ 0 ∷ 0 ∷ 0 ∷ 0 ∷ 0 ∷ 0 ∷ 0 ∷ 0 ∷ 0 ∷ 0 ∷ [])

abbrev checking : Agent
checking = (start_connectivity_checks silent 50 ready).0

abbrev answered : Agent
answered = after_packet (on_udp_packet silent 4 from_other answer 60 checking)
  where
    after_packet : Option Agent → Agent
    after_packet none = checking
    after_packet (some b) = b

answer_comes : on_udp_packet silent 4 from_other answer 60 checking ≡ some answered
unfolding set_pair drop_request send_binding_request check_pair check_at check_pairs fail_at
    start_pair start_pairs report start_next_batch check_pair_timeouts is_host is_in_progress
    may_start is_failed is_private_or_shared_ipv4 is_link_local_ipv4 are_likely_same_subnet
    host_major hosts_major major_of same_subnet compute_pair_priority pair_key new_pair is_seen
    pairs_of all_pairs number_pairs insert_pair sort_pairs form_pairs has_socket start_receiving
    has_candidate keys_of has_none add_new_pairs grow add_local_candidate add_remote_candidate
    start_connectivity_checks number_of find_pair release_pair find_address succeed succeed_all
    connect set_pair_succeeded accept_response handle_stun_response is_live touch_all
    update_activity check_activity_timeout is_candidate packet_report is_stun handle_payload
    handle_stun on_udp_packet send_ping get_active_connection process cancel stun_response lookup
    erase put bytes_eq load8 load16 load32 htons htonl
answer_comes = refl

not_connected : checking.success_notified ≡ false
unfolding set_pair drop_request send_binding_request check_pair check_at check_pairs fail_at
    start_pair start_pairs report start_next_batch check_pair_timeouts is_host is_in_progress
    may_start is_failed is_private_or_shared_ipv4 is_link_local_ipv4 are_likely_same_subnet
    host_major hosts_major major_of same_subnet compute_pair_priority pair_key new_pair is_seen
    pairs_of all_pairs number_pairs insert_pair sort_pairs form_pairs has_socket start_receiving
    has_candidate keys_of has_none add_new_pairs grow add_local_candidate add_remote_candidate
    start_connectivity_checks number_of find_pair release_pair find_address succeed succeed_all
    connect set_pair_succeeded accept_response handle_stun_response is_live touch_all
    update_activity check_activity_timeout is_candidate packet_report is_stun handle_payload
    handle_stun on_udp_packet send_ping get_active_connection process cancel stun_response lookup
    erase put bytes_eq load8 load16 load32 htons htonl
not_connected = refl

is_connected : answered.success_notified ≡ true
unfolding set_pair drop_request send_binding_request check_pair check_at check_pairs fail_at
    start_pair start_pairs report start_next_batch check_pair_timeouts is_host is_in_progress
    may_start is_failed is_private_or_shared_ipv4 is_link_local_ipv4 are_likely_same_subnet
    host_major hosts_major major_of same_subnet compute_pair_priority pair_key new_pair is_seen
    pairs_of all_pairs number_pairs insert_pair sort_pairs form_pairs has_socket start_receiving
    has_candidate keys_of has_none add_new_pairs grow add_local_candidate add_remote_candidate
    start_connectivity_checks number_of find_pair release_pair find_address succeed succeed_all
    connect set_pair_succeeded accept_response handle_stun_response is_live touch_all
    update_activity check_activity_timeout is_candidate packet_report is_stun handle_payload
    handle_stun on_udp_packet send_ping get_active_connection process cancel stun_response lookup
    erase put bytes_eq load8 load16 load32 htons htonl
is_connected = refl

connects_by_latest_request_example : IsConnectedBy 4 answer checking answered
connects_by_latest_request_example =
    connects_by_latest_request silent ready checking answered 4 from_other answer 60 ready-IsUnused
      (next here (checks_start 50 ready)) answer_comes not_connected is_connected
