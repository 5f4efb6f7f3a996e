-- ===== src/Ice/Naming.antt =====
-- The peer's id of an agent stays what it is: the calls of IceAgent never change `peerId`.
use neko_chat.Common.{
  ℕ, zero, suc, ◌+◌, ◌-◌, Bool, ◌&&◌, ◌||◌, not, some, length, drop, get_elem?, leb, ltb, ◌==◌, ◌≡◌,
  if_either,
}
use neko_chat.Common.Text.{Bytes, substr}
use neko_chat.Common.Options.{elim_either, Returns, Returns-bind, Returns-if}
use neko_chat.Ice.Pairs.{Candidate, CandidatePair, Surroundings, is_in_progress, may_start}
use neko_chat.Ice.{
  Agent, set_pair, drop_request, send_binding_request, check_pair, check_at, check_pairs, fail_at,
  start_pair, start_pairs, report, start_next_batch, check_pair_timeouts, request_key,
}
use neko_chat.Ice.Growing.{
  has_socket, start_receiving, has_candidate, has_none, add_new_pairs, grow, add_local_candidate,
  add_remote_candidate, start_connectivity_checks,
}
use neko_chat.Ice.Incoming.{
  process, send_ping, accept_response, connect, handle_stun_response, update_activity,
  packet_report, handle_payload, handle_stun, on_udp_packet, find_address, number_of, find_pair,
  release_pair, is_stun,
}
use neko_chat.Stun.{Address, binding_request, binding_response, stun_header_size}
use neko_chat.Wire.Words.{load8, load16, htons}
use neko_chat.Common.Assoc.{bytes_key, nat_key, lookup, erase}

module _ (peer_id : Bytes) where
  abbrev pub IsOf : Agent → Type 0
  IsOf a = a.peer_id ≡ peer_id

  drop_request-IsOf : (i : ℕ) (p : CandidatePair) (a : Agent) → IsOf a → IsOf (drop_request i p a)
  unfolding drop_request set_pair
  drop_request-IsOf i p a h = elim_either IsOf p.active_tid _ _ h (λ tid e. h)

  send_binding_request-IsOf :
      (net : Surroundings) (i : ℕ) (p : CandidatePair) (a : Agent)
      → IsOf a
      → IsOf (send_binding_request net i p a).0
  unfolding send_binding_request set_pair
  send_binding_request-IsOf net i p a h =
      let dropped = drop_request-IsOf i p a h in
      elim_either (λ (r : Agent × Bool). IsOf r.0) p.socket _ _ h
        (λ socket e.
          elim_either (λ (r : Agent × Bool). IsOf r.0) (net.parse_ipv4 p.remote.ip) _ _ dropped
            (λ addr e.
              if_either (λ (r : Agent × Bool). IsOf r.0) (net.sends a.calls) _ _ dropped dropped))

  check_pair-IsOf :
      (net : Surroundings) (now i : ℕ) (p : CandidatePair) (a : Agent)
      → IsOf a
      → IsOf (check_pair net now i p a).0
  unfolding check_pair set_pair
  check_pair-IsOf net now i p a h =
      if_either (λ (r : Agent × Bool). IsOf r.0)
        (not (is_in_progress p.state) || leb (now - p.last_sent) a.retry_timeout_ms) _ _ h
        (if_either (λ (r : Agent × Bool). IsOf r.0) (ltb p.retry_count a.max_retries) _ _
          (send_binding_request-IsOf net i _ _ (drop_request-IsOf i _ _ h)) h)

  check_at-IsOf :
      (net : Surroundings) (now i : ℕ) (a : Agent) → IsOf a → IsOf (check_at net now i a).0
  unfolding check_at
  check_at-IsOf net now i a h =
      elim_either (λ (r : Agent × Bool). IsOf r.0) (get_elem? a.pairs i) _ _ h
        (λ p e. check_pair-IsOf net now i p a h)

  check_pairs-IsOf :
      (net : Surroundings) (now i left : ℕ) (a : Agent)
      → IsOf a
      → IsOf (check_pairs net now i left a).0
  unfolding check_pairs
  check_pairs-IsOf net now i zero a h = h
  check_pairs-IsOf net now i (suc left) a h =
      check_pairs-IsOf net now (i + 1) left _ (check_at-IsOf net now i a h)

  fail_at-IsOf : (i : ℕ) (a : Agent) → IsOf a → IsOf (fail_at i a)
  unfolding fail_at set_pair
  fail_at-IsOf i a h = elim_either IsOf (get_elem? a.pairs i) _ _ h (λ p e. h)

  start_pair-IsOf :
      (net : Surroundings) (now i : ℕ) (p : CandidatePair) (a : Agent)
      → IsOf a
      → IsOf (start_pair net now i p a).0
  unfolding start_pair set_pair
  start_pair-IsOf net now i p a h =
      let asked = send_binding_request-IsOf net i _ (record a { pairs = _ }) h in
      if_either IsOf _ _ _ asked (fail_at-IsOf i _ asked)

  start_pairs-IsOf :
      (net : Surroundings) (now most i left started : ℕ) (a : Agent)
      → IsOf a
      → IsOf (start_pairs net now most i left started a).0
  unfolding start_pairs
  start_pairs-IsOf net now most i zero started a h = h
  start_pairs-IsOf net now most i (suc left) started a h =
      let skipped = start_pairs-IsOf net now most (i + 1) left started a h in
      if_either (λ (r : Agent × ℕ). IsOf r.0) (leb most started) _ _ h
        (elim_either (λ (r : Agent × ℕ). IsOf r.0) (get_elem? a.pairs i) _ _ skipped
          (λ p e.
            if_either (λ (r : Agent × ℕ). IsOf r.0) (may_start p.state) _ _
              (start_pairs-IsOf net now most (i + 1) left _ _ (start_pair-IsOf net now i p a h))
              skipped))

  start_next_batch-IsOf :
      (net : Surroundings) (now most : ℕ) (a : Agent)
      → IsOf a
      → IsOf (start_next_batch net now most a)
  unfolding start_next_batch report
  start_next_batch-IsOf net now most a h =
      let i = a.current_pair_index in
      let next = start_pairs-IsOf net now most i (length a.pairs - i) 0 a h in
      if_either IsOf _ _ _ next next

  check_pair_timeouts-IsOf :
      (net : Surroundings) (now : ℕ) (a : Agent) → IsOf a → IsOf (check_pair_timeouts net now a)
  unfolding check_pair_timeouts
  check_pair_timeouts-IsOf net now a h =
      let checked = check_pairs-IsOf net now 0 (length a.pairs) a h in
      if_either IsOf _ _ _ (start_next_batch-IsOf net now 2 _ checked) checked

  start_receiving-IsOf :
      (net : Surroundings) (sock : ℕ) (a : Agent) → IsOf a → IsOf (start_receiving net sock a)
  unfolding start_receiving
  start_receiving-IsOf net sock a h = if_either IsOf _ _ _ h h

  add_new_pairs-IsOf :
      (net : Surroundings) (now : ℕ) (a : Agent) → IsOf a → IsOf (add_new_pairs net now a).0
  unfolding add_new_pairs
  add_new_pairs-IsOf net now a h = if_either (λ (r : Agent × Bool). IsOf r.0) _ _ _ h h

  grow-IsOf : (net : Surroundings) (now : ℕ) (a : Agent) → IsOf a → IsOf (grow net now a)
  unfolding grow
  grow-IsOf net now a h =
      let grown = add_new_pairs-IsOf net now a h in
      if_either IsOf (not a.started || a.success_notified) _ _ h (
        if_either IsOf (add_new_pairs net now a).1 _ _ (start_next_batch-IsOf net now 2 _ grown)
          grown)

  pub add_local_candidate-IsOf :
      (net : Surroundings) (now : ℕ) (cand : Candidate) (a : Agent)
      → IsOf a
      → IsOf (add_local_candidate net now cand a)
  unfolding add_local_candidate
  add_local_candidate-IsOf net now cand a h =
      if_either IsOf (has_candidate cand a.local_candidates) _ _ h (
        grow-IsOf net now _ (
          elim_either IsOf cand.sock _ _ h (λ sock e.
            if_either IsOf (a.has_port && not (has_socket sock a.receiving)) _ _
              (start_receiving-IsOf net sock _ h) h)))

  pub add_remote_candidate-IsOf :
      (net : Surroundings) (now : ℕ) (cand : Candidate) (a : Agent)
      → IsOf a
      → IsOf (add_remote_candidate net now cand a)
  unfolding add_remote_candidate
  add_remote_candidate-IsOf net now cand a h =
      if_either IsOf (has_candidate cand a.remote_candidates) _ _ h (grow-IsOf net now _ h)

  pub start_connectivity_checks-IsOf :
      (net : Surroundings) (now : ℕ) (a : Agent)
      → IsOf a
      → IsOf (start_connectivity_checks net now a).0
  unfolding start_connectivity_checks
  start_connectivity_checks-IsOf net now a h =
      if_either (λ (r : Agent × Bool). IsOf r.0)
        (has_none a.local_candidates || has_none a.remote_candidates) _ _ h
        (start_next_batch-IsOf net now 4 _ h)

  pub process-IsOf : (net : Surroundings) (now : ℕ) (a : Agent) → IsOf a → IsOf (process net now a)
  unfolding process
  process-IsOf net now a h =
      let checked = check_pair_timeouts-IsOf net now a h in
      if_either IsOf (not a.started || a.success_notified) _ _ h
        (if_either IsOf _ _ _ checked checked)

  pub send_ping-IsOf : (a : Agent) → IsOf a → IsOf (send_ping a)
  unfolding send_ping report
  send_ping-IsOf a h =
      elim_either IsOf a.active_socket _ _ h (λ sock e. if_either IsOf a.success_notified _ _ h h)

  packet_report-IsOf :
      (sender name : Bytes) (kind : ℕ) (payload : Bytes) (a : Agent)
      → IsOf a
      → IsOf (packet_report sender name kind payload a)
  unfolding packet_report report
  packet_report-IsOf sender name kind payload a h = if_either IsOf (kind == 0x01) _ _ h (
      if_either IsOf (kind == 0x02) _ _ h
        (if_either IsOf (kind == 0x03) _ _ h (if_either IsOf (kind == 0x04) _ _ h h)))

  accept_response-IsOf :
      (bytes : Bytes) (stop : ℕ) (p : CandidatePair) (now : ℕ) (a : Agent)
      → IsOf a
      → Returns IsOf (accept_response bytes stop p now a)
  unfolding accept_response connect report
  accept_response-IsOf bytes stop p now a h =
      Returns-bind IsOf (find_address stop bytes stop stun_header_size) _
        (λ found e. if_either IsOf (found && not a.success_notified) _ _ h h)

  handle_stun_response-IsOf :
      (socket : ℕ) (bytes : Bytes) (now : ℕ) (a : Agent)
      → IsOf a
      → Returns IsOf (handle_stun_response socket bytes now a)
  unfolding handle_stun_response
  handle_stun_response-IsOf socket bytes now a h =
      let key = request_key (some socket) (number_of (substr bytes 8 12)) in
      Returns-bind IsOf (load16 bytes 0) _ λ type_field e.
        Returns-bind IsOf (load16 bytes 2) _ λ length_field e.
          Returns-if IsOf (not (htons type_field == binding_response)) _ _ (λ e. h)
            (λ e. elim_either (Returns IsOf) (lookup key a.pending) _ _ h (λ id e.
              Returns-bind IsOf (find_pair id a.pairs) _ λ p e.
                accept_response-IsOf bytes (stun_header_size + htons length_field) p now
                  (record a { pending = erase key a.pending; pairs = release_pair id a.pairs }) h))

  handle_stun-IsOf :
      (socket : ℕ) (from : Address) (bytes : Bytes) (now : ℕ) (a : Agent)
      → IsOf a
      → Returns IsOf (handle_stun socket from bytes now a)
  unfolding handle_stun report
  handle_stun-IsOf socket from bytes now a h = Returns-bind IsOf (load16 bytes 0) _ λ type_field e.
      Returns-if IsOf (htons type_field == binding_request) _ _ (λ e. h)
        (λ e.
          Returns-if IsOf (htons type_field == binding_response) _ _
            (λ e. handle_stun_response-IsOf socket bytes now a h) (λ e. h))

  pub on_udp_packet-IsOf :
      (net : Surroundings) (socket : ℕ) (from : Address) (bytes : Bytes) (now : ℕ) (a : Agent)
      → IsOf a
      → Returns IsOf (on_udp_packet net socket from bytes now a)
  unfolding on_udp_packet handle_payload update_activity
  on_udp_packet-IsOf net socket from bytes now a h =
      let active = update_activity now a in
      Returns-if IsOf (ltb (length bytes) 1) _ _ (λ e. h)
        (λ e. Returns-bind IsOf (is_stun bytes) _ λ stun e.
          Returns-if IsOf stun _ _ (λ e. handle_stun-IsOf socket from bytes now a h)
            (λ e. Returns-bind IsOf (load8 bytes 0) _ λ kind e. if_either IsOf _ active _ h (
              packet_report-IsOf (net.print_ipv4 from.s_addr) a.peer_id kind (drop 1 bytes) active
                h)))
