-- ===== src/Ice/Connecting.antt =====
-- Which packets connect an agent.
use neko_chat.Common.{
  ℕ, suc, ◌+◌, ◌<◌, ◌≡◌, refl, sym, ap, ◌∙◌, subst, Bool, true, ◌&&◌, not, Option, none, some, List,
  [], ◌∷◌, ◌++◌, drop, length, ltb, ◌==◌, ◌⊎◌, All, All-get, get_elem?, arith, Bool-cases,
  Option-cases, inl, inr, if_either, if_cases, some_inj,
}
use neko_chat.Common.Text.{Bytes, substr}
use neko_chat.Common.Assoc.{bytes_key, lookup, erase, All-lookup}
use neko_chat.Common.Options.{Returns, Returns-bind, Returns-if}
use neko_chat.Wire.Words.{load8, load16, htons}
use neko_chat.Stun.{Address, binding_request, binding_response, stun_header_size}
use neko_chat.Ice.Pairs.{CandidatePair, Surroundings}
use neko_chat.Ice.{Agent, Report, connected, report, request_key}
use neko_chat.Ice.Incoming.{
  find_pair, release_pair, find_address, connect, accept_response, handle_stun_response,
  update_activity, packet_report, handle_payload, handle_stun, on_udp_packet, number_of, is_stun,
}
use neko_chat.Ice.Requests.{Asks, IsBooked}
use neko_chat.Ice.Reaching.{connect-IsBooked, update_activity-IsBooked, released-IsBooked}

find_pair_at :
    (id : ℕ) (ps : List CandidatePair) {p : CandidatePair}
    → find_pair id ps ≡ some p
    → (p.id ≡ id) × ((i : ℕ) × (get_elem? ps i ≡ some p))
unfolding find_pair
find_pair_at id [] e = absurd (cc)
find_pair_at id (q ∷ qs) {p = p} e = elim (Bool-cases (q.id == id)) [
  | inl own ↦
      let found = some_inj (rw own at e) in
      (subst (λ (x : CandidatePair). x.id ≡ id) found (ground arith), (0, ap some found))
  | inr other ↦
      let (same, (i, there)) = find_pair_at id qs (rw other at e) in (same, (suc i, there))
]

request_key-injective :
    (socket : Option ℕ) (s t u : ℕ)
    → request_key (some s) t ≡ request_key socket u
    → (socket ≡ some s) × (u ≡ t)
request_key-injective none s t u e = absurd (cc)
request_key-injective (some r) s t u e = (cc, cc)

-- `b` is connected by a response: to a pair of `a` whose latest request had the response's transaction
-- id and went out on the socket that the response came in on; the callback is told so.
abbrev pub IsConnectedBy : ℕ → Bytes → Agent → Agent → Type 0
IsConnectedBy socket bytes a b =
    (p : CandidatePair) × ((i : ℕ) × (get_elem? a.pairs i ≡ some p))
    × (p.socket ≡ some socket)
    × (p.active_tid ≡ some (number_of (substr bytes 8 12)))
    × (b.active_remote ≡ p.remote)
    × (b.active_socket ≡ p.socket)
    × (b.reports ≡ a.reports ++ connected (record p { active_tid = none }) ∷ [])

clash : (found done : Bool) → (found && not done) ≡ true → done ≡ true → ⊥
clash found done h e = ground arith

module _ (socket : ℕ) (bytes : Bytes) (now : ℕ) (a : Agent) (h : IsBooked a) where
  -- What a packet leaves.
  abbrev pub IsLeft : Agent → Type 0
  IsLeft b =
      IsBooked b
      × (b.success_notified ≡ true → (a.success_notified ≡ true) ⊎ IsConnectedBy socket bytes a b)
      × (a.success_notified ≡ true
          → (b.active_remote ≡ a.active_remote) × (b.active_socket ≡ a.active_socket))

  unchanged : IsLeft a
  unchanged = (h, λ e. inl e, λ _. (refl, refl))

  accept_response-IsLeft :
      (stop id : ℕ) (p : CandidatePair) (i : ℕ)
      → lookup (request_key (some socket) (number_of (substr bytes 8 12))) a.pending ≡ some id
      → get_elem? a.pairs i ≡ some p
      → p.id ≡ id
      → let released = record a {
        pending = erase (request_key (some socket) (number_of (substr bytes 8 12))) a.pending;
        pairs = release_pair id a.pairs;
      } in
        Returns IsLeft (accept_response bytes stop p now released)
  unfolding accept_response report connect
  accept_response-IsLeft stop id p i waits here own =
      let tid = number_of (substr bytes 8 12) in
      let key = request_key (some socket) tid in
      let k = released-IsBooked key id a waits h in
      let asks =
        All-lookup (λ k n. (n < a.next_id) × All (Asks k n) a.pairs) key a.pending h.booked waits in
      let (t, active, known) = All-get (Asks key id) a.pairs i asks.1 here own in
      let facts = request_key-injective p.socket socket tid t known in
      let c = connect-IsBooked p now _ k in
      Returns-bind IsLeft (find_address stop bytes stop stun_header_size) _ λ found _.
        if_cases IsLeft (found && not a.success_notified) _ _
          (λ first. (
            record { numbered = c.numbered; distinct = c.distinct; booked = c.booked },
            λ _. inr (p, (i, here), facts.0, active ∙ ap some facts.1, refl, refl, refl),
            λ e. absurd (clash found a.success_notified first e),
          ))
          (λ _. (k, λ e. inl e, λ _. (refl, refl)))

  handle_stun_response-IsLeft : Returns IsLeft (handle_stun_response socket bytes now a)
  unfolding handle_stun_response
  handle_stun_response-IsLeft =
      let key = request_key (some socket) (number_of (substr bytes 8 12)) in
      Returns-bind IsLeft (load16 bytes 0) _ λ type_field _.
        Returns-bind IsLeft (load16 bytes 2) _ λ length_field _.
          Returns-if IsLeft (not (htons type_field == binding_response)) _ _ (λ _. unchanged)
            (λ _. elim (Option-cases (lookup key a.pending)) [
              | inl e ↦ rw e unchanged
              | inr (id, e) ↦ rw e (
                  Returns-bind IsLeft (find_pair id a.pairs) _ λ p found.
                    let (own, (i, there)) = find_pair_at id a.pairs found in
                    accept_response-IsLeft (stun_header_size + htons length_field) id p i e there
                      own)
            ])

  handle_stun-IsLeft : (from : Address) → Returns IsLeft (handle_stun socket from bytes now a)
  unfolding handle_stun report
  handle_stun-IsLeft from = Returns-bind IsLeft (load16 bytes 0) _ λ type_field _.
      let kind = htons type_field in
      Returns-if IsLeft (kind == binding_request) _ _
        (λ _. (
          record { numbered = h.numbered; distinct = h.distinct; booked = h.booked },
          λ e. inl e,
          λ _. (refl, refl),
        ))
        (λ _.
          Returns-if IsLeft (kind == binding_response) _ _ (λ _. handle_stun_response-IsLeft)
            (λ _. unchanged))

  active-IsLeft : IsLeft (update_activity now a)
  unfolding update_activity
  active-IsLeft = (update_activity-IsBooked now a h, λ e. inl e, λ _. (refl, refl))

  -- The table is right and the connection is as before.
  abbrev IsAsBefore : Agent → Type 0
  IsAsBefore b =
      IsBooked b
      × (b.success_notified ≡ a.success_notified)
      × (b.active_remote ≡ a.active_remote)
      × (b.active_socket ≡ a.active_socket)

  report-IsLeft : (r : Report) (b : Agent) → IsAsBefore b → IsLeft (report r b)
  unfolding report
  report-IsLeft r b k = (
    record { numbered = k.0.numbered; distinct = k.0.distinct; booked = k.0.booked },
    λ e. inl (sym k.1 ∙ e),
    λ _. (k.2, k.3),
  )

  packet_report-IsLeft :
      (sender peer_id : Bytes) (kind : ℕ) (payload : Bytes)
      → IsLeft (packet_report sender peer_id kind payload (update_activity now a))
  unfolding packet_report update_activity
  packet_report-IsLeft sender peer_id kind payload =
      let b = update_activity now a in
      let same : IsAsBefore b = (update_activity-IsBooked now a h, refl, refl, refl) in
      if_either IsLeft (kind == 0x01) _ _ (report-IsLeft _ b same) (
        if_either IsLeft (kind == 0x02) _ _ (report-IsLeft _ b same) (
          if_either IsLeft (kind == 0x03) _ _ (report-IsLeft _ b same)
            (if_either IsLeft (kind == 0x04) _ _ (report-IsLeft _ b same) active-IsLeft)))

  pub on_udp_packet-IsLeft :
      (net : Surroundings) (from : Address)
      → Returns IsLeft (on_udp_packet net socket from bytes now a)
  unfolding on_udp_packet handle_payload
  on_udp_packet-IsLeft net from =
      Returns-if IsLeft (ltb (length bytes) 1) _ _ (λ _. unchanged)
        λ _. Returns-bind IsLeft (is_stun bytes) _ λ stun _.
          Returns-if IsLeft stun _ _ (λ _. handle_stun-IsLeft from)
            (λ _. Returns-bind IsLeft (load8 bytes 0) _ λ kind _.
              if_either IsLeft _ (update_activity now a) _ active-IsLeft
                (packet_report-IsLeft (net.print_ipv4 from.s_addr) a.peer_id kind (drop 1 bytes)))
