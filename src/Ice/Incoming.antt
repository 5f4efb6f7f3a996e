-- ===== src/Ice/Incoming.antt =====
-- What arrives at an agent, and the life of a connection: OnUdpPacket, HandleStunResponseInternal,
-- SetPairSucceeded, UpdateActivity, CheckActivityTimeout, SendPing, Process, Cancel.
use neko_chat.Common.{
  ℕ, zero, suc, ◌+◌, ◌-◌, ◌*◌, Bool, true, false, ◌&&◌, ◌||◌, not, Option, none, some, List, [],
  ◌∷◌, drop, length, ltb, leb, ◌==◌, if◌then◌else◌,
}
use neko_chat.Common.Text.{Bytes, bytes_eq, substr, is_empty}
use neko_chat.Common.Assoc.{bytes_key, lookup, erase}
use neko_chat.Wire.Words.{htons, htonl, load8, load16, load32}
use neko_chat.Wire.Xor.{apply_xor55}
use neko_chat.Files.Packets.{◌>>=◌}
use neko_chat.Stun.{
  Address, binding_request, binding_response, xor_mapped_address, magic, stun_header_size, padded,
  stun_response,
}
use neko_chat.Ice.Pairs.{
  Candidate, CandidatePair, Surroundings, PairState, waiting, in_progress, succeeded, failed,
}
use neko_chat.Ice.{
  Agent, connected, text, audio, screen, file, response, ping, report, request_key,
  check_pair_timeouts,
}
use neko_chat.Ice.Growing.{has_none}

-- The transaction id at `bytes`, as a number in memory order.
unfoldable pub number_of : Bytes → ℕ
number_of [] = 0
number_of (b ∷ bs) = b + 256 * number_of bs

-- weak_ptr::lock: m_pairs alone keeps a pair alive.
unfoldable pub find_pair : ℕ → List CandidatePair → Option CandidatePair
find_pair id [] = none
find_pair id (p ∷ ps) = if p.id == id then some p else find_pair id ps

unfoldable pub release_pair : ℕ → List CandidatePair → List CandidatePair
release_pair id [] = []
release_pair id (p ∷ ps) =
    (if p.id == id then record p { active_tid = none } else p) ∷ release_pair id ps

-- The loop over the attributes of a response up to `stop`, `fuel` rounds at most: whether an IPv4
-- address is found. A result of none is a read behind what was received, or too few rounds.
unfoldable pub find_address : ℕ → Bytes → ℕ → ℕ → Option Bool
find_address zero bytes stop p = none
find_address (suc fuel) bytes stop p =
    let next = λ (len : ℕ). find_address fuel bytes stop (p + 4 + padded len) in
    if not (leb (p + 4) stop) then some false else do
      type_field ← load16 bytes p
      length_field ← load16 bytes (p + 2)
      let len = htons length_field
      if not (htons type_field == xor_mapped_address && leb 8 len) then next len else do
        family ← load8 bytes (p + 5)
        if not (family == 0x01)
            then next len
            else do port ← load16 bytes (p + 6); addr ← load32 bytes (p + 8); some true

unfoldable pub succeed : PairState → PairState
succeed waiting = waiting
succeed in_progress = succeeded
succeed succeeded = succeeded
succeed failed = failed

unfoldable pub succeed_all : List CandidatePair → List CandidatePair
succeed_all [] = []
succeed_all (p ∷ ps) = record p { state = succeed p.state } ∷ succeed_all ps

-- The pair becomes the active one.
unfoldable pub connect : CandidatePair → ℕ → Agent → Agent
connect p now a = record a {
  success_notified = true;
  active_remote = p.remote;
  active_socket = p.socket;
  last_activity = now;
  pending = [];
  pairs = succeed_all a.pairs;
}

-- SetPairSucceeded
unfoldable pub set_pair_succeeded : CandidatePair → ℕ → Agent → Agent
set_pair_succeeded p now a = if a.success_notified then a else connect p now a

-- A response that answers a request of the pair `p`.
unfoldable pub accept_response : Bytes → ℕ → CandidatePair → ℕ → Agent → Option Agent
accept_response bytes stop p now a = do
  found ← find_address stop bytes stop stun_header_size
  some (
      if found && not a.success_notified
      then report (connected (record p { active_tid = none })) (connect p now a)
      else a)

-- HandleStunResponseInternal. It prints the pair before it tests whether the pair is there, so it
-- has no result for a request whose pair is gone.
unfoldable pub handle_stun_response : ℕ → Bytes → ℕ → Agent → Option Agent
handle_stun_response recv_socket bytes now a = do
  type_field ← load16 bytes 0
  length_field ← load16 bytes 2
  let key = request_key (some recv_socket) (number_of (substr bytes 8 12))
  if not (htons type_field == binding_response) then some a else elim (lookup key a.pending) [
    | none ↦ some a
    | some id ↦ do
      p ← find_pair id a.pairs
      accept_response bytes (stun_header_size + htons length_field) p now
          (record a { pending = erase key a.pending; pairs = release_pair id a.pairs })
  ]

-- UpdateActivity
unfoldable pub is_live : PairState → Bool
is_live waiting = false
is_live in_progress = true
is_live succeeded = true
is_live failed = false

unfoldable pub touch_all : ℕ → List CandidatePair → List CandidatePair
touch_all now [] = []
touch_all now (p ∷ ps) =
    (if is_live p.state then record p { last_activity = now } else p) ∷ touch_all now ps

unfoldable pub update_activity : ℕ → Agent → Agent
update_activity now a = record a { last_activity = now; pairs = touch_all now a.pairs }

-- CheckActivityTimeout
unfoldable pub check_activity_timeout : ℕ → Agent → Bool
check_activity_timeout now a = a.success_notified && ltb 60000 (now - a.last_activity)

-- Whether a packet comes from one of the candidates.
unfoldable pub is_candidate : Bytes → ℕ → List Candidate → Bool
is_candidate ip port [] = false
is_candidate ip port (c ∷ cs) = bytes_eq c.ip ip && c.port == port || is_candidate ip port cs

-- What a packet that is not STUN is reported as.
unfoldable pub packet_report : Bytes → Bytes → ℕ → Bytes → Agent → Agent
packet_report sender peer_id kind payload a =
    if kind == 0x01
    then report (text (if is_empty peer_id then sender else peer_id) (apply_xor55 payload)) a
    else if kind == 0x02
    then report (audio payload) a
    else if kind == 0x03
    then report (screen payload) a
    else if kind == 0x04
    then report (file payload) a
    else a

-- The packet's bytes 4 to 7 are the magic cookie.
unfoldable pub is_stun : Bytes → Option Bool
is_stun bytes =
    if ltb (length bytes) 20
    then some false
    else do cookie ← load32 bytes 4; some (htonl cookie == magic)

-- A packet that is not STUN.
unfoldable pub handle_payload : Surroundings → Address → Bytes → ℕ → Agent → Option Agent
handle_payload net from bytes now a = do
  let ip = net.print_ipv4 from.s_addr
  let active = update_activity now a
  let found = is_candidate ip (htons from.sin_port) a.remote_candidates
  kind ← load8 bytes 0
  some (
      if not (has_none a.remote_candidates) && not found
      then active
      else packet_report ip a.peer_id kind (drop 1 bytes) active)

-- A STUN message.
unfoldable pub handle_stun : ℕ → Address → Bytes → ℕ → Agent → Option Agent
handle_stun socket from bytes now a = do
  type_field ← load16 bytes 0
  let kind = htons type_field
  if kind == binding_request
      then some (report (response socket from (stun_response from (substr bytes 8 12))) a)
      else if kind == binding_response
      then handle_stun_response socket bytes now a
      else some a

-- OnUdpPacket
unfoldable pub on_udp_packet : Surroundings → ℕ → Address → Bytes → ℕ → Agent → Option Agent
on_udp_packet net socket from bytes now a = if ltb (length bytes) 1 then some a else do
  stun ← is_stun bytes
  if stun then handle_stun socket from bytes now a else handle_payload net from bytes now a

-- SendPing
unfoldable pub send_ping : Agent → Agent
send_ping a = elim a.active_socket [
  | none ↦ a
  | some sock ↦ if a.success_notified then report (ping sock a.active_remote) a else a
]

-- GetActiveConnection, IsConnected
unfoldable pub get_active_connection : Agent → Bool × Option ℕ × Candidate
get_active_connection a = (a.success_notified, a.active_socket, a.active_remote)

-- Process
unfoldable pub process : Surroundings → ℕ → Agent → Agent
process net now a =
    let checked = check_pair_timeouts net now a in
    if not a.started || a.success_notified
    then a
    else if ltb 500 (now - checked.last_check_time)
    then record checked { last_check_time = now }
    else checked

-- Cancel
unfoldable pub cancel : Agent → Agent
cancel a = record a {
  receiving = [];
  local_candidates = [];
  remote_candidates = [];
  pairs = [];
  pending = [];
  started = false;
  success_notified = false;
  active_socket = none;
}
