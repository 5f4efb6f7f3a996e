-- ===== src/Ice/Pairs.antt =====
-- Candidates and pairs: ComputePairPriority and FormPairsInternal.
use neko_chat.Common.{
  ℕ, ◌+◌, ◌*◌, ◌/◌, ◌^◌, Bool, true, false, ◌&&◌, ◌||◌, Option, none, some, List, [], ◌∷◌, ◌++◌,
  ltb, ◌==◌, if◌then◌else◌,
}
use neko_chat.Common.Text.{Bytes, bytes_eq}
use neko_chat.Common.Assoc.{nat_key, bytes_key}
use neko_chat.Common.Decimal.{to_string}

-- CandidateType; a test for HOST.
pub data CandidateType : Type 0 where
  host : CandidateType
  server_reflexive : CandidateType

unfoldable pub is_host : CandidateType → Bool
is_host host = true
is_host server_reflexive = false

-- Candidate, with none for INVALID_SOCKET.
pub record Candidate : Type 0 where
  pub kind : CandidateType
  pub ip : Bytes
  pub port : ℕ
  pub sock : Option ℕ
  pub related_ip : Bytes
  pub related_port : ℕ

-- PairState
pub data PairState : Type 0 where
  waiting : PairState
  in_progress : PairState
  succeeded : PairState
  failed : PairState

unfoldable pub is_in_progress : PairState → Bool
is_in_progress waiting = false
is_in_progress in_progress = true
is_in_progress succeeded = false
is_in_progress failed = false

-- StartNextBatch's test: waiting or failed.
unfoldable pub may_start : PairState → Bool
may_start waiting = true
may_start in_progress = false
may_start succeeded = false
may_start failed = true

unfoldable pub is_failed : PairState → Bool
is_failed waiting = false
is_failed in_progress = false
is_failed succeeded = false
is_failed failed = true

-- CandidatePair; transaction ids are numbers of 96 bits. `id` is which pair it is: it stands for the
-- address of the object, and no two pairs that are made have the same.
pub record CandidatePair : Type 0 where
  pub id : ℕ
  pub local : Candidate
  pub remote : Candidate
  pub socket : Option ℕ
  pub state : PairState
  pub priority : ℕ
  pub last_sent : ℕ
  pub retry_count : ℕ
  pub last_activity : ℕ
  pub active_tid : Option ℕ

-- IsPrivateOrSharedIpv4, IsLinkLocalIpv4, AreLikelySameSubnet: a mask of the high bits is a quotient.
unfoldable pub is_private_or_shared_ipv4 : ℕ → Bool
is_private_or_shared_ipv4 addr =
    addr / 2 ^ 24 == 0x0A
    || addr / 2 ^ 20 == 0xAC1
    || addr / 2 ^ 16 == 0xC0A8
    || addr / 2 ^ 22 == 0x191

unfoldable pub is_link_local_ipv4 : ℕ → Bool
is_link_local_ipv4 addr = addr / 2 ^ 16 == 0xA9FE

unfoldable pub are_likely_same_subnet : ℕ → ℕ → Bool
are_likely_same_subnet a b = a / 2 ^ 8 == b / 2 ^ 8

-- What the agent meets: inet_pton followed by ntohl, inet_ntop of an address in network order, the
-- sockets that can be listened on, the success of each call of sendto, and the transaction ids drawn,
-- both by the number of the call.
pub record Surroundings : Type 0 where
  pub print_ipv4 : ℕ → Bytes
  pub listens : ℕ → Bool
  pub parse_ipv4 : Bytes → Option ℕ
  pub sends : ℕ → Bool
  pub tids : ℕ → ℕ

-- `major` of ComputePairPriority for two host candidates whose addresses are known.
unfoldable pub host_major : ℕ → ℕ → ℕ
host_major a b =
    if are_likely_same_subnet a b
    then 360
    else if is_private_or_shared_ipv4 a && is_private_or_shared_ipv4 b
    then 330
    else if is_link_local_ipv4 a || is_link_local_ipv4 b
    then 180
    else 280

unfoldable pub hosts_major : Option ℕ → Option ℕ → ℕ
hosts_major (some a) (some b) = host_major a b
hosts_major (some a) none = 280
hosts_major none b = 280

-- ComputePairPriority
unfoldable pub major_of : CandidateType → CandidateType → Option ℕ → Option ℕ → ℕ
major_of host host a b = hosts_major a b
major_of server_reflexive server_reflexive a b = 340
major_of host server_reflexive a b = 220
major_of server_reflexive host a b = 220

unfoldable pub same_subnet : Option ℕ → Option ℕ → Bool
same_subnet (some a) (some b) = are_likely_same_subnet a b
same_subnet (some a) none = false
same_subnet none b = false

unfoldable pub compute_pair_priority : Surroundings → Candidate → Candidate → ℕ
compute_pair_priority net local remote =
    let a = net.parse_ipv4 local.ip in
    let b = net.parse_ipv4 remote.ip in
    let minor =
      (if is_host local.kind then 20 else 10)
      + (if is_host remote.kind then 10 else 5)
      + (if same_subnet a b then 40 else 0) in
    major_of local.kind remote.kind a b * 2 ^ 32 + minor

-- The key of FormPairsInternal that tells pairs apart.
unfoldable pub pair_key : Candidate → Candidate → Bytes
pair_key local remote =
    local.ip ++ b':' ∷ (to_string local.port ++ b'|' ∷ (remote.ip ++ b':' ∷ to_string remote.port))

unfoldable pub new_pair : Surroundings → ℕ → Candidate → Candidate → CandidatePair
new_pair net now local remote = record {
  id = 0;
  local = local;
  remote = remote;
  socket = local.sock;
  state = waiting;
  priority = compute_pair_priority net local remote;
  last_sent = 0;
  retry_count = 0;
  last_activity = now;
  active_tid = none;
}

-- `seenPairs.count(key) > 0`
unfoldable pub is_seen : Bytes → List Bytes → Bool
is_seen key [] = false
is_seen key (x ∷ xs) = bytes_eq x key || is_seen key xs

-- The pairs of a local candidate; `seen` is the keys so far.
unfoldable pub pairs_of :
    Surroundings → ℕ → Candidate → List Candidate → List Bytes → List CandidatePair × List Bytes
pairs_of net now local [] seen = ([], seen)
pairs_of net now local (remote ∷ remotes) seen =
    let key = pair_key local remote in
    let old = pairs_of net now local remotes seen in
    let (rest, after) = pairs_of net now local remotes (key ∷ seen) in
    if is_seen key seen then old else (new_pair net now local remote ∷ rest, after)

unfoldable pub all_pairs :
    Surroundings → ℕ → List Candidate → List Candidate → List Bytes → List CandidatePair
all_pairs net now [] remotes seen = []
all_pairs net now (local ∷ locals) remotes seen =
    let (pairs, after) = pairs_of net now local remotes seen in
    pairs ++ all_pairs net now locals remotes after

-- make_shared: the pairs of the loops are new objects, numbered from `next` on.
unfoldable pub number_pairs : ℕ → List CandidatePair → List CandidatePair
number_pairs next [] = []
number_pairs next (p ∷ ps) = record p { id = next } ∷ number_pairs (next + 1) ps

-- `sort` by falling priority; of the orders it may give to equal priorities this is the stable one.
unfoldable pub insert_pair : CandidatePair → List CandidatePair → List CandidatePair
insert_pair p [] = p ∷ []
insert_pair p (q ∷ qs) =
    let rest = insert_pair p qs in if ltb p.priority q.priority then q ∷ rest else p ∷ q ∷ qs

unfoldable pub sort_pairs : List CandidatePair → List CandidatePair
sort_pairs [] = []
sort_pairs (p ∷ ps) = insert_pair p (sort_pairs ps)

-- FormPairsInternal
unfoldable pub form_pairs :
    Surroundings → ℕ → ℕ → List Candidate → List Candidate → List CandidatePair
form_pairs net now next locals remotes =
    sort_pairs (number_pairs next (all_pairs net now locals remotes []))
