-- ===== src/Signal/Server.antt =====
-- SignallingServer: its clients, the table of registered ids and the commands. Each step of a client
-- thread that takes the server's lock is one step here. A client is known by a number, which stands
-- for the pointer to its ClientContext.
pub mod Consistency
pub mod Delivery
pub mod Segments
pub mod Claims
use neko_chat.Common.{
  ℕ, zero, suc, ◌+◌, ◌-◌, Bool, true, false, ◌&&◌, ◌||◌, not, Option, none, some, List, [], ◌∷◌,
  ◌++◌, take, drop, length, min, ◌==◌, if◌then◌else◌,
}
use neko_chat.Common.Text.{
  Bytes, codes, starts_with, find_from, substr, is_empty, has_byte, bytes_eq,
}
use neko_chat.Common.Assoc.{Map, bytes_key, lookup, insert, erase}
use neko_chat.Signal.Lines.{take_lines}

-- ClientContext; `received` is what the sockets have delivered to the client so far. The receive
-- buffer is its thread's alone and is an argument of `client_receive`.
pub record Client : Type 0 where
  pub client_id : Bytes
  pub is_registered : Bool
  pub active : Bool
  pub connected : Bool
  pub received : Bytes

-- SignallingServer: m_running, the contexts by number, m_clients, m_idToClient. Call number `n` of
-- send accepts `accepts n` bytes at most, where 0 stands for an error too; `sends` counts the calls.
pub record Server : Type 0 where
  pub running : Bool
  pub contexts : ℕ → Client
  pub clients : List ℕ
  pub id_to_client : Map Bytes ℕ
  pub accepts : ℕ → ℕ
  pub sends : ℕ

unfoldable pub update : ℕ → (Client → Client) → (ℕ → Client) → ℕ → Client
update c f contexts d = if c == d then f (contexts d) else contexts d

-- Whether the table leads from an id to a client.
unfoldable pub leads_to : Bytes → ℕ → Map Bytes ℕ → Bool
leads_to id c table = elim (lookup id table) [ none ↦ false | some d ↦ d == c ]

-- The entry of an id goes if it is the client's.
unfoldable pub forget : Bytes → ℕ → Map Bytes ℕ → Map Bytes ℕ
unfolding leads_to
forget id c table = if leads_to id c table then erase id table else table

unfoldable pub remove_first : ℕ → List ℕ → List ℕ
remove_first c [] = []
remove_first c (d ∷ ds) = let rest = remove_first c ds in if d == c then rest else d ∷ rest

-- removeClient
unfoldable pub remove_client : ℕ → Server → Server
remove_client c s =
    let id = (s.contexts c).client_id in
    record s {
      contexts = update c (λ x. record x { active = false; connected = false }) s.contexts;
      id_to_client = if is_empty id then s.id_to_client else forget id c s.id_to_client;
      clients = remove_first c s.clients;
    }

-- A failed send: `active.exchange(false)`, and the client goes if it was active.
unfoldable pub send_failed : ℕ → Server → Server
send_failed c s =
    let stopped = record s { contexts = update c (λ x. record x { active = false }) s.contexts } in
    if (s.contexts c).active then remove_client c stopped else stopped

-- The loop of sendLine over what is left to send, `fuel` calls of send at most.
unfoldable pub send_loop : ℕ → ℕ → Bytes → Server → Server × Bool
send_loop zero c rest s = (s, is_empty rest)
send_loop (suc fuel) c rest s =
    let sent = min (s.accepts s.sends) (length rest) in
    let called = record s { sends = s.sends + 1 } in
    let taken = record called {
      contexts = update c (λ x. record x { received = x.received ++ take sent rest }) s.contexts;
    } in
    let later = send_loop fuel c (drop sent rest) taken in
    if is_empty rest then (s, true) else if sent == 0 then (send_failed c called, false) else later

-- sendLine
unfoldable pub send_line : ℕ → Bytes → Server → Server × Bool
send_line c msg s =
    if is_empty msg || not (s.contexts c).active then (s, false) else send_loop (length msg) c msg s

abbrev pub say : ℕ → Bytes → Server → Server
say c msg s = (send_line c msg s).0

-- findClientById, and a line to the client if there is one.
unfoldable pub say_to : Bytes → Bytes → Server → Server
say_to target_id msg s = elim (lookup target_id s.id_to_client) [
  | none ↦ s
  | some target ↦ say target msg s
]

-- The table and the client change of a registration.
unfoldable pub register : ℕ → Bytes → Server → Server
register c id s =
    let old = s.contexts c in
    let table =
      if old.is_registered && not (bytes_eq old.client_id id)
      then forget old.client_id c s.id_to_client
      else s.id_to_client in
    record s {
      contexts = update c (λ x. record x { client_id = id; is_registered = true }) s.contexts;
      id_to_client = insert id c table;
    }

unfoldable pub is_taken : Bytes → ℕ → Map Bytes ℕ → Bool
is_taken id c table = elim (lookup id table) [ none ↦ false | some d ↦ not (d == c) ]

-- REGISTER
unfoldable pub handle_register : ℕ → Bytes → Server → Server
handle_register c id s =
    if is_empty id || has_byte b' ' id
    then say c (codes "ERROR Invalid ID\n") s
    else if is_taken id c s.id_to_client
    then say c (codes "ERROR ID taken\n") s
    else say c (codes "REGISTERED\n") (register c id s)

-- CANDIDATE and CHAT: `start` is the length of the command's word with its space, `word` the word
-- of the line for the target, `malformed` the answer where no target can be read.
unfoldable pub relay_text : ℕ → ℕ → Bytes → Bytes → Bytes → Server → Server
relay_text c start word malformed cmd s = elim (find_from b' ' cmd start) [
  | none ↦ say c malformed s
  | some space ↦
      let target_id = substr cmd start (space - start) in
      let text = drop (suc space) cmd in
      say_to target_id (word ++ ((s.contexts c).client_id ++ b' ' ∷ (text ++ b'\n' ∷ []))) s
]

-- OFFER, ANSWER and OFFER_DECLINED
unfoldable pub relay_word : ℕ → Bytes → Bytes → Server → Server
relay_word c word cmd s =
    say_to (drop (length word) cmd) (word ++ ((s.contexts c).client_id ++ b'\n' ∷ [])) s

-- The ids of the others, with commas between; `first` as in the loop.
unfoldable pub list_ids : ℕ → Bool → Map Bytes ℕ → Bytes
list_ids c first [] = []
list_ids c first ((id, d) ∷ table) =
    let others = list_ids c false table in
    if d == c then list_ids c first table else (if first then [] else codes ",") ++ (id ++ others)

-- processCommand
unfoldable pub process_command : ℕ → Bytes → Server → Server
process_command c cmd s =
    if starts_with (codes "REGISTER ") cmd
    then handle_register c (drop 9 cmd) s
    else if not (s.contexts c).is_registered
    then say c (codes "ERROR Register first\n") s
    else if starts_with (codes "CANDIDATE ") cmd
    then relay_text c 10 (codes "CANDIDATE ") (codes "ERROR Malformed CANDIDATE\n") cmd s
    else if starts_with (codes "OFFER ") cmd
    then relay_word c (codes "OFFER ") cmd s
    else if starts_with (codes "ANSWER ") cmd
    then relay_word c (codes "ANSWER ") cmd s
    else if starts_with (codes "OFFER_DECLINED ") cmd
    then relay_word c (codes "OFFER_DECLINED ") cmd s
    else if bytes_eq cmd (codes "LIST")
    then say c (codes "LIST " ++ (list_ids c true s.id_to_client ++ b'\n' ∷ [])) s
    else if starts_with (codes "CHAT ") cmd
    then relay_text c 5 (codes "SERVER_MSG ") (codes "ERROR Malformed CHAT\n") cmd s
    else say c (codes "ERROR Unknown command\n") s

-- A carriage return at the end of a line goes.
unfoldable pub without_return : Bytes → Bytes
without_return [] = []
without_return (x ∷ []) = if x == b'\r' then [] else x ∷ []
without_return (x ∷ y ∷ xs) = x ∷ without_return (y ∷ xs)

unfoldable pub process_line : ℕ → Bytes → Server → Server
process_line c line s =
    let cmd = without_return line in if is_empty cmd then s else process_command c cmd s

unfoldable pub process_lines : ℕ → List Bytes → Server → Server
process_lines c [] s = s
process_lines c (line ∷ lines) s = process_lines c lines (process_line c line s)

-- One round of ClientLoop: `len` bytes have come, `buffer` is what the last round has left.
unfoldable pub client_receive : ℕ → Bytes → Bytes × Server → Bytes × Server
client_receive c bytes (buffer, s) =
    let (lines, rest) = take_lines (buffer ++ bytes) in
    if s.running && (s.contexts c).active then (rest, process_lines c lines s) else (buffer, s)

-- Run, one accepted connection: its number must be new.
unfoldable pub accept_client : ℕ → Server → Server
accept_client c s =
    if s.running
    then record s { contexts = update c (λ x. fresh) s.contexts; clients = s.clients ++ c ∷ [] }
    else s
  where
    fresh : Client
    fresh = record {
      client_id = [];
      is_registered = false;
      active = true;
      connected = true;
      received = [];
    }

-- Stop, for a running server
unfoldable pub stop : Server → Server
stop s =
    if s.running
    then record s {
      running = false;
      contexts = stop_all s.clients s.contexts;
      clients = [];
      id_to_client = [];
    }
    else s
  where
    stop_all : List ℕ → (ℕ → Client) → ℕ → Client
    stop_all [] contexts = contexts
    stop_all (c ∷ cs) contexts =
        stop_all cs (update c (λ x. record x { active = false; connected = false }) contexts)
