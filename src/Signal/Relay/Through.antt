-- ===== src/Signal/Relay/Through.antt =====
-- A command on its way through processCommand to ProcessLine.
use neko_chat.Common.{
  ℕ, ◌≡◌, refl, sym, ap, ◌∙◌, Bool, true, false, ◌||◌, some, List, [], ◌∷◌, ◌++◌, ◌==◌,
  if◌then◌else◌, arith, append_assoc, append-nil, subst,
}
use neko_chat.Common.Text.{
  Bytes, codes, find_byte, has_byte, has_byte-append, is_empty, starts_with, bytes_eq,
}
use neko_chat.Common.Assoc.{bytes_key, lookup}
use neko_chat.Signal.Lines.{take_lines, take_lines-split_lines, split_lines-line}
use neko_chat.Signal.Server.{
  Server, relay_word, say_to, say, process_command, process_line, process_lines, client_receive,
}
use neko_chat.Signal.Server.Delivery.{AlwaysAccepts, Delivered, send_line-Delivered}
use neko_chat.Signal.Server.Segments.{client_receive-active}
use neko_chat.Signal.Client
use neko_chat.Signal.Client.{
  Command, candidate, offer, answer, offer_declined, list, relay_message, Notice, notify,
  command_line, c_string, receive, process_words,
}
use neko_chat.Signal.Relay.{
  target_of, text_of, relayed_line, notice_of, is_directed, IsPlain, IsWord,
}
use neko_chat.Signal.Relay.Parsing.{
  relay_text_lem, notify_text_lem, without_return-plain, c_string-plain,
}

-- The line of a command without its end.
abbrev request : Command → Bytes
request (candidate target text) = codes "CANDIDATE " ++ (target ++ b' ' ∷ text)
request (offer target) = codes "OFFER " ++ target
request (answer target) = codes "ANSWER " ++ target
request (offer_declined target) = codes "OFFER_DECLINED " ++ target
request list = codes "LIST"
request (relay_message target text) = codes "CHAT " ++ (target ++ b' ' ∷ text)

command_line-request : (m : Command) → command_line m ≡ request m ++ b'\n' ∷ []
unfolding command_line
command_line-request (candidate target text) =
    ap (λ (y : Bytes). codes "CANDIDATE " ++ y)
      (sym (append_assoc target (b' ' ∷ text) (b'\n' ∷ [])))
command_line-request (offer target) = refl
command_line-request (answer target) = refl
command_line-request (offer_declined target) = refl
command_line-request list = refl
command_line-request (relay_message target text) =
    ap (λ (y : Bytes). codes "CHAT " ++ y) (sym (append_assoc target (b' ' ∷ text) (b'\n' ∷ [])))

relayed-end :
    (word from text : Bytes)
    → word ++ (from ++ b' ' ∷ (text ++ b'\n' ∷ [])) ≡ (word ++ (from ++ b' ' ∷ text)) ++ b'\n' ∷ []
relayed-end word from text =
    ap (λ (y : Bytes). word ++ y) (sym (append_assoc from (b' ' ∷ text) (b'\n' ∷ [])))
    ∙ sym (append_assoc word (from ++ b' ' ∷ text) (b'\n' ∷ []))

-- What the server does on a request of a registered client.
process_command-request :
    (c : ℕ) (m : Command) (s : Server)
    → is_directed m ≡ true
    → has_byte b' ' (target_of m) ≡ false
    → (s.contexts c).is_registered ≡ true
    → process_command c (request m) s
      ≡ say_to (target_of m) (relayed_line (s.contexts c).client_id m ++ b'\n' ∷ []) s
unfolding process_command starts_with bytes_eq target_of relayed_line relay_word is_directed
process_command-request c (candidate target text) s d h r = rw r (
    relay_text_lem c 10 (codes "CANDIDATE ") target text (codes "CANDIDATE ") _ s refl h
    ∙ ap (λ (y : Bytes). say_to target y s)
        (relayed-end (codes "CANDIDATE ") (s.contexts c).client_id text))
process_command-request c (offer target) s d h r = rw r refl
process_command-request c (answer target) s d h r = rw r refl
process_command-request c (offer_declined target) s d h r = rw r refl
process_command-request c list s d h r = absurd (cc)
process_command-request c (relay_message target text) s d h r = rw r (
    relay_text_lem c 5 (codes "CHAT ") target text (codes "SERVER_MSG ") _ s refl h
    ∙ ap (λ (y : Bytes). say_to target y s)
        (relayed-end (codes "SERVER_MSG ") (s.contexts c).client_id text))

has_byte_two :
    (b : ℕ) (t x : Bytes)
    → b == b' ' ≡ false
    → has_byte b t ≡ false
    → has_byte b x ≡ false
    → has_byte b (t ++ b' ' ∷ x) ≡ false
unfolding has_byte
has_byte_two b t x n ht hx = ground (arith, has_byte-append b t (b' ' ∷ x))

-- A request is one line and has no return.
request-plain :
    (m : Command)
    → IsPlain (target_of m)
    → IsPlain (text_of m)
    → (has_byte b'\n' (request m) ≡ false) × (has_byte b'\r' (request m) ≡ false)
unfolding has_byte target_of text_of
request-plain (candidate target text) t x = (
  has_byte_two b'\n' target text refl t.no_end x.no_end,
  has_byte_two b'\r' target text refl t.no_return x.no_return,
)
request-plain (offer target) t x = (t.no_end, t.no_return)
request-plain (answer target) t x = (t.no_end, t.no_return)
request-plain (offer_declined target) t x = (t.no_end, t.no_return)
request-plain list t x = (refl, refl)
request-plain (relay_message target text) t x = (
  has_byte_two b'\n' target text refl t.no_end x.no_end,
  has_byte_two b'\r' target text refl t.no_return x.no_return,
)

relayed-plain :
    (from : Bytes) (m : Command)
    → IsPlain from
    → IsPlain (text_of m)
    → (has_byte b'\n' (relayed_line from m) ≡ false) × (has_byte 0 (relayed_line from m) ≡ false)
unfolding has_byte relayed_line text_of
relayed-plain from (candidate target text) t x = (
  has_byte_two b'\n' from text refl t.no_end x.no_end,
  has_byte_two 0 from text refl t.no_zero x.no_zero,
)
relayed-plain from (offer target) t x = (t.no_end, t.no_zero)
relayed-plain from (answer target) t x = (t.no_end, t.no_zero)
relayed-plain from (offer_declined target) t x = (t.no_end, t.no_zero)
relayed-plain from list t x = (refl, refl)
relayed-plain from (relay_message target text) t x = (
  has_byte_two b'\n' from text refl t.no_end x.no_end,
  has_byte_two 0 from text refl t.no_zero x.no_zero,
)

request-not_empty : (m : Command) → is_empty (request m) ≡ false
unfolding is_empty
request-not_empty (candidate target text) = refl
request-not_empty (offer target) = refl
request-not_empty (answer target) = refl
request-not_empty (offer_declined target) = refl
request-not_empty list = refl
request-not_empty (relay_message target text) = refl

-- One line through ClientLoop.
receive-line :
    (c : ℕ) (line : Bytes) (s : Server)
    → s.running ≡ true
    → (s.contexts c).active ≡ true
    → has_byte b'\n' line ≡ false
    → has_byte b'\r' line ≡ false
    → is_empty line ≡ false
    → client_receive c (line ++ b'\n' ∷ []) ([], s) ≡ ([], process_command c line s)
unfolding process_lines process_line
receive-line c line s running active no_end no_return not_empty =
    client_receive-active c (line ++ b'\n' ∷ []) [] s running active
    ∙ rw (split_lines-line line no_end) (
        ap (λ (cmd : Bytes). ([], if is_empty cmd then s else process_command c cmd s))
          (without_return-plain line no_return)
        ∙ rw not_empty refl)

-- The client's end: one relayed line is one call of the callback.
process-relayed :
    (from : Bytes) (m : Command)
    → is_directed m ≡ true
    → has_byte b' ' from ≡ false
    → Client.process_line (relayed_line from m) ≡ notice_of from m ∷ []
unfolding Client.process_line process_words find_byte bytes_eq relayed_line notice_of is_directed
process-relayed from (candidate target text) d h =
    notify_text_lem (codes "candidate") (codes "CANDIDATE ") from text 9 refl h
process-relayed from (offer target) d h = refl
process-relayed from (answer target) d h = refl
process-relayed from (offer_declined target) d h = refl
process-relayed from list d h = absurd (cc)
process-relayed from (relay_message target text) d h =
    notify_text_lem (codes "server_chat") (codes "SERVER_MSG ") from text 10 refl h

-- A line that arrives is told to the callback.
receive-relayed :
    (line : Bytes)
    → has_byte b'\n' line ≡ false
    → has_byte 0 line ≡ false
    → receive [] (line ++ b'\n' ∷ []) ≡ (Client.process_line line, [])
unfolding receive Client.process_lines has_byte
receive-relayed line no_end no_zero =
    let told : List Bytes × Bytes → List Notice × Bytes = λ r. (Client.process_lines r.0, r.1) in
    ap (λ (b : Bytes). told (take_lines b))
      (c_string-plain (line ++ b'\n' ∷ [])
        (has_byte-append 0 line (b'\n' ∷ []) ∙ ap (λ (b : Bool). b || false) no_zero))
    ∙ ap told (take_lines-split_lines (line ++ b'\n' ∷ []) ∙ split_lines-line line no_end)
    ∙ ap (λ (n : List Notice). (n, [])) (append-nil (Client.process_line line))

say_to-found :
    (id msg : Bytes) (d : ℕ) (s : Server)
    → lookup id s.id_to_client ≡ some d
    → say_to id msg s ≡ say d msg s
unfolding say_to
say_to-found id msg d s e = rw (e, say_to) refl

line-not_empty : (line : Bytes) → is_empty (line ++ b'\n' ∷ []) ≡ false
unfolding is_empty
line-not_empty [] = refl
line-not_empty (x ∷ line) = refl

-- Every command to a peer goes through: with the server running, sender and target active, the
-- sender registered, the target's id in the table and sockets that take at least one byte a call,
-- the target gets exactly one line and nobody else gets anything, and the target's client tells its
-- callback the sender's id, the right kind and the text, for ids without spaces and ids and texts
-- without line ends, returns and zero bytes.
pub command-goes_through :
    (c d : ℕ) (m : Command) (s : Server)
    → is_directed m ≡ true
    → s.running ≡ true
    → (s.contexts c).active ≡ true
    → (s.contexts c).is_registered ≡ true
    → (s.contexts d).active ≡ true
    → lookup (target_of m) s.id_to_client ≡ some d
    → AlwaysAccepts s
    → IsWord (s.contexts c).client_id
    → IsWord (target_of m)
    → IsPlain (text_of m)
    → let line = relayed_line (s.contexts c).client_id m ++ b'\n' ∷ [] in
      Delivered d line s (client_receive c (command_line m) ([], s)).1
      × (receive [] line ≡ (notice_of (s.contexts c).client_id m ∷ [], []))
command-goes_through c d m s directed running active registered target_active found accepts from
      target text =
    let sender = (s.contexts c).client_id in
    let plain = request-plain m target.plain text in
    let relayed = relayed-plain sender m from.plain text in
    let msg = relayed_line sender m ++ b'\n' ∷ [] in
    let processed =
      ap (λ (y : Bytes). client_receive c y ([], s)) (command_line-request m)
      ∙ receive-line c (request m) s running active plain.0 plain.1 (request-not_empty m)
      ∙ ap (λ (t : Server). ([], t))
          (process_command-request c m s directed target.no_space registered
            ∙ say_to-found (target_of m) msg d s found) in
    (
      subst (λ (t : Bytes × Server). Delivered d msg s t.1) (sym processed)
          ((send_line-Delivered d msg s accepts (line-not_empty (relayed_line sender m))).0
            target_active).0,
      receive-relayed (relayed_line sender m) relayed.0 relayed.1
          ∙ ap (λ (n : List Notice). (n, [])) (process-relayed sender m directed from.no_space),
    )
