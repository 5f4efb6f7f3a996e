-- ===== src/Signal/Client.antt =====
-- SignallingClient: the commands it writes and what it reads.
use neko_chat.Common.{
  ℕ, suc, ◌-◌, ◌||◌, Option, none, some, List, [], ◌∷◌, ◌++◌, take, drop, ◌==◌, if◌then◌else◌,
}
use neko_chat.Common.Text.{Bytes, codes, find_byte, find_from, substr, is_empty, has_byte, bytes_eq}
use neko_chat.Signal.Lines.{take_lines}

-- The commands, as SendCandidate, SendOffer, SendAnswer, SendOfferDeclined, RequestUserList and
-- SendRelayMessage write them.
pub data Command : Type 0 where
  candidate : Bytes → Bytes → Command
  offer : Bytes → Command
  answer : Bytes → Command
  offer_declined : Bytes → Command
  list : Command
  relay_message : Bytes → Bytes → Command

unfoldable pub command_line : Command → Bytes
command_line (candidate target text) = codes "CANDIDATE " ++ (target ++ b' ' ∷ (text ++ b'\n' ∷ []))
command_line (offer target) = codes "OFFER " ++ (target ++ b'\n' ∷ [])
command_line (answer target) = codes "ANSWER " ++ (target ++ b'\n' ∷ [])
command_line (offer_declined target) = codes "OFFER_DECLINED " ++ (target ++ b'\n' ∷ [])
command_line list = codes "LIST\n"
command_line (relay_message target text) = codes "CHAT " ++ (target ++ b' ' ∷ (text ++ b'\n' ∷ []))

-- Register: the command, none for an id that cannot be.
unfoldable pub register_line : Bytes → Option Bytes
register_line client_id =
    if is_empty client_id || has_byte b' ' client_id
    then none
    else some (codes "REGISTER " ++ (client_id ++ b'\n' ∷ []))

-- A call of the callback.
pub record Notice : Type 0 where
  pub from : Bytes
  pub kind : Bytes
  pub text : Bytes

abbrev pub notify : Bytes → Bytes → Bytes → List Notice
notify from kind text = record { from = from; kind = kind; text = text } ∷ []

-- CANDIDATE and SERVER_MSG: a sender's id and a text behind it.
unfoldable pub notify_text : Bytes → Bytes → ℕ → List Notice
notify_text kind line space1 = elim (find_from b' ' line (suc space1)) [
  | none ↦ []
  | some space2 ↦
      notify (substr line (suc space1) (space2 - space1 - 1)) kind (drop (suc space2) line)
]

-- The branches of ProcessLine for a line with a space, by the word before it.
unfoldable pub process_words : Bytes → ℕ → List Notice
process_words line space1 =
    let cmd = take space1 line in
    let rest = drop (suc space1) line in
    if bytes_eq cmd (codes "CANDIDATE")
    then notify_text (codes "candidate") line space1
    else if bytes_eq cmd (codes "OFFER")
    then notify rest (codes "offer") []
    else if bytes_eq cmd (codes "ANSWER")
    then notify rest (codes "answer") []
    else if bytes_eq cmd (codes "OFFER_DECLINED")
    then notify rest (codes "offer_declined") []
    else if bytes_eq cmd (codes "LIST")
    then notify (codes "server") (codes "list") rest
    else if bytes_eq cmd (codes "SERVER_MSG")
    then notify_text (codes "server_chat") line space1
    else []

-- ProcessLine; the empty line and the lines it only prints give nothing.
unfoldable pub process_line : Bytes → List Notice
process_line line = elim (find_byte b' ' line) [
  | none ↦ if bytes_eq line (codes "LIST") then notify (codes "server") (codes "list") [] else []
  | some space1 ↦ process_words line space1
]

unfoldable pub process_lines : List Bytes → List Notice
process_lines [] = []
process_lines (line ∷ lines) = process_line line ++ process_lines lines

-- `leftover += buffer` appends a C string: what stands before the first zero byte.
unfoldable pub c_string : Bytes → Bytes
c_string [] = []
c_string (b ∷ s) = if b == 0 then [] else b ∷ c_string s

-- One round of ReceiveLoop.
unfoldable pub receive : Bytes → Bytes → List Notice × Bytes
receive leftover bytes =
    let (lines, rest) = take_lines (leftover ++ c_string bytes) in (process_lines lines, rest)
