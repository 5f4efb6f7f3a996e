-- ===== src/Signal/Relay.antt =====
-- From one client through the server to another.
pub mod Parsing
pub mod Through
use neko_chat.Common.{ℕ, ◌≡◌, Bool, true, false, [], ◌∷◌, ◌++◌}
use neko_chat.Common.Text.{Bytes, codes, has_byte}
use neko_chat.Signal.Client.{
  Command, candidate, offer, answer, offer_declined, list, relay_message, Notice, notify,
}

-- The peer that a command names; the list is the server's answer to its sender.
unfoldable pub target_of : Command → Bytes
target_of (candidate target text) = target
target_of (offer target) = target
target_of (answer target) = target
target_of (offer_declined target) = target
target_of list = []
target_of (relay_message target text) = target

unfoldable pub text_of : Command → Bytes
text_of (candidate target text) = text
text_of (offer target) = []
text_of (answer target) = []
text_of (offer_declined target) = []
text_of list = []
text_of (relay_message target text) = text

-- The line that the target gets from `from`, without its end.
unfoldable pub relayed_line : Bytes → Command → Bytes
relayed_line from (candidate target text) = codes "CANDIDATE " ++ (from ++ b' ' ∷ text)
relayed_line from (offer target) = codes "OFFER " ++ from
relayed_line from (answer target) = codes "ANSWER " ++ from
relayed_line from (offer_declined target) = codes "OFFER_DECLINED " ++ from
relayed_line from list = []
relayed_line from (relay_message target text) = codes "SERVER_MSG " ++ (from ++ b' ' ∷ text)

-- What the target's callback is told.
unfoldable pub notice_of : Bytes → Command → Notice
notice_of from (candidate target text) = record {
  from = from;
  kind = codes "candidate";
  text = text;
}
notice_of from (offer target) = record { from = from; kind = codes "offer"; text = [] }
notice_of from (answer target) = record { from = from; kind = codes "answer"; text = [] }
notice_of from (offer_declined target) = record {
  from = from;
  kind = codes "offer_declined";
  text = [];
}
notice_of from list = record { from = from; kind = []; text = [] }
notice_of from (relay_message target text) = record {
  from = from;
  kind = codes "server_chat";
  text = text;
}

-- A command to a peer, that is not the request for the list.
unfoldable pub is_directed : Command → Bool
is_directed list = false
is_directed _ = true

-- No byte of a text ends a line, stands for the return or ends a C string.
pub record IsPlain (text : Bytes) : Type 0 where
  pub no_end : has_byte b'\n' text ≡ false
  pub no_return : has_byte b'\r' text ≡ false
  pub no_zero : has_byte 0 text ≡ false

-- A plain text without spaces.
pub record IsWord (text : Bytes) : Type 0 where
  pub plain : IsPlain text
  pub no_space : has_byte b' ' text ≡ false
