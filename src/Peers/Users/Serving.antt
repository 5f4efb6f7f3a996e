-- ===== src/Peers/Users/Serving.antt =====
-- The list of the signalling server at the client that asks for it: LIST of SignallingServer.hpp,
-- ProcessLine of SignallingClient.hpp, ParseUserListPayload of P2PChat.cpp.
use neko_chat.Common.{
  ℕ, true, false, List, [], ◌∷◌, ◌++◌, All, Bool-cases, ◌==◌, if◌then◌else◌, ◌≡◌, refl, ap, ◌∙◌,
  inl, inr,
}
use neko_chat.Common.Text.{Bytes, codes, find_byte, bytes_eq, is_empty, starts_with}
use neko_chat.Common.Assoc.{Map}
use neko_chat.Signal.Server.{Server, list_ids, say, process_command}
use neko_chat.Signal.Client.{notify, process_line, process_words}
use neko_chat.Peers.Users.{
  trim_spaces, parse_user_list_payload, sort_users, users_of, add_user, trim_front, has_user,
}
use neko_chat.Peers.Users.Lists.{IsName, IsUserList, pieces, AreTrimmedTo, parse-pieces}

-- The ids of the server's table but the client's own.
abbrev pub others : ℕ → Map Bytes ℕ → List Bytes
others c [] = []
others c ((id, d) ∷ table) = let rest = others c table in if d == c then rest else id ∷ rest

names-AreTrimmedTo : (us : List Bytes) → All IsName us → AreTrimmedTo us us
unfolding AreTrimmedTo
names-AreTrimmedTo [] h = refl
names-AreTrimmedTo (u ∷ us) h = (h.0.trimmed, h.0.plain, names-AreTrimmedTo us h.1)

-- The list as the loop continues it, and from its start.
listing : List Bytes → Bytes
listing [] = []
listing (u ∷ us) = u ++ pieces us

list_ids-pieces : (c : ℕ) (table : Map Bytes ℕ) → list_ids c false table ≡ pieces (others c table)
unfolding list_ids pieces
list_ids-pieces c [] = refl
list_ids-pieces c ((id, d) ∷ table) = elim (Bool-cases (d == c)) [
  | inl e ↦ rw e (list_ids-pieces c table)
  | inr e ↦ rw e (ap (λ r. b',' ∷ id ++ r) (list_ids-pieces c table))
]

list_ids-listing : (c : ℕ) (table : Map Bytes ℕ) → list_ids c true table ≡ listing (others c table)
unfolding list_ids listing
list_ids-listing c [] = refl
list_ids-listing c ((id, d) ∷ table) = elim (Bool-cases (d == c)) [
  | inl e ↦ rw e (list_ids-listing c table)
  | inr e ↦ rw e (ap (λ r. id ++ r) (list_ids-pieces c table))
]

parse-listing : (us : List Bytes) → IsUserList us → parse_user_list_payload (listing us) ≡ us
unfolding listing parse_user_list_payload sort_users users_of find_byte add_user is_empty
    trim_spaces neko_chat.Peers.Users.trim_back trim_front
parse-listing [] h = refl
parse-listing (u ∷ us) h = parse-pieces u us (u ∷ us) (names-AreTrimmedTo (u ∷ us) h.names) h

abbrev pub list_line : ℕ → Server → Bytes
list_line c s = codes "LIST " ++ list_ids c true s.id_to_client

process_command-list :
    (c : ℕ) (s : Server)
    → (s.contexts c).is_registered ≡ true
    → process_command c (codes "LIST") s ≡ say c (list_line c s ++ b'\n' ∷ []) s
unfolding process_command starts_with bytes_eq
process_command-list c s r = rw r refl

process_line-list :
    (ids : Bytes) → process_line (codes "LIST " ++ ids) ≡ notify (codes "server") (codes "list") ids
unfolding process_line process_words find_byte bytes_eq
process_line-list ids = refl

-- The list that a registered client asks the server for is one line to this client, which its
-- callback is told of, and ParseUserListPayload reads from it the ids of all other clients, if the
-- table is in order and the ids have no comma and no space at their ends.
pub list-reaches_client :
    (c : ℕ) (s : Server)
    → (s.contexts c).is_registered ≡ true
    → IsUserList (others c s.id_to_client)
    → (process_command c (codes "LIST") s ≡ say c (list_line c s ++ b'\n' ∷ []) s)
      × (process_line (list_line c s)
          ≡ notify (codes "server") (codes "list") (list_ids c true s.id_to_client))
      × (parse_user_list_payload (list_ids c true s.id_to_client) ≡ others c s.id_to_client)
list-reaches_client c s r h = (
  process_command-list c s r,
  process_line-list (list_ids c true s.id_to_client),
  ap parse_user_list_payload (list_ids-listing c s.id_to_client)
      ∙ parse-listing (others c s.id_to_client) h,
)
