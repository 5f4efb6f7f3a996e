-- ===== src/Peers/Users.antt =====
-- The list of users in P2PChat.cpp: TrimSpaces, ParseUserListPayload and JoinUserList.
pub mod Lists
pub mod Serving
use neko_chat.Common.{
  ℕ, zero, suc, Bool, true, false, ◌&&◌, ◌||◌, none, some, List, [], ◌∷◌, ◌++◌, length, take, drop,
  leb, ◌==◌, if◌then◌else◌,
}
use neko_chat.Common.Text.{Bytes, codes, bytes_eq, bytes_lt, find_byte, is_empty}

-- std::isspace in the C locale
unfoldable pub is_space : ℕ → Bool
is_space c = c == b' ' || leb 9 c && leb c 13

unfoldable pub trim_front : Bytes → Bytes
trim_front [] = []
trim_front (c ∷ s) = if is_space c then trim_front s else c ∷ s

unfoldable pub trim_back : Bytes → Bytes
trim_back [] = []
trim_back (c ∷ s) = let rest = trim_back s in if is_empty rest && is_space c then [] else c ∷ rest

-- TrimSpaces
unfoldable pub trim_spaces : Bytes → Bytes
trim_spaces value = trim_back (trim_front value)

-- `dedupe`, which has the users that are in the list
unfoldable pub has_user : Bytes → List Bytes → Bool
has_user token [] = false
has_user token (u ∷ users) = bytes_eq u token || has_user token users

unfoldable pub add_user : Bytes → List Bytes → List Bytes
add_user token users = if is_empty token || has_user token users then users else users ++ token ∷ []

-- The loop over the payload from the cursor on, `fuel` tokens at most.
unfoldable pub users_of : ℕ → Bytes → List Bytes → List Bytes
users_of zero payload users = users
users_of (suc fuel) payload users = elim (find_byte b',' payload) [
  | none ↦ add_user (trim_spaces payload) users
  | some comma ↦
      users_of fuel (drop (suc comma) payload) (add_user (trim_spaces (take comma payload)) users)
]

-- `std::sort` of strings that are all different
unfoldable pub insert_user : Bytes → List Bytes → List Bytes
insert_user u [] = u ∷ []
insert_user u (v ∷ vs) =
    let rest = insert_user u vs in if bytes_lt v u then v ∷ rest else u ∷ v ∷ vs

unfoldable pub sort_users : List Bytes → List Bytes
sort_users [] = []
sort_users (u ∷ us) = insert_user u (sort_users us)

-- ParseUserListPayload
unfoldable pub parse_user_list_payload : Bytes → List Bytes
parse_user_list_payload payload = sort_users (users_of (suc (length payload)) payload [])

-- The loop of JoinUserList after the first user.
unfoldable pub join_rest : List Bytes → Bytes
join_rest [] = []
join_rest (u ∷ us) = codes ", " ++ (u ++ join_rest us)

-- JoinUserList
unfoldable pub join_user_list : List Bytes → Bytes
join_user_list [] = codes "(none)"
join_user_list (u ∷ us) = u ++ join_rest us
