-- ===== src/Peers/Users/Lists.antt =====
-- ParseUserListPayload on lists of names that stand between commas.
use neko_chat.Common.{
  ℕ, zero, suc, ◌≤◌, false, none, List, [], ◌∷◌, ◌++◌, ap, ◌∙◌, ap₂, sym, map, length,
  length-append, take-append_left, drop, All, append-nil, append_assoc, ◌≡◌, refl, arith,
}
use neko_chat.Common.Text.{
  Bytes, bytes_lt, find_byte, find_byte-none, find_byte-append, has_byte, is_empty,
}
use neko_chat.Peers.Users.{
  trim_front, trim_spaces, has_user, add_user, users_of, insert_user, sort_users,
  parse_user_list_payload, join_rest, join_user_list, is_space,
}

-- A name can stand in a list: it is not empty, has no comma and no space at its ends.
pub record IsName (u : Bytes) : Type 0 where
  pub filled : is_empty u ≡ false
  pub plain : has_byte b',' u ≡ false
  pub trimmed : trim_spaces u ≡ u

-- Each of the users is not among those before it, which are `before` and the users themselves.
abbrev pub AreNew : List Bytes → List Bytes → Type 0
AreNew before [] = Unit
AreNew before (u ∷ us) = (has_user u before ≡ false) × AreNew (before ++ u ∷ []) us

abbrev pub IsSorted : List Bytes → Type 0
IsSorted [] = Unit
IsSorted (u ∷ []) = Unit
IsSorted (u ∷ v ∷ us) = (bytes_lt v u ≡ false) × IsSorted (v ∷ us)

-- What std::map's keys and the result of the parser are: different names in rising order.
pub record IsUserList (users : List Bytes) : Type 0 where
  pub names : All IsName users
  pub new : AreNew [] users
  pub sorted : IsSorted users

sort_users-sorted : (us : List Bytes) → IsSorted us → sort_users us ≡ us
unfolding sort_users insert_user
sort_users-sorted [] h = refl
sort_users-sorted (u ∷ []) h = refl
sort_users-sorted (u ∷ v ∷ us) h = rw (sort_users-sorted (v ∷ us) h.1, h.0) refl

-- Pieces of a payload behind its first.
unfoldable pub pieces : List Bytes → Bytes
pieces [] = []
pieces (w ∷ ws) = b',' ∷ w ++ pieces ws

add_all : List Bytes → List Bytes → List Bytes
add_all [] users = users
add_all (w ∷ ws) users = add_all ws (add_user (trim_spaces w) users)

drop-after : (c : ℕ) (w xs : Bytes) → drop (suc (length w)) (w ++ c ∷ xs) ≡ xs
drop-after c [] xs = refl
drop-after c (b ∷ w) xs = drop-after c w xs

users_of-last :
    (fuel : ℕ) (w : Bytes) (users : List Bytes)
    → find_byte b',' w ≡ none
    → users_of (suc fuel) w users ≡ add_user (trim_spaces w) users
unfolding users_of
users_of-last fuel w users e = rw (e, users_of) refl

users_of-comma :
    (fuel : ℕ) (w rest : Bytes) (users : List Bytes)
    → has_byte b',' w ≡ false
    → users_of (suc fuel) (w ++ b',' ∷ rest) users
      ≡ users_of fuel rest (add_user (trim_spaces w) users)
unfolding users_of
users_of-comma fuel w rest users h =
    rw (find_byte-append b',' w rest h, users_of)
      (ap₂ (λ r t. users_of fuel r (add_user (trim_spaces t) users)) (drop-after b',' w rest)
        (take-append_left w (b',' ∷ rest)))

users_of-pieces :
    (fuel : ℕ) (w : Bytes) (ws : List Bytes) (users : List Bytes)
    → length ws ≤ fuel
    → has_byte b',' w ≡ false
    → All (λ v. has_byte b',' v ≡ false) ws
    → users_of (suc fuel) (w ++ pieces ws) users ≡ add_all (w ∷ ws) users
unfolding pieces add_all
users_of-pieces fuel w [] users l h hs =
    rw (append-nil w) (users_of-last fuel w users (find_byte-none b',' w h))
users_of-pieces zero w (v ∷ ws) users l h hs = absurd (omega arith)
users_of-pieces (suc fuel) w (v ∷ ws) users l h hs =
    users_of-comma (suc fuel) w (v ++ pieces ws) users h
    ∙ users_of-pieces fuel v ws (add_user (trim_spaces w) users) (omega arith) hs.0 hs.1

length-pieces : (ws : List Bytes) → length ws ≤ length (pieces ws)
unfolding pieces
length-pieces [] = omega arith
length-pieces (w ∷ ws) = omega (arith, length-append w (pieces ws), length-pieces ws)

-- Words that are trimmed to names are added in their order.
unfoldable pub AreTrimmedTo : List Bytes → List Bytes → Type 0
AreTrimmedTo [] us = us ≡ []
AreTrimmedTo (w ∷ ws) [] = ⊥
AreTrimmedTo (w ∷ ws) (u ∷ us) =
    (trim_spaces w ≡ u) × (has_byte b',' w ≡ false) × AreTrimmedTo ws us

add_user-new :
    (u : Bytes) (users : List Bytes)
    → is_empty u ≡ false
    → has_user u users ≡ false
    → add_user u users ≡ users ++ u ∷ []
unfolding add_user
add_user-new u users e n = rw (e, n) refl

add_all-trimmed :
    (ws us users : List Bytes)
    → AreTrimmedTo ws us
    → All IsName us
    → AreNew users us
    → add_all ws users ≡ users ++ us
unfolding add_all AreTrimmedTo
add_all-trimmed [] us users t names new = rw t (sym (append-nil users))
add_all-trimmed (w ∷ ws) [] users t names new = absurd t
add_all-trimmed (w ∷ ws) (u ∷ us) users t names new =
    ap (λ v. add_all ws (add_user v users)) t.0
    ∙ ap (add_all ws) (add_user-new u users names.0.filled new.0)
    ∙ add_all-trimmed ws us (users ++ u ∷ []) t.2 names.1 new.1
    ∙ append_assoc users (u ∷ []) us

AreTrimmedTo-plain :
    (ws us : List Bytes) → AreTrimmedTo ws us → All (λ v. has_byte b',' v ≡ false) ws
unfolding AreTrimmedTo
AreTrimmedTo-plain [] us t = tt
AreTrimmedTo-plain (w ∷ ws) [] t = absurd t
AreTrimmedTo-plain (w ∷ ws) (u ∷ us) t = (t.1, AreTrimmedTo-plain ws us t.2)

pub parse-pieces :
    (w : Bytes) (ws us : List Bytes)
    → AreTrimmedTo (w ∷ ws) us
    → IsUserList us
    → parse_user_list_payload (w ++ pieces ws) ≡ us
unfolding parse_user_list_payload
parse-pieces w ws us t h =
    let plain = AreTrimmedTo-plain (w ∷ ws) us t in
    ap sort_users (
      users_of-pieces (length (w ++ pieces ws)) w ws []
        (omega (arith, length-append w (pieces ws), length-pieces ws)) plain.0 plain.1
      ∙ add_all-trimmed (w ∷ ws) us [] t h.names h.new)
    ∙ sort_users-sorted us h.sorted

join_rest-AreTrimmedTo :
    (us : List Bytes) → All IsName us → AreTrimmedTo (map (λ u. b' ' ∷ u) us) us
unfolding AreTrimmedTo trim_spaces trim_front is_space has_byte
join_rest-AreTrimmedTo [] h = refl
join_rest-AreTrimmedTo (u ∷ us) h = (h.0.trimmed, h.0.plain, join_rest-AreTrimmedTo us h.1)

join_rest-pieces : (us : List Bytes) → join_rest us ≡ pieces (map (λ u. b' ' ∷ u) us)
unfolding join_rest pieces
join_rest-pieces [] = refl
join_rest-pieces (u ∷ us) = ap (λ r. b',' ∷ b' ' ∷ u ++ r) (join_rest-pieces us)

-- What JoinUserList makes of a sorted list of different users, who have no comma and no space at the
-- ends of their names, ParseUserListPayload reads back.
pub parse-join_user_list :
    (u : Bytes) (us : List Bytes)
    → IsUserList (u ∷ us)
    → parse_user_list_payload (join_user_list (u ∷ us)) ≡ u ∷ us
unfolding join_user_list AreTrimmedTo
parse-join_user_list u us h =
    ap (λ r. parse_user_list_payload (u ++ r)) (join_rest-pieces us)
    ∙ parse-pieces u (map (λ v. b' ' ∷ v) us) (u ∷ us)
        (h.names.0.trimmed, h.names.0.plain, join_rest-AreTrimmedTo us h.names.1) h
