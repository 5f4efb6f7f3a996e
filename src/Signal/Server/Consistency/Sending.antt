-- ===== src/Signal/Server/Consistency/Sending.antt =====
-- sendLine, removeClient and the table of ids.
use neko_chat.Common.{
  ℕ, zero, suc, ◌+◌, ◌≡◌, ◌≢◌, refl, sym, ap, ◌∙◌, true, false, ◌||◌, not, some, ◌++◌, take, drop,
  length, min, ◌==◌, Bool-cases, Option-cases, inl, inr, if_either,
}
use neko_chat.Common.Text.{Bytes, is_empty}
use neko_chat.Common.Assoc.{Map, bytes_key, lookup}
use neko_chat.Signal.Server.{
  Server, update, forget, remove_client, send_failed, send_loop, send_line, say, say_to,
}
use neko_chat.Signal.Server.Consistency.{
  IsConsistent, Good, update-SameSelf, IsConsistent-same, lookup-forget, lookup-forget_self,
}

pub remove_client-IsConsistent :
    (c : ℕ) (s : Server) → IsConsistent s → IsConsistent (remove_client c s)
unfolding remove_client
remove_client-IsConsistent c s h =
    IsConsistent-same s (remove_client c s)
      (λ d. update-SameSelf c _ s.contexts d (λ x. (refl, refl)))
      (λ id d.
        if_either (λ (m : Map Bytes ℕ). lookup id m ≡ some d → lookup id s.id_to_client ≡ some d)
          (is_empty (s.contexts c).client_id) _ _ (λ e. e)
          (lookup-forget (s.contexts c).client_id id c s.id_to_client d))
      h

send_failed-IsConsistent : (c : ℕ) (s : Server) → IsConsistent s → IsConsistent (send_failed c s)
unfolding send_failed
send_failed-IsConsistent c s h =
    let stopped : Server = record s {
      contexts = update c (λ x. record x { active = false }) s.contexts;
    } in
    let k : IsConsistent stopped =
      IsConsistent-same s stopped (λ d. update-SameSelf c _ s.contexts d (λ x. (refl, refl)))
        (λ id d e. e) h in
    if_either IsConsistent (s.contexts c).active _ _ (remove_client-IsConsistent c stopped k) k

send_loop-IsConsistent :
    (fuel c : ℕ) (rest : Bytes) (s : Server)
    → IsConsistent s
    → IsConsistent (send_loop fuel c rest s).0
unfolding send_loop
send_loop-IsConsistent zero c rest s h = h
send_loop-IsConsistent (suc fuel) c rest s h =
    let sent = min (s.accepts s.sends) (length rest) in
    let taken : Server = record s {
      sends = s.sends + 1;
      contexts = update c (λ x. record x { received = x.received ++ take sent rest }) s.contexts;
    } in
    let k : IsConsistent taken =
      IsConsistent-same s taken (λ d. update-SameSelf c _ s.contexts d (λ x. (refl, refl)))
        (λ id d e. e) h in
    if_either Good (is_empty rest) _ _ h (
      if_either Good (sent == 0) _ _
        (send_failed-IsConsistent c (record s { sends = s.sends + 1 }) (record { owned = h.owned }))
        (send_loop-IsConsistent fuel c (drop sent rest) taken k))

pub say-IsConsistent :
    (c : ℕ) (msg : Bytes) (s : Server) → IsConsistent s → IsConsistent (say c msg s)
unfolding send_line
say-IsConsistent c msg s h =
    if_either Good (is_empty msg || not (s.contexts c).active) _ _ h
      (send_loop-IsConsistent (length msg) c msg s h)

pub say_to-IsConsistent :
    (target_id msg : Bytes) (s : Server) → IsConsistent s → IsConsistent (say_to target_id msg s)
unfolding say_to
say_to-IsConsistent target_id msg s h = elim (Option-cases (lookup target_id s.id_to_client)) [
  | inl e ↦ rw (e, say_to) h
  | inr (target, e) ↦ rw (e, say_to) (say-IsConsistent target msg s h)
]

true-ne : true ≢ false
true-ne e = absurd (cc)

pub gone :
    (c : ℕ) (s : Server)
    → IsConsistent s
    → (id : Bytes) → lookup id (remove_client c s).id_to_client ≢ some c
unfolding remove_client
gone c s h id e = elim (Bool-cases (is_empty (s.contexts c).client_id)) [
  | inl q ↦
      let o = h.owned id c (rw q at e) in
      absurd (true-ne (sym q ∙ ap is_empty o.named ∙ o.not_empty))
  | inr q ↦
      let f = rw q at e in
      let o = h.owned id c (lookup-forget (s.contexts c).client_id id c s.id_to_client c f) in
      lookup-forget_self (s.contexts c).client_id c s.id_to_client (
        ap (λ (x : Bytes). lookup x (forget (s.contexts c).client_id c s.id_to_client)) o.named ∙ f)
]
