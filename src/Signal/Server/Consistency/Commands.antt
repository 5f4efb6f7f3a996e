-- ===== src/Signal/Server/Consistency/Commands.antt =====
-- processCommand and the table of ids.
use neko_chat.Common.{
  ℕ, ◌≡◌, ◌≢◌, Bool, true, false, ◌&&◌, ◌||◌, not, some, List, [], ◌∷◌, ◌++◌, drop, arith,
  Bool-cases, Option-cases, inl, inr, if_either,
}
use neko_chat.Common.Text.{Bytes, codes, is_empty, has_byte, bytes_eq, find_from, starts_with}
use neko_chat.Common.Assoc.{bytes_key, lookup}
use neko_chat.Signal.Server.{
  Server, remove_client, is_taken, handle_register, relay_text, relay_word, process_command,
  process_line, list_ids, without_return, process_lines, client_receive,
}
use neko_chat.Signal.Server.Consistency.{IsConsistent}
use neko_chat.Signal.Server.Consistency.Sending.{
  say-IsConsistent, say_to-IsConsistent, remove_client-IsConsistent, gone,
}
use neko_chat.Signal.Server.Consistency.Registering.{register-IsConsistent}

not_or : (a b : Bool) → (a || b) ≡ false → (a ≡ false) × (b ≡ false)
not_or a b h = (ground arith, ground arith)

module _ (c : ℕ) where
  handle_register-IsConsistent :
      (id : Bytes) (s : Server) → IsConsistent s → IsConsistent (handle_register c id s)
  unfolding handle_register
  handle_register-IsConsistent id s h = elim (Bool-cases (is_empty id || has_byte b' ' id)) [
    | inl e ↦ rw e (say-IsConsistent c _ s h)
    | inr e ↦
        let ok = not_or _ _ e in
        rw e (
          if_either IsConsistent (is_taken id c s.id_to_client) _ _ (say-IsConsistent c _ s h)
            (say-IsConsistent c _ _ (register-IsConsistent c id s h ok.0 ok.1)))
  ]

  relay_text-IsConsistent :
      (start : ℕ) (word malformed cmd : Bytes) (s : Server)
      → IsConsistent s
      → IsConsistent (relay_text c start word malformed cmd s)
  unfolding relay_text
  relay_text-IsConsistent start word malformed cmd s h =
      elim (Option-cases (find_from b' ' cmd start)) [
        | inl e ↦ rw (e, relay_text) (say-IsConsistent c malformed s h)
        | inr (space, e) ↦ rw (e, relay_text) (say_to-IsConsistent _ _ s h)
      ]

  relay_word-IsConsistent :
      (word cmd : Bytes) (s : Server) → IsConsistent s → IsConsistent (relay_word c word cmd s)
  unfolding relay_word
  relay_word-IsConsistent word cmd s h = say_to-IsConsistent _ _ s h

  process_command-IsConsistent :
      (cmd : Bytes) (s : Server) → IsConsistent s → IsConsistent (process_command c cmd s)
  unfolding process_command
  process_command-IsConsistent cmd s h =
      if_either IsConsistent (starts_with (codes "REGISTER ") cmd) _ _
        (handle_register-IsConsistent (drop 9 cmd) s h)
        (if_either IsConsistent (not (s.contexts c).is_registered) _ _
          (say-IsConsistent c (codes "ERROR Register first\n") s h)
          (if_either IsConsistent (starts_with (codes "CANDIDATE ") cmd) _ _
            (relay_text-IsConsistent 10 (codes "CANDIDATE ") (codes "ERROR Malformed CANDIDATE\n")
              cmd s h)
            (if_either IsConsistent (starts_with (codes "OFFER ") cmd) _ _
              (relay_word-IsConsistent (codes "OFFER ") cmd s h)
              (if_either IsConsistent (starts_with (codes "ANSWER ") cmd) _ _
                (relay_word-IsConsistent (codes "ANSWER ") cmd s h)
                (if_either IsConsistent (starts_with (codes "OFFER_DECLINED ") cmd) _ _
                  (relay_word-IsConsistent (codes "OFFER_DECLINED ") cmd s h)
                  (if_either IsConsistent (bytes_eq cmd (codes "LIST")) _ _
                    (say-IsConsistent c
                      (codes "LIST " ++ (list_ids c true s.id_to_client ++ b'\n' ∷ [])) s h)
                    (if_either IsConsistent (starts_with (codes "CHAT ") cmd) _ _
                      (relay_text-IsConsistent 5 (codes "SERVER_MSG ")
                        (codes "ERROR Malformed CHAT\n") cmd s h)
                      (say-IsConsistent c (codes "ERROR Unknown command\n") s h))))))))

  process_lines-IsConsistent :
      (lines : List Bytes) (s : Server) → IsConsistent s → IsConsistent (process_lines c lines s)
  unfolding process_lines process_line
  process_lines-IsConsistent [] s h = h
  process_lines-IsConsistent (line ∷ lines) s h =
      process_lines-IsConsistent lines (process_line c line s) (
        if_either IsConsistent (is_empty (without_return line)) _ _ h
          (process_command-IsConsistent (without_return line) s h))

  -- On a consistent server, one where every id in the table leads to a client that has registered
  -- under just this id and the id is not empty and has no space: whatever bytes a client sends, and
  -- whichever sends fail in answering, the server stays consistent; so it does when the client has
  -- gone, and then no id leads to it.
  pub clients-IsConsistent :
      (bytes buffer : Bytes) (s : Server)
      → IsConsistent s
      → IsConsistent (client_receive c bytes (buffer, s)).1
        × IsConsistent (remove_client c s)
        × ((id : Bytes) → lookup id (remove_client c s).id_to_client ≢ some c)
  unfolding client_receive remove_client
  clients-IsConsistent bytes buffer s h = (
    if_either (λ (r : Bytes × Server). IsConsistent r.1) (s.running && (s.contexts c).active) _ _
        (process_lines-IsConsistent _ s h) h,
    remove_client-IsConsistent c s h,
    gone c s h,
  )
