-- ===== src/Signal/Server/Consistency.antt =====
-- The table of registered ids and what the clients know of themselves.
pub mod Sending
pub mod Registering
pub mod Commands
use neko_chat.Common.{
  ℕ, zero, suc, ◌+◌, ◌≡◌, ◌≢◌, refl, sym, ap, ◌∙◌, Bool, true, false, ◌&&◌, ◌||◌, not, Option, none,
  some, List, [], ◌∷◌, ◌++◌, take, drop, length, min, ◌==◌, if◌then◌else◌, arith, Bool-cases,
  Option-cases, inl, inr, some_inj, subst, ==_iff, ==_refl, if_either,
}
use neko_chat.Common.Text.{
  Bytes, codes, is_empty, has_byte, bytes_eq, bytes_eq_iff, find_from, starts_with,
}
use neko_chat.Common.Assoc.{
  Map, bytes_key, lookup, insert, erase, lookup-insert, lookup-erase, lookup-erase_self,
}
use neko_chat.Signal.Server.{
  Client, Server, update, leads_to, forget, remove_client, send_failed, send_loop, send_line, say,
  say_to, register, is_taken, handle_register, relay_text, relay_word, process_command,
  process_line, list_ids, without_return, process_lines, client_receive,
}

-- A client has registered under an id, which is a possible one.
pub record Owns (id : Bytes) (x : Client) : Type 0 where
  pub registered : x.is_registered ≡ true
  pub named : x.client_id ≡ id
  pub not_empty : is_empty id ≡ false
  pub no_space : has_byte b' ' id ≡ false

-- Every id in the table leads to a client that has registered under it.
pub record IsConsistent (s : Server) : Type 0 where
  pub owned : (id : Bytes) (c : ℕ) → lookup id s.id_to_client ≡ some c → Owns id (s.contexts c)

abbrev pub Good : Server × Bool → Type 0
Good r = IsConsistent r.0

-- What a client knows of itself is the same.
abbrev pub SameSelf : Client → Client → Type 0
SameSelf x y = (x.client_id ≡ y.client_id) × (x.is_registered ≡ y.is_registered)

pub Owns-same : (id : Bytes) (x y : Client) → SameSelf x y → Owns id y → Owns id x
Owns-same id x y h o = record {
  registered = h.1 ∙ o.registered;
  named = h.0 ∙ o.named;
  not_empty = o.not_empty;
  no_space = o.no_space;
}

pub update-SameSelf :
    (c : ℕ) (f : Client → Client) (contexts : ℕ → Client) (d : ℕ)
    → ((x : Client) → SameSelf (f x) x)
    → SameSelf (update c f contexts d) (contexts d)
unfolding update
update-SameSelf c f contexts d h = elim (Bool-cases (c == d)) [
  | inl e ↦ rw e (h (contexts d))
  | inr e ↦ rw e (refl, refl)
]

pub update_self :
    (c : ℕ) (f : Client → Client) (contexts : ℕ → Client) → update c f contexts c ≡ f (contexts c)
unfolding update
update_self c f contexts = rw ==_refl refl

pub update_other :
    (c : ℕ) (f : Client → Client) (contexts : ℕ → Client) (d : ℕ)
    → c == d ≡ false
    → update c f contexts d ≡ contexts d
unfolding update
update_other c f contexts d e = rw e refl

-- Clients that keep what they know, under a table with no new entries.
pub IsConsistent-same :
    (s s' : Server)
    → ((d : ℕ) → SameSelf (s'.contexts d) (s.contexts d))
    → ((id : Bytes) (c : ℕ)
        → lookup id s'.id_to_client ≡ some c
        → lookup id s.id_to_client ≡ some c)
    → IsConsistent s
    → IsConsistent s'
IsConsistent-same s s' same less h = record {
  owned = λ id c e. Owns-same id _ _ (same c) (h.owned id c (less id c e));
}

pub bytes_eq_sym : (a b : Bytes) → bytes_eq b a ≡ false → bytes_eq a b ≡ false
bytes_eq_sym a b h = ground (arith, bytes_eq_iff a b, bytes_eq_iff b a)

none-ne : {c : ℕ} → none ≢ some c
none-ne e = absurd (cc)

not_none : (b : Bool) (o : Option ℕ) {c : ℕ} → (if b then none else o) ≡ some c → o ≡ some c
not_none true o e = absurd (none-ne e)
not_none false o e = e

lookup-erase_less :
    (id j : Bytes) (table : Map Bytes ℕ) (c : ℕ)
    → lookup j (erase id table) ≡ some c
    → lookup j table ≡ some c
lookup-erase_less id j table c e = not_none (bytes_eq id j) _ (sym (lookup-erase id j table) ∙ e)

lookup-if_less :
    (b : Bool) (m n : Map Bytes ℕ) (j : Bytes) (c : ℕ)
    → (lookup j m ≡ some c → lookup j n ≡ some c)
    → lookup j (if b then m else n) ≡ some c
    → lookup j n ≡ some c
lookup-if_less true m n j c h e = h e
lookup-if_less false m n j c h e = e

pub lookup-forget :
    (id j : Bytes) (d : ℕ) (table : Map Bytes ℕ) (c : ℕ)
    → lookup j (forget id d table) ≡ some c
    → lookup j table ≡ some c
unfolding forget
lookup-forget id j d table c =
    lookup-if_less (leads_to id d table) (erase id table) table j c (lookup-erase_less id j table c)

pub leads_to-lookup :
    (id : Bytes) (c : ℕ) (table : Map Bytes ℕ)
    → lookup id table ≡ some c
    → leads_to id c table ≡ true
unfolding leads_to
leads_to-lookup id c table e = rw (e, leads_to) (==_refl c)

-- The entry that is forgotten is no longer there.
pub lookup-forget_self :
    (id : Bytes) (c : ℕ) (table : Map Bytes ℕ) → lookup id (forget id c table) ≢ some c
unfolding forget
lookup-forget_self id c table e = elim (Bool-cases (leads_to id c table)) [
  | inl q ↦ none-ne (sym (lookup-erase_self id table) ∙ rw q at e)
  | inr q ↦ absurd (cc (q, leads_to-lookup id c table (rw q at e)))
]
