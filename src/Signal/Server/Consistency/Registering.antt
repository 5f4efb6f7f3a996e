-- ===== src/Signal/Server/Consistency/Registering.antt =====
-- The change of a registration and the table of ids.
use neko_chat.Common.{
  ℕ, ◌≡◌, ◌≢◌, refl, sym, ap, ◌∙◌, Bool, true, false, ◌&&◌, not, some, ◌==◌, if◌then◌else◌, arith,
  Bool-cases, inl, inr, some_inj, subst, ==_iff, if_either,
}
use neko_chat.Common.Text.{Bytes, is_empty, has_byte, bytes_eq, bytes_eq_iff}
use neko_chat.Common.Assoc.{Map, bytes_key, lookup, insert, lookup-insert}
use neko_chat.Signal.Server.{Client, Server, update, forget, register}
use neko_chat.Signal.Server.Consistency.{
  Owns, IsConsistent, Owns-same, update_self, update_other, bytes_eq_sym, lookup-forget,
  lookup-forget_self,
}

-- The table before the new entry.
abbrev pub released : ℕ → Bytes → Server → Map Bytes ℕ
released c id s =
    if (s.contexts c).is_registered && not (bytes_eq (s.contexts c).client_id id)
    then forget (s.contexts c).client_id c s.id_to_client
    else s.id_to_client

released_less :
    (c : ℕ) (id : Bytes) (s : Server) (j : Bytes) (d : ℕ)
    → lookup j (released c id s) ≡ some d
    → lookup j s.id_to_client ≡ some d
released_less c id s j d =
    if_either (λ (m : Map Bytes ℕ). lookup j m ≡ some d → lookup j s.id_to_client ≡ some d)
      ((s.contexts c).is_registered && not (bytes_eq (s.contexts c).client_id id)) _ _
      (lookup-forget (s.contexts c).client_id j c s.id_to_client d) (λ e. e)

and_not : (a b : Bool) → a ≡ true → b ≡ false → (a && not b) ≡ true
and_not a b h k = ground arith

-- The client's other id is no longer in the table.
released_other :
    (c : ℕ) (id : Bytes) (s : Server) (j : Bytes)
    → bytes_eq id j ≡ false
    → Owns j (s.contexts c)
    → lookup j (released c id s) ≢ some c
released_other c id s j ne o e =
    let differs : bytes_eq (s.contexts c).client_id id ≡ false =
      bytes_eq_sym _ _ (ap (bytes_eq id) o.named ∙ ne) in
    let moves =
      and_not (s.contexts c).is_registered (bytes_eq (s.contexts c).client_id id) o.registered
        differs in
    lookup-forget_self (s.contexts c).client_id c s.id_to_client (
      ap (λ (x : Bytes). lookup x (forget (s.contexts c).client_id c s.id_to_client)) o.named
      ∙ rw moves at e)

-- The client after it has taken an id.
abbrev named_client : Bytes → Client → Client
named_client id x = record x { client_id = id; is_registered = true }

Owns-named :
    (c : ℕ) (id : Bytes) (contexts : ℕ → Client)
    → is_empty id ≡ false
    → has_byte b' ' id ≡ false
    → Owns id (update c (named_client id) contexts c)
Owns-named c id contexts not_empty no_space =
    Owns-same id _ (named_client id (contexts c))
      (
        ap (λ (x : Client). x.client_id) (update_self c (named_client id) contexts),
        ap (λ (x : Client). x.is_registered) (update_self c (named_client id) contexts),
      )
      (record { registered = refl; named = refl; not_empty = not_empty; no_space = no_space })

Owns-other :
    (c : ℕ) (f : Client → Client) (contexts : ℕ → Client) (j : Bytes) (d : ℕ)
    → c == d ≡ false
    → Owns j (contexts d)
    → Owns j (update c f contexts d)
Owns-other c f contexts j d e o =
    Owns-same j _ (contexts d)
      (
        ap (λ (x : Client). x.client_id) (update_other c f contexts d e),
        ap (λ (x : Client). x.is_registered) (update_other c f contexts d e),
      )
      o

module _ (c : ℕ) (id : Bytes) (s : Server) (h : IsConsistent s) where
  -- An entry that is not the new one.
  old_entry :
      (j : Bytes) (d : ℕ)
      → bytes_eq id j ≡ false
      → lookup j (released c id s) ≡ some d
      → Owns j (update c (named_client id) s.contexts d)
  old_entry j d ne e = elim (Bool-cases (c == d)) [
    | inl w ↦
        let same : c ≡ d = (==_iff c d).0 w in
        absurd (
          released_other c id s j ne
            (subst (λ (x : ℕ). Owns j (s.contexts x)) (sym same)
              (h.owned j d (released_less c id s j d e)))
            (e ∙ ap some (sym same)))
    | inr w ↦ Owns-other c _ s.contexts j d w (h.owned j d (released_less c id s j d e))
  ]

  new_entry :
      is_empty id ≡ false
      → has_byte b' ' id ≡ false
      → (j : Bytes) (d : ℕ) → lookup j (insert id c (released c id s)) ≡ some d
      → Owns j (update c (named_client id) s.contexts d)
  new_entry not_empty no_space j d e =
      let found = sym (lookup-insert id j c (released c id s)) ∙ e in
      elim (Bool-cases (bytes_eq id j)) [
        | inl q ↦
            subst (λ (x : Bytes). Owns x (update c (named_client id) s.contexts d))
              ((bytes_eq_iff id j).0 q)
              (subst (λ (x : ℕ). Owns id (update c (named_client id) s.contexts x))
                (some_inj (rw q at found)) (Owns-named c id s.contexts not_empty no_space))
        | inr q ↦ old_entry j d q (rw q at found)
      ]

  pub register-IsConsistent :
      is_empty id ≡ false → has_byte b' ' id ≡ false → IsConsistent (register c id s)
  unfolding register
  register-IsConsistent not_empty no_space = record { owned = new_entry not_empty no_space }
