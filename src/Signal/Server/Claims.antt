-- ===== src/Signal/Server/Claims.antt =====
-- What a registration does to the table.
use neko_chat.Common.{ℕ, ◌≡◌, refl, sym, ap, ◌∙◌, Bool, true, false, some, if◌then◌else◌}
use neko_chat.Common.Text.{Bytes, codes, is_empty, has_byte, bytes_eq_refl}
use neko_chat.Common.Assoc.{bytes_key, lookup, lookup-insert}
use neko_chat.Signal.Server.{Client, Server, say, register, is_taken, handle_register}
use neko_chat.Signal.Server.Consistency.{IsConsistent, update_self}
use neko_chat.Signal.Server.Consistency.Registering.{register-IsConsistent, released}
use neko_chat.Signal.Server.Delivery.{AlwaysAccepts, Delivered, send_line-Delivered}

lookup-register :
    (c : ℕ) (id : Bytes) (s : Server) → lookup id (register c id s).id_to_client ≡ some c
unfolding register
lookup-register c id s =
    lookup-insert id id c (released c id s)
    ∙ ap (λ (b : Bool). if b then some c else lookup id (released c id s)) (bytes_eq_refl id)

client-register :
    (c : ℕ) (id : Bytes) (s : Server)
    → (register c id s).contexts c ≡ record (s.contexts c) { client_id = id; is_registered = true }
unfolding register
client-register c id s = update_self c _ s.contexts

-- On a consistent server with sockets that take at least one byte a call, for an active client and
-- an id that is not empty and has no space: an id that nobody else has becomes the client's only
-- one, whatever it had before, and the client is told so; an id that another client has changes
-- nothing but that the client is told.
pub register_claims :
    (c : ℕ) (id : Bytes) (s : Server)
    → IsConsistent s
    → AlwaysAccepts s
    → (s.contexts c).active ≡ true
    → is_empty id ≡ false
    → has_byte b' ' id ≡ false
    → (is_taken id c s.id_to_client ≡ false
        → (lookup id (handle_register c id s).id_to_client ≡ some c)
          × ((j : Bytes) → lookup j (handle_register c id s).id_to_client ≡ some c → j ≡ id)
          × Delivered c (codes "REGISTERED\n") (register c id s) (handle_register c id s))
      × (is_taken id c s.id_to_client ≡ true
          → Delivered c (codes "ERROR ID taken\n") s (handle_register c id s))
unfolding handle_register is_empty register
register_claims c id s h accepts active not_empty no_space = (
  λ free. rw (not_empty, no_space, free) (told),
  λ taken.
      rw (not_empty, no_space, taken)
        ((send_line-Delivered c (codes "ERROR ID taken\n") s accepts refl).0 active).0,
)
  where
    s1 : Server
    s1 = register c id s

    d : Delivered c (codes "REGISTERED\n") s1 (say c (codes "REGISTERED\n") s1)
    d =
        ((send_line-Delivered c (codes "REGISTERED\n") s1 accepts refl).0
          (ap (λ (x : Client). x.active) (client-register c id s) ∙ active)).0

    only : (j : Bytes) → lookup j s1.id_to_client ≡ some c → j ≡ id
    only j e =
        sym ((register-IsConsistent c id s h not_empty no_space).owned j c e).named
        ∙ ap (λ (x : Client). x.client_id) (client-register c id s)

    told :
        (lookup id (say c (codes "REGISTERED\n") s1).id_to_client ≡ some c)
        × ((j : Bytes) → lookup j (say c (codes "REGISTERED\n") s1).id_to_client ≡ some c → j ≡ id)
        × Delivered c (codes "REGISTERED\n") s1 (say c (codes "REGISTERED\n") s1)
    told = (
      ap (lookup id) d.table ∙ lookup-register c id s,
      λ j e. only j (sym (ap (lookup j) d.table) ∙ e),
      d,
    )
