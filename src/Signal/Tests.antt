-- ===== src/Signal/Tests.antt =====
-- The signalling on concrete inputs: `ann` is client 1, `bob` client 2.
use neko_chat.Common.{
  ℕ, ◌≡◌, ◌≢◌, refl, true, false, some, [], ◌∷◌, ◌++◌, arith, if◌then◌else◌, ◌==◌,
}
use neko_chat.Common.Text.{Bytes, codes, bytes_eq, is_empty, has_byte, find_byte, starts_with}
use neko_chat.Common.Assoc.{bytes_key, lookup}
use neko_chat.Signal.Server.{
  Server, update, register, is_taken, handle_register, client_receive, remove_client, send_line,
  send_loop, process_lines, process_line, process_command, without_return,
}
use neko_chat.Signal.Lines.{take_lines, lines_of}
use neko_chat.Signal.Server.Consistency.{IsConsistent}
use neko_chat.Signal.Server.Consistency.Commands.{clients-IsConsistent}
use neko_chat.Signal.Server.Delivery.{Delivered, send_line-Delivered}
use neko_chat.Signal.Server.Segments.{client_receive-append}
use neko_chat.Signal.Server.Claims.{register_claims}
use neko_chat.Signal.Client.{Command, relay_message, command_line, receive}
use neko_chat.Signal.Relay.{
  IsPlain, IsWord, relayed_line, notice_of, target_of, text_of, is_directed,
}
use neko_chat.Signal.Relay.Through.{command-goes_through}

abbrev ann : Bytes
ann = codes "ann"

abbrev bob : Bytes
bob = codes "bob"

abbrev named : ℕ → Bytes
named c = if c == 1 then ann else bob

abbrev busy : Server
busy = record {
  running = true;
  contexts = λ c. record {
    client_id = named c;
    is_registered = true;
    active = true;
    connected = true;
    received = [];
  };
  clients = 1 ∷ 2 ∷ [];
  id_to_client = (ann, 1) ∷ (bob, 2) ∷ [];
  accepts = λ n. 3;
  sends = 0;
}

-- A server that nobody has registered at.
abbrev fresh : Server
fresh = record {
  running = true;
  contexts = λ c. record {
    client_id = [];
    is_registered = false;
    active = true;
    connected = true;
    received = [];
  };
  clients = 1 ∷ 2 ∷ [];
  id_to_client = [];
  accepts = λ n. 3;
  sends = 0;
}

fresh-IsConsistent : IsConsistent fresh
unfolding lookup
fresh-IsConsistent = record { owned = λ id c e. absurd (cc) }

abbrev greeting : Command
greeting = relay_message bob (codes "hello there")

bob-IsWord : IsWord bob
unfolding has_byte
bob-IsWord = record {
  plain = record { no_end = refl; no_return = refl; no_zero = refl };
  no_space = refl;
}

ann-IsWord : IsWord ann
unfolding has_byte
ann-IsWord = record {
  plain = record { no_end = refl; no_return = refl; no_zero = refl };
  no_space = refl;
}

hello-IsPlain : IsPlain (codes "hello there")
unfolding has_byte
hello-IsPlain = record { no_end = refl; no_return = refl; no_zero = refl }

bob_found : lookup bob busy.id_to_client ≡ some 2
unfolding lookup bytes_eq
bob_found = refl

abbrev greeting_line : Bytes
greeting_line = relayed_line ann greeting ++ b'\n' ∷ []

command-goes_through_example :
    Delivered 2 greeting_line busy (client_receive 1 (command_line greeting) ([], busy)).1
    × (receive [] greeting_line ≡ (notice_of ann greeting ∷ [], []))
unfolding target_of text_of is_directed
command-goes_through_example =
    command-goes_through 1 2 greeting busy refl refl refl refl refl bob_found (λ n. omega arith)
      ann-IsWord bob-IsWord hello-IsPlain

-- The first piece holds a whole line, which is answered with an error, and a part of the next.
abbrev first_piece : Bytes
first_piece = codes "OFFER bob\nLI"

first_piece_lem :
    ((client_receive 1 first_piece ([], fresh)).1.running ≡ true)
    × (((client_receive 1 first_piece ([], fresh)).1.contexts 1).active ≡ true)
unfolding client_receive take_lines lines_of find_byte process_lines process_line without_return
    is_empty process_command starts_with send_line send_loop update
first_piece_lem = (refl, refl)

client_receive-append_example :
    client_receive 1 (codes "ST\n") (client_receive 1 first_piece ([], fresh))
    ≡ client_receive 1 (codes "OFFER bob\nLIST\n") ([], fresh)
client_receive-append_example =
    client_receive-append 1 first_piece (codes "ST\n") [] fresh refl refl first_piece_lem.0
      first_piece_lem.1

clients-IsConsistent_example :
    IsConsistent (client_receive 1 (codes "REGISTER ann\n") ([], fresh)).1
    × IsConsistent (remove_client 1 fresh)
    × ((id : Bytes) → lookup id (remove_client 1 fresh).id_to_client ≢ some 1)
clients-IsConsistent_example =
    clients-IsConsistent 1 (codes "REGISTER ann\n") [] fresh fresh-IsConsistent

nobody : is_taken ann 1 fresh.id_to_client ≡ false
unfolding is_taken lookup
nobody = refl

register_claims_example :
    (is_taken ann 1 fresh.id_to_client ≡ false
      → (lookup ann (handle_register 1 ann fresh).id_to_client ≡ some 1)
        × ((j : Bytes) → lookup j (handle_register 1 ann fresh).id_to_client ≡ some 1 → j ≡ ann)
        × Delivered 1 (codes "REGISTERED\n") (register 1 ann fresh) (handle_register 1 ann fresh))
    × (is_taken ann 1 fresh.id_to_client ≡ true
        → Delivered 1 (codes "ERROR ID taken\n") fresh (handle_register 1 ann fresh))
unfolding is_empty
register_claims_example =
    register_claims 1 ann fresh fresh-IsConsistent (λ n. omega arith) refl refl ann-IsWord.no_space

send_line-Delivered_example :
    ((busy.contexts 1).active ≡ true
      → Delivered 1 (codes "REGISTERED\n") busy (send_line 1 (codes "REGISTERED\n") busy).0
        × ((send_line 1 (codes "REGISTERED\n") busy).1 ≡ true))
    × ((busy.contexts 1).active ≡ false → send_line 1 (codes "REGISTERED\n") busy ≡ (busy, false))
unfolding is_empty
send_line-Delivered_example =
    send_line-Delivered 1 (codes "REGISTERED\n") busy (λ n. omega arith) refl
