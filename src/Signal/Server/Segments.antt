-- ===== src/Signal/Server/Segments.antt =====
-- ClientLoop on bytes that come in pieces.
use neko_chat.Common.{ℕ, ◌≡◌, refl, sym, ap, ◌∙◌, true, List, [], ◌∷◌, ◌++◌, append_assoc}
use neko_chat.Common.Text.{Bytes}
use neko_chat.Signal.Lines.{split_lines, take_lines-split_lines, split_lines-append}
use neko_chat.Signal.Server.{Server, process_line, process_lines, client_receive}

process_lines-append :
    (c : ℕ) (l m : List Bytes) (s : Server)
    → process_lines c (l ++ m) s ≡ process_lines c m (process_lines c l s)
unfolding process_lines
process_lines-append c [] m s = refl
process_lines-append c (line ∷ l) m s = process_lines-append c l m (process_line c line s)

-- A round of a thread whose client is active.
pub client_receive-active :
    (c : ℕ) (bytes buffer : Bytes) (s : Server)
    → s.running ≡ true
    → (s.contexts c).active ≡ true
    → client_receive c bytes (buffer, s)
      ≡ ((split_lines (buffer ++ bytes)).1, process_lines c (split_lines (buffer ++ bytes)).0 s)
unfolding client_receive
client_receive-active c bytes buffer s running active =
    rw (running, active, take_lines-split_lines (buffer ++ bytes)) refl

-- Two pieces of what a client sends do to the server and leave in the buffer what the two in one
-- piece do, as long as the server runs and the first piece leaves the client active.
pub client_receive-append :
    (c : ℕ) (a b buffer : Bytes) (s : Server)
    → s.running ≡ true
    → (s.contexts c).active ≡ true
    → (client_receive c a (buffer, s)).1.running ≡ true
    → ((client_receive c a (buffer, s)).1.contexts c).active ≡ true
    → client_receive c b (client_receive c a (buffer, s)) ≡ client_receive c (a ++ b) (buffer, s)
client_receive-append c a b buffer s running active still_running still_active =
    let lines = (split_lines (buffer ++ a)).0 in
    let rest = (split_lines (buffer ++ a)).1 in
    let more = split_lines (rest ++ b) in
    let s1 = process_lines c lines s in
    let first = client_receive-active c a buffer s running active in
    let finish : List Bytes × Bytes → Bytes × Server = λ r. (r.1, process_lines c r.0 s) in
    let cut = ap split_lines (sym (append_assoc buffer a b)) ∙ split_lines-append (buffer ++ a) b in
    ap (client_receive c b) first
    ∙ client_receive-active c b rest s1
        (sym (ap (λ (r : Bytes × Server). r.1.running) first) ∙ still_running)
        (sym (ap (λ (r : Bytes × Server). (r.1.contexts c).active) first) ∙ still_active)
    ∙ ap (λ (t : Server). (more.1, t)) (sym (process_lines-append c lines more.0 s))
    ∙ sym (client_receive-active c (a ++ b) buffer s running active ∙ ap finish cut)
