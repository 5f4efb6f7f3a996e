-- ===== src/Signal/Server/Delivery.antt =====
-- What sendLine delivers.
use neko_chat.Common.{
  ℕ, zero, suc, ◌+◌, ◌≤◌, ◌≡◌, refl, sym, ap, ◌∙◌, true, false, [], ◌∷◌, ◌++◌, take, drop, length,
  min, ◌==◌, arith, append_assoc, append-nil, take-append-drop, length-drop, subst,
}
use neko_chat.Common.Text.{Bytes, is_empty}
use neko_chat.Signal.Server.{Client, Server, update, send_loop, send_line}
use neko_chat.Signal.Server.Consistency.{update_self, update_other}

-- No call of send fails.
abbrev pub AlwaysAccepts : Server → Type 0
AlwaysAccepts s = (n : ℕ) → 1 ≤ s.accepts n

-- From `s` to `s'` the client gets `msg` and nothing else changes but the count of calls.
pub record Delivered (c : ℕ) (msg : Bytes) (s s' : Server) : Type 0 where
  pub client : s'.contexts c ≡ record (s.contexts c) { received = (s.contexts c).received ++ msg }
  pub others : (d : ℕ) → c == d ≡ false → s'.contexts d ≡ s.contexts d
  pub table : s'.id_to_client ≡ s.id_to_client
  pub listed : s'.clients ≡ s.clients
  pub running : s'.running ≡ s.running
  pub accepts : s'.accepts ≡ s.accepts

abbrev get : Bytes → Client → Client
get msg x = record x { received = x.received ++ msg }

get_twice : (a b : Bytes) (x : Client) → get b (get a x) ≡ get (a ++ b) x
get_twice a b x = ap (λ (r : Bytes). record x { received = r }) (append_assoc x.received a b)

Delivered-nothing : (c : ℕ) (s : Server) → Delivered c [] s s
Delivered-nothing c s = record {
  client =
      ap (λ (r : Bytes). record (s.contexts c) { received = r })
        (sym (append-nil (s.contexts c).received));
  others = λ d e. refl;
  table = refl;
  listed = refl;
  running = refl;
  accepts = refl;
}

Delivered-then :
    (c : ℕ) (a b : Bytes) (s t u : Server)
    → Delivered c a s t
    → Delivered c b t u
    → Delivered c (a ++ b) s u
Delivered-then c a b s t u h k = record {
  client = k.client ∙ ap (get b) h.client ∙ get_twice a b (s.contexts c);
  others = λ d e. k.others d e ∙ h.others d e;
  table = k.table ∙ h.table;
  listed = k.listed ∙ h.listed;
  running = k.running ∙ h.running;
  accepts = k.accepts ∙ h.accepts;
}

-- One call of send.
abbrev after_send : ℕ → Bytes → Server → Server
after_send c sent s = record s { sends = s.sends + 1; contexts = update c (get sent) s.contexts }

Delivered-after_send :
    (c : ℕ) (sent : Bytes) (s : Server) → Delivered c sent s (after_send c sent s)
Delivered-after_send c sent s = record {
  client = update_self c (get sent) s.contexts;
  others = update_other c (get sent) s.contexts;
  table = refl;
  listed = refl;
  running = refl;
  accepts = refl;
}

not_zero : (a b : ℕ) → 1 ≤ a → min a (suc b) == 0 ≡ false
not_zero a b h = ground arith

send_loop-Delivered :
    (fuel c : ℕ) (rest : Bytes) (s : Server)
    → AlwaysAccepts s
    → length rest ≤ fuel
    → Delivered c rest s (send_loop fuel c rest s).0 × ((send_loop fuel c rest s).1 ≡ true)
unfolding send_loop is_empty
send_loop-Delivered zero c [] s h n = (Delivered-nothing c s, refl)
send_loop-Delivered zero c (b ∷ rest) s h n = absurd (omega arith)
send_loop-Delivered (suc fuel) c [] s h n = (Delivered-nothing c s, refl)
send_loop-Delivered (suc fuel) c (b ∷ rest) s h n =
    let sent = min (s.accepts s.sends) (suc (length rest)) in
    let taken = after_send c (take sent (b ∷ rest)) s in
    let later =
      send_loop-Delivered fuel c (drop sent (b ∷ rest)) taken h
        (omega (arith, h s.sends, length-drop sent (b ∷ rest))) in
    rw (not_zero (s.accepts s.sends) (length rest) (h s.sends)) (
      subst (λ (m : Bytes). Delivered c m s (send_loop fuel c (drop sent (b ∷ rest)) taken).0)
          (take-append-drop sent (b ∷ rest))
          (Delivered-then c _ _ s taken _ (Delivered-after_send c _ s) later.0),
      later.1,
    )

-- On sockets that take at least one byte a call, a line that is not empty arrives whole and once at
-- an active client and nothing arrives at another, and sendLine says that it was sent; for an
-- inactive client nothing changes and sendLine says that it was not.
pub send_line-Delivered :
    (c : ℕ) (msg : Bytes) (s : Server)
    → AlwaysAccepts s
    → is_empty msg ≡ false
    → ((s.contexts c).active ≡ true
        → Delivered c msg s (send_line c msg s).0 × ((send_line c msg s).1 ≡ true))
      × ((s.contexts c).active ≡ false → send_line c msg s ≡ (s, false))
unfolding send_line
send_line-Delivered c msg s h e =
    (λ a. rw (e, a) (send_loop-Delivered (length msg) c msg s h (omega arith)), λ a. rw (e, a) refl)
