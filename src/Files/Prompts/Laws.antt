-- ===== src/Files/Prompts/Laws.antt =====
-- The answers of the user to a request.
use neko_chat.Common.{
  ℕ, ◌-◌, ◌≤◌, ◌≡◌, refl, sym, ap, Bool, true, some, List, [], ◌∷◌, ◌++◌, length, All, leb, arith,
  subst, if_either, Bool-cases, some_inj, inl, inr,
}
use neko_chat.Common.Text.{Bytes, bytes_eq}
use neko_chat.Common.Assoc.{
  Map, bytes_key, lookup, erase, keep, lookup-modify_self, lookup-put_self,
}
use neko_chat.Files.Names.{make_incoming_file_key}
use neko_chat.Files.Packets.{build_file_reject_packet}
use neko_chat.Files.State.{Prompt, Transfers, send_buffer_to_peer}
use neko_chat.Files.Begin.{begin_incoming_file_transfer}
use neko_chat.Files.Begin.Paths.{begun}
use neko_chat.Files.Cleanup.{cleanup_file_transfers}
use neko_chat.Files.Answers.{respond_reject}
use neko_chat.Files.Chunks.{file_chunk_count}
use neko_chat.Files.Meta.{dispatch_meta}
use neko_chat.Files.Data.{dispatch_data}
use neko_chat.Files.Prompts.{accept_pending_file_prompt, decline_pending_file_prompt}
use neko_chat.Files.Prefix.{Apart, IsGenuine}
use neko_chat.Files.Prefix.Expiry.{cleanup-IsGenuine}
use neko_chat.Files.Prefix.Begin.{destination, begin-IsGenuine}

lookup-keep :
    (key : Bytes) (test : ℕ → Bool) (m : Map Bytes ℕ) (v : ℕ)
    → lookup key m ≡ some v
    → test v ≡ true
    → lookup key (keep test m) ≡ some v
unfolding keep lookup
lookup-keep key test [] v e ok = absurd (cc)
lookup-keep key test ((k, w) ∷ m) v e ok = elim (Bool-cases (bytes_eq k key)) [
  | inl q ↦
      let same : w ≡ v = some_inj (rw q at e) in
      rw (subst (λ (x : ℕ). test x ≡ true) (sym same) ok, q) (ap some same)
  | inr q ↦
      let rest = lookup-keep key test m v (rw q at e) ok in
      if_either (λ (r : Map Bytes ℕ). lookup key r ≡ some v) (test w) _ _ (rw q rest) rest
]

-- A packet of a transfer: its metadata, or a chunk with its index.
pub data Packet : Type 0 where
  metadata : Prompt → Packet
  chunk : ℕ → Bytes → Packet

-- What a refusal leaves.
abbrev pub OnlyRefuses : Bytes × Bytes → Transfers → Transfers → Type 0
OnlyRefuses refusal s s' =
    (s'.sent ≡ s.sent ++ refusal ∷ [])
    × (s'.incoming ≡ s.incoming)
    × (s'.completed ≡ s.completed)
    × (s'.disk ≡ s.disk)

module _ (peer_id : Bytes) (transfer_id : ℕ) where
  abbrev own_key : Bytes
  own_key = make_incoming_file_key peer_id transfer_id

  -- The branch of HandleIncomingFilePacket for a packet.
  abbrev pub answer : Packet → ℕ → Transfers → Transfers
  answer (metadata q) now s = dispatch_meta peer_id own_key q now s
  answer (chunk i payload) now s = dispatch_data peer_id own_key transfer_id i payload now s

  abbrev pub IsOwn : Packet → Type 0
  IsOwn (metadata q) = q.transfer_id ≡ transfer_id
  IsOwn (chunk i payload) = Unit {0}

  -- Packets of this transfer with their times, each at most 45 seconds after the one before.
  abbrev pub AreSoon : ℕ → List (ℕ × Packet) → Type 0
  AreSoon since [] = Unit {0}
  AreSoon since ((now, p) ∷ ps) = (now - since ≤ 45000) × IsOwn p × AreSoon now ps

  -- Each packet, handled after the cleanup at its time, is answered by a refusal and does no more.
  abbrev pub AllRefused : List (ℕ × Packet) → Transfers → Type 0
  AllRefused [] s = Unit {0}
  AllRefused ((now, p) ∷ ps) s =
      let cleaned = cleanup_file_transfers now s in
      let answered = answer p now cleaned in
      OnlyRefuses (peer_id, build_file_reject_packet transfer_id) cleaned answered
      × AllRefused ps answered

  refused_answer :
      (p : Packet) (now since : ℕ) (s : Transfers)
      → IsOwn p
      → lookup own_key s.rejected ≡ some since
      → answer p now s ≡ respond_reject peer_id own_key transfer_id now s
  unfolding dispatch_meta dispatch_data
  refused_answer (metadata q) now since s own e =
      rw (e, dispatch_meta) (ap (λ (n : ℕ). respond_reject peer_id own_key n now s) own)
  refused_answer (chunk i payload) now since s own e = rw (e, dispatch_data) refl

  still_refused :
      (now since : ℕ) (s : Transfers)
      → now - since ≤ 45000
      → lookup own_key s.rejected ≡ some since
      → lookup own_key (cleanup_file_transfers now s).rejected ≡ some since
  unfolding cleanup_file_transfers
  still_refused now since s soon e =
      lookup-keep own_key (λ t. leb (now - t) 45000) s.rejected since e (ground arith)

  -- A refusal lasts from the time of the last packet that it answers.
  all_refused :
      (packets : List (ℕ × Packet)) (since : ℕ) (s : Transfers)
      → lookup own_key s.rejected ≡ some since
      → AreSoon since packets
      → AllRefused packets s
  unfolding send_buffer_to_peer
  all_refused [] since s e soon = tt
  all_refused ((now, p) ∷ ps) since s e soon =
      let cleaned = cleanup_file_transfers now s in
      let kept = still_refused now since s soon.0 e in
      subst
        (λ (t : Transfers).
          OnlyRefuses (peer_id, build_file_reject_packet transfer_id) cleaned t × AllRefused ps t)
        (sym (refused_answer p now since cleaned soon.1 kept))
        (
          (refl, refl, refl, refl),
          all_refused ps now (respond_reject peer_id own_key transfer_id now cleaned)
              (lookup-modify_self own_key (λ _. now) cleaned.rejected kept) soon.2,
        )

  -- Declining a pending transfer sends one refusal. From then on every packet of this transfer,
  -- metadata or chunk, is answered with one refusal and, beyond the cleanup that goes before it,
  -- begins or ends no transfer and touches no file, as long as each comes at most 45 seconds after
  -- the decline or the packet before it.
  pub decline_refuses :
      (packets : List (ℕ × Packet)) (now : ℕ) (p : Prompt) (s : Transfers)
      → lookup own_key s.pending ≡ some p
      → AreSoon now packets
      → let (declined, found) = decline_pending_file_prompt peer_id transfer_id now s in
        (found ≡ true)
        × OnlyRefuses (peer_id, build_file_reject_packet transfer_id) s declined
        × AllRefused packets declined
  unfolding decline_pending_file_prompt send_buffer_to_peer
  decline_refuses packets now p s e soon =
      rw (e, decline_pending_file_prompt)
        (
          refl,
          (refl, refl, refl, refl),
          all_refused packets now _ (lookup-put_self own_key now s.rejected) soon,
        )

-- Accepting a pending prompt keeps the files under way as prefixes of what is sent, whether or not
-- the transfer can begin, if the prompt announces the sender's size and number of chunks and no
-- other unfinished transfer uses the paths that the new one gets.
pub accept-IsGenuine :
    (source : Bytes → Bytes) (peer_id : Bytes) (transfer_id now : ℕ) (p : Prompt) (s : Transfers)
    → let key = make_incoming_file_key peer_id transfer_id in
      let cleaned = cleanup_file_transfers now s in
      lookup key cleaned.pending ≡ some p
      → p.total_size ≡ length (source key)
      → p.chunk_count ≡ file_chunk_count (length (source key))
      → All (λ e. Apart (begun p now (destination cleaned p)) e.1) (erase key cleaned.incoming)
      → IsGenuine source s
      → IsGenuine source (accept_pending_file_prompt peer_id transfer_id now s).0
unfolding accept_pending_file_prompt send_buffer_to_peer
accept-IsGenuine source peer_id transfer_id now p s e total count apart g =
    let key = make_incoming_file_key peer_id transfer_id in
    let cleaned = cleanup_file_transfers now s in
    let k =
      begin-IsGenuine source key p now cleaned total count apart
        (cleanup-IsGenuine now source s g) in
    rw (e, accept_pending_file_prompt)
      (if_either (λ (r : Transfers × Bool). IsGenuine source r.0)
        (begin_incoming_file_transfer key p now cleaned).1 _ _
        (record { holds = k.holds; apart = k.apart }) k)
