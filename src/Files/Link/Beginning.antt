-- ===== src/Files/Link/Beginning.antt =====
-- HandleIncomingFilePacket on the metadata of a transfer, and the user's answers, where only this
-- transfer is under way.
use neko_chat.Common.{
  ℕ, ◌<◌, ◌^◌, ◌≡◌, refl, sym, ap, ◌∙◌, subst, Bool, not, some, [], ◌∷◌, drop, take, length, ltb,
  inl, inr, All, arith, Bool-cases, Option-cases, some_inj, if_either, if_cases,
}
use neko_chat.Common.Text.{Bytes}
use neko_chat.Common.Assoc.{
  Map, bytes_key, lookup, erase, put, modify, modify-const, beq_self, All-lookup, All-erase,
}
use neko_chat.Files.Names.{make_incoming_file_key}
use neko_chat.Files.Packets.{FileMetaHeader, file_meta_chunk_index, read_meta_header}
use neko_chat.Files.Disk.{Disk, next_ok, tick}
use neko_chat.Files.Disk.Reliable.{FlushesAll, tick-FlushesAll, open_trunc-FlushesAll}
use neko_chat.Files.State.{Incoming, Prompt, Transfers, send_buffer_to_peer}
use neko_chat.Files.Chunks.{file_chunk_count}
use neko_chat.Files.Begin.{begin_incoming_file_transfer}
use neko_chat.Files.Begin.Paths.{begun}
use neko_chat.Files.Answers.{respond_ack, respond_reject}
use neko_chat.Files.Cleanup.{cleanup_file_transfers}
use neko_chat.Files.Meta.{new_transfer, dispatch_meta, handle_meta, refuses_meta, prompt_of}
use neko_chat.Files.Receiver.{handle_incoming_file_packet}
use neko_chat.Files.Link.{after}
use neko_chat.Wire.Words.{load8}
use neko_chat.Files.Prompts.{accept_pending_file_prompt, decline_pending_file_prompt}
use neko_chat.Files.Prefix.{Apart, IsGenuine}
use neko_chat.Files.Prefix.Tables.{All-modify}
use neko_chat.Files.Prefix.Begin.{destination, begin-IsGenuine}
use neko_chat.Files.Prefix.Expiry.{cleanup-IsGenuine}
use neko_chat.Files.Prefix.Steps.{touch-IsGenuine}
use neko_chat.Files.Link.Receiving.{
  IsSound, IsUnfinished, IsAsked, own_key, last_chunk, file_chunk_count_pos, acknowledged, refused,
  IsSound-rejected, cleanup-IsSound,
}

-- A table without its only key is empty.
erase_only :
    {V : Type 0} (P : Bytes → V → Type 0) (k : Bytes) (m : Map Bytes V)
    → All (λ e. (e.0 ≡ k) × P e.0 e.1) m
    → erase k m ≡ []
unfolding erase
erase_only P k [] h = refl
erase_only P k ((j, v) ∷ m) h =
    rw (ap (λ (i : Bytes). bytes_key.beq i k) h.0.0 ∙ beq_self k) (erase_only P k m h.1)

-- The receiver is right: its transfers under way are, and its acknowledgements.
abbrev pub IsFine : (Bytes → Bytes) → Bytes → ℕ → Type 0 → Transfers → Type 0
IsFine source peer_id tid D s = IsGenuine source s × IsSound source peer_id tid D s

-- Whatever `bytes` could be read as the metadata of, it announces the sender's file.
abbrev pub CarriesMeta : (Bytes → Bytes) → Bytes → ℕ → Bytes → Type 0
CarriesMeta source peer_id tid bytes =
    (h : FileMetaHeader)
    → read_meta_header bytes ≡ some h
    → (h.transfer_id ≡ tid)
      × (h.total_size ≡ length (source (own_key source peer_id tid)))
      × (h.chunk_count ≡ file_chunk_count (length (source (own_key source peer_id tid))))

handle_metadata :
    (peer_id bytes : Bytes) (now : ℕ) (s : Transfers)
    → load8 bytes 0 ≡ some 1
    → handle_incoming_file_packet peer_id bytes now s
      ≡ handle_meta peer_id bytes now (cleanup_file_transfers now s)
unfolding handle_incoming_file_packet load8
handle_metadata peer_id [] now s e = absurd (cc)
handle_metadata peer_id (kind ∷ rest) now s e = let one : kind ≡ 1 = some_inj e in rw one refl

module _ (source : Bytes → Bytes) (peer_id : Bytes) (tid : ℕ) (D : Type 0) (now : ℕ)
    (fits : tid < 2 ^ 32) (small : last_chunk source peer_id tid < file_meta_chunk_index) where
  abbrev own : Bytes
  own = make_incoming_file_key peer_id tid

  abbrev Fine : Transfers → Type 0
  Fine = IsFine source peer_id tid D

  -- An acknowledgement of the metadata says nothing about the last chunk.
  meta_acknowledged :
      (s : Transfers) → Fine s → Fine (respond_ack peer_id tid file_meta_chunk_index s)
  unfolding send_buffer_to_peer
  meta_acknowledged s h = (
    record { holds = h.0.holds; apart = h.0.apart },
    acknowledged source peer_id tid D tid file_meta_chunk_index now fits (omega arith) s
        (λ l. absurd (omega (arith, l.1))) h.1,
  )

  begin-IsSound :
      (p : Prompt) (s : Transfers)
      → p.chunk_count ≡ file_chunk_count (length (source (make_incoming_file_key peer_id tid)))
      → IsSound source peer_id tid D s
      → IsSound source peer_id tid D (begin_incoming_file_transfer own p now s).0
  unfolding begin_incoming_file_transfer put
  begin-IsSound p s count h =
      let ticked = tick-FlushesAll s.disk h.flushes in
      let opened = open_trunc-FlushesAll _ (tick s.disk) ticked in
      let same = λ (d : Disk) (flushes : FlushesAll d).
        let s' : Transfers = record s { disk = d } in
        let x : IsSound source peer_id tid D s' = record {
          unfinished = h.unfinished;
          asked = h.asked;
          finished = h.finished;
          answered = h.answered;
          flushes = flushes;
        } in
        x in
      if_cases (λ (r : Transfers × Bool). IsSound source peer_id tid D r.0) (not (next_ok s.disk)) _
        _ (λ _. same _ ticked)
        (λ _.
          if_cases (λ (r : Transfers × Bool). IsSound source peer_id tid D r.0)
            (not (next_ok (tick s.disk))) _ _ (λ _. same _ opened)
            (λ _. record {
              unfinished = (
                (
                  refl,
                  omega (
                    arith,
                    count,
                    file_chunk_count_pos (length (source (make_incoming_file_key peer_id tid))),
                  ),
                ),
                All-erase (IsUnfinished source peer_id tid) own s.incoming h.unfinished,
              );
              asked = h.asked;
              finished = h.finished;
              answered = h.answered;
              flushes = opened;
            }))

  begin-IsFine :
      (p : Prompt) (s : Transfers)
      → IsAsked source peer_id tid own p
      → Fine s
      → Fine (begin_incoming_file_transfer own p now s).0
  begin-IsFine p s asked h =
      let facts = asked refl in
      let empty =
        erase_only (λ _ v. v.next_chunk_index < v.chunk_count) own s.incoming h.1.unfinished in
      (
        begin-IsGenuine source own p now s facts.0 facts.1
            (subst
              (λ (m : Map Bytes Incoming). All (λ e. Apart (begun p now (destination s p)) e.1) m)
              (sym empty) tt)
            h.0,
        begin-IsSound p s facts.1 h.1,
      )

  new_transfer-IsFine :
      (p : Prompt) (s : Transfers)
      → p.transfer_id ≡ tid
      → IsAsked source peer_id tid own p
      → Fine s
      → Fine (new_transfer peer_id own p now s)
  unfolding new_transfer put
  new_transfer-IsFine p s mine asked h =
      let begun = begin-IsFine p s asked h in
      if_cases Fine s.approval_required _ _
        (λ _. elim (Option-cases (lookup own s.pending)) [
          | inl e ↦ rw e (
            record { holds = h.0.holds; apart = h.0.apart },
            record {
              unfinished = h.1.unfinished;
              asked = (asked, All-erase (IsAsked source peer_id tid) own s.pending h.1.asked);
              finished = h.1.finished;
              answered = h.1.answered;
              flushes = h.1.flushes;
            },
          )
          | inr (old, e) ↦ rw e (
            record { holds = h.0.holds; apart = h.0.apart },
            record {
              unfinished = h.1.unfinished;
              asked =
                  All-modify (IsAsked source peer_id tid) own _ s.pending (λ _ _ q. q) h.1.asked;
              finished = h.1.finished;
              answered = h.1.answered;
              flushes = h.1.flushes;
            },
          )
        ])
        (λ _.
          if_cases Fine (begin_incoming_file_transfer own p now s).1 _ _
            (λ _.
              subst
                (λ (u : ℕ). Fine (
                  respond_ack peer_id u file_meta_chunk_index
                    (begin_incoming_file_transfer own p now s).0))
                (sym mine) (meta_acknowledged _ begun))
            (λ _. begun))

  -- A transfer that is heard of.
  touched :
      (t : Incoming) (s : Transfers)
      → Fine s
      → lookup own s.incoming ≡ some t
      → Fine (record s { incoming = modify own (λ t. record t { last_update = now }) s.incoming })
  touched t s h e =
      let unfinished =
        All-lookup (IsUnfinished source peer_id tid) own s.incoming h.1.unfinished e in
      subst (λ (m : Map Bytes Incoming). Fine (record s { incoming = m }))
        (sym (modify-const own (λ (t : Incoming). record t { last_update = now }) s.incoming e))
        (
          touch-IsGenuine source peer_id own tid 0 now t s h.0 e,
          record {
            unfinished =
                All-modify (IsUnfinished source peer_id tid) own
                  (λ _. record t { last_update = now }) s.incoming (λ _ _ q. (q.0, unfinished.1))
                  h.1.unfinished;
            asked = h.1.asked;
            finished = h.1.finished;
            answered = h.1.answered;
            flushes = h.1.flushes;
          },
        )

  dispatch_meta-IsFine :
      (p : Prompt) (s : Transfers)
      → p.transfer_id ≡ tid
      → IsAsked source peer_id tid own p
      → Fine s
      → Fine (dispatch_meta peer_id own p now s)
  unfolding dispatch_meta send_buffer_to_peer
  dispatch_meta-IsFine p s mine asked h = elim (Option-cases (lookup own s.rejected)) [
    | inr (r, er) ↦
        rw (er, dispatch_meta)
          (
            record { holds = h.0.holds; apart = h.0.apart },
            subst (λ (u : ℕ). IsSound source peer_id tid D (respond_reject peer_id own u now s))
                (sym mine)
                (refused source peer_id tid D tid 0 now fits (omega arith) _
                  (IsSound-rejected source peer_id tid s _ h.1)),
          )
    | inl er ↦ elim (Option-cases (lookup own s.completed)) [
      | inr (c, ec) ↦ rw (er, ec, dispatch_meta) (acknowledge s h)
      | inl ec ↦ elim (Option-cases (lookup own s.incoming)) [
        | inl ei ↦ rw (er, ec, ei, dispatch_meta) (new_transfer-IsFine p s mine asked h)
        | inr (t, ei) ↦ rw (er, ec, ei, dispatch_meta) (acknowledge _ (touched t s h ei))
      ]
    ]
  ]
    where
      acknowledge :
          (r : Transfers)
          → Fine r
          → Fine (respond_ack peer_id p.transfer_id file_meta_chunk_index r)
      acknowledge r k =
          subst (λ (u : ℕ). Fine (respond_ack peer_id u file_meta_chunk_index r)) (sym mine)
            (meta_acknowledged r k)

  cleanup-IsFine : (s : Transfers) → Fine s → Fine (cleanup_file_transfers now s)
  cleanup-IsFine s h =
      (cleanup-IsGenuine now source s h.0, cleanup-IsSound source peer_id tid now s h.1)

  -- The user accepts the transfer.
  pub accept-IsFine :
      (s : Transfers) → Fine s → Fine (accept_pending_file_prompt peer_id tid now s).0
  unfolding accept_pending_file_prompt
  accept-IsFine s h =
      let cleaned = cleanup_file_transfers now s in
      let h' = cleanup-IsFine s h in
      elim (Option-cases (lookup own cleaned.pending)) [
        | inl e ↦ rw (e, accept_pending_file_prompt) h'
        | inr (p, e) ↦
            rw (e, accept_pending_file_prompt)
              (let begun =
                  begin-IsFine p cleaned
                    (All-lookup (IsAsked source peer_id tid) own cleaned.pending h'.1.asked e) h' in
                if_either (λ (r : Transfers × Bool). Fine r.0)
                  (begin_incoming_file_transfer own p now cleaned).1 _ _
                  (meta_acknowledged _ (
                    record { holds = begun.0.holds; apart = begun.0.apart },
                    record {
                      unfinished = begun.1.unfinished;
                      asked = All-erase (IsAsked source peer_id tid) own _ begun.1.asked;
                      finished = begun.1.finished;
                      answered = begun.1.answered;
                      flushes = begun.1.flushes;
                    },
                  ))
                  begun)
      ]

  -- The user declines it.
  pub decline-IsFine :
      (s : Transfers) → Fine s → Fine (decline_pending_file_prompt peer_id tid now s).0
  unfolding decline_pending_file_prompt send_buffer_to_peer
  decline-IsFine s h = elim (Option-cases (lookup own s.pending)) [
    | inl e ↦ rw (e, decline_pending_file_prompt) h
    | inr (p, e) ↦
        rw (e, decline_pending_file_prompt)
          (
            record { holds = h.0.holds; apart = h.0.apart },
            refused source peer_id tid D tid 0 now fits (omega arith) _ (record {
              unfinished = h.1.unfinished;
              asked = All-erase (IsAsked source peer_id tid) own s.pending h.1.asked;
              finished = h.1.finished;
              answered = h.1.answered;
              flushes = h.1.flushes;
            }),
          )
  ]

  -- A packet with the metadata of the sender's file, handled.
  pub receive_meta-IsFine :
      (bytes : Bytes) (s : Transfers)
      → load8 bytes 0 ≡ some 1
      → CarriesMeta source peer_id tid bytes
      → Fine s
      → Fine (after s (handle_incoming_file_packet peer_id bytes now s))
  unfolding handle_meta prompt_of
  receive_meta-IsFine bytes s kind carries h =
      let clean = cleanup_file_transfers now s in
      let h' = cleanup-IsFine s h in
      rw (handle_metadata peer_id bytes now s kind) (elim (Bool-cases (ltb (length bytes) 19)) [
        | inl short ↦ rw short h'
        | inr long ↦ elim (Option-cases (read_meta_header bytes)) [
          | inl missing ↦ rw (long, missing) h
          | inr (head, e) ↦
              let facts = carries head e in
              rw (long, e)
                (if_either Fine (refuses_meta head (length bytes)) _ _ h' (
                  subst
                    (λ (u : ℕ). Fine (
                      dispatch_meta peer_id (make_incoming_file_key peer_id u)
                        (prompt_of peer_id head (take head.file_name_len (drop 19 bytes)) now) now
                        clean))
                    (sym facts.0)
                    (dispatch_meta-IsFine _ clean facts.0 (λ _. (facts.1, facts.2)) h')))
        ]
      ])
