-- ===== src/Files/Link/Receiving.antt =====
-- HandleIncomingFilePacket on the chunks of a transfer, and what its acknowledgements mean.
use neko_chat.Common.{
  ℕ, ◌+◌, ◌-◌, ◌<◌, ◌^◌, ◌≡◌, ◌≢◌, refl, sym, ap, ◌∙◌, subst, Bool, true, ◌||◌, some, [], ◌∷◌, drop,
  length, ltb, leb, ◌==◌, ◌⊎◌, inl, inr, All, All-map, All-append, arith, Bool-cases, Option-cases,
  some_inj, if_either,
}
use neko_chat.Common.Text.{Bytes}
use neko_chat.Common.Assoc.{
  Map, bytes_key, lookup, erase, put, keep, lookup-modify_self, erase-modify,
}
use neko_chat.Wire.Words.{load8, load32}
use neko_chat.Wire.Order.{htonl-lt}
use neko_chat.Files.Names.{make_incoming_file_key}
use neko_chat.Files.Packets.{
  FileChunkHeader, read_chunk_header, build_file_ack_packet, build_file_reject_packet,
}
use neko_chat.Files.Packets.RoundTrip.{read_ack-build}
use neko_chat.Files.Disk.{Disk, next_ok, close}
use neko_chat.Files.Disk.Reliable.{
  FlushesAll, close-FlushesAll, rename-FlushesAll, remove-FlushesAll, write_at-FlushesAll,
}
use neko_chat.Files.State.{Incoming, Prompt, Transfers, send_buffer_to_peer}
use neko_chat.Files.Chunks.{file_chunk_count, chunk_of}
use neko_chat.Files.Cleanup.{expire_incoming, cleanup_file_transfers}
use neko_chat.Files.Data.{
  chunk_size, write_ok, write_payload, count_chunk, is_complete, write_chunk, finish_transfer,
  accept_chunk, dispatch_data, handle_data,
}
use neko_chat.Files.Receiver.{handle_incoming_file_packet}
use neko_chat.Files.Prefix.{HoldsPrefix, IsGenuine}
use neko_chat.Files.Prefix.Tables.{All-lookup, All-erase, All-modify}
use neko_chat.Files.Prefix.Writes.{content-rename}
use neko_chat.Files.Prefix.Expiry.{All-expire, cleanup-IsGenuine}
use neko_chat.Files.Prefix.Main.{CarriesChunk}
use neko_chat.Files.Link.{after}
use neko_chat.Files.Prefix.Steps.{
  dispatch_data-IsGenuine, count_chunk-HoldsPrefix, next_index, touch-IsGenuine,
}
use neko_chat.Files.Prefix.Completion.{complete_of_count, content-close}

All-keep :
    {V : Type 0} (P : Bytes × V → Type 0) (test : V → Bool) (m : Map Bytes V)
    → All P m
    → All P (keep test m)
unfolding keep
All-keep P test [] h = tt
All-keep P test ((k, v) ∷ m) h = elim (Bool-cases (test v)) [
  | inl e ↦ rw e (h.0, All-keep P test m h.1)
  | inr e ↦ rw e (All-keep P test m h.1)
]

pub write_payload-FlushesAll :
    (payload : Bytes) (t : Incoming) (d : Disk)
    → FlushesAll d
    → FlushesAll (write_payload payload t d)
unfolding write_payload
write_payload-FlushesAll payload t d h =
    if_either FlushesAll (length payload == 0) _ _ h
      (write_at-FlushesAll t.temp_path t.stream_pos payload d h)

expire-FlushesAll :
    (now : ℕ) (m : Map Bytes Incoming) (d : Disk)
    → FlushesAll d
    → FlushesAll (expire_incoming now m d).1
unfolding expire_incoming
expire-FlushesAll now [] d h = h
expire-FlushesAll now ((k, t) ∷ m) d h = expire-FlushesAll now m _ (
    if_either FlushesAll (ltb 20000 (now - t.last_update)) _ _ (remove-FlushesAll t.temp_path d h)
      h)

pub file_chunk_count_pos : (n : ℕ) → 0 < file_chunk_count n
unfolding file_chunk_count
file_chunk_count_pos n = omega arith

complete_counts : (t : Incoming) → is_complete t ≡ true → t.next_chunk_index ≡ t.chunk_count
unfolding is_complete
complete_counts t h = ground arith

below : (n c : ℕ) → n < c → n + 1 ≢ c → n + 1 < c
below n c h k = omega arith

not_before : (i n c : ℕ) → ltb i n ≡ true → n < c → i + 1 ≢ c
not_before i n c h k e = absurd (ground arith)

-- The transfer `tid` of the peer, which sends the file `source` of its key.
module _ (source : Bytes → Bytes) (peer_id : Bytes) (tid : ℕ) where
  abbrev pub own_key : Bytes
  own_key = make_incoming_file_key peer_id tid

  abbrev pub last_chunk : ℕ
  last_chunk = file_chunk_count (length (source own_key)) - 1

  -- The whole file stands at some path.
  abbrev pub HasFile : Transfers → Type 0
  HasFile s = (path : Bytes) × (lookup path s.disk.files ≡ some (source own_key))

  abbrev pub IsLastAck : Bytes → Type 0
  IsLastAck packet =
      (load8 (drop 1 packet) 0 ≡ some 3)
      × (read_chunk_header (drop 1 packet)
          ≡ some (record { transfer_id = tid; chunk_index = last_chunk }))

  abbrev pub IsUnfinished : Bytes → Incoming → Type 0
  IsUnfinished k t = (k ≡ own_key) × (t.next_chunk_index < t.chunk_count)

  abbrev pub IsAsked : Bytes → Prompt → Type 0
  IsAsked k p =
      k ≡ own_key
      → (p.total_size ≡ length (source own_key))
        × (p.chunk_count ≡ file_chunk_count (length (source own_key)))

  -- Only this transfer is under way, and it does not have all its chunks; a prompt for it announces
  -- its file; `D` holds if the transfer is in the completed ones or its last chunk has been
  -- acknowledged; and a close loses no bytes.
  pub record IsSound (D : Type 0) (s : Transfers) : Type 0 where
    pub unfinished : All (λ e. IsUnfinished e.0 e.1) s.incoming
    pub asked : All (λ e. IsAsked e.0 e.1) s.pending
    pub finished : All (λ e. e.0 ≡ own_key → D) s.completed
    pub answered : All (λ e. IsLastAck e.1 → D) s.sent
    pub flushes : FlushesAll s.disk

  pub IsSound-map : {D E : Type 0} (s : Transfers) → (D → E) → IsSound D s → IsSound E s
  IsSound-map s f h = record {
    unfinished = h.unfinished;
    asked = h.asked;
    finished = All-map _ _ (λ e g k. f (g k)) s.completed h.finished;
    answered = All-map _ _ (λ e g k. f (g k)) s.sent h.answered;
    flushes = h.flushes;
  }

  -- The table of refusals plays no part.
  pub IsSound-rejected :
      {D : Type 0} (s : Transfers) (r : Map Bytes ℕ)
      → IsSound D s
      → IsSound D (record s { rejected = r })
  IsSound-rejected s r h = record {
    unfinished = h.unfinished;
    asked = h.asked;
    finished = h.finished;
    answered = h.answered;
    flushes = h.flushes;
  }

  pub cleanup-IsSound :
      {D : Type 0} (now : ℕ) (s : Transfers)
      → IsSound D s
      → IsSound D (cleanup_file_transfers now s)
  unfolding cleanup_file_transfers
  cleanup-IsSound now s h = record {
    unfinished = All-expire now _ s.incoming s.disk h.unfinished;
    asked = All-keep _ _ s.pending h.asked;
    finished = All-keep _ _ s.completed h.finished;
    answered = h.answered;
    flushes = expire-FlushesAll now s.incoming s.disk h.flushes;
  }

  module _ (D : Type 0) (u i now : ℕ) (fits : u < 2 ^ 32) (fits' : i < 2 ^ 32) where
    abbrev key : Bytes
    key = make_incoming_file_key peer_id u

    -- An acknowledgement of the last chunk of this transfer answers just that chunk.
    last_ack : IsLastAck (build_file_ack_packet u i) → (key ≡ own_key) × (i ≡ last_chunk)
    last_ack a =
        let e = some_inj (sym (read_ack-build u i fits fits') ∙ a.1) in
        (
          ap (λ (h : FileChunkHeader). make_incoming_file_key peer_id h.transfer_id) e,
          ap (λ (h : FileChunkHeader). h.chunk_index) e,
        )

    pub acknowledged :
        {E : Type 0} (s : Transfers)
        → ((key ≡ own_key) × (i ≡ last_chunk) → E)
        → IsSound E s
        → IsSound E (send_buffer_to_peer peer_id (build_file_ack_packet u i) s)
    unfolding send_buffer_to_peer
    acknowledged s last h = record {
      unfinished = h.unfinished;
      asked = h.asked;
      finished = h.finished;
      answered = All-append _ s.sent _ h.answered ((λ a. last (last_ack a)), tt);
      flushes = h.flushes;
    }

    pub refused :
        {E : Type 0} (s : Transfers)
        → IsSound E s
        → IsSound E (send_buffer_to_peer peer_id (build_file_reject_packet u) s)
    unfolding send_buffer_to_peer build_file_reject_packet load8
    refused s h = record {
      unfinished = h.unfinished;
      asked = h.asked;
      finished = h.finished;
      answered = All-append _ s.sent _ h.answered ((λ a. absurd (omega (arith, some_inj a.0))), tt);
      flushes = h.flushes;
    }

    finish_transfer-IsSound :
        (t : Incoming) (s : Transfers)
        → lookup t.temp_path s.disk.files ≡ some (source key)
        → All (λ e. IsUnfinished e.0 e.1) (erase key s.incoming)
        → All (λ e. IsAsked e.0 e.1) s.pending
        → All (λ e. e.0 ≡ own_key → D) s.completed
        → All (λ e. IsLastAck e.1 → D) s.sent
        → FlushesAll s.disk
        → let s' = finish_transfer peer_id key u i t now s in IsSound (D ⊎ HasFile s') s'
    unfolding finish_transfer put send_buffer_to_peer
    finish_transfer-IsSound t s whole others asked finished answered flushes =
        let closed = close t.temp_path s.disk in
        let renamed =
          rename-FlushesAll t.temp_path t.final_path closed
            (close-FlushesAll t.temp_path s.disk flushes) in
        elim (Bool-cases (next_ok closed)) [
          | inr bad ↦ rw bad (record {
            unfinished = others;
            asked = asked;
            finished = All-map _ _ (λ e g k. inl (g k)) s.completed finished;
            answered = All-map _ _ (λ e g k. inl (g k)) s.sent answered;
            flushes = remove-FlushesAll t.temp_path _ renamed;
          })
          | inl ok ↦
              let content =
                content-rename t.temp_path t.final_path (source key) closed ok
                  (content-close t.temp_path (source key) s.disk flushes whole) in
              rw ok (
                acknowledged _
                  (λ l. inr (t.final_path, content ∙ ap (λ (k : Bytes). some (source k)) l.0))
                  (record {
                    unfinished = others;
                    asked = asked;
                    finished = (
                      (λ e. inr (t.final_path, content ∙ ap (λ (k : Bytes). some (source k)) e)),
                      All-erase (λ k _. k ≡ own_key → _) key s.completed
                          (All-map _ _ (λ e g k. inl (g k)) s.completed finished),
                    );
                    answered = All-map _ _ (λ e g k. inl (g k)) s.sent answered;
                    flushes = renamed;
                  }))
        ]

    -- The last chunk by the number of chunks.
    last_counts :
        (n c : ℕ)
        → i ≡ n
        → c ≡ file_chunk_count (length (source key))
        → (key ≡ own_key) × (i ≡ last_chunk)
        → n + 1 ≡ c
    last_counts n c at_n count l = omega (
      arith,
      l.1,
      file_chunk_count_pos (length (source own_key)),
      ap (λ (k : Bytes). file_chunk_count (length (source k))) l.0,
    )

    -- The next chunk of a transfer. After the write the transfer has all its chunks only if it is
    -- complete.
    write_chunk-IsSound :
        (t : Incoming) (s : Transfers)
        → IsGenuine source s
        → lookup key s.incoming ≡ some t
        → i ≡ t.next_chunk_index
        → t.next_chunk_index < t.chunk_count
        → IsSound D s
        → let s' = write_chunk peer_id key u i (chunk_of (source key) t.next_chunk_index) t now s in
          IsSound (D ⊎ HasFile s') s'
    unfolding write_chunk count_chunk
    write_chunk-IsSound t s g e next more h =
        let file = source key in
        let payload = chunk_of file t.next_chunk_index in
        let t' = count_chunk (length payload) t in
        let written = write_payload-FlushesAll payload t s.disk h.flushes in
        let holds = All-lookup (λ k v. HoldsPrefix (source k) s.disk v) key s.incoming g.holds e in
        elim (Bool-cases (write_ok payload s.disk)) [
          | inr bad ↦ rw bad (record {
            unfinished = All-erase IsUnfinished key s.incoming h.unfinished;
            asked = h.asked;
            finished = All-map _ _ (λ e g k. inl (g k)) s.completed h.finished;
            answered = All-map _ _ (λ e g k. inl (g k)) s.sent h.answered;
            flushes = remove-FlushesAll t.temp_path _ written;
          })
          | inl ok ↦
              let now_holds = count_chunk-HoldsPrefix file s.disk t holds more ok in
              let done = complete_of_count file _ t' now_holds in
              elim (Bool-cases (is_complete t')) [
                | inl all ↦
                    let counted : t'.next_chunk_index ≡ t'.chunk_count = complete_counts t' all in
                    rw (ok, all)
                      (finish_transfer-IsSound t' _ (now_holds.content ∙ ap some (done counted).1)
                        (subst (λ (m : Map Bytes Incoming). All (λ e. IsUnfinished e.0 e.1) m)
                          (sym (erase-modify key (λ _. t') s.incoming))
                          (All-erase IsUnfinished key s.incoming h.unfinished))
                        h.asked h.finished h.answered written)
                | inr going ↦
                    let short : t.next_chunk_index + 1 ≢ t.chunk_count = λ q. cc ((done q).0) in
                    rw (ok, going)
                      (acknowledged _
                        (λ l.
                          absurd (
                            short
                              (last_counts t.next_chunk_index t.chunk_count next holds.count l)))
                        (record {
                          unfinished =
                              All-modify IsUnfinished key (λ _. t') s.incoming
                                (λ _ _ q. (q.0, below t.next_chunk_index t.chunk_count more short))
                                h.unfinished;
                          asked = h.asked;
                          finished = All-map _ _ (λ e g k. inl (g k)) s.completed h.finished;
                          answered = All-map _ _ (λ e g k. inl (g k)) s.sent h.answered;
                          flushes = written;
                        }))
              ]
        ]

    accept_chunk-IsSound :
        (payload : Bytes) (t : Incoming) (s : Transfers)
        → payload ≡ chunk_of (source key) i
        → IsGenuine source s
        → lookup key s.incoming ≡ some t
        → IsSound D s
        → let s' = accept_chunk peer_id key u i payload t now s in IsSound (D ⊎ HasFile s') s'
    unfolding accept_chunk
    accept_chunk-IsSound payload t s p g e h =
        let unfinished = (All-lookup IsUnfinished key s.incoming h.unfinished e).1 in
        let holds = All-lookup (λ k v. HoldsPrefix (source k) s.disk v) key s.incoming g.holds e in
        elim (Bool-cases (ltb t.next_chunk_index i || leb t.chunk_count i)) [
          | inl far ↦ rw far (IsSound-map s inl h)
          | inr near ↦ elim (Bool-cases (ltb i t.next_chunk_index)) [
            | inl old ↦
                rw (near, old)
                  (acknowledged s
                    (λ l. absurd (
                      not_before i t.next_chunk_index t.chunk_count old unfinished
                        (last_counts i t.chunk_count refl holds.count l)))
                    (IsSound-map s inl h))
            | inr new ↦ elim (Bool-cases (length payload == chunk_size t.total_size i)) [
              | inr wrong ↦ rw (near, new, wrong) (IsSound-map s inl h)
              | inl right ↦
                  let at_next = next_index i t.next_chunk_index t.chunk_count near new in
                  rw (near, new, right)
                    (subst
                      (λ (x : Bytes).
                        let s' = write_chunk peer_id key u i x t now s in
                        IsSound (D ⊎ HasFile s') s')
                      (ap (chunk_of (source key)) (sym at_next.0) ∙ sym p)
                      (write_chunk-IsSound t s g e at_next.0 at_next.1 h))
            ]
          ]
        ]

    -- A chunk of the peer's file, whichever table knows its transfer.
    pub dispatch_data-IsSound :
        (payload : Bytes) (s : Transfers)
        → payload ≡ chunk_of (source key) i
        → IsGenuine source s
        → IsSound D s
        → let s' = dispatch_data peer_id key u i payload now s in IsSound (D ⊎ HasFile s') s'
    unfolding dispatch_data
    dispatch_data-IsSound payload s p g h = elim (Option-cases (lookup key s.rejected)) [
      | inr (r, er) ↦
          rw (er, dispatch_data) (refused _ (IsSound-rejected s _ (IsSound-map s inl h)))
      | inl er ↦ elim (Option-cases (lookup key s.completed)) [
        | inr (c, ec) ↦ elim (Bool-cases (ltb i c.chunk_count)) [
          | inr other ↦ rw (er, ec, other, dispatch_data) (IsSound-map s inl h)
          | inl known ↦
              rw (er, ec, known, dispatch_data)
                (acknowledged s
                  (λ l. inl (All-lookup (λ k _. k ≡ own_key → D) key s.completed h.finished ec l.0))
                  (IsSound-map s inl h))
        ]
        | inl ec ↦ elim (Option-cases (lookup key s.incoming)) [
          | inl ei ↦ rw (er, ec, ei, dispatch_data) (IsSound-map s inl h)
          | inr (t, ei) ↦
              let touched : Incoming = record t { last_update = now } in
              rw (er, ec, ei, dispatch_data)
                (accept_chunk-IsSound payload touched _ p
                  (touch-IsGenuine source peer_id key u i now t s g ei)
                  (lookup-modify_self key (λ _. touched) s.incoming ei)
                  (record {
                    unfinished =
                        All-modify IsUnfinished key (λ _. touched) s.incoming
                          (λ _ _ q.
                            (q.0, (All-lookup IsUnfinished key s.incoming h.unfinished ei).1))
                          h.unfinished;
                    asked = h.asked;
                    finished = h.finished;
                    answered = h.answered;
                    flushes = h.flushes;
                  }))
        ]
      ]
    ]

pub read_chunk_header-lt :
    (bytes : Bytes) {h : FileChunkHeader}
    → read_chunk_header bytes ≡ some h
    → (h.transfer_id < 2 ^ 32) × (h.chunk_index < 2 ^ 32)
unfolding read_chunk_header
read_chunk_header-lt bytes {h = h} e = elim (Option-cases (load32 bytes 1)) [
  | inl none_t ↦ absurd (cc)
  | inr (t, et) ↦ elim (Option-cases (load32 bytes 5)) [
    | inl none_i ↦ absurd (cc)
    | inr (i, ei) ↦
        let read = some_inj (rw (et, ei) at e) in
        (
          subst (λ (x : FileChunkHeader). x.transfer_id < 2 ^ 32) read (htonl-lt t),
          subst (λ (x : FileChunkHeader). x.chunk_index < 2 ^ 32) read (htonl-lt i),
        )
  ]
]

handle_chunk :
    (peer_id bytes : Bytes) (now : ℕ) (s : Transfers)
    → load8 bytes 0 ≡ some 2
    → handle_incoming_file_packet peer_id bytes now s
      ≡ handle_data peer_id bytes now (cleanup_file_transfers now s)
unfolding handle_incoming_file_packet load8
handle_chunk peer_id [] now s e = absurd (cc)
handle_chunk peer_id (kind ∷ rest) now s e = let two : kind ≡ 2 = some_inj e in rw two refl

-- A packet with a chunk of the sender's, handled: the state stays sound, where the reasons now
-- include that the file is there.
module _ (source : Bytes → Bytes) (peer_id : Bytes) (tid : ℕ) {D : Type 0} where
  pub receive-IsSound :
      (bytes : Bytes) (now : ℕ) (s : Transfers)
      → load8 bytes 0 ≡ some 2
      → CarriesChunk source peer_id bytes
      → IsGenuine source s
      → IsSound source peer_id tid D s
      → let s' = after s (handle_incoming_file_packet peer_id bytes now s) in
        IsGenuine source s' × IsSound source peer_id tid (D ⊎ HasFile source peer_id tid s') s'
  unfolding handle_data
  receive-IsSound bytes now s kind carries g h =
      let clean = cleanup_file_transfers now s in
      let g' = cleanup-IsGenuine now source s g in
      let h' = cleanup-IsSound source peer_id tid now s h in
      rw (handle_chunk peer_id bytes now s kind) (elim (Bool-cases (ltb (length bytes) 9)) [
        | inl short ↦ rw short (g', IsSound-map source peer_id tid clean inl h')
        | inr long ↦ elim (Option-cases (read_chunk_header bytes)) [
          | inl missing ↦ rw (long, missing) (g, IsSound-map source peer_id tid s inl h)
          | inr (head, e) ↦
              let fits = read_chunk_header-lt bytes e in
              let u = head.transfer_id in
              let i = head.chunk_index in
              rw (long, e)
                (
                  dispatch_data-IsGenuine source peer_id (make_incoming_file_key peer_id u) u i now
                      (drop 9 bytes) clean (carries head e) g',
                  dispatch_data-IsSound source peer_id tid D u i now fits.0 fits.1 (drop 9 bytes)
                      clean (carries head e) g' h',
                )
        ]
      ])
