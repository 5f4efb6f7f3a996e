-- ===== src/Files/Data/Acknowledging.antt =====
-- What the receiver acknowledges.
use neko_chat.Common.{
  ℕ, ◌+◌, ◌-◌, ◌<◌, ◌≡◌, refl, sym, ap, ◌∙◌, ◌||◌, some, [], ◌∷◌, ◌++◌, length, take, drop,
  replicate, ltb, leb, ◌==◌, arith, Bool-cases, Option-cases, ◌⊎◌, inl, inr, take-append_left,
  drop-append_left, length-append, length-take, length-replicate, Option, true,
}
use neko_chat.Common.Text.{Bytes}
use neko_chat.Common.Assoc.{bytes_key, lookup, modify, erase, lookup-modify_self, lookup-put_self}
use neko_chat.Files.Packets.{build_file_ack_packet, build_file_reject_packet}
use neko_chat.Files.Disk.{Disk, next_ok, close, rename, splice, content_of}
use neko_chat.Files.Disk.Reliable.{FlushesAll, files-close}
use neko_chat.Files.State.{Incoming, Completed, Transfers, send_buffer_to_peer}
use neko_chat.Files.Prefix.Writes.{files-write_at, files-rename}
use neko_chat.Files.Prefix.Steps.{nil_of_length}
use neko_chat.Files.Link.Receiving.{write_payload-FlushesAll}
use neko_chat.Files.Data.{
  chunk_size, finish_transfer, write_ok, write_payload, count_chunk, is_complete, write_chunk,
  accept_chunk, dispatch_data,
}

-- The file at a path has these bytes from a position on.
abbrev pub HasBytes : Bytes → ℕ → Bytes → Disk → Type 0
HasBytes path pos bytes d =
    take (length bytes) (drop pos (content_of (lookup path d.files))) ≡ bytes

splice_lem :
    (content : Bytes) (pos : ℕ) (bytes : Bytes)
    → take (length bytes) (drop pos (splice content pos bytes)) ≡ bytes
unfolding splice
splice_lem content pos bytes =
    let padded = content ++ replicate (pos - length content) 0 in
    let reached : length (take pos padded) ≡ pos = omega (
      arith,
      length-take pos padded,
      length-append content (replicate (pos - length content) 0),
      length-replicate {A = ℕ} (pos - length content) 0,
    ) in
    let rest = bytes ++ drop (pos + length bytes) content in
    ap (λ (n : ℕ). take (length bytes) (drop n (take pos padded ++ rest))) (sym reached)
    ∙ ap (take (length bytes)) (drop-append_left (take pos padded) rest)
    ∙ take-append_left bytes (drop (pos + length bytes) content)

no_bytes : (bytes content : Bytes) → bytes ≡ [] → take (length bytes) content ≡ bytes
no_bytes bytes content e = ap (λ (b : Bytes). take (length b) content) e ∙ nothing content ∙ sym e
  where
    nothing : (xs : Bytes) → take 0 xs ≡ []
    nothing xs = refl

-- A write that succeeds.
write_payload-HasBytes :
    (payload : Bytes) (t : Incoming) (d : Disk)
    → write_ok payload d ≡ true
    → HasBytes t.temp_path t.stream_pos payload (write_payload payload t d)
unfolding write_ok write_payload
write_payload-HasBytes payload t d ok = elim (Bool-cases (length payload == 0)) [
  | inl e ↦ rw e (no_bytes payload _ (nil_of_length payload e))
  | inr e ↦
      let content = content_of (lookup t.temp_path d.files) in
      rw e (
        ap (λ (o : Option Bytes). take (length payload) (drop t.stream_pos (content_of o)))
          (ap (lookup t.temp_path) (files-write_at t.temp_path t.stream_pos payload d (rw e at ok))
            ∙ lookup-put_self t.temp_path _ d.files)
        ∙ splice_lem content t.stream_pos payload)
]

-- A file that is closed and renamed keeps its bytes.
renamed-HasBytes :
    (from to : Bytes) (pos : ℕ) (bytes : Bytes) (d : Disk)
    → FlushesAll d
    → next_ok (close from d) ≡ true
    → HasBytes from pos bytes d
    → HasBytes to pos bytes (rename from to (close from d))
renamed-HasBytes from to pos bytes d flushes ok h =
    let at_path = λ (o : Option Bytes). take (length bytes) (drop pos (content_of o)) in
    ap at_path (
      ap (lookup to) (files-rename from to (close from d) ok)
      ∙ lookup-put_self to _ (erase from (close from d).files))
    ∙ ap at_path (ap some (ap (λ x. content_of (lookup from x)) (files-close from d flushes)))
    ∙ h

module _ (peer_id key : Bytes) (transfer_id chunk_index now : ℕ) where
  -- The answer to a chunk: none, a refusal, or an acknowledgement, which `K` is the reason for.
  abbrev pub Answer : Type 0 → Transfers → Transfers → Type 0
  Answer K s s' =
      (s'.sent ≡ s.sent)
      ⊎ ((s'.sent ≡ s.sent ++ (peer_id, build_file_reject_packet transfer_id) ∷ [])
          ⊎ ((s'.sent ≡ s.sent ++ (peer_id, build_file_ack_packet transfer_id chunk_index) ∷ [])
              × K))

  Answer-map : {K L : Type 0} (s s' : Transfers) → (K → L) → Answer K s s' → Answer L s s'
  Answer-map s s' f (inl h) = inl h
  Answer-map s s' f (inr (inl h)) = inr (inl h)
  Answer-map s s' f (inr (inr h)) = inr (inr (h.0, f h.1))

  module _ (payload : Bytes) where
    -- The chunk is in the finished file, or in the temporary one with the next chunk counted on.
    abbrev pub IsFinished : Bytes → ℕ → Transfers → Type 0
    IsFinished path pos s' =
        HasBytes path pos payload s'.disk × ((c : Completed) × (lookup key s'.completed ≡ some c))

    abbrev pub IsWritten : Incoming → Transfers → Type 0
    IsWritten t s' =
        HasBytes t.temp_path t.stream_pos payload s'.disk
        × ((t' : Incoming) × (lookup key s'.incoming ≡ some t')
            × (t'.next_chunk_index ≡ chunk_index + 1))

    -- The chunk of the transfer was stored before, or it is the next one and is now stored.
    abbrev pub IsKept : Incoming → Transfers → Type 0
    IsKept t s' =
        (chunk_index < t.next_chunk_index)
        ⊎ ((chunk_index ≡ t.next_chunk_index)
            × (IsWritten t s' ⊎ IsFinished t.final_path t.stream_pos s'))

    -- The transfer was complete before, or the chunk is stored.
    abbrev pub IsStored : Transfers → Transfers → Type 0
    IsStored s s' =
        ((c : Completed) × (lookup key s.completed ≡ some c) × (chunk_index < c.chunk_count))
        ⊎ ((t : Incoming) × (lookup key s.incoming ≡ some t) × IsKept t s')

    finish_transfer-Answer :
        (pos : ℕ) (t : Incoming) (s : Transfers)
        → FlushesAll s.disk
        → HasBytes t.temp_path pos payload s.disk
        → let s' = finish_transfer peer_id key transfer_id chunk_index t now s in
          Answer (IsFinished t.final_path pos s') s s'
    unfolding finish_transfer send_buffer_to_peer
    finish_transfer-Answer pos t s flushes h =
        let closed = close t.temp_path s.disk in
        elim (Bool-cases (next_ok closed)) [
          | inl ok ↦ rw ok (
              inr (
                inr (
                  refl,
                  (
                    renamed-HasBytes t.temp_path t.final_path pos payload s.disk flushes ok h,
                    (
                      record { chunk_count = t.chunk_count; completed_at = now },
                      lookup-put_self key _ s.completed,
                    ),
                  ),
                )))
          | inr bad ↦ rw bad (inl refl)
        ]

    module _ (t : Incoming) where
      write_chunk-Answer :
          (s : Transfers)
          → FlushesAll s.disk
          → lookup key s.incoming ≡ some t
          → chunk_index ≡ t.next_chunk_index
          → let s' = write_chunk peer_id key transfer_id chunk_index payload t now s in
            Answer (IsKept t s') s s'
      unfolding write_chunk send_buffer_to_peer count_chunk
      write_chunk-Answer s flushes e next =
          let t' = count_chunk (length payload) t in
          let written : Transfers = record s {
            disk = write_payload payload t s.disk;
            incoming = modify key (λ _. t') s.incoming;
          } in
          let flushes' = write_payload-FlushesAll payload t s.disk flushes in
          elim (Bool-cases (write_ok payload s.disk)) [
            | inr bad ↦ rw bad (inl refl)
            | inl ok ↦
                let held = write_payload-HasBytes payload t s.disk ok in
                elim (Bool-cases (is_complete t')) [
                  | inl done ↦
                      rw (ok, done)
                        (Answer-map written
                          (finish_transfer peer_id key transfer_id chunk_index t' now written)
                          (λ h. inr (next, inr h))
                          (finish_transfer-Answer t.stream_pos t' written flushes' held))
                  | inr more ↦
                      rw (ok, more)
                        (inr (
                          inr (
                            refl,
                            inr (
                              next,
                              inl (
                                held,
                                (t', lookup-modify_self key (λ _. t') s.incoming e, omega arith),
                              ),
                            ),
                          )))
                ]
          ]

      accept_chunk-Answer :
          (s : Transfers)
          → FlushesAll s.disk
          → lookup key s.incoming ≡ some t
          → let s' = accept_chunk peer_id key transfer_id chunk_index payload t now s in
            Answer (IsKept t s') s s'
      unfolding accept_chunk send_buffer_to_peer
      accept_chunk-Answer s flushes e =
          elim (Bool-cases (ltb t.next_chunk_index chunk_index || leb t.chunk_count chunk_index)) [
            | inl far ↦ rw far (inl refl)
            | inr near ↦ elim (Bool-cases (ltb chunk_index t.next_chunk_index)) [
              | inl old ↦ rw (near, old) (inr (inr (refl, inl (ground arith))))
              | inr new ↦
                  elim (Bool-cases (length payload == chunk_size t.total_size chunk_index)) [
                    | inl fits ↦
                        rw (near, new, fits) (write_chunk-Answer s flushes e (ground arith))
                    | inr wrong ↦ rw (near, new, wrong) (inl refl)
                  ]
            ]
          ]

    -- Where a close loses no bytes: whatever chunk arrives and whatever else fails on the disk, the
    -- receiver sends at most one packet, a refusal or an acknowledgement of this very chunk. It
    -- acknowledges the chunk only if its transfer was complete already, or the chunk was stored
    -- before, or it is the next one and its bytes are in the transfer's file, at the position of
    -- its stream: in the temporary file with the next chunk counted on, or in the finished file of
    -- a transfer that is now complete.
    pub dispatch_data-IsAnswer :
        (s : Transfers)
        → FlushesAll s.disk
        → let s' = dispatch_data peer_id key transfer_id chunk_index payload now s in
          Answer (IsStored s s') s s'
    unfolding dispatch_data send_buffer_to_peer
    dispatch_data-IsAnswer s flushes = elim (Option-cases (lookup key s.rejected)) [
      | inr (r, er) ↦ rw (er, dispatch_data) (inr (inl refl))
      | inl er ↦ elim (Option-cases (lookup key s.completed)) [
        | inr (c, ec) ↦ elim (Bool-cases (ltb chunk_index c.chunk_count)) [
          | inl known ↦
              rw (er, ec, known, dispatch_data) (inr (inr (refl, inl (c, refl, ground arith))))
          | inr other ↦ rw (er, ec, other, dispatch_data) (inl refl)
        ]
        | inl ec ↦ elim (Option-cases (lookup key s.incoming)) [
          | inl ei ↦ rw (er, ec, ei, dispatch_data) (inl refl)
          | inr (t, ei) ↦
              rw (er, ec, ei, dispatch_data)
                (let touched : Incoming = record t { last_update = now } in
                  let heard : Transfers = record s {
                    incoming = modify key (λ _. touched) s.incoming;
                  } in
                  Answer-map heard
                    (accept_chunk peer_id key transfer_id chunk_index payload touched now heard)
                    (λ h. inr (t, refl, h))
                    (accept_chunk-Answer touched heard flushes
                      (lookup-modify_self key (λ _. touched) s.incoming ei)))
        ]
      ]
    ]
