-- ===== src/Files/Prefix/Completion.antt =====
-- The last chunk in HandleIncomingFilePacket.
use neko_chat.Common.{
  ℕ, ◌+◌, ◌≡◌, refl, sym, ap, ◌∙◌, Bool, true, false, ◌||◌, none, some, [], ◌∷◌, ◌++◌, length, ltb,
  leb, ◌==◌, arith, Bool-cases, inl, inr, ==_iff,
}
use neko_chat.Common.Text.{Bytes}
use neko_chat.Common.Assoc.{bytes_key, lookup, modify, lookup-put_self, lookup-erase_self}
use neko_chat.Files.Packets.{build_file_ack_packet}
use neko_chat.Files.Disk.{Disk, close}
use neko_chat.Files.Disk.Reliable.{
  IsReliable, FlushesAll, next_ok-IsReliable, write_at-IsReliable, close-IsReliable, files-close,
}
use neko_chat.Files.State.{Incoming, Transfers, send_buffer_to_peer}
use neko_chat.Files.Chunks.{chunk_of, prefix_of, prefix_of-count, length-chunk_of}
use neko_chat.Files.Data.{
  chunk_size, write_ok, write_payload, count_chunk, is_complete, write_chunk, finish_transfer,
  accept_chunk, dispatch_data,
}
use neko_chat.Files.Prefix.{HoldsPrefix, IsGenuine}
use neko_chat.Files.Prefix.Tables.{All-lookup}
use neko_chat.Files.Prefix.Writes.{content-rename}
use neko_chat.Files.Prefix.Steps.{count_chunk-HoldsPrefix}

write_payload-IsReliable :
    (payload : Bytes) (t : Incoming) (d : Disk)
    → IsReliable d
    → IsReliable (write_payload payload t d)
unfolding write_payload
write_payload-IsReliable payload t d h = elim (Bool-cases (length payload == 0)) [
  | inl e ↦ rw e h
  | inr e ↦ rw e (write_at-IsReliable t.temp_path t.stream_pos payload d h)
]

pub content-close :
    (path content : Bytes) (d : Disk)
    → FlushesAll d
    → lookup path d.files ≡ some content
    → lookup path (close path d).files ≡ some content
content-close path content d r h = ap (lookup path) (files-close path d r) ∙ h

or_true : (b : Bool) → (b || true) ≡ true
or_true b = ground arith

pub write_ok-IsReliable : (payload : Bytes) (d : Disk) → IsReliable d → write_ok payload d ≡ true
unfolding write_ok
write_ok-IsReliable payload d h = rw (next_ok-IsReliable d h) (or_true (length payload == 0))

-- The counts of a transfer that holds its whole file.
pub complete_of_count :
    (file : Bytes) (d : Disk) (t : Incoming)
    → HoldsPrefix file d t
    → t.next_chunk_index ≡ t.chunk_count
    → (is_complete t ≡ true) × (prefix_of file t.next_chunk_index ≡ file)
unfolding is_complete
complete_of_count file d t h e =
    let whole : prefix_of file t.next_chunk_index ≡ file =
      ap (prefix_of file) (e ∙ h.count) ∙ prefix_of-count file in
    (ground (arith, e, h.written, ap length whole, h.total), whole)

last_index : (n c : ℕ) → n + 1 ≡ c → ((ltb n n || leb c n) ≡ false) × (ltb n n ≡ false)
last_index n c e = (ground arith, ground arith)

pub next-count_chunk :
    (n : ℕ) (t : Incoming) → (count_chunk n t).next_chunk_index ≡ t.next_chunk_index + 1
unfolding count_chunk
next-count_chunk n t = refl

pub count-count_chunk : (n : ℕ) (t : Incoming) → (count_chunk n t).chunk_count ≡ t.chunk_count
unfolding count_chunk
count-count_chunk n t = refl

module _ (peer_id key : Bytes) (transfer_id now : ℕ) where
  -- The next chunk, when it is the last, goes through to the end of the handler.
  last_chunk_accepted :
      (file : Bytes) (t : Incoming) (s : Transfers)
      → HoldsPrefix file s.disk t
      → IsReliable s.disk
      → t.next_chunk_index + 1 ≡ t.chunk_count
      → let payload = chunk_of file t.next_chunk_index in
        let t' = count_chunk (length payload) t in
        accept_chunk peer_id key transfer_id t.next_chunk_index payload t now s
        ≡ finish_transfer peer_id key transfer_id t.next_chunk_index t' now (record s {
          disk = write_payload payload t s.disk;
          incoming = modify key (λ _. t') s.incoming;
        })
  unfolding accept_chunk write_chunk
  last_chunk_accepted file t s h r e =
      let n = t.next_chunk_index in
      let payload = chunk_of file n in
      let size = length payload in
      let ok = write_ok-IsReliable payload s.disk r in
      let holds = count_chunk-HoldsPrefix file s.disk t h (omega arith) ok in
      let right : (size == chunk_size t.total_size n) ≡ true =
        (==_iff size (chunk_size t.total_size n)).1
          (length-chunk_of file n ∙ ap (λ (z : ℕ). chunk_size z n) (sym h.total)) in
      let done =
        complete_of_count file _ (count_chunk size t) holds
          (next-count_chunk size t ∙ e ∙ sym (count-count_chunk size t)) in
      rw ((last_index n t.chunk_count e).0, (last_index n t.chunk_count e).1, right, ok, done.0)
        refl

  -- Finishing a transfer that holds its whole file.
  finish_transfer_lem :
      (content : Bytes) (i : ℕ) (t : Incoming) (s : Transfers)
      → IsReliable s.disk
      → lookup t.temp_path s.disk.files ≡ some content
      → let s' = finish_transfer peer_id key transfer_id i t now s in
        (lookup t.final_path s'.disk.files ≡ some content)
        × (lookup key s'.completed
            ≡ some (record { chunk_count = t.chunk_count; completed_at = now }))
        × (lookup key s'.incoming ≡ none)
        × (s'.sent ≡ s.sent ++ (peer_id, build_file_ack_packet transfer_id i) ∷ [])
  unfolding finish_transfer send_buffer_to_peer
  finish_transfer_lem content i t s r h =
      let closed = close t.temp_path s.disk in
      let ok = next_ok-IsReliable closed (close-IsReliable t.temp_path s.disk r) in
      rw ok (
        content-rename t.temp_path t.final_path content closed ok
            (content-close t.temp_path content s.disk r.1 h),
        lookup-put_self key _ s.completed,
        lookup-erase_self key s.incoming,
        refl,
      )

  -- On a disk that does not fail, and where each file under way holds the chunks received so far,
  -- the last missing chunk of a transfer that is neither refused nor completed puts the whole file
  -- of the sender under its final name, moves the transfer from the table of unfinished ones to the
  -- completed ones, and is acknowledged.
  pub last_chunk_completes :
      (source : Bytes → Bytes) (t : Incoming) (s : Transfers)
      → IsGenuine source s
      → IsReliable s.disk
      → lookup key s.rejected ≡ none
      → lookup key s.completed ≡ none
      → lookup key s.incoming ≡ some t
      → t.next_chunk_index + 1 ≡ t.chunk_count
      → let s' =
          dispatch_data peer_id key transfer_id t.next_chunk_index
            (chunk_of (source key) t.next_chunk_index)
            now
            s in
        (lookup t.final_path s'.disk.files ≡ some (source key))
        × (lookup key s'.completed
            ≡ some (record { chunk_count = t.chunk_count; completed_at = now }))
        × (lookup key s'.incoming ≡ none)
        × (s'.sent ≡ s.sent ++ (peer_id, build_file_ack_packet transfer_id t.next_chunk_index) ∷ [])
  unfolding dispatch_data count_chunk
  last_chunk_completes source t s g r er ec ei e =
      let file = source key in
      let n = t.next_chunk_index in
      let size = length (chunk_of file n) in
      let touched : Incoming = record t { last_update = now } in
      let s1 : Transfers = record s { incoming = modify key (λ _. touched) s.incoming } in
      let h = All-lookup (λ k u. HoldsPrefix (source k) s.disk u) key s.incoming g.holds ei in
      let h1 : HoldsPrefix file s.disk touched = record {
        total = h.total;
        count = h.count;
        begun = h.begun;
        written = h.written;
        position = h.position;
        content = h.content;
        renames = h.renames;
      } in
      let ok = write_ok-IsReliable (chunk_of file n) s.disk r in
      let holds = count_chunk-HoldsPrefix file s.disk touched h1 (omega arith) ok in
      let done =
        complete_of_count file _ (count_chunk size touched) holds
          (next-count_chunk size touched ∙ e ∙ sym (count-count_chunk size touched)) in
      rw (er, ec, ei, dispatch_data)
        (rw (last_chunk_accepted file touched s1 h1 r e) (
          finish_transfer_lem file n (count_chunk size touched) _
            (write_payload-IsReliable (chunk_of file n) touched s.disk r)
            (holds.content ∙ ap some done.1)))
