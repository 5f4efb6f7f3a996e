-- ===== src/Files/Data.antt =====
-- The data branch of HandleIncomingFilePacket.
pub mod Acknowledging
use neko_chat.Common.{
  Bool, ℕ, ◌+◌, ◌-◌, ◌*◌, ◌&&◌, ◌||◌, not, Option, none, some, drop, length, min, ltb, leb, ◌==◌,
  if◌then◌else◌,
}
use neko_chat.Common.Text.{Bytes}
use neko_chat.Common.Assoc.{nat_key, bytes_key, lookup, put, erase, modify}
use neko_chat.Files.Names.{make_incoming_file_key}
use neko_chat.Files.Packets.{file_chunk_payload, chunk_header_size, read_chunk_header, ◌>>=◌}
use neko_chat.Files.Disk.{Disk, next_ok, remove, write_at, close, rename}
use neko_chat.Files.State.{Incoming, Transfers}
use neko_chat.Files.Answers.{respond_ack, respond_reject}

-- The size of a chunk: what is left of the file, one payload at most.
unfoldable pub chunk_size : ℕ → ℕ → ℕ
chunk_size total_size chunk_index =
    let remaining =
      if ltb (chunk_index * file_chunk_payload) total_size
      then total_size - chunk_index * file_chunk_payload
      else 0 in
    min file_chunk_payload remaining

-- The last chunk is written: the stream is closed, and the file gets its name.
unfoldable pub finish_transfer : Bytes → Bytes → ℕ → ℕ → Incoming → ℕ → Transfers → Transfers
finish_transfer peer_id transfer_key transfer_id chunk_index t now s =
    let closed = close t.temp_path s.disk in
    let renamed = record s {
      disk = rename t.temp_path t.final_path closed;
      incoming = erase transfer_key s.incoming;
    } in
    if next_ok closed
    then respond_ack peer_id transfer_id chunk_index (record renamed {
      completed =
          put transfer_key (record { chunk_count = t.chunk_count; completed_at = now })
            renamed.completed;
    })
    else record renamed { disk = remove t.temp_path renamed.disk }

-- The write of a chunk, which is left out for an empty one: whether the stream stays good, and the
-- disk afterwards.
unfoldable pub write_ok : Bytes → Disk → Bool
write_ok payload d = length payload == 0 || next_ok d

unfoldable pub write_payload : Bytes → Incoming → Disk → Disk
write_payload payload t d =
    if length payload == 0 then d else write_at t.temp_path t.stream_pos payload d

-- The counts after a chunk of `size` bytes.
unfoldable pub count_chunk : ℕ → Incoming → Incoming
count_chunk size t = record t {
  stream_pos = t.stream_pos + size;
  written_bytes = t.written_bytes + size;
  next_chunk_index = t.next_chunk_index + 1;
}

unfoldable pub is_complete : Incoming → Bool
is_complete t = t.next_chunk_index == t.chunk_count && t.written_bytes == t.total_size

-- The chunk that is next: written, counted, acknowledged.
unfoldable pub write_chunk : Bytes → Bytes → ℕ → ℕ → Bytes → Incoming → ℕ → Transfers → Transfers
write_chunk peer_id transfer_key transfer_id chunk_index payload t now s =
    let disk = write_payload payload t s.disk in
    let t' = count_chunk (length payload) t in
    let written = record s { disk = disk; incoming = modify transfer_key (λ _. t') s.incoming } in
    if not (write_ok payload s.disk)
    then record s { disk = remove t.temp_path disk; incoming = erase transfer_key s.incoming }
    else if is_complete t'
    then finish_transfer peer_id transfer_key transfer_id chunk_index t' now written
    else respond_ack peer_id transfer_id chunk_index written

-- A chunk of a transfer that is under way; `t` is the transfer with its new `last_update`.
unfoldable pub accept_chunk : Bytes → Bytes → ℕ → ℕ → Bytes → Incoming → ℕ → Transfers → Transfers
accept_chunk peer_id transfer_key transfer_id chunk_index payload t now s =
    if ltb t.next_chunk_index chunk_index || leb t.chunk_count chunk_index
    then s
    else if ltb chunk_index t.next_chunk_index
    then respond_ack peer_id transfer_id chunk_index s
    else if length payload == chunk_size t.total_size chunk_index
    then write_chunk peer_id transfer_key transfer_id chunk_index payload t now s
    else s

-- A chunk, by the table that knows its transfer.
unfoldable pub dispatch_data : Bytes → Bytes → ℕ → ℕ → Bytes → ℕ → Transfers → Transfers
dispatch_data peer_id transfer_key transfer_id chunk_index payload now s =
    elim (lookup transfer_key s.rejected) [
      | some t ↦ respond_reject peer_id transfer_key transfer_id now s
      | none ↦ elim (lookup transfer_key s.completed) [
        | some c ↦
            if ltb chunk_index c.chunk_count
            then respond_ack peer_id transfer_id chunk_index s
            else s
        | none ↦ elim (lookup transfer_key s.incoming) [
          | none ↦ s
          | some t ↦
              accept_chunk peer_id transfer_key transfer_id chunk_index payload
                (record t { last_update = now }) now
                (record s {
                  incoming = modify transfer_key (λ _. record t { last_update = now }) s.incoming;
                })
        ]
      ]
    ]

unfoldable pub handle_data : Bytes → Bytes → ℕ → Transfers → Option Transfers
handle_data peer_id bytes now s = if ltb (length bytes) chunk_header_size then some s else do
  header ← read_chunk_header bytes
  let payload = drop chunk_header_size bytes
  let key = make_incoming_file_key peer_id header.transfer_id
  some (dispatch_data peer_id key header.transfer_id header.chunk_index payload now s)
