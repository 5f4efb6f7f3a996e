-- ===== src/Files/Meta.antt =====
-- The metadata branch of HandleIncomingFilePacket. A result of none is a read past the end of the
-- packet.
use neko_chat.Common.{
  ℕ, ◌+◌, Bool, ◌||◌, Option, none, some, [], ◌∷◌, ◌++◌, take, drop, length, ltb, ◌==◌,
  if◌then◌else◌,
}
use neko_chat.Common.Text.{Bytes}
use neko_chat.Common.Assoc.{nat_key, bytes_key, lookup, put, modify}
use neko_chat.Files.Names.{sanitize_file_name, make_incoming_file_key, max_file_name_bytes}
use neko_chat.Files.Packets.{
  FileMetaHeader, file_meta_chunk_index, max_file_transfer_bytes, meta_header_size,
  read_meta_header, ◌>>=◌,
}
use neko_chat.Files.State.{Prompt, Transfers}
use neko_chat.Files.Begin.{begin_incoming_file_transfer}
use neko_chat.Files.Answers.{respond_ack, respond_reject}

-- The metadata of a transfer that no table knows.
unfoldable pub new_transfer : Bytes → Bytes → Prompt → ℕ → Transfers → Transfers
new_transfer peer_id transfer_key prompt now s =
    let (begun, started) = begin_incoming_file_transfer transfer_key prompt now s in
    if s.approval_required
    then elim (lookup transfer_key s.pending) [
      | none ↦ record s {
        pending = put transfer_key prompt s.pending;
        prompt_queue = s.prompt_queue ++ prompt ∷ [];
      }
      | some old ↦ record s {
        pending = modify transfer_key (λ p. record p { last_update = now }) s.pending;
      }
    ]
    else if started
    then respond_ack peer_id prompt.transfer_id file_meta_chunk_index begun
    else begun

-- The metadata of a transfer, by the table that knows it.
unfoldable pub dispatch_meta : Bytes → Bytes → Prompt → ℕ → Transfers → Transfers
dispatch_meta peer_id transfer_key prompt now s = elim (lookup transfer_key s.rejected) [
  | some t ↦ respond_reject peer_id transfer_key prompt.transfer_id now s
  | none ↦ elim (lookup transfer_key s.completed) [
    | some c ↦ respond_ack peer_id prompt.transfer_id file_meta_chunk_index s
    | none ↦ elim (lookup transfer_key s.incoming) [
      | some t ↦ respond_ack peer_id prompt.transfer_id file_meta_chunk_index (record s {
        incoming = modify transfer_key (λ t. record t { last_update = now }) s.incoming;
      })
      | none ↦ new_transfer peer_id transfer_key prompt now s
    ]
  ]
]

-- The tests on a metadata packet.
unfoldable pub refuses_meta : FileMetaHeader → ℕ → Bool
refuses_meta header len =
    header.chunk_count == 0
    || ltb max_file_name_bytes header.file_name_len
    || ltb max_file_transfer_bytes header.total_size
    || ltb len (meta_header_size + header.file_name_len)

-- The prompt that the metadata makes.
unfoldable pub prompt_of : Bytes → FileMetaHeader → Bytes → ℕ → Prompt
prompt_of peer_id header raw_name now = record {
  peer_id = peer_id;
  transfer_id = header.transfer_id;
  file_name = sanitize_file_name raw_name;
  chunk_count = header.chunk_count;
  total_size = header.total_size;
  created_at = now;
  last_update = now;
}

unfoldable pub handle_meta : Bytes → Bytes → ℕ → Transfers → Option Transfers
handle_meta peer_id bytes now s = if ltb (length bytes) meta_header_size then some s else do
  header ← read_meta_header bytes
  let raw_name = take header.file_name_len (drop meta_header_size bytes)
  let prompt = prompt_of peer_id header raw_name now
  let key = make_incoming_file_key peer_id header.transfer_id
  some (if refuses_meta header (length bytes) then s else dispatch_meta peer_id key prompt now s)
