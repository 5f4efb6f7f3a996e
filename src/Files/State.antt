-- ===== src/Files/State.antt =====
-- The file-transfer state of P2PClient and its entries.
use neko_chat.Common.{ℕ, Bool, List, [], ◌∷◌, ◌++◌}
use neko_chat.Common.Text.{Bytes, codes, is_empty}
use neko_chat.Common.{if◌then◌else◌}
use neko_chat.Common.Assoc.{Map}
use neko_chat.Files.Disk.{Disk}

-- IncomingFileTransfer; `stream_pos` is the position of its output stream.
pub record Incoming : Type 0 where
  pub peer_id : Bytes
  pub file_name : Bytes
  pub temp_path : Bytes
  pub final_path : Bytes
  pub stream_pos : ℕ
  pub chunk_count : ℕ
  pub next_chunk_index : ℕ
  pub total_size : ℕ
  pub written_bytes : ℕ
  pub last_update : ℕ

-- CompletedIncomingFileTransfer
pub record Completed : Type 0 where
  pub chunk_count : ℕ
  pub completed_at : ℕ

-- PendingIncomingFilePrompt
pub record Prompt : Type 0 where
  pub peer_id : Bytes
  pub transfer_id : ℕ
  pub file_name : Bytes
  pub chunk_count : ℕ
  pub total_size : ℕ
  pub created_at : ℕ
  pub last_update : ℕ

-- The members of P2PClient that the file transfer uses. `sent` is the calls of SendBufferToPeer in
-- their order; `tick_count` is what GetTickCount64 returns. Times are in milliseconds.
pub record Transfers : Type 0 where
  pub id : Bytes
  pub running : Bool
  pub current_path : Bytes
  pub tick_count : ℕ
  pub disk : Disk
  pub incoming : Map Bytes Incoming
  pub completed : Map Bytes Completed
  pub pending : Map Bytes Prompt
  pub prompt_queue : List Prompt
  pub rejected : Map Bytes ℕ
  pub acknowledgements : Map ℕ (Unit {0})
  pub rejected_ids : Map ℕ (Unit {0})
  pub approval_required : Bool
  pub sent : List (Bytes × Bytes)

-- SendBufferToPeer of a packet that is not empty
unfoldable pub send_buffer_to_peer : Bytes → Bytes → Transfers → Transfers
send_buffer_to_peer peer_id packet s = record s { sent = s.sent ++ (peer_id, packet) ∷ [] }

-- path / name
abbrev pub join_path : Bytes → Bytes → Bytes
join_path dir name = dir ++ b'\\' ∷ name

-- GetReceivedFilesRoot
unfoldable pub get_received_files_root : Transfers → Bytes
get_received_files_root s =
    join_path (join_path s.current_path (codes "ReceivedFiles"))
      (if is_empty s.id then codes "session" else s.id)
