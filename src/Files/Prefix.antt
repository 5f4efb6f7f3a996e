-- ===== src/Files/Prefix.antt =====
-- Incoming transfers of HandleIncomingFilePacket beside the files that their senders are sending.
pub mod Tables
pub mod Writes
pub mod Steps
pub mod Expiry
pub mod Main
pub mod Begin
pub mod Completion
use neko_chat.Common.{ℕ, ◌≡◌, ◌≢◌, ◌≤◌, ◌++◌, some, [], ◌∷◌, length, All, ◌*◌}
use neko_chat.Common.Text.{Bytes}
use neko_chat.Common.Assoc.{Map, bytes_key, lookup}
use neko_chat.Files.Disk.{Disk}
use neko_chat.Files.State.{Incoming, Transfers}
use neko_chat.Files.Chunks.{file_chunk_count, prefix_of}

-- A transfer has received the first `next_chunk_index` chunks of `file`, and its temporary file
-- holds just those.
pub record HoldsPrefix (file : Bytes) (d : Disk) (t : Incoming) : Type 0 where
  pub total : t.total_size ≡ length file
  pub count : t.chunk_count ≡ file_chunk_count (length file)
  pub begun : t.next_chunk_index ≤ t.chunk_count
  pub written : t.written_bytes ≡ length (prefix_of file t.next_chunk_index)
  pub position : t.stream_pos ≡ t.written_bytes
  pub content : lookup t.temp_path d.files ≡ some (prefix_of file t.next_chunk_index)
  pub renames : t.temp_path ≢ t.final_path

-- Neither of two transfers writes to or renames over the other's temporary file.
pub record Apart (t u : Incoming) : Type 0 where
  pub temps : t.temp_path ≢ u.temp_path
  pub left : t.final_path ≢ u.temp_path
  pub right : u.final_path ≢ t.temp_path

abbrev pub AllHold : (Bytes → Bytes) → Disk → Map Bytes Incoming → Type 0
AllHold source d m = All (λ e. HoldsPrefix (source e.0) d e.1) m

abbrev pub AllApart : Map Bytes Incoming → Type 0
AllApart [] = Unit {0}
AllApart ((k, t) ∷ m) = All (λ e. Apart t e.1) m × AllApart m

-- `source k` is the file that the sender of transfer `k` is sending.
pub record IsGenuine (source : Bytes → Bytes) (s : Transfers) : Type 0 where
  pub holds : AllHold source s.disk s.incoming
  pub apart : AllApart s.incoming
