-- ===== src/Files/Prompts.antt =====
-- The questions to the user: PopPendingFilePrompt, AcceptPendingFilePrompt, DeclinePendingFilePrompt,
-- and the cleanup when the program stops.
pub mod Laws
use neko_chat.Common.{ℕ, Bool, true, false, Option, none, some, List, [], ◌∷◌, if◌then◌else◌}
use neko_chat.Common.Text.{Bytes}
use neko_chat.Common.Assoc.{Map, bytes_key, lookup, put, erase}
use neko_chat.Files.Names.{make_incoming_file_key}
use neko_chat.Files.Packets.{file_meta_chunk_index, build_file_reject_packet}
use neko_chat.Files.Disk.{Disk, remove}
use neko_chat.Files.State.{Incoming, Prompt, Transfers, send_buffer_to_peer}
use neko_chat.Files.Begin.{begin_incoming_file_transfer}
use neko_chat.Files.Cleanup.{cleanup_file_transfers}
use neko_chat.Files.Answers.{respond_ack}

-- PopPendingFilePrompt, none for false
unfoldable pub pop_pending_file_prompt : ℕ → Transfers → Transfers × Option Prompt
pop_pending_file_prompt now s =
    let cleaned = cleanup_file_transfers now s in
    elim cleaned.prompt_queue [
      | [] ↦ (cleaned, none)
      | p ∷ ps ↦ (record cleaned { prompt_queue = ps }, some p)
    ]

-- AcceptPendingFilePrompt
unfoldable pub accept_pending_file_prompt : Bytes → ℕ → ℕ → Transfers → Transfers × Bool
accept_pending_file_prompt peer_id transfer_id now s =
    let cleaned = cleanup_file_transfers now s in
    let key = make_incoming_file_key peer_id transfer_id in
    elim (lookup key cleaned.pending) [
      | none ↦ (cleaned, false)
      | some p ↦
          let (begun, started) = begin_incoming_file_transfer key p now cleaned in
          if started
          then (
            respond_ack peer_id transfer_id file_meta_chunk_index
                (record begun { pending = erase key begun.pending }),
            true,
          )
          else (begun, false)
    ]

-- DeclinePendingFilePrompt
unfoldable pub decline_pending_file_prompt : Bytes → ℕ → ℕ → Transfers → Transfers × Bool
decline_pending_file_prompt peer_id transfer_id now s =
    let key = make_incoming_file_key peer_id transfer_id in
    elim (lookup key s.pending) [
      | none ↦ (s, false)
      | some p ↦ (
        send_buffer_to_peer peer_id (build_file_reject_packet transfer_id)
            (record s { rejected = put key now s.rejected; pending = erase key s.pending }),
        true,
      )
    ]

-- The temporary files of unfinished transfers go.
unfoldable pub remove_all : Map Bytes Incoming → Disk → Disk
remove_all [] d = d
remove_all ((k, t) ∷ m) d = remove_all m (remove t.temp_path d)

-- CleanupFileTransfersOnStop
unfoldable pub cleanup_file_transfers_on_stop : Transfers → Transfers
cleanup_file_transfers_on_stop s = record s {
  disk = remove_all s.incoming s.disk;
  incoming = [];
  completed = [];
  pending = [];
  prompt_queue = [];
  rejected = [];
  acknowledgements = [];
  rejected_ids = [];
}
