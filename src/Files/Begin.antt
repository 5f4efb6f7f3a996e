-- ===== src/Files/Begin.antt =====
-- Beginning to receive a file: MakeUniquePath and BeginIncomingFileTransferLocked.
pub mod Paths
pub mod Sharing
use neko_chat.Common.{ℕ, zero, suc, ◌+◌, Bool, true, false, not, ◌++◌, if◌then◌else◌}
use neko_chat.Common.Text.{Bytes, codes}
use neko_chat.Common.Decimal.{to_string}
use neko_chat.Common.Assoc.{nat_key, bytes_key, put}
use neko_chat.Files.Names.{path_split, sanitize_file_name}
use neko_chat.Files.Disk.{Disk, next_ok, tick, exists, open_trunc}
use neko_chat.Files.State.{Incoming, Prompt, Transfers, join_path, get_received_files_root}

-- MakeUniquePath: the numbered candidates from `index` on, `left` of them.
pub numbered_path : Disk → Bytes → Bytes → Bytes → ℕ → ℕ → ℕ → Bytes
numbered_path d dir stem ext ticks index zero =
    join_path dir (stem ++ (codes "_" ++ (to_string ticks ++ ext)))
numbered_path d dir stem ext ticks index (suc left) =
    let numbered =
      join_path dir (stem ++ (codes " (" ++ (to_string index ++ (codes ")" ++ ext)))) in
    let later = numbered_path d dir stem ext ticks (index + 1) left in
    if exists numbered d then later else numbered

unfoldable pub make_unique_path : Disk → ℕ → Bytes → Bytes → Bytes
make_unique_path d ticks dir file_name =
    let candidate = join_path dir file_name in
    let (stem, ext) = path_split file_name in
    if exists candidate d then numbered_path d dir stem ext ticks 1 9999 else candidate

-- BeginIncomingFileTransferLocked; the Boolean is its result.
unfoldable pub begin_incoming_file_transfer : Bytes → Prompt → ℕ → Transfers → Transfers × Bool
begin_incoming_file_transfer transfer_key prompt now s =
    let target_dir = join_path (get_received_files_root s) (sanitize_file_name prompt.peer_id) in
    let made = record s { disk = tick s.disk } in
    let final = make_unique_path made.disk s.tick_count target_dir prompt.file_name in
    let temp = final ++ codes ".part" in
    let opened = record made { disk = open_trunc temp made.disk } in
    let transfer : Incoming = record {
      peer_id = prompt.peer_id;
      file_name = prompt.file_name;
      temp_path = temp;
      final_path = final;
      stream_pos = 0;
      chunk_count = prompt.chunk_count;
      next_chunk_index = 0;
      total_size = prompt.total_size;
      written_bytes = 0;
      last_update = now;
    } in
    if not (next_ok s.disk)
    then (made, false)
    else if not (next_ok made.disk)
    then (opened, false)
    else (record opened { incoming = put transfer_key transfer opened.incoming }, true)
