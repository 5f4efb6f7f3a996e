-- ===== src/Files/Begin/Paths.antt =====
-- The paths of a transfer that begins.
use neko_chat.Common.{ℕ, ◌≡◌, ◌≢◌, refl, ap, true, false, ◌++◌, length, arith, length-append}
use neko_chat.Common.Text.{Bytes, codes}
use neko_chat.Common.Assoc.{bytes_key, put}
use neko_chat.Files.Names.{sanitize_file_name}
use neko_chat.Files.Disk.{Disk, next_ok, tick, exists, open_trunc}
use neko_chat.Files.State.{Incoming, Prompt, Transfers, join_path, get_received_files_root}
use neko_chat.Files.Begin.{make_unique_path, begin_incoming_file_transfer}

-- The folder for files of a peer, and the path that a file of some name gets there.
abbrev pub target_dir : Transfers → Bytes → Bytes
target_dir s peer_id = join_path (get_received_files_root s) (sanitize_file_name peer_id)

abbrev pub plain_path : Transfers → Prompt → Bytes
plain_path s p = join_path (target_dir s p.peer_id) p.file_name

abbrev pub part_of : Bytes → Bytes
part_of path = path ++ codes ".part"

pub part_of-ne : (path : Bytes) → part_of path ≢ path
part_of-ne path e = omega (arith, ap length e, length-append path (codes ".part"))

-- The transfer that a prompt begins.
abbrev pub begun : Prompt → ℕ → Bytes → Incoming
begun p now final = record {
  peer_id = p.peer_id;
  file_name = p.file_name;
  temp_path = part_of final;
  final_path = final;
  stream_pos = 0;
  chunk_count = p.chunk_count;
  next_chunk_index = 0;
  total_size = p.total_size;
  written_bytes = 0;
  last_update = now;
}

-- Where no file has the plain path, the transfer gets it.
pub make_unique_path-free :
    (d : Disk) (ticks : ℕ) (dir name : Bytes)
    → exists (join_path dir name) d ≡ false
    → make_unique_path d ticks dir name ≡ join_path dir name
unfolding make_unique_path
make_unique_path-free d ticks dir name h = rw h refl

-- The state after a begin at a path.
abbrev pub placed : Bytes → Prompt → ℕ → Bytes → Transfers → Transfers
placed key p now final s = record s {
  disk = open_trunc (part_of final) (tick s.disk);
  incoming = put key (begun p now final) s.incoming;
}

module _ (key : Bytes) (p : Prompt) (now : ℕ) (s : Transfers) where
  -- A transfer whose folder and file can be made starts with an empty temporary file.
  pub begin_lem :
      next_ok s.disk ≡ true
      → next_ok (tick s.disk) ≡ true
      → begin_incoming_file_transfer key p now s ≡ (
        placed key p now
            (make_unique_path (tick s.disk) s.tick_count (target_dir s p.peer_id) p.file_name)
            s,
        true,
      )
  unfolding begin_incoming_file_transfer
  begin_lem dir_ok open_ok = rw (dir_ok, open_ok) refl
