-- ===== src/Files/Tests.antt =====
-- The file transfer on concrete inputs: a peer `bo` sends a file of two bytes.
use neko_chat.Common.{
  ℕ, ◌+◌, ◌≤◌, ◌≡◌, ◌≢◌, ◌↔◌, refl, true, false, some_inj, subst, none, some, [], ◌∷◌, ap, drop,
  length, arith,
}
use neko_chat.Common.Text.{Bytes, codes, bytes_eq, bytes_eq_refl, is_empty}
use neko_chat.Common.Assoc.{erase, bytes_key, lookup}
use neko_chat.Wire.Words.{load8, load32, htonl}
use neko_chat.Files.Names.{
  sanitize_file_name, path_filename, safe_char, is_allowed, trim_end, or_fallback, shorten,
  path_split,
}
use neko_chat.Files.Names.Safety.{IsSafeName, sanitize_file_name-IsSafeName, length-shorten_iff}
use neko_chat.Files.Names.Keys.{make_incoming_file_key-injective, make_file_ack_key-injective}
use neko_chat.Files.Packets.{
  FileChunkHeader, meta_header_size, chunk_header_size, read_meta_header, read_chunk_header,
  read_reject_header, build_file_meta_packet, build_file_chunk_packet, build_file_ack_packet,
  build_file_reject_packet,
}
use neko_chat.Files.Packets.RoundTrip.{packet_round_trips}
use neko_chat.Files.Disk.{exists}
use neko_chat.Files.State.{Incoming, Prompt, Transfers, get_received_files_root}
use neko_chat.Files.Begin.{begin_incoming_file_transfer}
use neko_chat.Files.Begin.Paths.{begun, plain_path, part_of}
use neko_chat.Files.Begin.Sharing.{same_name_shares}
use neko_chat.Files.Receiver.{handle_incoming_file_packet}
use neko_chat.Files.Receiver.Bounds.{handle_incoming_file_packet-total}
use neko_chat.Files.Chunks.{file_chunk_count, chunk_of}
use neko_chat.Files.Data.Acknowledging.{Answer, IsStored, dispatch_data-IsAnswer}
use neko_chat.Files.Data.{dispatch_data}
use neko_chat.Files.Prefix.{HoldsPrefix, IsGenuine}
use neko_chat.Files.Prefix.Main.{CarriesChunk, receive-IsGenuine}
use neko_chat.Files.Prefix.Begin.{begin-IsGenuine}
use neko_chat.Files.Prefix.Completion.{last_chunk_completes}

abbrev hi : Bytes
hi = codes "hi"

abbrev bo : Bytes
bo = codes "bo"

abbrev bo_key : Bytes
bo_key = codes "bo#5"

abbrev hi_source : Bytes → Bytes
hi_source key = hi

abbrev hi_prompt : Prompt
hi_prompt = record {
  peer_id = bo;
  transfer_id = 5;
  file_name = codes "a.txt";
  chunk_count = 1;
  total_size = 2;
  created_at = 100;
  last_update = 100;
}

abbrev idle : Transfers
idle = record {
  id = codes "me";
  running = true;
  current_path = codes "C:";
  tick_count = 7;
  disk = record { files = []; fails = λ n. false; unflushed = λ n. none; operations = 0 };
  incoming = [];
  completed = [];
  pending = [];
  prompt_queue = [];
  rejected = [];
  acknowledgements = [];
  rejected_ids = [];
  approval_required = false;
  sent = [];
}

-- `bo`'s file is begun: its temporary file is there and empty.
abbrev hi_transfer : Incoming
hi_transfer = begun hi_prompt 100 (codes "C:\\a.txt")

abbrev receiving : Transfers
receiving = record idle {
  disk = record {
    files = (codes "C:\\a.txt.part", []) ∷ [];
    fails = λ n. false;
    unflushed = λ n. none;
    operations = 2;
  };
  incoming = (bo_key, hi_transfer) ∷ [];
}

hi_transfer-HoldsPrefix : HoldsPrefix hi receiving.disk hi_transfer
unfolding lookup file_chunk_count
hi_transfer-HoldsPrefix = record {
  total = refl;
  count = refl;
  begun = omega arith;
  written = refl;
  position = refl;
  content = rw bytes_eq_refl refl;
  renames = λ e. omega (arith, ap length e);
}

receiving-IsGenuine : IsGenuine hi_source receiving
receiving-IsGenuine = record { holds = (hi_transfer-HoldsPrefix, tt); apart = (tt, tt) }

abbrev hi_packet : Bytes
hi_packet = drop 1 (build_file_chunk_packet 5 0 hi)

hi_packet-CarriesChunk : CarriesChunk hi_source bo hi_packet
unfolding build_file_chunk_packet read_chunk_header load32 chunk_of htonl
hi_packet-CarriesChunk h e =
    subst (λ (x : FileChunkHeader). hi ≡ chunk_of hi x.chunk_index) (some_inj e) refl

not_meta : load8 hi_packet 0 ≢ some 1
unfolding load8 build_file_chunk_packet
not_meta e = omega (arith, some_inj e)

receive-IsGenuine_example :
    IsGenuine hi_source (handle_incoming_file_packet-total bo hi_packet 150 receiving).0
receive-IsGenuine_example =
    receive-IsGenuine hi_source bo hi_packet 150 receiving
      (handle_incoming_file_packet-total bo hi_packet 150 receiving).0 not_meta
      (λ _. hi_packet-CarriesChunk) receiving-IsGenuine
      (handle_incoming_file_packet-total bo hi_packet 150 receiving).1

nothing : {A : Type 0} → lookup {V = A} bo_key [] ≡ none
unfolding lookup
nothing = refl

found : lookup bo_key receiving.incoming ≡ some hi_transfer
unfolding lookup
found = rw bytes_eq_refl refl

last_chunk_completes_example :
    let done = dispatch_data bo bo_key 5 0 (chunk_of hi 0) 150 receiving in
    (lookup hi_transfer.final_path done.disk.files ≡ some hi)
    × (lookup bo_key done.completed ≡ some (record { chunk_count = 1; completed_at = 150 }))
    × (lookup bo_key done.incoming ≡ none)
    × (done.sent ≡ (bo, build_file_ack_packet 5 0) ∷ [])
last_chunk_completes_example =
    last_chunk_completes bo bo_key 5 150 hi_source hi_transfer receiving receiving-IsGenuine
      ((λ n. refl), λ n. refl) nothing nothing found refl

one_chunk : hi_prompt.chunk_count ≡ file_chunk_count (length hi)
unfolding file_chunk_count
one_chunk = refl

nothing_yet : IsGenuine hi_source idle
nothing_yet = record { holds = tt; apart = tt }

begin-IsGenuine_example :
    IsGenuine hi_source (begin_incoming_file_transfer bo_key hi_prompt 100 idle).0
unfolding erase
begin-IsGenuine_example =
    begin-IsGenuine hi_source bo_key hi_prompt 100 idle refl one_chunk tt nothing_yet

handle_incoming_file_packet-total_example :
    (s : Transfers) × (handle_incoming_file_packet bo (1 ∷ 0 ∷ 0 ∷ []) 150 receiving ≡ some s)
handle_incoming_file_packet-total_example =
    handle_incoming_file_packet-total bo (1 ∷ 0 ∷ 0 ∷ []) 150 receiving

packet_round_trips_example :
    (read_meta_header (drop 1 (build_file_meta_packet 5 1 2 bo))
      ≡ some (record { transfer_id = 5; chunk_count = 1; total_size = 2; file_name_len = 2 }))
    × (drop (1 + meta_header_size) (build_file_meta_packet 5 1 2 bo) ≡ bo)
    × (read_chunk_header (drop 1 (build_file_chunk_packet 5 0 hi))
        ≡ some (record { transfer_id = 5; chunk_index = 0 }))
    × (drop (1 + chunk_header_size) (build_file_chunk_packet 5 0 hi) ≡ hi)
    × (read_chunk_header (drop 1 (build_file_ack_packet 5 0))
        ≡ some (record { transfer_id = 5; chunk_index = 0 }))
    × (read_reject_header (drop 1 (build_file_reject_packet 5)) ≡ some 5)
packet_round_trips_example =
    packet_round_trips 5 1 2 0 bo hi (omega arith) (omega arith) (omega arith) (omega arith)
      (omega arith)

sanitize_file_name-IsSafeName_example : IsSafeName (sanitize_file_name (codes "..\\a:b?. "))
sanitize_file_name-IsSafeName_example = sanitize_file_name-IsSafeName (codes "..\\a:b?. ")

dotted : sanitize_file_name (codes "..\\dir/a:b?.tar.gz. .") ≡ codes "a_b_.tar.gz"
unfolding sanitize_file_name path_filename safe_char is_allowed trim_end or_fallback is_empty
dotted = refl

server_only : sanitize_file_name (codes "\\\\server") ≡ codes "file.bin"
unfolding sanitize_file_name path_filename safe_char is_allowed trim_end or_fallback is_empty
server_only = refl

drive_only : sanitize_file_name (codes "C:a.txt") ≡ codes "a.txt"
unfolding sanitize_file_name path_filename safe_char is_allowed trim_end or_fallback is_empty
drive_only = refl

length-shorten_iff_example :
    (length (shorten (codes "a.txt")) ≤ 240) ↔ (length (path_split (codes "a.txt")).1 ≤ 240)
length-shorten_iff_example = length-shorten_iff (codes "a.txt")

abbrev number : ℕ
number = 4294967295

make_incoming_file_key-injective_example : (codes "b#1" ≡ codes "b#1") × (number ≡ number)
make_incoming_file_key-injective_example =
    make_incoming_file_key-injective (codes "b#1") (codes "b#1") number number refl

make_file_ack_key-injective_example : (number ≡ number) × (number ≡ number)
make_file_ack_key-injective_example =
    make_file_ack_key-injective number number number number (omega arith) (omega arith) refl

-- `bo` sends another file of the same name before the first has come.
abbrev again : Prompt
again = record hi_prompt { transfer_id = 16 }

other_key : bo_key ≢ codes "bo#16"
other_key e = omega (arith, ap length e)

free : exists (plain_path idle hi_prompt) idle.disk ≡ false
unfolding exists lookup
free = refl

-- A first file of two chunks, of which three bytes have come.
abbrev half : Incoming
half = record (begun hi_prompt 100 (plain_path idle hi_prompt)) {
  chunk_count = 2;
  stream_pos = 3;
  next_chunk_index = 1;
  written_bytes = 3;
}

abbrev half_way : Transfers
half_way = record idle {
  disk = record {
    files = (part_of (plain_path idle hi_prompt), codes "hal") ∷ [];
    fails = λ n. false;
    unflushed = λ n. none;
    operations = 3;
  };
  incoming = (bo_key, half) ∷ [];
}

half_found : lookup bo_key half_way.incoming ≡ some half
unfolding lookup
half_found = rw bytes_eq_refl refl

still_free : exists (plain_path idle hi_prompt) half_way.disk ≡ false
unfolding exists lookup bytes_eq get_received_files_root sanitize_file_name path_filename safe_char
    is_allowed trim_end or_fallback is_empty shorten path_split
still_free = refl

same_name_shares_example :
    let both = (begin_incoming_file_transfer (codes "bo#16") again 120 half_way).0 in
    (lookup bo_key (begin_incoming_file_transfer bo_key hi_prompt 100 idle).0.incoming
      ≡ some (begun hi_prompt 100 (plain_path idle hi_prompt)))
    × (lookup (codes "bo#16") both.incoming ≡ some (begun again 120 (plain_path idle hi_prompt)))
    × (lookup bo_key both.incoming ≡ some half)
    × (lookup half.temp_path both.disk.files ≡ some [])
same_name_shares_example =
    same_name_shares bo_key (codes "bo#16") hi_prompt again idle half_way 100 120 half other_key
      refl refl free ((λ n. refl), λ n. refl) refl refl half_found refl refl still_free
      ((λ n. refl), λ n. refl)

dispatch_data-IsAnswer_example :
    let received = dispatch_data bo bo_key 5 0 hi 150 receiving in
    Answer bo bo_key 5 0 150 (IsStored bo bo_key 5 0 150 hi receiving received) receiving received
dispatch_data-IsAnswer_example = dispatch_data-IsAnswer bo bo_key 5 0 150 hi receiving (λ n. refl)
