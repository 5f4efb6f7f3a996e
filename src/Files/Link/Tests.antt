-- ===== src/Files/Link/Tests.antt =====
-- A file on its way over a network that loses the first packet and repeats the second.
use neko_chat.Common.{
  ℕ, ◌<◌, ◌^◌, zero, suc, ◌≡◌, refl, Bool, true, false, none, some, List, [], ◌∷◌, length, arith,
}
use neko_chat.Common.Text.{Bytes, codes, bytes_eq, find_byte, is_empty}
use neko_chat.Common.Assoc.{bytes_key, lookup, erase, put, modify, keep}
use neko_chat.Files.Names.{
  sanitize_file_name, is_allowed, safe_char, path_filename, path_split, trim_end, or_fallback,
  shorten, make_incoming_file_key, make_file_ack_key,
}
use neko_chat.Files.State.{Transfers, send_buffer_to_peer, get_received_files_root}
use neko_chat.Files.Send.{
  SourceFile, sent_all, send_file_worker, has_key, is_signaled, wait_for_file_ack,
  send_packet_with_ack, send_chunks,
}
use neko_chat.Files.Prompts.{accept_pending_file_prompt}
use neko_chat.Files.Cleanup.{expire_incoming, keep_pending, cleanup_file_transfers}
use neko_chat.Wire.Words.{
  load8, load16, load32, load64, htons, htonl, host_to_network64, network_to_host64,
}
use neko_chat.Files.Packets.{
  build_file_meta_packet, build_file_chunk_packet, build_file_ack_packet, read_meta_header,
  read_chunk_header,
}
use neko_chat.Common.Decimal.{to_string}
use neko_chat.Files.Receiver.{handle_ack, handle_incoming_file_packet}
use neko_chat.Files.Answers.{handle_file_ack_packet}
use neko_chat.Files.Meta.{new_transfer, dispatch_meta, refuses_meta, prompt_of, handle_meta}
use neko_chat.Files.Data.{
  chunk_size, finish_transfer, write_ok, write_payload, count_chunk, is_complete, write_chunk,
  accept_chunk, dispatch_data, handle_data,
}
use neko_chat.Files.Begin.{make_unique_path, begin_incoming_file_transfer}
use neko_chat.Files.Disk.{next_ok, tick, exists, open_trunc, splice, write_at, close, rename}
use neko_chat.Files.Chunks.{file_chunk_count, chunk_of}
use neko_chat.Files.Link.{
  Event, to_receiver, to_sender, user_accepts, Far, Link, network, has_kind, deliver, run_event,
  run_events,
}
use neko_chat.Files.Link.Traffic.{Any}
use neko_chat.Files.Link.Arrival.{AreFresh, sent_file_arrives}

abbrev idle : Bytes → Bool → Transfers
idle id approval = record {
  id = id;
  running = true;
  current_path = codes "C:";
  tick_count = 7;
  disk = record { files = []; fails = λ n. false; unflushed = λ n. none; operations = 0 };
  incoming = [];
  completed = [];
  pending = [];
  prompt_queue = [];
  rejected = [];
  acknowledgements = [];
  rejected_ids = [];
  approval_required = approval;
  sent = [];
}

abbrev events : ℕ → List Event
events zero = []
events (suc zero) = to_receiver 1 100 ∷ to_receiver 0 110 ∷ user_accepts 120 ∷ to_sender 0 130 ∷ []
events (suc (suc zero)) =
    to_receiver 0 200
    ∷ to_receiver 2 210
    ∷ to_receiver 2 220
    ∷ to_sender 1 230
    ∷ to_sender 2 230
    ∷ []
events (suc (suc (suc n))) = []

abbrev link : Link
link = record { sends = λ n. true; schedule = events }

abbrev note : SourceFile
note = record {
  name = codes "n";
  is_file = true;
  size_known = true;
  content = codes "hi";
  has_path = true;
  opens = true;
  reads = λ i. true;
}

abbrev bo : Bytes
bo = codes "bo"

abbrev al : Bytes
al = codes "al"

abbrev before : Far
before = record { receiver = idle al true; seen = [] }

note_sent : (send_file_worker (network bo al 5 link) al note 5 (idle bo false) before).2 ≡ sent_all
unfolding has_key is_signaled wait_for_file_ack send_packet_with_ack send_chunks send_file_worker
    has_kind deliver run_event run_events network accept_pending_file_prompt expire_incoming
    keep_pending cleanup_file_transfers lookup erase put modify keep bytes_eq find_byte is_empty
    load8 load16 load32 load64 htons htonl host_to_network64 network_to_host64
    build_file_meta_packet build_file_chunk_packet build_file_ack_packet read_meta_header
    read_chunk_header is_allowed safe_char path_filename path_split trim_end or_fallback shorten
    sanitize_file_name make_incoming_file_key make_file_ack_key to_string send_buffer_to_peer
    get_received_files_root handle_ack handle_incoming_file_packet handle_file_ack_packet
    new_transfer dispatch_meta refuses_meta prompt_of handle_meta chunk_size finish_transfer
    write_ok write_payload count_chunk is_complete write_chunk accept_chunk dispatch_data
    handle_data make_unique_path begin_incoming_file_transfer next_ok tick exists open_trunc splice
    write_at close rename file_chunk_count chunk_of
note_sent = refl

idle-AreFresh : AreFresh (idle bo false) (idle al true)
idle-AreFresh = record {
  unsent = refl;
  unheard = refl;
  none_begun = refl;
  none_completed = refl;
  none_asked = refl;
  unanswered = refl;
  flushes = λ n. refl;
}

short_name : length (sanitize_file_name note.name) < 2 ^ 16
unfolding is_allowed safe_char path_filename path_split trim_end or_fallback shorten
    sanitize_file_name make_incoming_file_key make_file_ack_key is_empty
short_name = omega arith

sent_file_arrives_example :
    Any
      (λ u. (path : Bytes) × (lookup path u.disk.files ≡ some (codes "hi")))
      (send_file_worker (network bo al 5 link) al note 5 (idle bo false) before).1.seen
sent_file_arrives_example =
    sent_file_arrives bo al 5 link note (idle bo false) (idle al true) (omega arith) (omega arith)
      short_name idle-AreFresh note_sent
