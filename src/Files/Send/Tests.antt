-- ===== src/Files/Send/Tests.antt =====
-- The user's answers and the sender's wait on concrete inputs.
use neko_chat.Common.{ℕ, ◌≡◌, refl, true, false, none, some, List, [], ◌∷◌, length, arith}
use neko_chat.Common.Text.{Bytes, codes, bytes_eq_refl}
use neko_chat.Common.Assoc.{erase, bytes_key, nat_key, lookup, keep}
use neko_chat.Files.Names.{make_incoming_file_key, make_file_ack_key}
use neko_chat.Files.Packets.{build_file_reject_packet}
use neko_chat.Files.State.{Prompt, Transfers}
use neko_chat.Files.Chunks.{file_chunk_count}
use neko_chat.Files.Cleanup.{cleanup_file_transfers, expire_incoming}
use neko_chat.Files.Prompts.{accept_pending_file_prompt, decline_pending_file_prompt}
use neko_chat.Files.Prompts.Laws.{
  Packet, metadata, chunk, OnlyRefuses, AllRefused, decline_refuses, accept-IsGenuine,
}
use neko_chat.Files.Prefix.{IsGenuine}
use neko_chat.Files.Send.{wait_for_file_ack}
use neko_chat.Files.Send.Waiting.{IsResult, OnlyTakes, IsHeard, IsElseSame, wait_for_file_ack_lem}

abbrev bo : Bytes
bo = codes "bo"

abbrev hi : Bytes
hi = codes "hi"

abbrev request : Prompt
request = record {
  peer_id = bo;
  transfer_id = 5;
  file_name = codes "a.txt";
  chunk_count = 1;
  total_size = 2;
  created_at = 100;
  last_update = 100;
}

-- `bo` asks to send a file, and an acknowledgement of chunk 3 of the own transfer 9 has come.
abbrev asked : Transfers
asked = record {
  id = codes "me";
  running = true;
  current_path = codes "C:";
  tick_count = 7;
  disk = record { files = []; fails = λ n. false; unflushed = λ n. none; operations = 0 };
  incoming = [];
  completed = [];
  pending = (make_incoming_file_key bo 5, request) ∷ [];
  prompt_queue = [];
  rejected = [];
  acknowledgements = (make_file_ack_key 9 3, tt) ∷ [];
  rejected_ids = [];
  approval_required = true;
  sent = [];
}

asked_pending : lookup (make_incoming_file_key bo 5) asked.pending ≡ some request
unfolding lookup
asked_pending = rw bytes_eq_refl refl

still_pending :
    lookup (make_incoming_file_key bo 5) (cleanup_file_transfers 150 asked).pending ≡ some request
unfolding cleanup_file_transfers expire_incoming keep lookup
still_pending = rw bytes_eq_refl refl

nothing_under_way : (cleanup_file_transfers 150 asked).incoming ≡ []
unfolding cleanup_file_transfers expire_incoming
nothing_under_way = refl

asked-IsGenuine : IsGenuine (λ key. hi) asked
asked-IsGenuine = record { holds = tt; apart = (tt) }

one_chunk : request.chunk_count ≡ file_chunk_count (length hi)
unfolding file_chunk_count
one_chunk = refl

accept-IsGenuine_example : IsGenuine (λ key. hi) (accept_pending_file_prompt bo 5 150 asked).0
unfolding cleanup_file_transfers expire_incoming erase
accept-IsGenuine_example =
    accept-IsGenuine (λ key. hi) bo 5 150 request asked still_pending refl one_chunk tt
      asked-IsGenuine

abbrev nagging : List (ℕ × Packet)
nagging = (9000, metadata request) ∷ (50000, chunk 0 hi) ∷ []

decline_refuses_example :
    let (declined, found) = decline_pending_file_prompt bo 5 150 asked in
    (found ≡ true)
    × OnlyRefuses (bo, build_file_reject_packet 5) asked declined
    × AllRefused bo 5 nagging declined
decline_refuses_example =
    decline_refuses bo 5 nagging 150 request asked asked_pending
      (omega arith, refl, (omega arith, tt, tt))

wait_for_file_ack_lem_example :
    let (after, result) = wait_for_file_ack 9 3 asked in
    IsResult 9 3 asked result
    × OnlyTakes 9 3 asked after
    × IsHeard 9 3 asked result after
    × IsElseSame 9 3 asked after
wait_for_file_ack_lem_example = wait_for_file_ack_lem 9 3 asked
