-- ===== src/Files/Send.antt =====
-- The sender: WaitForFileAck, SendPacketWithAck and SendFileWorker.
pub mod Waiting
mod Tests
use neko_chat.Common.{
  ℕ, zero, suc, ◌+◌, ◌-◌, Bool, true, false, ◌||◌, ◌&&◌, not, Option, none, some, [], ◌∷◌, length,
  ltb, ◌==◌, if◌then◌else◌,
}
use neko_chat.Common.Text.{Bytes}
use neko_chat.Common.Assoc.{Map, nat_key, lookup, erase}
use neko_chat.Files.Names.{sanitize_file_name, make_file_ack_key}
use neko_chat.Files.Packets.{
  build_file_meta_packet, build_file_chunk_packet, file_meta_chunk_index, max_file_transfer_bytes,
}
use neko_chat.Files.State.{Transfers, send_buffer_to_peer}
use neko_chat.Files.Chunks.{file_chunk_count, chunk_of}

-- FilePacketWaitResult
pub data WaitResult : Type 0 where
  acked : WaitResult
  refused : WaitResult
  timeout : WaitResult
  stopped : WaitResult

-- `count(key) > 0`
unfoldable pub has_key : ℕ → Map ℕ (Unit {0}) → Bool
has_key key m = elim (lookup key m) [ none ↦ false | some u ↦ true ]

-- The predicate that wait_for tests.
unfoldable pub is_signaled : ℕ → ℕ → Transfers → Bool
is_signaled transfer_id chunk_index s =
    not s.running
    || has_key (make_file_ack_key transfer_id chunk_index) s.acknowledgements
    || has_key transfer_id s.rejected_ids

-- WaitForFileAck from the moment at which wait_for returns; `s` is the state then, which wait_for
-- has tested a last time.
unfoldable pub wait_for_file_ack : ℕ → ℕ → Transfers → Transfers × WaitResult
wait_for_file_ack transfer_id chunk_index s =
    let key = make_file_ack_key transfer_id chunk_index in
    let heard = record s { acknowledgements = erase key s.acknowledgements } in
    let forgotten = record heard { rejected_ids = erase transfer_id s.rejected_ids } in
    if not (is_signaled transfer_id chunk_index s)
    then (heard, timeout)
    else if not s.running
    then (forgotten, stopped)
    else if has_key transfer_id s.rejected_ids
    then (forgotten, refused)
    else (heard, acked)

-- What the sender meets, by the number of the call: whether SendBufferToPeer succeeds, and what the
-- other threads do to the state while the sender waits or sleeps. They may use what lies outside of
-- the program, an `E`, and change it.
pub record Network (E : Type 0) : Type 0 where
  pub sends : ℕ → Bool
  pub during : ℕ → Transfers → E → Transfers × E

-- A result, the state, what lies outside, and the number of the next call.
pub record Attempt (E : Type 0) : Type 0 where
  pub result : WaitResult
  pub state : Transfers
  pub outside : E
  pub calls : ℕ

module _ {E : Type 0} (net : Network E) (peer_id packet : Bytes) (transfer_id chunk_index : ℕ) where
  -- SendPacketWithAck, `left` attempts at most
  unfoldable pub send_packet_with_ack : ℕ → ℕ → Transfers → E → Attempt E
  send_packet_with_ack zero n s out = record {
    result = timeout;
    state = s;
    outside = out;
    calls = n;
  }
  send_packet_with_ack (suc left) n s out =
      let (next, out') = net.during n (send_buffer_to_peer peer_id packet s) out in
      let (waited, result) = wait_for_file_ack transfer_id chunk_index next in
      let again = λ (t : Transfers). send_packet_with_ack left (n + 1) t out' in
      let answered : Attempt E = record {
        result = result;
        state = waited;
        outside = out';
        calls = n + 1;
      } in
      if not s.running
      then record { result = timeout; state = s; outside = out; calls = n }
      else if not (net.sends n)
      then again next
      else elim result [
        | timeout ↦ again waited
        | acked ↦ answered
        | refused ↦ answered
        | stopped ↦ answered
      ]

-- The file to send, as SendFileWorker finds it; `reads i` is whether the read of chunk `i` gives all
-- its bytes.
pub record SourceFile : Type 0 where
  pub name : Bytes
  pub is_file : Bool
  pub size_known : Bool
  pub content : Bytes
  pub has_path : Bool
  pub opens : Bool
  pub reads : ℕ → Bool

-- How SendFileWorker ends.
pub data Outcome : Type 0 where
  not_started : Outcome
  metadata_refused : Outcome
  metadata_failed : Outcome
  read_error : Outcome
  chunk_refused : Outcome
  chunk_failed : Outcome
  interrupted : Outcome
  sent_all : Outcome

module _ {E : Type 0} (net : Network E) (peer_id : Bytes) (file : SourceFile)
    (transfer_id : ℕ) where
  -- The loop over the chunks from `i` on, `left` of them.
  unfoldable pub send_chunks : ℕ → ℕ → ℕ → Transfers → E → Transfers × E × Outcome
  send_chunks i zero n s out = (s, out, if s.running then sent_all else interrupted)
  send_chunks i (suc left) n s out =
      let payload = chunk_of file.content i in
      let attempt =
        send_packet_with_ack net peer_id (build_file_chunk_packet transfer_id i payload) transfer_id
          i 10 n s out in
      let rest = send_chunks (i + 1) left attempt.calls attempt.state attempt.outside in
      if not s.running
      then (s, out, interrupted)
      else if ltb 0 (length payload) && not (file.reads i)
      then (s, out, read_error)
      else elim attempt.result [
        | acked ↦ rest
        | refused ↦ (attempt.state, attempt.outside, chunk_refused)
        | timeout ↦ (attempt.state, attempt.outside, chunk_failed)
        | stopped ↦ (attempt.state, attempt.outside, chunk_failed)
      ]

  -- SendFileWorker; `transfer_id` is what nextFileTransferId gives.
  unfoldable pub send_file_worker : Transfers → E → Transfers × E × Outcome
  send_file_worker s out =
      let size = length file.content in
      let chunk_count = file_chunk_count size in
      let packet =
        build_file_meta_packet transfer_id chunk_count size (sanitize_file_name file.name) in
      let attempt =
        send_packet_with_ack net peer_id packet transfer_id file_meta_chunk_index 40 0 s out in
      if not file.is_file
        || not file.size_known
        || ltb max_file_transfer_bytes size
        || not file.has_path
        || not file.opens
      then (s, out, not_started)
      else elim attempt.result [
        | acked ↦ send_chunks 0 chunk_count attempt.calls attempt.state attempt.outside
        | refused ↦ (attempt.state, attempt.outside, metadata_refused)
        | timeout ↦ (attempt.state, attempt.outside, metadata_failed)
        | stopped ↦ (attempt.state, attempt.outside, metadata_failed)
      ]
