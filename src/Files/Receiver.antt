-- ===== src/Files/Receiver.antt =====
-- HandleIncomingFilePacket. A result of none is a read past the end of the packet.
pub mod Bounds
use neko_chat.Common.{ℕ, true, false, Option, some, length, ltb, ◌==◌, if◌then◌else◌}
use neko_chat.Common.Text.{Bytes, is_empty}
use neko_chat.Common.Assoc.{nat_key, bytes_key}
use neko_chat.Wire.Words.{load8}
use neko_chat.Files.Packets.{
  file_packet_meta, file_packet_data, file_packet_ack, file_packet_reject, ack_header_size,
  reject_header_size, read_chunk_header, read_reject_header, ◌>>=◌,
}
use neko_chat.Files.State.{Transfers}
use neko_chat.Files.Cleanup.{cleanup_file_transfers}
use neko_chat.Files.Answers.{handle_file_ack_packet, handle_file_reject_packet}
use neko_chat.Files.Meta.{handle_meta}
use neko_chat.Files.Data.{handle_data}

unfoldable pub handle_ack : Bytes → Transfers → Option Transfers
handle_ack bytes s = if ltb (length bytes) ack_header_size then some s else do
  ack ← read_chunk_header bytes
  some (handle_file_ack_packet ack.transfer_id ack.chunk_index s)

unfoldable pub handle_reject : Bytes → Transfers → Option Transfers
handle_reject bytes s =
    if ltb (length bytes) reject_header_size
    then some s
    else do transfer_id ← read_reject_header bytes; some (handle_file_reject_packet transfer_id s)

-- HandleIncomingFilePacket
unfoldable pub handle_incoming_file_packet : Bytes → Bytes → ℕ → Transfers → Option Transfers
unfolding is_empty
handle_incoming_file_packet peer_id bytes now s = elim (is_empty bytes) [
  | true ↦ some s
  | false ↦ do
    kind ← load8 bytes 0
    let cleaned = cleanup_file_transfers now s
    if kind == file_packet_ack
        then handle_ack bytes s
        else if kind == file_packet_reject
        then handle_reject bytes s
        else if kind == file_packet_meta
        then handle_meta peer_id bytes now cleaned
        else if kind == file_packet_data
        then handle_data peer_id bytes now cleaned
        else some cleaned
]
