-- ===== src/Files/Answers.antt =====
-- The answers of the receiver, and the sender's tables that incoming answers fill.
use neko_chat.Common.{ℕ}
use neko_chat.Common.Text.{Bytes}
use neko_chat.Common.Assoc.{nat_key, bytes_key, put, modify}
use neko_chat.Files.Names.{make_file_ack_key}
use neko_chat.Files.Packets.{build_file_ack_packet, build_file_reject_packet}
use neko_chat.Files.State.{Transfers, send_buffer_to_peer}

-- HandleFileAckPacket, HandleFileRejectPacket
unfoldable pub handle_file_ack_packet : ℕ → ℕ → Transfers → Transfers
handle_file_ack_packet transfer_id chunk_index s = record s {
  acknowledgements = put (make_file_ack_key transfer_id chunk_index) tt s.acknowledgements;
}

unfoldable pub handle_file_reject_packet : ℕ → Transfers → Transfers
handle_file_reject_packet transfer_id s = record s {
  rejected_ids = put transfer_id tt s.rejected_ids;
}

-- The answers of HandleIncomingFilePacket.
abbrev pub respond_ack : Bytes → ℕ → ℕ → Transfers → Transfers
respond_ack peer_id transfer_id chunk_index s =
    send_buffer_to_peer peer_id (build_file_ack_packet transfer_id chunk_index) s

-- A refused transfer is refused again, and stays refused for longer.
abbrev pub respond_reject : Bytes → Bytes → ℕ → ℕ → Transfers → Transfers
respond_reject peer_id transfer_key transfer_id now s =
    send_buffer_to_peer peer_id (build_file_reject_packet transfer_id)
      (record s { rejected = modify transfer_key (λ _. now) s.rejected })
