-- ===== src/Files/Packets.antt =====
-- The packets of the file transfer: the packed headers of P2PChat.cpp, the functions that build
-- them, and the `memcpy` that reads a header back. `none` is a read past the end of the packet.
pub mod RoundTrip
use mathlib.Core.Option
use neko_chat.Common.{
  ℕ, zero, suc, ◌%◌, ◌^◌, ◌*◌, Option, none, some, List, [], ◌∷◌, ◌++◌, length, take, drop,
}
use neko_chat.Common.Text.{Bytes}
pub use neko_chat.Common.Options.{◌>>=◌}
use neko_chat.Wire.Words.{
  mem16, mem32, mem64, load8, load16, load32, load64, htons, htonl, host_to_network64,
  network_to_host64,
}

abbrev pub packet_file : ℕ
packet_file = 4

abbrev pub file_packet_meta : ℕ
file_packet_meta = 1

abbrev pub file_packet_data : ℕ
file_packet_data = 2

abbrev pub file_packet_ack : ℕ
file_packet_ack = 3

abbrev pub file_packet_reject : ℕ
file_packet_reject = 4

abbrev pub file_meta_chunk_index : ℕ
file_meta_chunk_index = 0xffff_ffff

abbrev pub file_chunk_payload : ℕ
file_chunk_payload = 1024

abbrev pub max_file_transfer_bytes : ℕ
max_file_transfer_bytes = 128 * 1024 * 1024

-- The sizes of the packed headers.
abbrev pub meta_header_size : ℕ
meta_header_size = 19

abbrev pub chunk_header_size : ℕ
chunk_header_size = 9

abbrev pub ack_header_size : ℕ
ack_header_size = 9

abbrev pub reject_header_size : ℕ
reject_header_size = 5

-- FileMetaHeader, its fields in the sender's byte order.
pub record FileMetaHeader : Type 0 where
  pub transfer_id : ℕ
  pub chunk_count : ℕ
  pub total_size : ℕ
  pub file_name_len : ℕ

-- FileChunkHeader and FileAckHeader
pub record FileChunkHeader : Type 0 where
  pub transfer_id : ℕ
  pub chunk_index : ℕ

-- BuildFileMetaPacket
unfoldable pub build_file_meta_packet : ℕ → ℕ → ℕ → Bytes → Bytes
build_file_meta_packet transfer_id chunk_count total_size file_name =
    packet_file ∷ file_packet_meta ∷ mem32 (htonl transfer_id)
    ++ (mem32 (htonl chunk_count)
        ++ (mem64 (host_to_network64 total_size)
            ++ (mem16 (htons (length file_name % 2 ^ 16)) ++ file_name)))

-- BuildFileChunkPacket
unfoldable pub build_file_chunk_packet : ℕ → ℕ → Bytes → Bytes
build_file_chunk_packet transfer_id chunk_index payload =
    packet_file ∷ file_packet_data ∷ mem32 (htonl transfer_id)
    ++ (mem32 (htonl chunk_index) ++ payload)

-- BuildFileAckPacket
unfoldable pub build_file_ack_packet : ℕ → ℕ → Bytes
build_file_ack_packet transfer_id chunk_index =
    packet_file ∷ file_packet_ack ∷ mem32 (htonl transfer_id) ++ mem32 (htonl chunk_index)

-- BuildFileRejectPacket
unfoldable pub build_file_reject_packet : ℕ → Bytes
build_file_reject_packet transfer_id = packet_file ∷ file_packet_reject ∷ mem32 (htonl transfer_id)

-- The header reads of HandleIncomingFilePacket, each field converted to host order; the first byte
-- of the packet, the packet type, has been taken off.
unfoldable pub read_meta_header : Bytes → Option FileMetaHeader
read_meta_header bytes = do
  transfer_id ← load32 bytes 1
  chunk_count ← load32 bytes 5
  total_size ← load64 bytes 9
  file_name_len ← load16 bytes 17
  some (record {
    transfer_id = htonl transfer_id;
    chunk_count = htonl chunk_count;
    total_size = network_to_host64 total_size;
    file_name_len = htons file_name_len;
  })

unfoldable pub read_chunk_header : Bytes → Option FileChunkHeader
read_chunk_header bytes = do
  transfer_id ← load32 bytes 1
  chunk_index ← load32 bytes 5
  some (record { transfer_id = htonl transfer_id; chunk_index = htonl chunk_index })

unfoldable pub read_reject_header : Bytes → Option ℕ
read_reject_header bytes = do transfer_id ← load32 bytes 1; some (htonl transfer_id)
