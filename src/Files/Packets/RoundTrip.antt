-- ===== src/Files/Packets/RoundTrip.antt =====
-- The builders of packets beside the reads of HandleIncomingFilePacket.
use neko_chat.Common.{
  ℕ, ◌+◌, ◌*◌, ◌%◌, ◌/◌, ◌^◌, ◌<◌, ◌≡◌, refl, ap, ◌∙◌, some, length, arith, drop,
}
use neko_chat.Common.Text.{Bytes}
use neko_chat.Wire.Words.{
  load16, load32, load64, htons, htonl, host_to_network64, network_to_host64,
}
use neko_chat.Wire.Order.{host_to_network64-lt, htonl_twice, htonl-lt, network64, word32}
use neko_chat.Files.Packets.{
  build_file_meta_packet, build_file_chunk_packet, build_file_ack_packet, build_file_reject_packet,
  read_meta_header, read_chunk_header, read_reject_header, meta_header_size, chunk_header_size,
}

-- The bytes of a word in memory, read back.
abbrev join32 : ℕ → ℕ
join32 w =
    w % 256 + 256 * (w / 256 % 256) + 65536 * (w / 65536 % 256) + 16777216 * (w / 16777216 % 256)

field32 : (t : ℕ) → t < 2 ^ 32 → htonl (join32 (htonl t)) ≡ t
field32 t h = ap htonl (word32 (htonl t) (htonl-lt t)) ∙ htonl_twice t h

join64-host_to_network64 :
    (n : ℕ)
    → join32 (host_to_network64 n % 2 ^ 32) + 2 ^ 32 * join32 (host_to_network64 n / 2 ^ 32)
      ≡ host_to_network64 n
join64-host_to_network64 n = omega (
  arith,
  host_to_network64-lt n,
  word32 (host_to_network64 n % 2 ^ 32) (omega arith),
  word32 (host_to_network64 n / 2 ^ 32) (omega (arith, host_to_network64-lt n)),
)

field64 :
    (n : ℕ)
    → n < 2 ^ 64
    → network_to_host64
        (join32 (host_to_network64 n % 2 ^ 32) + 2 ^ 32 * join32 (host_to_network64 n / 2 ^ 32))
      ≡ n
field64 n h = ap network_to_host64 (join64-host_to_network64 n) ∙ (network64 n h).1

field16 :
    (w : ℕ)
    → w < 2 ^ 16
    → htons (htons (w % 2 ^ 16) % 256 + 256 * (htons (w % 2 ^ 16) / 256 % 256)) ≡ w
unfolding htons
field16 w h = omega arith

pub read_meta-build :
    (t c n : ℕ) (name : Bytes)
    → t < 2 ^ 32
    → c < 2 ^ 32
    → n < 2 ^ 64
    → length name < 2 ^ 16
    → read_meta_header (drop 1 (build_file_meta_packet t c n name))
      ≡ some
          (record { transfer_id = t; chunk_count = c; total_size = n; file_name_len = length name })
unfolding read_meta_header build_file_meta_packet load32 load16 load64
read_meta-build t c n name ht hc hn hl =
    rw (field32 t ht, field32 c hc, field64 n hn, field16 (length name) hl) refl

pub read_chunk-build :
    (t i : ℕ) (payload : Bytes)
    → t < 2 ^ 32
    → i < 2 ^ 32
    → read_chunk_header (drop 1 (build_file_chunk_packet t i payload))
      ≡ some (record { transfer_id = t; chunk_index = i })
unfolding read_chunk_header build_file_chunk_packet load32
read_chunk-build t i payload ht hi = rw (field32 t ht, field32 i hi) refl

pub read_ack-build :
    (t i : ℕ)
    → t < 2 ^ 32
    → i < 2 ^ 32
    → read_chunk_header (drop 1 (build_file_ack_packet t i))
      ≡ some (record { transfer_id = t; chunk_index = i })
unfolding read_chunk_header build_file_ack_packet load32
read_ack-build t i ht hi = rw (field32 t ht, field32 i hi) refl

read_reject-build :
    (t : ℕ) → t < 2 ^ 32 → read_reject_header (drop 1 (build_file_reject_packet t)) ≡ some t
unfolding read_reject_header build_file_reject_packet load32
read_reject-build t ht = rw (field32 t ht) refl

-- Every packet that is built reads back: for 32-bit numbers, a 64-bit size and a name that fits its
-- 16-bit length, the header read has the fields sent, and the bytes behind it are the name or the
-- payload.
pub packet_round_trips :
    (t c n i : ℕ) (name payload : Bytes)
    → t < 2 ^ 32
    → c < 2 ^ 32
    → n < 2 ^ 64
    → i < 2 ^ 32
    → length name < 2 ^ 16
    → (read_meta_header (drop 1 (build_file_meta_packet t c n name))
        ≡ some (record {
          transfer_id = t;
          chunk_count = c;
          total_size = n;
          file_name_len = length name;
        }))
      × (drop (1 + meta_header_size) (build_file_meta_packet t c n name) ≡ name)
      × (read_chunk_header (drop 1 (build_file_chunk_packet t i payload))
          ≡ some (record { transfer_id = t; chunk_index = i }))
      × (drop (1 + chunk_header_size) (build_file_chunk_packet t i payload) ≡ payload)
      × (read_chunk_header (drop 1 (build_file_ack_packet t i))
          ≡ some (record { transfer_id = t; chunk_index = i }))
      × (read_reject_header (drop 1 (build_file_reject_packet t)) ≡ some t)
unfolding build_file_meta_packet build_file_chunk_packet
packet_round_trips t c n i name payload ht hc hn hi hl = (
  read_meta-build t c n name ht hc hn hl,
  refl,
  read_chunk-build t i payload ht hi,
  refl,
  read_ack-build t i ht hi,
  read_reject-build t ht,
)
