-- ===== src/Screen/Packets.antt =====
-- The packets of SendScreenFrame beside the reads of HandleIncomingScreenChunk.
use neko_chat.Common.{
  ℕ, ◌+◌, ◌*◌, ◌/◌, ◌%◌, ◌^◌, ◌≤◌, ◌<◌, ◌≡◌, refl, ap, ◌∙◌, some, drop, length, arith, length-take,
  length-drop,
}
use neko_chat.Common.Text.{Bytes}
use neko_chat.Wire.Words.{load16, load32, htons, htonl}
use neko_chat.Wire.Order.{htons_twice, htonl_twice, htonl-lt, htons-lt, word16, word32}
use neko_chat.Screen.{
  build_screen_packet, read_screen_header, cut_of, header_of, screen_chunk_count,
  screen_header_size,
}

field16 : (w : ℕ) → w < 2 ^ 16 → htons (htons w % 256 + 256 * (htons w / 256 % 256)) ≡ w
field16 w h = ap htons (word16 (htons w) (htons-lt w)) ∙ htons_twice w h

abbrev join32 : ℕ → ℕ
join32 w =
    w % 256 + 256 * (w / 256 % 256) + 65536 * (w / 65536 % 256) + 16777216 * (w / 16777216 % 256)

low16 :
    (w : ℕ)
    → w < 2 ^ 16
    → htons (htons (w % 2 ^ 16) % 256 + 256 * (htons (w % 2 ^ 16) / 256 % 256)) ≡ w
low16 w h = field16 (w % 2 ^ 16) (omega arith) ∙ omega arith

low32 : (w : ℕ) → w < 2 ^ 32 → htonl (join32 (htonl (w % 2 ^ 32))) ≡ w
low32 w h =
    ap htonl (word32 (htonl (w % 2 ^ 32)) (htonl-lt (w % 2 ^ 32)))
    ∙ htonl_twice (w % 2 ^ 32) (omega arith)
    ∙ omega arith

cut-not_empty :
    (jpeg : Bytes) (i : ℕ) → i < screen_chunk_count (length jpeg) → 1 ≤ length (cut_of jpeg i)
unfolding cut_of screen_chunk_count
cut-not_empty jpeg i h =
    omega (arith, length-take 1100 (drop (i * 1100) jpeg), length-drop (i * 1100) jpeg)

-- A packet of a frame reads back: for a frame id and a number of chunks that fit 16 bits and a size
-- that fits 32, the header read is the one sent, and the bytes behind it are the cut of the frame,
-- which is not empty.
pub screen_packet_round_trips :
    (frame_id i : ℕ) (jpeg : Bytes)
    → frame_id < 2 ^ 16
    → screen_chunk_count (length jpeg) < 2 ^ 16
    → i < screen_chunk_count (length jpeg)
    → length jpeg < 2 ^ 32
    → let bytes = drop 1 (build_screen_packet (header_of frame_id jpeg i) (cut_of jpeg i)) in
      (read_screen_header bytes ≡ some (header_of frame_id jpeg i))
      × (drop screen_header_size bytes ≡ cut_of jpeg i)
      × (1 ≤ length (cut_of jpeg i))
unfolding build_screen_packet read_screen_header load16 load32
screen_packet_round_trips frame_id i jpeg hf hc hi hl = (
  rw
      (
        field16 frame_id hf,
        low16 i (omega arith),
        low16 (screen_chunk_count (length jpeg)) hc,
        low32 (length jpeg) hl,
      )
      refl,
  refl,
  cut-not_empty jpeg i hi,
)
