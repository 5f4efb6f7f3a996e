-- ===== src/Screen/Tests.antt =====
-- Screen frames on a small frame, which is one chunk.
use neko_chat.Common.{All, true, ◌≤◌, ◌≡◌, refl, some, [], ◌∷◌, drop, length, arith}
use neko_chat.Common.Text.{Bytes}
use neko_chat.Screen.{
  Assembly, build_screen_packet, read_screen_header, header_of, cut_of, screen_header_size,
  empty_assembly, assemble, complete, screen_chunk_count,
}
use neko_chat.Screen.Packets.{screen_packet_round_trips}
use neko_chat.Screen.Assembling.{HasStored, IsPart, assemble-IsPart}

abbrev small_frame : Bytes
small_frame = 255 ∷ 216 ∷ 255 ∷ []

one_chunk : screen_chunk_count (length small_frame) ≡ 1
unfolding screen_chunk_count
one_chunk = refl

screen_packet_round_trips_example :
    (read_screen_header
        (drop 1 (build_screen_packet (header_of 7 small_frame 0) (cut_of small_frame 0)))
      ≡ some (header_of 7 small_frame 0))
    × (drop screen_header_size
          (drop 1 (build_screen_packet (header_of 7 small_frame 0) (cut_of small_frame 0)))
        ≡ cut_of small_frame 0)
    × (1 ≤ length (cut_of small_frame 0))
screen_packet_round_trips_example =
    screen_packet_round_trips 7 0 small_frame (omega arith) (omega (arith, one_chunk))
      (omega (arith, one_chunk)) (omega arith)

assemble-IsPart_example :
    (a : Assembly) × (assemble
        (header_of 7 small_frame 0)
        (cut_of small_frame 0)
        50
        (empty_assembly 40)
      ≡ some a)
    × IsPart small_frame a
    × HasStored 7 0 small_frame (empty_assembly 40) a
    × (All (λ r. r ≡ true) a.received → complete a ≡ some small_frame)
    × ((out : Bytes) → complete a ≡ some out → out ≡ small_frame)
assemble-IsPart_example =
    assemble-IsPart small_frame 7 0 50 (empty_assembly 40) (omega (arith, one_chunk))
      (λ e. absurd (omega (arith, e)))
