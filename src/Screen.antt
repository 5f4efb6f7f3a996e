-- ===== src/Screen.antt =====
-- Screen frames in P2PChat.cpp: SendScreenFrame cuts a frame into packets, and
-- HandleIncomingScreenChunk puts it together again.
pub mod Cutting
pub mod Assembling
pub mod Packets
mod Tests
use neko_chat.Common.{
  ℕ, zero, suc, ◌+◌, ◌-◌, ◌*◌, ◌/◌, ◌%◌, ◌^◌, Bool, true, false, ◌&&◌, ◌||◌, not, Option, none,
  some, List, [], ◌∷◌, ◌++◌, map, take, drop, length, set, get_elem?, replicate, ltb, leb, ◌==◌,
  if◌then◌else◌,
}
use neko_chat.Common.Text.{Bytes, is_empty}
use neko_chat.Common.Assoc.{Map, bytes_key, lookup, put, erase, keep}
use neko_chat.Wire.Words.{htons, htonl, mem16, mem32, load16, load32}
use neko_chat.Files.Packets.{◌>>=◌}

abbrev pub packet_screen : ℕ
packet_screen = 3

abbrev pub screen_chunk_payload : ℕ
screen_chunk_payload = 1100

abbrev pub max_screen_chunks : ℕ
max_screen_chunks = 512

abbrev pub screen_header_size : ℕ
screen_header_size = 10

-- ScreenChunkHeader, its fields in the sender's byte order.
pub record ScreenChunkHeader : Type 0 where
  pub frame_id : ℕ
  pub chunk_index : ℕ
  pub chunk_count : ℕ
  pub total_size : ℕ

-- ScreenRxAssembly
pub record Assembly : Type 0 where
  pub frame_id : ℕ
  pub chunk_count : ℕ
  pub total_size : ℕ
  pub chunks : List Bytes
  pub received : List Bool
  pub received_count : ℕ
  pub received_bytes : ℕ
  pub last_update : ℕ

-- chunkCount of SendScreenFrame
unfoldable pub screen_chunk_count : ℕ → ℕ
screen_chunk_count total_size = (total_size + screen_chunk_payload - 1) / screen_chunk_payload

-- The bytes of a frame that its packet `i` carries.
unfoldable pub cut_of : Bytes → ℕ → Bytes
cut_of jpeg i = take screen_chunk_payload (drop (i * screen_chunk_payload) jpeg)

unfoldable pub build_screen_packet : ScreenChunkHeader → Bytes → Bytes
build_screen_packet h payload =
    packet_screen ∷ mem16 (htons h.frame_id)
    ++ (mem16 (htons (h.chunk_index % 2 ^ 16))
        ++ (mem16 (htons (h.chunk_count % 2 ^ 16))
            ++ (mem32 (htonl (h.total_size % 2 ^ 32)) ++ payload)))

abbrev pub header_of : ℕ → Bytes → ℕ → ScreenChunkHeader
header_of frame_id jpeg i = record {
  frame_id = frame_id;
  chunk_index = i;
  chunk_count = screen_chunk_count (length jpeg);
  total_size = length jpeg;
}

-- The packets from `i` on, `left` of them, each sent to every endpoint.
unfoldable pub screen_packets : List Bytes → ℕ → Bytes → ℕ → ℕ → List (Bytes × Bytes)
screen_packets endpoints frame_id jpeg i zero = []
screen_packets endpoints frame_id jpeg i (suc left) =
    map (λ e. (e, build_screen_packet (header_of frame_id jpeg i) (cut_of jpeg i))) endpoints
    ++ screen_packets endpoints frame_id jpeg (i + 1) left

-- SendScreenFrame: what is sent to whom, and nextScreenFrameId afterwards. `endpoints` is what
-- ResolveScreenTargets finds.
unfoldable pub send_screen_frame : List Bytes → Bytes → ℕ → List (Bytes × Bytes) × ℕ
send_screen_frame endpoints jpeg next_frame_id =
    let count = screen_chunk_count (length jpeg) in
    if is_empty jpeg || length endpoints == 0 || count == 0 || ltb max_screen_chunks count
    then ([], next_frame_id)
    else (screen_packets endpoints next_frame_id jpeg 0 count, (next_frame_id + 1) % 2 ^ 16)

unfoldable pub read_screen_header : Bytes → Option ScreenChunkHeader
read_screen_header bytes = do
  frame_id ← load16 bytes 0
  chunk_index ← load16 bytes 2
  chunk_count ← load16 bytes 4
  total_size ← load32 bytes 6
  some (record {
    frame_id = htons frame_id;
    chunk_index = htons chunk_index;
    chunk_count = htons chunk_count;
    total_size = htonl total_size;
  })

-- The tests on a header and its payload's length.
unfoldable pub refuses_header : ScreenChunkHeader → ℕ → Bool
refuses_header h payload_len =
    h.chunk_count == 0
    || ltb max_screen_chunks h.chunk_count
    || leb h.chunk_count h.chunk_index
    || payload_len == 0
    || h.total_size == 0
    || ltb (8 * 1024 * 1024) h.total_size

-- The assembly for a header: a new one unless the one there is of the same frame.
unfoldable pub restart : ScreenChunkHeader → ℕ → Assembly → Assembly
restart h now a =
    if not (a.frame_id == h.frame_id)
      || not (a.chunk_count == h.chunk_count)
      || not (a.total_size == h.total_size)
    then record {
      frame_id = h.frame_id;
      chunk_count = h.chunk_count;
      total_size = h.total_size;
      chunks = replicate h.chunk_count [];
      received = replicate h.chunk_count false;
      received_count = 0;
      received_bytes = 0;
      last_update = now;
    }
    else record a { last_update = now }

-- A chunk that has not come before is stored; none is an index out of range.
unfoldable pub store_chunk : ℕ → Bytes → Assembly → Option Assembly
store_chunk i payload a = do
  seen ← get_elem? a.received i
  some (
      if seen then a else record a {
        chunks = set a.chunks i payload;
        received = set a.received i true;
        received_count = a.received_count + 1;
        received_bytes = a.received_bytes + length payload;
      })

unfoldable pub join_chunks : List Bytes → Bytes
join_chunks [] = []
join_chunks (c ∷ cs) = c ++ join_chunks cs

-- The frame of an assembly that has all its chunks.
unfoldable pub complete : Assembly → Option Bytes
complete a =
    if a.received_count == a.chunk_count
    then some (
        let jpeg = join_chunks a.chunks in
        if ltb a.total_size (length jpeg) then take a.total_size jpeg else jpeg)
    else none

-- A default-constructed ScreenRxAssembly, which `screenRxBuffers[peerId]` makes.
abbrev pub empty_assembly : ℕ → Assembly
empty_assembly now = record {
  frame_id = 0;
  chunk_count = 0;
  total_size = 0;
  chunks = [];
  received = [];
  received_count = 0;
  received_bytes = 0;
  last_update = now;
}

-- The assembly after a chunk.
unfoldable pub assemble : ScreenChunkHeader → Bytes → ℕ → Assembly → Option Assembly
assemble h payload now a = store_chunk h.chunk_index payload (restart h now a)

abbrev pub assembly_or : ℕ → Option Assembly → Assembly
assembly_or now none = empty_assembly now
assembly_or now (some a) = a

-- HandleIncomingScreenChunk up to the decoding: the buffers, and the frame if it is complete. A
-- result of none is an access out of range.
unfoldable pub handle_incoming_screen_chunk :
    Bytes → Bytes → ℕ → Map Bytes Assembly → Option (Map Bytes Assembly × Option Bytes)
handle_incoming_screen_chunk peer_id bytes now buffers =
    if leb (length bytes) screen_header_size then some (buffers, none) else do
      h ← read_screen_header bytes
      let payload = drop screen_header_size bytes
      let kept = keep (λ a. leb (now - a.last_update) 5000) buffers
      if refuses_header h (length payload) then some (buffers, none) else do
        a ← assemble h payload now (assembly_or now (lookup peer_id kept))
        some (finish kept a)
  where
    finish : Map Bytes Assembly → Assembly → Map Bytes Assembly × Option Bytes
    finish kept a = elim (complete a) [
      | none ↦ (put peer_id a kept, none)
      | some jpeg ↦ (erase peer_id kept, some jpeg)
    ]
