-- ===== src/Audio.antt =====
-- The playback buffers of AudioEngine.hpp: PlayFrameFromSource, CleanupIdleSourcesLocked,
-- GetMaxBufferedFramesLocked, GetActiveSourceCountLocked and the frames that MixNextFrameLocked takes.
pub mod Buffers
mod Tests
use neko_chat.Common.{
  ℕ, zero, suc, ◌+◌, ◌-◌, ◌%◌, min, max, Bool, true, false, ◌&&◌, ◌||◌, not, none, some, List, [],
  ◌∷◌, ◌++◌, length, take, drop, replicate, ltb, leb, ◌==◌, if◌then◌else◌,
}
use neko_chat.Common.Text.{Bytes, codes, is_empty}
use neko_chat.Common.Assoc.{Map, Key, bytes_key, lookup, insert}

-- FRAME_BYTES, TARGET_SOURCE_BUFFER_FRAMES, MAX_SOURCE_BUFFER_FRAMES, SOURCE_IDLE_TIMEOUT in
-- milliseconds
abbrev pub frame_bytes : ℕ
frame_bytes = 960

abbrev pub target_source_buffer_frames : ℕ
target_source_buffer_frames = 6

abbrev pub max_source_buffer_frames : ℕ
max_source_buffer_frames = 18

abbrev pub source_idle_timeout : ℕ
source_idle_timeout = 3000

-- SourceBuffer; its last frame and its count of concealed frames are of the mixer.
pub record SourceBuffer : Type 0 where
  pub frames : List Bytes
  pub last_seen : ℕ

-- playbackSources and playbackOverflowDrops; `has_output` is whether hOut is open.
pub record Playback : Type 0 where
  pub sources : Map Bytes SourceBuffer
  pub overflow_drops : ℕ
  pub has_output : Bool

-- `playbackSources[key]`
unfoldable pub source_at : Bytes → ℕ → Map Bytes SourceBuffer → SourceBuffer
source_at key now sources = elim (lookup key sources) [
  | none ↦ record { frames = []; last_seen = now }
  | some s ↦ s
]

-- The frames that stay when the buffer is full.
unfoldable pub trim_frames : List Bytes → List Bytes
trim_frames frames =
    if leb max_source_buffer_frames (length frames)
    then drop (length frames - target_source_buffer_frames) frames
    else frames

-- A frame of the first bytes of what came, filled up with zeros.
unfoldable pub frame_of : ℕ → Bytes → Bytes
frame_of aligned_len bytes = take aligned_len bytes ++ replicate (frame_bytes - aligned_len) 0

unfoldable pub aligned_length : Bytes → ℕ
aligned_length bytes = min frame_bytes (length bytes - length bytes % 2)

unfoldable pub has_no_frames : List Bytes → Bool
has_no_frames [] = true
has_no_frames (f ∷ fs) = false

unfoldable pub is_idle : ℕ → SourceBuffer → Bool
is_idle now s = has_no_frames s.frames && ltb source_idle_timeout (now - s.last_seen)

-- CleanupIdleSourcesLocked
unfoldable pub cleanup_idle_sources : ℕ → Map Bytes SourceBuffer → Map Bytes SourceBuffer
cleanup_idle_sources now [] = []
cleanup_idle_sources now ((key, s) ∷ sources) =
    let rest = cleanup_idle_sources now sources in if is_idle now s then rest else (key, s) ∷ rest

-- PlayFrameFromSource under its lock.
unfoldable pub store_frame : Bytes → Bytes → ℕ → Playback → Playback
store_frame key frame now p =
    let s = source_at key now p.sources in
    let kept = trim_frames s.frames in
    record p {
      sources =
          cleanup_idle_sources now
            (insert key (record { frames = kept ++ frame ∷ []; last_seen = now }) p.sources);
      overflow_drops = p.overflow_drops + (length s.frames - length kept);
    }

-- PlayFrameFromSource; `starts` is whether StartPlaying opens the output.
unfoldable pub play_frame_from_source : Bool → Bytes → Bytes → ℕ → Playback → Playback
play_frame_from_source starts source_id bytes now p =
    let opened = record p { has_output = p.has_output || starts } in
    let key = if is_empty source_id then codes "default" else source_id in
    let aligned_len = aligned_length bytes in
    if is_empty bytes
    then p
    else if not opened.has_output || leb aligned_len 0
    then opened
    else store_frame key (frame_of aligned_len bytes) now opened

-- The loop of MixNextFrameLocked: the sources that it leaves, and the ids of those that lose their
-- first frame; for a source with `frames`, and for all.
unfoldable pub take_frame :
    ℕ
    → Bytes
    → SourceBuffer
    → List Bytes
    → Map Bytes SourceBuffer × List Bytes
    → Map Bytes SourceBuffer × List Bytes
take_frame now key s [] (rest, taken) = (if is_idle now s then rest else (key, s) ∷ rest, taken)
take_frame now key s (f ∷ fs) (rest, taken) =
    let left = record s { frames = fs } in
    (if is_idle now left then rest else (key, left) ∷ rest, key ∷ taken)

unfoldable pub take_frames : ℕ → Map Bytes SourceBuffer → Map Bytes SourceBuffer × List Bytes
take_frames now [] = ([], [])
take_frames now ((key, s) ∷ sources) = take_frame now key s s.frames (take_frames now sources)

-- GetMaxBufferedFramesLocked
unfoldable pub get_max_buffered_frames : Map Bytes SourceBuffer → ℕ
get_max_buffered_frames [] = 0
get_max_buffered_frames ((key, s) ∷ sources) =
    max (length s.frames) (get_max_buffered_frames sources)

-- GetActiveSourceCountLocked
unfoldable pub get_active_source_count : Map Bytes SourceBuffer → ℕ
get_active_source_count [] = 0
get_active_source_count ((key, s) ∷ sources) =
    let rest = get_active_source_count sources in if has_no_frames s.frames then rest else suc rest
