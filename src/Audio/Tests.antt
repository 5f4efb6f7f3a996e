-- ===== src/Audio/Tests.antt =====
-- Playback buffers at concrete inputs.
use neko_chat.Common.{◌≡◌, refl, ℕ, true, [], ◌∷◌, ◌++◌, some, drop, replicate, arith}
use neko_chat.Common.Text.{Bytes, codes, bytes_eq}
use neko_chat.Common.Assoc.{bytes_key, lookup}
use neko_chat.Audio.{SourceBuffer, Playback, play_frame_from_source, take_frames, store_frame}
use neko_chat.Audio.Buffers.{AreBuffers, IsNewest, playback-AreBuffers, store_frame-IsNewest}

abbrev silence : Bytes
silence = replicate 960 0

abbrev bo_buffer : SourceBuffer
bo_buffer = record { frames = silence ∷ []; last_seen = 40 }

abbrev bo_speaks : Playback
bo_speaks = record { sources = (codes "bo", bo_buffer) ∷ []; overflow_drops = 0; has_output = true }

bo_speaks-AreBuffers : AreBuffers bo_speaks.sources
bo_speaks-AreBuffers = (record { bounded = omega arith; whole = (refl, tt) }, tt)

playback-AreBuffers_example :
    AreBuffers (play_frame_from_source true (codes "al") (codes "hum") 50 bo_speaks).sources
    × AreBuffers (take_frames 50 bo_speaks.sources).0
playback-AreBuffers_example =
    playback-AreBuffers true (codes "al") (codes "hum") 50 bo_speaks bo_speaks-AreBuffers

store_frame-IsNewest_example :
    (k : ℕ) × (lookup (codes "bo") (store_frame (codes "bo") silence 50 bo_speaks).sources
      ≡ some (record { frames = drop k bo_buffer.frames ++ silence ∷ []; last_seen = 50 }))
    × IsNewest k bo_buffer.frames
unfolding lookup bytes_eq
store_frame-IsNewest_example = store_frame-IsNewest (codes "bo") silence 50 bo_speaks bo_buffer refl
