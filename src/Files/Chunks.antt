-- ===== src/Files/Chunks.antt =====
-- How SendFileWorker cuts a file: the number of chunks and the bytes of each, and how the chunks
-- join up again.
use neko_chat.Common.{
  ℕ, ◌+◌, ◌-◌, ◌*◌, ◌/◌, ◌<◌, ◌≡◌, ap, ◌∙◌, ◌++◌, take, drop, length, max, min, arith, take-add,
  length-take, length-drop, take-length, sym, ltb, if◌then◌else◌,
}
use neko_chat.Common.Text.{Bytes}
use neko_chat.Files.Packets.{file_chunk_payload}
use neko_chat.Files.Data.{chunk_size}

-- chunkCount of SendFileWorker: at least one, also for an empty file.
unfoldable pub file_chunk_count : ℕ → ℕ
file_chunk_count file_size = max 1 ((file_size + file_chunk_payload - 1) / file_chunk_payload)

-- The bytes that the loop of SendFileWorker reads in round `i`.
unfoldable pub chunk_of : Bytes → ℕ → Bytes
chunk_of file i = take file_chunk_payload (drop (i * file_chunk_payload) file)

-- What has been read after `i` rounds.
abbrev pub prefix_of : Bytes → ℕ → Bytes
prefix_of file i = take (i * file_chunk_payload) file

left_over : (x total : ℕ) → (if ltb x total then total - x else 0) ≡ total - x
left_over x total = ground arith

pub chunk_size-min : (total i : ℕ) → chunk_size total i ≡ min 1024 (total - i * 1024)
unfolding chunk_size
chunk_size-min total i = ap (min 1024) (left_over (i * 1024) total)

pub length-chunk_of : (file : Bytes) (i : ℕ) → length (chunk_of file i) ≡ chunk_size (length file) i
unfolding chunk_of
length-chunk_of file i =
    length-take 1024 (drop (i * 1024) file)
    ∙ ap (min 1024) (length-drop (i * 1024) file)
    ∙ sym (chunk_size-min (length file) i)

pub prefix_of-suc :
    (file : Bytes) (i : ℕ) → prefix_of file i ++ chunk_of file i ≡ prefix_of file (i + 1)
unfolding chunk_of
prefix_of-suc file i = take-add (i * 1024) 1024 file ∙ ap (λ (n : ℕ). take n file) (omega arith)

pub prefix_of-count : (file : Bytes) → prefix_of file (file_chunk_count (length file)) ≡ file
unfolding file_chunk_count
prefix_of-count file = take-length file _ (omega arith)

pub length-prefix_of-lt :
    (file : Bytes) (i : ℕ)
    → i < file_chunk_count (length file)
    → length (prefix_of file i) ≡ i * file_chunk_payload
unfolding file_chunk_count
length-prefix_of-lt file i h = omega (arith, length-take (i * 1024) file)
