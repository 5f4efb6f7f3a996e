-- ===== src/Files/Disk.antt =====
-- What the receiver uses of std::filesystem and std::ofstream: files by path, where a file that is
-- open has the bytes written to its stream so far. Whether an operation fails is the oracle's
-- choice, one answer for each operation in turn; and so is whether a close gets the bytes of the
-- stream's buffer to the disk or cuts the file short. A close directly before the file is removed
-- is left out.
pub mod Reliable
use neko_chat.Common.{
  ℕ, ◌+◌, ◌-◌, Bool, true, false, not, Option, none, some, [], ◌++◌, take, drop, length, replicate,
  if◌then◌else◌,
}
use neko_chat.Common.Text.{Bytes}
use neko_chat.Common.Assoc.{Map, bytes_key, lookup, put, erase, modify}

-- `unflushed` says, for a close, how many bytes of the file reach the disk if not all do.
pub record Disk : Type 0 where
  pub files : Map Bytes Bytes
  pub fails : ℕ → Bool
  pub unflushed : ℕ → Option ℕ
  pub operations : ℕ

-- Whether the next operation succeeds.
unfoldable pub next_ok : Disk → Bool
next_ok d = not (d.fails d.operations)

unfoldable pub tick : Disk → Disk
tick d = record d { operations = d.operations + 1 }

-- exists(path)
unfoldable pub exists : Bytes → Disk → Bool
exists path d = elim (lookup path d.files) [ none ↦ false | some content ↦ true ]

-- remove(path, ec), whose error the program ignores
unfoldable pub remove : Bytes → Disk → Disk
remove path d = record d { files = erase path d.files }

-- ofstream::open with `binary | trunc`
unfoldable pub open_trunc : Bytes → Disk → Disk
unfolding tick next_ok
open_trunc path d =
    let d' = tick d in if next_ok d then record d' { files = put path [] d'.files } else d'

-- A write at a position: the bytes before it stay, with zeros where the file ends before it.
unfoldable pub splice : Bytes → ℕ → Bytes → Bytes
splice content pos bytes =
    take pos (content ++ replicate (pos - length content) 0)
    ++ (bytes ++ drop (pos + length bytes) content)

abbrev pub content_of : Option Bytes → Bytes
content_of none = []
content_of (some content) = content

-- ofstream::write at the stream's position
unfoldable pub write_at : Bytes → ℕ → Bytes → Disk → Disk
unfolding tick next_ok
write_at path pos bytes d =
    let d' = tick d in
    if next_ok d
    then record d' {
      files = put path (splice (content_of (lookup path d'.files)) pos bytes) d'.files;
    }
    else d'

-- ofstream::close, whose failure the program does not look at
unfoldable pub close : Bytes → Disk → Disk
unfolding tick
close path d =
    let d' = tick d in
    elim (d.unflushed d.operations) [
      | none ↦ d'
      | some kept ↦ record d' { files = modify path (take kept) d'.files }
    ]

-- rename(from, to, ec), which replaces what stands at `to`
unfoldable pub rename : Bytes → Bytes → Disk → Disk
unfolding tick next_ok
rename from to d =
    let d' = tick d in
    if next_ok d
    then record d' { files = put to (content_of (lookup from d'.files)) (erase from d'.files) }
    else d'
