-- ===== src/Files/Prefix/Writes.antt =====
-- The operations on the disk and the files under way.
use neko_chat.Common.{
  ℕ, ◌+◌, ◌≡◌, refl, sym, ap, ap₂, ◌∙◌, true, Option, some, ◌++◌, length, arith, append-nil,
  Option-cases, take-append_left, drop-length, Bool-cases, inl, inr,
}
use neko_chat.Common.Text.{Bytes}
use neko_chat.Common.Assoc.{
  bytes_key, lookup, put, erase, lookup-put_ne, lookup-put_self, lookup-erase_ne, lookup-modify_ne,
}
use neko_chat.Files.Disk.{Disk, next_ok, splice, write_at, close, rename, remove, content_of}
use neko_chat.Files.State.{Incoming}
use neko_chat.Files.Chunks.{chunk_of, prefix_of, prefix_of-suc}
use neko_chat.Files.Prefix.{HoldsPrefix}
use neko_chat.Files.Prefix.Tables.{SameElsewhere}

-- A write at the end of a file appends.
splice_end : (content bytes : Bytes) → splice content (length content) bytes ≡ content ++ bytes
unfolding splice
splice_end content bytes =
    ap₂ (λ (x y : Bytes). x ++ (bytes ++ y)) (take-append_left content _)
      (drop-length content _ (omega arith))
    ∙ ap (λ (x : Bytes). content ++ x) (append-nil bytes)

pub write_at-elsewhere :
    (p q : Bytes) (pos : ℕ) (bytes : Bytes) (d : Disk)
    → SameElsewhere p q d (write_at p pos bytes d)
unfolding write_at
write_at-elsewhere p q pos bytes d = record {
  same = λ r hp hq. elim (Bool-cases (d.fails d.operations)) [
    | inl e ↦ rw e refl
    | inr e ↦ rw e (lookup-put_ne p r _ d.files (λ x. hp (sym x)))
  ];
}

pub rename-elsewhere : (p q : Bytes) (d : Disk) → SameElsewhere p q d (rename p q d)
unfolding rename
rename-elsewhere p q d = record {
  same = λ r hp hq. elim (Bool-cases (d.fails d.operations)) [
    | inl e ↦ rw e refl
    | inr e ↦ rw e (
        lookup-put_ne q r _ (erase p d.files) (λ x. hq (sym x))
        ∙ lookup-erase_ne p r d.files (λ x. hp (sym x)))
  ];
}

pub close-elsewhere : (p q : Bytes) (d : Disk) → SameElsewhere p q d (close p d)
unfolding close
close-elsewhere p q d = record {
  same = λ r hp hq. elim (Option-cases (d.unflushed d.operations)) [
    | inl e ↦ rw (e, close) refl
    | inr (kept, e) ↦ rw (e, close) (lookup-modify_ne p r _ d.files (λ x. hp (sym x)))
  ];
}

pub remove-elsewhere : (p q : Bytes) (d : Disk) → SameElsewhere p q d (remove p d)
unfolding remove
remove-elsewhere p q d = record { same = λ r hp hq. lookup-erase_ne p r d.files (λ x. hp (sym x)) }

pub files-write_at :
    (p : Bytes) (pos : ℕ) (bytes : Bytes) (d : Disk)
    → next_ok d ≡ true
    → (write_at p pos bytes d).files
      ≡ put p (splice (content_of (lookup p d.files)) pos bytes) d.files
unfolding write_at
files-write_at p pos bytes d ok = rw ok refl

pub files-rename :
    (p q : Bytes) (d : Disk)
    → next_ok d ≡ true
    → (rename p q d).files ≡ put q (content_of (lookup p d.files)) (erase p d.files)
unfolding rename
files-rename p q d ok = rw ok refl

-- The chunk that is next, written at the stream's position, extends the prefix by one chunk.
pub content-write_at :
    (file : Bytes) (d : Disk) (t : Incoming)
    → HoldsPrefix file d t
    → next_ok d ≡ true
    → lookup t.temp_path
        (write_at t.temp_path t.stream_pos (chunk_of file t.next_chunk_index) d).files
      ≡ some (prefix_of file (t.next_chunk_index + 1))
content-write_at file d t h ok =
    ap (lookup t.temp_path) (files-write_at t.temp_path t.stream_pos _ d ok)
    ∙ lookup-put_self t.temp_path _ d.files
    ∙ ap some (
        ap₂ (λ (c : Bytes) (n : ℕ). splice c n (chunk_of file t.next_chunk_index))
          (ap content_of h.content) (h.position ∙ h.written)
        ∙ splice_end (prefix_of file t.next_chunk_index) (chunk_of file t.next_chunk_index)
        ∙ prefix_of-suc file t.next_chunk_index)

-- A file that holds a prefix keeps it under a new name.
pub content-rename :
    (p q content : Bytes) (d : Disk)
    → next_ok d ≡ true
    → lookup p d.files ≡ some content
    → lookup q (rename p q d).files ≡ some content
content-rename p q content d ok h =
    ap (lookup q) (files-rename p q d ok)
    ∙ lookup-put_self q _ (erase p d.files)
    ∙ ap (λ (o : Option Bytes). some (content_of o)) h
