-- ===== src/Files/Prefix/Begin.antt =====
-- BeginIncomingFileTransferLocked and the files under way.
use neko_chat.Common.{
  ℕ, ◌≡◌, refl, sym, ap, ◌∙◌, true, false, some, [], ◌∷◌, length, arith, All, Bool-cases, inl, inr,
}
use neko_chat.Common.Text.{Bytes}
use neko_chat.Common.Assoc.{Map, bytes_key, lookup, put, erase, lookup-put_self, lookup-put_ne}
use neko_chat.Files.Disk.{Disk, next_ok, tick, open_trunc}
use neko_chat.Files.Disk.Reliable.{files-tick, files-open_trunc}
use neko_chat.Files.State.{Incoming, Prompt, Transfers}
use neko_chat.Files.Begin.{begin_incoming_file_transfer, make_unique_path}
use neko_chat.Files.Begin.Paths.{begun, placed, target_dir, part_of, part_of-ne}
use neko_chat.Files.Chunks.{file_chunk_count}
use neko_chat.Files.Prefix.{HoldsPrefix, Apart, AllHold, IsGenuine}
use neko_chat.Files.Prefix.Tables.{SameElsewhere, AllHold-frame, All-erase, AllApart-erase}

-- Where a transfer's file goes.
abbrev pub destination : Transfers → Prompt → Bytes
destination s p = make_unique_path (tick s.disk) s.tick_count (target_dir s p.peer_id) p.file_name

files-open_trunc_failed :
    (path : Bytes) (d : Disk) → next_ok d ≡ false → (open_trunc path d).files ≡ d.files
unfolding open_trunc
files-open_trunc_failed path d bad = rw bad (files-tick d)

AllHold-files :
    (source : Bytes → Bytes) (d d' : Disk) (m : Map Bytes Incoming)
    → d'.files ≡ d.files
    → AllHold source d m
    → AllHold source d' m
AllHold-files source d d' [] same h = tt
AllHold-files source d d' ((k, u) ∷ m) same h = (
  record {
    total = h.0.total;
    count = h.0.count;
    begun = h.0.begun;
    written = h.0.written;
    position = h.0.position;
    renames = h.0.renames;
    content = ap (lookup u.temp_path) same ∙ h.0.content;
  },
  AllHold-files source d d' m same h.1,
)

same_files :
    (source : Bytes → Bytes) (s : Transfers) (d : Disk)
    → d.files ≡ s.disk.files
    → IsGenuine source s
    → IsGenuine source (record s { disk = d })
same_files source s d same g = record {
  holds = AllHold-files source s.disk d s.incoming same g.holds;
  apart = g.apart;
}

module _ (source : Bytes → Bytes) (key : Bytes) (p : Prompt) (now : ℕ) (s : Transfers) where
  placed-IsGenuine :
      (final : Bytes)
      → next_ok (tick s.disk) ≡ true
      → p.total_size ≡ length (source key)
      → p.chunk_count ≡ file_chunk_count (length (source key))
      → All (λ e. Apart (begun p now final) e.1) (erase key s.incoming)
      → IsGenuine source s
      → IsGenuine source (placed key p now final s)
  unfolding put
  placed-IsGenuine final ok total count apart g = record {
    holds = (
      record {
        total = total;
        count = count;
        begun = omega arith;
        written = refl;
        position = refl;
        content = opened;
        renames = part_of-ne final;
      },
      AllHold-frame source (begun p now final) s.disk _ _ elsewhere apart
          (All-erase (λ k u. HoldsPrefix (source k) s.disk u) key s.incoming g.holds),
    );
    apart = (apart, AllApart-erase key s.incoming g.apart);
  }
    where
      files : (open_trunc (part_of final) (tick s.disk)).files ≡ put (part_of final) [] s.disk.files
      files =
          files-open_trunc (part_of final) (tick s.disk) ok
          ∙ ap (put (part_of final) []) (files-tick s.disk)

      opened : lookup (part_of final) (open_trunc (part_of final) (tick s.disk)).files ≡ some []
      opened = ap (lookup (part_of final)) files ∙ lookup-put_self (part_of final) [] s.disk.files

      elsewhere :
          SameElsewhere (part_of final) final s.disk (open_trunc (part_of final) (tick s.disk))
      elsewhere = record {
        same = λ r hp hq.
            ap (lookup r) files ∙ lookup-put_ne (part_of final) r [] s.disk.files (λ e. hp (sym e));
      }

  -- Beginning to receive a file whose announced size and chunk count are the sender's keeps the
  -- files under way as prefixes of what is sent, also when the folder or the file cannot be made, if
  -- no other unfinished transfer uses the paths that the new one gets.
  pub begin-IsGenuine :
      p.total_size ≡ length (source key)
      → p.chunk_count ≡ file_chunk_count (length (source key))
      → All (λ e. Apart (begun p now (destination s p)) e.1) (erase key s.incoming)
      → IsGenuine source s
      → IsGenuine source (begin_incoming_file_transfer key p now s).0
  unfolding begin_incoming_file_transfer
  begin-IsGenuine total count apart g = elim (Bool-cases (next_ok s.disk)) [
    | inr no_dir ↦ rw no_dir (same_files source s (tick s.disk) (files-tick s.disk) g)
    | inl dir ↦ elim (Bool-cases (next_ok (tick s.disk))) [
      | inr no_file ↦
          rw (dir, no_file)
            (same_files source s _
              (files-open_trunc_failed _ (tick s.disk) no_file ∙ files-tick s.disk) g)
      | inl file ↦ rw (dir, file) (placed-IsGenuine (destination s p) file total count apart g)
    ]
  ]
