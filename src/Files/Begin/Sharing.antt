-- ===== src/Files/Begin/Sharing.antt =====
-- Two unfinished transfers of the same name from one peer.
use neko_chat.Common.{ℕ, ◌≡◌, ◌≢◌, refl, sym, ap, ap₂, ◌∙◌, Bool, false, some, []}
use neko_chat.Common.Text.{Bytes}
use neko_chat.Common.Assoc.{bytes_key, lookup, put, lookup-put_self, lookup-put_ne}
use neko_chat.Files.Disk.{Disk, tick, exists}
use neko_chat.Files.Disk.Reliable.{
  IsReliable, next_ok-IsReliable, tick-IsReliable, files-tick, files-open_trunc,
}
use neko_chat.Files.State.{Incoming, Prompt, Transfers, get_received_files_root}
use neko_chat.Files.Begin.{begin_incoming_file_transfer}
use neko_chat.Files.Begin.Paths.{
  begin_lem, make_unique_path-free, plain_path, target_dir, part_of, begun, placed,
}

exists-files :
    (path : Bytes) (d e : Disk)
    → lookup path d.files ≡ lookup path e.files
    → exists path d ≡ exists path e
unfolding exists
exists-files path d e h = rw (h, exists) refl

-- One begin on a disk without a file at the plain path.
begin_free :
    (key : Bytes) (p : Prompt) (now : ℕ) (s : Transfers)
    → exists (plain_path s p) s.disk ≡ false
    → IsReliable s.disk
    → (begin_incoming_file_transfer key p now s).0 ≡ placed key p now (plain_path s p) s
begin_free key p now s free r =
    ap (λ (x : Transfers × Bool). x.0)
      (begin_lem key p now s (next_ok-IsReliable s.disk r)
        (next_ok-IsReliable (tick s.disk) (tick-IsReliable s.disk r)))
    ∙ ap (λ (f : Bytes). placed key p now f s)
        (make_unique_path-free (tick s.disk) s.tick_count (target_dir s p.peer_id) p.file_name (
          exists-files (plain_path s p) (tick s.disk) s.disk
            (ap (lookup (plain_path s p)) (files-tick s.disk))
          ∙ free))

files-placed :
    (key : Bytes) (p : Prompt) (now : ℕ) (final : Bytes) (s : Transfers)
    → IsReliable s.disk
    → (placed key p now final s).disk.files ≡ put (part_of final) [] s.disk.files
files-placed key p now final s r =
    files-open_trunc (part_of final) (tick s.disk)
      (next_ok-IsReliable (tick s.disk) (tick-IsReliable s.disk r))
    ∙ ap (put (part_of final) []) (files-tick s.disk)

same_plain_path :
    (p q : Prompt) (s u : Transfers)
    → u.id ≡ s.id
    → u.current_path ≡ s.current_path
    → q.peer_id ≡ p.peer_id
    → q.file_name ≡ p.file_name
    → plain_path u q ≡ plain_path s p
unfolding get_received_files_root
same_plain_path p q s u id path peer name = cc

-- A second transfer that begins later, in any state `u` in which the first, `t`, is still under way
-- at its paths.
module _ (k1 k2 : Bytes) (p q : Prompt) (s u : Transfers) where
  -- On a disk that does not fail, with no file at the plain path of the name: a first transfer gets
  -- that path. As long as it is under way there and no file stands at the path, a second transfer
  -- of the same peer and the same file name, however much of the first has come, gets the same
  -- temporary file and the same final path; it empties the temporary file, and the first transfer
  -- goes on as if its chunks were still there.
  pub same_name_shares :
      (now later : ℕ) (t : Incoming)
      → k1 ≢ k2
      → q.peer_id ≡ p.peer_id
      → q.file_name ≡ p.file_name
      → exists (plain_path s p) s.disk ≡ false
      → IsReliable s.disk
      → u.id ≡ s.id
      → u.current_path ≡ s.current_path
      → lookup k1 u.incoming ≡ some t
      → t.temp_path ≡ part_of (plain_path s p)
      → t.final_path ≡ plain_path s p
      → exists (plain_path s p) u.disk ≡ false
      → IsReliable u.disk
      → let u' = (begin_incoming_file_transfer k2 q later u).0 in
        (lookup k1 (begin_incoming_file_transfer k1 p now s).0.incoming
          ≡ some (begun p now (plain_path s p)))
        × (lookup k2 u'.incoming ≡ some (begun q later (plain_path s p)))
        × (lookup k1 u'.incoming ≡ some t)
        × (lookup t.temp_path u'.disk.files ≡ some [])
  same_name_shares now later t ne peer name free r id path under_way temp final free' r' =
      let same : plain_path u q ≡ plain_path s p = same_plain_path p q s u id path peer name in
      let second : (begin_incoming_file_transfer k2 q later u).0
          ≡ placed k2 q later (plain_path s p) u =
        begin_free k2 q later u (ap (λ (x : Bytes). exists x u.disk) same ∙ free') r'
        ∙ ap (λ (x : Bytes). placed k2 q later x u) same in
      (
        ap (λ (x : Transfers). lookup k1 x.incoming) (begin_free k1 p now s free r)
            ∙ lookup-put_self k1 _ s.incoming,
        ap (λ (x : Transfers). lookup k2 x.incoming) second ∙ lookup-put_self k2 _ u.incoming,
        ap (λ (x : Transfers). lookup k1 x.incoming) second
            ∙ lookup-put_ne k2 k1 _ u.incoming (λ e. ne (sym e))
            ∙ under_way,
        ap₂ (λ (x : Bytes) (y : Transfers). lookup x y.disk.files) temp second
            ∙ ap (lookup (part_of (plain_path s p))) (files-placed k2 q later (plain_path s p) u r')
            ∙ lookup-put_self (part_of (plain_path s p)) [] u.disk.files,
      )
