-- ===== src/Files/Cleanup.antt =====
-- CleanupFileTransfersLocked.
use neko_chat.Common.{ℕ, ◌-◌, none, some, List, [], ◌∷◌, ltb, leb, if◌then◌else◌}
use neko_chat.Common.Text.{Bytes}
use neko_chat.Common.Assoc.{Map, nat_key, bytes_key, lookup, keep}
use neko_chat.Files.Names.{make_incoming_file_key}
use neko_chat.Files.Disk.{Disk, remove}
use neko_chat.Files.State.{Incoming, Prompt, Transfers}

-- The loop of CleanupFileTransfersLocked that gives up stalled transfers and removes their files.
unfoldable pub expire_incoming : ℕ → Map Bytes Incoming → Disk → Map Bytes Incoming × Disk
expire_incoming now [] d = ([], d)
expire_incoming now ((k, t) ∷ m) d =
    let stalled = ltb 20000 (now - t.last_update) in
    let (rest, d') = expire_incoming now m (if stalled then remove t.temp_path d else d) in
    (if stalled then rest else (k, t) ∷ rest, d')

-- `remove_if` on the queue: prompts that are pending no longer
unfoldable pub keep_pending : Map Bytes Prompt → List Prompt → List Prompt
keep_pending pending [] = []
keep_pending pending (p ∷ ps) =
    let rest = keep_pending pending ps in
    elim (lookup (make_incoming_file_key p.peer_id p.transfer_id) pending) [
      | none ↦ rest
      | some q ↦ p ∷ rest
    ]

-- CleanupFileTransfersLocked
unfoldable pub cleanup_file_transfers : ℕ → Transfers → Transfers
cleanup_file_transfers now s =
    let (incoming, disk) = expire_incoming now s.incoming s.disk in
    let pending = keep (λ p. leb (now - p.last_update) 60000) s.pending in
    record s {
      disk = disk;
      incoming = incoming;
      completed = keep (λ c. leb (now - c.completed_at) 30000) s.completed;
      pending = pending;
      prompt_queue = keep_pending pending s.prompt_queue;
      rejected = keep (λ t. leb (now - t) 45000) s.rejected;
    }
