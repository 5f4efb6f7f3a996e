-- ===== src/Files/Prefix/Expiry.antt =====
-- CleanupFileTransfersLocked and the files under way.
use neko_chat.Common.{ℕ, ◌-◌, ◌≡◌, refl, sym, ◌∙◌, [], ◌∷◌, ltb, All, Bool-cases, inl, inr}
use neko_chat.Common.Text.{Bytes}
use neko_chat.Common.Assoc.{Map, bytes_key, lookup, lookup-erase_ne}
use neko_chat.Files.Disk.{Disk, remove}
use neko_chat.Files.State.{Incoming, Transfers}
use neko_chat.Files.Cleanup.{expire_incoming, cleanup_file_transfers}
use neko_chat.Files.Prefix.{Apart, AllHold, AllApart, IsGenuine}
use neko_chat.Files.Prefix.Tables.{AllHold-frame}
use neko_chat.Files.Prefix.Writes.{remove-elsewhere}

lookup-remove_ne :
    (p r : Bytes) (d : Disk) → (p ≡ r → ⊥) → lookup r (remove p d).files ≡ lookup r d.files
unfolding remove
lookup-remove_ne p r d h = lookup-erase_ne p r d.files h

module _ (now : ℕ) where
  -- Of a transfer apart from all in the table, the file stays.
  lookup-expire :
      (t : Incoming) (m : Map Bytes Incoming) (d : Disk)
      → All (λ e. Apart t e.1) m
      → lookup t.temp_path (expire_incoming now m d).1.files ≡ lookup t.temp_path d.files
  unfolding expire_incoming
  lookup-expire t [] d a = refl
  lookup-expire t ((k, u) ∷ m) d a = elim (Bool-cases (ltb 20000 (now - u.last_update))) [
    | inl e ↦ rw e (
        lookup-expire t m (remove u.temp_path d) a.1
        ∙ lookup-remove_ne u.temp_path t.temp_path d (λ q. a.0.temps (sym q)))
    | inr e ↦ rw e (lookup-expire t m d a.1)
  ]

  -- What is left of the table was in it.
  pub All-expire :
      (P : Bytes × Incoming → Type 0) (m : Map Bytes Incoming) (d : Disk)
      → All P m
      → All P (expire_incoming now m d).0
  unfolding expire_incoming
  All-expire P [] d a = tt
  All-expire P ((k, u) ∷ m) d a = elim (Bool-cases (ltb 20000 (now - u.last_update))) [
    | inl e ↦ rw e (All-expire P m (remove u.temp_path d) a.1)
    | inr e ↦ rw e (a.0, All-expire P m d a.1)
  ]

  AllApart-expire :
      (m : Map Bytes Incoming) (d : Disk) → AllApart m → AllApart (expire_incoming now m d).0
  unfolding expire_incoming
  AllApart-expire [] d a = tt
  AllApart-expire ((k, u) ∷ m) d a = elim (Bool-cases (ltb 20000 (now - u.last_update))) [
    | inl e ↦ rw e (AllApart-expire m (remove u.temp_path d) a.1)
    | inr e ↦ rw e (All-expire (λ e. Apart u e.1) m d a.0, AllApart-expire m d a.1)
  ]

  AllHold-expire :
      (source : Bytes → Bytes) (m : Map Bytes Incoming) (d : Disk)
      → AllApart m
      → AllHold source d m
      → AllHold source (expire_incoming now m d).1 (expire_incoming now m d).0
  unfolding expire_incoming
  AllHold-expire source [] d a h = tt
  AllHold-expire source ((k, u) ∷ m) d a h = elim (Bool-cases (ltb 20000 (now - u.last_update))) [
    | inl e ↦ rw e (
        AllHold-expire source m (remove u.temp_path d) a.1 (
          AllHold-frame source u d (remove u.temp_path d) m
            (remove-elsewhere u.temp_path u.final_path d) a.0 h.1))
    | inr e ↦ rw e (
      record {
        total = h.0.total;
        count = h.0.count;
        begun = h.0.begun;
        written = h.0.written;
        position = h.0.position;
        renames = h.0.renames;
        content = lookup-expire u m d a.0 ∙ h.0.content;
      },
      AllHold-expire source m d a.1 h.1,
    )
  ]

  pub cleanup-IsGenuine :
      (source : Bytes → Bytes) (s : Transfers)
      → IsGenuine source s
      → IsGenuine source (cleanup_file_transfers now s)
  unfolding cleanup_file_transfers
  cleanup-IsGenuine source s g = record {
    holds = AllHold-expire source s.incoming s.disk g.apart g.holds;
    apart = AllApart-expire s.incoming s.disk g.apart;
  }
