-- ===== src/Files/Prefix/Steps.antt =====
-- The steps of HandleIncomingFilePacket on a chunk and the files under way.
use neko_chat.Common.{
  ℕ, ◌+◌, ◌<◌, ◌≡◌, refl, sym, ap, ◌∙◌, subst, true, false, ◌||◌, some, [], ◌∷◌, ◌++◌, length, ltb,
  leb, ◌==◌, arith, append-nil, length-append, Bool-cases, Option-cases, some_inj, inl, inr,
}
use neko_chat.Common.Text.{Bytes}
use neko_chat.Common.Assoc.{Map, bytes_key, lookup, erase, modify, lookup-modify_self}
use neko_chat.Files.Disk.{Disk, next_ok, close}
use neko_chat.Files.State.{Incoming, Transfers, send_buffer_to_peer}
use neko_chat.Files.Chunks.{chunk_of, prefix_of, prefix_of-suc}
use neko_chat.Files.Data.{
  chunk_size, write_ok, write_payload, count_chunk, is_complete, write_chunk, finish_transfer,
  accept_chunk, dispatch_data,
}
use neko_chat.Files.Prefix.{HoldsPrefix, AllHold, AllApart, IsGenuine}
use neko_chat.Files.Prefix.Tables.{
  SamePaths, SameElsewhere, AllHold-modify, AllHold-frame, AllApart-modify, AllApart-erase,
  All-lookup, All-erase, erase-Apart,
}
use neko_chat.Files.Prefix.Writes.{
  content-write_at, write_at-elsewhere, rename-elsewhere, remove-elsewhere, close-elsewhere,
}

pub nil_of_length : (xs : Bytes) → (length xs == 0) ≡ true → xs ≡ []
nil_of_length [] h = refl
nil_of_length (x ∷ xs) h = absurd (ground arith)

no_chunk :
    (file : Bytes) (i : ℕ)
    → (length (chunk_of file i) == 0) ≡ true
    → prefix_of file i ≡ prefix_of file (i + 1)
no_chunk file i e =
    sym (append-nil (prefix_of file i))
    ∙ ap (λ (x : Bytes). prefix_of file i ++ x) (sym (nil_of_length (chunk_of file i) e))
    ∙ prefix_of-suc file i

-- The disk after the write of a chunk that is next.
content-write_payload :
    (file : Bytes) (d : Disk) (t : Incoming)
    → HoldsPrefix file d t
    → write_ok (chunk_of file t.next_chunk_index) d ≡ true
    → lookup t.temp_path (write_payload (chunk_of file t.next_chunk_index) t d).files
      ≡ some (prefix_of file (t.next_chunk_index + 1))
unfolding write_ok write_payload
content-write_payload file d t h ok =
    elim (Bool-cases (length (chunk_of file t.next_chunk_index) == 0)) [
      | inl e ↦ rw e (h.content ∙ ap some (no_chunk file t.next_chunk_index e))
      | inr e ↦ rw e (content-write_at file d t h (rw e at ok))
    ]

write_payload-elsewhere :
    (payload : Bytes) (t : Incoming) (q : Bytes) (d : Disk)
    → SameElsewhere t.temp_path q d (write_payload payload t d)
unfolding write_payload
write_payload-elsewhere payload t q d = elim (Bool-cases (length payload == 0)) [
  | inl e ↦ rw e (record { same = λ r hp hq. refl })
  | inr e ↦ rw e (write_at-elsewhere t.temp_path q t.stream_pos payload d)
]

pub count_chunk-HoldsPrefix :
    (file : Bytes) (d : Disk) (t : Incoming)
    → HoldsPrefix file d t
    → t.next_chunk_index < t.chunk_count
    → write_ok (chunk_of file t.next_chunk_index) d ≡ true
    → HoldsPrefix file
        (write_payload (chunk_of file t.next_chunk_index) t d)
        (count_chunk (length (chunk_of file t.next_chunk_index)) t)
unfolding count_chunk
count_chunk-HoldsPrefix file d t h more ok = record {
  total = h.total;
  count = h.count;
  begun = omega arith;
  written =
      omega (
        arith,
        h.written,
        length-append (prefix_of file t.next_chunk_index) (chunk_of file t.next_chunk_index),
      )
      ∙ ap length (prefix_of-suc file t.next_chunk_index);
  position = omega (arith, h.position);
  content = content-write_payload file d t h ok;
  renames = h.renames;
}

-- Leaving a table, a transfer takes its own temporary file along and no other.
leave-AllHold :
    (source : Bytes → Bytes) (key : Bytes) (t : Incoming) (d d' : Disk) (m : Map Bytes Incoming)
    → SameElsewhere t.temp_path t.final_path d d'
    → AllApart m
    → lookup key m ≡ some t
    → AllHold source d m
    → AllHold source d' (erase key m)
leave-AllHold source key t d d' m f a e h =
    AllHold-frame source t d d' (erase key m) f (erase-Apart key m a e)
      (All-erase (λ k u. HoldsPrefix (source k) d u) key m h)

SameElsewhere-trans :
    {p q : Bytes} {c d e : Disk}
    → SameElsewhere p q c d
    → SameElsewhere p q d e
    → SameElsewhere p q c e
SameElsewhere-trans f g = record { same = λ r hp hq. g.same r hp hq ∙ f.same r hp hq }

count_chunk-paths : (n : ℕ) (t : Incoming) → SamePaths t (count_chunk n t)
unfolding count_chunk
count_chunk-paths n t = (refl, refl)

-- The state between the write of the next chunk and the answer to it.
pub written_chunk :
    (source : Bytes → Bytes) (key : Bytes) (t : Incoming) (s : Transfers)
    → IsGenuine source s
    → lookup key s.incoming ≡ some t
    → t.next_chunk_index < t.chunk_count
    → write_ok (chunk_of (source key) t.next_chunk_index) s.disk ≡ true
    → IsGenuine source (record s {
      disk = write_payload (chunk_of (source key) t.next_chunk_index) t s.disk;
      incoming =
          modify key
            (λ _. count_chunk (length (chunk_of (source key) t.next_chunk_index)) t)
            s.incoming;
    })
written_chunk source key t s g e more ok = record {
  holds =
      AllHold-modify source key t _ s.disk _ s.incoming
        (write_payload-elsewhere _ t t.final_path s.disk)
        (count_chunk-HoldsPrefix (source key) s.disk t
          (All-lookup (λ k u. HoldsPrefix (source k) s.disk u) key s.incoming g.holds e) more ok)
        g.apart e g.holds;
  apart =
      AllApart-modify key _ s.incoming
        (λ u f.
          subst (λ (x : Incoming). SamePaths x (count_chunk size t)) (some_inj (sym e ∙ f))
            (count_chunk-paths size t))
        g.apart;
}
  where
    size : ℕ
    size = length (chunk_of (source key) t.next_chunk_index)

module _ (source : Bytes → Bytes) (peer_id key : Bytes) (transfer_id chunk_index now : ℕ) where
  finish_transfer-IsGenuine :
      (t : Incoming) (s : Transfers)
      → IsGenuine source s
      → lookup key s.incoming ≡ some t
      → IsGenuine source (finish_transfer peer_id key transfer_id chunk_index t now s)
  unfolding finish_transfer send_buffer_to_peer
  finish_transfer-IsGenuine t s g e =
      let closed = close t.temp_path s.disk in
      let renamed =
        SameElsewhere-trans (close-elsewhere t.temp_path t.final_path s.disk)
          (rename-elsewhere t.temp_path t.final_path closed) in
      elim (Bool-cases (next_ok closed)) [
        | inl ok ↦ rw ok (record {
          holds = leave-AllHold source key t s.disk _ s.incoming renamed g.apart e g.holds;
          apart = AllApart-erase key s.incoming g.apart;
        })
        | inr bad ↦ rw bad (record {
          holds =
              leave-AllHold source key t s.disk _ s.incoming
                (SameElsewhere-trans renamed (remove-elsewhere t.temp_path t.final_path _)) g.apart
                e g.holds;
          apart = AllApart-erase key s.incoming g.apart;
        })
      ]

  write_chunk-IsGenuine :
      (t : Incoming) (s : Transfers)
      → IsGenuine source s
      → lookup key s.incoming ≡ some t
      → t.next_chunk_index < t.chunk_count
      → IsGenuine source (
          write_chunk peer_id key transfer_id chunk_index
            (chunk_of (source key) t.next_chunk_index)
            t
            now
            s)
  unfolding write_chunk send_buffer_to_peer
  write_chunk-IsGenuine t s g e more =
      let payload = chunk_of (source key) t.next_chunk_index in
      let t' = count_chunk (length payload) t in
      elim (Bool-cases (write_ok payload s.disk)) [
        | inl ok ↦
            let written = written_chunk source key t s g e more ok in
            elim (Bool-cases (is_complete t')) [
              | inl done ↦
                  rw (ok, done)
                    (finish_transfer-IsGenuine t' _ written
                      (lookup-modify_self key (λ _. t') s.incoming e))
              | inr going ↦ rw (ok, going) (record { holds = written.holds; apart = written.apart })
            ]
        | inr bad ↦ rw bad (record {
          holds =
              leave-AllHold source key t s.disk _ s.incoming
                (SameElsewhere-trans (write_payload-elsewhere payload t t.final_path s.disk)
                  (remove-elsewhere t.temp_path t.final_path _))
                g.apart e g.holds;
          apart = AllApart-erase key s.incoming g.apart;
        })
      ]

-- A chunk index that is neither ahead nor behind is the next one.
pub next_index : (i n c : ℕ) → (ltb n i || leb c i) ≡ false → ltb i n ≡ false → (i ≡ n) × (n < c)
next_index i n c h k = (ground arith, ground arith)

module _ (source : Bytes → Bytes) (peer_id key : Bytes) (transfer_id chunk_index now : ℕ) where
  accept_chunk-IsGenuine :
      (payload : Bytes) (t : Incoming) (s : Transfers)
      → payload ≡ chunk_of (source key) chunk_index
      → IsGenuine source s
      → lookup key s.incoming ≡ some t
      → IsGenuine source (accept_chunk peer_id key transfer_id chunk_index payload t now s)
  unfolding accept_chunk send_buffer_to_peer
  accept_chunk-IsGenuine payload t s p g e =
      elim (Bool-cases (ltb t.next_chunk_index chunk_index || leb t.chunk_count chunk_index)) [
        | inl ahead ↦ rw ahead g
        | inr fits ↦ elim (Bool-cases (ltb chunk_index t.next_chunk_index)) [
          | inl behind ↦ rw (fits, behind) (record { holds = g.holds; apart = g.apart })
          | inr here ↦ elim (Bool-cases (length payload == chunk_size t.total_size chunk_index)) [
            | inr wrong ↦ rw (fits, here, wrong) g
            | inl right ↦
                let at_next = next_index chunk_index t.next_chunk_index t.chunk_count fits here in
                rw (fits, here, right)
                  (subst
                    (λ (x : Bytes).
                      IsGenuine source (write_chunk peer_id key transfer_id chunk_index x t now s))
                    (ap (chunk_of (source key)) (sym at_next.0) ∙ sym p)
                    (write_chunk-IsGenuine source peer_id key transfer_id chunk_index now t s g e
                      at_next.1))
          ]
        ]
      ]

  -- A transfer that is heard of stays what it was.
  pub touch-IsGenuine :
      (t : Incoming) (s : Transfers)
      → IsGenuine source s
      → lookup key s.incoming ≡ some t
      → IsGenuine source
          (record s { incoming = modify key (λ _. record t { last_update = now }) s.incoming })
  touch-IsGenuine t s g e =
      let h = All-lookup (λ k u. HoldsPrefix (source k) s.disk u) key s.incoming g.holds e in
      record {
        holds =
            AllHold-modify source key t _ s.disk s.disk s.incoming
              (record { same = λ r hp hq. refl })
              (record {
                total = h.total;
                count = h.count;
                begun = h.begun;
                written = h.written;
                position = h.position;
                content = h.content;
                renames = h.renames;
              })
              g.apart e g.holds;
        apart =
            AllApart-modify key _ s.incoming
              (λ u f.
                subst (λ (x : Incoming). SamePaths x (record t { last_update = now }))
                  (some_inj (sym e ∙ f)) (refl, refl))
              g.apart;
      }

  -- A chunk of the right bytes keeps the promise, whichever table knows its transfer.
  pub dispatch_data-IsGenuine :
      (payload : Bytes) (s : Transfers)
      → payload ≡ chunk_of (source key) chunk_index
      → IsGenuine source s
      → IsGenuine source (dispatch_data peer_id key transfer_id chunk_index payload now s)
  unfolding dispatch_data send_buffer_to_peer
  dispatch_data-IsGenuine payload s p g = elim (Option-cases (lookup key s.rejected)) [
    | inr (r, er) ↦ rw (er, dispatch_data) (record { holds = g.holds; apart = g.apart })
    | inl er ↦ elim (Option-cases (lookup key s.completed)) [
      | inr (c, ec) ↦ elim (Bool-cases (ltb chunk_index c.chunk_count)) [
        | inl known ↦
            rw (er, ec, known, dispatch_data) (record { holds = g.holds; apart = g.apart })
        | inr other ↦ rw (er, ec, other, dispatch_data) g
      ]
      | inl ec ↦ elim (Option-cases (lookup key s.incoming)) [
        | inl ei ↦ rw (er, ec, ei, dispatch_data) g
        | inr (t, ei) ↦
            rw (er, ec, ei, dispatch_data)
              (accept_chunk-IsGenuine payload (record t { last_update = now }) _ p
                (touch-IsGenuine t s g ei)
                (lookup-modify_self key (λ _. record t { last_update = now }) s.incoming ei))
      ]
    ]
  ]
