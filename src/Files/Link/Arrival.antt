-- ===== src/Files/Link/Arrival.antt =====
-- SendFileWorker's loop over the chunks against a receiver behind a bad network.
use neko_chat.Common.{
  ℕ, zero, suc, ◌+◌, ◌-◌, ◌<◌, ◌≤◌, ◌^◌, ◌≡◌, refl, sym, ap, ◌∙◌, subst, Bool, true, false, not,
  ◌||◌, some, [], drop, length, ltb, inl, inr, All, All-append, All-nil, arith, Option-cases,
  some_inj, ◌&&◌, if_cases,
}
use neko_chat.Common.Text.{Bytes}
use neko_chat.Common.Assoc.{Map, nat_key, bytes_key, lookup, All-lookup, All-erase}
use neko_chat.Wire.Words.{load8}
use neko_chat.Files.Names.{sanitize_file_name, make_file_ack_key, make_incoming_file_key}
use neko_chat.Files.Packets.{
  FileChunkHeader, FileMetaHeader, file_meta_chunk_index, build_file_meta_packet,
  max_file_transfer_bytes, build_file_chunk_packet,
}
use neko_chat.Files.Packets.RoundTrip.{read_chunk-build, read_meta-build}
use neko_chat.Files.Disk.Reliable.{FlushesAll}
use neko_chat.Files.State.{Transfers, send_buffer_to_peer}
use neko_chat.Files.Chunks.{file_chunk_count, chunk_of}
use neko_chat.Files.Prefix.{AllApart}
use neko_chat.Files.Prefix.Main.{CarriesChunk}
use neko_chat.Files.Send.{
  WaitResult, acked, refused, timeout, stopped, has_key, is_signaled, wait_for_file_ack, Attempt,
  send_packet_with_ack, SourceFile, Outcome, not_started, metadata_refused, metadata_failed,
  sent_all, send_chunks, send_file_worker, Network,
}
use neko_chat.Files.Link.{Far, Link, network, run_events}
use neko_chat.Files.Link.Beginning.{CarriesMeta}
use neko_chat.Files.Link.Receiving.{own_key, file_chunk_count_pos}
use neko_chat.Files.Link.Traffic.{
  IsLinked, HasArrived, Carries, Any, last_ack_key, run_events-IsLinked,
}

has_key_lem :
    (P : ℕ → Unit {0} → Type 0) (key : ℕ) (m : Map ℕ (Unit {0}))
    → All (λ e. P e.0 e.1) m
    → has_key key m ≡ true
    → (u : Unit {0}) × P key u
unfolding has_key
has_key_lem P key m h e = elim (Option-cases (lookup key m)) [
  | inl missing ↦ absurd (cc (rw (missing, has_key) at e))
  | inr (u, found) ↦ (u, All-lookup P key m h found)
]

signal_is_ack :
    (running is_acked is_refused : Bool)
    → not (not running || is_acked || is_refused) ≡ false
    → not running ≡ false
    → is_refused ≡ false
    → is_acked ≡ true
signal_is_ack running is_acked is_refused a b c = ground arith

settle :
    {A : Type 0} (P : A → Type 0) (result : WaitResult) (again answered : A)
    → P again
    → P answered
    → P (elim result [
      | timeout ↦ again
      | acked ↦ answered
      | refused ↦ answered
      | stopped ↦ answered
    ])
settle P timeout again answered h k = h
settle P acked again answered h k = k
settle P refused again answered h k = k
settle P stopped again answered h k = k

by_result :
    {A : Type 0} (P : A → Type 0) (result : WaitResult) (rest a b c : A)
    → (result ≡ acked → P rest)
    → P a
    → P b
    → P c
    → P (elim result [ acked ↦ rest | refused ↦ a | timeout ↦ b | stopped ↦ c ])
by_result P acked rest a b c h k l m = h refl
by_result P refused rest a b c h k l m = k
by_result P timeout rest a b c h k l m = l
by_result P stopped rest a b c h k l m = m

file_chunk_count_small :
    (file : Bytes) → length file ≤ max_file_transfer_bytes → file_chunk_count (length file) < 2 ^ 32
unfolding file_chunk_count
file_chunk_count_small file h = omega arith

last_chunk_small :
    (file : Bytes)
    → length file ≤ max_file_transfer_bytes
    → file_chunk_count (length file) - 1 < file_meta_chunk_index
unfolding file_chunk_count
last_chunk_small file h = omega arith

module _ (source : Bytes → Bytes) (sender_id receiver_id : Bytes) (tid : ℕ) where
  abbrev Linked : Transfers → Far → Type 0
  Linked = IsLinked source sender_id receiver_id tid

  abbrev Arrived : Far → Type 0
  Arrived = HasArrived source sender_id receiver_id tid

  carries_chunk :
      (i : ℕ)
      → tid < 2 ^ 32
      → i < 2 ^ 32
      → CarriesChunk source sender_id (
          drop 1
            (build_file_chunk_packet tid i (chunk_of (source (own_key source sender_id tid)) i)))
  unfolding build_file_chunk_packet
  carries_chunk i fits fits' h e =
      let payload = chunk_of (source (own_key source sender_id tid)) i in
      subst
        (λ (x : FileChunkHeader).
          payload
          ≡ chunk_of (source (make_incoming_file_key sender_id x.transfer_id)) x.chunk_index)
        (some_inj (sym (read_chunk-build tid i payload fits fits') ∙ e)) refl

  carries_meta :
      (name : Bytes)
      → let file = source (own_key source sender_id tid) in
        tid < 2 ^ 32
        → length file ≤ max_file_transfer_bytes
        → length name < 2 ^ 16
        → CarriesMeta source sender_id tid (
            drop 1 (build_file_meta_packet tid (file_chunk_count (length file)) (length file) name))
  carries_meta name fits small short h e =
      let file = source (own_key source sender_id tid) in
      let counted = file_chunk_count_small file small in
      let read = some_inj (
        sym (
          read_meta-build tid (file_chunk_count (length file)) (length file) name fits counted
            (omega arith) short)
        ∙ e) in
      (
        ap (λ (x : FileMetaHeader). x.transfer_id) (sym read),
        ap (λ (x : FileMetaHeader). x.total_size) (sym read),
        ap (λ (x : FileMetaHeader). x.chunk_count) (sym read),
      )

  meta-Carries :
      (name : Bytes)
      → let file = source (own_key source sender_id tid) in
        tid < 2 ^ 32
        → length file ≤ max_file_transfer_bytes
        → length name < 2 ^ 16
        → Carries source sender_id receiver_id tid (
            drop 1 (build_file_meta_packet tid (file_chunk_count (length file)) (length file) name))
  unfolding build_file_meta_packet load8
  meta-Carries name fits small short =
      (λ _. carries_meta name fits small short, λ e. absurd (omega (arith, some_inj e)))

  chunk-Carries :
      (i : ℕ)
      → tid < 2 ^ 32
      → i < 2 ^ 32
      → Carries source sender_id receiver_id tid (
          drop 1
            (build_file_chunk_packet tid i (chunk_of (source (own_key source sender_id tid)) i)))
  unfolding build_file_chunk_packet load8
  chunk-Carries i fits fits' =
      (λ e. absurd (omega (arith, some_inj e)), λ _. carries_chunk i fits fits')

  send-Linked :
      (packet : Bytes) (s : Transfers) (far : Far)
      → Carries source sender_id receiver_id tid (drop 1 packet)
      → Linked s far
      → Linked (send_buffer_to_peer receiver_id packet s) far
  unfolding send_buffer_to_peer
  send-Linked packet s far carries h = record {
    genuine = h.genuine;
    sound = h.sound;
    carried = All-append _ s.sent _ h.carried ((λ _. carries), tt);
    acked = h.acked;
  }

  -- The end of a wait, and what an acknowledgement of the last chunk means there.
  wait-Linked :
      (u i : ℕ) (s : Transfers) (far : Far)
      → Linked s far
      → let (s', result) = wait_for_file_ack u i s in
        Linked s' far
        × (result ≡ acked
            → make_file_ack_key u i ≡ last_ack_key source sender_id receiver_id tid
            → Arrived far)
  unfolding wait_for_file_ack is_signaled
  wait-Linked u i s far h =
      let key = make_file_ack_key u i in
      let erased =
        All-erase (λ k _. k ≡ last_ack_key source sender_id receiver_id tid → Arrived far) key
          s.acknowledgements h.acked in
      let P = λ (r : Transfers × WaitResult).
        Linked r.0 far
        × (r.1 ≡ acked → key ≡ last_ack_key source sender_id receiver_id tid → Arrived far) in
      if_cases P (not (is_signaled u i s)) _ _
        (λ _. (
          record { genuine = h.genuine; sound = h.sound; carried = h.carried; acked = erased },
          λ e. absurd (cc),
        ))
        (λ signaled.
          if_cases P (not s.running) _ _
            (λ _. (
              record { genuine = h.genuine; sound = h.sound; carried = h.carried; acked = erased },
              λ e. absurd (cc),
            ))
            (λ running.
              if_cases P (has_key u s.rejected_ids) _ _
                (λ _. (
                  record {
                    genuine = h.genuine;
                    sound = h.sound;
                    carried = h.carried;
                    acked = erased;
                  },
                  λ e. absurd (cc),
                ))
                (λ kept. (
                  record {
                    genuine = h.genuine;
                    sound = h.sound;
                    carried = h.carried;
                    acked = erased;
                  },
                  λ _.
                      (has_key_lem
                        (λ k _. k ≡ last_ack_key source sender_id receiver_id tid → Arrived far) key
                        s.acknowledgements h.acked
                        (signal_is_ack s.running (has_key key s.acknowledgements)
                          (has_key u s.rejected_ids) signaled running kept)).1,
                ))))

  module _ (link : Link) (fits : tid < 2 ^ 32)
      (small : length (source (own_key source sender_id tid)) ≤ max_file_transfer_bytes) where
    abbrev net : Network Far
    net = network sender_id receiver_id tid link

    -- What holds after an attempt to send the packet with chunk index `i`.
    abbrev IsSettled : ℕ → Attempt Far → Type 0
    IsSettled i a =
        Linked a.state a.outside
        × (a.result ≡ acked
            → make_file_ack_key tid i ≡ last_ack_key source sender_id receiver_id tid
            → Arrived a.outside)

    send_packet_with_ack-IsSettled :
        (packet : Bytes) (i left n : ℕ) (s : Transfers) (far : Far)
        → Carries source sender_id receiver_id tid (drop 1 packet)
        → Linked s far
        → IsSettled i (send_packet_with_ack net receiver_id packet tid i left n s far)
    unfolding send_packet_with_ack network
    send_packet_with_ack-IsSettled packet i zero n s far carries h = (h, λ e. absurd (cc))
    send_packet_with_ack-IsSettled packet i (suc left) n s far carries h =
        let P = IsSettled i in
        let ended =
          run_events sender_id receiver_id tid (link.schedule n)
            (send_buffer_to_peer receiver_id packet s) far in
        let next =
          run_events-IsLinked source sender_id receiver_id tid fits
            (last_chunk_small (source (own_key source sender_id tid)) small) (link.schedule n)
            (send_buffer_to_peer receiver_id packet s) far (send-Linked packet s far carries h) in
        let waited = wait-Linked tid i ended.0 ended.1 next in
        if_cases P (not s.running) _ _ (λ _. (h, λ e. absurd (cc)))
          (λ _.
            if_cases P (not (link.sends n)) _ _
              (λ _.
                send_packet_with_ack-IsSettled packet i left (n + 1) ended.0 ended.1 carries next)
              (λ _.
                settle P _ _ _
                  (send_packet_with_ack-IsSettled packet i left (n + 1)
                    (wait_for_file_ack tid i ended.0).0 ended.1 carries waited.0)
                  waited))

    abbrev HasEnded : Transfers × Far × Outcome → Type 0
    HasEnded r = Linked r.0 r.1 × (r.2 ≡ sent_all → Arrived r.1)

    module _ (file : SourceFile)
        (content : file.content ≡ source (own_key source sender_id tid)) where
      chunk-IsSettled :
          (i n : ℕ) (s : Transfers) (far : Far)
          → i < 2 ^ 32
          → Linked s far
          → IsSettled i (
              send_packet_with_ack net receiver_id
                (build_file_chunk_packet tid i (chunk_of file.content i))
                tid
                i
                10
                n
                s
                far)
      chunk-IsSettled i n s far fits' h =
          send_packet_with_ack-IsSettled _ i 10 n s far
            (subst
              (λ (c : Bytes).
                Carries source sender_id receiver_id tid
                  (drop 1 (build_file_chunk_packet tid i (chunk_of c i))))
              (sym content) (chunk-Carries i fits fits'))
            h

      -- From the last chunk on the file has arrived.
      send_chunks-HasEnded :
          (i left n : ℕ) (s : Transfers) (far : Far)
          → i + left ≡ file_chunk_count (length file.content)
          → (left ≡ 0 → Arrived far)
          → Linked s far
          → HasEnded (send_chunks net receiver_id file tid i left n s far)
      unfolding send_chunks
      send_chunks-HasEnded i zero n s far whole last h = (h, λ _. last refl)
      send_chunks-HasEnded i (suc left) n s far whole last h =
          let count = ap (λ (c : Bytes). file_chunk_count (length c)) content in
          let counted = file_chunk_count_small (source (own_key source sender_id tid)) small in
          let a = chunk-IsSettled i n s far (omega arith) h in
          if_cases HasEnded (not s.running) _ _ (λ _. (h, λ e. absurd (cc)))
            (λ _.
              if_cases HasEnded (ltb 0 (length (chunk_of file.content i)) && not (file.reads i)) _ _
                (λ _. (h, λ e. absurd (cc)))
                (λ _.
                  by_result HasEnded _ _ _ _ _
                    (λ done.
                      send_chunks-HasEnded (i + 1) left _ _ _ (omega arith)
                        (λ z. a.1 done (ap (make_file_ack_key tid) (omega arith))) a.0)
                    (a.0, λ e. absurd (cc)) (a.0, λ e. absurd (cc)) (a.0, λ e. absurd (cc))))

      send_file_worker-HasEnded :
          (s : Transfers) (far : Far)
          → length (sanitize_file_name file.name) < 2 ^ 16
          → Linked s far
          → HasEnded (send_file_worker net receiver_id file tid s far)
      unfolding send_file_worker
      send_file_worker-HasEnded s far short h =
          let meta =
            subst
              (λ (c : Bytes). Carries source sender_id receiver_id tid (
                drop 1 (
                  build_file_meta_packet tid (file_chunk_count (length c)) (length c)
                    (sanitize_file_name file.name))))
              (sym content) (meta-Carries (sanitize_file_name file.name) fits small short) in
          let packet =
            build_file_meta_packet tid (file_chunk_count (length file.content))
              (length file.content) (sanitize_file_name file.name) in
          let tried =
            send_packet_with_ack net receiver_id packet tid file_meta_chunk_index 40 0 s far in
          let a = send_packet_with_ack-IsSettled packet file_meta_chunk_index 40 0 s far meta h in
          if_cases HasEnded
            (not file.is_file
              || not file.size_known
              || ltb max_file_transfer_bytes (length file.content)
              || not file.has_path
              || not file.opens)
            (s, far, not_started) _ (λ _. (h, λ e. absurd (cc)))
            (λ _.
              by_result HasEnded tried.result _ _ _ _
                (λ _.
                  send_chunks-HasEnded 0 (file_chunk_count (length file.content)) tried.calls
                    tried.state tried.outside (omega arith)
                    (λ z. absurd (omega (arith, file_chunk_count_pos (length file.content)))) a.0)
                (a.0, λ (e : metadata_refused ≡ sent_all). absurd (cc))
                (a.0, λ (e : metadata_failed ≡ sent_all). absurd (cc))
                (a.0, λ (e : metadata_failed ≡ sent_all). absurd (cc)))

-- The two programs before a transfer: the sender has sent and heard nothing yet, and the receiver
-- has no transfers and has answered nothing; and on its disk a close of a file loses no bytes.
pub record AreFresh (s r : Transfers) : Type 0 where
  pub unsent : s.sent ≡ []
  pub unheard : s.acknowledgements ≡ []
  pub none_begun : r.incoming ≡ []
  pub none_completed : r.completed ≡ []
  pub none_asked : r.pending ≡ []
  pub unanswered : r.sent ≡ []
  pub flushes : FlushesAll r.disk

fresh-IsLinked :
    (source : Bytes → Bytes) (sender_id receiver_id : Bytes) (tid : ℕ) (s r : Transfers)
    → AreFresh s r
    → IsLinked source sender_id receiver_id tid s (record { receiver = r; seen = [] })
fresh-IsLinked source sender_id receiver_id tid s r f = record {
  genuine = record {
    holds = All-nil _ r.incoming f.none_begun;
    apart = subst AllApart (sym f.none_begun) tt;
  };
  sound = record {
    unfinished = All-nil _ r.incoming f.none_begun;
    asked = All-nil _ r.pending f.none_asked;
    finished = All-nil _ r.completed f.none_completed;
    answered = All-nil _ r.sent f.unanswered;
    flushes = f.flushes;
  };
  carried = All-nil _ s.sent f.unsent;
  acked = All-nil _ s.acknowledgements f.unheard;
}

-- Whatever the network loses, repeats, delays or puts out of order, whatever folder, open, write or
-- rename fails on the receiver's disk, and whatever the receiving user answers and when: when
-- SendFileWorker says that all is sent, of a file of at most 128 MiB, then the receiver has had the
-- file under some path, byte for byte, if the two programs had no other transfers before and between
-- them, and if each close of a file gets all the bytes written to it to the disk.
pub sent_file_arrives :
    (sender_id receiver_id : Bytes) (tid : ℕ) (link : Link) (file : SourceFile) (s r : Transfers)
    → tid < 2 ^ 32
    → length file.content ≤ max_file_transfer_bytes
    → length (sanitize_file_name file.name) < 2 ^ 16
    → AreFresh s r
    → (send_file_worker
        (network sender_id receiver_id tid link)
        receiver_id
        file
        tid
        s
        (record { receiver = r; seen = [] })).2
      ≡ sent_all
    → Any
        (λ u. (path : Bytes) × (lookup path u.disk.files ≡ some file.content))
        (send_file_worker
          (network sender_id receiver_id tid link)
          receiver_id
          file
          tid
          s
          (record { receiver = r; seen = [] })).1.seen
sent_file_arrives sender_id receiver_id tid link file s r fits small short fresh ended =
    let source : Bytes → Bytes = λ _. file.content in
    (send_file_worker-HasEnded source sender_id receiver_id tid link fits small file refl s
        (record { receiver = r; seen = [] }) short
        (fresh-IsLinked source sender_id receiver_id tid s r fresh)).1
      ended
