-- ===== src/Files/Prefix/Main.antt =====
-- HandleIncomingFilePacket and the files under way.
use neko_chat.Common.{
  ℕ, ◌≡◌, ◌≢◌, ap, Option, some, [], ◌∷◌, drop, length, ltb, ◌==◌, subst, ==_iff,
}
use neko_chat.Common.Text.{Bytes}
use neko_chat.Common.Options.{Returns, Returns-bind, Returns-if}
use neko_chat.Common.Assoc.{bytes_key}
use neko_chat.Wire.Words.{load8}
use neko_chat.Files.Names.{make_incoming_file_key}
use neko_chat.Files.Packets.{FileChunkHeader, read_chunk_header, read_reject_header}
use neko_chat.Files.State.{Transfers}
use neko_chat.Files.Chunks.{chunk_of}
use neko_chat.Files.Answers.{handle_file_ack_packet, handle_file_reject_packet}
use neko_chat.Files.Data.{handle_data}
use neko_chat.Files.Receiver.{handle_incoming_file_packet, handle_ack, handle_reject}
use neko_chat.Files.Prefix.{IsGenuine}
use neko_chat.Files.Prefix.Expiry.{cleanup-IsGenuine}
use neko_chat.Files.Prefix.Steps.{dispatch_data-IsGenuine}

-- Every chunk that `bytes` could be read as is one of the sender's.
abbrev pub CarriesChunk : (Bytes → Bytes) → Bytes → Bytes → Type 0
CarriesChunk source peer_id bytes =
    (h : FileChunkHeader)
    → read_chunk_header bytes ≡ some h
    → drop 9 bytes ≡ chunk_of (source (make_incoming_file_key peer_id h.transfer_id)) h.chunk_index

abbrev Keeps : (Bytes → Bytes) → Option Transfers → Type 0
Keeps source = Returns (IsGenuine source)

module _ (source : Bytes → Bytes) where
  handle_ack-Keeps :
      (bytes : Bytes) (s : Transfers) → IsGenuine source s → Keeps source (handle_ack bytes s)
  unfolding handle_ack handle_file_ack_packet
  handle_ack-Keeps bytes s g =
      Returns-if (IsGenuine source) (ltb (length bytes) 9) _ _ (λ _. g)
        λ _.
          Returns-bind (IsGenuine source) (read_chunk_header bytes) _
            λ h _. record { holds = g.holds; apart = g.apart }

  handle_reject-Keeps :
      (bytes : Bytes) (s : Transfers) → IsGenuine source s → Keeps source (handle_reject bytes s)
  unfolding handle_reject handle_file_reject_packet
  handle_reject-Keeps bytes s g =
      Returns-if (IsGenuine source) (ltb (length bytes) 5) _ _ (λ _. g)
        λ _.
          Returns-bind (IsGenuine source) (read_reject_header bytes) _
            λ h _. record { holds = g.holds; apart = g.apart }

  handle_data-Keeps :
      (peer_id bytes : Bytes) (now : ℕ) (s : Transfers)
      → CarriesChunk source peer_id bytes
      → IsGenuine source s
      → Keeps source (handle_data peer_id bytes now s)
  unfolding handle_data
  handle_data-Keeps peer_id bytes now s carries g =
      Returns-if (IsGenuine source) (ltb (length bytes) 9) _ _ (λ _. g)
        λ _. Returns-bind (IsGenuine source) (read_chunk_header bytes) _ λ h e.
          dispatch_data-IsGenuine source peer_id (make_incoming_file_key peer_id h.transfer_id)
            h.transfer_id h.chunk_index now (drop 9 bytes) s (carries h e) g

  handle-Keeps :
      (peer_id bytes : Bytes) (now : ℕ) (s : Transfers)
      → load8 bytes 0 ≢ some 1
      → (load8 bytes 0 ≡ some 2 → CarriesChunk source peer_id bytes)
      → IsGenuine source s
      → Keeps source (handle_incoming_file_packet peer_id bytes now s)
  unfolding handle_incoming_file_packet load8
  handle-Keeps peer_id [] now s no_meta carries g = g
  handle-Keeps peer_id (kind ∷ rest) now s no_meta carries g =
      let bytes = kind ∷ rest in
      let clean = cleanup-IsGenuine now source s g in
      Returns-if (IsGenuine source) (kind == 3) _ _ (λ _. handle_ack-Keeps bytes s g)
        λ _.
          Returns-if (IsGenuine source) (kind == 4) _ _ (λ _. handle_reject-Keeps bytes s g)
            λ _.
              Returns-if (IsGenuine source) (kind == 1) _ _
                (λ e. absurd (no_meta (ap some ((==_iff kind 1).0 e))))
                λ _.
                  Returns-if (IsGenuine source) (kind == 2) _ _
                    (λ e.
                      handle_data-Keeps peer_id bytes now _
                        (carries (ap some ((==_iff kind 2).0 e))) clean)
                    λ _. clean

  -- For every packet but metadata, in any order, repeated, late or missing: as long as the chunks
  -- that come are the sender's, each file under way holds the first `next_chunk_index` chunks of the
  -- file that is being sent and nothing else, and no transfer touches another's file, if this was so
  -- before the packet.
  pub receive-IsGenuine :
      (peer_id bytes : Bytes) (now : ℕ) (s s' : Transfers)
      → load8 bytes 0 ≢ some 1
      → (load8 bytes 0 ≡ some 2 → CarriesChunk source peer_id bytes)
      → IsGenuine source s
      → handle_incoming_file_packet peer_id bytes now s ≡ some s'
      → IsGenuine source s'
  receive-IsGenuine peer_id bytes now s s' no_meta carries g e =
      subst (Keeps source) e (handle-Keeps peer_id bytes now s no_meta carries g)
