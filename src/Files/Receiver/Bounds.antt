-- ===== src/Files/Receiver/Bounds.antt =====
-- The reads of HandleIncomingFilePacket and the length tests before them.
use neko_chat.Common.{
  ℕ, ◌+◌, ◌*◌, ◌^◌, ◌≤◌, ◌≡◌, refl, Bool, true, false, Option, none, some, [], ◌∷◌, drop, length,
  ltb, ◌==◌, if◌then◌else◌, arith, length-drop, Bool-cases, inl, inr,
}
use neko_chat.Common.Text.{Bytes}
use neko_chat.Wire.Words.{
  load8, load16, load32, load64, first16, first32, htonl, htons, network_to_host64,
}
use neko_chat.Files.Packets.{
  FileMetaHeader, FileChunkHeader, read_meta_header, read_chunk_header, read_reject_header,
}
use neko_chat.Files.State.{Transfers}
use neko_chat.Files.Cleanup.{cleanup_file_transfers}
use neko_chat.Files.Meta.{handle_meta}
use neko_chat.Files.Data.{handle_data}
use neko_chat.Files.Receiver.{handle_incoming_file_packet, handle_ack, handle_reject}

first16_within : (r : Bytes) → 2 ≤ length r → (w : ℕ) × (first16 r ≡ some w)
first16_within [] h = absurd (omega arith)
first16_within (a ∷ []) h = absurd (omega arith)
first16_within (a ∷ b ∷ r) h = (a + 256 * b, refl)

first32_within : (r : Bytes) → 4 ≤ length r → (w : ℕ) × (first32 r ≡ some w)
first32_within [] h = absurd (omega arith)
first32_within (a ∷ []) h = absurd (omega arith)
first32_within (a ∷ b ∷ []) h = absurd (omega arith)
first32_within (a ∷ b ∷ c ∷ []) h = absurd (omega arith)
first32_within (a ∷ b ∷ c ∷ d ∷ r) h = (a + 256 * b + 65536 * c + 16777216 * d, refl)

-- A read within the packet succeeds.
load16_within : (s : Bytes) (p : ℕ) → p + 2 ≤ length s → (w : ℕ) × (load16 s p ≡ some w)
unfolding load16
load16_within s p h = first16_within (drop p s) (omega (arith, length-drop p s))

load32_within : (s : Bytes) (p : ℕ) → p + 4 ≤ length s → (w : ℕ) × (load32 s p ≡ some w)
unfolding load32
load32_within s p h = first32_within (drop p s) (omega (arith, length-drop p s))

load64_within : (s : Bytes) (p : ℕ) → p + 8 ≤ length s → (w : ℕ) × (load64 s p ≡ some w)
unfolding load64
load64_within s p h =
    let lo = first32_within (drop p s) (omega (arith, length-drop p s)) in
    let hi =
      first32_within (drop 4 (drop p s))
        (omega (arith, length-drop p s, length-drop 4 (drop p s))) in
    (lo.0 + 2 ^ 32 * hi.0, rw (lo.1, hi.1) refl)

read_chunk_within :
    (s : Bytes) → 9 ≤ length s → (h : FileChunkHeader) × (read_chunk_header s ≡ some h)
unfolding read_chunk_header
read_chunk_within s n =
    let t = load32_within s 1 (omega arith) in
    let c = load32_within s 5 (omega arith) in
    (record { transfer_id = htonl t.0; chunk_index = htonl c.0 }, rw (t.1, c.1) refl)

read_reject_within : (s : Bytes) → 5 ≤ length s → (t : ℕ) × (read_reject_header s ≡ some t)
unfolding read_reject_header
read_reject_within s n = let t = load32_within s 1 (omega arith) in (htonl t.0, rw t.1 refl)

read_meta_within :
    (s : Bytes) → 19 ≤ length s → (h : FileMetaHeader) × (read_meta_header s ≡ some h)
unfolding read_meta_header
read_meta_within s n =
    let t = load32_within s 1 (omega arith) in
    let c = load32_within s 5 (omega arith) in
    let z = load64_within s 9 (omega arith) in
    let l = load16_within s 17 (omega arith) in
    (
      record {
        transfer_id = htonl t.0;
        chunk_count = htonl c.0;
        total_size = network_to_host64 z.0;
        file_name_len = htons l.0;
      },
      rw (t.1, c.1, z.1, l.1) refl,
    )

not_below : (a b : ℕ) → ltb a b ≡ false → b ≤ a
not_below a b h = ground arith

abbrev Returns : Option Transfers → Type 0
Returns none = ⊥
Returns (some s) = Unit {0}

returned : (o : Option Transfers) → Returns o → (s : Transfers) × (o ≡ some s)
returned none h = absurd h
returned (some s) h = (s, refl)

Returns-if :
    (b : Bool) (o p : Option Transfers) → Returns o → Returns p → Returns (if b then o else p)
Returns-if true o p h k = h
Returns-if false o p h k = k

handle_ack-Returns : (bytes : Bytes) (s : Transfers) → Returns (handle_ack bytes s)
unfolding handle_ack
handle_ack-Returns bytes s = elim (Bool-cases (ltb (length bytes) 9)) [
  | inl e ↦ rw e tt
  | inr e ↦ let h = read_chunk_within bytes (not_below _ _ e) in rw (e, h.1) tt
]

handle_reject-Returns : (bytes : Bytes) (s : Transfers) → Returns (handle_reject bytes s)
unfolding handle_reject
handle_reject-Returns bytes s = elim (Bool-cases (ltb (length bytes) 5)) [
  | inl e ↦ rw e tt
  | inr e ↦ let h = read_reject_within bytes (not_below _ _ e) in rw (e, h.1) tt
]

handle_data-Returns :
    (peer_id bytes : Bytes) (now : ℕ) (s : Transfers) → Returns (handle_data peer_id bytes now s)
unfolding handle_data
handle_data-Returns peer_id bytes now s = elim (Bool-cases (ltb (length bytes) 9)) [
  | inl e ↦ rw e tt
  | inr e ↦ let h = read_chunk_within bytes (not_below _ _ e) in rw (e, h.1) tt
]

handle_meta-Returns :
    (peer_id bytes : Bytes) (now : ℕ) (s : Transfers) → Returns (handle_meta peer_id bytes now s)
unfolding handle_meta
handle_meta-Returns peer_id bytes now s = elim (Bool-cases (ltb (length bytes) 19)) [
  | inl e ↦ rw e tt
  | inr e ↦ let h = read_meta_within bytes (not_below _ _ e) in rw (e, h.1) tt
]

handle-Returns :
    (peer_id bytes : Bytes) (now : ℕ) (s : Transfers)
    → Returns (handle_incoming_file_packet peer_id bytes now s)
unfolding handle_incoming_file_packet load8
handle-Returns peer_id [] now s = tt
handle-Returns peer_id (kind ∷ rest) now s =
    let bytes = kind ∷ rest in
    let cleaned = cleanup_file_transfers now s in
    Returns-if (kind == 3) _ _ (handle_ack-Returns bytes s) (
      Returns-if (kind == 4) _ _ (handle_reject-Returns bytes s) (
        Returns-if (kind == 1) _ _ (handle_meta-Returns peer_id bytes now cleaned)
          (Returns-if (kind == 2) _ _ (handle_data-Returns peer_id bytes now cleaned) tt)))

-- Whatever bytes a peer sends, the handler of file packets returns a state: no header is read
-- behind the end of the packet.
pub handle_incoming_file_packet-total :
    (peer_id bytes : Bytes) (now : ℕ) (s : Transfers)
    → (s' : Transfers) × (handle_incoming_file_packet peer_id bytes now s ≡ some s')
handle_incoming_file_packet-total peer_id bytes now s =
    returned _ (handle-Returns peer_id bytes now s)
