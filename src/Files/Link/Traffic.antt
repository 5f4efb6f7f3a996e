-- ===== src/Files/Link/Traffic.antt =====
-- The events of the network and what holds at both of its ends.
use neko_chat.Common.{
  ℕ, ◌<◌, ◌^◌, ◌≡◌, ap, ap₂, Option, ◌∙◌, Bool, true, false, some, List, [], ◌∷◌, drop, length, ltb,
  ◌==◌, ◌⊎◌, inl, inr, All, All-map, arith, Bool-cases, Option-cases, some_inj, get_elem?, ◌&&◌,
  All-get, if_cases, and_true, ==_iff,
}
use neko_chat.Common.Text.{Bytes, bytes_eq, bytes_eq_iff}
use neko_chat.Common.Assoc.{nat_key, put, All-erase}
use neko_chat.Wire.Words.{load8}
use neko_chat.Files.Names.{make_file_ack_key}
use neko_chat.Files.Packets.{file_meta_chunk_index, read_chunk_header, read_reject_header}
use neko_chat.Files.Names.Keys.{make_file_ack_key-injective}
use neko_chat.Files.State.{Transfers}
use neko_chat.Files.Receiver.{handle_incoming_file_packet, handle_ack, handle_reject}
use neko_chat.Files.Answers.{handle_file_ack_packet, handle_file_reject_packet}
use neko_chat.Files.Prefix.{IsGenuine}
use neko_chat.Files.Prefix.Main.{CarriesChunk}
use neko_chat.Files.Link.{
  Far, Event, to_receiver, to_sender, user_accepts, user_declines, has_kind, becomes, is_request,
  is_answer, after, deliver, run_event, run_events,
}
use neko_chat.Files.Link.Beginning.{
  IsFine, CarriesMeta, receive_meta-IsFine, accept-IsFine, decline-IsFine,
}
use neko_chat.Files.Link.Receiving.{
  HasFile, IsSound, IsSound-map, IsLastAck, last_chunk, receive-IsSound, read_chunk_header-lt,
}

abbrev pub Any {ℓ} : {A : Type ℓ} → (A → Type 0) → List A → Type 0
Any P [] = ⊥
Any P (x ∷ xs) = P x ⊎ Any P xs

has_kind_lem :
    (wanted : ℕ → Bool) (packet : Bytes)
    → has_kind wanted packet ≡ true
    → (kind : ℕ) × (load8 (drop 1 packet) 0 ≡ some kind) × (wanted kind ≡ true)
unfolding has_kind
has_kind_lem wanted packet h = elim (Option-cases (load8 (drop 1 packet) 0)) [
  | inl e ↦ absurd (cc (rw (e, has_kind) at h))
  | inr (kind, e) ↦ (kind, e, rw (e, has_kind) at h)
]

other_request : (kind : ℕ) → is_request kind ≡ true → (kind == 1) ≡ false → kind ≡ 2
other_request kind request other = ground arith

neither : (b kind : ℕ) → b ≡ kind → is_answer kind ≡ true → (b == 3) ≡ false → (b == 4) ≡ false → ⊥
neither b kind e answer no_ack no_reject = ground arith

module _ (source : Bytes → Bytes) (sender_id receiver_id : Bytes) (tid : ℕ) where
  -- The receiver has had the whole file at some path.
  abbrev pub HasArrived : Far → Type 0
  HasArrived far = Any (HasFile source sender_id tid) far.seen

  -- A packet has the file's metadata, a chunk of the sender's, or neither.
  abbrev pub Carries : Bytes → Type 0
  Carries bytes =
      (load8 bytes 0 ≡ some 1 → CarriesMeta source sender_id tid bytes)
      × (load8 bytes 0 ≡ some 2 → CarriesChunk source sender_id bytes)

  abbrev pub last_ack_key : ℕ
  last_ack_key = make_file_ack_key tid (last_chunk source sender_id tid)

  -- What is sent to the receiver is the file's, the receiver is right, and the last chunk has been
  -- acknowledged only if the file has arrived.
  pub record IsLinked (s : Transfers) (far : Far) : Type 0 where
    pub genuine : IsGenuine source far.receiver
    pub sound : IsSound source sender_id tid (HasArrived far) far.receiver
    pub carried : All (λ e. e.0 ≡ receiver_id → Carries (drop 1 e.1)) s.sent
    pub acked : All (λ e. e.0 ≡ last_ack_key → HasArrived far) s.acknowledgements

  -- What the receiver is after an event.
  abbrev HasHeard : Far → Transfers → Type 0
  HasHeard far r =
      IsGenuine source r
      × IsSound source sender_id tid (HasArrived far ⊎ HasFile source sender_id tid r) r

  HasHeard-fine :
      (far : Far) (r : Transfers) → IsFine source sender_id tid (HasArrived far) r → HasHeard far r
  HasHeard-fine far r h = (h.0, IsSound-map source sender_id tid r inl h.1)

  becomes-IsLinked :
      (r s : Transfers) (far : Far) → HasHeard far r → IsLinked s far → IsLinked s (becomes r far)
  becomes-IsLinked r s far heard h = record {
    genuine = heard.0;
    sound = IsSound-map source sender_id tid r swap heard.1;
    carried = h.carried;
    acked = All-map _ _ (λ e g k. inr (g k)) s.acknowledgements h.acked;
  }
    where
      swap :
          HasArrived far ⊎ HasFile source sender_id tid r
          → HasFile source sender_id tid r ⊎ HasArrived far
      swap (inl a) = inr a
      swap (inr b) = inl b

  module _ (fits : tid < 2 ^ 32)
      (small : last_chunk source sender_id tid < file_meta_chunk_index) where
    request-HasHeard :
        (bytes : Bytes) (kind now : ℕ) (far : Far)
        → load8 bytes 0 ≡ some kind
        → is_request kind ≡ true
        → Carries bytes
        → IsFine source sender_id tid (HasArrived far) far.receiver
        → HasHeard far
            (after far.receiver (handle_incoming_file_packet sender_id bytes now far.receiver))
    request-HasHeard bytes kind now far e request carries h = elim (Bool-cases (kind == 1)) [
      | inl meta ↦ HasHeard-fine far _ (
          receive_meta-IsFine source sender_id tid (HasArrived far) now fits small bytes
            far.receiver (e ∙ ap some ((==_iff kind 1).0 meta))
            (carries.0 (e ∙ ap some ((==_iff kind 1).0 meta))) h)
      | inr chunk ↦
          let two : load8 bytes 0 ≡ some 2 = e ∙ ap some (other_request kind request chunk) in
          receive-IsSound source sender_id tid bytes now far.receiver two (carries.1 two) h.0 h.1
    ]

    deliver-HasHeard :
        (k now : ℕ) (s : Transfers) (far : Far)
        → IsLinked s far
        → HasHeard far (deliver sender_id receiver_id is_request k now s far.receiver)
    unfolding deliver
    deliver-HasHeard k now s far h =
        let r = far.receiver in
        let same : HasHeard far r = HasHeard-fine far r (h.genuine, h.sound) in
        elim (Option-cases (get_elem? s.sent k)) [
          | inl e ↦ rw (e, deliver) same
          | inr ((peer, packet), e) ↦
              rw (e, deliver)
                (if_cases (HasHeard far) (bytes_eq peer receiver_id && has_kind is_request packet) _
                  _
                  (λ own.
                    let tests = and_true _ _ own in
                    let (kind, read, request) = has_kind_lem is_request packet tests.1 in
                    request-HasHeard (drop 1 packet) kind now far read request
                      (All-get (λ (e : Bytes × Bytes). e.0 ≡ receiver_id → Carries (drop 1 e.1))
                        s.sent k h.carried e ((bytes_eq_iff peer receiver_id).0 tests.0))
                      (h.genuine, h.sound))
                  (λ _. same))
        ]

  module _ (far : Far) (small : last_chunk source sender_id tid < 2 ^ 32) where
    heard_ack :
        (bytes : Bytes) (s : Transfers)
        → load8 bytes 0 ≡ some 3
        → ((load8 bytes 0 ≡ some 3)
              × (read_chunk_header bytes
                  ≡ some
                      (record { transfer_id = tid; chunk_index = last_chunk source sender_id tid }))
            → HasArrived far)
        → IsLinked s far
        → IsLinked (after s (handle_ack bytes s)) far
    unfolding handle_ack handle_file_ack_packet put
    heard_ack bytes s kind why h = elim (Bool-cases (ltb (length bytes) 9)) [
      | inl short ↦ rw short h
      | inr long ↦ elim (Option-cases (read_chunk_header bytes)) [
        | inl missing ↦ rw (long, missing) h
        | inr (head, e) ↦
            rw (long, e)
              (record {
                genuine = h.genuine;
                sound = h.sound;
                carried = h.carried;
                acked = (
                  (λ k.
                      let fits = read_chunk_header-lt bytes e in
                      let same = make_file_ack_key-injective _ _ _ _ fits.1 small k in
                      why (
                        kind,
                        e
                            ∙ ap₂ (λ t i. some (record { transfer_id = t; chunk_index = i })) same.0
                                same.1,
                      )),
                  All-erase (λ k _. k ≡ last_ack_key → HasArrived far) _ s.acknowledgements h.acked,
                );
              })
      ]
    ]

    heard_reject :
        (bytes : Bytes) (s : Transfers)
        → IsLinked s far
        → IsLinked (after s (handle_reject bytes s)) far
    unfolding handle_reject handle_file_reject_packet
    heard_reject bytes s h = elim (Bool-cases (ltb (length bytes) 5)) [
      | inl short ↦ rw short h
      | inr long ↦ elim (Option-cases (read_reject_header bytes)) [
        | inl missing ↦ rw (long, missing) h
        | inr (u, e) ↦
            rw (long, e)
              (record {
                genuine = h.genuine;
                sound = h.sound;
                carried = h.carried;
                acked = h.acked;
              })
      ]
    ]

    heard_answer :
        (bytes : Bytes) (kind now : ℕ) (s : Transfers)
        → load8 bytes 0 ≡ some kind
        → is_answer kind ≡ true
        → ((load8 bytes 0 ≡ some 3)
              × (read_chunk_header bytes
                  ≡ some
                      (record { transfer_id = tid; chunk_index = last_chunk source sender_id tid }))
            → HasArrived far)
        → IsLinked s far
        → IsLinked (after s (handle_incoming_file_packet receiver_id bytes now s)) far
    unfolding handle_incoming_file_packet load8
    heard_answer [] kind now s e answer why h = h
    heard_answer (b ∷ rest) kind now s e answer why h =
        let bytes = b ∷ rest in
        let P = λ (o : Option Transfers). IsLinked (after s o) far in
        if_cases P (b == 3) _ _ (λ ack. heard_ack bytes s (ap some ((==_iff b 3).0 ack)) why h)
          (λ no_ack.
            if_cases P (b == 4) _ _ (λ _. heard_reject bytes s h)
              (λ no_reject. absurd (neither b kind (some_inj e) answer no_ack no_reject)))

    to_sender-IsLinked :
        (k now : ℕ) (s : Transfers)
        → IsLinked s far
        → IsLinked (deliver receiver_id sender_id is_answer k now far.receiver s) far
    unfolding deliver
    to_sender-IsLinked k now s h = elim (Option-cases (get_elem? far.receiver.sent k)) [
      | inl e ↦ rw (e, deliver) h
      | inr ((peer, packet), e) ↦
          rw (e, deliver)
            (if_cases (λ (t : Transfers). IsLinked t far)
              (bytes_eq peer sender_id && has_kind is_answer packet) _ _
              (λ own.
                let (kind, read, answer) = has_kind_lem is_answer packet (and_true _ _ own).1 in
                heard_answer (drop 1 packet) kind now s read answer
                  (All-get
                    (λ (e : Bytes × Bytes). IsLastAck source sender_id tid e.1 → HasArrived far)
                    far.receiver.sent k h.sound.answered e)
                  h)
              (λ _. h))
    ]

  module _ (fits : tid < 2 ^ 32)
      (small : last_chunk source sender_id tid < file_meta_chunk_index) where
    pub run_events-IsLinked :
        (es : List Event) (s : Transfers) (far : Far)
        → IsLinked s far
        → let (s', far') = run_events sender_id receiver_id tid es s far in IsLinked s' far'
    unfolding run_events run_event
    run_events-IsLinked [] s far h = h
    run_events-IsLinked (to_receiver k now ∷ es) s far h =
        run_events-IsLinked es s _
          (becomes-IsLinked _ s far (deliver-HasHeard fits small k now s far h) h)
    run_events-IsLinked (to_sender k now ∷ es) s far h =
        run_events-IsLinked es _ far (to_sender-IsLinked far (omega arith) k now s h)
    run_events-IsLinked (user_accepts now ∷ es) s far h = run_events-IsLinked es s _ (
        becomes-IsLinked _ s far
          (HasHeard-fine far _ (
            accept-IsFine source sender_id tid (HasArrived far) now fits small far.receiver
              (h.genuine, h.sound)))
          h)
    run_events-IsLinked (user_declines now ∷ es) s far h = run_events-IsLinked es s _ (
        becomes-IsLinked _ s far
          (HasHeard-fine far _ (
            decline-IsFine source sender_id tid (HasArrived far) now fits small far.receiver
              (h.genuine, h.sound)))
          h)
