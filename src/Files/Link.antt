-- ===== src/Files/Link.antt =====
-- SendFileWorker and HandleIncomingFilePacket with a network between two programs. Packets may be
-- lost, repeated, late and out of order.
pub mod Receiving
pub mod Beginning
pub mod Traffic
pub mod Arrival
mod Tests
use neko_chat.Common.{
  Bool, ℕ, false, ◌&&◌, ◌||◌, Option, none, some, List, [], ◌∷◌, drop, get_elem?, ◌==◌,
  if◌then◌else◌,
}
use neko_chat.Common.Text.{Bytes, bytes_eq}
use neko_chat.Wire.Words.{load8}
use neko_chat.Files.Packets.{
  file_packet_meta, file_packet_data, file_packet_ack, file_packet_reject,
}
use neko_chat.Files.State.{Transfers}
use neko_chat.Files.Receiver.{handle_incoming_file_packet}
use neko_chat.Files.Prompts.{accept_pending_file_prompt, decline_pending_file_prompt}
use neko_chat.Files.Send.{Network}

-- The receiving program: its state, and the states that it has had, the latest first.
pub record Far : Type 0 where
  pub receiver : Transfers
  pub seen : List Transfers

-- The packet that was sent as the `k`-th arrives at the other program, at a time there; the user of
-- the receiving program answers to the prompt for the transfer.
pub data Event : Type 0 where
  to_receiver : ℕ → ℕ → Event
  to_sender : ℕ → ℕ → Event
  user_accepts : ℕ → Event
  user_declines : ℕ → Event

-- The kind of a packet behind its packet type.
unfoldable pub has_kind : (ℕ → Bool) → Bytes → Bool
has_kind wanted packet = elim (load8 (drop 1 packet) 0) [ none ↦ false | some kind ↦ wanted kind ]

-- Metadata and chunks go one way, acknowledgements and refusals the other.
abbrev pub is_request : ℕ → Bool
is_request kind = kind == file_packet_meta || kind == file_packet_data

abbrev pub is_answer : ℕ → Bool
is_answer kind = kind == file_packet_ack || kind == file_packet_reject

abbrev pub after : Transfers → Option Transfers → Transfers
after s none = s
after s (some t) = t

-- Packet `k` that `here` has sent to `to` arrives there from the peer `from`.
unfoldable pub deliver : Bytes → Bytes → (ℕ → Bool) → ℕ → ℕ → Transfers → Transfers → Transfers
deliver from to wanted k now here there = elim (get_elem? here.sent k) [
  | none ↦ there
  | some (peer, packet) ↦
      if bytes_eq peer to && has_kind wanted packet
      then after there (handle_incoming_file_packet from (drop 1 packet) now there)
      else there
]

-- What happens while the sender waits for the `n`-th time, and which sends succeed.
pub record Link : Type 0 where
  pub sends : ℕ → Bool
  pub schedule : ℕ → List Event

-- The receiver in another state.
abbrev pub becomes : Transfers → Far → Far
becomes r far = record { receiver = r; seen = r ∷ far.seen }

module _ (sender_id receiver_id : Bytes) (transfer_id : ℕ) where
  unfoldable pub run_event : Event → Transfers → Far → Transfers × Far
  run_event (to_receiver k now) s far =
      (s, becomes (deliver sender_id receiver_id is_request k now s far.receiver) far)
  run_event (to_sender k now) s far =
      (deliver receiver_id sender_id is_answer k now far.receiver s, far)
  run_event (user_accepts now) s far =
      (s, becomes (accept_pending_file_prompt sender_id transfer_id now far.receiver).0 far)
  run_event (user_declines now) s far =
      (s, becomes (decline_pending_file_prompt sender_id transfer_id now far.receiver).0 far)

  unfoldable pub run_events : List Event → Transfers → Far → Transfers × Far
  run_events [] s far = (s, far)
  run_events (e ∷ es) s far = let (s', far') = run_event e s far in run_events es s' far'

  unfoldable pub network : Link → Network Far
  network link = record { sends = link.sends; during = λ n. run_events (link.schedule n) }
