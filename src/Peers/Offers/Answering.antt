-- ===== src/Peers/Offers/Answering.antt =====
-- Offers in P2PChat.cpp are answered once.
use neko_chat.Common.{some, true, false, List, [], ◌∷◌, ◌++◌, ℕ, ◌≡◌, refl, arith}
use neko_chat.Common.Text.{Bytes, bytes_eq, bytes_eq_refl}
use neko_chat.Common.Assoc.{bytes_key, lookup}
use neko_chat.Peers.Users.{has_user}
use neko_chat.Peers.State.{P2pClient, Peer}

has_user-append : (u : Bytes) (us : List Bytes) → has_user u (us ++ u ∷ []) ≡ true
unfolding has_user
has_user-append u [] = rw (bytes_eq_refl u) refl
has_user-append u (v ∷ us) = rw (has_user-append u us) (ground arith)

-- After an answer to the offer of a peer: it waits no more, the other offers wait as before.
pub record IsAnswered (peer_id : Bytes) (before after : P2pClient) : Type 0 where
  pub gone : has_user peer_id after.pending_offer_peers ≡ false
  pub others :
      (q : Bytes)
      → bytes_eq peer_id q ≡ false
      → has_user q after.pending_offer_peers ≡ has_user q before.pending_offer_peers

-- The offer of the peer is being gathered for, by the agent of its entry, and nothing is sent.
abbrev pub IsGathering : Bytes → P2pClient → P2pClient → Type 0
IsGathering peer_id c d =
    ((i : ℕ) × (p : Peer) × (lookup peer_id d.peers ≡ some p)
      × (p.agent ≡ i)
      × (d.gatherings
          ≡ c.gatherings ++ record { peer_id = peer_id; agent = i; is_incoming = true } ∷ []))
    × (d.commands ≡ c.commands)

-- The rest of an agent's making leaves what is under way and what was sent.
abbrev pub IsQuiet : P2pClient → P2pClient → Type 0
IsQuiet c d = (d.gatherings ≡ c.gatherings) × (d.commands ≡ c.commands)
