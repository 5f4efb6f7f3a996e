-- ===== src/Ice/Retries.antt =====
-- CheckPairTimeouts for a pair without an answer.
use neko_chat.Common.{ℕ, ◌+◌, ◌-◌, ◌<◌, ◌≡◌, false, none, some, List, [], ◌∷◌, get_elem?, ◌⊎◌}
use neko_chat.Ice.{Agent, check_pair_timeouts}
use neko_chat.Ice.Pairs.{CandidatePair, failed, Surroundings}
use neko_chat.Ice.Trying.{IsTrying}

module _ (net : Surroundings) (i : ℕ) (s : Agent) where
  -- What a retry does: the pair has a new request on its way, or has no socket or address to send
  -- one to, or the sending fails.
  abbrev pub IsAsked : CandidatePair → Type 0
  IsAsked p =
      ((n : ℕ) × (p.active_tid ≡ some (net.tids n)))
      ⊎ ((p.socket ≡ none)
          ⊎ ((net.parse_ipv4 p.remote.ip ≡ none) ⊎ ((n : ℕ) × (net.sends n ≡ false))))

  abbrev HasAsked : Agent → Type 0
  HasAsked a = (p : CandidatePair) × (get_elem? a.pairs i ≡ some p) × IsAsked p

  -- What a check after `r` retries makes of the pair.
  abbrev HasFailed : Agent → Type 0
  HasFailed a = (p : CandidatePair) × (get_elem? a.pairs i ≡ some p) × (p.state ≡ failed)

  abbrev pub IsChecked : ℕ → ℕ → Agent → Type 0
  IsChecked r now a =
      ((r < s.max_retries) × IsTrying i (r + 1) now s a × HasAsked a)
      ⊎ ((r ≡ s.max_retries) × HasFailed a)

  -- The pair after each of the calls of CheckPairTimeouts at some times.
  abbrev pub GivesUp : ℕ → List ℕ → Agent → Type 0
  GivesUp r [] a = Unit {0}
  GivesUp r (t ∷ ts) a =
      let b = check_pair_timeouts net t a in IsChecked r t b × GivesUp (r + 1) ts b

  -- Each time is later than the timeout after the one before.
  abbrev pub Spaced : ℕ → List ℕ → Type 0
  Spaced since [] = Unit {0}
  Spaced since (t ∷ ts) = (s.retry_timeout_ms < t - since) × Spaced t ts
