-- ===== src/Files/Send/Waiting.antt =====
-- What waiting for an acknowledgement gives.
use neko_chat.Common.{ℕ, ◌≡◌, ◌≢◌, refl, true, false, not, none, if_cases, arith}
use neko_chat.Common.Assoc.{nat_key, lookup, erase, lookup-erase_self, lookup-erase_ne}
use neko_chat.Files.Names.{make_file_ack_key}
use neko_chat.Files.State.{Transfers}
use neko_chat.Files.Send.{
  WaitResult, acked, refused, timeout, stopped, has_key, is_signaled, wait_for_file_ack,
}

module _ (transfer_id chunk_index : ℕ) (s : Transfers) where
  -- What each result says of the state in which the wait ended, whose tables have the
  -- acknowledgement and the refusal or not.
  abbrev pub IsResult : WaitResult → Type 0
  IsResult acked =
      (s.running ≡ true)
      × (has_key transfer_id s.rejected_ids ≡ false)
      × (has_key (make_file_ack_key transfer_id chunk_index) s.acknowledgements ≡ true)
  IsResult refused = (s.running ≡ true) × (has_key transfer_id s.rejected_ids ≡ true)
  IsResult timeout =
      (s.running ≡ true)
      × (has_key transfer_id s.rejected_ids ≡ false)
      × (has_key (make_file_ack_key transfer_id chunk_index) s.acknowledgements ≡ false)
  IsResult stopped = s.running ≡ false

  -- Of the acknowledgements just the one is gone.
  abbrev pub OnlyTakes : Transfers → Type 0
  OnlyTakes s' =
      (lookup (make_file_ack_key transfer_id chunk_index) s'.acknowledgements ≡ none)
      × ((k : ℕ)
          → make_file_ack_key transfer_id chunk_index ≢ k
          → lookup k s'.acknowledgements ≡ lookup k s.acknowledgements)

  -- Of the refusals the one of the transfer is gone, and no other.
  abbrev pub Forgets : Transfers → Type 0
  Forgets s' =
      (lookup transfer_id s'.rejected_ids ≡ none)
      × ((k : ℕ) → transfer_id ≢ k → lookup k s'.rejected_ids ≡ lookup k s.rejected_ids)

  -- What becomes of the refusals.
  abbrev pub IsHeard : WaitResult → Transfers → Type 0
  IsHeard acked s' = s'.rejected_ids ≡ s.rejected_ids
  IsHeard refused s' = Forgets s'
  IsHeard timeout s' = s'.rejected_ids ≡ s.rejected_ids
  IsHeard stopped s' = Forgets s'

  -- The rest of the state is as before.
  abbrev pub IsElseSame : Transfers → Type 0
  IsElseSame s' =
      s' ≡ record s { acknowledgements = s'.acknowledgements; rejected_ids = s'.rejected_ids }

  -- Whatever the wait ends with: the result is the one that the stop, a refusal and the
  -- acknowledgement call for, in this order; the acknowledgement it waited for is out of the table
  -- and no other is; the refusals are as before after an acknowledgement or a timeout, and else the
  -- transfer's is out and no other is; and nothing else of the state has changed.
  pub wait_for_file_ack_lem :
      let (s', result) = wait_for_file_ack transfer_id chunk_index s in
      IsResult result × OnlyTakes s' × IsHeard result s' × IsElseSame s'
  unfolding wait_for_file_ack is_signaled
  wait_for_file_ack_lem =
      let key = make_file_ack_key transfer_id chunk_index in
      let takes : (lookup key (erase key s.acknowledgements) ≡ none)
          × ((k : ℕ)
              → key ≢ k
              → lookup k (erase key s.acknowledgements) ≡ lookup k s.acknowledgements) =
        (
          lookup-erase_self key s.acknowledgements,
          λ k n. lookup-erase_ne key k s.acknowledgements n,
        ) in
      let forgets : (lookup transfer_id (erase transfer_id s.rejected_ids) ≡ none)
          × ((k : ℕ)
              → transfer_id ≢ k
              → lookup k (erase transfer_id s.rejected_ids) ≡ lookup k s.rejected_ids) =
        (
          lookup-erase_self transfer_id s.rejected_ids,
          λ k n. lookup-erase_ne transfer_id k s.rejected_ids n,
        ) in
      let P = λ (r : Transfers × WaitResult).
        IsResult r.1 × OnlyTakes r.0 × IsHeard r.1 r.0 × IsElseSame r.0 in
      if_cases P (not (is_signaled transfer_id chunk_index s)) _ _
        (λ e. ((ground arith, ground arith, ground arith), takes, refl, refl))
        (λ e.
          if_cases P (not s.running) _ _ (λ r. (ground arith, takes, forgets, refl))
            (λ r.
              if_cases P (has_key transfer_id s.rejected_ids) _ _
                (λ j. ((ground arith, j), takes, forgets, refl))
                (λ j. ((ground arith, j, ground arith), takes, refl, refl))))
