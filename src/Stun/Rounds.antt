-- ===== src/Stun/Rounds.antt =====
-- The rounds of the loop of ParseBindingResponse over the attributes.
use neko_chat.Common.{
  ℕ, zero, suc, ◌+◌, ◌≤◌, ◌<◌, ◌≡◌, refl, sym, ap, ◌∙◌, none, leb, leb→le, arith, Bool-cases,
  Option-cases, inl, inr,
}
use neko_chat.Common.Text.{Bytes}
use neko_chat.Stun.{found, skip, read_attribute, read_attributes}

module _ (bytes : Bytes) (stop : ℕ) where
  -- One more round makes no difference where the rounds reach the end.
  one_more :
      (fuel p : ℕ)
      → 1 ≤ fuel
      → stop < p + fuel
      → read_attributes fuel bytes stop p ≡ read_attributes (suc fuel) bytes stop p
  unfolding read_attributes
  one_more zero p some_left h = absurd (omega arith)
  one_more (suc fuel) p some_left h = elim (Bool-cases (leb (p + 4) stop)) [
    | inr e ↦ rw e refl
    | inl e ↦ elim (Option-cases (read_attribute bytes p)) [
      | inl r ↦ rw (e, r) refl
      | inr (found address, r) ↦ rw (e, r) refl
      | inr (skip n, r) ↦ rw (e, r) (one_more fuel (p + 4 + n) (ground arith) (omega arith))
    ]
  ]

  -- An attribute from `p` on, within the message, whose reading goes behind what was received.
  abbrev pub IsCutOff : ℕ → Type 0
  IsCutOff p = (q : ℕ) × (p ≤ q) × (q + 4 ≤ stop) × (read_attribute bytes q ≡ none)

  -- Enough rounds have no result only where a read has none.
  ends :
      (fuel p : ℕ)
      → 1 ≤ fuel
      → stop < p + fuel
      → read_attributes fuel bytes stop p ≡ none
      → IsCutOff p
  unfolding read_attributes
  ends zero p some_left h e = absurd (omega arith)
  ends (suc fuel) p some_left h e = elim (Bool-cases (leb (p + 4) stop)) [
    | inr q ↦ absurd (cc (rw q at e))
    | inl q ↦ elim (Option-cases (read_attribute bytes p)) [
      | inl r ↦ (p, omega arith, leb→le (p + 4) stop q, r)
      | inr (found address, r) ↦ absurd (cc (rw (q, r) at e))
      | inr (skip n, r) ↦
          let (at, after, within, gone) =
            ends fuel (p + 4 + n) (ground arith) (omega arith) (rw (q, r) at e) in
          (at, omega (arith, after), within, gone)
    ]
  ]

  more_rounds :
      (p more : ℕ)
      → 1 ≤ p
      → 1 ≤ stop
      → read_attributes (stop + more) bytes stop p ≡ read_attributes stop bytes stop p
  more_rounds p zero h l =
      ap (λ (n : ℕ). read_attributes n bytes stop p) {x = stop + 0} (omega arith)
  more_rounds p (suc more) h l =
      ap (λ (n : ℕ). read_attributes n bytes stop p) {x = stop + suc more} {y = suc (stop + more)}
        (omega arith)
      ∙ sym (one_more (stop + more) p (omega arith) (omega arith))
      ∙ more_rounds p more h l

  -- The loop over the attributes comes to its end within as many rounds as the message has bytes: it
  -- has a result unless an attribute within the message reaches behind what was received, and any
  -- further round changes nothing.
  pub read_attributes-ends :
      (p more : ℕ)
      → 1 ≤ p
      → 1 ≤ stop
      → (read_attributes (stop + more) bytes stop p ≡ read_attributes stop bytes stop p)
        × (read_attributes stop bytes stop p ≡ none → IsCutOff p)
  read_attributes-ends p more h l = (more_rounds p more h l, ends stop p l (omega arith))
