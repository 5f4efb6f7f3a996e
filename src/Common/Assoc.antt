-- ===== src/Common/Assoc.antt =====
-- Maps as association lists. `insert` keeps the order of `std::map`, whose iteration the code shows.
use Prim.Native.Nat.{ℕ}
use mathlib.Core.Path.{sym, ◌∙◌, ◌≡◌, refl, ap, subst}
use mathlib.Core.Logic.{◌↔◌, ◌≢◌, inl, inr}
use mathlib.Core.Bool.{Bool, true, false}
use mathlib.Core.Option.{Option, none, some}
use mathlib.Core.List.{List, [], ◌∷◌}
use native.Mathlib.Omega.{arith}
use neko_chat.Common.Lists.{All}
use neko_chat.Common.Tests.{◌==◌, ==_iff, if◌then◌else◌, ltb, Bool-cases, some_inj, if_either}
use neko_chat.Common.Text.{Bytes, bytes_eq, bytes_eq_iff, bytes_lt}

-- Keys with a test for equality and an order.
pub record Key {ℓ} (K : Type ℓ) : Type ℓ where
  pub beq : K → K → Bool
  pub blt : K → K → Bool
  pub beq_iff : (a b : K) → (beq a b ≡ true) ↔ (a ≡ b)

instance abbrev pub nat_key : Key ℕ
nat_key = record { beq = ◌==◌; blt = ltb; beq_iff = ==_iff }

instance abbrev pub bytes_key : Key Bytes
bytes_key = record { beq = bytes_eq; blt = bytes_lt; beq_iff = bytes_eq_iff }

abbrev pub Map {ℓ κ} : Type ℓ → Type κ → Type (ℓ ⊔ κ)
Map K V = List (K × V)

module _ {ℓ κ} {K : Type ℓ} {V : Type κ} ⦃key : Key K⦄ where
  -- `m.find(k)`
  unfoldable pub lookup : K → Map K V → Option V
  lookup k [] = none
  lookup k ((j, v) ∷ m) = if key.beq j k then some v else lookup k m

  -- `m[k] = v`
  unfoldable pub insert : K → V → Map K V → Map K V
  insert k v [] = (k, v) ∷ []
  insert k v ((j, w) ∷ m) =
      let rest = insert k v m in
      if key.beq j k then (k, v) ∷ m else if key.blt k j then (k, v) ∷ (j, w) ∷ m else (j, w) ∷ rest

  -- `m.erase(k)`
  unfoldable pub erase : K → Map K V → Map K V
  erase k [] = []
  erase k ((j, w) ∷ m) = let rest = erase k m in if key.beq j k then rest else (j, w) ∷ rest

  pub lookup-insert :
      (k j : K) (v : V) (m : Map K V)
      → lookup j (insert k v m) ≡ (if key.beq k j then some v else lookup j m)
  unfolding lookup insert
  lookup-insert k j v [] = refl
  lookup-insert k j v ((i, w) ∷ m) =
      ground (arith, key.beq_iff k j, key.beq_iff i k, key.beq_iff i j, lookup-insert k j v m)

  pub lookup-erase :
      (k j : K) (m : Map K V) → lookup j (erase k m) ≡ (if key.beq k j then none else lookup j m)
  unfolding lookup erase
  lookup-erase k j [] = ground arith
  lookup-erase k j ((i, w) ∷ m) =
      ground (arith, lookup-erase k j m, key.beq_iff i k, key.beq_iff i j, key.beq_iff k j)

-- std::unordered_map, whose order nothing shows: `m[k] = v` of a whole value, and an entry changed
-- through a reference.
module _ {ℓ κ} {K : Type ℓ} {V : Type κ} ⦃key : Key K⦄ where
  unfoldable pub put : K → V → Map K V → Map K V
  put k v m = (k, v) ∷ erase k m

  unfoldable pub modify : K → (V → V) → Map K V → Map K V
  modify k f [] = []
  modify k f ((j, w) ∷ m) = if key.beq j k then (j, f w) ∷ m else (j, w) ∷ modify k f m

  pub lookup-put :
      (k j : K) (v : V) (m : Map K V)
      → lookup j (put k v m) ≡ (if key.beq k j then some v else lookup j m)
  unfolding put lookup
  lookup-put k j v m = ground (arith, lookup-erase k j m)

-- The loops that erase the entries that a test refuses.
module _ {ℓ κ} {K : Type ℓ} {V : Type κ} where
  unfoldable pub keep : (V → Bool) → Map K V → Map K V
  keep test [] = []
  keep test ((k, v) ∷ m) = let rest = keep test m in if test v then (k, v) ∷ rest else rest

module _ {ℓ} {K : Type ℓ} ⦃key : Key K⦄ where
  pub beq_self : (k : K) → key.beq k k ≡ true
  beq_self k = (key.beq_iff k k).1 refl

  pub beq_ne : (k j : K) → k ≢ j → key.beq k j ≡ false
  beq_ne k j h = elim (Bool-cases (key.beq k j)) [
    | inl e ↦ absurd (h ((key.beq_iff k j).0 e))
    | inr e ↦ e
  ]

module _ {ℓ κ} {K : Type ℓ} {V : Type κ} ⦃key : Key K⦄ where
  pub lookup-put_self : (k : K) (v : V) (m : Map K V) → lookup k (put k v m) ≡ some v
  lookup-put_self k v m = rw (lookup-put, beq_self k)

  pub lookup-put_ne : (k j : K) (v : V) (m : Map K V) → k ≢ j → lookup j (put k v m) ≡ lookup j m
  lookup-put_ne k j v m h = rw (lookup-put, beq_ne k j h)

  pub lookup-erase_self : (k : K) (m : Map K V) → lookup k (erase k m) ≡ none
  lookup-erase_self k m = rw (lookup-erase, beq_self k)

  pub lookup-erase_ne : (k j : K) (m : Map K V) → k ≢ j → lookup j (erase k m) ≡ lookup j m
  lookup-erase_ne k j m h = rw (lookup-erase, beq_ne k j h)

  pub lookup-modify_self :
      (k : K) (f : V → V) (m : Map K V) {v : V}
      → lookup k m ≡ some v
      → lookup k (modify k f m) ≡ some (f v)
  unfolding lookup modify
  lookup-modify_self k f [] e = absurd (cc)
  lookup-modify_self k f ((j, w) ∷ m) e = elim (Bool-cases (key.beq j k)) [
    | inl q ↦ rw (q, q) (ap (λ (x : V). some (f x)) (some_inj (rw q at e)))
    | inr q ↦ rw (q, q) (lookup-modify_self k f m (rw q at e))
  ]

  pub lookup-modify_ne :
      (k j : K) (f : V → V) (m : Map K V) → k ≢ j → lookup j (modify k f m) ≡ lookup j m
  unfolding lookup modify
  lookup-modify_ne k j f [] h = refl
  lookup-modify_ne k j f ((i, w) ∷ m) h = elim (Bool-cases (key.beq i k)) [
    | inl q ↦
        let other : key.beq i j ≡ false = beq_ne i j (λ e. h (sym ((key.beq_iff i k).0 q) ∙ e)) in
        rw (q, other) refl
    | inr q ↦ rw (q, lookup-modify_ne k j f m h) refl
  ]

  -- An entry changed through a reference and then erased.
  pub erase-modify : (k : K) (f : V → V) (m : Map K V) → erase k (modify k f m) ≡ erase k m
  unfolding erase modify
  erase-modify k f [] = refl
  erase-modify k f ((j, w) ∷ m) = elim (Bool-cases (key.beq j k)) [
    | inl q ↦ rw (q, q) refl
    | inr q ↦ rw (q, q) (ap (◌∷◌ (j, w)) (erase-modify k f m))
  ]

  pub modify-const :
      (k : K) (f : V → V) (m : Map K V) {v : V}
      → lookup k m ≡ some v
      → modify k f m ≡ modify k (λ _. f v) m
  unfolding lookup modify
  modify-const k f [] e = refl
  modify-const k f ((j, w) ∷ m) {v = v} e = elim (Bool-cases (key.beq j k)) [
    | inl q ↦ rw q (ap (λ (x : V). (j, f x) ∷ m) (some_inj (rw q at e)))
    | inr q ↦ rw q (ap (◌∷◌ (j, w)) (modify-const k f m (rw q at e)))
  ]

-- What holds of every entry holds of the one that is found, and of what is left.
module _ {K V : Type 0} ⦃key : Key K⦄ (P : K → V → Type 0) where
  pub All-lookup :
      (k : K) (m : Map K V) {v : V} → All (λ e. P e.0 e.1) m → lookup k m ≡ some v → P k v
  unfolding lookup
  All-lookup k [] h e = absurd (cc)
  All-lookup k ((j, w) ∷ m) {v = v} h e = elim (Bool-cases (key.beq j k)) [
    | inl q ↦
        subst (P k) (some_inj (rw q at e)) (subst (λ (i : K). P i w) ((key.beq_iff j k).0 q) h.0)
    | inr q ↦ All-lookup k m h.1 (rw q at e)
  ]

  pub All-erase : (k : K) (m : Map K V) → All (λ e. P e.0 e.1) m → All (λ e. P e.0 e.1) (erase k m)
  unfolding erase
  All-erase k [] h = tt
  All-erase k ((j, w) ∷ m) h = elim (Bool-cases (key.beq j k)) [
    | inl q ↦ rw q (All-erase k m h.1)
    | inr q ↦ rw q (h.0, All-erase k m h.1)
  ]

  pub All-insert :
      (k : K) (v : V) (m : Map K V)
      → P k v
      → All (λ e. P e.0 e.1) m
      → All (λ e. P e.0 e.1) (insert k v m)
  unfolding insert
  All-insert k v [] p h = (p, tt)
  All-insert k v ((j, w) ∷ m) p h =
      if_either (All (λ (e : K × V). P e.0 e.1)) (key.beq j k) _ _ (p, h.1)
        (if_either (All (λ (e : K × V). P e.0 e.1)) (key.blt k j) _ _ (p, h)
          (h.0, All-insert k v m p h.1))

  pub All-modify :
      (k : K) (f : V → V) (m : Map K V)
      → ((j : K) (v : V) → P j v → P j (f v))
      → All (λ e. P e.0 e.1) m
      → All (λ e. P e.0 e.1) (modify k f m)
  unfolding modify
  All-modify k f [] s h = tt
  All-modify k f ((j, w) ∷ m) s h =
      if_either (All (λ (e : K × V). P e.0 e.1)) (key.beq j k) _ _ (s j w h.0, h.1)
        (h.0, All-modify k f m s h.1)

module _ {K V : Type 0} ⦃key : Key K⦄ where
  -- No entry of the key is left.
  pub erase-ne : (k : K) (m : Map K V) → All (λ e. e.0 ≢ k) (erase k m)
  unfolding erase
  erase-ne k [] = tt
  erase-ne k ((j, w) ∷ m) = elim (Bool-cases (key.beq j k)) [
    | inl q ↦ rw q (erase-ne k m)
    | inr q ↦ rw q ((λ e. cc (q, (key.beq_iff j k).1 e)), erase-ne k m)
  ]
