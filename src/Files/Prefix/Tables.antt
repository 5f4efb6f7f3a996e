-- ===== src/Files/Prefix/Tables.antt =====
-- The table of transfers under changes of one entry, and of the disk at that entry's paths.
use neko_chat.Common.{◌≡◌, ◌≢◌, sym, ◌∙◌, subst, some, [], ◌∷◌, All, Bool-cases, some_inj, inl, inr}
use neko_chat.Common.Text.{Bytes, bytes_eq, bytes_eq_iff}
pub use neko_chat.Common.Assoc.{All-lookup, All-erase}
use neko_chat.Common.Assoc.{Map, bytes_key, lookup, erase, modify}
use neko_chat.Files.Disk.{Disk}
use neko_chat.Files.State.{Incoming}
use neko_chat.Files.Prefix.{HoldsPrefix, Apart, AllHold, AllApart}

-- An entry changed through a reference keeps what the change keeps.
module _ {V : Type 0} (P : Bytes → V → Type 0) where
  pub All-modify :
      (k : Bytes) (f : V → V) (m : Map Bytes V)
      → ((j : Bytes) (v : V) → P j v → P j (f v))
      → All (λ e. P e.0 e.1) m
      → All (λ e. P e.0 e.1) (modify k f m)
  unfolding modify
  All-modify k f [] keeps h = tt
  All-modify k f ((j, w) ∷ m) keeps h = elim (Bool-cases (bytes_eq j k)) [
    | inl q ↦ rw q (keeps j w h.0, h.1)
    | inr q ↦ rw q (h.0, All-modify k f m keeps h.1)
  ]

pub Apart-sym : {t u : Incoming} → Apart t u → Apart u t
Apart-sym a = record { temps = λ e. a.temps (sym e); left = a.right; right = a.left }

-- A transfer that is found is apart from the others.
pub erase-Apart :
    (k : Bytes) (m : Map Bytes Incoming) {t : Incoming}
    → AllApart m
    → lookup k m ≡ some t
    → All (λ e. Apart t e.1) (erase k m)
unfolding lookup erase
erase-Apart k [] h e = tt
erase-Apart k ((j, w) ∷ m) {t = t} h e = elim (Bool-cases (bytes_eq j k)) [
  | inl q ↦ rw q (
      All-erase (λ _ u. Apart t u) k m
        (subst (λ (x : Incoming). All (λ e. Apart x e.1) m) (some_inj (rw q at e)) h.0))
  | inr q ↦ rw q (
      (
        Apart-sym (All-lookup (λ _ u. Apart w u) k m h.0 (rw q at e)),
        erase-Apart k m h.1 (rw q at e),
      ))
]

pub AllApart-erase : (k : Bytes) (m : Map Bytes Incoming) → AllApart m → AllApart (erase k m)
unfolding erase
AllApart-erase k [] h = tt
AllApart-erase k ((j, w) ∷ m) h = elim (Bool-cases (bytes_eq j k)) [
  | inl q ↦ rw q (AllApart-erase k m h.1)
  | inr q ↦ rw q (All-erase (λ _ u. Apart w u) k m h.0, AllApart-erase k m h.1)
]

-- A change that keeps the two paths of an entry.
abbrev pub SamePaths : Incoming → Incoming → Type 0
SamePaths t u = (t.temp_path ≡ u.temp_path) × (t.final_path ≡ u.final_path)

Apart-left : {t t' u : Incoming} → SamePaths t t' → Apart t u → Apart t' u
Apart-left p a = record {
  temps = λ e. a.temps (p.0 ∙ e);
  left = λ e. a.left (p.1 ∙ e);
  right = λ e. a.right (e ∙ sym p.0);
}

AllApart-left :
    (t t' : Incoming) (m : Map Bytes Incoming)
    → SamePaths t t'
    → All (λ e. Apart t e.1) m
    → All (λ e. Apart t' e.1) m
AllApart-left t t' [] p h = tt
AllApart-left t t' (e ∷ m) p h = (Apart-left p h.0, AllApart-left t t' m p h.1)

-- The paths of the others are apart from an entry that only others' changes leave alone.
modify-Apart :
    (w : Incoming) (k : Bytes) (f : Incoming → Incoming) (m : Map Bytes Incoming)
    → ((t : Incoming) → lookup k m ≡ some t → SamePaths t (f t))
    → All (λ e. Apart w e.1) m
    → All (λ e. Apart w e.1) (modify k f m)
unfolding modify lookup
modify-Apart w k f [] same h = tt
modify-Apart w k f ((j, u) ∷ m) same h = elim (Bool-cases (bytes_eq j k)) [
  | inl q ↦ rw q (Apart-sym (Apart-left (same u (rw q)) (Apart-sym h.0)), h.1)
  | inr q ↦ rw q (h.0, modify-Apart w k f m (λ t e. same t (rw q e)) h.1)
]

pub AllApart-modify :
    (k : Bytes) (f : Incoming → Incoming) (m : Map Bytes Incoming)
    → ((t : Incoming) → lookup k m ≡ some t → SamePaths t (f t))
    → AllApart m
    → AllApart (modify k f m)
unfolding modify lookup
AllApart-modify k f [] same h = tt
AllApart-modify k f ((j, w) ∷ m) same h = elim (Bool-cases (bytes_eq j k)) [
  | inl q ↦ rw q (AllApart-left w (f w) m (same w (rw q)) h.0, h.1)
  | inr q ↦ rw q (
    modify-Apart w k f m (λ t e. same t (rw q e)) h.0,
    AllApart-modify k f m (λ t e. same t (rw q e)) h.1,
  )
]

-- A disk that differs at two paths only.
pub record SameElsewhere (p q : Bytes) (d d' : Disk) : Type 0 where
  pub same : (r : Bytes) → r ≢ p → r ≢ q → lookup r d'.files ≡ lookup r d.files

HoldsPrefix-frame :
    {t : Incoming} (file : Bytes) (d d' : Disk) (u : Incoming)
    → SameElsewhere t.temp_path t.final_path d d'
    → Apart t u
    → HoldsPrefix file d u
    → HoldsPrefix file d' u
HoldsPrefix-frame file d d' u f a h = record {
  total = h.total;
  count = h.count;
  begun = h.begun;
  written = h.written;
  position = h.position;
  renames = h.renames;
  content = f.same u.temp_path (λ e. a.temps (sym e)) (λ e. a.left (sym e)) ∙ h.content;
}

pub AllHold-frame :
    (source : Bytes → Bytes) (t : Incoming) (d d' : Disk) (m : Map Bytes Incoming)
    → SameElsewhere t.temp_path t.final_path d d'
    → All (λ e. Apart t e.1) m
    → AllHold source d m
    → AllHold source d' m
AllHold-frame source t d d' [] f a h = tt
AllHold-frame source t d d' ((k, u) ∷ m) f a h =
    (HoldsPrefix-frame (source k) d d' u f a.0 h.0, AllHold-frame source t d d' m f a.1 h.1)

-- One transfer and the disk at its paths change: the others hold what they held.
pub AllHold-modify :
    (source : Bytes → Bytes) (k : Bytes) (t t' : Incoming) (d d' : Disk) (m : Map Bytes Incoming)
    → SameElsewhere t.temp_path t.final_path d d'
    → HoldsPrefix (source k) d' t'
    → AllApart m
    → lookup k m ≡ some t
    → AllHold source d m
    → AllHold source d' (modify k (λ _. t') m)
unfolding modify lookup
AllHold-modify source k t t' d d' [] f new a e h = tt
AllHold-modify source k t t' d d' ((j, u) ∷ m) f new a e h = elim (Bool-cases (bytes_eq j k)) [
  | inl q ↦
      let same : u ≡ t = some_inj (rw q at e) in
      rw q (
        subst (λ (i : Bytes). HoldsPrefix (source i) d' t') (sym ((bytes_eq_iff j k).0 q)) new,
        AllHold-frame source t d d' m f
            (subst (λ (x : Incoming). All (λ e. Apart x e.1) m) same a.0) h.1,
      )
  | inr q ↦ rw q (
    HoldsPrefix-frame (source j) d d' u f
        (Apart-sym (All-lookup (λ _ v. Apart u v) k m a.0 (rw q at e))) h.0,
    AllHold-modify source k t t' d d' m f new a.1 (rw q at e) h.1,
  )
]
