-- ===== src/Screen/Assembling.antt =====
-- HandleIncomingScreenChunk for the chunks of a frame.
use neko_chat.Common.{
  ℕ, zero, suc, ◌+◌, ◌≤◌, ◌<◌, ◌≡◌, refl, sym, ap, ap₂, ◌∙◌, Bool, true, false, ◌||◌, not, some,
  List, [], ◌∷◌, ◌++◌, length, set, get_elem?, replicate, length-replicate, take, ltb, ◌==◌,
  if◌then◌else◌, arith, Bool-cases, Option-cases, All, inl, inr, ==_iff, some_inj, subst,
}
use neko_chat.Common.Text.{Bytes}
use neko_chat.Screen.{
  Assembly, screen_chunk_count, cut_of, header_of, restart, store_chunk, join_chunks, complete,
  assemble,
}
use neko_chat.Screen.Cutting.{cuts_from, all_cuts}

-- The slots of a frame from `i` on: a chunk that has come is the frame's.
abbrev pub Filled : Bytes → ℕ → List Bytes → List Bool → Type 0
Filled jpeg i [] [] = Unit {0}
Filled jpeg i [] (r ∷ rs) = ⊥
Filled jpeg i (c ∷ cs) [] = ⊥
Filled jpeg i (c ∷ cs) (r ∷ rs) = (r ≡ true → c ≡ cut_of jpeg i) × Filled jpeg (i + 1) cs rs

-- How many chunks have come.
abbrev pub count_true : List Bool → ℕ
count_true [] = 0
count_true (r ∷ rs) = (if r then 1 else 0) + count_true rs

-- An assembly has some of a frame's chunks and nothing else.
pub record IsPart (jpeg : Bytes) (a : Assembly) : Type 0 where
  pub filled : Filled jpeg 0 a.chunks a.received
  pub slots : length a.received ≡ screen_chunk_count (length jpeg)
  pub count : a.chunk_count ≡ screen_chunk_count (length jpeg)
  pub total : a.total_size ≡ length jpeg
  pub counted : a.received_count ≡ count_true a.received

Filled-fresh : (jpeg : Bytes) (i n : ℕ) → Filled jpeg i (replicate n []) (replicate n false)
Filled-fresh jpeg i zero = tt
Filled-fresh jpeg i (suc n) = ((λ e. absurd (cc)), Filled-fresh jpeg (i + 1) n)

count_true-fresh : (n : ℕ) → count_true (replicate n false) ≡ 0
count_true-fresh zero = refl
count_true-fresh (suc n) = omega (arith, count_true-fresh n)

get-within : (rs : List Bool) (i : ℕ) → i < length rs → (b : Bool) × (get_elem? rs i ≡ some b)
get-within [] i h = absurd (omega arith)
get-within (r ∷ rs) zero h = (r, refl)
get-within (r ∷ rs) (suc i) h = get-within rs i (omega arith)

length-set_bool : (rs : List Bool) (i : ℕ) → length (set rs i true) ≡ length rs
length-set_bool [] i = refl
length-set_bool (r ∷ rs) zero = refl
length-set_bool (r ∷ rs) (suc i) = ap suc (length-set_bool rs i)

count_true-set :
    (rs : List Bool) (i : ℕ)
    → get_elem? rs i ≡ some false
    → count_true (set rs i true) ≡ count_true rs + 1
count_true-set [] i e = absurd (cc)
count_true-set (true ∷ rs) zero e = absurd (cc)
count_true-set (false ∷ rs) zero e = omega arith
count_true-set (r ∷ rs) (suc i) e = omega (arith, count_true-set rs i e)

Filled-set :
    (jpeg : Bytes) (k i : ℕ) (cs : List Bytes) (rs : List Bool)
    → Filled jpeg k cs rs
    → Filled jpeg k (set cs i (cut_of jpeg (k + i))) (set rs i true)
Filled-set jpeg k i [] [] h = tt
Filled-set jpeg k i [] (r ∷ rs) h = absurd h
Filled-set jpeg k i (c ∷ cs) [] h = absurd h
Filled-set jpeg k zero (c ∷ cs) (r ∷ rs) h =
    ((λ e. ap (cut_of jpeg) {x = k + 0} (omega arith)), h.1)
Filled-set jpeg k (suc i) (c ∷ cs) (r ∷ rs) h = (
  h.0,
  subst (λ (n : ℕ). Filled jpeg (k + 1) (set cs i (cut_of jpeg n)) (set rs i true)) {x = k + 1 + i}
      (omega arith) (Filled-set jpeg (k + 1) i cs rs h.1),
)

all_true : (rs : List Bool) → count_true rs ≤ length rs
all_true [] = omega arith
all_true (r ∷ rs) = ground (arith, all_true rs)

-- When all chunks have come they join up to the cuts.
join-Filled :
    (jpeg : Bytes) (k : ℕ) (cs : List Bytes) (rs : List Bool)
    → Filled jpeg k cs rs
    → count_true rs ≡ length rs
    → join_chunks cs ≡ cuts_from jpeg k (length rs)
unfolding join_chunks
join-Filled jpeg k [] [] h e = refl
join-Filled jpeg k [] (r ∷ rs) h e = absurd h
join-Filled jpeg k (c ∷ cs) [] h e = absurd h
join-Filled jpeg k (c ∷ cs) (false ∷ rs) h e = absurd (omega (arith, all_true rs))
join-Filled jpeg k (c ∷ cs) (true ∷ rs) h e =
    ap₂ (λ (x y : Bytes). x ++ y) (h.0 refl) (join-Filled jpeg (k + 1) cs rs h.1 (omega arith))

untrimmed : (n : ℕ) (j : Bytes) → n ≡ length j → (if ltb n (length j) then take n j else j) ≡ j
untrimmed n j h = elim (Bool-cases (ltb n (length j))) [
  | inl e ↦ absurd (ground arith)
  | inr e ↦ rw e refl
]

joined :
    (jpeg : Bytes) (a : Assembly)
    → IsPart jpeg a
    → a.received_count ≡ a.chunk_count
    → join_chunks a.chunks ≡ jpeg
joined jpeg a h e =
    join-Filled jpeg 0 a.chunks a.received h.filled (sym h.counted ∙ e ∙ h.count ∙ sym h.slots)
    ∙ ap (cuts_from jpeg 0) h.slots
    ∙ all_cuts jpeg

-- The frame that the receiver makes of an assembly.
abbrev trimmed : ℕ → Bytes → Bytes
trimmed n j = if ltb n (length j) then take n j else j

complete-IsPart :
    (jpeg out : Bytes) (a : Assembly) → IsPart jpeg a → complete a ≡ some out → out ≡ jpeg
unfolding complete
complete-IsPart jpeg out a h e = elim (Bool-cases (a.received_count == a.chunk_count)) [
  | inl q ↦
      sym (some_inj (rw q at e))
      ∙ ap (trimmed a.total_size) (joined jpeg a h ((==_iff a.received_count a.chunk_count).0 q))
      ∙ untrimmed a.total_size jpeg h.total
  | inr q ↦ absurd (cc (rw q at e))
]

stored :
    (jpeg : Bytes) (i : ℕ) (a : Assembly) (b : Bool)
    → get_elem? a.received i ≡ some b
    → IsPart jpeg a
    → (a' : Assembly) × (store_chunk i (cut_of jpeg i) a ≡ some a') × IsPart jpeg a'
unfolding store_chunk
stored jpeg i a true e p = (a, rw e refl, p)
stored jpeg i a false e p = (
  record a {
    chunks = set a.chunks i (cut_of jpeg i);
    received = set a.received i true;
    received_count = a.received_count + 1;
    received_bytes = a.received_bytes + length (cut_of jpeg i);
  },
  rw e refl,
  record {
    filled =
        subst (λ (n : ℕ). Filled jpeg 0 (set a.chunks i (cut_of jpeg n)) (set a.received i true))
          {x = 0 + i} (omega arith) (Filled-set jpeg 0 i a.chunks a.received p.filled);
    slots = length-set_bool a.received i ∙ p.slots;
    count = p.count;
    total = p.total;
    counted = omega (arith, p.counted, count_true-set a.received i e);
  },
)

store_chunk-IsPart :
    (jpeg : Bytes) (i : ℕ) (a : Assembly)
    → i < screen_chunk_count (length jpeg)
    → IsPart jpeg a
    → (a' : Assembly) × (store_chunk i (cut_of jpeg i) a ≡ some a') × IsPart jpeg a'
store_chunk-IsPart jpeg i a h p =
    let g = get-within a.received i (omega (arith, p.slots)) in stored jpeg i a g.0 g.1 p

same_all : (x y z : Bool) → (not x || not y || not z) ≡ false → (x ≡ true) × (y ≡ true) × (z ≡ true)
same_all x y z h = (ground arith, ground arith, ground arith)

fresh-IsPart :
    (jpeg : Bytes) (frame_id now : ℕ)
    → let n = screen_chunk_count (length jpeg) in
      let a : Assembly = record {
        frame_id = frame_id;
        chunk_count = n;
        total_size = length jpeg;
        chunks = replicate n [];
        received = replicate n false;
        received_count = 0;
        received_bytes = 0;
        last_update = now;
      } in
      IsPart jpeg a
fresh-IsPart jpeg frame_id now = record {
  filled = Filled-fresh jpeg 0 (screen_chunk_count (length jpeg));
  slots = length-replicate (screen_chunk_count (length jpeg)) false;
  count = refl;
  total = refl;
  counted = sym (count_true-fresh (screen_chunk_count (length jpeg)));
}

-- The assembly there is, if it is of the frame, has a part of it.
abbrev pub PartIfSame : ℕ → Bytes → Assembly → Type 0
PartIfSame frame_id jpeg a =
    a.frame_id ≡ frame_id
    → a.chunk_count ≡ screen_chunk_count (length jpeg)
    → a.total_size ≡ length jpeg
    → IsPart jpeg a

restart-IsPart :
    (jpeg : Bytes) (frame_id i now : ℕ) (a : Assembly)
    → PartIfSame frame_id jpeg a
    → IsPart jpeg (restart (header_of frame_id jpeg i) now a)
unfolding restart
restart-IsPart jpeg frame_id i now a h =
    elim (Bool-cases (
      not (a.frame_id == frame_id)
      || not (a.chunk_count == screen_chunk_count (length jpeg))
      || not (a.total_size == length jpeg))) [
        | inl e ↦ rw e (fresh-IsPart jpeg frame_id now)
        | inr e ↦
            let same = same_all _ _ _ e in
            let p =
              h ((==_iff a.frame_id frame_id).0 same.0)
                ((==_iff a.chunk_count (screen_chunk_count (length jpeg))).0 same.1)
                ((==_iff a.total_size (length jpeg)).0 same.2) in
            rw e (record {
              filled = p.filled;
              slots = p.slots;
              count = p.count;
              total = p.total;
              counted = p.counted;
            })
      ]

set_here :
    {A : Type 0} (xs : List A) (i : ℕ) (x : A) {y : A}
    → get_elem? xs i ≡ some y
    → get_elem? (set xs i x) i ≡ some x
set_here [] i x e = absurd (cc)
set_here (z ∷ xs) zero x e = refl
set_here (z ∷ xs) (suc i) x e = set_here xs i x e

set-true :
    (rs : List Bool) (i j : ℕ)
    → get_elem? rs j ≡ some true
    → get_elem? (set rs i true) j ≡ some true
set-true [] i j e = absurd (cc)
set-true (r ∷ rs) zero zero e = refl
set-true (r ∷ rs) zero (suc j) e = e
set-true (r ∷ rs) (suc i) zero e = e
set-true (r ∷ rs) (suc i) (suc j) e = set-true rs i j e

-- Chunk `i` has come, and those that had come before are there still.
abbrev HasTaken : ℕ → Assembly → Assembly → Type 0
HasTaken i a a' =
    (get_elem? a'.received i ≡ some true)
    × ((j : ℕ) → get_elem? a.received j ≡ some true → get_elem? a'.received j ≡ some true)

store_chunk-HasTaken :
    (i : ℕ) (payload : Bytes) (a a' : Assembly)
    → store_chunk i payload a ≡ some a'
    → HasTaken i a a'
unfolding store_chunk
store_chunk-HasTaken i payload a a' e = elim (Option-cases (get_elem? a.received i)) [
  | inl q ↦ absurd (cc (rw q at e))
  | inr (true, q) ↦
      let same : a ≡ a' = some_inj (rw q at e) in subst (HasTaken i a) same (q, λ j h. h)
  | inr (false, q) ↦
      subst (HasTaken i a) (some_inj (rw q at e))
        (set_here a.received i true q, λ j h. set-true a.received i j h)
]

count_true-all : (rs : List Bool) → All (λ r. r ≡ true) rs → count_true rs ≡ length rs
count_true-all [] h = refl
count_true-all (true ∷ rs) h = omega (arith, count_true-all rs h.1)
count_true-all (false ∷ rs) h = absurd (let e = h.0 in cc)

complete-all :
    (jpeg : Bytes) (a : Assembly)
    → IsPart jpeg a
    → All (λ r. r ≡ true) a.received
    → complete a ≡ some jpeg
unfolding complete
complete-all jpeg a h all =
    let e : a.received_count ≡ a.chunk_count =
      h.counted ∙ count_true-all a.received all ∙ h.slots ∙ sym h.count in
    rw ((==_iff a.received_count a.chunk_count).1 e) (
      ap some (ap (trimmed a.total_size) (joined jpeg a h e) ∙ untrimmed a.total_size jpeg h.total))

-- Chunk `i` has come, and those of the same frame that had come before are there still.
abbrev pub HasStored : ℕ → ℕ → Bytes → Assembly → Assembly → Type 0
HasStored frame_id i jpeg a a' =
    (get_elem? a'.received i ≡ some true)
    × (a.frame_id ≡ frame_id
        → a.chunk_count ≡ screen_chunk_count (length jpeg)
        → a.total_size ≡ length jpeg
        → (j : ℕ) → get_elem? a.received j ≡ some true
        → get_elem? a'.received j ≡ some true)

restart-same :
    (jpeg : Bytes) (frame_id i now : ℕ) (a : Assembly)
    → a.frame_id ≡ frame_id
    → a.chunk_count ≡ screen_chunk_count (length jpeg)
    → a.total_size ≡ length jpeg
    → (restart (header_of frame_id jpeg i) now a).received ≡ a.received
unfolding restart
restart-same jpeg frame_id i now a f c t =
    rw
      (
        (==_iff a.frame_id frame_id).1 f,
        (==_iff a.chunk_count (screen_chunk_count (length jpeg))).1 c,
        (==_iff a.total_size (length jpeg)).1 t,
      )
      refl

-- A chunk of a frame that arrives, in whatever order, late or again, is stored within the bounds of
-- the tables beside the chunks of its frame that came before, and leaves an assembly with a part
-- of just this frame, if the assembly before it, where it is of this frame, has a part of it. When
-- all chunks have come the frame comes out, and what comes out is the sender's, byte for byte.
pub assemble-IsPart :
    (jpeg : Bytes) (frame_id i now : ℕ) (a : Assembly)
    → i < screen_chunk_count (length jpeg)
    → PartIfSame frame_id jpeg a
    → (a' : Assembly) × (assemble (header_of frame_id jpeg i) (cut_of jpeg i) now a ≡ some a')
      × IsPart jpeg a'
      × HasStored frame_id i jpeg a a'
      × (All (λ r. r ≡ true) a'.received → complete a' ≡ some jpeg)
      × ((out : Bytes) → complete a' ≡ some out → out ≡ jpeg)
unfolding assemble
assemble-IsPart jpeg frame_id i now a h p =
    let fresh = restart (header_of frame_id jpeg i) now a in
    let s = store_chunk-IsPart jpeg i fresh h (restart-IsPart jpeg frame_id i now a p) in
    let taken = store_chunk-HasTaken i (cut_of jpeg i) fresh s.0 s.1 in
    (
      s.0,
      s.1,
      s.2,
      (
        taken.0,
        λ f c t j e. taken.1 j (
            ap (λ (rs : List Bool). get_elem? rs j) (restart-same jpeg frame_id i now a f c t) ∙ e),
      ),
      λ all. complete-all jpeg s.0 s.2 all,
      λ out e. complete-IsPart jpeg out s.0 s.2 e,
    )
