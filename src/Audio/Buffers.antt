-- ===== src/Audio/Buffers.antt =====
-- The playback buffers of AudioEngine.hpp stay within their bounds and keep the order of the frames.
use neko_chat.Common.{
  ℕ, zero, suc, ◌+◌, ◌-◌, ◌≤◌, ◌%◌, min, Bool, false, ◌||◌, not, some, List, [], ◌∷◌, ◌++◌, length,
  take, drop, replicate, leb, leb→le, ◌<◌, length-append, length-take, length-drop,
  length-replicate, All, All-append, ◌≡◌, refl, sym, ap, ◌∙◌, subst, if_either, if_cases, arith,
  inl, inr, Bool-cases, some_inj,
}
use neko_chat.Common.Text.{Bytes, is_empty, bytes_eq}
use neko_chat.Common.Options.{elim_either}
use neko_chat.Common.Assoc.{
  Map, bytes_key, lookup, insert, lookup-insert, beq_self, All-lookup, All-insert,
}
use neko_chat.Audio.{
  frame_bytes, max_source_buffer_frames, target_source_buffer_frames, SourceBuffer, Playback,
  source_at, trim_frames, frame_of, aligned_length, is_idle, cleanup_idle_sources, store_frame,
  play_frame_from_source, take_frame, take_frames, has_no_frames,
}

-- A source holds whole frames and at most as many as its buffer takes.
pub record IsBuffer (s : SourceBuffer) : Type 0 where
  pub bounded : length s.frames ≤ max_source_buffer_frames
  pub whole : All (λ f. length f ≡ frame_bytes) s.frames

abbrev pub AreBuffers : Map Bytes SourceBuffer → Type 0
AreBuffers sources = All (λ e. IsBuffer e.1) sources

length-frame_of :
    (n : ℕ) (bytes : Bytes)
    → n ≤ length bytes
    → n ≤ frame_bytes
    → length (frame_of n bytes) ≡ frame_bytes
unfolding frame_of
length-frame_of n bytes l m = omega (
  arith,
  length-append (take n bytes) (replicate (frame_bytes - n) 0),
  length-take n bytes,
  length-replicate {A = ℕ} (frame_bytes - n) 0,
)

All-drop : (P : Bytes → Type 0) (n : ℕ) (fs : List Bytes) → All P fs → All P (drop n fs)
All-drop P zero fs h = h
All-drop P (suc n) [] h = tt
All-drop P (suc n) (f ∷ fs) h = All-drop P n fs h.1

length-trim_frames : (fs : List Bytes) → length (trim_frames fs) < max_source_buffer_frames
unfolding trim_frames
length-trim_frames fs =
    if_cases (λ (gs : List Bytes). length gs < max_source_buffer_frames)
      (leb max_source_buffer_frames (length fs)) _ _
      (λ e. omega (arith, length-drop (length fs - target_source_buffer_frames) fs))
      (λ e. ground arith)

trim_frames-whole :
    (fs : List Bytes)
    → All (λ f. length f ≡ frame_bytes) fs
    → All (λ f. length f ≡ frame_bytes) (trim_frames fs)
unfolding trim_frames
trim_frames-whole fs h =
    if_either (All (λ f. length f ≡ frame_bytes)) (leb max_source_buffer_frames (length fs)) _ _
      (All-drop (λ f. length f ≡ frame_bytes) (length fs - target_source_buffer_frames) fs h) h

cleanup-AreBuffers :
    (now : ℕ) (sources : Map Bytes SourceBuffer)
    → AreBuffers sources
    → AreBuffers (cleanup_idle_sources now sources)
unfolding cleanup_idle_sources
cleanup-AreBuffers now [] h = tt
cleanup-AreBuffers now ((key, s) ∷ sources) h =
    let rest = cleanup-AreBuffers now sources h.1 in
    if_either AreBuffers (is_idle now s) _ _ rest (h.0, rest)

source_at-IsBuffer :
    (key : Bytes) (now : ℕ) (sources : Map Bytes SourceBuffer)
    → AreBuffers sources
    → IsBuffer (source_at key now sources)
unfolding source_at
source_at-IsBuffer key now sources h =
    elim_either IsBuffer (lookup key sources) _ _ (record { bounded = omega arith; whole = tt })
      (λ s e. All-lookup (λ (k : Bytes) (s : SourceBuffer). IsBuffer s) key sources h e)

store_frame-AreBuffers :
    (key frame : Bytes) (now : ℕ) (p : Playback)
    → length frame ≡ frame_bytes
    → AreBuffers p.sources
    → AreBuffers (store_frame key frame now p).sources
unfolding store_frame
store_frame-AreBuffers key frame now p l h =
    let s = source_at key now p.sources in
    let whole = trim_frames-whole s.frames (source_at-IsBuffer key now p.sources h).whole in
    cleanup-AreBuffers now _ (
      All-insert (λ (k : Bytes) (s : SourceBuffer). IsBuffer s) key _ p.sources
        (record {
          bounded = omega (
            arith,
            length-append (trim_frames s.frames) (frame ∷ []),
            length-trim_frames s.frames,
          );
          whole =
              All-append (λ f. length f ≡ frame_bytes) (trim_frames s.frames) (frame ∷ []) whole
                (l, tt);
        })
        h)

length-aligned : (bytes : Bytes) → length (frame_of (aligned_length bytes) bytes) ≡ frame_bytes
unfolding aligned_length
length-aligned bytes =
    length-frame_of (min frame_bytes (length bytes - length bytes % 2)) bytes (omega arith)
      (omega arith)

take_frame-AreBuffers :
    (now : ℕ) (key : Bytes) (s : SourceBuffer) (fs : List Bytes)
    (r : Map Bytes SourceBuffer × List Bytes)
    → IsBuffer s
    → IsBuffer (record s { frames = fs })
    → AreBuffers r.0
    → AreBuffers (take_frame now key s fs r).0
unfolding take_frame
take_frame-AreBuffers now key s [] r h k t = if_either AreBuffers (is_idle now s) _ _ t (h, t)
take_frame-AreBuffers now key s (f ∷ fs) r h k t =
    let left : IsBuffer (record s { frames = fs }) = record {
      bounded = omega (arith, k.bounded);
      whole = k.whole.1;
    } in
    if_either AreBuffers (is_idle now (record s { frames = fs })) _ _ t (left, t)

take_frames-AreBuffers :
    (now : ℕ) (sources : Map Bytes SourceBuffer)
    → AreBuffers sources
    → AreBuffers (take_frames now sources).0
unfolding take_frames
take_frames-AreBuffers now [] h = tt
take_frames-AreBuffers now ((key, s) ∷ sources) h =
    take_frame-AreBuffers now key s s.frames (take_frames now sources) h.0
      (record { bounded = h.0.bounded; whole = h.0.whole }) (take_frames-AreBuffers now sources h.1)

play_frame-AreBuffers :
    (starts : Bool) (source_id bytes : Bytes) (now : ℕ) (p : Playback)
    → AreBuffers p.sources
    → AreBuffers (play_frame_from_source starts source_id bytes now p).sources
unfolding play_frame_from_source
play_frame-AreBuffers starts source_id bytes now p h =
    let P = λ (q : Playback). AreBuffers q.sources in
    if_either P (is_empty bytes) _ _ h (
      if_either P (not (p.has_output || starts) || leb (aligned_length bytes) 0) _ _ h (
        store_frame-AreBuffers _ (frame_of (aligned_length bytes) bytes) now _
          (length-aligned bytes) h))

-- A frame that comes stands behind those that stay, which are the newest.
lookup-cleanup :
    (now : ℕ) (key : Bytes) (s : SourceBuffer) (sources : Map Bytes SourceBuffer)
    → lookup key sources ≡ some s
    → is_idle now s ≡ false
    → lookup key (cleanup_idle_sources now sources) ≡ some s
unfolding lookup cleanup_idle_sources
lookup-cleanup now key s [] e busy = absurd (cc)
lookup-cleanup now key s ((k, t) ∷ sources) e busy = elim (Bool-cases (bytes_eq k key)) [
  | inl q ↦
      let same : t ≡ s = some_inj (rw q at e) in
      rw (subst (λ u. is_idle now u ≡ false) (sym same) busy, q) (ap some same)
  | inr q ↦
      let rest = lookup-cleanup now key s sources (rw q at e) busy in
      if_either (λ (m : Map Bytes SourceBuffer). lookup key m ≡ some s) (is_idle now t) _ _ rest
        (rw q rest)
]

-- When a packet comes, and when the mix takes the first frame of every source, each source's buffer
-- still has at most max_source_buffer_frames frames, and each of them is a whole frame.
pub playback-AreBuffers :
    (starts : Bool) (source_id bytes : Bytes) (now : ℕ) (p : Playback)
    → AreBuffers p.sources
    → AreBuffers (play_frame_from_source starts source_id bytes now p).sources
      × AreBuffers (take_frames now p.sources).0
playback-AreBuffers starts source_id bytes now p h =
    (play_frame-AreBuffers starts source_id bytes now p h, take_frames-AreBuffers now p.sources h)

has_frames :
    (now : ℕ) (fs : List Bytes) (f : Bytes) (t : ℕ)
    → is_idle now (record { frames = fs ++ f ∷ []; last_seen = t }) ≡ false
unfolding is_idle has_no_frames
has_frames now [] f t = refl
has_frames now (g ∷ fs) f t = refl

-- What stays of the frames is the newest.
abbrev pub IsNewest : ℕ → List Bytes → Type 0
IsNewest k fs =
    (length fs < max_source_buffer_frames → k ≡ 0)
    × (max_source_buffer_frames ≤ length fs → k + target_source_buffer_frames ≡ length fs)

trim_frames-drop : (fs : List Bytes) → (k : ℕ) × (trim_frames fs ≡ drop k fs) × IsNewest k fs
unfolding trim_frames
trim_frames-drop fs = elim (Bool-cases (leb max_source_buffer_frames (length fs))) [
  | inl e ↦
      let full = leb→le max_source_buffer_frames (length fs) e in
      (
        length fs - target_source_buffer_frames,
        rw e refl,
        (λ l. absurd (omega (arith, full, l)), λ l. omega (arith, l)),
      )
  | inr e ↦ (0, rw e refl, (λ l. refl, λ l. absurd (ground (arith, e, l))))
]

source_at-there :
    (key : Bytes) (now : ℕ) (sources : Map Bytes SourceBuffer) (s : SourceBuffer)
    → lookup key sources ≡ some s
    → source_at key now sources ≡ s
unfolding source_at
source_at-there key now sources s e = rw (e, source_at) refl

stored_at :
    (key frame : Bytes) (now : ℕ) (p : Playback)
    → lookup key (store_frame key frame now p).sources
      ≡ some (record {
        frames = trim_frames (source_at key now p.sources).frames ++ frame ∷ [];
        last_seen = now;
      })
unfolding store_frame
stored_at key frame now p =
    let kept = trim_frames (source_at key now p.sources).frames in
    let s : SourceBuffer = record { frames = kept ++ frame ∷ []; last_seen = now } in
    lookup-cleanup now key s (insert key s p.sources) (rw (lookup-insert, beq_self key) refl)
      (has_frames now kept frame now)

-- A frame that comes for a source stands behind those that stay, and these are the newest: the first
-- ones go only when the buffer is full, and then all but the last target_source_buffer_frames.
pub store_frame-IsNewest :
    (key frame : Bytes) (now : ℕ) (p : Playback) (s : SourceBuffer)
    → lookup key p.sources ≡ some s
    → (k : ℕ) × (lookup key (store_frame key frame now p).sources
        ≡ some (record { frames = drop k s.frames ++ frame ∷ []; last_seen = now }))
      × IsNewest k s.frames
store_frame-IsNewest key frame now p s e =
    let (k, kept, newest) = trim_frames-drop s.frames in
    let there = source_at-there key now p.sources s e in
    (
      k,
      stored_at key frame now p
          ∙ ap (λ (fs : List Bytes). some (record { frames = fs ++ frame ∷ []; last_seen = now }))
              (ap (λ (t : SourceBuffer). trim_frames t.frames) there ∙ kept),
      newest,
    )
