-- ===== src/Screen/Cutting.antt =====
-- The cuts that SendScreenFrame makes of a frame.
use neko_chat.Common.{
  ℕ, zero, suc, ◌+◌, ◌*◌, ◌≤◌, ◌≡◌, sym, ap, ◌∙◌, [], ◌++◌, take, drop, length, drop-add,
  take-append-drop, drop-length, arith,
}
use neko_chat.Common.Text.{Bytes}
use neko_chat.Screen.{cut_of, screen_chunk_count}

-- The cuts from `i` on, `n` of them.
abbrev pub cuts_from : Bytes → ℕ → ℕ → Bytes
cuts_from jpeg i zero = []
cuts_from jpeg i (suc n) = cut_of jpeg i ++ cuts_from jpeg (i + 1) n

next_cut :
    (jpeg : Bytes) (i : ℕ) → cut_of jpeg i ++ drop ((i + 1) * 1100) jpeg ≡ drop (i * 1100) jpeg
unfolding cut_of
next_cut jpeg i =
    ap (λ (t : Bytes). take 1100 (drop (i * 1100) jpeg) ++ t)
      (ap (λ (n : ℕ). drop n jpeg) {x = (i + 1) * 1100} (omega arith)
        ∙ sym (drop-add (i * 1100) 1100 jpeg))
    ∙ take-append-drop 1100 (drop (i * 1100) jpeg)

pub cuts_from-drop :
    (jpeg : Bytes) (i n : ℕ)
    → length jpeg ≤ (i + n) * 1100
    → cuts_from jpeg i n ≡ drop (i * 1100) jpeg
cuts_from-drop jpeg i zero h = sym (drop-length jpeg (i * 1100) (omega arith))
cuts_from-drop jpeg i (suc n) h =
    ap (λ (t : Bytes). cut_of jpeg i ++ t) (cuts_from-drop jpeg (i + 1) n (omega arith))
    ∙ next_cut jpeg i

pub all_cuts : (jpeg : Bytes) → cuts_from jpeg 0 (screen_chunk_count (length jpeg)) ≡ jpeg
unfolding screen_chunk_count
all_cuts jpeg = cuts_from-drop jpeg 0 _ (omega arith)
