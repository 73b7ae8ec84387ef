-- ===== src/Tui/InputLine/Drawn.antt =====
-- internal/tui/wrapped_input.go: what the pieces of a drawn line show.
use mathlib.Core.List.{append_assoc, append-nil}
use agent_dashboard.Common.{
  ℕ, zero, suc, ◌+◌, ◌≡◌, refl, ap, sym, ◌∙◌, Bool, false, Option, none, some, List, [], ◌∷◌, ◌++◌,
  length, drop, map, inl, inr, Bool-cases,
}
use agent_dashboard.Tui.InputLine.{
  Piece, piece, cursor_style, flush, Cell, next_slash, same, draw_cells, cells_of, draw_rows,
}

unfoldable pub text_of : List Piece → List ℕ
text_of [] = []
text_of (p ∷ ps) = p.runes ++ text_of ps

text_of-append : (ps qs : List Piece) → text_of (ps ++ qs) ≡ text_of ps ++ text_of qs
unfolding text_of
text_of-append [] qs = refl
text_of-append (p ∷ ps) qs =
    ap (λ l. p.runes ++ l) (text_of-append ps qs)
    ∙ sym (append_assoc p.runes (text_of ps) (text_of qs))

text_of-flush :
    (is_slash : Bool) (span : List ℕ) (ps : List Piece)
    → text_of (flush is_slash span ++ ps) ≡ span ++ text_of ps
unfolding flush text_of
text_of-flush is_slash [] ps = refl
text_of-flush is_slash (r ∷ rs) ps = refl

unfoldable pub runes_of : List Cell → List ℕ
runes_of [] = []
runes_of ((r, s) ∷ cells) = r ∷ runes_of cells

-- The blank of a cursor right behind the last rune.
unfoldable pub blank_after : Option ℕ → List Cell → List ℕ
blank_after none cells = []
blank_after (some zero) [] = b' ' ∷ []
blank_after (some (suc n)) [] = []
blank_after (some zero) (c ∷ cells) = []
blank_after (some (suc n)) (c ∷ cells) = blank_after (some n) cells

-- A drawn row shows its runes in their order, each once, and the blank of the cursor.
pub text_of-draw_cells :
    (cells : List Cell) (cursor : Option ℕ) (span : List ℕ) (is_slash : Bool)
    → text_of (draw_cells cells cursor span is_slash)
      ≡ span ++ (runes_of cells ++ blank_after cursor cells)
unfolding draw_cells runes_of blank_after text_of
text_of-draw_cells [] none span is_slash =
    ap text_of (sym (append-nil (flush is_slash span))) ∙ text_of-flush is_slash span []
text_of-draw_cells [] (some zero) span is_slash =
    text_of-flush is_slash span (piece cursor_style (b' ' ∷ []) ∷ [])
text_of-draw_cells [] (some (suc n)) span is_slash =
    ap text_of (sym (append-nil (flush is_slash span))) ∙ text_of-flush is_slash span []
text_of-draw_cells ((r, s) ∷ cells) (some zero) span is_slash =
    text_of-flush is_slash span _
    ∙ ap (λ l. span ++ r ∷ l) (text_of-draw_cells cells none [] (next_slash cells is_slash))
text_of-draw_cells ((r, s) ∷ cells) none span is_slash = elim (Bool-cases (same s is_slash)) [
  | inl on ↦ rw on (
      text_of-draw_cells cells none (span ++ r ∷ []) is_slash
      ∙ append_assoc span (r ∷ []) (runes_of cells ++ blank_after none cells))
  | inr anew ↦ rw anew (
      text_of-flush is_slash span (draw_cells cells none (r ∷ []) s)
      ∙ ap (λ l. span ++ l) (text_of-draw_cells cells none (r ∷ []) s))
]
text_of-draw_cells ((r, s) ∷ cells) (some (suc n)) span is_slash =
    elim (Bool-cases (same s is_slash)) [
      | inl on ↦ rw on (
          text_of-draw_cells cells (some n) (span ++ r ∷ []) is_slash
          ∙ append_assoc span (r ∷ []) (runes_of cells ++ blank_after (some n) cells))
      | inr anew ↦ rw anew (
          text_of-flush is_slash span (draw_cells cells (some n) (r ∷ []) s)
          ∙ ap (λ l. span ++ l) (text_of-draw_cells cells (some n) (r ∷ []) s))
    ]

runes_of-cells_of : (row : List ℕ) (tokens : List Bool) → runes_of (cells_of row tokens) ≡ row
unfolding runes_of cells_of
runes_of-cells_of [] tokens = refl
runes_of-cells_of (r ∷ rs) [] = ap (λ l. r ∷ l) (runes_of-cells_of rs [])
runes_of-cells_of (r ∷ rs) (s ∷ tokens) = ap (λ l. r ∷ l) (runes_of-cells_of rs tokens)

-- The texts of the lines of an input without a cursor are its rows.
pub draw_rows-none :
    (n : ℕ) (rows : List (List ℕ)) (tokens : List Bool)
    → map text_of (draw_rows none n rows tokens) ≡ rows
unfolding draw_rows blank_after
draw_rows-none n [] tokens = refl
draw_rows-none n (row ∷ rows) tokens =
    let cells = cells_of row tokens in
    let line : text_of (draw_cells cells none [] (next_slash cells false)) ≡ row =
      text_of-draw_cells cells none [] (next_slash cells false)
      ∙ append-nil (runes_of cells)
      ∙ runes_of-cells_of row tokens in
    ap (λ l. l ∷ map text_of (draw_rows none (n + 1) rows (drop (length row) tokens))) line
    ∙ ap (λ ls. row ∷ ls) (draw_rows-none (n + 1) rows (drop (length row) tokens))
