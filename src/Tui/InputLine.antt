-- ===== src/Tui/InputLine.antt =====
-- internal/tui/wrapped_input.go: the wrapped input line with its cursor and its skill commands. A
-- rune is its number. A line that is drawn is its pieces, each a call of a style's `Render` on runes,
-- since the styles are a third party's. Parameters: `is_space`, and `is_letter` for letters and
-- digits, of the package unicode. Widths are natural; the source takes 1 for one that is not positive.
pub mod Rows
pub mod Cursor
pub mod Drawn
mod Examples
use agent_dashboard.Common.{
  ℕ, zero, suc, ◌+◌, ◌-◌, ◌*◌, ◌/◌, ◌%◌, Bool, true, false, not, ◌&&◌, ◌||◌, Option, none, some,
  List, [], ◌∷◌, ◌++◌, length, take, drop, map, ltb, leb, ◌==◌, if◌then◌else◌,
}

-- The rows of `softWrapRunes`, with the length of the runes as fuel.
unfoldable pub chunks : ℕ → ℕ → List ℕ → List (List ℕ)
chunks zero width runes = []
chunks (suc fuel) width [] = []
chunks (suc fuel) width (r ∷ rs) =
    let w = if ltb (length (r ∷ rs)) width then length (r ∷ rs) else width in
    take w (r ∷ rs) ∷ chunks fuel width (drop w (r ∷ rs))

unfoldable pub soft_wrap_runes : List ℕ → ℕ → List (List ℕ)
unfolding chunks
soft_wrap_runes runes width =
    if width == 0 || leb (length runes) width then runes ∷ [] else chunks (length runes) width runes

abbrev pub at_least_one : ℕ → ℕ
at_least_one zero = 1
at_least_one (suc n) = suc n

unfoldable pub soft_wrap_runes_two_width : List ℕ → ℕ → ℕ → List (List ℕ)
unfolding chunks
soft_wrap_runes_two_width runes first_width cont_width =
    let first = at_least_one first_width in
    let rest = drop first runes in
    if leb (length runes) first
    then runes ∷ []
    else take first runes ∷ chunks (length rest) (at_least_one cont_width) rest

unfoldable pub clamp : ℕ → ℕ → ℕ → ℕ
clamp v lo hi = if ltb v lo then lo else if ltb hi v then hi else v

unfoldable pub equal : List ℕ → List ℕ → Bool
equal [] [] = true
equal [] (d ∷ t) = false
equal (c ∷ s) [] = false
equal (c ∷ s) (d ∷ t) = let rest = equal s t in if c == d then rest else false

unfoldable pub is_skill : List ℕ → List (List ℕ) → Bool
unfolding equal
is_skill name [] = false
is_skill name (s ∷ skills) = let rest = is_skill name skills in if equal s name then true else rest

-- What follows the last colon.
unfoldable pub after_colon : List ℕ → List ℕ → List ℕ
after_colon word [] = word
after_colon word (c ∷ rest) = if c == b':' then after_colon rest rest else after_colon word rest

module _ (is_space is_letter : ℕ → Bool) where
  unfoldable pub is_command_char : ℕ → Bool
  is_command_char r = is_letter r || r == b'-' || r == b'_' || r == b':'

  unfoldable pub command_word : List ℕ → List ℕ
  unfolding is_command_char
  command_word [] = []
  command_word (r ∷ rs) = let rest = command_word rs in if is_command_char r then r ∷ rest else []

  -- The runes of a command behind its sigil, given the rune before it.
  unfoldable pub is_slash_command : List (List ℕ) → ℕ → Option ℕ → List ℕ → Option ℕ
  unfolding command_word is_skill after_colon
  is_slash_command skills sigil before [] = none
  is_slash_command skills sigil before (r ∷ rs) =
      let word = command_word rs in
      let tail = after_colon word word in
      let stands : Bool = elim before [ none ↦ true | some b ↦ is_space b ] in
      if not (r == sigil)
      then none
      else if not stands
      then none
      else if length word == 0
      then none
      else if length tail == 0
      then none
      else if is_skill tail skills
      then some (length word)
      else none

  -- Which runes belong to a command; `left` of them are known to.
  unfoldable pub mark_tokens : List (List ℕ) → ℕ → ℕ → Option ℕ → List ℕ → List Bool
  unfolding is_slash_command
  mark_tokens skills sigil left before [] = []
  mark_tokens skills sigil (suc left) before (r ∷ rs) =
      true ∷ mark_tokens skills sigil left (some r) rs
  mark_tokens skills sigil zero before (r ∷ rs) =
      elim (is_slash_command skills sigil before (r ∷ rs)) [
        | none ↦ false ∷ mark_tokens skills sigil zero (some r) rs
        | some n ↦ true ∷ mark_tokens skills sigil n (some r) rs
      ]

-- The row and the column of the cursor.
unfoldable pub last_length : List (List ℕ) → ℕ
last_length [] = 0
last_length (row ∷ []) = length row
last_length (row ∷ next ∷ rows) = last_length (next ∷ rows)

unfoldable pub cursor_at : List ℕ → List (List ℕ) → ℕ → ℕ → ℕ → ℕ × ℕ
unfolding last_length clamp
cursor_at runes rows width cont_width cursor_pos =
    let pos = clamp cursor_pos 0 (length runes) in
    let last_row = length rows - 1 in
    let last_len = last_length rows in
    let row_width = if last_row == 0 then width else cont_width in
    if pos == length runes
    then (if leb row_width last_len then (last_row + 1, 0) else (last_row, last_len))
    else if ltb pos width
    then (0, pos)
    else (1 + (pos - width) / cont_width, (pos - width) % cont_width)

pub data Style : Type 0 where
  unstyled : Style
  slash_style : Style
  cursor_style : Style
  cursor_slash_style : Style
  placeholder_style : Style

pub record Piece : Type 0 where
  pub style : Style
  pub runes : List ℕ

abbrev pub piece : Style → List ℕ → Piece
piece style runes = record { style = style; runes = runes }

unfoldable pub flush : Bool → List ℕ → List Piece
flush is_slash [] = []
flush is_slash (r ∷ rs) = piece (if is_slash then slash_style else unstyled) (r ∷ rs) ∷ []

abbrev pub Cell : Type 0
Cell = ℕ × Bool

abbrev pub next_slash : List Cell → Bool → Bool
next_slash [] now = now
next_slash ((r, s) ∷ cells) now = s

abbrev pub same : Bool → Bool → Bool
same true b = b
same false b = not b

-- The inner loop: the cells left of the row, how far the cursor is from the first of them, and the
-- span that is not yet written.
unfoldable pub draw_cells : List Cell → Option ℕ → List ℕ → Bool → List Piece
unfolding flush
draw_cells [] none span is_slash = flush is_slash span
draw_cells [] (some zero) span is_slash = flush is_slash span ++ piece cursor_style (b' ' ∷ []) ∷ []
draw_cells [] (some (suc n)) span is_slash = flush is_slash span
draw_cells ((r, s) ∷ cells) (some zero) span is_slash =
    flush is_slash span
    ++ (piece (if s then cursor_slash_style else cursor_style) (r ∷ [])
        ∷ draw_cells cells none [] (next_slash cells is_slash))
draw_cells ((r, s) ∷ cells) none span is_slash =
    let go_on = draw_cells cells none (span ++ r ∷ []) is_slash in
    let anew = flush is_slash span ++ draw_cells cells none (r ∷ []) s in
    if same s is_slash then go_on else anew
draw_cells ((r, s) ∷ cells) (some (suc n)) span is_slash =
    let go_on = draw_cells cells (some n) (span ++ r ∷ []) is_slash in
    let anew = flush is_slash span ++ draw_cells cells (some n) (r ∷ []) s in
    if same s is_slash then go_on else anew

-- A row with the tokens of its runes.
unfoldable pub cells_of : List ℕ → List Bool → List Cell
cells_of [] tokens = []
cells_of (r ∷ rs) [] = (r, false) ∷ cells_of rs []
cells_of (r ∷ rs) (s ∷ tokens) = (r, s) ∷ cells_of rs tokens

abbrev pub cursor_in : Option (ℕ × ℕ) → ℕ → Option ℕ
cursor_in none row = none
cursor_in (some (r, c)) row = if r == row then some c else none

-- The outer loop, from the row of that number on, and the row of a cursor behind the last.
unfoldable pub draw_rows : Option (ℕ × ℕ) → ℕ → List (List ℕ) → List Bool → List (List Piece)
unfolding draw_cells cells_of
draw_rows none n [] tokens = []
draw_rows (some (r, c)) n [] tokens =
    if r == n then (piece cursor_style (b' ' ∷ []) ∷ []) ∷ [] else []
draw_rows cursor n (row ∷ rows) tokens =
    let cells = cells_of row tokens in
    draw_cells cells (cursor_in cursor n) [] (next_slash cells false)
    ∷ draw_rows cursor (n + 1) rows (drop (length row) tokens)

abbrev pub placeholder : List ℕ
placeholder = 84 ∷ 121 ∷ 112 ∷ 101 ∷ 32 ∷ 104 ∷ 101 ∷ 114 ∷ 101 ∷ 46 ∷ 46 ∷ 46 ∷ []

-- All lines after the first have the prefix.
unfoldable pub indent_rest : List ℕ → List (List Piece) → List (List Piece)
indent_rest prefix [] = []
indent_rest [] (line ∷ lines) = line ∷ lines
indent_rest (c ∷ prefix) (line ∷ lines) = line ∷ map (λ l. piece unstyled (c ∷ prefix) ∷ l) lines

module _ (is_space is_letter : ℕ → Bool) (skills : List (List ℕ)) (sigil : ℕ) where
  -- The lines that are joined by newlines.
  unfoldable pub render_wrapped_input : List ℕ → ℕ → ℕ → Bool → List ℕ → List (List Piece)
  unfolding soft_wrap_runes_two_width mark_tokens cursor_at draw_rows indent_rest
  render_wrapped_input [] cursor_pos width focused prefix =
      if focused
      then (piece cursor_style (b' ' ∷ []) ∷ []) ∷ []
      else (piece placeholder_style placeholder ∷ []) ∷ []
  render_wrapped_input (r ∷ rs) cursor_pos width focused prefix =
      let w = at_least_one width in
      let cont_width = at_least_one (w - length prefix) in
      let tokens = mark_tokens is_space is_letter skills sigil zero none (r ∷ rs) in
      let rows = soft_wrap_runes_two_width (r ∷ rs) w cont_width in
      let cursor =
        if focused then some (cursor_at (r ∷ rs) rows w cont_width cursor_pos) else none in
      indent_rest prefix (draw_rows cursor 0 rows tokens)
