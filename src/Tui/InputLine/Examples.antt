-- ===== src/Tui/InputLine/Examples.antt =====
-- The theorem on the cursor at a concrete input, and tests by evaluation.
use agent_dashboard.Common.{◌≡◌, refl, true, false, [], ◌∷◌, ◌==◌, if◌then◌else◌, arith}
use agent_dashboard.Common.Text.{codes}
use agent_dashboard.Tui.InputLine.{
  unstyled, slash_style, cursor_style, piece, cursor_at, soft_wrap_runes_two_width,
  render_wrapped_input,
}
use agent_dashboard.Tui.InputLine.Rows.{flat}
use agent_dashboard.Tui.InputLine.Cursor.{IsShown, cursor_at-IsShown}

wrap_example :
    soft_wrap_runes_two_width (codes "hello world") 4 3
    ≡ codes "hell" ∷ codes "o w" ∷ codes "orl" ∷ codes "d" ∷ []
unfolding soft_wrap_runes_two_width
wrap_example = refl

cursor_at-IsShown_example :
    (flat (soft_wrap_runes_two_width (codes "hello world") 4 3) ≡ codes "hello world")
    × IsShown 4 3 (codes "hello world") (omega arith) (omega arith) 8 (
        cursor_at (codes "hello world") (soft_wrap_runes_two_width (codes "hello world") 4 3) 4 3 8)
cursor_at-IsShown_example =
    cursor_at-IsShown 4 3 (codes "hello world") (omega arith) (omega arith) 8

draw_example :
    render_wrapped_input
      (λ c. c == b' ')
      (λ c. if c == b' ' then false else true)
      (codes "fix" ∷ [])
      b'/'
      (codes "/fix it")
      6
      5
      true
      []
    ≡ (piece slash_style (codes "/fix") ∷ piece unstyled (codes " ") ∷ [])
      ∷ (piece unstyled (codes "i") ∷ piece cursor_style (codes "t") ∷ [])
      ∷ []
unfolding render_wrapped_input
draw_example = refl
