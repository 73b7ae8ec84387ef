-- ===== src/Tmux.antt =====
-- internal/tmux/tmux.go: the targets, and the commands that the dashboard gives to tmux.
-- Parameters: `Runner` is the interface of that name over a state `W` of the world; a result is the
-- success of `Run` and the output of `Output`, `none` for an error. Deadlines and the texts of the
-- errors are left out.
pub mod Targets
pub mod Keys
pub mod Chunks
pub mod Windows
pub mod Panes
mod Examples
use Prim.Native.Nat.{◌^◌}
use Prim.Native.Char.{code}
use agent_dashboard.Common.{
  ℕ, ◌+◌, ◌*◌, ◌-◌, String, Bool, true, false, ◌&&◌, ◌||◌, Option, none, some, List, [], ◌∷◌,
  is_empty, leb, ltb, ◌==◌, if◌then◌else◌,
}
use agent_dashboard.Common.Int.{ℤ, pos, negsuc}
use agent_dashboard.Common.Chars.{is_digit, starts_with, drop_while, cut_at, before_last, all_chars}

-- The characters of the first part of the regular expression `validTarget`.
abbrev pub is_name_char : ℕ → Bool
is_name_char c =
    (leb 97 c && leb c 122) || (leb 65 c && leb c 90) || is_digit c || c == 95 || c == 46 || c == 45

abbrev pub valid_pane : String → Bool
valid_pane String.[] = true
valid_pane (String.◌∷◌ c s) =
    code c == 46 && (starts_with is_digit s && is_empty (drop_while is_digit s))

abbrev pub valid_window : String → Bool
valid_window String.[] = true
valid_window (String.◌∷◌ c s) =
    code c == 58 && (starts_with is_digit s && valid_pane (drop_while is_digit s))

-- `ValidateTarget`, `true` for no error.
unfoldable pub validate_target : String → Bool
validate_target target =
    starts_with is_name_char target && valid_window (drop_while is_name_char target)

-- The value of digits after the number `n`.
abbrev pub digits_from : ℕ → String → ℕ
digits_from n String.[] = n
digits_from n (String.◌∷◌ c s) = digits_from (n * 10 + (code c - 48)) s

abbrev pub digits_value : String → ℕ
digits_value s = digits_from 0 s

abbrev negate : ℕ → ℤ
negate n = if n == 0 then pos 0 else negsuc (n - 1)

-- `strconv.Atoi`: an optional sign, digits, and the range of a 64-bit integer.
unfoldable pub unsigned : String → Option ℕ
unsigned s = if starts_with is_digit s && all_chars is_digit s then some (digits_value s) else none

unfoldable pub atoi : String → Option ℤ
unfolding unsigned
atoi String.[] = none
atoi (String.◌∷◌ c s) =
    if code c == 45
    then elim (unsigned s) [
      | none ↦ none
      | some n ↦ if leb n (2 ^ 63) then some (negate n) else none
    ]
    else elim (unsigned (if code c == 43 then s else String.◌∷◌ c s)) [
      | none ↦ none
      | some n ↦ if ltb n (2 ^ 63) then some (pos n) else none
    ]

-- `none` is the result with `ok` false.
unfoldable pub parse_target : String → Option (String × ℤ × ℤ)
parse_target target = elim (cut_at 58 target) [
  | none ↦ none
  | some (session, rest) ↦
      if is_empty session || is_empty rest then none else elim (cut_at 46 rest) [
        | none ↦ none
        | some (window, pane) ↦ if is_empty pane then none else elim (atoi window) [
          | none ↦ none
          | some w ↦ elim (atoi pane) [ none ↦ none | some p ↦ some (session, w, p) ]
        ]
      ]
]

unfoldable pub extract_session : String → String
extract_session target = elim (cut_at 58 target) [ none ↦ target | some (session, rest) ↦ session ]

unfoldable pub extract_session_window : String → String
extract_session_window target = elim (before_last 46 target) [
  | none ↦ target
  | some window ↦ window
]

-- An argument of a command: a text, or bytes that are part of one.
pub data Arg : Type 0 where
  word : String → Arg
  raw : List ℕ → Arg

pub record Runner (W : Type 0) : Type 0 where
  pub run : List Arg → W → Bool × W
  pub output : List Arg → W → Option String × W

-- `if err != nil { return err }` before what follows.
abbrev pub and_then : {W : Type 0} → Bool × W → (W → Bool × W) → Bool × W
and_then (ok, w) next = if ok then next w else (false, w)
