-- ===== src/Tmux/Windows.antt =====
-- internal/tmux/tmux.go: the commands on windows and panes, and what they read of tmux's answers.
pub mod Language
pub mod Valid
use Prim.Native.Char.{code}
use Prim.Native.String.{◌++◌}
use agent_dashboard.Common.{
  ℕ, suc, String, Bool, true, false, ◌&&◌, Option, none, some, List, [], ◌∷◌, ◌++◌ as append,
  is_empty, non_empty, ◌==◌, if◌then◌else◌,
}
use agent_dashboard.Common.Int.{ℤ}
use agent_dashboard.Common.Text.{trim_space}
use agent_dashboard.Common.Chars.{cut_at}
use agent_dashboard.Tmux.{
  Arg, word, Runner, and_then, validate_target, atoi, extract_session_window,
}

-- internal/domain/types.go: `TmuxWindowInfo`.
pub record TmuxWindowInfo : Type 0 where
  pub index : ℤ
  pub name : String

-- `strings.Split(s, "\n")`.
unfoldable pub split_newlines : String → List String
split_newlines String.[] = "" ∷ []
split_newlines (String.◌∷◌ c s) =
    let rest = split_newlines s in
    if code c == 10
    then "" ∷ rest
    else elim rest [ [] ↦ String.◌∷◌ c "" ∷ [] | line ∷ lines ↦ String.◌∷◌ c line ∷ lines ]

unfoldable pub window_of : String → Option TmuxWindowInfo
window_of line = elim (cut_at 9 line) [
  | none ↦ none
  | some (index, name) ↦ elim (atoi index) [
    | none ↦ none
    | some i ↦ some (record { index = i; name = name })
  ]
]

unfoldable pub windows_of : List String → List TmuxWindowInfo
windows_of [] = []
windows_of (line ∷ lines) =
    let rest = windows_of lines in elim (window_of line) [ none ↦ rest | some w ↦ w ∷ rest ]

-- An empty line has no tab, so that the test for one is left out.
unfoldable pub parse_list_windows_output : String → List TmuxWindowInfo
parse_list_windows_output output = windows_of (split_newlines (trim_space output))

unfoldable pub count_lines : List String → ℕ
count_lines [] = 0
count_lines (line ∷ lines) =
    let rest = count_lines lines in if non_empty line then suc rest else rest

unfoldable pub parse_count_panes_output : String → ℕ
parse_count_panes_output output = count_lines (split_newlines (trim_space output))

-- The pane's id and its target; the id is empty if the output has no tab.
unfoldable pub parse_pane_id_and_target : String → String × String
parse_pane_id_and_target output = elim (cut_at 9 (trim_space output)) [
  | none ↦ ("", trim_space output)
  | some (pane_id, target) ↦ (pane_id, trim_space target)
]

-- The optional command that the new pane runs.
unfoldable pub shell_args : List String → List Arg
shell_args [] = []
shell_args (cmd ∷ cmds) = if non_empty cmd then word cmd ∷ [] else []

abbrev pub pane_format : String
pane_format = "#{pane_id}\t#{session_name}:#{window_index}.#{pane_index}"

abbrev pub new_window_args : String → String → String → List String → List Arg
new_window_args session window_name start_dir shell_cmd =
    append
      (word "new-window"
        ∷ word "-t"
        ∷ word (session ++ ":")
        ∷ word "-n"
        ∷ word window_name
        ∷ word "-c"
        ∷ word start_dir
        ∷ word "-d"
        ∷ word "-P"
        ∷ word "-F"
        ∷ word pane_format
        ∷ [])
      (shell_args shell_cmd)

abbrev pub split_window_args : String → String → List String → List Arg
split_window_args session_window start_dir shell_cmd =
    append
      (word "split-window"
        ∷ word "-t"
        ∷ word session_window
        ∷ word "-c"
        ∷ word start_dir
        ∷ word "-d"
        ∷ word "-P"
        ∷ word "-F"
        ∷ word pane_format
        ∷ [])
      (shell_args shell_cmd)

-- The target and the pane's id that a new pane reports; `none` for an error.
unfoldable pub reported_pane : Option String → Option (String × String)
reported_pane none = none
reported_pane (some out) =
    let (pane_id, target) = parse_pane_id_and_target out in
    if validate_target target then some (target, pane_id) else none

module _ {W : Type 0} (r : Runner W) where
  unfoldable pub tmux_even_layout : String → W → Bool × W
  tmux_even_layout session_window w =
      if validate_target session_window
      then r.run (word "select-layout" ∷ word "-t" ∷ word session_window ∷ word "tiled" ∷ []) w
      else (false, w)

  unfoldable pub tmux_zoom_pane : String → W → Bool × W
  tmux_zoom_pane target w =
      if validate_target target
      then r.run (word "resize-pane" ∷ word "-Z" ∷ word "-t" ∷ word target ∷ []) w
      else (false, w)

  unfoldable pub tmux_select_pane : String → W → Bool × W
  tmux_select_pane target w =
      if validate_target target
      then r.run (word "select-pane" ∷ word "-t" ∷ word target ∷ []) w
      else (false, w)

  -- The zoom may fail.
  unfoldable pub tmux_jump : String → W → Bool × W
  tmux_jump target w =
      and_then
        (r.run (word "select-window" ∷ word "-t" ∷ word (extract_session_window target) ∷ []) w)
        (λ w1.
          and_then (r.run (word "select-pane" ∷ word "-t" ∷ word target ∷ []) w1)
            (λ w2. (true, (tmux_zoom_pane target w2).1)))

  -- So may the new layout.
  unfoldable pub tmux_kill_pane : String → W → Bool × W
  tmux_kill_pane target w =
      and_then (r.run (word "kill-pane" ∷ word "-t" ∷ word target ∷ []) w)
        (λ w1. (true, (tmux_even_layout (extract_session_window target) w1).1))

  unfoldable pub tmux_new_window :
      String → String → String → List String → W → Option (String × String) × W
  tmux_new_window session window_name start_dir shell_cmd w =
      let (out, w') = r.output (new_window_args session window_name start_dir shell_cmd) w in
      (reported_pane out, w')

  unfoldable pub tmux_split_window :
      String → String → List String → W → Option (String × String) × W
  tmux_split_window session_window start_dir shell_cmd w =
      let (out, w') = r.output (split_window_args session_window start_dir shell_cmd) w in
      elim (reported_pane out) [
        | none ↦ (none, w')
        | some pane ↦ (some pane, (tmux_even_layout session_window w').1)
      ]

  unfoldable pub tmux_list_windows : String → W → Option (List TmuxWindowInfo) × W
  tmux_list_windows session w =
      let (out, w') =
        r.output
          (word "list-windows"
            ∷ word "-t"
            ∷ word session
            ∷ word "-F"
            ∷ word "#{window_index}\t#{window_name}"
            ∷ [])
          w in
      (elim out [ none ↦ none | some text ↦ some (parse_list_windows_output text) ], w')

  unfoldable pub tmux_count_panes : String → W → Option ℕ × W
  tmux_count_panes session_window w =
      let (out, w') =
        r.output
          (word "list-panes"
            ∷ word "-t"
            ∷ word session_window
            ∷ word "-F"
            ∷ word "#{pane_index}"
            ∷ [])
          w in
      (elim out [ none ↦ none | some text ↦ some (parse_count_panes_output text) ], w')

  unfoldable pub resolve_target : String → W → String × W
  resolve_target pane_id w =
      let (out, w') =
        r.output
          (word "display-message"
            ∷ word "-p"
            ∷ word "-t"
            ∷ word pane_id
            ∷ word "#{session_name}:#{window_index}.#{pane_index}"
            ∷ [])
          w in
      (elim out [ none ↦ "" | some text ↦ trim_space text ], w')

  unfoldable pub tmux_list_sessions : W → Option (List String) × W
  tmux_list_sessions w =
      let (out, w') = r.output (word "list-sessions" ∷ word "-F" ∷ word "#{session_name}" ∷ []) w in
      (
        elim out [
          | none ↦ none
          | some text ↦
              if is_empty (trim_space text) then none else some (split_newlines (trim_space text))
        ],
        w',
      )
