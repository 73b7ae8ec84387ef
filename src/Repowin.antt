-- ===== src/Repowin.antt =====
-- internal/repowin/repowin.go: which tmux window an agent of a repository goes to. `base` is
-- `filepath.Base`.
use Prim.Native.Char.{code}
use Prim.Native.String.{◌++◌}
use agent_dashboard.Common.{
  ℕ, String, Bool, not, ◌&&◌, ◌||◌, Option, none, some, List, [], ◌∷◌, str_eq, is_empty, non_empty,
  if◌then◌else◌,
}
use agent_dashboard.Common.Text.{cut_prefix}
use agent_dashboard.Common.Decimal.{itoa, format_int}
use agent_dashboard.Common.Chars.{cut_at}
use agent_dashboard.Domain.{Agent}
use agent_dashboard.Harness.Input.{contains}
use agent_dashboard.Tmux.{is_name_char}
use agent_dashboard.Tmux.Windows.{TmuxWindowInfo}

abbrev pub max_panes_per_window : ℕ
max_panes_per_window = 8

-- What follows the first place of a text, if it is there.
unfoldable pub after_text : String → String → Option String
after_text sub String.[] = cut_prefix sub ""
after_text sub (String.◌∷◌ c s) =
    let rest = after_text sub s in
    elim (cut_prefix sub (String.◌∷◌ c s)) [ none ↦ rest | some after ↦ some after ]

abbrev before_slash : String → String
before_slash s = elim (cut_at 47 s) [ none ↦ s | some (a, b) ↦ a ]

abbrev named_base : String → String
named_base b = if str_eq b "." || str_eq b "/" then "" else b

module _ (base : String → String) where
  unfoldable pub repo_from_cwd : String → String
  repo_from_cwd cwd = if is_empty cwd then "" else elim (after_text "/worktrees/" cwd) [
    | none ↦ named_base (base cwd)
    | some rest ↦ if non_empty rest then before_slash rest else named_base (base cwd)
  ]

-- `safeWindowNameRe.ReplaceAllString(name, "_")`
unfoldable pub replace_unsafe : String → String
replace_unsafe String.[] = ""
replace_unsafe (String.◌∷◌ c s) =
    let rest = replace_unsafe s in
    if is_name_char (code c) then String.◌∷◌ c rest else String.◌∷◌ "_" rest

unfoldable pub sanitize_window_name : String → String
sanitize_window_name name =
    let safe = replace_unsafe name in if is_empty safe then "claude" else safe

abbrev window_target : Agent → String
window_target a = a.session ++ (":" ++ itoa a.window)

abbrev is_self : String → Agent → Bool
is_self self_pane_id a = non_empty self_pane_id && str_eq a.tmux_pane_id self_pane_id

-- The first pass: the same folder.
unfoldable pub find_folder : String → String → List Agent → Option String
find_folder folder self_pane_id [] = none
find_folder folder self_pane_id (a ∷ agents) =
    let rest = find_folder folder self_pane_id agents in
    if is_self self_pane_id a
    then rest
    else if str_eq a.cwd folder || (non_empty a.worktree_cwd && str_eq a.worktree_cwd folder)
    then some (window_target a)
    else rest

module _ (base : String → String) where
  -- The second pass: the same repository, if the folder or the agent's is a worktree.
  unfoldable pub find_repo : String → String → List Agent → Option String
  find_repo folder self_pane_id [] = none
  find_repo folder self_pane_id (a ∷ agents) =
      let rest = find_repo folder self_pane_id agents in
      let dir = if non_empty a.worktree_cwd then a.worktree_cwd else a.cwd in
      if is_self self_pane_id a
      then rest
      else if not (contains folder "/worktrees/")
          && not (contains a.cwd "/worktrees/" || non_empty a.worktree_cwd)
      then rest
      else if str_eq (repo_from_cwd base dir) (repo_from_cwd base folder)
      then some (window_target a)
      else rest

  unfoldable pub find_window_for_repo : List Agent → String → String → Option String
  find_window_for_repo agents folder self_pane_id = elim (find_folder folder self_pane_id agents) [
    | some sw ↦ some sw
    | none ↦
        if is_empty (repo_from_cwd base folder) then none else find_repo folder self_pane_id agents
  ]

unfoldable pub find_window_by_name : List TmuxWindowInfo → String → String → String → Option String
find_window_by_name [] repo_name session exclude_sw = none
find_window_by_name (w ∷ windows) repo_name session exclude_sw =
    let rest = find_window_by_name windows repo_name session exclude_sw in
    let candidate = session ++ (":" ++ format_int w.index) in
    if str_eq w.name repo_name && not (str_eq candidate exclude_sw) then some candidate else rest
