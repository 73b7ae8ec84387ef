-- ===== src/Web/Actions.antt =====
-- internal/web/actions.go: the handlers that act on an agent. A handler is a function from the state
-- that it works on to the status of its answer and the new state; the texts of the answers are left
-- out. Here are what the handlers share: the statuses, and the new pane for an agent.
pub mod Resume
pub mod Questions
pub mod Cleanup
pub mod Create
pub mod Placement
pub mod Survivor
mod Examples
use agent_dashboard.Common.{
  ℕ, String, Bool, Option, none, some, List, [], ◌∷◌, is_empty, leb, if◌then◌else◌,
}
use agent_dashboard.Domain.{Agent}
use agent_dashboard.Repowin.{
  max_panes_per_window, repo_from_cwd, sanitize_window_name, find_window_for_repo,
  find_window_by_name,
}
use agent_dashboard.Tmux.{Runner}
use agent_dashboard.Tmux.Windows.{
  tmux_list_sessions, tmux_list_windows, tmux_count_panes, tmux_split_window, tmux_new_window,
}

-- The statuses of `net/http`.
pub data Status : Type 0 where
  ok : Status
  bad_request : Status
  not_found : Status
  conflict : Status
  gone : Status
  internal_server_error : Status
  service_unavailable : Status

-- The result of `spawnInRepoWindow`: the status of its error, or the target and the pane's id.
pub data Placed : Type 0 where
  failed : Status → Placed
  placed : String → String → Placed

abbrev first_of : List String → Option String
first_of [] = none
first_of (s ∷ sessions) = some s

abbrev pub placed_or : Status → Option (String × String) → Placed
placed_or status none = failed status
placed_or status (some (target, pane_id)) = placed target pane_id

-- `base` is `filepath.Base`, and `command` the command of the profile.
module _ {W : Type 0} (r : Runner W) (base : String → String) (command : String) where
  unfoldable pub first_tmux_session : W → Option String × W
  first_tmux_session w =
      let (sessions, w') = tmux_list_sessions r w in
      (elim sessions [ none ↦ none | some names ↦ first_of names ], w')

  unfoldable pub repo_name : String → String
  repo_name folder =
      let raw = repo_from_cwd base folder in
      sanitize_window_name (if is_empty raw then command else raw)

  -- The window of the repository: that of an agent, or one of that name in the first session.
  unfoldable pub find_window : List Agent → String → W → Option String × W
  find_window agents folder w = elim (find_window_for_repo base agents folder "") [
    | some sw ↦ (some sw, w)
    | none ↦
        let (session, w1) = first_tmux_session w in
        elim session [
          | none ↦ (none, w1)
          | some s ↦
              let (windows, w2) = tmux_list_windows r s w1 in
              (
                elim windows [
                  | none ↦ none
                  | some ws ↦ find_window_by_name ws (repo_name folder) s ""
                ],
                w2,
              )
        ]
  ]

  unfoldable pub open_window : String → String → W → Placed × W
  open_window folder cmd w =
      let (session, w1) = first_tmux_session w in
      elim session [
        | none ↦ (failed service_unavailable, w1)
        | some s ↦
            let (pane, w2) = tmux_new_window r s (repo_name folder) folder (cmd ∷ []) w1 in
            (placed_or internal_server_error pane, w2)
      ]

  unfoldable pub split_into : String → String → String → W → Placed × W
  split_into sw folder cmd w =
      let (count, w1) = tmux_count_panes r sw w in
      elim count [
        | none ↦ open_window folder cmd w1
        | some n ↦
            if leb max_panes_per_window n
            then (failed conflict, w1)
            else (let (pane, w2) = tmux_split_window r sw folder (cmd ∷ []) w1 in
                (placed_or internal_server_error pane, w2))
      ]

  -- `agents` are what `readAgentState` gives.
  unfoldable pub spawn_in_repo_window : List Agent → String → String → W → Placed × W
  spawn_in_repo_window agents folder cmd w =
      let (found, w1) = find_window agents folder w in
      elim found [ none ↦ open_window folder cmd w1 | some sw ↦ split_into sw folder cmd w1 ]
