-- ===== src/Web/Actions/Placement.antt =====
-- internal/web/actions.go: `spawnInRepoWindow` ends with an error or with a pane that tmux can use.
use agent_dashboard.Common.{
  String, ◌≢◌, inl, inr, Option, List, [], ◌∷◌, leb, Bool-cases, Option-cases,
}
use agent_dashboard.Domain.{Agent}
use agent_dashboard.Repowin.{max_panes_per_window}
use agent_dashboard.Tmux.{Runner}
use agent_dashboard.Tmux.Windows.{
  reported_pane, tmux_new_window, tmux_count_panes, new_window_args, split_window_args,
}
use agent_dashboard.Tmux.Windows.Language.{IsTarget}
use agent_dashboard.Tmux.Windows.Valid.{reported_pane-IsTarget, tmux_split_window-reported_pane}
use agent_dashboard.Web.Actions.{
  Status, ok, internal_server_error, Placed, failed, placed, placed_or, spawn_in_repo_window,
  split_into, open_window, find_window, first_tmux_session, repo_name,
}

-- An error has its status, and a new pane a target that tmux can use.
abbrev pub IsPlacement : Placed → Type 0
IsPlacement (failed status) = status ≢ ok
IsPlacement (placed target pane_id) = IsTarget target

placed_or-IsPlacement :
    (status : Status) (out : Option String)
    → status ≢ ok
    → IsPlacement (placed_or status (reported_pane out))
placed_or-IsPlacement status out h = elim (Option-cases (reported_pane out)) [
  | inl e ↦ rw e h
  | inr ((target, pane_id), e) ↦ rw e (reported_pane-IsTarget out target pane_id e)
]

module _ {W : Type 0} (r : Runner W) (base : String → String) (command : String) where
  open_window-IsPlacement :
      (folder cmd : String) (w : W) → IsPlacement (open_window r base command folder cmd w).0
  unfolding open_window tmux_new_window
  open_window-IsPlacement folder cmd w =
      elim (Option-cases (first_tmux_session r base command w).0) [
        | inl e ↦ rw (open_window, e) cc
        | inr (s, e) ↦
            rw (open_window, e)
              (let w1 = (first_tmux_session r base command w).1 in
                placed_or-IsPlacement internal_server_error
                  (r.output (new_window_args s (repo_name r base command folder) folder (cmd ∷ []))
                    w1).0
                  cc)
      ]

  split_into-IsPlacement :
      (sw folder cmd : String) (w : W) → IsPlacement (split_into r base command sw folder cmd w).0
  unfolding split_into
  split_into-IsPlacement sw folder cmd w =
      let w1 = (tmux_count_panes r sw w).1 in
      elim (Option-cases (tmux_count_panes r sw w).0) [
        | inl e ↦ rw (split_into, e) (open_window-IsPlacement folder cmd w1)
        | inr (n, e) ↦ elim (Bool-cases (leb max_panes_per_window n)) [
          | inl f ↦ rw (split_into, e, f) cc
          | inr f ↦
              rw (split_into, e, f, tmux_split_window-reported_pane r sw folder (cmd ∷ []) w1)
                (placed_or-IsPlacement internal_server_error
                  (r.output (split_window_args sw folder (cmd ∷ [])) w1).0 cc)
        ]
      ]

  pub spawn_in_repo_window-IsPlacement :
      (agents : List Agent) (folder cmd : String) (w : W)
      → IsPlacement (spawn_in_repo_window r base command agents folder cmd w).0
  unfolding spawn_in_repo_window
  spawn_in_repo_window-IsPlacement agents folder cmd w =
      let w1 = (find_window r base command agents folder w).1 in
      elim (Option-cases (find_window r base command agents folder w).0) [
        | inl e ↦ rw (spawn_in_repo_window, e) (open_window-IsPlacement folder cmd w1)
        | inr (sw, e) ↦ rw (spawn_in_repo_window, e) (split_into-IsPlacement sw folder cmd w1)
      ]
