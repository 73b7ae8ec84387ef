-- ===== src/State/Branches.antt =====
-- internal/state/state.go: `ResolveAgentBranches`. Parameters: `git_branch` is what `gitBranch`
-- answers for a directory, "" on an error. The lookups run concurrently in the source; each result
-- depends on its own agent alone and is stored under its own key, so they are taken in order here.
pub mod Pins
use agent_dashboard.Common.{
  String, Bool, true, false, not, ◌&&◌, Option, none, some, List, [], ◌∷◌, is_empty, non_empty,
  if◌then◌else◌,
}
use agent_dashboard.Common.Dict.{lookup, map_values}
use agent_dashboard.Domain.{Agent, StateFile}
use agent_dashboard.State.Disk.{Value, text, Directory, stamp_agent_fields}

-- `map[string]string`; `none` is the nil map.
abbrev pub PaneCwds : Type 0
PaneCwds = Option (List (String × String))

-- The first pass: an empty directory is filled in from the pane.
unfoldable pub backfill_cwd : PaneCwds → Agent → Agent
backfill_cwd none a = a
backfill_cwd (some cwds) a =
    if is_empty a.cwd && non_empty a.tmux_pane_id
    then elim (lookup a.tmux_pane_id cwds) [ none ↦ a | some pc ↦ record a { cwd = pc } ]
    else a

abbrev pub is_pinned : Agent → Bool
is_pinned a = non_empty a.worktree_cwd && non_empty a.branch

-- The planned lookup: a directory, and whether the result is written back.
unfoldable pub plan_lookup : Agent → Option (String × Bool)
plan_lookup a =
    if non_empty a.worktree_cwd
    then (if non_empty a.branch then none else some (a.worktree_cwd, true))
    else if non_empty a.cwd
    then some (a.cwd, false)
    else none

module _ (git_branch : String → String) where
  -- `results[key]`, the zero value where no lookup was planned.
  unfoldable pub lookup_result : Agent → String × Bool
  unfolding plan_lookup
  lookup_result a = elim (plan_lookup a) [
    | none ↦ ("", false)
    | some (dir, persist) ↦ (git_branch dir, persist)
  ]

  -- The last loop, on one agent: the agent, and whether its branch is written to its file.
  unfoldable pub resolve_branch : String → Agent → Agent × Bool
  unfolding lookup_result
  resolve_branch state_dir a = if is_pinned a then (a, false) else (
    record a { branch = (lookup_result a).0 },
    (lookup_result a).1
        && non_empty (lookup_result a).0
        && non_empty state_dir
        && non_empty a.session_id,
  )

  unfoldable pub resolve_loop : String → StateFile → Directory → StateFile × Directory
  unfolding resolve_branch
  resolve_loop state_dir [] d = ([], d)
  resolve_loop state_dir ((k, a) ∷ sf) d =
      let (a', write) = resolve_branch state_dir a in
      let d' =
        if write
        then (stamp_agent_fields a.session_id (("branch", text a'.branch) ∷ []) d).0
        else d in
      let (sf', d'') = resolve_loop state_dir sf d' in ((k, a') ∷ sf', d'')

  unfoldable pub resolve_agent_branches :
      StateFile → PaneCwds → String → Directory → StateFile × Directory
  unfolding resolve_loop backfill_cwd
  resolve_agent_branches sf pane_cwds state_dir d =
      resolve_loop state_dir (map_values (backfill_cwd pane_cwds) sf) d
