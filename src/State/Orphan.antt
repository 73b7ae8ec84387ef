-- ===== src/State/Orphan.antt =====
-- internal/state/state.go: `finishedStates`, `resumableTTL`, `IsResumableOrphan` and
-- `FlagResumable`. Which agents survived a restart of the tmux server.
-- The file system and `time.Parse(time.RFC3339, …)` are parameters: `exists` is `os.Stat` without
-- an error, and a time is a number of nanoseconds since Go's zero time.
pub mod Survivors
use agent_dashboard.Common.{
  ℕ, ◌-◌, ◌*◌, String, Bool, true, false, not, ◌&&◌, ◌||◌, Option, none, some, List, [], ◌∷◌,
  str_eq, is_empty, non_empty, any, ltb, if◌then◌else◌,
}
use agent_dashboard.Common.Dict.{map_values}
use agent_dashboard.Domain.{Agent, StateFile, effective_dir}
use agent_dashboard.State.Arbitration.{arbitrate_state, idle_states}

unfoldable pub finished_states : String → Bool
finished_states s = str_eq s "done" || str_eq s "pr" || str_eq s "merged"

-- 72 hours.
abbrev pub resumable_ttl : ℕ
resumable_ttl = 259200000000000

-- `map[string]bool`, where only `true` is stored; `none` is the nil map.
abbrev pub PaneSet : Type 0
PaneSet = Option (List String)

unfoldable pub is_live : PaneSet → String → Bool
is_live none pane_id = false
is_live (some panes) pane_id = any (λ p. str_eq p pane_id) panes

abbrev pub is_nil : PaneSet → Bool
is_nil none = true
is_nil (some panes) = false

-- The last test of `IsResumableOrphan`: the agent's time stamp parses and is too old.
unfoldable pub is_stale : (String → Option ℕ) → ℕ → String → Bool
is_stale parse_time now updated_at =
    if is_empty updated_at
    then false
    else elim (parse_time updated_at) [ none ↦ false | some t ↦ ltb resumable_ttl (now - t) ]

module _ (exists : String → Bool) (parse_time : String → Option ℕ) where
  unfoldable pub is_resumable_orphan : Agent → PaneSet → String → ℕ → Bool
  unfolding is_live
  is_resumable_orphan a live_panes server_pid now =
      if is_empty a.session_id || is_empty a.state || is_empty a.tmux_pane_id
      then false
      else if is_nil live_panes || is_empty server_pid
      then false
      else if is_live live_panes a.tmux_pane_id
      then false
      else if is_empty a.tmux_server_pid || str_eq a.tmux_server_pid server_pid
      then false
      else if finished_states (arbitrate_state a "")
      then false
      else if is_empty a.branch
      then false
      else if not (exists (effective_dir a))
      then false
      else if is_stale parse_time now a.updated_at
      then false
      else true

  -- The body of the loop of `FlagResumable`: it stores the agent where the flag changes.
  unfoldable pub flag_agent : PaneSet → String → ℕ → Agent → Agent
  flag_agent live_panes server_pid now a = record a {
    resumable = is_resumable_orphan a live_panes server_pid now;
  }

  unfoldable pub flag_resumable : PaneSet → String → ℕ → StateFile → StateFile
  unfolding flag_agent
  flag_resumable live_panes server_pid now = map_values (flag_agent live_panes server_pid now)
