-- ===== src/State/Targets.antt =====
-- internal/state/state.go: `ResolveAgentTargets`. The tmux coordinates of the agents.
use agent_dashboard.Common.{String, Option, none, some, List, is_empty, if◌then◌else◌}
use agent_dashboard.Common.Dict.{lookup, map_values}
use agent_dashboard.Domain.{Agent, StateFile, PaneTarget}

-- `map[string]PaneTarget`; `none` is the nil map.
abbrev pub PaneTargets : Type 0
PaneTargets = Option (List (String × PaneTarget))

-- The body of the loop.
unfoldable pub resolve_target : List (String × PaneTarget) → Agent → Agent
resolve_target targets a =
    if is_empty a.tmux_pane_id then a else elim (lookup a.tmux_pane_id targets) [
      | none ↦ a
      | some pt ↦ record a {
        target = pt.target;
        session = pt.session;
        window = pt.window;
        pane = pt.pane;
      }
    ]

unfoldable pub resolve_agent_targets : StateFile → PaneTargets → StateFile
unfolding resolve_target
resolve_agent_targets sf none = sf
resolve_agent_targets sf (some targets) = map_values (resolve_target targets) sf
