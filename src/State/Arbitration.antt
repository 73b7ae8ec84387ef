-- ===== src/State/Arbitration.antt =====
-- internal/state/state.go: `idleStates`, `arbitrateState`, `transcriptOverrideFor`,
-- `isIdleCandidate` and `ApplyStateArbitration`. Which state an agent is shown in.
pub mod Frame
use agent_dashboard.Common.{
  String, Bool, true, false, not, ◌&&◌, ◌||◌, str_eq, is_empty, non_empty, if◌then◌else◌,
}
use agent_dashboard.Common.Dict.{map_values}
use agent_dashboard.Domain.{Agent, StateFile}

-- What the two transcript readers answer. `LocateRollout` gives "" where it finds no rollout.
pub record Transcripts : Type 0 where
  pub locate_rollout : String → String → String
  pub last_pending_blocking_tool_codex : String → String
  pub last_pending_blocking_tool : String → String → String

unfoldable pub idle_states : String → Bool
idle_states s = str_eq s "idle_prompt" || str_eq s "done" || str_eq s "question"

unfoldable pub arbitrate_state : Agent → String → String
arbitrate_state a transcript_override =
    if non_empty a.pinned_state && idle_states a.state
    then a.pinned_state
    else if non_empty transcript_override
    then transcript_override
    else a.state

unfoldable pub transcript_override_for : Transcripts → String → Agent → String
transcript_override_for t root a =
    if str_eq a.harness "codex"
    then (let path = t.locate_rollout root a.session_id in
        if is_empty path then "" else t.last_pending_blocking_tool_codex path)
    else if is_empty a.proj_dir
    then ""
    else t.last_pending_blocking_tool a.proj_dir a.session_id

unfoldable pub is_idle_candidate : Agent → Bool
is_idle_candidate a =
    if str_eq a.state "idle_prompt" || str_eq a.state "permission"
    then true
    else if str_eq a.harness "codex" && str_eq a.state "done"
    then true
    else false

-- The body of the loop of `ApplyStateArbitration`.
unfoldable pub arbitrate_agent : Transcripts → String → Agent → Agent
unfolding arbitrate_state is_idle_candidate idle_states
arbitrate_agent t root a =
    let pin_wins = non_empty a.pinned_state && idle_states a.state in
    let override =
      if not pin_wins && is_idle_candidate a && non_empty a.session_id
      then transcript_override_for t root a
      else "" in
    let next = arbitrate_state a override in
    if str_eq next a.state then a else record a { state = next }

unfoldable pub apply_state_arbitration : Transcripts → String → StateFile → StateFile
unfolding arbitrate_agent
apply_state_arbitration t root = map_values (arbitrate_agent t root)
