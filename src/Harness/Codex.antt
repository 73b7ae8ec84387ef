-- ===== src/Harness/Codex.antt =====
-- internal/harness/codex/codex.go: `SpawnCommand` and `mapEffort`.
pub mod Words
use Prim.Native.String.{◌++◌}
use agent_dashboard.Common.{String, Bool, str_eq, is_empty, non_empty, if◌then◌else◌}
use agent_dashboard.Harness.{SpawnOpts, shell_quote, chosen_effort, build_prompt, add_quoted}

unfoldable pub map_effort : String → String
map_effort level = if str_eq level "max" then "high" else level

unfoldable pub add_effort : String → String → String
add_effort effort cmd =
    if is_empty effort then cmd else (cmd ++ " -c model_reasoning_effort=") ++ map_effort effort

unfoldable pub spawn_command : String → String → String → SpawnOpts → String
spawn_command command skill message opts =
    if non_empty opts.resume_session_id
    then (command ++ " resume ") ++ shell_quote opts.resume_session_id
    else add_quoted " " (build_prompt "$agent-dashboard:" skill message) (
        add_quoted " -s " opts.sandbox (
          add_quoted " -a " opts.approval
            (add_quoted " --model " opts.model (add_effort (chosen_effort skill opts) command))))
