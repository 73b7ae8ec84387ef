-- ===== src/Harness/Claude.antt =====
-- internal/harness/claude/claude.go: `SpawnCommand`.
pub mod Words
use Prim.Native.String.{◌++◌}
use agent_dashboard.Common.{String, Bool, str_eq, is_empty, non_empty, if◌then◌else◌}
use agent_dashboard.Harness.{SpawnOpts, shell_quote, chosen_effort, build_prompt, add_quoted}

unfoldable pub add_effort : String → String → String
add_effort effort cmd =
    if is_empty effort
    then cmd
    else "CLAUDE_CODE_EFFORT_LEVEL=" ++ (effort ++ (" " ++ (cmd ++ (" --effort " ++ effort))))

unfoldable pub spawn_command : String → String → String → SpawnOpts → String
spawn_command command skill message opts =
    if non_empty opts.resume_session_id
    then (command ++ " --resume ") ++ shell_quote opts.resume_session_id
    else add_quoted " " (build_prompt "/" skill message)
        (add_quoted " --model " opts.model (add_effort (chosen_effort skill opts) command))
