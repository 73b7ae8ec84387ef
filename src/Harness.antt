-- ===== src/Harness.antt =====
-- internal/harness: the command lines that start the agents. `Claude.SpawnCommand` of
-- harness/claude/claude.go, `Codex.SpawnCommand` of harness/codex/codex.go, `SpawnOptsFor` of
-- harness/spawnopts.go, `SpawnOpts` of domain/harness.go, and the reply keys of
-- harness/codex/input.go.
pub mod Shell
pub mod Injection
pub mod Claude
pub mod Codex
pub mod Options
pub mod Input
pub mod Registry
mod Examples
use Prim.Native.Char.{code}
use Prim.Native.String.{◌++◌}
use agent_dashboard.Common.{
  String, Bool, true, false, not, ◌||◌, Option, none, some, List, [], ◌∷◌, str_eq, is_empty,
  non_empty, ◌==◌, if◌then◌else◌,
}

pub record SpawnOpts : Type 0 where
  pub default_effort : String
  pub effort : String
  pub model : String
  pub approval : String
  pub sandbox : String
  pub resume_session_id : String

-- `strings.ReplaceAll(s, "'", "'\\''")`
unfoldable pub escape_quotes : String → String
escape_quotes String.[] = ""
escape_quotes (String.◌∷◌ c s) =
    let rest = escape_quotes s in
    if code c == 39
    then String.◌∷◌ "'" (String.◌∷◌ "\\" (String.◌∷◌ "'" (String.◌∷◌ "'" rest)))
    else String.◌∷◌ c rest

unfoldable pub shell_quote : String → String
unfolding escape_quotes
shell_quote s = ("'" ++ escape_quotes s) ++ "'"

-- The map `effortOptedSkills`, the same in both packages.
unfoldable pub effort_opted_skills : String → Bool
effort_opted_skills s = str_eq s "feature" || str_eq s "fix" || str_eq s "refactor"

unfoldable pub chosen_effort : String → SpawnOpts → String
chosen_effort skill opts =
    if non_empty opts.effort
    then opts.effort
    else if effort_opted_skills skill
    then opts.default_effort
    else ""

-- `strings.Join` of the sigil with the skill, and the message, each unless it is empty.
unfoldable pub build_prompt : String → String → String → String
build_prompt sigil skill message =
    if is_empty skill
    then message
    else if is_empty message
    then sigil ++ skill
    else (sigil ++ skill) ++ (" " ++ message)

-- `cmd += flag + shellQuote(value)` unless the value is empty.
unfoldable pub add_quoted : String → String → String → String
add_quoted flag value cmd = if is_empty value then cmd else (cmd ++ flag) ++ shell_quote value
