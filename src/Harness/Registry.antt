-- ===== src/Harness/Registry.antt =====
-- internal/harness/registry.go: `Resolve`, with `AgentProfile` of domain/types.go, the constructors
-- of both harnesses and what they offer; and the guard of web/actions.go on a requested effort.
-- `join` is `filepath.Join`.
pub mod Levels
use agent_dashboard.Common.{
  String, Bool, true, false, not, ◌&&◌, Option, none, some, List, [], ◌∷◌, str_eq, non_empty,
  is_empty, ◌||◌, if◌then◌else◌,
}
use agent_dashboard.Harness.{SpawnOpts}
use agent_dashboard.Harness.Claude as Claude
use agent_dashboard.Harness.Codex as Codex

pub record AgentProfile : Type 0 where
  pub name : String
  pub command : String
  pub config_dir : String
  pub state_dir : String
  pub projects_dir : String
  pub plans_dir : String
  pub sessions_dir : String
  pub plugin_cache_dir : String
  pub codex_plugin_cache_dir : String
  pub home_dir : String

-- `codex.Config`
pub record CodexConfig : Type 0 where
  pub command : String
  pub sessions_dir : String
  pub config_dir : String

-- The implementations of the interface `Harness`.
pub data Harness : Type 0 where
  claude : AgentProfile → Harness
  codex : CodexConfig → Harness

-- `none` is the error `ErrUnknownHarness`.
unfoldable pub resolve : (String → String → String) → String → AgentProfile → Option Harness
resolve join name profile =
    if str_eq name "claude" || is_empty name
    then some (claude profile)
    else if str_eq name "codex"
    then some (
        codex (record {
          command = "codex";
          sessions_dir = join (join profile.home_dir ".codex") "sessions";
          config_dir = join profile.home_dir ".codex";
        }))
    else none

abbrev pub effort_levels : Harness → List String
effort_levels (claude p) = "minimal" ∷ "low" ∷ "medium" ∷ "high" ∷ "max" ∷ []
effort_levels (codex c) = "minimal" ∷ "low" ∷ "medium" ∷ "high" ∷ []

abbrev pub name_of : Harness → String
name_of (claude p) = "claude"
name_of (codex c) = "codex"

abbrev pub command_of : Harness → String
command_of (claude p) = p.command
command_of (codex c) = c.command

abbrev pub spawn_command : Harness → String → String → SpawnOpts → String
spawn_command (claude p) skill message opts = Claude.spawn_command p.command skill message opts
spawn_command (codex c) skill message opts = Codex.spawn_command c.command skill message opts

-- `containsString`
unfoldable pub contains_string : List String → String → Bool
contains_string [] s = false
contains_string (x ∷ xs) s = let rest = contains_string xs s in if str_eq x s then true else rest

-- The test of `handleCreate` on the effort of the request; `true` lets the request pass.
unfoldable pub allows_effort : Harness → String → Bool
allows_effort h effort = not (non_empty effort && not (contains_string (effort_levels h) effort))
