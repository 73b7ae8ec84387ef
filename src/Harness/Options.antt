-- ===== src/Harness/Options.antt =====
-- internal/harness/spawnopts.go: `SpawnOptsFor`, and of domain/types.go the settings that it reads.
pub mod Routing
use agent_dashboard.Common.{String, str_eq, is_empty, non_empty, if◌then◌else◌}
use agent_dashboard.Harness.{SpawnOpts}

pub record CodexHarnessSettings : Type 0 where
  pub model : String
  pub approval : String
  pub sandbox : String
  pub default_reasoning_effort : String

-- `Settings.Effort.Default` and `Settings.Harness.Codex`.
pub record Settings : Type 0 where
  pub effort_default : String
  pub codex : CodexHarnessSettings

unfoldable pub spawn_opts_for : String → Settings → String → String → SpawnOpts
spawn_opts_for harness_name settings model effort =
    if str_eq harness_name "codex"
    then record {
      default_effort = settings.codex.default_reasoning_effort;
      effort = effort;
      model = if non_empty model then model else settings.codex.model;
      approval = settings.codex.approval;
      sandbox = settings.codex.sandbox;
      resume_session_id = "";
    }
    else record {
      default_effort = settings.effort_default;
      effort = effort;
      model = model;
      approval = "";
      sandbox = "";
      resume_session_id = "";
    }
