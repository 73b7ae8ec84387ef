-- ===== src/Harness/Options/Routing.antt =====
-- Which settings reach which harness.
use agent_dashboard.Common.{str_eq_iff, String, ◌≡◌, str_eq, non_empty, arith, if◌then◌else◌}
use agent_dashboard.Harness.{effort_opted_skills, chosen_effort}
use agent_dashboard.Harness.Options.{Settings, spawn_opts_for}

-- For every harness, skill and override: an effort that is given is used, and otherwise the
-- harness's own default for a skill that opts in and none for the others; a model that is given is
-- used, and otherwise the one of the settings for Codex alone; and what the settings say of approval
-- and sandbox reaches Codex alone.
pub spawn_opts_for-chosen_effort :
    (harness_name skill model effort : String) (settings : Settings)
    → let opts = spawn_opts_for harness_name settings model effort in
      let codex = str_eq harness_name "codex" in
      (chosen_effort skill opts ≡ (
        if non_empty effort
        then effort
        else if effort_opted_skills skill
        then (if codex then settings.codex.default_reasoning_effort else settings.effort_default)
        else ""))
      × (opts.model
          ≡ (if non_empty model then model else if codex then settings.codex.model else ""))
      × (opts.approval ≡ (if codex then settings.codex.approval else ""))
      × (opts.sandbox ≡ (if codex then settings.codex.sandbox else ""))
unfolding spawn_opts_for chosen_effort
spawn_opts_for-chosen_effort harness_name skill model effort settings =
    (ground arith, ground (arith, str_eq_iff model ""), ground arith, ground arith)
