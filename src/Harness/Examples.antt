-- ===== src/Harness/Examples.antt =====
-- The theorems on command lines at concrete inputs, and tests of the definitions.
use agent_dashboard.Common.{String, ◌≡◌, refl, some, none, Option, List, [], ◌∷◌, str_eq}
use agent_dashboard.Common.Text.{cut_prefix}
use agent_dashboard.Harness.{
  SpawnOpts, escape_quotes, shell_quote, effort_opted_skills, chosen_effort, build_prompt,
  add_quoted,
}
use agent_dashboard.Harness.Shell.{shell_words, read_char}
use agent_dashboard.Harness.Claude as Claude
use agent_dashboard.Harness.Codex as Codex
use agent_dashboard.Harness.Options.{Settings}
use agent_dashboard.Harness.Input.{contains, pane_shows_queue_hint, submit_keys_after_paste}
use agent_dashboard.Harness.Registry.{
  AgentProfile, codex, resolve, spawn_command, contains_string, allows_effort,
}
use agent_dashboard.Harness.Registry.Levels.{allowed_request_words}
use agent_dashboard.Harness.Claude.Words.{claude_spawn_command_words}
use agent_dashboard.Harness.Codex.Words.{codex_spawn_command_words}

abbrev opts : SpawnOpts
opts = record {
  default_effort = "max";
  effort = "";
  model = "opus";
  approval = "never";
  sandbox = "";
  resume_session_id = "";
}

-- A message that would run a command if it were not quoted.
abbrev hostile : String
hostile = "it's; $(rm -rf /)"

claude_command_test :
    Claude.spawn_command "claude" "fix" hostile opts
    ≡ "CLAUDE_CODE_EFFORT_LEVEL=max claude --effort max --model 'opus' '/fix it'\\''s; $(rm -rf /)'"
unfolding Claude.spawn_command Claude.add_effort shell_quote escape_quotes effort_opted_skills
    chosen_effort build_prompt add_quoted str_eq
claude_command_test = refl

codex_command_test :
    Codex.spawn_command "codex" "fix" hostile opts
    ≡ "codex -c model_reasoning_effort=high --model 'opus' -a 'never' '$agent-dashboard:fix it'\\''s; $(rm -rf /)'"
unfolding Codex.spawn_command Codex.add_effort Codex.map_effort shell_quote escape_quotes
    effort_opted_skills chosen_effort build_prompt add_quoted str_eq
codex_command_test = refl

-- Without the quotes the line is not read as words.
unquoted_test : shell_words "claude it's; $(rm -rf /)" ≡ none
unfolding shell_words read_char
unquoted_test = refl

claude_spawn_command_words_example :
    shell_words (Claude.spawn_command "claude" "fix" hostile opts)
    ≡ some (
        "CLAUDE_CODE_EFFORT_LEVEL=max" ∷ "claude" ∷ "--effort" ∷ "max" ∷ "--model" ∷ "opus"
        ∷ "/fix it's; $(rm -rf /)" ∷ [])
unfolding chosen_effort effort_opted_skills build_prompt str_eq
claude_spawn_command_words_example =
    claude_spawn_command_words "claude" "fix" hostile opts (refl, refl) refl

codex_spawn_command_words_example :
    shell_words (Codex.spawn_command "codex" "fix" hostile opts)
    ≡ some (
        "codex" ∷ "-c" ∷ "model_reasoning_effort=high" ∷ "--model" ∷ "opus" ∷ "-a" ∷ "never"
        ∷ "$agent-dashboard:fix it's; $(rm -rf /)" ∷ [])
unfolding chosen_effort effort_opted_skills build_prompt str_eq
codex_spawn_command_words_example =
    codex_spawn_command_words "codex" "fix" hostile opts (refl, refl) refl

abbrev settings : Settings
settings = record {
  effort_default = "high";
  codex = record {
    model = "gpt-5.5";
    approval = "never";
    sandbox = "";
    default_reasoning_effort = "low";
  };
}

abbrev capture : Option (List String)
capture = some ("" ∷ "  tab to queue message" ∷ [])

abbrev done : String
done = "done"

hint_test : submit_keys_after_paste (λ s. s) capture "done" ≡ "Tab" ∷ "Enter" ∷ []
unfolding submit_keys_after_paste pane_shows_queue_hint contains cut_prefix
hint_test = refl

abbrev profile : AgentProfile
profile = record {
  name = "Claude Code";
  command = "claude";
  config_dir = "";
  state_dir = "";
  projects_dir = "";
  plans_dir = "";
  sessions_dir = "";
  plugin_cache_dir = "";
  codex_plugin_cache_dir = "";
  home_dir = "/h";
}

abbrev join : String → String → String
join a b = a

allowed_request_words_example :
    shell_words (
      spawn_command
        (codex (record { command = "codex"; sessions_dir = "/h"; config_dir = "/h" }))
        ""
        hostile
        (record opts { effort = "high" }))
    ≡ some (
        "codex" ∷ "-c" ∷ "model_reasoning_effort=high" ∷ "--model" ∷ "opus" ∷ "-a" ∷ "never"
        ∷ hostile ∷ [])
unfolding resolve allows_effort contains_string chosen_effort build_prompt str_eq
allowed_request_words_example =
    allowed_request_words join "codex" profile
      (codex (record { command = "codex"; sessions_dir = "/h"; config_dir = "/h" })) "" hostile
      (record opts { effort = "high" }) refl (refl, refl) refl refl
