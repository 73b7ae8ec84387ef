-- ===== src/Web/Actions/Create.antt =====
-- internal/web/actions.go: `handleCreate`, which starts a new agent; and internal/skills/guard.go.
-- `home` is `os.UserHomeDir`, `none` for an error. The watch for the trust prompt, which runs after
-- the answer, is left out.
pub mod Guards
use agent_dashboard.Common.{
  String, Bool, true, false, not, ◌&&◌, ◌||◌, Option, none, some, List, [], ◌∷◌, str_eq, is_empty,
  non_empty, if◌then◌else◌,
}
use agent_dashboard.Common.Text.{cut_prefix}
use agent_dashboard.Domain.{Agent}
use agent_dashboard.Harness.Options.{Settings, spawn_opts_for}
use agent_dashboard.Harness.Registry.{
  AgentProfile, Harness, claude, codex, resolve, name_of, spawn_command, contains_string,
  allows_effort,
}
use agent_dashboard.Tmux.{Runner}
use agent_dashboard.Tmux.Panes.{tmux_is_available}
use agent_dashboard.Web.Actions.{
  Status, ok, bad_request, internal_server_error, service_unavailable, Placed, failed, placed,
  spawn_in_repo_window,
}
use agent_dashboard.Web.Actions.Resume.{Host, Site, with_tmux, stage}

pub record CreateRequest : Type 0 where
  pub folder : String
  pub skill : String
  pub message : String
  pub model : String
  pub effort : String
  pub harness : String

abbrev pub codex_blocked_skills : List String
codex_blocked_skills = []

unfoldable pub supports_harness : String → String → Bool
supports_harness skill harness =
    if is_empty skill || not (str_eq harness "codex")
    then true
    else not (contains_string codex_blocked_skills skill)

-- `Models` of both harnesses.
abbrev pub models : Harness → List String
models (claude p) = "fable" ∷ "opus" ∷ "sonnet" ∷ "haiku" ∷ []
models (codex c) = "gpt-5.5" ∷ "gpt-5.4" ∷ "gpt-5.3-codex-spark" ∷ []

unfoldable pub allows_model : Harness → String → Bool
allows_model h model = not (non_empty model && not (contains_string (models h) model))

-- The folder of the request, with the home directory for its `~`.
unfoldable pub expand_folder : (String → String → String) → Option String → String → Option String
expand_folder join home folder = elim (cut_prefix "~/" folder) [
  | none ↦ some folder
  | some rest ↦ elim home [ none ↦ none | some dir ↦ some (join dir rest) ]
]

-- The harness of the request, or else the configured one.
unfoldable pub active_harness :
    (String → String → String) → AgentProfile → Harness → String → Option Harness
active_harness join profile configured name =
    if non_empty name && not (str_eq name (name_of configured))
    then resolve join name profile
    else some configured

module _ {W : Type 0} where
  unfoldable pub settle_new : Host → String → Placed × W → Site W → Status × Site W
  settle_new host folder (failed status, w) site = (status, with_tmux w site)
  settle_new host folder (placed target pane_id, w) site =
      (ok, stage host folder pane_id target (with_tmux w site))

module _ {W : Type 0} (host : Host) (home : Option String) (r : Runner W) (profile : AgentProfile)
    (settings : Settings) (configured : Harness) (agents : List Agent) where
  unfoldable pub start_agent : Harness → String → CreateRequest → Site W → Status × Site W
  start_agent h folder req site =
      settle_new host folder
        (spawn_in_repo_window r host.base profile.command agents folder
          (spawn_command h req.skill req.message
            (spawn_opts_for (name_of h) settings req.model req.effort))
          site.tmux)
        site

  -- The tests on what the request asks of the harness.
  unfoldable pub create_with : Harness → String → CreateRequest → Site W → Status × Site W
  create_with h folder req site =
      let started = start_agent h folder req site in
      if not (supports_harness req.skill (name_of h))
      then (bad_request, site)
      else if not (allows_model h req.model)
      then (bad_request, site)
      else if not (allows_effort h req.effort)
      then (bad_request, site)
      else started

  unfoldable pub create_in : String → CreateRequest → Site W → Status × Site W
  create_in folder req site =
      if not (host.is_dir folder)
      then (bad_request, site)
      else (elim (active_harness host.join profile configured req.harness) [
        | none ↦ (bad_request, site)
        | some h ↦ create_with h folder req site
      ])

  unfoldable pub create_agent : CreateRequest → Site W → Status × Site W
  create_agent req site =
      if is_empty req.folder
      then (bad_request, site)
      else (elim (expand_folder host.join home req.folder) [
        | none ↦ (internal_server_error, site)
        | some folder ↦ create_in folder req site
      ])

  -- The body as JSON, `none` for an error.
  unfoldable pub handle_create : Option CreateRequest → Site W → Status × Site W
  handle_create body site =
      let (available, w) = tmux_is_available r site.tmux in
      if not available then (service_unavailable, with_tmux w site) else (elim body [
        | none ↦ (bad_request, with_tmux w site)
        | some req ↦ create_agent req (with_tmux w site)
      ])
