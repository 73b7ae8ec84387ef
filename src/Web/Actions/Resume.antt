-- ===== src/Web/Actions/Resume.antt =====
-- internal/web/actions.go: `handleResume`, which starts a survivor of a restart of tmux again.
-- `Host` is what the handler asks the operating system: `is_dir` is a successful `os.Stat` of a
-- folder, `base` and `join` are of `path/filepath`. The watch for the trust prompt, which
-- runs after the answer, is left out.
use agent_dashboard.Common.{ℕ, String, Bool, not, Option, none, some, List, is_empty, if◌then◌else◌}
use agent_dashboard.Domain.{Agent, effective_dir}
use agent_dashboard.Harness.{SpawnOpts}
use agent_dashboard.Harness.Options.{Settings, spawn_opts_for}
use agent_dashboard.Harness.Registry.{AgentProfile, Harness, resolve, name_of, spawn_command}
use agent_dashboard.State.Disk.{read_agent, remove_agent}
use agent_dashboard.State.Markers.{World, Store}
use agent_dashboard.State.Orphan.{PaneSet, is_resumable_orphan}
use agent_dashboard.State.SpawnPin.{Staging, stage_spawn_pin}
use agent_dashboard.Tmux.{Runner}
use agent_dashboard.Tmux.Panes.{tmux_is_available, tmux_list_live_pane_ids}
use agent_dashboard.Web.Actions.{
  Status, ok, bad_request, not_found, conflict, service_unavailable, Placed, failed, placed,
  spawn_in_repo_window,
}

pub record Host : Type 0 where
  pub is_dir : String → Bool
  pub exists : String → Bool
  pub parse_time : String → Option ℕ
  pub base : String → String
  pub join : String → String → String
  pub world : World
  pub pointer : String → Option String
  pub created_at : String
  pub now : ℕ

-- The agents' files with the markers of the worktrees, the staging files, and tmux.
pub record Site (W : Type 0) : Type 0 where
  pub store : Store
  pub staging : Staging
  pub tmux : W

abbrev pub without_agent : String → Store → Store
without_agent session_id store = record store { dir = remove_agent store.dir session_id }

module _ {W : Type 0} where
  abbrev pub with_tmux : W → Site W → Site W
  with_tmux w site = record site { tmux = w }

  unfoldable pub stage : Host → String → String → String → Site W → Site W
  stage host folder pane_id target site =
      let (store, staging) =
        stage_spawn_pin host.world host.pointer folder pane_id target host.created_at site.store
          site.staging in
      record site { store = store; staging = staging }

  -- After the pane is there: the pin is staged, and the old file of the agent goes.
  unfoldable pub settle : Host → Agent → Placed × W → Site W → Status × Site W
  settle host a (failed status, w) site = (status, with_tmux w site)
  settle host a (placed target pane_id, w) site =
      let staged = stage host (effective_dir a) pane_id target (with_tmux w site) in
      (ok, record staged { store = without_agent a.session_id staged.store })

abbrev pub resume_opts : Harness → Settings → Agent → SpawnOpts
resume_opts h settings a = record (spawn_opts_for (name_of h) settings "" "") {
  resume_session_id = a.session_id;
}

module _ {W : Type 0} (host : Host) (r : Runner W) (profile : AgentProfile) (settings : Settings)
    (agents : List Agent) where
  unfoldable pub respawn : Agent → Site W → Status × Site W
  respawn a site = elim (resolve host.join a.harness profile) [
    | none ↦ (bad_request, site)
    | some h ↦
        settle host a
          (spawn_in_repo_window r host.base profile.command agents (effective_dir a)
            (spawn_command h "" "" (resume_opts h settings a)) site.tmux)
          site
  ]

  -- The tests on what tmux lists.
  unfoldable pub resume_orphan : Agent → (PaneSet × String) → Site W → Status × Site W
  resume_orphan a (none, pid) site = (service_unavailable, site)
  resume_orphan a (some panes, pid) site =
      if not (is_resumable_orphan host.exists host.parse_time a (some panes) pid host.now)
      then (conflict, site)
      else respawn a site

  -- The tests on the agent.
  unfoldable pub resume_agent : Agent → Site W → Status × Site W
  resume_agent a site =
      let (listed, w) = tmux_list_live_pane_ids r site.tmux in
      if is_empty a.session_id
      then (bad_request, site)
      else if is_empty (effective_dir a)
      then (bad_request, site)
      else if not (host.is_dir (effective_dir a))
      then (bad_request, site)
      else resume_orphan a listed (with_tmux w site)

  unfoldable pub handle_resume : String → Site W → Status × Site W
  handle_resume id site =
      let (available, w) = tmux_is_available r site.tmux in
      let site' = with_tmux w site in
      if not available then (service_unavailable, site') else elim (read_agent site'.store.dir id) [
        | none ↦ (not_found, site')
        | some a ↦ resume_agent a site'
      ]
