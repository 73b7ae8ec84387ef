-- ===== src/Web/Actions/Survivor.antt =====
-- `handleResume` starts only agents whose server is gone, and removes an agent's file only after a
-- new pane is there.
use agent_dashboard.Common.{
  String, ◌≡◌, ◌≢◌, ◌⊎◌, inl, inr, refl, sym, ap, subst, true, false, Option, none, some, List,
  is_empty, str_eq, arith, Bool-cases, Option-cases,
}
use agent_dashboard.Domain.{Agent, effective_dir}
use agent_dashboard.Harness.Options.{Settings}
use agent_dashboard.Harness.Registry.{AgentProfile, Harness, resolve, spawn_command}
use agent_dashboard.State.Disk.{read_agent, remove_agent}
use agent_dashboard.State.Markers.{Store}
use agent_dashboard.State.SpawnPin.{reap_stale_marker, stage_spawn_pin, staged_pin}
use agent_dashboard.State.Orphan.{PaneSet, is_resumable_orphan, is_live}
use agent_dashboard.Tmux.{Runner}
use agent_dashboard.Tmux.Panes.{tmux_list_live_pane_ids, tmux_is_available}
use agent_dashboard.Tmux.Windows.Language.{IsTarget}
use agent_dashboard.Web.Actions.{
  Status, ok, not_found, Placed, failed, placed, spawn_in_repo_window,
}
use agent_dashboard.Web.Actions.Placement.{IsPlacement, spawn_in_repo_window-IsPlacement}
use agent_dashboard.Web.Actions.Resume.{
  Host, Site, with_tmux, stage, settle, resume_opts, respawn, resume_orphan, resume_agent,
  handle_resume,
}

dir-reap_stale_marker :
    (pointer : String → Option String) (path : String) (s : Store)
    → (reap_stale_marker pointer path s).dir ≡ s.dir
unfolding reap_stale_marker
dir-reap_stale_marker pointer path s = ground arith

-- Nothing but commands to tmux: no file of an agent, no marker and no pin has changed.
abbrev pub IsUntouched : {W : Type 0} → Site W → Site W → Type 0
IsUntouched site site' = (site'.store ≡ site.store) × (site'.staging ≡ site.staging)

-- The agent is no survivor for tmux's list of panes: its pane is gone, and so is its server.
abbrev pub IsGone : Agent → List String → String → Type 0
IsGone a panes pid =
    (is_live (some panes) a.tmux_pane_id ≡ false) × (str_eq a.tmux_server_pid pid ≡ false)

module _ {W : Type 0} (host : Host) (r : Runner W) (profile : AgentProfile) (settings : Settings)
    (agents : List Agent) where
  -- The agent is started again, under its session and in its folder, in a pane that tmux reports.
  abbrev pub IsStarted : Agent → W → Site W → Site W → Type 0
  IsStarted a w site site' =
      (h : Harness) × (target : String) × (pane_id : String) × (resolve host.join a.harness profile
        ≡ some h)
      × ((spawn_in_repo_window r host.base profile.command agents (effective_dir a)
            (spawn_command h "" "" (resume_opts h settings a)) w)
          ≡ (placed target pane_id, site'.tmux))
      × IsTarget target
      × (site'.store.dir ≡ remove_agent site.store.dir a.session_id)
      × (site'.staging
          ≡ (stage_spawn_pin host.world host.pointer (effective_dir a) pane_id target
              host.created_at site.store site.staging).1)

  -- The command ran, but no pane of it was reported.
  abbrev pub IsLost : Agent → W → Status × Site W → Type 0
  IsLost a w p =
      (h : Harness) × (resolve host.join a.harness profile ≡ some h)
      × ((spawn_in_repo_window r host.base profile.command agents (effective_dir a)
            (spawn_command h "" "" (resume_opts h settings a)) w)
          ≡ (failed p.0, p.1.tmux))

  -- The states of tmux after the handler's first and second question.
  abbrev pub after_first : Site W → W
  after_first site = (tmux_is_available r site.tmux).1

  abbrev pub after_second : Site W → W
  after_second site = (tmux_list_live_pane_ids r (after_first site)).1

  -- The agent of the id has lost its pane and its server by what tmux answered to the second question.
  abbrev pub IsSurvivor : String → Agent → Site W → Type 0
  IsSurvivor id a site =
      (panes : List String) × (pid : String) × (read_agent site.store.dir id ≡ some a)
      × ((tmux_list_live_pane_ids r (after_first site)).0 ≡ (some panes, pid))
      × (is_resumable_orphan host.exists host.parse_time a (some panes) pid host.now ≡ true)
      × IsGone a panes pid

  abbrev pub IsResumed : String → Site W → Site W → Type 0
  IsResumed id site site' =
      (a : Agent) × IsSurvivor id a site × IsStarted a (after_second site) site site'

  -- A refusal: an error, no file, marker or pin has changed, and tmux was asked the two questions at
  -- most, unless the agent is a survivor and tmux failed to start it.
  abbrev pub IsRefused : String → Site W → Status × Site W → Type 0
  IsRefused id site p =
      (p.0 ≢ ok)
      × IsUntouched site p.1
      × ((p.1.tmux ≡ after_first site)
          ⊎ ((p.1.tmux ≡ after_second site)
              ⊎ ((a : Agent) × IsSurvivor id a site × IsLost a (after_second site) p)))

  -- What a step gives: a refusal, or the start of the agent.
  abbrev Settles : Agent → Site W → Status × Site W → Type 0
  Settles a site p =
      ((p.0 ≢ ok) × IsUntouched site p.1 × ((p.1.tmux ≡ site.tmux) ⊎ IsLost a site.tmux p))
      ⊎ ((p.0 ≡ ok) × IsStarted a site.tmux site p.1)

  pub stage-dir :
      (folder pane_id target : String) (site : Site W)
      → (stage host folder pane_id target site).store.dir ≡ site.store.dir
  unfolding stage stage_spawn_pin
  stage-dir folder pane_id target site = elim (Bool-cases (is_empty pane_id)) [
    | inl e ↦ rw (stage, e) refl
    | inr e ↦
        let p = staged_pin host.world folder pane_id target host.created_at in
        elim (Bool-cases (is_empty p.worktree_cwd)) [
          | inl f ↦ rw (stage, e, f) refl
          | inr f ↦ rw (stage, e, f) (dir-reap_stale_marker host.pointer p.worktree_cwd site.store)
        ]
  ]

  abbrev placement : Agent → Harness → W → Placed × W
  placement a h w =
      spawn_in_repo_window r host.base profile.command agents (effective_dir a)
        (spawn_command h "" "" (resume_opts h settings a)) w

  settle-Settles :
      (a : Agent) (h : Harness) (site : Site W)
      → resolve host.join a.harness profile ≡ some h
      → (q : Placed × W) → placement a h site.tmux ≡ q
      → IsPlacement q.0
      → Settles a site (settle host a q site)
  unfolding settle stage
  settle-Settles a h site e (failed status, w) same bad = inl (bad, (refl, refl), inr (h, e, same))
  settle-Settles a h site e (placed target pane_id, w) same valid = inr (
    refl,
    (
      h,
      target,
      pane_id,
      e,
      same,
      valid,
      ap (λ d. remove_agent d a.session_id)
          (stage-dir (effective_dir a) pane_id target (with_tmux w site)),
      refl,
    ),
  )

  respawn-Settles :
      (a : Agent) (site : Site W) → Settles a site (respawn host r profile settings agents a site)
  unfolding respawn
  respawn-Settles a site = elim (Option-cases (resolve host.join a.harness profile)) [
    | inl e ↦ rw (respawn, e) (inl (cc, (refl, refl), inl refl))
    | inr (h, e) ↦
        let same : respawn host r profile settings agents a site
            ≡ settle host a (placement a h site.tmux) site =
          rw (respawn, e) refl in
        subst (Settles a site) (sym same) (
          settle-Settles a h site e (placement a h site.tmux) refl (
            spawn_in_repo_window-IsPlacement r host.base profile.command agents (effective_dir a)
              (spawn_command h "" "" (resume_opts h settings a)) site.tmux))
  ]

  is_resumable_orphan-IsGone :
      (a : Agent) (panes : List String) (pid : String)
      → is_resumable_orphan host.exists host.parse_time a (some panes) pid host.now ≡ true
      → IsGone a panes pid
  unfolding is_resumable_orphan
  is_resumable_orphan-IsGone a panes pid h = ground arith

  -- What the handler gives for an id: a refusal, or the start of the agent of that id.
  abbrev Ends : String → Site W → Status × Site W → Type 0
  Ends id site p = IsRefused id site p ⊎ ((p.0 ≡ ok) × IsResumed id site p.1)

  survivor-Ends :
      (id : String) (a : Agent) (site : Site W) (p : Status × Site W)
      → IsSurvivor id a site
      → Settles a (with_tmux (after_second site) site) p
      → Ends id site p
  survivor-Ends id a site p h (inl (bad, same, inl early)) = inl (bad, same, inr (inl early))
  survivor-Ends id a site p h (inl (bad, same, inr lost)) = inl (bad, same, inr (inr (a, h, lost)))
  survivor-Ends id a site p h (inr (is_ok, started)) = inr (is_ok, (a, h, started))

  resume_orphan-Ends :
      (id : String) (a : Agent) (site : Site W) (listed : PaneSet × String)
      → read_agent site.store.dir id ≡ some a
      → (tmux_list_live_pane_ids r (after_first site)).0 ≡ listed
      → Ends id site (
          resume_orphan host r profile settings agents a listed
            (with_tmux (after_second site) site))
  unfolding resume_orphan
  resume_orphan-Ends id a site (none, pid) read list = inl (cc, (refl, refl), inr (inl refl))
  resume_orphan-Ends id a site (some panes, pid) read list =
      let asked = with_tmux (after_second site) site in
      elim (Bool-cases
        (is_resumable_orphan host.exists host.parse_time a (some panes) pid host.now)) [
          | inr e ↦ rw (resume_orphan, e) (inl (cc, (refl, refl), inr (inl refl)))
          | inl e ↦
              let same : resume_orphan host r profile settings agents a (some panes, pid) asked
                  ≡ respawn host r profile settings agents a asked =
                rw (resume_orphan, e) refl in
              subst (Ends id site) (sym same) (
                survivor-Ends id a site (respawn host r profile settings agents a asked)
                  (panes, pid, read, list, e, is_resumable_orphan-IsGone a panes pid e)
                  (respawn-Settles a asked))
        ]

  resume_agent-Ends :
      (id : String) (a : Agent) (site : Site W)
      → read_agent site.store.dir id ≡ some a
      → Ends id site
          (resume_agent host r profile settings agents a (with_tmux (after_first site) site))
  unfolding resume_agent
  resume_agent-Ends id a site read = elim (Bool-cases (is_empty a.session_id)) [
    | inl e ↦ rw (resume_agent, e) (inl (cc, (refl, refl), inl refl))
    | inr e ↦ elim (Bool-cases (is_empty (effective_dir a))) [
      | inl f ↦ rw (resume_agent, e, f) (inl (cc, (refl, refl), inl refl))
      | inr f ↦ elim (Bool-cases (host.is_dir (effective_dir a))) [
        | inr g ↦ rw (resume_agent, e, f, g) (inl (cc, (refl, refl), inl refl))
        | inl g ↦
            let listed = tmux_list_live_pane_ids r (after_first site) in
            let same : resume_agent host r profile settings agents a
                  (with_tmux (after_first site) site)
                ≡ resume_orphan host r profile settings agents a listed.0
                    (with_tmux (after_second site) site) =
              rw (resume_agent, e, f, g) refl in
            subst (Ends id site) (sym same) (resume_orphan-Ends id a site listed.0 read refl)
      ]
    ]
  ]

  -- `handleResume` either refuses with an error, having changed no file, marker or pin and asked tmux
  -- no more than whether it runs and which panes there are, save that tmux may fail to start an agent
  -- that could be resumed; or the agent of that id has lost its pane and its server by tmux's own
  -- list, it is started again under its session in a pane with a usable target, the pin of that pane
  -- is staged, and of the agents' files only its own is removed.
  pub handle_resume-IsResumed :
      (id : String) (site : Site W)
      → IsRefused id site (handle_resume host r profile settings agents id site)
        ⊎ (((handle_resume host r profile settings agents id site).0 ≡ ok)
            × IsResumed id site (handle_resume host r profile settings agents id site).1)
  unfolding handle_resume
  handle_resume-IsResumed id site = elim (Bool-cases (tmux_is_available r site.tmux).0) [
    | inr e ↦ rw (handle_resume, e) (inl (cc, (refl, refl), inl refl))
    | inl e ↦ elim (Option-cases (read_agent site.store.dir id)) [
      | inl f ↦
          let same : handle_resume host r profile settings agents id site
              ≡ (not_found, with_tmux (after_first site) site) =
            rw (handle_resume, e, f) refl in
          subst (Ends id site) (sym same) (inl (cc, (refl, refl), inl refl))
      | inr (a, f) ↦
          let same : handle_resume host r profile settings agents id site
              ≡ resume_agent host r profile settings agents a (with_tmux (after_first site) site) =
            rw (handle_resume, e, f) refl in
          subst (Ends id site) (sym same) (resume_agent-Ends id a site f)
    ]
  ]
