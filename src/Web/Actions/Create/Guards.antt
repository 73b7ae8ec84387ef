-- ===== src/Web/Actions/Create/Guards.antt =====
-- A request to create an agent starts it only if it passes every guard.
use agent_dashboard.Common.{
  String, ◌≡◌, ◌≢◌, ◌⊎◌, inl, inr, refl, sym, subst, true, Option, some, List, is_empty, Bool-cases,
  Option-cases,
}
use agent_dashboard.Domain.{Agent}
use agent_dashboard.Harness.Options.{Settings, spawn_opts_for}
use agent_dashboard.Harness.Registry.{AgentProfile, Harness, name_of, spawn_command, allows_effort}
use agent_dashboard.Tmux.{Runner}
use agent_dashboard.Tmux.Panes.{tmux_is_available}
use agent_dashboard.Tmux.Windows.Language.{IsTarget}
use agent_dashboard.Web.Actions.{
  Status, ok, bad_request, internal_server_error, Placed, failed, placed, spawn_in_repo_window,
}
use agent_dashboard.Web.Actions.Placement.{IsPlacement, spawn_in_repo_window-IsPlacement}
use agent_dashboard.State.SpawnPin.{stage_spawn_pin}
use agent_dashboard.Web.Actions.Resume.{Host, Site, with_tmux, stage}
use agent_dashboard.Web.Actions.Survivor.{IsUntouched, stage-dir}
use agent_dashboard.Web.Actions.Create.{
  CreateRequest, supports_harness, allows_model, expand_folder, active_harness, settle_new,
  start_agent, create_with, create_in, create_agent, handle_create,
}

module _ {W : Type 0} (host : Host) (home : Option String) (r : Runner W) (profile : AgentProfile)
    (settings : Settings) (configured : Harness) (agents : List Agent) where
  abbrev placement : Harness → String → CreateRequest → W → Placed × W
  placement h folder req w =
      spawn_in_repo_window r host.base profile.command agents folder
        (spawn_command h req.skill req.message
          (spawn_opts_for (name_of h) settings req.model req.effort))
        w

  -- The harness takes the request's skill, model and effort.
  abbrev pub IsAllowed : Harness → CreateRequest → Type 0
  IsAllowed h req =
      (supports_harness req.skill (name_of h) ≡ true)
      × (allows_model h req.model ≡ true)
      × (allows_effort h req.effort ≡ true)

  -- The harness's command for the request runs in a pane with a usable target, and no agent's file
  -- has changed.
  abbrev pub IsRunning : Harness → String → CreateRequest → W → Site W → Site W → Type 0
  IsRunning h folder req w site site' =
      (target : String) × (pane_id : String) × (spawn_in_repo_window r host.base profile.command
          agents folder
          (spawn_command h req.skill req.message
            (spawn_opts_for (name_of h) settings req.model req.effort))
          w
        ≡ (placed target pane_id, site'.tmux))
      × IsTarget target
      × (site'.store.dir ≡ site.store.dir)
      × (site'.staging
          ≡ (stage_spawn_pin host.world host.pointer folder pane_id target host.created_at
              site.store site.staging).1)

  -- The command ran, but no pane of it was reported.
  abbrev pub IsLost : Harness → String → CreateRequest → W → Status × Site W → Type 0
  IsLost h folder req w p =
      spawn_in_repo_window r host.base profile.command agents folder
        (spawn_command h req.skill req.message
          (spawn_opts_for (name_of h) settings req.model req.effort))
        w
      ≡ (failed p.0, p.1.tmux)

  -- Every guard lets the request pass.
  abbrev pub IsAccepted : Harness → String → CreateRequest → Type 0
  IsAccepted h folder req =
      (active_harness host.join profile configured req.harness ≡ some h)
      × (expand_folder host.join home req.folder ≡ some folder)
      × (host.is_dir folder ≡ true)
      × IsAllowed h req

  -- The state of tmux after the handler's question whether it runs.
  abbrev pub after_question : Site W → W
  after_question site = (tmux_is_available r site.tmux).1

  abbrev pub IsCreated : CreateRequest → Site W → Site W → Type 0
  IsCreated req site site' =
      (h : Harness) × (folder : String) × IsAccepted h folder req
      × IsRunning h folder req (after_question site) site site'

  -- A refusal: an error, no file, marker or pin has changed, and tmux was only asked whether it runs,
  -- unless every guard lets the request pass and tmux failed to start it.
  abbrev pub IsRefused : CreateRequest → Site W → Status × Site W → Type 0
  IsRefused req site p =
      (p.0 ≢ ok)
      × IsUntouched site p.1
      × ((p.1.tmux ≡ after_question site)
          ⊎ ((h : Harness) × (folder : String) × IsAccepted h folder req
              × IsLost h folder req (after_question site) p))

  settle_new-IsRunning :
      (h : Harness) (folder : String) (req : CreateRequest) (site : Site W) (q : Placed × W)
      → placement h folder req site.tmux ≡ q
      → IsPlacement q.0
      → (((settle_new host folder q site).0 ≢ ok)
          × IsUntouched site (settle_new host folder q site).1
          × IsLost h folder req site.tmux (settle_new host folder q site))
        ⊎ (((settle_new host folder q site).0 ≡ ok)
            × IsRunning h folder req site.tmux site (settle_new host folder q site).1)
  unfolding settle_new stage
  settle_new-IsRunning h folder req site (failed status, w) same bad = inl (bad, (refl, refl), same)
  settle_new-IsRunning h folder req site (placed target pane_id, w) same valid = inr (
    refl,
    (
      target,
      pane_id,
      same,
      valid,
      stage-dir host r profile settings agents folder pane_id target (with_tmux w site),
      refl,
    ),
  )

  abbrev Ends : CreateRequest → Site W → Status × Site W → Type 0
  Ends req site p = IsRefused req site p ⊎ ((p.0 ≡ ok) × IsCreated req site p.1)

  create_with-Ends :
      (h : Harness) (folder : String) (req : CreateRequest) (site : Site W)
      → active_harness host.join profile configured req.harness ≡ some h
      → expand_folder host.join home req.folder ≡ some folder
      → host.is_dir folder ≡ true
      → Ends req site (
          create_with host home r profile settings configured agents h folder req
            (with_tmux (after_question site) site))
  unfolding create_with start_agent
  create_with-Ends h folder req site active expanded is_dir =
      let asked = with_tmux (after_question site) site in
      elim (Bool-cases (supports_harness req.skill (name_of h))) [
        | inr e ↦ rw (create_with, e) (inl (cc, (refl, refl), inl refl))
        | inl e ↦ elim (Bool-cases (allows_model h req.model)) [
          | inr f ↦ rw (create_with, e, f) (inl (cc, (refl, refl), inl refl))
          | inl f ↦ elim (Bool-cases (allows_effort h req.effort)) [
            | inr g ↦ rw (create_with, e, f, g) (inl (cc, (refl, refl), inl refl))
            | inl g ↦
                let same : create_with host home r profile settings configured agents h folder req
                      asked
                    ≡ settle_new host folder (placement h folder req asked.tmux) asked =
                  rw (create_with, e, f, g) refl in
                subst (Ends req site) (sym same)
                  (elim (settle_new-IsRunning h folder req asked (placement h folder req asked.tmux)
                    refl
                    (spawn_in_repo_window-IsPlacement r host.base profile.command agents folder
                      (spawn_command h req.skill req.message
                        (spawn_opts_for (name_of h) settings req.model req.effort))
                      asked.tmux)) [
                        | inl (bad, untouched, lost) ↦ inl (
                          bad,
                          untouched,
                          inr (h, folder, (active, expanded, is_dir, (e, f, g)), lost),
                        )
                        | inr (is_ok, running) ↦
                            inr (is_ok, (h, folder, (active, expanded, is_dir, (e, f, g)), running))
                      ])
          ]
        ]
      ]

  create_in-Ends :
      (folder : String) (req : CreateRequest) (site : Site W)
      → expand_folder host.join home req.folder ≡ some folder
      → Ends req site (
          create_in host home r profile settings configured agents folder req
            (with_tmux (after_question site) site))
  unfolding create_in
  create_in-Ends folder req site expanded =
      let asked = with_tmux (after_question site) site in
      elim (Bool-cases (host.is_dir folder)) [
        | inr e ↦ rw (create_in, e) (inl (cc, (refl, refl), inl refl))
        | inl e ↦ elim (Option-cases (active_harness host.join profile configured req.harness)) [
          | inl f ↦
              let same : create_in host home r profile settings configured agents folder req asked
                  ≡ (bad_request, asked) =
                rw (create_in, e, f) refl in
              subst (Ends req site) (sym same) (inl (cc, (refl, refl), inl refl))
          | inr (h, f) ↦
              let same : create_in host home r profile settings configured agents folder req asked
                  ≡ create_with host home r profile settings configured agents h folder req asked =
                rw (create_in, e, f) refl in
              subst (Ends req site) (sym same) (create_with-Ends h folder req site f expanded e)
        ]
      ]

  create_agent-Ends :
      (req : CreateRequest) (site : Site W)
      → Ends req site (
          create_agent host home r profile settings configured agents req
            (with_tmux (after_question site) site))
  unfolding create_agent
  create_agent-Ends req site =
      let asked = with_tmux (after_question site) site in
      elim (Bool-cases (is_empty req.folder)) [
        | inl e ↦ rw (create_agent, e) (inl (cc, (refl, refl), inl refl))
        | inr e ↦ elim (Option-cases (expand_folder host.join home req.folder)) [
          | inl f ↦
              let same : create_agent host home r profile settings configured agents req asked
                  ≡ (internal_server_error, asked) =
                rw (create_agent, e, f) refl in
              subst (Ends req site) (sym same) (inl (cc, (refl, refl), inl refl))
          | inr (folder, f) ↦
              let same : create_agent host home r profile settings configured agents req asked
                  ≡ create_in host home r profile settings configured agents folder req asked =
                rw (create_agent, e, f) refl in
              subst (Ends req site) (sym same) (create_in-Ends folder req site f)
        ]
      ]

  -- `handleCreate` either refuses with an error, having changed no file, marker or pin and asked tmux
  -- only whether it runs, save that tmux may fail to start a request that passes every guard; or the
  -- folder is there, the harness of the request takes its skill, model and effort, its command runs
  -- in a pane with a usable target, the pin of that pane is staged, and no agent's file has changed.
  pub handle_create-IsCreated :
      (req : CreateRequest) (site : Site W)
      → IsRefused req site
          (handle_create host home r profile settings configured agents (some req) site)
        ⊎ (((handle_create host home r profile settings configured agents (some req) site).0 ≡ ok)
            × IsCreated req site
                (handle_create host home r profile settings configured agents (some req) site).1)
  unfolding handle_create
  handle_create-IsCreated req site = elim (Bool-cases (tmux_is_available r site.tmux).0) [
    | inr e ↦ rw (handle_create, e) (inl (cc, (refl, refl), inl refl))
    | inl e ↦
        let same : handle_create host home r profile settings configured agents (some req) site
            ≡ create_agent host home r profile settings configured agents req
                (with_tmux (after_question site) site) =
          rw (handle_create, e) refl in
        subst (Ends req site) (sym same) (create_agent-Ends req site)
  ]
