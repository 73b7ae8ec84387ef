-- ===== src/Web/Actions/Cleanup.antt =====
-- internal/web/actions.go: `handleCleanup`, `handleClose`, `handleStop`, and the default branch of a
-- repository. Parameters: `Shell` is the interface of `cmdRunner`, whose result is the success of a
-- command and its output; `is_abs` is `filepath.IsAbs`; `removable` says whether
-- `state.RemoveAgent` succeeds for a session; `cleanup_session` stands for the removal of
-- the agent's diagrams, whose result the handler ignores. The agent is what `lookupAgent` finds.
pub mod Order
mod Examples
use Prim.Native.Char.{code}
use agent_dashboard.Common.{
  ℕ, String, Bool, true, false, not, ◌&&◌, ◌||◌, Option, none, some, List, [], ◌∷◌, is_empty,
  non_empty, ◌==◌, if◌then◌else◌,
}
use agent_dashboard.Common.Text.{trim_space}
use agent_dashboard.Domain.{Agent}
use agent_dashboard.State.Markers.{Store}
use agent_dashboard.Tmux.{Runner, and_then}
use agent_dashboard.Tmux.Keys.{tmux_send_raw}
use agent_dashboard.Tmux.Panes.{tmux_is_available}
use agent_dashboard.Tmux.Windows.{resolve_target, tmux_kill_pane}
use agent_dashboard.Web.Actions.{
  Status, ok, bad_request, not_found, gone, internal_server_error, service_unavailable,
}
use agent_dashboard.Web.Actions.Resume.{Site, with_tmux, without_agent}
use agent_dashboard.Web.Trust.{TrustPanes, clear_trust_pane}

-- `CombinedOutput(ctx, dir, name, args...)`
pub record Shell (W : Type 0) : Type 0 where
  pub combined_output : String → String → List String → W → (Bool × String) × W

-- What follows the last place of a character, if it is in the text.
unfoldable pub after_last : ℕ → String → Option String
after_last k String.[] = none
after_last k (String.◌∷◌ c s) = elim (after_last k s) [
  | some a ↦ some a
  | none ↦ if code c == k then some s else none
]

-- The last part of `strings.Split(ref, "/")`.
unfoldable pub last_part : String → String
last_part ref = elim (after_last 47 ref) [ none ↦ ref | some part ↦ part ]

module _ {W : Type 0} (r : Runner W) (sh : Shell W) where
  unfoldable pub git_default_branch_from_dir : String → W → String × W
  git_default_branch_from_dir dir w =
      let ((done, out), w') =
        sh.combined_output dir "git" ("symbolic-ref" ∷ "refs/remotes/origin/HEAD" ∷ []) w in
      (if done then last_part (trim_space out) else "main", w')

  abbrev pub git : String → List String → W → Bool × W
  git cwd args w =
      let ((done, out), w') = sh.combined_output cwd "git" ("-C" ∷ cwd ∷ args) w in (done, w')

  abbrev killed : String → W → W
  killed target w = if non_empty target then (tmux_kill_pane r target w).1 else w

  -- Errors are ignored: the pane may be dead.
  unfoldable pub kill_pane : Agent → W → W
  kill_pane a w =
      let (available, w1) = tmux_is_available r w in
      let (target, w2) = resolve_target r a.tmux_pane_id w1 in
      if available then killed target w2 else w1

  unfoldable pub remove_worktree : Agent → W → Bool × W
  remove_worktree a w =
      if is_empty a.worktree_cwd
      then (true, w)
      else and_then (git a.cwd ("worktree" ∷ "remove" ∷ "--force" ∷ a.worktree_cwd ∷ []) w)
          (λ w1. (true, (git a.cwd ("worktree" ∷ "prune" ∷ []) w1).1))

  unfoldable pub delete_branch : Agent → W → W
  delete_branch a w =
      if is_empty a.branch then w else (git a.cwd ("branch" ∷ "-d" ∷ a.branch ∷ []) w).1

  -- The steps 2 to 5 of the handler.
  unfoldable pub clean_repository : Agent → String → W → Bool × W
  clean_repository a default_branch w = and_then (remove_worktree a w) (λ w1.
      and_then (git a.cwd ("checkout" ∷ default_branch ∷ []) w1) (λ w2.
        and_then (git a.cwd ("pull" ∷ "origin" ∷ default_branch ∷ []) w2)
          (λ w3. (true, delete_branch a w3))))

  module _ (is_abs : String → Bool) (removable : String → Bool)
      (cleanup_session : String → W → W) where
    unfoldable pub clean_up : String → Agent → Site W → Status × Site W
    clean_up id a site =
        let (default_branch, w1) = git_default_branch_from_dir a.cwd site.tmux in
        let (done, w2) = clean_repository a default_branch (kill_pane a w1) in
        let removed : Site W = record site {
          store = without_agent id site.store;
          tmux = cleanup_session id w2;
        } in
        if not done
        then (internal_server_error, with_tmux w2 site)
        else if removable id
        then (ok, removed)
        else (internal_server_error, with_tmux w2 site)

    unfoldable pub handle_cleanup : Option Agent → String → Site W → Status × Site W
    handle_cleanup none id site = (not_found, site)
    handle_cleanup (some a) id site =
        let cleaned = clean_up id a site in
        if is_empty a.cwd || not (is_abs a.cwd)
        then (bad_request, site)
        else if non_empty a.worktree_cwd && not (is_abs a.worktree_cwd)
        then (bad_request, site)
        else cleaned

  unfoldable pub handle_stop : Option Agent → W → Status × W
  handle_stop none w = (not_found, w)
  handle_stop (some a) w =
      let (available, w1) = tmux_is_available r w in
      let (target, w2) = resolve_target r a.tmux_pane_id w1 in
      let (sent, w3) = tmux_send_raw r target "C-c" w2 in
      if not available
      then (service_unavailable, w1)
      else if is_empty target
      then (gone, w2)
      else if sent
      then (ok, w3)
      else (internal_server_error, w3)

  unfoldable pub handle_close :
      Option Agent → String → Site W → TrustPanes → Status × (Site W × TrustPanes)
  handle_close none id site m = (not_found, (site, m))
  handle_close (some a) id site m = (
    ok,
    (
      record site { store = without_agent id site.store; tmux = kill_pane a site.tmux },
      clear_trust_pane a.tmux_pane_id m,
    ),
  )
