-- ===== src/State/SpawnPin/Reaping.antt =====
-- Stale markers: a live session's marker is never removed, and a dead session's makes way.
use agent_dashboard.Common.{
  String, ◌≡◌, ◌≢◌, ◌⊎◌, inl, inr, true, false, Option, some, str_eq_iff, str_eq_refl, is_empty,
  arith, Option-cases,
}
use agent_dashboard.Common.Dict.{lookup, lookup-erase}
use agent_dashboard.Common.Text.{trim_space}
use agent_dashboard.State.Markers.{Store, World, claim_marker}
use agent_dashboard.State.SpawnPin.{pointed_dir, has_state_file, reap_stale_marker}

-- `ReapStaleMarker` removes no marker whose owner is alive: a marker, in whatever git directory,
-- that names a session with a state file is there afterwards as it was, and so is every marker in
-- another git directory than the one that the worktree's `.git` file names.
pub reap_stale_marker_safe :
    (pointer : String → Option String) (worktree_path git_dir body : String) (s : Store)
    → lookup git_dir s.markers ≡ some body
    → (has_state_file s.dir (trim_space body) ≡ true)
      ⊎ (pointed_dir (pointer worktree_path) ≢ some git_dir)
    → lookup git_dir (reap_stale_marker pointer worktree_path s).markers ≡ some body
unfolding reap_stale_marker
reap_stale_marker_safe pointer worktree_path git_dir body s h c =
    elim (Option-cases (pointed_dir (pointer worktree_path))) [
      | inl e ↦ ground arith
      | inr (g, e) ↦ ground (arith, lookup-erase g git_dir s.markers, str_eq_iff g git_dir, c)
    ]

-- Once the owner of a linked worktree's marker has no state file, a reap lets the next session take
-- the worktree: its claim succeeds if the marker can be created and written.
pub reap-claim :
    (w : World) (pointer : String → Option String) (worktree_path git_dir body session_id : String)
    (s : Store)
    → is_empty worktree_path ≡ false
    → pointed_dir (pointer worktree_path) ≡ some git_dir
    → lookup git_dir s.markers ≡ some body
    → is_empty (trim_space body) ≡ false
    → has_state_file s.dir (trim_space body) ≡ false
    → w.can_create git_dir ≡ true
    → w.can_write git_dir ≡ true
    → (claim_marker w git_dir session_id (reap_stale_marker pointer worktree_path s).markers).1
      ≡ true
unfolding reap_stale_marker claim_marker
reap-claim w pointer worktree_path git_dir body session_id s a b c d e f g =
    ground (arith, lookup-erase git_dir git_dir s.markers, str_eq_refl git_dir)
