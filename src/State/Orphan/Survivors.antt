-- ===== src/State/Orphan/Survivors.antt =====
-- What a survivor is, against the tests of the code taken one by one.
use agent_dashboard.Common.{
  inl, inr, ◌↔◌, Bool-cases, Option-cases, ℕ, ◌+◌, ◌≤◌, String, ◌≡◌, Bool, true, false, Option,
  some, str_eq, arith, inr,
}
use agent_dashboard.Domain.{Agent, effective_dir}
use agent_dashboard.State.Arbitration.{arbitrate_state}
use agent_dashboard.State.Orphan.{
  PaneSet, is_live, is_nil, resumable_ttl, finished_states, is_resumable_orphan, is_stale,
}

-- A session on a branch, in a directory that is there, whose pane died with an earlier tmux server,
-- whose work is not finished, and which is at most 72 hours old if its age is known.
pub record IsSurvivor (exists : String → Bool) (parse_time : String → Option ℕ) (a : Agent)
    (live_panes : PaneSet) (server_pid : String) (now : ℕ) : Type 0 where
  pub has_session : str_eq a.session_id "" ≡ false
  pub has_state : str_eq a.state "" ≡ false
  pub has_pane : str_eq a.tmux_pane_id "" ≡ false
  pub enumerated : str_eq server_pid "" ≡ false
  pub dead : is_live live_panes a.tmux_pane_id ≡ false
  pub has_server : str_eq a.tmux_server_pid "" ≡ false
  pub other_server : str_eq a.tmux_server_pid server_pid ≡ false
  pub has_branch : str_eq a.branch "" ≡ false
  pub dir_exists : exists (effective_dir a) ≡ true
  pub unfinished : finished_states (arbitrate_state a "") ≡ false
  pub known_panes : is_nil live_panes ≡ false
  pub young :
      (t : ℕ)
      → str_eq a.updated_at "" ≡ false
      → parse_time a.updated_at ≡ some t
      → now ≤ t + resumable_ttl

module _ (exists : String → Bool) (parse_time : String → Option ℕ) (a : Agent)
    (live_panes : PaneSet) (server_pid : String) (now : ℕ) where
  young_of_fresh :
      is_stale parse_time now a.updated_at ≡ false
      → (t : ℕ) → str_eq a.updated_at "" ≡ false
      → parse_time a.updated_at ≡ some t
      → now ≤ t + resumable_ttl
  unfolding is_stale
  young_of_fresh h t e p = ground arith

  fresh_of_young :
      ((t : ℕ)
        → str_eq a.updated_at "" ≡ false
        → parse_time a.updated_at ≡ some t
        → now ≤ t + resumable_ttl)
      → is_stale parse_time now a.updated_at ≡ false
  unfolding is_stale
  fresh_of_young h = elim (Bool-cases (str_eq a.updated_at "")) [
    | inl e ↦ ground arith
    | inr e ↦ elim (Option-cases (parse_time a.updated_at)) [
      | inl p ↦ ground arith
      | inr (t, p) ↦ ground (arith, h t e p)
    ]
  ]

  -- `IsResumableOrphan` says yes exactly to the survivors.
  pub is_resumable_orphan_iff :
      (is_resumable_orphan exists parse_time a live_panes server_pid now ≡ true)
      ↔ IsSurvivor exists parse_time a live_panes server_pid now
  unfolding is_resumable_orphan
  is_resumable_orphan_iff = (
    λ h. record {
      has_session = ground arith;
      has_state = ground arith;
      has_pane = ground arith;
      enumerated = ground arith;
      dead = ground arith;
      has_server = ground arith;
      other_server = ground arith;
      has_branch = ground arith;
      dir_exists = ground arith;
      unfinished = ground arith;
      known_panes = ground arith;
      young = young_of_fresh (ground arith);
    },
    λ s. ground (arith, fresh_of_young s.young),
  )
