-- ===== src/State/Branches/Pins.antt =====
-- Which branch an agent shows, and that a pinned branch stays.
use agent_dashboard.Common.{
  String, ◌≡◌, refl, ◌≢◌, ◌⊎◌, none, some, List, [], ◌∷◌, ◌∙◌, ap, sym, str_eq, str_eq_iff, arith,
  Bool-cases, inl, inr,
}
use agent_dashboard.Common.Dict.{lookup, map_values, over, lookup-map_values}
use agent_dashboard.Domain.{Agent, StateFile}
use agent_dashboard.State.Disk.{Directory}
use agent_dashboard.State.Branches.{
  PaneCwds, backfill_cwd, resolve_branch, resolve_loop, resolve_agent_branches,
}

-- The documented cases, with the source of the branch in each.
abbrev pub ShownBranch : (String → String) → Agent → String → Type 0
ShownBranch git a b =
    ((a.worktree_cwd ≢ "") × (a.branch ≢ "") × (b ≡ a.branch))
    ⊎ ((a.worktree_cwd ≢ "") × (a.branch ≡ "") × (b ≡ git a.worktree_cwd))
    ⊎ ((a.worktree_cwd ≡ "") × (a.cwd ≢ "") × (b ≡ git a.cwd))
    ⊎ ((a.worktree_cwd ≡ "") × (a.cwd ≡ "") × (b ≡ ""))

module _ (git : String → String) (state_dir : String) where
  shown_branch : (a : Agent) → ShownBranch git a (resolve_branch git state_dir a).0.branch
  unfolding resolve_branch
  shown_branch a =
      ground (arith, str_eq_iff a.worktree_cwd "", str_eq_iff a.branch "", str_eq_iff a.cwd "")

  branch_only :
      (a : Agent)
      → (resolve_branch git state_dir a).0
        ≡ record a { branch = (resolve_branch git state_dir a).0.branch }
  unfolding resolve_branch
  branch_only a = ground arith

  lookup-resolve_loop :
      (k : String) (sf : StateFile) (d : Directory)
      → lookup k (resolve_loop git state_dir sf d).0
        ≡ over (λ a. (resolve_branch git state_dir a).0) (lookup k sf)
  unfolding lookup resolve_loop
  lookup-resolve_loop k [] d = refl
  lookup-resolve_loop k ((j, a) ∷ sf) d = elim (Bool-cases (str_eq j k)) [
    | inl same ↦ rw same
    | inr other ↦ rw other (lookup-resolve_loop k sf _)
  ]

  -- Each agent of the state file comes back with its directory filled in from its pane if it had
  -- none, and with the branch of its case: a pinned agent keeps its own, an agent in a worktree
  -- without a branch gets the worktree's, one outside gets that of its directory, and one with no
  -- directory gets none. Nothing else of it changes, whatever is written to disk on the way.
  resolve_agent_branches_shown :
      (sf : StateFile) (cwds : PaneCwds) (d : Directory) (k : String) (a : Agent)
      → lookup k sf ≡ some a
      → (b : String) × ShownBranch git (backfill_cwd cwds a) b
        × (lookup k (resolve_agent_branches git sf cwds state_dir d).0
            ≡ some (record (backfill_cwd cwds a) { branch = b }))
  unfolding resolve_agent_branches
  resolve_agent_branches_shown sf cwds d k a h =
      let filled = backfill_cwd cwds a in
      (
        (resolve_branch git state_dir filled).0.branch,
        shown_branch filled,
        lookup-resolve_loop k (map_values (backfill_cwd cwds) sf) d
            ∙ ap (over (λ x. (resolve_branch git state_dir x).0))
                (lookup-map_values (backfill_cwd cwds) k sf ∙ ap (over (backfill_cwd cwds)) h)
            ∙ ap some (branch_only filled),
      )

backfill_keeps_pin :
    (cwds : PaneCwds) (a : Agent)
    → ((backfill_cwd cwds a).worktree_cwd ≡ a.worktree_cwd)
      × ((backfill_cwd cwds a).branch ≡ a.branch)
unfolding backfill_cwd
backfill_keeps_pin none a = (refl, refl)
backfill_keeps_pin (some cwds) a = (ground arith, ground arith)

-- One refresh of the dashboard: what git and tmux answer, the state directory and its files.
pub record Refresh : Type 0 where
  pub git : String → String
  pub cwds : PaneCwds
  pub state_dir : String
  pub dir : Directory

abbrev pub refreshes : List Refresh → StateFile → StateFile
refreshes [] sf = sf
refreshes (r ∷ rs) sf = refreshes rs (resolve_agent_branches r.git sf r.cwds r.state_dir r.dir).0

-- The agent that one refresh shows for a pinned one.
kept_branch :
    (r : Refresh) (a : Agent) (b : String)
    → a.worktree_cwd ≢ ""
    → a.branch ≢ ""
    → ShownBranch r.git (backfill_cwd r.cwds a) b
    → b ≡ a.branch
kept_branch r a b w n s = ground (arith, backfill_keeps_pin r.cwds a)

-- An agent in a worktree that has a branch keeps both through any number of refreshes, whatever
-- git, tmux and the disk answer in each.
pub refreshes_keep_pin :
    (rs : List Refresh) (sf : StateFile) (k : String) (a : Agent)
    → lookup k sf ≡ some a
    → a.worktree_cwd ≢ ""
    → a.branch ≢ ""
    → (a' : Agent) × (lookup k (refreshes rs sf) ≡ some a')
      × (a'.worktree_cwd ≡ a.worktree_cwd)
      × (a'.branch ≡ a.branch)
refreshes_keep_pin [] sf k a h w n = (a, h, refl, refl)
refreshes_keep_pin (r ∷ rs) sf k a h w n =
    let (b, shown, found) = resolve_agent_branches_shown r.git r.state_dir sf r.cwds r.dir k a h in
    let same : b ≡ a.branch = kept_branch r a b w n shown in
    let tree : (backfill_cwd r.cwds a).worktree_cwd ≡ a.worktree_cwd =
      (backfill_keeps_pin r.cwds a).0 in
    let (a', later, tree', branch') =
      refreshes_keep_pin rs (resolve_agent_branches r.git sf r.cwds r.state_dir r.dir).0 k
        (record (backfill_cwd r.cwds a) { branch = b }) found (λ e. w (sym tree ∙ e))
        (λ e. n (sym same ∙ e)) in
    (a', later, tree' ∙ tree, branch' ∙ same)
