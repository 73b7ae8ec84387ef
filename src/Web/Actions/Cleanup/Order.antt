-- ===== src/Web/Actions/Cleanup/Order.antt =====
-- `handleCleanup` removes the agent's file last.
use mathlib.Core.Bool.{true≢false}
use Prim.Native.Char.{Char, code}
use Prim.Native.String.{◌++◌}
use text.Mathlib.TextLemmas.{nil-append, cons-append}
use agent_dashboard.Common.Chars.{all_chars, is_not}
use agent_dashboard.Common.Text.{trim_space}
use agent_dashboard.Common.{
  none, arith, subst, Option-cases, ◌==◌, sym, ap, ◌∙◌, String, ◌≡◌, ◌≢◌, ◌⊎◌, inl, inr, refl, Bool,
  true, false, not, ◌&&◌, ◌||◌, some, List, [], ◌∷◌, is_empty, non_empty, Bool-cases,
}
use agent_dashboard.Domain.{Agent}
use agent_dashboard.State.Disk.{remove_agent}
use agent_dashboard.Tmux.{Runner, and_then}
use agent_dashboard.Web.Actions.{ok}
use agent_dashboard.Web.Actions.Resume.{Site}
use agent_dashboard.Web.Actions.Survivor.{IsUntouched}
use agent_dashboard.Web.Actions.Cleanup.{
  Shell, after_last, last_part, git, git_default_branch_from_dir, remove_worktree, clean_repository,
  delete_branch, kill_pane, clean_up, handle_cleanup,
}

after_last-missing : (s : String) → after_last 47 s ≡ none → all_chars (is_not 47) s ≡ true
unfolding after_last
after_last-missing String.[] h = refl
after_last-missing (String.◌∷◌ e s) h = elim (Option-cases (after_last 47 s)) [
  | inr (part, found) ↦ absurd (ground arith)
  | inl missing ↦ elim (Bool-cases (code e == 47)) [
    | inl slash ↦ absurd (ground arith)
    | inr other ↦ ground (arith, after_last-missing s missing)
  ]
]

whole : (ref : String) → after_last 47 ref ≡ none → last_part ref ≡ ref
unfolding last_part
whole ref h = rw (last_part, h) refl

tail : (ref part : String) → after_last 47 ref ≡ some part → last_part ref ≡ part
unfolding last_part
tail ref part h = rw (last_part, h) refl

-- A branch without a slash that is a text, or stands behind a last slash of it.
abbrev pub IsLastPart : String → String → Type 0
IsLastPart text branch =
    (all_chars (is_not 47) branch ≡ true)
    × ((text ≡ branch)
        ⊎ ((front : String) × (c : Char) × (code c ≡ 47) × (text ≡ front ++ String.◌∷◌ c branch)))

front_of :
    (s branch : String)
    → after_last 47 s ≡ some branch
    → (front : String) × (c : Char) × (code c ≡ 47) × (s ≡ front ++ String.◌∷◌ c branch)
unfolding after_last
front_of String.[] branch h = absurd (ground arith)
front_of (String.◌∷◌ e s) branch h = elim (Option-cases (after_last 47 s)) [
  | inr (part, found) ↦
      let same : part ≡ branch = ground arith in
      let (front, c, slash, split) = front_of s branch (found ∙ ap (λ (x : String). some x) same) in
      (
        String.◌∷◌ e front,
        c,
        slash,
        ap (λ (x : String). String.◌∷◌ e x) split ∙ sym (cons-append e front (String.◌∷◌ c branch)),
      )
  | inl missing ↦ elim (Bool-cases (code e == 47)) [
    | inl slash ↦
        let same : s ≡ branch = ground arith in
        (
          "",
          e,
          ground arith,
          ap (λ (x : String). String.◌∷◌ e x) same ∙ sym (nil-append (String.◌∷◌ e branch)),
        )
    | inr other ↦ absurd (ground arith)
  ]
]

after_last-clear :
    (s branch : String) → after_last 47 s ≡ some branch → all_chars (is_not 47) branch ≡ true
unfolding after_last
after_last-clear String.[] branch h = absurd (ground arith)
after_last-clear (String.◌∷◌ e s) branch h = elim (Option-cases (after_last 47 s)) [
  | inr (part, found) ↦
      let same : part ≡ branch = ground arith in
      after_last-clear s branch (found ∙ ap (λ (x : String). some x) same)
  | inl missing ↦ elim (Bool-cases (code e == 47)) [
    | inl slash ↦
        let same : s ≡ branch = ground arith in
        ap (all_chars (is_not 47)) (sym same) ∙ after_last-missing s missing
    | inr other ↦ absurd (ground arith)
  ]
]

last_part-IsLastPart : (ref : String) → IsLastPart ref (last_part ref)
unfolding last_part
last_part-IsLastPart ref = elim (Option-cases (after_last 47 ref)) [
  | inl missing ↦
      subst (IsLastPart ref) (sym (whole ref missing)) (after_last-missing ref missing, inl refl)
  | inr (part, found) ↦
      subst (IsLastPart ref) (sym (tail ref part found))
        (after_last-clear ref part found, inr (front_of ref part found))
]

module _ {W : Type 0} (r : Runner W) (sh : Shell W) where
  -- The agent's worktree is removed, if it has one.
  abbrev pub IsFreed : Agent → W → W → Type 0
  IsFreed a w w1 =
      ((is_empty a.worktree_cwd ≡ true) × (w1 ≡ w))
      ⊎ ((v : W) × (git r sh a.cwd ("worktree" ∷ "remove" ∷ "--force" ∷ a.worktree_cwd ∷ []) w
            ≡ (true, v))
          × (w1 ≡ (git r sh a.cwd ("worktree" ∷ "prune" ∷ []) v).1))

  -- From one state to another: the worktree is removed, the branch is checked out and pulled, each
  -- with success, and the agent's own branch is deleted if git lets it.
  abbrev pub IsCleaned : Agent → String → W → W → Type 0
  IsCleaned a branch w w' =
      (w1 : W) × (w2 : W) × (w3 : W) × IsFreed a w w1
      × (git r sh a.cwd ("checkout" ∷ branch ∷ []) w1 ≡ (true, w2))
      × (git r sh a.cwd ("pull" ∷ "origin" ∷ branch ∷ []) w2 ≡ (true, w3))
      × (w' ≡ delete_branch r sh a w3)

  -- The branch is what stands behind the last slash of git's answer, without the space around it, or
  -- all of it where it has no slash; and `main` if git fails.
  abbrev pub IsDefault : Bool × String → String → Type 0
  IsDefault (false, out) branch = branch ≡ "main"
  IsDefault (true, out) branch = IsLastPart (trim_space out) branch

  -- What the handler asks git for the branch.
  abbrev pub asked : String → W → (Bool × String) × W
  asked dir = sh.combined_output dir "git" ("symbolic-ref" ∷ "refs/remotes/origin/HEAD" ∷ [])

  git_default_branch_from_dir-IsDefault :
      (dir : String) (w : W) (answer : (Bool × String) × W)
      → asked dir w ≡ answer
      → IsDefault answer.0 (git_default_branch_from_dir r sh dir w).0
        × ((git_default_branch_from_dir r sh dir w).1 ≡ answer.1)
  unfolding git_default_branch_from_dir
  git_default_branch_from_dir-IsDefault dir w ((true, out), w') h =
      rw (git_default_branch_from_dir, h) (last_part-IsLastPart (trim_space out), refl)
  git_default_branch_from_dir-IsDefault dir w ((false, out), w') h =
      rw (git_default_branch_from_dir, h) (refl, refl)

  and_then-true :
      (q : Bool × W) (k : W → Bool × W)
      → (and_then q k).0 ≡ true
      → (q ≡ (true, q.1)) × ((k q.1).0 ≡ true)
  and_then-true (true, w) k h = (refl, h)
  and_then-true (false, w) k h = absurd (true≢false (sym h))

  remove_worktree-IsFreed :
      (a : Agent) (w : W)
      → (remove_worktree r sh a w).0 ≡ true
      → IsFreed a w (remove_worktree r sh a w).1
  unfolding remove_worktree
  remove_worktree-IsFreed a w h = elim (Bool-cases (is_empty a.worktree_cwd)) [
    | inl e ↦ inl (e, rw (remove_worktree, e) refl)
    | inr e ↦
        let args : List String = "worktree" ∷ "remove" ∷ "--force" ∷ a.worktree_cwd ∷ [] in
        let prune : W → Bool × W =
          λ w1. (true, (git r sh a.cwd ("worktree" ∷ "prune" ∷ []) w1).1) in
        let same : remove_worktree r sh a w ≡ and_then (git r sh a.cwd args w) prune =
          rw (remove_worktree, e) refl in
        let (removed, _) =
          and_then-true (git r sh a.cwd args w) prune (ap (λ (q : Bool × W). q.0) (sym same) ∙ h) in
        let v = (git r sh a.cwd args w).1 in
        inr (
          v,
          removed,
          ap (λ (q : Bool × W). q.1) (same ∙ ap (λ (q : Bool × W). and_then q prune) removed),
        )
  ]

  clean_repository-IsCleaned :
      (a : Agent) (branch : String) (w : W)
      → (clean_repository r sh a branch w).0 ≡ true
      → IsCleaned a branch w (clean_repository r sh a branch w).1
  unfolding clean_repository
  clean_repository-IsCleaned a branch w h =
      let checkout : List String = "checkout" ∷ branch ∷ [] in
      let pull : List String = "pull" ∷ "origin" ∷ branch ∷ [] in
      let after_pull : W → Bool × W = λ w3. (true, delete_branch r sh a w3) in
      let after_checkout : W → Bool × W = λ w2. and_then (git r sh a.cwd pull w2) after_pull in
      let after_remove : W → Bool × W =
        λ w1. and_then (git r sh a.cwd checkout w1) after_checkout in
      let (removed, h1) = and_then-true (remove_worktree r sh a w) after_remove h in
      let w1 = (remove_worktree r sh a w).1 in
      let (checked_out, h2) = and_then-true (git r sh a.cwd checkout w1) after_checkout h1 in
      let w2 = (git r sh a.cwd checkout w1).1 in
      let (pulled, h3) = and_then-true (git r sh a.cwd pull w2) after_pull h2 in
      let w3 = (git r sh a.cwd pull w2).1 in
      let last : clean_repository r sh a branch w ≡ (true, delete_branch r sh a w3) =
        ap (λ (q : Bool × W). and_then q after_remove) removed
        ∙ ap (λ (q : Bool × W). and_then q after_checkout) checked_out
        ∙ ap (λ (q : Bool × W). and_then q after_pull) pulled in
      (
        w1,
        w2,
        w3,
        remove_worktree-IsFreed a w (ap (λ (q : Bool × W). q.0) removed),
        checked_out,
        pulled,
        ap (λ (q : Bool × W). q.1) last,
      )

  module _ (is_abs : String → Bool) (removable : String → Bool)
      (cleanup_session : String → W → W) where
    -- `handleCleanup` either answers with an error and has changed no file of an agent; or the agent's
    -- worktree is removed, unless it has none, the branch is checked out and pulled, and then the
    -- agent's file is removed. The branch is what stands behind the last slash of git's answer to
    -- `symbolic-ref`, or all of it where it has no slash, or `main` where git gives an error.
    pub handle_cleanup-IsCleaned :
        (a : Agent) (id : String) (site : Site W)
        → (((handle_cleanup r sh is_abs removable cleanup_session (some a) id site).0 ≢ ok)
            × IsUntouched site
                (handle_cleanup r sh is_abs removable cleanup_session (some a) id site).1)
          ⊎ (((handle_cleanup r sh is_abs removable cleanup_session (some a) id site).0 ≡ ok)
              × (branch : String) × (w' : W) × IsDefault (asked a.cwd site.tmux).0 branch
              × IsCleaned a branch (kill_pane r sh a (asked a.cwd site.tmux).1) w'
              × ((handle_cleanup r sh is_abs removable cleanup_session (some a) id site).1.tmux
                  ≡ cleanup_session id w')
              × ((handle_cleanup r sh is_abs removable cleanup_session (some a) id site).1.store.dir
                  ≡ remove_agent site.store.dir id))
    unfolding handle_cleanup clean_up git_default_branch_from_dir
    handle_cleanup-IsCleaned a id site = elim (Bool-cases (is_empty a.cwd || not (is_abs a.cwd))) [
      | inl e ↦ rw (handle_cleanup, e) (inl (cc, (refl, refl)))
      | inr e ↦ elim (Bool-cases (non_empty a.worktree_cwd && not (is_abs a.worktree_cwd))) [
        | inl f ↦ rw (handle_cleanup, e, f) (inl (cc, (refl, refl)))
        | inr f ↦
            let (branch, w1) = git_default_branch_from_dir r sh a.cwd site.tmux in
            elim (Bool-cases (clean_repository r sh a branch (kill_pane r sh a w1)).0) [
              | inr g ↦ rw (handle_cleanup, clean_up, e, f, g) (inl (cc, (refl, refl)))
              | inl g ↦ elim (Bool-cases (removable id)) [
                | inr k ↦ rw (handle_cleanup, clean_up, e, f, g, k) (inl (cc, (refl, refl)))
                | inl k ↦
                    let (named, same) =
                      git_default_branch_from_dir-IsDefault a.cwd site.tmux _ refl in
                    rw (handle_cleanup, clean_up, e, f, g, k)
                      (inr (
                        refl,
                        branch,
                        (clean_repository r sh a branch (kill_pane r sh a w1)).1,
                        named,
                        clean_repository-IsCleaned a branch (kill_pane r sh a w1) g,
                        refl,
                        refl,
                      ))
              ]
            ]
      ]
    ]
