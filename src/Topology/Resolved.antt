-- ===== src/Topology/Resolved.antt =====
-- internal/repo/topology.go: what `Resolve` answers, in terms of the seeds.
use agent_dashboard.Common.{
  ◌↔◌, not, ◌≡◌, ◌≢◌, ◌⊎◌, refl, sym, ◌∙◌, subst, ap, String, true, false, List, [], ◌∷◌, ◌++◌, All,
  is_empty, inl, inr, arith, Bool-cases, str_eq, str_eq_iff,
}
use agent_dashboard.Topology.{
  Topology, not_a_repo, inside_submodule, all_seeds_dead, Result, found, failed, Git, text_or_empty,
  resolve_one, resolve,
}

module _ (git : Git) (dir : String → String) where
  -- What git prints for a question about a path, without the space around it; nothing for an error.
  abbrev pub says : String → List String → String
  says seed options = text_or_empty (git seed options)

  abbrev pub worktree : String → String
  worktree seed = says seed ("--show-toplevel" ∷ [])

  abbrev pub git_dir : String → String
  git_dir seed = says seed ("--path-format=absolute" ∷ "--git-common-dir" ∷ [])

  abbrev pub superproject : String → String
  superproject seed = says seed ("--show-superproject-working-tree" ∷ [])

  -- A seed that is empty, or for which git names no worktree or no git directory.
  abbrev pub IsDead : String → Type 0
  IsDead seed =
      (is_empty seed ≡ true)
      ⊎ ((is_empty (worktree seed) ≡ true) ⊎ (is_empty (git_dir seed) ≡ true))

  -- The answer for a seed of a repository: an error inside a submodule, else the layout.
  abbrev pub Answers : String → Result → Type 0
  Answers seed answer =
      ((is_empty (superproject seed) ≡ false) × (answer ≡ failed inside_submodule))
      ⊎ ((is_empty (superproject seed) ≡ true)
          × ((top : Topology) × (answer ≡ found top)
              × (top.worktree ≡ worktree seed)
              × (top.source ≡ dir (git_dir seed))
              × ((top.linked ≡ false) ↔ (worktree seed ≡ dir (git_dir seed)))))

  -- The seeds before one are dead, and it is not.
  pub record IsFirst (seeds : List String) (answer : Result) : Type 0 where
    pub before : List String
    pub seed : String
    pub after : List String
    pub splits : seeds ≡ before ++ seed ∷ after
    pub dead : All IsDead before
    pub named : is_empty seed ≡ false
    pub in_worktree : is_empty (worktree seed) ≡ false
    pub has_git_dir : is_empty (git_dir seed) ≡ false
    pub answers : Answers seed answer

  resolve_one-dead :
      (seed : String)
      → (is_empty (worktree seed) ≡ true) ⊎ (is_empty (git_dir seed) ≡ true)
      → resolve_one git dir seed ≡ failed not_a_repo
  unfolding resolve_one
  resolve_one-dead seed (inl h) = ground (arith, h)
  resolve_one-dead seed (inr h) = ground (arith, h)

  layout : String → Topology
  layout seed = record {
    worktree = worktree seed;
    source = dir (git_dir seed);
    linked = not (str_eq (worktree seed) (dir (git_dir seed)));
  }

  resolve_one-submodule :
      (seed : String)
      → is_empty (worktree seed) ≡ false
      → is_empty (git_dir seed) ≡ false
      → is_empty (superproject seed) ≡ false
      → resolve_one git dir seed ≡ failed inside_submodule
  unfolding resolve_one
  resolve_one-submodule seed n m h = ground (arith, n, m, h)

  resolve_one-found :
      (seed : String)
      → is_empty (worktree seed) ≡ false
      → is_empty (git_dir seed) ≡ false
      → is_empty (superproject seed) ≡ true
      → resolve_one git dir seed ≡ found (layout seed)
  unfolding resolve_one layout
  resolve_one-found seed n m h = rw (n, m, h) refl

  linked_iff :
      (seed : String) → ((layout seed).linked ≡ false) ↔ (worktree seed ≡ dir (git_dir seed))
  unfolding layout
  linked_iff seed = (
    λ h. (str_eq_iff (worktree seed) (dir (git_dir seed))).0 (ground arith),
    λ h. rw ((str_eq_iff (worktree seed) (dir (git_dir seed))).1 h) refl,
  )

  resolve-dead :
      (seed : String) (seeds : List String)
      → IsDead seed
      → resolve git dir (seed ∷ seeds) ≡ resolve git dir seeds
  unfolding resolve
  resolve-dead seed seeds (inl empty) = ground arith
  resolve-dead seed seeds (inr outside) = ground (arith, resolve_one-dead seed outside)

  resolve-head :
      (seed : String) (seeds : List String) (answer : Result)
      → is_empty seed ≡ false
      → resolve_one git dir seed ≡ answer
      → answer ≢ failed not_a_repo
      → answer ≢ failed all_seeds_dead
      → resolve git dir (seed ∷ seeds) ≡ answer
  unfolding resolve
  resolve-head seed seeds (found top) n r a d = ground (arith, n, r)
  resolve-head seed seeds (failed not_a_repo) n r a d = absurd (a refl)
  resolve-head seed seeds (failed inside_submodule) n r a d = ground (arith, n, r)
  resolve-head seed seeds (failed all_seeds_dead) n r a d = absurd (d refl)

  cons-IsFirst :
      (seed : String) (seeds : List String) (answer : Result)
      → IsDead seed
      → IsFirst seeds answer
      → IsFirst (seed ∷ seeds) answer
  cons-IsFirst seed seeds answer d f = record {
    before = seed ∷ f.before;
    seed = f.seed;
    after = f.after;
    splits = ap (λ l. seed ∷ l) f.splits;
    dead = (d, f.dead);
    named = f.named;
    in_worktree = f.in_worktree;
    has_git_dir = f.has_git_dir;
    answers = f.answers;
  }

  head-Answers :
      (seed : String) (seeds : List String)
      → is_empty seed ≡ false
      → is_empty (worktree seed) ≡ false
      → is_empty (git_dir seed) ≡ false
      → Answers seed (resolve git dir (seed ∷ seeds))
  head-Answers seed seeds n m g = elim (Bool-cases (is_empty (superproject seed))) [
    | inr h ↦ inl (
      h,
      resolve-head seed seeds (failed inside_submodule) n (resolve_one-submodule seed m g h)
          (λ e. ground arith) (λ e. ground arith),
    )
    | inl h ↦ inr (
      h,
      (
        layout seed,
        resolve-head seed seeds (found (layout seed)) n (resolve_one-found seed m g h)
            (λ e. ground arith) (λ e. ground arith),
        unfold layout in refl,
        unfold layout in refl,
        linked_iff seed,
      ),
    )
  ]

  -- What `Resolve` answers on seeds.
  abbrev IsAnswered : List String → Type 0
  IsAnswered seeds =
      All IsDead seeds × (resolve git dir seeds ≡ failed all_seeds_dead)
      ⊎ IsFirst seeds (resolve git dir seeds)

  dead-IsAnswered :
      (seed : String) (seeds : List String)
      → IsDead seed
      → IsAnswered seeds
      → IsAnswered (seed ∷ seeds)
  dead-IsAnswered seed seeds d (inl (ds, e)) = inl ((d, ds), resolve-dead seed seeds d ∙ e)
  dead-IsAnswered seed seeds d (inr f) = inr (
      subst (IsFirst (seed ∷ seeds)) (sym (resolve-dead seed seeds d))
        (cons-IsFirst seed seeds (resolve git dir seeds) d f))

  -- Whatever git answers: either for every seed, unless it is empty, git names no worktree or no git
  -- directory, and `Resolve` says that all are dead; or its answer is for the first other seed: the
  -- error for a submodule exactly if git names a superproject, else the worktree, the folder of the
  -- git directory as its source, and that it is linked exactly if the two differ.
  pub resolve-IsFirst :
      (seeds : List String)
      → All IsDead seeds × (resolve git dir seeds ≡ failed all_seeds_dead)
        ⊎ IsFirst seeds (resolve git dir seeds)
  unfolding resolve
  resolve-IsFirst [] = inl (tt, refl)
  resolve-IsFirst (seed ∷ seeds) = elim (Bool-cases (is_empty seed)) [
    | inl h ↦ dead-IsAnswered seed seeds (inl h) (resolve-IsFirst seeds)
    | inr h ↦ elim (Bool-cases (is_empty (worktree seed))) [
      | inl m ↦ dead-IsAnswered seed seeds (inr (inl m)) (resolve-IsFirst seeds)
      | inr m ↦ elim (Bool-cases (is_empty (git_dir seed))) [
        | inl g ↦ dead-IsAnswered seed seeds (inr (inr g)) (resolve-IsFirst seeds)
        | inr g ↦ inr (record {
          before = [];
          seed = seed;
          after = seeds;
          splits = refl;
          dead = tt;
          named = h;
          in_worktree = m;
          has_git_dir = g;
          answers = head-Answers seed seeds h m g;
        })
      ]
    ]
  ]
