-- ===== src/State/Markers/Owners.antt =====
-- Who owns a worktree: claims are exclusive, and a pin found by git carries its owner's marker.
use agent_dashboard.Common.{
  is_empty, non_empty, ◌||◌, not, str_eq, String, ◌≡◌, refl, ◌⊎◌, inl, inr, true, Option, none,
  some, List, [], ◌∷◌, All, str_eq_iff, str_eq_refl, arith, Bool-cases, Option-cases,
}
use agent_dashboard.Common.Dict.{lookup, lookup-insert}
use agent_dashboard.Common.Text.{trim_space}
use agent_dashboard.Domain.{Agent, StateFile}
use agent_dashboard.State.Markers.{
  Worktree, Markers, World, canonical_path, owner, claim_marker, Store, find_marked, find_at,
  claim_at, resolve_in, resolve_worktree, resolve_agent_worktree,
}

-- Every marker of `m` stands unchanged in `n`.
abbrev pub Extends : Markers → Markers → Type 0
Extends m n = (git_dir body : String) → lookup git_dir m ≡ some body → lookup git_dir n ≡ some body

claim_marker-Extends :
    (w : World) (git_dir session_id : String) (m : Markers)
    → Extends m (claim_marker w git_dir session_id m).0
unfolding claim_marker
claim_marker-Extends w git_dir session_id m other body h =
    ground (arith, lookup-insert git_dir other session_id m, str_eq_iff git_dir other)

claim_marker-owner :
    (w : World) (git_dir session_id : String) (m : Markers)
    → trim_space session_id ≡ session_id
    → (claim_marker w git_dir session_id m).1 ≡ true
    → owner (claim_marker w git_dir session_id m).0 git_dir ≡ some session_id
unfolding claim_marker owner
claim_marker-owner w git_dir session_id m t h = elim (Option-cases (lookup git_dir m)) [
  | inl missing ↦ ground (arith, lookup-insert git_dir git_dir session_id m, str_eq_refl git_dir)
  | inr (body, found) ↦ ground (arith, str_eq_iff (trim_space body) session_id)
]

owner-Extends :
    (m n : Markers) (git_dir session_id : String)
    → Extends m n
    → owner m git_dir ≡ some session_id
    → owner n git_dir ≡ some session_id
unfolding owner
owner-Extends m n git_dir session_id e h = elim (Option-cases (lookup git_dir m)) [
  | inl missing ↦ ground arith
  | inr (body, found) ↦ ground (arith, e git_dir body found)
]

claim_of_owned :
    (w : World) (git_dir first second : String) (n : Markers)
    → owner n git_dir ≡ some first
    → (claim_marker w git_dir second n).1 ≡ true
    → second ≡ first
unfolding claim_marker owner
claim_of_owned w git_dir first second n o h = elim (Option-cases (lookup git_dir n)) [
  | inl missing ↦ ground arith
  | inr (body, found) ↦ ground (arith, str_eq_iff (trim_space body) second)
]

-- First claim wins: once a session's claim of a git directory has succeeded, and however many
-- markers have been added since, a claim of it by a session succeeds only for that same session,
-- and no claim ever changes a marker that is there. Session ids have no space around them.
pub claim_marker_exclusive :
    (w w' : World) (git_dir first second : String) (m n : Markers)
    → trim_space first ≡ first
    → (claim_marker w git_dir first m).1 ≡ true
    → Extends (claim_marker w git_dir first m).0 n
    → Extends n (claim_marker w' git_dir second n).0
      × ((claim_marker w' git_dir second n).1 ≡ true → second ≡ first)
claim_marker_exclusive w w' git_dir first second m n t h e = (
  claim_marker-Extends w' git_dir second n,
  claim_of_owned w' git_dir first second n
      (owner-Extends _ n git_dir first e (claim_marker-owner w git_dir first m t h)),
)

abbrev pub Listed : Worktree → List Worktree → Type 0
Listed wt [] = ⊥
Listed wt (x ∷ wts) = (x ≡ wt) ⊎ Listed wt wts

-- `a'` is `a` put on the worktree `wt`, which git lists for the agent's folder and whose marker names
-- the agent's session.
pub record IsOwned (w : World) (m : Markers) (a a' : Agent) : Type 0 where
  pub wt : Worktree
  pub wts : List Worktree
  pub git_lists : w.list_worktrees a.cwd ≡ some wts
  pub listed : Listed wt wts
  pub moved : a' ≡ record a { worktree_cwd = wt.path; branch = wt.branch }
  pub owned : owner m wt.git_dir ≡ some a.session_id

IsOwned-Extends :
    (w : World) (m n : Markers) (a a' : Agent) → Extends m n → IsOwned w m a a' → IsOwned w n a a'
IsOwned-Extends w m n a a' e o = record {
  wt = o.wt;
  wts = o.wts;
  git_lists = o.git_lists;
  listed = o.listed;
  moved = o.moved;
  owned = owner-Extends m n o.wt.git_dir a.session_id e o.owned;
}

find_marked-owner :
    (m : Markers) (session_id : String) (wts : List Worktree) (wt : Worktree)
    → find_marked m session_id wts ≡ some wt
    → owner m wt.git_dir ≡ some session_id
unfolding find_marked
find_marked-owner m session_id [] wt h = cc
find_marked-owner m session_id (x ∷ wts) wt h = elim (Option-cases (owner m x.git_dir)) [
  | inl missing ↦ ground (arith, find_marked-owner m session_id wts wt)
  | inr (sid, found) ↦
      ground (arith, find_marked-owner m session_id wts wt, str_eq_iff sid session_id)
]

find_marked-Listed :
    (m : Markers) (session_id : String) (wts : List Worktree) (wt : Worktree)
    → find_marked m session_id wts ≡ some wt
    → Listed wt wts
unfolding find_marked
find_marked-Listed m session_id [] wt h = absurd (ground arith)
find_marked-Listed m session_id (x ∷ wts) wt h = elim (Bool-cases (is_empty x.git_dir)) [
  | inl e ↦ inr (find_marked-Listed m session_id wts wt (ground arith))
  | inr e ↦ elim (Option-cases (owner m x.git_dir)) [
    | inl missing ↦ inr (find_marked-Listed m session_id wts wt (ground arith))
    | inr (sid, found) ↦ elim (Bool-cases (str_eq sid session_id)) [
      | inl same ↦ inl (ground arith)
      | inr other ↦ inr (find_marked-Listed m session_id wts wt (ground arith))
    ]
  ]
]

find_at-Listed :
    (w : World) (norm_cwd : String) (wts : List Worktree) (wt : Worktree)
    → find_at w norm_cwd wts ≡ some wt
    → Listed wt wts
unfolding find_at
find_at-Listed w norm_cwd [] wt h = absurd (ground arith)
find_at-Listed w norm_cwd (x ∷ wts) wt h =
    elim (Bool-cases (is_empty x.git_dir || not (str_eq (canonical_path w x.path) norm_cwd))) [
      | inl other ↦ inr (find_at-Listed w norm_cwd wts wt (ground arith))
      | inr here ↦ inl (ground arith)
    ]

-- What one step leaves: every marker stands, and the agent is as it was or owns its worktree.
abbrev Step : World → Agent → Store → Agent × Store → Type 0
Step w a s r = Extends s.markers r.1.markers × ((r.0 ≡ a) ⊎ IsOwned w r.1.markers a r.0)

claim_at-Step :
    (w : World) (a : Agent) (wts : List Worktree) (found : Option Worktree) (s : Store)
    → w.list_worktrees a.cwd ≡ some wts
    → ((wt : Worktree) → found ≡ some wt → Listed wt wts)
    → trim_space a.session_id ≡ a.session_id
    → Step w a s (claim_at w a found s)
unfolding claim_at
claim_at-Step w a wts none s g l t = (λ d b h. h, inl refl)
claim_at-Step w a wts (some wt) s g l t = elim (Bool-cases (w.is_linked wt.path)) [
  | inr main ↦ rw main (λ d b h. h, inl refl)
  | inl linked ↦ elim (Bool-cases (claim_marker w wt.git_dir a.session_id s.markers).1) [
    | inl won ↦
        rw (linked, won)
          (
            claim_marker-Extends w wt.git_dir a.session_id s.markers,
            inr (record {
              wt = wt;
              wts = wts;
              git_lists = g;
              listed = l wt refl;
              moved = refl;
              owned = claim_marker-owner w wt.git_dir a.session_id s.markers t won;
            }),
          )
    | inr lost ↦
        rw (linked, lost) (claim_marker-Extends w wt.git_dir a.session_id s.markers, inl refl)
  ]
]

resolve_in-Step :
    (w : World) (a : Agent) (wts : List Worktree) (s : Store)
    → w.list_worktrees a.cwd ≡ some wts
    → trim_space a.session_id ≡ a.session_id
    → Step w a s (resolve_in w a wts s)
unfolding resolve_in
resolve_in-Step w a wts s g t = elim (Option-cases (find_marked s.markers a.session_id wts)) [
  | inr (wt, found) ↦
      rw (found, resolve_in)
        (
          λ d b h. h,
          inr (record {
            wt = wt;
            wts = wts;
            git_lists = g;
            listed = find_marked-Listed s.markers a.session_id wts wt found;
            moved = refl;
            owned = find_marked-owner s.markers a.session_id wts wt found;
          }),
        )
  | inl none_marked ↦
      let norm_cwd = canonical_path w a.cwd in
      elim (Bool-cases (is_empty norm_cwd)) [
        | inl nowhere ↦ rw (none_marked, resolve_in, nowhere) (λ d b h. h, inl refl)
        | inr somewhere ↦
            rw (none_marked, resolve_in, somewhere)
              (claim_at-Step w a wts (find_at w norm_cwd wts) s g (find_at-Listed w norm_cwd wts) t)
      ]
]

resolve_worktree-Step :
    (w : World) (a : Agent) (s : Store)
    → trim_space a.session_id ≡ a.session_id
    → Step w a s (resolve_worktree w a s)
unfolding resolve_worktree
resolve_worktree-Step w a s t =
    elim (Bool-cases (non_empty a.worktree_cwd || is_empty a.session_id || is_empty a.cwd)) [
      | inl skipped ↦ rw skipped (λ d b h. h, inl refl)
      | inr open_case ↦ elim (Option-cases (w.list_worktrees a.cwd)) [
        | inl failed ↦ rw (open_case, failed) (λ d b h. h, inl refl)
        | inr (wts, found) ↦ rw (open_case, found) (resolve_in-Step w a wts s found t)
      ]
    ]

-- Two state files with the same keys, agent by agent: unchanged, or on a worktree that the agent's
-- session owns.
abbrev pub Resolved : World → Markers → StateFile → StateFile → Type 0
Resolved w m [] [] = Unit
Resolved w m ((k, a) ∷ sf) ((k', a') ∷ sf') =
    (k' ≡ k) × ((a' ≡ a) ⊎ IsOwned w m a a') × Resolved w m sf sf'
Resolved w m _ _ = ⊥

abbrev pub TrimmedSessions : StateFile → Type 0
TrimmedSessions = All (λ (e : String × Agent). trim_space e.1.session_id ≡ e.1.session_id)

-- After one pass over the agents every agent is unchanged, or is put on the path and the branch of
-- a worktree that git lists for its folder and whose marker, in the markers as they stand at the end,
-- names that agent's session; and every marker from before the pass stands unchanged. Session ids
-- have no space around them.
pub resolve_agent_worktree-Resolved :
    (w : World) (sf : StateFile) (s : Store)
    → TrimmedSessions sf
    → let (sf', s') = resolve_agent_worktree w sf s in
      Extends s.markers s'.markers × Resolved w s'.markers sf sf'
unfolding resolve_agent_worktree
resolve_agent_worktree-Resolved w [] s t = (λ d b h. h, tt)
resolve_agent_worktree-Resolved w ((k, a) ∷ sf) s t =
    let (a', s') = resolve_worktree w a s in
    let (kept, here) = resolve_worktree-Step w a s t.0 in
    let (kept', rest) = resolve_agent_worktree-Resolved w sf s' t.1 in
    (λ g b h. kept' g b (kept g b h), (refl, later here kept', rest))
  where
    later :
        {n : Markers} {a' : Agent}
        → (a' ≡ a) ⊎ IsOwned w n a a'
        → Extends n (resolve_agent_worktree w ((k, a) ∷ sf) s).1.markers
        → (a' ≡ a) ⊎ IsOwned w (resolve_agent_worktree w ((k, a) ∷ sf) s).1.markers a a'
    later (inl same) e = inl same
    later (inr o) e = inr (IsOwned-Extends w _ _ a _ e o)
