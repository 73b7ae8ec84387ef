-- ===== src/State/Markers.antt =====
-- internal/state/state.go: `claimMarker`, `pinAgentToWorktree` and `ResolveAgentWorktree`.
-- A marker is the file `agent-dashboard-session` in the git directory of a worktree, and holds the
-- session that owns the worktree. Parameters: `list_worktrees` is `git.ListWorktrees`, `none` for an
-- error; `resolve_path` is the symlink-resolved form of a path that is not empty; `is_linked` is
-- `isLinkedWorktree`; `can_create` and `can_write` say whether a marker that is not there can be
-- created and then written. Reading a marker that is there does not fail.
pub mod Owners
use agent_dashboard.Common.{
  String, Bool, true, false, not, ◌&&◌, ◌||◌, Option, none, some, List, [], ◌∷◌, str_eq, is_empty,
  non_empty, if◌then◌else◌,
}
use agent_dashboard.Common.Dict.{lookup, insert}
use agent_dashboard.Common.Text.{trim_space}
use agent_dashboard.Domain.{Agent, StateFile}
use agent_dashboard.State.Disk.{text, Fields, Directory, stamp_agent_fields}

-- internal/git/worktree.go: `Worktree`.
pub record Worktree : Type 0 where
  pub path : String
  pub branch : String
  pub git_dir : String

-- The text of the marker in each git directory that has one.
abbrev pub Markers : Type 0
Markers = List (String × String)

pub record World : Type 0 where
  pub list_worktrees : String → Option (List Worktree)
  pub resolve_path : String → String
  pub is_linked : String → Bool
  pub can_create : String → Bool
  pub can_write : String → Bool

unfoldable pub canonical_path : World → String → String
canonical_path w p = if is_empty p then "" else w.resolve_path p

-- The session that a marker names.
unfoldable pub owner : Markers → String → Option String
unfolding lookup trim_space
owner m git_dir = elim (lookup git_dir m) [ none ↦ none | some body ↦ some (trim_space body) ]

unfoldable pub claim_marker : World → String → String → Markers → Markers × Bool
unfolding lookup insert trim_space
claim_marker w git_dir session_id m = elim (lookup git_dir m) [
  | none ↦
      if not (w.can_create git_dir)
      then (m, false)
      else if w.can_write git_dir
      then (insert git_dir session_id m, true)
      else (m, false)
  | some body ↦ (m, str_eq (trim_space body) session_id)
]

-- What the pins write to: the agents' files and the markers.
pub record Store : Type 0 where
  pub dir : Directory
  pub markers : Markers

unfoldable pub pin_updates : Worktree → Fields
pin_updates wt =
    if non_empty wt.branch
    then ("worktree_cwd", text wt.path) ∷ ("branch", text wt.branch) ∷ []
    else ("worktree_cwd", text wt.path) ∷ []

unfoldable pub pin_agent_to_worktree : Agent → Worktree → Store → Agent × Store
unfolding pin_updates
pin_agent_to_worktree a wt s = (
  record a { worktree_cwd = wt.path; branch = wt.branch },
  record s { dir = (stamp_agent_fields a.session_id (pin_updates wt) s.dir).0 },
)

-- The first scan: the worktree whose marker names the session.
unfoldable pub find_marked : Markers → String → List Worktree → Option Worktree
find_marked m session_id [] = none
find_marked m session_id (wt ∷ wts) =
    let rest = find_marked m session_id wts in
    if is_empty wt.git_dir then rest else elim (owner m wt.git_dir) [
      | none ↦ rest
      | some sid ↦ if str_eq sid session_id then some wt else rest
    ]

-- The second scan stops at the first worktree with a git directory whose path is the agent's.
unfoldable pub find_at : World → String → List Worktree → Option Worktree
unfolding canonical_path
find_at w norm_cwd [] = none
find_at w norm_cwd (wt ∷ wts) =
    let rest = find_at w norm_cwd wts in
    if is_empty wt.git_dir || not (str_eq (canonical_path w wt.path) norm_cwd)
    then rest
    else some wt

unfoldable pub claim_at : World → Agent → Option Worktree → Store → Agent × Store
unfolding pin_agent_to_worktree
claim_at w a none s = (a, s)
claim_at w a (some wt) s =
    if not (w.is_linked wt.path)
    then (a, s)
    else (let (m, won) = claim_marker w wt.git_dir a.session_id s.markers in
        let s' = record s { markers = m } in if won then pin_agent_to_worktree a wt s' else (a, s'))

unfoldable pub resolve_in : World → Agent → List Worktree → Store → Agent × Store
unfolding pin_agent_to_worktree
resolve_in w a wts s = elim (find_marked s.markers a.session_id wts) [
  | some wt ↦ pin_agent_to_worktree a wt s
  | none ↦
      let norm_cwd = canonical_path w a.cwd in
      if is_empty norm_cwd then (a, s) else claim_at w a (find_at w norm_cwd wts) s
]

-- The body of the loop.
unfoldable pub resolve_worktree : World → Agent → Store → Agent × Store
resolve_worktree w a s =
    if non_empty a.worktree_cwd || is_empty a.session_id || is_empty a.cwd
    then (a, s)
    else elim (w.list_worktrees a.cwd) [ none ↦ (a, s) | some wts ↦ resolve_in w a wts s ]

unfoldable pub resolve_agent_worktree : World → StateFile → Store → StateFile × Store
resolve_agent_worktree w [] s = ([], s)
resolve_agent_worktree w ((k, a) ∷ sf) s =
    let (a', s') = resolve_worktree w a s in
    let (sf', s'') = resolve_agent_worktree w sf s' in ((k, a') ∷ sf', s'')
