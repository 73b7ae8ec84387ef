-- ===== src/State/Prune.antt =====
-- internal/state/state.go: `PruneDead`, the collector of agent files whose panes are gone.
-- Parameters: `exists` and `parse_time` as in Orphan; `removable` says for which file `os.Remove`
-- succeeds; `is_branch_merged` is the caller's check, `none` for nil. The path of a file is
-- represented by its name in the directory.
pub mod Newest
pub mod Safety
pub mod Removal
pub mod Kept
use agent_dashboard.Common.{
  ℕ, suc, ◌+◌, String, Bool, true, false, not, ◌&&◌, ◌||◌, Option, none, some, List, [], ◌∷◌, ◌++◌,
  length, is_empty, non_empty, ltb, ◌==◌, if◌then◌else◌,
}
use agent_dashboard.Common.Dict.{lookup, insert}
use agent_dashboard.Domain.{Agent, effective_dir}
use agent_dashboard.State.Disk.{DirEntry, Directory, read_entry, remove_file}
use agent_dashboard.State.Orphan.{PaneSet, is_live, is_resumable_orphan}

pub record AgentFile : Type 0 where
  pub path : String
  pub agent : Agent
  pub updated_at : ℕ

-- `newestPerPane`; a missing pane reads as the zero time.
abbrev pub Newest : Type 0
Newest = List (String × ℕ)

unfoldable pub newest_of : Newest → String → ℕ
newest_of m pane_id = elim (lookup pane_id m) [ none ↦ 0 | some t ↦ t ]

-- Paths to remove: duplicates on one pane, and agents of dead panes.
pub record Buckets : Type 0 where
  pub dedup : List String
  pub dead : List String

abbrev pub Merged : Type 0
Merged = Option (String → String → Bool)

unfoldable pub shipped : Merged → Agent → Bool
unfolding effective_dir
shipped none a = false
shipped (some merged) a = merged (effective_dir a) a.branch

unfoldable pub newest_step : Newest → AgentFile → Newest
unfolding newest_of insert
newest_step m f =
    if non_empty f.agent.tmux_pane_id && ltb (newest_of m f.agent.tmux_pane_id) f.updated_at
    then insert f.agent.tmux_pane_id f.updated_at m
    else m

unfoldable pub newest_per_pane : Newest → List AgentFile → Newest
unfolding newest_step
newest_per_pane m [] = m
newest_per_pane m (f ∷ files) = newest_per_pane (newest_step m f) files

-- `f.updatedAt.Before(newestPerPane[…])`
unfoldable pub is_duplicate : Newest → AgentFile → Bool
unfolding newest_of
is_duplicate m f =
    non_empty f.agent.tmux_pane_id && ltb f.updated_at (newest_of m f.agent.tmux_pane_id)

module _ (parse_time : String → Option ℕ) where
  unfoldable pub time_of : Agent → ℕ
  time_of a =
      if is_empty a.updated_at then 0 else elim (parse_time a.updated_at) [ none ↦ 0 | some t ↦ t ]

  -- The two results of the first loop: the readable agent files, and the newest time on each pane.
  unfoldable pub agent_files : Directory → List AgentFile
  unfolding time_of
  agent_files [] = []
  agent_files (e ∷ d) =
      let rest = agent_files d in
      elim (read_entry e) [
        | none ↦ rest
        | some a ↦ record { path = e.name; agent = a; updated_at = time_of a } ∷ rest
      ]

module _ (exists : String → Bool) (parse_time : String → Option ℕ) (live_panes : PaneSet)
    (server_pid : String) (merged : Merged) (now : ℕ) where
  unfoldable pub is_retained : Agent → Bool
  unfolding shipped
  is_retained a =
      is_resumable_orphan exists parse_time a live_panes server_pid now && not (shipped merged a)

  unfoldable pub on_dead_pane : AgentFile → Bool
  on_dead_pane f = is_empty f.agent.tmux_pane_id || not (is_live live_panes f.agent.tmux_pane_id)

  -- The second loop.
  unfoldable pub classify : Newest → List AgentFile → Buckets
  unfolding is_retained is_duplicate on_dead_pane
  classify m [] = record { dedup = []; dead = [] }
  classify m (f ∷ files) =
      let rest = classify m files in
      if is_duplicate m f
      then record rest { dedup = f.path ∷ rest.dedup }
      else if on_dead_pane f
      then if is_retained f.agent then rest else record rest { dead = f.path ∷ rest.dead }
      else rest

-- `os.Remove` of each path in turn: the directory left, and how many calls succeeded.
unfoldable pub remove_all : (String → Bool) → List String → Directory → Directory × ℕ
unfolding remove_file
remove_all removable [] d = (d, 0)
remove_all removable (p ∷ ps) d =
    if removable p
    then (let (d', n) = remove_all removable ps (remove_file p d) in (d', suc n))
    else remove_all removable ps d

-- The safety net.
unfoldable pub apply_dead : List AgentFile → Buckets → Bool
apply_dead files b = not (
    (length b.dead + length b.dedup == length files)
    && ltb 0 (length files)
    && ltb 0 (length b.dead))

-- The removals: duplicates always, dead panes if the safety net allows it.
unfoldable pub remove_buckets :
    (String → Bool) → List AgentFile → Buckets → Directory → Directory × ℕ
unfolding apply_dead remove_all
remove_buckets removable files b d =
    let (d', n) = remove_all removable b.dedup d in
    if apply_dead files b
    then (let (d'', n') = remove_all removable b.dead d' in (d'', n + n'))
    else (d', n)

unfoldable pub prune_dead :
    (String → Bool)
    → (String → Option ℕ)
    → (String → Bool)
    → PaneSet
    → String
    → Merged
    → ℕ
    → Directory
    → Directory × ℕ
unfolding agent_files newest_per_pane classify remove_buckets
prune_dead exists parse_time removable live_panes server_pid merged now d =
    let files = agent_files parse_time d in
    let newest = newest_per_pane [] files in
    remove_buckets removable files
      (classify exists parse_time live_panes server_pid merged now newest files) d
