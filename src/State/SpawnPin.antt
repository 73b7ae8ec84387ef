-- ===== src/State/SpawnPin.antt =====
-- internal/state/spawnpin.go: the records that hand a fresh pane's worktree over to its agent.
-- The staging folder is a map from file names to files. Parameters: `pointer` is the text of the
-- regular file `.git` of a path, `none` where there is none; `parse_time` as in Orphan; `removable`
-- says for which file `os.Remove` succeeds. Writing a staging file does not fail.
pub mod Handoff
pub mod Reaping
pub mod Names
pub mod Collection
mod Examples
use Prim.Native.Char.{Char, code}
use Prim.Native.String.{◌++◌}
use agent_dashboard.Common.{
  ℕ, suc, ◌-◌, String, Bool, true, false, not, ◌&&◌, ◌||◌, Option, none, some, List, [], ◌∷◌,
  str_eq, is_empty, non_empty, ltb, ◌==◌, if◌then◌else◌,
}
use agent_dashboard.Common.Dict.{lookup, insert, erase}
use agent_dashboard.Common.Text.{trim_space, has_suffix, cut_prefix}
use agent_dashboard.Domain.{Agent, StateFile}
use agent_dashboard.State.Disk.{Directory, read_file}
use agent_dashboard.State.Markers.{
  Worktree, World, Store, Markers, canonical_path, pin_agent_to_worktree,
}

pub record SpawnPin : Type 0 where
  pub pane_id : String
  pub target : String
  pub worktree_cwd : String
  pub branch : String
  pub created_at : String

-- What a staging file holds; a folder is unreadable.
pub data Staged : Type 0 where
  pin : SpawnPin → Staged
  malformed : Staged
  unreadable : Staged

abbrev pub Staging : Type 0
Staging = List (String × Staged)

-- `strings.ReplaceAll(paneID, "%", "_")`
abbrev pub escape_char : Char → Char
escape_char c = if code c == 37 then "_" else c

unfoldable pub escape : String → String
escape String.[] = ""
escape (String.◌∷◌ c s) = String.◌∷◌ (escape_char c) (escape s)

unfoldable pub spawn_pin_filename : String → String
unfolding escape
spawn_pin_filename pane_id = escape pane_id ++ ".json"

unfoldable pub write_spawn_pin : SpawnPin → Staging → Staging
write_spawn_pin p st =
    if is_empty p.pane_id then st else insert (spawn_pin_filename p.pane_id) (pin p) st

-- The pin of a staging file, if it is one.
abbrev pub pin_of : Option Staged → Option SpawnPin
pin_of none = none
pin_of (some (pin p)) = some p
pin_of (some malformed) = none
pin_of (some unreadable) = none

-- `none` is the result `false`.
unfoldable pub read_spawn_pin : Staging → String → Option SpawnPin
read_spawn_pin st pane_id =
    if is_empty pane_id then none else pin_of (lookup (spawn_pin_filename pane_id) st)

unfoldable pub delete_spawn_pin : Staging → String → Staging
delete_spawn_pin st pane_id = if is_empty pane_id then st else erase (spawn_pin_filename pane_id) st

-- The body of the loop of `ApplySpawnPins`.
unfoldable pub apply_spawn_pin : Agent → Store → Staging → Agent × (Store × Staging)
apply_spawn_pin a s st =
    if is_empty a.tmux_pane_id then (a, (s, st)) else elim (read_spawn_pin st a.tmux_pane_id) [
      | none ↦ (a, (s, st))
      | some p ↦
          if non_empty a.worktree_cwd || is_empty p.worktree_cwd
          then (a, (s, delete_spawn_pin st a.tmux_pane_id))
          else (let wt : Worktree = record {
            path = p.worktree_cwd;
            branch = p.branch;
            git_dir = "";
          } in
              let (a', s') = pin_agent_to_worktree a wt s in
              (a', (s', delete_spawn_pin st a.tmux_pane_id)))
    ]

unfoldable pub apply_spawn_pins : StateFile → Store → Staging → StateFile × (Store × Staging)
apply_spawn_pins [] s st = ([], (s, st))
apply_spawn_pins ((k, a) ∷ sf) s st =
    let (a', (s', st')) = apply_spawn_pin a s st in
    let (sf', rest) = apply_spawn_pins sf s' st' in ((k, a') ∷ sf', rest)

-- The git directory that the pointer file of a linked worktree names.
unfoldable pub pointed_dir : Option String → Option String
unfolding cut_prefix
pointed_dir none = none
pointed_dir (some body) = elim (cut_prefix "gitdir:" (trim_space body)) [
  | none ↦ none
  | some rest ↦ some (trim_space rest)
]

-- `os.Stat` of a session's state file: any entry of that name.
unfoldable pub has_state_file : Directory → String → Bool
has_state_file [] session_id = false
has_state_file (e ∷ d) session_id =
    let rest = has_state_file d session_id in
    if str_eq e.name (session_id ++ ".json") then true else rest

unfoldable pub reap_stale_marker : (String → Option String) → String → Store → Store
unfolding pointed_dir
reap_stale_marker pointer worktree_path s =
    if is_empty worktree_path then s else elim (pointed_dir (pointer worktree_path)) [
      | none ↦ s
      | some git_dir ↦ elim (lookup git_dir s.markers) [
        | none ↦ s
        | some body ↦
            if is_empty (trim_space body)
            then s
            else if has_state_file s.dir (trim_space body)
            then s
            else record s { markers = erase git_dir s.markers }
      ]
    ]

-- The worktree at a folder, as `StageSpawnPin` looks it up.
unfoldable pub worktree_at : World → String → List Worktree → Option Worktree
unfolding canonical_path
worktree_at w want [] = none
worktree_at w want (wt ∷ wts) =
    let rest = worktree_at w want wts in
    if str_eq (canonical_path w wt.path) want then some wt else rest

-- The record that is staged; `created_at` is the formatted clock.
unfoldable pub staged_pin : World → String → String → String → String → SpawnPin
unfolding canonical_path
staged_pin w abs_folder pane_id target created_at =
    let bare : SpawnPin = record {
      pane_id = pane_id;
      target = target;
      worktree_cwd = "";
      branch = "";
      created_at = created_at;
    } in
    elim (w.list_worktrees abs_folder) [
      | none ↦ bare
      | some wts ↦ elim (worktree_at w (canonical_path w abs_folder) wts) [
        | none ↦ bare
        | some wt ↦ record bare { worktree_cwd = wt.path; branch = wt.branch }
      ]
    ]

unfoldable pub stage_spawn_pin :
    World
    → (String → Option String)
    → String
    → String
    → String
    → String
    → Store
    → Staging
    → Store × Staging
stage_spawn_pin w pointer abs_folder pane_id target created_at s st =
    if is_empty pane_id
    then (s, st)
    else (let p = staged_pin w abs_folder pane_id target created_at in
        let s' =
          if non_empty p.worktree_cwd then reap_stale_marker pointer p.worktree_cwd s else s in
        (s', write_spawn_pin p st))

module _ (parse_time : String → Option ℕ) (removable : String → Bool) (now older_than : ℕ) where
  -- The test `stale` of `GCSpawnPins` on a file that can be read.
  unfoldable pub is_expired : Staged → Bool
  is_expired unreadable = false
  is_expired malformed = true
  is_expired (pin p) = elim (parse_time p.created_at) [
    | none ↦ true
    | some t ↦ ltb t (now - older_than)
  ]

  unfoldable pub gc_loop : Staging → Staging → Staging × ℕ
  unfolding is_expired
  gc_loop [] st = (st, 0)
  gc_loop ((name, f) ∷ fs) st =
      let gone = has_suffix name ".json" && is_expired f && removable name in
      let (st', n) = gc_loop fs (if gone then erase name st else st) in
      (st', if gone then suc n else n)

  unfoldable pub gc_spawn_pins : Staging → Staging × ℕ
  unfolding gc_loop
  gc_spawn_pins st = gc_loop st st
