-- ===== src/Git.antt =====
-- internal/git/worktree.go: `ListWorktrees` and `parsePorcelain`. Parameters:
-- what the two git subcommands print for a directory, `none` for an error.
pub mod Porcelain
mod Examples
use Prim.Native.Char.{Char, code}
use agent_dashboard.Common.{
  ℕ, String, Option, none, some, List, [], ◌∷◌, ◌++◌, map, is_empty, str_eq, ◌==◌, if◌then◌else◌,
}
use agent_dashboard.Common.Text.{trim_space, cut_prefix, trim_prefix}
use agent_dashboard.State.Markers.{Worktree}

abbrev pub empty_worktree : Worktree
empty_worktree = record { path = ""; branch = ""; git_dir = "" }

-- `dropCR` of a line of `bufio.ScanLines`.
unfoldable pub drop_cr : String → String
drop_cr String.[] = ""
drop_cr (String.◌∷◌ c s) =
    let rest = drop_cr s in if str_eq (String.◌∷◌ c s) "\r" then "" else String.◌∷◌ c rest

-- A character before the first of the lines.
abbrev pub prepend : Char → List String → List String
prepend c [] = String.◌∷◌ c "" ∷ []
prepend c (l ∷ ls) = String.◌∷◌ c l ∷ ls

unfoldable pub split_lines : String → List String
split_lines String.[] = []
split_lines (String.◌∷◌ c s) =
    let rest = split_lines s in if code c == 10 then "" ∷ rest else prepend c rest

-- The tokens of `bufio.Scanner`, without its bound on the length of a line.
unfoldable pub scan_lines : String → List String
unfolding split_lines drop_cr
scan_lines text = map drop_cr (split_lines text)

-- The switch on one line that is not empty.
unfoldable pub read_line : Worktree → String → Worktree
read_line cur line = elim (cut_prefix "worktree " line) [
  | some path ↦ record cur { path = path }
  | none ↦ elim (cut_prefix "branch " line) [
    | some ref ↦ record cur { branch = trim_prefix ref "refs/heads/" }
    | none ↦ cur
  ]
]

-- `flush`, before the entries that follow.
unfoldable pub flush : Worktree → List Worktree → List Worktree
flush cur out = if is_empty cur.path then out else cur ∷ out

unfoldable pub parse_lines : Worktree → List String → List Worktree
unfolding flush
parse_lines cur [] = flush cur []
parse_lines cur (line ∷ lines) =
    let after = parse_lines empty_worktree lines in
    let on = parse_lines (read_line cur line) lines in if is_empty line then flush cur after else on

unfoldable pub parse_porcelain : String → List Worktree
unfolding parse_lines scan_lines
parse_porcelain text = parse_lines empty_worktree (scan_lines text)

unfoldable pub resolve_git_dir : Option String → Worktree → Worktree
resolve_git_dir none wt = wt
resolve_git_dir (some gd) wt = record wt { git_dir = trim_space gd }

-- `worktree_list` and `git_dir` are the two subcommands.
unfoldable pub list_worktrees :
    (String → Option String) → (String → Option String) → String → Option (List Worktree)
unfolding parse_porcelain
list_worktrees worktree_list git_dir dir = elim (worktree_list dir) [
  | none ↦ none
  | some out ↦ some (map (λ wt. resolve_git_dir (git_dir wt.path) wt) (parse_porcelain out))
]
