-- ===== src/Git/Examples.antt =====
-- The round trip at a concrete listing, and tests of the parser.
use agent_dashboard.Common.{
  String, Bool, false, ◌≡◌, refl, none, some, List, [], ◌∷◌, str_eq, if◌then◌else◌,
}
use agent_dashboard.Common.Text.{cut_prefix, trim_prefix, trim_space}
use agent_dashboard.State.Markers.{Worktree}
use agent_dashboard.Git.{read_line, resolve_git_dir, list_worktrees}
use agent_dashboard.Git.Porcelain.{Note, locked}

abbrev two_worktrees : List Worktree
two_worktrees =
    record { path = "/r"; branch = "main"; git_dir = "" }
    ∷ record { path = "/w/fix a"; branch = ""; git_dir = "" }
    ∷ []

abbrev sha : Worktree → String
sha wt = "0123abcd"

-- The second worktree is locked, with a reason.
abbrev notes : Worktree → List Note
notes wt = if str_eq wt.path "/r" then [] else locked " on a stick" ∷ []

abbrev bare : Worktree → Bool
bare wt = false

-- A tag is no branch, a block without its last blank line counts, and a git directory that cannot
-- be resolved stays empty.
list_worktrees_test :
    list_worktrees
      (λ d. some "worktree /r\r\nbranch refs/tags/v1\r\n\nHEAD 1\n\nworktree /w\n")
      (λ p. if str_eq p "/r" then some " /r/.git\n" else none)
      "/r"
    ≡ some (
        record { path = "/r"; branch = "refs/tags/v1"; git_dir = "/r/.git" }
        ∷ record { path = "/w"; branch = ""; git_dir = "" }
        ∷ [])
unfolding list_worktrees resolve_git_dir read_line cut_prefix trim_prefix trim_space str_eq
list_worktrees_test = refl
