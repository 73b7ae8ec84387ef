-- ===== src/Git/Porcelain.antt =====
-- Round trip: what `git worktree list --porcelain` prints is read back.
use Prim.Native.Char.{Char, code}
use Prim.Native.String.{◌++◌}
use agent_dashboard.Common.{
  String, ◌≡◌, Bool, true, false, List, [], ◌∷◌, is_empty, ◌⊎◌, ◌||◌, ◌==◌, if◌then◌else◌,
}
use agent_dashboard.State.Markers.{Worktree}

-- No newline and no carriage return.
abbrev pub is_one_line : String → Bool
is_one_line String.[] = true
is_one_line (String.◌∷◌ c s) =
    let rest = is_one_line s in if code c == 10 || code c == 13 then false else rest

abbrev pub IsOneLine : String → Type 0
IsOneLine s = is_one_line s ≡ true

-- Lines as git prints them.
abbrev pub print_lines : List String → String
print_lines [] = ""
print_lines (l ∷ ls) = l ++ String.◌∷◌ "\n" (print_lines ls)

-- A line on the state of a worktree, with what follows the word: nothing, or a space and a reason.
pub data Note : Type 0 where
  locked : String → Note
  prunable : String → Note

abbrev pub note_line : Note → String
note_line (locked reason) = "locked" ++ reason
note_line (prunable reason) = "prunable" ++ reason

-- The lines of the notes and the lines behind them.
abbrev pub with_notes : List Note → List String → List String
with_notes [] lines = lines
with_notes (n ∷ notes) lines = note_line n ∷ with_notes notes lines

module _ (sha : Worktree → String) (bare : Worktree → Bool) (notes : Worktree → List Note) where
  -- One block for each worktree: its path; its commit, and its branch or a detached head, or that it
  -- is bare; and the notes.
  abbrev pub listing : List Worktree → List String
  listing [] = []
  listing (wt ∷ wts) =
      ("worktree " ++ wt.path)
      ∷ (if bare wt
          then "bare" ∷ with_notes (notes wt) ("" ∷ listing wts)
          else ("HEAD " ++ sha wt)
            ∷ (if is_empty wt.branch
                then "detached"
                else ("branch " ++ ("refs/heads/" ++ wt.branch)))
            ∷ with_notes (notes wt) ("" ∷ listing wts))

  -- A worktree as the parser can give it back; one that is bare has no branch.
  abbrev pub IsPrinted : Worktree → Type 0
  IsPrinted wt =
      (is_empty wt.path ≡ false) × (wt.git_dir ≡ "") × ((bare wt ≡ false) ⊎ (wt.branch ≡ ""))
