-- ===== src/State/Prune/Safety.antt =====
-- `PruneDead` never removes every agent file that it can read.
use agent_dashboard.Common.{
  ℕ, ◌+◌, ◌≤◌, ◌<◌, String, ◌≡◌, refl, inl, inr, Bool, false, Option, List, [], ◌∷◌, All, Any,
  length, count_by, count_by-le, ltb, arith, if◌then◌else◌, Bool-cases,
}
use agent_dashboard.State.Disk.{Directory, remove_file}
use agent_dashboard.State.Orphan.{PaneSet}
use agent_dashboard.State.Prune.{
  AgentFile, Newest, newest_of, newest_per_pane, is_duplicate, Buckets, classify, agent_files,
  apply_dead, remove_all, remove_buckets, prune_dead, Merged,
}
use agent_dashboard.State.Prune.Newest.{At, newest_attained, newest_of-empty}

-- The greatest time of a list of files, and that some file has it.
record IsGreatest (files : List AgentFile) (t : ℕ) : Type 0 where
  above : All (λ (f : AgentFile). f.updated_at ≤ t) files
  reached : Any (λ (f : AgentFile). f.updated_at ≡ t) files

All-le :
    (t u : ℕ) (files : List AgentFile)
    → t ≤ u
    → All (λ (f : AgentFile). f.updated_at ≤ t) files
    → All (λ (f : AgentFile). f.updated_at ≤ u) files
All-le t u [] h a = tt
All-le t u (f ∷ files) h a = (omega arith, All-le t u files h a.1)

greatest : (f : AgentFile) (files : List AgentFile) → (t : ℕ) × IsGreatest (f ∷ files) t
greatest f [] = (f.updated_at, record { above = omega arith; reached = inl refl })
greatest f (g ∷ files) =
    let (t, rest) = greatest g files in
    elim (Bool-cases (ltb t f.updated_at)) [
      | inl later ↦ (
        f.updated_at,
        record {
          above = (omega arith, All-le t f.updated_at (g ∷ files) (ground arith) rest.above);
          reached = inl refl;
        },
      )
      | inr earlier ↦ (t, record { above = (ground arith, rest.above); reached = inr rest.reached })
    ]

le_of_attained :
    (p : String) (t u : ℕ) (files : List AgentFile)
    → All (λ (f : AgentFile). f.updated_at ≤ u) files
    → Any (At p t) files
    → t ≤ u
le_of_attained p t u [] h a = absurd a
le_of_attained p t u (f ∷ files) h (inl a) = omega arith
le_of_attained p t u (f ∷ files) h (inr a) = le_of_attained p t u files h.1 a

newest-le :
    (files : List AgentFile) (t : ℕ) (p : String)
    → All (λ (f : AgentFile). f.updated_at ≤ t) files
    → newest_of (newest_per_pane [] files) p ≤ t
newest-le files t p h = elim (newest_attained [] files p) [
  | inl e ↦ omega (arith, newest_of-empty p)
  | inr a ↦ le_of_attained p _ t files h a
]

not_duplicate_of_le :
    (m : Newest) (f : AgentFile)
    → newest_of m f.agent.tmux_pane_id ≤ f.updated_at
    → is_duplicate m f ≡ false
unfolding is_duplicate
not_duplicate_of_le m f h = ground arith

count_by-lt :
    (m : Newest) (t : ℕ) (files : List AgentFile)
    → ((p : String) → newest_of m p ≤ t)
    → Any (λ (f : AgentFile). f.updated_at ≡ t) files
    → count_by (is_duplicate m) files < length files
count_by-lt m t [] h a = absurd a
count_by-lt m t (f ∷ files) h (inl e) = ground (
  arith,
  not_duplicate_of_le m f (rw e (h f.agent.tmux_pane_id)),
  count_by-le (is_duplicate m) files,
)
count_by-lt m t (f ∷ files) h (inr a) = ground (arith, count_by-lt m t files h a)

-- Of a list with a file, not every file is a duplicate.
duplicates-lt :
    (f : AgentFile) (files : List AgentFile)
    → count_by (is_duplicate (newest_per_pane [] (f ∷ files))) (f ∷ files) < length (f ∷ files)
duplicates-lt f files =
    let (t, g) = greatest f files in
    count_by-lt (newest_per_pane [] (f ∷ files)) t (f ∷ files)
      (λ p. newest-le (f ∷ files) t p g.above) g.reached

module _ (exists : String → Bool) (parse_time : String → Option ℕ) (live_panes : PaneSet)
    (server_pid : String) (merged : Merged) (now : ℕ) where
  buckets : Newest → List AgentFile → Buckets
  buckets = classify exists parse_time live_panes server_pid merged now

  length-dedup :
      (m : Newest) (files : List AgentFile)
      → length (buckets m files).dedup ≡ count_by (is_duplicate m) files
  unfolding buckets classify
  length-dedup m [] = refl
  length-dedup m (f ∷ files) = ground (arith, length-dedup m files)

  length-buckets :
      (m : Newest) (files : List AgentFile)
      → length (buckets m files).dedup + length (buckets m files).dead ≤ length files
  unfolding buckets classify
  length-buckets m [] = omega arith
  length-buckets m (f ∷ files) = ground (arith, length-buckets m files)

removed-le :
    (removable : String → Bool) (ps : List String) (d : Directory)
    → (remove_all removable ps d).1 ≤ length ps
unfolding remove_all
removed-le removable [] d = omega arith
removed-le removable (p ∷ ps) d =
    ground (arith, removed-le removable ps (remove_file p d), removed-le removable ps d)

-- The safety net keeps what both passes remove below the number of files.
net :
    (files : List AgentFile) (b : Buckets)
    → length b.dedup < length files
    → length b.dedup + length b.dead ≤ length files
    → length b.dedup + (if apply_dead files b then length b.dead else 0) < length files
unfolding apply_dead
net files b h k = ground arith

removed_by_buckets :
    (removable : String → Bool) (files : List AgentFile) (b : Buckets) (d : Directory)
    → (remove_buckets removable files b d).1
      ≤ length b.dedup + (if apply_dead files b then length b.dead else 0)
unfolding remove_buckets
removed_by_buckets removable files b d =
    let kept : Directory = (remove_all removable b.dedup d).0 in
    elim (Bool-cases (apply_dead files b)) [
      | inl e ↦
          rw e (omega (arith, removed-le removable b.dedup d, removed-le removable b.dead kept))
      | inr e ↦ rw e (omega (arith, removed-le removable b.dedup d))
    ]

leaves_one :
    (exists : String → Bool) (parse_time : String → Option ℕ) (removable : String → Bool)
    (live_panes : PaneSet) (server_pid : String) (merged : Merged) (now : ℕ) (d : Directory)
    (files : List AgentFile)
    → agent_files parse_time d ≡ files
    → 0 < length files
    → (prune_dead exists parse_time removable live_panes server_pid merged now d).1 < length files
unfolding prune_dead buckets
leaves_one exists parse_time removable live_panes server_pid merged now d [] e h =
    absurd (omega arith)
leaves_one exists parse_time removable live_panes server_pid merged now d (f ∷ rest) e h =
    let files = f ∷ rest in
    let m = newest_per_pane [] files in
    let b = buckets exists parse_time live_panes server_pid merged now m files in
    rw (e, prune_dead)
      (omega (
        arith,
        removed_by_buckets removable files b d,
        net files b
            (omega (
              arith,
              length-dedup exists parse_time live_panes server_pid merged now m files,
              duplicates-lt f rest,
            ))
            (length-buckets exists parse_time live_panes server_pid merged now m files),
      ))

-- If the directory holds an agent file that can be read, one call removes fewer files than it
-- reads, whatever tmux reported, whatever the clock says and whichever removals fail.
pub prune_dead_leaves_one :
    (exists : String → Bool) (parse_time : String → Option ℕ) (removable : String → Bool)
    (live_panes : PaneSet) (server_pid : String) (merged : Merged) (now : ℕ) (d : Directory)
    → 0 < length (agent_files parse_time d)
    → (prune_dead exists parse_time removable live_panes server_pid merged now d).1
      < length (agent_files parse_time d)
prune_dead_leaves_one exists parse_time removable live_panes server_pid merged now d h =
    leaves_one exists parse_time removable live_panes server_pid merged now d
      (agent_files parse_time d) refl h
