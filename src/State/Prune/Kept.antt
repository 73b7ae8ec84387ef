-- ===== src/State/Prune/Kept.antt =====
-- What `PruneDead` leaves in the directory, entry by entry, where every removal succeeds.
use agent_dashboard.Common.{
  ℕ, String, ◌≡◌, refl, sym, ap, subst, ◌∙◌, inl, inr, Bool, true, false, not, ◌&&◌, Option, none,
  some, List, [], ◌∷◌, All, filter_by, str_eq_refl, str_eq_iff, arith, if◌then◌else◌, Bool-cases,
  Option-cases,
}
use agent_dashboard.Domain.{Agent}
use agent_dashboard.State.Disk.{DirEntry, Directory, read_entry}
use agent_dashboard.State.Disk.Read.{HasDistinctNames}
use agent_dashboard.State.Orphan.{PaneSet}
use agent_dashboard.State.Prune.{
  AgentFile, Newest, newest_per_pane, is_duplicate, is_retained, on_dead_pane, Buckets, classify,
  time_of, agent_files, apply_dead, remove_all, remove_buckets, prune_dead, Merged,
}
use agent_dashboard.State.Prune.Removal.{
  listed, Differs, filter_by-congr, filter_by-filter_by, filter_by-HasDistinctNames,
  remove_all-eq-filter_by,
}

-- The names of the entries that pass a test.
abbrev names_where : (DirEntry → Bool) → Directory → List String
names_where v [] = []
names_where v (e ∷ d) = let rest = names_where v d in if v e then e.name ∷ rest else rest

unlisted :
    (v : DirEntry → Bool) (name : String) (d : Directory)
    → All (Differs name) d
    → listed (names_where v d) name ≡ false
unlisted v name [] h = refl
unlisted v name (e ∷ d) h =
    ground (arith, str_eq_iff name e.name, str_eq_iff e.name name, unlisted v name d h.1)

weaken :
    (name : String) (ps : List String) (v : DirEntry → Bool) (d : Directory)
    → All (Differs name) d
    → All (λ e. listed ps e.name ≡ v e) d
    → All (λ e. listed (name ∷ ps) e.name ≡ v e) d
weaken name ps v [] h k = tt
weaken name ps v (e ∷ d) h k = (ground (arith, h.0, k.0), weaken name ps v d h.1 k.1)

listed-names_where :
    (v : DirEntry → Bool) (d : Directory)
    → HasDistinctNames d
    → All (λ e. listed (names_where v d) e.name ≡ v e) d
listed-names_where v [] h = tt
listed-names_where v (e ∷ d) h = elim (Bool-cases (v e)) [
  | inl y ↦
      let named : names_where v (e ∷ d) ≡ e.name ∷ names_where v d = rw y in
      (
        rw y (rw (str_eq_refl e.name)),
        subst (λ ps. All (λ x. listed ps x.name ≡ v x) d) (sym named)
            (weaken e.name (names_where v d) v d h.0 (listed-names_where v d h.1)),
      )
  | inr n ↦
      let named : names_where v (e ∷ d) ≡ names_where v d = rw n in
      (
        rw n (unlisted v e.name d h.0),
        subst (λ ps. All (λ x. listed ps x.name ≡ v x) d) (sym named) (listed-names_where v d h.1),
      )
]

negation_everywhere :
    (p q : DirEntry → Bool) (d : Directory)
    → All (λ e. p e ≡ q e) d
    → All (λ e. not (p e) ≡ not (q e)) d
negation_everywhere p q [] h = tt
negation_everywhere p q (e ∷ d) h = (rw h.0, negation_everywhere p q d h.1)

conjunction_everywhere :
    (r p q : DirEntry → Bool) (d : Directory)
    → All (λ e. p e ≡ q e) d
    → All (λ e. (r e && p e) ≡ (r e && q e)) d
conjunction_everywhere r p q [] h = tt
conjunction_everywhere r p q (e ∷ d) h = (rw h.0, conjunction_everywhere r p q d h.1)

and_true : (p : DirEntry → Bool) (d : Directory) → All (λ e. p e ≡ (p e && not (false && false))) d
and_true p [] = tt
and_true p (e ∷ d) = (ground arith, and_true p d)

-- Removing what a test picks.
remove_where :
    (v : DirEntry → Bool) (d : Directory)
    → HasDistinctNames d
    → (remove_all (λ _. true) (names_where v d) d).0 ≡ filter_by (λ e. not (v e)) d
remove_where v d h =
    remove_all-eq-filter_by (names_where v d) d h
    ∙ filter_by-congr _ _ d
        (negation_everywhere (λ e. listed (names_where v d) e.name) v d (listed-names_where v d h))

-- Removing what two tests pick, one after the other.
remove_both :
    (v w : DirEntry → Bool) (d : Directory)
    → HasDistinctNames d
    → (remove_all (λ _. true) (names_where w d) (remove_all (λ _. true) (names_where v d) d).0).0
      ≡ filter_by (λ e. not (v e) && not (w e)) d
remove_both v w d h = rw (remove_where v d h) (
    remove_all-eq-filter_by (names_where w d) (filter_by (λ e. not (v e)) d)
      (filter_by-HasDistinctNames (λ e. not (v e)) d h)
    ∙ filter_by-filter_by (λ e. not (v e)) (λ e. not (listed (names_where w d) e.name)) d
    ∙ filter_by-congr _ _ d (
        conjunction_everywhere (λ e. not (v e)) _ _ d
          (negation_everywhere (λ e. listed (names_where w d) e.name) w d
            (listed-names_where w d h))))

remove_buckets-eq-filter_by :
    (files : List AgentFile) (b : Buckets) (v w : DirEntry → Bool) (d : Directory)
    → HasDistinctNames d
    → b ≡ record { dedup = names_where v d; dead = names_where w d }
    → (remove_buckets (λ _. true) files b d).0
      ≡ filter_by (λ e. not (v e) && not (apply_dead files b && w e)) d
unfolding remove_buckets
remove_buckets-eq-filter_by files b v w d h e = elim (Bool-cases (apply_dead files b)) [
  | inl on ↦
      simp on
        (rw (ap (λ (x : Buckets). x.dedup) e, ap (λ (x : Buckets). x.dead) e) (remove_both v w d h))
  | inr off ↦ simp off (
      rw (ap (λ (x : Buckets). x.dedup) e)
        (remove_where v d h ∙ filter_by-congr _ _ d (and_true (λ x. not (v x)) d)))
]

module _ (exists : String → Bool) (parse_time : String → Option ℕ) (live_panes : PaneSet)
    (server_pid : String) (merged : Merged) (now : ℕ) where
  -- An entry that holds an agent, as the loops see it.
  abbrev file_of : DirEntry → Agent → AgentFile
  file_of e a = record { path = e.name; agent = a; updated_at = time_of parse_time a }

  abbrev pub is_duplicate_entry : Newest → DirEntry → Bool
  is_duplicate_entry m e = elim (read_entry e) [
    | none ↦ false
    | some a ↦ is_duplicate m (file_of e a)
  ]

  abbrev pub is_dead_entry : Newest → DirEntry → Bool
  is_dead_entry m e = elim (read_entry e) [
    | none ↦ false
    | some a ↦
        not (is_duplicate m (file_of e a))
        && on_dead_pane exists parse_time live_panes server_pid merged now (file_of e a)
        && not (is_retained exists parse_time live_panes server_pid merged now a)
  ]

  classified :
      (m : Newest) (d : Directory)
      → classify exists parse_time live_panes server_pid merged now m (agent_files parse_time d)
        ≡ record {
          dedup = names_where (is_duplicate_entry m) d;
          dead = names_where (is_dead_entry m) d;
        }
  unfolding classify agent_files
  classified m [] = refl
  classified m (e ∷ d) = elim (Option-cases (read_entry e)) [
    | inl skipped ↦ ground (arith, classified m d)
    | inr (a, read) ↦ ground (arith, classified m d)
  ]

  -- Where names are distinct and every removal succeeds, the directory that is left holds exactly
  -- the entries, in their order, that are no duplicates and that, unless the safety net holds, are
  -- no dead agents.
  prune_dead-eq-filter_by :
      (d : Directory)
      → HasDistinctNames d
      → let files = agent_files parse_time d in
        let m = newest_per_pane [] files in
        let b = classify exists parse_time live_panes server_pid merged now m files in
        (prune_dead exists parse_time (λ _. true) live_panes server_pid merged now d).0
        ≡ filter_by
            (λ e. not (is_duplicate_entry m e) && not (apply_dead files b && is_dead_entry m e))
            d
  unfolding prune_dead
  prune_dead-eq-filter_by d h =
      let m = newest_per_pane [] (agent_files parse_time d) in
      remove_buckets-eq-filter_by (agent_files parse_time d) _ (is_duplicate_entry m)
        (is_dead_entry m) d h (classified m d)
