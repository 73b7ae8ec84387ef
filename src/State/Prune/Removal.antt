-- ===== src/State/Prune/Removal.antt =====
-- Removing files by name from a directory with distinct names is filtering it.
use agent_dashboard.Common.{
  String, ◌≡◌, refl, sym, ◌∙◌, inl, inr, Bool, true, false, not, ◌&&◌, List, [], ◌∷◌, All, any,
  filter_by, str_eq, str_eq_refl, str_eq_iff, arith, Bool-cases,
}
use agent_dashboard.State.Disk.{DirEntry, Directory, remove_file}
use agent_dashboard.State.Disk.Read.{HasDistinctNames}
use agent_dashboard.State.Prune.{remove_all}

abbrev pub listed : List String → String → Bool
listed ps name = any (λ p. str_eq p name) ps

abbrev pub Differs : String → DirEntry → Type 0
Differs name e = str_eq name e.name ≡ false

filter_by-true : (p : DirEntry → Bool) (d : Directory) → All (λ e. p e ≡ true) d → filter_by p d ≡ d
filter_by-true p [] h = refl
filter_by-true p (e ∷ d) h = ground (arith, h.0, filter_by-true p d h.1)

pub filter_by-congr :
    (p q : DirEntry → Bool) (d : Directory) → All (λ e. p e ≡ q e) d → filter_by p d ≡ filter_by q d
filter_by-congr p q [] h = refl
filter_by-congr p q (e ∷ d) h = rw (h.0, filter_by-congr p q d h.1)

pub filter_by-filter_by :
    (p q : DirEntry → Bool) (d : Directory)
    → filter_by q (filter_by p d) ≡ filter_by (λ e. p e && q e) d
filter_by-filter_by p q [] = refl
filter_by-filter_by p q (e ∷ d) = ground (arith, filter_by-filter_by p q d)

All-filter_by :
    (P : DirEntry → Type 0) (p : DirEntry → Bool) (d : Directory) → All P d → All P (filter_by p d)
All-filter_by P p [] h = tt
All-filter_by P p (e ∷ d) h = elim (Bool-cases (p e)) [
  | inl y ↦ rw y (h.0, All-filter_by P p d h.1)
  | inr n ↦ rw n (All-filter_by P p d h.1)
]

pub filter_by-HasDistinctNames :
    (p : DirEntry → Bool) (d : Directory) → HasDistinctNames d → HasDistinctNames (filter_by p d)
filter_by-HasDistinctNames p [] h = tt
filter_by-HasDistinctNames p (e ∷ d) h = elim (Bool-cases (p e)) [
  | inl y ↦ rw y (All-filter_by (Differs e.name) p d h.0, filter_by-HasDistinctNames p d h.1)
  | inr n ↦ rw n (filter_by-HasDistinctNames p d h.1)
]

others :
    (name : String) (d : Directory)
    → All (Differs name) d
    → All (λ x. not (str_eq name x.name) ≡ true) d
others name [] h = tt
others name (e ∷ d) h = (ground (arith, h.0), others name d h.1)

remove_file-eq-filter_by :
    (name : String) (d : Directory)
    → HasDistinctNames d
    → remove_file name d ≡ filter_by (λ e. not (str_eq name e.name)) d
unfolding remove_file
remove_file-eq-filter_by name [] h = refl
remove_file-eq-filter_by name (e ∷ d) h = elim (Bool-cases (str_eq e.name name)) [
  | inl same ↦
      let eq : e.name ≡ name = (str_eq_iff e.name name).0 same in
      rw (same, eq, str_eq_refl name)
        (sym (filter_by-true (λ x. not (str_eq name x.name)) d (others name d (rw eq at h.0))))
  | inr other ↦
      ground
        (arith, str_eq_iff e.name name, str_eq_iff name e.name, remove_file-eq-filter_by name d h.1)
]

true_everywhere : (d : Directory) → All (λ _. true ≡ true) d
true_everywhere [] = tt
true_everywhere (e ∷ d) = (refl, true_everywhere d)

absent_kept :
    (p : String) (ps : List String) (d : Directory)
    → All (λ e. (not (str_eq p e.name) && not (listed ps e.name)) ≡ not (listed (p ∷ ps) e.name)) d
absent_kept p ps [] = tt
absent_kept p ps (e ∷ d) = (ground arith, absent_kept p ps d)

-- With removals that all succeed, what is left is what the list of paths does not name.
pub remove_all-eq-filter_by :
    (ps : List String) (d : Directory)
    → HasDistinctNames d
    → (remove_all (λ _. true) ps d).0 ≡ filter_by (λ e. not (listed ps e.name)) d
unfolding remove_all
remove_all-eq-filter_by [] d h = sym (filter_by-true (λ _. true) d (true_everywhere d))
remove_all-eq-filter_by (p ∷ ps) d h = rw (remove_file-eq-filter_by p d h) (
    remove_all-eq-filter_by ps (filter_by (λ e. not (str_eq p e.name)) d)
      (filter_by-HasDistinctNames (λ e. not (str_eq p e.name)) d h)
    ∙ filter_by-filter_by (λ e. not (str_eq p e.name)) (λ e. not (listed ps e.name)) d
    ∙ filter_by-congr _ _ d (absent_kept p ps d))
