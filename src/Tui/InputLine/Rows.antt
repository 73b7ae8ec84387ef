-- ===== src/Tui/InputLine/Rows.antt =====
-- internal/tui/wrapped_input.go: the rows of `softWrapRunes` and `softWrapRunesTwoWidth`.
use native.Mathlib.Nat.{mod-eq_of_lt, mod-eq-sub-mod, div-eq_of_lt, div-eq-sub-div}
use mathlib.Core.List.{append-nil}
use agent_dashboard.Common.{
  ℕ, zero, suc, ◌-◌, ◌/◌, ◌%◌, ◌≤◌, ◌<◌, ◌≡◌, refl, ap, ◌∙◌, Option, none, List, [], ◌∷◌, ◌++◌,
  length, take, drop, get_elem?, length-take, length-drop, take-append-drop, All, inl, inr, ltb,
  leb, if◌then◌else◌, arith, Bool-cases,
}
use agent_dashboard.Tui.InputLine.{chunks, soft_wrap_runes, soft_wrap_runes_two_width, at_least_one}

-- The rows one after another.
unfoldable pub flat : List (List ℕ) → List ℕ
flat [] = []
flat (row ∷ rows) = row ++ flat rows

-- The rune in a row and a column.
unfoldable pub rune_at : List (List ℕ) → ℕ → ℕ → Option ℕ
rune_at [] r c = none
rune_at (row ∷ rows) zero c = get_elem? row c
rune_at (row ∷ rows) (suc r) c = rune_at rows r c

pub get_elem?-take : (n i : ℕ) (xs : List ℕ) → i < n → get_elem? (take n xs) i ≡ get_elem? xs i
get_elem?-take zero i xs h = absurd (omega arith)
get_elem?-take (suc n) i [] h = refl
get_elem?-take (suc n) zero (x ∷ xs) h = refl
get_elem?-take (suc n) (suc i) (x ∷ xs) h = get_elem?-take n i xs (omega arith)

pub get_elem?-drop :
    (n i : ℕ) (xs : List ℕ) → n ≤ i → get_elem? (drop n xs) (i - n) ≡ get_elem? xs i
get_elem?-drop zero i xs h = ap (get_elem? xs) (omega arith)
get_elem?-drop (suc n) i [] h = refl
get_elem?-drop (suc n) zero (x ∷ xs) h = absurd (omega arith)
get_elem?-drop (suc n) (suc i) (x ∷ xs) h =
    ap (get_elem? (drop n xs)) (omega arith) ∙ get_elem?-drop n i xs (omega arith)

pub take-all : (n : ℕ) (xs : List ℕ) → length xs ≤ n → take n xs ≡ xs
take-all zero [] h = refl
take-all zero (x ∷ xs) h = absurd (omega arith)
take-all (suc n) [] h = refl
take-all (suc n) (x ∷ xs) h = ap (λ l. x ∷ l) (take-all n xs (omega arith))

-- The length of the next row.
abbrev row_width : ℕ → List ℕ → ℕ
row_width width runes = if ltb (length runes) width then length runes else width

abbrev pub Fits : ℕ → List ℕ → Type 0
Fits width row = (0 < length row) × (length row ≤ width)

module _ (width : ℕ) (wide : 0 < width) where
  pub flat-chunks :
      (fuel : ℕ) (runes : List ℕ) → length runes ≤ fuel → flat (chunks fuel width runes) ≡ runes
  unfolding chunks flat
  flat-chunks zero [] h = refl
  flat-chunks zero (r ∷ rs) h = absurd (omega arith)
  flat-chunks (suc fuel) [] h = refl
  flat-chunks (suc fuel) (r ∷ rs) h =
      let w = row_width width (r ∷ rs) in
      let less : length (drop w (r ∷ rs)) ≤ fuel = ground (arith, length-drop w (r ∷ rs)) in
      ap (λ l. take w (r ∷ rs) ++ l) (flat-chunks fuel (drop w (r ∷ rs)) less)
      ∙ take-append-drop w (r ∷ rs)

  pub chunks-Fits : (fuel : ℕ) (runes : List ℕ) → All (Fits width) (chunks fuel width runes)
  unfolding chunks
  chunks-Fits zero runes = tt
  chunks-Fits (suc fuel) [] = tt
  chunks-Fits (suc fuel) (r ∷ rs) =
      let w = row_width width (r ∷ rs) in
      (ground (arith, length-take w (r ∷ rs)), chunks-Fits fuel (drop w (r ∷ rs)))

  pub rune_at-chunks :
      (fuel : ℕ) (runes : List ℕ) (i : ℕ)
      → length runes ≤ fuel
      → i < length runes
      → rune_at (chunks fuel width runes) (i / width) (i % width) ≡ get_elem? runes i
  unfolding chunks rune_at
  rune_at-chunks zero runes i h lt = absurd (omega arith)
  rune_at-chunks (suc fuel) [] i h lt = absurd (omega arith)
  rune_at-chunks (suc fuel) (r ∷ rs) i h lt = elim (Bool-cases (ltb i width)) [
    | inl here ↦
        let w = row_width width (r ∷ rs) in
        let first : i / width ≡ 0 = div-eq_of_lt (ground arith) in
        let column : i % width ≡ i = mod-eq_of_lt (ground arith) in
        rw (first, column) (get_elem?-take w i (r ∷ rs) (ground arith))
    | inr there ↦
        let full : row_width width (r ∷ rs) ≡ width = ground arith in
        let next : i / width ≡ suc ((i - width) / width) =
          div-eq-sub-div wide (ground arith) ∙ omega arith in
        let column : i % width ≡ (i - width) % width = mod-eq-sub-mod (ground arith) in
        rw (full, next, column)
          (rune_at-chunks fuel (drop width (r ∷ rs)) (i - width)
              (omega (arith, length-drop width (r ∷ rs)))
              (ground (arith, length-drop width (r ∷ rs)))
            ∙ get_elem?-drop width i (r ∷ rs) (ground arith))
  ]

-- The rows of both functions are the runes, whatever the widths are.
pub flat-soft_wrap_runes : (runes : List ℕ) (width : ℕ) → flat (soft_wrap_runes runes width) ≡ runes
unfolding soft_wrap_runes flat
flat-soft_wrap_runes runes zero = append-nil runes
flat-soft_wrap_runes runes (suc width) = elim (Bool-cases (leb (length runes) (suc width))) [
  | inl fits ↦ ground (arith, append-nil runes)
  | inr long ↦ ground (arith, flat-chunks (suc width) (omega arith) (length runes) runes)
]

pub at_least_one-pos : (n : ℕ) → 0 < n → at_least_one n ≡ n
at_least_one-pos zero h = absurd (omega arith)
at_least_one-pos (suc n) h = refl

module _ (first cont : ℕ) (runes : List ℕ) (wide : 0 < first) (next_wide : 0 < cont) where
  -- The two cases of the function.
  pub wrapped-short : length runes ≤ first → soft_wrap_runes_two_width runes first cont ≡ runes ∷ []
  unfolding soft_wrap_runes_two_width
  wrapped-short h = rw (at_least_one-pos first wide) (ground arith)

  pub wrapped-long :
      first < length runes
      → soft_wrap_runes_two_width runes first cont
        ≡ take first runes ∷ chunks (length (drop first runes)) cont (drop first runes)
  unfolding soft_wrap_runes_two_width
  wrapped-long h = rw (at_least_one-pos first wide, at_least_one-pos cont next_wide) (ground arith)

  pub flat-wrapped : flat (soft_wrap_runes_two_width runes first cont) ≡ runes
  unfolding flat
  flat-wrapped = elim (Bool-cases (leb (length runes) first)) [
    | inl fits ↦ rw (wrapped-short (ground arith)) (append-nil runes)
    | inr long ↦ rw (wrapped-long (ground arith)) (
        ap (λ l. take first runes ++ l)
          (flat-chunks cont next_wide (length (drop first runes)) (drop first runes) (omega arith))
        ∙ take-append-drop first runes)
  ]
