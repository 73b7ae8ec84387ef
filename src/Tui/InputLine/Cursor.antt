-- ===== src/Tui/InputLine/Cursor.antt =====
-- internal/tui/wrapped_input.go: where `renderWrappedInput` puts the cursor.
use native.Mathlib.Nat.{mod-lt, div-add-mod'}
use agent_dashboard.Common.{
  ℕ, zero, suc, ◌+◌, ◌-◌, ◌*◌, ◌/◌, ◌%◌, ◌≤◌, ◌<◌, ◌≡◌, refl, sym, ◌∙◌, subst, true, false, none,
  List, [], ◌∷◌, length, drop, get_elem?, length-drop, inl, inr, ltb, leb, ◌==◌, if◌then◌else◌,
  arith, Bool-cases, ap, take,
}
use agent_dashboard.Tui.InputLine.{chunks, last_length, clamp, cursor_at, soft_wrap_runes_two_width}
use agent_dashboard.Tui.InputLine.Rows.{
  take-all, flat, flat-wrapped, rune_at, get_elem?-take, get_elem?-drop, rune_at-chunks,
  wrapped-short, wrapped-long,
}

get_elem?-beyond : (xs : List ℕ) (i : ℕ) → length xs ≤ i → get_elem? xs i ≡ none
get_elem?-beyond [] i h = refl
get_elem?-beyond (x ∷ xs) zero h = absurd (omega arith)
get_elem?-beyond (x ∷ xs) (suc i) h = get_elem?-beyond xs i (omega arith)

-- Behind the last rune of the last row, and on the row behind it, there is none.
rune_at-last : (rows : List (List ℕ)) → rune_at rows (length rows - 1) (last_length rows) ≡ none
unfolding rune_at last_length
rune_at-last [] = refl
rune_at-last (row ∷ []) = get_elem?-beyond row (length row) (omega arith)
rune_at-last (row ∷ next ∷ rows) =
    let n : length (row ∷ next ∷ rows) - 1 ≡ suc (length (next ∷ rows) - 1) = omega arith in
    rw n (rune_at-last (next ∷ rows))

rune_at-behind : (rows : List (List ℕ)) (n c : ℕ) → length rows ≤ n → rune_at rows n c ≡ none
unfolding rune_at
rune_at-behind [] n c h = refl
rune_at-behind (row ∷ rows) zero c h = absurd (omega arith)
rune_at-behind (row ∷ rows) (suc n) c h = rune_at-behind rows n c (omega arith)

-- How many runes stand in the rows before one.
abbrev pub span : ℕ → ℕ → ℕ
span cont zero = 0
span cont (suc n) = cont + span cont n

abbrev pub runes_before : ℕ → ℕ → ℕ → ℕ
runes_before first cont zero = 0
runes_before first cont (suc row) = first + span cont row

span-mul : (cont n : ℕ) → span cont n ≡ n * cont
span-mul cont zero = omega arith
span-mul cont (suc n) = ap (λ k. cont + k) (span-mul cont n) ∙ omega arith

drop-all : (xs : List ℕ) → drop (length xs) xs ≡ []
drop-all [] = refl
drop-all (x ∷ xs) = drop-all xs

chunks-nil : (fuel width : ℕ) → chunks fuel width [] ≡ []
unfolding chunks
chunks-nil zero width = refl
chunks-nil (suc fuel) width = refl

-- The rows before the last are full, and the last is not longer.
abbrev EndsAt : ℕ → ℕ → List (List ℕ) → Type 0
EndsAt cont n rows =
    (0 < length rows)
    × (last_length rows ≤ cont)
    × (span cont (length rows - 1) + last_length rows ≡ n)

cons-EndsAt :
    (cont n : ℕ) (row : List ℕ) (rows : List (List ℕ))
    → EndsAt cont n rows
    → EndsAt cont (cont + n) (row ∷ rows)
unfolding last_length
cons-EndsAt cont n row [] (h, le, e) = absurd (omega arith)
cons-EndsAt cont n row (next ∷ rows) (h, le, e) =
    let more : length (row ∷ next ∷ rows) - 1 ≡ suc (length (next ∷ rows) - 1) = omega arith in
    (omega arith, le, rw more (omega arith))

chunks-short :
    (cont fuel r : ℕ) (rs : List ℕ)
    → length (r ∷ rs) ≤ cont
    → chunks (suc fuel) cont (r ∷ rs) ≡ (r ∷ rs) ∷ []
unfolding chunks
chunks-short cont fuel r rs fits =
    let w = if ltb (length (r ∷ rs)) cont then length (r ∷ rs) else cont in
    let n = length (r ∷ rs) in
    let whole : w ≡ n = ground arith in
    ap (λ k. take k (r ∷ rs) ∷ chunks fuel cont (drop k (r ∷ rs))) whole
    ∙ ap (λ row. row ∷ chunks fuel cont (drop n (r ∷ rs))) (take-all n (r ∷ rs) (omega arith))
    ∙ ap (λ xs. (r ∷ rs) ∷ chunks fuel cont xs) (drop-all (r ∷ rs))
    ∙ ap (λ rows. (r ∷ rs) ∷ rows) (chunks-nil fuel cont)

chunks-long :
    (cont fuel r : ℕ) (rs : List ℕ)
    → cont < length (r ∷ rs)
    → chunks (suc fuel) cont (r ∷ rs) ≡ take cont (r ∷ rs) ∷ chunks fuel cont (drop cont (r ∷ rs))
unfolding chunks
chunks-long cont fuel r rs long =
    let w = if ltb (length (r ∷ rs)) cont then length (r ∷ rs) else cont in
    let full : w ≡ cont = ground arith in
    ap (λ k. take k (r ∷ rs) ∷ chunks fuel cont (drop k (r ∷ rs))) full

chunks-EndsAt :
    (cont fuel : ℕ) (runes : List ℕ)
    → 0 < cont
    → 0 < length runes
    → length runes ≤ fuel
    → EndsAt cont (length runes) (chunks fuel cont runes)
unfolding last_length
chunks-EndsAt cont zero runes wide some_left h = absurd (omega arith)
chunks-EndsAt cont (suc fuel) [] wide some_left h = absurd (omega arith)
chunks-EndsAt cont (suc fuel) (r ∷ rs) wide some_left h =
    elim (Bool-cases (leb (length (r ∷ rs)) cont)) [
      | inl fits ↦
          subst (EndsAt cont (length (r ∷ rs))) (sym (chunks-short cont fuel r rs (ground arith)))
            (omega arith, ground arith, omega arith)
      | inr long ↦
          let rest = drop cont (r ∷ rs) in
          let left : length rest ≡ length (r ∷ rs) - cont = length-drop cont (r ∷ rs) in
          let ends =
            cons-EndsAt cont (length rest) (take cont (r ∷ rs)) (chunks fuel cont rest)
              (chunks-EndsAt cont fuel rest wide (ground arith) (ground arith)) in
          let sum : cont + length rest ≡ length (r ∷ rs) = ground arith in
          subst (EndsAt cont (length (r ∷ rs))) (sym (chunks-long cont fuel r rs (ground arith)))
            (subst (λ n. EndsAt cont n (take cont (r ∷ rs) ∷ chunks fuel cont rest)) sum ends)
    ]

module _ (first cont : ℕ) (runes : List ℕ) (wide : 0 < first) (next_wide : 0 < cont) where
  rune_at-first :
      (i : ℕ)
      → i < first
      → rune_at (soft_wrap_runes_two_width runes first cont) 0 i ≡ get_elem? runes i
  unfolding rune_at
  rune_at-first i lt = elim (Bool-cases (leb (length runes) first)) [
    | inl fits ↦ rw (wrapped-short first cont runes wide next_wide (ground arith)) refl
    | inr long ↦
        rw (wrapped-long first cont runes wide next_wide (ground arith))
          (get_elem?-take first i runes lt)
  ]

  rune_at-next :
      (i : ℕ)
      → first ≤ i
      → i < length runes
      → rune_at
          (soft_wrap_runes_two_width runes first cont)
          (1 + (i - first) / cont)
          ((i - first) % cont)
        ≡ get_elem? runes i
  unfolding rune_at
  rune_at-next i le lt =
      let row : 1 + (i - first) / cont ≡ suc ((i - first) / cont) = omega arith in
      rw (wrapped-long first cont runes wide next_wide (omega arith), row)
        (rune_at-chunks cont next_wide (length (drop first runes)) (drop first runes) (i - first)
            (omega arith) (omega (arith, length-drop first runes))
          ∙ get_elem?-drop first i runes le)

  abbrev rows : List (List ℕ)
  rows = soft_wrap_runes_two_width runes first cont

  -- What the place of the cursor promises.
  abbrev pub IsShown : ℕ → ℕ × ℕ → Type 0
  IsShown pos place =
      (rune_at rows place.0 place.1 ≡ get_elem? runes pos)
      × (place.1 < (if place.0 == 0 then first else cont))
      × (runes_before first cont place.0 + place.1
          ≡ (if ltb pos (length runes) then pos else length runes))

  long_end :
      (row : List ℕ) (rs : List (List ℕ)) (n : ℕ)
      → EndsAt cont n rs
      → first + n ≡ length runes
      → (runes_before first cont (length (row ∷ rs) - 1) + last_length (row ∷ rs) ≡ length runes)
        × (last_length (row ∷ rs) ≤ (if length (row ∷ rs) - 1 == 0 then first else cont))
  unfolding last_length
  long_end row [] n (h, le, e) sum = absurd (omega arith)
  long_end row (next ∷ rs) n (h, le, e) sum =
      let more : length (row ∷ next ∷ rs) - 1 ≡ suc (length (next ∷ rs) - 1) = omega arith in
      let later : (suc (length (next ∷ rs) - 1) == 0) ≡ false = ground arith in
      (rw more (omega arith), rw (more, later) le)

  -- The runes before the end of the last row are all, and that row is not longer than its width.
  rows_end :
      (runes_before first cont (length rows - 1) + last_length rows ≡ length runes)
      × (last_length rows ≤ (if length rows - 1 == 0 then first else cont))
  unfolding last_length
  rows_end = elim (Bool-cases (leb (length runes) first)) [
    | inl fits ↦
        rw (wrapped-short first cont runes wide next_wide (ground arith))
          (omega arith, ground arith)
    | inr long ↦
        let rest = drop first runes in
        let left : length rest ≡ length runes - first = length-drop first runes in
        rw (wrapped-long first cont runes wide next_wide (ground arith)) (
          long_end (take first runes) (chunks (length rest) cont rest) (length rest)
            (chunks-EndsAt cont (length rest) rest next_wide (ground arith) (omega arith))
            (ground arith))
  ]

  full_end :
      (n last : ℕ)
      → runes_before first cont n + last ≡ length runes
      → last ≤ (if n == 0 then first else cont)
      → leb (if n == 0 then first else cont) last ≡ true
      → runes_before first cont (n + 1) + 0 ≡ length runes
  full_end zero last e le full = ground arith
  full_end (suc n) last e le full = ground arith

  end-IsShown :
      (pos : ℕ)
      → length runes ≤ pos
      → IsShown pos (
          if leb (if length rows - 1 == 0 then first else cont) (last_length rows)
          then (length rows - 1 + 1, 0)
          else (length rows - 1, last_length rows))
  end-IsShown pos h =
      let beyond : get_elem? runes pos ≡ none = get_elem?-beyond runes pos h in
      let (all, within) = rows_end in
      let ended : ltb pos (length runes) ≡ false = ground arith in
      elim (Bool-cases (leb (if length rows - 1 == 0 then first else cont) (last_length rows))) [
        | inl full ↦
            rw (full, ended)
              (
                rune_at-behind rows (length rows - 1 + 1) 0 (omega arith) ∙ sym beyond,
                ground arith,
                full_end (length rows - 1) (last_length rows) all within full,
              )
        | inr room ↦ rw (room, ended) (rune_at-last rows ∙ sym beyond, ground arith, all)
      ]

  cursor_at-first :
      (pos : ℕ) → pos < length runes → pos < first → cursor_at runes rows first cont pos ≡ (0, pos)
  unfolding cursor_at clamp
  cursor_at-first pos lt here = ground arith

  cursor_at-next :
      (pos : ℕ)
      → pos < length runes
      → first ≤ pos
      → cursor_at runes rows first cont pos ≡ (1 + (pos - first) / cont, (pos - first) % cont)
  unfolding cursor_at clamp
  cursor_at-next pos lt there =
      let kept : clamp pos 0 (length runes) ≡ pos = ground arith in
      let inside : (pos == length runes) ≡ false = ground arith in
      let late : ltb pos first ≡ false = ground arith in rw (kept, inside, late) refl

  cursor_at-end :
      (pos : ℕ)
      → length runes ≤ pos
      → cursor_at runes rows first cont pos ≡ (
          if leb (if length rows - 1 == 0 then first else cont) (last_length rows)
          then (length rows - 1 + 1, 0)
          else (length rows - 1, last_length rows))
  unfolding cursor_at clamp
  cursor_at-end pos h =
      let kept : clamp pos 0 (length runes) ≡ length runes = ground arith in
      let ended : (length runes == length runes) ≡ true = ground arith in rw (kept, ended) refl

  next-IsShown :
      (pos : ℕ)
      → pos < length runes
      → first ≤ pos
      → IsShown pos (1 + (pos - first) / cont, (pos - first) % cont)
  next-IsShown pos lt there =
      let later : (1 + (pos - first) / cont == 0) ≡ false = ground arith in
      let inside : ltb pos (length runes) ≡ true = ground arith in
      let row : 1 + (pos - first) / cont ≡ suc ((pos - first) / cont) = omega arith in
      (
        rune_at-next pos there lt,
        rw later (mod-lt (pos - first) next_wide),
        rw (inside, row)
            (omega (arith, span-mul cont ((pos - first) / cont), div-add-mod' (pos - first) cont)),
      )

  -- Whatever the widths, which are positive, and the position are: the rows are the runes; the cursor
  -- stands in them where the rune of its position is, within the width of its row; and the runes
  -- before its place are as many as the position says, or all if the position lies behind them.
  pub cursor_at-IsShown :
      (pos : ℕ) → (flat rows ≡ runes) × IsShown pos (cursor_at runes rows first cont pos)
  cursor_at-IsShown pos = (
    flat-wrapped first cont runes wide next_wide,
    elim (Bool-cases (ltb pos (length runes))) [
      | inr end ↦
          let late : length runes ≤ pos = ground arith in
          subst (IsShown pos) (sym (cursor_at-end pos late)) (end-IsShown pos late)
      | inl inside ↦
          let lt : pos < length runes = ground arith in
          elim (Bool-cases (ltb pos first)) [
            | inl here ↦
                let h : pos < first = ground arith in
                subst (IsShown pos) (sym (cursor_at-first pos lt h))
                  (rune_at-first pos h, h, ground arith)
            | inr there ↦
                let h : first ≤ pos = ground arith in
                subst (IsShown pos) (sym (cursor_at-next pos lt h)) (next-IsShown pos lt h)
          ]
    ],
  )
