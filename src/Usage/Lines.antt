-- ===== src/Usage/Lines.antt =====
-- internal/usage/usage.go: the scan of a log whose front is whole lines, in two parts.
use mathlib.Core.List.{foldl-append, map-append}
use agent_dashboard.Common.{
  length, ltb, ap, ℕ, ◌≡◌, ◌⊎◌, ◌∙◌, refl, inl, inr, Bool, true, List, [], ◌∷◌, ◌++◌, map, ◌==◌,
  arith, Bool-cases,
}
use agent_dashboard.Usage.{
  Env, prepend, split_lines, drop_cr, short_lines, Scan, start, scan_line, scan,
}

-- Empty, or with a newline at its end.
abbrev pub is_whole : List ℕ → Bool
is_whole [] = true
is_whole (c ∷ []) = c == b'\n'
is_whole (c ∷ d ∷ s) = is_whole (d ∷ s)

split_cons :
    (c : ℕ) (s : List ℕ) → (l : List ℕ) × (ls : List (List ℕ)) × (split_lines (c ∷ s) ≡ l ∷ ls)
unfolding split_lines
split_cons c s = elim (Bool-cases (c == b'\n')) [
  | inl e ↦ ([], split_lines s, rw e refl)
  | inr e ↦ rw e (prepend_cons c (split_lines s))
]
  where
    prepend_cons :
        (c : ℕ) (xs : List (List ℕ)) → (l : List ℕ) × (ls : List (List ℕ)) × (prepend c xs ≡ l ∷ ls)
    prepend_cons c [] = (c ∷ [], [], refl)
    prepend_cons c (x ∷ xs) = (c ∷ x, xs, refl)

pub split_lines-append :
    (a b : List ℕ) → is_whole a ≡ true → split_lines (a ++ b) ≡ split_lines a ++ split_lines b
unfolding split_lines
split_lines-append [] b h = refl
split_lines-append (c ∷ []) b h = ground arith
split_lines-append (c ∷ d ∷ s) b h =
    let (l, ls, e) = split_cons d s in rw (split_lines-append (d ∷ s) b h, e) (ground arith)

pub short_lines-append :
    (bound : ℕ) (xs ys : List (List ℕ))
    → short_lines bound xs ≡ xs
    → short_lines bound (xs ++ ys) ≡ xs ++ short_lines bound ys
unfolding short_lines
short_lines-append bound [] ys h = refl
short_lines-append bound (l ∷ ls) ys h = elim (Bool-cases (ltb (length l) bound)) [
  | inl e ↦ rw e (ap (λ r. l ∷ r) (short_lines-append bound ls ys (ground arith)))
  | inr e ↦ ground arith
]

-- Either every line is short, or the scanner gives up before the lines behind them.
short_or_stops :
    (bound : ℕ) (xs ys : List (List ℕ))
    → (short_lines bound xs ≡ xs) ⊎ (short_lines bound (xs ++ ys) ≡ short_lines bound xs)
unfolding short_lines
short_or_stops bound [] ys = inl refl
short_or_stops bound (l ∷ ls) ys = elim (Bool-cases (ltb (length l) bound)) [
  | inr e ↦ rw e (inr refl)
  | inl e ↦ elim (short_or_stops bound ls ys) [
    | inl all ↦ rw e (inl (ap (λ r. l ∷ r) all))
    | inr stops ↦ rw e (inr (ap (λ r. l ∷ r) stops))
  ]
]

-- Every line is shorter than the scanner's bound.
abbrev pub AreShort : ℕ → List ℕ → Type 0
AreShort bound bytes = short_lines bound (split_lines bytes) ≡ split_lines bytes

module _ {F : Type 0} (env : Env F) where
  abbrev pub full_scan : List ℕ → Scan F
  full_scan bytes = scan env (start env) bytes

  pub scan-append :
      (s : Scan F) (a b : List ℕ)
      → is_whole a ≡ true
      → AreShort env.line_bound a
      → scan env s (a ++ b) ≡ scan env (scan env s a) b
  unfolding scan
  scan-append s a b h short =
      let rest = short_lines env.line_bound (split_lines b) in
      rw
        (
          split_lines-append a b h,
          short_lines-append env.line_bound (split_lines a) (split_lines b) short,
          short,
          map-append drop_cr (split_lines a) rest,
          foldl-append (scan_line env) s (map drop_cr (split_lines a)) (map drop_cr rest),
        )
        refl

  -- Bytes that add nothing on their own add nothing behind whole lines.
  pub scan-append-idle :
      (s : Scan F) (a b : List ℕ)
      → is_whole a ≡ true
      → ((t : Scan F) → scan env t b ≡ t)
      → scan env s (a ++ b) ≡ scan env s a
  unfolding scan
  scan-append-idle s a b h idle =
      elim (short_or_stops env.line_bound (split_lines a) (split_lines b)) [
        | inl short ↦ scan-append s a b h short ∙ idle (scan env s a)
        | inr stops ↦ rw (split_lines-append a b h, stops) refl
      ]
