-- ===== src/Conversation/Pending/Latest.antt =====
-- A scan of a list that keeps the last call and drops it when an entry answers it: what it ends
-- with, in terms of where the call stands in the list.
use mathlib.Core.List.{foldl, foldl-append}
use agent_dashboard.Common.{
  ◌≡◌, ◌⊎◌, ◌↔◌, refl, ap, sym, ◌∙◌, Bool, true, false, Option, none, some, List, [], ◌∷◌, ◌++◌,
  All, inl, inr, if◌then◌else◌, arith,
}

module _ {E P : Type 0} (sets : E → Option P) (clears : P → E → Bool) where
  unfoldable pub keep_latest : Option P → E → Option P
  keep_latest s e = elim (sets e) [
    | some p ↦ some p
    | none ↦ elim s [ none ↦ none | some p ↦ if clears p e then none else some p ]
  ]

  -- An entry that makes no call and does not answer `p`.
  abbrev pub Leaves : P → E → Type 0
  Leaves p e = (sets e ≡ none) × (clears p e ≡ false)

  -- Some entry calls `p`, and every later one leaves it.
  pub record IsLatest (p : P) (es : List E) : Type 0 where
    pub before : List E
    pub call : E
    pub after : List E
    pub splits : es ≡ before ++ call ∷ after
    pub calls : sets call ≡ some p
    pub quiet : All (Leaves p) after

  keep_latest-Leaves : (p : P) (e : E) → Leaves p e → keep_latest (some p) e ≡ some p
  unfolding keep_latest
  keep_latest-Leaves p e (n, c) = ground (arith, n, c)

  foldl-Leaves : (p : P) (es : List E) → All (Leaves p) es → foldl keep_latest (some p) es ≡ some p
  foldl-Leaves p [] h = refl
  foldl-Leaves p (e ∷ es) (h, hs) = rw (keep_latest-Leaves p e h) (foldl-Leaves p es hs)

  keep_latest-some :
      (s : Option P) (e : E) (p : P)
      → keep_latest s e ≡ some p
      → (sets e ≡ some p) ⊎ ((s ≡ some p) × Leaves p e)
  unfolding keep_latest
  keep_latest-some s e p h = ground arith

  cons-IsLatest : (p : P) (e : E) (es : List E) → IsLatest p es → IsLatest p (e ∷ es)
  cons-IsLatest p e es l = record {
    before = e ∷ l.before;
    call = l.call;
    after = l.after;
    splits = ap (λ r. e ∷ r) l.splits;
    calls = l.calls;
    quiet = l.quiet;
  }

  foldl-some :
      (s : Option P) (es : List E) (p : P)
      → foldl keep_latest s es ≡ some p
      → ((s ≡ some p) × All (Leaves p) es) ⊎ IsLatest p es
  foldl-some s [] p h = inl (h, tt)
  foldl-some s (e ∷ es) p h = elim (foldl-some (keep_latest s e) es p h) [
    | inr l ↦ inr (cons-IsLatest p e es l)
    | inl (held, quiet) ↦ elim (keep_latest-some s e p held) [
      | inl c ↦
          inr
            (record { before = []; call = e; after = es; splits = refl; calls = c; quiet = quiet })
      | inr (s_held, leaves) ↦ inl (s_held, (leaves, quiet))
    ]
  ]

  keep_latest-call : (s : Option P) (e : E) (p : P) → sets e ≡ some p → keep_latest s e ≡ some p
  unfolding keep_latest
  keep_latest-call s e p h = ground arith

  IsLatest-foldl : (es : List E) (p : P) → IsLatest p es → foldl keep_latest none es ≡ some p
  IsLatest-foldl es p l =
      rw (l.splits, foldl-append keep_latest none l.before (l.call ∷ l.after))
        (ap (λ s. foldl keep_latest s l.after)
            (keep_latest-call (foldl keep_latest none l.before) l.call p l.calls)
          ∙ foldl-Leaves p l.after l.quiet)

  keep_latest-reply :
      (p : P) (e : E) → sets e ≡ none → clears p e ≡ true → keep_latest (some p) e ≡ none
  unfolding keep_latest
  keep_latest-reply p e n a = ground arith

  -- A call that the next and last entry answers is dropped.
  pub foldl-answered :
      (before : List E) (call reply : E) (p : P)
      → sets call ≡ some p
      → sets reply ≡ none
      → clears p reply ≡ true
      → foldl keep_latest none (before ++ call ∷ reply ∷ []) ≡ none
  foldl-answered before call reply p c n a =
      foldl-append keep_latest none before (call ∷ reply ∷ [])
      ∙ ap (λ s. keep_latest s reply) (keep_latest-call (foldl keep_latest none before) call p c)
      ∙ keep_latest-reply p reply n a

  only-IsLatest :
      (es : List E) (p : P) → ((none ≡ some p) × All (Leaves p) es) ⊎ IsLatest p es → IsLatest p es
  only-IsLatest es p (inl (n, q)) = cc
  only-IsLatest es p (inr l) = l

  -- Any scan whose state shows what `keep_latest` keeps ends with the latest call; `Good` is what the
  -- scan needs of an entry.
  module _ {S : Type 0} (step : S → E → S) (view : S → Option P) (Good : E → Type 0)
      (steps : (s : S) (e : E) → Good e → view (step s e) ≡ keep_latest (view s) e) where
    pub view-foldl :
        (s : S) (es : List E) → All Good es → view (foldl step s es) ≡ foldl keep_latest (view s) es
    view-foldl s [] good = refl
    view-foldl s (e ∷ es) (g, good) =
        view-foldl (step s e) es good ∙ ap (λ v. foldl keep_latest v es) (steps s e g)

    pub view-IsLatest :
        (start : S) (es : List E) (p : P)
        → All Good es
        → view start ≡ none
        → (view (foldl step start es) ≡ some p) ↔ IsLatest p es
    view-IsLatest start es p good n =
        let same : view (foldl step start es) ≡ foldl keep_latest none es =
          view-foldl start es good ∙ ap (λ v. foldl keep_latest v es) n in
        (
          λ h. only-IsLatest es p (foldl-some none es p (sym same ∙ h)),
          λ l. same ∙ IsLatest-foldl es p l,
        )

abbrev pub Anything {ℓ} : {E : Type ℓ} → E → Type 0
Anything e = Unit {0}

pub All-Anything {ℓ} : {E : Type ℓ} (es : List E) → All Anything es
All-Anything [] = tt
All-Anything (e ∷ es) = (tt, All-Anything es)
