-- ===== src/Conversation/Sessions/Found.antt =====
-- internal/conversation/conversation.go: which directory `PickProjDir` finds.
use agent_dashboard.Common.{
  ℕ, ◌≡◌, refl, ap, sym, ◌∙◌, String, Bool, true, false, Option, none, some, List, [], ◌∷◌, All,
  is_empty, inl, inr, if◌then◌else◌, arith, Bool-cases,
}
use agent_dashboard.Conversation.Texts.{is_nil}
use agent_dashboard.Conversation.Sessions.{project_slug, equal, mem_slug, pick_from, pick_proj_dir}

-- The slug of the first candidate that is not empty and has the session's file.
first_held : (List ℕ → Bool) → List (List ℕ) → Option (List ℕ)
first_held holds [] = none
first_held holds (c ∷ candidates) =
    let rest = first_held holds candidates in
    if is_nil c then rest else if holds (project_slug c) then some (project_slug c) else rest

equal-eq : (s t : List ℕ) → equal s t ≡ true → s ≡ t
unfolding equal
equal-eq [] [] h = refl
equal-eq [] (d ∷ t) h = cc
equal-eq (c ∷ s) [] h = cc
equal-eq (c ∷ s) (d ∷ t) h = ground (arith, equal-eq s t)

module _ (holds : List ℕ → Bool) where
  -- A slug that was tried and is not there.
  abbrev IsMissing : List ℕ → Type 0
  IsMissing slug = holds slug ≡ false

  tried-IsMissing :
      (slug : List ℕ) (seen : List (List ℕ))
      → All IsMissing seen
      → mem_slug slug seen ≡ true
      → IsMissing slug
  unfolding mem_slug
  tried-IsMissing slug [] missing h = cc
  tried-IsMissing slug (s ∷ seen) (m, missing) h = elim (Bool-cases (equal s slug)) [
    | inl e ↦ ap holds (sym (equal-eq s slug e)) ∙ m
    | inr n ↦ tried-IsMissing slug seen missing (ground arith)
  ]

  pick_from-eq-first_held :
      (seen candidates : List (List ℕ))
      → All IsMissing seen
      → pick_from holds seen candidates ≡ first_held holds candidates
  unfolding pick_from first_held
  pick_from-eq-first_held seen [] missing = refl
  pick_from-eq-first_held seen (c ∷ candidates) missing =
      let slug = project_slug c in
      let skipped = pick_from-eq-first_held seen candidates missing in
      elim (Bool-cases (mem_slug slug seen)) [
        | inl tried ↦ ground (arith, skipped, tried-IsMissing slug seen missing tried)
        | inr fresh ↦ elim (Bool-cases (holds slug)) [
          | inl there ↦ ground (arith, skipped)
          | inr not_there ↦
              let rest = pick_from-eq-first_held (slug ∷ seen) candidates (not_there, missing) in
              ground (arith, skipped, rest)
        ]
      ]

  -- The test of each slug only once changes nothing: the first candidate whose slug is there wins.
  pick_proj_dir-eq-first_held :
      (session_id : String) (candidates : List (List ℕ))
      → is_empty session_id ≡ false
      → pick_proj_dir session_id holds candidates ≡ first_held holds candidates
  unfolding pick_proj_dir
  pick_proj_dir-eq-first_held session_id candidates named =
      rw named (pick_from-eq-first_held [] candidates tt)
