-- ===== src/Conversation/Reader/Boundary.antt =====
-- internal/conversation/conversation.go: the tags over a window of earlier entries and new ones,
-- where the earlier ones are tagged.
use mathlib.Core.List.{append_assoc}
use agent_dashboard.Common.{
  ℕ, suc, ◌-◌, ◌≡◌, refl, ap, sym, ◌∙◌, subst, true, false, List, [], ◌∷◌, ◌++◌, length,
  length-append, take, drop-length-append, ltb, arith,
}
use agent_dashboard.Conversation.Entries.{ConversationEntry}
use agent_dashboard.Conversation.Reader.{mark_new, cap_entries}
use agent_dashboard.Conversation.Reader.Marks.{
  waits, waits_after, tag, tag_all, mark_notifications-eq-tag_all, tag_all-append, tag-tag,
  waits-tag,
}
use agent_dashboard.Conversation.Reader.Window.{
  cap_entries-cap_entries, last-cap_entries, cap_entries-nil,
}

-- All entries but the last.
unfoldable pub but_last : List ConversationEntry → List ConversationEntry
but_last [] = []
but_last (e ∷ []) = []
but_last (e ∷ f ∷ es) = e ∷ but_last (f ∷ es)

but_last-cons :
    (e : ConversationEntry) (es : List ConversationEntry)
    → (z : ConversationEntry) × (e ∷ es ≡ but_last (e ∷ es) ++ z ∷ [])
unfolding but_last
but_last-cons e [] = (e, refl)
but_last-cons e (f ∷ es) = let (z, h) = but_last-cons f es in (z, ap (λ l. e ∷ l) h)

pub mark_new-zero : (all : List ConversationEntry) → mark_new 0 all ≡ tag_all false all
unfolding mark_new tag_all
mark_new-zero [] = refl
mark_new-zero (e ∷ all) =
    let some_left : ltb 0 (suc (length all)) ≡ true = ground arith in
    rw some_left (mark_notifications-eq-tag_all (e ∷ all))

take-length-append : (xs ys : List ConversationEntry) → take (length xs) (xs ++ ys) ≡ xs
take-length-append [] ys = refl
take-length-append (x ∷ xs) ys = ap (λ l. x ∷ l) (take-length-append xs ys)

mark_new-last :
    (front : List ConversationEntry) (z : ConversationEntry) (more : List ConversationEntry)
    → mark_new (length (front ++ z ∷ [])) ((front ++ z ∷ []) ++ more)
      ≡ front ++ tag_all false (z ∷ more)
unfolding mark_new
mark_new-last front z more =
    let n : length (front ++ z ∷ []) - 1 ≡ length front =
      omega (arith, length-append front (z ∷ [])) in
    let longer : ltb (length front) (length (front ++ z ∷ more)) ≡ true =
      ground (arith, length-append front (z ∷ more)) in
    rw
      (
        n,
        append_assoc front (z ∷ []) more,
        longer,
        drop-length-append front (z ∷ more),
        mark_notifications-eq-tag_all (z ∷ more),
        take-length-append front (z ∷ more),
      )
      refl

module _ (limit : ℕ) (more : List ConversationEntry) where
  -- Tagging the window and what is new, and tagging all, show the same.
  abbrev GoesOn : List ConversationEntry → Type 0
  GoesOn es =
      let shown = cap_entries limit (tag_all false es) in
      cap_entries limit (mark_new (length shown) (shown ++ more))
      ≡ cap_entries limit (tag_all false (es ++ more))

  snoc-GoesOn :
      (front : List ConversationEntry) (z : ConversationEntry)
      → waits_after false front ≡ false
      → GoesOn (front ++ z ∷ [])
  unfolding tag_all
  snoc-GoesOn front z quiet =
      let before = tag_all false front ++ tag false z ∷ [] in
      let after = tag_all (waits false z) more in
      let tagged : tag_all false (front ++ z ∷ []) ≡ before =
        tag_all-append false front (z ∷ []) ∙ rw quiet refl in
      let (kept, c) = last-cap_entries limit (tag_all false front) (tag false z) in
      let whole : tag_all false ((front ++ z ∷ []) ++ more) ≡ before ++ after =
        rw (append_assoc front (z ∷ []) more, tag_all-append false front (z ∷ more), quiet)
          (sym (append_assoc (tag_all false front) (tag false z ∷ []) after)) in
      rw
        (
          tagged,
          whole,
          c,
          mark_new-last kept (tag false z) more,
          tag-tag false z,
          waits-tag false z,
        )
        (ap (cap_entries limit) (sym (append_assoc kept (tag false z ∷ []) after))
          ∙ ap (λ l. cap_entries limit (l ++ after)) (sym c)
          ∙ cap_entries-cap_entries limit before after)

  pub tags-GoesOn :
      (es : List ConversationEntry) → waits_after false (but_last es) ≡ false → GoesOn es
  unfolding tag_all
  tags-GoesOn [] h = rw (cap_entries-nil limit, mark_new-zero more) refl
  tags-GoesOn (e ∷ es) h =
      let (z, split) = but_last-cons e es in
      subst GoesOn (sym split) (snoc-GoesOn (but_last (e ∷ es)) z h)
