-- ===== src/Conversation/Reader/Chunks.antt =====
-- internal/conversation/conversation.go: the scanner's loop of `ReadConversationIncremental` over a
-- transcript in two parts.
use mathlib.Core.List.{append_assoc, append-nil, map-append}
use agent_dashboard.Common.{
  ℕ, ◌≡◌, refl, ap, sym, ◌∙◌, Bool, true, false, ◌||◌, Option, none, some, List, [], ◌∷◌, ◌++◌, map,
  str_eq, non_empty, inl, inr, if◌then◌else◌, arith, Bool-cases,
}
use agent_dashboard.Usage.{split_lines, drop_cr}
use agent_dashboard.Usage.Lines.{is_whole, split_lines-append}
use agent_dashboard.Usage.{short_lines}
use agent_dashboard.Usage.Lines.{short_lines-append}
use agent_dashboard.Conversation.{Env, JsonlEntry, scanned_lines, parsed, entries_of}
use agent_dashboard.Conversation.Entries.{
  ConversationEntry, parse_user_entry, parse_assistant_entry, extract_plan_saved_entry,
  plan_saved_emitted,
}
use agent_dashboard.Conversation.Reader.{
  Scan, with_entry, with_plan, note_slug, scan_entry, scan_entries, add_slug_card,
}

module _ (env : Env) where
  parsed-append : (xs ys : List (List ℕ)) → parsed env (xs ++ ys) ≡ parsed env xs ++ parsed env ys
  unfolding parsed
  parsed-append [] ys = refl
  parsed-append ([] ∷ ls) ys = parsed-append ls ys
  parsed-append ((c ∷ l) ∷ ls) ys = ground (arith, parsed-append ls ys)

  pub entries_of-append :
      (bound : ℕ) (a b : List ℕ)
      → is_whole a ≡ true
      → short_lines bound (split_lines a) ≡ split_lines a
      → entries_of env bound (a ++ b) ≡ entries_of env bound a ++ entries_of env bound b
  unfolding entries_of scanned_lines
  entries_of-append bound a b whole short =
      rw
        (
          split_lines-append a b whole,
          short_lines-append bound (split_lines a) (split_lines b) short,
          short,
          map-append drop_cr (split_lines a) (short_lines bound (split_lines b)),
        )
        (parsed-append (map drop_cr (split_lines a))
          (map drop_cr (short_lines bound (split_lines b))))

  -- The entries that a line adds, and those of all lines.
  abbrev listed : Option ConversationEntry → List ConversationEntry
  listed none = []
  listed (some e) = e ∷ []

  unfoldable pub added : JsonlEntry → List ConversationEntry
  added entry =
      if str_eq entry.type "user"
      then listed (parse_user_entry env entry)
      else if str_eq entry.type "assistant"
      then listed (parse_assistant_entry env entry) ++ listed (extract_plan_saved_entry entry)
      else []

  unfoldable pub shown : List JsonlEntry → List ConversationEntry
  unfolding added
  shown [] = []
  shown (e ∷ es) = added e ++ shown es

  pub shown-append : (xs ys : List JsonlEntry) → shown (xs ++ ys) ≡ shown xs ++ shown ys
  unfolding shown
  shown-append [] ys = refl
  shown-append (e ∷ es) ys =
      rw (shown-append es ys) (sym (append_assoc (added e) (shown es) (shown ys)))

  with_entry-all :
      (s : Scan) (o : Option ConversationEntry) → (with_entry s o).all ≡ s.all ++ listed o
  with_entry-all s none = sym (append-nil s.all)
  with_entry-all s (some e) = refl

  with_plan-all :
      (s : Scan) (o : Option ConversationEntry) → (with_plan s o).all ≡ s.all ++ listed o
  with_plan-all s none = sym (append-nil s.all)
  with_plan-all s (some e) = refl

  note_slug-all : (s : Scan) (entry : JsonlEntry) → (note_slug entry s).all ≡ s.all
  unfolding note_slug
  note_slug-all s entry = ground arith

  scan_entry-all :
      (s : Scan) (entry : JsonlEntry) → (scan_entry env s entry).all ≡ s.all ++ added entry
  unfolding scan_entry added
  scan_entry-all s entry = elim (Bool-cases (str_eq entry.type "user")) [
    | inl u ↦ rw u (
        note_slug-all (with_entry s (parse_user_entry env entry)) entry
        ∙ with_entry-all s (parse_user_entry env entry))
    | inr n ↦ elim (Bool-cases (str_eq entry.type "assistant")) [
      | inl a ↦
          let t = with_entry s (parse_assistant_entry env entry) in
          let p = extract_plan_saved_entry entry in
          rw (n, a)
            (note_slug-all (with_plan t p) entry
              ∙ with_plan-all t p
              ∙ ap (λ l. l ++ listed p) (with_entry-all s (parse_assistant_entry env entry))
              ∙ append_assoc s.all (listed (parse_assistant_entry env entry)) (listed p))
      | inr o ↦ rw (n, o) (note_slug-all s entry ∙ sym (append-nil s.all))
    ]
  ]

  pub scan_entries-all :
      (s : Scan) (es : List JsonlEntry) → (scan_entries env s es).all ≡ s.all ++ shown es
  unfolding scan_entries shown
  scan_entries-all s [] = sym (append-nil s.all)
  scan_entries-all s (e ∷ es) =
      scan_entries-all (scan_entry env s e) es
      ∙ ap (λ l. l ++ shown es) (scan_entry-all s e)
      ∙ append_assoc s.all (added e) (shown es)

  unfoldable pub has_slug : List JsonlEntry → Bool
  has_slug [] = false
  has_slug (e ∷ es) = non_empty e.slug || has_slug es

  pub has_slug-append : (xs ys : List JsonlEntry) → has_slug ys ≡ true → has_slug (xs ++ ys) ≡ true
  unfolding has_slug
  has_slug-append [] ys h = h
  has_slug-append (e ∷ es) ys h = ground (arith, has_slug-append es ys)

  step-slug :
      (s : Scan) (e : JsonlEntry)
      → non_empty e.slug ≡ false
      → (scan_entry env s e).slug_first ≡ s.slug_first
  unfolding scan_entry note_slug
  step-slug s e h = ground arith

  -- Lines without a slug leave no place for a card.
  no_slug :
      (s : Scan) (es : List JsonlEntry)
      → s.slug_first ≡ none
      → has_slug es ≡ false
      → (scan_entries env s es).slug_first ≡ none
  unfolding scan_entries has_slug
  no_slug s [] n h = n
  no_slug s (e ∷ es) n h =
      let quiet : non_empty e.slug ≡ false = ground arith in
      no_slug (scan_entry env s e) es (step-slug s e quiet ∙ n) (ground arith)

  -- Where lines with a slug come with a plan that was handed over, no card is added.
  pub no_card :
      (s : Scan) (es : List JsonlEntry)
      → s.slug_first ≡ none
      → (has_slug es ≡ true → plan_saved_emitted (s.all ++ shown es) ≡ true)
      → add_slug_card (scan_entries env s es) ≡ s.all ++ shown es
  unfolding add_slug_card
  no_card s es n planned = elim (Bool-cases (has_slug es)) [
    | inl slug ↦
        let p : plan_saved_emitted (scan_entries env s es).all ≡ true =
          rw (scan_entries-all s es) (planned slug) in
        card_free (scan_entries env s es) p ∙ scan_entries-all s es
    | inr none_there ↦ rw (no_slug s es n none_there, add_slug_card) (scan_entries-all s es)
  ]
    where
      card_free : (t : Scan) → plan_saved_emitted t.all ≡ true → add_slug_card t ≡ t.all
      card_free t p = ground arith
