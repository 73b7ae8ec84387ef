-- ===== src/Rollout/Increments.antt =====
-- internal/codex/conversation/parser.go: `ReadIncremental` call after call, with the entries and the
-- offset of the call before, compared with a full read of each version.
use mathlib.Core.List.{append-nil}
use agent_dashboard.Common.{
  ℕ, ◌<◌, ◌≡◌, ◌⊎◌, refl, ap, sym, ◌∙◌, true, false, Option, List, [], ◌∷◌, ◌++◌, map, length,
  length-append, drop, drop-length, drop-length-append, inl, inr, arith, Bool-cases,
}
use agent_dashboard.Usage.{split_lines}
use agent_dashboard.Usage.Lines.{is_whole}
use agent_dashboard.Usage.{short_lines}
use agent_dashboard.Conversation.{scanned_lines}
use agent_dashboard.Conversation.Entries.{ConversationEntry}
use agent_dashboard.Conversation.Reader.Increments.{Version, look_at}
use agent_dashboard.Rollout.{
  RolloutLine, opened, Read, keep_last, scan_fails, no_read, parsed, lines_of, conversation_of,
  scan_from, read_at, read_incremental,
}
use agent_dashboard.Rollout.Window.{keep_last-keep_last}
use agent_dashboard.Rollout.Lines.{said_in, said_in-append, scan_fails-append}

-- Between two calls the file stays the same, or gets shorter, or gets bytes behind a whole line.
abbrev pub Evolves : Version → Version → Type 0
Evolves v w =
    (w.content ≡ v.content)
    ⊎ (length w.content < length v.content)
    ⊎ (is_whole v.content ≡ true) × (more : List ℕ) × (w.content ≡ v.content ++ more)

abbrev pub EvolvesFrom : Version → List Version → Type 0
EvolvesFrom v [] = Unit
EvolvesFrom v (w ∷ ws) = Evolves v w × EvolvesFrom w ws

module _ (parse_line : List ℕ → Option RolloutLine) (limit : ℕ) where
  -- A scan from the entries of the version before gives those of a full one, or the same error.
  scan_from-go_on :
      (a b : List ℕ) (n : ℕ)
      → is_whole a ≡ true
      → scan_fails a ≡ false
      → scan_from parse_line limit n (keep_last limit (said_in parse_line a)) b
        ≡ scan_from parse_line limit n [] (a ++ b)
  unfolding scan_from
  scan_from-go_on a b n whole fits = ground (
    arith,
    scan_fails-append parse_line a b whole fits,
    said_in-append parse_line a b whole fits,
    keep_last-keep_last limit (said_in parse_line a) (said_in parse_line b),
  )

  abbrev pub full : Version → Read
  full v = read_incremental parse_line limit (opened (look_at v)) [] 0

  abbrev next : Version → List ConversationEntry → ℕ → Read
  next w prev offset = read_incremental parse_line limit (opened (look_at w)) prev offset

  abbrev from_start : Version → Read
  from_start v = scan_from parse_line limit (length v.content) [] v.content

  full-eq : (v : Version) → full v ≡ from_start v
  unfolding read_incremental read_at
  full-eq v = ground arith

  abbrev held : Version → List ConversationEntry
  held v = keep_last limit (said_in parse_line v.content)

  abbrev good : List ConversationEntry → ℕ → Read
  good es n = record { entries = es; offset = n; is_error = false }

  -- A full read fails, and the next begins anew, or it gives the entries and the size.
  full-bad : (v : Version) → scan_fails v.content ≡ true → full v ≡ no_read true
  unfolding scan_from
  full-bad v h = full-eq v ∙ bad (length v.content) v.content h
    where
      bad :
          (n : ℕ) (bytes : List ℕ)
          → scan_fails bytes ≡ true
          → scan_from parse_line limit n [] bytes ≡ no_read true
      bad n bytes h = rw (h, scan_from) refl

  full-good :
      (v : Version) → scan_fails v.content ≡ false → full v ≡ good (held v) (length v.content)
  unfolding scan_from
  full-good v h = full-eq v ∙ rw h refl

  full-same : (v w : Version) → w.content ≡ v.content → full v ≡ full w
  full-same v w same =
      full-eq v
      ∙ ap (λ (c : List ℕ). scan_from parse_line limit (length c) [] c) (sym same)
      ∙ sym (full-eq w)

  read_at-eq :
      (w : Version) (prev : List ConversationEntry) (n : ℕ)
      → scan_from parse_line limit (length w.content) prev (drop n w.content) ≡ full w
      → read_at parse_line limit (look_at w) prev n ≡ full w
  unfolding read_at
  read_at-eq w prev n h = ground (arith, full-eq w)

  read_at-start :
      (w : Version) (prev : List ConversationEntry)
      → read_at parse_line limit (look_at w) prev 0 ≡ full w
  unfolding read_at
  read_at-start w prev = sym (full-eq w)

  read_nothing : (n : ℕ) → scan_from parse_line limit n [] [] ≡ good [] n
  unfolding scan_from keep_last conversation_of parsed lines_of scanned_lines short_lines
      split_lines scan_fails
  read_nothing n = ground arith

  same_rest :
      (v w : Version)
      → scan_fails v.content ≡ false
      → w.content ≡ v.content
      → held v ≡ []
      → scan_from parse_line limit (length w.content) [] (drop (length v.content) w.content)
        ≡ full w
  same_rest v w fits same empty =
      ap (λ (c : List ℕ). scan_from parse_line limit (length w.content) [] c)
        (ap (drop (length v.content)) same ∙ drop-length v.content)
      ∙ read_nothing (length w.content)
      ∙ ap (good []) (ap length same)
      ∙ ap (λ es. good es (length v.content)) (sym empty)
      ∙ sym (full-good v fits)
      ∙ full-same v w same

  next-same :
      (v w : Version) (prev : List ConversationEntry)
      → scan_fails v.content ≡ false
      → held v ≡ prev
      → w.content ≡ v.content
      → next w prev (length v.content) ≡ full w
  unfolding read_incremental
  next-same v w [] fits empty same =
      let rest = read_at-eq w [] (length v.content) (same_rest v w fits same empty) in
      ground (arith, rest, ap length same)
  next-same v w (e ∷ es) fits filled same =
      let shown : good (e ∷ es) (length v.content) ≡ full w =
        ap (λ l. good l (length v.content)) (sym filled)
        ∙ sym (full-good v fits)
        ∙ full-same v w same in
      ground (arith, ap length same, read_at-start w (e ∷ es), shown)

  next-longer :
      (w : Version) (prev : List ConversationEntry) (n : ℕ)
      → n < length w.content
      → scan_from parse_line limit (length w.content) prev (drop n w.content) ≡ full w
      → next w prev n ≡ full w
  unfolding read_incremental
  next-longer w prev n lt h = ground (arith, read_at-eq w prev n h)

  next-shorter :
      (w : Version) (prev : List ConversationEntry) (n : ℕ)
      → length w.content < n
      → next w prev n ≡ full w
  unfolding read_incremental
  next-shorter w prev n lt = ground (arith, read_at-start w [])

  grown_rest :
      (v w : Version) (more : List ℕ)
      → scan_fails v.content ≡ false
      → is_whole v.content ≡ true
      → w.content ≡ v.content ++ more
      → scan_from parse_line limit (length w.content) (held v) (drop (length v.content) w.content)
        ≡ full w
  grown_rest v w more fits whole grown =
      ap (scan_from parse_line limit (length w.content) (held v))
        (ap (drop (length v.content)) grown ∙ drop-length-append v.content more)
      ∙ scan_from-go_on v.content more (length w.content) whole fits
      ∙ ap (scan_from parse_line limit (length w.content) []) (sym grown)
      ∙ sym (full-eq w)

  next-good :
      (v w : Version)
      → scan_fails v.content ≡ false
      → Evolves v w
      → next w (held v) (length v.content) ≡ full w
  next-good v w fits (inl same) = next-same v w (held v) fits refl same
  next-good v w fits (inr (inl shorter)) = next-shorter w (held v) (length v.content) shorter
  next-good v w fits (inr (inr (whole, [], grown))) =
      next-same v w (held v) fits refl (grown ∙ append-nil v.content)
  next-good v w fits (inr (inr (whole, c ∷ more, grown))) =
      next-longer w (held v) (length v.content)
        (omega (arith, ap length grown, length-append v.content (c ∷ more)))
        (grown_rest v w (c ∷ more) fits whole grown)

  next-full : (v w : Version) → Evolves v w → next w (full v).entries (full v).offset ≡ full w
  next-full v w ev = elim (Bool-cases (scan_fails v.content)) [
    | inl bad ↦ ap (λ r. next w r.entries r.offset) (full-bad v bad)
    | inr fits ↦ ap (λ r. next w r.entries r.offset) (full-good v fits) ∙ next-good v w fits ev
  ]

  -- The calls on the versions one after another, each with what the one before gave.
  unfoldable pub read_versions : List Version → List ConversationEntry → ℕ → List Read
  read_versions [] prev offset = []
  read_versions (v ∷ vs) prev offset =
      let r = read_incremental parse_line limit (opened (look_at v)) prev offset in
      r ∷ read_versions vs r.entries r.offset

  read_after :
      (v : Version) (vs : List Version)
      → EvolvesFrom v vs
      → read_versions vs (full v).entries (full v).offset ≡ map full vs
  unfolding read_versions
  read_after v [] h = refl
  read_after v (w ∷ ws) (ev, evs) =
      ap (λ r. r ∷ read_versions ws r.entries r.offset) (next-full v w ev)
      ∙ ap (λ l. full w ∷ l) (read_after w ws evs)

  -- Every call on a rollout gives what a full read of it gives, its entries, its offset and its
  -- error, where between two calls the file stays the same, gets shorter, or gets bytes behind a
  -- whole last line.
  pub read_versions-full_rollout :
      (v : Version) (vs : List Version)
      → EvolvesFrom v vs
      → read_versions (v ∷ vs) [] 0 ≡ map full (v ∷ vs)
  unfolding read_versions
  read_versions-full_rollout v vs h = ap (λ l. full v ∷ l) (read_after v vs h)
