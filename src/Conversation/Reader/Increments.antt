-- ===== src/Conversation/Reader/Increments.antt =====
-- internal/conversation/conversation.go: `ReadConversationIncremental` call after call, with the
-- entries and the offset of the call before, compared with `ReadConversation` of each version.
use mathlib.Core.List.{append-nil}
use agent_dashboard.Common.{
  ℕ, ◌<◌, ◌≡◌, ◌⊎◌, refl, ap, sym, ◌∙◌, subst, Bool, true, false, none, some, List, [], ◌∷◌, ◌++◌,
  map, length, length-append, drop, drop-length-append, drop-length, inl, inr, arith,
}
use agent_dashboard.Usage.{split_lines}
use agent_dashboard.Usage.Lines.{is_whole}
use agent_dashboard.Usage.{short_lines}
use agent_dashboard.Conversation.{Env, parsed, scanned_lines, entries_of}
use agent_dashboard.Conversation.Entries.{ConversationEntry, plan_saved_emitted}
use agent_dashboard.Conversation.Reader.{
  Scan, scanner_bound, add_slug_card, mark_new, cap_entries, Look, scan_from, read_at,
  read_conversation_incremental, read_conversation,
}
use agent_dashboard.Conversation.Reader.Chunks.{
  entries_of-append, shown, shown-append, has_slug, has_slug-append, no_card,
}
use agent_dashboard.Conversation.Reader.Marks.{waits_after, tag_all, plan_saved_emitted-tag_all}
use agent_dashboard.Conversation.Reader.Window.{plan_saved_emitted-cap_entries, cap_entries-nil}
use agent_dashboard.Conversation.Reader.Boundary.{but_last, mark_new-zero, tags-GoesOn}

-- A transcript at one call.
pub record Version : Type 0 where
  pub content : List ℕ
  pub seekable : Bool

abbrev pub look_at : Version → Look
look_at v = record {
  size = length v.content;
  content = v.content;
  seekable = v.seekable;
  rewindable = true;
}

-- Every line is shorter than the scanner's bound, and the last is whole.
abbrev pub IsComplete : List ℕ → Type 0
IsComplete bytes =
    (is_whole bytes ≡ true) × (short_lines scanner_bound (split_lines bytes) ≡ split_lines bytes)

module _ (env : Env) where
  -- What a scan of all bytes shows before the window is cut.
  abbrev pub said : List ℕ → List ConversationEntry
  said bytes = shown env (entries_of env scanner_bound bytes)

  -- Where a line has a slug, a plan has been handed over.
  abbrev pub IsPlanned : List ℕ → Type 0
  IsPlanned bytes =
      has_slug env (entries_of env scanner_bound bytes) ≡ true
      → plan_saved_emitted (said bytes) ≡ true

  -- No notification before the last entry still waits for its answer.
  abbrev pub IsAnswered : List ℕ → Type 0
  IsAnswered bytes = waits_after false (but_last (said bytes)) ≡ false

  abbrev pub Grows : List ℕ → List ℕ → Type 0
  Grows a b =
      IsComplete a × IsAnswered a × IsPlanned a × IsPlanned b × (more : List ℕ) × (b ≡ a ++ more)

  abbrev pub Evolves : Version → Version → Type 0
  Evolves v w =
      (w.content ≡ v.content) ⊎ (length w.content < length v.content) ⊎ Grows v.content w.content

  abbrev pub EvolvesFrom : Version → List Version → Type 0
  EvolvesFrom v [] = Unit
  EvolvesFrom v (w ∷ ws) = Evolves v w × EvolvesFrom w ws

List-cases :
    (es : List ConversationEntry)
    → (es ≡ []) ⊎ ((f : ConversationEntry) × (fs : List ConversationEntry) × (es ≡ f ∷ fs))
List-cases [] = inl refl
List-cases (e ∷ es) = inr (e, es, refl)

module _ (env : Env) (limit : ℕ) where
  full-read :
      (bytes : List ℕ)
      → IsPlanned env bytes
      → scan_from env limit [] bytes ≡ cap_entries limit (tag_all false (said env bytes))
  unfolding scan_from
  full-read bytes planned =
      let s : Scan = record { all = []; slug_first = none; exit_plan_emitted = false } in
      rw
        (
          no_card env s (entries_of env scanner_bound bytes) refl planned,
          mark_new-zero (said env bytes),
        )
        refl

  -- A call that goes on from the entries of the version before gives those of a full read.
  scan_from-go_on :
      (a b : List ℕ)
      → IsComplete a
      → IsAnswered env a
      → IsPlanned env a
      → IsPlanned env (a ++ b)
      → scan_from env limit (scan_from env limit [] a) b ≡ scan_from env limit [] (a ++ b)
  unfolding scan_from
  scan_from-go_on a b (whole, short) answered planned planned' =
      let prev = cap_entries limit (tag_all false (said env a)) in
      let s : Scan = record { all = prev; slug_first = none; exit_plan_emitted = false } in
      let lines = entries_of env scanner_bound in
      let both : lines (a ++ b) ≡ lines a ++ lines b =
        entries_of-append env scanner_bound a b whole short in
      let said_both : said env (a ++ b) ≡ said env a ++ said env b =
        ap (shown env) both ∙ shown-append env (lines a) (lines b) in
      let same_plans : plan_saved_emitted (prev ++ said env b)
          ≡ plan_saved_emitted (said env (a ++ b)) =
        plan_saved_emitted-cap_entries limit (tag_all false (said env a)) (said env b)
        ∙ plan_saved_emitted-tag_all false (said env a) (said env b)
        ∙ ap plan_saved_emitted (sym said_both) in
      let kept : has_slug env (lines b) ≡ true → plan_saved_emitted (prev ++ said env b) ≡ true =
        λ slug.
          same_plans
          ∙ planned' (ap (has_slug env) both ∙ has_slug-append env (lines a) (lines b) slug) in
      let start : scan_from env limit [] a ≡ prev = full-read a planned in
      let end : scan_from env limit [] (a ++ b)
          ≡ cap_entries limit (tag_all false (said env a ++ said env b)) =
        full-read (a ++ b) planned' ∙ ap (λ l. cap_entries limit (tag_all false l)) said_both in
      ap (λ p. scan_from env limit p b) start
      ∙ ap (λ l. cap_entries limit (mark_new (length prev) l)) (no_card env s (lines b) refl kept)
      ∙ tags-GoesOn limit (said env b) (said env a) answered
      ∙ sym end

  abbrev full : Version → List ConversationEntry
  full v = read_conversation env limit (some (look_at v))

  full-eq : (v : Version) → full v ≡ scan_from env limit [] v.content
  unfolding read_conversation read_conversation_incremental read_at
  full-eq v = ground arith

  -- What a call gives: the entries of a full read, and the size as the next offset.
  abbrev IsRead : Version → List ConversationEntry × ℕ → Type 0
  IsRead v r = (r.0 ≡ full v) × (r.1 ≡ length v.content)

  read_at-IsRead :
      (w : Version) (prev : List ConversationEntry) (n : ℕ)
      → scan_from env limit prev (drop n w.content) ≡ full w
      → IsRead w (read_at env limit (look_at w) prev n)
  unfolding read_at
  read_at-IsRead w prev n h = ground (arith, full-eq w)

  read_at-zero :
      (w : Version) (prev : List ConversationEntry)
      → IsRead w (read_at env limit (look_at w) prev 0)
  unfolding read_at
  read_at-zero w prev = (sym (full-eq w), refl)

  scan_from-nil : scan_from env limit [] [] ≡ []
  unfolding scan_from entries_of parsed scanned_lines short_lines split_lines add_slug_card mark_new
  scan_from-nil = cap_entries-nil limit

  same_rest :
      (v w : Version)
      → w.content ≡ v.content
      → full v ≡ []
      → scan_from env limit [] (drop (length v.content) w.content) ≡ full w
  same_rest v w same empty =
      ap (scan_from env limit []) (ap (drop (length v.content)) same ∙ drop-length v.content)
      ∙ scan_from-nil
      ∙ sym (sym (full-eq v) ∙ empty)
      ∙ ap (scan_from env limit []) (sym same)
      ∙ sym (full-eq w)

  grown_rest :
      (v w : Version) (more : List ℕ)
      → IsComplete v.content
      → IsAnswered env v.content
      → IsPlanned env v.content
      → IsPlanned env w.content
      → w.content ≡ v.content ++ more
      → scan_from env limit (full v) (drop (length v.content) w.content) ≡ full w
  grown_rest v w more complete answered planned planned' grown =
      ap (λ p. scan_from env limit p (drop (length v.content) w.content)) (full-eq v)
      ∙ ap (scan_from env limit (scan_from env limit [] v.content))
          (ap (drop (length v.content)) grown ∙ drop-length-append v.content more)
      ∙ scan_from-go_on v.content more complete answered planned
          (subst (IsPlanned env) grown planned')
      ∙ ap (scan_from env limit []) (sym grown)
      ∙ sym (full-eq w)

  full-same : (v w : Version) → w.content ≡ v.content → full v ≡ full w
  full-same v w same = full-eq v ∙ ap (scan_from env limit []) (sym same) ∙ sym (full-eq w)

  -- A file that is as it was: the entries are handed back, or there are none.
  same-IsRead :
      (v w : Version) (prev : List ConversationEntry)
      → full v ≡ prev
      → w.content ≡ v.content
      → IsRead w
          (read_conversation_incremental env limit (some (look_at w)) prev (length v.content))
  unfolding read_conversation_incremental
  same-IsRead v w [] empty same =
      let rest = same_rest v w same empty in
      ground (arith, read_at-IsRead w [] (length v.content) rest, ap length same)
  same-IsRead v w (e ∷ es) filled same =
      ground (arith, full-same v w same, ap length same, full-eq w, read_at-zero w (e ∷ es))

  longer-IsRead :
      (w : Version) (prev : List ConversationEntry) (n : ℕ)
      → n < length w.content
      → scan_from env limit prev (drop n w.content) ≡ full w
      → IsRead w (read_conversation_incremental env limit (some (look_at w)) prev n)
  unfolding read_conversation_incremental
  longer-IsRead w prev n lt rest = ground (arith, read_at-IsRead w prev n rest)

  shorter-IsRead :
      (w : Version) (prev : List ConversationEntry) (n : ℕ)
      → length w.content < n
      → IsRead w (read_conversation_incremental env limit (some (look_at w)) prev n)
  unfolding read_conversation_incremental
  shorter-IsRead w prev n lt = ground (arith, full-eq w)

  next-IsRead :
      (v w : Version)
      → Evolves env v w
      → IsRead w
          (read_conversation_incremental env limit (some (look_at w)) (full v) (length v.content))
  next-IsRead v w (inl same) = same-IsRead v w (full v) refl same
  next-IsRead v w (inr (inl shrunk)) = shorter-IsRead w (full v) (length v.content) shrunk
  next-IsRead v w (inr (inr (complete, answered, planned, planned', [], grown))) =
      same-IsRead v w (full v) refl (grown ∙ append-nil v.content)
  next-IsRead v w (inr (inr (complete, answered, planned, planned', c ∷ more, grown))) =
      longer-IsRead w (full v) (length v.content)
        (omega (arith, ap length grown, length-append v.content (c ∷ more)))
        (grown_rest v w (c ∷ more) complete answered planned planned' grown)

  first-IsRead :
      (v : Version) → IsRead v (read_conversation_incremental env limit (some (look_at v)) [] 0)
  unfolding read_conversation_incremental
  first-IsRead v = ground (arith, full-eq v)

  -- The calls on the versions one after another, each with what the one before gave.
  unfoldable pub read_versions :
      List Version → List ConversationEntry → ℕ → List (List ConversationEntry)
  read_versions [] prev offset = []
  read_versions (v ∷ vs) prev offset =
      let (es, next) = read_conversation_incremental env limit (some (look_at v)) prev offset in
      es ∷ read_versions vs es next

  read_after :
      (v : Version) (vs : List Version)
      → EvolvesFrom env v vs
      → read_versions vs (full v) (length v.content) ≡ map full vs
  unfolding read_versions
  read_after v [] h = refl
  read_after v (w ∷ ws) (ev, evs) =
      let (es, size) = next-IsRead v w ev in
      rw (es, size) (ap (λ l. full w ∷ l) (read_after w ws evs))

  -- Every call on a transcript gives what a full read of it gives, however the transcript evolves
  -- between the calls: it stays the same, gets shorter, or gets bytes behind whole lines that are
  -- shorter than the scanner's bound. Where it grows, every notification before its last entry has
  -- its answer, and a slug comes with a plan that was handed over, before and after.
  pub read_versions-full_read :
      (v : Version) (vs : List Version)
      → EvolvesFrom env v vs
      → read_versions (v ∷ vs) [] 0 ≡ map full (v ∷ vs)
  unfolding read_versions
  read_versions-full_read v vs h =
      let (es, size) = first-IsRead v in rw (es, size) (ap (λ l. full v ∷ l) (read_after v vs h))
