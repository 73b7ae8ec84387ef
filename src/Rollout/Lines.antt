-- ===== src/Rollout/Lines.antt =====
-- internal/codex/conversation/parser.go: the lines of a rollout in two parts.
use mathlib.Core.List.{map-append}
use agent_dashboard.Common.{
  ℕ, ◌≡◌, refl, ap, Bool, true, false, ◌||◌, Option, List, [], ◌∷◌, ◌++◌, map, length, any, inl,
  inr, ltb, arith, Bool-cases,
}
use agent_dashboard.Usage.{split_lines, drop_cr}
use agent_dashboard.Usage.Lines.{is_whole, split_lines-append}
use agent_dashboard.Usage.{short_lines}
use agent_dashboard.Usage.Lines.{short_lines-append}
use agent_dashboard.Conversation.{scanned_lines}
use agent_dashboard.Conversation.Entries.{ConversationEntry}
use agent_dashboard.Conversation.Reader.Chunks.{}
use agent_dashboard.Rollout.{
  RolloutLine, line_bound, is_long, scan_fails, parsed, lines_of, conversation_of,
}

any-append : (p : List ℕ → Bool) (xs ys : List (List ℕ)) → any p (xs ++ ys) ≡ any p xs || any p ys
any-append p [] ys = refl
any-append p (l ∷ xs) ys = ground (arith, any-append p xs ys)

-- Where no line is too long the scanner gives all.
any_short : (ls : List (List ℕ)) → any is_long ls ≡ false → short_lines line_bound ls ≡ ls
unfolding short_lines
any_short [] h = refl
any_short (l ∷ ls) h = elim (Bool-cases (ltb (length l) line_bound)) [
  | inl e ↦ rw e (ap (λ r. l ∷ r) (any_short ls (ground arith)))
  | inr e ↦ ground arith
]

module _ (parse_line : List ℕ → Option RolloutLine) where
  parsed-append :
      (xs ys : List (List ℕ))
      → parsed parse_line (xs ++ ys) ≡ parsed parse_line xs ++ parsed parse_line ys
  unfolding parsed
  parsed-append [] ys = refl
  parsed-append ([] ∷ ls) ys = parsed-append ls ys
  parsed-append ((c ∷ l) ∷ ls) ys = ground (arith, parsed-append ls ys)

  conversation_of-append :
      (xs ys : List RolloutLine)
      → conversation_of parse_line (xs ++ ys)
        ≡ conversation_of parse_line xs ++ conversation_of parse_line ys
  unfolding conversation_of
  conversation_of-append [] ys = refl
  conversation_of-append (l ∷ ls) ys = ground (arith, conversation_of-append ls ys)

  abbrev pub said_in : List ℕ → List ConversationEntry
  said_in bytes = conversation_of parse_line (lines_of parse_line bytes)

  pub said_in-append :
      (a b : List ℕ)
      → is_whole a ≡ true
      → scan_fails a ≡ false
      → said_in (a ++ b) ≡ said_in a ++ said_in b
  unfolding lines_of scanned_lines scan_fails
  said_in-append a b whole fits =
      let short = any_short (split_lines a) fits in
      let rest = short_lines line_bound (split_lines b) in
      rw
        (
          split_lines-append a b whole,
          short_lines-append line_bound (split_lines a) (split_lines b) short,
          short,
          map-append drop_cr (split_lines a) rest,
          parsed-append (map drop_cr (split_lines a)) (map drop_cr rest),
        )
        (conversation_of-append (parsed parse_line (map drop_cr (split_lines a)))
          (parsed parse_line (map drop_cr rest)))

  pub scan_fails-append :
      (a b : List ℕ) → is_whole a ≡ true → scan_fails a ≡ false → scan_fails (a ++ b) ≡ scan_fails b
  unfolding scan_fails
  scan_fails-append a b whole fits =
      rw (split_lines-append a b whole, any-append is_long (split_lines a) (split_lines b), fits)
        refl
