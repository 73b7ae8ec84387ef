-- ===== src/Conversation/Pending/Tools.antt =====
-- internal/conversation/conversation.go: what `LastPendingBlockingTool` and `HasPendingToolUse`
-- find, in terms of the entries of the transcript.
use mathlib.Core.List.{foldl}
use agent_dashboard.Common.{
  ℕ, ◌≡◌, ◌↔◌, refl, ap, ◌∙◌, String, Bool, true, false, not, ◌&&◌, Option, none, some, List, [],
  ◌∷◌, str_eq, str_eq_refl, non_empty, inl, inr, if◌then◌else◌, arith, Bool-cases, Option-cases,
}
use agent_dashboard.Conversation.{Env, Block, JsonlEntry, entries_of}
use agent_dashboard.Conversation.Pending.{
  is_human_user_entry, message_blocks, Blocking, see_block, see_entry, last_blocking, Using,
  any_block, use_entry, pending_use, last_pending_blocking_tool, line_bound,
}
use agent_dashboard.Conversation.Pending.Latest.{
  keep_latest, IsLatest, view-IsLatest, Anything, All-Anything,
}

abbrev pub of_type : JsonlEntry → String → Bool
of_type e type = str_eq e.type type

-- The state that a block stands for: "plan" or "question".
unfoldable pub tool_of : Block → Option String
tool_of b =
    if not (str_eq b.type "tool_use")
    then none
    else if str_eq b.name "ExitPlanMode"
    then some "plan"
    else if str_eq b.name "AskUserQuestion"
    then some "question"
    else none

-- That of the last such block.
unfoldable pub blocking_in : List Block → Option String
unfolding tool_of
blocking_in [] = none
blocking_in (b ∷ bs) = elim (blocking_in bs) [ some t ↦ some t | none ↦ tool_of b ]

-- The blocking tool that an entry of the assistant calls last.
unfoldable pub blocks_on : JsonlEntry → Option String
unfolding blocking_in message_blocks
blocks_on e =
    if of_type e "assistant"
    then elim (message_blocks e) [ none ↦ none | some bs ↦ blocking_in bs ]
    else none

abbrev pub by_human : String → JsonlEntry → Bool
by_human t e = not (of_type e "assistant") && of_type e "user" && is_human_user_entry e.message

abbrev waiting : Blocking → Option String
waiting s = if non_empty s.last_tool && not s.human_after then some s.last_tool else none

abbrev held : String → Blocking
held t = record { last_tool = t; human_after = false }

see_block-eq :
    (s : Blocking) (b : Block) → see_block s b ≡ elim (tool_of b) [ none ↦ s | some t ↦ held t ]
unfolding see_block tool_of
see_block-eq s b = ground arith

see_blocks-eq :
    (s : Blocking) (bs : List Block)
    → foldl see_block s bs ≡ elim (blocking_in bs) [ none ↦ s | some t ↦ held t ]
unfolding blocking_in
see_blocks-eq s [] = refl
see_blocks-eq s (b ∷ bs) = ground (arith, see_block-eq s b, see_blocks-eq (see_block s b) bs)

pub tools_named : (non_empty "plan" ≡ true) × (non_empty "question" ≡ true)
unfolding str_eq
tools_named = (refl, refl)

tool_of-named : (b : Block) (t : String) → tool_of b ≡ some t → non_empty t ≡ true
unfolding tool_of
tool_of-named b t h = ground (arith, tools_named)

blocking_in-named : (bs : List Block) (t : String) → blocking_in bs ≡ some t → non_empty t ≡ true
unfolding blocking_in
blocking_in-named [] t h = cc
blocking_in-named (b ∷ bs) t h = ground (arith, tool_of-named b t, blocking_in-named bs t)

waiting-see_blocks :
    (s : Blocking) (bs : List Block)
    → waiting (foldl see_block s bs) ≡ elim (blocking_in bs) [ none ↦ waiting s | some t ↦ some t ]
waiting-see_blocks s bs =
    ap waiting (see_blocks-eq s bs) ∙ named (blocking_in bs) (λ t h. blocking_in-named bs t h)
  where
    named :
        (o : Option String)
        → ((t : String) → o ≡ some t → non_empty t ≡ true)
        → waiting (elim o [ none ↦ s | some t ↦ held t ])
          ≡ elim o [ none ↦ waiting s | some t ↦ some t ]
    named none h = refl
    named (some t) h = ground (arith, h t refl)

waiting-see_entry :
    (s : Blocking) (e : JsonlEntry)
    → waiting (see_entry s e) ≡ keep_latest blocks_on by_human (waiting s) e
unfolding see_entry keep_latest blocks_on
waiting-see_entry s e = elim (Bool-cases (str_eq e.type "assistant")) [
  | inr other ↦ ground arith
  | inl a ↦ elim (Option-cases (message_blocks e)) [
    | inl n ↦ ground (arith, n)
    | inr (bs, m) ↦ ground (arith, m, waiting-see_blocks s bs)
  ]
]

pub last_blocking_iff :
    (es : List JsonlEntry) (tool : String)
    → non_empty tool ≡ true
    → (last_blocking es ≡ tool) ↔ IsLatest blocks_on by_human tool es
unfolding last_blocking
last_blocking_iff es tool there =
    let (to, from) =
      view-IsLatest blocks_on by_human see_entry waiting Anything (λ s e g. waiting-see_entry s e)
        (held "") es tool (All-Anything es) start_empty in
    (
      λ h. to (shown_waits (foldl see_entry (held "") es) h),
      λ l. waits_shown (foldl see_entry (held "") es) (from l),
    )
  where
    start_empty : waiting (held "") ≡ none
    start_empty = rw (str_eq_refl "") refl

    shown_waits :
        (s : Blocking)
        → (if non_empty s.last_tool && not s.human_after then s.last_tool else "") ≡ tool
        → waiting s ≡ some tool
    shown_waits s h = ground (arith, str_eq_refl "")

    waits_shown :
        (s : Blocking)
        → waiting s ≡ some tool
        → (if non_empty s.last_tool && not s.human_after then s.last_tool else "") ≡ tool
    waits_shown s h = ground arith

-- For every transcript that can be read, and each text that is not empty: `LastPendingBlockingTool`
-- answers it exactly if some entry of the assistant has a block that stands for it, a plan or a
-- question, and no such block behind it, and no later entry has such a block or is a message of the
-- human. A list of tool results is none.
pub last_pending_blocking_tool_iff :
    (env : Env) (bytes : List ℕ) (tool : String)
    → non_empty tool ≡ true
    → (last_pending_blocking_tool env (some bytes) ≡ tool)
      ↔ IsLatest blocks_on by_human tool (entries_of env line_bound bytes)
unfolding last_pending_blocking_tool
last_pending_blocking_tool_iff env bytes tool there =
    last_blocking_iff (entries_of env line_bound bytes) tool there

-- An entry of the assistant that uses some tool.
unfoldable pub uses_one : JsonlEntry → Option (Unit {0})
unfolding any_block message_blocks
uses_one e =
    if of_type e "assistant"
    then elim (message_blocks e) [
      | none ↦ none
      | some bs ↦ if any_block "tool_use" bs then some tt else none
    ]
    else none

-- One of the assistant that uses none, or one of the user with a result.
unfoldable pub settles_use : Unit {0} → JsonlEntry → Bool
unfolding any_block message_blocks
settles_use u e = elim (message_blocks e) [
  | none ↦ false
  | some bs ↦
      if of_type e "assistant"
      then not (any_block "tool_use" bs)
      else of_type e "user" && any_block "tool_result" bs
]

abbrev in_use : Using → Option (Unit {0})
in_use s = if s.has_tool_use && not s.tool_result_after then some tt else none

in_use-use_entry :
    (s : Using) (e : JsonlEntry)
    → in_use (use_entry s e) ≡ keep_latest uses_one settles_use (in_use s) e
unfolding use_entry keep_latest uses_one settles_use
in_use-use_entry s e = elim (Option-cases (message_blocks e)) [
  | inl n ↦ ground (arith, n)
  | inr (bs, m) ↦ ground (arith, m)
]

pub pending_use_iff :
    (es : List JsonlEntry) → (pending_use es ≡ true) ↔ IsLatest uses_one settles_use tt es
unfolding pending_use
pending_use_iff es =
    let start : Using = record { has_tool_use = false; tool_result_after = false } in
    let (to, from) =
      view-IsLatest uses_one settles_use use_entry in_use Anything (λ s e g. in_use-use_entry s e)
        start es tt (All-Anything es) refl in
    (λ h. to (ground arith), λ l. shown (foldl use_entry start es) (from l))
  where
    shown : (s : Using) → in_use s ≡ some tt → (s.has_tool_use && not s.tool_result_after) ≡ true
    shown s h = ground arith
