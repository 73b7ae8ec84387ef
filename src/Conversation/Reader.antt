-- ===== src/Conversation/Reader.antt =====
-- internal/conversation/conversation.go: `ReadConversationIncremental` and `ReadConversation`. A
-- call sees the size that `Stat` gave, then the bytes that it reads, and whether the file can be
-- sought; `none` is a file that cannot be opened. A limit of 0 stands for all limits that are not
-- positive, and an offset is what an earlier call gave.
pub mod Marks
pub mod Window
pub mod Chunks
pub mod Boundary
pub mod Increments
use mathlib.Core.List.{foldl}
use agent_dashboard.Common.{
  ℕ, ◌+◌, ◌-◌, ◌*◌, String, Bool, true, false, not, ◌&&◌, ◌||◌, Option, none, some, List, [], ◌∷◌,
  ◌++◌, length, take, drop, filter_by, str_eq, non_empty, ltb, ◌==◌, if◌then◌else◌,
}
use agent_dashboard.Conversation.{Env, JsonlEntry, entries_of}
use agent_dashboard.Conversation.Entries.{
  ConversationEntry, is_plan_saved, parse_user_entry, parse_assistant_entry, saved_at,
  extract_plan_saved_entry, plan_saved_emitted, mark_notifications,
}

-- The variables of the scanner's loop: the entries, where the first line with a slug stands among
-- them and its time, and whether a plan was handed over.
pub record Scan : Type 0 where
  pub all : List ConversationEntry
  pub slug_first : Option (ℕ × String)
  pub exit_plan_emitted : Bool

abbrev pub with_entry : Scan → Option ConversationEntry → Scan
with_entry s none = s
with_entry s (some e) = record s { all = s.all ++ e ∷ [] }

abbrev pub with_plan : Scan → Option ConversationEntry → Scan
with_plan s none = s
with_plan s (some e) = record s { all = s.all ++ e ∷ []; exit_plan_emitted = true }

unfoldable pub note_slug : JsonlEntry → Scan → Scan
note_slug entry s = elim s.slug_first [
  | none ↦
      if non_empty entry.slug
      then record s { slug_first = some (length s.all, entry.timestamp) }
      else s
  | some seen ↦ s
]

abbrev pub scanner_bound : ℕ
scanner_bound = 10 * 1024 * 1024

module _ (env : Env) where
  unfoldable pub scan_entry : Scan → JsonlEntry → Scan
  unfolding note_slug
  scan_entry s entry = note_slug entry (
      if str_eq entry.type "user"
      then with_entry s (parse_user_entry env entry)
      else if str_eq entry.type "assistant"
      then with_plan (with_entry s (parse_assistant_entry env entry))
          (extract_plan_saved_entry entry)
      else s)

  unfoldable pub scan_entries : Scan → List JsonlEntry → Scan
  scan_entries s entries = foldl scan_entry s entries

abbrev pub insert_saved : ℕ → String → List ConversationEntry → List ConversationEntry
insert_saved i timestamp all = take i all ++ saved_at timestamp ∷ drop i all

-- The card of a plan that was written without being handed over.
unfoldable pub add_slug_card : Scan → List ConversationEntry
add_slug_card s = elim s.slug_first [
  | none ↦ s.all
  | some (i, timestamp) ↦
      if not s.exit_plan_emitted && not (plan_saved_emitted s.all)
      then insert_saved (if ltb (length s.all) i then length s.all else i) timestamp s.all
      else s.all
]

-- Only what follows the last of the earlier entries, and that one, is tagged.
unfoldable pub mark_new : ℕ → List ConversationEntry → List ConversationEntry
mark_new prev_len all =
    let start = prev_len - 1 in
    if ltb start (length all) then take start all ++ mark_notifications (drop start all) else all

unfoldable pub cap_entries : ℕ → List ConversationEntry → List ConversationEntry
cap_entries limit all =
    let over = length all - limit in
    if ltb 0 limit && ltb limit (length all)
    then filter_by is_plan_saved (take over all) ++ drop over all
    else all

pub record Look : Type 0 where
  pub size : ℕ
  pub content : List ℕ
  pub seekable : Bool
  pub rewindable : Bool

module _ (env : Env) (limit : ℕ) where
  -- From the scanner on.
  unfoldable pub scan_from : List ConversationEntry → List ℕ → List ConversationEntry
  unfolding scan_entries add_slug_card mark_new cap_entries
  scan_from prev bytes =
      let s : Scan = record { all = prev; slug_first = none; exit_plan_emitted = false } in
      cap_entries limit (
        mark_new (length prev)
          (add_slug_card (scan_entries env s (entries_of env scanner_bound bytes))))

  unfoldable pub read_at : Look → List ConversationEntry → ℕ → List ConversationEntry × ℕ
  unfolding scan_from
  read_at f prev prev_offset =
      if prev_offset == 0
      then (scan_from [] f.content, f.size)
      else if f.seekable
      then (scan_from prev (drop prev_offset f.content), f.size)
      else if f.rewindable
      then (scan_from [] f.content, f.size)
      else ([], 0)

  unfoldable pub read_conversation_incremental :
      Option Look → List ConversationEntry → ℕ → List ConversationEntry × ℕ
  unfolding read_at
  read_conversation_incremental none prev prev_offset = ([], 0)
  read_conversation_incremental (some f) prev prev_offset =
      if ltb f.size prev_offset
      then read_at f [] 0
      else if ltb 0 prev_offset && prev_offset == f.size && ltb 0 (length prev)
      then (prev, prev_offset)
      else read_at f prev prev_offset

  unfoldable pub read_conversation : Option Look → List ConversationEntry
  unfolding read_conversation_incremental
  read_conversation f = (read_conversation_incremental f [] 0).0
