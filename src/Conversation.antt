-- ===== src/Conversation.antt =====
-- internal/conversation/conversation.go: the transcripts of Claude Code. The types of a line, and
-- the readers of texts. Children: `Entries` makes entries of lines, `Reader` reads a transcript in
-- parts, `Pending` finds the tool call that waits for the user.
-- A text that is cut or searched is its bytes. Parameters, in `Env`: `json.Unmarshal` of one line,
-- with `none` for an error, and `strings.TrimSpace`. A content is a text, a list of blocks, or neither;
-- the fields of a block are texts, empty where a line leaves them out.
pub mod Texts
pub mod Entries
pub mod Reader
pub mod Pending
pub mod Sessions
mod Samples
mod Examples
use agent_dashboard.Common.{
  ℕ, String, Bool, Option, List, [], ◌∷◌, ◌++◌, map, length, ltb, if◌then◌else◌,
}
use agent_dashboard.Usage.{short_lines, split_lines, drop_cr}

-- `contentBlock`, `toolUseBlock` and the blocks of `toolUseID` and `hasToolResultFor` in one.
pub record Block : Type 0 where
  pub type : String
  pub text : List ℕ
  pub name : String
  pub id : String
  pub tool_use_id : String
  pub input : List ℕ

-- The content of a `messageEnvelope`; JSON's `null` is an empty list of blocks.
pub data Content : Type 0 where
  plain : List ℕ → Content
  blocks : List Block → Content
  malformed : Content

-- `jsonlEntry`; `none` stands for a message that is no envelope.
pub record JsonlEntry : Type 0 where
  pub type : String
  pub message : Option Content
  pub timestamp : String
  pub slug : String

pub record Env : Type 0 where
  pub parse_line : List ℕ → Option JsonlEntry
  pub trim_space : List ℕ → List ℕ

unfoldable pub scanned_lines : ℕ → List ℕ → List (List ℕ)
unfolding short_lines
scanned_lines bound bytes = map drop_cr (short_lines bound (split_lines bytes))

module _ (env : Env) where
  -- The lines of a transcript that are not empty and can be parsed.
  unfoldable pub parsed : List (List ℕ) → List JsonlEntry
  parsed [] = []
  parsed ([] ∷ ls) = parsed ls
  parsed ((c ∷ l) ∷ ls) =
      let rest = parsed ls in
      elim (env.parse_line (c ∷ l)) [ Option.none ↦ rest | Option.some e ↦ e ∷ rest ]

  unfoldable pub entries_of : ℕ → List ℕ → List JsonlEntry
  unfolding parsed scanned_lines
  entries_of bound bytes = parsed (scanned_lines bound bytes)
