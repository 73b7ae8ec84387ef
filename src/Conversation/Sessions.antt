-- ===== src/Conversation/Sessions.antt =====
-- internal/conversation/conversation.go: where a session's transcript is and what else is read from
-- it: `ProjectSlug`, `FindProjDirByScan`, `PickProjDir`, `Locate`, `LastGitBranch`, `ReadPlanSlug`,
-- `ReadPlanContent` and `ReadRateLimitStatus`; and `TopLevelAgents` of router.go. The parameters that decode a line are
-- `json.Unmarshal`, with `none` for an error.
pub mod Found
use Prim.Native.Char.{code}
use Prim.Native.String.{◌++◌}
use mathlib.Core.List.{foldl}
use agent_dashboard.Common.{
  ℕ, ◌-◌, ◌*◌, String, Bool, true, false, not, ◌&&◌, ◌||◌, Option, none, some, List, [], ◌∷◌,
  length, drop, map, str_eq, is_empty, non_empty, ltb, leb, ◌==◌, if◌then◌else◌,
}
use agent_dashboard.Common.Text.{codes, has_suffix}
use agent_dashboard.Domain.{Agent}
use agent_dashboard.Conversation.{Env, Block, scanned_lines}
use agent_dashboard.Conversation.Texts.{is_nil, contains, truncate}

abbrev pub is_alphanumeric : ℕ → Bool
is_alphanumeric c = (leb 48 c && leb c 57) || (leb 65 c && leb c 90) || (leb 97 c && leb c 122)

-- `slugRe` on runes: each that is no ASCII letter and no digit is a hyphen.
unfoldable pub project_slug : List ℕ → List ℕ
project_slug cwd = map (λ c. if is_alphanumeric c then c else b'-') cwd

-- A directory as its entries, each a name and whether it is a directory; `none` for an error.
abbrev pub Entries : Type 0
Entries = Option (List (List ℕ × Bool))

-- `holds dir` says whether `projectsDir/dir` has the session's file; a directory is its name.
unfoldable pub scan_dirs : (List ℕ → Bool) → List (List ℕ × Bool) → Option (List ℕ)
scan_dirs holds [] = none
scan_dirs holds ((name, is_dir) ∷ entries) =
    let rest = scan_dirs holds entries in
    if not is_dir then rest else if holds name then some name else rest

unfoldable pub find_proj_dir_by_scan : String → (List ℕ → Bool) → Entries → Option (List ℕ)
unfolding scan_dirs
find_proj_dir_by_scan session_id holds none = none
find_proj_dir_by_scan session_id holds (some entries) =
    if is_empty session_id then none else scan_dirs holds entries

unfoldable pub equal : List ℕ → List ℕ → Bool
equal [] [] = true
equal [] (d ∷ t) = false
equal (c ∷ s) [] = false
equal (c ∷ s) (d ∷ t) = let rest = equal s t in if c == d then rest else false

unfoldable pub mem_slug : List ℕ → List (List ℕ) → Bool
unfolding equal
mem_slug x [] = false
mem_slug x (y ∷ ys) = let rest = mem_slug x ys in if equal y x then true else rest

unfoldable pub pick_from : (List ℕ → Bool) → List (List ℕ) → List (List ℕ) → Option (List ℕ)
unfolding mem_slug project_slug
pick_from holds seen [] = none
pick_from holds seen (c ∷ candidates) =
    let slug = project_slug c in
    let skipped = pick_from holds seen candidates in
    let rest = pick_from holds (slug ∷ seen) candidates in
    if is_nil c
    then skipped
    else if mem_slug slug seen
    then skipped
    else if holds slug
    then some slug
    else rest

unfoldable pub pick_proj_dir : String → (List ℕ → Bool) → List (List ℕ) → Option (List ℕ)
unfolding pick_from
pick_proj_dir session_id holds candidates =
    if is_empty session_id then none else pick_from holds [] candidates

-- `sessionFile`.
pub record SessionFile : Type 0 where
  pub session_id : String
  pub cwd : List ℕ
  pub started_at : ℕ

unfoldable pub cleaned : (List ℕ → List ℕ) → List (List ℕ) → List (List ℕ)
cleaned clean [] = []
cleaned clean (c ∷ candidates) =
    let rest = cleaned clean candidates in if is_nil c then rest else clean c ∷ rest

abbrev pub newer_session : SessionFile → SessionFile → SessionFile
newer_session best sf = if ltb best.started_at sf.started_at then sf else best

-- The files of the directory, with what each holds; the best so far is the zero value at first.
unfoldable pub best_session :
    (List ℕ → List ℕ)
    → List (List ℕ)
    → SessionFile
    → List (String × Option SessionFile)
    → SessionFile
unfolding mem_slug
best_session clean paths best [] = best
best_session clean paths best ((name, none) ∷ files) = best_session clean paths best files
best_session clean paths best ((name, some sf) ∷ files) =
    best_session clean paths
      (if has_suffix name ".json" && mem_slug (clean sf.cwd) paths
        then newer_session best sf
        else best)
      files

unfoldable pub locate :
    (List ℕ → List ℕ) → List (List ℕ) → Option (List (String × Option SessionFile)) → String
unfolding cleaned best_session
locate clean candidates none = ""
locate clean candidates (some files) = elim (cleaned clean candidates) [
  | [] ↦ ""
  | c ∷ paths ↦
      (best_session clean (c ∷ paths) (record { session_id = ""; cwd = []; started_at = 0 })
        files).session_id
]

-- The last text that is not empty among those that the lines hold.
unfoldable pub last_text : (List ℕ → Option String) → String → List (List ℕ) → String
last_text decode last [] = last
last_text decode last ([] ∷ ls) = last_text decode last ls
last_text decode last ((c ∷ l) ∷ ls) = elim (decode (c ∷ l)) [
  | none ↦ last_text decode last ls
  | some t ↦ last_text decode (if non_empty t then t else last) ls
]

unfoldable pub last_git_branch : (List ℕ → Option String) → String → Option (List ℕ) → String
unfolding last_text scanned_lines
last_git_branch git_branch session_id none = ""
last_git_branch git_branch session_id (some bytes) =
    if is_empty session_id
    then ""
    else last_text git_branch "" (scanned_lines (10 * 1024 * 1024) bytes)

-- What follows the first newline.
unfoldable pub next_line : List ℕ → List ℕ
next_line [] = []
next_line (c ∷ s) = if c == b'\n' then s else next_line s

-- The tail of a file, from its first whole line on if it is longer than the tail.
unfoldable pub whole_tail : ℕ → List ℕ → List ℕ
unfolding next_line
whole_tail size bytes =
    if ltb size (length bytes) then next_line (drop (length bytes - size) bytes) else bytes

unfoldable pub read_plan_slug : (List ℕ → Option String) → Option (List ℕ) → String
unfolding last_text scanned_lines whole_tail
read_plan_slug slug none = ""
read_plan_slug slug (some bytes) =
    last_text slug "" (scanned_lines (32 * 1024) (whole_tail (32 * 1024) bytes))

unfoldable pub read_plan_content : String → Option (List ℕ) → List ℕ
unfolding truncate
read_plan_content slug none = []
read_plan_content slug (some text) = if is_empty slug then [] else truncate text 32000

-- internal/domain/types.go: `RateLimitStatus`.
pub record RateLimitStatus : Type 0 where
  pub limited : Bool
  pub message : List ℕ
  pub timestamp : String

-- A line as `ReadRateLimitStatus` decodes it; no blocks where its content is no list of them.
pub record LimitLine : Type 0 where
  pub error : String
  pub timestamp : String
  pub blocks : List Block

unfoldable pub first_message : List Block → Option (List ℕ)
first_message [] = none
first_message (b ∷ bs) =
    let rest = first_message bs in
    if str_eq b.type "text" && not (is_nil b.text) then some b.text else rest

unfoldable pub limit_line : RateLimitStatus → LimitLine → RateLimitStatus
unfolding first_message
limit_line last l =
    if not (str_eq l.error "rate_limit") then last else elim (first_message l.blocks) [
      | none ↦ last
      | some m ↦ record { limited = true; message = m; timestamp = l.timestamp }
    ]

unfoldable pub limit_lines :
    (List ℕ → Option LimitLine) → RateLimitStatus → List (List ℕ) → RateLimitStatus
unfolding limit_line contains
limit_lines decode last [] = last
limit_lines decode last (l ∷ ls) =
    limit_lines decode
      (if not (contains l (codes "rate_limit"))
        then last
        else elim (decode l) [ none ↦ last | some e ↦ limit_line last e ])
      ls

unfoldable pub read_rate_limit_status :
    (List ℕ → Option LimitLine) → Option (List ℕ) → RateLimitStatus
unfolding limit_lines scanned_lines
read_rate_limit_status decode none = record { limited = false; message = []; timestamp = "" }
read_rate_limit_status decode (some bytes) =
    let size : ℕ = 64 * 1024 in
    let tail = if ltb size (length bytes) then drop (length bytes - size) bytes else bytes in
    limit_lines decode (record { limited = false; message = []; timestamp = "" })
      (scanned_lines size tail)

-- router.go: `parent` and `originator` are the readers of a Codex session's data.
unfoldable pub top_level_agents : (String → String) → (String → String) → List Agent → List Agent
top_level_agents parent originator [] = []
top_level_agents parent originator (a ∷ agents) =
    let rest = top_level_agents parent originator agents in
    if str_eq a.harness "codex"
      && (non_empty (parent a.session_id) || str_eq (originator a.session_id) "Codex Desktop")
    then rest
    else a ∷ rest
