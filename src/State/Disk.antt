-- ===== src/State/Disk.antt =====
-- The directory `agents` of the state directory, as internal/state/state.go reads and writes it:
-- `ReadState`, `agentFileMap`, `stampAgentFields`, `PinAgentState`, `ReadAgent`, `RemoveAgent`.
-- A file holds a JSON object, or something that does not parse as one. `json.Unmarshal` into an
-- agent fails where a text or number field holds another kind of value, and leaves the zero value
-- where the field is missing or null; the fields `resumable` and `trust_prompt_detected`, which no
-- writer of these files sets, are left out. No write fails here, and no writer runs in between: the lock
-- is modelled in FileLock.
pub mod Stamp
pub mod Read
use agent_dashboard.Common.{
  ℕ, String, Bool, true, false, not, ◌&&◌, ◌||◌, Option, none, some, List, [], ◌∷◌, str_eq,
  is_empty, non_empty, if◌then◌else◌,
}
use Prim.Native.String.{◌++◌}
use agent_dashboard.Common.Dict.{lookup, insert}
use agent_dashboard.Common.Text.{has_suffix, trim_suffix}
use agent_dashboard.Domain.{Agent, StateFile, empty_agent}

pub data Value : Type 0 where
  null other : Value
  text : String → Value
  number : ℕ → Value

abbrev pub Fields : Type 0
Fields = List (String × Value)

-- `none` is a file that cannot be read or parsed.
pub record DirEntry : Type 0 where
  pub name : String
  pub is_dir : Bool
  pub content : Option Fields

abbrev pub Directory : Type 0
Directory = List DirEntry

infixl 5 ◌>>=◌
abbrev pub ◌>>=◌ {ℓ κ} : {A : Type ℓ} {B : Type κ} → Option A → (A → Option B) → Option B
none >>= f = none
some a >>= f = f a

unfoldable pub text_of : Option Value → Option String
text_of none = some ""
text_of (some null) = some ""
text_of (some (text s)) = some s
text_of (some _) = none

unfoldable pub number_of : Option Value → Option ℕ
number_of none = some 0
number_of (some null) = some 0
number_of (some (number n)) = some n
number_of (some _) = none

-- The fields but `pinned_state`, which the dashboard itself writes.
unfoldable pub unmarshal_reported : Fields → Option Agent
unmarshal_reported fs = do
  target ← text_of (lookup "target" fs)
  session ← text_of (lookup "session" fs)
  window ← number_of (lookup "window" fs)
  pane ← number_of (lookup "pane" fs)
  state ← text_of (lookup "state" fs)
  cwd ← text_of (lookup "cwd" fs)
  branch ← text_of (lookup "branch" fs)
  session_id ← text_of (lookup "session_id" fs)
  tmux_pane_id ← text_of (lookup "tmux_pane_id" fs)
  tmux_server_pid ← text_of (lookup "tmux_server_pid" fs)
  updated_at ← text_of (lookup "updated_at" fs)
  worktree_cwd ← text_of (lookup "worktree_cwd" fs)
  harness ← text_of (lookup "harness" fs)
  some (record empty_agent {
    target = target;
    session = session;
    window = window;
    pane = pane;
    state = state;
    cwd = cwd;
    branch = branch;
    session_id = session_id;
    tmux_pane_id = tmux_pane_id;
    tmux_server_pid = tmux_server_pid;
    updated_at = updated_at;
    worktree_cwd = worktree_cwd;
    harness = harness;
  })

-- `json.Unmarshal(data, &agent)`, for the fields of the model.
unfoldable pub unmarshal_agent : Fields → Option Agent
unmarshal_agent fs = do
  a ← unmarshal_reported fs
  pinned_state ← text_of (lookup "pinned_state" fs)
  some (record a { pinned_state = pinned_state })

-- What the loops over the directory skip: folders, other extensions, what does not parse.
unfoldable pub read_entry : DirEntry → Option Agent
unfolding has_suffix
read_entry e =
    if e.is_dir || not (has_suffix e.name ".json") then none else (e.content >>= unmarshal_agent)

unfoldable pub agent_key : DirEntry → Agent → String
unfolding trim_suffix
agent_key e a = if is_empty a.session_id then trim_suffix e.name ".json" else a.session_id

-- The loop of `ReadState`. A directory that cannot be read is an empty one.
unfoldable pub read_from : StateFile → Directory → StateFile
unfolding read_entry agent_key insert
read_from sf [] = sf
read_from sf (e ∷ d) =
    read_from
      (elim (read_entry e) [
        | none ↦ sf
        | some a ↦ if non_empty (agent_key e a) then insert (agent_key e a) a sf else sf
      ])
      d

unfoldable pub read_state : Directory → StateFile
unfolding read_from
read_state d = read_from [] d

-- The loop of `agentFileMap`; a name stands for the path.
unfoldable pub file_map_from : List (String × String) → Directory → List (String × String)
unfolding read_entry agent_key insert
file_map_from m [] = m
file_map_from m (e ∷ d) =
    file_map_from
      (elim (read_entry e) [
        | none ↦ m
        | some a ↦ if non_empty (agent_key e a) then insert (agent_key e a) e.name m else m
      ])
      d

unfoldable pub agent_file_map : Directory → List (String × String)
unfolding file_map_from
agent_file_map d = file_map_from [] d

-- `os.ReadFile`: the entry of that name, unless it is a folder.
unfoldable pub read_file : String → Directory → Option Fields
read_file name [] = none
read_file name (e ∷ d) =
    if str_eq e.name name then (if e.is_dir then none else e.content) else read_file name d

-- `writeJSONAtomic` over a file that is there.
unfoldable pub write_file : String → Fields → Directory → Directory
write_file name fs [] = []
write_file name fs (e ∷ d) =
    if str_eq e.name name then record e { content = some fs } ∷ d else e ∷ write_file name fs d

unfoldable pub remove_file : String → Directory → Directory
remove_file name [] = []
remove_file name (e ∷ d) = if str_eq e.name name then d else e ∷ remove_file name d

-- `for k, v := range updates { raw[k] = v }`.
unfoldable pub merge : Fields → Fields → Fields
unfolding insert
merge [] fs = fs
merge ((k, v) ∷ updates) fs = merge updates (insert k v fs)

-- The new directory, and whether the call returned nil.
unfoldable pub stamp_agent_fields : String → Fields → Directory → Directory × Bool
unfolding merge read_file write_file
stamp_agent_fields session_id updates d =
    let name = session_id ++ ".json" in
    elim (read_file name d) [
      | none ↦ (d, false)
      | some fs ↦ (write_file name (merge updates fs) d, true)
    ]

unfoldable pub pin_agent_state : String → String → Directory → Directory × Bool
unfolding read_file write_file insert
pin_agent_state session_id pinned_state d =
    let name = session_id ++ ".json" in
    elim (read_file name d) [
      | none ↦ (d, false)
      | some fs ↦ (write_file name (insert "pinned_state" (text pinned_state) fs) d, true)
    ]

-- `none` is the result `false`.
unfoldable pub read_agent : Directory → String → Option Agent
unfolding agent_file_map lookup
read_agent d session_id = do
  name ← lookup session_id (agent_file_map d)
  fs ← read_file name d
  unmarshal_agent fs

unfoldable pub remove_agent : Directory → String → Directory
unfolding agent_file_map lookup
remove_agent d session_id = elim (lookup session_id (agent_file_map d)) [
  | none ↦ d
  | some name ↦ remove_file name d
]
