-- ===== src/State/Disk/Read.antt =====
-- The two ways to look an agent up agree: the table that `ReadState` builds, and the table of paths
-- behind `ReadAgent`.
use agent_dashboard.Common.{
  String, ◌≡◌, refl, sym, false, Option, none, some, List, [], ◌∷◌, All, str_eq, str_eq_refl,
  non_empty, arith, if◌then◌else◌, Option-cases, Bool-cases, inl, inr,
}
use agent_dashboard.Common.Dict.{lookup, insert, lookup-insert}
use agent_dashboard.Domain.{Agent, StateFile}
use agent_dashboard.State.Disk.{
  DirEntry, Directory, read_file, read_entry, agent_key, read_from, read_state, file_map_from,
  agent_file_map, read_agent, unmarshal_agent, ◌>>=◌,
}

-- No two entries of a directory have one name.
abbrev pub HasDistinctNames : Directory → Type 0
HasDistinctNames [] = Unit
HasDistinctNames (e ∷ d) =
    All (λ (x : DirEntry). str_eq e.name x.name ≡ false) d × HasDistinctNames d

-- A file is found by its name.
abbrev Found : Directory → DirEntry → Type 0
Found d e = read_file e.name d ≡ (if e.is_dir then none else e.content)

Found-cons :
    (e : DirEntry) (d rest : Directory)
    → All (λ (x : DirEntry). str_eq e.name x.name ≡ false) rest
    → All (Found d) rest
    → All (Found (e ∷ d)) rest
unfolding read_file
Found-cons e d [] h f = tt
Found-cons e d (x ∷ rest) h f = (rw h.0 f.0, Found-cons e d rest h.1 f.1)

All-Found : (d : Directory) → HasDistinctNames d → All (Found d) d
unfolding read_file
All-Found [] h = tt
All-Found (e ∷ d) h = (rw (str_eq_refl e.name), Found-cons e d d h.0 (All-Found d h.1))

-- The agent of the file that the table of paths names.
abbrev at_path : Directory → Option String → Option Agent
at_path d m = m >>= λ name. read_file name d >>= unmarshal_agent

abbrev Agree : Directory → StateFile → List (String × String) → Type 0
Agree d sf m = (k : String) → lookup k sf ≡ at_path d (lookup k m)

parsed :
    (d : Directory) (e : DirEntry) (a : Agent)
    → Found d e
    → read_entry e ≡ some a
    → at_path d (some e.name) ≡ some a
unfolding read_entry
parsed d e a f h = rw f (ground arith)

Agree-insert :
    (d : Directory) (sf : StateFile) (m : List (String × String)) (e : DirEntry) (key : String)
    (a : Agent)
    → at_path d (some e.name) ≡ some a
    → Agree d sf m
    → Agree d (insert key a sf) (insert key e.name m)
Agree-insert d sf m e key a p h k =
    rw (lookup-insert key k a sf, lookup-insert key k e.name m)
      (elim (Bool-cases (str_eq key k)) [ inl same ↦ rw same (sym p) | inr other ↦ rw other (h k) ])

Agree-from :
    (d rest : Directory) (sf : StateFile) (m : List (String × String))
    → All (Found d) rest
    → Agree d sf m
    → Agree d (read_from sf rest) (file_map_from m rest)
unfolding read_from file_map_from
Agree-from d [] sf m f h = h
Agree-from d (e ∷ rest) sf m f h = elim (Option-cases (read_entry e)) [
  | inl skipped ↦ rw (skipped, read_from, file_map_from) (Agree-from d rest sf m f.1 h)
  | inr (a, read) ↦ elim (Bool-cases (non_empty (agent_key e a))) [
    | inl keyed ↦
        rw (read, keyed, read_from, file_map_from)
          (Agree-from d rest _ _ f.1
            (Agree-insert d sf m e (agent_key e a) a (parsed d e a f.0 read) h))
    | inr unkeyed ↦ rw (read, unkeyed, read_from, file_map_from) (Agree-from d rest sf m f.1 h)
  ]
]

-- In a directory with distinct names, `ReadAgent` finds for each session id the agent that
-- `ReadState` lists under it, and finds none where `ReadState` lists none.
read_agent-eq-lookup-read_state :
    (d : Directory) (session_id : String)
    → HasDistinctNames d
    → read_agent d session_id ≡ lookup session_id (read_state d)
unfolding read_agent read_state agent_file_map
read_agent-eq-lookup-read_state d session_id h =
    sym (Agree-from d d [] [] (All-Found d h) (λ k. unfold lookup in refl) session_id)
