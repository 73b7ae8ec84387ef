-- ===== src/State/Disk/Stamp.antt =====
-- What a stamp on one agent's file does to the files of the directory and to the agents read back.
use Prim.Native.String.{◌++◌}
use agent_dashboard.Common.{
  String, ◌≡◌, refl, true, false, Option, none, some, [], ◌∷◌, str_eq, str_eq_iff, str_eq_refl,
  arith, if◌then◌else◌, Option-cases, inl, inr, ◌⊎◌,
}
use agent_dashboard.Common.Dict.{lookup, insert, lookup-insert}
use agent_dashboard.Domain.{Agent}
use agent_dashboard.State.Disk.{
  Value, text, Fields, Directory, read_file, write_file, merge, stamp_agent_fields, pin_agent_state,
  unmarshal_agent, unmarshal_reported, ◌>>=◌, text_of,
}

read_file-write_file :
    (name other : String) (fs old : Fields) (d : Directory)
    → read_file name d ≡ some old
    → read_file other (write_file name fs d)
      ≡ (if str_eq name other then some fs else read_file other d)
unfolding read_file write_file
read_file-write_file name other fs old [] h = cc
read_file-write_file name other fs old (e ∷ d) h = ground (
  arith,
  str_eq_iff name other,
  str_eq_iff e.name name,
  str_eq_iff e.name other,
  read_file-write_file name other fs old d,
)

-- The value that a merge leaves under a key: the update's last one, or else the old one.
unfoldable pub merged : String → Fields → Option Value → Option Value
merged j [] old = old
merged j ((k, v) ∷ updates) old = merged j updates (if str_eq k j then some v else old)

lookup-merge :
    (j : String) (updates fs : Fields)
    → lookup j (merge updates fs) ≡ merged j updates (lookup j fs)
unfolding merge merged
lookup-merge j [] fs = refl
lookup-merge j ((k, v) ∷ updates) fs =
    rw (lookup-merge j updates (insert k v fs)) (rw (lookup-insert k j v fs))

-- A stamp either fails and leaves the directory as it was, which happens exactly when the agent's
-- file cannot be read, or it rewrites that one file: each key of it then holds what the updates say
-- or else what it held, and every other file reads as before.
stamp_agent_fields_correct :
    (session_id : String) (updates : Fields) (d : Directory)
    → ((stamp_agent_fields session_id updates d ≡ (d, false))
        × (read_file (session_id ++ ".json") d ≡ none))
      ⊎ ((old : Fields) × (new : Fields) × (read_file (session_id ++ ".json") d ≡ some old)
          × ((stamp_agent_fields session_id updates d).1 ≡ true)
          × ((other : String)
              → read_file other (stamp_agent_fields session_id updates d).0
                ≡ (if str_eq (session_id ++ ".json") other then some new else read_file other d))
          × ((j : String) → lookup j new ≡ merged j updates (lookup j old)))
unfolding stamp_agent_fields
stamp_agent_fields_correct session_id updates d =
    elim (Option-cases (read_file (session_id ++ ".json") d)) [
      | inl e ↦ inl (rw (e, stamp_agent_fields), e)
      | inr (old, e) ↦ inr (
        old,
        merge updates old,
        e,
        rw (e, stamp_agent_fields),
        λ other.
            rw (e, stamp_agent_fields)
              (read_file-write_file (session_id ++ ".json") other (merge updates old) old d e),
        λ j. lookup-merge j updates old,
      )
    ]

unmarshal_reported-pinned :
    (fs : Fields) (v : Value)
    → unmarshal_reported (insert "pinned_state" v fs) ≡ unmarshal_reported fs
unfolding unmarshal_reported str_eq
unmarshal_reported-pinned fs v = simp lookup-insert

unmarshal_pinned :
    (fs : Fields) (pin : String) (a : Agent)
    → unmarshal_agent fs ≡ some a
    → unmarshal_agent (insert "pinned_state" (text pin) fs) ≡ some (record a { pinned_state = pin })
unfolding unmarshal_agent text_of
unmarshal_pinned fs pin a h = ground (
  arith,
  unmarshal_reported-pinned fs (text pin),
  lookup-insert "pinned_state" "pinned_state" (text pin) fs,
  str_eq_refl "pinned_state",
)

-- A pin is read back: after a successful `PinAgentState` on a file that holds an agent, the file
-- holds the same agent with the new pin, and every other file reads as before.
pub pin_agent_state_read_back :
    (session_id pin : String) (d : Directory) (fs : Fields) (a : Agent)
    → read_file (session_id ++ ".json") d ≡ some fs
    → unmarshal_agent fs ≡ some a
    → ((pin_agent_state session_id pin d).1 ≡ true)
      × ((read_file (session_id ++ ".json") (pin_agent_state session_id pin d).0
            >>= unmarshal_agent)
          ≡ some (record a { pinned_state = pin }))
      × ((other : String)
          → str_eq (session_id ++ ".json") other ≡ false
          → read_file other (pin_agent_state session_id pin d).0 ≡ read_file other d)
unfolding pin_agent_state
pin_agent_state_read_back session_id pin d fs a h u = (
  rw (h, pin_agent_state),
  rw (h, pin_agent_state)
      (rw
        (
          read_file-write_file (session_id ++ ".json") (session_id ++ ".json") _ fs d h,
          str_eq_refl (session_id ++ ".json"),
        )
        (unmarshal_pinned fs pin a u)),
  λ other ne.
      rw (h, pin_agent_state)
        (rw (read_file-write_file (session_id ++ ".json") other _ fs d h, ne)),
)
