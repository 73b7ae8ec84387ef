-- ===== src/State/Arbitration/Frame.antt =====
-- What arbitration may change: the state of a resting or blocked agent, and nothing else.
use agent_dashboard.Common.{String, ◌≡◌, ◌≢◌, ◌⊎◌, true, str_eq_refl, str_eq_iff, str_eq, arith}
use agent_dashboard.Domain.{Agent}
use agent_dashboard.State.Arbitration.{Transcripts, idle_states, arbitrate_agent}

-- Everything but the displayed state.
frame :
    (t : Transcripts) (root : String) (a : Agent)
    → arbitrate_agent t root a ≡ record a { state = (arbitrate_agent t root a).state }
unfolding arbitrate_agent
frame t root a = ground arith

-- The states that an agent can be moved out of.
abbrev pub IsMovable : String → Type 0
IsMovable s =
    (str_eq s "idle_prompt" ≡ true)
    ⊎ (str_eq s "permission" ≡ true)
    ⊎ (str_eq s "done" ≡ true)
    ⊎ (str_eq s "question" ≡ true)

-- An agent keeps every field but its state, and it keeps that too unless the state was idle_prompt,
-- permission, done or question: live work (running, plan, error) and shipped work pass unchanged.
pub arbitrate_agent_frame :
    (t : Transcripts) (root : String) (a : Agent)
    → (arbitrate_agent t root a ≡ a)
      ⊎ ((arbitrate_agent t root a ≡ record a { state = (arbitrate_agent t root a).state })
          × IsMovable a.state)
unfolding arbitrate_agent
arbitrate_agent_frame t root a = ground (arith, str_eq_refl "", str_eq_refl a.state)

-- An idle agent with a pin is shown by its pin, whatever the transcripts hold.
pub arbitrate_agent_pinned :
    (t : Transcripts) (root : String) (a : Agent)
    → str_eq a.pinned_state "" ≢ true
    → idle_states a.state ≡ true
    → (arbitrate_agent t root a).state ≡ a.pinned_state
unfolding arbitrate_agent
arbitrate_agent_pinned t root a p i = ground (arith, str_eq_iff a.pinned_state a.state)
