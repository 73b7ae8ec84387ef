-- ===== src/Web/Trust/Shown/Examples.antt =====
-- The trust flags at a concrete list: one of two waiting panes has an agent.
use agent_dashboard.Common.{◌<◌, ◌≡◌, ◌⊎◌, refl, false, List, [], ◌∷◌, str_eq, count_by}
use agent_dashboard.Common.Dict.{lookup, insert, erase}
use agent_dashboard.Domain.{Agent, empty_agent}
use agent_dashboard.Web.Trust.{
  TrustPanes, mark_trust_pane, clear_trust_pane, is_trust_pane, apply_trust_flags,
}
use agent_dashboard.Web.Trust.Shown.{
  IsMap, on_pane, AreFlagged, mark_trust_pane-IsMap, apply_trust_flags-shown,
}

abbrev marked : TrustPanes
marked = mark_trust_pane "%7" "/w/app" "main:3.0" (mark_trust_pane "%8" "/w/lib" "main:4.1" [])

abbrev listed : List Agent
listed = record empty_agent { session_id = "s1"; tmux_pane_id = "%8" } ∷ empty_agent ∷ []

marked-IsMap : IsMap marked
marked-IsMap =
    mark_trust_pane-IsMap "%7" "/w/app" "main:3.0" (mark_trust_pane "%8" "/w/lib" "main:4.1" [])
      (mark_trust_pane-IsMap "%8" "/w/lib" "main:4.1" [] tt)

apply_trust_flags-shown_example :
    AreFlagged "%7" (apply_trust_flags "claude" marked listed)
    × (((0 < count_by (on_pane "%7") listed)
          × (count_by (on_pane "%7") (apply_trust_flags "claude" marked listed)
              ≡ count_by (on_pane "%7") listed))
        ⊎ ((count_by (on_pane "%7") listed ≡ 0)
            × (count_by (on_pane "%7") (apply_trust_flags "claude" marked listed) ≡ 1)))
unfolding mark_trust_pane insert lookup str_eq
apply_trust_flags-shown_example =
    apply_trust_flags-shown "claude" "%7" (record { folder = "/w/app"; target = "main:3.0" }) marked
      listed marked-IsMap refl refl

cleared_test : is_trust_pane "%7" (clear_trust_pane "%7" marked) ≡ false
unfolding is_trust_pane clear_trust_pane mark_trust_pane insert erase lookup str_eq
cleared_test = refl
