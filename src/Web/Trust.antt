-- ===== src/Web/Trust.antt =====
-- internal/web/trust.go: the panes that wait at a folder-trust prompt, and how the list shows them.
-- The watch of one pane, which marks it when the prompt is there, is left out. `harness` is the name
-- of the configured harness.
pub mod Shown
use Prim.Native.String.{◌++◌}
use agent_dashboard.Common.{
  ℕ, String, Bool, true, false, ◌&&◌, Option, none, some, List, [], ◌∷◌, ◌++◌ as append, map, any,
  str_eq, is_empty, non_empty, if◌then◌else◌,
}
use agent_dashboard.Common.Dict.{lookup, insert, erase}
use agent_dashboard.Common.Int.{ℤ, pos, pos_part}
use agent_dashboard.Domain.{Agent, empty_agent}
use agent_dashboard.Tmux.{parse_target}

pub record TrustPaneRecord : Type 0 where
  pub folder : String
  pub target : String

-- `trustPanes`
abbrev pub TrustPanes : Type 0
TrustPanes = List (String × TrustPaneRecord)

unfoldable pub mark_trust_pane : String → String → String → TrustPanes → TrustPanes
mark_trust_pane pane_id folder target m =
    if is_empty pane_id then m else insert pane_id (record { folder = folder; target = target }) m

unfoldable pub is_trust_pane : String → TrustPanes → Bool
is_trust_pane pane_id m =
    if is_empty pane_id then false else elim (lookup pane_id m) [ none ↦ false | some rec ↦ true ]

unfoldable pub clear_trust_pane : String → TrustPanes → TrustPanes
clear_trust_pane pane_id m = if is_empty pane_id then m else erase pane_id m

-- The first loop's body.
unfoldable pub flag_trust : TrustPanes → Agent → Agent
flag_trust m a = if is_empty a.tmux_pane_id then a else elim (lookup a.tmux_pane_id m) [
  | none ↦ a
  | some rec ↦ record a { trust_prompt_detected = true }
]

-- A read of the map `matched` at a pane of the trust set.
unfoldable pub is_matched : List Agent → String → Bool
is_matched agents pane_id =
    any (λ (a : Agent). non_empty a.tmux_pane_id && str_eq a.tmux_pane_id pane_id) agents

abbrev parsed_or_zero : Option (String × ℤ × ℤ) → String × ℤ × ℤ
parsed_or_zero none = ("", pos 0, pos 0)
parsed_or_zero (some parsed) = parsed

-- tmux gives no negative index, and the agents of the model have none.
unfoldable pub placeholder : String → String → TrustPaneRecord → Agent
placeholder harness pane_id rec =
    let (session, window, pane) = parsed_or_zero (parse_target rec.target) in
    record empty_agent {
      session_id = "trust-pending-" ++ pane_id;
      tmux_pane_id = pane_id;
      target = rec.target;
      session = session;
      window = pos_part window;
      pane = pos_part pane;
      cwd = rec.folder;
      state = "running";
      trust_prompt_detected = true;
      harness = harness;
    }

-- The second loop.
unfoldable pub placeholders : String → List Agent → TrustPanes → List Agent
placeholders harness agents [] = []
placeholders harness agents ((pane_id, rec) ∷ m) =
    let rest = placeholders harness agents m in
    if is_matched agents pane_id then rest else placeholder harness pane_id rec ∷ rest

unfoldable pub apply_trust_flags : String → TrustPanes → List Agent → List Agent
apply_trust_flags harness [] agents = agents
apply_trust_flags harness ((pane_id, rec) ∷ m) agents =
    append (placeholders harness agents ((pane_id, rec) ∷ m))
      (map (flag_trust ((pane_id, rec) ∷ m)) agents)
