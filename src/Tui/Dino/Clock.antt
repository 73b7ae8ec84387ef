-- ===== src/Tui/Dino/Clock.antt =====
-- The clock of the game: the ticks that are under way while it is played, left and opened again.
-- internal/tui/model.go and keys.go: a tick reaches the game only while it is shown, `dinoExitMsg`
-- hides it, and the key `G` in the list of agents shows a new one. Left out: the other modes.
use agent_dashboard.Common.{
  ℕ, suc, ◌+◌, ◌-◌, ◌≤◌, ◌<◌, String, ◌≡◌, refl, ap, ◌∙◌, Bool, true, false, List, [], ◌∷◌, ◌⊎◌,
  ltb, str_eq, arith, inl, inr, if◌then◌else◌, Bool-cases,
}
use agent_dashboard.Tui.Dino.{
  GameState, playing, Game, Cmd, tick_later, exit, new_game, begin, jump, duck, handle_key,
  handle_key_release, fall, stand_up, spawn, advance, score_up, tick, tick_msg, key_press,
  key_release, update,
}

-- The runtime: the game and whether it is shown, the ticks and exits that it has asked for and that
-- are not delivered yet, and how many games there have been.
pub record Runtime : Type 0 where
  pub game : Game
  pub shown : Bool
  pub pending : ℕ
  pub leaving : ℕ
  pub games : ℕ

pub data Event : Type 0 where
  deliver : (ℕ → ℕ → ℕ) → Event  -- a tick that was asked for
  leave : Event  -- an exit that was asked for
  press : String → Event
  release : String → Event

abbrev asked : Cmd → ℕ
asked tick_later = 1
asked _ = 0

abbrev exits : Cmd → ℕ
exits exit = 1
exits _ = 0

abbrev pub taken : Runtime → Game × Cmd → Runtime
taken r (d, c) = record r { game = d; pending = r.pending + asked c; leaving = r.leaving + exits c }

-- The key `G` of the list of agents; `width` is that of the left panel.
unfoldable pub open_game : ℕ → Runtime → Runtime
open_game width r = record r { game = new_game width 17; shown = true; games = suc r.games }

unfoldable pub handle : ℕ → Runtime → Event → Runtime
unfolding open_game
handle width r (deliver intn) =
    let ticked = taken (record r { pending = r.pending - 1 }) (update r.game (tick_msg intn)) in
    if ltb 0 r.pending
    then (if r.shown then ticked else record r { pending = r.pending - 1 })
    else r
handle width r leave =
    if ltb 0 r.leaving then record r { shown = false; leaving = r.leaving - 1 } else r
handle width r (press key) =
    if r.shown
    then taken r (update r.game (key_press key))
    else if str_eq key "G"
    then open_game width r
    else r
handle width r (release key) = if r.shown then taken r (update r.game (key_release key)) else r

unfoldable pub handle_all : ℕ → Runtime → List Event → Runtime
handle_all width r [] = r
handle_all width r (e ∷ es) = handle_all width (handle width r e) es

-- The first game is shown.
abbrev pub first_game : ℕ → Runtime
first_game width = record {
  game = new_game width 17;
  shown = true;
  pending = 0;
  leaving = 0;
  games = 1;
}

abbrev pub ticks_due : GameState → ℕ
ticks_due playing = 1
ticks_due _ = 0

jump_state : (d : Game) → (jump d).state ≡ d.state
unfolding jump
jump_state d = ground arith

duck_state : (d : Game) → (duck d).state ≡ d.state
unfolding duck
duck_state d = ground arith

key_due :
    (d : Game) (key : String)
    → ticks_due (handle_key d key).0.state ≡ ticks_due d.state + asked (handle_key d key).1
unfolding handle_key begin
key_due d key = ground (arith, jump_state d, duck_state d)

release_state : (d : Game) (key : String) → (handle_key_release d key).state ≡ d.state
unfolding handle_key_release
release_state d key = ground arith

fall_state : (d : Game) → (fall d).state ≡ d.state
unfolding fall
fall_state d = ground arith

stand_up_state : (d : Game) → (stand_up d).state ≡ d.state
unfolding stand_up
stand_up_state d = ground arith

spawn_state : (intn : ℕ → ℕ → ℕ) (d : Game) → (spawn intn d).state ≡ d.state
unfolding spawn
spawn_state intn d = ground arith

advance_state : (intn : ℕ → ℕ → ℕ) (d : Game) → (advance intn d).state ≡ d.state
unfolding advance
advance_state intn d =
    let counted : Game = record d { frame = suc d.frame; tick_count = suc d.tick_count } in
    spawn_state intn _ ∙ (stand_up_state (fall counted) ∙ fall_state counted)

tick_due :
    (intn : ℕ → ℕ → ℕ) (d : Game)
    → ticks_due (tick intn d).0.state ≡ ticks_due d.state - 1 + asked (tick intn d).1
unfolding tick score_up
tick_due intn d = ground (arith, advance_state intn d)

-- No more ticks are under way than the game needs and one for each game before it, and as long as it
-- is shown no fewer than it needs.
pub record AreTicksDue (r : Runtime) : Type 0 where
  pub begun : 0 < r.games
  pub most : r.pending ≤ r.games - 1 + ticks_due r.game.state
  pub least : (r.shown ≡ false) ⊎ (ticks_due r.game.state ≤ r.pending)

enough : (r : Runtime) → AreTicksDue r → r.shown ≡ true → ticks_due r.game.state ≤ r.pending
enough r h shown = elim h.least [ inl hidden ↦ absurd (ground arith) | inr le ↦ le ]

state_due : (d d' : Game) → d'.state ≡ d.state → ticks_due d'.state ≡ ticks_due d.state
state_due d d' h = ap ticks_due h

handle_due : (width : ℕ) (r : Runtime) (e : Event) → AreTicksDue r → AreTicksDue (handle width r e)
unfolding handle update open_game
handle_due width r (deliver intn) h = elim (Bool-cases (ltb 0 r.pending)) [
  | inr none_left ↦ simp none_left h
  | inl some_left ↦ elim (Bool-cases r.shown) [
    | inr hidden ↦
        simp (some_left, hidden)
          (record { begun = h.begun; most = ground (arith, h.most); least = inl refl })
    | inl shown ↦
        simp (some_left, shown)
          (record {
            begun = h.begun;
            most = ground (arith, h.most, h.begun, tick_due intn r.game);
            least = inr (ground (arith, enough r h shown, tick_due intn r.game));
          })
  ]
]
handle_due width r leave h = elim (Bool-cases (ltb 0 r.leaving)) [
  | inr none_left ↦ simp none_left h
  | inl some_left ↦ simp some_left (record { begun = h.begun; most = h.most; least = inl refl })
]
handle_due width r (press key) h = elim (Bool-cases r.shown) [
  | inl shown ↦ simp shown (record {
    begun = h.begun;
    most = omega (arith, h.most, h.begun, key_due r.game key);
    least = inr (omega (arith, enough r h shown, key_due r.game key));
  })
  | inr hidden ↦ elim (Bool-cases (str_eq key "G")) [
    | inl opens ↦
        simp (hidden, opens)
          (record {
            begun = omega arith;
            most = ground (arith, h.most, h.begun);
            least = inr (omega arith);
          })
    | inr other ↦ simp (hidden, other) h
  ]
]
handle_due width r (release key) h = elim (Bool-cases r.shown) [
  | inr hidden ↦ simp hidden h
  | inl shown ↦
      let same = state_due r.game (handle_key_release r.game key) (release_state r.game key) in
      simp shown (record {
        begun = h.begun;
        most = omega (arith, h.most, same);
        least = inr (omega (arith, enough r h shown, same));
      })
]

handle_all_due :
    (width : ℕ) (r : Runtime) (es : List Event)
    → AreTicksDue r
    → AreTicksDue (handle_all width r es)
unfolding handle_all
handle_all_due width r [] h = h
handle_all_due width r (e ∷ es) h =
    handle_all_due width (handle width r e) es (handle_due width r e h)

-- Whatever keys are pressed and released and however the game is left and opened: while it is shown
-- and played a tick is under way, so that it never stops; and at most one tick more is under way for
-- each game before it. So the first game has one clock: one tick while it is played, and none while
-- it waits or is over.
pub ticks_under_way :
    (width : ℕ) (es : List Event) → AreTicksDue (handle_all width (first_game width) es)
ticks_under_way width es =
    handle_all_due width (first_game width) es
      (record { begun = omega arith; most = omega arith; least = inr (omega arith) })
