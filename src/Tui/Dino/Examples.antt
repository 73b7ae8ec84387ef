-- ===== src/Tui/Dino/Examples.antt =====
-- The theorems on the game at concrete inputs, and tests of it.
use agent_dashboard.Common.{ℕ, zero, suc, ◌≡◌, refl, List, [], ◌∷◌, str_eq}
use agent_dashboard.Tui.Dino.{
  game_over, new_game, tick_msg, key_press, update, handle_key, begin, jump, tick, advance, fall,
  stand_up, spawn, spawn_range, spawn_obstacle, move_left, check_collision, any_hits, hits,
  collision_params, score_up,
}
use agent_dashboard.Tui.Dino.Flight.{Event, message, resize, after}
use agent_dashboard.Tui.Dino.Clock as Clock

-- The smallest of all draws: small cactuses at the shortest gaps.
abbrev lowest : ℕ → ℕ → ℕ
lowest i n = 0

abbrev ticks : ℕ → List Event
ticks zero = []
ticks (suc n) = message (tick_msg lowest) ∷ ticks n

-- Left alone, the dinosaur runs into the first cactus of a field of 40 columns.
crash_test : (after (new_game 40 17) (message (key_press "space") ∷ ticks 60)).state ≡ game_over
unfolding update handle_key begin tick advance fall stand_up spawn spawn_range spawn_obstacle
    move_left check_collision any_hits hits collision_params score_up str_eq
crash_test = refl

-- Three ticks after a jump it is at its highest.
peak_test :
    (after
      (new_game 40 17)
      (message (key_press "space") ∷ message (key_press "up") ∷ ticks 3)).dino_y
    ≡ 10
unfolding update handle_key begin jump tick advance fall stand_up spawn spawn_range spawn_obstacle
    move_left check_collision any_hits hits collision_params score_up str_eq
peak_test = refl

abbrev jump_and_wait : List Event
jump_and_wait = message (key_press "space") ∷ message (key_press "up") ∷ resize 30 17 ∷ ticks 3

-- The first game is played and left, and the next one begun before the tick of the first is there.
abbrev keys : List Clock.Event
keys =
    Clock.press "space"
    ∷ Clock.press "esc"
    ∷ Clock.leave
    ∷ Clock.press "G"
    ∷ Clock.press "space"
    ∷ []

-- The second game has two clocks, and runs at double speed.
two_clocks_test : (Clock.handle_all 40 (Clock.first_game 40) keys).pending ≡ 2
unfolding Clock.handle_all Clock.handle Clock.open_game update handle_key begin str_eq
two_clocks_test = refl

ticks_under_way_example : Clock.AreTicksDue (Clock.handle_all 40 (Clock.first_game 40) keys)
ticks_under_way_example = Clock.ticks_under_way 40 keys
