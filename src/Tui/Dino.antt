-- ===== src/Tui/Dino.antt =====
-- internal/tui/dino.go: the game of the pet panel, its keys, its clock and its collisions.
-- Numbers that the source lets go below zero are kept apart from it: the speed of a jump is the
-- difference of two numbers, and an obstacle has its right edge, `x + width`, which is only used
-- while it is positive. A random generator is a function: `intn i n` is what
-- the call `i` of `rand.IntN(n)` in a tick returns. The level of
-- difficulty is `tickCount / 500` in floating point, of which only rounded-down multiples are used.
pub mod Flight
pub mod Clock
mod Examples
use agent_dashboard.Common.{
  ℕ, suc, ◌+◌, ◌-◌, ◌*◌, ◌/◌, ◌%◌, String, Bool, true, false, not, ◌&&◌, ◌||◌, List, [], ◌∷◌, ◌++◌,
  ltb, leb, ◌==◌, str_eq, if◌then◌else◌,
}

pub data GameState : Type 0 where
  waiting : GameState
  playing : GameState
  game_over : GameState

pub data Pose : Type 0 where
  running : Pose
  jumping : Pose
  ducking : Pose

pub data Kind : Type 0 where
  small_cactus : Kind
  large_cactus : Kind
  bird : Kind

-- `right` is `x + width`.
pub record Obstacle : Type 0 where
  pub right : ℕ
  pub kind : Kind
  pub width : ℕ
  pub height : ℕ
  pub bird_y : ℕ

-- `jumpVel` is `up - down`.
pub record Velocity : Type 0 where
  pub up : ℕ
  pub down : ℕ

pub record Game : Type 0 where
  pub state : GameState
  pub width : ℕ
  pub height : ℕ
  pub pose : Pose
  pub dino_y : ℕ
  pub jump_vel : Velocity
  pub frame : ℕ
  pub has_key_release : Bool
  pub duck_ticks : ℕ
  pub obstacles : List Obstacle
  pub ground_off : ℕ
  pub speed10 : ℕ
  pub sub_pixel : ℕ
  pub score : ℕ
  pub tick_count : ℕ
  pub spawn_timer : ℕ

abbrev pub still : Velocity
still = record { up = 0; down = 0 }

abbrev pub new_game : ℕ → ℕ → Game
new_game w h = record {
  state = waiting;
  width = w;
  height = h;
  pose = running;
  dino_y = 0;
  jump_vel = still;
  frame = 0;
  has_key_release = false;
  duck_ticks = 0;
  obstacles = [];
  ground_off = 0;
  speed10 = 20;
  sub_pixel = 0;
  score = 0;
  tick_count = 0;
  spawn_timer = 25;
}

abbrev pub is_ducking : Game → Bool
is_ducking d = elim d.pose [ ducking ↦ true | _ ↦ false ]

-- The shortest and the longest time to the next obstacle.
unfoldable pub spawn_range : ℕ → ℕ × ℕ
spawn_range ticks =
    let low = 25 - ticks / 500 in
    let min_t = if ltb low 16 then 16 else low in
    let high = 45 - ticks / 250 in (min_t, if ltb high (min_t + 1) then min_t + 1 else high)

-- The width and the offset of the collision box.
unfoldable pub collision_params : ℕ → ℕ → ℕ × ℕ
collision_params ticks sprite_w =
    let off = 3 - ticks / 1000 in
    let w = 4 + ticks / 1000 in
    let max_w = sprite_w - 2 * off in (if ltb max_w w then max_w else w, off)

-- What `Update` asks the runtime for.
pub data Cmd : Type 0 where
  nothing : Cmd
  tick_later : Cmd
  exit : Cmd

abbrev pub is_space_key : String → Bool
is_space_key key = str_eq key " " || str_eq key "space"

abbrev pub is_exit_key : String → Bool
is_exit_key key = str_eq key "esc" || str_eq key "q"

unfoldable pub begin : Game → Game
begin d = record d {
  state = playing;
  score = 0;
  tick_count = 0;
  speed10 = 20;
  sub_pixel = 0;
  obstacles = [];
  spawn_timer = 25;
  dino_y = 0;
  jump_vel = still;
  pose = running;
  frame = 0;
}

unfoldable pub jump : Game → Game
jump d =
    if d.dino_y == 0
    then record d { jump_vel = record { up = 4; down = 0 }; dino_y = 4; pose = jumping }
    else d

unfoldable pub duck : Game → Game
duck d =
    if d.dino_y == 0
    then record d { pose = ducking; duck_ticks = if d.has_key_release then d.duck_ticks else 12 }
    else d

unfoldable pub handle_key : Game → String → Game × Cmd
unfolding begin jump duck
handle_key d key = elim d.state [
  | waiting ↦
      if is_space_key key
      then (begin d, tick_later)
      else if is_exit_key key
      then (d, exit)
      else (d, nothing)
  | playing ↦
      if is_space_key key || str_eq key "up"
      then (jump d, nothing)
      else if str_eq key "down"
      then (duck d, nothing)
      else if is_exit_key key
      then (d, exit)
      else (d, nothing)
  | game_over ↦
      if is_space_key key
      then (
        record d { state = waiting; obstacles = []; score = 0; dino_y = 0; pose = running },
        nothing,
      )
      else if is_exit_key key
      then (d, exit)
      else (d, nothing)
]

unfoldable pub handle_key_release : Game → String → Game
handle_key_release d key = elim d.state [
  | playing ↦ if str_eq key "down" && is_ducking d then record d { pose = running } else d
  | _ ↦ d
]

-- Gravity: `jumpVel -= 1`, `dinoY += jumpVel`, and the landing.
unfoldable pub fall : Game → Game
fall d =
    if ltb 0 d.dino_y
    then (let v = suc d.jump_vel.down in
        if leb (d.dino_y + d.jump_vel.up) v
        then record d { dino_y = 0; jump_vel = still; pose = running }
        else record d {
          dino_y = d.dino_y + d.jump_vel.up - v;
          jump_vel = record { up = d.jump_vel.up; down = v };
        })
    else d

unfoldable pub stand_up : Game → Game
stand_up d =
    if is_ducking d && not d.has_key_release && ltb 0 d.duck_ticks
    then record d {
      duck_ticks = d.duck_ticks - 1;
      pose = if leb d.duck_ticks 1 then running else d.pose;
    }
    else d

-- The obstacles `move` columns further left; those that have left the field are gone.
unfoldable pub move_left : ℕ → List Obstacle → List Obstacle
move_left move [] = []
move_left move (o ∷ os) =
    let rest = move_left move os in
    if ltb move o.right then record o { right = o.right - move } ∷ rest else rest

unfoldable pub spawn_obstacle : (ℕ → ℕ → ℕ) → ℕ → Obstacle
spawn_obstacle intn w =
    if intn 0 3 == 2
    then record { right = w + 5; kind = bird; width = 5; height = 17; bird_y = 4 }
    else if intn 0 3 == 1
    then record { right = w + 6; kind = large_cactus; width = 6; height = 4; bird_y = 0 }
    else record { right = w + 6; kind = small_cactus; width = 6; height = 3; bird_y = 0 }

unfoldable pub spawn : (ℕ → ℕ → ℕ) → Game → Game
unfolding spawn_obstacle spawn_range
spawn intn d =
    if leb d.spawn_timer 1
    then (let (min_t, max_t) = spawn_range d.tick_count in
        record d {
          obstacles = d.obstacles ++ (spawn_obstacle intn d.width ∷ []);
          spawn_timer = min_t + intn 1 (max_t - min_t);
        })
    else record d { spawn_timer = d.spawn_timer - 1 }

-- Whether an obstacle meets the box from `x1` to `x2` and from `y1` to `y2`.
unfoldable pub hits : ℕ → ℕ → ℕ → ℕ → Obstacle → Bool
hits x1 x2 y1 y2 o =
    ltb x1 o.right && ltb o.right (x2 + o.width) && ltb y1 (o.bird_y + o.height) && ltb o.bird_y y2

unfoldable pub any_hits : ℕ → ℕ → ℕ → ℕ → List Obstacle → Bool
unfolding hits
any_hits x1 x2 y1 y2 [] = false
any_hits x1 x2 y1 y2 (o ∷ os) =
    let rest = any_hits x1 x2 y1 y2 os in if hits x1 x2 y1 y2 o then true else rest

unfoldable pub check_collision : Game → Bool
unfolding collision_params any_hits
check_collision d =
    let (dw, off) = collision_params d.tick_count (if is_ducking d then 15 else 10) in
    let dh = if is_ducking d then 4 else 5 in
    any_hits (4 + off) (4 + off + dw) d.dino_y (d.dino_y + dh) d.obstacles

-- Everything before the collision test: the count, the jump, the ducking, the field.
unfoldable pub advance : (ℕ → ℕ → ℕ) → Game → Game
advance intn d =
    let e = stand_up (fall (record d { frame = suc d.frame; tick_count = suc d.tick_count })) in
    let sub = e.sub_pixel + e.speed10 in
    spawn intn (record e { sub_pixel = sub % 10; obstacles = move_left (sub / 10) e.obstacles })

-- `rest` of a tick without a collision; `move` is how far the field moved.
unfoldable pub score_up : ℕ → Game → Game
score_up move d = record d {
  score = suc d.score;
  speed10 = if d.tick_count % 50 == 0 then suc d.speed10 else d.speed10;
  ground_off = if ltb 0 d.width then (d.ground_off + move) % d.width else d.ground_off;
}

unfoldable pub tick : (ℕ → ℕ → ℕ) → Game → Game × Cmd
tick intn d = elim d.state [
  | playing ↦
      let e = advance intn d in
      if check_collision e
      then (record e { state = game_over }, nothing)
      else (score_up ((d.sub_pixel + d.speed10) / 10) e, tick_later)
  | _ ↦ (d, nothing)
]

unfoldable pub with_size : Game → ℕ → ℕ → Game
with_size d w h = record d { width = w; height = h }

pub data Msg : Type 0 where
  tick_msg : (ℕ → ℕ → ℕ) → Msg
  enhancements : Bool → Msg
  key_press : String → Msg
  key_release : String → Msg

unfoldable pub update : Game → Msg → Game × Cmd
update d (tick_msg intn) = tick intn d
update d (enhancements b) = (record d { has_key_release = b }, nothing)
update d (key_press key) = handle_key d key
update d (key_release key) = (handle_key_release d key, nothing)
