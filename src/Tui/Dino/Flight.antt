-- ===== src/Tui/Dino/Flight.antt =====
-- The bounds of the game: where the dinosaur can be, and what the clock and the timer can hold.
use agent_dashboard.Common.{
  ℕ, suc, ◌≤◌, ◌<◌, String, ◌≡◌, refl, ◌⊎◌, inl, Bool, true, false, ◌||◌, List, [], ◌∷◌, ◌==◌,
  arith, if◌then◌else◌,
}
use agent_dashboard.Tui.Dino.{
  Pose, jumping, Game, new_game, begin, jump, duck, handle_key, handle_key_release, fall, stand_up,
  spawn_range, spawn, advance, score_up, tick, with_size, Msg, tick_msg, enhancements, key_press,
  key_release, update,
}

-- The height after some ticks in the air: 4, 7, 9, 10, 10, 9, 7, 4.
abbrev pub height_at : ℕ → ℕ
height_at n =
    if n == 0 || n == 7
    then 4
    else if n == 1 || n == 6
    then 7
    else if n == 2 || n == 5
    then 9
    else 10

abbrev pub is_jumping : Pose → Bool
is_jumping jumping = true
is_jumping _ = false

-- On the ground, or on the arc of a jump.
abbrev pub IsOnArc : Game → Type 0
IsOnArc d =
    ((d.dino_y ≡ 0) × (is_jumping d.pose ≡ false))
    ⊎ ((is_jumping d.pose ≡ true)
        × (d.jump_vel.up ≡ 4)
        × (d.jump_vel.down < 8)
        × (d.dino_y ≡ height_at d.jump_vel.down))

pub record IsSound (d : Game) : Type 0 where
  pub arc : IsOnArc d
  pub sub_pixel_bound : d.sub_pixel < 10
  pub speed_bound : 20 ≤ d.speed10
  pub timer_bound : 0 < d.spawn_timer

-- `rand.IntN(n)` is below `n`; for 0 it does not return.
abbrev pub IsRandom : (ℕ → ℕ → ℕ) → Type 0
IsRandom intn = (i n : ℕ) → 0 < n → intn i n < n

fall-IsOnArc : (d : Game) → IsOnArc d → IsOnArc (fall d)
unfolding fall
fall-IsOnArc d h = ground arith

stand_up-IsOnArc : (d : Game) → IsOnArc d → IsOnArc (stand_up d)
unfolding stand_up
stand_up-IsOnArc d h = ground arith

-- The range that the random gap is drawn from is never empty, and no gap is shorter than 16 ticks.
range_bounds :
    (ticks : ℕ) → let (min_t, max_t) = spawn_range ticks in (16 ≤ min_t) × (min_t < max_t)
unfolding spawn_range
range_bounds ticks = ground arith

spawn-IsSound : (intn : ℕ → ℕ → ℕ) (d : Game) → IsSound d → IsSound (spawn intn d)
unfolding spawn
spawn-IsSound intn d v = record {
  arc = ground (arith, v.arc);
  sub_pixel_bound = ground (arith, v.sub_pixel_bound);
  speed_bound = ground (arith, v.speed_bound);
  timer_bound = ground (arith, range_bounds d.tick_count);
}

handle_key-IsSound : (d : Game) (key : String) → IsSound d → IsSound (handle_key d key).0
unfolding handle_key jump duck begin
handle_key-IsSound d key v = record {
  arc = ground (arith, v.arc);
  sub_pixel_bound = ground (arith, v.sub_pixel_bound);
  speed_bound = ground (arith, v.speed_bound);
  timer_bound = ground (arith, v.timer_bound);
}

handle_key_release-IsSound :
    (d : Game) (key : String) → IsSound d → IsSound (handle_key_release d key)
unfolding handle_key_release
handle_key_release-IsSound d key v = record {
  arc = ground (arith, v.arc);
  sub_pixel_bound = ground (arith, v.sub_pixel_bound);
  speed_bound = ground (arith, v.speed_bound);
  timer_bound = ground (arith, v.timer_bound);
}

fall_frame :
    (d : Game)
    → ((fall d).sub_pixel ≡ d.sub_pixel)
      × ((fall d).speed10 ≡ d.speed10)
      × ((fall d).spawn_timer ≡ d.spawn_timer)
unfolding fall
fall_frame d = ground arith

stand_up_frame :
    (d : Game)
    → ((stand_up d).sub_pixel ≡ d.sub_pixel)
      × ((stand_up d).speed10 ≡ d.speed10)
      × ((stand_up d).spawn_timer ≡ d.spawn_timer)
unfolding stand_up
stand_up_frame d = ground arith

advance-IsSound : (intn : ℕ → ℕ → ℕ) (d : Game) → IsSound d → IsSound (advance intn d)
unfolding advance
advance-IsSound intn d v =
    let counted : Game = record d { frame = suc d.frame; tick_count = suc d.tick_count } in
    let fallen : Game = stand_up (fall counted) in
    let same = fall_frame counted in
    let same' = stand_up_frame (fall counted) in
    spawn-IsSound intn _ (record {
      arc = stand_up-IsOnArc (fall counted) (fall-IsOnArc counted v.arc);
      sub_pixel_bound = omega arith;
      speed_bound = omega (arith, v.speed_bound);
      timer_bound = omega (arith, v.timer_bound);
    })

tick-IsSound : (intn : ℕ → ℕ → ℕ) (d : Game) → IsSound d → IsSound (tick intn d).0
unfolding tick score_up
tick-IsSound intn d v =
    let e = advance-IsSound intn d v in
    record {
      arc = ground (arith, v.arc, e.arc);
      sub_pixel_bound = ground (arith, v.sub_pixel_bound, e.sub_pixel_bound);
      speed_bound = ground (arith, v.speed_bound, e.speed_bound);
      timer_bound = ground (arith, v.timer_bound, e.timer_bound);
    }

-- What can happen to the game: a message, or a new size of the panel.
pub data Event : Type 0 where
  message : Msg → Event
  resize : ℕ → ℕ → Event

abbrev pub after : Game → List Event → Game
after d [] = d
after d (message m ∷ es) = after (update d m).0 es
after d (resize w h ∷ es) = after (with_size d w h) es

update-IsSound : (d : Game) (m : Msg) → IsSound d → IsSound (update d m).0
unfolding update
update-IsSound d (tick_msg intn) v = tick-IsSound intn d v
update-IsSound d (enhancements b) v = record {
  arc = v.arc;
  sub_pixel_bound = v.sub_pixel_bound;
  speed_bound = v.speed_bound;
  timer_bound = v.timer_bound;
}
update-IsSound d (key_press key) v = handle_key-IsSound d key v
update-IsSound d (key_release key) v = handle_key_release-IsSound d key v

after-IsSound : (d : Game) (es : List Event) → IsSound d → IsSound (after d es)
unfolding with_size
after-IsSound d [] v = v
after-IsSound d (message m ∷ es) v = after-IsSound (update d m).0 es (update-IsSound d m v)
after-IsSound d (resize w h ∷ es) v = after-IsSound (with_size d w h) es (record {
  arc = v.arc;
  sub_pixel_bound = v.sub_pixel_bound;
  speed_bound = v.speed_bound;
  timer_bound = v.timer_bound;
})

-- After any keys, ticks and changes of size the dinosaur is on the ground and not jumping, or is
-- jumping and on the arc 4, 7, 9, 10, 10, 9, 7, 4, so that it is never higher than 10 and every jump
-- has 8 ticks in the air; the part of a column stays below 10, the speed never drops below its
-- start, the timer is positive; and the range that the next gap is drawn from is not empty and
-- starts at 16 or more.
after_bounds :
    (w h : ℕ) (es : List Event)
    → let d = after (new_game w h) es in
      IsOnArc d
      × (d.dino_y ≤ 10)
      × (d.sub_pixel < 10)
      × (20 ≤ d.speed10)
      × (0 < d.spawn_timer)
      × (16 ≤ (spawn_range d.tick_count).0)
      × ((spawn_range d.tick_count).0 < (spawn_range d.tick_count).1)
after_bounds w h es =
    let d = after (new_game w h) es in
    let v = after-IsSound (new_game w h) es (record {
      arc = inl (refl, refl);
      sub_pixel_bound = omega arith;
      speed_bound = omega arith;
      timer_bound = omega arith;
    }) in
    (
      v.arc,
      ground (arith, v.arc),
      v.sub_pixel_bound,
      v.speed_bound,
      v.timer_bound,
      (range_bounds d.tick_count).0,
      (range_bounds d.tick_count).1,
    )
