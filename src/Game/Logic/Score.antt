-- ===== src/Game/Logic/Score.antt =====
-- game_logic.c: points, the end of an enemy and of the player, and the end of a round.
use soa_fib.Base.{
  ℕ, zero, suc, ◌+◌, ◌*◌, Bool, true, false, not, ◌&&◌, ◌==◌, ltb, leb, if◌then◌else◌, update,
}
use soa_fib.Base.Int.{ℤ, pos, ◌+ℤ◌, ◌-ℤ◌, leb_ℤ, ltb_ℤ}
use soa_fib.Game.Logic.State.{
  player_dead, Enemy, enemy_dead, enemy_inflating, enemy_code, GameLogicState, scene_victory,
  scene_round_clear, scene_game_over, max_score, max_rounds, one_second, level_clear_delay,
  respawn_delay, inflate_levels,
}

unfoldable pub logic_add_score : ℕ → GameLogicState → GameLogicState
logic_add_score points s =
    let score = s.score + points in
    record s { score = if ltb max_score score then max_score else score }

abbrev between : ℕ → ℕ → ℤ → Bool
between lo hi y = leb_ℤ (pos lo) y && leb_ℤ y (pos hi)

unfoldable pub logic_get_layer : ℤ → ℕ
logic_get_layer y =
    if between 3 7 y
    then 1
    else if between 8 12 y
    then 2
    else if between 13 17 y
    then 3
    else if between 18 22 y
    then 4
    else 0

unfoldable pub logic_calculate_enemy_points : ℤ → ℕ
logic_calculate_enemy_points y =
    let layer = logic_get_layer y in
    if layer == 1
    then 200
    else if layer == 2
    then 300
    else if layer == 3
    then 400
    else if layer == 4
    then 500
    else 200

-- an enemy that moves, or is being inflated or paralysed
abbrev pub alive : Enemy → Bool
alive e = not (e.base.active == 0) && not (enemy_code e.state == enemy_code enemy_dead)

abbrev pub put_enemy : ℕ → Enemy → GameLogicState → GameLogicState
put_enemy i e s = record s { enemies = update s.enemies i e }

-- what each of the ways to kill an enemy does: by blinking, inflation, a rock and the developer's key
unfoldable pub kill_enemy : ℕ → ℕ → GameLogicState → GameLogicState
kill_enemy i factor s =
    let e = s.enemies i in
    let s1 =
      record (put_enemy i (record e { state = enemy_dead; base = record (e.base) { active = 0 } })
        s) { enemies_remaining = s.enemies_remaining -ℤ pos 1 } in
    logic_add_score (logic_calculate_enemy_points e.base.pos_of.y * factor) s1

unfoldable pub logic_enemy_inflate : ℕ → GameLogicState → GameLogicState
logic_enemy_inflate i s =
    let e = s.enemies i in
    let level = e.inflate_level +ℤ pos 1 in
    let s1 = put_enemy i (record e { state = enemy_inflating; inflate_level = level }) s in
    if enemy_code e.state == enemy_code enemy_dead
    then s
    else if leb_ℤ (pos inflate_levels) level
    then kill_enemy i 1 s1
    else s1

unfoldable pub logic_player_die : GameLogicState → GameLogicState
logic_player_die s =
    let lives = s.lives -ℤ pos 1 in
    record s {
      player = record (s.player) { state = player_dead; is_pumping = 0; pump_length = 0 };
      lives = lives;
      round_start_timer = if ltb_ℤ (pos 0) lives then respawn_delay else s.round_start_timer;
    }

-- `time` is what gettime returns.
unfoldable pub logic_check_round_complete : ℕ → GameLogicState → GameLogicState
logic_check_round_complete time s =
    let cleared =
      if s.enemies_cleared_time == 0 then time + 3 * one_second else s.enemies_cleared_time in
    let s1 = record s { enemies_cleared_time = cleared } in
    if leb_ℤ s.enemies_remaining (pos 0)
    then (if leb_ℤ (pos cleared -ℤ pos time) (pos 0)
        then (if leb max_rounds s.round
            then record s1 { scene = scene_victory }
            else record s1 { scene = scene_round_clear; round_start_timer = level_clear_delay })
        else s1)
    else s

unfoldable pub logic_check_game_over : GameLogicState → GameLogicState
logic_check_game_over s = if leb_ℤ s.lives (pos 0) then record s { scene = scene_game_over } else s

-- the loop of `logic_dev_kill_enemy` from enemy i on
unfoldable pub dev_kill_from : ℕ → ℕ → GameLogicState → Bool × GameLogicState
dev_kill_from zero i s = (false, s)
dev_kill_from (suc n) i s =
    let rest = dev_kill_from n (i + 1) s in
    if alive (s.enemies i) then (true, kill_enemy i 1 s) else rest

unfoldable pub logic_dev_kill_enemy : GameLogicState → Bool × GameLogicState
logic_dev_kill_enemy s = dev_kill_from s.enemy_count 0 s
