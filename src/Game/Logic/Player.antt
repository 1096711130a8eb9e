-- ===== src/Game/Logic/Player.antt =====
-- game_logic.c: the player's moves, attack and pump. `g_current_logic_state`, which the code reads
-- the rocks from, is the state itself: `logic_update` sets it first.
use soa_fib.Base.{
  ℕ, zero, suc, ◌+◌, ◌-◌, Bool, true, false, not, ◌&&◌, ◌==◌, ltb, if◌then◌else◌, Option, none,
  some,
}
use soa_fib.Base.Int.{pos, ◌+ℤ◌, ◌-ℤ◌, leb_ℤ, ltb_ℤ}
use soa_fib.Game.Types.{
  Direction, dir_none, dir_up, dir_down, dir_left, dir_right, dir_code, Position, tile_bonus,
  tile_empty, row_sky_end, row_border, player_speed,
}
use soa_fib.Game.Map.{
  Map, tile_is, map_get_tile, map_set_tile, map_is_valid_position, map_is_walkable, map_is_solid,
  map_is_diggable, map_dig, map_has_gem, map_remove_gem,
}
use soa_fib.Game.Entities.{next_position}
use soa_fib.Game.Logic.State.{
  Player, PlayerState, player_idle, player_moving, player_digging, player_pumping, player_attacking,
  player_dead, player_code, Enemy, enemy_paralyzed, enemy_inflating, enemy_code, Rock, RockState,
  rock_stable, rock_wobbling, rock_falling, rock_landed, rock_blinking, GameLogicState, World,
  max_pump_length, attack_range_v, attack_range_h, attack_display_time,
}
use soa_fib.Game.Logic.Setup.{logic_player_init}
use soa_fib.Game.Logic.Score.{logic_add_score, alive, logic_enemy_inflate, logic_player_die}
use soa_fib.Game.Logic.Path.{same_position}

abbrev pub rests : RockState → Bool
rests rock_stable = true
rests rock_wobbling = true
rests rock_falling = false
rests rock_landed = false
rests rock_blinking = false

abbrev pub falls : RockState → Bool
falls rock_falling = true
falls rock_stable = false
falls rock_wobbling = false
falls rock_landed = false
falls rock_blinking = false

-- the loop of `has_rock_at` from rock i on
unfoldable pub has_rock_from : ℕ → ℕ → (ℕ → Rock) → Position → Bool
has_rock_from zero i rocks p = false
has_rock_from (suc n) i rocks p =
    let rest = has_rock_from n (i + 1) rocks p in
    let r = rocks i in
    if not (r.base.active == 0) && same_position r.base.pos_of p && rests r.state
    then true
    else rest

unfoldable pub has_rock_at : Position → GameLogicState → Bool
has_rock_at p s = has_rock_from s.rock_count 0 s.rocks p

abbrev pub put_player : Player → World → World
put_player player w = record w { logic = record (w.logic) { player = player } }

abbrev pub place_player : Position → PlayerState → Player → Player
place_player p state player = record player {
  base = record (player.base) { pos_of = p };
  state = state;
}

-- the last part of `logic_player_move`: a gem at the new place is taken
abbrev pub take_gem : Position → Map → Map
take_gem p m = if map_has_gem p.x p.y m then map_remove_gem p.x p.y m else m

unfoldable pub logic_player_move : Direction → World → World
logic_player_move dir w =
    let player = w.logic.player in
    let p = next_position player.base.pos_of dir in
    let faced = record player { facing_dir = dir } in
    if player.base.active == 0
    then w
    else if dir_code dir == 0
    then w
    else if not (map_is_valid_position p.x p.y)
    then put_player faced w
    else if ltb_ℤ p.y (pos row_sky_end)
    then put_player faced w
    else if leb_ℤ (pos row_border) p.y
    then put_player faced w
    else if has_rock_at p w.logic
    then put_player faced w
    else if map_is_diggable p.x p.y w.map
    then record (put_player (place_player p player_digging faced) w) {
      map = take_gem p (map_dig p.x p.y w.map);
    }
    else if map_is_walkable p.x p.y w.map
    then record (put_player (place_player p player_moving faced) w) { map = take_gem p w.map }
    else put_player faced w

-- the cell at distance i
unfoldable pub ahead : Position → Direction → ℕ → Position
ahead p dir_up i = record p { y = p.y -ℤ pos i }
ahead p dir_down i = record p { y = p.y +ℤ pos i }
ahead p dir_left i = record p { x = p.x -ℤ pos i }
ahead p dir_right i = record p { x = p.x +ℤ pos i }
ahead p dir_none i = p

-- the loop of `attack_path_clear` from distance i on
unfoldable pub clear_from : ℕ → ℕ → Position → Direction → Map → ℕ
clear_from zero i p dir m = 0
clear_from (suc n) i p dir m =
    let rest = clear_from n (i + 1) p dir m in
    let q = ahead p dir i in
    if not (map_is_valid_position q.x q.y)
    then 0
    else if map_is_solid q.x q.y m
    then 0
    else rest + 1

unfoldable pub attack_path_clear : Position → Direction → ℕ → Map → ℕ
attack_path_clear p dir range m = if dir_code dir == 0 then 0 else clear_from range 1 p dir m

abbrev pub attack_range : Direction → ℕ
attack_range dir_up = attack_range_v
attack_range dir_down = attack_range_v
attack_range dir_left = attack_range_h
attack_range dir_right = attack_range_h
attack_range dir_none = 0

-- an enemy that the attack reaches at a cell
unfoldable pub paralyze_at : Position → Enemy → Enemy
paralyze_at p e =
    if e.base.active == 0
    then e
    else if enemy_code e.state == enemy_code enemy_paralyzed
    then e
    else if same_position e.base.pos_of p
    then record e { state = enemy_paralyzed; blink_count = pos 10; paralyzed_timer = 5 }
    else e

-- the inner loop of `logic_player_attack` over all enemies, and the outer one from distance i on
unfoldable pub attack_cell : ℕ → Position → (ℕ → Enemy) → ℕ → Enemy
attack_cell count p enemies k = if ltb k count then paralyze_at p (enemies k) else enemies k

unfoldable pub attack_cells : ℕ → ℕ → ℕ → Position → Direction → (ℕ → Enemy) → ℕ → Enemy
attack_cells zero i count p dir enemies = enemies
attack_cells (suc n) i count p dir enemies =
    attack_cells n (i + 1) count p dir (attack_cell count (ahead p dir i) enemies)

unfoldable pub logic_player_attack : World → Bool × World
logic_player_attack w =
    let s = w.logic in
    let player = s.player in
    let dir = player.facing_dir in
    let p = player.base.pos_of in
    let clear = attack_path_clear p dir (attack_range dir) w.map in
    let attacking = record player {
      is_attacking = 1;
      attack_timer = attack_display_time;
      state = player_attacking;
    } in
    if player_code player.state == player_code player_dead
    then (false, w)
    else if dir_code dir == 0
    then (false, w)
    else if clear == 0
    then (false, w)
    else (
      true,
      record w {
        logic = record s {
          player = attacking;
          enemies = attack_cells clear 1 s.enemy_count p dir s.enemies;
        };
      },
    )

-- the first live enemy at a place, from enemy i on
unfoldable pub enemy_at_from : ℕ → ℕ → Position → (ℕ → Enemy) → Option ℕ
enemy_at_from zero i p enemies = none
enemy_at_from (suc n) i p enemies =
    let rest = enemy_at_from n (i + 1) p enemies in
    if alive (enemies i) && same_position (enemies i).base.pos_of p then some i else rest

unfoldable pub logic_check_player_enemy_collision : Player → (ℕ → Enemy) → ℕ → Option ℕ
logic_check_player_enemy_collision player enemies count =
    if player.base.active == 0 then none else enemy_at_from count 0 player.base.pos_of enemies

unfoldable pub rock_at_from : ℕ → ℕ → Position → (ℕ → Rock) → Option ℕ
rock_at_from zero i p rocks = none
rock_at_from (suc n) i p rocks =
    let rest = rock_at_from n (i + 1) p rocks in
    if not ((rocks i).base.active == 0) && same_position p (rocks i).base.pos_of
    then some i
    else rest

unfoldable pub logic_check_player_rock_collision : Player → (ℕ → Rock) → ℕ → Option ℕ
logic_check_player_rock_collision player rocks count =
    if player.base.active == 0 then none else rock_at_from count 0 player.base.pos_of rocks

-- the loop of `logic_check_pump_hit`; the argument n counts the cells of the pump left
unfoldable pub pump_hit_from : ℕ → Position → Direction → (ℕ → Enemy) → ℕ → Map → Option ℕ
pump_hit_from zero p dir enemies count m = none
pump_hit_from (suc n) p dir enemies count m =
    let q = next_position p dir in
    let rest = pump_hit_from n q dir enemies count m in
    elim (enemy_at_from count 0 q enemies) [
      | some j ↦ some j
      | none ↦ if not (map_is_walkable q.x q.y m) then none else rest
    ]

unfoldable pub logic_check_pump_hit : Player → (ℕ → Enemy) → ℕ → Map → Option ℕ
logic_check_pump_hit player enemies count m =
    if player.is_pumping == 0
    then none
    else pump_hit_from player.pump_length player.base.pos_of player.pump_dir enemies count m

abbrev pub inflate_hit : Option ℕ → GameLogicState → GameLogicState
inflate_hit none s = s
inflate_hit (some i) s = logic_enemy_inflate i s

unfoldable pub logic_player_pump : World → World
logic_player_pump w =
    let player = w.logic.player in
    let pumping = record player {
      is_pumping = 1;
      state = player_pumping;
      pump_dir = player.base.dir;
      pump_length =
          if ltb player.pump_length max_pump_length
          then player.pump_length + 1
          else player.pump_length;
    } in
    let s = record (w.logic) { player = pumping } in
    record w { logic = inflate_hit (logic_check_pump_hit pumping s.enemies s.enemy_count w.map) s }

unfoldable pub logic_player_respawn : GameLogicState → GameLogicState
logic_player_respawn s = record s {
  player = record (logic_player_init (pos 40) (pos 2)) { state = player_idle };
}

abbrev pub player_cell : World → Position
player_cell w = w.logic.player.base.pos_of

-- The parts of `logic_update_player`: a bonus at the player's place, the move, the cooldown, the
-- attack's timer, the pump, and the collisions.
unfoldable pub collect_bonus : World → World
collect_bonus w =
    let p = player_cell w in
    if tile_is (map_get_tile p.x p.y w.map) tile_bonus
    then record { map = map_set_tile p.x p.y tile_empty w.map; logic = logic_add_score 100 w.logic }
    else w

abbrev pub on_player : (Player → Player) → World → World
on_player f w = put_player (f w.logic.player) w

abbrev pub set_cooldown : ℕ → Player → Player
set_cooldown n player = record player { base = record (player.base) { speed_counter = n } }

abbrev pub stop_player : Player → Player
stop_player player = record player { base = record (player.base) { dir = dir_none } }

unfoldable pub move_step : World → World
move_step w =
    let base = w.logic.player.base in
    if dir_code base.dir == 0
    then w
    else if base.speed_counter == 0
    then on_player stop_player
        (collect_bonus (on_player (set_cooldown player_speed) (logic_player_move base.dir w)))
    else on_player stop_player w

abbrev pub cool_down : Player → Player
cool_down player = set_cooldown (player.base.speed_counter - 1) player

abbrev pub attack_step : Player → Player
attack_step player =
    if player.is_attacking == 0
    then player
    else if ltb 0 player.attack_timer
    then record player { attack_timer = player.attack_timer - 1 }
    else record player {
      is_attacking = 0;
      state =
          if player_code player.state == player_code player_attacking
          then player_idle
          else player.state;
    }

-- `action` is what `is_pumping` was before the move.
unfoldable pub pump_step : ℕ → World → World
pump_step action w =
    let player = w.logic.player in
    if not (action == 0)
    then logic_player_pump w
    else if not (player.is_pumping == 0)
    then put_player (record player { is_pumping = 0; pump_length = 0; state = player_idle }) w
    else w

unfoldable pub enemy_collision : GameLogicState → GameLogicState
enemy_collision s = elim (logic_check_player_enemy_collision s.player s.enemies s.enemy_count) [
  | none ↦ s
  | some i ↦
      let c = enemy_code (s.enemies i).state in
      if not (c == enemy_code enemy_inflating) && not (c == enemy_code enemy_paralyzed)
      then logic_player_die s
      else s
]

unfoldable pub rock_collision : GameLogicState → GameLogicState
rock_collision s = elim (logic_check_player_rock_collision s.player s.rocks s.rock_count) [
  | none ↦ s
  | some i ↦ if falls (s.rocks i).state then logic_player_die s else s
]

unfoldable pub logic_update_player : World → World
logic_update_player w =
    let action = w.logic.player.is_pumping in
    let w1 = move_step w in
    let w2 = on_player attack_step (on_player cool_down w1) in
    let w3 = pump_step action w2 in
    if player_code w.logic.player.state == player_code player_dead
    then w
    else record w3 { logic = rock_collision (enemy_collision w3.logic) }
