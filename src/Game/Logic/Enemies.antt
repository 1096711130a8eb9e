-- ===== src/Game/Logic/Enemies.antt =====
-- game_logic.c: the enemies' moves, their ghost mode, the fire of a Fygar and the loop over them.
-- An enemy is an element of the state's array: the functions take it with the state that holds it.
use soa_fib.Base.{
  ℕ, zero, suc, ◌+◌, ◌-◌, ◌%◌, Bool, true, false, not, ◌&&◌, ◌==◌, ltb, if◌then◌else◌,
}
use soa_fib.Base.Int.{ℤ, pos, ◌+ℤ◌, ◌-ℤ◌, ◌*ℤ◌, leb_ℤ, ltb_ℤ, eqb_ℤ, pos_part}
use soa_fib.Game.Types.{
  Direction, dir_none, dir_up, dir_down, dir_left, dir_right, dir_code, Position, entity_fygar,
  row_border,
}
use soa_fib.Game.Map.{Map, map_is_valid_position, map_is_walkable}
use soa_fib.Game.Entities.{next_position}
use soa_fib.Game.Logic.State.{
  Player, Enemy, enemy_normal, enemy_ghost, enemy_inflating, enemy_paralyzed, enemy_code, kind_code,
  Rock, GameLogicState, World, ghost_mode_threshold, fygar_fire_range, fygar_fire_cooldown,
  fygar_fire_duration,
}
use soa_fib.Game.Logic.Score.{alive, put_enemy, kill_enemy, logic_player_die}
use soa_fib.Game.Logic.Path.{logic_find_path_bfs, same_position}
use soa_fib.Game.Logic.Player.{has_rock_at}

abbrev pub place_enemy : Position → Direction → Enemy → Enemy
place_enemy p dir e = record e { base = record (e.base) { pos_of = p; dir = dir } }

unfoldable pub logic_try_enemy_move : Enemy → Direction → World → Bool × Enemy
logic_try_enemy_move e dir w =
    let p = next_position e.base.pos_of dir in
    if dir_code dir == 0
    then (false, e)
    else if not (map_is_valid_position p.x p.y)
    then (false, e)
    else if has_rock_at p w.logic
    then (false, e)
    else if leb_ℤ (pos row_border) p.y
    then (false, e)
    else if map_is_walkable p.x p.y w.map
    then (true, place_enemy p dir e)
    else (false, e)

-- `dirs[idx]`
abbrev pub dir_of_index : ℕ → Direction
dir_of_index k =
    if k == 0 then dir_up else if k == 1 then dir_down else if k == 2 then dir_left else dir_right

-- any active rock at a place, from rock i on
unfoldable pub blocked_from : ℕ → ℕ → (ℕ → Rock) → Position → Bool
blocked_from zero i rocks p = false
blocked_from (suc n) i rocks p =
    let rest = blocked_from n (i + 1) rocks p in
    let r = rocks i in
    if not (r.base.active == 0) && same_position r.base.pos_of p then true else rest

unfoldable pub random_from : ℕ → ℕ → Enemy → World → Direction
random_from zero k e w = dir_none
random_from (suc n) k e w =
    let rest = random_from n (k + 1) e w in
    let dir = dir_of_index (k % 4) in
    let p = next_position e.base.pos_of dir in
    if map_is_valid_position p.x p.y && map_is_walkable p.x p.y w.map && ltb_ℤ p.y (pos row_border)
    then (if not (blocked_from w.logic.rock_count 0 w.logic.rocks p) then dir else rest)
    else rest

-- The remainder is that of a number that is not negative: places of the map are not.
unfoldable pub logic_get_random_direction : Enemy → World → Direction
logic_get_random_direction e w =
    let seed = e.base.pos_of.x +ℤ e.base.pos_of.y *ℤ pos 79 +ℤ pos e.ghost_timer in
    random_from 4 (pos_part seed % 4) e w

unfoldable pub logic_enemy_move_towards_player : Enemy → World → Enemy
logic_enemy_move_towards_player e w =
    let best_dir = logic_find_path_bfs e.base.pos_of w.logic.player.base.pos_of false w.map in
    let (moved, e1) = logic_try_enemy_move e best_dir w in
    let random_dir = logic_get_random_direction e w in
    if not (dir_code best_dir == 0) && moved
    then record e1 { ghost_timer = 0 }
    else if not (dir_code random_dir == 0)
    then (logic_try_enemy_move e random_dir w).1
    else e

abbrev pub back_to_normal : Enemy → Enemy
back_to_normal e = record e { state = enemy_normal; ghost_timer = 0; has_left_tunnel = 0 }

unfoldable pub logic_enemy_ghost_mode : Enemy → World → Enemy
logic_enemy_ghost_mode e w =
    let here = e.base.pos_of in
    let on_tunnel = map_is_walkable here.x here.y w.map in
    let left = not (e.has_left_tunnel == 0) in
    let e1 = if not on_tunnel && not left then record e { has_left_tunnel = 1 } else e in
    let best_dir = logic_find_path_bfs here w.logic.player.base.pos_of true w.map in
    let p = next_position here best_dir in
    let e2 = place_enemy p best_dir e1 in
    if on_tunnel && left
    then back_to_normal e
    else if dir_code best_dir == 0
    then e1
    else if map_is_valid_position p.x p.y
    then (if map_is_walkable p.x p.y w.map && not (e1.has_left_tunnel == 0)
        then back_to_normal e2
        else e2)
    else e1

unfoldable pub logic_enemy_ai : Enemy → World → Enemy
logic_enemy_ai e w =
    if enemy_code e.state == enemy_code enemy_ghost
    then logic_enemy_ghost_mode e w
    else logic_enemy_move_towards_player e w

-- n walkable cells of a row from x on, and of a column from y on
unfoldable pub walkable_row : ℕ → ℤ → ℤ → Map → Bool
walkable_row zero x y m = true
walkable_row (suc n) x y m =
    let rest = walkable_row n (x +ℤ pos 1) y m in
    if not (map_is_walkable x y m) then false else rest

unfoldable pub walkable_column : ℕ → ℤ → ℤ → Map → Bool
walkable_column zero x y m = true
walkable_column (suc n) x y m =
    let rest = walkable_column n x (y +ℤ pos 1) m in
    if not (map_is_walkable x y m) then false else rest

unfoldable pub logic_can_see_player : Enemy → World → Bool
logic_can_see_player e w =
    let a = e.base.pos_of in
    let b = w.logic.player.base.pos_of in
    let (left, right) = if ltb_ℤ a.x b.x then (a.x, b.x) else (b.x, a.x) in
    let (top, bottom) = if ltb_ℤ a.y b.y then (a.y, b.y) else (b.y, a.y) in
    if eqb_ℤ a.y b.y
    then walkable_row (pos_part (right -ℤ left +ℤ pos 1)) left a.y w.map
    else if eqb_ℤ a.x b.x
    then walkable_column (pos_part (bottom -ℤ top +ℤ pos 1)) a.x top w.map
    else false

unfoldable pub logic_enemy_deflate : Enemy → Enemy
logic_enemy_deflate e =
    let level = e.inflate_level -ℤ pos 1 in
    if not (enemy_code e.state == enemy_code enemy_inflating)
    then e
    else if leb_ℤ level (pos 0)
    then record e { state = enemy_normal; inflate_level = pos 0 }
    else record e { inflate_level = level }

unfoldable pub logic_check_fire_collision : Enemy → Player → Bool
logic_check_fire_collision f player =
    let fx = f.base.pos_of.x in
    let px = player.base.pos_of.x in
    let c = dir_code f.base.dir in
    if f.fire_active == 0
    then false
    else if not (eqb_ℤ f.base.pos_of.y player.base.pos_of.y)
    then false
    else if c == dir_code dir_right
    then ltb_ℤ fx px && leb_ℤ px (fx +ℤ pos fygar_fire_range)
    else if c == dir_code dir_left
    then ltb_ℤ px fx && leb_ℤ (fx -ℤ pos fygar_fire_range) px
    else false

-- the cells that the loop over `empty_cells` counts, from distance i on
unfoldable pub empty_from : ℕ → ℕ → Position → ℤ → Map → ℕ
empty_from zero i p check_dx m = 0
empty_from (suc n) i p check_dx m =
    let rest = empty_from n (i + 1) p check_dx m in
    let x = p.x +ℤ check_dx *ℤ pos i in
    if map_is_valid_position x p.y && map_is_walkable x p.y m then rest + 1 else 0

abbrev pub fire_dx : Direction → ℤ
fire_dx dir = if dir_code dir == dir_code dir_right then pos 1 else pos 0 -ℤ pos 1

abbrev pub other_side : Direction → Direction
other_side dir = if dir_code dir == dir_code dir_right then dir_left else dir_right

unfoldable pub has_room : Enemy → Direction → Map → Bool
has_room f dir m = empty_from fygar_fire_range 1 f.base.pos_of (fire_dx dir) m == fygar_fire_range

abbrev pub light_fire : ℕ → Direction → Enemy → Enemy
light_fire time dir f = record f {
  fire_active = 1;
  fire_start_time = time;
  base = record (f.base) { dir = dir };
}

-- the part of `logic_fygar_fire` behind the cooldown
unfoldable pub start_fire : ℕ → Enemy → World → Enemy
start_fire time f w =
    let fire_dir =
      if leb_ℤ (pos 0) (w.logic.player.base.pos_of.x -ℤ f.base.pos_of.x)
      then dir_right
      else dir_left in
    if has_room f fire_dir w.map
    then light_fire time fire_dir f
    else if has_room f (other_side fire_dir) w.map
    then light_fire time (other_side fire_dir) f
    else f

-- `time` is what gettime returns.
unfoldable pub logic_fygar_fire : ℕ → Enemy → World → Enemy × GameLogicState
logic_fygar_fire time f w =
    let s = w.logic in
    if not (kind_code f.base.kind == kind_code entity_fygar)
    then (f, s)
    else if not (f.fire_active == 0)
    then (if leb_ℤ (pos fygar_fire_duration) (pos time -ℤ pos f.fire_start_time)
        then (record f { fire_active = 0; fire_end_time = time }, s)
        else (f, if logic_check_fire_collision f s.player then logic_player_die s else s))
    else if ltb 0 f.fire_end_time
        && ltb_ℤ (pos time -ℤ pos f.fire_end_time) (pos fygar_fire_cooldown)
    then (f, s)
    else (start_fire time f w, s)

-- the parts of the body of `logic_update_enemies`: an enemy that blinks,
unfoldable pub blink_enemy : ℕ → GameLogicState → GameLogicState
blink_enemy i s =
    let e = s.enemies i in
    let count = e.blink_count -ℤ pos 1 in
    let blinked = record e { blink_count = count } in
    if ltb 0 e.paralyzed_timer
    then put_enemy i (record e { paralyzed_timer = e.paralyzed_timer - 1 }) s
    else if leb_ℤ count (pos 0)
    then kill_enemy i 1 (put_enemy i blinked s)
    else put_enemy i (record blinked { paralyzed_timer = 5 }) s

-- and one that moves
unfoldable pub walk_enemy : Enemy → World → Enemy
walk_enemy e w =
    let e1 = logic_enemy_ai e w in
    let e2 = record e1 {
      base = record (e1.base) { speed_counter = pos_part e1.base.speed_limit };
      ghost_timer = e1.ghost_timer + 1;
    } in
    if ltb ghost_mode_threshold e2.ghost_timer
      && (enemy_code e2.state == enemy_code enemy_normal)
      && not (logic_can_see_player e2 w)
    then record e2 { state = enemy_ghost; has_left_tunnel = 0 }
    else e2

-- an enemy that neither blinks nor is inflated
unfoldable pub drive_enemy : ℕ → ℕ → World → GameLogicState
drive_enemy time i w =
    let s = w.logic in
    let e = s.enemies i in
    let (f, s1) = logic_fygar_fire time e w in
    if ltb 0 e.base.speed_counter
    then put_enemy i
        (record e { base = record (e.base) { speed_counter = e.base.speed_counter - 1 } }) s
    else if kind_code e.base.kind == kind_code entity_fygar
    then (if not (e.fire_active == 0)
        then put_enemy i f s1
        else if not (f.fire_active == 0)
        then put_enemy i f s1
        else put_enemy i (walk_enemy f (record w { logic = s1 })) s1)
    else put_enemy i (walk_enemy e w) s

unfoldable pub update_enemy : ℕ → ℕ → World → GameLogicState
update_enemy time i w =
    let s = w.logic in
    let e = s.enemies i in
    let c = enemy_code e.state in
    if not (alive e)
    then s
    else if c == enemy_code enemy_paralyzed
    then blink_enemy i s
    else if c == enemy_code enemy_inflating
    then (if s.player.is_pumping == 0 then put_enemy i (logic_enemy_deflate e) s else s)
    else drive_enemy time i w

-- The loop of `logic_update_enemies` from enemy i on; `clock i` is what gettime returns then.
unfoldable pub update_enemies_from : ℕ → ℕ → (ℕ → ℕ) → World → World
update_enemies_from zero i clock w = w
update_enemies_from (suc n) i clock w =
    update_enemies_from n (i + 1) clock (record w { logic = update_enemy (clock i) i w })

unfoldable pub logic_update_enemies : (ℕ → ℕ) → World → World
logic_update_enemies clock w = update_enemies_from w.logic.enemy_count 0 clock w
