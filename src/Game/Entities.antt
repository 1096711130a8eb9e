-- ===== src/Game/Entities.antt =====
-- game_entities.c: entities on the map. A null entity, which the source checks for, has no
-- counterpart: the functions take the entity itself.
pub mod Moves
pub mod Chase
pub mod Reset
use soa_fib.Base.{
  ℕ, zero, suc, ◌+◌, ◌-◌, Bool, true, false, not, ◌&&◌, ◌||◌, ◌==◌, ltb, if◌then◌else◌, List, [],
  ◌∷◌,
}
use soa_fib.Base.Int.{ℤ, pos, negsuc, ◌+ℤ◌, ◌-ℤ◌, ◌*ℤ◌, leb_ℤ, ltb_ℤ, eqb_ℤ, pos_part, neg_part}
use soa_fib.Game.Types.{
  Direction, dir_none, dir_up, dir_down, dir_left, dir_right, dir_code, EntityType, entity_none,
  entity_player, entity_pooka, entity_fygar, entity_rock, entity_enemy, Position, Entity, map_width,
  map_height, player_speed, pooka_base_speed, fygar_base_speed,
}
use soa_fib.Game.Map.{
  Map, map_is_valid_position, map_is_walkable, map_is_diggable, map_dig, map_has_gem,
  map_remove_gem, map_get_safe_spawn_position,
}

abbrev pub default_speed : EntityType → ℤ
default_speed entity_player = pos player_speed
default_speed entity_enemy = pos pooka_base_speed
default_speed entity_pooka = pos pooka_base_speed
default_speed entity_fygar = pos fygar_base_speed
default_speed entity_none = pos 1
default_speed entity_rock = pos 1

unfoldable pub entity_init : ℤ → ℤ → EntityType → Entity
entity_init x y kind = record {
  pos_of = record { x = x; y = y };
  dir = dir_none;
  kind = kind;
  active = 1;
  speed_counter = 0;
  speed_limit = default_speed kind;
}

-- one step from a position
unfoldable pub next_position : Position → Direction → Position
next_position p dir_up = record p { y = p.y -ℤ pos 1 }
next_position p dir_down = record p { y = p.y +ℤ pos 1 }
next_position p dir_left = record p { x = p.x -ℤ pos 1 }
next_position p dir_right = record p { x = p.x +ℤ pos 1 }
next_position p dir_none = p

unfoldable pub entity_next_pos : Entity → Direction → Position
entity_next_pos e dir = next_position e.pos_of dir

abbrev pub is_player : EntityType → Bool
is_player entity_player = true
is_player entity_none = false
is_player entity_pooka = false
is_player entity_fygar = false
is_player entity_rock = false
is_player entity_enemy = false

unfoldable pub entity_can_move : Entity → Direction → Map → Bool
entity_can_move e dir m =
    let p = entity_next_pos e dir in
    if e.active == 0
    then false
    else if not (map_is_valid_position p.x p.y)
    then false
    else if is_player e.kind
    then map_is_walkable p.x p.y m || map_is_diggable p.x p.y m
    else map_is_walkable p.x p.y m

unfoldable pub entity_move : Entity → Direction → Map → Entity
entity_move e dir m =
    if e.active == 0
    then e
    else if entity_can_move e dir m
    then record e { pos_of = entity_next_pos e dir; dir = dir }
    else e

unfoldable pub player_init : ℤ → ℤ → Entity
player_init x y = record (entity_init x y entity_player) { speed_limit = pos player_speed }

unfoldable pub player_can_dig : Entity → Direction → Map → Bool
player_can_dig e dir m =
    let p = entity_next_pos e dir in if e.active == 0 then false else map_is_diggable p.x p.y m

unfoldable pub player_dig : Entity → Direction → Map → Map
player_dig e dir m =
    let p = entity_next_pos e dir in
    if e.active == 0 then m else if map_is_diggable p.x p.y m then map_dig p.x p.y m else m

unfoldable pub player_collect_gem : Entity → ℤ → ℤ → Map → Map
player_collect_gem e x y m =
    if e.active == 0 then m else if map_has_gem x y m then map_remove_gem x y m else m

unfoldable pub player_update : Direction → Entity × Map → Entity × Map
player_update input (e, m) =
    let m1 = if player_can_dig e input m then player_dig e input m else m in
    let e1 = entity_move e input m1 in
    if e.active == 0 then (e, m) else if dir_code input == 0 then (e, m) else (
      e1,
      if map_has_gem e1.pos_of.x e1.pos_of.y m1
          then player_collect_gem e1 e1.pos_of.x e1.pos_of.y m1
          else m1,
    )

unfoldable pub player_reset_position : Entity → Entity
player_reset_position e = record e {
  pos_of = record { x = pos 1; y = pos 1 };
  dir = dir_none;
  active = 1;
}

unfoldable pub enemy_init : ℤ → ℤ → Entity
enemy_init x y = record (entity_init x y entity_enemy) { speed_limit = pos pooka_base_speed }

-- `abs`
abbrev pub abs : ℤ → ℤ
abs (pos n) = pos n
abs (negsuc n) = pos (n + 1)

-- the choice that `enemy_ai_direction` and `get_best_direction_to_target` both make
unfoldable pub direction_to : Position → Position → Direction
direction_to from to =
    let dx = to.x -ℤ from.x in
    let dy = to.y -ℤ from.y in
    if eqb_ℤ dx (pos 0) && eqb_ℤ dy (pos 0)
    then dir_none
    else if ltb_ℤ (abs dy) (abs dx)
    then (if ltb_ℤ (pos 0) dx then dir_right else dir_left)
    else if ltb_ℤ (pos 0) dy
    then dir_down
    else dir_up

unfoldable pub enemy_ai_direction : Entity → Position → Direction
enemy_ai_direction e target = if e.active == 0 then dir_none else direction_to e.pos_of target

-- the loop over the alternatives
unfoldable pub try_directions : List Direction → Direction → Entity → Map → Entity
try_directions [] target_dir e m = e
try_directions (d ∷ ds) target_dir e m =
    if not (dir_code d == dir_code target_dir) && entity_can_move e d m
    then entity_move e d m
    else try_directions ds target_dir e m

unfoldable pub enemy_update : Entity → Position → Map → Entity
enemy_update e player_pos m =
    let e1 = record e { speed_counter = e.speed_counter + 1 } in
    let e2 = record e1 { speed_counter = 0 } in
    let target_dir = enemy_ai_direction e2 player_pos in
    if e.active == 0
    then e
    else if ltb_ℤ (pos e1.speed_counter) e.speed_limit
    then e1
    else if not (dir_code target_dir == 0) && entity_can_move e2 target_dir m
    then entity_move e2 target_dir m
    else try_directions (dir_up ∷ dir_down ∷ dir_left ∷ dir_right ∷ []) target_dir e2 m

unfoldable pub enemies_update_all : List Entity → Position → Map → List Entity
enemies_update_all [] player_pos m = []
enemies_update_all (e ∷ es) player_pos m =
    (if not (e.active == 0) then enemy_update e player_pos m else e)
    ∷ enemies_update_all es player_pos m

unfoldable pub check_collision : Entity → Entity → Bool
check_collision a b =
    if a.active == 0 || (b.active == 0)
    then false
    else eqb_ℤ a.pos_of.x b.pos_of.x && eqb_ℤ a.pos_of.y b.pos_of.y

unfoldable pub check_player_enemy_collision : Entity → List Entity → Bool
check_player_enemy_collision player [] = false
check_player_enemy_collision player (e ∷ es) =
    if player.active == 0
    then false
    else if not (e.active == 0) && check_collision player e
    then true
    else check_player_enemy_collision player es

unfoldable pub calculate_distance_squared : Position → Position → ℤ
calculate_distance_squared a b = (a.x -ℤ b.x) *ℤ (a.x -ℤ b.x) +ℤ (a.y -ℤ b.y) *ℤ (a.y -ℤ b.y)

unfoldable pub is_direction_blocked : Position → Direction → Map → Bool
is_direction_blocked p dir_none m = true
is_direction_blocked p dir_up m =
    not (map_is_walkable (next_position p dir_up).x (next_position p dir_up).y m)
is_direction_blocked p dir_down m =
    not (map_is_walkable (next_position p dir_down).x (next_position p dir_down).y m)
is_direction_blocked p dir_left m =
    not (map_is_walkable (next_position p dir_left).x (next_position p dir_left).y m)
is_direction_blocked p dir_right m =
    not (map_is_walkable (next_position p dir_right).x (next_position p dir_right).y m)
