-- ===== src/Game/Data.antt =====
-- game_data.c: the five levels, and how a level's tunnels and bonuses are put on the map.
-- Load is what a level does to the state of game_logic.c.
pub mod Tunnel
pub mod Load
use soa_fib.Base.{
  ℕ, zero, suc, ◌+◌, ◌-◌, Bool, true, false, not, ◌&&◌, ◌==◌, ltb, leb, if◌then◌else◌, List, [],
  ◌∷◌, Option, none, some, ◌>>=◌,
}
use soa_fib.Base.Int.{ℤ, pos, negsuc, ◌+ℤ◌, ◌-ℤ◌, ltb_ℤ, leb_ℤ, eqb_ℤ, pos_part, neg_part}
use soa_fib.Game.Types.{EntityType, entity_pooka, entity_fygar, entity_rock, tile_bonus}
use soa_fib.Game.Map.{Map, map_is_valid_position, map_dig, map_set_tile}

pub record EntitySpawn : Type 0 where
  pub x : ℕ
  pub y : ℕ
  pub kind : EntityType

pub record TunnelDef : Type 0 where
  pub x1 : ℕ
  pub y1 : ℕ
  pub x2 : ℕ
  pub y2 : ℕ

-- The counts of the source are the lengths of the lists.
pub record LevelData : Type 0 where
  pub round_number : ℕ
  pub player_start_x : ℕ
  pub player_start_y : ℕ
  pub enemies : List EntitySpawn
  pub rocks : List EntitySpawn
  pub tunnels : List TunnelDef
  pub ghost_threshold : ℕ

abbrev spawn : ℕ → ℕ → EntityType → EntitySpawn
spawn x y kind = record { x = x; y = y; kind = kind }

abbrev tunnel : ℕ → ℕ → ℕ → ℕ → TunnelDef
tunnel x1 y1 x2 y2 = record { x1 = x1; y1 = y1; x2 = x2; y2 = y2 }

abbrev pub level_1 : LevelData
level_1 = record {
  round_number = 1;
  player_start_x = 10;
  player_start_y = 2;
  enemies = spawn 60 8 entity_pooka ∷ [];
  rocks =
      spawn 30 10 entity_rock
      ∷ spawn 50 8 entity_rock
      ∷ spawn 20 15 entity_rock
      ∷ spawn 65 12 entity_rock
      ∷ [];
  tunnels = tunnel 5 2 15 2 ∷ tunnel 58 7 62 7 ∷ tunnel 60 7 60 9 ∷ [];
  ghost_threshold = 400;
}

abbrev pub level_2 : LevelData
level_2 = record {
  round_number = 2;
  player_start_x = 10;
  player_start_y = 2;
  enemies = spawn 60 6 entity_pooka ∷ spawn 30 14 entity_fygar ∷ [];
  rocks =
      spawn 25 7 entity_rock
      ∷ spawn 45 13 entity_rock
      ∷ spawn 15 18 entity_rock
      ∷ spawn 70 10 entity_rock
      ∷ [];
  tunnels =
      tunnel 5 2 15 2
      ∷ tunnel 58 5 62 5
      ∷ tunnel 60 5 60 7
      ∷ tunnel 28 13 32 13
      ∷ tunnel 30 13 30 15
      ∷ [];
  ghost_threshold = 300;
}

abbrev pub level_3 : LevelData
level_3 = record {
  round_number = 3;
  player_start_x = 10;
  player_start_y = 2;
  enemies = spawn 50 6 entity_pooka ∷ spawn 70 12 entity_pooka ∷ spawn 35 18 entity_fygar ∷ [];
  rocks =
      spawn 20 8 entity_rock
      ∷ spawn 55 15 entity_rock
      ∷ spawn 40 10 entity_rock
      ∷ spawn 65 20 entity_rock
      ∷ [];
  tunnels =
      tunnel 5 2 20 2
      ∷ tunnel 48 5 52 5
      ∷ tunnel 50 5 50 7
      ∷ tunnel 68 11 72 11
      ∷ tunnel 70 11 70 13
      ∷ tunnel 33 17 37 17
      ∷ tunnel 35 17 35 19
      ∷ [];
  ghost_threshold = 250;
}

abbrev pub level_4 : LevelData
level_4 = record {
  round_number = 4;
  player_start_x = 40;
  player_start_y = 2;
  enemies =
      spawn 15 8 entity_pooka
      ∷ spawn 65 8 entity_pooka
      ∷ spawn 25 16 entity_fygar
      ∷ spawn 55 16 entity_fygar
      ∷ [];
  rocks =
      spawn 20 10 entity_rock
      ∷ spawn 60 10 entity_rock
      ∷ spawn 40 18 entity_rock
      ∷ spawn 30 14 entity_rock
      ∷ [];
  tunnels =
      tunnel 35 2 45 2
      ∷ tunnel 13 7 17 7
      ∷ tunnel 15 7 15 9
      ∷ tunnel 63 7 67 7
      ∷ tunnel 65 7 65 9
      ∷ tunnel 23 15 27 15
      ∷ tunnel 25 15 25 17
      ∷ tunnel 53 15 57 15
      ∷ tunnel 55 15 55 17
      ∷ [];
  ghost_threshold = 200;
}

abbrev pub level_5 : LevelData
level_5 = record {
  round_number = 5;
  player_start_x = 40;
  player_start_y = 2;
  enemies =
      spawn 10 8 entity_pooka
      ∷ spawn 70 8 entity_pooka
      ∷ spawn 40 14 entity_pooka
      ∷ spawn 20 20 entity_fygar
      ∷ spawn 60 20 entity_fygar
      ∷ [];
  rocks =
      spawn 25 10 entity_rock
      ∷ spawn 55 10 entity_rock
      ∷ spawn 35 17 entity_rock
      ∷ spawn 45 17 entity_rock
      ∷ [];
  tunnels =
      tunnel 35 2 45 2
      ∷ tunnel 8 7 12 7
      ∷ tunnel 10 7 10 9
      ∷ tunnel 68 7 72 7
      ∷ tunnel 70 7 70 9
      ∷ tunnel 38 13 42 13
      ∷ tunnel 40 13 40 15
      ∷ tunnel 18 19 22 19
      ∷ tunnel 20 19 20 21
      ∷ tunnel 58 19 62 19
      ∷ tunnel 60 19 60 21
      ∷ [];
  ghost_threshold = 150;
}

abbrev pub num_levels_defined : ℕ
num_levels_defined = 5

-- `g_levels`
abbrev pub levels : ℕ → LevelData
levels i =
    if i == 0
    then level_1
    else if i == 1
    then level_2
    else if i == 2
    then level_3
    else if i == 3
    then level_4
    else level_5

unfoldable pub data_get_level : ℤ → LevelData
data_get_level round =
    let index = round -ℤ pos 1 in
    if ltb_ℤ round (pos 1)
    then levels 0
    else levels
        (if leb_ℤ (pos num_levels_defined) index then num_levels_defined - 1 else pos_part index)

-- the direction of a coordinate
abbrev pub step_to : ℤ → ℤ → ℤ
step_to a b = if ltb_ℤ a b then pos 1 else if ltb_ℤ b a then negsuc 0 else pos 0

-- `while (1)` of `data_dig_tunnel`, with fuel
unfoldable pub dig_from : ℕ → ℤ → ℤ → ℤ → ℤ → ℤ → ℤ → Map → Option Map
dig_from zero x y x2 y2 dx dy m = none
dig_from (suc fuel) x y x2 y2 dx dy m =
    let m1 = if map_is_valid_position x y then map_dig x y m else m in
    let x' = if not (eqb_ℤ x x2) then x +ℤ dx else x in
    let y' = if not (eqb_ℤ x x2) then y else if not (eqb_ℤ y y2) then y +ℤ dy else y in
    let rest = dig_from fuel x' y' x2 y2 dx dy m1 in
    if eqb_ℤ x x2 && eqb_ℤ y y2 then some m1 else rest

-- the length of a way along one coordinate
abbrev pub way : ℤ → ℤ → ℕ
way a b = pos_part (a -ℤ b) + pos_part (b -ℤ a)

-- One round for each cell.
unfoldable pub data_dig_tunnel : ℤ → ℤ → ℤ → ℤ → Map → Option Map
data_dig_tunnel x1 y1 x2 y2 m =
    dig_from (way x1 x2 + way y1 y2 + 1) x1 y1 x2 y2 (step_to x1 x2) (step_to y1 y2) m

unfoldable pub dig_tunnels : List TunnelDef → Map → Option Map
dig_tunnels [] m = some m
dig_tunnels (t ∷ ts) m =
    data_dig_tunnel (pos t.x1) (pos t.y1) (pos t.x2) (pos t.y2) m >>= λ m1. dig_tunnels ts m1

-- No level has more than MAX_TUNNELS tunnels.
unfoldable pub data_create_tunnels : LevelData → Map → Option Map
data_create_tunnels level m = dig_tunnels level.tunnels m

abbrev place_three : ℕ → ℕ → ℕ → ℕ → ℕ → ℕ → Map → Map
place_three a b c d e f m =
    map_set_tile (pos e) (pos f) tile_bonus
      (map_set_tile (pos c) (pos d) tile_bonus (map_set_tile (pos a) (pos b) tile_bonus m))

unfoldable pub data_place_bonuses : ℤ → Map → Map
data_place_bonuses round m =
    if eqb_ℤ round (pos 1)
    then place_three 20 10 40 15 65 12 m
    else if eqb_ℤ round (pos 2)
    then place_three 15 8 45 11 70 16 m
    else if eqb_ℤ round (pos 3)
    then place_three 25 9 40 14 60 19 m
    else if eqb_ℤ round (pos 4)
    then place_three 20 11 45 13 55 18 m
    else place_three 25 10 50 16 65 18 m
