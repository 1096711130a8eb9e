-- ===== src/Game/Types.antt =====
-- game_types.h and game_config.h: directions, tiles, entities and the constants of the map.
use soa_fib.Base.{ℕ}
use soa_fib.Base.Int.{ℤ}

pub data Direction : Type 0 where
  dir_none dir_up dir_down dir_left dir_right : Direction

pub data TileType : Type 0 where
  tile_empty tile_dirt tile_sky tile_wall tile_gem tile_bonus tile_border : TileType

pub data EntityType : Type 0 where
  entity_none entity_player entity_pooka entity_fygar entity_rock entity_enemy : EntityType

-- enum values, for their comparisons
abbrev pub dir_code : Direction → ℕ
dir_code dir_none = 0
dir_code dir_up = 1
dir_code dir_down = 2
dir_code dir_left = 3
dir_code dir_right = 4

abbrev pub tile_code : TileType → ℕ
tile_code tile_empty = 0
tile_code tile_dirt = 1
tile_code tile_sky = 2
tile_code tile_wall = 3
tile_code tile_gem = 4
tile_code tile_bonus = 5
tile_code tile_border = 6

pub record Position : Type 0 where
  pub x : ℤ
  pub y : ℤ

pub record Entity : Type 0 where
  pub pos_of : Position
  pub dir : Direction
  pub kind : EntityType
  pub active : ℕ
  pub speed_counter : ℕ
  pub speed_limit : ℤ

abbrev pub map_width : ℕ
map_width = 80

abbrev pub map_height : ℕ
map_height = 24

abbrev pub row_sky_start : ℕ
row_sky_start = 1

abbrev pub row_sky_end : ℕ
row_sky_end = 2

abbrev pub row_ground_start : ℕ
row_ground_start = 3

abbrev pub row_border : ℕ
row_border = 23

abbrev pub max_gems : ℕ
max_gems = 20

abbrev pub player_speed : ℕ
player_speed = 6

abbrev pub pooka_base_speed : ℕ
pooka_base_speed = 16

abbrev pub fygar_base_speed : ℕ
fygar_base_speed = 12
