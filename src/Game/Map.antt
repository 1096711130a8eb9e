-- ===== src/Game/Map.antt =====
-- game_map.c: the tiles, the gems and the generation of a level. Coordinates are `int`s; the
-- random numbers are the source's generator, its seed in the state.
-- Not modelled: `map_draw_line`, which steps in floating point, and what calls it.
pub mod Layout
pub mod Gems
pub mod Spawn
pub mod Choice
use soa_fib.Base.{
  ℕ, zero, suc, ◌+◌, ◌-◌, ◌*◌, ◌%◌, ◌^◌, Bool, true, false, not, ◌&&◌, ◌||◌, ◌==◌, ltb, leb,
  if◌then◌else◌, update,
}
use soa_fib.Base.Int.{ℤ, pos, negsuc, ◌+ℤ◌, ◌-ℤ◌, ◌*ℤ◌, leb_ℤ, ltb_ℤ, eqb_ℤ, pos_part, neg_part}
use soa_fib.Game.Types.{
  TileType, tile_empty, tile_dirt, tile_sky, tile_wall, tile_gem, tile_bonus, tile_border,
  tile_code, Position, map_width, map_height, row_sky_start, row_sky_end, row_border, max_gems,
}

-- `g_map[y][x]`, the gem positions, their count, and the seed of `random_int`
pub record Map : Type 0 where
  pub tiles : ℕ → ℕ → TileType
  pub gem_positions : ℕ → Position
  pub gem_count : ℕ
  pub seed : ℕ

abbrev pub tile_is : TileType → TileType → Bool
tile_is a b = tile_code a == tile_code b

unfoldable pub map_clear : Map → Map
map_clear m = record m {
  tiles = λ y x. if ltb y map_height && ltb x map_width then tile_empty else m.tiles y x;
  gem_count = 0;
}

unfoldable pub map_is_valid_position : ℤ → ℤ → Bool
map_is_valid_position x y =
    leb_ℤ (pos 0) x && ltb_ℤ x (pos map_width) && leb_ℤ (pos 0) y && ltb_ℤ y (pos map_height)

unfoldable pub map_get_tile : ℤ → ℤ → Map → TileType
map_get_tile x y m =
    if not (map_is_valid_position x y) then tile_wall else m.tiles (pos_part y) (pos_part x)

-- one cell of the array written
abbrev pub write_tile : ℕ → ℕ → TileType → (ℕ → ℕ → TileType) → ℕ → ℕ → TileType
write_tile x y t tiles r c = if y == r && (x == c) then t else tiles r c

unfoldable pub map_set_tile : ℤ → ℤ → TileType → Map → Map
map_set_tile x y t m =
    if not (map_is_valid_position x y)
    then m
    else record m { tiles = write_tile (pos_part x) (pos_part y) t m.tiles }

unfoldable pub map_is_walkable : ℤ → ℤ → Map → Bool
map_is_walkable x y m =
    let t = map_get_tile x y m in
    tile_is t tile_empty
    || tile_is t tile_gem
    || tile_is t tile_bonus
    || tile_is t tile_sky
    || tile_is t tile_border

unfoldable pub map_is_solid : ℤ → ℤ → Map → Bool
map_is_solid x y m = let t = map_get_tile x y m in tile_is t tile_dirt || tile_is t tile_wall

unfoldable pub map_is_diggable : ℤ → ℤ → Map → Bool
map_is_diggable x y m = tile_is (map_get_tile x y m) tile_dirt

unfoldable pub map_dig : ℤ → ℤ → Map → Map
map_dig x y m = if map_is_diggable x y m then map_set_tile x y tile_empty m else m

unfoldable pub map_has_gem : ℤ → ℤ → Map → Bool
map_has_gem x y m = tile_is (map_get_tile x y m) tile_gem

-- the shift behind a removed gem, from position j to count - 1
abbrev pub shift_gems : ℕ → ℕ → (ℕ → Position) → ℕ → Position
shift_gems j count gems i = if leb j i && ltb i (count - 1) then gems (i + 1) else gems i

-- the search of `map_remove_gem` from position i on; fuel counts the positions left
unfoldable pub drop_gem : ℕ → ℕ → ℤ → ℤ → Map → Map
drop_gem zero i x y m = m
drop_gem (suc fuel) i x y m =
    let rest = drop_gem fuel (i + 1) x y m in
    let gem = m.gem_positions i in
    if eqb_ℤ gem.x x && eqb_ℤ gem.y y
    then record m {
      gem_positions = shift_gems i m.gem_count m.gem_positions;
      gem_count = m.gem_count - 1;
    }
    else rest

unfoldable pub map_remove_gem : ℤ → ℤ → Map → Map
unfolding drop_gem
map_remove_gem x y m =
    if tile_is (map_get_tile x y m) tile_gem
    then (let m1 = map_set_tile x y tile_empty m in drop_gem m1.gem_count 0 x y m1)
    else m

-- `random_int`: the quotient by an `int` that is positive
unfoldable pub random_int : ℕ → Map → ℕ × Map
random_int max m =
    let seed = (m.seed * 1103515245 + 12345) % 2 ^ 32 in (seed % max, record m { seed = seed })

-- the loop of `map_place_gems`; fuel counts the attempts left
unfoldable pub place_gems_from : ℕ → ℕ → ℕ → Map → Map
place_gems_from zero placed count m = m
place_gems_from (suc fuel) placed count m =
    let (x, m1) = random_int map_width m in
    let (y, m2) = random_int map_height m1 in
    let m3 = map_set_tile (pos x) (pos y) tile_gem m2 in
    let m4 =
      if ltb m3.gem_count max_gems
      then record m3 {
        gem_positions = update m3.gem_positions m3.gem_count (record { x = pos x; y = pos y });
        gem_count = m3.gem_count + 1;
      }
      else m3 in
    if not (ltb placed count)
    then m
    else elim (tile_is (map_get_tile (pos x) (pos y) m2) tile_empty) [
      | true ↦ place_gems_from fuel (placed + 1) count m4
      | false ↦ place_gems_from fuel placed count m2
    ]

unfoldable pub map_place_gems : ℕ → Map → Map
unfolding place_gems_from
map_place_gems count m = place_gems_from (count * 10) 0 count (record m { gem_count = 0 })

-- the loops of `map_create_borders`: two cells of column x, two cells of row y, the bottom row
unfoldable pub wall_rows : ℕ → ℕ → Map → Map
wall_rows zero x m = m
wall_rows (suc n) x m = wall_rows n (x + 1) (
    map_set_tile (pos x) (pos (map_height - 1)) tile_wall
      (map_set_tile (pos x) (pos 0) tile_wall m))

unfoldable pub wall_columns : ℕ → ℕ → Map → Map
wall_columns zero y m = m
wall_columns (suc n) y m = wall_columns n (y + 1) (
    map_set_tile (pos (map_width - 1)) (pos y) tile_wall (map_set_tile (pos 0) (pos y) tile_wall m))

unfoldable pub border_row : ℕ → ℕ → Map → Map
border_row zero x m = m
border_row (suc n) x m = border_row n (x + 1) (map_set_tile (pos x) (pos row_border) tile_border m)

unfoldable pub map_create_borders : Map → Map
map_create_borders m = border_row map_width 0 (wall_columns map_height 0 (wall_rows map_width 0 m))

-- one cell of `place_random_dirt`
unfoldable pub place_dirt_at : ℕ → ℕ → ℕ → Map → Map
place_dirt_at density x y m =
    let (r, m1) = random_int 100 m in
    if tile_is (map_get_tile (pos x) (pos y) m) tile_wall
    then m
    else if leb y row_sky_end
    then map_set_tile (pos x) (pos y) tile_sky m
    else if leb 100 density
    then map_set_tile (pos x) (pos y) tile_dirt m
    else if ltb r density
    then map_set_tile (pos x) (pos y) tile_dirt m1
    else map_set_tile (pos x) (pos y) tile_empty m1

unfoldable pub dirt_row : ℕ → ℕ → ℕ → ℕ → Map → Map
dirt_row zero density x y m = m
dirt_row (suc n) density x y m = dirt_row n density (x + 1) y (place_dirt_at density x y m)

unfoldable pub dirt_rows : ℕ → ℕ → ℕ → Map → Map
dirt_rows zero density y m = m
dirt_rows (suc n) density y m = dirt_rows n density (y + 1) (dirt_row (map_width - 2) density 1 y m)

unfoldable pub place_random_dirt : ℕ → Map → Map
place_random_dirt density m = dirt_rows (map_height - 2) density 1 m

-- the loops of `map_fill_area`
unfoldable pub fill_row : ℕ → ℤ → ℤ → TileType → Map → Map
fill_row zero x y t m = m
fill_row (suc n) x y t m =
    fill_row n (x +ℤ pos 1) y t (if map_is_valid_position x y then map_set_tile x y t m else m)

unfoldable pub fill_rows : ℕ → ℕ → ℤ → ℤ → TileType → Map → Map
fill_rows zero width x y t m = m
fill_rows (suc n) width x y t m = fill_rows n width x (y +ℤ pos 1) t (fill_row width x y t m)

unfoldable pub map_fill_area : ℤ → ℤ → ℤ → ℤ → TileType → Map → Map
map_fill_area x1 y1 x2 y2 t m =
    let (left, right) = if ltb_ℤ x2 x1 then (x2, x1) else (x1, x2) in
    let (top, bottom) = if ltb_ℤ y2 y1 then (y2, y1) else (y1, y2) in
    fill_rows (pos_part (bottom -ℤ top +ℤ pos 1)) (pos_part (right -ℤ left +ℤ pos 1)) left top t m

-- The gem count that the source computes here is not used, and nor is the level.
unfoldable pub map_generate_level : Map → Map
map_generate_level m =
    map_fill_area (pos 1) (pos row_sky_start) (pos 5) (pos row_sky_end) tile_sky
      (place_random_dirt 100 (map_create_borders m))

unfoldable pub map_init : Map → Map
map_init m = map_generate_level (map_clear m)

-- the loop of `map_get_random_empty_position`; fuel counts the attempts left
unfoldable pub random_empty_from : ℕ → Map → Bool × (Position × Map)
random_empty_from zero m = (false, (record { x = pos 1; y = pos 1 }, m))
random_empty_from (suc fuel) m =
    let (a, m1) = random_int (map_width - 2) m in
    let (b, m2) = random_int (map_height - 2) m1 in
    let x = pos (1 + a) in
    let y = pos (1 + b) in
    let rest = random_empty_from fuel m2 in
    if map_is_walkable x y m2 then (true, (record { x = x; y = y }, m2)) else rest

unfoldable pub map_get_random_empty_position : Map → Bool × (Position × Map)
map_get_random_empty_position m = random_empty_from 100 m

-- the squared distance from (1, 1)
abbrev pub spawn_distance : Position → ℤ
spawn_distance p = (p.x -ℤ pos 1) *ℤ (p.x -ℤ pos 1) +ℤ (p.y -ℤ pos 1) *ℤ (p.y -ℤ pos 1)

-- the loop of `map_get_safe_spawn_position`; fuel counts the attempts left
unfoldable pub safe_spawn_from : ℕ → ℤ → Map → Bool × (Position × Map)
safe_spawn_from zero d m = map_get_random_empty_position m
safe_spawn_from (suc fuel) d m =
    let (found, (candidate, m1)) = map_get_random_empty_position m in
    let rest = safe_spawn_from fuel d m1 in
    if found && leb_ℤ (d *ℤ d) (spawn_distance candidate) then (true, (candidate, m1)) else rest

unfoldable pub map_get_safe_spawn_position : ℤ → Map → Bool × (Position × Map)
map_get_safe_spawn_position d m = safe_spawn_from 50 d m
