-- ===== src/Game/Map/Gems.antt =====
-- game_map.c: the count of the gems, and the dirt of a level.
use soa_fib.Base.{ℕ, zero, suc, ◌+◌, ◌*◌, ltb, if◌then◌else◌}
use soa_fib.Game.Types.{tile_gem, map_width, map_height}
use soa_fib.Game.Map.{Map, tile_is, place_random_dirt}

-- the two loops of `map_count_gems`, over n columns from x and n rows from y on
unfoldable pub count_gems_row : ℕ → ℕ → ℕ → ℕ → Map → ℕ
count_gems_row zero x y count m = count
count_gems_row (suc n) x y count m =
    count_gems_row n (x + 1) y (if tile_is (m.tiles y x) tile_gem then count + 1 else count) m

unfoldable pub count_gems_rows : ℕ → ℕ → ℕ → Map → ℕ
count_gems_rows zero y count m = count
count_gems_rows (suc n) y count m =
    count_gems_rows n (y + 1) (count_gems_row map_width 0 y count m) m

unfoldable pub map_count_gems : Map → ℕ
map_count_gems m = count_gems_rows map_height 0 0 m

-- Levels count from 0.
unfoldable pub map_create_dirt_pattern : ℕ → Map → Map
map_create_dirt_pattern level m =
    place_random_dirt (if ltb 85 (60 + level * 5) then 85 else 60 + level * 5) m
