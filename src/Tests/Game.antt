-- ===== src/Tests/Game.antt =====
-- The game's theorems at concrete maps, entities and inputs.
use soa_fib.Base.{ℕ, ◌≡◌, refl, some, arith}
use soa_fib.Base.Int.{pos}
use soa_fib.Game.Types.{dir_none, dir_up, tile_dirt}
use soa_fib.Game.Input.{key_direction, InputState, input_keyboard_handler, input_get_direction}
use soa_fib.Game.Input.Holding.{frames, input_get_direction-held}
use soa_fib.Game.Map.{Map, map_get_tile, map_init}
use soa_fib.Game.Map.Layout.{map_init-layout}
use soa_fib.Game.Entities.{entity_init, enemy_init, enemy_update}
use soa_fib.Game.Entities.Moves.{Stepped, enemy_update-Stepped}
use soa_fib.Game.Entities.Chase.{at}
use soa_fib.Game.Data.{data_dig_tunnel}
use soa_fib.Game.Data.Tunnel.{dug, on_tunnel, data_dig_tunnel-Dug}

abbrev dirt_map : Map
dirt_map = record {
  tiles = λ y x. tile_dirt;
  gem_positions = λ i. at 0 0;
  gem_count = 0;
  seed = 12345;
}

abbrev no_input : InputState
no_input = record {
  direction = dir_none;
  held_dir = dir_none;
  move_just_pressed = 0;
  hold_time = 0;
  action_pressed = 0;
  attack_pressed = 0;
  attack_held = 0;
  pause_pressed = 0;
  quit_pressed = 0;
  dev_kill_pressed = 0;
  any_key_pressed = 0;
  last_key = 0;
  move_processed = 0;
}

map_init-layout_example : map_get_tile (pos 40) (pos 10) (map_init dirt_map) ≡ tile_dirt
map_init-layout_example = map_init-layout dirt_map 40 10 (omega arith) (omega arith)

data_dig_tunnel-Dug_example :
    (m' : Map) × (data_dig_tunnel (pos 58) (pos 7) (pos 62) (pos 7) dirt_map ≡ some m')
    × ((r c : ℕ) → m'.tiles r c ≡ dug (on_tunnel 58 7 62 7 c r) tile_dirt)
data_dig_tunnel-Dug_example =
    data_dig_tunnel-Dug 58 7 62 7 dirt_map (omega arith) (omega arith) (omega arith) (omega arith)

enemy_update-Stepped_example :
    Stepped dirt_map
      (enemy_init (pos 4) (pos 4))
      (enemy_update (enemy_init (pos 4) (pos 4)) (at 9 9) dirt_map)
unfolding enemy_init entity_init
enemy_update-Stepped_example =
    enemy_update-Stepped (enemy_init (pos 4) (pos 4)) (at 9 9) dirt_map refl

input_get_direction-held_example :
    ((input_get_direction (input_keyboard_handler 17 1 no_input)).0 ≡ dir_up)
    × ((input_get_direction
          (frames 39 (input_get_direction (input_keyboard_handler 17 1 no_input)).1)).0
        ≡ dir_none)
unfolding key_direction
input_get_direction-held_example =
    input_get_direction-held no_input 17 1 39 refl (λ e. omega (arith, e))
