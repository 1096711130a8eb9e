-- ===== src/Tests/Rules.antt =====
-- The theorems on the rules of the game at concrete worlds.
use soa_fib.Base.{ℕ, ◌≤◌, ◌==◌, if◌then◌else◌, false, ◌≡◌, refl, ◌⊎◌, some, [], ◌∷◌, arith}
use soa_fib.Base.Int.{pos}
use soa_fib.Game.Types.{
  dir_none, dir_down, dir_right, Position, entity_pooka, entity_rock, tile_dirt, tile_empty,
}
use soa_fib.Game.Map.{Map, map_is_valid_position}
use soa_fib.Game.Logic.State.{Enemy, enemy_normal, Rock, rock_blinking, World, scene_menu}
use soa_fib.Game.Logic.Setup.{logic_player_init, logic_init, logic_start_round}
use soa_fib.Game.Logic.Queue.{PriorityQueue, pq_init, pq_push, pq_pop, pq_full}
use soa_fib.Game.Logic.Queue.Heap.{Built, pq_pop-least}
use soa_fib.Game.Logic.Path.{logic_find_path_bfs, search_fuel, search_init, search_loop, old_queue}
use soa_fib.Game.Logic.Path.Route.{Route, logic_find_path_bfs-Route}
use soa_fib.Game.Logic.Path.Ends.{logic_find_path_bfs-ends}
use soa_fib.Game.Logic.Player.{logic_player_attack, logic_player_move}
use soa_fib.Game.Logic.Enemies.{logic_enemy_move_towards_player}
use soa_fib.Game.Logic.Update.{logic_update}
use soa_fib.Game.Logic.Tally.Update.{Balanced}
use soa_fib.Game.Logic.Play.{Play, Play-Balanced}
use soa_fib.Game.Logic.Moves.{Stepped, move_towards-Stepped}
use soa_fib.Game.Logic.Attack.{Struck, player_attack-Struck}
use soa_fib.Game.Logic.State.{enemy_ghost}
use soa_fib.Game.Logic.Dig.{Moved, player_move-Moved}
use soa_fib.Game.Input.{InputState}
use soa_fib.Game.Loop.{Session, game_init}
use soa_fib.Game.Loop.Frames.{Comes, frames, logic_frame-Comes}
use soa_fib.Game.Logic.Fall.{rock_after, rock_after-gone}

abbrev cell : ℕ → ℕ → Position
cell x y = record { x = pos x; y = pos y }

-- a tunnel in row 10, dirt elsewhere
abbrev tunnel_map : Map
tunnel_map = record {
  tiles = λ y x. if y == 10 then tile_empty else tile_dirt;
  gem_positions = λ i. cell 0 0;
  gem_count = 0;
  seed = 12345;
}

abbrev pooka : ℕ → ℕ → Enemy
pooka x y = record {
  base = record {
    pos_of = cell x y;
    dir = dir_none;
    kind = entity_pooka;
    active = 1;
    speed_counter = 0;
    speed_limit = pos 16;
  };
  state = enemy_normal;
  inflate_level = pos 0;
  ghost_timer = 0;
  fire_start_time = 0;
  fire_end_time = 0;
  fire_active = 0;
  fire_duration = 0;
  paralyzed_timer = 0;
  blink_count = pos 0;
  has_left_tunnel = 0;
}

abbrev falling_rock : Rock
falling_rock = record {
  base = record {
    pos_of = cell 20 21;
    dir = dir_none;
    kind = entity_rock;
    active = 1;
    speed_counter = 0;
    speed_limit = pos 1;
  };
  state = rock_blinking;
  wobble_timer = pos 0;
  has_crushed = 0;
  blink_timer = pos 1;
  blink_count = pos 0;
}

abbrev a_world : World
a_world = record {
  map = tunnel_map;
  logic = record {
    scene = scene_menu;
    score = 0;
    round = 1;
    lives = pos 5;
    enemies_remaining = pos 0;
    time_elapsed = 0;
    round_start_timer = 0;
    enemies_cleared_time = 0;
    player = logic_player_init (pos 40) (pos 10);
    enemies = λ i. pooka 44 10;
    enemy_count = 0;
    rocks = λ i. falling_rock;
    rock_count = 0;
    running = 1;
  };
}

abbrev first_round : World
first_round = logic_start_round 1 (record a_world { logic = logic_init a_world.logic })

abbrev clock : ℕ → ℕ
clock i = 1000

Play-Balanced_example : Balanced (logic_update clock (logic_player_attack first_round).1)
Play-Balanced_example = Play-Balanced _ (Play.updated (Play.attacks (Play.starts 1 a_world)) clock)

logic_find_path_bfs-Route_example :
    (logic_find_path_bfs (cell 44 10) (cell 40 10) false tunnel_map ≡ dir_none)
    ⊎ ((c : ℕ) × Route tunnel_map false
          (cell 44 10)
          (logic_find_path_bfs (cell 44 10) (cell 40 10) false tunnel_map)
          (cell 40 10)
          c)
unfolding map_is_valid_position
logic_find_path_bfs-Route_example =
    logic_find_path_bfs-Route (cell 44 10) (cell 40 10) false tunnel_map refl refl

logic_find_path_bfs-ends_example :
    search_loop search_fuel tunnel_map (cell 40 10) false (search_init (cell 44 10))
    ≡ some (logic_find_path_bfs (cell 44 10) (cell 40 10) false tunnel_map)
unfolding map_is_valid_position
logic_find_path_bfs-ends_example =
    logic_find_path_bfs-ends (cell 44 10) (cell 40 10) false tunnel_map refl

abbrev two_nodes : PriorityQueue
two_nodes = pq_push (cell 1 2) dir_down 3 (pq_push (cell 1 1) dir_right 7 (pq_init old_queue))

pq_pop-least_example : (pq_pop two_nodes).0.cost ≤ (two_nodes.nodes 1).cost
unfolding pq_push pq_init pq_full
pq_pop-least_example =
    pq_pop-least two_nodes 1
      (Built.pushed (Built.pushed (Built.fresh old_queue) (cell 1 1) dir_right 7) (cell 1 2)
        dir_down 3)
      (omega arith)

move_towards-Stepped_example :
    Stepped a_world (pooka 44 10) (logic_enemy_move_towards_player (pooka 44 10) a_world)
move_towards-Stepped_example = move_towards-Stepped (pooka 44 10) a_world

-- a ghost in the dirt below the tunnel
abbrev buried_ghost : Enemy
buried_ghost = record (pooka 44 12) { state = enemy_ghost; has_left_tunnel = 0 }

player_move-Moved_example : Moved dir_down a_world (logic_player_move dir_down a_world)
player_move-Moved_example = player_move-Moved dir_down a_world

rock_after-gone_example : (rock_after (a_world ∷ a_world ∷ []) falling_rock).base.active ≡ 0
rock_after-gone_example = rock_after-gone (a_world ∷ a_world ∷ []) falling_rock refl (omega arith)

player_attack-Struck_example :
    (((logic_player_attack a_world).0 ≡ false) × ((logic_player_attack a_world).1 ≡ a_world))
    ⊎ ((n : ℕ) × Struck a_world (logic_player_attack a_world).1 n)
player_attack-Struck_example = player_attack-Struck a_world

abbrev enter_key : InputState
enter_key = record {
  direction = dir_none;
  held_dir = dir_none;
  move_just_pressed = 0;
  hold_time = 0;
  action_pressed = 1;
  attack_pressed = 0;
  attack_held = 0;
  pause_pressed = 0;
  quit_pressed = 0;
  dev_kill_pressed = 0;
  any_key_pressed = 1;
  last_key = 28;
  move_processed = 0;
}

abbrev a_session : Session
a_session = record {
  game = record {
    scene = scene_menu;
    score = 0;
    level = 0;
    lives = pos 0;
    gem_count = 0;
    ticks_elapsed = 0;
    last_update_tick = 0;
    player = falling_rock.base;
    enemies = λ i. falling_rock.base;
    enemy_count = 0;
    paused = 0;
    game_over = 0;
    level_complete = 0;
  };
  world = a_world;
  input = enter_key;
  running = 0;
}

logic_frame-Comes_example :
    Comes (frames ((enter_key, clock) ∷ (enter_key, clock) ∷ []) (game_init a_session))
logic_frame-Comes_example =
    logic_frame-Comes ((enter_key, clock) ∷ (enter_key, clock) ∷ []) a_session
