-- ===== src/Game/Logic/Setup.antt =====
-- game_logic.c: the initial values of the player, the enemies, the rocks and a round.
use soa_fib.Base.{ℕ, zero, suc, ◌+◌, ◌*◌, ◌/◌, ◌%◌, ◌==◌, ltb, if◌then◌else◌, update}
use soa_fib.Base.Int.{ℤ, pos}
use soa_fib.Game.Types.{
  dir_none, dir_right, EntityType, entity_player, entity_pooka, entity_fygar, entity_rock,
  player_speed, pooka_base_speed, fygar_base_speed,
}
use soa_fib.Game.Map.{map_init}
use soa_fib.Game.Logic.State.{
  Player, player_idle, Enemy, enemy_normal, Rock, rock_stable, GameLogicState, World, kind_code,
  scene_menu, scene_round_start, initial_lives, player_start_x, player_start_y, max_enemies,
  max_rocks, round_start_delay,
}

unfoldable pub logic_player_init : ℤ → ℤ → Player
logic_player_init x y = record {
  base = record {
    pos_of = record { x = x; y = y };
    dir = dir_none;
    kind = entity_player;
    active = 1;
    speed_counter = 0;
    speed_limit = pos player_speed;
  };
  state = player_idle;
  facing_dir = dir_right;
  is_pumping = 0;
  pump_length = 0;
  pump_dir = dir_none;
  is_attacking = 0;
  attack_timer = 0;
}

-- `blink_count` keeps what it held.
unfoldable pub logic_enemy_init : ℤ → ℤ → EntityType → Enemy → Enemy
logic_enemy_init x y kind e = record e {
  base = record {
    pos_of = record { x = x; y = y };
    dir = dir_none;
    kind = kind;
    active = 1;
    speed_counter = 0;
    speed_limit =
        if kind_code kind == kind_code entity_fygar
        then pos fygar_base_speed
        else pos pooka_base_speed;
  };
  state = enemy_normal;
  inflate_level = pos 0;
  ghost_timer = 0;
  fire_start_time = 0;
  fire_end_time = 0;
  fire_active = 0;
  fire_duration = 0;
  paralyzed_timer = 0;
  has_left_tunnel = 0;
}

unfoldable pub logic_rock_init : ℤ → ℤ → Rock
logic_rock_init x y = record {
  base = record {
    pos_of = record { x = x; y = y };
    dir = dir_none;
    kind = entity_rock;
    active = 1;
    speed_counter = 0;
    speed_limit = pos 1;
  };
  state = rock_stable;
  wobble_timer = pos 0;
  has_crushed = 0;
  blink_timer = pos 0;
  blink_count = pos 0;
}

abbrev pub clear_enemy : Enemy → Enemy
clear_enemy e = record e { base = record (e.base) { active = 0 } }

abbrev pub clear_rock : Rock → Rock
clear_rock r = record r { base = record (r.base) { active = 0 } }

-- The two loops: each entry of the two arrays is cleared.
unfoldable pub logic_init : GameLogicState → GameLogicState
logic_init s = record s {
  scene = scene_menu;
  score = 0;
  round = 1;
  lives = pos initial_lives;
  time_elapsed = 0;
  round_start_timer = 0;
  enemies_cleared_time = 0;
  running = 1;
  enemies_remaining = pos 0;
  enemy_count = 0;
  rock_count = 0;
  player = logic_player_init (pos player_start_x) (pos player_start_y);
  enemies = λ i. if ltb i max_enemies then clear_enemy (s.enemies i) else s.enemies i;
  rocks = λ i. if ltb i max_rocks then clear_rock (s.rocks i) else s.rocks i;
}

-- the place and the kind of enemy i of a round
abbrev pub spawn_enemy : ℕ → Enemy → Enemy
spawn_enemy i e =
    logic_enemy_init (pos (60 + i * 5 % 15)) (pos (8 + i * 4 % 12))
      (if i % 2 == 0 then entity_pooka else entity_fygar) e

-- the loops of `logic_start_round` from entry i on
unfoldable pub spawn_enemies : ℕ → ℕ → (ℕ → Enemy) → ℕ → Enemy
spawn_enemies zero i enemies = enemies
spawn_enemies (suc n) i enemies =
    spawn_enemies n (i + 1) (update enemies i (spawn_enemy i (enemies i)))

unfoldable pub spawn_rocks : ℕ → ℕ → (ℕ → Rock) → ℕ → Rock
spawn_rocks zero i rocks = rocks
spawn_rocks (suc n) i rocks =
    spawn_rocks n (i + 1) (update rocks i (logic_rock_init (pos (20 + i * 15)) (pos (6 + i * 3))))

abbrev pub enemies_of_round : ℕ → ℕ
enemies_of_round round = let n = 2 + round / 2 in if ltb max_enemies n then max_enemies else n

abbrev pub rocks_of_round : ℕ
rocks_of_round = if ltb max_rocks 4 then max_rocks else 4

unfoldable pub logic_start_round : ℕ → World → World
logic_start_round round w =
    let s = w.logic in
    let n = enemies_of_round round in
    record {
      map = map_init w.map;
      logic = record s {
        round = round;
        scene = scene_round_start;
        round_start_timer = round_start_delay;
        enemies_cleared_time = 0;
        player = logic_player_init (pos player_start_x) (pos player_start_y);
        enemy_count = n;
        enemies_remaining = pos n;
        enemies = spawn_enemies n 0 s.enemies;
        rock_count = rocks_of_round;
        rocks = spawn_rocks rocks_of_round 0 s.rocks;
      };
    }
