-- ===== src/Game/Logic/State.antt =====
-- game_types.h, game_logic.h and game_config.h: what the rules of the game act on, and their
-- constants. A tick is 1/320 of a second.
use soa_fib.Base.{ℕ, ◌*◌, ◌/◌}
use soa_fib.Base.Int.{ℤ}
use soa_fib.Game.Types.{
  Direction, EntityType, entity_none, entity_player, entity_pooka, entity_fygar, entity_rock,
  entity_enemy, Entity,
}
use soa_fib.Game.Map.{Map}

pub data GameScene : Type 0 where
  scene_menu scene_playing scene_paused scene_game_over : GameScene
  scene_round_clear scene_round_start scene_victory scene_credits : GameScene

pub data PlayerState : Type 0 where
  player_idle player_moving player_digging player_pumping player_attacking player_dead : PlayerState

pub data EnemyState : Type 0 where
  enemy_normal enemy_ghost enemy_inflating enemy_paralyzed enemy_dead : EnemyState

pub data RockState : Type 0 where
  rock_stable rock_wobbling rock_falling rock_landed rock_blinking : RockState

-- enum values, for their comparisons
abbrev pub player_code : PlayerState → ℕ
player_code player_idle = 0
player_code player_moving = 1
player_code player_digging = 2
player_code player_pumping = 3
player_code player_attacking = 4
player_code player_dead = 5

abbrev pub enemy_code : EnemyState → ℕ
enemy_code enemy_normal = 0
enemy_code enemy_ghost = 1
enemy_code enemy_inflating = 2
enemy_code enemy_paralyzed = 3
enemy_code enemy_dead = 4

abbrev pub kind_code : EntityType → ℕ
kind_code entity_none = 0
kind_code entity_player = 1
kind_code entity_pooka = 2
kind_code entity_fygar = 3
kind_code entity_rock = 4
kind_code entity_enemy = 5

pub record Player : Type 0 where
  pub base : Entity
  pub state : PlayerState
  pub facing_dir : Direction
  pub is_pumping : ℕ
  pub pump_length : ℕ
  pub pump_dir : Direction
  pub is_attacking : ℕ
  pub attack_timer : ℕ

pub record Enemy : Type 0 where
  pub base : Entity
  pub state : EnemyState
  pub inflate_level : ℤ
  pub ghost_timer : ℕ
  pub fire_start_time : ℕ
  pub fire_end_time : ℕ
  pub fire_active : ℕ
  pub fire_duration : ℕ
  pub paralyzed_timer : ℕ
  pub blink_count : ℤ
  pub has_left_tunnel : ℕ

pub record Rock : Type 0 where
  pub base : Entity
  pub state : RockState
  pub wobble_timer : ℤ
  pub has_crushed : ℕ
  pub blink_timer : ℤ
  pub blink_count : ℤ

pub record GameLogicState : Type 0 where
  pub scene : GameScene
  pub score : ℕ
  pub round : ℕ
  pub lives : ℤ
  pub enemies_remaining : ℤ
  pub time_elapsed : ℕ
  pub round_start_timer : ℕ
  pub enemies_cleared_time : ℕ
  pub player : Player
  pub enemies : ℕ → Enemy
  pub enemy_count : ℕ
  pub rocks : ℕ → Rock
  pub rock_count : ℕ
  pub running : ℕ

-- the state of the rules with the map, which game_map.c keeps in a global
pub record World : Type 0 where
  pub logic : GameLogicState
  pub map : Map

abbrev pub one_second : ℕ
one_second = 320

abbrev pub ghost_mode_threshold : ℕ
ghost_mode_threshold = 12 * one_second

abbrev pub respawn_delay : ℕ
respawn_delay = one_second / 8

abbrev pub level_clear_delay : ℕ
level_clear_delay = one_second / 4

abbrev pub rock_wobble_ticks : ℕ
rock_wobble_ticks = one_second / 4

abbrev pub rock_blink_duration : ℕ
rock_blink_duration = one_second / 32

abbrev pub rock_blink_count : ℕ
rock_blink_count = 3

abbrev pub round_start_delay : ℕ
round_start_delay = one_second / 2

abbrev pub attack_display_time : ℕ
attack_display_time = one_second / 16

abbrev pub fygar_fire_cooldown : ℕ
fygar_fire_cooldown = one_second * 2

abbrev pub fygar_fire_duration : ℕ
fygar_fire_duration = one_second / 4

abbrev pub fygar_fire_range : ℕ
fygar_fire_range = 2

abbrev pub attack_range_v : ℕ
attack_range_v = 2

abbrev pub attack_range_h : ℕ
attack_range_h = 3

abbrev pub max_pump_length : ℕ
max_pump_length = 4

abbrev pub inflate_levels : ℕ
inflate_levels = 4

abbrev pub max_enemies : ℕ
max_enemies = 8

abbrev pub max_rocks : ℕ
max_rocks = 10

abbrev pub initial_lives : ℕ
initial_lives = 5

abbrev pub max_rounds : ℕ
max_rounds = 5

abbrev pub max_score : ℕ
max_score = 99999

abbrev pub player_start_x : ℕ
player_start_x = 40

abbrev pub player_start_y : ℕ
player_start_y = 2

abbrev pub scene_code : GameScene → ℕ
scene_code scene_menu = 0
scene_code scene_playing = 1
scene_code scene_paused = 2
scene_code scene_game_over = 3
scene_code scene_round_clear = 4
scene_code scene_round_start = 5
scene_code scene_victory = 6
scene_code scene_credits = 7
