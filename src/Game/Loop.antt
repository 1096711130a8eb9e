-- ===== src/Game/Loop.antt =====
-- game.c: the scenes of the game and the frames of its logic thread. A frame that loads a level has
-- the fault of `data_load_level`. A timer that the source counts below 0 stays at 0 here: it is
-- only tested for being 0 or less. Not modelled: the wait for a frame's time, and the drawing.
pub mod Frames
use soa_fib.Base.{
  ℕ, suc, ◌+◌, ◌-◌, Bool, true, false, not, ◌&&◌, ◌||◌, ◌==◌, ltb, leb, if◌then◌else◌, Option, none,
  some, ◌>>=◌,
}
use soa_fib.Base.Int.{ℤ, pos, negsuc, leb_ℤ}
use soa_fib.Game.Types.{Direction, Entity, dir_code}
use soa_fib.Game.Input.{
  InputState, input_reset, input_clear, input_clear_quit, input_update, input_get_direction,
  input_is_action_pressed, input_is_attack_pressed, input_is_attack_held, input_is_pause_pressed,
  input_is_quit_pressed, input_is_dev_kill_pressed,
}
use soa_fib.Game.Data.{num_levels_defined}
use soa_fib.Game.Data.Load.{data_load_level}
use soa_fib.Game.Logic.State.{
  GameScene, scene_menu, scene_playing, scene_paused, scene_game_over, scene_round_clear,
  scene_round_start, scene_victory, scene_credits, scene_code, GameLogicState, World, initial_lives,
  max_rounds,
}
use soa_fib.Game.Logic.Setup.{logic_init}
use soa_fib.Game.Logic.Score.{logic_dev_kill_enemy}
use soa_fib.Game.Logic.Player.{logic_player_attack}
use soa_fib.Game.Logic.Update.{logic_update, set_timer}
use soa_fib.Game.Logic.Play.{steer, hold_attack, set_scene}

pub record GameState : Type 0 where
  pub scene : GameScene
  pub score : ℕ
  pub level : ℕ
  pub lives : ℤ
  pub gem_count : ℕ
  pub ticks_elapsed : ℕ
  pub last_update_tick : ℕ
  pub player : Entity
  pub enemies : ℕ → Entity
  pub enemy_count : ℕ
  pub paused : ℕ
  pub game_over : ℕ
  pub level_complete : ℕ

-- `g_game`, `g_logic_state` with the map, `g_input` and `g_running`
pub record Session : Type 0 where
  pub game : GameState
  pub world : World
  pub input : InputState
  pub running : ℕ

abbrev pub game_over_delay : ℕ
game_over_delay = 160

abbrev pub my_round_start_delay : ℕ
my_round_start_delay = 32

-- both scenes
abbrev pub enter : GameScene → Session → Session
enter scene s = record s {
  game = record (s.game) { scene = scene };
  world = set_scene scene s.world;
}

abbrev pub with_input : InputState → Session → Session
with_input i s = record s { input = i }

abbrev pub with_world : World → Session → Session
with_world w s = record s { world = w }

unfoldable pub game_init : Session → Session
game_init s = record {
  input = input_reset s.input;
  world = record (s.world) { logic = logic_init s.world.logic };
  game = record (s.game) {
    scene = scene_menu;
    score = 0;
    level = 1;
    lives = pos initial_lives;
    ticks_elapsed = 0;
    enemy_count = 0;
  };
  running = 1;
}

unfoldable pub game_reset : Session → Session
game_reset s = record s {
  game = record (s.game) {
    score = 0;
    lives = pos initial_lives;
    level = 1;
    ticks_elapsed = 0;
    enemy_count = 0;
    scene = scene_menu;
  };
  world = record (s.world) {
    logic = record (logic_init s.world.logic) { score = 0; lives = pos initial_lives; round = 1 };
  };
}

-- a level loaded into the state of the rules
unfoldable pub game_restart_level : Session → Option Session
game_restart_level s = data_load_level s.game.level s.world >>= λ w.
    some (record s { world = w; game = record (s.game) { enemy_count = w.logic.enemy_count } })

-- The result of the call, 0 or -1, is used by no caller.
unfoldable pub game_new_level : Session → Option Session
game_new_level s =
    if ltb s.game.level 1 || ltb num_levels_defined s.game.level
    then some s
    else (game_restart_level s >>= λ s1. some (
        with_world (set_timer my_round_start_delay (set_scene scene_round_start s1.world))
          (enter scene_round_start s1)))

unfoldable pub sync_logic_to_game_state : Session → Session
sync_logic_to_game_state s =
    let l = s.world.logic in
    record s {
      game = record (s.game) {
        score = l.score;
        lives = l.lives;
        enemy_count = l.enemy_count;
        ticks_elapsed = l.time_elapsed;
        scene = if scene_code l.scene == scene_code s.game.scene then s.game.scene else l.scene;
      };
    }

-- `game_reset`, level 1 and `game_new_level`
unfoldable pub new_game : Session → Option Session
new_game s =
    let s1 = game_reset s in game_new_level (record s1 { game = record (s1.game) { level = 1 } })

unfoldable pub process_menu_state : Session → Option Session
process_menu_state s =
    let (action, i) = input_is_action_pressed s.input in
    let s1 = with_input i s in
    if action == 0
    then some s1
    else (new_game s1 >>= λ s2. some (with_input (input_clear s2.input) s2))

-- what the keys of a frame do to the world, and what is left of the input
unfoldable pub play_input : InputState → World → InputState × World
play_input i w =
    let (kill, i1) = input_is_dev_kill_pressed i in
    let w1 = if kill == 0 then w else record w { logic = (logic_dev_kill_enemy w.logic).1 } in
    let (dir, i2) = input_get_direction i1 in
    let (pumping, i3) = input_is_action_pressed i2 in
    let (attack, i4) = input_is_attack_pressed i3 in
    let w2 = steer dir pumping w1 in
    (
      i4,
      if not (attack == 0)
          then (logic_player_attack w2).1
          else if not (input_is_attack_held i4 == 0)
          then hold_attack w2
          else w2,
    )

unfoldable pub lose_game : Session → Session
lose_game s =
    if leb_ℤ s.world.logic.lives (pos 0)
    then (let s1 = enter scene_game_over s in with_world (set_timer game_over_delay s1.world) s1)
    else s

unfoldable pub process_playing_state : (ℕ → ℕ) → Session → Session
process_playing_state clock s =
    let (pause, i) = input_is_pause_pressed s.input in
    let (i1, w1) = play_input i s.world in
    if not (pause == 0)
    then enter scene_paused (with_input i s)
    else lose_game (sync_logic_to_game_state (with_world (logic_update clock w1) (with_input i1 s)))

unfoldable pub process_paused_state : Session → Session
process_paused_state s =
    let (pause, i) = input_is_pause_pressed s.input in
    if pause == 0 then with_input i s else enter scene_playing (with_input i s)

abbrev pub count_down : Session → Session
count_down s = with_world (set_timer (s.world.logic.round_start_timer - 1) s.world) s

-- the next level, and the next round
abbrev pub advance : Session → Session
advance s = record s {
  game = record (s.game) { level = s.game.level + 1 };
  world = record (s.world) { logic = record (s.world.logic) { round = s.world.logic.round + 1 } };
}

unfoldable pub process_level_clear_state : Session → Option Session
process_level_clear_state s =
    let s1 = count_down s in
    let s2 = advance s1 in
    if ltb 0 s1.world.logic.round_start_timer
    then some s1
    else if ltb max_rounds s2.game.level
    then some (enter scene_victory s2)
    else game_new_level s2

unfoldable pub process_game_over_state : Session → Option Session
process_game_over_state s =
    let s1 = count_down s in
    let (action, i) = input_is_action_pressed s1.input in
    if ltb 0 s1.world.logic.round_start_timer
    then some s1
    else if action == 0
    then some (with_input i s1)
    else new_game (with_input i s1)

unfoldable pub process_victory_state : Session → Option Session
process_victory_state s =
    let (action, i) = input_is_action_pressed s.input in
    let s1 = with_input i s in
    if not (action == 0)
    then new_game s1
    else if not (input_is_quit_pressed i == 0)
    then some (enter scene_menu (with_input (input_clear_quit i) s1))
    else if i.last_key == 46
    then some (enter scene_credits s1)
    else some s1

unfoldable pub process_credits_state : Session → Session
process_credits_state s =
    if input_is_quit_pressed s.input == 0
    then s
    else enter scene_victory (with_input (input_clear_quit s.input) s)

-- the start of a round in `logic_thread_func`
unfoldable pub process_round_start : Session → Session
process_round_start s =
    let s1 = count_down s in
    if ltb 0 s1.world.logic.round_start_timer
    then s1
    else enter scene_playing (with_input (input_clear s1.input) s1)

unfoldable pub process_scene : GameScene → (ℕ → ℕ) → Session → Option Session
process_scene scene_menu clock s = process_menu_state s
process_scene scene_playing clock s = some (process_playing_state clock s)
process_scene scene_paused clock s = some (process_paused_state s)
process_scene scene_round_clear clock s = process_level_clear_state s
process_scene scene_game_over clock s = process_game_over_state s
process_scene scene_round_start clock s = some (process_round_start s)
process_scene scene_victory clock s = process_victory_state s
process_scene scene_credits clock s = some (process_credits_state s)

abbrev pub count_tick : Session → Session
count_tick s = record s { game = record (s.game) { ticks_elapsed = s.game.ticks_elapsed + 1 } }

-- One round of the loop of `logic_thread_func`; `clock` as in `logic_update`.
unfoldable pub logic_frame : (ℕ → ℕ) → Session → Option Session
logic_frame clock s =
    let s1 = with_input (input_update s.input) s in
    if not (input_is_quit_pressed s1.input == 0)
      && (scene_code s1.game.scene == scene_code scene_menu)
    then some (record s1 { running = 0 })
    else (process_scene s1.game.scene clock s1 >>= λ s2. some (count_tick s2))
