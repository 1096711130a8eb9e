-- ===== src/Game/Input.antt =====
-- game_input.c: the keyboard state that the handler writes and the game logic reads. Flags are
-- 0 or 1 as in the source; a key is its scancode.
pub mod Holding
use soa_fib.Base.{ℕ, ◌+◌, Bool, true, false, not, ◌&&◌, ◌||◌, ◌==◌, leb, if◌then◌else◌}
use soa_fib.Game.Types.{Direction, dir_none, dir_up, dir_down, dir_left, dir_right, dir_code}

pub record InputState : Type 0 where
  pub direction : Direction
  pub held_dir : Direction
  pub move_just_pressed : ℕ
  pub hold_time : ℕ
  pub action_pressed : ℕ
  pub attack_pressed : ℕ
  pub attack_held : ℕ
  pub pause_pressed : ℕ
  pub quit_pressed : ℕ
  pub dev_kill_pressed : ℕ
  pub any_key_pressed : ℕ
  pub last_key : ℕ
  pub move_processed : ℕ

-- EIGHTH_SECOND
abbrev pub hold_threshold : ℕ
hold_threshold = 40

-- `DIR_NONE` as a test
abbrev pub is_none : Direction → Bool
is_none d = dir_code d == 0

unfoldable pub input_reset : InputState → InputState
input_reset i = record i {
  direction = dir_none;
  held_dir = dir_none;
  move_just_pressed = 0;
  hold_time = 0;
  action_pressed = 0;
  attack_pressed = 0;
  attack_held = 0;
  pause_pressed = 0;
  quit_pressed = 0;
  last_key = 0;
  any_key_pressed = 0;
  move_processed = 0;
}

unfoldable pub input_clear : InputState → InputState
input_clear i = record i {
  direction = dir_none;
  held_dir = dir_none;
  move_just_pressed = 0;
  hold_time = 0;
  action_pressed = 0;
  attack_pressed = 0;
  attack_held = 0;
  pause_pressed = 0;
  any_key_pressed = 0;
  move_processed = 0;
}

unfoldable pub input_clear_quit : InputState → InputState
input_clear_quit i = record i { quit_pressed = 0 }

unfoldable pub input_update : InputState → InputState
input_update i = if not (is_none i.held_dir) then record i { hold_time = i.hold_time + 1 } else i

-- the first `switch` of the handler
unfoldable pub key_direction : ℕ → Direction
key_direction key =
    if key == 17 || (key == 72)
    then dir_up
    else if key == 31 || (key == 80)
    then dir_down
    else if key == 30 || (key == 75)
    then dir_left
    else if key == 32 || (key == 77)
    then dir_right
    else dir_none

-- a movement key pressed, and released
unfoldable pub press_move : Direction → InputState → InputState
press_move d i = record i { held_dir = d; move_just_pressed = 1; hold_time = 0; move_processed = 0 }

unfoldable pub release_move : Direction → InputState → InputState
release_move d i =
    if dir_code i.held_dir == dir_code d
    then record i { held_dir = dir_none; hold_time = 0; move_just_pressed = 0 }
    else i

-- the space bar
unfoldable pub attack_key : ℕ → InputState → InputState
attack_key pressed i =
    if not (pressed == 0)
    then record i { attack_held = 1; attack_pressed = 1 }
    else record i { attack_held = 0 }

-- the last `switch`
unfoldable pub command_key : ℕ → InputState → InputState
command_key key i =
    if key == 28
    then record i { action_pressed = 1 }
    else if key == 25
    then record i { pause_pressed = 1 }
    else if key == 1 || (key == 16)
    then record i { quit_pressed = 1 }
    else if key == 37
    then record i { dev_kill_pressed = 1 }
    else i

unfoldable pub input_keyboard_handler : ℕ → ℕ → InputState → InputState
input_keyboard_handler key pressed i =
    let i1 = if not (pressed == 0) then record i { last_key = key; any_key_pressed = 1 } else i in
    let key_dir = key_direction key in
    if not (is_none key_dir)
    then if not (pressed == 0) then press_move key_dir i1 else release_move key_dir i1
    else if key == 57
    then attack_key pressed i1
    else if pressed == 0
    then i1
    else command_key key i1

unfoldable pub input_get_direction : InputState → Direction × InputState
input_get_direction i =
    if is_none i.held_dir
    then (dir_none, i)
    else if not (i.move_just_pressed == 0) && (i.move_processed == 0)
    then (i.held_dir, record i { move_processed = 1; move_just_pressed = 0 })
    else if leb hold_threshold i.hold_time
    then (i.held_dir, i)
    else (dir_none, i)

unfoldable pub input_is_action_pressed : InputState → ℕ × InputState
input_is_action_pressed i = (i.action_pressed, record i { action_pressed = 0 })

unfoldable pub input_is_attack_pressed : InputState → ℕ × InputState
input_is_attack_pressed i = (i.attack_pressed, record i { attack_pressed = 0 })

unfoldable pub input_is_attack_held : InputState → ℕ
input_is_attack_held i = i.attack_held

unfoldable pub input_is_pause_pressed : InputState → ℕ × InputState
input_is_pause_pressed i = (i.pause_pressed, record i { pause_pressed = 0 })

unfoldable pub input_is_quit_pressed : InputState → ℕ
input_is_quit_pressed i = i.quit_pressed

unfoldable pub input_is_dev_kill_pressed : InputState → ℕ × InputState
input_is_dev_kill_pressed i = (i.dev_kill_pressed, record i { dev_kill_pressed = 0 })

unfoldable pub input_any_key_pressed : InputState → ℕ × InputState
input_any_key_pressed i = (i.any_key_pressed, record i { any_key_pressed = 0 })
