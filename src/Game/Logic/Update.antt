-- ===== src/Game/Logic/Update.antt =====
-- game_logic.c: one update of the game, scene by scene.
use soa_fib.Base.{ℕ, ◌+◌, ◌-◌, ◌&&◌, ◌==◌, ltb, if◌then◌else◌}
use soa_fib.Base.Int.{pos, ltb_ℤ}
use soa_fib.Game.Logic.State.{
  GameScene, scene_menu, scene_playing, scene_paused, scene_game_over, scene_round_clear,
  scene_round_start, scene_victory, scene_credits, player_code, player_dead, World, max_rounds,
  max_enemies,
}
use soa_fib.Game.Logic.Setup.{logic_start_round}
use soa_fib.Game.Logic.Score.{logic_check_round_complete, logic_check_game_over}
use soa_fib.Game.Logic.Player.{logic_update_player, logic_player_respawn}
use soa_fib.Game.Logic.Enemies.{logic_update_enemies}
use soa_fib.Game.Logic.Rocks.{logic_update_rocks}

unfoldable pub logic_transition_to_next_round : World → World
logic_transition_to_next_round w =
    let s = record (w.logic) { round = w.logic.round + 1 } in
    if ltb max_rounds s.round
    then record w { logic = record s { scene = scene_game_over } }
    else logic_start_round s.round (record w { logic = s })

abbrev pub set_timer : ℕ → World → World
set_timer n w = record w { logic = record (w.logic) { round_start_timer = n } }

-- the wait of the scene between two rounds
unfoldable pub wait_clear : World → World
wait_clear w =
    let t = w.logic.round_start_timer in
    if ltb 0 t
    then (if t - 1 == 0
        then logic_transition_to_next_round (set_timer (t - 1) w)
        else set_timer (t - 1) w)
    else w

-- the wait before a round
unfoldable pub wait_start : World → World
wait_start w =
    let t = w.logic.round_start_timer in
    let w1 = set_timer (t - 1) w in
    if ltb 0 t
    then (if t - 1 == 0
        then record w1 { logic = record (w1.logic) { scene = scene_playing } }
        else w1)
    else w

-- the wait for the player's return
unfoldable pub wait_respawn : World → World
wait_respawn w =
    let t = w.logic.round_start_timer in
    let w1 = set_timer (t - 1) w in
    if (t - 1 == 0)
      && (player_code w.logic.player.state == player_code player_dead)
      && ltb_ℤ (pos 0) w.logic.lives
    then record w1 { logic = logic_player_respawn w1.logic }
    else w1

-- `clock i` is what gettime returns at enemy i, and at `max_enemies` what it returns at the end.
unfoldable pub play : (ℕ → ℕ) → World → World
play clock w =
    let w1 = record w { logic = record (w.logic) { time_elapsed = w.logic.time_elapsed + 1 } } in
    let w2 = logic_update_rocks (logic_update_enemies clock (logic_update_player w1)) in
    record w2 {
      logic = logic_check_game_over (logic_check_round_complete (clock max_enemies) w2.logic);
    }

unfoldable pub update_scene : GameScene → (ℕ → ℕ) → World → World
update_scene scene_playing clock w =
    if ltb 0 w.logic.round_start_timer then wait_respawn w else play clock w
update_scene scene_round_clear clock w = wait_clear w
update_scene scene_round_start clock w = wait_start w
update_scene scene_menu clock w = w
update_scene scene_paused clock w = w
update_scene scene_game_over clock w = w
update_scene scene_victory clock w = w
update_scene scene_credits clock w = w

unfoldable pub logic_update : (ℕ → ℕ) → World → World
logic_update clock w = update_scene w.logic.scene clock w
