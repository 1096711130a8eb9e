-- ===== src/Game/Loop/Frames.antt =====
-- Every frame of the game comes to an end, and keeps the tally of the round and the two scenes that
-- game.c holds in step.
use soa_fib.Base.{
  ℕ, ◌≡◌, refl, ap, sym, ◌∙◌, true, not, ◌||◌, ◌==◌, ltb, arith, Bool-cases, if◌then◌else◌, both,
  inl, inr, eq_of_test, List, [], ◌∷◌, Option, some, ◌>>=◌,
}
use soa_fib.Base.Int.{pos, leb_ℤ}
use soa_fib.Game.Input.{
  InputState, input_update, input_get_direction, input_is_action_pressed, input_is_attack_pressed,
  input_is_attack_held, input_is_pause_pressed, input_is_quit_pressed, input_is_dev_kill_pressed,
}
use soa_fib.Game.Data.{num_levels_defined}
use soa_fib.Game.Data.Load.{load_level-Balanced}
use soa_fib.Game.Logic.State.{
  GameScene, scene_menu, scene_playing, scene_paused, scene_game_over, scene_round_clear,
  scene_round_start, scene_victory, scene_credits, scene_code, World, max_rounds,
}
use soa_fib.Game.Logic.Setup.{logic_init}
use soa_fib.Game.Logic.Score.{logic_dev_kill_enemy}
use soa_fib.Game.Logic.Player.{logic_player_attack}
use soa_fib.Game.Logic.Play.{steer, hold_attack, unseen, settle}
use soa_fib.Game.Logic.Tally.{live-none, dev_kill-Counted}
use soa_fib.Game.Logic.Tally.Player.{attack-Fair}
use soa_fib.Game.Logic.Tally.Update.{Balanced, logic_update-Balanced}
use soa_fib.Game.Loop.{
  Session, enter, with_input, game_init, game_reset, game_restart_level, game_new_level, new_game,
  sync_logic_to_game_state, process_menu_state, play_input, lose_game, process_playing_state,
  process_paused_state, count_down, advance, process_level_clear_state, process_game_over_state,
  process_victory_state, process_credits_state, process_round_start, process_scene, logic_frame,
}

-- the tally is right, and the game's scene is that of the rules
pub record Steady (s : Session) : Type 0 where
  pub balanced : Balanced s.world
  pub same_scene : s.game.scene ≡ s.world.logic.scene

-- a result, which is steady
abbrev pub Comes : Option Session → Type 0
Comes o = (s' : Session) × ((o ≡ some s') × Steady s')

come : (s : Session) → Steady s → Comes (some s)
come s h = (s, (refl, h))

then_come :
    (o : Option Session) (f : Session → Option Session)
    → Comes o
    → ((s : Session) → Steady s → Comes (f s))
    → Comes (o >>= f)
then_come o f (s, (e, h)) g = let (s', (e', h')) = g s h in (s', (ap (λ z. z >>= f) e ∙ e', h'))

-- the state of the rules after a change that the tally does not see
abbrev Same : World → World → Type 0
Same v w =
    (w.logic.enemy_count ≡ v.logic.enemy_count)
    × ((w.logic.score ≡ v.logic.score)
        × ((w.logic.enemies_remaining ≡ v.logic.enemies_remaining)
            × (w.logic.enemies ≡ v.logic.enemies)))

keep : (v w : World) → Same v w → Balanced v → Balanced w
unfolding Balanced
keep v w (a, (b, (d, e))) c = unseen v.logic w.logic a b d e c

input-Steady : (i : InputState) (s : Session) → Steady s → Steady (with_input i s)
input-Steady i s h = record { balanced = h.balanced; same_scene = h.same_scene }

enter-Steady :
    (scene : GameScene) (i : InputState) (s : Session)
    → Balanced s.world
    → Steady (enter scene (with_input i s))
enter-Steady scene i s h = record {
  balanced = keep s.world _ (refl, (refl, (refl, refl))) h;
  same_scene = refl;
}

cleared-Balanced : (w : World) → Balanced (record w { logic = logic_init w.logic })
unfolding logic_init Balanced
cleared-Balanced w = record {
  stage = refl;
  size = refl;
  bounded = omega arith;
  remaining = ap pos (sym (live-none _));
  quiet = λ i h. absurd (omega arith);
}

-- The game begins steady, whatever its globals held.
game_init-Steady : (s : Session) → Steady (game_init s)
unfolding game_init logic_init
game_init-Steady s = record { balanced = cleared-Balanced s.world; same_scene = refl }

reset-Steady : (s : Session) → Steady (game_reset s)
unfolding game_reset logic_init
reset-Steady s = record { balanced = cleared-Balanced s.world; same_scene = refl }

restart-Comes : (s : Session) → Steady s → Comes (game_restart_level s)
unfolding game_restart_level Balanced
restart-Comes s h =
    let (w, (e, (b, scene))) = load_level-Balanced s.game.level s.world h.balanced.bounded in
    (
      _,
      (
        ap
            (λ (o : Option World). o >>= λ z. some (record s {
              world = z;
              game = record (s.game) { enemy_count = z.logic.enemy_count };
            }))
            e,
        record { balanced = b; same_scene = h.same_scene ∙ sym scene },
      ),
    )

new_level-Comes : (s : Session) → Steady s → Comes (game_new_level s)
unfolding game_new_level
new_level-Comes s h =
    both Comes (ltb s.game.level 1 || ltb num_levels_defined s.game.level) (come s h) (
      then_come (game_restart_level s) _ (restart-Comes s h) (λ s1 h1. come _ (record {
        balanced = keep s1.world _ (refl, (refl, (refl, refl))) h1.balanced;
        same_scene = refl;
      })))

new_game-Comes : (s : Session) → Comes (new_game s)
unfolding new_game
new_game-Comes s =
    let h = reset-Steady s in
    new_level-Comes _ (record { balanced = h.balanced; same_scene = h.same_scene })

menu-Comes : (s : Session) → Steady s → Comes (process_menu_state s)
unfolding process_menu_state input_is_action_pressed
menu-Comes s h =
    both Comes (s.input.action_pressed == 0) (come _ (input-Steady _ s h))
      (then_come _ _ (new_game-Comes _) (λ s2 h2. come _ (input-Steady _ s2 h2)))

scene_of : ℕ → GameScene
scene_of n =
    if n == 0
    then scene_menu
    else if n == 1
    then scene_playing
    else if n == 2
    then scene_paused
    else if n == 3
    then scene_game_over
    else if n == 4
    then scene_round_clear
    else if n == 5
    then scene_round_start
    else if n == 6
    then scene_victory
    else scene_credits

scene_of-scene_code : (a : GameScene) → scene_of (scene_code a) ≡ a
unfolding scene_of
scene_of-scene_code scene_menu = refl
scene_of-scene_code scene_playing = refl
scene_of-scene_code scene_paused = refl
scene_of-scene_code scene_game_over = refl
scene_of-scene_code scene_round_clear = refl
scene_of-scene_code scene_round_start = refl
scene_of-scene_code scene_victory = refl
scene_of-scene_code scene_credits = refl

scene_eq : (a b : GameScene) → (scene_code a == scene_code b) ≡ true → a ≡ b
scene_eq a b h =
    sym (scene_of-scene_code a) ∙ ap scene_of (eq_of_test _ _ h) ∙ scene_of-scene_code b

kill-Balanced :
    (w : World) → Balanced w → Balanced (record w { logic = (logic_dev_kill_enemy w.logic).1 })
unfolding Balanced
kill-Balanced w c = settle (dev_kill-Counted w.logic.scene w.logic.enemy_count w.logic c)

attack-Balanced : (w : World) → Balanced w → Balanced (logic_player_attack w).1
unfolding Balanced
attack-Balanced w c = settle (attack-Fair w.logic.scene w.logic.enemy_count w c)

play_input-Balanced : (i : InputState) (w : World) → Balanced w → Balanced (play_input i w).1
unfolding play_input
play_input-Balanced i w c =
    let (kill, i1) = input_is_dev_kill_pressed i in
    let (dir, i2) = input_get_direction i1 in
    let (pumping, i3) = input_is_action_pressed i2 in
    let (attack, i4) = input_is_attack_pressed i3 in
    let w1 = if kill == 0 then w else record w { logic = (logic_dev_kill_enemy w.logic).1 } in
    let c1 = both Balanced (kill == 0) c (kill-Balanced w c) in
    let w2 = steer dir pumping w1 in
    let c2 = keep w1 w2 (refl, (refl, (refl, refl))) c1 in
    both Balanced (not (attack == 0)) (attack-Balanced w2 c2) (
      both Balanced (not (input_is_attack_held i4 == 0))
        (keep w2 (hold_attack w2) (refl, (refl, (refl, refl))) c2) c2)

sync-Steady : (s : Session) → Balanced s.world → Steady (sync_logic_to_game_state s)
unfolding sync_logic_to_game_state
sync-Steady s h = record {
  balanced = h;
  same_scene = elim (Bool-cases (scene_code s.world.logic.scene == scene_code s.game.scene)) [
    | inl e ↦ rw e (sym (scene_eq s.world.logic.scene s.game.scene e))
    | inr e ↦ rw e refl
  ];
}

lose-Steady : (s : Session) → Steady s → Steady (lose_game s)
unfolding lose_game
lose-Steady s h =
    both Steady (leb_ℤ s.world.logic.lives (pos 0))
      (record {
        balanced = keep s.world _ (refl, (refl, (refl, refl))) h.balanced;
        same_scene = refl;
      })
      h

playing-Steady : (clock : ℕ → ℕ) (s : Session) → Steady s → Steady (process_playing_state clock s)
unfolding process_playing_state input_is_pause_pressed
playing-Steady clock s h =
    let i : InputState = record (s.input) { pause_pressed = 0 } in
    both Steady (not (s.input.pause_pressed == 0)) (enter-Steady scene_paused i s h.balanced) (
      lose-Steady _
        (sync-Steady _ (logic_update-Balanced clock _ (play_input-Balanced i s.world h.balanced))))

paused-Steady : (s : Session) → Steady s → Steady (process_paused_state s)
unfolding process_paused_state input_is_pause_pressed
paused-Steady s h =
    both Steady (s.input.pause_pressed == 0) (input-Steady _ s h)
      (enter-Steady scene_playing (record (s.input) { pause_pressed = 0 }) s h.balanced)

count_down-Steady : (s : Session) → Steady s → Steady (count_down s)
count_down-Steady s h = record {
  balanced = keep s.world _ (refl, (refl, (refl, refl))) h.balanced;
  same_scene = h.same_scene;
}

advance-Steady : (s : Session) → Steady s → Steady (advance s)
advance-Steady s h = record {
  balanced = keep s.world _ (refl, (refl, (refl, refl))) h.balanced;
  same_scene = h.same_scene;
}

level_clear-Comes : (s : Session) → Steady s → Comes (process_level_clear_state s)
unfolding process_level_clear_state
level_clear-Comes s h =
    let s1 = count_down s in
    let h1 = count_down-Steady s h in
    let s2 = advance s1 in
    let h2 = advance-Steady s1 h1 in
    both Comes (ltb 0 s1.world.logic.round_start_timer) (come s1 h1) (
      both Comes (ltb max_rounds s2.game.level)
        (come _ (enter-Steady scene_victory s2.input s2 h2.balanced)) (new_level-Comes s2 h2))

game_over-Comes : (s : Session) → Steady s → Comes (process_game_over_state s)
unfolding process_game_over_state input_is_action_pressed
game_over-Comes s h =
    let s1 = count_down s in
    let h1 = count_down-Steady s h in
    both Comes (ltb 0 s1.world.logic.round_start_timer) (come s1 h1)
      (both Comes (s1.input.action_pressed == 0) (come _ (input-Steady _ s1 h1)) (new_game-Comes _))

victory-Comes : (s : Session) → Steady s → Comes (process_victory_state s)
unfolding process_victory_state input_is_action_pressed input_is_quit_pressed
victory-Comes s h = both Comes (not (s.input.action_pressed == 0)) (new_game-Comes _) (
    both Comes (not (s.input.quit_pressed == 0)) (come _ (enter-Steady scene_menu _ s h.balanced)) (
      both Comes (s.input.last_key == 46) (come _ (enter-Steady scene_credits _ s h.balanced))
        (come _ (input-Steady _ s h))))

credits-Steady : (s : Session) → Steady s → Steady (process_credits_state s)
unfolding process_credits_state input_is_quit_pressed
credits-Steady s h =
    both Steady (s.input.quit_pressed == 0) h (enter-Steady scene_victory _ s h.balanced)

round_start-Steady : (s : Session) → Steady s → Steady (process_round_start s)
unfolding process_round_start
round_start-Steady s h =
    let s1 = count_down s in
    let h1 = count_down-Steady s h in
    both Steady (ltb 0 s1.world.logic.round_start_timer) h1
      (enter-Steady scene_playing _ s1 h1.balanced)

scene-Comes :
    (scene : GameScene) (clock : ℕ → ℕ) (s : Session)
    → Steady s
    → Comes (process_scene scene clock s)
unfolding process_scene
scene-Comes scene_menu clock s h = menu-Comes s h
scene-Comes scene_playing clock s h = come _ (playing-Steady clock s h)
scene-Comes scene_paused clock s h = come _ (paused-Steady s h)
scene-Comes scene_round_clear clock s h = level_clear-Comes s h
scene-Comes scene_game_over clock s h = game_over-Comes s h
scene-Comes scene_round_start clock s h = come _ (round_start-Steady s h)
scene-Comes scene_victory clock s h = victory-Comes s h
scene-Comes scene_credits clock s h = come _ (credits-Steady s h)

frame-Comes : (clock : ℕ → ℕ) (s : Session) → Steady s → Comes (logic_frame clock s)
unfolding logic_frame
frame-Comes clock s h =
    let s1 = with_input (input_update s.input) s in
    let h1 = input-Steady (input_update s.input) s h in
    both Comes _ (come _ (record { balanced = h.balanced; same_scene = h.same_scene })) (
      then_come _ _ (scene-Comes s1.game.scene clock s1 h1)
        (λ s2 h2. come _ (record { balanced = h2.balanced; same_scene = h2.same_scene })))

-- the frames of a run, each with the input that the keyboard has left and its readings of the clock
abbrev pub frames : List (InputState × (ℕ → ℕ)) → Session → Option Session
frames [] s = some s
frames ((i, clock) ∷ fs) s = logic_frame clock (with_input i s) >>= λ s1. frames fs s1

run-Comes : (fs : List (InputState × (ℕ → ℕ))) (s : Session) → Steady s → Comes (frames fs s)
run-Comes [] s h = come s h
run-Comes ((i, clock) ∷ fs) s h =
    then_come (logic_frame clock (with_input i s)) (λ s1. frames fs s1)
      (frame-Comes clock (with_input i s) (input-Steady i s h)) (λ s1 h1. run-Comes fs s1 h1)

-- After game_init, any number of frames, with any input and by any clock, come to a result, whatever the
-- globals held before, and in it `enemies_remaining` is the number of the live enemies, no active
-- enemy is a dead one, the score is at most 99999, and g_game and g_logic_state are in the same
-- scene.
pub logic_frame-Comes :
    (fs : List (InputState × (ℕ → ℕ))) (s : Session) → Comes (frames fs (game_init s))
logic_frame-Comes fs s = run-Comes fs (game_init s) (game_init-Steady s)
