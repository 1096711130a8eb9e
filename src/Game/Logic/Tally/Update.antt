-- ===== src/Game/Logic/Tally/Update.antt =====
-- The whole update, the attack and the developer's key keep the tally of the round.
use soa_fib.Base.{
  ℕ, zero, suc, ◌+◌, ◌-◌, ◌≤◌, ◌<◌, ◌≡◌, refl, ap, ◌∙◌, sym, subst, true, ◌==◌, ltb, arith,
  Bool-cases, both, inl, inr, update, update_self, update_ne, eq_of_test,
}
use soa_fib.Base.Int.{pos}
use soa_fib.Game.Logic.State.{
  GameScene, scene_menu, scene_playing, scene_paused, scene_game_over, scene_round_clear,
  scene_round_start, scene_victory, scene_credits, Enemy, GameLogicState, World, max_rounds,
  max_enemies, max_score,
}
use soa_fib.Game.Logic.Setup.{
  spawn_enemies, spawn_enemy, logic_enemy_init, enemies_of_round, logic_start_round,
}
use soa_fib.Game.Logic.Score.{alive, logic_check_round_complete, logic_check_game_over}
use soa_fib.Game.Logic.Player.{logic_player_respawn, logic_update_player}
use soa_fib.Game.Logic.Enemies.{logic_update_enemies}
use soa_fib.Game.Logic.Rocks.{logic_update_rocks}
use soa_fib.Game.Logic.Update.{
  logic_transition_to_next_round, set_timer, wait_clear, wait_start, wait_respawn, play,
  update_scene, logic_update,
}
use soa_fib.Game.Logic.Tally.{live, settled, Counted, round_complete-Counted, game_over-Counted}
use soa_fib.Game.Logic.Tally.Player.{update_player-Fair}
use soa_fib.Game.Logic.Tally.Enemies.{update_enemies-Counted}
use soa_fib.Game.Logic.Tally.Rocks.{update_rocks-Counted}

-- the tally of the enemies of the round
unfoldable pub Balanced : World → Type 0
Balanced w = Counted w.logic.scene w.logic.enemy_count w.logic

spawned_before : (j i k : ℕ) (f : ℕ → Enemy) → k < i → spawn_enemies j i f k ≡ f k
unfolding spawn_enemies
spawned_before zero i k f h = refl
spawned_before (suc j) i k f h =
    spawned_before j (i + 1) k _ (omega arith) ∙ update_ne f i k (spawn_enemy i (f i)) (omega arith)

abbrev New : Enemy → Type 0
New e = (alive e ≡ true) × (settled e ≡ true)

spawn_enemy-New : (i : ℕ) (e : Enemy) → New (spawn_enemy i e)
unfolding logic_enemy_init
spawn_enemy-New i e = (refl, refl)

spawned-New : (j i k : ℕ) (f : ℕ → Enemy) → i ≤ k → k < i + j → New (spawn_enemies j i f k)
unfolding spawn_enemies
spawned-New zero i k f lo hi = absurd (omega arith)
spawned-New (suc j) i k f lo hi = elim (Bool-cases (i == k)) [
  | inl e ↦
      let same =
        spawned_before j (i + 1) i (update f i (spawn_enemy i (f i))) (omega arith)
        ∙ update_self f i (spawn_enemy i (f i)) in
      subst (λ z. New (spawn_enemies j (i + 1) (update f i (spawn_enemy i (f i))) z))
        (eq_of_test i k e) (subst New (sym same) (spawn_enemy-New i (f i)))
  | inr e ↦ spawned-New j (i + 1) k _ (ground arith) (omega arith)
]

pub all_alive : (n : ℕ) (f : ℕ → Enemy) → ((k : ℕ) → k < n → alive (f k) ≡ true) → live n f ≡ n
unfolding live
all_alive zero f h = refl
all_alive (suc n) f h =
    rw (h n (omega arith), all_alive n f (λ k hk. h k (omega arith))) (omega arith)

from_zero : (n k : ℕ) → k < n → k < 0 + n
from_zero n k h = omega arith

-- A new round begins with all its enemies alive, and counted.
pub start_round-Balanced :
    (round : ℕ) (w : World) → w.logic.score ≤ max_score → Balanced (logic_start_round round w)
unfolding Balanced logic_start_round
start_round-Balanced round w h =
    let n = enemies_of_round round in
    let new =
      λ (k : ℕ) (hk : k < n). spawned-New n 0 k w.logic.enemies (omega arith) (from_zero n k hk) in
    record {
      stage = refl;
      size = refl;
      bounded = h;
      remaining =
          ap pos (sym (all_alive n (spawn_enemies n 0 w.logic.enemies) (λ k hk. (new k hk).0)));
      quiet = λ k hk. (new k hk).1;
    }

transition-Balanced : (w : World) → Balanced w → Balanced (logic_transition_to_next_round w)
unfolding Balanced logic_transition_to_next_round
transition-Balanced w c =
    let s : GameLogicState = record (w.logic) { round = w.logic.round + 1 } in
    both Balanced (ltb max_rounds s.round)
      (record {
        stage = refl;
        size = refl;
        bounded = c.bounded;
        remaining = c.remaining;
        quiet = c.quiet;
      })
      (start_round-Balanced s.round (record w { logic = s }) c.bounded)

timer-Balanced : (t : ℕ) (w : World) → Balanced w → Balanced (set_timer t w)
unfolding Balanced
timer-Balanced t w c = record {
  stage = refl;
  size = refl;
  bounded = c.bounded;
  remaining = c.remaining;
  quiet = c.quiet;
}

pub ticked : World → World
ticked w = record w { logic = record (w.logic) { time_elapsed = w.logic.time_elapsed + 1 } }

-- what the player, the enemies and the rocks have done in a tick, before the round is judged
pub acted : (ℕ → ℕ) → World → World
acted clock w = logic_update_rocks (logic_update_enemies clock (logic_update_player (ticked w)))

pub acted-Counted :
    (clock : ℕ → ℕ) (w : World)
    → Balanced w
    → Counted w.logic.scene w.logic.enemy_count (acted clock w).logic
unfolding Balanced acted ticked
acted-Counted clock w c =
    let n = w.logic.enemy_count in
    let stage = w.logic.scene in
    update_rocks-Counted stage n _ (
      update_enemies-Counted stage n clock _ (
        update_player-Fair stage n (ticked w) (record {
          stage = refl;
          size = refl;
          bounded = c.bounded;
          remaining = c.remaining;
          quiet = c.quiet;
        })))

-- A tick of play is what the entities do, judged.
pub play-acted :
    (clock : ℕ → ℕ) (w : World)
    → play clock w ≡ record (acted clock w) {
      logic =
          logic_check_game_over
            (logic_check_round_complete (clock max_enemies) (acted clock w).logic);
    }
unfolding play acted ticked
play-acted clock w = refl

play-Balanced : (clock : ℕ → ℕ) (w : World) → Balanced w → Balanced (play clock w)
unfolding Balanced play acted ticked
play-Balanced clock w c =
    let n = w.logic.enemy_count in
    let s2 = (acted clock w).logic in
    let s3 = logic_check_round_complete (clock max_enemies) s2 in
    let last =
      game_over-Counted s3.scene n s3
        (round_complete-Counted w.logic.scene n (clock max_enemies) s2 (acted-Counted clock w c)) in
    subst (λ k. Counted (logic_check_game_over s3).scene k (logic_check_game_over s3))
      (sym last.size) last

waits-Balanced :
    (w : World)
    → Balanced w
    → Balanced (wait_clear w) × (Balanced (wait_start w) × Balanced (wait_respawn w))
unfolding Balanced wait_clear wait_start wait_respawn logic_player_respawn
waits-Balanced w c =
    let t = w.logic.round_start_timer in
    let ticked = timer-Balanced (t - 1) w c in
    let s : GameLogicState = record (w.logic) { round_start_timer = t - 1 } in
    (
      both Balanced (ltb 0 t)
          (both Balanced (t - 1 == 0) (transition-Balanced (set_timer (t - 1) w) ticked) ticked) c,
      (
        both Balanced (ltb 0 t)
            (both Balanced (t - 1 == 0)
              (record {
                stage = refl;
                size = refl;
                bounded = c.bounded;
                remaining = c.remaining;
                quiet = c.quiet;
              })
              ticked)
            c,
        both Balanced _
            (record {
              stage = refl;
              size = refl;
              bounded = c.bounded;
              remaining = c.remaining;
              quiet = c.quiet;
            })
            ticked,
      ),
    )

-- If `enemies_remaining` counts the live enemies, no active enemy is a dead one and the score is
-- at most 99999, then this is so after an update of any scene, whatever the clock says.
pub logic_update-Balanced :
    (clock : ℕ → ℕ) (w : World) → Balanced w → Balanced (logic_update clock w)
unfolding logic_update update_scene
logic_update-Balanced clock w c = go w.logic.scene
  where
    go : (scene : GameScene) → Balanced (update_scene scene clock w)
    go scene_playing =
        both Balanced (ltb 0 w.logic.round_start_timer) (waits-Balanced w c).1.1
          (play-Balanced clock w c)
    go scene_round_clear = (waits-Balanced w c).0
    go scene_round_start = (waits-Balanced w c).1.0
    go scene_menu = c
    go scene_paused = c
    go scene_game_over = c
    go scene_victory = c
    go scene_credits = c
