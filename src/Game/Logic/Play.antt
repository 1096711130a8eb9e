-- ===== src/Game/Logic/Play.antt =====
-- The states that the rules can be in under any sequence of calls: those that game.c makes, and the
-- start of a round by `logic_start_round`, which game.c leaves to `data_load_level`.
use soa_fib.Base.{ℕ, ◌==◌, if◌then◌else◌, ◌≤◌, ◌≡◌, refl, sym, subst, ◌∙◌, some, arith}
use mathlib.Core.Option.{some-injective}
use soa_fib.Game.Data.Load.{data_load_level, load_level-Balanced}
use soa_fib.Game.Types.{Direction, dir_code}
use soa_fib.Game.Logic.State.{GameLogicState, World, max_score, attack_display_time, GameScene}
use soa_fib.Game.Logic.Setup.{logic_init, logic_start_round}
use soa_fib.Game.Logic.Score.{logic_dev_kill_enemy}
use soa_fib.Game.Logic.Player.{logic_player_attack, put_player}
use soa_fib.Game.Logic.Update.{logic_update}
use soa_fib.Game.Logic.Tally.{Counted, dev_kill-Counted}
use soa_fib.Game.Logic.Tally.Player.{attack-Fair}
use soa_fib.Game.Logic.Tally.Update.{Balanced, start_round-Balanced, logic_update-Balanced}

-- the input that game.c hands over: the direction and the pump
abbrev pub steer : Direction → ℕ → World → World
steer dir pumping w = record w {
  logic = record (w.logic) {
    player = record (w.logic.player) {
      base = record (w.logic.player.base) {
        dir = if dir_code dir == 0 then w.logic.player.base.dir else dir;
      };
      is_pumping = pumping;
    };
  };
}

-- a harpoon that is out stays out while its key is held
abbrev pub hold_attack : World → World
hold_attack w =
    let player = w.logic.player in
    put_player
      (if player.is_attacking == 0
        then player
        else record player { attack_timer = attack_display_time })
      w

abbrev pub set_scene : GameScene → World → World
set_scene scene w = record w { logic = record (w.logic) { scene = scene } }

-- the worlds that calls of the rules come to, from `logic_init` and the load or start of a round on
pub data Play : World → Type 0 where
  starts :
      (round : ℕ) (w : World)
      → Play (logic_start_round round (record w { logic = logic_init w.logic }))
  loads_first :
      {w' : World} (round : ℕ) (w : World)
      → data_load_level round (record w { logic = logic_init w.logic }) ≡ some w'
      → Play w'
  loads : {w w' : World} → Play w → (round : ℕ) → data_load_level round w ≡ some w' → Play w'
  restarts : {w : World} → Play w → (round : ℕ) → Play (logic_start_round round w)
  steers : {w : World} → Play w → (dir : Direction) (pumping : ℕ) → Play (steer dir pumping w)
  attacks : {w : World} → Play w → Play (logic_player_attack w).1
  holds : {w : World} → Play w → Play (hold_attack w)
  kills : {w : World} → Play w → Play (record w { logic = (logic_dev_kill_enemy w.logic).1 })
  switches : {w : World} → Play w → (scene : GameScene) → Play (set_scene scene w)
  updated : {w : World} → Play w → (clock : ℕ → ℕ) → Play (logic_update clock w)

pub init-bounded : (w : World) → (logic_init w.logic).score ≤ max_score
unfolding logic_init
init-bounded w = omega arith

-- a change that the tally does not see
pub unseen :
    (s t : GameLogicState)
    → t.enemy_count ≡ s.enemy_count
    → t.score ≡ s.score
    → t.enemies_remaining ≡ s.enemies_remaining
    → t.enemies ≡ s.enemies
    → Counted s.scene s.enemy_count s
    → Counted t.scene t.enemy_count t
unseen s t a b d e c = record {
  stage = refl;
  size = refl;
  bounded = rw b c.bounded;
  remaining = rw (d, e, a) c.remaining;
  quiet = rw (e, a) c.quiet;
}

pub settle :
    {scene : GameScene} {n : ℕ} {s : GameLogicState}
    → Counted scene n s
    → Counted s.scene s.enemy_count s
settle c = record {
  stage = refl;
  size = refl;
  bounded = c.bounded;
  remaining = rw c.size c.remaining;
  quiet = rw c.size c.quiet;
}

loaded-Balanced :
    (round : ℕ) (w w' : World)
    → w.logic.score ≤ max_score
    → data_load_level round w ≡ some w'
    → Balanced w'
loaded-Balanced round w w' h e =
    let (v, (same, (b, _))) = load_level-Balanced round w h in
    subst Balanced (some-injective v w' (sym same ∙ e)) b

-- In every world that comes from `logic_init` by loading levels, starting rounds, steering,
-- attacking, the developer's key, changes of scene and updates, in any order and by any clock,
-- `enemies_remaining` is the number of the live enemies, no active enemy is a dead one, and the
-- score is at most 99999. The first call after `logic_init` loads a level or starts a round.
pub Play-Balanced : (w : World) → Play w → Balanced w
unfolding Balanced
Play-Balanced w (starts round v) = start_round-Balanced round _ (init-bounded v)
Play-Balanced w (loads_first round v e) = loaded-Balanced round _ w (init-bounded v) e
Play-Balanced w (loads {w = v} p round e) = loaded-Balanced round v w (Play-Balanced v p).bounded e
Play-Balanced w (restarts {w = v} p round) =
    start_round-Balanced round v (Play-Balanced v p).bounded
Play-Balanced w (steers {w = v} p dir pumping) =
    unseen v.logic _ refl refl refl refl (Play-Balanced v p)
Play-Balanced w (attacks {w = v} p) =
    settle (attack-Fair v.logic.scene v.logic.enemy_count v (Play-Balanced v p))
Play-Balanced w (holds {w = v} p) = unseen v.logic _ refl refl refl refl (Play-Balanced v p)
Play-Balanced w (kills {w = v} p) =
    settle (dev_kill-Counted v.logic.scene v.logic.enemy_count v.logic (Play-Balanced v p))
Play-Balanced w (switches {w = v} p scene) =
    unseen v.logic _ refl refl refl refl (Play-Balanced v p)
Play-Balanced w (updated {w = v} p clock) = logic_update-Balanced clock v (Play-Balanced v p)
