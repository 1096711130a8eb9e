-- ===== src/Game/Logic/Scenes.antt =====
-- The scenes of the game as a diagram, each change with what calls for it.
use soa_fib.Base.{
  ℕ, suc, ◌+◌, ◌-◌, ◌≤◌, ◌<◌, ◌≡◌, refl, ap, sym, ◌∙◌, true, false, ◌==◌, ltb, arith, Bool-cases,
  if◌then◌else◌, inl, inr, List, [], ◌∷◌, length,
}
use soa_fib.Base.Int.{pos, ◌≤ℤ◌}
use soa_fib.Game.Logic.State.{
  GameScene, scene_playing, scene_game_over, scene_round_clear, scene_round_start, scene_victory,
  GameLogicState, World, max_rounds, round_start_delay,
}
use soa_fib.Game.Logic.Setup.{logic_start_round}
use soa_fib.Game.Logic.Update.{wait_start, update_scene, logic_update}
use soa_fib.Game.Logic.Tally.{live}

-- the changes of scene in an update that ends in state t
pub data Turn (t : GameLogicState) : GameScene → GameScene → Type 0 where
  stays : {s : GameScene} → Turn t s s
  begins : t.round_start_timer ≡ 0 → Turn t scene_round_start scene_playing
  clears :
      live t.enemy_count t.enemies ≡ 0
      → t.round < max_rounds
      → Turn t scene_playing scene_round_clear
  wins :
      live t.enemy_count t.enemies ≡ 0 → max_rounds ≤ t.round → Turn t scene_playing scene_victory
  loses : t.lives ≤ℤ pos 0 → Turn t scene_playing scene_game_over
  goes_on : t.round ≤ max_rounds → Turn t scene_round_clear scene_round_start
  ends : max_rounds < t.round → Turn t scene_round_clear scene_game_over

-- updates one after the other, each with its readings of the clock
abbrev pub updates : List (ℕ → ℕ) → World → World
updates [] w = w
updates (clock ∷ clocks) w = updates clocks (logic_update clock w)

-- the start of a round with t ticks to wait, which is over when t is 0
abbrev pub starting : ℕ → World → World
starting t w = record w {
  logic = record (w.logic) {
    round_start_timer = t;
    scene = if t == 0 then scene_playing else scene_round_start;
  };
}

later : (t : ℕ) → (suc t == 0) ≡ false
later t = ground arith

ticking : (t : ℕ) → ltb 0 (suc t) ≡ true
ticking t = ground arith

one_less : (t : ℕ) → suc t - 1 ≡ t
one_less t = omega arith

shift : (n t : ℕ) → suc n + t ≡ suc (n + t)
shift n t = omega arith

starting-update :
    (clock : ℕ → ℕ) (t : ℕ) (w : World) → logic_update clock (starting (suc t) w) ≡ starting t w
unfolding logic_update update_scene wait_start
starting-update clock t w =
    rw (later t, ticking t, one_less t)
      (elim (Bool-cases (t == 0)) [ inl e ↦ rw e refl | inr e ↦ rw e refl ])

-- However the clock runs, updates only let the time of a round's start go by: the round that
-- logic_start_round sets up is played after 160 updates, and after fewer it still waits for the
-- rest of them, and nothing else changes.
pub start_round-updates :
    (round : ℕ) (w : World) (clocks : List (ℕ → ℕ)) (t : ℕ)
    → length clocks + t ≡ round_start_delay
    → updates clocks (logic_start_round round w) ≡ starting t (logic_start_round round w)
unfolding logic_start_round
start_round-updates round w clocks t h =
    ap (λ n. updates clocks (starting n (logic_start_round round w))) (sym h)
    ∙ go clocks t (logic_start_round round w)
  where
    go :
        (clocks : List (ℕ → ℕ)) (t : ℕ) (w : World)
        → updates clocks (starting (length clocks + t) w) ≡ starting t w
    go [] t w = ap (λ n. starting n w) (omega arith)
    go (clock ∷ clocks) t w =
        ap (λ n. updates clocks (logic_update clock (starting n w))) (shift (length clocks) t)
        ∙ ap (updates clocks) (starting-update clock (length clocks + t) w)
        ∙ go clocks t w
