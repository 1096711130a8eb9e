-- ===== src/Game/Logic/Tally/Rocks.antt =====
-- The rocks' part of the update keeps the tally of the round.
use soa_fib.Base.{
  ℕ, zero, suc, ◌+◌, ◌≤◌, Bool, false, not, ◌||◌, ◌==◌, arith, Bool-cases, both, inl, inr,
}
use soa_fib.Game.Types.{Position}
use soa_fib.Game.Map.{map_is_valid_position, map_is_solid}
use soa_fib.Game.Logic.State.{
  Rock, RockState, rock_stable, rock_wobbling, rock_falling, rock_landed, rock_blinking, GameScene,
  GameLogicState, World,
}
use soa_fib.Game.Logic.Path.{same_position}
use soa_fib.Game.Logic.Rocks.{
  below, crush_player, under_rock, crush_enemies, logic_check_rock_crush, logic_rock_fall,
  rock_turn, put_rock, update_rock, update_rocks_from, logic_update_rocks,
}
use soa_fib.Game.Logic.Tally.{Counted, kill_enemy-Counted, die-Counted}

module _ (scene : GameScene) where
  abbrev Fine : ℕ → Bool × GameLogicState → Type 0
  Fine n r = Counted scene n r.1

  crush_player-Fine :
      (n : ℕ) (p : Position) (r : Bool × GameLogicState) → Fine n r → Fine n (crush_player p r)
  unfolding crush_player
  crush_player-Fine n p (crushed, s) c =
      both (Fine n) (same_position s.player.base.pos_of p) (die-Counted scene n s c) c

  crush_enemies-Fine :
      (n k i : ℕ) (p : Position) (r : Bool × GameLogicState)
      → i + k ≤ n
      → Fine n r
      → Fine n (crush_enemies k i p r)
  unfolding crush_enemies
  crush_enemies-Fine n zero i p r h c = c
  crush_enemies-Fine n (suc k) i p (crushed, s) h c =
      crush_enemies-Fine n k (i + 1) p _ (omega arith)
        (elim (Bool-cases (under_rock p (s.enemies i))) [
          | inl e ↦ rw e (kill_enemy-Counted scene n i 2 s (omega arith) (ground (arith, e)) c)
          | inr e ↦ rw e c
        ])

  crush-Counted :
      (n : ℕ) (r : Rock) (s : GameLogicState)
      → Counted scene n s
      → Counted scene n (logic_check_rock_crush r s).1.1
  unfolding logic_check_rock_crush
  crush-Counted n r s c =
      let p = r.base.pos_of in
      let size = c.size in
      crush_enemies-Fine n s.enemy_count 0 p _ (omega (arith, size))
        (crush_player-Fine n (below p) _ (crush_player-Fine n p (false, s) c))

  fall-Counted :
      (n : ℕ) (r : Rock) (w : World)
      → Counted scene n w.logic
      → Counted scene n (logic_rock_fall r w).1
  unfolding logic_rock_fall
  fall-Counted n r w c =
      let p = below r.base.pos_of in
      both (λ (x : Rock × GameLogicState). Counted scene n x.1)
        (not (map_is_valid_position p.x p.y) || map_is_solid p.x p.y w.map) c
        (crush-Counted n r w.logic c)

  turn-Counted :
      (n : ℕ) (t : RockState) (r : Rock) (w : World)
      → Counted scene n w.logic
      → Counted scene n (rock_turn t r w).1
  unfolding rock_turn
  turn-Counted n rock_stable r w c = c
  turn-Counted n rock_wobbling r w c = c
  turn-Counted n rock_falling r w c = fall-Counted n r w c
  turn-Counted n rock_blinking r w c = c
  turn-Counted n rock_landed r w c = c

  put_rock-Counted :
      (n i : ℕ) (x : Rock × GameLogicState) → Counted scene n x.1 → Counted scene n (put_rock i x)
  put_rock-Counted n i (r, s) c = record {
    stage = c.stage;
    size = c.size;
    bounded = c.bounded;
    remaining = c.remaining;
    quiet = c.quiet;
  }

  update_from-Counted :
      (n k i : ℕ) (w : World)
      → Counted scene n w.logic
      → Counted scene n (update_rocks_from k i w).logic
  unfolding update_rocks_from update_rock
  update_from-Counted n zero i w c = c
  update_from-Counted n (suc k) i w c =
      let r = w.logic.rocks i in
      update_from-Counted n k (i + 1) _ (
        both (Counted scene n) (r.base.active == 0) c
          (put_rock-Counted n i (rock_turn r.state r w) (turn-Counted n r.state r w c)))

  pub update_rocks-Counted :
      (n : ℕ) (w : World) → Counted scene n w.logic → Counted scene n (logic_update_rocks w).logic
  unfolding logic_update_rocks
  update_rocks-Counted n w c = update_from-Counted n w.logic.rock_count 0 w c
