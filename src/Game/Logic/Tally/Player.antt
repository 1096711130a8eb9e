-- ===== src/Game/Logic/Tally/Player.antt =====
-- The player's part of the update keeps the tally of the round.
use soa_fib.Base.{
  ℕ, zero, suc, ◌+◌, ◌≤◌, ◌<◌, ◌≡◌, refl, sym, subst, ◌∙◌, Bool, true, not, ◌&&◌, ◌==◌, ltb, arith,
  Bool-cases, if◌then◌else◌, both, inl, inr, Option, none, some,
}
use soa_fib.Base.Int.{pos, leb_ℤ, ltb_ℤ}
use soa_fib.Game.Types.{Direction, dir_code, Position, row_border, row_sky_end, tile_bonus}
use soa_fib.Game.Map.{
  Map, tile_is, map_get_tile, map_is_valid_position, map_is_walkable, map_is_diggable,
}
use soa_fib.Game.Entities.{next_position}
use soa_fib.Game.Logic.State.{
  Player, Enemy, GameScene, GameLogicState, World, player_code, player_pumping, enemy_inflating,
  enemy_paralyzed, enemy_code, max_pump_length,
}
use soa_fib.Game.Logic.Path.{same_position}
use soa_fib.Game.Logic.Score.{alive, logic_player_die}
use soa_fib.Game.Logic.Player.{
  has_rock_at, logic_player_move, logic_player_attack, attack_cells, attack_cell, ahead,
  attack_range, attack_path_clear, paralyze_at, logic_player_pump, logic_check_pump_hit,
  pump_hit_from, cool_down, attack_step, enemy_at_from, collect_bonus, inflate_hit, move_step,
  pump_step, enemy_collision, rock_collision, logic_update_player,
  logic_check_player_enemy_collision, logic_check_player_rock_collision, player_cell, falls,
}
use soa_fib.Game.Logic.Tally.{
  Counted, settled, each-Counted, add_score-Counted, inflate-Counted, die-Counted,
}

module _ (scene : GameScene) where
  abbrev Fair : ℕ → World → Type 0
  Fair n w = Counted scene n w.logic

  with_player :
      (n : ℕ) (p : Player) (s : GameLogicState)
      → Counted scene n s
      → Counted scene n (record s { player = p })
  with_player n p s c = record {
    stage = c.stage;
    size = c.size;
    bounded = c.bounded;
    remaining = c.remaining;
    quiet = c.quiet;
  }

  pub move-Fair : (n : ℕ) (d : Direction) (w : World) → Fair n w → Fair n (logic_player_move d w)
  unfolding logic_player_move
  move-Fair n d w c =
      let player = w.logic.player in
      let p = next_position player.base.pos_of d in
      let faced = with_player n (record player { facing_dir = d }) w.logic c in
      both (Fair n) (player.base.active == 0) c (
        both (Fair n) (dir_code d == 0) c (
          both (Fair n) (not (map_is_valid_position p.x p.y)) faced (
            both (Fair n) (ltb_ℤ p.y (pos row_sky_end)) faced (
              both (Fair n) (leb_ℤ (pos row_border) p.y) faced (
                both (Fair n) (has_rock_at p w.logic) faced (
                  both (Fair n) (map_is_diggable p.x p.y w.map) (with_player n _ w.logic c) (
                    both (Fair n) (map_is_walkable p.x p.y w.map) (with_player n _ w.logic c)
                      faced)))))))

  -- the harpoon changes no enemy's life at once
  abbrev Steady : Enemy → Enemy → Type 0
  Steady e e' = (alive e' ≡ alive e) × (settled e' ≡ true)

  paralyze_at-Steady : (p : Position) (e : Enemy) → settled e ≡ true → Steady e (paralyze_at p e)
  unfolding paralyze_at
  paralyze_at-Steady p e h =
      both (Steady e) (e.base.active == 0) (refl, h)
        (both (Steady e) (enemy_code e.state == 3) (refl, h)
          (both (Steady e) (same_position e.base.pos_of p) (ground (arith, h), ground arith)
            (refl, h)))

  attack_cells-Steady :
      (k i n : ℕ) (p : Position) (d : Direction) (f g : ℕ → Enemy)
      → ((j : ℕ) → j < n → Steady (f j) (g j))
      → (j : ℕ) → j < n
      → Steady (f j) (attack_cells k i n p d g j)
  unfolding attack_cells attack_cell
  attack_cells-Steady zero i n p d f g h j hj = h j hj
  attack_cells-Steady (suc k) i n p d f g h j hj =
      attack_cells-Steady k (i + 1) n p d f _
        (λ l hl.
          let (same, quiet) = h l hl in
          let now = paralyze_at-Steady (ahead p d i) (g l) quiet in
          both (Steady (f l)) (ltb l n) (now.0 ∙ same, now.1) (same, quiet))
        j hj

  pub attack-Fair : (n : ℕ) (w : World) → Fair n w → Fair n (logic_player_attack w).1
  unfolding logic_player_attack
  attack-Fair n w c =
      let s = w.logic in
      let player = s.player in
      let dir = player.facing_dir in
      let p = player.base.pos_of in
      let clear = attack_path_clear p dir (attack_range dir) w.map in
      let hit =
        attack_cells-Steady clear 1 s.enemy_count p dir s.enemies s.enemies
          (λ j hj. (refl, c.quiet j (let size = c.size in omega (arith, size)))) in
      let below = λ (k : ℕ) (hk : k < n). let size = c.size in hit k (omega (arith, size)) in
      both (λ (r : Bool × World). Fair n r.1) (player_code player.state == 5) c
        (both (λ (r : Bool × World). Fair n r.1) (dir_code dir == 0) c
          (both (λ (r : Bool × World). Fair n r.1) (clear == 0) c
            (with_player n _ _ (
              each-Counted scene n (attack_cells clear 1 s.enemy_count p dir s.enemies) s
                (λ k hk. (below k hk).0) (λ k hk. (below k hk).1) c))))

  -- a live enemy's number, if any
  pub Hit : ℕ → (ℕ → Enemy) → Option ℕ → Type 0
  Hit n f none = Unit
  Hit n f (some j) = (j < n) × (alive (f j) ≡ true)

  enemy_at_from-Hit :
      (n k i : ℕ) (p : Position) (f : ℕ → Enemy) → i + k ≤ n → Hit n f (enemy_at_from k i p f)
  unfolding enemy_at_from Hit
  enemy_at_from-Hit n zero i p f h = tt
  enemy_at_from-Hit n (suc k) i p f h =
      let rest = enemy_at_from-Hit n k (i + 1) p f (omega arith) in
      elim (Bool-cases (alive (f i) && same_position (f i).base.pos_of p)) [
        | inl e ↦ rw e (omega arith, first _ (same_position (f i).base.pos_of p) e)
        | inr e ↦ rw e rest
      ]
    where
      first : (a b : Bool) → (a && b) ≡ true → a ≡ true
      first a b e = ground (arith, e)

  pump_hit_from-Hit :
      (n k : ℕ) (p : Position) (d : Direction) (f : ℕ → Enemy) (m : Map)
      → Hit n f (pump_hit_from k p d f n m)
  unfolding pump_hit_from Hit
  pump_hit_from-Hit n zero p d f m = tt
  pump_hit_from-Hit n (suc k) p d f m =
      let q = next_position p d in
      go _ (enemy_at_from n 0 q f) (enemy_at_from-Hit n n 0 q f (omega arith))
        (both (Hit n f) (not (map_is_walkable q.x q.y m)) tt (pump_hit_from-Hit n k q d f m))
    where
      go :
          (rest r : Option ℕ)
          → Hit n f r
          → Hit n f rest
          → Hit n f (elim r [ some j ↦ some j | none ↦ rest ])
      go rest none h kept = kept
      go rest (some j) h kept = h

  pump-Fair : (n : ℕ) (w : World) → Fair n w → Fair n (logic_player_pump w)
  unfolding logic_player_pump logic_check_pump_hit Hit
  pump-Fair n w c =
      let player = w.logic.player in
      let pumping : Player = record player {
        is_pumping = 1;
        state = player_pumping;
        pump_dir = player.base.dir;
        pump_length =
            if ltb player.pump_length max_pump_length
            then player.pump_length + 1
            else player.pump_length;
      } in
      let f = w.logic.enemies in
      let count = w.logic.enemy_count in
      go _ (with_player n pumping w.logic c)
        (pump_hit_from pumping.pump_length player.base.pos_of player.base.dir f count w.map)
        (subst
          (λ k.
            Hit n f
              (pump_hit_from pumping.pump_length player.base.pos_of player.base.dir f k w.map))
          (sym c.size) (pump_hit_from-Hit n _ player.base.pos_of player.base.dir f w.map))
    where
      go :
          (s : GameLogicState)
          → Counted scene n s
          → (r : Option ℕ) → Hit n s.enemies r
          → Counted scene n (inflate_hit r s)
      go s c none h = c
      go s c (some i) h = inflate-Counted scene n i s h.0 h.1 c

  collect_bonus-Fair : (n : ℕ) (w : World) → Fair n w → Fair n (collect_bonus w)
  unfolding collect_bonus
  collect_bonus-Fair n w c =
      let p = player_cell w in
      both (Fair n) (tile_is (map_get_tile p.x p.y w.map) tile_bonus)
        (add_score-Counted scene n 100 w.logic c) c

  move_step-Fair : (n : ℕ) (w : World) → Fair n w → Fair n (move_step w)
  unfolding move_step
  move_step-Fair n w c =
      let base = w.logic.player.base in
      both (Fair n) (dir_code base.dir == 0) c (
        both (Fair n) (base.speed_counter == 0)
          (with_player n _ _
            (collect_bonus-Fair n _ (with_player n _ _ (move-Fair n base.dir w c))))
          (with_player n _ _ c))

  pump_step-Fair : (n action : ℕ) (w : World) → Fair n w → Fair n (pump_step action w)
  unfolding pump_step
  pump_step-Fair n action w c =
      both (Fair n) (not (action == 0)) (pump-Fair n w c)
        (both (Fair n) (not (w.logic.player.is_pumping == 0)) (with_player n _ _ c) c)

  enemy_collision-Counted :
      (n : ℕ) (s : GameLogicState) → Counted scene n s → Counted scene n (enemy_collision s)
  unfolding enemy_collision
  enemy_collision-Counted n s c =
      go (logic_check_player_enemy_collision s.player s.enemies s.enemy_count)
    where
      go :
          (r : Option ℕ)
          → Counted scene n (elim r [
            | none ↦ s
            | some i ↦
                let c = enemy_code (s.enemies i).state in
                if not (c == enemy_code enemy_inflating) && not (c == enemy_code enemy_paralyzed)
                then logic_player_die s
                else s
          ])
      go none = c
      go (some i) = both (Counted scene n) _ (die-Counted scene n s c) c

  rock_collision-Counted :
      (n : ℕ) (s : GameLogicState) → Counted scene n s → Counted scene n (rock_collision s)
  unfolding rock_collision
  rock_collision-Counted n s c =
      go (logic_check_player_rock_collision s.player s.rocks s.rock_count)
    where
      go :
          (r : Option ℕ)
          → Counted scene n (elim r [
            | none ↦ s
            | some i ↦ if falls (s.rocks i).state then logic_player_die s else s
          ])
      go none = c
      go (some i) = both (Counted scene n) (falls (s.rocks i).state) (die-Counted scene n s c) c

  pub update_player-Fair : (n : ℕ) (w : World) → Fair n w → Fair n (logic_update_player w)
  unfolding logic_update_player
  update_player-Fair n w c =
      let w1 = move_step w in
      let cool = cool_down w1.logic.player in
      both (Fair n) (player_code w.logic.player.state == 5) c (
        rock_collision-Counted n _ (
          enemy_collision-Counted n _ (
            pump_step-Fair n w.logic.player.is_pumping _
              (with_player n (attack_step cool) _ (with_player n cool _ (move_step-Fair n w c))))))
