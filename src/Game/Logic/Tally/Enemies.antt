-- ===== src/Game/Logic/Tally/Enemies.antt =====
-- The enemies' part of the update keeps the tally of the round.
use soa_fib.Base.{
  ℕ, zero, suc, ◌+◌, ◌≤◌, ◌<◌, ◌≡◌, refl, ap, sym, ◌∙◌, Bool, true, false, not, ◌&&◌, ◌==◌, ltb,
  arith, Bool-cases, if◌then◌else◌, both, update_self, inl, inr,
}
use soa_fib.Base.Int.{pos, pos_part, ◌-ℤ◌, leb_ℤ, ltb_ℤ}
use soa_fib.Game.Types.{Direction, dir_code, dir_left, dir_right, row_border}
use soa_fib.Game.Map.{map_is_valid_position, map_is_walkable}
use soa_fib.Game.Entities.{next_position}
use soa_fib.Game.Logic.State.{
  Enemy, GameScene, GameLogicState, World, enemy_code, kind_code, ghost_mode_threshold,
  fygar_fire_duration, fygar_fire_cooldown,
}
use soa_fib.Game.Logic.Path.{logic_find_path_bfs}
use soa_fib.Game.Logic.Score.{alive, put_enemy, logic_player_die}
use soa_fib.Game.Logic.Player.{has_rock_at}
use soa_fib.Game.Logic.Enemies.{
  logic_try_enemy_move, logic_get_random_direction, logic_enemy_move_towards_player,
  logic_enemy_ghost_mode, logic_enemy_ai, logic_can_see_player, logic_enemy_deflate,
  logic_check_fire_collision, has_room, other_side, start_fire, logic_fygar_fire, blink_enemy,
  walk_enemy, drive_enemy, update_enemy, update_enemies_from, logic_update_enemies,
}
use soa_fib.Game.Logic.Tally.{Counted, settled, put_enemy-Counted, kill_enemy-Counted}

abbrev Alive : Enemy → Type 0
Alive e = alive e ≡ true

active_of : (e : Enemy) → Alive e → (not (e.base.active == 0) && true) ≡ true
active_of e h = ground (arith, h)

settled_of : (e : Enemy) → Alive e → settled e ≡ true
settled_of e h = ground (arith, h)

try_move-Alive :
    (e : Enemy) (d : Direction) (w : World) → Alive e → Alive (logic_try_enemy_move e d w).1
unfolding logic_try_enemy_move
try_move-Alive e d w h =
    let p = next_position e.base.pos_of d in
    let P = λ (r : Bool × Enemy). Alive r.1 in
    both P (dir_code d == 0) h (
      both P (not (map_is_valid_position p.x p.y)) h (
        both P (has_rock_at p w.logic) h
          (both P (leb_ℤ (pos row_border) p.y) h (both P (map_is_walkable p.x p.y w.map) h h))))

towards-Alive : (e : Enemy) (w : World) → Alive e → Alive (logic_enemy_move_towards_player e w)
unfolding logic_enemy_move_towards_player
towards-Alive e w h =
    let best = logic_find_path_bfs e.base.pos_of w.logic.player.base.pos_of false w.map in
    both Alive (not (dir_code best == 0) && (logic_try_enemy_move e best w).0)
      (try_move-Alive e best w h)
      (both Alive (not (dir_code (logic_get_random_direction e w) == 0))
        (try_move-Alive e (logic_get_random_direction e w) w h) h)

ghost-Alive : (e : Enemy) (w : World) → Alive e → Alive (logic_enemy_ghost_mode e w)
unfolding logic_enemy_ghost_mode
ghost-Alive e w h =
    let here = e.base.pos_of in
    let on_tunnel = map_is_walkable here.x here.y w.map in
    let left = not (e.has_left_tunnel == 0) in
    let best = logic_find_path_bfs here w.logic.player.base.pos_of true w.map in
    let p = next_position here best in
    let e1 = if not on_tunnel && not left then record e { has_left_tunnel = 1 } else e in
    let start = both Alive (not on_tunnel && not left) h h in
    both Alive (on_tunnel && left) (active_of e h) (
      both Alive (dir_code best == 0) start (
        both Alive (map_is_valid_position p.x p.y)
          (both Alive (map_is_walkable p.x p.y w.map && not (e1.has_left_tunnel == 0))
            (active_of e1 start) start)
          start))

fire-Alive : (time : ℕ) (f : Enemy) (w : World) → Alive f → Alive (logic_fygar_fire time f w).0
unfolding logic_fygar_fire start_fire
fire-Alive time f w h =
    let P = λ (r : Enemy × GameLogicState). Alive r.0 in
    let dir =
      if leb_ℤ (pos 0) (w.logic.player.base.pos_of.x -ℤ f.base.pos_of.x)
      then dir_right
      else dir_left in
    both P (not (kind_code f.base.kind == 3)) h (
      both P (not (f.fire_active == 0))
        (both P (leb_ℤ (pos fygar_fire_duration) (pos time -ℤ pos f.fire_start_time)) h h)
        (both P
          (ltb 0 f.fire_end_time
            && ltb_ℤ (pos time -ℤ pos f.fire_end_time) (pos fygar_fire_cooldown))
          h
          (both Alive (has_room f dir w.map) h
            (both Alive (has_room f (other_side dir) w.map) h h))))

module _ (scene : GameScene) where
  -- a state in which the player may have died, and nothing else has changed
  record Burnt (s t : GameLogicState) : Type 0 where
    stage : t.scene ≡ s.scene
    count : t.enemy_count ≡ s.enemy_count
    score : t.score ≡ s.score
    remaining : t.enemies_remaining ≡ s.enemies_remaining
    enemies : t.enemies ≡ s.enemies

  fire-Burnt : (time : ℕ) (f : Enemy) (w : World) → Burnt w.logic (logic_fygar_fire time f w).1
  unfolding logic_fygar_fire logic_player_die
  fire-Burnt time f w =
      let s = w.logic in
      let P = λ (r : Enemy × GameLogicState). Burnt s r.1 in
      let same : Burnt s s = record {
        stage = refl;
        count = refl;
        score = refl;
        remaining = refl;
        enemies = refl;
      } in
      both P (not (kind_code f.base.kind == 3)) same (
        both P (not (f.fire_active == 0))
          (both P (leb_ℤ (pos fygar_fire_duration) (pos time -ℤ pos f.fire_start_time)) same (
            both (Burnt s) (logic_check_fire_collision f s.player)
              (record {
                stage = refl;
                count = refl;
                score = refl;
                remaining = refl;
                enemies = refl;
              })
              same))
          (both P
            (ltb 0 f.fire_end_time
              && ltb_ℤ (pos time -ℤ pos f.fire_end_time) (pos fygar_fire_cooldown))
            same same))

  Burnt-Counted : (n : ℕ) (s t : GameLogicState) → Burnt s t → Counted scene n s → Counted scene n t
  Burnt-Counted n s t b c = record {
    stage = b.stage ∙ c.stage;
    size = b.count ∙ c.size;
    bounded = rw b.score c.bounded;
    remaining = rw (b.remaining, b.enemies) c.remaining;
    quiet = rw b.enemies c.quiet;
  }

  deflate-Alive : (e : Enemy) → Alive e → Alive (logic_enemy_deflate e)
  unfolding logic_enemy_deflate
  deflate-Alive e h =
      both Alive (not (enemy_code e.state == 2)) h
        (both Alive (leb_ℤ (e.inflate_level -ℤ pos 1) (pos 0)) (active_of e h) h)

  ai-Alive : (e : Enemy) (w : World) → Alive e → Alive (logic_enemy_ai e w)
  unfolding logic_enemy_ai
  ai-Alive e w h = both Alive (enemy_code e.state == 1) (ghost-Alive e w h) (towards-Alive e w h)

  walk-Alive : (e : Enemy) (w : World) → Alive e → Alive (walk_enemy e w)
  unfolding walk_enemy
  walk-Alive e w h =
      let e1 = logic_enemy_ai e w in
      let h1 = ai-Alive e w h in
      let e2 : Enemy = record e1 {
        base = record (e1.base) { speed_counter = pos_part e1.base.speed_limit };
        ghost_timer = e1.ghost_timer + 1;
      } in
      both Alive
        (ltb ghost_mode_threshold e2.ghost_timer
          && (enemy_code e2.state == 0)
          && not (logic_can_see_player e2 w))
        (active_of e1 h1) h1

  module _ (n i : ℕ) (hi : i < n) where
    -- a live enemy put back alive
    put_back :
        (e : Enemy) (s : GameLogicState)
        → Alive (s.enemies i)
        → Alive e
        → Counted scene n s
        → Counted scene n (put_enemy i e s)
    put_back e s was is c = put_enemy-Counted scene n i e s hi (is ∙ sym was) (settled_of e is) c

    blink-Counted :
        (s : GameLogicState)
        → Alive (s.enemies i)
        → Counted scene n s
        → Counted scene n (blink_enemy i s)
    unfolding blink_enemy
    blink-Counted s h c =
        let e = s.enemies i in
        let count = e.blink_count -ℤ pos 1 in
        let blinked : Enemy = record e { blink_count = count } in
        both (Counted scene n) (ltb 0 e.paralyzed_timer) (put_back _ s h h c) (
          both (Counted scene n) (leb_ℤ count (pos 0))
            (kill_enemy-Counted scene n i 1 (put_enemy i blinked s) hi
              (ap alive (update_self s.enemies i blinked) ∙ h) (put_back blinked s h h c))
            (put_back _ s h h c))

    drive-Counted :
        (time : ℕ) (w : World)
        → Alive (w.logic.enemies i)
        → Counted scene n w.logic
        → Counted scene n (drive_enemy time i w)
    unfolding drive_enemy
    drive-Counted time w h c =
        let s = w.logic in
        let e = s.enemies i in
        let f = (logic_fygar_fire time e w).0 in
        let s1 = (logic_fygar_fire time e w).1 in
        let burnt = fire-Burnt time e w in
        let c1 = Burnt-Counted n s s1 burnt c in
        let h1 : Alive (s1.enemies i) = ap (λ g. alive (g i)) burnt.enemies ∙ h in
        let hf = fire-Alive time e w h in
        both (Counted scene n) (ltb 0 e.base.speed_counter) (put_back _ s h h c) (
          both (Counted scene n) (kind_code e.base.kind == 3)
            (both (Counted scene n) (not (e.fire_active == 0)) (put_back f s1 h1 hf c1) (
              both (Counted scene n) (not (f.fire_active == 0)) (put_back f s1 h1 hf c1)
                (put_back _ s1 h1 (walk-Alive f (record w { logic = s1 }) hf) c1)))
            (put_back _ s h (walk-Alive e w h) c))

    update_enemy-Counted :
        (time : ℕ) (w : World) → Counted scene n w.logic → Counted scene n (update_enemy time i w)
    unfolding update_enemy
    update_enemy-Counted time w c =
        let s = w.logic in
        let e = s.enemies i in
        elim (Bool-cases (alive e)) [
          | inr h ↦ rw h c
          | inl h ↦ rw h (
              both (Counted scene n) (enemy_code e.state == 3) (blink-Counted s h c) (
                both (Counted scene n) (enemy_code e.state == 2)
                  (both (Counted scene n) (s.player.is_pumping == 0)
                    (put_back _ s h (deflate-Alive e h) c) c)
                  (drive-Counted time w h c)))
        ]

  update_from-Counted :
      (n k i : ℕ) (clock : ℕ → ℕ) (w : World)
      → i + k ≤ n
      → Counted scene n w.logic
      → Counted scene n (update_enemies_from k i clock w).logic
  unfolding update_enemies_from
  update_from-Counted n zero i clock w h c = c
  update_from-Counted n (suc k) i clock w h c =
      update_from-Counted n k (i + 1) clock _ (omega arith)
        (update_enemy-Counted n i (omega arith) (clock i) w c)

  pub update_enemies-Counted :
      (n : ℕ) (clock : ℕ → ℕ) (w : World)
      → Counted scene n w.logic
      → Counted scene n (logic_update_enemies clock w).logic
  unfolding logic_update_enemies
  update_enemies-Counted n clock w c =
      let size = c.size in
      update_from-Counted n w.logic.enemy_count 0 clock w (omega (arith, size)) c
