-- ===== src/Game/Logic/Moves.antt =====
-- Where a move of an enemy that is no ghost may lead.
use soa_fib.Base.{◌≡◌, refl, Bool, true, false, not, ◌&&◌, ◌==◌, Bool-cases, both, ◌⊎◌, inl, inr}
use soa_fib.Base.Int.{pos, leb_ℤ}
use soa_fib.Game.Types.{Direction, dir_code, Position, row_border}
use soa_fib.Game.Map.{map_is_valid_position, map_is_walkable}
use soa_fib.Game.Entities.{next_position}
use soa_fib.Game.Logic.State.{Enemy, World}
use soa_fib.Game.Logic.Path.{logic_find_path_bfs}
use soa_fib.Game.Logic.Player.{has_rock_at}
use soa_fib.Game.Logic.Enemies.{
  logic_try_enemy_move, logic_get_random_direction, logic_enemy_move_towards_player,
}

-- a walkable place of the map, above the border, with no rock that rests there
pub record Free (w : World) (p : Position) : Type 0 where
  pub inside : map_is_valid_position p.x p.y ≡ true
  pub clear : has_rock_at p w.logic ≡ false
  pub above : leb_ℤ (pos row_border) p.y ≡ false
  pub open_ : map_is_walkable p.x p.y w.map ≡ true

-- an enemy that stays in its place, or goes to a free one beside it
abbrev pub Stepped : World → Enemy → Enemy → Type 0
Stepped w e e' =
    (e'.base.pos_of ≡ e.base.pos_of)
    ⊎ ((d : Direction) × ((e'.base.pos_of ≡ next_position e.base.pos_of d) × Free w e'.base.pos_of))

try_move-Stepped :
    (e : Enemy) (d : Direction) (w : World) → Stepped w e (logic_try_enemy_move e d w).1
unfolding logic_try_enemy_move
try_move-Stepped e d w =
    let p = next_position e.base.pos_of d in
    let P = λ (r : Bool × Enemy). Stepped w e r.1 in
    both P (dir_code d == 0) (inl refl) (elim (Bool-cases (map_is_valid_position p.x p.y)) [
      | inr a ↦ rw a (inl refl)
      | inl a ↦ elim (Bool-cases (has_rock_at p w.logic)) [
        | inl b ↦ rw (a, b) (inl refl)
        | inr b ↦ elim (Bool-cases (leb_ℤ (pos row_border) p.y)) [
          | inl c ↦ rw (a, b, c) (inl refl)
          | inr c ↦ elim (Bool-cases (map_is_walkable p.x p.y w.map)) [
            | inr o ↦ rw (a, b, c, o) (inl refl)
            | inl o ↦
                rw (a, b, c, o)
                  (inr (d, (refl, record { inside = a; clear = b; above = c; open_ = o })))
          ]
        ]
      ]
    ])

-- An enemy that is no ghost stays where it is, or steps to a place beside it that is walkable, above
-- the border and free of resting rocks.
pub move_towards-Stepped :
    (e : Enemy) (w : World) → Stepped w e (logic_enemy_move_towards_player e w)
unfolding logic_enemy_move_towards_player
move_towards-Stepped e w =
    let best = logic_find_path_bfs e.base.pos_of w.logic.player.base.pos_of false w.map in
    both (Stepped w e) (not (dir_code best == 0) && (logic_try_enemy_move e best w).0)
      (try_move-Stepped e best w)
      (both (Stepped w e) (not (dir_code (logic_get_random_direction e w) == 0))
        (try_move-Stepped e (logic_get_random_direction e w) w) (inl refl))
