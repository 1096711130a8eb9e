-- ===== src/Game/Logic/Ghost.antt =====
-- When a ghost turns back into a walking enemy.
use soa_fib.Base.{◌≡◌, Bool, true, false, not, ◌&&◌, ◌||◌, ◌==◌, if◌then◌else◌, ◌⊎◌}
use soa_fib.Game.Types.{Direction, dir_code}
use soa_fib.Game.Map.{map_is_valid_position, map_is_walkable}
use soa_fib.Game.Entities.{next_position}
use soa_fib.Game.Logic.State.{Enemy, enemy_normal, enemy_ghost, World}
use soa_fib.Game.Logic.Path.{logic_find_path_bfs}
use soa_fib.Game.Logic.Enemies.{logic_enemy_ghost_mode, back_to_normal, place_enemy}

-- an enemy in a cell of a tunnel
abbrev pub in_tunnel : Enemy → World → Bool
in_tunnel e w = map_is_walkable e.base.pos_of.x e.base.pos_of.y w.map

-- what updates make of an enemy that has just become a ghost, whatever becomes of the world between
-- them, and if one of them has found it outside the tunnels
pub data Haunted : Bool → Enemy → Type 0 where
  begins : {e : Enemy} → e.state ≡ enemy_ghost → e.has_left_tunnel ≡ 0 → Haunted false e
  goes :
      {left : Bool} {e : Enemy}
      → Haunted left e
      → e.state ≡ enemy_ghost
      → (w : World) → Haunted (left || not (in_tunnel e w)) (logic_enemy_ghost_mode e w)

-- an enemy that stays in its place, or goes to one beside it within the map
abbrev pub Near : Enemy → Enemy → Type 0
Near e e' =
    (e'.base.pos_of ≡ e.base.pos_of)
    ⊎ ((d : Direction) × (e'.base.pos_of ≡ next_position e.base.pos_of d)
        × (map_is_valid_position e'.base.pos_of.x e'.base.pos_of.y ≡ true))

-- an update after which the ghost walks again, or is the ghost that it was
abbrev pub Turned : Bool → World → Enemy → Enemy → Type 0
Turned left w e e' =
    ((e'.state ≡ enemy_normal) × (left ≡ true) × (in_tunnel e' w ≡ true))
    ⊎ ((e'.state ≡ e.state) × ((e'.has_left_tunnel == 0) ≡ not left))

abbrev pub Step : Bool → World → Enemy → Enemy → Type 0
Step left w e e' = Near e e' × Turned left w e e'

-- the part of `logic_enemy_ghost_mode` behind the search
abbrev drift : Direction → World → Enemy → Enemy
drift best w e =
    let p = next_position e.base.pos_of best in
    if dir_code best == 0
    then e
    else if map_is_valid_position p.x p.y
    then (if map_is_walkable p.x p.y w.map && not (e.has_left_tunnel == 0)
        then back_to_normal (place_enemy p best e)
        else place_enemy p best e)
    else e

-- the way to the player, through dirt and walls
abbrev way : Enemy → World → Direction
way e w = logic_find_path_bfs e.base.pos_of w.logic.player.base.pos_of true w.map
