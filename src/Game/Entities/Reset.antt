-- ===== src/Game/Entities/Reset.antt =====
-- game_entities.c: the setters and tests of an entity, and where the
-- enemies start. An index of the enemies is not negative.
use soa_fib.Base.{
  ℕ, zero, suc, ◌+◌, ◌-◌, ◌/◌, ◌%◌, ◌==◌, Bool, not, ◌&&◌, ◌≡◌, refl, ◌∙◌, arith, both,
  if◌then◌else◌, List, [], ◌∷◌,
}
use soa_fib.Base.Int.{ℤ, pos, eqb_ℤ}
use soa_fib.Game.Types.{Position, Entity, dir_none, map_width, map_height}
use soa_fib.Game.Map.{Map, map_get_safe_spawn_position}
use soa_fib.Game.Map.Spawn.{IsInside, map_get_safe_spawn_position-Placed}
use soa_fib.Game.Entities.{enemy_init, calculate_distance_squared}

unfoldable pub entity_set_position : Entity → ℤ → ℤ → Entity
entity_set_position e x y = record e { pos_of = record { x = x; y = y } }

unfoldable pub entity_is_active : Entity → Bool
entity_is_active e = not (e.active == 0)

unfoldable pub entity_deactivate : Entity → Entity
entity_deactivate e = record e { active = 0 }

unfoldable pub entity_activate : Entity → Entity
entity_activate e = record e { active = 1 }

unfoldable pub check_position_collision : Position → Position → Bool
check_position_collision a b = eqb_ℤ a.x b.x && eqb_ℤ a.y b.y

unfoldable pub entity_distance_to : Entity → Position → ℤ
entity_distance_to from to = calculate_distance_squared from.pos_of to

-- the corners that are tried last, and the middle of the map
unfoldable pub fallback_position : ℕ → Position
fallback_position i =
    if i % 4 == 0
    then (record { x = pos (map_width - 3); y = pos 3 })
    else if i % 4 == 1
    then (record { x = pos (map_width - 3); y = pos (map_height - 3) })
    else if i % 4 == 2
    then (record { x = pos 3; y = pos (map_height - 3) })
    else (record { x = pos (map_width / 2); y = pos (map_height / 2) })

unfoldable pub enemy_reset_position : Entity → ℕ → Map → Entity × Map
enemy_reset_position e i m =
    let (found, (spawn_pos, m1)) = map_get_safe_spawn_position (pos 5) m in
    (
      record e {
        pos_of = if found then spawn_pos else fallback_position i;
        active = 1;
        dir = dir_none;
        speed_counter = 0;
      },
      m1,
    )

-- the loop of `enemies_init_all` over the entries from i on; it gives the new entries
unfoldable pub enemies_init_from : ℕ → ℕ → Map → List Entity × Map
enemies_init_from zero i m = ([], m)
enemies_init_from (suc n) i m =
    let (e, m1) = enemy_reset_position (enemy_init (pos 0) (pos 0)) i m in
    let (es, m2) = enemies_init_from n (i + 1) m1 in (e ∷ es, m2)

unfoldable pub enemies_init_all : ℕ → Map → List Entity × Map
enemies_init_all count m = enemies_init_from count 0 m

-- enemies as they start: active, still, and inside the walls
pub data Started : ℕ → List Entity → Type 0 where
  none : Started 0 []
  more :
      {n : ℕ} {e : Entity} {es : List Entity}
      → e.active ≡ 1
      → e.dir ≡ dir_none
      → IsInside e.pos_of
      → Started n es
      → Started (suc n) (e ∷ es)

fallback_position-IsInside : (i : ℕ) → IsInside (fallback_position i)
unfolding fallback_position
fallback_position-IsInside i =
    both IsInside (i % 4 == 0)
      (77, 3, refl, refl, omega arith, omega arith, omega arith, omega arith)
      (both IsInside (i % 4 == 1)
        (77, 21, refl, refl, omega arith, omega arith, omega arith, omega arith)
        (both IsInside (i % 4 == 2)
          (3, 21, refl, refl, omega arith, omega arith, omega arith, omega arith)
          (40, 12, refl, refl, omega arith, omega arith, omega arith, omega arith)))

enemies_init_from-Started :
    (n i : ℕ) (m : Map)
    → Started n (enemies_init_from n i m).0 × ((enemies_init_from n i m).1.tiles ≡ m.tiles)
unfolding enemies_init_from enemy_reset_position
enemies_init_from-Started zero i m = (none, refl)
enemies_init_from-Started (suc n) i m =
    let placed = map_get_safe_spawn_position-Placed (pos 5) m in
    let (found, (spawn_pos, m1)) = map_get_safe_spawn_position (pos 5) m in
    let (rest, same) = enemies_init_from-Started n (i + 1) m1 in
    let inside = both IsInside found placed.inside (fallback_position-IsInside i) in
    (more refl refl inside rest, same ∙ placed.tiles)

-- However many enemies are asked for, and on any map, `enemies_init_all` gives that many, each
-- active, with no direction and inside the walls, and changes no tile.
enemies_init_all-Started :
    (count : ℕ) (m : Map)
    → Started count (enemies_init_all count m).0 × ((enemies_init_all count m).1.tiles ≡ m.tiles)
unfolding enemies_init_all
enemies_init_all-Started count m = enemies_init_from-Started count 0 m
