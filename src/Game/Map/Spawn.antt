-- ===== src/Game/Map/Spawn.antt =====
-- Random places on the map.
use soa_fib.Base.{
  ℕ, zero, suc, ◌+◌, ◌≤◌, ◌≡◌, refl, ◌∙◌, Bool, true, ◌&&◌, arith, Bool-cases, inl, inr,
}
use soa_fib.Base.Int.{ℤ, pos, ◌*ℤ◌, leb_ℤ}
use soa_fib.Game.Types.{Position}
use soa_fib.Game.Map.{
  Map, random_int, map_is_walkable, map_get_random_empty_position, random_empty_from,
  map_get_safe_spawn_position, safe_spawn_from, spawn_distance,
}

-- a place inside the walls
abbrev pub IsInside : Position → Type 0
IsInside p =
    (a : ℕ) × (b : ℕ) × (p.x ≡ pos a) × (p.y ≡ pos b) × (1 ≤ a) × (a ≤ 78) × (1 ≤ b) × (b ≤ 22)

-- what a search for a place gives: tiles as they were, and a place inside the walls, where an
-- entity may stand if one was found
pub record Placed (m : Map) (r : Bool × (Position × Map)) : Type 0 where
  pub tiles : r.1.1.tiles ≡ m.tiles
  pub inside : IsInside r.1.0
  pub free : r.0 ≡ true → map_is_walkable r.1.0.x r.1.0.y r.1.1 ≡ true

random_empty-Placed : (fuel : ℕ) (m : Map) → Placed m (random_empty_from fuel m)
unfolding random_empty_from random_int
random_empty-Placed zero m = record {
  tiles = refl;
  inside = (1, 1, refl, refl, omega arith, omega arith, omega arith, omega arith);
  free = λ e. ground arith;
}
random_empty-Placed (suc fuel) m =
    let (a, m1) = random_int 78 m in
    let (b, m2) = random_int 22 m1 in
    elim (Bool-cases (map_is_walkable (pos (1 + a)) (pos (1 + b)) m2)) [
      | inl e ↦ rw e (record {
        tiles = refl;
        inside = (1 + a, 1 + b, refl, refl, omega arith, omega arith, omega arith, omega arith);
        free = λ z. e;
      })
      | inr e ↦
          (let r = random_empty-Placed fuel m2 in
            rw e (record { tiles = r.tiles; inside = r.inside; free = r.free }))
    ]

safe_spawn-Placed : (fuel : ℕ) (d : ℤ) (m : Map) → Placed m (safe_spawn_from fuel d m)
unfolding safe_spawn_from map_get_random_empty_position
safe_spawn-Placed zero d m = random_empty-Placed 100 m
safe_spawn-Placed (suc fuel) d m =
    let c = random_empty-Placed 100 m in
    let (found, (candidate, m1)) = random_empty_from 100 m in
    elim (Bool-cases (found && leb_ℤ (d *ℤ d) (spawn_distance candidate))) [
      | inl e ↦
          rw e
            (record { tiles = c.tiles; inside = c.inside; free = λ z. c.free (ground (arith, e)) })
      | inr e ↦
          (let r = safe_spawn-Placed fuel d m1 in
            rw e (record { tiles = r.tiles ∙ c.tiles; inside = r.inside; free = r.free }))
    ]

-- A search for a spawn place ends, changes no tile, and gives a place inside the walls; if it
-- reports success the place is walkable. So for every map, seed and distance.
pub map_get_safe_spawn_position-Placed :
    (d : ℤ) (m : Map) → Placed m (map_get_safe_spawn_position d m)
unfolding map_get_safe_spawn_position
map_get_safe_spawn_position-Placed d m = safe_spawn-Placed 50 d m
