-- ===== src/Game/Map/Choice.antt =====
-- Which place the search for a spawn place gives, of those that its draws come to.
use soa_fib.Base.{ℕ, zero, suc, ◌+◌, ◌-◌, ◌<◌, ◌≡◌, Bool, true, false, ◌&&◌, ◌⊎◌}
use soa_fib.Base.Int.{ℤ, pos, ◌*ℤ◌, leb_ℤ}
use soa_fib.Game.Types.{Position, map_width, map_height}
use soa_fib.Game.Map.Spawn.{Placed}
use soa_fib.Game.Map.{
  Map, random_int, map_is_walkable, map_get_random_empty_position, spawn_distance,
}

-- the place that the next two random numbers give
abbrev pub draw : Map → Position × Map
draw m =
    let (a, m1) = random_int (map_width - 2) m in
    let (b, m2) = random_int (map_height - 2) m1 in
    (record { x = pos (1 + a); y = pos (1 + b) }, m2)

-- the draw after i others
pub drawn : ℕ → Map → Position × Map
drawn zero m = draw m
drawn (suc i) m = drawn i (draw m).1

abbrev pub is_open : Position × Map → Bool
is_open (p, m) = map_is_walkable p.x p.y m

-- the first of n draws that is walkable, or a failure if none is
abbrev pub FirstOpen : ℕ → Map → Bool × (Position × Map) → Type 0
FirstOpen n m r =
    ((i : ℕ) × (i < n)
      × (is_open (drawn i m) ≡ true)
      × (r ≡ (true, drawn i m))
      × ((j : ℕ) → j < i → is_open (drawn j m) ≡ false))
    ⊎ ((r.0 ≡ false) × ((j : ℕ) → j < n → is_open (drawn j m) ≡ false))

-- the map, with its seed, after i searches, and the search that comes then
pub after : ℕ → Map → Map
after zero m = m
after (suc i) m = after i (map_get_random_empty_position m).1.1

abbrev pub attempt : ℕ → Map → Bool × (Position × Map)
attempt i m = map_get_random_empty_position (after i m)

abbrev pub is_far : ℤ → Bool × (Position × Map) → Bool
is_far d (found, (p, m)) = found && leb_ℤ (d *ℤ d) (spawn_distance p)

-- the first of n searches whose place is far enough, or the search after them if none is
abbrev pub FirstFar : ℕ → ℤ → Map → Bool × (Position × Map) → Type 0
FirstFar n d m r =
    ((i : ℕ) × (i < n)
      × (is_far d (attempt i m) ≡ true)
      × (r ≡ attempt i m)
      × ((j : ℕ) → j < i → is_far d (attempt j m) ≡ false))
    ⊎ ((r ≡ attempt n m) × ((j : ℕ) → j < n → is_far d (attempt j m) ≡ false))

-- what the search gives for the distance d
pub record Spawned (d : ℤ) (m : Map) (r : Bool × (Position × Map)) : Type 0 where
  pub placed : Placed m r
  pub first : FirstFar 50 d m r
  pub each : (i : ℕ) → FirstOpen 100 (after i m) (attempt i m)
