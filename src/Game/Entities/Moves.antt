-- ===== src/Game/Entities/Moves.antt =====
-- Where an enemy may go in one update.
use soa_fib.Base.{
  ◌+◌, ◌≡◌, ◌⊎◌, refl, true, false, not, ◌&&◌, ◌==◌, arith, Bool-cases, inl, inr, List, [], ◌∷◌,
}
use soa_fib.Base.Int.{pos, ltb_ℤ}
use soa_fib.Game.Types.{
  Direction, dir_up, dir_down, dir_left, dir_right, dir_code, Position, Entity,
}
use soa_fib.Game.Map.{Map, map_is_valid_position, map_is_walkable}
use soa_fib.Game.Entities.{
  is_player, next_position, entity_next_pos, entity_can_move, entity_move, enemy_ai_direction,
  try_directions, enemy_update,
}

-- at most one step, and only to a walkable place of the map
abbrev pub Stepped : Map → Entity → Entity → Type 0
Stepped m e e' =
    (e'.pos_of ≡ e.pos_of)
    ⊎ ((d : Direction) × (e'.pos_of ≡ next_position e.pos_of d)
        × (map_is_valid_position e'.pos_of.x e'.pos_of.y ≡ true)
        × (map_is_walkable e'.pos_of.x e'.pos_of.y m ≡ true))

can_move-free :
    (e : Entity) (d : Direction) (m : Map)
    → is_player e.kind ≡ false
    → entity_can_move e d m ≡ true
    → let p = next_position e.pos_of d in
      (map_is_valid_position p.x p.y ≡ true) × (map_is_walkable p.x p.y m ≡ true)
unfolding entity_can_move entity_next_pos
can_move-free e d m np c = ground (arith, np, c)

entity_move-Stepped :
    (e : Entity) (d : Direction) (m : Map)
    → is_player e.kind ≡ false
    → Stepped m e (entity_move e d m)
unfolding entity_move entity_next_pos
entity_move-Stepped e d m np = elim (Bool-cases (e.active == 0)) [
  | inl a ↦ rw a (inl refl)
  | inr a ↦ elim (Bool-cases (entity_can_move e d m)) [
    | inl c ↦ (let f = can_move-free e d m np c in rw (a, c) (inr (d, refl, f.0, f.1)))
    | inr c ↦ rw (a, c) (inl refl)
  ]
]

try_directions-Stepped :
    (ds : List Direction) (t : Direction) (e : Entity) (m : Map)
    → is_player e.kind ≡ false
    → Stepped m e (try_directions ds t e m)
unfolding try_directions
try_directions-Stepped [] t e m np = inl refl
try_directions-Stepped (d ∷ ds) t e m np =
    elim (Bool-cases (not (dir_code d == dir_code t) && entity_can_move e d m)) [
      | inl c ↦ rw c (entity_move-Stepped e d m np)
      | inr c ↦ rw c (try_directions-Stepped ds t e m np)
    ]

-- One update of an enemy leaves it where it is or takes it one step, to a place that is on the map
-- and walkable. So for every entity but a player, active or not, and wherever the player stands.
pub enemy_update-Stepped :
    (e : Entity) (p : Position) (m : Map)
    → is_player e.kind ≡ false
    → Stepped m e (enemy_update e p m)
unfolding enemy_update
enemy_update-Stepped e p m np =
    let e2 = record e { speed_counter = 0 } in
    let t = enemy_ai_direction e2 p in
    elim (Bool-cases (e.active == 0)) [
      | inl a ↦ rw a (inl refl)
      | inr a ↦ elim (Bool-cases (ltb_ℤ (pos (e.speed_counter + 1)) e.speed_limit)) [
        | inl w ↦ rw (a, w) (inl refl)
        | inr w ↦ elim (Bool-cases (not (dir_code t == 0) && entity_can_move e2 t m)) [
          | inl c ↦ rw (a, w, c) (entity_move-Stepped e2 t m np)
          | inr c ↦
              rw (a, w, c)
                (try_directions-Stepped (dir_up ∷ dir_down ∷ dir_left ∷ dir_right ∷ []) t e2 m np)
        ]
      ]
    ]
