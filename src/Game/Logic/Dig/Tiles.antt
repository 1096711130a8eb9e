-- ===== src/Game/Logic/Dig/Tiles.antt =====
-- The tiles of a map in which the player enters a place: dirt is dug and a gem is taken.
use soa_fib.Base.{
  ℕ, zero, suc, ◌+◌, ◌≡◌, refl, ap, ◌∙◌, Bool, true, false, not, ◌&&◌, ◌||◌, ◌==◌, Bool-cases,
  if◌then◌else◌, both, inl, inr, test_of_eq,
}
use soa_fib.Base.Int.{eqb_ℤ, pos_part}
use soa_fib.Game.Types.{Position, TileType, tile_empty, tile_gem, tile_wall}
use soa_fib.Game.Map.{
  Map, tile_is, map_get_tile, map_set_tile, map_is_valid_position, map_is_walkable, map_is_diggable,
  map_dig, map_has_gem, map_remove_gem, drop_gem,
}
use soa_fib.Game.Logic.Player.{take_gem}

set_here :
    (p : Position) (t : TileType) (m : Map)
    → map_is_valid_position p.x p.y ≡ true
    → map_get_tile p.x p.y (map_set_tile p.x p.y t m) ≡ t
unfolding map_get_tile map_set_tile
set_here p t m h =
    rw
      (
        h,
        test_of_eq (pos_part p.y) (pos_part p.y) refl,
        test_of_eq (pos_part p.x) (pos_part p.x) refl,
      )
      refl

drop_gem-tiles : (n i : ℕ) (p : Position) (m : Map) → (drop_gem n i p.x p.y m).tiles ≡ m.tiles
unfolding drop_gem
drop_gem-tiles zero i p m = refl
drop_gem-tiles (suc n) i p m =
    both (λ (z : Map). z.tiles ≡ m.tiles)
      (eqb_ℤ (m.gem_positions i).x p.x && eqb_ℤ (m.gem_positions i).y p.y) refl
      (drop_gem-tiles n (i + 1) p m)

get_tile-same :
    (p : Position) (m m' : Map)
    → m.tiles ≡ m'.tiles
    → map_get_tile p.x p.y m ≡ map_get_tile p.x p.y m'
unfolding map_get_tile
get_tile-same p m m' e =
    ap
      (λ (t : ℕ → ℕ → TileType).
        if not (map_is_valid_position p.x p.y) then tile_wall else t (pos_part p.y) (pos_part p.x))
      e

empty_walkable :
    (p : Position) (m : Map)
    → map_get_tile p.x p.y m ≡ tile_empty
    → map_is_walkable p.x p.y m ≡ true
unfolding map_is_walkable
empty_walkable p m e = rw e refl

pub take_gem-walkable :
    (p : Position) (m : Map)
    → map_is_valid_position p.x p.y ≡ true
    → map_is_walkable p.x p.y m ≡ true
    → map_is_walkable p.x p.y (take_gem p m) ≡ true
unfolding map_has_gem map_remove_gem
take_gem-walkable p m h walk = elim (Bool-cases (tile_is (map_get_tile p.x p.y m) tile_gem)) [
  | inr e ↦ rw e walk
  | inl e ↦
      let m1 = map_set_tile p.x p.y tile_empty m in
      let gone = empty_walkable p (drop_gem m1.gem_count 0 p.x p.y m1) (
        get_tile-same p (drop_gem m1.gem_count 0 p.x p.y m1) m1 (drop_gem-tiles m1.gem_count 0 p m1)
        ∙ set_here p tile_empty m h) in
      rw e gone
]

pub dig-walkable :
    (p : Position) (m : Map)
    → map_is_valid_position p.x p.y ≡ true
    → map_is_diggable p.x p.y m ≡ true
    → map_is_walkable p.x p.y (map_dig p.x p.y m) ≡ true
unfolding map_dig
dig-walkable p m h d = rw d (empty_walkable p _ (set_here p tile_empty m h))

abbrev pub here : Position → ℕ → ℕ → Bool
here p x y = (pos_part p.y == y) && (pos_part p.x == x)

set_tile-tiles :
    (p : Position) (t : TileType) (m : Map) (x y : ℕ)
    → map_is_valid_position p.x p.y ≡ true
    → (map_set_tile p.x p.y t m).tiles y x ≡ (if here p x y then t else m.tiles y x)
unfolding map_set_tile
set_tile-tiles p t m x y h = rw h refl

take_gem-tiles :
    (p : Position) (m : Map) (x y : ℕ)
    → map_is_valid_position p.x p.y ≡ true
    → (take_gem p m).tiles y x
      ≡ (if here p x y && map_has_gem p.x p.y m then tile_empty else m.tiles y x)
unfolding map_has_gem map_remove_gem
take_gem-tiles p m x y h = elim (Bool-cases (tile_is (map_get_tile p.x p.y m) tile_gem)) [
  | inl e ↦
      let m1 = map_set_tile p.x p.y tile_empty m in
      let gone =
        ap (λ (t : ℕ → ℕ → TileType). t y x) (drop_gem-tiles m1.gem_count 0 p m1)
        ∙ set_tile-tiles p tile_empty m x y h in
      elim (Bool-cases (here p x y)) [
        | inl z ↦ (let r = rw z at gone in rw (e, z) r)
        | inr z ↦ (let r = rw z at gone in rw (e, z) r)
      ]
  | inr e ↦ elim (Bool-cases (here p x y)) [ inl z ↦ rw (e, z) refl | inr z ↦ rw (e, z) refl ]
]

-- the tiles of a map in which a place has been entered: a gem or dirt there is gone, and every
-- other tile is as it was
pub Entered : Position → Map → Map → Type 0
Entered p m m' =
    (x y : ℕ)
    → m'.tiles y x ≡ (
        if here p x y && (map_has_gem p.x p.y m || map_is_diggable p.x p.y m)
        then tile_empty
        else m.tiles y x)

pub walked-Entered :
    (p : Position) (m : Map)
    → map_is_valid_position p.x p.y ≡ true
    → map_is_diggable p.x p.y m ≡ false
    → Entered p m (take_gem p m)
unfolding Entered
walked-Entered p m h g = λ x y.
    take_gem-tiles p m x y h
    ∙ (rw g (elim (Bool-cases (map_has_gem p.x p.y m)) [ inl e ↦ rw e refl | inr e ↦ rw e refl ]))

or_true : (b : Bool) → (b || true) ≡ true
or_true true = refl
or_true false = refl

pub dug-Entered :
    (p : Position) (m : Map)
    → map_is_valid_position p.x p.y ≡ true
    → map_is_diggable p.x p.y m ≡ true
    → Entered p m (take_gem p (map_dig p.x p.y m))
unfolding map_dig Entered
dug-Entered p m h g = λ x y.
    let m1 = map_set_tile p.x p.y tile_empty m in
    let dug = set_tile-tiles p tile_empty m x y h in
    let all = take_gem-tiles p m1 x y h in
    let P = λ (t : TileType). t ≡ tile_empty in
    elim (Bool-cases (here p x y)) [
      | inl z ↦
          let r = rw z at all in
          let e = rw z at dug in
          rw (g, z, or_true (map_has_gem p.x p.y m)) (r ∙ both P (map_has_gem p.x p.y m1) refl e)
      | inr z ↦ let r = rw z at all in let e = rw z at dug in rw (g, z) (r ∙ e)
    ]
