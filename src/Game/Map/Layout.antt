-- ===== src/Game/Map/Layout.antt =====
-- What the map looks like when a level has been generated.
use soa_fib.Base.{
  ℕ, zero, suc, ◌+◌, ◌<◌, ◌≤◌, ◌≡◌, refl, ap, ◌∙◌, true, false, ◌&&◌, ◌||◌, ◌==◌, ltb, leb, arith,
  if◌then◌else◌, Bool-cases, inl, inr, test_of_eq, test_of_ne, eq_of_test,
}
use soa_fib.Base.Int.{pos, ◌+ℤ◌}
use soa_fib.Game.Types.{TileType, tile_empty, tile_dirt, tile_sky, tile_wall, tile_border}
use soa_fib.Game.Map.{
  Map, tile_is, map_clear, map_is_valid_position, map_get_tile, map_set_tile, wall_rows,
  wall_columns, border_row, map_create_borders, place_dirt_at, dirt_row, dirt_rows,
  place_random_dirt, fill_row, fill_rows, map_fill_area, map_generate_level, map_init,
}

-- the level before its tunnels: walls at the top and the sides, a border at the bottom, two rows of
-- sky, and dirt
abbrev pub layout : ℕ → ℕ → TileType
layout x y =
    if y == 23
    then tile_border
    else if y == 0 || (x == 0) || (x == 79)
    then tile_wall
    else if leb y 2
    then tile_sky
    else tile_dirt

pub set_tile-tiles :
    (x y : ℕ) (t : TileType) (m : Map) (r c : ℕ)
    → x < 80
    → y < 24
    → (map_set_tile (pos x) (pos y) t m).tiles r c ≡ (if y == r && (x == c) then t else m.tiles r c)
unfolding map_set_tile map_is_valid_position
set_tile-tiles x y t m r c hx hy = ground arith

wall_rows-tiles :
    (n x : ℕ) (m : Map) (r c : ℕ)
    → x + n ≤ 80
    → (wall_rows n x m).tiles r c
      ≡ (if (r == 0 || (r == 23)) && leb x c && ltb c (x + n) then tile_wall else m.tiles r c)
unfolding wall_rows
wall_rows-tiles zero x m r c h = ground arith
wall_rows-tiles (suc n) x m r c h =
    let m1 = map_set_tile (pos x) (pos 0) tile_wall m in
    let a = set_tile-tiles x 0 tile_wall m r c (omega arith) (omega arith) in
    let b = set_tile-tiles x 23 tile_wall m1 r c (omega arith) (omega arith) in
    let rest =
      wall_rows-tiles n (x + 1) (map_set_tile (pos x) (pos 23) tile_wall m1) r c (omega arith) in
    rest ∙ rw (b, a) (ground arith)

wall_columns-tiles :
    (n y : ℕ) (m : Map) (r c : ℕ)
    → y + n ≤ 24
    → (wall_columns n y m).tiles r c
      ≡ (if (c == 0 || (c == 79)) && leb y r && ltb r (y + n) then tile_wall else m.tiles r c)
unfolding wall_columns
wall_columns-tiles zero y m r c h = ground arith
wall_columns-tiles (suc n) y m r c h =
    let m1 = map_set_tile (pos 0) (pos y) tile_wall m in
    let a = set_tile-tiles 0 y tile_wall m r c (omega arith) (omega arith) in
    let b = set_tile-tiles 79 y tile_wall m1 r c (omega arith) (omega arith) in
    let rest =
      wall_columns-tiles n (y + 1) (map_set_tile (pos 79) (pos y) tile_wall m1) r c (omega arith) in
    rest ∙ rw (b, a) (ground arith)

border_row-tiles :
    (n x : ℕ) (m : Map) (r c : ℕ)
    → x + n ≤ 80
    → (border_row n x m).tiles r c
      ≡ (if (r == 23) && leb x c && ltb c (x + n) then tile_border else m.tiles r c)
unfolding border_row
border_row-tiles zero x m r c h = ground arith
border_row-tiles (suc n) x m r c h =
    border_row-tiles n (x + 1) (map_set_tile (pos x) (pos 23) tile_border m) r c (omega arith)
    ∙ rw (set_tile-tiles x 23 tile_border m r c (omega arith) (omega arith)) (ground arith)

-- the ground of the map before dirt
abbrev frame : ℕ → ℕ → TileType → TileType
frame x y t =
    if y == 23 then tile_border else if y == 0 || (x == 0) || (x == 79) then tile_wall else t

borders-frame :
    (m : Map) (r c : ℕ)
    → r < 24
    → c < 80
    → (map_create_borders m).tiles r c ≡ frame c r (m.tiles r c)
unfolding map_create_borders
borders-frame m r c hr hc =
    border_row-tiles 80 0 (wall_columns 24 0 (wall_rows 80 0 m)) r c (omega arith)
    ∙ rw
        (
          wall_columns-tiles 24 0 (wall_rows 80 0 m) r c (omega arith),
          wall_rows-tiles 80 0 m r c (omega arith),
        )
        (ground arith)

abbrev earth : ℕ → TileType
earth y = if leb y 2 then tile_sky else tile_dirt

abbrev NoWall : Map → ℕ → ℕ → ℕ → Type 0
NoWall m y x n = (c : ℕ) → x ≤ c → c < x + n → tile_is (m.tiles y c) tile_wall ≡ false

pub get_tile-tiles :
    (x y : ℕ) (m : Map) → x < 80 → y < 24 → map_get_tile (pos x) (pos y) m ≡ m.tiles y x
unfolding map_get_tile map_is_valid_position
get_tile-tiles x y m hx hy = ground arith

place_dirt_at-set_tile :
    (x y : ℕ) (m : Map)
    → x < 80
    → y < 24
    → tile_is (m.tiles y x) tile_wall ≡ false
    → place_dirt_at 100 x y m ≡ map_set_tile (pos x) (pos y) (earth y) m
unfolding place_dirt_at
place_dirt_at-set_tile x y m hx hy w =
    rw (get_tile-tiles x y m hx hy, w)
      (elim (Bool-cases (leb y 2)) [ inl e ↦ rw e refl | inr e ↦ rw e refl ])

dirt_row-tiles :
    (n x y : ℕ) (m : Map) (r c : ℕ)
    → x + n ≤ 80
    → y < 24
    → NoWall m y x n
    → (dirt_row n 100 x y m).tiles r c
      ≡ (if (y == r) && leb x c && ltb c (x + n) then earth y else m.tiles r c)
unfolding dirt_row
dirt_row-tiles zero x y m r c h hy w = ground arith
dirt_row-tiles (suc n) x y m r c h hy w =
    let here = place_dirt_at-set_tile x y m (omega arith) hy (w x (omega arith) (omega arith)) in
    let m1 = map_set_tile (pos x) (pos y) (earth y) m in
    let kept : NoWall m1 y (x + 1) n = λ d lo hi.
      rw
        (
          set_tile-tiles x y (earth y) m y d (omega arith) hy,
          test_of_eq y y refl,
          test_of_ne x d (omega arith),
        )
        (w d (omega arith) (omega arith)) in
    let rest = dirt_row-tiles n (x + 1) y m1 r c (omega arith) hy kept in
    let step = set_tile-tiles x y (earth y) m r c (omega arith) hy in
    ap (λ z. (dirt_row n 100 (x + 1) y z).tiles r c) here ∙ rest ∙ rw step (ground arith)

dirt_rows-tiles :
    (n y : ℕ) (m : Map) (r c : ℕ)
    → y + n ≤ 24
    → ((d : ℕ) → y ≤ d → d < y + n → NoWall m d 1 78)
    → (dirt_rows n 100 y m).tiles r c
      ≡ (if leb y r && ltb r (y + n) && leb 1 c && ltb c 79 then earth r else m.tiles r c)
unfolding dirt_rows
dirt_rows-tiles zero y m r c h w = ground arith
dirt_rows-tiles (suc n) y m r c h w =
    let m1 = dirt_row 78 100 1 y m in
    let row = dirt_row-tiles 78 1 y m in
    let wy = w y (omega arith) (omega arith) in
    let kept : (d : ℕ) → y + 1 ≤ d → d < y + 1 + n → NoWall m1 d 1 78 = λ d lo hi x a b.
      rw (row d x (omega arith) (omega arith) wy, test_of_ne y d (omega arith))
        (w d (omega arith) (omega arith) x a b) in
    dirt_rows-tiles n (y + 1) m1 r c (omega arith) kept
    ∙ rw (row r c (omega arith) (omega arith) wy) (over n y (m.tiles r c) r c)
  where
    over :
        (n y : ℕ) (t : TileType) (r c : ℕ)
        → (if leb (y + 1) r && ltb r (y + 1 + n) && leb 1 c && ltb c 79
            then earth r
            else if (y == r) && leb 1 c && ltb c (1 + 78)
            then earth y
            else t)
          ≡ (if leb y r && ltb r (y + suc n) && leb 1 c && ltb c 79 then earth r else t)
    over n y t r c = elim (Bool-cases (y == r)) [
      | inl e ↦ let same = eq_of_test y r e in rw same (ground arith)
      | inr e ↦ ground (arith, e)
    ]

pub in_map : (x y : ℕ) → x < 80 → y < 24 → map_is_valid_position (pos x) (pos y) ≡ true
unfolding map_is_valid_position
in_map x y hx hy = ground arith

next_pos : (x : ℕ) → pos x +ℤ pos 1 ≡ pos (x + 1)
next_pos x = ground arith

fill_row-tiles :
    (n x y : ℕ) (t : TileType) (m : Map) (r c : ℕ)
    → x + n ≤ 80
    → y < 24
    → (fill_row n (pos x) (pos y) t m).tiles r c
      ≡ (if (y == r) && leb x c && ltb c (x + n) then t else m.tiles r c)
unfolding fill_row
fill_row-tiles zero x y t m r c h hy = ground arith
fill_row-tiles (suc n) x y t m r c h hy =
    let m1 = map_set_tile (pos x) (pos y) t m in
    ap (λ v. (fill_row n (pos x +ℤ pos 1) (pos y) t (if v then m1 else m)).tiles r c)
      (in_map x y (omega arith) hy)
    ∙ ap (λ z. (fill_row n z (pos y) t m1).tiles r c) (next_pos x)
    ∙ fill_row-tiles n (x + 1) y t m1 r c (omega arith) hy
    ∙ rw (set_tile-tiles x y t m r c (omega arith) hy) (ground arith)

fill_rows-tiles :
    (n width x y : ℕ) (t : TileType) (m : Map) (r c : ℕ)
    → x + width ≤ 80
    → y + n ≤ 24
    → (fill_rows n width (pos x) (pos y) t m).tiles r c
      ≡ (if leb y r && ltb r (y + n) && leb x c && ltb c (x + width) then t else m.tiles r c)
unfolding fill_rows
fill_rows-tiles zero width x y t m r c h hy = ground arith
fill_rows-tiles (suc n) width x y t m r c h hy =
    let m1 = fill_row width (pos x) (pos y) t m in
    ap (λ z. (fill_rows n width (pos x) z t m1).tiles r c) (next_pos y)
    ∙ fill_rows-tiles n width x (y + 1) t m1 r c h (omega arith)
    ∙ rw (fill_row-tiles width x y t m r c h (omega arith)) (ground arith)

sky_area-tiles :
    (m : Map) (r c : ℕ)
    → (map_fill_area (pos 1) (pos 1) (pos 5) (pos 2) tile_sky m).tiles r c
      ≡ (if leb 1 r && ltb r 3 && leb 1 c && ltb c 6 then tile_sky else m.tiles r c)
unfolding map_fill_area
sky_area-tiles m r c = fill_rows-tiles 2 5 1 1 tile_sky m r c (omega arith) (omega arith)

cleared-tiles : (m : Map) (r c : ℕ) → r < 24 → c < 80 → (map_clear m).tiles r c ≡ tile_empty
unfolding map_clear
cleared-tiles m r c hr hc = ground arith

-- A generated level has its border, walls, sky and dirt where the plan of a level says, at every
-- place of the map and whatever the map held before.
pub map_init-layout :
    (m : Map) (x y : ℕ) → x < 80 → y < 24 → map_get_tile (pos x) (pos y) (map_init m) ≡ layout x y
unfolding map_init map_generate_level place_random_dirt
map_init-layout m x y hx hy =
    let clean = map_clear m in
    let walls = map_create_borders clean in
    let dirt = dirt_rows 22 100 1 walls in
    let at : (r c : ℕ) → r < 24 → c < 80 → walls.tiles r c ≡ frame c r tile_empty =
      λ r c hr hc. borders-frame clean r c hr hc ∙ ap (frame c r) (cleared-tiles m r c hr hc) in
    let inside : (d : ℕ) → 1 ≤ d → d < 23 → NoWall walls d 1 78 = λ d lo hi c a b.
      rw (at d c (omega arith) (omega arith)) (interior d c lo hi a (omega arith)) in
    get_tile-tiles x y (map_init m) hx hy
    ∙ sky_area-tiles dirt y x
    ∙ rw (dirt_rows-tiles 22 1 walls y x (omega arith) inside, at y x hy hx) (final y x hx hy)
  where
    interior :
        (d c : ℕ)
        → 1 ≤ d
        → d < 23
        → 1 ≤ c
        → c < 79
        → tile_is (frame c d tile_empty) tile_wall ≡ false
    interior d c a b e f = ground arith

    final :
        (y x : ℕ)
        → x < 80
        → y < 24
        → (if leb 1 y && ltb y 3 && leb 1 x && ltb x 6
            then tile_sky
            else if leb 1 y && ltb y (1 + 22) && leb 1 x && ltb x 79
            then earth y
            else frame x y tile_empty)
          ≡ layout x y
    final y x hx hy = ground arith
