-- ===== src/Game/Data/Tunnel.antt =====
-- The digging of a tunnel ends, and digs the cells of its two legs and no other.
use soa_fib.Base.{
  ℕ, zero, suc, ◌+◌, ◌-◌, ◌<◌, ◌≡◌, ◌≢◌, refl, sym, ap, ◌∙◌, Bool, true, false, ◌&&◌, ◌||◌, ◌==◌,
  ltb, leb, arith, if◌then◌else◌, Bool-cases, inl, inr, Option, some,
}
use soa_fib.Base.Int.{ℤ, pos, ◌+ℤ◌, eqb_ℤ}
use soa_fib.Game.Types.{TileType, tile_empty, tile_dirt}
use soa_fib.Game.Map.{Map, tile_is, map_is_valid_position, map_is_diggable, map_dig}
use soa_fib.Game.Map.Layout.{in_map, set_tile-tiles, get_tile-tiles}
use soa_fib.Game.Data.{step_to, way, dig_from, data_dig_tunnel}

-- a cell after it has been dug or left
abbrev pub dug : Bool → TileType → TileType
dug hit t = if hit && tile_is t tile_dirt then tile_empty else t

abbrev pub between : ℕ → ℕ → ℕ → Bool
between a b c = leb a c && leb c b || (leb b c && leb c a)

-- the row of the start as far as the column of the end, and that column
abbrev pub on_tunnel : ℕ → ℕ → ℕ → ℕ → ℕ → ℕ → Bool
on_tunnel x y x2 y2 c r = (y == r) && between x x2 c || ((x2 == c) && between y y2 r)

dig-tiles :
    (x y : ℕ) (m : Map) (r c : ℕ)
    → x < 80
    → y < 24
    → (if map_is_valid_position (pos x) (pos y) then map_dig (pos x) (pos y) m else m).tiles r c
      ≡ dug ((y == r) && (x == c)) (m.tiles r c)
unfolding map_dig map_is_diggable
dig-tiles x y m r c hx hy =
    rw (in_map x y hx hy, get_tile-tiles x y m hx hy)
      (elim (Bool-cases (tile_is (m.tiles y x) tile_dirt)) [
        | inl e ↦ rw e (set_tile-tiles x y tile_empty m r c hx hy ∙ hit e)
        | inr e ↦ rw e (missed e)
      ])
  where
    here : (y == r) && (x == c) ≡ true → m.tiles y x ≡ m.tiles r c
    here h = ap (λ z. m.tiles z x) (ground (arith, h)) ∙ ap (m.tiles r) (ground (arith, h))

    hit :
        tile_is (m.tiles y x) tile_dirt ≡ true
        → (if (y == r) && (x == c) then tile_empty else m.tiles r c)
          ≡ dug ((y == r) && (x == c)) (m.tiles r c)
    hit e = elim (Bool-cases ((y == r) && (x == c))) [
      | inl h ↦ rw (h, sym (here h), e) refl
      | inr h ↦ rw h refl
    ]

    missed :
        tile_is (m.tiles y x) tile_dirt ≡ false
        → m.tiles r c ≡ dug ((y == r) && (x == c)) (m.tiles r c)
    missed e = elim (Bool-cases ((y == r) && (x == c))) [
      | inl h ↦ rw (h, sym (here h), e) refl
      | inr h ↦ rw h refl
    ]

dug-dug : (a b : Bool) (t : TileType) → dug a (dug b t) ≡ dug (a || b) t
dug-dug true true t = elim (Bool-cases (tile_is t tile_dirt)) [
  | inl e ↦ rw e refl
  | inr e ↦ rw (e, e) refl
]
dug-dug true false t = refl
dug-dug false true t = refl
dug-dug false false t = refl

-- a step along one coordinate, and what is left of its way
abbrev gap : ℕ → ℕ → ℕ
gap a b = (a - b) + (b - a)

abbrev next : ℕ → ℕ → ℕ
next a b = if ltb a b then a + 1 else a - 1

step_lem : (a b : ℕ) (d : ℤ) → a ≢ b → d ≡ step_to (pos a) (pos b) → pos a +ℤ d ≡ pos (next a b)
step_lem a b d ne e = rw e (ground (arith, ne))

-- the direction stays right as long as it is used
step_to-next :
    (a b : ℕ) → a ≢ b → next a b ≢ b → step_to (pos a) (pos b) ≡ step_to (pos (next a b)) (pos b)
step_to-next a b ne nn = elim (Bool-cases (ltb a b)) [
  | inl e ↦ ground (arith, e, nn)
  | inr e ↦ ground (arith, e, ne, nn)
]

-- one more leg of the way: the cell behind joins the cells ahead
turn-cells :
    (x x2 y y2 c r : ℕ)
    → (x == x2) ≡ true
    → y ≢ y2
    → (on_tunnel x (next y y2) x2 y2 c r || ((y == r) && (x == c))) ≡ on_tunnel x y x2 y2 c r
turn-cells x x2 y y2 c r h ne = elim (Bool-cases (ltb y y2)) [
  | inl e ↦ ground (arith, e, ne, h)
  | inr e ↦ ground (arith, e, ne, h)
]

row-cells :
    (x y x2 y2 c r : ℕ)
    → x ≢ x2
    → (on_tunnel (next x x2) y x2 y2 c r || ((y == r) && (x == c))) ≡ on_tunnel x y x2 y2 c r
row-cells x y x2 y2 c r ne = elim (Bool-cases (ltb x x2)) [
  | inl e ↦ ground (arith, e, ne)
  | inr e ↦ ground (arith, e, ne)
]

abbrev Dug : ℕ → ℕ → ℕ → ℕ → Map → Option Map → Type 0
Dug x y x2 y2 m o =
    (m' : Map) × (o ≡ some m')
    × ((r c : ℕ) → m'.tiles r c ≡ dug (on_tunnel x y x2 y2 c r) (m.tiles r c))

extend :
    (x y x' y' x2 y2 : ℕ) (m m1 : Map) (o : Option Map)
    → ((r c : ℕ) → m1.tiles r c ≡ dug ((y == r) && (x == c)) (m.tiles r c))
    → ((r c : ℕ) → (on_tunnel x' y' x2 y2 c r || ((y == r) && (x == c))) ≡ on_tunnel x y x2 y2 c r)
    → Dug x' y' x2 y2 m1 o
    → Dug x y x2 y2 m o
extend x y x' y' x2 y2 m m1 o cell cells (m', e, h) = (
  m',
  e,
  λ r c.
      h r c
      ∙ ap (dug (on_tunnel x' y' x2 y2 c r)) (cell r c)
      ∙ dug-dug (on_tunnel x' y' x2 y2 c r) ((y == r) && (x == c)) (m.tiles r c)
      ∙ ap (λ b. dug b (m.tiles r c)) (cells r c),
)

gap-next : (a b : ℕ) → a ≢ b → gap (next a b) b + 1 ≡ gap a b
gap-next a b ne = elim (Bool-cases (ltb a b)) [
  | inl e ↦ ground (arith, e, ne)
  | inr e ↦ ground (arith, e, ne)
]

next-lt : (a b n : ℕ) → a < n → b < n → next a b < n
next-lt a b n ha hb = ground arith

dig_from-Dug :
    (fuel x y x2 y2 : ℕ) (dx dy : ℤ) (m : Map)
    → gap x x2 + gap y y2 < fuel
    → x < 80
    → y < 24
    → x2 < 80
    → y2 < 24
    → (x ≢ x2 → dx ≡ step_to (pos x) (pos x2))
    → (y ≢ y2 → dy ≡ step_to (pos y) (pos y2))
    → Dug x y x2 y2 m (dig_from fuel (pos x) (pos y) (pos x2) (pos y2) dx dy m)
unfolding dig_from
dig_from-Dug zero x y x2 y2 dx dy m f hx hy hx2 hy2 sx sy = absurd (omega arith)
dig_from-Dug (suc fuel) x y x2 y2 dx dy m f hx hy hx2 hy2 sx sy =
    let m1 = if map_is_valid_position (pos x) (pos y) then map_dig (pos x) (pos y) m else m in
    let cell = λ (r c : ℕ). dig-tiles x y m r c hx hy in
    elim (Bool-cases (x == x2)) [
      | inl e ↦ elim (Bool-cases (y == y2)) [
        | inl g ↦
            rw (x-test e, y-test g)
              (m1, refl, λ r c. cell r c ∙ ap (λ b. dug b (m.tiles r c)) (last-cell e g r c))
        | inr g ↦
            (let ne : y ≢ y2 = ground (arith, g) in
              rw (x-test e, y-test g, step_lem y y2 dy ne (sy ne))
                (extend x y x (next y y2) x2 y2 m m1 _ cell (λ r c. turn-cells x x2 y y2 c r e ne)
                  (dig_from-Dug fuel x (next y y2) x2 y2 dx dy m1 (omega (arith, gap-next y y2 ne))
                    hx (next-lt y y2 24 hy hy2) hx2 hy2 sx λ nn. sy ne ∙ step_to-next y y2 ne nn)))
      ]
      | inr e ↦
          (let ne : x ≢ x2 = ground (arith, e) in
            rw (x-test e, step_lem x x2 dx ne (sx ne))
              (extend x y (next x x2) y x2 y2 m m1 _ cell (λ r c. row-cells x y x2 y2 c r ne)
                (dig_from-Dug fuel (next x x2) y x2 y2 dx dy m1 (omega (arith, gap-next x x2 ne))
                  (next-lt x x2 80 hx hx2) hy hx2 hy2 (λ nn. sx ne ∙ step_to-next x x2 ne nn) sy)))
    ]
  where
    x-test : {b : Bool} → (x == x2) ≡ b → eqb_ℤ (pos x) (pos x2) ≡ b
    x-test e = ap (λ z. z) (ground (arith, e))

    y-test : {b : Bool} → (y == y2) ≡ b → eqb_ℤ (pos y) (pos y2) ≡ b
    y-test e = ap (λ z. z) (ground (arith, e))

    last-cell :
        (x == x2) ≡ true
        → (y == y2) ≡ true
        → (r c : ℕ) → ((y == r) && (x == c)) ≡ on_tunnel x y x2 y2 c r
    last-cell e g r c = ground (arith, e, g)

-- Digging a tunnel ends, whatever way it goes; of the cells in the row of its start as far as the
-- column of its end, and from there in that column, those of dirt become empty, and no other tile
-- changes. So between any two places of the map.
pub data_dig_tunnel-Dug :
    (x y x2 y2 : ℕ) (m : Map)
    → x < 80
    → y < 24
    → x2 < 80
    → y2 < 24
    → (m' : Map) × (data_dig_tunnel (pos x) (pos y) (pos x2) (pos y2) m ≡ some m')
      × ((r c : ℕ) → m'.tiles r c ≡ dug (on_tunnel x y x2 y2 c r) (m.tiles r c))
unfolding data_dig_tunnel
data_dig_tunnel-Dug x y x2 y2 m hx hy hx2 hy2 =
    dig_from-Dug (way (pos x) (pos x2) + way (pos y) (pos y2) + 1) x y x2 y2
      (step_to (pos x) (pos x2)) (step_to (pos y) (pos y2)) m (enough x x2 y y2) hx hy hx2 hy2
      (λ z. refl) λ z. refl
  where
    way-gap : (a b : ℕ) → way (pos a) (pos b) ≡ gap a b
    way-gap a b = ground arith

    enough : (a b c d : ℕ) → gap a b + gap c d < way (pos a) (pos b) + way (pos c) (pos d) + 1
    enough a b c d = omega (arith, way-gap a b, way-gap c d)
