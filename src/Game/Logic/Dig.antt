-- ===== src/Game/Logic/Dig.antt =====
-- What a move of the player does: which moves are made, and what they leave of the map.
pub mod Tiles
use soa_fib.Base.{
  ℕ, zero, suc, ◌+◌, ◌≡◌, refl, ap, ◌∙◌, Bool, true, false, not, ◌&&◌, ◌||◌, ◌==◌, Bool-cases,
  if◌then◌else◌, both, ◌⊎◌, inl, inr, test_of_eq,
}
use soa_fib.Base.Int.{pos, leb_ℤ, ltb_ℤ, eqb_ℤ, pos_part}
use soa_fib.Game.Types.{
  Direction, dir_code, Position, TileType, tile_empty, tile_gem, tile_wall, row_border, row_sky_end,
}
use soa_fib.Game.Map.{
  Map, tile_is, map_get_tile, map_set_tile, map_is_valid_position, map_is_walkable, map_is_diggable,
  map_dig, map_has_gem, map_remove_gem, drop_gem,
}
use soa_fib.Game.Entities.{next_position}
use soa_fib.Game.Logic.State.{Player, GameLogicState, World}
use soa_fib.Game.Logic.Player.{has_rock_at, logic_player_move, take_gem, put_player}
use soa_fib.Game.Logic.Moves.{Free}
use soa_fib.Game.Logic.Dig.Tiles.{
  Entered, take_gem-walkable, dig-walkable, walked-Entered, dug-Entered,
}

clash : {b : Bool} → b ≡ true → b ≡ false → ⊥
clash t f = absurd (cc)

rock_kept :
    (player : Player) (p : Position) (s : GameLogicState)
    → has_rock_at p (record s { player = player }) ≡ has_rock_at p s
unfolding has_rock_at
rock_kept player p s = refl

-- a place beside the player that nothing but its tile can keep it from
pub record Reached (d : Direction) (w : World) (p : Position) : Type 0 where
  pub active : (w.logic.player.base.active == 0) ≡ false
  pub headed : (dir_code d == 0) ≡ false
  pub inside : map_is_valid_position p.x p.y ≡ true
  pub below : ltb_ℤ p.y (pos row_sky_end) ≡ false
  pub above : leb_ℤ (pos row_border) p.y ≡ false
  pub clear : has_rock_at p w.logic ≡ false

-- what lets a player enter the place beside it
pub record CanEnter (d : Direction) (w : World) (p : Position) : Type 0 where
  pub reached : Reached d w p
  pub soft : (map_is_diggable p.x p.y w.map || map_is_walkable p.x p.y w.map) ≡ true

abbrev pub faced : Direction → World → World
faced d w = put_player (record (w.logic.player) { facing_dir = d }) w

-- a player that cannot enter the place beside it, and at most turns, or one that does
abbrev pub Moved : Direction → World → World → Type 0
Moved d w w' =
    let p = next_position w.logic.player.base.pos_of d in
    let p' = w'.logic.player.base.pos_of in
    ((¬ CanEnter d w p) × ((w' ≡ w) ⊎ (w' ≡ faced d w)))
    ⊎ (CanEnter d w p
        × (p' ≡ p)
        × Free w' p
        × Entered p w.map w'.map
        × (w'.logic ≡ record (w.logic) { player = w'.logic.player }))

put_player-Free :
    (d : Direction) (w : World) (player : Player) (m : Map)
    → let p = next_position w.logic.player.base.pos_of d in
      Reached d w p
      → map_is_walkable p.x p.y m ≡ true
      → Free (record (put_player player w) { map = m }) p
put_player-Free d w player m h o = record {
  inside = h.inside;
  clear = rock_kept player _ w.logic ∙ h.clear;
  above = h.above;
  open_ = o;
}

reached-Moved :
    (d : Direction) (w : World)
    → Reached d w (next_position w.logic.player.base.pos_of d)
    → Moved d w (logic_player_move d w)
unfolding logic_player_move
reached-Moved d w h =
    let p = next_position w.logic.player.base.pos_of d in
    let m = w.map in
    elim (Bool-cases (map_is_diggable p.x p.y m)) [
      | inl g ↦
          let can : CanEnter d w p = record { reached = h; soft = rw g refl } in
          let open_ = take_gem-walkable p _ h.inside (dig-walkable p m h.inside g) in
          rw (h.active, h.headed, h.inside, h.below, h.above, h.clear, g)
            (inr (can, refl, put_player-Free d w _ _ h open_, dug-Entered p m h.inside g, refl))
      | inr g ↦ elim (Bool-cases (map_is_walkable p.x p.y m)) [
        | inl o ↦
            let can : CanEnter d w p = record { reached = h; soft = rw (g, o) refl } in
            let open_ = take_gem-walkable p m h.inside o in
            rw (h.active, h.headed, h.inside, h.below, h.above, h.clear, g, o)
              (inr
                (can, refl, put_player-Free d w _ _ h open_, walked-Entered p m h.inside g, refl))
        | inr o ↦
            rw (h.active, h.headed, h.inside, h.below, h.above, h.clear, g, o)
              (inl (λ z. clash z.soft (rw (g, o) refl), inr refl))
      ]
    ]

-- A move leaves the player in its place, and the map and all else as they were but for the way
-- that it faces, if the player is not active, or the place beside it is out of the map, above row
-- 2, below row 22, under a resting rock, or neither dirt nor walkable. Any other move takes the
-- player there; dirt or a gem at the place is gone and the place is walkable, no other tile
-- changes, and nothing but the player and the map does.
pub player_move-Moved : (d : Direction) (w : World) → Moved d w (logic_player_move d w)
unfolding logic_player_move
player_move-Moved d w =
    let p = next_position w.logic.player.base.pos_of d in
    let m = w.map in
    elim (Bool-cases (w.logic.player.base.active == 0)) [
      | inl z ↦ rw z (inl (λ h. clash z h.reached.active, inl refl))
      | inr z ↦ elim (Bool-cases (dir_code d == 0)) [
        | inl y ↦ rw (z, y) (inl (λ h. clash y h.reached.headed, inl refl))
        | inr y ↦ elim (Bool-cases (map_is_valid_position p.x p.y)) [
          | inr a ↦ rw (z, y, a) (inl (λ h. clash h.reached.inside a, inr refl))
          | inl a ↦ elim (Bool-cases (ltb_ℤ p.y (pos row_sky_end))) [
            | inl b ↦ rw (z, y, a, b) (inl (λ h. clash b h.reached.below, inr refl))
            | inr b ↦ elim (Bool-cases (leb_ℤ (pos row_border) p.y)) [
              | inl c ↦ rw (z, y, a, b, c) (inl (λ h. clash c h.reached.above, inr refl))
              | inr c ↦ elim (Bool-cases (has_rock_at p w.logic)) [
                | inl r ↦ rw (z, y, a, b, c, r) (inl (λ h. clash r h.reached.clear, inr refl))
                | inr r ↦
                    reached-Moved d w (record {
                      active = z;
                      headed = y;
                      inside = a;
                      below = b;
                      above = c;
                      clear = r;
                    })
              ]
            ]
          ]
        ]
      ]
    ]
