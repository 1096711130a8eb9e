-- ===== src/Game/Logic/Attack.antt =====
-- What the player's attack reaches: the clear cells ahead, and every enemy that stands there.
use soa_fib.Base.{
  ℕ, zero, suc, ◌+◌, ◌≤◌, ◌<◌, ◌≡◌, refl, ap, ◌∙◌, Bool, true, false, not, ◌&&◌, ◌||◌, ◌==◌, ltb,
  arith, Bool-cases, if◌then◌else◌, both, ◌⊎◌, inl, inr,
}
use soa_fib.Base.Int.{pos}
use soa_fib.Game.Types.{Direction, dir_code, Position}
use soa_fib.Game.Map.{Map, map_is_valid_position, map_is_solid}
use soa_fib.Game.Logic.State.{Enemy, enemy_paralyzed, enemy_code, World, player_code}
use soa_fib.Game.Logic.Path.{same_position}
use soa_fib.Game.Logic.Player.{
  ahead, clear_from, attack_path_clear, attack_range, paralyze_at, attack_cell, attack_cells,
  logic_player_attack,
}

-- a place of the map that is not solid
abbrev pub open_at : Map → Position → Bool
open_at m p = map_is_valid_position p.x p.y && not (map_is_solid p.x p.y m)

-- an enemy that the attack reaches, or does not
abbrev pub struck : Bool → Enemy → Enemy
struck reached e =
    if not (e.base.active == 0) && not (enemy_code e.state == enemy_code enemy_paralyzed) && reached
    then record e { state = enemy_paralyzed; blink_count = pos 10; paralyzed_timer = 5 }
    else e

-- a place among n cells ahead, from distance i on
abbrev pub reached : ℕ → ℕ → Position → Direction → Position → Bool
reached zero i p d q = false
reached (suc n) i p d q = same_position q (ahead p d i) || reached n (i + 1) p d q

paralyze_at-struck :
    (q : Position) (e : Enemy) → paralyze_at q e ≡ struck (same_position e.base.pos_of q) e
unfolding paralyze_at
paralyze_at-struck q e = elim (Bool-cases (e.base.active == 0)) [
  | inl a ↦ rw a refl
  | inr a ↦ elim (Bool-cases (enemy_code e.state == 3)) [
    | inl b ↦ rw (a, b) refl
    | inr b ↦ rw (a, b) refl
  ]
]

struck-struck : (a b : Bool) (e : Enemy) → struck b (struck a e) ≡ struck (a || b) e
struck-struck a b e = elim (Bool-cases (e.base.active == 0)) [
  | inl h ↦ rw (h, h) refl
  | inr h ↦ elim (Bool-cases (enemy_code e.state == 3)) [
    | inl g ↦ rw (h, g, h, g) refl
    | inr g ↦ again a b h g
  ]
]
  where
    again :
        (a b : Bool)
        → (e.base.active == 0) ≡ false
        → (enemy_code e.state == 3) ≡ false
        → struck b (struck a e) ≡ struck (a || b) e
    again true b h g = rw (h, g, h) refl
    again false b h g = rw (h, g, h, g) refl

struck-place : (b : Bool) (e : Enemy) → (struck b e).base.pos_of ≡ e.base.pos_of
struck-place b e =
    both (λ (z : Enemy). z.base.pos_of ≡ e.base.pos_of)
      (not (e.base.active == 0) && not (enemy_code e.state == enemy_code enemy_paralyzed) && b) refl
      refl

cell-struck :
    (n j : ℕ) (q : Position) (f : ℕ → Enemy)
    → j < n
    → attack_cell n q f j ≡ struck (same_position (f j).base.pos_of q) (f j)
unfolding attack_cell
cell-struck n j q f h = rw (below n j h) (paralyze_at-struck q (f j))
  where
    below : (n j : ℕ) → j < n → ltb j n ≡ true
    below n j h = ground arith

cells-struck :
    (k i n j : ℕ) (p : Position) (d : Direction) (f : ℕ → Enemy)
    → j < n
    → attack_cells k i n p d f j ≡ struck (reached k i p d (f j).base.pos_of) (f j)
unfolding attack_cells
cells-struck zero i n j p d f h = ground arith
cells-struck (suc k) i n j p d f h =
    let q = ahead p d i in
    let here = cell-struck n j q f h in
    cells-struck k (i + 1) n j p d (attack_cell n q f) h
    ∙ ap (λ e. struck (reached k (i + 1) p d e.base.pos_of) e) here
    ∙ ap (λ z. struck (reached k (i + 1) p d z) (struck (same_position (f j).base.pos_of q) (f j)))
        (struck-place (same_position (f j).base.pos_of q) (f j))
    ∙ struck-struck (same_position (f j).base.pos_of q) (reached k (i + 1) p d (f j).base.pos_of)
        (f j)

-- the first n cells are open, and the one behind them, if the range goes so far, is not
pub Clear : Map → Position → Direction → ℕ → ℕ → ℕ → Type 0
Clear m p d i range n =
    ((l : ℕ) → i ≤ l → l < i + n → open_at m (ahead p d l) ≡ true)
    × ((n ≤ range) × (n < range → open_at m (ahead p d (i + n)) ≡ false))

plus_zero : (i : ℕ) → i + 0 ≡ i
plus_zero i = omega arith

one_on : (i n : ℕ) → i + (n + 1) ≡ i + 1 + n
one_on i n = omega arith

sym_of : (i l : ℕ) → (i == l) ≡ true → l ≡ i
sym_of i l e = ground arith

clear_from-Clear :
    (range i : ℕ) (p : Position) (d : Direction) (m : Map)
    → Clear m p d i range (clear_from range i p d m)
unfolding clear_from Clear
clear_from-Clear zero i p d m =
    (λ l a b. absurd (omega arith), (omega arith, λ a. absurd (omega arith)))
clear_from-Clear (suc range) i p d m =
    let q = ahead p d i in
    let (ahead_open, (most, next)) = clear_from-Clear range (i + 1) p d m in
    elim (Bool-cases (map_is_valid_position q.x q.y)) [
      | inr a ↦ rw a (λ l x y. absurd (omega arith), (omega arith, λ h. rw (plus_zero i, a) refl))
      | inl a ↦ elim (Bool-cases (map_is_solid q.x q.y m)) [
        | inl b ↦
            rw (a, b)
              (λ l x y. absurd (omega arith), (omega arith, λ h. rw (plus_zero i, a, b) refl))
        | inr b ↦
            rw (a, b)
              (
                λ l x y. elim (Bool-cases (i == l)) [
                  | inl e ↦ rw (sym_of i l e, a, b) refl
                  | inr e ↦ ahead_open l (ground (arith, e)) (omega arith)
                ],
                (omega arith, λ h. rw (one_on i _) (next (omega arith))),
              )
      ]
    ]

-- an attack along n > 0 clear cells that paralyses whatever enemy it reaches, and no other
abbrev pub Struck : World → World → ℕ → Type 0
Struck w w' n =
    let p = w.logic.player.base.pos_of in
    let d = w.logic.player.facing_dir in
    (0 < n)
    × (Clear w.map p d 1 (attack_range d) n
        × ((j : ℕ)
            → j < w.logic.enemy_count
            → w'.logic.enemies j
              ≡ struck (reached n 1 p d (w.logic.enemies j).base.pos_of) (w.logic.enemies j)))

attack_path_clear-Clear :
    (p : Position) (d : Direction) (range : ℕ) (m : Map)
    → (dir_code d == 0) ≡ false
    → Clear m p d 1 range (attack_path_clear p d range m)
unfolding attack_path_clear
attack_path_clear-Clear p d range m h = rw h (clear_from-Clear range 1 p d m)

-- An attack either is not made, and then changes nothing, or it goes along the open cells ahead, as
-- far as they and the range reach, and paralyses every active enemy that stands on one of them and
-- is not paralysed yet, and no other.
pub player_attack-Struck :
    (w : World)
    → (((logic_player_attack w).0 ≡ false) × ((logic_player_attack w).1 ≡ w))
      ⊎ ((n : ℕ) × Struck w (logic_player_attack w).1 n)
unfolding logic_player_attack
player_attack-Struck w =
    let player = w.logic.player in
    let d = player.facing_dir in
    let p = player.base.pos_of in
    let clear = attack_path_clear p d (attack_range d) w.map in
    elim (Bool-cases (player_code player.state == 5)) [
      | inl a ↦ rw a (inl (refl, refl))
      | inr a ↦ elim (Bool-cases (dir_code d == 0)) [
        | inl b ↦ rw (a, b) (inl (refl, refl))
        | inr b ↦ elim (Bool-cases (clear == 0)) [
          | inl c ↦ rw (a, b, c) (inl (refl, refl))
          | inr c ↦
              rw (a, b, c)
                (inr (
                  clear,
                  (
                    ground (arith, c),
                    (
                      attack_path_clear-Clear p d (attack_range d) w.map b,
                      λ j hj. cells-struck clear 1 w.logic.enemy_count j p d w.logic.enemies hj,
                    ),
                  ),
                ))
        ]
      ]
    ]
