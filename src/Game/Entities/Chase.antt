-- ===== src/Game/Entities/Chase.antt =====
-- The direction that an enemy takes leads towards its target.
use soa_fib.Base.{
  ℕ, ◌+◌, ◌-◌, ◌≡◌, ◌≢◌, ◌⊎◌, refl, ap, false, ◌&&◌, ◌==◌, ltb, leb, arith, if◌then◌else◌,
  Bool-cases, inl, inr, subst, sym, test_of_ne,
}
use soa_fib.Base.Int.{pos, ◌-ℤ◌, ◌+ℤ◌, ltb_ℤ, eqb_ℤ}
use soa_fib.Game.Types.{Direction, dir_none, dir_up, dir_down, dir_left, dir_right, Position}
use soa_fib.Game.Entities.{next_position, direction_to, abs}

abbrev pub at : ℕ → ℕ → Position
at x y = record { x = pos x; y = pos y }

abbrev pub gap : ℕ → ℕ → ℕ
gap a b = (a - b) + (b - a)

same_test : (a b : ℕ) → eqb_ℤ (pos b -ℤ pos a) (pos 0) ≡ (a == b)
same_test a b = ground arith

positive_test : (a b : ℕ) → ltb_ℤ (pos 0) (pos b -ℤ pos a) ≡ ltb a b
positive_test a b = ground arith

abs-gap : (a b : ℕ) → abs (pos b -ℤ pos a) ≡ pos (gap a b)
abs-gap a b = elim (Bool-cases (leb a b)) [ inl e ↦ ground (arith, e) | inr e ↦ ground (arith, e) ]

-- the choice, in the coordinates of the map
chosen :
    (x y tx ty : ℕ)
    → direction_to (at x y) (at tx ty) ≡ (
        if (x == tx) && (y == ty)
        then dir_none
        else if ltb (gap y ty) (gap x tx)
        then (if ltb x tx then dir_right else dir_left)
        else if ltb y ty
        then dir_down
        else dir_up)
unfolding direction_to
chosen x y tx ty =
    rw
      (
        same_test x tx,
        same_test y ty,
        positive_test x tx,
        positive_test y ty,
        abs-gap x tx,
        abs-gap y ty,
      )
      (ground arith)

back_one : (a : ℕ) → 0 ≢ a → pos a -ℤ pos 1 ≡ pos (a - 1)
back_one a h = ground arith

on_one : (a : ℕ) → pos a +ℤ pos 1 ≡ pos (a + 1)
on_one a = ground arith

abbrev Closer : ℕ → ℕ → ℕ → ℕ → Direction → Type 0
Closer x y tx ty d =
    (x' : ℕ) × (y' : ℕ) × (next_position (at x y) d ≡ at x' y')
    × (gap x' tx + gap y' ty + 1 ≡ gap x tx + gap y ty)

-- A step in the direction chosen brings an entity on the map one place closer to its target,
-- counted along rows and columns. So for a target that is not where the entity stands.
pub direction_to-closer :
    (x y tx ty : ℕ)
    → (x ≢ tx) ⊎ (y ≢ ty)
    → (x' : ℕ) × (y' : ℕ) × (next_position (at x y) (direction_to (at x y) (at tx ty)) ≡ at x' y')
      × (gap x' tx + gap y' ty + 1 ≡ gap x tx + gap y ty)
unfolding next_position
direction_to-closer x y tx ty ne = subst (Closer x y tx ty) (sym (chosen x y tx ty)) (
    rw (apart ne) (elim (Bool-cases (ltb (gap y ty) (gap x tx))) [
      | inl e ↦ elim (Bool-cases (ltb x tx)) [
        | inl f ↦
            rw (e, f)
              (x + 1, y, ap (λ z. record { x = z; y = pos y }) (on_one x), ground (arith, e, f))
        | inr f ↦
            rw (e, f)
              (
                x - 1,
                y,
                ap (λ z. record { x = z; y = pos y }) (back_one x (ground (arith, e, f))),
                ground (arith, e, f),
              )
      ]
      | inr e ↦ elim (Bool-cases (ltb y ty)) [
        | inl f ↦
            rw (e, f)
              (x, y + 1, ap (λ z. record { x = pos x; y = z }) (on_one y), ground (arith, e, f))
        | inr f ↦
            rw (e, f)
              (
                x,
                y - 1,
                ap (λ z. record { x = pos x; y = z }) (back_one y (ground (arith, e, f, ne))),
                ground (arith, e, f, ne),
              )
      ]
    ]))
  where
    apart : (x ≢ tx) ⊎ (y ≢ ty) → ((x == tx) && (y == ty)) ≡ false
    apart (inl n) = rw (test_of_ne x tx n) refl
    apart (inr n) = rw (test_of_ne y ty n) (ground arith)
