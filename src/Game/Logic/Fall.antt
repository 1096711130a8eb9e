-- ===== src/Game/Logic/Fall.antt =====
-- What becomes of a rock: once it has begun to wobble it falls, blinks and is gone.
use soa_fib.Base.{
  ℕ, ◌+◌, ◌-◌, ◌*◌, ◌≤◌, ◌<◌, ◌≡◌, refl, ap, sym, subst, ◌∙◌, Bool, true, false, not, ◌||◌, ◌==◌,
  arith, Bool-cases, if◌then◌else◌, both, inl, inr, update_self, eq_of_test, List, [], ◌∷◌, length,
}
use soa_fib.Base.Int.{ℤ, pos, ◌+ℤ◌, ◌-ℤ◌, leb_ℤ, pos_part, neg_part}
use soa_fib.Game.Types.{Position}
use soa_fib.Game.Map.{map_is_valid_position, map_is_solid}
use soa_fib.Game.Logic.State.{
  Rock, RockState, rock_stable, rock_wobbling, rock_falling, rock_landed, rock_blinking, World,
}
use soa_fib.Game.Logic.Rocks.{
  below, logic_check_rock_crush, logic_rock_fall, wobble_rock, blink_rock, rock_turn, update_rock,
}

abbrev stable : RockState → Bool
stable rock_stable = true
stable rock_wobbling = false
stable rock_falling = false
stable rock_landed = false
stable rock_blinking = false

-- the rows below a place, the border's row included
abbrev rows_left : ℤ → ℕ
rows_left y = 24 + neg_part y - pos_part y

-- how many updates a rock that has begun to wobble has left at most
abbrev pub lasts : RockState → Rock → ℕ
lasts rock_stable r = 0
lasts rock_wobbling r = pos_part r.wobble_timer + rows_left r.base.pos_of.y + 46
lasts rock_falling r = rows_left r.base.pos_of.y + 45
lasts rock_blinking r = pos_part r.blink_count * 11 + pos_part r.blink_timer + 1
lasts rock_landed r = 1

abbrev pub time_left : Rock → ℕ
time_left r = if r.base.active == 0 then 0 else lasts r.state r

-- what an update does to rock r
abbrev pub rock_next : World → Rock → Rock
rock_next w r = if r.base.active == 0 then r else (rock_turn r.state r w).0

-- in motion, with less time, or gone
Nearer : ℕ → Rock → Type 0
Nearer n r = (stable r.state ≡ false) × (time_left r < n)

nearer :
    (n : ℕ) (t : RockState) (r : Rock) → r.state ≡ t → stable t ≡ false → lasts t r < n → Nearer n r
unfolding Nearer
nearer n t r e moving h = (
  ap stable e ∙ moving,
  both (λ (k : ℕ). k < n) (r.base.active == 0) (omega arith) (subst (λ z. lasts z r < n) (sym e) h),
)

gone-Nearer :
    (n : ℕ) (r : Rock) → (r.base.active == 0) ≡ true → stable r.state ≡ false → 0 < n → Nearer n r
unfolding Nearer
gone-Nearer n r gone moving h = (moving, rw gone h)

wobble-Nearer :
    (r : Rock) → r.state ≡ rock_wobbling → Nearer (lasts rock_wobbling r) (wobble_rock r)
unfolding wobble_rock
wobble-Nearer r e = elim (Bool-cases (leb_ℤ (r.wobble_timer -ℤ pos 1) (pos 0))) [
  | inl g ↦ rw g (nearer _ rock_falling _ refl refl (omega arith))
  | inr g ↦ rw g (nearer _ rock_wobbling _ e refl (ground (arith, g)))
]

blink-Nearer : (r : Rock) → r.state ≡ rock_blinking → Nearer (lasts rock_blinking r) (blink_rock r)
unfolding blink_rock
blink-Nearer r e =
    let timer = r.blink_timer -ℤ pos 1 in
    let count = r.blink_count -ℤ pos 1 in
    elim (Bool-cases (leb_ℤ timer (pos 0))) [
      | inr g ↦ rw g (nearer _ rock_blinking _ e refl (ground (arith, g)))
      | inl g ↦ elim (Bool-cases (leb_ℤ count (pos 0))) [
        | inl h ↦ rw (g, h) (gone-Nearer _ _ refl refl (omega arith))
        | inr h ↦ rw (g, h) (nearer _ rock_blinking _ e refl (ground (arith, h)))
      ]
    ]

inside_rows :
    (p : Position)
    → map_is_valid_position p.x (p.y +ℤ pos 1) ≡ true
    → rows_left (p.y +ℤ pos 1) < rows_left p.y
unfolding map_is_valid_position
inside_rows p h = ground (arith, h)

fall-Nearer :
    (r : Rock) (w : World)
    → r.state ≡ rock_falling
    → Nearer (lasts rock_falling r) (logic_rock_fall r w).0
unfolding logic_rock_fall logic_check_rock_crush
fall-Nearer r w e =
    let p = below r.base.pos_of in
    elim (Bool-cases (not (map_is_valid_position p.x p.y) || map_is_solid p.x p.y w.map)) [
      | inl g ↦ rw g (nearer _ rock_blinking _ refl refl (omega arith))
      | inr g ↦
          let less = inside_rows r.base.pos_of (ground (arith, g)) in
          rw g (
            nearer _ rock_falling _
              (both (λ (z : Rock). z.state ≡ rock_falling) (logic_check_rock_crush r w.logic).0 e e)
              refl (omega arith))
    ]

turn-Nearer :
    (t : RockState) (r : Rock) (w : World)
    → r.state ≡ t
    → stable t ≡ false
    → Nearer (lasts t r) (rock_turn t r w).0
unfolding rock_turn
turn-Nearer rock_stable r w e h = absurd (ground (arith, h))
turn-Nearer rock_wobbling r w e h = wobble-Nearer r e
turn-Nearer rock_falling r w e h = fall-Nearer r w e
turn-Nearer rock_blinking r w e h = blink-Nearer r e
turn-Nearer rock_landed r w e h = gone-Nearer _ _ refl (rw e refl) (omega arith)

next-Nearer :
    (n : ℕ) (r : Rock) (w : World)
    → stable r.state ≡ false
    → time_left r ≤ n
    → (stable (rock_next w r).state ≡ false) × (time_left (rock_next w r) ≤ n - 1)
unfolding Nearer
next-Nearer n r w moving h = elim (Bool-cases (r.base.active == 0)) [
  | inl e ↦ rw e (moving, rw e (omega arith))
  | inr e ↦
      let (still, less) = turn-Nearer r.state r w refl moving in
      let most = rw e at h in rw e (still, omega arith)
]

still_there :
    (t : RockState) (r : Rock)
    → r.state ≡ t
    → stable t ≡ false
    → time_left r ≡ 0
    → r.base.active ≡ 0
still_there t r e moving h = elim (Bool-cases (r.base.active == 0)) [
  | inl g ↦ eq_of_test _ 0 g
  | inr g ↦ let none = subst (λ z. lasts z r ≡ 0) e (rw g at h) in absurd (never t r moving none)
]
  where
    never : (t : RockState) (r : Rock) → stable t ≡ false → lasts t r ≡ 0 → ⊥
    never rock_stable r moving h = ground (arith, moving)
    never rock_wobbling r moving h = omega arith
    never rock_falling r moving h = omega arith
    never rock_blinking r moving h = omega arith
    never rock_landed r moving h = omega arith

-- a rock through updates of worlds that may differ in all else
abbrev pub rock_after : List World → Rock → Rock
rock_after [] r = r
rock_after (w ∷ ws) r = rock_after ws (rock_next w r)

-- A rock that has begun to wobble is gone after as many updates as its timers and the rows below it
-- allow, whatever becomes of the map, the player and the enemies in the meantime.
pub rock_after-gone :
    (ws : List World) (r : Rock)
    → stable r.state ≡ false
    → time_left r ≤ length ws
    → (rock_after ws r).base.active ≡ 0
rock_after-gone [] r moving h = still_there r.state r refl moving (omega arith)
rock_after-gone (w ∷ ws) r moving h =
    let (still, less) = next-Nearer (length (w ∷ ws)) r w moving h in
    rock_after-gone ws (rock_next w r) still (omega arith)

-- An update of rock i of a world is one of these steps.
pub update_rock-rock_next :
    (i : ℕ) (w : World) → (update_rock i w).rocks i ≡ rock_next w (w.logic.rocks i)
unfolding update_rock
update_rock-rock_next i w =
    let r = w.logic.rocks i in
    elim (Bool-cases (r.base.active == 0)) [
      | inl e ↦ rw e refl
      | inr e ↦ rw e (update_self (rock_turn r.state r w).1.rocks i (rock_turn r.state r w).0)
    ]
