-- ===== src/Game/Input/Holding.antt =====
-- How a held movement key turns into moves.
use soa_fib.Base.{
  ℕ, zero, suc, ◌+◌, ◌≡◌, ◌≢◌, refl, ap, ◌∙◌, false, ◌==◌, leb, arith, if◌then◌else◌, Bool-cases,
  inl, inr, test_of_ne, test_of_eq,
}
use soa_fib.Game.Types.{Direction, dir_none, dir_code}
use soa_fib.Game.Input.{
  InputState, input_update, input_keyboard_handler, input_get_direction, key_direction, is_none,
  press_move, release_move,
}

-- n frames with the key still down
abbrev pub frames : ℕ → InputState → InputState
frames zero i = i
frames (suc n) i = frames n (input_update i)

-- the state's part that moves are made from
record Held (i : InputState) (d : Direction) (t : ℕ) : Type 0 where
  held : i.held_dir ≡ d
  used : i.move_just_pressed ≡ 0
  time : i.hold_time ≡ t

frames-Held :
    (n : ℕ) (i : InputState) (d : Direction) (t : ℕ)
    → is_none d ≡ false
    → Held i d t
    → Held (frames n i) d (n + t)
unfolding input_update
frames-Held zero i d t s h = record { held = h.held; used = h.used; time = ground (arith, h.time) }
frames-Held (suc n) i d t s h =
    let r = frames-Held n (input_update i) d (t + 1) s (
      rw (ap is_none h.held ∙ s)
        (record { held = h.held; used = h.used; time = ground (arith, h.time) })) in
    record { held = r.held; used = r.used; time = ground (arith, r.time) }

get_direction-Held :
    (i : InputState) (d : Direction) (t : ℕ)
    → is_none d ≡ false
    → Held i d t
    → (input_get_direction i).0 ≡ (if leb 40 t then d else dir_none)
unfolding input_get_direction
get_direction-Held i d t s h =
    rw (ap is_none h.held ∙ s, test_of_eq i.move_just_pressed 0 h.used, h.time)
      (elim (Bool-cases (leb 40 t)) [ inl e ↦ rw e h.held | inr e ↦ rw e refl ])

get_direction-press_move :
    (i : InputState) (d : Direction)
    → is_none d ≡ false
    → ((input_get_direction (press_move d i)).0 ≡ d)
      × Held (input_get_direction (press_move d i)).1 d 0
unfolding input_get_direction press_move
get_direction-press_move i d s = rw s (refl, record { held = refl; used = refl; time = refl })

-- what the handler leaves for a pressed movement key
handler-press_move :
    (i : InputState) (key pressed : ℕ)
    → is_none (key_direction key) ≡ false
    → pressed ≢ 0
    → input_keyboard_handler key pressed i
      ≡ press_move (key_direction key) (record i { last_key = key; any_key_pressed = 1 })
unfolding input_keyboard_handler
handler-press_move i key pressed s p = rw (test_of_ne pressed 0 p, s) refl

pressed-first :
    (i : InputState) (key pressed : ℕ)
    → is_none (key_direction key) ≡ false
    → pressed ≢ 0
    → let first = input_get_direction (input_keyboard_handler key pressed i) in
      (first.0 ≡ key_direction key) × Held first.1 (key_direction key) 0
pressed-first i key pressed s p =
    rw (handler-press_move i key pressed s p) (get_direction-press_move _ (key_direction key) s)

-- A movement key that is pressed gives its direction to the first query at once; then, while it
-- is held, a query gives no direction until forty frames have passed, and the direction again from
-- then on. So for any state before, and for each key that moves.
pub input_get_direction-held :
    (i : InputState) (key pressed n : ℕ)
    → is_none (key_direction key) ≡ false
    → pressed ≢ 0
    → let first = input_get_direction (input_keyboard_handler key pressed i) in
      (first.0 ≡ key_direction key)
      × ((input_get_direction (frames n first.1)).0
          ≡ (if leb 40 n then key_direction key else dir_none))
input_get_direction-held i key pressed n s p =
    let (now, h) = pressed-first i key pressed s p in
    let j = (input_get_direction (input_keyboard_handler key pressed i)).1 in
    (
      now,
      get_direction-Held (frames n j) (key_direction key) (n + 0) s
            (frames-Held n j (key_direction key) 0 s h)
          ∙ ap (λ t. if leb 40 t then key_direction key else dir_none) (omega arith),
    )

-- After a movement key is released a query gives no direction if it was the key held, and
-- otherwise the direction that it would have given before.
pub input_get_direction-released :
    (i : InputState) (key : ℕ)
    → is_none (key_direction key) ≡ false
    → (input_get_direction (input_keyboard_handler key 0 i)).0 ≡ (
        if dir_code i.held_dir == dir_code (key_direction key)
        then dir_none
        else (input_get_direction i).0)
unfolding input_get_direction input_keyboard_handler release_move
input_get_direction-released i key s =
    elim (Bool-cases (dir_code i.held_dir == dir_code (key_direction key))) [
      | inl e ↦ rw (s, e) refl
      | inr e ↦ rw (s, e) refl
    ]
