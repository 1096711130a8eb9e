-- ===== src/Game/Logic/Tally.antt =====
-- The tally of a round: the live enemies are those that `enemies_remaining` counts, and the score
-- is within its bound. The children say that each part of the update keeps it.
pub mod Player
pub mod Enemies
pub mod Rocks
pub mod Update
use soa_fib.Base.{
  ℕ, zero, suc, ◌+◌, ◌*◌, ◌≤◌, ◌<◌, ◌≡◌, refl, ap, sym, subst, ◌∙◌, Bool, true, false, not, ◌&&◌,
  ◌||◌, ◌==◌, ltb, leb, arith, Bool-cases, if◌then◌else◌, both, update, update_self, update_ne, inl,
  inr, eq_of_test,
}
use soa_fib.Base.Int.{ℤ, pos, ◌+ℤ◌, ◌-ℤ◌, leb_ℤ}
use soa_fib.Game.Logic.State.{
  GameScene, Enemy, enemy_dead, enemy_inflating, enemy_code, GameLogicState, max_score,
  inflate_levels,
}
use soa_fib.Game.Logic.Score.{
  alive, put_enemy, kill_enemy, logic_add_score, logic_calculate_enemy_points, logic_enemy_inflate,
  logic_player_die, logic_check_round_complete, logic_check_game_over, logic_dev_kill_enemy,
  dev_kill_from,
}

abbrev one_if : Bool → ℕ
one_if b = if b then 1 else 0

-- the live enemies among the first n
pub live : ℕ → (ℕ → Enemy) → ℕ
live zero f = 0
live (suc n) f = one_if (alive (f n)) + live n f

pub live-none : (f : ℕ → Enemy) → live 0 f ≡ 0
unfolding live
live-none f = refl

-- an active enemy is not a dead one
abbrev pub settled : Enemy → Bool
settled e = (e.base.active == 0) || not (enemy_code e.state == enemy_code enemy_dead)

pub record Counted (scene : GameScene) (n : ℕ) (s : GameLogicState) : Type 0 where
  pub stage : s.scene ≡ scene
  pub size : s.enemy_count ≡ n
  pub bounded : s.score ≤ max_score
  pub remaining : s.enemies_remaining ≡ pos (live n s.enemies)
  pub quiet : (i : ℕ) → i < n → settled (s.enemies i) ≡ true

live-outside : (n i : ℕ) (e : Enemy) (f : ℕ → Enemy) → n ≤ i → live n (update f i e) ≡ live n f
unfolding live
live-outside zero i e f h = refl
live-outside (suc n) i e f h =
    rw (update_ne f i n e (omega arith), live-outside n i e f (omega arith)) refl

abbrev weight : Enemy → ℕ
weight e = one_if (alive e)

live-update :
    (n i : ℕ) (e : Enemy) (f : ℕ → Enemy)
    → i < n
    → live n (update f i e) + weight (f i) ≡ live n f + weight e
unfolding live
live-update zero i e f h = absurd (omega arith)
live-update (suc n) i e f h = elim (Bool-cases (i == n)) [
  | inl g ↦
      rw (eq_of_test i n g, update_self f n e, live-outside n n e f (omega arith)) (omega arith)
  | inr g ↦
      let rest = live-update n i e f (ground arith) in
      rw (update_ne f i n e (ground arith)) (omega arith)
]

update-quiet :
    (n i : ℕ) (e : Enemy) (f : ℕ → Enemy)
    → settled e ≡ true
    → ((k : ℕ) → k < n → settled (f k) ≡ true)
    → (k : ℕ) → k < n
    → settled (update f i e k) ≡ true
update-quiet n i e f he hf k hk = elim (Bool-cases (i == k)) [
  | inl g ↦ rw g he
  | inr g ↦ rw g (hf k hk)
]

module _ (scene : GameScene) where
  -- an enemy is changed, and is as live as before
  pub put_enemy-Counted :
      (n i : ℕ) (e : Enemy) (s : GameLogicState)
      → i < n
      → alive e ≡ alive (s.enemies i)
      → settled e ≡ true
      → Counted scene n s
      → Counted scene n (put_enemy i e s)
  put_enemy-Counted n i e s hi ha he c = record {
    stage = c.stage;
    size = c.size;
    bounded = c.bounded;
    remaining =
        let same = live-update n i e s.enemies hi in
        c.remaining ∙ ap pos (omega (arith, same, ap one_if ha));
    quiet = update-quiet n i e s.enemies he c.quiet;
  }

  pub add_score-Counted :
      (n points : ℕ) (s : GameLogicState)
      → Counted scene n s
      → Counted scene n (logic_add_score points s)
  unfolding logic_add_score
  add_score-Counted n points s c = record {
    stage = c.stage;
    size = c.size;
    bounded = let b = c.bounded in ground (arith, b);
    remaining = c.remaining;
    quiet = c.quiet;
  }

  -- a live enemy is killed, and counted out
  pub kill_enemy-Counted :
      (n i k : ℕ) (s : GameLogicState)
      → i < n
      → alive (s.enemies i) ≡ true
      → Counted scene n s
      → Counted scene n (kill_enemy i k s)
  unfolding kill_enemy
  kill_enemy-Counted n i k s hi ha c =
      let e = s.enemies i in
      let dead : Enemy = record e { state = enemy_dead; base = record (e.base) { active = 0 } } in
      let counted = live-update n i dead s.enemies hi in
      add_score-Counted n (logic_calculate_enemy_points e.base.pos_of.y * k) _ (record {
        stage = c.stage;
        size = c.size;
        bounded = c.bounded;
        remaining = less _ _ (ap (λ z. z -ℤ pos 1) c.remaining) (rw ha at counted);
        quiet = update-quiet n i dead s.enemies refl c.quiet;
      })
    where
      less : {r : ℤ} (a b : ℕ) → r ≡ pos a -ℤ pos 1 → b + 1 ≡ a + 0 → r ≡ pos b
      less a b e h = e ∙ ground (arith, h)

  pub inflate-Counted :
      (n i : ℕ) (s : GameLogicState)
      → i < n
      → alive (s.enemies i) ≡ true
      → Counted scene n s
      → Counted scene n (logic_enemy_inflate i s)
  unfolding logic_enemy_inflate
  inflate-Counted n i s hi ha c =
      let e = s.enemies i in
      let level = e.inflate_level +ℤ pos 1 in
      let fat : Enemy = record e { state = enemy_inflating; inflate_level = level } in
      let still = still_alive e ha in
      let grown = put_enemy-Counted n i fat s hi (still.0 ∙ sym ha) still.1 c in
      elim (Bool-cases (enemy_code e.state == 4)) [
        | inl g ↦ rw g c
        | inr g ↦ elim (Bool-cases (leb_ℤ (pos inflate_levels) level)) [
          | inl h ↦
              rw (g, h)
                (kill_enemy-Counted n i 1 _ hi (ap alive (update_self s.enemies i fat) ∙ still.0)
                  grown)
          | inr h ↦ rw (g, h) grown
        ]
      ]
    where
      still_alive :
          (e : Enemy)
          → alive e ≡ true
          → ((not (e.base.active == 0) && true) ≡ true) × (((e.base.active == 0) || true) ≡ true)
      still_alive e h = (ground (arith, h), ground arith)

  pub die-Counted :
      (n : ℕ) (s : GameLogicState) → Counted scene n s → Counted scene n (logic_player_die s)
  unfolding logic_player_die
  die-Counted n s c = record {
    stage = c.stage;
    size = c.size;
    bounded = c.bounded;
    remaining = c.remaining;
    quiet = c.quiet;
  }

  abbrev Stood : ℕ → GameLogicState → Type 0
  Stood n s = Counted s.scene n s

  restage :
      {n : ℕ} {s t : GameLogicState}
      → Counted scene n s
      → t.enemy_count ≡ s.enemy_count
      → t.score ≡ s.score
      → t.enemies_remaining ≡ s.enemies_remaining
      → t.enemies ≡ s.enemies
      → Stood n t
  restage c a b d e = record {
    stage = refl;
    size = a ∙ c.size;
    bounded = rw b c.bounded;
    remaining = rw (d, e) c.remaining;
    quiet = rw e c.quiet;
  }

  pub round_complete-Counted :
      (n time : ℕ) (s : GameLogicState)
      → Counted scene n s
      → Stood n (logic_check_round_complete time s)
  unfolding logic_check_round_complete
  round_complete-Counted n time s c =
      let cleared =
        if s.enemies_cleared_time == 0 then time + 3 * 320 else s.enemies_cleared_time in
      both (Stood n) (leb_ℤ s.enemies_remaining (pos 0))
        (both (Stood n) (leb_ℤ (pos cleared -ℤ pos time) (pos 0))
          (both (Stood n) (leb 5 s.round) (restage c refl refl refl refl)
            (restage c refl refl refl refl))
          (restage c refl refl refl refl))
        (restage c refl refl refl refl)

  pub game_over-Counted :
      (n : ℕ) (s : GameLogicState) → Counted scene n s → Stood n (logic_check_game_over s)
  unfolding logic_check_game_over
  game_over-Counted n s c =
      both (Stood n) (leb_ℤ s.lives (pos 0)) (restage c refl refl refl refl)
        (restage c refl refl refl refl)

  dev_kill_from-Counted :
      (n k i : ℕ) (s : GameLogicState)
      → i + k ≤ n
      → Counted scene n s
      → Counted scene n (dev_kill_from k i s).1
  unfolding dev_kill_from
  dev_kill_from-Counted n zero i s h c = c
  dev_kill_from-Counted n (suc k) i s h c = elim (Bool-cases (alive (s.enemies i))) [
    | inl e ↦ rw e (kill_enemy-Counted n i 1 s (omega arith) e c)
    | inr e ↦ rw e (dev_kill_from-Counted n k (i + 1) s (omega arith) c)
  ]

  pub dev_kill-Counted :
      (n : ℕ) (s : GameLogicState) → Counted scene n s → Counted scene n (logic_dev_kill_enemy s).1
  unfolding logic_dev_kill_enemy
  dev_kill-Counted n s c =
      let size = c.size in dev_kill_from-Counted n s.enemy_count 0 s (omega (arith, size)) c

  pub live-same :
      (n : ℕ) (f g : ℕ → Enemy)
      → ((k : ℕ) → k < n → alive (g k) ≡ alive (f k))
      → live n g ≡ live n f
  unfolding live
  live-same zero f g h = refl
  live-same (suc n) f g h = rw (h n (omega arith), live-same n f g (λ k hk. h k (omega arith))) refl

  -- all enemies are changed, and each is as live as before
  pub each-Counted :
      (n : ℕ) (g : ℕ → Enemy) (s : GameLogicState)
      → ((k : ℕ) → k < n → alive (g k) ≡ alive (s.enemies k))
      → ((k : ℕ) → k < n → settled (g k) ≡ true)
      → Counted scene n s
      → Counted scene n (record s { enemies = g })
  each-Counted n g s h q c = record {
    stage = c.stage;
    size = c.size;
    bounded = c.bounded;
    remaining = c.remaining ∙ ap pos (sym (live-same n s.enemies g h));
    quiet = q;
  }
