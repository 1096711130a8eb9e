-- ===== src/Game/Logic/Path/Route.antt =====
-- The direction that the path search returns begins a way through cells that may be entered.
use soa_fib.Base.{
  ℕ, zero, suc, ◌+◌, ◌≡◌, refl, subst, Bool, true, false, not, ◌&&◌, ◌||◌, ◌==◌, ltb, arith,
  Bool-cases, update, update_self, ◌⊎◌, inl, inr, some, eq_of_test,
}
use soa_fib.Base.Int.{pos_part}
use soa_fib.Game.Types.{
  Direction, dir_none, dir_up, dir_down, dir_left, dir_right, dir_code, Position,
}
use soa_fib.Game.Map.{Map, map_is_valid_position, map_is_walkable}
use soa_fib.Game.Entities.{next_position}
use soa_fib.Game.Logic.Queue.{DijkstraNode, pq_init, pq_empty, pq_pop}
use soa_fib.Game.Logic.Queue.Members.{Every, pq_push-Every, pq_pop-Every, pq_pop-taken}
use soa_fib.Game.Logic.Path.{
  Search, write, read, move_cost, dir_to_use, visit, visit_all, same_position, search_step,
  search_loop, search_init, search_fuel, direction_or_none, logic_find_path_bfs,
}

-- a cell of the map that may be entered
abbrev pub Enters : Map → Bool → Position → Type 0
Enters m can_pass_walls p =
    (map_is_valid_position p.x p.y ≡ true) × ((can_pass_walls || map_is_walkable p.x p.y m) ≡ true)

-- The ways from a cell: the first direction, the cell they lead to, and what they cost.
pub data Route (m : Map) (walls : Bool) (start : Position) : Direction → Position → ℕ → Type 0 where
  stay : Route m walls start dir_none start 0
  go_on :
      {d : Direction} {p : Position} {c : ℕ}
      → Route m walls start d p c
      → (e : Direction) → (dir_code e == 0) ≡ false
      → Enters m walls (next_position p e)
      → Route m walls start
          (dir_to_use d e)
          (next_position p e)
          (c + move_cost walls (next_position p e) m)

pub same_cell :
    (p q : Position)
    → map_is_valid_position p.x p.y ≡ true
    → map_is_valid_position q.x q.y ≡ true
    → pos_part p.y ≡ pos_part q.y
    → pos_part p.x ≡ pos_part q.x
    → p ≡ q
unfolding map_is_valid_position
same_cell p q hp hq ey ex = same p q (ground arith) (ground arith)
  where
    same : (p q : Position) → p.x ≡ q.x → p.y ≡ q.y → p ≡ q
    same p q e g = λ i. record { x = e i; y = g i }

module _ {ℓ} {A : Type ℓ} (f : ℕ → ℕ → A) where
  pub read_written : (p : Position) (v : A) → read (write f p v) p ≡ v
  read_written p v =
      rw (update_self f (pos_part p.y) (update (f (pos_part p.y)) (pos_part p.x) v))
        (update_self (f (pos_part p.y)) (pos_part p.x) v)

  pub read_other :
      (p q : Position) (v : A)
      → ((pos_part p.y == pos_part q.y) && (pos_part p.x == pos_part q.x)) ≡ false
      → read (write f p v) q ≡ read f q
  read_other p q v h = elim (Bool-cases (pos_part p.y == pos_part q.y)) [
    | inl e ↦ rw (e, eq_of_test _ _ e, column (pos_part p.x == pos_part q.x) e h) refl
    | inr e ↦ rw e refl
  ]
    where
      column : {a : Bool} (b : Bool) → a ≡ true → (a && b) ≡ false → b ≡ false
      column b e h = ground (arith, e, h)

module _ (m : Map) (walls : Bool) (start : Position) where
  abbrev Reached : DijkstraNode → Type 0
  Reached n =
      (map_is_valid_position n.pos_of.x n.pos_of.y ≡ true)
      × Route m walls start n.first_dir n.pos_of n.cost

  abbrev Known : (ℕ → ℕ → ℕ) → (ℕ → ℕ → Direction) → Type 0
  Known cost first =
      (p : Position)
      → map_is_valid_position p.x p.y ≡ true
      → (read first p ≡ dir_none) ⊎ Route m walls start (read first p) p (read cost p)

  abbrev Sound : Search → Type 0
  Sound s = Every Reached s.queue × Known s.cost s.first_dir

  write-Known :
      (cost : ℕ → ℕ → ℕ) (first : ℕ → ℕ → Direction) (p : Position) (d : Direction) (c : ℕ)
      → map_is_valid_position p.x p.y ≡ true
      → Route m walls start d p c
      → Known cost first
      → Known (write cost p c) (write first p d)
  write-Known cost first p d c hp way known q hq =
      elim (Bool-cases ((pos_part p.y == pos_part q.y) && (pos_part p.x == pos_part q.x))) [
        | inl e ↦
            let same = same_cell p q hp hq (ground (arith, e)) (ground (arith, e)) in
            inr (
              subst
                (λ z. Route m walls start (read (write first p d) z) z (read (write cost p c) z))
                same (rw (read_written first p d, read_written cost p c) way))
        | inr e ↦ rw (read_other first p q d e, read_other cost p q c e) (known q hq)
      ]

  visit-Sound :
      (n : DijkstraNode) (d : Direction) (s : Search)
      → (dir_code d == 0) ≡ false
      → Reached n
      → Sound s
      → Sound (visit m walls n d s)
  unfolding visit
  visit-Sound n d s ne here (all, known) =
      let p = next_position n.pos_of d in
      let c = n.cost + move_cost walls p m in
      elim (Bool-cases (map_is_valid_position p.x p.y)) [
        | inr e ↦ rw e (all, known)
        | inl e ↦ elim (Bool-cases (not walls && not (map_is_walkable p.x p.y m))) [
          | inl g ↦ rw (e, g) (all, known)
          | inr g ↦ elim (Bool-cases (ltb c (read s.cost p))) [
            | inr h ↦ rw (e, g, h) (all, known)
            | inl h ↦
                let way = go_on here.1 d ne (e, ground (arith, g)) in
                rw (e, g, h)
                  (
                    pq_push-Every Reached p (dir_to_use n.first_dir d) c s.queue (e, way) all,
                    write-Known s.cost s.first_dir p (dir_to_use n.first_dir d) c e way known,
                  )
          ]
        ]
      ]

  visit_all-Sound :
      (n : DijkstraNode) (s : Search) → Reached n → Sound s → Sound (visit_all m walls n s)
  unfolding visit_all
  visit_all-Sound n s here ok = visit-Sound n dir_right _ refl here (
      visit-Sound n dir_left _ refl here
        (visit-Sound n dir_down _ refl here (visit-Sound n dir_up s refl here ok)))

  -- a result, or a search that is still sound
  Good : Position → Direction ⊎ Search → Type 0
  Good target (inl d) = (d ≡ dir_none) ⊎ ((c : ℕ) × Route m walls start d target c)
  Good target (inr s) = Sound s

  search_step-Good :
      (target : Position) (s : Search)
      → map_is_valid_position target.x target.y ≡ true
      → Sound s
      → Good target (search_step m target walls s)
  unfolding search_step Good pq_empty
  search_step-Good target s ht (all, known) =
      let n = (pq_pop s.queue).0 in
      let rest = pq_pop-Every Reached s.queue all in
      elim (Bool-cases (s.queue.size == 0)) [
        | inl e ↦ rw e (inl refl)
        | inr e ↦ elim (Bool-cases (same_position n.pos_of target)) [
          | inl g ↦
              rw (e, g)
                (elim (known target ht) [ inl k ↦ inl k | inr way ↦ inr (read s.cost target, way) ])
          | inr g ↦ elim (Bool-cases (ltb (read s.cost n.pos_of) n.cost)) [
            | inl h ↦ rw (e, g, h) (rest, known)
            | inr h ↦
                rw (e, g, h)
                  (visit_all-Sound n (record s { queue = (pq_pop s.queue).1 })
                    (pq_pop-taken Reached s.queue e all) (rest, known))
          ]
        ]
      ]

  abbrev Leads : Position → Direction → Type 0
  Leads target d = (d ≡ dir_none) ⊎ ((c : ℕ) × Route m walls start d target c)

  search_loop-Leads :
      (fuel : ℕ) (target : Position) (s : Search)
      → map_is_valid_position target.x target.y ≡ true
      → Sound s
      → Leads target (direction_or_none (search_loop fuel m target walls s))
  unfolding search_loop Good
  search_loop-Leads zero target s ht ok = inl refl
  search_loop-Leads (suc fuel) target s ht ok =
      go (λ s1. search_loop-Leads fuel target s1 ht) (search_step m target walls s)
        (search_step-Good target s ht ok)
    where
      go :
          ((s1 : Search)
            → Sound s1
            → Leads target (direction_or_none (search_loop fuel m target walls s1)))
          → (r : Direction ⊎ Search) → Good target r
          → Leads target (
              direction_or_none
                (elim r [ inl d ↦ some d | inr s1 ↦ search_loop fuel m target walls s1 ]))
      go again (inl d) g = g
      go again (inr s1) g = again s1 g

turned : (d e : Direction) → (dir_code e == 0) ≡ false → (dir_code (dir_to_use d e) == 0) ≡ false
unfolding dir_to_use
turned d e a = elim (Bool-cases (dir_code d == 0)) [ inl g ↦ rw g a | inr g ↦ rw g g ]

first_turn : (d e : Direction) → (dir_code d == 0) ≡ true → dir_to_use d e ≡ e
unfolding dir_to_use
first_turn d e g = rw g refl

later_turn : (d e : Direction) → (dir_code d == 0) ≡ false → dir_to_use d e ≡ d
unfolding dir_to_use
later_turn d e g = rw g refl

module _ {m : Map} {walls : Bool} {start : Position} where
  -- Where no direction has been taken, the way is still at its start.
  Route-start :
      {d : Direction} {p : Position} {c : ℕ}
      → Route m walls start d p c
      → (dir_code d == 0) ≡ true
      → p ≡ start
  Route-start stay e = refl
  Route-start (go_on {d} way e moves enters) h =
      let t = turned d e moves in absurd (ground (arith, h, t))

  -- A way's first direction leads into a cell that may be entered.
  pub Route-Enters :
      {d : Direction} {p : Position} {c : ℕ}
      → Route m walls start d p c
      → (dir_code d == 0) ≡ false
      → Enters m walls (next_position start d)
  Route-Enters stay h = absurd (ground arith)
  Route-Enters (go_on {d} way e moves enters) h = elim (Bool-cases (dir_code d == 0)) [
    | inl g ↦
        rw (first_turn d e g)
          (subst (λ z. Enters m walls (next_position z e)) (Route-start way g) enters)
    | inr g ↦ rw (later_turn d e g) (Route-Enters way g)
  ]

-- The direction that the path search returns for two cells of the map is none, or it begins a way
-- from the first cell to the second, through cells of the map only and, if walls may not be
-- passed, through walkable cells only.
pub logic_find_path_bfs-Route :
    (start target : Position) (walls : Bool) (m : Map)
    → map_is_valid_position start.x start.y ≡ true
    → map_is_valid_position target.x target.y ≡ true
    → let d = logic_find_path_bfs start target walls m in
      (d ≡ dir_none) ⊎ ((c : ℕ) × Route m walls start d target c)
unfolding logic_find_path_bfs search_init pq_init
logic_find_path_bfs-Route start target walls m hs ht =
    search_loop-Leads m walls start search_fuel target _ ht (
      pq_push-Every (Reached m walls start) start dir_none 0 _ (hs, stay)
          (λ k hk. absurd (omega arith)),
      λ p hp. inl refl,
    )
