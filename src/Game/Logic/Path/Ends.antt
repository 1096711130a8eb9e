-- ===== src/Game/Logic/Path/Ends.antt =====
-- The path search ends: a round takes a node off the queue, and whenever a node is pushed the cost
-- of a cell of the map goes down.
use soa_fib.Base.{
  ℕ, zero, suc, ◌+◌, ◌*◌, ◌≤◌, ◌<◌, ◌≡◌, refl, Bool, true, false, not, ◌&&◌, ◌==◌, ltb, arith,
  Bool-cases, update, update_self, update_ne, ◌⊎◌, inl, inr, Option, none, some, eq_of_test,
}
use soa_fib.Base.Int.{pos_part}
use soa_fib.Game.Types.{
  Direction, dir_none, dir_up, dir_down, dir_left, dir_right, Position, map_width, map_height,
}
use soa_fib.Game.Map.{Map, map_is_valid_position, map_is_walkable}
use soa_fib.Game.Entities.{next_position}
use soa_fib.Game.Logic.Queue.{
  DijkstraNode, PriorityQueue, pq_init, pq_empty, pq_full, pq_push, pq_pop,
}
use soa_fib.Game.Logic.Path.{
  Search, write, read, move_cost, dir_to_use, visit, visit_all, same_position, search_step,
  search_loop, search_init, old_queue, search_fuel, infinity, direction_or_none,
  logic_find_path_bfs,
}

-- f 0 + … + f (n - 1)
sum : ℕ → (ℕ → ℕ) → ℕ
sum zero f = 0
sum (suc n) f = f n + sum n f

sum-ext : (n : ℕ) (f g : ℕ → ℕ) → ((k : ℕ) → f k ≡ g k) → sum n f ≡ sum n g
unfolding sum
sum-ext zero f g e = refl
sum-ext (suc n) f g e = rw (e n, sum-ext n f g e) refl

sum-outside : (n i v : ℕ) (f : ℕ → ℕ) → n ≤ i → sum n (update f i v) ≡ sum n f
unfolding sum
sum-outside zero i v f h = refl
sum-outside (suc n) i v f h =
    rw (update_ne f i n v (omega arith), sum-outside n i v f (omega arith)) refl

sum-update : (n i v : ℕ) (f : ℕ → ℕ) → i < n → sum n (update f i v) + f i ≡ sum n f + v
unfolding sum
sum-update zero i v f h = absurd (omega arith)
sum-update (suc n) i v f h = elim (Bool-cases (i == n)) [
  | inl e ↦
      let same = eq_of_test i n e in
      rw (same, update_self f n v, sum-outside n n v f (omega arith)) (omega arith)
  | inr e ↦
      let rest = sum-update n i v f (ground arith) in
      rw (update_ne f i n v (ground arith)) (omega arith)
]

-- the sum of the costs of all cells
total : (ℕ → ℕ → ℕ) → ℕ
total cost = sum 24 (λ y. sum 80 (cost y))

total-write :
    (cost : ℕ → ℕ → ℕ) (p : Position) (c : ℕ)
    → pos_part p.y < 24
    → pos_part p.x < 80
    → total (write cost p c) + read cost p ≡ total cost + c
unfolding total
total-write cost p c hy hx =
    let y = pos_part p.y in
    let x = pos_part p.x in
    let row = sum-update 80 x c (cost y) hx in
    let all = sum-update 24 y (sum 80 (update (cost y) x c)) (λ r. sum 80 (cost r)) hy in
    let same =
      sum-ext 24 (λ r. sum 80 (write cost p c r))
        (update (λ r. sum 80 (cost r)) y (sum 80 (update (cost y) x c))) (λ r. over y x r) in
    omega (arith, same, all, row)
  where
    over :
        (y x r : ℕ)
        → sum 80 (update cost y (update (cost y) x c) r)
          ≡ update (λ k. sum 80 (cost k)) y (sum 80 (update (cost y) x c)) r
    over y x r = elim (Bool-cases (y == r)) [ inl e ↦ rw e refl | inr e ↦ rw e refl ]

-- what a round lowers
measure : Search → ℕ
measure s = s.queue.size + total s.cost

push-size :
    (p : Position) (d : Direction) (c : ℕ) (q : PriorityQueue) → (pq_push p d c q).size ≤ q.size + 1
unfolding pq_push
push-size p d c q = elim (Bool-cases (pq_full q)) [
  | inl e ↦ rw e (omega arith)
  | inr e ↦ rw e (omega arith)
]

pop-size : (q : PriorityQueue) → (q.size == 0) ≡ false → (pq_pop q).1.size + 1 ≡ q.size
unfolding pq_pop pq_empty
pop-size q e = rw e (ground arith)

in_bounds :
    (p : Position)
    → map_is_valid_position p.x p.y ≡ true
    → (pos_part p.y < 24) × (pos_part p.x < 80)
unfolding map_is_valid_position
in_bounds p h = (ground arith, ground arith)

visit-measure :
    (m : Map) (walls : Bool) (n : DijkstraNode) (d : Direction) (s : Search)
    → measure (visit m walls n d s) ≤ measure s
unfolding visit measure
visit-measure m walls n d s =
    let p = next_position n.pos_of d in
    let c = n.cost + move_cost walls p m in
    let way = dir_to_use n.first_dir d in
    elim (Bool-cases (map_is_valid_position p.x p.y)) [
      | inr e ↦ rw e (omega arith)
      | inl e ↦ elim (Bool-cases (not walls && not (map_is_walkable p.x p.y m))) [
        | inl g ↦ rw (e, g) (omega arith)
        | inr g ↦ elim (Bool-cases (ltb c (read s.cost p))) [
          | inr h ↦ rw (e, g, h) (omega arith)
          | inl h ↦
              let (hy, hx) = in_bounds p e in
              let paid = total-write s.cost p c hy hx in
              let pushed = push-size p way c s.queue in
              let cheaper = less_of c (read s.cost p) h in
              rw (e, g, h) (omega (arith, paid, pushed, cheaper))
        ]
      ]
    ]
  where
    less_of : (a b : ℕ) → ltb a b ≡ true → a < b
    less_of a b h = ground arith

visit_all-measure :
    (m : Map) (walls : Bool) (n : DijkstraNode) (s : Search)
    → measure (visit_all m walls n s) ≤ measure s
unfolding visit_all
visit_all-measure m walls n s =
    let s1 = visit m walls n dir_up s in
    let s2 = visit m walls n dir_down s1 in
    let s3 = visit m walls n dir_left s2 in
    let a = visit-measure m walls n dir_up s in
    let b = visit-measure m walls n dir_down s1 in
    let c = visit-measure m walls n dir_left s2 in
    let d = visit-measure m walls n dir_right s3 in omega (arith, a, b, c, d)

-- a result, or a search with less to do
Less : ℕ → Direction ⊎ Search → Type 0
Less n (inl d) = Unit
Less n (inr s) = measure s < n

popped_less :
    (s : Search)
    → (s.queue.size == 0) ≡ false
    → measure (record s { queue = (pq_pop s.queue).1 }) < measure s
unfolding measure
popped_less s e = let less = pop-size s.queue e in omega (arith, less)

search_step-Less :
    (m : Map) (target : Position) (walls : Bool) (s : Search)
    → Less (measure s) (search_step m target walls s)
unfolding search_step Less pq_empty
search_step-Less m target walls s =
    let n = (pq_pop s.queue).0 in
    let s1 : Search = record s { queue = (pq_pop s.queue).1 } in
    elim (Bool-cases (s.queue.size == 0)) [
      | inl e ↦ rw e tt
      | inr e ↦
          let popped = popped_less s e in
          elim (Bool-cases (same_position n.pos_of target)) [
            | inl g ↦ rw (e, g) tt
            | inr g ↦ elim (Bool-cases (ltb (read s.cost n.pos_of) n.cost)) [
              | inl h ↦ rw (e, g, h) popped
              | inr h ↦
                  let kept = visit_all-measure m walls n s1 in
                  rw (e, g, h) (omega (arith, kept, popped))
            ]
          ]
    ]

-- A search with enough fuel for the nodes in the queue and the costs of the cells comes to a result.
search_loop-ends :
    (fuel : ℕ) (m : Map) (target : Position) (walls : Bool) (s : Search)
    → measure s < fuel
    → (d : Direction) × (search_loop fuel m target walls s ≡ some d)
unfolding search_loop Less
search_loop-ends zero m target walls s h = absurd (omega arith)
search_loop-ends (suc fuel) m target walls s h =
    go (λ s1. search_loop-ends fuel m target walls s1) (search_step m target walls s)
      (search_step-Less m target walls s)
  where
    go :
        ((s1 : Search)
          → measure s1 < fuel
          → (d : Direction) × (search_loop fuel m target walls s1 ≡ some d))
        → (r : Direction ⊎ Search) → Less (measure s) r
        → (d : Direction) × (elim r [ inl e ↦ some e | inr s1 ↦ search_loop fuel m target walls s1 ]
            ≡ some d)
    go again (inl d) l = (d, refl)
    go again (inr s1) l = again s1 (omega arith)

sum-least : (n : ℕ) (f g : ℕ → ℕ) → ((k : ℕ) → f k ≤ g k) → sum n f ≤ sum n g
unfolding sum
sum-least zero f g h = omega arith
sum-least (suc n) f g h =
    let here = h n in let rest = sum-least n f g h in omega (arith, here, rest)

all_infinite : total (λ y x. infinity) ≡ infinity * (map_width * map_height)
unfolding total sum
all_infinite = refl

init-measure :
    (start : Position)
    → map_is_valid_position start.x start.y ≡ true
    → measure (search_init start) < search_fuel
unfolding measure search_init pq_init
init-measure start hs =
    let (hy, hx) = in_bounds start hs in
    let paid = total-write (λ y x. infinity) start 0 hy hx in
    let pushed = push-size start dir_none 0 old_queue in omega (arith, paid, pushed, all_infinite)

-- From any cell of the map, to any target and whatever the map holds, the path
-- search comes to a result: the fuel of its loop does not run out.
pub logic_find_path_bfs-ends :
    (start target : Position) (walls : Bool) (m : Map)
    → map_is_valid_position start.x start.y ≡ true
    → search_loop search_fuel m target walls (search_init start)
      ≡ some (logic_find_path_bfs start target walls m)
unfolding logic_find_path_bfs
logic_find_path_bfs-ends start target walls m hs =
    result _
      (search_loop-ends search_fuel m target walls (search_init start) (init-measure start hs))
  where
    result :
        (r : Option Direction) → (d : Direction) × (r ≡ some d) → r ≡ some (direction_or_none r)
    result none (d, e) = absurd (ground (arith, e))
    result (some a) found = refl
