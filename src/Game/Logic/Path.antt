-- ===== src/Game/Logic/Path.antt =====
-- game_logic.c: `logic_find_path_bfs`, Dijkstra's search over the cells of the map. The arrays
-- `cost` and `first_dir` are functions of row and column. A step of the loop gives the result or
-- the search as it stands at the next test of the queue.
pub mod Route
pub mod Ends
use soa_fib.Base.{
  ℕ, zero, suc, ◌+◌, ◌*◌, Bool, true, false, not, ◌&&◌, ◌==◌, ltb, if◌then◌else◌, update, ◌⊎◌, inl,
  inr, Option, none, some,
}
use soa_fib.Base.Int.{pos, eqb_ℤ, pos_part}
use soa_fib.Game.Types.{
  Direction, dir_none, dir_up, dir_down, dir_left, dir_right, dir_code, Position, map_width,
  map_height,
}
use soa_fib.Game.Map.{Map, map_is_valid_position, map_is_walkable}
use soa_fib.Game.Entities.{next_position}
use soa_fib.Game.Logic.Queue.{DijkstraNode, PriorityQueue, pq_init, pq_empty, pq_push, pq_pop}

-- the local variables of the search
pub record Search : Type 0 where
  pub cost : ℕ → ℕ → ℕ
  pub first_dir : ℕ → ℕ → Direction
  pub queue : PriorityQueue

abbrev pub infinity : ℕ
infinity = 9999

-- an element of an array of rows and columns written
abbrev pub write {ℓ} : {A : Type ℓ} → (ℕ → ℕ → A) → Position → A → ℕ → ℕ → A
write f p v = update f (pos_part p.y) (update (f (pos_part p.y)) (pos_part p.x) v)

abbrev pub read {ℓ} : {A : Type ℓ} → (ℕ → ℕ → A) → Position → A
read f p = f (pos_part p.y) (pos_part p.x)

unfoldable pub move_cost : Bool → Position → Map → ℕ
move_cost can_pass_walls p m =
    if can_pass_walls then (if not (map_is_walkable p.x p.y m) then 10 else 1) else 1

-- the first direction of a way through a node that goes on by dir
unfoldable pub dir_to_use : Direction → Direction → Direction
dir_to_use first dir = if dir_code first == 0 then dir else first

-- one round of the loop over the neighbours
unfoldable pub visit : Map → Bool → DijkstraNode → Direction → Search → Search
visit m can_pass_walls current dir s =
    let p = next_position current.pos_of dir in
    let new_cost = current.cost + move_cost can_pass_walls p m in
    let way = dir_to_use current.first_dir dir in
    if not (map_is_valid_position p.x p.y)
    then s
    else if not can_pass_walls && not (map_is_walkable p.x p.y m)
    then s
    else if ltb new_cost (read s.cost p)
    then record {
      cost = write s.cost p new_cost;
      first_dir = write s.first_dir p way;
      queue = pq_push p way new_cost s.queue;
    }
    else s

unfoldable pub visit_all : Map → Bool → DijkstraNode → Search → Search
visit_all m can_pass_walls current s = visit m can_pass_walls current dir_right (
    visit m can_pass_walls current dir_left
      (visit m can_pass_walls current dir_down (visit m can_pass_walls current dir_up s)))

abbrev pub same_position : Position → Position → Bool
same_position p q = eqb_ℤ p.x q.x && eqb_ℤ p.y q.y

-- one round of the while loop
unfoldable pub search_step : Map → Position → Bool → Search → Direction ⊎ Search
search_step m target can_pass_walls s =
    let current = (pq_pop s.queue).0 in
    let s1 = record s { queue = (pq_pop s.queue).1 } in
    if pq_empty s.queue
    then inl dir_none
    else if same_position current.pos_of target
    then inl (read s.first_dir target)
    else if ltb (read s.cost current.pos_of) current.cost
    then inr s1
    else inr (visit_all m can_pass_walls current s1)

-- the while loop; `none` when the fuel runs out
unfoldable pub search_loop : ℕ → Map → Position → Bool → Search → Option Direction
search_loop zero m target can_pass_walls s = none
search_loop (suc fuel) m target can_pass_walls s = elim (search_step m target can_pass_walls s) [
  | inl d ↦ some d
  | inr s1 ↦ search_loop fuel m target can_pass_walls s1
]

-- The static queue holds the nodes of earlier searches; none is read again once its size is 0.
abbrev pub old_queue : PriorityQueue
old_queue = record {
  nodes = λ k. record { pos_of = record { x = pos 0; y = pos 0 }; first_dir = dir_none; cost = 0 };
  size = 0;
}

unfoldable pub search_init : Position → Search
search_init start = record {
  cost = write (λ y x. infinity) start 0;
  first_dir = λ y x. dir_none;
  queue = pq_push start dir_none 0 (pq_init old_queue);
}

-- a round takes a node off the queue, and a push lowers a cost
abbrev pub search_fuel : ℕ
search_fuel = infinity * (map_width * map_height) + 2

abbrev pub direction_or_none : Option Direction → Direction
direction_or_none none = dir_none
direction_or_none (some d) = d

unfoldable pub logic_find_path_bfs : Position → Position → Bool → Map → Direction
logic_find_path_bfs start target can_pass_walls m =
    direction_or_none (search_loop search_fuel m target can_pass_walls (search_init start))
