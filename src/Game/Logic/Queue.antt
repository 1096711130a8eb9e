-- ===== src/Game/Logic/Queue.antt =====
-- game_logic.c: the priority queue of the path search, a binary heap in an array of 256 nodes.
pub mod Heap
pub mod Members
use soa_fib.Base.{
  ℕ, zero, suc, ◌+◌, ◌-◌, ◌*◌, ◌/◌, Bool, true, false, not, ◌&&◌, ◌||◌, ◌==◌, ltb, leb,
  if◌then◌else◌, update,
}
use soa_fib.Base.Int.{negsuc}
use soa_fib.Game.Types.{Direction, dir_none, Position}

pub record DijkstraNode : Type 0 where
  pub pos_of : Position
  pub first_dir : Direction
  pub cost : ℕ

pub record PriorityQueue : Type 0 where
  pub nodes : ℕ → DijkstraNode
  pub size : ℕ

abbrev pub max_priority_queue_size : ℕ
max_priority_queue_size = 256

unfoldable pub pq_init : PriorityQueue → PriorityQueue
pq_init q = record q { size = 0 }

unfoldable pub pq_empty : PriorityQueue → Bool
pq_empty q = q.size == 0

unfoldable pub pq_full : PriorityQueue → Bool
pq_full q = leb max_priority_queue_size q.size

-- the exchange through `temp`
abbrev pub swap_nodes : ℕ → ℕ → (ℕ → DijkstraNode) → ℕ → DijkstraNode
swap_nodes i j f k = if k == i then f j else if k == j then f i else f k

-- The loop of `pq_push`; the parent is before its child, so that i rounds are enough.
unfoldable pub bubble_up : ℕ → ℕ → (ℕ → DijkstraNode) → ℕ → DijkstraNode
bubble_up zero i f = f
bubble_up (suc fuel) i f =
    let parent = (i - 1) / 2 in
    elim (i == 0 || leb (f parent).cost (f i).cost) [
      | true ↦ f
      | false ↦ bubble_up fuel parent (swap_nodes i parent f)
    ]

unfoldable pub pq_push : Position → Direction → ℕ → PriorityQueue → PriorityQueue
pq_push p d c q =
    let node : DijkstraNode = record { pos_of = p; first_dir = d; cost = c } in
    if pq_full q
    then q
    else record { nodes = bubble_up q.size q.size (update q.nodes q.size node); size = q.size + 1 }

-- the child to exchange with, or i itself
unfoldable pub smallest_of : ℕ → ℕ → (ℕ → DijkstraNode) → ℕ
smallest_of size i f =
    let left = 2 * i + 1 in
    let right = 2 * i + 2 in
    let first = if ltb left size && ltb (f left).cost (f i).cost then left else i in
    if ltb right size && ltb (f right).cost (f first).cost then right else first

-- The loop of `pq_pop`; the place grows within the size, so that as many rounds are enough.
unfoldable pub bubble_down : ℕ → ℕ → ℕ → (ℕ → DijkstraNode) → ℕ → DijkstraNode
bubble_down zero size i f = f
bubble_down (suc fuel) size i f =
    let smallest = smallest_of size i f in
    elim (smallest == i) [
      | true ↦ f
      | false ↦ bubble_down fuel size smallest (swap_nodes i smallest f)
    ]

unfoldable pub pq_pop : PriorityQueue → DijkstraNode × PriorityQueue
pq_pop q =
    let size = q.size - 1 in
    if pq_empty q
    then (
      record { pos_of = record { x = negsuc 0; y = negsuc 0 }; first_dir = dir_none; cost = 9999 },
      q,
    )
    else (
      q.nodes 0,
      record {
        nodes =
            if ltb 0 size
            then bubble_down size size 0 (update q.nodes 0 (q.nodes size))
            else q.nodes;
        size = size;
      },
    )
