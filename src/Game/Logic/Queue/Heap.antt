-- ===== src/Game/Logic/Queue/Heap.antt =====
-- The order of the priority queue: no node costs less than its parent in the tree.
use soa_fib.Base.{
  ℕ, zero, suc, ◌+◌, ◌-◌, ◌*◌, ◌/◌, ◌≤◌, ◌<◌, ◌≡◌, ◌≢◌, refl, true, false, ◌||◌, ◌==◌, ltb, leb,
  arith, Bool-cases, inl, inr, ap, subst, sym, test_of_eq, test_of_ne, eq_of_test,
}
use soa_fib.Game.Types.{Direction, Position}
use soa_fib.Game.Logic.Queue.{
  DijkstraNode, PriorityQueue, pq_init, pq_empty, pq_full, pq_push, pq_pop, bubble_up, bubble_down,
  smallest_of, swap_nodes,
}

abbrev Nodes : Type 0
Nodes = ℕ → DijkstraNode

abbrev Ordered : Nodes → ℕ → ℕ → Type 0
Ordered f p k = (f p).cost ≤ (f k).cost

-- the order but towards child i, and its bridge over i
record UpTo (n i : ℕ) (f : Nodes) : Type 0 where
  rest : (p k : ℕ) → 2 * p < k → k ≤ 2 * p + 2 → k < n → k ≢ i → Ordered f p k
  bridge : (p k : ℕ) → 2 * p < i → i ≤ 2 * p + 2 → 2 * i < k → k ≤ 2 * i + 2 → k < n → Ordered f p k

-- no node of the first n costs less than its parent
Heap : ℕ → Nodes → Type 0
Heap n f = (p k : ℕ) → 2 * p < k → k ≤ 2 * p + 2 → k < n → Ordered f p k

swap_first : (i j : ℕ) (f : Nodes) → swap_nodes i j f i ≡ f j
swap_first i j f = rw (test_of_eq i i refl) refl

swap_second : (i j : ℕ) (f : Nodes) → swap_nodes i j f j ≡ f i
swap_second i j f = elim (Bool-cases (j == i)) [
  | inl e ↦ rw (eq_of_test j i e, test_of_eq i i refl) refl
  | inr e ↦ rw (e, test_of_eq j j refl) refl
]

swap_other : (i j k : ℕ) (f : Nodes) → k ≢ i → k ≢ j → swap_nodes i j f k ≡ f k
swap_other i j k f a b = rw (test_of_ne k i a, test_of_ne k j b) refl

up_step :
    (n i q : ℕ) (f : Nodes)
    → i < n
    → 2 * q < i
    → i ≤ 2 * q + 2
    → (f i).cost < (f q).cost
    → UpTo n i f
    → UpTo n q (swap_nodes i q f)
up_step n i q f hi lo hi2 lt inv = record {
  rest = λ p k a b c d. elim (Bool-cases (k == i)) [
    | inl e ↦ ground (arith, e)
    | inr e ↦ elim (Bool-cases (p == q)) [
      | inl g ↦ let ok = inv.rest p k a b c (ground arith) in ground (arith, e, g, ok)
      | inr g ↦ elim (Bool-cases (p == i)) [
        | inl h ↦
            let ok = inv.bridge q k lo hi2 (ground arith) (ground arith) c in
            ground (arith, e, g, h, ok)
        | inr h ↦ let ok = inv.rest p k a b c (ground arith) in ground (arith, e, g, h, ok)
      ]
    ]
  ];
  bridge = λ p k a b c d e.
      let top = inv.rest p q a b (omega arith) (omega arith) in
      elim (Bool-cases (k == i)) [
        | inl g ↦ ground (arith, g, top)
        | inr g ↦ let ok = inv.rest q k c d e (ground arith) in ground (arith, g, ok, top)
      ];
}

-- the order but from place i on, and the same bridge
record DownFrom (n i : ℕ) (f : Nodes) : Type 0 where
  rest : (p k : ℕ) → 2 * p < k → k ≤ 2 * p + 2 → k < n → p ≢ i → Ordered f p k
  bridge : (p k : ℕ) → 2 * p < i → i ≤ 2 * p + 2 → 2 * i < k → k ≤ 2 * i + 2 → k < n → Ordered f p k

down_step :
    (n i s : ℕ) (f : Nodes)
    → s < n
    → 2 * i < s
    → s ≤ 2 * i + 2
    → ((k : ℕ) → 2 * i < k → k ≤ 2 * i + 2 → k < n → Ordered f s k)
    → (f s).cost < (f i).cost
    → DownFrom n i f
    → DownFrom n s (swap_nodes i s f)
down_step n i s f hs lo hi2 least lt inv = record {
  rest = λ p k a b c d. elim (Bool-cases (p == i)) [
    | inl e ↦ let ok = least k (ground arith) (ground arith) c in ground (arith, e, ok)
    | inr e ↦ elim (Bool-cases (k == i)) [
      | inl g ↦
          let ok = inv.bridge p s (ground arith) (ground arith) lo hi2 hs in
          ground (arith, e, g, ok)
      | inr g ↦ let ok = inv.rest p k a b c (ground arith) in ground (arith, e, g, ok)
    ]
  ];
  bridge = λ p k a b c d e. let ok = inv.rest s k c d e (omega arith) in ground (arith, ok);
}

pub bubble_up-none : (i : ℕ) (f : Nodes) → bubble_up zero i f ≡ f
unfolding bubble_up
bubble_up-none i f = refl

pub bubble_up-stop :
    (fuel i : ℕ) (f : Nodes)
    → (i == 0 || leb (f ((i - 1) / 2)).cost (f i).cost) ≡ true
    → bubble_up (suc fuel) i f ≡ f
unfolding bubble_up
bubble_up-stop fuel i f e = ground (arith, e)

pub bubble_up-rise :
    (fuel i : ℕ) (f : Nodes)
    → (i == 0 || leb (f ((i - 1) / 2)).cost (f i).cost) ≡ false
    → bubble_up (suc fuel) i f ≡ bubble_up fuel ((i - 1) / 2) (swap_nodes i ((i - 1) / 2) f)
unfolding bubble_up
bubble_up-rise fuel i f e =
    ap
      (λ b. elim b [
        | true ↦ f
        | false ↦ bubble_up fuel ((i - 1) / 2) (swap_nodes i ((i - 1) / 2) f)
      ])
      e

bubble_up-Heap :
    (n fuel i : ℕ) (f : Nodes) → i ≤ fuel → i < n → UpTo n i f → Heap n (bubble_up fuel i f)
unfolding Heap
bubble_up-Heap n zero i f h hi inv =
    subst (Heap n) (sym (bubble_up-none i f)) (λ p k a b c. inv.rest p k a b c (omega arith))
bubble_up-Heap n (suc fuel) i f h hi inv =
    let q = (i - 1) / 2 in
    elim (Bool-cases (i == 0 || leb (f q).cost (f i).cost)) [
      | inl e ↦ subst (Heap n) (sym (bubble_up-stop fuel i f e)) (λ p k a b c.
          elim (Bool-cases (k == i)) [
            | inl g ↦ ground (arith, g)
            | inr g ↦ inv.rest p k a b c (ground arith)
          ])
      | inr e ↦ subst (Heap n) (sym (bubble_up-rise fuel i f e)) (
          bubble_up-Heap n fuel q (swap_nodes i q f) (ground arith) (ground arith)
            (up_step n i q f hi (ground arith) (ground arith) (ground arith) inv))
    ]

-- A node is added at the back and rises to its place, so that the queue keeps its order.
pq_push-Heap :
    (p : Position) (d : Direction) (c : ℕ) (q : PriorityQueue)
    → Heap q.size q.nodes
    → Heap (pq_push p d c q).size (pq_push p d c q).nodes
unfolding pq_push Heap pq_full
pq_push-Heap p d c q h = elim (Bool-cases (leb 256 q.size)) [
  | inl e ↦ rw e h
  | inr e ↦ rw e (
      bubble_up-Heap (q.size + 1) q.size q.size _ (omega arith) (omega arith) (record {
        rest = λ p k a b c d. let ok = h p k a b (omega arith) in ground (arith, ok);
        bridge = λ p k a b c d e. absurd (omega arith);
      }))
]

smallest_of-least :
    (n i k : ℕ) (f : Nodes) → 2 * i < k → k ≤ 2 * i + 2 → k < n → Ordered f (smallest_of n i f) k
unfolding smallest_of
smallest_of-least n i k f a b c = elim (Bool-cases (k == 2 * i + 1)) [
  | inl e ↦ rw (eq_of_test k (2 * i + 1) e) (ground arith)
  | inr e ↦ rw (the_right e) (ground arith)
]
  where
    the_right : (k == 2 * i + 1) ≡ false → k ≡ 2 * i + 2
    the_right e = ground arith

pub smallest_of-child :
    (n i : ℕ) (f : Nodes)
    → (smallest_of n i f == i) ≡ false
    → (smallest_of n i f < n)
      × ((2 * i < smallest_of n i f)
          × ((smallest_of n i f ≤ 2 * i + 2) × ((f (smallest_of n i f)).cost < (f i).cost)))
unfolding smallest_of
smallest_of-child n i f e = (ground arith, (ground arith, (ground arith, ground arith)))

pub bubble_down-rest : (size i : ℕ) (f : Nodes) → bubble_down zero size i f ≡ f
unfolding bubble_down
bubble_down-rest size i f = refl

pub bubble_down-stop :
    (fuel size i : ℕ) (f : Nodes)
    → (smallest_of size i f == i) ≡ true
    → bubble_down (suc fuel) size i f ≡ f
unfolding bubble_down
bubble_down-stop fuel size i f e = ground (arith, e)

pub bubble_down-sink :
    (fuel size i : ℕ) (f : Nodes)
    → (smallest_of size i f == i) ≡ false
    → bubble_down (suc fuel) size i f
      ≡ bubble_down fuel size (smallest_of size i f) (swap_nodes i (smallest_of size i f) f)
unfolding bubble_down
bubble_down-sink fuel size i f e =
    ap
      (λ b. elim b [
        | true ↦ f
        | false ↦
            bubble_down fuel size (smallest_of size i f) (swap_nodes i (smallest_of size i f) f)
      ])
      e

bubble_down-Heap :
    (n fuel i : ℕ) (f : Nodes) → n ≤ i + fuel → DownFrom n i f → Heap n (bubble_down fuel n i f)
unfolding Heap
bubble_down-Heap n zero i f h inv =
    subst (Heap n) (sym (bubble_down-rest n i f)) (λ p k a b c. inv.rest p k a b c (omega arith))
bubble_down-Heap n (suc fuel) i f h inv = elim (Bool-cases (smallest_of n i f == i)) [
  | inl e ↦ subst (Heap n) (sym (bubble_down-stop fuel n i f e)) (λ p k a b c.
      elim (Bool-cases (p == i)) [
        | inl g ↦
            let least = smallest_of-least n i k f (ground arith) (ground arith) c in
            rw (eq_of_test p i g) (rw (eq_of_test _ i e) at least)
        | inr g ↦ inv.rest p k a b c (ground arith)
      ])
  | inr e ↦
      let (inside, (lo, (hi, less))) = smallest_of-child n i f e in
      subst (Heap n) (sym (bubble_down-sink fuel n i f e)) (
        bubble_down-Heap n fuel _ _ (omega arith)
          (down_step n i _ f inside lo hi (λ k. smallest_of-least n i k f) less inv))
]

-- The last node takes the place of the first and sinks, so that the queue keeps its order.
pq_pop-Heap : (q : PriorityQueue) → Heap q.size q.nodes → Heap (pq_pop q).1.size (pq_pop q).1.nodes
unfolding pq_pop Heap pq_empty
pq_pop-Heap q h = elim (Bool-cases (q.size == 0)) [
  | inl e ↦ rw e h
  | inr e ↦ elim (Bool-cases (ltb 0 (q.size - 1))) [
    | inl g ↦
        rw (e, g)
          (bubble_down-Heap (q.size - 1) (q.size - 1) 0 _ (omega arith) (record {
            rest = λ p k a b c d. let ok = h p k a b (omega arith) in ground (arith, ok);
            bridge = λ p k a b c d e. absurd (omega arith);
          }))
    | inr g ↦ rw (e, g) (λ p k a b c. absurd (ground arith))
  ]
]

root-least : (n fuel k : ℕ) (f : Nodes) → k ≤ fuel → Heap n f → k < n → Ordered f 0 k
unfolding Heap
root-least n zero k f h heap hk = rw (none_left k h) (omega arith)
  where
    none_left : (k : ℕ) → k ≤ 0 → k ≡ 0
    none_left k h = omega arith
root-least n (suc fuel) k f h heap hk = elim (Bool-cases (k == 0)) [
  | inl e ↦ rw (eq_of_test k 0 e) (omega arith)
  | inr e ↦
      let above = heap ((k - 1) / 2) k (ground arith) (ground arith) hk in
      let higher = root-least n fuel ((k - 1) / 2) f (ground arith) heap (omega arith) in
      omega arith
]

pop-least :
    (q : PriorityQueue) (k : ℕ)
    → Heap q.size q.nodes
    → k < q.size
    → (pq_pop q).0.cost ≤ (q.nodes k).cost
unfolding pq_pop pq_empty
pop-least q k h hk =
    rw (test_of_ne q.size 0 (omega arith)) (root-least q.size k k q.nodes (omega arith) h hk)

-- the queues that the search comes to
pub data Built : PriorityQueue → Type 0 where
  fresh : (q : PriorityQueue) → Built (pq_init q)
  pushed :
      {q : PriorityQueue}
      → Built q
      → (p : Position) (d : Direction) (c : ℕ) → Built (pq_push p d c q)
  popped : {q : PriorityQueue} → Built q → Built (pq_pop q).1

Built-Heap : (q : PriorityQueue) → Built q → Heap q.size q.nodes
unfolding pq_init Heap
Built-Heap q (fresh r) = λ p k a b c. absurd (omega arith)
Built-Heap q (pushed {q = r} b p d c) = pq_push-Heap p d c r (Built-Heap r b)
Built-Heap q (popped {q = r} b) = pq_pop-Heap r (Built-Heap r b)

-- In every queue that pushes and pops build from an empty one, the node that is taken next costs no
-- more than any other node of the queue.
pub pq_pop-least :
    (q : PriorityQueue) (k : ℕ) → Built q → k < q.size → (pq_pop q).0.cost ≤ (q.nodes k).cost
pq_pop-least q k b hk = pop-least q k (Built-Heap q b) hk
