-- ===== src/Game/Logic/Queue/Members.antt =====
-- What the nodes of the priority queue have in common stays so: the two loops only exchange nodes.
use soa_fib.Base.{
  ℕ, zero, suc, ◌+◌, ◌-◌, ◌/◌, ◌<◌, ◌≡◌, false, ◌||◌, ◌==◌, ltb, leb, arith, Bool-cases, inl, inr,
  subst, sym,
}
use soa_fib.Game.Types.{Direction, Position}
use soa_fib.Game.Logic.Queue.{
  DijkstraNode, PriorityQueue, pq_empty, pq_full, pq_push, pq_pop, bubble_up, bubble_down,
  smallest_of, swap_nodes,
}
use soa_fib.Game.Logic.Queue.Heap.{
  bubble_up-none, bubble_up-stop, bubble_up-rise, bubble_down-rest, bubble_down-stop,
  bubble_down-sink, smallest_of-child,
}

module _ {ℓ} (P : DijkstraNode → Type ℓ) where
  abbrev Each : ℕ → (ℕ → DijkstraNode) → Type ℓ
  Each n f = (k : ℕ) → k < n → P (f k)

  swap-Each :
      (n i j : ℕ) (f : ℕ → DijkstraNode) → i < n → j < n → Each n f → Each n (swap_nodes i j f)
  swap-Each n i j f hi hj all k hk = elim (Bool-cases (k == i)) [
    | inl e ↦ rw e (all j hj)
    | inr e ↦ elim (Bool-cases (k == j)) [
      | inl g ↦ rw (e, g) (all i hi)
      | inr g ↦ rw (e, g) (all k hk)
    ]
  ]

  bubble_up-Each :
      (n fuel i : ℕ) (f : ℕ → DijkstraNode) → i < n → Each n f → Each n (bubble_up fuel i f)
  bubble_up-Each n zero i f hi all = subst (Each n) (sym (bubble_up-none i f)) all
  bubble_up-Each n (suc fuel) i f hi all =
      let q = (i - 1) / 2 in
      elim (Bool-cases (i == 0 || leb (f q).cost (f i).cost)) [
        | inl e ↦ subst (Each n) (sym (bubble_up-stop fuel i f e)) all
        | inr e ↦ subst (Each n) (sym (bubble_up-rise fuel i f e)) (
            bubble_up-Each n fuel q (swap_nodes i q f) (omega arith)
              (swap-Each n i q f hi (omega arith) all))
      ]

  bubble_down-Each :
      (n fuel i : ℕ) (f : ℕ → DijkstraNode) → i < n → Each n f → Each n (bubble_down fuel n i f)
  bubble_down-Each n zero i f hi all = subst (Each n) (sym (bubble_down-rest n i f)) all
  bubble_down-Each n (suc fuel) i f hi all = elim (Bool-cases (smallest_of n i f == i)) [
    | inl e ↦ subst (Each n) (sym (bubble_down-stop fuel n i f e)) all
    | inr e ↦
        let inside = (smallest_of-child n i f e).0 in
        subst (Each n) (sym (bubble_down-sink fuel n i f e))
          (bubble_down-Each n fuel _ _ inside (swap-Each n i _ f hi inside all))
  ]

  -- every node that is in the queue
  abbrev pub Every : PriorityQueue → Type ℓ
  Every q = Each q.size q.nodes

  pub pq_push-Every :
      (p : Position) (d : Direction) (c : ℕ) (q : PriorityQueue)
      → P (record { pos_of = p; first_dir = d; cost = c })
      → Every q
      → Every (pq_push p d c q)
  unfolding pq_push pq_full
  pq_push-Every p d c q new all = elim (Bool-cases (leb 256 q.size)) [
    | inl e ↦ rw e all
    | inr e ↦ rw e (
        bubble_up-Each (q.size + 1) q.size q.size _ (omega arith) (λ k hk.
          elim (Bool-cases (q.size == k)) [
            | inl g ↦ rw g new
            | inr g ↦ rw g (all k (ground arith))
          ]))
  ]

  pub pq_pop-Every : (q : PriorityQueue) → Every q → Every (pq_pop q).1
  unfolding pq_pop pq_empty
  pq_pop-Every q all = elim (Bool-cases (q.size == 0)) [
    | inl e ↦ rw e all
    | inr e ↦ elim (Bool-cases (ltb 0 (q.size - 1))) [
      | inl g ↦
          rw (e, g)
            (bubble_down-Each (q.size - 1) (q.size - 1) 0 _ (ground arith) (λ k hk.
              elim (Bool-cases (0 == k)) [
                | inl c ↦ rw c (all (q.size - 1) (omega arith))
                | inr c ↦ rw c (all k (omega arith))
              ]))
      | inr g ↦ rw (e, g) (λ k hk. absurd (ground arith))
    ]
  ]

  pub pq_pop-taken : (q : PriorityQueue) → (q.size == 0) ≡ false → Every q → P (pq_pop q).0
  unfolding pq_pop pq_empty
  pq_pop-taken q e all = rw e (all 0 (ground arith))
