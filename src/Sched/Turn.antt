-- ===== src/Sched/Turn.antt =====
-- The abstract round robin, which has no pointers, statuses or fuel, and the steps of `scheduler`
-- that it is compared with.
use soa_fib.Base.{
  ℕ, zero, suc, ◌/◌, ◌≤◌, ◌≡◌, ◌≢◌, refl, sym, ap, ◌∙◌, inl, inr, true, false, Bool, Option, some,
  List, [], ◌∷◌, ◌++◌, ◌==◌, if◌then◌else◌, ◌>>=◌, arith, test_of_ne, test_of_eq, has, erase,
  length, Nodup, has-erase, Nodup-erase, length-erase, Bool-cases, eq_of_test,
}
use soa_fib.Base.Int.{ℤ, pos, ◌-ℤ◌, leb_ℤ}
use soa_fib.ListHead.Queues.{Queues, is_nil}
use soa_fib.ListHead.Rep.{list_empty-is_nil}
use soa_fib.Kernel.{
  Status, ready, blocked, is_blocked, Kernel, readyqueue, blockedqueue, tick_blockedqueue, list_of,
  nr_tasks,
}
use soa_fib.Sched.{set_status, update_process_state_rr, needs_sched_rr, sched_next_rr}
use soa_fib.Sched.Sound.{
  IsTask, IsSound, IsMovable, taken, moved, with_links, update_process_state_rr-moved,
  moved-IsSound,
}
use soa_fib.Sched.Next.{Runs, Switched, ready-IsHead, sched_next_rr-Switched}
use soa_fib.Sched.Wake.{tick-IsHead}

-- what the round robin is about: the running task, the waiting ones in order, the ticks left
pub record View : Type 0 where
  pub current : ℕ
  pub waiting : List ℕ
  pub sleeping : List ℕ
  pub ticks : ℤ

abbrev pub view : Kernel → Queues → View
view k s = record {
  current = k.current_task;
  waiting = s.members readyqueue;
  sleeping = s.members tick_blockedqueue;
  ticks = k.current_quantum;
}

module _ (quanta : ℕ → ℤ) (idle : ℕ) where
  -- the first of a queue runs next, for its quantum; the idle task runs if there is none
  abbrev pub dispatch : List ℕ → View
  dispatch [] = record { current = idle; waiting = []; sleeping = []; ticks = quanta idle }
  dispatch (x ∷ xs) = record {
    current = x / 8;
    waiting = xs;
    sleeping = [];
    ticks = quanta (x / 8);
  }

  -- One tick: the sleepers wake; a blocked task gives way; a running one gives way when its time
  -- is used up and another task waits, and else goes on.
  abbrev pub round : Bool → View → View
  round gone v =
      let queue = v.waiting ++ v.sleeping in
      let left = v.ticks -ℤ pos 1 in
      if gone
      then dispatch queue
      else if leb_ℤ left (pos 0)
      then if is_nil queue
        then record v { waiting = []; sleeping = []; ticks = quanta v.current }
        else dispatch (queue ++ list_of v.current ∷ [])
      else record v { waiting = queue; sleeping = []; ticks = left }

-- No list of task fields without repetition is longer than the table of tasks.
length-le_tasks :
    (n : ℕ) (xs : List ℕ)
    → Nodup xs
    → ((y : ℕ) → has y xs ≡ true → (y ≡ list_of (y / 8)) × (y / 8 ≢ 0) × (y / 8 ≤ n))
    → length xs ≤ n
length-le_tasks n [] nd h = omega arith
length-le_tasks zero (x ∷ xs) nd h =
    let hx = h x (rw (test_of_eq x x refl) refl) in absurd (omega arith)
length-le_tasks (suc n) (x ∷ xs) nd h = omega (
  arith,
  length-erase (list_of (suc n)) (x ∷ xs),
  length-le_tasks n (erase (list_of (suc n)) (x ∷ xs)) (Nodup-erase (list_of (suc n)) (x ∷ xs) nd)
      λ y i.
        let hx = h y (ground (arith, has-erase y (list_of (suc n)) (x ∷ xs) nd)) in
        let ne : list_of (suc n) ≢ y = ground (arith, has-erase y (list_of (suc n)) (x ∷ xs) nd) in
        (hx.0, hx.1, omega arith),
)

pub sleepers-le :
    (k : Kernel) (s : Queues) → IsSound k s → length (s.members tick_blockedqueue) ≤ nr_tasks
sleepers-le k s v =
    let h = tick-IsHead k s v in
    let q = v.rep.ring tick_blockedqueue h.0 h.1 in
    length-le_tasks nr_tasks (s.members tick_blockedqueue) q.nodup λ y i.
      let o = q.owned y i in
      let n = v.nodes y tick_blockedqueue (omega arith) (omega arith) (o.1, o.0) in
      (n.0, n.1.0, n.1.1)

abbrev pub with_quantum : ℤ → Kernel → Kernel
with_quantum q k = record k { current_quantum = q }

pub with_quantum-IsSound :
    (q : ℤ) (k : Kernel) (s : Queues) → IsSound k s → IsSound (with_quantum q k) s
with_quantum-IsSound q k s v = record {
  rep = v.rep;
  heads = v.heads;
  status_of = v.status_of;
  nodes = v.nodes;
  idle_task = v.idle_task;
  idle_place = v.idle_place;
}

-- the answer of `needs_sched_rr`, and the quantum that it leaves
pub needs-expired :
    (k : Kernel) (s : Queues)
    → IsSound k s
    → leb_ℤ k.current_quantum (pos 0) ≡ true
    → needs_sched_rr k
      ≡ some (
        if is_nil (s.members readyqueue) then is_blocked (k.tasks k.current_task).status else true,
        with_quantum (k.tasks k.current_task).quantum k,
      )
unfolding needs_sched_rr
needs-expired k s v e =
    rw (e, list_empty-is_nil k.links s v.rep readyqueue (ready-IsHead k s v)) refl

pub needs-left :
    (k : Kernel)
    → leb_ℤ k.current_quantum (pos 0) ≡ false
    → needs_sched_rr k ≡ some (is_blocked (k.tasks k.current_task).status, k)
unfolding needs_sched_rr
needs-left k e = rw e refl

-- the current task has blocked itself
abbrev pub Gone : Kernel → Queues → Type 0
Gone k s =
    IsTask k.current_task
    × ((k.tasks k.current_task).status ≡ blocked)
    × (s.owner (list_of k.current_task) ≡ blockedqueue)

-- `if (current_task->status != ST_BLOCKED) ...; sched_next_rr();`
abbrev pub give_way : Kernel → Option Kernel
give_way k =
    (if is_blocked (k.tasks k.current_task).status
      then some k
      else update_process_state_rr k.current_task readyqueue k)
    >>= λ k3. sched_next_rr k3

-- what a round leaves
pub record Rounded (k k' : Kernel) (s s' : Queues) (v : View) : Type 0 where
  pub sound : IsSound k' s'
  pub runs : Runs k' s'
  pub viewed : view k' s' ≡ v
  pub others : (h : ℕ) → h ≢ readyqueue → h ≢ tick_blockedqueue → s'.members h ≡ s.members h

pub view_eq :
    {v w : View}
    → v.current ≡ w.current
    → v.waiting ≡ w.waiting
    → v.sleeping ≡ w.sleeping
    → v.ticks ≡ w.ticks
    → v ≡ w
view_eq a b c d = λ i. record { current = a i; waiting = b i; sleeping = c i; ticks = d i }

pub dispatch-view :
    (k k' : Kernel) (s s' : Queues) (quanta : ℕ → ℤ) (idle : ℕ) (xs : List ℕ)
    → ((t : ℕ) → quanta t ≡ (k.tasks t).quantum)
    → idle ≡ k.idle_task
    → s.members readyqueue ≡ xs
    → s.members tick_blockedqueue ≡ []
    → Switched k k' s s'
    → view k' s' ≡ dispatch quanta idle xs
dispatch-view k k' s s' quanta idle [] qs ie e te w =
    view_eq (rw (w.next, e, ie) refl) (rw (w.rest, e) refl)
      (w.others tick_blockedqueue (λ z. absurd (omega arith)) ∙ te)
      (rw (w.quantum, e, ie) (sym (qs k.idle_task)))
dispatch-view k k' s s' quanta idle (x ∷ xs) qs ie e te w =
    view_eq (rw (w.next, e) refl) (rw (w.rest, e) refl)
      (w.others tick_blockedqueue (λ z. absurd (omega arith)) ∙ te)
      (rw (w.quantum, e) (sym (qs (x / 8))))

-- A blocked task gives way to the first ready one.
pub Gone-gives_way :
    (k : Kernel) (s : Queues)
    → IsSound k s
    → Gone k s
    → (k' : Kernel) × (s' : Queues) × (give_way k ≡ some k') × Switched k k' s s'
Gone-gives_way k s v g = let n = sched_next_rr-Switched k s v in (n.0, n.1, rw g.1 n.2, n.3)

taken_loose : (s : Queues) (x : ℕ) → s.owner x ≡ 0 → taken x s ≡ s
taken_loose s x o = rw o refl

quantum-set_status :
    (t : ℕ) (st : Status) (k : Kernel) (y : ℕ)
    → ((set_status t st k).tasks y).quantum ≡ (k.tasks y).quantum
quantum-set_status t st k y = elim (Bool-cases (t == y)) [
  | inl e ↦ rw e (ap (λ z. (k.tasks z).quantum) (eq_of_test t y e))
  | inr e ↦ rw e refl
]

-- A running task goes to the end of the ready queue first.
pub Runs-gives_way :
    (k : Kernel) (s : Queues) (quanta : ℕ → ℤ)
    → IsSound k s
    → Runs k s
    → ((t : ℕ) → quanta t ≡ (k.tasks t).quantum)
    → s.members tick_blockedqueue ≡ []
    → (k' : Kernel) × (s' : Queues) × (give_way k ≡ some k')
      × Rounded k k' s s'
          (dispatch quanta k.idle_task (s.members readyqueue ++ list_of k.current_task ∷ []))
Runs-gives_way k s quanta v g qs te =
    let t : ℕ = k.current_task in
    let m : IsMovable k s t = inl (g.2, g.1) in
    let u = update_process_state_rr-moved k s v t g.0 readyqueue m (inr (inl refl)) in
    let k1 = set_status t ready (with_links u.0 k) in
    let s1 = moved (list_of t) readyqueue s in
    let v1 = moved-IsSound k s v t g.0 readyqueue m (inr (inl refl)) u.0 (λ z. omega arith) u.2 in
    let n = sched_next_rr-Switched k1 s1 v1 in
    let same = λ (h : ℕ). ap (λ (z : Queues). z.members h) (taken_loose s (list_of t) g.2) in
    (
      n.0,
      n.1,
      rw g.1 (rw u.1 n.2),
      record {
        sound = n.3.sound;
        runs = n.3.runs;
        viewed =
            dispatch-view k1 n.0 s1 n.1 quanta k.idle_task (s.members readyqueue ++ list_of t ∷ [])
              (λ y. qs y ∙ sym (quantum-set_status t ready (with_links u.0 k) y)) refl
              (ap (λ z. z ++ list_of t ∷ []) (same readyqueue)) (same tick_blockedqueue ∙ te) n.3;
        others = λ h a b. n.3.others h a ∙ rw (test_of_ne readyqueue h (λ z. a (sym z))) (same h);
      },
    )
