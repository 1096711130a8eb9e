-- ===== src/Sched/Next.antt =====
-- `sched_next_rr`: which task runs next.
use soa_fib.Base.{
  ℕ, ◌/◌, ◌≡◌, ◌≢◌, refl, sym, subst, ◌∙◌, ◌⊎◌, inl, inr, true, some, List, [], ◌∷◌, ◌==◌,
  if◌then◌else◌, arith, test_of_ne, test_of_eq, has, erase,
}
use soa_fib.Base.Int.{ℤ}
use soa_fib.ListHead.Queues.{Queues, IsHead, is_nil, first_or}
use soa_fib.ListHead.Rep.{list_empty-is_nil, list_first-first_or}
use soa_fib.Kernel.{run, Kernel, readyqueue, list_of}
use soa_fib.Sched.{nowhere, set_status, inner_task_switch, sched_next_rr}
use soa_fib.Sched.Sound.{
  IsTask, IsSound, IsMovable, taken, moved, with_links, update_process_state_rr-moved,
  moved-IsSound, moved_owner,
}

-- the task that follows, by the ready queue
abbrev pub next_of : Kernel → Queues → ℕ
next_of k s =
    if is_nil (s.members readyqueue) then k.idle_task else first_or 0 (s.members readyqueue) / 8

abbrev pub tail : List ℕ → List ℕ
tail [] = []
tail (x ∷ xs) = xs

-- the current task runs and stands in no queue
abbrev pub Runs : Kernel → Queues → Type 0
Runs k s =
    IsTask k.current_task
    × ((k.tasks k.current_task).status ≡ run)
    × (s.owner (list_of k.current_task) ≡ 0)

-- what `sched_next_rr` leaves: `k'` and its queues `s'`
pub record Switched (k k' : Kernel) (s s' : Queues) : Type 0 where
  pub sound : IsSound k' s'
  pub runs : Runs k' s'
  pub next : k'.current_task ≡ next_of k s
  pub quantum : k'.current_quantum ≡ (k.tasks (next_of k s)).quantum
  pub rest : s'.members readyqueue ≡ tail (s.members readyqueue)
  pub others : (h : ℕ) → h ≢ readyqueue → s'.members h ≡ s.members h

pub ready-IsHead : (k : Kernel) (s : Queues) → IsSound k s → IsHead s readyqueue
ready-IsHead k s v = (omega arith, v.heads readyqueue (omega arith) (omega arith))

-- A node that leaves its list leaves the others as they are.
pub taken-members :
    (s : Queues) (x h g : ℕ)
    → s.owner x ≡ h
    → h ≢ 0
    → (taken x s).members g ≡ (if h == g then erase x (s.members h) else s.members g)
taken-members s x h g o h0 = rw (o, test_of_ne h 0 h0) refl

switch-IsSound :
    (k : Kernel) (s : Queues) (t : ℕ) (q : ℤ)
    → IsSound k s
    → IsSound (inner_task_switch t (record k { current_quantum = q })) s
unfolding inner_task_switch
switch-IsSound k s t q v = record {
  rep = v.rep;
  heads = v.heads;
  status_of = v.status_of;
  nodes = v.nodes;
  idle_task = v.idle_task;
  idle_place = v.idle_place;
}

-- With no ready task the idle task is in no queue, and runs.
idle_runs :
    (k : Kernel) (s : Queues)
    → IsSound k s
    → s.members readyqueue ≡ []
    → (s.owner (list_of k.idle_task) ≡ 0) × ((k.tasks k.idle_task).status ≡ run)
idle_runs k s v e = go v.idle_place
  where
    go :
        (s.owner (list_of k.idle_task) ≡ readyqueue)
          ⊎ ((s.owner (list_of k.idle_task) ≡ 0) × ((k.tasks k.idle_task).status ≡ run))
        → (s.owner (list_of k.idle_task) ≡ 0) × ((k.tasks k.idle_task).status ≡ run)
    go (inr p) = p
    go (inl o) =
        let h = ready-IsHead k s v in
        let i =
          (v.rep.ring readyqueue h.0 h.1).complete (list_of k.idle_task) o
            (λ z. absurd (omega arith)) in
        let i' : has (list_of k.idle_task) [] ≡ true =
          subst (λ z. has (list_of k.idle_task) z ≡ true) e i in
        absurd (cc)

idle_switch :
    (k : Kernel) (s : Queues)
    → IsSound k s
    → s.members readyqueue ≡ []
    → (k' : Kernel) × (sched_next_rr k ≡ some k') × Switched k k' s s
unfolding sched_next_rr
idle_switch k s v e = (
  inner_task_switch k.idle_task (record k { current_quantum = (k.tasks k.idle_task).quantum }),
  rw (list_empty-is_nil k.links s v.rep readyqueue (ready-IsHead k s v), e),
  record {
    sound = switch-IsSound k s k.idle_task (k.tasks k.idle_task).quantum v;
    runs = (v.idle_task, (idle_runs k s v e).1, (idle_runs k s v e).0);
    next = rw e refl;
    quantum = rw e refl;
    rest = rw e refl;
    others = λ h ne. refl;
  },
)

-- The first task of the ready queue is a task, and stands in that queue.
first_ready :
    (k : Kernel) (s : Queues) (x : ℕ) (xs : List ℕ)
    → IsSound k s
    → s.members readyqueue ≡ x ∷ xs
    → (s.owner x ≡ readyqueue) × (x ≡ list_of (x / 8)) × IsTask (x / 8)
first_ready k s x xs v e =
    let h = ready-IsHead k s v in
    let i = (v.rep.ring readyqueue h.0 h.1).owned x (rw e (rw (test_of_eq x x refl) refl)) in
    let n = v.nodes x readyqueue (omega arith) (omega arith) (i.1, i.0) in (i.0, n.0, n.1)

ready_switch :
    (k : Kernel) (s : Queues) (x : ℕ) (xs : List ℕ)
    → IsSound k s
    → s.members readyqueue ≡ x ∷ xs
    → (k' : Kernel) × (s' : Queues) × (sched_next_rr k ≡ some k') × Switched k k' s s'
unfolding sched_next_rr
ready_switch k s x xs v e =
    let f = first_ready k s x xs v e in
    let t : ℕ = x / 8 in
    let o : s.owner (list_of t) ≡ readyqueue = subst (λ z. s.owner z ≡ readyqueue) f.1 f.0 in
    let m : IsMovable k s t = inr (omega arith, omega arith) in
    let u = update_process_state_rr-moved k s v t f.2 nowhere m (inl refl) in
    let k1 = set_status t run (with_links u.0 k) in
    let s1 = moved (list_of t) nowhere s in
    let snd = moved-IsSound k s v t f.2 nowhere m (inl refl) u.0 (λ z. omega arith) u.2 in
    (
      inner_task_switch t (record k1 { current_quantum = (k1.tasks t).quantum }),
      s1,
      rw
          (
            list_empty-is_nil k.links s v.rep readyqueue (ready-IsHead k s v),
            list_first-first_or k.links s v.rep readyqueue (ready-IsHead k s v),
            e,
          )
          (rw u.1 refl),
      record {
        sound = switch-IsSound k1 s1 t (k1.tasks t).quantum snd;
        runs = (
          f.2,
          rw (test_of_eq t t refl) refl,
          moved_owner k s v t f.2 nowhere m (list_of t)
              ∙ rw (test_of_eq (list_of t) (list_of t) refl) refl,
        );
        next = rw e refl;
        quantum = rw (e, test_of_eq t t refl) refl;
        rest =
            taken-members s (list_of t) readyqueue readyqueue o (λ z. absurd (omega arith))
            ∙ rw (e, test_of_eq x (list_of t) f.1) refl;
        others = λ h ne.
            taken-members s (list_of t) readyqueue h o (λ z. absurd (omega arith))
            ∙ rw (test_of_ne readyqueue h (λ z. ne (sym z))) refl;
      },
    )

-- `sched_next_rr` never faults: it switches to the first ready task, takes it out of the ready
-- queue, and to the idle task where none is ready; every other queue stays as it was. So in a sound
-- state, and the next is sound again.
pub sched_next_rr-Switched :
    (k : Kernel) (s : Queues)
    → IsSound k s
    → (k' : Kernel) × (s' : Queues) × (sched_next_rr k ≡ some k') × Switched k k' s s'
sched_next_rr-Switched k s v = go (s.members readyqueue) refl
  where
    go :
        (xs : List ℕ)
        → s.members readyqueue ≡ xs
        → (k' : Kernel) × (s' : Queues) × (sched_next_rr k ≡ some k') × Switched k k' s s'
    go [] e = let r = idle_switch k s v e in (r.0, s, r.1, r.2)
    go (x ∷ xs) e = ready_switch k s x xs v e
