-- ===== src/Sched/Sound.antt =====
-- The invariant that ties the queues of sched.c to the tasks' statuses, and the one function that
-- moves a task between queues.
use soa_fib.Base.{
  ℕ, ◌/◌, ◌≤◌, ◌≡◌, ◌≢◌, refl, sym, ap, subst, ◌∙◌, ◌⊎◌, inl, inr, some, ◌==◌, if◌then◌else◌, arith,
  Bool-cases, test_of_ne, test_of_eq, eq_of_test, update,
}
use soa_fib.ListHead.{Links, list_del}
use soa_fib.ListHead.Queues.{Queues, IsHead, IsIn, push_back, remove}
use soa_fib.ListHead.Rep.{Rep, list_add_tail-push_back, list_del-remove}
use soa_fib.Kernel.{
  on_links, Status, run, ready, blocked, is_run, Kernel, freequeue, readyqueue, blockedqueue,
  tick_blockedqueue, list_of, nr_tasks,
}
use soa_fib.Sched.{nowhere, set_status, update_process_state_rr}

-- the status that goes with a destination of `update_process_state_rr`
abbrev pub status_for : ℕ → Status
status_for d = if d == nowhere then run else if d == readyqueue then ready else blocked

-- nowhere, or one of the queues that `update_process_state_rr` is given
abbrev pub IsPlace : ℕ → Type 0
IsPlace d = (d ≡ nowhere) ⊎ ((d ≡ readyqueue) ⊎ ((d ≡ blockedqueue) ⊎ (d ≡ tick_blockedqueue)))

abbrev pub IsTask : ℕ → Type 0
IsTask t = (t ≢ 0) × (t ≤ nr_tasks)

pub record IsSound (k : Kernel) (s : Queues) : Type 0 where
  pub rep : Rep k.links s
  pub heads : (h : ℕ) → freequeue ≤ h → h ≤ tick_blockedqueue → s.owner h ≡ h
  -- a task in a queue of the scheduler has the status of that queue
  pub status_of :
      (t : ℕ)
      → t ≢ 0
      → readyqueue ≤ s.owner (list_of t)
      → s.owner (list_of t) ≤ tick_blockedqueue
      → (k.tasks t).status ≡ status_for (s.owner (list_of t))
  -- the queues of the scheduler hold `list` fields
  pub nodes :
      (x h : ℕ)
      → readyqueue ≤ h
      → h ≤ tick_blockedqueue
      → IsIn s x h
      → (x ≡ list_of (x / 8)) × IsTask (x / 8)
  -- the idle task is never blocked nor freed, and runs when it is not ready
  pub idle_task : IsTask k.idle_task
  pub idle_place :
      (s.owner (list_of k.idle_task) ≡ readyqueue)
      ⊎ ((s.owner (list_of k.idle_task) ≡ 0) × ((k.tasks k.idle_task).status ≡ run))

-- where a task may be before a move: running and in no queue, or in a queue of the scheduler
abbrev pub IsMovable : Kernel → Queues → ℕ → Type 0
IsMovable k s t =
    ((s.owner (list_of t) ≡ 0) × ((k.tasks t).status ≡ run))
    ⊎ ((readyqueue ≤ s.owner (list_of t)) × (s.owner (list_of t) ≤ tick_blockedqueue))

-- the effect of `update_process_state_rr` on the queues
abbrev pub taken : ℕ → Queues → Queues
taken x s = if s.owner x == 0 then s else remove x s

abbrev pub moved : ℕ → ℕ → Queues → Queues
moved x d s = if d == nowhere then taken x s else push_back x d (taken x s)

abbrev pub with_links : Links → Kernel → Kernel
with_links l k = record k { links = l }

idle_fits :
    (d : ℕ) → IsPlace d → d ≤ readyqueue → (d ≡ readyqueue) ⊎ ((d ≡ 0) × (status_for d ≡ run))
idle_fits d (inl e) le = inr (e, rw e refl)
idle_fits d (inr (inl e)) le = inl e
idle_fits d (inr (inr e)) le = absurd (omega arith)

module _ (k : Kernel) (s : Queues) (v : IsSound k s) (t : ℕ) (tk : IsTask t) where
  queue-IsHead : (h : ℕ) → freequeue ≤ h → h ≤ tick_blockedqueue → IsHead s h
  queue-IsHead h lo hi = (λ e. absurd (omega arith), v.heads h lo hi)

  -- the first half: the task leaves its queue
  taken-Rep :
      (m : IsMovable k s t)
      → (l : Links) × ((if is_run (k.tasks t).status
            then some k
            else on_links (list_del (list_of t)) k)
          ≡ some (with_links l k))
        × Rep l (taken (list_of t) s)
  taken-Rep (inl (o, r)) = (k.links, rw r, rw o v.rep)
  taken-Rep (inr (lo, hi)) =
      let h = s.owner (list_of t) in
      let del =
        list_del-remove k.links s v.rep h (list_of t) (queue-IsHead h (omega arith) hi)
          ((λ e. absurd (omega arith)), refl) in
      (
        del.0,
        rw (v.status_of t tk.0 lo hi) (ground (arith, del.1)),
        rw (test_of_ne h 0 (omega arith)) del.2,
      )

  taken_owner :
      (m : IsMovable k s t) (y : ℕ)
      → (taken (list_of t) s).owner y ≡ (if list_of t == y then 0 else s.owner y)
  taken_owner (inl (o, r)) y = ground arith
  taken_owner (inr (lo, hi)) y = ground arith

  -- `update_process_state_rr` moves a movable task to the queue it is given, or to no queue, and
  -- gives it the status that goes with that place, without a fault. So in a sound state, for a task
  -- that runs in no queue or stands in a queue of the scheduler.
  pub update_process_state_rr-moved :
      (d : ℕ) (m : IsMovable k s t) (place : IsPlace d)
      → (l : Links) × (update_process_state_rr t d k
          ≡ some (set_status t (status_for d) (with_links l k)))
        × Rep l (moved (list_of t) d s)
  unfolding update_process_state_rr
  update_process_state_rr-moved d m (inl e) =
      let first = taken-Rep m in (first.0, rw first.1 (rw e refl), rw e first.2)
  update_process_state_rr-moved d m (inr place) =
      let first = taken-Rep m in
      let ds : readyqueue ≤ d = omega arith in
      let dt : d ≤ tick_blockedqueue = omega arith in
      let add =
        list_add_tail-push_back first.0 (taken (list_of t) s) first.2 d
          (
            (λ e. absurd (omega arith)),
            taken_owner m d
                ∙ rw (test_of_ne (list_of t) d (omega arith)) (v.heads d (omega arith) dt),
          )
          (list_of t)
          (
            (λ e. absurd (omega arith)),
            taken_owner m (list_of t) ∙ rw (test_of_eq (list_of t) (list_of t) refl) refl,
          ) in
      (
        add.0,
        rw first.1 (rw (add.1, test_of_ne d 0 (omega arith)) refl),
        rw (test_of_ne d 0 (omega arith)) add.2,
      )

  pub moved_owner :
      (d : ℕ) (m : IsMovable k s t) (y : ℕ)
      → (moved (list_of t) d s).owner y ≡ (if list_of t == y then d else s.owner y)
  moved_owner d m y = ground (arith, taken_owner m y)

  owner_self : (d : ℕ) (m : IsMovable k s t) → (moved (list_of t) d s).owner (list_of t) ≡ d
  owner_self d m = moved_owner d m (list_of t) ∙ rw (test_of_eq (list_of t) (list_of t) refl) refl

  owner_other :
      (d : ℕ) (m : IsMovable k s t) (u : ℕ)
      → t ≢ u
      → (moved (list_of t) d s).owner (list_of u) ≡ s.owner (list_of u)
  owner_other d m u ne =
      moved_owner d m (list_of u) ∙ rw (test_of_ne (list_of t) (list_of u) (omega arith)) refl

  moved-status_of :
      (d : ℕ) (m : IsMovable k s t) (u : ℕ)
      → u ≢ 0
      → readyqueue ≤ (moved (list_of t) d s).owner (list_of u)
      → (moved (list_of t) d s).owner (list_of u) ≤ tick_blockedqueue
      → (update k.tasks t (record (k.tasks t) { status = status_for d }) u).status
        ≡ status_for ((moved (list_of t) d s).owner (list_of u))
  moved-status_of d m u u0 lo hi = elim (Bool-cases (t == u)) [
    | inl e ↦ rw e (
        ap status_for (
          sym (owner_self d m)
          ∙ ap (λ z. (moved (list_of t) d s).owner (list_of z)) (eq_of_test t u e)))
    | inr e ↦
        let same = owner_other d m u (ground arith) in
        rw e
          (v.status_of u u0 (omega (arith, same)) (omega (arith, same)) ∙ ap status_for (sym same))
  ]

  moved-nodes :
      (d : ℕ) (m : IsMovable k s t) (x h : ℕ)
      → readyqueue ≤ h
      → h ≤ tick_blockedqueue
      → IsIn (moved (list_of t) d s) x h
      → (x ≡ list_of (x / 8)) × IsTask (x / 8)
  moved-nodes d m x h lo hi i = elim (Bool-cases (list_of t == x)) [
    | inl e ↦
        let same = eq_of_test (list_of t) x e in
        (omega (arith, same), (omega (arith, same), omega (arith, same)))
    | inr e ↦ v.nodes x h lo hi (i.0, sym (moved_owner d m x ∙ rw e refl) ∙ i.1)
  ]

  moved-idle :
      (d : ℕ) (m : IsMovable k s t) (place : IsPlace d)
      → (t ≡ k.idle_task → d ≤ readyqueue)
      → ((moved (list_of t) d s).owner (list_of k.idle_task) ≡ readyqueue)
        ⊎ (((moved (list_of t) d s).owner (list_of k.idle_task) ≡ 0)
            × ((update k.tasks t (record (k.tasks t) { status = status_for d }) k.idle_task).status
                ≡ run))
  moved-idle d m place only = elim (Bool-cases (t == k.idle_task)) [
    | inl e ↦
        let same = eq_of_test t k.idle_task e in
        rw (subst (λ z. (moved (list_of t) d s).owner (list_of z) ≡ d) same (owner_self d m), e)
          (idle_fits d place (only same))
    | inr e ↦ let same = owner_other d m k.idle_task (ground arith) in rw (same, e) v.idle_place
  ]

  -- A move keeps the invariant, if the idle task is never blocked.
  pub moved-IsSound :
      (d : ℕ) (m : IsMovable k s t) (place : IsPlace d) (l : Links)
      → (t ≡ k.idle_task → d ≤ readyqueue)
      → Rep l (moved (list_of t) d s)
      → IsSound (set_status t (status_for d) (with_links l k)) (moved (list_of t) d s)
  moved-IsSound d m place l only r = record {
    rep = r;
    heads = λ h lo hi.
        moved_owner d m h ∙ rw (test_of_ne (list_of t) h (omega arith)) (v.heads h lo hi);
    status_of = moved-status_of d m;
    nodes = moved-nodes d m;
    idle_task = v.idle_task;
    idle_place = moved-idle d m place only;
  }
