-- ===== src/Sched/Round.antt =====
-- `scheduler` is one round of the abstract round robin of Turn.
use soa_fib.Base.{
  ℕ, ◌+◌, ◌≡◌, refl, sym, ap, ◌∙◌, ◌⊎◌, inl, inr, true, false, Bool, Option, some, List, [], ◌∷◌,
  ◌++◌, if◌then◌else◌, ◌>>=◌, arith, Bool-cases,
}
use soa_fib.Base.Int.{ℤ, pos, ◌-ℤ◌, leb_ℤ}
use soa_fib.ListHead.Queues.{Queues, is_nil}
use soa_fib.Kernel.{is_blocked, Kernel, readyqueue, tick_blockedqueue, list_of, nr_tasks}
use soa_fib.Sched.{needs_sched_rr, scheduler}
use soa_fib.Sched.Sound.{IsSound}
use soa_fib.Sched.Next.{Runs}
use soa_fib.Sched.Wake.{Woken, wake_ticks-Woken}
use soa_fib.Sched.Turn.{
  sleepers-le, needs-expired, needs-left, view_eq, dispatch-view, Gone-gives_way, Runs-gives_way,
  with_quantum-IsSound, with_quantum, give_way, View, view, dispatch, round, Gone, Rounded,
}

either : (b : Bool) → (if b then true else true) ≡ true
either true = refl
either false = refl

eq_nil : (xs : List ℕ) → is_nil xs ≡ true → xs ≡ []
eq_nil [] e = refl
eq_nil (x ∷ xs) e = absurd (cc)

-- the part of `scheduler` behind the waking loop
abbrev after_wake : Kernel → Option Kernel
after_wake k1 = needs_sched_rr k1 >>= λ (needed, k2). if needed then give_way k2 else some k2

-- `scheduler` ends as the abstract view says.
abbrev Ends : Kernel → Kernel → Queues → View → Type 0
Ends k k1 s v = (k' : Kernel) × (s' : Queues) × (after_wake k1 ≡ some k') × Rounded k k' s s' v

abbrev ticked : Kernel → Kernel
ticked k = with_quantum (k.current_quantum -ℤ pos 1) k

abbrev pub quanta_of : Kernel → ℕ → ℤ
quanta_of k t = (k.tasks t).quantum

module _ (k k1 : Kernel) (s s1 : Queues) (v : IsSound k s) (w : Woken (ticked k) k1 s s1) where
  abbrev left : ℤ
  left = k.current_quantum -ℤ pos 1

  abbrev queue : List ℕ
  queue = s.members readyqueue ++ s.members tick_blockedqueue

  wake-Gone : Gone k s → Gone k1 s1
  wake-Gone (tk, st, o) =
      let kept = w.kept k.current_task (λ e. absurd (omega arith)) in
      rw w.current (tk, kept.1 ∙ st, kept.0 ∙ o)

  wake-Runs : Runs k s → Runs k1 s1
  wake-Runs (tk, st, o) =
      let kept = w.kept k.current_task (λ e. absurd (omega arith)) in
      rw w.current (tk, kept.1 ∙ st, kept.0 ∙ o)

  -- `needs_sched_rr` sees a blocked task, whatever is left of its time
  Gone-needs : Gone k1 s1 → (q : ℤ) × (needs_sched_rr k1 ≡ some (true, with_quantum q k1))
  Gone-needs g = elim (Bool-cases (leb_ℤ k1.current_quantum (pos 0))) [
    | inl e ↦ (
      (k1.tasks k1.current_task).quantum,
      needs-expired k1 s1 w.sound e
          ∙ rw g.1 (
              ap (λ b. some (b, with_quantum (k1.tasks k1.current_task).quantum k1))
                (either (is_nil (s1.members readyqueue)))),
    )
    | inr e ↦ (k1.current_quantum, needs-left k1 e ∙ rw g.1 refl)
  ]

  Gone-after : Gone k s → Ends k k1 s (dispatch (quanta_of k) k.idle_task queue)
  Gone-after g =
      let g1 = wake-Gone g in
      let n = Gone-needs g1 in
      let k2 = with_quantum n.0 k1 in
      let r = Gone-gives_way k2 s1 (with_quantum-IsSound n.0 k1 s1 w.sound) g1 in
      (
        r.0,
        r.1,
        rw n.1 r.2,
        record {
          sound = r.3.sound;
          runs = r.3.runs;
          viewed =
              dispatch-view k2 r.0 s1 r.1 (quanta_of k) k.idle_task queue (λ t. sym (w.quanta t))
                (sym w.idle) w.readied w.emptied r.3;
          others = λ h a b. r.3.others h a ∙ w.others h a b;
        },
      )

  expired_after :
      Runs k s
      → leb_ℤ left (pos 0) ≡ true
      → is_nil queue ≡ false
      → Ends k k1 s (dispatch (quanta_of k) k.idle_task (queue ++ list_of k.current_task ∷ []))
  expired_after g e ne =
      let q = (k1.tasks k1.current_task).quantum in
      let k2 = with_quantum q k1 in
      let r =
        Runs-gives_way k2 s1 (quanta_of k) (with_quantum-IsSound q k1 s1 w.sound) (wake-Runs g)
          (λ t. sym (w.quanta t)) w.emptied in
      (
        r.0,
        r.1,
        rw (needs-expired k1 s1 w.sound (rw w.quantum e), w.readied, ne) r.2,
        record {
          sound = r.3.sound;
          runs = r.3.runs;
          viewed = r.3.viewed ∙ rw (w.readied, w.current, w.idle) refl;
          others = λ h a b. r.3.others h a b ∙ w.others h a b;
        },
      )

  alone_after :
      Runs k s
      → leb_ℤ left (pos 0) ≡ true
      → is_nil queue ≡ true
      → Ends k k1 s
          (record (view k s) { waiting = []; sleeping = []; ticks = quanta_of k k.current_task })
  alone_after g e ne =
      let q = (k1.tasks k1.current_task).quantum in
      (
        with_quantum q k1,
        s1,
        rw (needs-expired k1 s1 w.sound (rw w.quantum e), w.readied, ne, (wake-Runs g).1) refl,
        record {
          sound = with_quantum-IsSound q k1 s1 w.sound;
          runs = wake-Runs g;
          viewed =
              view_eq w.current (w.readied ∙ eq_nil queue ne) w.emptied
                (rw w.current (w.quanta k.current_task));
          others = w.others;
        },
      )

  left_after :
      Runs k s
      → leb_ℤ left (pos 0) ≡ false
      → Ends k k1 s (record (view k s) { waiting = queue; sleeping = []; ticks = left })
  left_after g e = (
    k1,
    s1,
    rw (needs-left k1 (rw w.quantum e), (wake-Runs g).1) refl,
    record {
      sound = w.sound;
      runs = wake-Runs g;
      viewed = view_eq w.current w.readied w.emptied w.quantum;
      others = w.others;
    },
  )

  Runs-after : Runs k s → Ends k k1 s (round (quanta_of k) k.idle_task false (view k s))
  Runs-after g = elim (Bool-cases (leb_ℤ left (pos 0))) [
    | inr e ↦ rw e (left_after g e)
    | inl e ↦ elim (Bool-cases (is_nil queue)) [
      | inl n ↦ rw (e, n) (alone_after g e n)
      | inr n ↦ rw (e, n) (expired_after g e n)
    ]
  ]

-- `scheduler` never faults and its loop ends; its effect on the running task, the ready queue, the
-- sleepers and the quantum is one round of the abstract round robin, every other list stays as it
-- was, and the invariant holds again with the new task running and in no queue. So from any sound
-- state whose current task runs, or has just blocked itself.
pub scheduler-round :
    (k : Kernel) (s : Queues)
    → IsSound k s
    → Runs k s ⊎ Gone k s
    → (k' : Kernel) × (s' : Queues) × (scheduler k ≡ some k')
      × Rounded k k' s s'
          (round (quanta_of k) k.idle_task (is_blocked (k.tasks k.current_task).status) (view k s))
unfolding scheduler
scheduler-round k s v g =
    let w =
      wake_ticks-Woken (nr_tasks + 1) (ticked k) s
        (with_quantum-IsSound (k.current_quantum -ℤ pos 1) k s v)
        (omega (arith, sleepers-le k s v)) in
    rw w.2 (go g w.0 w.1 w.3)
  where
    go :
        Runs k s ⊎ Gone k s
        → (k1 : Kernel) (s1 : Queues) → Woken (ticked k) k1 s s1
        → Ends k k1 s (
            round (quanta_of k) k.idle_task (is_blocked (k.tasks k.current_task).status) (view k s))
    go (inl r) k1 s1 w = rw r.1 (Runs-after k k1 s s1 v w r)
    go (inr r) k1 s1 w = rw r.1 (Gone-after k k1 s s1 v w r)
