-- ===== src/Sys/Blocking.antt =====
-- What `sys_block` and `sys_waitfortick` do to the queues.
use soa_fib.Base.{
  ℕ, ◌/◌, ◌≡◌, ◌≢◌, refl, ap, ◌∙◌, inl, inr, false, some, [], ◌∷◌, ◌++◌, arith, if◌then◌else◌,
  test_of_eq, subst, update_self,
}
use soa_fib.Base.Int.{pos}
use soa_fib.ListHead.Queues.{Queues, push_back, is_nil, first_or}
use soa_fib.Kernel.{Kernel, Task, blocked, readyqueue, blockedqueue, tick_blockedqueue, list_of}
use soa_fib.Sched.{set_status, update_process_state_rr}
use soa_fib.Sched.Sound.{IsSound, moved, with_links, update_process_state_rr-moved, moved-IsSound}
use soa_fib.Sched.Next.{Runs, Switched, sched_next_rr-Switched}
use soa_fib.Sched.Turn.{View, view, dispatch, Gone}
use soa_fib.Sched.Round.{quanta_of, scheduler-round}
use soa_fib.Stack.{in_keyboard_context}
use soa_fib.Sys.{sys_block, sys_waitfortick}

-- the current task leaves to a queue of blocked tasks
abbrev pub parked : ℕ → Kernel → Queues → Queues
parked d k s = push_back (list_of k.current_task) d s

-- what holds after a call that gave the processor away
pub record Left (k k' : Kernel) (s s' : Queues) (d : ℕ) (v : View) : Type 0 where
  pub sound : IsSound k' s'
  pub runs : Runs k' s'
  pub viewed : view k' s' ≡ v
  pub joined : s'.members d ≡ s.members d ++ list_of k.current_task ∷ []

module _ (k : Kernel) (s : Queues) (v : IsSound k s) (g : Runs k s)
    (ni : k.current_task ≢ k.idle_task) where
  park_block :
      (k1 : Kernel) × (update_process_state_rr k.current_task blockedqueue k ≡ some k1)
      × IsSound k1 (parked blockedqueue k s)
      × (k1.idle_task ≡ k.idle_task)
      × ((t : ℕ) → (k1.tasks t).quantum ≡ (k.tasks t).quantum)
      × Gone k1 (parked blockedqueue k s)
  park_block =
      let t = k.current_task in
      let m = inl (g.2, g.1) in
      let u = update_process_state_rr-moved k s v t g.0 blockedqueue m (inr (inr (inl refl))) in
      let same : moved (list_of t) blockedqueue s ≡ parked blockedqueue k s = rw g.2 refl in
      let k1 = set_status t blocked (with_links u.0 k) in
      (
        k1,
        u.1,
        subst (IsSound k1) same (
            moved-IsSound k s v t g.0 blockedqueue m (inr (inr (inl refl))) u.0 (λ e. absurd (ni e))
              u.2),
        refl,
        (λ x. ground arith),
        (
          g.0,
          ap (λ (z : Task). z.status) (update_self k.tasks t _),
          rw (test_of_eq (list_of t) (list_of t) refl) refl,
        ),
      )

  park_tick :
      (k1 : Kernel) × (update_process_state_rr k.current_task tick_blockedqueue k ≡ some k1)
      × IsSound k1 (parked tick_blockedqueue k s)
      × (k1.idle_task ≡ k.idle_task)
      × ((t : ℕ) → (k1.tasks t).quantum ≡ (k.tasks t).quantum)
  park_tick =
      let t = k.current_task in
      let m = inl (g.2, g.1) in
      let u =
        update_process_state_rr-moved k s v t g.0 tick_blockedqueue m (inr (inr (inr refl))) in
      let same : moved (list_of t) tick_blockedqueue s ≡ parked tick_blockedqueue k s =
        rw g.2 refl in
      let k1 = set_status t blocked (with_links u.0 k) in
      (
        k1,
        u.1,
        subst (IsSound k1) same (
            moved-IsSound k s v t g.0 tick_blockedqueue m (inr (inr (inr refl))) u.0
              (λ e. absurd (ni e)) u.2),
        refl,
        λ x. ground arith,
      )

  -- `sys_block` with no unblock pending never faults and returns 0: the caller goes to the end of
  -- the blocked queue, the tasks of the tick queue wake as on a tick, though there was none, and the
  -- first ready task runs, or the idle task if there is none. So for a caller that runs, is not the
  -- idle task, and is in no keyboard handler, in a sound state.
  pub sys_block-dispatch :
      in_keyboard_context k ≡ false
      → (k.tasks k.current_task).pending_unblocks ≡ pos 0
      → (k' : Kernel) × (s' : Queues) × (sys_block k ≡ some (pos 0, k'))
        × Left k k' s s' blockedqueue (
            dispatch
              (quanta_of k)
              k.idle_task
              (s.members readyqueue ++ s.members tick_blockedqueue))
  unfolding sys_block
  sys_block-dispatch ctx p =
      let (k1, e, w, idle, quanta, gone) = park_block in
      let (k', s', e', r) = scheduler-round k1 (parked blockedqueue k s) w (inr gone) in
      (
        k',
        s',
        rw (ctx, p, e, e') refl,
        record {
          sound = r.sound;
          runs = r.runs;
          viewed =
              r.viewed
              ∙ rw gone.1 (λ i.
                dispatch (λ t. quanta t i) (idle i)
                  (s.members readyqueue ++ s.members tick_blockedqueue));
          joined = r.others blockedqueue (λ z. absurd (omega arith)) λ z. absurd (omega arith);
        },
      )

  -- `sys_waitfortick` never faults and returns 0: the caller goes to the end of the tick queue and
  -- the first ready task runs, or the idle task if there is none; nobody else wakes. So for a
  -- caller that runs, is not the idle task, and is in no keyboard handler, in a sound state.
  pub sys_waitfortick-Switched :
      in_keyboard_context k ≡ false
      → (k' : Kernel) × (s' : Queues) × (sys_waitfortick k ≡ some (pos 0, k'))
        × Switched k k' (parked tick_blockedqueue k s) s'
  unfolding sys_waitfortick
  sys_waitfortick-Switched ctx =
      let (k1, e, w, idle, quanta) = park_tick in
      let (k', s', e', r) = sched_next_rr-Switched k1 (parked tick_blockedqueue k s) w in
      let next =
        ap (λ x. if is_nil (s.members readyqueue) then x else first_or 0 (s.members readyqueue) / 8)
          idle in
      (
        k',
        s',
        rw (ctx, e, e') refl,
        record {
          sound = r.sound;
          runs = r.runs;
          next = r.next ∙ next;
          quantum = r.quantum ∙ quanta _ ∙ ap (λ t. (k.tasks t).quantum) next;
          rest = r.rest;
          others = r.others;
        },
      )
