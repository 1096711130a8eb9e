-- ===== src/Sched/Wake.antt =====
-- The loop of `scheduler` that wakes the tasks waiting for the tick.
use soa_fib.Base.{
  ℕ, zero, suc, ◌/◌, ◌<◌, ◌≡◌, ◌≢◌, refl, sym, ap, subst, ◌∙◌, inl, inr, some, List, [], ◌∷◌, ◌++◌,
  ◌==◌, arith, test_of_ne, test_of_eq, length, Bool-cases, eq_of_test,
}
use mathlib.Core.List.{append-nil, append_assoc}
use soa_fib.ListHead.Queues.{Queues, IsHead}
use soa_fib.ListHead.Rep.{list_empty-is_nil, list_first-first_or}
use soa_fib.Kernel.{ready, Kernel, readyqueue, tick_blockedqueue, list_of}
use soa_fib.Sched.{set_status, update_process_state_rr, wake_ticks}
use soa_fib.Sched.Sound.{
  IsSound, IsMovable, moved, with_links, update_process_state_rr-moved, moved-IsSound, moved_owner,
}
use soa_fib.Sched.Next.{taken-members}

-- what waking leaves: the waiting tasks at the end of the ready queue, and all else as it was
pub record Woken (k k' : Kernel) (s s' : Queues) : Type 0 where
  pub sound : IsSound k' s'
  pub current : k'.current_task ≡ k.current_task
  pub idle : k'.idle_task ≡ k.idle_task
  pub quantum : k'.current_quantum ≡ k.current_quantum
  pub readied : s'.members readyqueue ≡ s.members readyqueue ++ s.members tick_blockedqueue
  pub emptied : s'.members tick_blockedqueue ≡ []
  pub others : (h : ℕ) → h ≢ readyqueue → h ≢ tick_blockedqueue → s'.members h ≡ s.members h
  pub kept :
      (t : ℕ)
      → s.owner (list_of t) ≢ tick_blockedqueue
      → (s'.owner (list_of t) ≡ s.owner (list_of t)) × ((k'.tasks t).status ≡ (k.tasks t).status)
  pub quanta : (t : ℕ) → (k'.tasks t).quantum ≡ (k.tasks t).quantum

pub tick-IsHead : (k : Kernel) (s : Queues) → IsSound k s → IsHead s tick_blockedqueue
tick-IsHead k s v = (omega arith, v.heads tick_blockedqueue (omega arith) (omega arith))

Woken-refl :
    (k : Kernel) (s : Queues) → IsSound k s → s.members tick_blockedqueue ≡ [] → Woken k k s s
Woken-refl k s v e = record {
  sound = v;
  current = refl;
  idle = refl;
  quantum = refl;
  readied = rw (e, append-nil);
  emptied = e;
  others = λ h a b. refl;
  kept = λ t n. (refl, refl);
  quanta = λ t. refl;
}

-- one round of the loop
record Woke (k k' : Kernel) (s s' : Queues) (x : ℕ) (xs : List ℕ) : Type 0 where
  sound : IsSound k' s'
  current : k'.current_task ≡ k.current_task
  idle : k'.idle_task ≡ k.idle_task
  quantum : k'.current_quantum ≡ k.current_quantum
  readied : s'.members readyqueue ≡ s.members readyqueue ++ x ∷ []
  left : s'.members tick_blockedqueue ≡ xs
  others : (h : ℕ) → h ≢ readyqueue → h ≢ tick_blockedqueue → s'.members h ≡ s.members h
  kept :
      (t : ℕ)
      → s.owner (list_of t) ≢ tick_blockedqueue
      → (s'.owner (list_of t) ≡ s.owner (list_of t)) × ((k'.tasks t).status ≡ (k.tasks t).status)
  quanta : (t : ℕ) → (k'.tasks t).quantum ≡ (k.tasks t).quantum

wake_one :
    (k : Kernel) (s : Queues) (x : ℕ) (xs : List ℕ)
    → IsSound k s
    → s.members tick_blockedqueue ≡ x ∷ xs
    → (k' : Kernel) × (s' : Queues) × (update_process_state_rr (x / 8) readyqueue k ≡ some k')
      × Woke k k' s s' x xs
wake_one k s x xs v e =
    let h = tick-IsHead k s v in
    let i = (v.rep.ring tick_blockedqueue h.0 h.1).owned x (rw e (rw (test_of_eq x x refl) refl)) in
    let n = v.nodes x tick_blockedqueue (omega arith) (omega arith) (i.1, i.0) in
    let t : ℕ = x / 8 in
    let o : s.owner (list_of t) ≡ tick_blockedqueue =
      subst (λ z. s.owner z ≡ tick_blockedqueue) n.0 i.0 in
    let m : IsMovable k s t = inr (omega arith, omega arith) in
    let u = update_process_state_rr-moved k s v t n.1 readyqueue m (inr (inl refl)) in
    let mem =
      λ (g : ℕ). taken-members s (list_of t) tick_blockedqueue g o (λ z. absurd (omega arith)) in
    (
      set_status t ready (with_links u.0 k),
      moved (list_of t) readyqueue s,
      u.1,
      record {
        sound = moved-IsSound k s v t n.1 readyqueue m (inr (inl refl)) u.0 (λ z. omega arith) u.2;
        current = refl;
        idle = refl;
        quantum = refl;
        readied =
            ap (λ z. z ++ list_of t ∷ []) (mem readyqueue)
            ∙ ap (λ z. s.members readyqueue ++ z ∷ []) (sym n.0);
        left = mem tick_blockedqueue ∙ rw (e, test_of_eq x (list_of t) n.0) refl;
        others = λ g a b.
            rw (test_of_ne readyqueue g (λ z. a (sym z)))
              (mem g ∙ rw (test_of_ne tick_blockedqueue g (λ z. b (sym z))) refl);
        kept = λ y ne.
            let apart : t ≢ y =
              λ z. ne (subst (λ w. s.owner (list_of w) ≡ tick_blockedqueue) z o) in
            (
              moved_owner k s v t n.1 readyqueue m (list_of y)
                  ∙ rw (test_of_ne (list_of t) (list_of y) (λ z. apart (omega arith))) refl,
              rw (test_of_ne t y apart) refl,
            );
        quanta = λ y. elim (Bool-cases (t == y)) [
          | inl z ↦ rw z (ap (λ w. (k.tasks w).quantum) (eq_of_test t y z))
          | inr z ↦ rw z refl
        ];
      },
    )

Woke-Woken :
    (k k1 k2 : Kernel) (s s1 s2 : Queues) (x : ℕ) (xs : List ℕ)
    → s.members tick_blockedqueue ≡ x ∷ xs
    → Woke k k1 s s1 x xs
    → Woken k1 k2 s1 s2
    → Woken k k2 s s2
Woke-Woken k k1 k2 s s1 s2 x xs e a b = record {
  sound = b.sound;
  current = b.current ∙ a.current;
  idle = b.idle ∙ a.idle;
  quantum = b.quantum ∙ a.quantum;
  readied = b.readied ∙ rw (a.readied, a.left, e) (append_assoc (s.members readyqueue) (x ∷ []) xs);
  emptied = b.emptied;
  others = λ h p q. b.others h p q ∙ a.others h p q;
  kept = λ t ne.
      let r = a.kept t ne in let r' = b.kept t (λ z. ne (sym r.0 ∙ z)) in (r'.0 ∙ r.0, r'.1 ∙ r.1);
  quanta = λ t. b.quanta t ∙ a.quanta t;
}

-- In a sound state, with more rounds than tasks that wait for the tick, the loop ends without a
-- fault and appends them in order to the ready queue; all else stays.
pub wake_ticks-Woken :
    (fuel : ℕ) (k : Kernel) (s : Queues)
    → IsSound k s
    → length (s.members tick_blockedqueue) < fuel
    → (k' : Kernel) × (s' : Queues) × (wake_ticks fuel k ≡ some k') × Woken k k' s s'
unfolding wake_ticks
wake_ticks-Woken zero k s v f = absurd (omega arith)
wake_ticks-Woken (suc fuel) k s v f =
    go (s.members tick_blockedqueue) refl λ k1 s1 v1 f1. wake_ticks-Woken fuel k1 s1 v1 f1
  where
    go :
        (xs : List ℕ)
        → s.members tick_blockedqueue ≡ xs
        → ((k1 : Kernel) (s1 : Queues)
            → IsSound k1 s1
            → length (s1.members tick_blockedqueue) < fuel
            → (k' : Kernel) × (s' : Queues) × (wake_ticks fuel k1 ≡ some k') × Woken k1 k' s1 s')
        → (k' : Kernel) × (s' : Queues) × (wake_ticks (suc fuel) k ≡ some k') × Woken k k' s s'
    go [] e rec = (
      k,
      s,
      rw (list_empty-is_nil k.links s v.rep tick_blockedqueue (tick-IsHead k s v), e),
      Woken-refl k s v e,
    )
    go (x ∷ xs) e rec =
        let w = wake_one k s x xs v e in
        let woke = w.3 in
        let more = rec w.0 w.1 woke.sound (omega (arith, ap length woke.left, ap length e)) in
        (
          more.0,
          more.1,
          rw (list_empty-is_nil k.links s v.rep tick_blockedqueue (tick-IsHead k s v), e)
              (rw (list_first-first_or k.links s v.rep tick_blockedqueue (tick-IsHead k s v), e)
                (rw w.2 more.2)),
          Woke-Woken k w.0 more.0 s w.1 more.1 x xs e woke more.3,
        )
