-- ===== src/Keyboard/Context.antt =====
-- The round trip of a task's context through a keyboard handler.
use soa_fib.Base.{
  ℕ, ◌+◌, ◌-◌, ◌<◌, ◌≤◌, false, ◌≡◌, ◌≢◌, refl, sym, ap, ◌∙◌, true, ◌==◌, ltb, leb, ◌&&◌, arith,
  if◌then◌else◌, update_self, test_of_ne, Bool-cases, inl, inr,
}
use soa_fib.Kernel.{Kernel, Task, put, task_struct_words}
use soa_fib.Keyboard.{
  kbd_ctx_size, stack_ebx, save_context, restore_context, enter_handler, kbd_irq_handler,
  kbd_resume_handler,
}

abbrev pub task_of : Kernel → Task
task_of k = k.tasks k.current_task

-- a task that a keyboard interrupt is delivered to
abbrev pub Listens : Kernel → Type 0
Listens k = (k.current_task ≢ 0) × ((task_of k).kbd_handler ≢ 0) × ((task_of k).in_kbd_context ≡ 0)

-- a kernel stack with new words above the `task_struct` that its lowest words hold
abbrev pub above_struct : (ℕ → ℕ) → (ℕ → ℕ) → ℕ → ℕ
above_struct st old j = if ltb j task_struct_words then old j else st j

-- the handler ran: it may have changed the task's kernel stack in any way, down to the `task_struct`
abbrev pub ran : (ℕ → ℕ) → Kernel → Kernel
ran st k = put k.current_task (record (task_of k) { stack = above_struct st (task_of k).stack }) k

restore-save :
    (task : Task) (st : ℕ → ℕ) (j : ℕ)
    → restore_context (record (enter_handler task) { stack = st }) j
      ≡ (if leb stack_ebx j && ltb j (stack_ebx + kbd_ctx_size) then task.stack j else st j)
unfolding restore_context save_context
restore-save task st j = elim (Bool-cases (leb stack_ebx j && ltb j (stack_ebx + kbd_ctx_size))) [
  | inr e ↦ rw e refl
  | inl e ↦ rw e (go e)
]
  where
    go :
        (leb stack_ebx j && ltb j (stack_ebx + kbd_ctx_size)) ≡ true
        → (if ltb (j - stack_ebx) kbd_ctx_size
            then task.stack (stack_ebx + (j - stack_ebx))
            else task.kbd_saved_ctx (j - stack_ebx))
          ≡ task.stack j
    go e =
        let small : j - stack_ebx < kbd_ctx_size = ground (arith, e) in
        let back : stack_ebx + (j - stack_ebx) ≡ j = ground (arith, e) in
        ground (arith, ap task.stack back)

kept :
    (a st old : ℕ → ℕ) (j : ℕ)
    → task_struct_words ≤ j
    → (if leb stack_ebx j && ltb j (stack_ebx + kbd_ctx_size) then a j else above_struct st old j)
      ≡ (if leb stack_ebx j && ltb j (stack_ebx + kbd_ctx_size) then a j else st j)
kept a st old j hi = rw (below j hi) refl
  where
    below : (j : ℕ) → task_struct_words ≤ j → ltb j task_struct_words ≡ false
    below j hi = ground (arith, hi)

-- what the two handlers do to the current task when they act
task_of-kbd_irq_handler :
    (k : Kernel) (scancode : ℕ)
    → Listens k
    → ((kbd_irq_handler scancode k).current_task ≡ k.current_task)
      × (task_of (kbd_irq_handler scancode k) ≡ enter_handler (task_of k))
unfolding kbd_irq_handler save_context
task_of-kbd_irq_handler k scancode l =
    rw (test_of_ne k.current_task 0 l.0, test_of_ne (task_of k).kbd_handler 0 l.1, l.2)
      (refl, update_self k.tasks k.current_task (enter_handler (task_of k)))

task_of-kbd_resume_handler :
    (k : Kernel)
    → k.current_task ≢ 0
    → (task_of k).in_kbd_context ≢ 0
    → task_of (kbd_resume_handler k)
      ≡ record (task_of k) { stack = restore_context (task_of k); in_kbd_context = 0 }
unfolding kbd_resume_handler
task_of-kbd_resume_handler k c i =
    rw (test_of_ne k.current_task 0 c, test_of_ne (task_of k).in_kbd_context 0 i)
      (update_self k.tasks k.current_task _)

-- An interrupt, any run of the handler that keeps off the `task_struct` below the stack, and the
-- resume give the interrupted context back: all sixteen saved registers, and the flag. What else the
-- handler did to the stack stays. So for a current task that has a handler and is not in it.
pub kbd_resume_handler-kbd_irq_handler :
    (k : Kernel) (scancode : ℕ) (st : ℕ → ℕ)
    → Listens k
    → let done = kbd_resume_handler (ran st (kbd_irq_handler scancode k)) in
      ((task_of done).in_kbd_context ≡ 0)
      × ((j : ℕ)
          → task_struct_words ≤ j
          → (task_of done).stack j ≡ (
              if leb stack_ebx j && ltb j (stack_ebx + kbd_ctx_size)
              then (task_of k).stack j
              else st j))
kbd_resume_handler-kbd_irq_handler k scancode st l =
    let k1 = kbd_irq_handler scancode k in
    let irq = task_of-kbd_irq_handler k scancode l in
    let now : task_of (ran st k1) ≡ record (enter_handler (task_of k)) {
      stack = above_struct st (enter_handler (task_of k)).stack;
    } =
      update_self k1.tasks k1.current_task
        (record (task_of k1) { stack = above_struct st (task_of k1).stack })
      ∙ ap (λ (t : Task). record t { stack = above_struct st t.stack }) irq.1 in
    let back =
      task_of-kbd_resume_handler (ran st k1) (λ e. l.0 (sym irq.0 ∙ e))
        (λ e. absurd (omega (arith, sym (ap (λ (t : Task). t.in_kbd_context) now) ∙ e))) in
    (
      ap (λ (t : Task). t.in_kbd_context) back,
      λ j hi.
          ap (λ (t : Task). t.stack j) back
          ∙ ap (λ t. restore_context t j) now
          ∙ restore-save (task_of k) (above_struct st (enter_handler (task_of k)).stack) j
          ∙ kept (task_of k).stack st (enter_handler (task_of k)).stack j hi,
    )

-- Without a current task, without a handler, or while it runs, an interrupt changes nothing:
-- handlers do not nest.
pub kbd_irq_handler_ignored :
    (k : Kernel) (scancode : ℕ) → ¬ Listens k → kbd_irq_handler scancode k ≡ k
unfolding kbd_irq_handler
kbd_irq_handler_ignored k scancode h = elim (Bool-cases (k.current_task == 0)) [
  | inl e ↦ rw e refl
  | inr e ↦ elim (Bool-cases ((task_of k).kbd_handler == 0)) [
    | inl e1 ↦ rw (e, e1) refl
    | inr e1 ↦ elim (Bool-cases ((task_of k).in_kbd_context == 0)) [
      | inl e2 ↦ absurd (h (ground (arith, e), ground (arith, e1), ground (arith, e2)))
      | inr e2 ↦ rw (e, e1, e2) refl
    ]
  ]
]
