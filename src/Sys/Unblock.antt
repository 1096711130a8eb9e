-- ===== src/Sys/Unblock.antt =====
-- `sys_unblock`: the search for the child, the wake-up, and the count of early unblocks.
use soa_fib.Base.{
  ℕ, ◌+◌, ◌≤◌, ◌<◌, ◌≡◌, refl, ap, ◌∙◌, inl, inr, Bool, true, false, none, some, [], ◌∷◌, ◌++◌,
  arith, ◌==◌, test_of_eq, test_of_ne, update_self, length, not, ◌&&◌,
}
use soa_fib.Base.Int.{ℤ, pos, ◌+ℤ◌, ◌-ℤ◌, eqb_ℤ}
use soa_fib.ListHead.Queues.{Queues, IsHead}
use soa_fib.ListHead.Rep.{Rep, list_first-first_or}
use soa_fib.ListHead.Walk.{find, for_each_find-find}
use soa_fib.Kernel.{
  Kernel, Task, put, ready, is_blocked, esrch, readyqueue, blockedqueue, tick_blockedqueue,
  children_of, list_of, list_entry,
}
use soa_fib.Sched.{set_status}
use soa_fib.Sched.Sound.{
  IsSound, IsTask, moved, with_links, update_process_state_rr-moved, moved-IsSound,
}
use soa_fib.Sched.Next.{taken-members}
use soa_fib.Stack.{in_keyboard_context, walk_fuel}
use soa_fib.Sys.{sys_block, sys_unblock, unblock_child}

-- `child->PID == pid` at a child's node
abbrev pub has_pid : Kernel → ℤ → ℕ → Bool
has_pid k pid p = eqb_ℤ (pos (k.tasks (list_entry p)).pid) pid

-- `sys_unblock` acts on the first child of the caller with that PID, in the order of the list of
-- children, and returns -ESRCH without a change when there is none. So for a caller in no keyboard
-- handler, whose list of children is well formed and no longer than the table of tasks.
pub sys_unblock-find :
    (k : Kernel) (s : Queues) (pid : ℤ)
    → Rep k.links s
    → IsHead s (children_of k.current_task)
    → in_keyboard_context k ≡ false
    → length (s.members (children_of k.current_task)) < walk_fuel
    → sys_unblock pid k ≡ elim (find (has_pid k pid) (s.members (children_of k.current_task))) [
      | none ↦ some (esrch, k)
      | some p ↦ unblock_child (list_entry p) k
    ]
unfolding sys_unblock
sys_unblock-find k s pid r hh ctx short =
    rw
      (
        ctx,
        list_first-first_or k.links s r (children_of k.current_task) hh,
        for_each_find-find k.links s r (children_of k.current_task) hh walk_fuel (has_pid k pid)
            short,
      )
      refl

-- Unblocking a blocked child returns 0 and moves it from its queue to the end of the ready queue
-- with status ready; the state stays sound. So for any task in the blocked queue or the tick queue:
-- a wait for the tick ends too.
pub unblock_child-readied :
    (k : Kernel) (s : Queues) (c : ℕ)
    → IsSound k s
    → IsTask c
    → is_blocked (k.tasks c).status ≡ true
    → blockedqueue ≤ s.owner (list_of c)
    → s.owner (list_of c) ≤ tick_blockedqueue
    → (k' : Kernel) × (s' : Queues) × (unblock_child c k ≡ some (pos 0, k'))
      × IsSound k' s'
      × (s'.members readyqueue ≡ s.members readyqueue ++ list_of c ∷ [])
      × (s'.owner (list_of c) ≡ readyqueue)
      × ((k'.tasks c).status ≡ ready)
unfolding unblock_child
unblock_child-readied k s c v tc b lo hi =
    let m = inr (omega arith, hi) in
    let place = inr (inl refl) in
    let u = update_process_state_rr-moved k s v c tc readyqueue m place in
    (
      set_status c ready (with_links u.0 k),
      moved (list_of c) readyqueue s,
      rw (b, u.1) refl,
      moved-IsSound k s v c tc readyqueue m place u.0 (λ e. omega arith) u.2,
      ap (λ xs. xs ++ list_of c ∷ [])
          (taken-members s (list_of c) (s.owner (list_of c)) readyqueue refl (omega arith)
            ∙ rw (test_of_ne (s.owner (list_of c)) readyqueue (omega arith)) refl),
      rw (test_of_eq (list_of c) (list_of c) refl) refl,
      ap (λ (t : Task). t.status) (update_self k.tasks c _),
    )

-- An unblock that comes before the block is not lost: it is counted, and the child's next
-- `sys_block` returns 0 at once, without a switch, and takes the count back. So for a child that is
-- not blocked, is in no keyboard handler and has a count of at least 0.
pub sys_block-unblock_child :
    (k : Kernel) (c n : ℕ)
    → is_blocked (k.tasks c).status ≡ false
    → (k.tasks c).in_kbd_context ≡ 0
    → (k.tasks c).pending_unblocks ≡ pos n
    → (k1 : Kernel) × (k2 : Kernel) × (unblock_child c k ≡ some (pos 0, k1))
      × ((k1.tasks c).pending_unblocks ≡ pos (n + 1))
      × (sys_block (record k1 { current_task = c }) ≡ some (pos 0, k2))
      × ((k2.tasks c).pending_unblocks ≡ pos n)
      × (k2.links ≡ k.links)
      × (k2.current_task ≡ c)
unfolding unblock_child sys_block in_keyboard_context
sys_block-unblock_child k c n b ctx p =
    let t = k.tasks c in
    let up = record t { pending_unblocks = t.pending_unblocks +ℤ pos 1 } in
    let k1 = record (put c up k) { current_task = c } in
    let same : k1.tasks c ≡ up = update_self k.tasks c up in
    let count : (k1.tasks c).pending_unblocks ≡ pos (n + 1) =
      ap (λ (z : Task). z.pending_unblocks) same ∙ rw p (ground arith) in
    let quiet : (not (c == 0) && not ((k1.tasks c).in_kbd_context == 0)) ≡ false =
      rw (ap (λ (z : Task). z.in_kbd_context) same, ctx) (ground arith) in
    let positive : eqb_ℤ (k1.tasks c).pending_unblocks (pos 0) ≡ false =
      ap (λ z. eqb_ℤ z (pos 0)) count ∙ test_of_ne (n + 1 + 0) 0 (omega arith) in
    let down = record (k1.tasks c) { pending_unblocks = (k1.tasks c).pending_unblocks -ℤ pos 1 } in
    (
      put c up k,
      put c down k1,
      rw b refl,
      count,
      rw (quiet, positive) refl,
      ap (λ (z : Task). z.pending_unblocks) (update_self k1.tasks c down) ∙ rw count (ground arith),
      refl,
      refl,
    )
