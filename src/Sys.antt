-- ===== src/Sys.antt =====
-- sys.c: the system calls on identity, blocking, writing and the keyboard. `none` is a page fault
-- inside the kernel. A call that switches away leaves what the next task finds; the result is the
-- one the caller gets when it runs again.
pub mod Blocking
pub mod Unblock
pub mod Threads
pub mod Exit
pub mod Write
use soa_fib.Base.{
  ℕ, Bool, true, false, ◌+◌, ◌-◌, ◌==◌, Option, none, some, if◌then◌else◌, ◌>>=◌, not,
}
use soa_fib.Base.Int.{ℤ, pos, negsuc, neg, ◌+ℤ◌, ◌-ℤ◌, eqb_ℤ, ltb_ℤ, pos_part, neg_part}
use soa_fib.ListHead.{list_first, for_each_find}
use soa_fib.Kernel.{
  Kernel, Task, put, is_blocked, readyqueue, blockedqueue, tick_blockedqueue, children_of,
  list_entry, einprogress, einval, efault, esrch,
}
use soa_fib.Sched.{update_process_state_rr, sched_next_rr, scheduler}
use soa_fib.Stack.{walk_fuel, check_fd, in_keyboard_context, fd_screen, fd_debug, o_wronly}
use soa_fib.Utils.{access_ok}
use soa_fib.Keyboard.{setup_kbd_aux_stack, cleanup_kbd_handler}

-- The code of the call that does not exist: -ENOSYS.
unfoldable pub sys_ni_syscall : ℤ
sys_ni_syscall = neg 38

unfoldable pub sys_getpid : Kernel → ℤ
sys_getpid k = if in_keyboard_context k then einprogress else pos (k.tasks k.current_task).pid

unfoldable pub sys_gettid : Kernel → ℤ
sys_gettid k = if in_keyboard_context k then einprogress else pos (k.tasks k.current_task).tid

unfoldable pub sys_gettime : Kernel → ℕ
sys_gettime k = k.zeos_ticks

unfoldable pub sys_block : Kernel → Option (ℤ × Kernel)
sys_block k =
    let t = k.current_task in
    if in_keyboard_context k
    then some (einprogress, k)
    else if eqb_ℤ (k.tasks t).pending_unblocks (pos 0)
    then (update_process_state_rr t blockedqueue k >>= λ k1.
        scheduler k1 >>= λ k2. some (pos 0, k2))
    else some (
      pos 0,
      put t (record (k.tasks t) { pending_unblocks = (k.tasks t).pending_unblocks -ℤ pos 1 }) k,
    )

unfoldable pub sys_waitfortick : Kernel → Option (ℤ × Kernel)
sys_waitfortick k =
    if in_keyboard_context k
    then some (einprogress, k)
    else (update_process_state_rr k.current_task tick_blockedqueue k >>= λ k1.
        sched_next_rr k1 >>= λ k2. some (pos 0, k2))

-- what `sys_unblock` does with the child that it finds
unfoldable pub unblock_child : ℕ → Kernel → Option (ℤ × Kernel)
unblock_child child k =
    if is_blocked (k.tasks child).status
    then (update_process_state_rr child readyqueue k >>= λ k1. some (pos 0, k1))
    else some (
      pos 0,
      put child
          (record (k.tasks child) { pending_unblocks = (k.tasks child).pending_unblocks +ℤ pos 1 })
          k,
    )

unfoldable pub sys_unblock : ℤ → Kernel → Option (ℤ × Kernel)
sys_unblock pid k =
    if in_keyboard_context k
    then some (einprogress, k)
    else (list_first (children_of k.current_task) k.links >>= λ first.
        for_each_find walk_fuel first (children_of k.current_task)
          (λ p. eqb_ℤ (pos (k.tasks (list_entry p)).pid) pid) k.links
        >>= λ r. elim r [ none ↦ some (esrch, k) | some p ↦ unblock_child (list_entry p) k ])

-- `sys_keyboard_event` with a handler and its wrapper, 0 for NULL
unfoldable pub sys_keyboard_event : ℕ → ℕ → Kernel → ℤ × Kernel
sys_keyboard_event func wrapper k =
    let t = k.current_task in
    if in_keyboard_context k
    then (einprogress, k)
    else if func == 0
    then (pos 0, cleanup_kbd_handler t k)
    else if not (access_ok func 4)
    then (efault, k)
    else if not (access_ok wrapper 4)
    then (efault, k)
    else (let (ret, k1) = setup_kbd_aux_stack t k in
        if ltb_ℤ ret (pos 0) then (ret, k1) else (
          pos 0,
          put t
              (record (k1.tasks t) {
                kbd_handler = func;
                kbd_wrapper = wrapper;
                in_kbd_context = 0;
              })
              k1,
        ))
