-- ===== src/Sys/Exit.antt =====
-- sys.c: `sys_exit` and `sys_exit_thread`. Each loop over a list has `walk_fuel` rounds.
pub mod Adopt
use soa_fib.Base.{
  ℕ, zero, suc, ◌+◌, ◌==◌, ltb, not, Bool, true, false, Option, none, some, if◌then◌else◌, ◌>>=◌,
}
use soa_fib.Base.Int.{ℤ, pos, ◌-ℤ◌, eqb_ℤ, pos_part, neg_part}
use soa_fib.ListHead.{
  list_empty, list_first, get_next, list_del, list_add_tail, init_list_head, for_each_find,
}
use soa_fib.Kernel.{
  Kernel, Task, put, on_links, is_run, freequeue, list_of, children_of, child_list_of, threads_of,
  thread_list_of, list_entry, max_tids_per_process,
}
use soa_fib.Mm.{num_pag_data, pag_log_init_data, get_pt, put_pt}
use soa_fib.Sched.{free_tid, sched_next_rr}
use soa_fib.Stack.{walk_fuel, release_pages, release_thread_stack}
use soa_fib.Keyboard.{cleanup_kbd_handler}

-- `list_for_each_safe`: the next node is read before the body runs
unfoldable pub for_each_safe : ℕ → ℕ → ℕ → ℕ → (ℕ → Kernel → Option Kernel) → Kernel → Option Kernel
for_each_safe zero node n head body k = none
for_each_safe (suc fuel) node n head body k =
    if node == head
    then some k
    else (body node k >>= λ k1. get_next n k1.links >>= λ n'. for_each_safe fuel n n' head body k1)

unfoldable pub each_of : ℕ → (ℕ → Kernel → Option Kernel) → Kernel → Option Kernel
each_of head body k = do
  first ← get_next head k.links
  n ← get_next first k.links
  for_each_safe walk_fuel first n head body k

-- one thread of the process, in step 1
unfoldable pub free_thread : ℕ → ℕ → Kernel → Option Kernel
free_thread master node k = do
  let thread = list_entry node
  k1 ← release_thread_stack thread k
  let k2 = free_tid master (k1.tasks thread).tid k1
  k3 ← on_links (list_del (thread_list_of thread)) k2
  k4 ← if is_run (k3.tasks thread).status then some k3 else on_links (list_del (list_of thread)) k3
  on_links (list_add_tail (list_of thread) freequeue) k4

-- one child of the caller, in step 2
unfoldable pub adopt_child : ℕ → Kernel → Option Kernel
adopt_child node k = do
  let child = list_entry node
  k1 ← on_links (list_del (child_list_of child)) k
  let k2 = put child (record (k1.tasks child) { parent = k1.idle_task }) k1
  on_links (list_add_tail (child_list_of child) (children_of k2.idle_task)) k2

-- step 4: `get_frame` gives twenty bits, so its test `frame >= 0` always holds
unfoldable pub free_data : ℕ → Kernel → Kernel
free_data master k =
    let (pt, mem) = release_pages num_pag_data pag_log_init_data (get_pt master k, k.phys_mem) in
    record (put_pt master pt k) { phys_mem = mem }

unfoldable pub sys_exit : Kernel → Option Kernel
sys_exit k = do
  let t = k.current_task
  let master = (k.tasks t).master_thread
  alone ← list_empty (threads_of master) k.links
  k1 ← if alone then some k else each_of (threads_of master) (free_thread master) k
  k2 ← each_of (children_of t) adopt_child k1
  k3 ← if (k2.tasks t).parent == 0 then some k2 else on_links (list_del (child_list_of t)) k2
  k4 ← on_links (list_add_tail (list_of master) freequeue) (free_data master k3)
  sched_next_rr (cleanup_kbd_handler t k4)

-- the threads that go over to the new master
unfoldable pub move_thread : ℕ → ℕ → ℕ → Kernel → Option Kernel
move_thread master new_master node k =
    let t = list_entry node in
    if t == master
    then some k
    else (on_links (list_del (thread_list_of t))
          (put t (record (k.tasks t) { master_thread = new_master }) k)
        >>= λ k1. on_links (list_add_tail (thread_list_of t) (threads_of new_master)) k1)

-- the master's fields in the new master, its old identifier freed
unfoldable pub inherit_fields : ℕ → ℕ → Kernel → Kernel
inherit_fields master new_master k =
    let m = k.tasks master in
    free_tid new_master m.tid (
      put new_master
        (record (k.tasks new_master) {
          master_thread = new_master;
          thread_count = m.thread_count;
          tid_slots = λ i.
              if ltb i max_tids_per_process
              then m.tid_slots i
              else (k.tasks new_master).tid_slots i;
        })
        k)

-- the master leaves and another thread takes its role
unfoldable pub change_master : ℕ → ℕ → Kernel → Option Kernel
change_master master new_master k = do
  let k1 = inherit_fields master new_master k
  k2 ← on_links (list_del (thread_list_of new_master)) k1
  k3 ← on_links (init_list_head (threads_of new_master)) k2
  k4 ← each_of (threads_of master) (move_thread master new_master) k3
  k5 ← on_links (list_add_tail (list_of master) freequeue) k4
  sched_next_rr k5

unfoldable pub sys_exit_thread : Kernel → Option Kernel
sys_exit_thread k =
    let t = k.current_task in
    let master = (k.tasks t).master_thread in
    if eqb_ℤ (k.tasks master).thread_count (pos 1) then sys_exit k else do
      k1 ← release_thread_stack t k
      let k2 = free_tid master (k1.tasks t).tid k1
      let m = k2.tasks master
      let k3 = put master (record m { thread_count = m.thread_count -ℤ pos 1 }) k2
      k4 ← on_links (list_del (thread_list_of t)) k3
      if not (t == master)
          then (on_links (list_add_tail (list_of t) freequeue) k4 >>= λ k5. sched_next_rr k5)
          else (list_first (threads_of master) k4.links >>= λ first.
              for_each_find walk_fuel first (threads_of master) (λ p. not (list_entry p == master))
                k4.links
              >>= λ r. elim r [
                | none ↦ sys_exit k4
                | some p ↦ change_master master (list_entry p) k4
              ])
