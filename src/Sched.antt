-- ===== src/Sched.antt =====
-- sched.c: the round-robin scheduler. `none` is a page fault inside the kernel.
-- A context switch sets what the switched-to task finds; what follows the call in the source runs
-- when the old task is switched to again.
pub mod Sound
pub mod Next
pub mod Wake
pub mod Turn
pub mod Round
pub mod Tids
pub mod Init
use soa_fib.Base.{
  ℕ, zero, suc, ◌+◌, ◌*◌, ◌-◌, ◌<◌, Bool, true, false, ◌==◌, leb, Option, none, some, ◌>>=◌,
  if◌then◌else◌, update, not, ltb, ◌&&◌,
}
use soa_fib.Base.Int.{ℤ, pos, neg, ◌-ℤ◌, leb_ℤ, ltb_ℤ, pos_part, neg_part}
use soa_fib.ListHead.{list_del, list_add_tail, list_empty, list_first, init_list_head}
use soa_fib.Kernel.{
  Status, run, ready, blocked, is_run, is_blocked, Task, Kernel, put, on_links, readyqueue,
  freequeue, blockedqueue, tick_blockedqueue, list_of, list_entry, nr_tasks, kernel_stack_size,
  max_tids_per_process,
}

abbrev pub list_head_to_task_struct : ℕ → ℕ
list_head_to_task_struct l = list_entry l

-- `NULL` as a destination queue
abbrev pub nowhere : ℕ
nowhere = 0

unfoldable pub get_quantum : ℕ → Kernel → ℤ
get_quantum t k = (k.tasks t).quantum

unfoldable pub set_quantum : ℕ → ℤ → Kernel → Kernel
set_quantum t q k = put t (record (k.tasks t) { quantum = q }) k

unfoldable pub update_sched_data_rr : Kernel → Kernel
update_sched_data_rr k = record k { current_quantum = k.current_quantum -ℤ pos 1 }

-- The tests are nested as in the source: the quantum is renewed whether or not a task is ready.
unfoldable pub needs_sched_rr : Kernel → Option (Bool × Kernel)
unfolding get_quantum
needs_sched_rr k =
    if leb_ℤ k.current_quantum (pos 0)
    then (let k1 = record k { current_quantum = get_quantum k.current_task k } in
        list_empty readyqueue k1.links >>= λ e.
        some (if e then is_blocked (k1.tasks k1.current_task).status else true, k1))
    else some (is_blocked (k.tasks k.current_task).status, k)

-- `init_tid_slots`: all slots free but the first
unfoldable pub init_tid_slots : ℕ → Kernel → Kernel
init_tid_slots t k =
    put t
      (record (k.tasks t) {
        tid_slots = λ i.
            if i == 0 then 1 else if ltb i max_tids_per_process then 0 else (k.tasks t).tid_slots i;
      })
      k

-- the loop of `allocate_tid` from slot i on; fuel counts the slots left
unfoldable pub free_slot : ℕ → ℕ → (ℕ → ℕ) → Option ℕ
free_slot zero i slots = none
free_slot (suc fuel) i slots =
    let rest = free_slot fuel (i + 1) slots in if slots i == 0 then some i else rest

unfoldable pub allocate_tid : ℕ → Kernel → ℤ × Kernel
allocate_tid master k =
    let m = k.tasks master in
    elim (free_slot max_tids_per_process 0 m.tid_slots) [
      | none ↦ (neg 1, k)
      | some i ↦
          (pos (m.pid * 10 + i), put master (record m { tid_slots = update m.tid_slots i 1 }) k)
    ]

-- `free_tid` on the master's fields: the slot is computed and checked as an `int`.
unfoldable pub clear_slot : ℕ → Task → Task
clear_slot tid m =
    let slot = pos tid -ℤ pos (m.pid * 10) in
    if leb_ℤ (pos 0) slot && ltb_ℤ slot (pos max_tids_per_process)
    then record m { tid_slots = update m.tid_slots (pos_part slot) 0 }
    else m

unfoldable pub free_tid : ℕ → ℕ → Kernel → Kernel
free_tid master tid k = put master (clear_slot tid (k.tasks master)) k

abbrev pub set_status : ℕ → Status → Kernel → Kernel
set_status t s k = put t (record (k.tasks t) { status = s }) k

unfoldable pub update_process_state_rr : ℕ → ℕ → Kernel → Option Kernel
update_process_state_rr t dest k = do
  k1 ← if is_run (k.tasks t).status then some k else on_links (list_del (list_of t)) k
  if dest == nowhere
      then some (set_status t run k1)
      else (on_links (list_add_tail (list_of t) dest) k1 >>= λ k2.
          some (set_status t (if dest == readyqueue then ready else blocked) k2))

-- `KERNEL_ESP`: the end of a task's kernel stack, as the address of a `task_union` of 4096 bytes
unfoldable pub kernel_esp_of : ℕ → ℕ
kernel_esp_of t = t * (4 * kernel_stack_size)

-- `inner_task_switch` up to `switch_context`, which exchanges the stack pointers
unfoldable pub inner_task_switch : ℕ → Kernel → Kernel
unfolding kernel_esp_of
inner_task_switch new k = record k {
  current_task = new;
  esp0 = kernel_esp_of new;
  cr3 = (k.tasks new).dir;
}

unfoldable pub sched_next_rr : Kernel → Option Kernel
unfolding inner_task_switch
sched_next_rr k = do
  e ← list_empty readyqueue k.links
  (next_task, k1) ←
      if e
      then some (k.idle_task, k)
      else (list_first readyqueue k.links >>= λ next.
          let next_task = list_head_to_task_struct next in
          update_process_state_rr next_task nowhere k >>= λ k1. some (next_task, k1))
  some (inner_task_switch next_task (record k1 { current_quantum = (k1.tasks next_task).quantum }))

-- `while (!list_empty(&tick_blockedqueue))` of `scheduler`, with fuel
unfoldable pub wake_ticks : ℕ → Kernel → Option Kernel
wake_ticks zero k = none
wake_ticks (suc fuel) k = list_empty tick_blockedqueue k.links >>= λ e. elim e [
  | true ↦ some k
  | false ↦
      (list_first tick_blockedqueue k.links >>= λ first.
      update_process_state_rr (list_head_to_task_struct first) readyqueue k >>= λ k1.
      wake_ticks fuel k1)
]

-- Every task of the table may wait for the tick, so that many rounds and one more are enough.
unfoldable pub scheduler : Kernel → Option Kernel
unfolding update_sched_data_rr
scheduler k = do
  k1 ← wake_ticks (nr_tasks + 1) (update_sched_data_rr k)
  (needed, k2) ← needs_sched_rr k1
  if needed
      then ((if is_blocked (k2.tasks k2.current_task).status
            then some k2
            else update_process_state_rr k2.current_task readyqueue k2)
          >>= λ k3. sched_next_rr k3)
      else some k2
