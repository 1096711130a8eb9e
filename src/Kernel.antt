-- ===== src/Kernel.antt =====
-- The kernel's state: sched.h's `task_struct` and `task_union`, mm.h's page table entries, and the
-- globals of sched.c, mm.c and interrupt.c.
-- A task pointer is 0 for NULL and i + 1 for `&tasks[i].task`. The five `struct list_head` fields
-- of task t stand at the addresses 8 t .. 8 t + 4, and the four queue heads at 1 .. 4.
use soa_fib.Base.{ℕ, ◌+◌, ◌*◌, ◌/◌, Bool, true, false, Option, some, ◌>>=◌, update}
use soa_fib.Base.Int.{ℤ, pos, neg}
use soa_fib.ListHead.{Links}

pub data Status : Type 0 where
  run ready blocked : Status

abbrev pub is_run : Status → Bool
is_run run = true
is_run ready = false
is_run blocked = false

abbrev pub is_blocked : Status → Bool
is_blocked run = false
is_blocked ready = false
is_blocked blocked = true

-- The `list_head` fields are in `Links`. `dir` is the row of `dir_pages` that
-- `dir_pages_baseAddr` points to. `stack` is the union's kernel stack.
-- The union lays the first `task_struct_words` words of the stack over the other fields: these are
-- in the fields and nowhere else, and no operation reads or writes them as words of the stack.
pub record Task : Type 0 where
  pub pid : ℕ
  pub dir : ℕ
  pub kernel_esp : ℕ
  pub quantum : ℤ
  pub status : Status
  pub parent : ℕ
  pub pending_unblocks : ℤ
  pub tid : ℕ
  pub thread_count : ℤ
  pub master_thread : ℕ
  pub tid_slots : ℕ → ℕ
  pub user_stack_ptr : ℕ
  pub user_stack_frames : ℤ
  pub user_stack_region_start : ℕ
  pub user_stack_region_pages : ℕ
  pub user_initial_esp : ℕ
  pub user_entry : ℕ
  pub kbd_handler : ℕ
  pub kbd_wrapper : ℕ
  pub kbd_aux_stack : ℕ
  pub in_kbd_context : ℕ
  pub kbd_saved_ctx : ℕ → ℕ
  pub stack : ℕ → ℕ

-- `page_table_entry`: the bits that the kernel sets; `entry = 0` clears them all.
pub record PageTableEntry : Type 0 where
  pub present : ℕ
  pub rw_bit : ℕ
  pub user : ℕ
  pub pbase_addr : ℕ

-- `table d` is the page table that directory row d points to, `pagusr_table[d]`.
-- `memory` is physical memory: words by byte address.
pub record Kernel : Type 0 where
  pub tasks : ℕ → Task
  pub links : Links
  pub current_task : ℕ
  pub idle_task : ℕ
  pub init_task : ℕ
  pub next_pid : ℕ
  pub current_quantum : ℤ
  pub phys_mem : ℕ → ℕ
  pub table : ℕ → ℕ → PageTableEntry
  pub memory : ℕ → ℕ
  pub esp0 : ℕ
  pub cr3 : ℕ
  pub zeos_ticks : ℕ

abbrev pub nr_tasks : ℕ
nr_tasks = 25

-- `sizeof(struct task_struct)` in words: a word for each field, two for each of the five
-- `list_head`, ten for `tid_slots` and sixteen for `kbd_saved_ctx`
abbrev pub task_struct_words : ℕ
task_struct_words = 56

abbrev pub kernel_stack_size : ℕ
kernel_stack_size = 1024

abbrev pub default_quantum : ℤ
default_quantum = pos 1

abbrev pub max_tids_per_process : ℕ
max_tids_per_process = 10

-- the queue heads
abbrev pub freequeue : ℕ
freequeue = 1

abbrev pub readyqueue : ℕ
readyqueue = 2

abbrev pub blockedqueue : ℕ
blockedqueue = 3

abbrev pub tick_blockedqueue : ℕ
tick_blockedqueue = 4

-- the addresses of a task's `list`, `children`, `child_list`, `threads` and `thread_list`
abbrev pub list_of : ℕ → ℕ
list_of t = 8 * t

abbrev pub children_of : ℕ → ℕ
children_of t = 8 * t + 1

abbrev pub child_list_of : ℕ → ℕ
child_list_of t = 8 * t + 2

abbrev pub threads_of : ℕ → ℕ
threads_of t = 8 * t + 3

abbrev pub thread_list_of : ℕ → ℕ
thread_list_of t = 8 * t + 4

-- the macro `list_entry`, from the address of a field to its task
abbrev pub list_entry : ℕ → ℕ
list_entry l = l / 8

abbrev pub einprogress : ℤ
einprogress = neg 115

abbrev pub einval : ℤ
einval = neg 22

abbrev pub efault : ℤ
efault = neg 14

abbrev pub enomem : ℤ
enomem = neg 12

abbrev pub esrch : ℤ
esrch = neg 3

abbrev pub eagain : ℤ
eagain = neg 11

abbrev pub ebadf : ℤ
ebadf = neg 9

abbrev pub eacces : ℤ
eacces = neg 13

-- the negated error codes above are what a system call returns

-- One task changed by a function.
abbrev pub put : ℕ → Task → Kernel → Kernel
put t v k = record k { tasks = update k.tasks t v }

-- An operation of list.c on the kernel's lists.
abbrev pub on_links : (Links → Option Links) → Kernel → Option Kernel
on_links f k = f k.links >>= λ l. some (record k { links = l })
