-- ===== src/Sys/Threads.antt =====
-- sys.c: `sys_create_thread`.
use soa_fib.Base.{
  ℕ, ◌+◌, ◌-◌, ◌*◌, ◌/◌, ◌%◌, ◌&&◌, ◌==◌, ltb, Option, none, some, if◌then◌else◌, ◌>>=◌, not,
  update,
}
use soa_fib.Base.Int.{ℤ, pos, negsuc, ◌+ℤ◌, ltb_ℤ}
use soa_fib.ListHead.{Links, list_empty, list_first, list_del, list_add_tail, init_list_head}
use soa_fib.Kernel.{
  Kernel, Task, put, on_links, ready, freequeue, readyqueue, list_of, children_of, child_list_of,
  threads_of, thread_list_of, kernel_stack_size, default_quantum, einprogress, einval, efault,
  enomem,
}
use soa_fib.Mm.{
  thread_stack_region_pages, thread_stack_initial_pages, temp_stack_mapping_page, page_size,
  set_ss_pag, del_ss_pag, get_frame, get_pt, put_pt,
}
use soa_fib.Sched.{list_head_to_task_struct, allocate_tid, free_tid, kernel_esp_of}
use soa_fib.Stack.{
  in_keyboard_context, find_free_stack_region, map_stack_pages, page_address, set_cr3,
}
use soa_fib.Utils.{access_ok}
use soa_fib.Keyboard.{init_keyboard_fields, store_word}

-- the `list_head` fields of one union over another's
abbrev pub copy_fields : ℕ → ℕ → (ℕ → ℕ) → ℕ → ℕ
copy_fields from to f x = if x / 8 == to && ltb (x % 8) 5 then f (8 * from + x % 8) else f x

-- `copy_data` of a whole task union, list fields and kernel stack included
unfoldable pub copy_union : ℕ → ℕ → Kernel → Kernel
copy_union from to k = put to (k.tasks from) (record k {
  links = record {
    next = copy_fields from to k.links.next;
    prev = copy_fields from to k.links.prev;
  };
})

-- the five `INIT_LIST_HEAD`s of a new thread
unfoldable pub init_lists : ℕ → Links → Option Links
init_lists t l = do
  l1 ← init_list_head (list_of t) l
  l2 ← init_list_head (children_of t) l1
  l3 ← init_list_head (child_list_of t) l2
  l4 ← init_list_head (threads_of t) l3
  init_list_head (thread_list_of t) l4

-- the fields of a new thread before its stack is known
abbrev pub thread_fields : ℕ → ℕ → Task → Task → Task
thread_fields master tid m v = init_keyboard_fields (record v {
  dir = m.dir;
  pid = m.pid;
  tid = tid;
  parent = master;
  master_thread = master;
  quantum = default_quantum;
  status = ready;
  pending_unblocks = pos 0;
  user_stack_ptr = 0;
  user_stack_frames = pos 0;
  user_stack_region_start = 0;
  user_stack_region_pages = 0;
  user_initial_esp = 0;
  user_entry = 0;
})

-- the top of the new user stack, written through a page of the caller that is mapped to it
unfoldable pub write_stack : ℕ → ℕ → ℕ → ℕ → ℕ → Kernel → Kernel
write_stack master first_page function parameter t k =
    let frame = get_frame (get_pt master k) first_page in
    let k1 = put_pt t (set_ss_pag temp_stack_mapping_page frame (get_pt t k)) k in
    let temp_stack = page_address temp_stack_mapping_page in
    let stack_words = page_size / 4 in
    let pt = get_pt t k1 in
    let k2 = record k1 {
      memory = store_word pt (temp_stack + 4 * (stack_words - 3)) 0 (
          store_word pt (temp_stack + 4 * (stack_words - 2)) function
            (store_word pt (temp_stack + 4 * (stack_words - 1)) parameter k1.memory));
    } in
    let k3 = put_pt t (del_ss_pag temp_stack_mapping_page (get_pt t k2)) k2 in
    set_cr3 (k3.tasks master).dir (set_cr3 (k3.tasks t).dir k3)

-- the stack fields and the kernel stack that `ret_from_fork` starts the thread from
abbrev pub start_fields : ℕ → ℕ → ℕ → ℕ → ℕ → Task → Task
start_fields t region_start first_page wrapper ret_from_fork v =
    let user_esp = page_address (region_start + thread_stack_region_pages) - 12 in
    record v {
      user_stack_region_start = region_start;
      user_stack_region_pages = thread_stack_region_pages;
      user_stack_frames = pos thread_stack_initial_pages;
      user_stack_ptr = page_address first_page;
      user_initial_esp = user_esp;
      user_entry = wrapper;
      stack =
          update
            (update
              (update
                (update
                  (update (update v.stack (kernel_stack_size - 5) wrapper) (kernel_stack_size - 2)
                    user_esp)
                  (kernel_stack_size - 10) 0)
                (kernel_stack_size - 11) 0)
              (kernel_stack_size - 19) 0)
            (kernel_stack_size - 18) ret_from_fork;
      kernel_esp = kernel_esp_of t - 4 * 19;
    }

-- the two failures behind the TID: it is released and the task goes back to the free queue
unfoldable pub give_up : ℕ → ℕ → ℕ → ℤ → Kernel → Option (ℤ × Kernel)
give_up master t tid code k =
    on_links (list_add_tail (list_of t) freequeue) (free_tid master tid k) >>= λ k1. some (code, k1)

-- from the mapped stack to the end
unfoldable pub start_thread : ℕ → ℕ → ℕ → ℕ → ℕ → ℕ → ℕ → ℕ → Kernel → Option (ℤ × Kernel)
start_thread master t tid region_start function parameter wrapper ret_from_fork k = do
  let first_page = region_start + thread_stack_region_pages - thread_stack_initial_pages
  let k1 = write_stack master first_page function parameter k.current_task k
  let k2 = put t (start_fields t region_start first_page wrapper ret_from_fork (k1.tasks t)) k1
  let m = k2.tasks master
  let k3 = put master (record m { thread_count = m.thread_count +ℤ pos 1 }) k2
  k4 ← on_links (list_add_tail (thread_list_of t) (threads_of master)) k3
  k5 ← on_links (list_add_tail (list_of t) readyqueue) k4
  some (pos (k5.tasks t).tid, k5)

-- from the TID on
unfoldable pub place_thread : ℕ → ℕ → ℕ → ℕ → ℕ → ℕ → ℕ → Kernel → Option (ℤ × Kernel)
place_thread master t tid function parameter wrapper ret_from_fork k = do
  k1 ← on_links (init_lists t) k
  let k2 = put t (thread_fields master tid (k1.tasks master) (k1.tasks t)) k1
  region ← find_free_stack_region master k2
  elim region [
    | negsuc n ↦ give_up master t tid enomem k2
    | pos r ↦
        (let (code, k3) =
            map_stack_pages master (r + thread_stack_region_pages - thread_stack_initial_pages)
              thread_stack_initial_pages k2 in
          if ltb_ℤ code (pos 0)
          then give_up master t tid code k3
          else start_thread master t tid r function parameter wrapper ret_from_fork k3)
  ]

-- what the arguments are checked for, in order; none where all is well
unfoldable pub check_thread_arguments : ℕ → ℕ → ℕ → Option ℤ
check_thread_arguments function parameter wrapper =
    if function == 0
    then some einval
    else if wrapper == 0
    then some einval
    else if not (access_ok function 4)
    then some efault
    else if not (access_ok wrapper 4)
    then some efault
    else if not (parameter == 0) && not (access_ok parameter 4)
    then some efault
    else none

-- `ret_from_fork` is the address of the assembly stub.
unfoldable pub sys_create_thread : ℕ → ℕ → ℕ → ℕ → Kernel → Option (ℤ × Kernel)
unfolding check_thread_arguments
sys_create_thread ret_from_fork function parameter wrapper k =
    if in_keyboard_context k
    then some (einprogress, k)
    else elim (check_thread_arguments function parameter wrapper) [
      | some code ↦ some (code, k)
      | none ↦
          (list_empty freequeue k.links >>= λ e.
          if e
          then some (enomem, k)
          else (list_first freequeue k.links >>= λ free_node.
              on_links (list_del free_node) k >>= λ k1.
              let t = list_head_to_task_struct free_node in
              let k2 = copy_union k.current_task t k1 in
              let master = (k2.tasks k2.current_task).master_thread in
              let (tid, k3) = allocate_tid master k2 in
              elim tid [
                | negsuc n ↦
                    (on_links (list_add_tail (list_of t) freequeue) k3 >>= λ k4. some (enomem, k4))
                | pos n ↦ place_thread master t n function parameter wrapper ret_from_fork k3
              ]))
    ]
