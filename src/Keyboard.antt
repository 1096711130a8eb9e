-- ===== src/Keyboard.antt =====
-- keyboard.c: delivery of keyboard interrupts to a user handler. The interrupt saves the task's
-- hardware and software context, points the return at the handler's wrapper on an auxiliary stack,
-- and `int 0x2b` puts the context back.
pub mod Context
use soa_fib.Base.{
  ℕ, ◌+◌, ◌-◌, ◌*◌, ◌/◌, ◌%◌, ◌^◌, Bool, true, false, not, ◌&&◌, ◌||◌, ◌==◌, ltb, leb, Option, none,
  some, if◌then◌else◌, ◌>>=◌, update,
}
use soa_fib.Base.Int.{ℤ, pos, negsuc}
use soa_fib.Kernel.{Kernel, Task, PageTableEntry, put, kernel_stack_size, enomem}
use soa_fib.Mm.{
  total_pages, alloc_frame, free_frame, set_ss_pag, del_ss_pag, get_frame, get_pt, put_pt,
}
use soa_fib.Stack.{set_cr3}

abbrev pub kbd_ctx_size : ℕ
kbd_ctx_size = 16

abbrev pub kbd_aux_stack_page : ℕ
kbd_aux_stack_page = total_pages - 3

-- STACK_EBX, the lowest of the sixteen saved registers, up to STACK_USER_SS
abbrev pub stack_ebx : ℕ
stack_ebx = kernel_stack_size - 16

abbrev pub stack_user_eip : ℕ
stack_user_eip = kernel_stack_size - 5

abbrev pub stack_user_esp : ℕ
stack_user_esp = kernel_stack_size - 2

-- a store to a virtual address, through a page table
unfoldable pub store_word : (ℕ → PageTableEntry) → ℕ → ℕ → (ℕ → ℕ) → ℕ → ℕ
store_word pt addr v mem = update mem ((pt (addr / 2 ^ 12)).pbase_addr * 2 ^ 12 + addr % 2 ^ 12) v

-- the loop over `kbd_saved_ctx`
abbrev pub cleared_ctx : (ℕ → ℕ) → ℕ → ℕ
cleared_ctx ctx i = if ltb i kbd_ctx_size then 0 else ctx i

unfoldable pub init_keyboard_fields : Task → Task
init_keyboard_fields task = record task {
  kbd_handler = 0;
  kbd_wrapper = 0;
  kbd_aux_stack = 0;
  in_kbd_context = 0;
  kbd_saved_ctx = cleared_ctx task.kbd_saved_ctx;
}

unfoldable pub setup_kbd_aux_stack : ℕ → Kernel → ℤ × Kernel
setup_kbd_aux_stack t k =
    if not ((k.tasks t).kbd_aux_stack == 0)
    then (pos 0, k)
    else (let (frame, mem) = alloc_frame k.phys_mem in
        elim frame [
          | negsuc n ↦ (enomem, record k { phys_mem = mem })
          | pos f ↦ (
            pos 0,
            put t (record (k.tasks t) { kbd_aux_stack = (kbd_aux_stack_page + 1) * 2 ^ 12 })
                (set_cr3 (k.tasks t).dir
                  (record (put_pt t (set_ss_pag kbd_aux_stack_page f (get_pt t k)) k) {
                    phys_mem = mem;
                  })),
          )
        ])

-- `get_frame` gives twenty bits, so the `int` that it is stored in is never negative.
unfoldable pub free_kbd_aux_stack : ℕ → Kernel → Kernel
free_kbd_aux_stack t k =
    if (k.tasks t).kbd_aux_stack == 0
    then k
    else put t (record (k.tasks t) { kbd_aux_stack = 0 })
        (set_cr3 (k.tasks t).dir (record (put_pt t (del_ss_pag kbd_aux_stack_page (get_pt t k)) k) {
          phys_mem = free_frame (get_frame (get_pt t k) kbd_aux_stack_page) k.phys_mem;
        }))

unfoldable pub cleanup_kbd_handler : ℕ → Kernel → Kernel
cleanup_kbd_handler t k = free_kbd_aux_stack t (
    put t
      (record (k.tasks t) {
        kbd_handler = 0;
        in_kbd_context = 0;
        kbd_saved_ctx = cleared_ctx (k.tasks t).kbd_saved_ctx;
      })
      k)

-- the sixteen assignments to `kbd_saved_ctx`, in the order of the kernel stack
unfoldable pub save_context : Task → ℕ → ℕ
save_context task i =
    if ltb i kbd_ctx_size then task.stack (stack_ebx + i) else task.kbd_saved_ctx i

-- the sixteen assignments back
unfoldable pub restore_context : Task → ℕ → ℕ
restore_context task j =
    if leb stack_ebx j && ltb j (stack_ebx + kbd_ctx_size)
    then task.kbd_saved_ctx (j - stack_ebx)
    else task.stack j

-- the four words for the wrapper: return address, handler, key, pressed
unfoldable pub push_arguments : (ℕ → PageTableEntry) → ℕ → ℕ → ℕ → ℕ → (ℕ → ℕ) → ℕ → ℕ
push_arguments pt stack_ptr handler key pressed mem = store_word pt (stack_ptr + 12) pressed (
    store_word pt (stack_ptr + 8) key
      (store_word pt (stack_ptr + 4) handler (store_word pt stack_ptr 0 mem)))

abbrev pub aux_stack_ptr : Task → ℕ
aux_stack_ptr task = (task.kbd_aux_stack + 2 ^ 32 - 16) % 2 ^ 32

-- the task as `kbd_irq_handler` leaves it
abbrev pub enter_handler : Task → Task
enter_handler task = record task {
  in_kbd_context = 1;
  kbd_saved_ctx = save_context task;
  stack =
      update (update task.stack stack_user_eip task.kbd_wrapper) stack_user_esp
        (aux_stack_ptr task);
}

-- `kbd_irq_handler` on the scancode that it reads from the data port
unfoldable pub kbd_irq_handler : ℕ → Kernel → Kernel
kbd_irq_handler scancode k =
    let t = k.current_task in
    let task = k.tasks t in
    let pressed = if ltb (scancode % 256) 128 then 1 else 0 in
    let key = scancode % 128 in
    if t == 0 || (task.kbd_handler == 0) || not (task.in_kbd_context == 0)
    then k
    else put t (enter_handler task) (record k {
      memory =
          push_arguments (get_pt t k) (aux_stack_ptr task) task.kbd_handler key pressed k.memory;
    })

unfoldable pub kbd_resume_handler : Kernel → Kernel
kbd_resume_handler k =
    let t = k.current_task in
    let task = k.tasks t in
    if t == 0 || (task.in_kbd_context == 0)
    then k
    else put t (record task { stack = restore_context task; in_kbd_context = 0 }) k
