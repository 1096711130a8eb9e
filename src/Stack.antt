-- ===== src/Stack.antt =====
-- kernel_helpers.c: descriptor and context checks, and the user stacks of threads. Each thread has
-- a region of eight pages, of which the upper ones are mapped and the rest left to grow into.
pub mod Region
pub mod Grow
use soa_fib.Base.{
  ℕ, zero, suc, ◌+◌, ◌-◌, ◌*◌, ◌/◌, ◌%◌, ◌^◌, Bool, true, false, not, ◌&&◌, ◌||◌, ◌==◌, ltb, leb,
  Option, none, some, if◌then◌else◌, ◌>>=◌, update,
}
use soa_fib.Base.Int.{ℤ, pos, negsuc, neg, ◌+ℤ◌, leb_ℤ, eqb_ℤ, pos_part, neg_part}
use soa_fib.ListHead.{list_first, for_each_find}
use soa_fib.Kernel.{
  Kernel, Task, PageTableEntry, put, nr_tasks, threads_of, list_entry, efault, enomem, eagain,
  ebadf, eacces,
}
use soa_fib.Mm.{
  total_pages, thread_stack_base_page, thread_stack_region_pages, to_unsigned, alloc_frame,
  free_frame, set_ss_pag, del_ss_pag, get_frame, get_pt, put_pt,
}

abbrev pub fd_console : ℤ
fd_console = pos 1

abbrev pub fd_debug : ℤ
fd_debug = pos 2

abbrev pub fd_screen : ℤ
fd_screen = pos 10

abbrev pub o_wronly : ℤ
o_wronly = pos 1

unfoldable pub check_fd : ℤ → ℤ → ℤ
check_fd fd permissions =
    if not (eqb_ℤ fd fd_console) && not (eqb_ℤ fd fd_debug) && not (eqb_ℤ fd fd_screen)
    then ebadf
    else if not (eqb_ℤ permissions o_wronly)
    then eacces
    else pos 0

unfoldable pub in_keyboard_context : Kernel → Bool
in_keyboard_context k =
    not (k.current_task == 0) && not ((k.tasks k.current_task).in_kbd_context == 0)

-- sums of `unsigned int`
abbrev pub add32 : ℕ → ℕ → ℕ
add32 a b = (a + b) % 2 ^ 32

abbrev pub sub32 : ℕ → ℕ → ℕ
sub32 a b = (a + 2 ^ 32 - b) % 2 ^ 32

-- `x >> 12` and `x << 12`
abbrev pub page_of : ℕ → ℕ
page_of addr = addr / 2 ^ 12

abbrev pub page_address : ℕ → ℕ
page_address page = page * 2 ^ 12 % 2 ^ 32

abbrev pub set_cr3 : ℕ → Kernel → Kernel
set_cr3 dir k = record k { cr3 = dir }

unfoldable pub grow_user_stack : ℕ → Kernel → ℤ × Kernel
grow_user_stack fault_addr k =
    let t = k.current_task in
    let thread = k.tasks t in
    let fault_page = page_of fault_addr in
    let region_start = thread.user_stack_region_start in
    let region_end = add32 region_start thread.user_stack_region_pages in
    let first_mapped_page = page_of thread.user_stack_ptr in
    if t == 0 || (thread.user_stack_region_pages == 0) || (thread.user_stack_ptr == 0)
    then (efault, k)
    else if ltb fault_page region_start || leb region_end fault_page
    then (efault, k)
    else if leb thread.user_stack_region_pages (to_unsigned thread.user_stack_frames)
    then (enomem, k)
    else if not (fault_page == sub32 first_mapped_page 1)
    then (efault, k)
    else (let (frame, mem) = alloc_frame k.phys_mem in
        elim frame [
          | negsuc n ↦ (negsuc n, record k { phys_mem = mem })
          | pos f ↦ (
            pos 0,
            set_cr3 thread.dir (
                put t
                  (record thread {
                    user_stack_ptr = page_address fault_page;
                    user_stack_frames = thread.user_stack_frames +ℤ pos 1;
                  })
                  (record (put_pt t (set_ss_pag fault_page f (get_pt t k)) k) { phys_mem = mem })),
          )
        ])

unfoldable pub stack_region_overlaps : Task → ℕ → ℕ → Bool
stack_region_overlaps task start pages =
    if task.user_stack_region_pages == 0
    then false
    else (let end = add32 start pages in
        let existing_start = task.user_stack_region_start in
        let existing_end = add32 existing_start task.user_stack_region_pages in
        not (leb end existing_start || leb existing_end start))

-- rounds for a walk over a list that holds a field of each task at most once
abbrev pub walk_fuel : ℕ
walk_fuel = nr_tasks + 1

unfoldable pub stack_region_in_use : ℕ → ℕ → ℕ → Kernel → Option Bool
stack_region_in_use master start pages k =
    if stack_region_overlaps (k.tasks master) start pages
    then some true
    else (list_first (threads_of master) k.links >>= λ first.
        for_each_find walk_fuel first (threads_of master)
          (λ p. stack_region_overlaps (k.tasks (list_entry p)) start pages) k.links
        >>= λ r. elim r [ none ↦ some false | some p ↦ some true ])

-- the loop of `find_free_stack_region` from a page on; fuel counts the rounds
unfoldable pub find_region : ℕ → ℕ → ℕ → Kernel → Option ℤ
find_region zero page master k = none
find_region (suc fuel) page master k =
    let rest = find_region fuel (page + thread_stack_region_pages) master k in
    if leb (page + thread_stack_region_pages) total_pages
    then (stack_region_in_use master page thread_stack_region_pages k >>= λ used.
        if used then rest else some (pos page))
    else some (neg 1)

-- 89 regions fit behind the user's code, and one more round leaves the loop.
unfoldable pub find_free_stack_region : ℕ → Kernel → Option ℤ
find_free_stack_region master k = find_region 90 thread_stack_base_page master k

-- a page table and the byte map of frames
abbrev pub Space : Type 0
Space = (ℕ → PageTableEntry) × (ℕ → ℕ)

-- `while (i > 0)` of `map_stack_pages`, and the same loop upwards of `release_thread_stack`
unfoldable pub roll_back : ℕ → ℕ → Space → Space
roll_back zero first_page s = s
roll_back (suc i) first_page (pt, mem) =
    roll_back i first_page
      (del_ss_pag (first_page + i) pt, free_frame (get_frame pt (first_page + i)) mem)

unfoldable pub release_pages : ℕ → ℕ → Space → Space
release_pages zero page s = s
release_pages (suc n) page (pt, mem) =
    release_pages n (page + 1) (del_ss_pag page pt, free_frame (get_frame pt page) mem)

-- the loop of `map_stack_pages` with n pages left, i pages mapped
unfoldable pub map_pages : ℕ → ℕ → ℕ → Space → ℤ × Space
unfolding roll_back
map_pages zero i first_page s = (pos 0, s)
map_pages (suc n) i first_page (pt, mem) =
    let (frame, mem') = alloc_frame mem in
    elim frame [
      | negsuc e ↦ (eagain, roll_back i first_page (pt, mem'))
      | pos f ↦ map_pages n (i + 1) first_page (set_ss_pag (first_page + i) f pt, mem')
    ]

unfoldable pub map_stack_pages : ℕ → ℕ → ℕ → Kernel → ℤ × Kernel
unfolding map_pages
map_stack_pages master first_page pages_to_map k =
    let (r, (pt, mem)) = map_pages pages_to_map 0 first_page (get_pt master k, k.phys_mem) in
    (r, record (put_pt master pt k) { phys_mem = mem })

-- A null thread is dereferenced in the source's first branch, which faults.
unfoldable pub release_thread_stack : ℕ → Kernel → Option Kernel
unfolding release_pages
release_thread_stack t k =
    let thread = k.tasks t in
    let cleared = record thread {
      user_stack_region_start = 0;
      user_stack_region_pages = 0;
      user_initial_esp = 0;
      user_entry = 0;
    } in
    if t == 0
    then none
    else if leb_ℤ thread.user_stack_frames (pos 0) || (thread.user_stack_ptr == 0)
    then some (put t cleared k)
    else (let (pt, mem) =
          release_pages (pos_part thread.user_stack_frames) (page_of thread.user_stack_ptr)
            (get_pt t k, k.phys_mem) in
        some (
          put t (record cleared { user_stack_ptr = 0; user_stack_frames = pos 0 })
            (set_cr3 thread.dir (record (put_pt t pt k) { phys_mem = mem }))))
