-- ===== src/Mm.antt =====
-- mm.c: the byte map of physical frames and the page tables. Addresses are 32-bit words, frame
-- and page numbers are below 2 ^ 20; `int` results keep their sign.
pub mod Frames
use soa_fib.Base.{
  ℕ, zero, suc, ◌+◌, ◌-◌, ◌*◌, ◌%◌, ◌^◌, Bool, true, false, ◌==◌, ltb, leb, ◌&&◌, if◌then◌else◌,
  update,
}
use soa_fib.Base.Int.{ℤ, pos, neg, negsuc}
use soa_fib.Kernel.{Kernel, Task, PageTableEntry, put, nr_tasks}

-- mm_address.h
abbrev pub total_pages : ℕ
total_pages = 1024

abbrev pub num_pag_kernel : ℕ
num_pag_kernel = 256

abbrev pub num_pag_code : ℕ
num_pag_code = 30

abbrev pub num_pag_data : ℕ
num_pag_data = 24

abbrev pub pag_log_init_data : ℕ
pag_log_init_data = 256

abbrev pub pag_log_init_code : ℕ
pag_log_init_code = pag_log_init_data + num_pag_data

abbrev pub thread_stack_region_pages : ℕ
thread_stack_region_pages = 8

abbrev pub thread_stack_initial_pages : ℕ
thread_stack_initial_pages = 1

abbrev pub thread_stack_base_page : ℕ
thread_stack_base_page = pag_log_init_code + num_pag_code

abbrev pub temp_stack_mapping_page : ℕ
temp_stack_mapping_page = total_pages - thread_stack_initial_pages - 1

abbrev pub page_size : ℕ
page_size = 4096

abbrev pub free_mark : ℕ
free_mark = 0

abbrev pub used_mark : ℕ
used_mark = 1

-- `int` as the `unsigned` that a call converts it to
abbrev pub to_unsigned : ℤ → ℕ
to_unsigned (pos n) = n % 2 ^ 32
to_unsigned (negsuc n) = (2 ^ 32 - 1 - n % 2 ^ 32) % 2 ^ 32

-- `for (i = from; i < from + n; i++) phys_mem[i] = mark`
unfoldable pub mark_frames : ℕ → ℕ → ℕ → (ℕ → ℕ) → ℕ → ℕ
mark_frames zero from mark mem = mem
mark_frames (suc n) from mark mem = mark_frames n (from + 1) mark (update mem from mark)

unfoldable pub init_frames : (ℕ → ℕ) → ℕ → ℕ
init_frames mem = mark_frames num_pag_kernel 0 used_mark (mark_frames total_pages 0 free_mark mem)

-- The loop of `alloc_frame` from frame i on, in steps of two; fuel counts the frames left.
unfoldable pub alloc_from : ℕ → ℕ → (ℕ → ℕ) → ℤ × (ℕ → ℕ)
alloc_from zero i mem = (neg 1, mem)
alloc_from (suc fuel) i mem =
    let rest = alloc_from fuel (i + 2) mem in
    if ltb i total_pages
    then (if mem i == free_mark then (pos i, update mem i used_mark) else rest)
    else (neg 1, mem)

-- Every second frame behind the kernel's, so 384 rounds and one more to leave the loop.
unfoldable pub alloc_frame : (ℕ → ℕ) → ℤ × (ℕ → ℕ)
unfolding alloc_from
alloc_frame mem = alloc_from 385 num_pag_kernel mem

unfoldable pub free_frame : ℕ → (ℕ → ℕ) → ℕ → ℕ
free_frame frame mem =
    if ltb num_pag_kernel frame && ltb frame total_pages then update mem frame free_mark else mem

abbrev pub no_entry : PageTableEntry
no_entry = record { present = 0; rw_bit = 0; user = 0; pbase_addr = 0 }

-- `pbase_addr` has twenty bits.
abbrev pub user_entry_for : ℕ → PageTableEntry
user_entry_for frame = record { present = 1; rw_bit = 1; user = 1; pbase_addr = frame % 2 ^ 20 }

unfoldable pub set_ss_pag : ℕ → ℕ → (ℕ → PageTableEntry) → ℕ → PageTableEntry
set_ss_pag page frame pt = update pt page (user_entry_for frame)

unfoldable pub del_ss_pag : ℕ → (ℕ → PageTableEntry) → ℕ → PageTableEntry
del_ss_pag page pt = update pt page no_entry

unfoldable pub get_frame : (ℕ → PageTableEntry) → ℕ → ℕ
get_frame pt page = (pt page).pbase_addr

-- `get_PT` of a task: the table that its directory points to, and the kernel with it written
abbrev pub get_pt : ℕ → Kernel → ℕ → PageTableEntry
get_pt t k = k.table (k.tasks t).dir

abbrev pub put_pt : ℕ → (ℕ → PageTableEntry) → Kernel → Kernel
put_pt t pt k = record k { table = update k.table (k.tasks t).dir pt }

-- `allocate_DIR`: the row of `dir_pages` with the task's own index
unfoldable pub allocate_dir : ℕ → Kernel → Kernel
allocate_dir t k = put t (record (k.tasks t) { dir = t - 1 }) k

-- `init_table_pages` for one task: an identity map of the kernel's pages, page 0 left out
unfoldable pub init_table_row : (ℕ → PageTableEntry) → ℕ → PageTableEntry
init_table_row pt i =
    if ltb i total_pages
    then if leb 1 i && ltb i num_pag_kernel
      then record { present = 1; rw_bit = 1; user = 0; pbase_addr = i }
      else no_entry
    else pt i

unfoldable pub init_table_pages : Kernel → Kernel
unfolding init_table_row
init_table_pages k = record k {
  table = λ d. if ltb d nr_tasks then init_table_row (k.table d) else k.table d;
}

-- the two loops of `set_user_pages`
unfoldable pub map_user :
    ℕ → ℕ → ℕ → (ℕ → PageTableEntry) × (ℕ → ℕ) → (ℕ → PageTableEntry) × (ℕ → ℕ)
map_user zero page writable s = s
map_user (suc n) page writable (pt, mem) =
    let (frame, mem') = alloc_frame mem in
    map_user n (page + 1) writable (
      update pt page (record {
        present = 1;
        rw_bit = writable;
        user = 1;
        pbase_addr = to_unsigned frame % 2 ^ 20;
      }),
      mem',
    )

unfoldable pub set_user_pages : ℕ → Kernel → Kernel
unfolding map_user
set_user_pages t k =
    let (pt, mem) =
      map_user num_pag_data pag_log_init_data 1
        (map_user num_pag_code pag_log_init_code 0 (get_pt t k, k.phys_mem)) in
    record (put_pt t pt k) { phys_mem = mem }

-- the loop of `free_user_pages`
unfoldable pub unmap_user : ℕ → ℕ → (ℕ → PageTableEntry) × (ℕ → ℕ) → (ℕ → PageTableEntry) × (ℕ → ℕ)
unmap_user zero page s = s
unmap_user (suc n) page (pt, mem) =
    unmap_user n (page + 1) (update pt page no_entry, free_frame (pt page).pbase_addr mem)

unfoldable pub free_user_pages : ℕ → Kernel → Kernel
unfolding unmap_user
free_user_pages t k =
    let (pt, mem) = unmap_user num_pag_data pag_log_init_data (get_pt t k, k.phys_mem) in
    record (put_pt t pt k) { phys_mem = mem }
