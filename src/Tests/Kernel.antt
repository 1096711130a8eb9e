-- ===== src/Tests/Kernel.antt =====
-- The kernel's theorems at the sample states.
use soa_fib.Base.{
  ◌≤◌, ℕ, ◌+◌, ◌/◌, ◌<◌, ◌≡◌, ◌↔◌, refl, inl, inr, false, none, some, [], ◌∷◌, arith, update, ◌==◌,
  ltb, leb, ◌&&◌, if◌then◌else◌,
}
use soa_fib.Base.Int.{pos}
use soa_fib.ListHead.{Links, list_add_tail, list_del}
use soa_fib.ListHead.Queues.{Queues, push_back, remove}
use soa_fib.ListHead.Rep.{Rep, list_add_tail-push_back, list_del-remove}
use soa_fib.ListHead.Walk.{find}
use soa_fib.Kernel.{Kernel, ready, blocked, readyqueue, blockedqueue, tick_blockedqueue, esrch}
use soa_fib.Mm.{num_pag_kernel, used_mark, alloc_frame, free_frame, thread_stack_base_page}
use soa_fib.Mm.Frames.{alloc_frame-Found, Found, free_frame-alloc_frame}
use soa_fib.Sched.{
  scheduler, sched_next_rr, update_process_state_rr, free_slot, allocate_tid, free_tid, set_status,
}
use soa_fib.Sched.Sound.{IsSound, moved, with_links, update_process_state_rr-moved}
use soa_fib.Sched.Next.{Switched, sched_next_rr-Switched}
use soa_fib.Sched.Turn.{Rounded, round, dispatch, view}
use soa_fib.Sched.Round.{quanta_of, scheduler-round}
use soa_fib.Sched.Init.{init_queues, boot_queues, nodes_from, init_queues-boot_queues}
use soa_fib.Kernel.{freequeue, nr_tasks, task_struct_words}
use soa_fib.Sched.Tids.{Allocated, allocate_tid-Allocated, free_tid-allocate_tid, slots_of}
use soa_fib.Stack.{grow_user_stack, find_free_stack_region, stack_region_overlaps}
use soa_fib.Stack.Grow.{Outcome, grow_user_stack-Outcome}
use soa_fib.Stack.Region.{
  Apart, RegionFound, stack_region_overlaps-Apart, find_free_stack_region-RegionFound,
}
use soa_fib.Utils.{access_ok, utoa, copy_data}
use soa_fib.Utils.Access.{access_ok-range}
use soa_fib.Utils.Digits.{IsDigit, value, utoa-value}
use soa_fib.Utils.Copy.{copy_data_lem}
use soa_fib.Keyboard.{kbd_irq_handler, kbd_resume_handler, stack_ebx, kbd_ctx_size}
use soa_fib.Keyboard.Context.{task_of, ran, kbd_resume_handler-kbd_irq_handler}
use soa_fib.Sys.{sys_block, sys_waitfortick, sys_unblock, unblock_child}
use soa_fib.Sys.Blocking.{Left, parked, sys_block-dispatch, sys_waitfortick-Switched}
use soa_fib.Sys.Unblock.{has_pid, sys_unblock-find, unblock_child-readied, sys_block-unblock_child}
use soa_fib.Sys.Exit.{each_of, adopt_child}
use soa_fib.Sys.Exit.Adopt.{Adopted, each_of-adopt_child}
use soa_fib.Tests.Samples.{
  orphan_kernel, orphan_queues, orphan-Rep, sample_links, sample_queues, sample_kernel, sample-Rep,
  sample-IsSound, sample-Runs, quiet, family_queues, family_kernel, family-Rep, quiet_family,
  plain_task,
}

scheduler-round_example :
    (k' : Kernel) × (s' : Queues) × (scheduler sample_kernel ≡ some k')
    × Rounded sample_kernel k' sample_queues s'
        (round (quanta_of sample_kernel) 1 false (view sample_kernel sample_queues))
scheduler-round_example =
    scheduler-round sample_kernel sample_queues sample-IsSound (inl sample-Runs)

update_process_state_rr-moved_example :
    (l : Links) × (update_process_state_rr 3 blockedqueue sample_kernel
      ≡ some (set_status 3 blocked (with_links l sample_kernel)))
    × Rep l (moved 24 blockedqueue sample_queues)
update_process_state_rr-moved_example =
    update_process_state_rr-moved sample_kernel sample_queues sample-IsSound 3
      (ground arith, ground arith) blockedqueue (inr (ground arith, ground arith))
      (inr (inr (inl refl)))

sched_next_rr-Switched_example :
    (k' : Kernel) × (s' : Queues) × (sched_next_rr sample_kernel ≡ some k')
    × Switched sample_kernel k' sample_queues s'
sched_next_rr-Switched_example = sched_next_rr-Switched sample_kernel sample_queues sample-IsSound

list_add_tail-push_back_example :
    (l' : Links) × (list_add_tail 40 2 sample_links ≡ some l')
    × Rep l' (push_back 40 2 sample_queues)
list_add_tail-push_back_example =
    list_add_tail-push_back sample_links sample_queues sample-Rep 2 (ground arith, refl) 40
      (ground arith, refl)

list_del-remove_example :
    (l' : Links) × (list_del 8 sample_links ≡ some l') × Rep l' (remove 8 sample_queues)
list_del-remove_example =
    list_del-remove sample_links sample_queues sample-Rep 2 8 (ground arith, refl)
      (ground arith, refl)

sys_block-dispatch_example :
    (k' : Kernel) × (s' : Queues) × (sys_block sample_kernel ≡ some (pos 0, k'))
    × Left sample_kernel k' sample_queues s' blockedqueue
        (dispatch (quanta_of sample_kernel) 1 (8 ∷ 24 ∷ 32 ∷ []))
sys_block-dispatch_example =
    sys_block-dispatch sample_kernel sample_queues sample-IsSound sample-Runs (ground arith) quiet
      refl

sys_waitfortick-Switched_example :
    (k' : Kernel) × (s' : Queues) × (sys_waitfortick sample_kernel ≡ some (pos 0, k'))
    × Switched sample_kernel k' (parked tick_blockedqueue sample_kernel sample_queues) s'
sys_waitfortick-Switched_example =
    sys_waitfortick-Switched sample_kernel sample_queues sample-IsSound sample-Runs (ground arith)
      quiet

sys_unblock-find_example :
    sys_unblock (pos 7) family_kernel ≡ elim (find (has_pid family_kernel (pos 7)) (34 ∷ [])) [
      | none ↦ some (esrch, family_kernel)
      | some p ↦ unblock_child (p / 8) family_kernel
    ]
sys_unblock-find_example =
    sys_unblock-find family_kernel family_queues (pos 7) family-Rep (ground arith, refl)
      quiet_family (ground arith)

unblock_child-readied_example :
    (k' : Kernel) × (s' : Queues) × (unblock_child 4 sample_kernel ≡ some (pos 0, k'))
    × IsSound k' s'
    × (s'.members readyqueue ≡ 8 ∷ 24 ∷ 32 ∷ [])
    × (s'.owner 32 ≡ readyqueue)
    × ((k'.tasks 4).status ≡ ready)
unblock_child-readied_example =
    unblock_child-readied sample_kernel sample_queues 4 sample-IsSound (ground arith, ground arith)
      refl (ground arith) (ground arith)

sys_block-unblock_child_example :
    (k1 : Kernel) × (k2 : Kernel) × (unblock_child 3 sample_kernel ≡ some (pos 0, k1))
    × ((k1.tasks 3).pending_unblocks ≡ pos 1)
    × (sys_block (record k1 { current_task = 3 }) ≡ some (pos 0, k2))
    × ((k2.tasks 3).pending_unblocks ≡ pos 0)
    × (k2.links ≡ sample_links)
    × (k2.current_task ≡ 3)
sys_block-unblock_child_example = sys_block-unblock_child sample_kernel 3 0 refl refl refl

alloc_frame-Found_example : Found num_pag_kernel (λ f. 0) (alloc_frame (λ f. 0))
alloc_frame-Found_example = alloc_frame-Found (λ f. 0)

free_frame-alloc_frame_example :
    free_frame 256 (alloc_frame (λ f. 0)).1
    ≡ (if 256 == num_pag_kernel then update (λ f. 0) 256 used_mark else λ f. 0)
unfolding alloc_frame
free_frame-alloc_frame_example = free_frame-alloc_frame (λ f. 0) 256 refl

allocate_tid-Allocated_example : Allocated 2 sample_kernel (allocate_tid 2 sample_kernel)
allocate_tid-Allocated_example = allocate_tid-Allocated 2 sample_kernel

free_tid-allocate_tid_example :
    slots_of 2 (free_tid 2 71 (allocate_tid 2 sample_kernel).1) ≡ slots_of 2 sample_kernel
unfolding allocate_tid free_slot
free_tid-allocate_tid_example = free_tid-allocate_tid 2 71 sample_kernel refl

find_free_stack_region-RegionFound_example :
    RegionFound family_kernel family_queues family-Rep 2
      (ground arith, refl)
      (ground arith)
      (ground arith)
      thread_stack_base_page
      (find_free_stack_region 2 family_kernel)
find_free_stack_region-RegionFound_example =
    find_free_stack_region-RegionFound family_kernel family_queues family-Rep 2 (ground arith, refl)
      (ground arith) (ground arith)

stack_region_overlaps-Apart_example :
    (stack_region_overlaps plain_task 310 8 ≡ false) ↔ Apart plain_task 310 8
stack_region_overlaps-Apart_example =
    stack_region_overlaps-Apart plain_task 310 8 (omega arith) (omega arith) (omega arith)

access_ok-range_example :
    access_ok 1048576 256 ≡ (leb 1048576 1048576 && ltb (1048576 + 256) 4194304)
access_ok-range_example = access_ok-range 1048576 256 (omega arith) (omega arith)

utoa-value_example :
    (n : ℕ) × (utoa 2026 (λ j. 0) n ≡ 0)
    × (value n (utoa 2026 (λ j. 0)) ≡ 2026)
    × ((j : ℕ) → j < n → IsDigit (utoa 2026 (λ j. 0) j))
utoa-value_example = utoa-value 2026 (λ j. 0) (omega arith)

copy_data_lem_example : copy_data 7 (λ j. j + 1) (λ j. 0) 6 ≡ (if ltb 6 7 then 7 else 0)
copy_data_lem_example = copy_data_lem 7 (λ j. j + 1) (λ j. 0) 6

abbrev listening_kernel : Kernel
listening_kernel = record sample_kernel {
  tasks = λ t. record plain_task {
    kbd_handler = 1200000;
    kbd_wrapper = 1300000;
    kbd_aux_stack = 4186112;
  };
}

kbd_resume_handler-kbd_irq_handler_example :
    ((task_of
        (kbd_resume_handler (ran (λ i. 5) (kbd_irq_handler 30 listening_kernel)))).in_kbd_context
      ≡ 0)
    × ((j : ℕ)
        → task_struct_words ≤ j
        → (task_of (kbd_resume_handler (ran (λ i. 5) (kbd_irq_handler 30 listening_kernel)))).stack
            j
          ≡ (if leb stack_ebx j && ltb j (stack_ebx + kbd_ctx_size) then j else 5))
kbd_resume_handler-kbd_irq_handler_example =
    kbd_resume_handler-kbd_irq_handler listening_kernel 30 (λ i. 5)
      (ground arith, ground arith, refl)

abbrev growing_kernel : Kernel
growing_kernel = record sample_kernel {
  tasks = λ t. record plain_task {
    user_stack_ptr = 1298432;
    user_stack_frames = pos 1;
    user_stack_region_start = 310;
    user_stack_region_pages = 8;
  };
}

grow_user_stack-Outcome_example :
    Outcome 1294341 growing_kernel (grow_user_stack 1294341 growing_kernel)
grow_user_stack-Outcome_example = grow_user_stack-Outcome 1294341 growing_kernel

init_queues-boot_queues_example :
    (l' : Links) × (init_queues sample_links ≡ some l')
    × Rep l' boot_queues
    × (boot_queues.members freequeue ≡ nodes_from nr_tasks 0)
    × (boot_queues.members readyqueue ≡ [])
    × (boot_queues.members blockedqueue ≡ [])
    × (boot_queues.members tick_blockedqueue ≡ [])
init_queues-boot_queues_example = init_queues-boot_queues sample_links

each_of-adopt_child_example :
    (k' : Kernel) × (s' : Queues) × (each_of 17 adopt_child orphan_kernel ≡ some k')
    × Adopted orphan_kernel k' orphan_queues s' 17 (34 ∷ [])
each_of-adopt_child_example =
    each_of-adopt_child orphan_kernel orphan_queues 2 orphan-Rep (ground arith, refl)
      (ground arith, refl) (ground arith) (λ x i. ground (arith, i)) (ground arith)
