-- ===== src/Tests/Samples.antt =====
-- A kernel with four tasks: 1 is idle and 3 ready, both in the ready queue, 2 runs and 4 waits for
-- the tick.
use soa_fib.Base.{
  ℕ, ◌≡◌, ◌≢◌, refl, sym, subst, ◌∙◌, inl, some, [], arith, update, ◌==◌, if◌then◌else◌, false,
}
use soa_fib.Base.Int.{pos}
use soa_fib.ListHead.{Links, list_add_tail, init_list_head}
use soa_fib.ListHead.Queues.{Queues, IsHead, IsLoose, empty_list, push_back}
use soa_fib.ListHead.Chain.{linked, list_add_tail-linked}
use soa_fib.ListHead.Rep.{Rep, Rep-none, init_list_head-empty_list, list_add_tail-push_back}
use soa_fib.Kernel.{run, ready, blocked, Task, Kernel, PageTableEntry}
use soa_fib.Sched.Sound.{IsSound}
use soa_fib.Sched.Next.{Runs}
use soa_fib.Stack.{in_keyboard_context}

abbrev empty_ring : ℕ → Links → Links
empty_ring h l = record { next = update l.next h h; prev = update l.prev h h }

abbrev append : ℕ → ℕ → Links → Links
append x h l = linked l x (l.prev h) h

empty_ring-Rep :
    (l : Links) (s : Queues) (h : ℕ) → Rep l s → IsLoose s h → Rep (empty_ring h l) (empty_list h s)
unfolding init_list_head
empty_ring-Rep l s h r hh = go (init_list_head-empty_list l s h r hh)
  where
    go :
        ((l' : Links) × (init_list_head h l ≡ some l') × Rep l' (empty_list h s))
        → Rep (empty_ring h l) (empty_list h s)
    go (l', e, q) = subst (λ z. Rep z (empty_list h s)) (ground (arith, e, hh.0)) q

append-Rep :
    (l : Links) (s : Queues) (h x : ℕ)
    → Rep l s
    → IsHead s h
    → IsLoose s x
    → l.prev h ≢ 0
    → Rep (append x h l) (push_back x h s)
append-Rep l s h x r hh hx p = go (list_add_tail-push_back l s r h hh x hx)
  where
    go :
        ((l' : Links) × (list_add_tail x h l ≡ some l') × Rep l' (push_back x h s))
        → Rep (append x h l) (push_back x h s)
    go (l', e, q) =
        subst (λ z. Rep z (push_back x h s))
          (ground (arith, sym e ∙ list_add_tail-linked l x h hx.0 hh.0 p)) q

abbrev no_links : Links
no_links = record { next = λ x. 0; prev = λ x. 0 }

abbrev no_queues : Queues
no_queues = record { owner = λ x. 0; members = λ h. [] }

abbrev pub four_heads : Links
four_heads = empty_ring 4 (empty_ring 3 (empty_ring 2 (empty_ring 1 no_links)))

abbrev pub four_queues : Queues
four_queues = empty_list 4 (empty_list 3 (empty_list 2 (empty_list 1 no_queues)))

abbrev pub sample_links : Links
sample_links = append 32 4 (append 24 2 (append 8 2 four_heads))

abbrev pub sample_queues : Queues
sample_queues = push_back 32 4 (push_back 24 2 (push_back 8 2 four_queues))

pub four-Rep : Rep four_heads four_queues
four-Rep =
    empty_ring-Rep _ _ 4
      (empty_ring-Rep _ _ 3
        (empty_ring-Rep _ _ 2 (empty_ring-Rep _ _ 1 (Rep-none no_links) (ground arith, refl))
          (ground arith, refl))
        (ground arith, refl))
      (ground arith, refl)

pub sample-Rep : Rep sample_links sample_queues
sample-Rep =
    append-Rep _ _ 4 32
      (append-Rep _ _ 2 24
        (append-Rep _ _ 2 8 four-Rep (ground arith, refl) (ground arith, refl) (ground arith))
        (ground arith, refl) (ground arith, refl) (ground arith))
      (ground arith, refl) (ground arith, refl) (ground arith)

abbrev pub plain_task : Task
plain_task = record {
  pid = 7;
  dir = 0;
  kernel_esp = 0;
  quantum = pos 1;
  status = ready;
  parent = 0;
  pending_unblocks = pos 0;
  tid = 70;
  thread_count = pos 1;
  master_thread = 2;
  tid_slots = λ i. if i == 0 then 1 else 0;
  user_stack_ptr = 0;
  user_stack_frames = pos 0;
  user_stack_region_start = 0;
  user_stack_region_pages = 0;
  user_initial_esp = 0;
  user_entry = 0;
  kbd_handler = 0;
  kbd_wrapper = 0;
  kbd_aux_stack = 0;
  in_kbd_context = 0;
  kbd_saved_ctx = λ i. 0;
  stack = λ i. i;
}

abbrev sample_task : ℕ → Task
sample_task t = record plain_task {
  status = if t == 2 then run else if t == 4 then blocked else ready;
}

abbrev pub no_page : PageTableEntry
no_page = record { present = 0; rw_bit = 0; user = 0; pbase_addr = 0 }

abbrev pub sample_kernel : Kernel
sample_kernel = record {
  tasks = sample_task;
  links = sample_links;
  current_task = 2;
  idle_task = 1;
  init_task = 2;
  next_pid = 8;
  current_quantum = pos 1;
  phys_mem = λ f. 0;
  table = λ d p. no_page;
  memory = λ a. 0;
  esp0 = 0;
  cr3 = 0;
  zeos_ticks = 0;
}

pub sample-IsSound : IsSound sample_kernel sample_queues
sample-IsSound = record {
  rep = sample-Rep;
  heads = λ h a b. ground arith;
  status_of = λ t n a b. ground arith;
  nodes = λ x h a b i. ground arith;
  idle_task = (ground arith, ground arith);
  idle_place = inl refl;
}

-- The process of task 2: task 4 is its child, and it has no other thread.
abbrev pub family_links : Links
family_links = append 34 17 (empty_ring 17 (empty_ring 19 sample_links))

abbrev pub family_queues : Queues
family_queues = push_back 34 17 (empty_list 17 (empty_list 19 sample_queues))

abbrev pub family_kernel : Kernel
family_kernel = record sample_kernel { links = family_links }

pub family-Rep : Rep family_links family_queues
family-Rep =
    append-Rep _ _ 17 34
      (empty_ring-Rep _ _ 17 (empty_ring-Rep _ _ 19 sample-Rep (ground arith, refl))
        (ground arith, refl))
      (ground arith, refl) (ground arith, refl) (ground arith)

pub quiet : in_keyboard_context sample_kernel ≡ false
unfolding in_keyboard_context
quiet = refl

pub quiet_family : in_keyboard_context family_kernel ≡ false
unfolding in_keyboard_context
quiet_family = refl

pub sample-Runs : Runs sample_kernel sample_queues
sample-Runs = ((ground arith, ground arith), refl, refl)

-- The same, where the idle task has a list of children too.
abbrev pub orphan_links : Links
orphan_links = append 34 17 (empty_ring 17 (empty_ring 9 sample_links))

abbrev pub orphan_queues : Queues
orphan_queues = push_back 34 17 (empty_list 17 (empty_list 9 sample_queues))

abbrev pub orphan_kernel : Kernel
orphan_kernel = record sample_kernel { links = orphan_links }

pub orphan-Rep : Rep orphan_links orphan_queues
orphan-Rep =
    append-Rep _ _ 17 34
      (empty_ring-Rep _ _ 17 (empty_ring-Rep _ _ 9 sample-Rep (ground arith, refl))
        (ground arith, refl))
      (ground arith, refl) (ground arith, refl) (ground arith)
