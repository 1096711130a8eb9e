-- ===== src/Stack/Grow.antt =====
-- What a page fault on a user stack does.
use soa_fib.Base.{
  ℕ, ◌≤◌, ◌<◌, ◌≡◌, ◌≢◌, ◌⊎◌, refl, ap, inl, inr, Bool, false, not, ◌||◌, ◌%◌, ◌==◌, ltb, leb,
  arith, Bool-cases, update_self,
}
use soa_fib.Base.Int.{ℤ, pos, neg, ◌+ℤ◌}
use soa_fib.Kernel.{Kernel, Task, efault, enomem}
use soa_fib.Mm.{
  num_pag_kernel, total_pages, free_mark, alloc_frame, set_ss_pag, to_unsigned, user_entry_for,
}
use soa_fib.Mm.Frames.{Found, alloc_frame-Found}
use soa_fib.Stack.{grow_user_stack, page_of, page_address, add32, sub32}

-- the page below the mapped part of the current thread's stack, with room left in its region
abbrev pub CanGrow : ℕ → Kernel → Type 0
CanGrow fault_addr k =
    let thread = k.tasks k.current_task in
    (k.current_task ≢ 0)
    × (thread.user_stack_region_pages ≢ 0)
    × (thread.user_stack_ptr ≢ 0)
    × (thread.user_stack_region_start ≤ page_of fault_addr)
    × (page_of fault_addr < add32 thread.user_stack_region_start thread.user_stack_region_pages)
    × (to_unsigned thread.user_stack_frames < thread.user_stack_region_pages)
    × (page_of fault_addr ≡ sub32 (page_of thread.user_stack_ptr) 1)

-- a stack that has grown by the page of the fault
pub record Grown (fault_addr : ℕ) (k k' : Kernel) : Type 0 where
  pub allowed : CanGrow fault_addr k
  pub frames :
      (k'.tasks k.current_task).user_stack_frames
      ≡ (k.tasks k.current_task).user_stack_frames +ℤ pos 1
  pub ptr : (k'.tasks k.current_task).user_stack_ptr ≡ page_address (page_of fault_addr)
  pub mapped :
      (f : ℕ) × ((alloc_frame k.phys_mem).0 ≡ pos f)
      × ((k'.table (k.tasks k.current_task).dir) (page_of fault_addr) ≡ user_entry_for f)
  pub others :
      (d p : ℕ)
      → (d ≢ (k.tasks k.current_task).dir) ⊎ (p ≢ page_of fault_addr)
      → k'.table d p ≡ k.table d p

abbrev pub Kept : Kernel → Kernel → Type 0
Kept k k' = (k'.tasks ≡ k.tasks) × (k'.table ≡ k.table) × (k'.phys_mem ≡ k.phys_mem)

-- no frame that the allocator looks at is free
abbrev pub Exhausted : Kernel → Type 0
Exhausted k =
    (f : ℕ)
    → num_pag_kernel ≤ f
    → f < total_pages
    → f % 2 ≡ num_pag_kernel % 2
    → k.phys_mem f ≢ free_mark

abbrev pub Outcome : ℕ → Kernel → ℤ × Kernel → Type 0
Outcome fault_addr k (r, k') =
    ((r ≡ pos 0) × Grown fault_addr k k')
    ⊎ (((r ≡ efault) ⊎ (r ≡ enomem)) × (¬ CanGrow fault_addr k) × Kept k k')
    ⊎ ((r ≡ neg 1) × Exhausted k × Kept k k')

-- the four guards, with what they test
abbrev no_stack : Kernel → Bool
no_stack k =
    k.current_task == 0
    || ((k.tasks k.current_task).user_stack_region_pages == 0)
    || ((k.tasks k.current_task).user_stack_ptr == 0)

abbrev outside : ℕ → Kernel → Bool
outside fault_addr k =
    let thread = k.tasks k.current_task in
    ltb (page_of fault_addr) thread.user_stack_region_start
    || leb (add32 thread.user_stack_region_start thread.user_stack_region_pages)
        (page_of fault_addr)

abbrev full : Kernel → Bool
full k =
    leb (k.tasks k.current_task).user_stack_region_pages
      (to_unsigned (k.tasks k.current_task).user_stack_frames)

abbrev not_next : ℕ → Kernel → Bool
not_next fault_addr k =
    not (page_of fault_addr == sub32 (page_of (k.tasks k.current_task).user_stack_ptr) 1)

guarded :
    (fault_addr : ℕ) (k : Kernel)
    → Outcome fault_addr k (grow_user_stack fault_addr k)
      ⊎ ((no_stack k ≡ false)
          × (outside fault_addr k ≡ false)
          × (full k ≡ false)
          × (not_next fault_addr k ≡ false))
unfolding grow_user_stack
guarded fault_addr k = elim (Bool-cases (no_stack k)) [
  | inl a ↦
      inl (rw a (inr (inl (inl refl, λ g. ground (arith, a, g.0, g.1, g.2), (refl, refl, refl)))))
  | inr a ↦ elim (Bool-cases (outside fault_addr k)) [
    | inl b ↦
        inl (rw (a, b) (inr (inl (inl refl, λ g. ground (arith, b, g.3, g.4), (refl, refl, refl)))))
    | inr b ↦ elim (Bool-cases (full k)) [
      | inl c ↦
          inl (rw (a, b, c) (inr (inl (inr refl, λ g. ground (arith, c, g.5), (refl, refl, refl)))))
      | inr c ↦ elim (Bool-cases (not_next fault_addr k)) [
        | inl d ↦ inl (
            rw (a, b, c, d) (inr (inl (inl refl, λ g. ground (arith, d, g.6), (refl, refl, refl)))))
        | inr d ↦ inr (a, b, c, d)
      ]
    ]
  ]
]

can-grow :
    (fault_addr : ℕ) (k : Kernel)
    → no_stack k ≡ false
    → outside fault_addr k ≡ false
    → full k ≡ false
    → not_next fault_addr k ≡ false
    → CanGrow fault_addr k
can-grow fault_addr k a b c d = (
  ground (arith, a),
  ground (arith, a),
  ground (arith, a),
  ground (arith, b),
  ground (arith, b),
  ground (arith, c),
  ground (arith, d),
)

-- A page fault just below the mapped part of the current thread's stack, inside its region and with
-- room left, maps one new frame there and moves the stack's bottom to that page; no other page
-- changes. A fault that is none of these gives -EFAULT or -ENOMEM, and one that finds none of the
-- frames that are handed out free gives -1; these change no task, page or frame.
pub grow_user_stack-Outcome :
    (fault_addr : ℕ) (k : Kernel) → Outcome fault_addr k (grow_user_stack fault_addr k)
unfolding grow_user_stack set_ss_pag
grow_user_stack-Outcome fault_addr k = elim (guarded fault_addr k) [
  | inl o ↦ o
  | inr g ↦ go g.0 g.1 g.2 g.3 (alloc_frame-Found k.phys_mem)
]
  where
    go :
        no_stack k ≡ false
        → outside fault_addr k ≡ false
        → full k ≡ false
        → not_next fault_addr k ≡ false
        → Found num_pag_kernel k.phys_mem (alloc_frame k.phys_mem)
        → Outcome fault_addr k (grow_user_stack fault_addr k)
    go a b c d (inr (r, m, none_free)) =
        rw (a, b, c, d, r) (inr (inr (refl, none_free, (refl, refl, m))))
    go a b c d (inl (f, r, lo, hi, par, fr, m, below)) =
        let t = k.current_task in
        rw (a, b, c, d, r)
          (inl (
            refl,
            record {
              allowed = can-grow fault_addr k a b c d;
              frames = ap (λ (z : Task). z.user_stack_frames) (update_self k.tasks t _);
              ptr = ap (λ (z : Task). z.user_stack_ptr) (update_self k.tasks t _);
              mapped = (f, r, ground arith);
              others = λ e p ne. ground (arith, ne);
            },
          ))
