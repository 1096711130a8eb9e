-- ===== src/Stack/Region.antt =====
-- The regions of user stacks: no two threads of a process share one.
use soa_fib.Base.{
  ℕ, zero, suc, ◌+◌, ◌*◌, ◌≤◌, ◌<◌, ◌^◌, ◌%◌, ◌≡◌, ◌≢◌, refl, sym, ◌⊎◌, ◌↔◌, inl, inr, Bool, true,
  false, ◌==◌, leb, Option, none, some, List, [], ◌∷◌, arith, if◌then◌else◌, Bool-cases, eq_of_test,
  subst, All, length,
}
use soa_fib.Base.Int.{ℤ, pos, neg}
use soa_fib.ListHead.Queues.{Queues, IsHead}
use soa_fib.ListHead.Rep.{Rep, list_first-first_or}
use soa_fib.ListHead.Walk.{find, for_each_find-find}
use soa_fib.Kernel.{Kernel, Task, threads_of, list_entry, nr_tasks}
use soa_fib.Mm.{total_pages, thread_stack_base_page, thread_stack_region_pages}
use soa_fib.Stack.{
  walk_fuel, stack_region_overlaps, stack_region_in_use, find_region, find_free_stack_region,
}

-- the pages that a task has reserved do not run past the address space
abbrev pub IsPlaced : Task → Type 0
IsPlaced task = task.user_stack_region_start + task.user_stack_region_pages < 2 ^ 32

-- no page of [start, start + pages) is reserved by the task
abbrev pub Apart : Task → ℕ → ℕ → Type 0
Apart task start pages =
    (p : ℕ)
    → start ≤ p
    → p < start + pages
    → task.user_stack_region_start ≤ p
    → p < task.user_stack_region_start + task.user_stack_region_pages
    → ⊥

-- `stack_region_overlaps` answers no exactly when the two regions share no page. So for regions that
-- do not run past 2 ^ 32 pages, and a region asked for that is not empty.
pub stack_region_overlaps-Apart :
    (task : Task) (start pages : ℕ)
    → IsPlaced task
    → start + pages < 2 ^ 32
    → 0 < pages
    → (stack_region_overlaps task start pages ≡ false) ↔ Apart task start pages
unfolding stack_region_overlaps
stack_region_overlaps-Apart task start pages hp hs h0 = (
  λ e p a b c d. ground arith,
  λ apart. ground (arith, apart start, apart task.user_stack_region_start),
)

-- the tasks whose regions count: the master and the threads in its list
abbrev pub FreeRegion : Kernel → Queues → ℕ → ℕ → Type 0
FreeRegion k s master page =
    Apart (k.tasks master) page thread_stack_region_pages
    × All (λ p. Apart (k.tasks (list_entry p)) page thread_stack_region_pages)
        (s.members (threads_of master))

abbrev pub AllPlaced : Kernel → Queues → ℕ → Type 0
AllPlaced k s master =
    IsPlaced (k.tasks master)
    × All (λ p. IsPlaced (k.tasks (list_entry p))) (s.members (threads_of master))

abbrev overlaps_at : Kernel → ℕ → ℕ → Bool
overlaps_at k page p = stack_region_overlaps (k.tasks (list_entry p)) page thread_stack_region_pages

abbrev is_some : Option ℕ → Bool
is_some none = false
is_some (some x) = true

-- the answer of `stack_region_in_use`, without the list's pointers
abbrev used_at : Kernel → Queues → ℕ → ℕ → Bool
used_at k s master page =
    if stack_region_overlaps (k.tasks master) page thread_stack_region_pages
    then true
    else is_some (find (overlaps_at k page) (s.members (threads_of master)))

module _ (k : Kernel) (s : Queues) (r : Rep k.links s) (master : ℕ)
    (hh : IsHead s (threads_of master)) (short : length (s.members (threads_of master)) ≤ nr_tasks)
    (placed : AllPlaced k s master) where
  stack_region_in_use-used_at :
      (page : ℕ)
      → stack_region_in_use master page thread_stack_region_pages k ≡ some (used_at k s master page)
  unfolding stack_region_in_use
  stack_region_in_use-used_at page =
      elim (Bool-cases (stack_region_overlaps (k.tasks master) page thread_stack_region_pages)) [
        | inl e ↦ rw e refl
        | inr e ↦
            rw
              (
                e,
                list_first-first_or k.links s r (threads_of master) hh,
                for_each_find-find k.links s r (threads_of master) hh walk_fuel (overlaps_at k page)
                    (omega arith),
              )
              (answer (find (overlaps_at k page) (s.members (threads_of master))))
      ]
    where
      answer :
          (o : Option ℕ) → (elim o [ none ↦ some false | some p ↦ some true ]) ≡ some (is_some o)
      answer none = refl
      answer (some p) = refl

  threads-Apart :
      (page : ℕ) (xs : List ℕ)
      → page + thread_stack_region_pages ≤ total_pages
      → All (λ p. IsPlaced (k.tasks (list_entry p))) xs
      → (is_some (find (overlaps_at k page) xs) ≡ false)
        ↔ All (λ p. Apart (k.tasks (list_entry p)) page thread_stack_region_pages) xs
  threads-Apart page [] fits ps = ((λ e. tt), (λ a. refl))
  threads-Apart page (x ∷ xs) fits ps =
      let here =
        stack_region_overlaps-Apart (k.tasks (list_entry x)) page thread_stack_region_pages ps.0
          (omega arith) (omega arith) in
      let rest = threads-Apart page xs fits ps.1 in
      elim (Bool-cases (overlaps_at k page x)) [
        | inl e ↦ (rw e (λ q. absurd (cc)), λ a. absurd (cc (here.1 a.0)))
        | inr e ↦ (rw e (λ q. (here.0 e, rest.0 q)), rw e (λ a. rest.1 a.1))
      ]

  used_at-FreeRegion :
      (page : ℕ)
      → page + thread_stack_region_pages ≤ total_pages
      → (used_at k s master page ≡ false) ↔ FreeRegion k s master page
  used_at-FreeRegion page fits =
      let here =
        stack_region_overlaps-Apart (k.tasks master) page thread_stack_region_pages placed.0
          (omega arith) (omega arith) in
      let rest = threads-Apart page (s.members (threads_of master)) fits placed.1 in
      elim (Bool-cases (stack_region_overlaps (k.tasks master) page thread_stack_region_pages)) [
        | inl e ↦ (rw e (λ q. absurd (cc)), λ a. absurd (cc (here.1 a.0)))
        | inr e ↦ (rw e (λ q. (here.0 e, rest.0 q)), rw e (λ a. rest.1 a.1))
      ]

  -- what the search from a page on finds
  abbrev pub RegionFound : ℕ → Option ℤ → Type 0
  RegionFound from o =
      ((p : ℕ) × (o ≡ some (pos p))
        × (from ≤ p)
        × (p + thread_stack_region_pages ≤ total_pages)
        × (p % thread_stack_region_pages ≡ from % thread_stack_region_pages)
        × FreeRegion k s master p
        × ((q : ℕ)
            → from ≤ q
            → q < p
            → q % thread_stack_region_pages ≡ from % thread_stack_region_pages
            → ¬ FreeRegion k s master q))
      ⊎ ((o ≡ some (neg 1))
          × ((p : ℕ)
              → from ≤ p
              → p + thread_stack_region_pages ≤ total_pages
              → p % thread_stack_region_pages ≡ from % thread_stack_region_pages
              → ¬ FreeRegion k s master p))

  widen :
      (page : ℕ)
      → ¬ FreeRegion k s master page
      → (o : Option ℤ) → RegionFound (page + thread_stack_region_pages) o
      → RegionFound page o
  widen page used o (inl (p, e, lo, fits, aligned, f, first)) = inl (
    p,
    e,
    omega arith,
    fits,
    omega arith,
    f,
    λ q lo' lt same g. elim (Bool-cases (page == q)) [
      | inl z ↦ used (subst (λ x. FreeRegion k s master x) (sym (eq_of_test page q z)) g)
      | inr z ↦ let ne : page ≢ q = ground (arith, z) in first q (omega arith) lt (omega arith) g
    ],
  )
  widen page used o (inr (e, none_free)) = inr (
    e,
    λ p lo fits aligned f. elim (Bool-cases (page == p)) [
      | inl q ↦ used (subst (λ z. FreeRegion k s master z) (sym (eq_of_test page p q)) f)
      | inr q ↦
          let ne : page ≢ p = ground (arith, q) in none_free p (omega arith) fits (omega arith) f
    ],
  )

  find_region-RegionFound :
      (fuel page : ℕ)
      → page ≤ total_pages
      → total_pages < page + thread_stack_region_pages * fuel
      → RegionFound page (find_region fuel page master k)
  unfolding find_region
  find_region-RegionFound zero page h0 h = absurd (omega arith)
  find_region-RegionFound (suc fuel) page h0 h =
      elim (Bool-cases (leb (page + thread_stack_region_pages) total_pages)) [
        | inr out ↦ rw out (inr (refl, λ p lo fits aligned f. absurd (ground arith)))
        | inl fits ↦
            let le : page + thread_stack_region_pages ≤ total_pages = ground (arith, fits) in
            let free = used_at-FreeRegion page le in
            rw (fits, stack_region_in_use-used_at page)
              (elim (Bool-cases (used_at k s master page)) [
                | inr no_use ↦ rw no_use (
                    inl (
                      page,
                      refl,
                      omega arith,
                      le,
                      refl,
                      free.0 no_use,
                      λ q lo lt same g. absurd (omega arith),
                    ))
                | inl in_use ↦ rw in_use (
                    widen page (λ f. absurd (cc (free.1 f))) _
                      (find_region-RegionFound fuel (page + thread_stack_region_pages) le
                        (omega arith)))
              ])
      ]

  -- `find_free_stack_region` ends and never faults: it gives the first region behind the code, at
  -- a multiple of eight pages, that no thread of the process has reserved and that ends within the
  -- address space, so that each one before it is reserved, and -1 only if there is none. So for a process whose reserved regions do not
  -- run past 2 ^ 32 pages and which has at most 25 threads.
  pub find_free_stack_region-RegionFound :
      RegionFound thread_stack_base_page (find_free_stack_region master k)
  unfolding find_free_stack_region
  find_free_stack_region-RegionFound =
      find_region-RegionFound 90 thread_stack_base_page (omega arith) (omega arith)
