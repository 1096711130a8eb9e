-- ===== src/Sched/Init.antt =====
-- `init_queues` of sched.c: the four queues at boot, every task free.
use soa_fib.Base.{
  ℕ, zero, suc, ◌+◌, ◌<◌, ◌≤◌, ◌≡◌, refl, Option, some, List, [], ◌∷◌, ◌>>=◌, arith, test_of_ne,
  update,
}
use soa_fib.ListHead.{Links, init_list_head, list_add_tail}
use soa_fib.ListHead.Queues.{Queues, IsHead, empty_list, push_back}
use soa_fib.ListHead.Rep.{Rep, Rep-none, init_list_head-empty_list, list_add_tail-push_back}
use soa_fib.Kernel.{freequeue, readyqueue, blockedqueue, tick_blockedqueue, list_of, nr_tasks}

-- the loop over the table, from entry i on
unfoldable pub free_tasks : ℕ → ℕ → Links → Option Links
free_tasks zero i l = some l
free_tasks (suc n) i l =
    list_add_tail (list_of (i + 1)) freequeue l >>= λ l1. free_tasks n (i + 1) l1

unfoldable pub init_queues : Links → Option Links
init_queues l = do
  l1 ← init_list_head freequeue l
  l2 ← init_list_head readyqueue l1
  l3 ← init_list_head blockedqueue l2
  l4 ← init_list_head tick_blockedqueue l3
  free_tasks nr_tasks 0 l4

-- the specification: every task in the free queue, in the order of the table
abbrev pub with_free : ℕ → ℕ → Queues → Queues
with_free zero i s = s
with_free (suc n) i s = with_free n (i + 1) (push_back (list_of (i + 1)) freequeue s)

abbrev no_list : Queues
no_list = record { owner = λ x. 0; members = λ h. [] }

abbrev empty_queues : Queues
empty_queues =
    empty_list tick_blockedqueue
      (empty_list blockedqueue (empty_list readyqueue (empty_list freequeue no_list)))

-- the `list` fields of n tasks from entry i of the table on
abbrev pub nodes_from : ℕ → ℕ → List ℕ
nodes_from zero i = []
nodes_from (suc n) i = list_of (i + 1) ∷ nodes_from n (i + 1)

abbrev pub boot_queues : Queues
boot_queues = with_free nr_tasks 0 empty_queues

free_tasks-with_free :
    (n i : ℕ) (l : Links) (s : Queues)
    → Rep l s
    → IsHead s freequeue
    → ((t : ℕ) → i < t → t ≤ i + n → s.owner (list_of t) ≡ 0)
    → (l' : Links) × (free_tasks n i l ≡ some l') × Rep l' (with_free n i s)
unfolding free_tasks
free_tasks-with_free zero i l s r hh loose = (l, refl, r)
free_tasks-with_free (suc n) i l s r hh loose =
    let x = list_of (i + 1) in
    let (l1, e, r1) =
      list_add_tail-push_back l s r freequeue hh x
        (λ z. absurd (omega (arith, z)), loose (i + 1) (omega arith) (omega arith)) in
    let rest =
      free_tasks-with_free n (i + 1) l1 (push_back x freequeue s) r1 (hh.0, head-kept hh.1)
        (λ t lo hi. apart t lo (loose t (omega arith) (omega arith))) in
    (rest.0, rw e rest.1, rest.2)
  where
    head-kept :
        s.owner freequeue ≡ freequeue
        → update s.owner (list_of (i + 1)) freequeue freequeue ≡ freequeue
    head-kept h = rw (test_of_ne (list_of (i + 1)) freequeue (λ z. absurd (omega (arith, z)))) h

    apart :
        (t : ℕ)
        → i + 1 < t
        → s.owner (list_of t) ≡ 0
        → update s.owner (list_of (i + 1)) freequeue (list_of t) ≡ 0
    apart t lo h = rw (test_of_ne (list_of (i + 1)) (list_of t) (λ z. absurd (omega (arith, z)))) h

-- At boot, whatever memory held, `init_queues` does not fault: afterwards the pointers stand for a
-- free queue of all 25 tasks in the order of the table and three empty queues.
pub init_queues-boot_queues :
    (l : Links)
    → (l' : Links) × (init_queues l ≡ some l')
      × Rep l' boot_queues
      × (boot_queues.members freequeue ≡ nodes_from nr_tasks 0)
      × (boot_queues.members readyqueue ≡ [])
      × (boot_queues.members blockedqueue ≡ [])
      × (boot_queues.members tick_blockedqueue ≡ [])
unfolding init_queues
init_queues-boot_queues l =
    let a = init_list_head-empty_list l no_list freequeue (Rep-none l) (ground arith, refl) in
    let b = init_list_head-empty_list a.0 _ readyqueue a.2 (ground arith, refl) in
    let c = init_list_head-empty_list b.0 _ blockedqueue b.2 (ground arith, refl) in
    let d = init_list_head-empty_list c.0 _ tick_blockedqueue c.2 (ground arith, refl) in
    let f =
      free_tasks-with_free nr_tasks 0 d.0 empty_queues d.2 (ground arith, refl)
        λ t lo hi. loose t lo in
    (f.0, rw (a.1, b.1, c.1, d.1) f.1, f.2, refl, refl, refl, refl)
  where
    loose : (t : ℕ) → 0 < t → empty_queues.owner (list_of t) ≡ 0
    loose t lo = ground arith
