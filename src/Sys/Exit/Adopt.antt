-- ===== src/Sys/Exit/Adopt.antt =====
-- The loop of `sys_exit` that hands the children of a process to the idle task.
use soa_fib.Base.{
  ℕ, zero, suc, ◌<◌, ◌≡◌, ◌≢◌, refl, sym, ap, subst, ◌∙◌, true, some, List, [], ◌∷◌, ◌++◌, arith,
  test_of_ne, test_of_eq, update, has, length,
}
use mathlib.Core.List.{append-nil, append_assoc}
use soa_fib.ListHead.{Links, get_next}
use soa_fib.ListHead.Queues.{Queues, IsHead, push_back, remove, first_or}
use soa_fib.ListHead.Rep.{Rep, list_add_tail-push_back, list_del-remove}
use soa_fib.ListHead.Chain.{Chain}
use soa_fib.ListHead.Walk.{first_of_Chain}
use soa_fib.Kernel.{Kernel, child_list_of, children_of, list_entry}
use soa_fib.Stack.{walk_fuel}
use soa_fib.Sys.Exit.{each_of, for_each_safe, adopt_child}

-- the queues after one child has gone over from the list of `h` to that of `g`
abbrev handed : ℕ → ℕ → Queues → Queues
handed x g s = push_back x g (remove x s)

record Step (k k1 : Kernel) (s : Queues) (x g : ℕ) : Type 0 where
  runs : adopt_child x k ≡ some k1
  rep : Rep k1.links (handed x g s)
  idle : k1.idle_task ≡ k.idle_task

adopt_child-Step :
    (k : Kernel) (s : Queues) (h x : ℕ)
    → Rep k.links s
    → IsHead s h
    → IsHead s (children_of k.idle_task)
    → children_of k.idle_task ≢ h
    → has x (s.members h) ≡ true
    → child_list_of (list_entry x) ≡ x
    → (k1 : Kernel) × Step k k1 s x (children_of k.idle_task)
unfolding adopt_child
adopt_child-Step k s h x r hh hg ne i e =
    let g = children_of k.idle_task in
    let own = (r.ring h hh.0 hh.1).owned x i in
    let del = list_del-remove k.links s r h x hh (own.1, own.0) in
    let x0 : x ≢ 0 = λ z. hh.0 (sym own.0 ∙ ap s.owner z ∙ r.null_loose) in
    let xg : x ≢ g = λ z. ne (sym hg.1 ∙ ap s.owner (sym z) ∙ own.0) in
    let add =
      list_add_tail-push_back del.0 (remove x s) del.2 g (hg.0, rw (test_of_ne x g xg) hg.1) x
        (x0, rw (test_of_eq x x refl) refl) in
    let c = list_entry x in
    (
      record k {
        tasks = update k.tasks c (record (k.tasks c) { parent = k.idle_task });
        links = add.0;
      },
      record { runs = rw (e, del.1, add.1) refl; rep = add.2; idle = refl },
    )

-- what the loop leaves: the children in order behind the idle task's own
pub record Adopted (k k' : Kernel) (s s' : Queues) (h : ℕ) (xs : List ℕ) : Type 0 where
  pub rep : Rep k'.links s'
  pub emptied : s'.members h ≡ []
  pub joined : s'.members (children_of k.idle_task) ≡ s.members (children_of k.idle_task) ++ xs
  pub others : (f : ℕ) → f ≢ h → f ≢ children_of k.idle_task → s'.members f ≡ s.members f

-- the list after its first node has gone over
handed-members :
    (s : Queues) (x h g : ℕ) (ys : List ℕ)
    → s.owner x ≡ h
    → g ≢ h
    → s.members h ≡ x ∷ ys
    → ((handed x g s).members h ≡ ys)
      × ((handed x g s).members g ≡ s.members g ++ x ∷ [])
      × ((f : ℕ) → f ≢ h → f ≢ g → (handed x g s).members f ≡ s.members f)
handed-members s x h g ys o ne m = (
  rw (test_of_ne g h ne, o, test_of_eq h h refl, m, test_of_eq x x refl) refl,
  rw (test_of_eq g g refl, o, test_of_ne h g (λ z. ne (sym z))) refl,
  λ f fh fg. rw (test_of_ne g f (λ z. fg (sym z)), o, test_of_ne h f (λ z. fh (sym z))) refl,
)

-- the fields that the loop reads: the node behind the first
second_lem :
    (l : Links) (s : Queues) (h x : ℕ) (ys : List ℕ)
    → Rep l s
    → IsHead s h
    → s.members h ≡ x ∷ ys
    → l.next x ≡ first_or h ys
second_lem l s h x ys r hh m =
    let q = subst (λ z. Chain l h z h) m (r.ring h hh.0 hh.1).chain in first_of_Chain l x h ys q.2

first_ne_null :
    (h : ℕ) (ys : List ℕ) → h ≢ 0 → ((y : ℕ) → has y ys ≡ true → y ≢ 0) → first_or h ys ≢ 0
first_ne_null h [] h0 ne = h0
first_ne_null h (y ∷ ys) h0 ne = ne y (rw (test_of_eq y y refl) refl)

get_next_lem : (n : ℕ) (l : Links) → n ≢ 0 → get_next n l ≡ some (l.next n)
unfolding get_next
get_next_lem n l ne = rw (test_of_ne n 0 ne) refl

adopt-Adopted :
    (fuel : ℕ) (k : Kernel) (s : Queues) (h n : ℕ) (xs : List ℕ)
    → Rep k.links s
    → IsHead s h
    → IsHead s (children_of k.idle_task)
    → children_of k.idle_task ≢ h
    → s.members h ≡ xs
    → ((x : ℕ) → has x xs ≡ true → child_list_of (list_entry x) ≡ x)
    → length xs < fuel
    → n ≡ k.links.next (first_or h xs)
    → (k' : Kernel) × (s' : Queues) × (for_each_safe fuel (first_or h xs) n h adopt_child k
        ≡ some k')
      × Adopted k k' s s' h xs
unfolding for_each_safe
adopt-Adopted zero k s h n xs r hh hg ne m fields short en = absurd (omega arith)
adopt-Adopted (suc fuel) k s h n [] r hh hg ne m fields short en = (
  k,
  s,
  rw (test_of_eq h h refl) refl,
  record { rep = r; emptied = m; joined = rw append-nil refl; others = λ f a b. refl },
)
adopt-Adopted (suc fuel) k s h n (x ∷ ys) r hh hg ne m fields short en =
    let i : has x (s.members h) ≡ true = rw (m, test_of_eq x x refl) refl in
    let own = (r.ring h hh.0 hh.1).owned x i in
    let step = adopt_child-Step k s h x r hh hg ne i (fields x (rw (test_of_eq x x refl) refl)) in
    let mem = handed-members s x h (children_of k.idle_task) ys own.0 ne m in
    let g = children_of k.idle_task in
    let (k1, st) = step in
    let gi : children_of k1.idle_task ≡ g = ap children_of st.idle in
    let xg : x ≢ g = λ z. ne (sym hg.1 ∙ ap s.owner (sym z) ∙ own.0) in
    let behind : n ≡ first_or h ys = en ∙ second_lem k.links s h x ys r hh m in
    let in_list : (y : ℕ) → has y ys ≡ true → has y (s.members h) ≡ true =
      λ y iy. ap (has y) m ∙ ground (arith, iy) in
    let nn : first_or h ys ≢ 0 = first_ne_null h ys hh.0 λ y iy z.
      hh.0 (sym ((r.ring h hh.0 hh.1).owned y (in_list y iy)).0 ∙ ap s.owner z ∙ r.null_loose) in
    let s1 = handed x g s in
    let rest =
      adopt-Adopted fuel k1 s1 h (k1.links.next (first_or h ys)) ys st.rep
        (hh.0, rw (test_of_ne x h own.1) hh.1)
        (subst (IsHead s1) (sym gi) (hg.0, rw (test_of_ne x g xg) hg.1)) (λ z. ne (sym gi ∙ z))
        mem.0 (λ y iy. fields y (ground (arith, iy))) (omega arith) refl in
    (
      rest.0,
      rest.1,
      rw (test_of_ne x h own.1, st.runs, behind, get_next_lem (first_or h ys) k1.links nn) rest.2,
      record {
        rep = rest.3.rep;
        emptied = rest.3.emptied;
        joined =
            ap rest.1.members (sym gi)
            ∙ rest.3.joined
            ∙ ap (λ z. s1.members z ++ ys) gi
            ∙ ap (λ zs. zs ++ ys) mem.1
            ∙ rw append_assoc refl;
        others = λ f fh fg. rest.3.others f fh (λ z. fg (z ∙ gi)) ∙ mem.2 f fh fg;
      },
    )

-- The loop over the children of a task ends without a fault: they stand, in order, behind the idle
-- task's own children, the task has none left, and every other list is as it was. So where the
-- pointers stand for the lists, for a task that is not the idle task, whose list of children is no
-- longer than the table of tasks and holds `child_list` fields.
pub each_of-adopt_child :
    (k : Kernel) (s : Queues) (t : ℕ)
    → Rep k.links s
    → IsHead s (children_of t)
    → IsHead s (children_of k.idle_task)
    → k.idle_task ≢ t
    → ((x : ℕ) → has x (s.members (children_of t)) ≡ true → child_list_of (list_entry x) ≡ x)
    → length (s.members (children_of t)) < walk_fuel
    → (k' : Kernel) × (s' : Queues) × (each_of (children_of t) adopt_child k ≡ some k')
      × Adopted k k' s s' (children_of t) (s.members (children_of t))
unfolding each_of
each_of-adopt_child k s t r hh hg ne fields short =
    let h = children_of t in
    let xs = s.members h in
    let q = r.ring h hh.0 hh.1 in
    let first = first_of_Chain k.links h h xs q.chain in
    let nn : first_or h xs ≢ 0 =
      first_ne_null h xs hh.0 λ y iy z. hh.0 (sym (q.owned y iy).0 ∙ ap s.owner z ∙ r.null_loose) in
    let done =
      adopt-Adopted walk_fuel k s h (k.links.next (first_or h xs)) xs r hh hg
        (λ z. ne (omega (arith, z))) refl fields short refl in
    (
      done.0,
      done.1,
      rw (get_next_lem h k.links hh.0, first, get_next_lem (first_or h xs) k.links nn) done.2,
      done.3,
    )
