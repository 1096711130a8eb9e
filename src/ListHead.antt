-- ===== src/ListHead.antt =====
-- list.c: circular doubly linked lists, the kernel's queues. A `struct list_head` is an address,
-- and the two fields of every one of them are kept in `Links`. Address 0 is NULL; a load or a
-- store through it is a page fault, since page 0 is left unmapped (`none`).
pub mod Chain
pub mod Queues
pub mod Rep
pub mod Walk
use soa_fib.Base.{
  ℕ, zero, suc, true, false, Bool, Option, none, some, ◌==◌, if◌then◌else◌, ◌>>=◌, update,
}

pub record Links : Type 0 where
  pub next : ℕ → ℕ
  pub prev : ℕ → ℕ

abbrev pub null : ℕ
null = 0

-- `p->next` and `p->prev`, read and written
unfoldable pub get_next : ℕ → Links → Option ℕ
get_next p l = if p == null then none else some (l.next p)

unfoldable pub get_prev : ℕ → Links → Option ℕ
get_prev p l = if p == null then none else some (l.prev p)

unfoldable pub set_next : ℕ → ℕ → Links → Option Links
set_next p v l = if p == null then none else some (record l { next = update l.next p v })

unfoldable pub set_prev : ℕ → ℕ → Links → Option Links
set_prev p v l = if p == null then none else some (record l { prev = update l.prev p v })

-- `__list_add`: the stores in the order of the source
unfoldable pub list_add_between : ℕ → ℕ → ℕ → Links → Option Links
unfolding set_next set_prev
list_add_between new prev next l = do
  l1 ← set_prev next new l
  l2 ← set_next new next l1
  l3 ← set_prev new prev l2
  set_next prev new l3

-- `__list_del`
unfoldable pub list_del_between : ℕ → ℕ → Links → Option Links
unfolding set_next set_prev
list_del_between prev next l = do l1 ← set_prev next prev l; set_next prev next l1

unfoldable pub init_list_head : ℕ → Links → Option Links
unfolding set_next set_prev
init_list_head h l = do l1 ← set_next h h l; set_prev h h l1

unfoldable pub list_add : ℕ → ℕ → Links → Option Links
unfolding list_add_between get_next
list_add new head l = do next ← get_next head l; list_add_between new head next l

unfoldable pub list_add_tail : ℕ → ℕ → Links → Option Links
unfolding list_add_between get_prev
list_add_tail new head l = do prev ← get_prev head l; list_add_between new prev head l

unfoldable pub list_del : ℕ → Links → Option Links
unfolding list_del_between get_next get_prev set_next set_prev
list_del entry l = do
  prev ← get_prev entry l
  next ← get_next entry l
  l1 ← list_del_between prev next l
  l2 ← set_next entry null l1
  set_prev entry null l2

unfoldable pub list_is_last : ℕ → ℕ → Links → Option Bool
unfolding get_next
list_is_last node head l = do next ← get_next node l; some (next == head)

unfoldable pub list_empty : ℕ → Links → Option Bool
unfolding get_next
list_empty head l = do next ← get_next head l; some (next == head)

-- the macro `list_first`
unfoldable pub list_first : ℕ → Links → Option ℕ
unfolding get_next
list_first head l = get_next head l

-- `list_for_each` with a test and a `break`: the first node behind `pos` that passes, if any;
-- fuel counts the rounds
unfoldable pub for_each_find : ℕ → ℕ → ℕ → (ℕ → Bool) → Links → Option (Option ℕ)
unfolding get_next
for_each_find zero pos head test l = none
for_each_find (suc fuel) pos head test l = if pos == head then some none else elim (test pos) [
  | true ↦ some (some pos)
  | false ↦ (get_next pos l >>= λ next. for_each_find fuel next head test l)
]
