-- ===== src/ListHead/Walk.antt =====
-- `list_for_each` against a search of the list that the pointers stand for.
use soa_fib.Base.{
  ℕ, zero, suc, ◌≡◌, ◌≢◌, ◌<◌, refl, sym, ap, ◌∙◌, Bool, true, Option, none, some, List, [], ◌∷◌,
  if◌then◌else◌, arith, length, has, Bool-cases, inl, inr, test_of_ne, test_of_eq,
}
use soa_fib.ListHead.{Links, for_each_find}
use soa_fib.ListHead.Queues.{Queues, IsHead, first_or}
use soa_fib.ListHead.Rep.{Rep}
use soa_fib.ListHead.Chain.{Chain}

-- the first element that passes a test
abbrev pub find : (ℕ → Bool) → List ℕ → Option ℕ
find test [] = none
find test (x ∷ xs) = if test x then some x else find test xs

pub first_of_Chain : (l : Links) (a h : ℕ) (xs : List ℕ) → Chain l a xs h → l.next a ≡ first_or h xs
first_of_Chain l a h [] c = c.0
first_of_Chain l a h (x ∷ xs) c = c.0

for_each_find-Chain :
    (fuel : ℕ) (l : Links) (a h : ℕ) (xs : List ℕ) (test : ℕ → Bool)
    → Chain l a xs h
    → ((x : ℕ) → has x xs ≡ true → (x ≢ h) × (x ≢ 0))
    → length xs < fuel
    → for_each_find fuel (first_or h xs) h test l ≡ some (find test xs)
unfolding for_each_find
for_each_find-Chain zero l a h xs test c ne f = absurd (omega arith)
for_each_find-Chain (suc fuel) l a h [] test c ne f = rw (test_of_eq h h refl) refl
for_each_find-Chain (suc fuel) l a h (x ∷ xs) test c ne f =
    let nx = ne x (rw (test_of_eq x x refl) refl) in
    let rest =
      for_each_find-Chain fuel l x h xs test c.2 (λ y i. ne y (ground arith)) (omega arith) in
    rw (test_of_ne x h nx.0) (elim (Bool-cases (test x)) [
      | inl hit ↦ rw hit refl
      | inr miss ↦ rw (miss, test_of_ne x 0 nx.1, first_of_Chain l x h xs c.2) rest
    ])

-- Where the pointers stand for the lists, a loop that breaks at the first node passing a test ends
-- without a fault, given more rounds than nodes, and finds what a search of the list finds.
pub for_each_find-find :
    (l : Links) (s : Queues) (r : Rep l s) (h : ℕ) (hh : IsHead s h) (fuel : ℕ) (test : ℕ → Bool)
    → length (s.members h) < fuel
    → for_each_find fuel (first_or h (s.members h)) h test l ≡ some (find test (s.members h))
for_each_find-find l s r h hh fuel test f =
    let q = r.ring h hh.0 hh.1 in
    for_each_find-Chain fuel l h h (s.members h) test q.chain
      (λ y i. let o = q.owned y i in (o.1, λ e. hh.0 (sym o.0 ∙ ap s.owner e ∙ r.null_loose))) f
