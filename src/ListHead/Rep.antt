-- ===== src/ListHead/Rep.antt =====
-- The functions of list.c implement the lists of `Queues`, all lists of the kernel at once.
use soa_fib.Base.{
  ℕ, ◌≡◌, ◌≢◌, refl, sym, subst, true, false, some, List, [], ◌∷◌, ◌++◌, arith, ◌==◌, update,
  Bool-cases, inl, inr, eq_of_test, ap, ◌∙◌, test_of_eq, test_of_ne, has, erase, Nodup, All-of_has,
  has-append, false, Nodup-snoc, has-erase, Nodup-erase,
}
use soa_fib.ListHead.{Links, init_list_head, list_add_tail, list_del, list_empty, list_first}
use soa_fib.ListHead.Queues.{
  Queues, IsHead, IsLoose, IsIn, empty_list, push_back, remove, is_nil, first_or,
}
use soa_fib.ListHead.Chain.{
  Chain, linked, unlinked, Chain-frame, Chain-inverse, Chain-last, Chain-snoc, Chain-erase,
  list_add_tail-linked, Chain-neighbours, list_del-unlinked, Chain-ends,
}

pub record IsRing (l : Links) (owner : ℕ → ℕ) (h : ℕ) (xs : List ℕ) : Type 0 where
  pub chain : Chain l h xs h
  pub owned : (x : ℕ) → has x xs ≡ true → (owner x ≡ h) × (x ≢ h)
  pub complete : (x : ℕ) → owner x ≡ h → x ≢ h → has x xs ≡ true
  pub nodup : Nodup xs

pub record Rep (l : Links) (s : Queues) : Type 0 where
  pub null_loose : s.owner 0 ≡ 0
  pub owner_head : (y : ℕ) → s.owner (s.owner y) ≡ s.owner y
  pub ring : (h : ℕ) → h ≢ 0 → s.owner h ≡ h → IsRing l s.owner h (s.members h)

-- A ring whose nodes keep their fields and their owner, and gains none, is a ring still.
IsRing-frame :
    (l m : Links) (own own' : ℕ → ℕ) (h : ℕ) (xs : List ℕ)
    → own h ≡ h
    → ((y : ℕ) → own y ≡ h → (m.next y ≡ l.next y) × (m.prev y ≡ l.prev y) × (own' y ≡ h))
    → ((y : ℕ) → own' y ≡ h → own y ≡ h)
    → IsRing l own h xs
    → IsRing m own' h xs
IsRing-frame l m own own' h xs oh same back r = record {
  chain =
      Chain-frame l m h xs h (same h oh).0 (same h oh).1
        (All-of_has _ xs λ y i. ((same y (r.owned y i).0).0, (same y (r.owned y i).0).1)) r.chain;
  owned = λ x i. ((same x (r.owned x i).0).2, (r.owned x i).1);
  complete = λ x e ne. r.complete x (back x e) ne;
  nodup = r.nodup;
}

-- A node of a ring, or its head, belongs to the head.
owner_of :
    (l : Links) (own : ℕ → ℕ) (h : ℕ) (xs : List ℕ) (y : ℕ)
    → own h ≡ h
    → IsRing l own h xs
    → has y (h ∷ xs) ≡ true
    → own y ≡ h
owner_of l own h xs y oh r i = elim (Bool-cases (h == y)) [
  | inl e ↦ rw (← eq_of_test h y e) oh
  | inr e ↦ (r.owned y (rw e at i)).0
]

module _ (l : Links) (s : Queues) (r : Rep l s) (h : ℕ) (hh : IsHead s h) where
  IsRing-of : IsRing l s.owner h (s.members h)
  IsRing-of = r.ring h hh.0 hh.1

  prev_owner : s.owner (l.prev h) ≡ h
  prev_owner =
      owner_of l s.owner h (s.members h) (l.prev h) hh.1 IsRing-of
        (Chain-ends l h (s.members h) h IsRing-of.chain).0

  is_nil_of_chain : (xs : List ℕ) → IsRing l s.owner h xs → (l.next h == h) ≡ is_nil xs
  is_nil_of_chain [] q = test_of_eq (l.next h) h q.chain.0
  is_nil_of_chain (x ∷ xs) q =
      let ne = (q.owned x (ground arith)).1 in test_of_ne (l.next h) h (λ e. ne (sym q.chain.0 ∙ e))

  first_of_Chain : (xs : List ℕ) → Chain l h xs h → l.next h ≡ first_or h xs
  first_of_Chain [] c = c.0
  first_of_Chain (x ∷ xs) c = c.0

  -- `list_empty` tells whether the list has a node.
  pub list_empty-is_nil : list_empty h l ≡ some (is_nil (s.members h))
  unfolding list_empty
  list_empty-is_nil = rw (test_of_ne h 0 hh.0) (ap some (is_nil_of_chain (s.members h) IsRing-of))

  -- `list_first` gives the first node of a list.
  pub list_first-first_or : list_first h l ≡ some (first_or h (s.members h))
  unfolding list_first
  list_first-first_or =
      rw (test_of_ne h 0 hh.0) (ap some (first_of_Chain (s.members h) IsRing-of.chain))

  module _ (x : ℕ) (hx : IsLoose s x) where
    not_in_ring : (y : ℕ) → has y (s.members h) ≡ true → (y ≢ x) × (y ≢ h)
    not_in_ring y i =
        let own = IsRing-of.owned y i in (λ e. hh.0 (sym own.0 ∙ ap s.owner e ∙ hx.1), own.1)

    x-ne-h : x ≢ h
    x-ne-h e = hh.0 (sym hh.1 ∙ ap s.owner (sym e) ∙ hx.1)

    not_has : has x (s.members h) ≡ false
    not_has = elim (Bool-cases (has x (s.members h))) [
      | inl i ↦ absurd ((not_in_ring x i).0 refl)
      | inr n ↦ n
    ]

    IsRing-push : IsRing (linked l x (l.prev h) h) (update s.owner x h) h (s.members h ++ x ∷ [])
    IsRing-push = record {
      chain =
          Chain-snoc l x h h (s.members h) (Chain-last l h (s.members h) h IsRing-of.chain) x-ne-h
            (λ e. x-ne-h (sym e)) (All-of_has _ (s.members h) not_in_ring) IsRing-of.chain;
      owned = λ y i. ground (arith, has-append y (s.members h) (x ∷ []), IsRing-of.owned y, x-ne-h);
      complete =
          λ y e ne. ground (arith, has-append y (s.members h) (x ∷ []), IsRing-of.complete y);
      nodup = Nodup-snoc x (s.members h) not_has IsRing-of.nodup;
    }

    IsRing-other :
        (g : ℕ)
        → g ≢ 0
        → g ≢ h
        → g ≢ x
        → s.owner g ≡ g
        → IsRing (linked l x (l.prev h) h) (update s.owner x h) g (s.members g)
    IsRing-other g g0 gh gx go =
        IsRing-frame l _ s.owner _ g (s.members g) go
          (λ y e. (
            ground (arith, prev_owner, hh.1, hx.1),
            ground (arith, prev_owner, hh.1, hx.1),
            ground (arith, prev_owner, hh.1, hx.1),
          ))
          (λ y e. ground (arith, hx.1)) (r.ring g g0 go)

  -- `list_add_tail` appends a node that is in no list to a list, without a fault, and leaves every
  -- other list as it was. So where the pointers stand for the lists.
  pub list_add_tail-push_back :
      (x : ℕ)
      → IsLoose s x
      → (l' : Links) × (list_add_tail x h l ≡ some l') × Rep l' (push_back x h s)
  list_add_tail-push_back x hx = (
    linked l x (l.prev h) h,
    list_add_tail-linked l x h hx.0 hh.0 (λ e. hh.0 (sym prev_owner ∙ ap s.owner e ∙ r.null_loose)),
    record {
      null_loose = rw (test_of_ne x 0 hx.0) r.null_loose;
      owner_head = λ y. ground (arith, r.owner_head y, hh.1, hx.1, hx.0, hh.0);
      ring = λ g g0 go. elim (Bool-cases (h == g)) [
        | inl e ↦
            subst
              (λ z.
                IsRing (linked l x (l.prev h) h) (update s.owner x h) z
                  (update s.members h (s.members h ++ x ∷ []) z))
              (eq_of_test h g e) (rw (test_of_eq h h refl) (IsRing-push x hx))
        | inr e ↦ rw e (
            IsRing-other x hx g g0 (ground arith) (ground (arith, x-ne-h x hx))
              (ground (arith, x-ne-h x hx)))
      ];
    },
  )

module _ (l : Links) (s : Queues) (r : Rep l s) (h x : ℕ) (hh : IsHead s h) (hx : IsIn s x h) where
  in_ring : has x (s.members h) ≡ true
  in_ring = (r.ring h hh.0 hh.1).complete x hx.1 hx.0

  neighbours : (s.owner (l.prev x) ≡ h) × (s.owner (l.next x) ≡ h)
  neighbours =
      let q = r.ring h hh.0 hh.1 in
      let n = Chain-neighbours l h (s.members h) h x q.chain in_ring in
      (
        owner_of l s.owner h (s.members h) (l.prev x) hh.1 q n.0,
        owner_of l s.owner h (s.members h) (l.next x) hh.1 q n.1,
      )

  ne_null : (y : ℕ) → s.owner y ≡ h → y ≢ 0
  ne_null y o e = hh.0 (sym o ∙ ap s.owner e ∙ r.null_loose)

  not_self : has h (s.members h) ≡ false
  not_self = elim (Bool-cases (has h (s.members h))) [
    | inl i ↦ absurd (((r.ring h hh.0 hh.1).owned h i).1 refl)
    | inr n ↦ n
  ]

  IsRing-erase : IsRing (unlinked l x) (update s.owner x 0) h (erase x (s.members h))
  IsRing-erase =
      let q = r.ring h hh.0 hh.1 in
      record {
        chain =
            Chain-erase l x h (s.members h) h (Chain-inverse l h (s.members h) h x q.chain in_ring)
              (λ e. hx.0 (sym e)) (λ e. hx.0 (sym e)) not_self not_self q.nodup in_ring q.chain;
        owned = λ y i. ground (arith, has-erase y x (s.members h) q.nodup, q.owned y);
        complete =
            λ y e ne. ground (arith, has-erase y x (s.members h) q.nodup, q.complete y, hh.0);
        nodup = Nodup-erase x (s.members h) q.nodup;
      }

  IsRing-apart :
      (g : ℕ)
      → g ≢ 0
      → g ≢ h
      → s.owner g ≡ g
      → IsRing (unlinked l x) (update s.owner x 0) g (s.members g)
  IsRing-apart g g0 gh go =
      IsRing-frame l _ s.owner _ g (s.members g) go
        (λ y e. (
          ground (arith, neighbours, hx.1),
          ground (arith, neighbours, hx.1),
          ground (arith, neighbours, hx.1),
        ))
        (λ y e. ground arith) (r.ring g g0 go)

  -- `list_del` takes a node out of the list that it stands in, without a fault, and leaves every other
  -- list. So where the pointers stand for the lists.
  pub list_del-remove : (l' : Links) × (list_del x l ≡ some l') × Rep l' (remove x s)
  list_del-remove = (
    unlinked l x,
    list_del-unlinked l x (ne_null x hx.1) (ne_null (l.prev x) neighbours.0)
        (ne_null (l.next x) neighbours.1),
    record {
      null_loose = rw (test_of_ne x 0 (ne_null x hx.1)) r.null_loose;
      owner_head = λ y. ground (arith, r.owner_head y, r.null_loose, hh.1, hx.1, hx.0, hh.0);
      ring = λ g g0 go. elim (Bool-cases (h == g)) [
        | inl e ↦
            subst
              (λ z.
                IsRing (unlinked l x) (update s.owner x 0) z
                  (update s.members (s.owner x) (erase x (s.members (s.owner x))) z))
              (eq_of_test h g e) (rw (hx.1, test_of_eq h h refl) IsRing-erase)
        | inr e ↦ rw (hx.1, e) (IsRing-apart g g0 (ground arith) (ground arith))
      ];
    },
  )

-- No list at all: what the links say does not matter yet.
pub Rep-none : (l : Links) → Rep l (record { owner = λ _. 0; members = λ _. [] })
Rep-none l = record {
  null_loose = refl;
  owner_head = λ y. refl;
  ring = λ h h0 e. absurd (h0 (sym e));
}

-- `INIT_LIST_HEAD` makes a node that is in no list the head of an empty list, without a fault, and
-- leaves every list as it was. So where the pointers stand for the lists.
pub init_list_head-empty_list :
    (l : Links) (s : Queues) (h : ℕ)
    → Rep l s
    → IsLoose s h
    → (l' : Links) × (init_list_head h l ≡ some l') × Rep l' (empty_list h s)
unfolding init_list_head
init_list_head-empty_list l s h r hh = (
  record { next = update l.next h h; prev = update l.prev h h },
  rw (test_of_ne h 0 hh.0),
  record {
    null_loose = rw (test_of_ne h 0 hh.0) r.null_loose;
    owner_head = λ y. ground (arith, r.owner_head y, hh.1);
    ring = λ g g0 go. elim (Bool-cases (h == g)) [
      | inl e ↦
          subst
            (λ z.
              IsRing (record { next = update l.next h h; prev = update l.prev h h })
                (update s.owner h h) z (update s.members h [] z))
            (eq_of_test h g e)
            (rw (test_of_eq h h refl) (record {
              chain = ground arith;
              owned = λ y i. absurd (cc);
              complete = λ y o ne. absurd (ground (arith, r.owner_head y, hh.1, hh.0));
              nodup = tt;
            }))
      | inr e ↦ rw e (
          IsRing-frame l _ s.owner _ g (s.members g) (rw e at go)
            (λ y o. (ground (arith, hh.1), ground (arith, hh.1), ground (arith, hh.1)))
            (λ y o. ground (arith, hh.1)) (r.ring g g0 (rw e at go)))
    ];
  },
)
