-- ===== src/ListHead/Chain.antt =====
-- Stretches of list.c's lists: what the pointers say between two nodes, and what linking a node
-- in or out does to them.
use soa_fib.Base.{
  ℕ, ◌≡◌, ◌≢◌, true, some, List, [], ◌∷◌, ◌++◌, arith, ◌==◌, update, All, has, erase, Nodup,
  All-of_has, Bool-cases, if◌then◌else◌, inl, inr, false,
}
use soa_fib.ListHead.{Links, null, list_add_tail, list_del}

-- from `a` the nodes `xs` in order up to `b`, by `next` and back by `prev`
abbrev pub Chain : Links → ℕ → List ℕ → ℕ → Type 0
Chain l a [] b = (l.next a ≡ b) × (l.prev b ≡ a)
Chain l a (x ∷ xs) b = (l.next a ≡ x) × (l.prev x ≡ a) × Chain l x xs b

-- the fields after `__list_add` of `new` between `p` and `n`, and after `list_del` of `x`
abbrev pub linked : Links → ℕ → ℕ → ℕ → Links
linked l new p n = record {
  next = update (update l.next new n) p new;
  prev = update (update l.prev n new) new p;
}

abbrev pub unlinked : Links → ℕ → Links
unlinked l x = record {
  next = update (update l.next (l.prev x) (l.next x)) x null;
  prev = update (update l.prev (l.next x) (l.prev x)) x null;
}

pub list_add_tail-linked :
    (l : Links) (new h : ℕ)
    → new ≢ 0
    → h ≢ 0
    → l.prev h ≢ 0
    → list_add_tail new h l ≡ some (linked l new (l.prev h) h)
unfolding list_add_tail
list_add_tail-linked l new h hn hh hp = ground arith

pub list_del-unlinked :
    (l : Links) (x : ℕ) → x ≢ 0 → l.prev x ≢ 0 → l.next x ≢ 0 → list_del x l ≡ some (unlinked l x)
unfolding list_del
list_del-unlinked l x hx hp hn = ground arith

-- A stretch is untouched where its own fields are.
pub Chain-frame :
    (l m : Links) (a : ℕ) (xs : List ℕ) (b : ℕ)
    → m.next a ≡ l.next a
    → m.prev b ≡ l.prev b
    → All (λ y. (m.next y ≡ l.next y) × (m.prev y ≡ l.prev y)) xs
    → Chain l a xs b
    → Chain m a xs b
Chain-frame l m a [] b ha hb hs c = ground arith
Chain-frame l m a (x ∷ xs) b ha hb hs c =
    (ground arith, ground arith, Chain-frame l m x xs b hs.0.0 hb hs.1 c.2)

-- `prev` then `next`, and `next` then `prev`, come back to a node of the stretch.
pub Chain-inverse :
    (l : Links) (a : ℕ) (xs : List ℕ) (b x : ℕ)
    → Chain l a xs b
    → has x xs ≡ true
    → (l.next (l.prev x) ≡ x) × (l.prev (l.next x) ≡ x)
Chain-inverse l a [] b x c h = ground arith
Chain-inverse l a (y ∷ []) b x c h = ground arith
Chain-inverse l a (y ∷ z ∷ zs) b x c h = ground (arith, Chain-inverse l y (z ∷ zs) b x c.2)

pub Chain-last : (l : Links) (a : ℕ) (xs : List ℕ) (b : ℕ) → Chain l a xs b → l.next (l.prev b) ≡ b
Chain-last l a [] b c = ground arith
Chain-last l a (x ∷ xs) b c = Chain-last l x xs b c.2

-- Linking in before the end of a stretch puts the node last.
pub Chain-snoc :
    (l : Links) (new b : ℕ) (a : ℕ) (xs : List ℕ)
    → l.next (l.prev b) ≡ b
    → new ≢ b
    → a ≢ new
    → All (λ y. (y ≢ new) × (y ≢ b)) xs
    → Chain l a xs b
    → Chain (linked l new (l.prev b) b) a (xs ++ new ∷ []) b
Chain-snoc l new b a [] inv hb ha hs c = ground arith
Chain-snoc l new b a (x ∷ xs) inv hb ha hs c =
    (ground arith, ground arith, Chain-snoc l new b x xs inv hb hs.0.0 hs.1 c.2)

-- The node goes out of the front of a stretch.
Chain-erase_head :
    (l : Links) (x : ℕ) (a : ℕ) (ys : List ℕ) (b : ℕ)
    → a ≢ x
    → b ≢ x
    → has a ys ≡ false
    → has b ys ≡ false
    → has x ys ≡ false
    → Nodup ys
    → Chain l a (x ∷ ys) b
    → Chain (unlinked l x) a ys b
Chain-erase_head l x a [] b ha hb na nb nx nd c = ground arith
Chain-erase_head l x a (z ∷ zs) b ha hb na nb nx nd c = (
  ground arith,
  ground arith,
  Chain-frame l (unlinked l x) z zs b (ground arith) (ground arith)
      (All-of_has _ zs (λ w h. (ground arith, ground arith))) c.2.2,
)

-- Linking a node out of a stretch erases it.
pub Chain-erase :
    (l : Links) (x : ℕ) (a : ℕ) (xs : List ℕ) (b : ℕ)
    → (l.next (l.prev x) ≡ x) × (l.prev (l.next x) ≡ x)
    → a ≢ x
    → b ≢ x
    → has a xs ≡ false
    → has b xs ≡ false
    → Nodup xs
    → has x xs ≡ true
    → Chain l a xs b
    → Chain (unlinked l x) a (erase x xs) b
Chain-erase l x a [] b inv ha hb na nb nd h c = absurd (ground arith)
Chain-erase l x a (y ∷ ys) b inv ha hb na nb nd h c = elim (Bool-cases (y == x)) [
  | inl e ↦
      rw (e, if◌then◌else◌)
        (Chain-erase_head l x a ys b ha hb (ground arith) (ground arith) (ground arith) nd.1
          (ground arith))
  | inr e ↦
      rw (e, if◌then◌else◌)
        (
          ground arith,
          ground arith,
          Chain-erase l x y ys b inv (ground arith) hb nd.0 (ground arith) nd.1 (ground arith) c.2,
        )
]

-- The end of a stretch of a ring points back at the start or at a node of it.
pub Chain-ends :
    (l : Links) (a : ℕ) (xs : List ℕ) (b : ℕ)
    → Chain l a xs b
    → (has (l.prev b) (a ∷ xs) ≡ true) × (has (l.next a) (b ∷ xs) ≡ true)
Chain-ends l a [] b c = ground arith
Chain-ends l a (x ∷ xs) b c = ground (arith, Chain-ends l x xs b c.2)

pub Chain-neighbours :
    (l : Links) (a : ℕ) (xs : List ℕ) (b x : ℕ)
    → Chain l a xs b
    → has x xs ≡ true
    → (has (l.prev x) (a ∷ xs) ≡ true) × (has (l.next x) (b ∷ xs) ≡ true)
Chain-neighbours l a [] b x c h = ground arith
Chain-neighbours l a (y ∷ []) b x c h = ground arith
Chain-neighbours l a (y ∷ z ∷ zs) b x c h = ground (arith, Chain-neighbours l y (z ∷ zs) b x c.2)
