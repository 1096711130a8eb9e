-- ===== src/ListHead/Queues.antt =====
-- What the kernel's lists stand for: which list each node is linked into, and each list's nodes
-- in order. This is the specification that list.c implements; it has no pointers.
use soa_fib.Base.{ℕ, ◌≡◌, ◌≢◌, List, [], ◌∷◌, ◌++◌, Bool, true, false, update, erase}

-- `owner` gives a head itself, a linked node its head, and anything else 0.
pub record Queues : Type 0 where
  pub owner : ℕ → ℕ
  pub members : ℕ → List ℕ

abbrev pub IsHead : Queues → ℕ → Type 0
IsHead s h = (h ≢ 0) × (s.owner h ≡ h)

-- a node that can be linked into a list
abbrev pub IsLoose : Queues → ℕ → Type 0
IsLoose s x = (x ≢ 0) × (s.owner x ≡ 0)

-- a node that stands in the list of `h`
abbrev pub IsIn : Queues → ℕ → ℕ → Type 0
IsIn s x h = (x ≢ h) × (s.owner x ≡ h)

abbrev pub empty_list : ℕ → Queues → Queues
empty_list h s = record { owner = update s.owner h h; members = update s.members h [] }

abbrev pub push_back : ℕ → ℕ → Queues → Queues
push_back x h s = record {
  owner = update s.owner x h;
  members = update s.members h (s.members h ++ x ∷ []);
}

abbrev pub remove : ℕ → Queues → Queues
remove x s = record {
  owner = update s.owner x 0;
  members = update s.members (s.owner x) (erase x (s.members (s.owner x)));
}

abbrev pub is_nil : List ℕ → Bool
is_nil [] = true
is_nil (x ∷ xs) = false

-- the first node of a list, and the head itself where there is none
abbrev pub first_or : ℕ → List ℕ → ℕ
first_or h [] = h
first_or h (x ∷ xs) = x
