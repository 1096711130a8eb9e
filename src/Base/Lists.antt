-- ===== src/Base/Lists.antt =====
-- Lists measured and indexed by native numbers, under the library's names.
use Prim.Native.Nat.{ℕ, zero, suc, ◌+◌, ◌≤◌}
use mathlib.Core.Path.{◌≡◌, refl, subst}
use mathlib.Core.Logic.{inl, inr}
use mathlib.Core.Bool.{Bool, true, false, ◌||◌}
use mathlib.Core.List.{List, [], ◌∷◌, ◌++◌}
use native.Mathlib.Omega.{arith}
use soa_fib.Base.Tests.{◌==◌, if◌then◌else◌, Bool-cases, eq_of_test}

module _ {ℓ} {A : Type ℓ} where
  abbrev pub length : List A → ℕ
  length [] = 0
  length (x ∷ xs) = suc (length xs)

  abbrev pub get_or : List A → ℕ → A → A
  get_or [] i d = d
  get_or (x ∷ xs) zero d = x
  get_or (x ∷ xs) (suc i) d = get_or xs i d

  abbrev pub replicate : ℕ → A → List A
  replicate zero a = []
  replicate (suc n) a = a ∷ replicate n a

  pub length-append : (xs ys : List A) → length (xs ++ ys) ≡ length xs + length ys
  length-append [] ys = omega arith
  length-append (x ∷ xs) ys = omega (arith, length-append xs ys)

-- A predicate on every element; it computes to a tuple.
abbrev pub All {ℓ κ} : {A : Type ℓ} → (A → Type κ) → List A → Type κ
All P [] = Unit
All P (x ∷ xs) = P x × All P xs

abbrev pub has : ℕ → List ℕ → Bool
has a [] = false
has a (x ∷ xs) = (x == a) || has a xs

-- The list less the first occurrence of a number.
abbrev pub erase : ℕ → List ℕ → List ℕ
erase a [] = []
erase a (x ∷ xs) = if x == a then xs else x ∷ erase a xs

abbrev pub Nodup : List ℕ → Type 0
Nodup [] = Unit
Nodup (x ∷ xs) = (has x xs ≡ false) × Nodup xs

pub All-of_has {κ} : (P : ℕ → Type κ) (xs : List ℕ) → ((y : ℕ) → has y xs ≡ true → P y) → All P xs
All-of_has P [] f = tt
All-of_has P (x ∷ xs) f = (f x (ground arith), All-of_has P xs (λ y h. f y (ground arith)))

pub All-has {κ} : (P : ℕ → Type κ) (xs : List ℕ) (y : ℕ) → All P xs → has y xs ≡ true → P y
All-has P [] y hs h = absurd (ground arith)
All-has P (x ∷ xs) y hs h = elim (Bool-cases (x == y)) [
  | inl e ↦ subst P (eq_of_test x y e) hs.0
  | inr e ↦ All-has P xs y hs.1 (rw e at h)
]

pub has-append : (a : ℕ) (xs ys : List ℕ) → has a (xs ++ ys) ≡ (has a xs || has a ys)
has-append a [] ys = refl
has-append a (x ∷ xs) ys = ground (arith, has-append a xs ys)

pub Nodup-snoc : (a : ℕ) (xs : List ℕ) → has a xs ≡ false → Nodup xs → Nodup (xs ++ a ∷ [])
Nodup-snoc a [] h nd = (refl, tt)
Nodup-snoc a (x ∷ xs) h nd =
    (ground (arith, has-append x xs (a ∷ [])), Nodup-snoc a xs (ground arith) nd.1)

pub has-erase :
    (a b : ℕ) (xs : List ℕ) → Nodup xs → has a (erase b xs) ≡ (if b == a then false else has a xs)
has-erase a b [] nd = ground arith
has-erase a b (x ∷ xs) nd = ground (arith, has-erase a b xs nd.1)

pub Nodup-erase : (a : ℕ) (xs : List ℕ) → Nodup xs → Nodup (erase a xs)
Nodup-erase a [] nd = tt
Nodup-erase a (x ∷ xs) nd = ground (arith, Nodup-erase a xs nd.1, has-erase x a xs nd.1)

pub length-erase : (a : ℕ) (xs : List ℕ) → length xs ≤ suc (length (erase a xs))
length-erase a [] = omega arith
length-erase a (x ∷ xs) = ground (arith, length-erase a xs)
