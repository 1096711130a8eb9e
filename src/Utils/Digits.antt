-- ===== src/Utils/Digits.antt =====
-- `utoa` writes the decimal digits of its number.
use soa_fib.Base.{
  ℕ, zero, suc, ◌+◌, ◌-◌, ◌*◌, ◌/◌, ◌%◌, ◌<◌, ◌≤◌, ◌≡◌, ◌≢◌, refl, ap, ◌∙◌, ◌==◌, ltb, arith,
  update, Bool-cases, inl, inr, ◌⊎◌, test_of_ne, test_of_eq, eq_of_test,
}
use soa_fib.Utils.{write_low, swap_ends, utoa}

abbrev pub IsDigit : ℕ → Type 0
IsDigit c = (48 ≤ c) × (c ≤ 57)

-- the number that n digits of a buffer spell, the highest first
abbrev pub value : ℕ → (ℕ → ℕ) → ℕ
value zero b = 0
value (suc n) b = 10 * value n b + (b n - 48)

-- and the lowest first, from a position on
abbrev low_value : ℕ → ℕ → (ℕ → ℕ) → ℕ
low_value zero p b = 0
low_value (suc n) p b = (b p - 48) + 10 * low_value n (p + 1) b

-- the least bound that the fuel serves
abbrev power : ℕ → ℕ
power zero = 1
power (suc n) = 10 * power n

-- what the first loop leaves: n digits from i on, and all below as before
record Low (n i a : ℕ) (b : ℕ → ℕ) (r : ℕ × (ℕ → ℕ)) : Type 0 where
  count : r.0 ≡ i + n
  spells : low_value n i r.1 ≡ a
  digits : (j : ℕ) → i ≤ j → j < i + n → IsDigit (r.1 j)
  below : (j : ℕ) → j < i → r.1 j ≡ b j

write_low-Low :
    (fuel a i : ℕ) (b : ℕ → ℕ) → a < power fuel → (n : ℕ) × Low n i a b (write_low fuel a i b)
unfolding write_low
write_low-Low zero a i b f = (
  0,
  record {
    count = ground arith;
    spells = omega arith;
    digits = λ j x y. absurd (omega arith);
    below = λ j x. refl;
  },
)
write_low-Low (suc fuel) a i b f = elim (Bool-cases (ltb 0 a)) [
  | inr e ↦ (
    0,
    rw e (record {
      count = ground arith;
      spells = ground (arith, e);
      digits = λ j x y. absurd (omega arith);
      below = λ j x. refl;
    }),
  )
  | inl e ↦
      (let (n, r) = write_low-Low fuel (a / 10) (i + 1) (update b i (a % 10 + 48)) (omega arith) in
        let first = r.below i (omega arith) in
        let digit : (write_low fuel (a / 10) (i + 1) (update b i (a % 10 + 48))).1 i ≡ a % 10 + 48 =
          first ∙ rw (test_of_eq i i refl) refl in
        (
          suc n,
          rw e (record {
            count = ground (arith, r.count);
            spells = ground (arith, r.spells, digit);
            digits = λ j x y. elim (Bool-cases (i == j)) [
              | inl s ↦ ground (arith, digit, s)
              | inr s ↦ r.digits j (ground arith) (ground arith)
            ];
            below = λ j x. ground (arith, r.below j (omega arith));
          }),
        ))
]

abbrev swapped : ℕ → ℕ → (ℕ → ℕ) → ℕ → ℕ
swapped i1 i b = update (update b i1 (b (i - i1 - 1))) (i - i1 - 1) (b i1)

-- The second loop leaves what it has passed as it is, and turns the rest round.
swap_ends-passed :
    (n i1 i : ℕ) (b : ℕ → ℕ) (j : ℕ)
    → 2 * (i1 + n) ≤ i
    → (j < i1) ⊎ (i ≤ j + i1)
    → swap_ends n i1 i b j ≡ b j
unfolding swap_ends
swap_ends-passed zero i1 i b j h l = refl
swap_ends-passed (suc n) i1 i b j h (inl l) =
    swap_ends-passed n (i1 + 1) i (swapped i1 i b) j (omega arith) (inl (omega arith))
    ∙ rw (test_of_ne (i - i1 - 1) j (omega arith), test_of_ne i1 j (omega arith)) refl
swap_ends-passed (suc n) i1 i b j h (inr l) =
    swap_ends-passed n (i1 + 1) i (swapped i1 i b) j (omega arith) (inr (omega arith))
    ∙ rw (test_of_ne (i - i1 - 1) j (omega arith), test_of_ne i1 j (omega arith)) refl

swap_ends-turned :
    (n i1 i : ℕ) (b : ℕ → ℕ) (j : ℕ)
    → 2 * (i1 + n) ≤ i
    → i ≤ 2 * (i1 + n) + 1
    → i1 ≤ j
    → j + i1 < i
    → swap_ends n i1 i b j ≡ b (i - 1 - j)
unfolding swap_ends
swap_ends-turned zero i1 i b j h g l r = ap b (omega arith)
swap_ends-turned (suc n) i1 i b j h g l r = elim (Bool-cases (i1 == j)) [
  | inl e ↦
      let same = eq_of_test i1 j e in
      let far : i - i1 - 1 ≢ j = λ z. absurd (omega (arith, z, same)) in
      let end : i - i1 - 1 ≡ i - 1 - j = omega (arith, same) in
      swap_ends-passed n (i1 + 1) i (swapped i1 i b) j (omega arith) (inl (omega (arith, same)))
      ∙ rw (test_of_ne (i - i1 - 1) j far, e) (ap b end)
  | inr e ↦ elim (Bool-cases (i - i1 - 1 == j)) [
    | inl f ↦
        let same = eq_of_test (i - i1 - 1) j f in
        let end : i1 ≡ i - 1 - j = omega (arith, same) in
        swap_ends-passed n (i1 + 1) i (swapped i1 i b) j (omega arith) (inr (omega (arith, same)))
        ∙ rw f (ap b end)
    | inr f ↦
        let ne : i1 ≢ j = ground (arith, e) in
        let nf : i - i1 - 1 ≢ j = ground (arith, f) in
        swap_ends-turned n (i1 + 1) i (swapped i1 i b) j (omega arith) (omega arith)
          (omega (arith, ne)) (omega (arith, nf))
        ∙ rw
            (
              test_of_ne (i - i1 - 1) (i - 1 - j) (λ z. absurd (omega (arith, z, ne))),
              test_of_ne i1 (i - 1 - j) (λ z. absurd (omega (arith, z, nf))),
            )
            refl
  ]
]

swap_ends-reversed : (i : ℕ) (b : ℕ → ℕ) (j : ℕ) → j < i → swap_ends (i / 2) 0 i b j ≡ b (i - 1 - j)
swap_ends-reversed i b j l =
    swap_ends-turned (i / 2) 0 i b j (omega arith) (omega arith) (omega arith) (omega arith)

value-reversed :
    (m i : ℕ) (b c : ℕ → ℕ)
    → m ≤ i
    → ((j : ℕ) → j < i → c j ≡ b (i - 1 - j))
    → value m c ≡ low_value m (i - m) b
value-reversed zero i b c le h = refl
value-reversed (suc m) i b c le h =
    let rest = value-reversed m i b c (omega arith) h in
    let here = h m (omega arith) in
    let p : i - suc m + 1 ≡ i - m = omega arith in
    let q : i - 1 - m ≡ i - suc m = omega arith in rw (rest, here, p, q) (omega arith)

value-update : (m i v : ℕ) (c : ℕ → ℕ) → m ≤ i → value m (update c i v) ≡ value m c
value-update zero i v c le = refl
value-update (suc m) i v c le = ground (arith, value-update m i v c (omega arith))

-- `utoa` leaves a string that ends in 0 after n characters, each a digit, which spell the number
-- given in decimal. So for every `unsigned int`.
pub utoa-value :
    (a : ℕ) (b : ℕ → ℕ)
    → a < 4294967296
    → (n : ℕ) × (utoa a b n ≡ 0)
      × (value n (utoa a b) ≡ a)
      × ((j : ℕ) → j < n → IsDigit (utoa a b j))
unfolding utoa
utoa-value a b h = elim (Bool-cases (a == 0)) [
  | inl e ↦ rw e (1, refl, ground (arith, e), λ j l. ground arith)
  | inr e ↦
      (let (n, r) = write_low-Low 10 a 0 b (omega arith) in
        let i = (write_low 10 a 0 b).0 in
        let b1 = (write_low 10 a 0 b).1 in
        let in_all : i ≡ n = omega (arith, r.count) in
        let turn = swap_ends-reversed i b1 in
        rw e (
          i,
          rw (test_of_eq i i refl) refl,
          value-update i i 0 (swap_ends (i / 2) 0 i b1) (omega arith)
              ∙ value-reversed i i b1 (swap_ends (i / 2) 0 i b1) (omega arith) turn
              ∙ ap (λ z. low_value z (i - i) b1) in_all
              ∙ ap (λ z. low_value n z b1) (omega arith)
              ∙ r.spells,
          λ j l.
              rw (test_of_ne i j (omega arith), turn j l)
                (r.digits (i - 1 - j) (omega arith) (omega arith)),
        ))
]
