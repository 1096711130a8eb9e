-- ===== src/Sched/Tids.antt =====
-- Thread identifiers: `allocate_tid` and `free_tid` of sched.c.
use soa_fib.Base.{
  ℕ, zero, suc, ◌+◌, ◌*◌, ◌≤◌, ◌<◌, ◌≡◌, ◌≢◌, refl, ◌⊎◌, inl, inr, false, ◌==◌, Option, none, some,
  arith, update, Bool-cases, update_self, update_ne, sym, ap, ◌∙◌,
}
use mathlib.Core.Path.{fun_ext}
use soa_fib.Base.Int.{ℤ, pos, neg}
use soa_fib.Kernel.{Kernel, Task, put, max_tids_per_process}
use soa_fib.Sched.{free_slot, allocate_tid, clear_slot, free_tid}

-- what a search for a free slot from `i` on finds
abbrev pub SlotFound : ℕ → ℕ → (ℕ → ℕ) → Option ℕ → Type 0
SlotFound i n slots (some j) =
    (i ≤ j) × (j < n) × (slots j ≡ 0) × ((g : ℕ) → i ≤ g → g < j → slots g ≢ 0)
SlotFound i n slots none = (g : ℕ) → i ≤ g → g < n → slots g ≢ 0

free_slot-SlotFound :
    (fuel i n : ℕ) (slots : ℕ → ℕ) → i + fuel ≡ n → SlotFound i n slots (free_slot fuel i slots)
unfolding free_slot
free_slot-SlotFound zero i n slots e = λ g lo hi z. omega arith
free_slot-SlotFound (suc fuel) i n slots e = elim (Bool-cases (slots i == 0)) [
  | inl hit ↦ rw hit (omega arith, omega arith, ground arith, λ g lo hi z. omega arith)
  | inr miss ↦ rw miss (
      widen miss (free_slot fuel (i + 1) slots)
        (free_slot-SlotFound fuel (i + 1) n slots (omega arith)))
]
  where
    widen :
        (slots i == 0) ≡ false
        → (r : Option ℕ) → SlotFound (i + 1) n slots r
        → SlotFound i n slots r
    widen miss (some j) (lo, hi, z, below) =
        (omega arith, hi, z, λ g glo ghi e0. ground (arith, below g))
    widen miss none below = λ g glo ghi e0. elim (Bool-cases (i == g)) [
      | inl q ↦ absurd (ground arith)
      | inr q ↦ below g (ground arith) ghi e0
    ]

abbrev pub slots_of : ℕ → Kernel → ℕ → ℕ
slots_of t k = (k.tasks t).tid_slots

-- what `allocate_tid` does: the outcome and the state it leaves
abbrev pub Allocated : ℕ → Kernel → ℤ × Kernel → Type 0
Allocated master k (r, k') =
    ((i : ℕ) × (r ≡ pos ((k.tasks master).pid * 10 + i))
      × (i < max_tids_per_process)
      × (slots_of master k i ≡ 0)
      × ((g : ℕ) → g < i → slots_of master k g ≢ 0)
      × (slots_of master k' ≡ update (slots_of master k) i 1)
      × ((t : ℕ) → t ≢ master → k'.tasks t ≡ k.tasks t))
    ⊎ ((r ≡ neg 1) × (k' ≡ k) × ((g : ℕ) → g < max_tids_per_process → slots_of master k g ≢ 0))

-- `allocate_tid` gives the identifier of the lowest free slot and takes only that slot, of only
-- that process; it fails with -1, and changes nothing, exactly when all ten slots are taken.
pub allocate_tid-Allocated : (master : ℕ) (k : Kernel) → Allocated master k (allocate_tid master k)
unfolding allocate_tid
allocate_tid-Allocated master k =
    go (free_slot max_tids_per_process 0 (slots_of master k)) refl
      (free_slot-SlotFound max_tids_per_process 0 max_tids_per_process (slots_of master k) refl)
  where
    go :
        (r : Option ℕ)
        → free_slot max_tids_per_process 0 (slots_of master k) ≡ r
        → SlotFound 0 max_tids_per_process (slots_of master k) r
        → Allocated master k (allocate_tid master k)
    go none e f = rw (e, allocate_tid) (inr (refl, refl, λ g hi. f g (omega arith) hi))
    go (some i) e (lo, hi, z, below) =
        rw (e, allocate_tid)
          (inl (
            i,
            refl,
            hi,
            z,
            λ g gi. below g (omega arith) gi,
            ap (λ (t : Task). t.tid_slots) (update_self k.tasks master _),
            λ t ne. update_ne k.tasks master t _ (λ q. ne (sym q)),
          ))

clear_slot_lem :
    (tid i : ℕ) (m : Task) (g : ℕ)
    → tid ≡ m.pid * 10 + i
    → i < max_tids_per_process
    → m.tid_slots i ≡ 0
    → (clear_slot tid (record m { tid_slots = update m.tid_slots i 1 })).tid_slots g ≡ m.tid_slots g
unfolding clear_slot
clear_slot_lem tid i m g e hi z = ground arith

slots-free_tid :
    (master tid i : ℕ) (k : Kernel)
    → tid ≡ (k.tasks master).pid * 10 + i
    → i < max_tids_per_process
    → slots_of master k i ≡ 0
    → slots_of master (
        free_tid master tid
          (put master (record (k.tasks master) { tid_slots = update (slots_of master k) i 1 }) k))
      ≡ slots_of master k
unfolding free_tid
slots-free_tid master tid i k e hi z =
    let m = k.tasks master in
    let m1 = record m { tid_slots = update (slots_of master k) i 1 } in
    let k1 = put master m1 k in
    ap (λ (t : Task). t.tid_slots) (update_self k1.tasks master (clear_slot tid (k1.tasks master)))
    ∙ ap (λ (t : Task). (clear_slot tid t).tid_slots) (update_self k.tasks master m1)
    ∙ fun_ext (λ g. clear_slot_lem tid i m g e hi z)

-- Freeing an identifier that was just allocated gives the slots of the process back.
pub free_tid-allocate_tid :
    (master tid : ℕ) (k : Kernel)
    → (allocate_tid master k).0 ≡ pos tid
    → slots_of master (free_tid master tid (allocate_tid master k).1) ≡ slots_of master k
unfolding allocate_tid
free_tid-allocate_tid master tid k e =
    go (free_slot max_tids_per_process 0 (slots_of master k)) refl
      (free_slot-SlotFound max_tids_per_process 0 max_tids_per_process (slots_of master k) refl)
  where
    go :
        (r : Option ℕ)
        → free_slot max_tids_per_process 0 (slots_of master k) ≡ r
        → SlotFound 0 max_tids_per_process (slots_of master k) r
        → slots_of master (free_tid master tid (allocate_tid master k).1) ≡ slots_of master k
    go none q f = absurd (ground (arith, e, q))
    go (some i) q (lo, hi, z, below) =
        rw (q, allocate_tid) (slots-free_tid master tid i k (ground (arith, e, q)) hi z)
