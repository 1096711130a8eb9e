-- ===== src/Mm/Frames.antt =====
-- The frame allocator: what `alloc_frame` gives, and what `free_frame` gives back.
use soa_fib.Base.{
  ℕ, zero, suc, ◌+◌, ◌*◌, ◌%◌, ◌≤◌, ◌<◌, ◌≡◌, ◌≢◌, refl, ◌⊎◌, inl, inr, false, ◌==◌, ltb, leb, ◌&&◌,
  arith, update, if◌then◌else◌, Bool-cases,
}
use mathlib.Core.Path.{fun_ext}
use soa_fib.Base.Int.{ℤ, pos, neg}
use soa_fib.Mm.{
  total_pages, num_pag_kernel, free_mark, used_mark, mark_frames, init_frames, alloc_from,
  alloc_frame, free_frame,
}

-- what a search that starts at frame `i` finds
abbrev pub Found : ℕ → (ℕ → ℕ) → ℤ × (ℕ → ℕ) → Type 0
Found i mem (r, mem') =
    ((f : ℕ) × (r ≡ pos f)
      × (i ≤ f)
      × (f < total_pages)
      × (f % 2 ≡ i % 2)
      × (mem f ≡ free_mark)
      × (mem' ≡ update mem f used_mark)
      × ((g : ℕ) → i ≤ g → g < f → g % 2 ≡ i % 2 → mem g ≢ free_mark))
    ⊎ ((r ≡ neg 1)
        × (mem' ≡ mem)
        × ((g : ℕ) → i ≤ g → g < total_pages → g % 2 ≡ i % 2 → mem g ≢ free_mark))

alloc_from-Found :
    (fuel i : ℕ) (mem : ℕ → ℕ) → total_pages < i + 2 * fuel → Found i mem (alloc_from fuel i mem)
unfolding alloc_from
alloc_from-Found zero i mem h = inr (refl, refl, λ g lo hi e z. omega arith)
alloc_from-Found (suc fuel) i mem h = elim (Bool-cases (ltb i total_pages)) [
  | inr out ↦ rw out (inr (refl, refl, λ g lo hi e z. ground arith))
  | inl in_range ↦ elim (Bool-cases (mem i == free_mark)) [
    | inl hit ↦
        rw (in_range, hit)
          (inl (
            i,
            refl,
            omega arith,
            ground arith,
            refl,
            ground arith,
            refl,
            λ g lo hi e z. omega arith,
          ))
    | inr miss ↦ rw (in_range, miss) (step (alloc_from-Found fuel (i + 2) mem (omega arith)) miss)
  ]
]
  where
    step :
        Found (i + 2) mem (alloc_from fuel (i + 2) mem)
        → (mem i == free_mark) ≡ false
        → Found i mem (alloc_from fuel (i + 2) mem)
    step (inl (f, r, lo, hi, e, fr, m, below)) miss =
        inl (f, r, omega arith, hi, omega arith, fr, m, λ g glo ghi ge z. ground (arith, below g))
    step (inr (r, m, below)) miss = inr (r, m, λ g glo ghi ge z. ground (arith, below g))

-- `alloc_frame` gives the lowest free frame of even number behind the kernel's and marks only it;
-- it fails with -1, and changes nothing, exactly when there is none.
pub alloc_frame-Found : (mem : ℕ → ℕ) → Found num_pag_kernel mem (alloc_frame mem)
unfolding alloc_frame
alloc_frame-Found mem = alloc_from-Found 385 num_pag_kernel mem (omega arith)

free_frame_lem :
    (mem : ℕ → ℕ) (f g x : ℕ)
    → f ≡ g
    → num_pag_kernel ≤ g
    → g < total_pages
    → mem g ≡ free_mark
    → free_frame f (update mem g used_mark) x
      ≡ (if f == num_pag_kernel then update mem f used_mark else mem) x
unfolding free_frame
free_frame_lem mem f g x fg lo hi fr = ground arith

-- Freeing the frame just allocated gives the byte map back, except for frame 256: the guard of
-- `free_frame` leaves it out, and it stays used.
pub free_frame-alloc_frame :
    (mem : ℕ → ℕ) (f : ℕ)
    → (alloc_frame mem).0 ≡ pos f
    → free_frame f (alloc_frame mem).1
      ≡ (if f == num_pag_kernel then update mem f used_mark else mem)
free_frame-alloc_frame mem f e = go (alloc_frame-Found mem)
  where
    go :
        Found num_pag_kernel mem (alloc_frame mem)
        → free_frame f (alloc_frame mem).1
          ≡ (if f == num_pag_kernel then update mem f used_mark else mem)
    go (inr (r, m, below)) = absurd (ground (arith, r, e))
    go (inl (g, r, lo, hi, par, fr, m, below)) =
        rw m (fun_ext λ x. free_frame_lem mem f g x (ground (arith, r, e)) lo hi fr)

mark_frames_lem :
    (n from mark : ℕ) (mem : ℕ → ℕ) (g : ℕ)
    → mark_frames n from mark mem g ≡ (if leb from g && ltb g (from + n) then mark else mem g)
unfolding mark_frames
mark_frames_lem zero from mark mem g = ground arith
mark_frames_lem (suc n) from mark mem g =
    ground (arith, mark_frames_lem n (from + 1) mark (update mem from mark) g)

-- After `init_frames` the kernel's frames are used and every other frame is free.
pub init_frames_lem :
    (mem : ℕ → ℕ) (g : ℕ)
    → init_frames mem g
      ≡ (if ltb g num_pag_kernel then used_mark else if ltb g total_pages then free_mark else mem g)
unfolding init_frames
init_frames_lem mem g =
    rw
      (
        mark_frames_lem num_pag_kernel 0 used_mark (mark_frames total_pages 0 free_mark mem) g,
        mark_frames_lem total_pages 0 free_mark mem g,
      )
      (ground arith)
