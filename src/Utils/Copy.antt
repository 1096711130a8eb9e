-- ===== src/Utils/Copy.antt =====
-- `copy_data` copies the bytes asked for and no other.
use soa_fib.Base.{ℕ, zero, suc, ◌+◌, ◌-◌, ◌≡◌, ◌&&◌, ltb, leb, arith, if◌then◌else◌, update, ◌∙◌}
use soa_fib.Utils.{copy_bytes, copy_words, copy_data}

pub copy_bytes_lem :
    (size p : ℕ) (from to : ℕ → ℕ) (j : ℕ)
    → copy_bytes size p from to j ≡ (if leb p j && ltb j (p + size) then from j else to j)
unfolding copy_bytes
copy_bytes_lem zero p from to j = ground arith
copy_bytes_lem (suc size) p from to j =
    ground (arith, copy_bytes_lem size (p + 1) from (update to p (from p)) j)

copy_words_lem :
    (fuel size p : ℕ) (from to : ℕ → ℕ) (j : ℕ)
    → copy_words fuel size p from to j ≡ (if leb p j && ltb j (p + size) then from j else to j)
unfolding copy_words
copy_words_lem zero size p from to j = copy_bytes_lem size p from to j
copy_words_lem (suc fuel) size p from to j = ground (
  arith,
  copy_bytes_lem size p from to j,
  copy_words_lem fuel (size - 4) (p + 4) from
      (update (update (update (update to p (from p)) (p + 1) (from (p + 1))) (p + 2) (from (p + 2)))
        (p + 3) (from (p + 3)))
      j,
)

-- After `copy_data` the first `size` bytes of the destination are the source's and the others are
-- as they were.
pub copy_data_lem :
    (size : ℕ) (from to : ℕ → ℕ) (j : ℕ)
    → copy_data size from to j ≡ (if ltb j size then from j else to j)
unfolding copy_data
copy_data_lem size from to j = copy_words_lem size size 0 from to j ∙ ground arith
