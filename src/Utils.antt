-- ===== src/Utils.antt =====
-- utils.c: the check of user addresses, number formatting, and copies. A buffer is a function from
-- offsets to bytes.
pub mod Digits
pub mod Access
pub mod Copy
use soa_fib.Base.{
  ℕ, zero, suc, ◌+◌, ◌-◌, ◌*◌, ◌/◌, ◌%◌, ◌^◌, Bool, true, false, ◌&&◌, ◌==◌, ltb, leb, List, [],
  ◌∷◌, ◌++◌, if◌then◌else◌, update,
}
use mathlib.Core.List.{reverse}
use soa_fib.Base.Int.{ℤ, pos, negsuc, ltb_ℤ}
use soa_fib.Mm.{total_pages}

abbrev pub user_first_page : ℕ
user_first_page = 256

-- `access_ok`: both cases of its `switch` run the same test. Sums are of `unsigned long`.
unfoldable pub access_ok : ℕ → ℕ → Bool
access_ok addr size =
    let addr_ini = addr / 2 ^ 12 in
    let addr_fin = (addr + size) % 2 ^ 32 / 2 ^ 12 in
    if ltb addr_fin addr_ini
    then false
    else leb user_first_page addr_ini && ltb addr_fin total_pages

-- `utoa` on a buffer. The first loop writes the digits from the lowest on; fuel counts them. It
-- leaves how many there are, and the buffer.
unfoldable pub write_low : ℕ → ℕ → ℕ → (ℕ → ℕ) → ℕ × (ℕ → ℕ)
write_low zero a i b = (i, b)
write_low (suc fuel) a i b =
    let rest = write_low fuel (a / 10) (i + 1) (update b i (a % 10 + 48)) in
    if ltb 0 a then rest else (i, b)

-- The second loop exchanges b[i1] and b[i - i1 - 1] for i1 < i / 2.
unfoldable pub swap_ends : ℕ → ℕ → ℕ → (ℕ → ℕ) → ℕ → ℕ
swap_ends zero i1 i b = b
swap_ends (suc n) i1 i b =
    swap_ends n (i1 + 1) i (update (update b i1 (b (i - i1 - 1))) (i - i1 - 1) (b i1))

-- An `unsigned int` has at most ten digits.
unfoldable pub utoa : ℕ → (ℕ → ℕ) → ℕ → ℕ
utoa a b =
    if a == 0
    then update (update b 0 48) 1 0
    else (let (i, b1) = write_low 10 a 0 b in update (swap_ends (i / 2) 0 i b1) i 0)

-- `hex_chars[d]`
unfoldable pub hex_char : ℕ → ℕ
hex_char d = if ltb d 10 then d + 48 else d + 55

-- the loop of `itoa_hex`: positions i + 1 down to 2
unfoldable pub write_hex : ℕ → ℕ → (ℕ → ℕ) → ℕ → ℕ
unfolding hex_char
write_hex zero num b = b
write_hex (suc i) num b = write_hex i (num / 16) (update b (i + 2) (hex_char (num % 16)))

unfoldable pub itoa_hex : ℕ → (ℕ → ℕ) → ℕ → ℕ
unfolding write_hex
itoa_hex num b = update (write_hex 8 num (update (update b 0 48) 1 120)) 10 0

-- `copy_data` from one buffer to another, in words while more than four bytes are left, and then
-- in bytes: fuel counts the rounds of both loops. `p` and `q` are offsets.
unfoldable pub copy_bytes : ℕ → ℕ → (ℕ → ℕ) → (ℕ → ℕ) → ℕ → ℕ
copy_bytes zero p from to = to
copy_bytes (suc size) p from to = copy_bytes size (p + 1) from (update to p (from p))

unfoldable pub copy_words : ℕ → ℕ → ℕ → (ℕ → ℕ) → (ℕ → ℕ) → ℕ → ℕ
unfolding copy_bytes
copy_words zero size p from to = copy_bytes size p from to
copy_words (suc fuel) size p from to =
    let rest = copy_words fuel (size - 4) (p + 4) from (
      update (update (update (update to p (from p)) (p + 1) (from (p + 1))) (p + 2) (from (p + 2)))
        (p + 3) (from (p + 3))) in
    if ltb 4 size then rest else copy_bytes size p from to

unfoldable pub copy_data : ℕ → (ℕ → ℕ) → (ℕ → ℕ) → ℕ → ℕ
unfolding copy_words
copy_data size from to = copy_words size size 0 from to
