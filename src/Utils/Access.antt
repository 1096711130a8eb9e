-- ===== src/Utils/Access.antt =====
-- Which addresses `access_ok` lets through.
use soa_fib.Base.{ℕ, ◌+◌, ◌<◌, ◌≡◌, ◌&&◌, ltb, leb, arith}
use soa_fib.Utils.{access_ok}

-- `access_ok` holds exactly when the range starts at the user's first byte, 1 MB, or above and its
-- end stays below 4 MB, a sum that wraps around included. So for an address of 32 bits and a size
-- that is an `int` not below 0.
pub access_ok-range :
    (addr size : ℕ)
    → addr < 4294967296
    → size < 2147483648
    → access_ok addr size ≡ (leb 1048576 addr && ltb (addr + size) 4194304)
unfolding access_ok
access_ok-range addr size a b = ground arith
