-- ===== src/Sys/Write/Outcome.antt =====
-- What `sys_write` comes to, on every branch.
use soa_fib.Base.{ℕ, ◌+◌, ◌≡◌, true, false, ltb, if◌then◌else◌, ◌⊎◌}
use soa_fib.Base.Int.{ℤ, pos, eqb_ℤ, ltb_ℤ, pos_part}
use soa_fib.Kernel.{Kernel, einval, efault, einprogress, ebadf}
use soa_fib.Stack.{in_keyboard_context, fd_screen, fd_debug, fd_console}
use soa_fib.Utils.{access_ok}
use soa_fib.Sys.Write.{Devices, to_console, to_debug}
use soa_fib.Sys.Write.Written.{Written}

-- the bytes that fit on the screen
fitting : ℕ → ℕ
fitting n = if ltb 4000 n then 4000 else n

-- the result of a call that has replaced the first bytes of the screen
pub Shown : (ℕ → ℕ) → ℕ → ℕ → Devices → ℤ × Devices → Type 0
Shown user buffer n d (r, e) =
    (r ≡ pos (fitting n))
    × ((j : ℕ) → e.screen j ≡ (if ltb j (fitting n) then user (buffer + j) else d.screen j))
    × (e.console ≡ d.console)
    × (e.debug ≡ d.debug)

-- the reason for an error code
pub data Refused (fd : ℤ) (buffer : ℕ) (size : ℤ) (k : Kernel) : ℤ → Type 0 where
  negative_size : ltb_ℤ size (pos 0) ≡ true → Refused fd buffer size k einval
  no_device :
      eqb_ℤ fd fd_console ≡ false
      → eqb_ℤ fd fd_debug ≡ false
      → eqb_ℤ fd fd_screen ≡ false
      → Refused fd buffer size k ebadf
  not_readable : access_ok buffer (pos_part size) ≡ false → Refused fd buffer size k efault
  in_handler : in_keyboard_context k ≡ true → Refused fd buffer size k einprogress

-- what a call must meet to write anything
pub record Accepted (buffer : ℕ) (size : ℤ) (k : Kernel) : Type 0 where
  pub sized : ltb_ℤ size (pos 0) ≡ false
  pub readable : access_ok buffer (pos_part size) ≡ true
  pub outside : in_keyboard_context k ≡ false

pub data WriteOutcome (fd : ℤ) (buffer : ℕ) (size : ℤ) (user : ℕ → ℕ) (k : Kernel) (d : Devices)
    : ℤ × Devices → Type 0 where
  refused : {r : ℤ} → Refused fd buffer size k r → WriteOutcome fd buffer size user k d (r, d)
  shown :
      {x : ℤ × Devices}
      → Accepted buffer size k
      → eqb_ℤ fd fd_screen ≡ true
      → Shown user buffer (pos_part size) d x
      → WriteOutcome fd buffer size user k d x
  debugged :
      {x : ℤ × Devices}
      → Accepted buffer size k
      → eqb_ℤ fd fd_debug ≡ true
      → Written to_debug user buffer (pos_part size) d x
      → WriteOutcome fd buffer size user k d x
  printed :
      {x : ℤ × Devices}
      → Accepted buffer size k
      → eqb_ℤ fd fd_console ≡ true
      → Written to_console user buffer (pos_part size) d x
      → WriteOutcome fd buffer size user k d x

-- `check_fd` lets the three devices through and no other number.
Checked : ℤ → ℤ → Type 0
Checked fd r =
    ((r ≡ pos 0)
      × (eqb_ℤ fd fd_screen ≡ false → eqb_ℤ fd fd_debug ≡ false → eqb_ℤ fd fd_console ≡ true))
    ⊎ ((r ≡ ebadf)
        × (eqb_ℤ fd fd_console ≡ false)
        × (eqb_ℤ fd fd_debug ≡ false)
        × (eqb_ℤ fd fd_screen ≡ false))
