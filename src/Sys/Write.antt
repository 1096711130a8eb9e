-- ===== src/Sys/Write.antt =====
-- sys.c, devices.c and screen.c: `sys_write`. The bytes of the caller's address space are a function
-- of their addresses. A device is what has been handed to it: characters to `printc`, bytes to the
-- debug port, and the bytes of the video memory, before `draw_time_and_fps` draws over them. `frame_count`
-- is taken to stay below 2^31.
pub mod Written
pub mod Outcome
use soa_fib.Base.{
  ℕ, zero, suc, ◌+◌, ◌-◌, ◌*◌, ◌/◌, ◌%◌, Bool, true, false, not, ◌&&◌, ◌==◌, ltb, leb,
  if◌then◌else◌, List, [], ◌∷◌, ◌++◌,
}
use soa_fib.Base.Int.{ℤ, pos, eqb_ℤ, ltb_ℤ, pos_part}
use soa_fib.Kernel.{Kernel, einval, efault, einprogress}
use soa_fib.Stack.{check_fd, in_keyboard_context, fd_screen, fd_debug, o_wronly}
use soa_fib.Utils.{access_ok, copy_bytes, copy_data}

pub record Devices : Type 0 where
  pub console : List ℕ
  pub debug : List ℕ
  pub screen : ℕ → ℕ
  pub frame_count : ℕ
  pub buffer_k : ℕ → ℕ

abbrev pub sys_buffer_size : ℕ
sys_buffer_size = 256

abbrev pub screen_buffer_size : ℕ
screen_buffer_size = 4000

-- the bytes of a buffer from offset i on
unfoldable pub bytes_from : ℕ → ℕ → (ℕ → ℕ) → List ℕ
bytes_from zero i b = []
bytes_from (suc n) i b = b i ∷ bytes_from n (i + 1) b

-- the devices that a character can be written to, by their function in devices.c
pub data Device : Type 0 where
  to_console to_debug : Device

-- `sys_write_console` and `sys_write_debug`: the loops hand over the bytes one by one
unfoldable pub write_device : Device → (ℕ → ℕ) → ℕ → Devices → Devices
write_device to_console b size d = record d { console = d.console ++ bytes_from size 0 b }
write_device to_debug b size d = record d { debug = d.debug ++ bytes_from size 0 b }

-- `rep movsl` moves four bytes at a time, and the loop behind it the rest.
unfoldable pub sys_write_screen : (ℕ → ℕ) → ℕ → Devices → ℕ × Devices
sys_write_screen b size d =
    let n = if ltb screen_buffer_size size then screen_buffer_size else size in
    let moved = copy_bytes (n / 4 * 4) 0 b d.screen in
    (
      n,
      record d { screen = copy_bytes (n % 4) (n / 4 * 4) b moved; frame_count = d.frame_count + 1 },
    )

-- a chunk of the caller's buffer, through `buffer_k`
unfoldable pub write_chunk : Device → (ℕ → ℕ) → ℕ → ℕ → Devices → Devices
write_chunk to user buffer size d =
    let d1 = record d { buffer_k = copy_data size (λ i. user (buffer + i)) d.buffer_k } in
    write_device to d1.buffer_k size d1

-- the loop over whole chunks and the last one, with what is left; fuel counts the rounds
unfoldable pub write_chunks : ℕ → Device → (ℕ → ℕ) → ℕ → ℕ → Devices → ℕ × Devices
write_chunks zero to user buffer left d = (left, d)
write_chunks (suc fuel) to user buffer left d =
    let rest =
      write_chunks fuel to user (buffer + sys_buffer_size) (left - sys_buffer_size)
        (write_chunk to user buffer sys_buffer_size d) in
    if ltb sys_buffer_size left
    then rest
    else if ltb 0 left
    then (0, write_chunk to user buffer left d)
    else (left, d)

-- A chunk is at least a byte, and a last round finds the rest.
unfoldable pub write_all : Device → (ℕ → ℕ) → ℕ → ℕ → Devices → ℤ × Devices
write_all to user buffer size d =
    let (left, d1) = write_chunks (size + 1) to user buffer size d in (pos (size - left), d1)

unfoldable pub sys_write : ℤ → ℕ → ℤ → (ℕ → ℕ) → Kernel → Devices → ℤ × Devices
sys_write fd buffer size user k d =
    let ret = check_fd fd o_wronly in
    let n = pos_part size in
    let (shown, d1) = sys_write_screen (λ i. user (buffer + i)) n d in
    if ltb_ℤ size (pos 0)
    then (einval, d)
    else if not (eqb_ℤ ret (pos 0))
    then (ret, d)
    else if not (access_ok buffer n)
    then (efault, d)
    else if in_keyboard_context k
    then (einprogress, d)
    else if eqb_ℤ fd fd_screen
    then (pos shown, d1)
    else if eqb_ℤ fd fd_debug
    then write_all to_debug user buffer n d
    else write_all to_console user buffer n d
