-- ===== src/Tests/Devices.antt =====
-- `sys_write` at a concrete call.
use soa_fib.Base.{ℕ, ◌==◌, if◌then◌else◌, []}
use soa_fib.Sys.Write.{Devices}

-- nothing written yet, and a caller whose buffer has "OK" at 0x110000
abbrev idle_devices : Devices
idle_devices = record {
  console = [];
  debug = [];
  screen = λ i. 0;
  frame_count = 0;
  buffer_k = λ i. 0;
}

abbrev greeting : ℕ → ℕ
greeting i = if i == 1114112 then 79 else 75
