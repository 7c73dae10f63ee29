-- ===== src/Timer.antt =====
-- controller/lib/src/timer.h and timer.cpp, the Linux build. The time stamp `clk_monotonic` is a
-- uint32_t count of milliseconds; its value at a call is the argument `now`.
pub mod Expiry
mod Tests
use avdecc_lib.Prelude.{ℕ, ◌+◌, ◌-◌, Bool, true, false, not, ◌&&◌, ltb, if◌then◌else◌, u32, u32_mod}

pub record Timer : Type 0 where
  pub running : Bool
  pub elapsed : Bool
  pub count : ℕ
  pub start_time : ℕ

-- The constructor.
abbrev pub new_timer : Timer
new_timer = record { running = false; elapsed = false; count = 0; start_time = 0 }

unfoldable pub start : ℕ → ℕ → Timer → Timer
start duration_ms now t = record t {
  running = true;
  elapsed = false;
  count = u32 duration_ms;
  start_time = u32 now;
}

unfoldable pub stop : Timer → Timer
stop t = record t { running = false; elapsed = false }

-- The identity in this build.
abbrev pub clk_convert_to_ms : ℕ → ℕ
clk_convert_to_ms time_stamp = time_stamp

abbrev elapsed_ms : ℕ → Timer → ℕ
elapsed_ms now t = clk_convert_to_ms (u32 (u32 now + u32_mod - t.start_time))

-- The timer that the call leaves; the call returns its `elapsed`.
unfoldable pub timeout : ℕ → Timer → Timer
timeout now t =
    if t.running && not t.elapsed
    then (if ltb t.count (elapsed_ms now t) then record t { elapsed = true } else t)
    else t
