-- ===== src/Timer/Expiry.antt =====
-- controller/lib/src/timer.cpp: when a started timer reports that it has run out.
use avdecc_lib.Prelude.{ℕ, ◌+◌, ◌<◌, ◌≡◌, refl, ◌↔◌, true, false, arith, u32_mod}
use avdecc_lib.Timer.{Timer, start, stop, timeout}

-- The state of a timer that was started for `d` ms at `t0` and has not fired.
pub record Runs (d t0 : ℕ) (t : Timer) : Type 0 where
  pub is_running : t.running ≡ true
  pub not_elapsed : t.elapsed ≡ false
  pub counts : t.count ≡ d
  pub since : t.start_time ≡ t0

pub start-Runs : (d t0 : ℕ) (t : Timer) → d < u32_mod → t0 < u32_mod → Runs d t0 (start d t0 t)
unfolding start
start-Runs d t0 t hd ht = ground arith

-- A timer started for d milliseconds at t0 and polled at a later reading of the 32-bit clock, less than one turn of it later, reports that it has run out exactly when more than d milliseconds have passed; the clock may have wrapped in between.
pub timeout-start :
    (d t0 after : ℕ) (t : Timer)
    → d < u32_mod
    → after < u32_mod
    → ((timeout (t0 + after) (start d t0 t)).elapsed ≡ true) ↔ (d < after)
unfolding timeout start
timeout-start d t0 after t hd ha = ground arith

pub timeout-Runs_late :
    (d t0 now : ℕ) (t : Timer)
    → Runs d t0 t
    → now < u32_mod
    → t0 + d < now
    → (timeout now t).elapsed ≡ true
unfolding timeout
timeout-Runs_late d t0 now t r hn h = ground arith

pub timeout-elapsed : (now : ℕ) (t : Timer) → t.elapsed ≡ true → timeout now t ≡ t
unfolding timeout
timeout-elapsed now t h = ground arith

-- Polling changes only the flag `elapsed`; once the flag is set it stays set at every later poll, until the timer is started or stopped again.
pub timeout_sticky :
    (now later : ℕ) (t : Timer)
    → (timeout now t).elapsed ≡ true
    → timeout later (timeout now t) ≡ timeout now t
unfolding timeout
timeout_sticky now later t h = ground arith

-- A stopped timer never fires.
pub timeout-stop : (now : ℕ) (t : Timer) → timeout now (stop t) ≡ stop t
unfolding timeout stop
timeout-stop now t = refl
