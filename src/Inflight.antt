-- ===== src/Inflight.antt =====
-- controller/lib/src/inflight.h: a command that was sent and waits for its response. `F` is the type
-- of a frame, jdksavdecc_frame; a notification id is a pointer, here its address.
pub mod Keys
pub mod Budget
use avdecc_lib.Prelude.{ℕ, ◌+◌, Bool, leb, ◌==◌, u32}
use avdecc_lib.Timer.{Timer, new_timer, start, timeout}

pub record Inflight (F : Type 0) : Type 0 where
  pub cmd_frame : F
  pub cmd_notification_flag : ℕ
  pub cmd_timer : Timer
  pub cmd_timeout_ms : ℕ
  pub start_timer_cnt : ℕ
  pub cmd_seq_id : ℕ
  pub cmd_notification_id : ℕ

module _ {F : Type 0} where
  abbrev pub inflight : F → ℕ → ℕ → ℕ → ℕ → Inflight F
  inflight frame seq_id notification_id notification_flag timeout_ms = record {
    cmd_frame = frame;
    cmd_notification_flag = notification_flag;
    cmd_timer = new_timer;
    cmd_timeout_ms = timeout_ms;
    start_timer_cnt = 0;
    cmd_seq_id = seq_id;
    cmd_notification_id = notification_id;
  }

  abbrev pub start_timer : ℕ → Inflight F → Inflight F
  start_timer now c = record c {
    start_timer_cnt = u32 (c.start_timer_cnt + 1);
    cmd_timer = start c.cmd_timeout_ms now c.cmd_timer;
  }

  -- The command that the call leaves; the call returns the timer's `elapsed`.
  abbrev pub poll : ℕ → Inflight F → Inflight F
  poll now c = record c { cmd_timer = timeout now c.cmd_timer }

  -- The command can be resent once.
  abbrev pub retried : Inflight F → Bool
  retried c = leb 2 c.start_timer_cnt

  -- The predicates of the two find_if classes.
  abbrev pub seq_id_comp : ℕ → Inflight F → Bool
  seq_id_comp v m = m.cmd_seq_id == v

  abbrev pub notification_comp : ℕ → Inflight F → Bool
  notification_comp v m = m.cmd_notification_id == v
