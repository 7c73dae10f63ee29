-- ===== src/WaitMgr.antt =====
-- controller/lib/src/cmd_wait_mgr.{h,cpp}: what the application thread tells the library thread
-- about the command that it waits for. A method that returns 0 or -1 gives true or false here; a
-- status is the bit pattern of an int.
use avdecc_lib.Prelude.{ℕ, Bool, true, false, ◌==◌}

pub data WaitState : Type 0 where
  wait_idle wait_primed wait_active : WaitState

pub record WaitMgr : Type 0 where
  pub notify_id : ℕ
  pub completion_status : ℕ
  pub state : WaitState

-- The constructor sets the state alone; the numbers are what the memory holds.
abbrev pub new_wait_mgr : ℕ → ℕ → WaitMgr
new_wait_mgr id status = record { notify_id = id; completion_status = status; state = wait_idle }

abbrev is_idle : WaitState → Bool
is_idle wait_idle = true
is_idle _ = false

abbrev is_primed : WaitState → Bool
is_primed wait_primed = true
is_primed _ = false

abbrev is_active : WaitState → Bool
is_active wait_active = true
is_active _ = false

abbrev pub set_primed_state : ℕ → WaitMgr → WaitMgr × Bool
set_primed_state id w = elim (is_idle w.state) [
  | true ↦ (record w { notify_id = id; state = wait_primed }, true)
  | false ↦ (w, false)
]

abbrev pub set_active_state : WaitMgr → WaitMgr × Bool
set_active_state w = elim (is_primed w.state) [
  | true ↦ (record w { state = wait_active }, true)
  | false ↦ (w, false)
]

abbrev pub set_idle_state : WaitMgr → WaitMgr × Bool
set_idle_state w = elim (is_active w.state) [
  | true ↦ (record w { state = wait_idle }, true)
  | false ↦ (w, false)
]

abbrev pub match_id : ℕ → WaitMgr → Bool
match_id id w = id == w.notify_id

abbrev pub active_state : WaitMgr → Bool
active_state w = is_active w.state

abbrev pub primed_state : WaitMgr → Bool
primed_state w = is_primed w.state

abbrev pub set_completion_status : ℕ → WaitMgr → WaitMgr × Bool
set_completion_status status w = elim (is_active w.state) [
  | true ↦ (record w { completion_status = status }, true)
  | false ↦ (w, false)
]

abbrev pub get_completion_status : WaitMgr → ℕ
get_completion_status w = w.completion_status

abbrev pub get_notify_id : WaitMgr → ℕ
get_notify_id w = w.notify_id
