-- ===== src/System/Tests.antt =====
-- A controller that knows one command, number 7; a frame 7 is the response to it.
use avdecc_lib.Prelude.{
  ℕ, ◌≡◌, refl, Bool, true, false, ◌&&◌, Option, none, some, List, [], ◌∷◌, if◌then◌else◌, ◌==◌,
}
use avdecc_lib.WaitMgr.{new_wait_mgr, wait_primed, wait_active}
use avdecc_lib.System.{
  System, outside, written, waiting, Event, sets_wait, writes, checks, wakes, tx, netif, step,
  fn_tx, fn_netif, fn_timer, set_wait_for_next_cmd, queue_tx_write, queue_tx_check, queue_tx_wake,
}
use avdecc_lib.System.Interface.{TxData, Controller}
use avdecc_lib.System.Handlers.{fn_timer_lem, fn_netif_lem}

abbrev one_command : Controller Bool ℕ
one_command = record {
  rx_packet_event = λ now f c. record {
    after = if f == 7 then false else c;
    queued = [];
    notification_id = if f == 7 then (if c then 7 else 0) else 0;
    is_notification_id_valid = f == 7;
    status = 0;
  };
  tx_packet_event = λ now t c. if t.notification_id == 7 then true else c;
  time_tick_event = λ now c. (c, []);
  is_inflight_cmd_with_notification_id = λ id c. (id == 7) && c;
  is_active_operation_with_notification_id = λ id c. false;
}

abbrev command : TxData ℕ
command = record { frame = 1; notification_id = 7; notification_flag = 1 }

abbrev start_state : System Bool ℕ
start_state = record {
  controller = false;
  wait_mgr = new_wait_mgr 0 0;
  tx_pipe = [];
  waiting_sem = 0;
  resp_status_for_cmd = 5;
  app = outside;
}

abbrev run : List (Event ℕ) → System Bool ℕ → Option (System Bool ℕ)
run [] s = some s
run (e ∷ es) s = elim (step one_command 0 e s) [ none ↦ none | some t ↦ run es t ]

-- The application tests the wait state in time and gets the status of the response.
in_time :
    run (sets_wait 7 ∷ writes command ∷ checks ∷ tx ∷ netif 7 ∷ wakes ∷ []) start_state
    ≡ some (record start_state { wait_mgr = new_wait_mgr 7 0; resp_status_for_cmd = 0 })
unfolding step fn_tx fn_netif set_wait_for_next_cmd queue_tx_write queue_tx_check queue_tx_wake
in_time = refl

-- The response overtakes the test: the state before it.
abbrev overtaken : System Bool ℕ
overtaken = record start_state {
  wait_mgr = record (new_wait_mgr 7 0) { state = wait_primed };
  app = written 7 1;
}

overtaken_reached :
    run (sets_wait 7 ∷ writes command ∷ tx ∷ netif 7 ∷ []) start_state ≡ some overtaken
unfolding step fn_tx fn_netif set_wait_for_next_cmd queue_tx_write
overtaken_reached = refl

abbrev stuck : System Bool ℕ
stuck = record overtaken {
  wait_mgr = record (new_wait_mgr 7 0) { state = wait_active };
  app = waiting;
}

abbrev awaiting : System Bool ℕ
awaiting = record stuck { controller = true }

fn_timer_lem_example : (fn_timer one_command 0 awaiting).app ≡ waiting
fn_timer_lem_example = (fn_timer_lem one_command 0 awaiting).2

fn_netif_lem_example : (fn_netif one_command 0 7 awaiting).app ≡ waiting
fn_netif_lem_example = (fn_netif_lem one_command 0 7 awaiting).2
