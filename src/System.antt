-- ===== src/System.antt =====
-- controller/lib/src/linux/system_layer2_multithreaded_callback.cpp: one application thread that
-- queues commands and may wait for one, and the library thread that runs the handlers. An
-- event is a part of a thread that is taken as one step; a handler is one step as well, although the
-- application thread could come in between its reads of the wait state.
pub mod Interface
pub mod Handlers
mod Tests
use avdecc_lib.Prelude.{
  ℕ, zero, suc, ◌+◌, Bool, true, false, not, ◌&&◌, ◌||◌, Option, none, some, List, [], ◌∷◌, ◌++◌,
  if◌then◌else◌, ◌==◌, uint_max,
}
use avdecc_lib.Output.{cmd_with_notification}
use avdecc_lib.WaitMgr.{
  WaitMgr, WaitState, wait_idle, wait_primed, wait_active, set_primed_state, set_active_state,
  set_idle_state, match_id, active_state, primed_state, set_completion_status,
  get_completion_status, get_notify_id,
}
use Interface.{TxData, Received, Controller}

-- Where the application thread stands: outside `queue_tx_frame`, behind its write to the pipe and
-- before its test of the wait state, or in `sem_wait`.
pub data AppThread : Type 0 where
  outside : AppThread
  written : ℕ → ℕ → AppThread
  waiting : AppThread

pub record System (C F : Type 0) : Type 0 where
  pub controller : C
  pub wait_mgr : WaitMgr
  pub tx_pipe : List (TxData F)
  pub waiting_sem : ℕ
  pub resp_status_for_cmd : ℕ
  pub app : AppThread

-- AVDECC_LIB_STATUS_TICK_TIMEOUT.
abbrev pub tick_timeout : ℕ
tick_timeout = 1024

pub data Event (F : Type 0) : Type 0 where
  sets_wait : ℕ → Event F
  writes : TxData F → Event F
  checks : Event F
  wakes : Event F
  timer : Event F
  tx : Event F
  netif : F → Event F

module _ {C F : Type 0} (ctrl : Controller C F) where
  abbrev pub in_progress : ℕ → C → Bool
  in_progress id c =
      ctrl.is_inflight_cmd_with_notification_id id c
      || ctrl.is_active_operation_with_notification_id id c

  -- A status is set and the semaphore is posted; setting it would fail outside the active state.
  abbrev complete : ℕ → System C F → System C F
  complete status s = record s {
    wait_mgr = (set_completion_status status s.wait_mgr).0;
    waiting_sem = s.waiting_sem + 1;
  }

  unfoldable pub fn_timer : ℕ → System C F → System C F
  fn_timer now s =
      let id = get_notify_id s.wait_mgr in
      let notification_id_incomplete = active_state s.wait_mgr && in_progress id s.controller in
      let (c, queued) = ctrl.time_tick_event now s.controller in
      let t = record s { controller = c; tx_pipe = s.tx_pipe ++ queued } in
      if active_state s.wait_mgr
        && notification_id_incomplete
        && not (ctrl.is_inflight_cmd_with_notification_id id c)
        && not (ctrl.is_active_operation_with_notification_id id c)
      then complete tick_timeout t
      else t

  fn_tx_from : List (TxData F) → ℕ → System C F → System C F
  fn_tx_from [] now s = s
  fn_tx_from (t ∷ rest) now s = record s {
    controller = ctrl.tx_packet_event now t s.controller;
    tx_pipe = rest;
  }

  unfoldable pub fn_tx : ℕ → System C F → System C F
  unfolding fn_tx_from
  fn_tx now s = fn_tx_from s.tx_pipe now s

  -- `rx_status` is -1 and the notification id NULL before the call.
  unfoldable pub fn_netif : ℕ → F → System C F → System C F
  fn_netif now rx_frame s =
      let r = ctrl.rx_packet_event now rx_frame s.controller in
      let t = record s { controller = r.after; tx_pipe = s.tx_pipe ++ r.queued } in
      let id = get_notify_id s.wait_mgr in
      if active_state s.wait_mgr
        && r.is_notification_id_valid
        && match_id r.notification_id s.wait_mgr
        && not (ctrl.is_inflight_cmd_with_notification_id id r.after)
        && not (ctrl.is_active_operation_with_notification_id id r.after)
      then complete r.status t
      else t

  unfoldable pub set_wait_for_next_cmd : ℕ → System C F → System C F
  set_wait_for_next_cmd id s = record s { wait_mgr = (set_primed_state id s.wait_mgr).0 }

  -- `queue_tx_frame` up to and with its write to the pipe.
  unfoldable pub queue_tx_write : TxData F → System C F → System C F
  queue_tx_write t s = record s {
    tx_pipe = s.tx_pipe ++ t ∷ [];
    app = written t.notification_id t.notification_flag;
  }

  -- Its test of the wait state; the first component of set_active_state's result is kept, the
  -- second is asserted.
  unfoldable pub queue_tx_check : ℕ → ℕ → System C F → System C F
  queue_tx_check notification_id notification_flag s =
      if primed_state s.wait_mgr
        && match_id notification_id s.wait_mgr
        && (notification_flag == cmd_with_notification)
      then record s { wait_mgr = (set_active_state s.wait_mgr).0; app = waiting }
      else record s { app = outside }

  -- What follows sem_wait, where the semaphore's value has been taken down to `left`.
  unfoldable pub queue_tx_wake : ℕ → System C F → System C F
  queue_tx_wake left s = record s {
    waiting_sem = left;
    resp_status_for_cmd = get_completion_status s.wait_mgr;
    wait_mgr = (set_idle_state s.wait_mgr).0;
    app = outside;
  }

  app_step : AppThread → ℕ → Event F → System C F → Option (System C F)
  app_step outside sem (sets_wait id) s = some (set_wait_for_next_cmd id s)
  app_step outside sem (writes t) s = some (queue_tx_write t s)
  app_step (written id flag) sem checks s = some (queue_tx_check id flag s)
  app_step waiting (suc left) wakes s = some (queue_tx_wake left s)
  app_step _ _ _ s = none

  -- The state after an event, or none where the thread that it belongs to cannot make it. The
  -- library thread is always ready; a handler that reads the clock reads `now`.
  unfoldable pub step : ℕ → Event F → System C F → Option (System C F)
  unfolding app_step
  step now timer s = some (fn_timer now s)
  step now tx s = some (fn_tx now s)
  step now (netif f) s = some (fn_netif now f s)
  step now e s = app_step s.app s.waiting_sem e s
