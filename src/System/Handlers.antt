-- ===== src/System/Handlers.antt =====
-- The two handlers of the library thread that may wake the application thread, branch by branch.
use avdecc_lib.Prelude.{ℕ, ◌+◌, ◌≡◌, ◌≢◌, ◌⊎◌, true, false, ◌++◌, arith}
use avdecc_lib.WaitMgr.{wait_active}
use avdecc_lib.System.{System, fn_timer, fn_netif, tick_timeout}
use avdecc_lib.System.Interface.{Controller, is_pending}

module _ {C F : Type 0} (k : Controller C F) where
  -- A timer event wakes the waiting application with the status TICK_TIMEOUT exactly when it waits, its command or operation was in progress before the tick, and neither is after it; otherwise the semaphore and the wait state are left alone. In both cases what the tick queues goes to the end of the pipe.
  pub fn_timer_lem :
      (now : ℕ) (s : System C F)
      → let id = s.wait_mgr.notify_id in
        let ticked = k.time_tick_event now s.controller in
        let s' = fn_timer k now s in
        (s'.controller ≡ ticked.0)
        × (s'.tx_pipe ≡ s.tx_pipe ++ ticked.1)
        × (s'.app ≡ s.app)
        × (((s.wait_mgr.state ≡ wait_active)
              × (is_pending k id s.controller ≡ true)
              × (is_pending k id ticked.0 ≡ false)
              × (s'.waiting_sem ≡ s.waiting_sem + 1)
              × (s'.wait_mgr ≡ record s.wait_mgr { completion_status = tick_timeout }))
            ⊎ (((s.wait_mgr.state ≢ wait_active)
                  ⊎ ((is_pending k id s.controller ≡ false) ⊎ (is_pending k id ticked.0 ≡ true)))
                × (s'.waiting_sem ≡ s.waiting_sem)
                × (s'.wait_mgr ≡ s.wait_mgr)))
  unfolding fn_timer
  fn_timer_lem now s = ground arith

  -- A received frame wakes the waiting application with the status of the frame exactly when it waits, the frame is reported under its notification id, and neither a command nor an operation with that id is left; otherwise the semaphore and the wait state are left alone.
  pub fn_netif_lem :
      (now : ℕ) (f : F) (s : System C F)
      → let id = s.wait_mgr.notify_id in
        let r = k.rx_packet_event now f s.controller in
        let s' = fn_netif k now f s in
        (s'.controller ≡ r.after)
        × (s'.tx_pipe ≡ s.tx_pipe ++ r.queued)
        × (s'.app ≡ s.app)
        × (((s.wait_mgr.state ≡ wait_active)
              × (r.is_notification_id_valid ≡ true)
              × (r.notification_id ≡ id)
              × (is_pending k id r.after ≡ false)
              × (s'.waiting_sem ≡ s.waiting_sem + 1)
              × (s'.wait_mgr ≡ record s.wait_mgr { completion_status = r.status }))
            ⊎ (((s.wait_mgr.state ≢ wait_active)
                  ⊎ ((r.is_notification_id_valid ≡ false)
                      ⊎ ((r.notification_id ≢ id) ⊎ (is_pending k id r.after ≡ true))))
                × (s'.waiting_sem ≡ s.waiting_sem)
                × (s'.wait_mgr ≡ s.wait_mgr)))
  unfolding fn_netif
  fn_netif_lem now f s = ground arith
