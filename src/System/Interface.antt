-- ===== src/System/Interface.antt =====
-- What the system asks of the controller (controller/lib/src/controller_imp.{h,cpp}).
use avdecc_lib.Prelude.{ℕ, ◌||◌, Bool, List}

-- tx_data: what queue_tx_frame writes to the pipe.
pub record TxData (F : Type 0) : Type 0 where
  pub frame : F
  pub notification_id : ℕ
  pub notification_flag : ℕ

-- The out-parameters of rx_packet_event, the state behind it and what it has queued meanwhile.
pub record Received (C F : Type 0) : Type 0 where
  pub after : C
  pub queued : List (TxData F)
  pub notification_id : ℕ
  pub is_notification_id_valid : Bool
  pub status : ℕ

pub record Controller (C F : Type 0) : Type 0 where
  pub rx_packet_event : ℕ → F → C → Received C F
  pub tx_packet_event : ℕ → TxData F → C → C
  pub time_tick_event : ℕ → C → C × List (TxData F)
  pub is_inflight_cmd_with_notification_id : ℕ → C → Bool
  pub is_active_operation_with_notification_id : ℕ → C → Bool

-- The command or operation with the id is not over.
abbrev pub is_pending : {C F : Type 0} → Controller C F → ℕ → C → Bool
is_pending k id c =
    k.is_inflight_cmd_with_notification_id id c || k.is_active_operation_with_notification_id id c
