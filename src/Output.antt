-- ===== src/Output.antt =====
-- What a state machine does to the rest of the library: frames handed to
-- net_interface_imp::send_frame, messages handed to notification::post_notification_msg, and log
-- lines handed to log::post_log_msg, of which the level is kept. A trace has the newest first.
use avdecc_lib.Prelude.{ℕ, List, [], ◌∷◌}

-- enum notifications of controller/lib/include/enumeration.h.
pub data NotificationType : Type 0 where
  no_match_found end_station_connected end_station_disconnected : NotificationType
  command_timeout response_received end_station_read_completed : NotificationType

pub record Notification : Type 0 where
  pub notification_type : NotificationType
  pub entity_id : ℕ
  pub cmd_type : ℕ
  pub desc_type : ℕ
  pub desc_index : ℕ
  pub cmd_status : ℕ
  pub notification_id : ℕ

-- enum logging_levels.
pub data LogLevel : Type 0 where
  error warning notice info debug verbose : LogLevel

pub data Output (F : Type 0) : Type 0 where
  send_frame : F → Output F
  post_notification_msg : Notification → Output F
  post_log_msg : LogLevel → Output F

-- enum aem_cmd_waiting and enum flags.
abbrev pub cmd_without_notification : ℕ
cmd_without_notification = 0

abbrev pub cmd_with_notification : ℕ
cmd_with_notification = 1

abbrev pub cmd_lookup : ℕ
cmd_lookup = 1024

-- The frames of a trace.
abbrev pub sent_frames : {F : Type 0} → List (Output F) → List F
sent_frames [] = []
sent_frames (send_frame f ∷ es) = f ∷ sent_frames es
sent_frames (_ ∷ es) = sent_frames es

-- The messages of a trace.
abbrev pub posted : {F : Type 0} → List (Output F) → List Notification
posted [] = []
posted (post_notification_msg n ∷ es) = n ∷ posted es
posted (_ ∷ es) = posted es
