-- ===== src/Controller/Interface.antt =====
-- What the controller reads of a frame, which is the library jdksavdecc-c's, and what an end station
-- does with a response of its own.
use avdecc_lib.Prelude.{ℕ, Bool, Option}
use avdecc_lib.Util.{Octets}
use avdecc_lib.Aecp.Machine.{Aecp}
use avdecc_lib.Acmp.Machine.{Acmp}
use avdecc_lib.EndStation.Read.{EndStation}
use avdecc_lib.Controller.State.{AdpInfo}

pub data Subtype : Type 0 where
  adp_subtype aecp_subtype acmp_subtype other_subtype : Subtype

pub record Packet (F : Type 0) : Type 0 where
  pub dest_address : F → Octets
  pub mac_addr : ℕ
  pub subtype : F → Subtype
  -- jdksavdecc_adpdu_read: whether the entity asks not to be enumerated, whether the message is
  -- ENTITY_DISCOVER, and what the adp object keeps. adp::proc_adpdu keeps it if it can be read.
  pub is_ignored : F → Bool
  pub is_entity_discover : F → Bool
  pub adpdu : F → AdpInfo
  pub is_adpdu_read : F → Bool
  -- jdksavdecc_acmpdu_get_controller_entity_id, at the offset that AECP frames share.
  pub controller_entity_id : F → ℕ
  -- The result of jdksavdecc_aem_command_controller_available_response_read is not negative.
  pub is_controller_avail_read : F → Bool

-- The state of the end station and of the state machine behind a response, the notification id,
-- the status and the operation id, if it is set.
pub record Answer (S M : Type 0) : Type 0 where
  pub station : S
  pub machine : M
  pub notification_id : ℕ
  pub status : ℕ
  pub operation_id : Option ℕ

pub record Responses (C F : Type 0) : Type 0 where
  pub proc_rcvd_aem_resp : ℕ → ℕ → ℕ → F → EndStation C → Aecp F → Answer (EndStation C) (Aecp F)
  pub proc_rcvd_aecp_aa_resp : ℕ → ℕ → F → EndStation C → Aecp F → Answer (EndStation C) (Aecp F)
  pub proc_rcvd_acmp_resp : ℕ → ℕ → F → EndStation C → Acmp F → Answer (EndStation C) (Acmp F)

-- The in- and out-parameters of rx_packet_event.
pub record Received : Type 0 where
  pub notification_id : ℕ
  pub is_notification_id_valid : Bool
  pub status : ℕ
  pub operation_id : Option ℕ

-- AVDECC_LIB_STATUS_INVALID.
abbrev pub status_invalid : ℕ
status_invalid = 1023
