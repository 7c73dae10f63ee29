-- ===== src/Adp.antt =====
-- controller/lib/src/adp_discovery_state_machine.{h,cpp}: which end stations are on the network.
-- The frame of a message is made and read by the library jdksavdecc-c, which is a parameter; the
-- clock reading of a call is the argument `now`.
pub mod EntityList
pub mod Presence
pub mod Changes
pub mod Timeout
mod Tests
use avdecc_lib.Prelude.{
  ℕ, zero, suc, ◌+◌, ◌*◌, Bool, true, false, Option, none, some, List, [], ◌∷◌, ◌++◌, if◌then◌else◌,
  ◌==◌, get_elem?, erase_at, modify_at,
}
use avdecc_lib.Timer.{Timer, new_timer, start, timeout}
use avdecc_lib.Output.{
  Notification, NotificationType, Output, send_frame, post_notification_msg, post_log_msg, error,
  debug, end_station_connected, end_station_disconnected,
}

-- jdksavdecc_adpdu_common_control_header, as far as the state machine sets it.
pub record Header : Type 0 where
  pub cd : ℕ
  pub sv : ℕ
  pub version : ℕ
  pub message_type : ℕ
  pub valid_time : ℕ
  pub control_data_length : ℕ
  pub entity_id : ℕ

pub record Adpdu (F : Type 0) : Type 0 where
  -- The entity id at its offset, and the valid time of the header that is read.
  pub entity_id : F → ℕ
  pub valid_time : F → ℕ
  -- jdksavdecc_frame_init and _frame_write for a source address and a length.
  pub ether_frame : ℕ → ℕ → F
  -- jdksavdecc_adpdu_common_control_header_write, and whether what it returns is not negative.
  pub write_header : Header → F → F
  pub is_written : Header → F → Bool
  -- net_interface_imp::mac_addr, and whether what send_frame returns is not negative.
  pub mac_addr : ℕ
  pub is_sent : F → Bool

-- struct entities.
pub record Entities : Type 0 where
  pub entity_id : ℕ
  pub inflight_timer : Timer

pub record Discovery (F : Type 0) : Type 0 where
  pub first_tick : Bool
  pub entities_vec : List Entities
  pub out : List (Output F)

-- ADP_FRAME_LEN.
abbrev adp_frame_len : ℕ
adp_frame_len = 82

abbrev suc_index : Option ℕ → Option ℕ
suc_index none = none
suc_index (some i) = some (suc i)

-- The index of the first entity with the id.
unfoldable pub have_entity : ℕ → List Entities → Option ℕ
have_entity id [] = none
have_entity id (e ∷ es) = if e.entity_id == id then some 0 else suc_index (have_entity id es)

abbrev pub update_entity_timeout : ℕ → ℕ → ℕ → List Entities → List Entities
update_entity_timeout now entity_index timeout_ms es =
    modify_at es entity_index
      (λ e. record e { inflight_timer = start timeout_ms now e.inflight_timer })

abbrev pub add_entity : Entities → List Entities → List Entities
add_entity e es = es ++ e ∷ []

abbrev pub remove_entity : ℕ → List Entities → List Entities
remove_entity entity_index es = erase_at es entity_index

abbrev pub poll : ℕ → Entities → Entities
poll now e = record e { inflight_timer = timeout now e.inflight_timer }

-- The loop of `tick` up to the first entity that has timed out: the entities as the polls leave
-- them, and the index of that entity.
unfoldable pub poll_entities : ℕ → List Entities → List Entities × Option ℕ
poll_entities now [] = ([], none)
poll_entities now (e ∷ es) =
    let (polled, found) = poll_entities now es in
    if (poll now e).inflight_timer.elapsed
    then (poll now e ∷ es, some 0)
    else (poll now e ∷ polled, suc_index found)

module _ {F : Type 0} where
  -- The constructor.
  abbrev pub new_discovery : Discovery F
  new_discovery = record { first_tick = true; entities_vec = []; out = [] }

  abbrev pub emit : Output F → Discovery F → Discovery F
  emit e m = record m { out = e ∷ m.out }

  abbrev pub notify : NotificationType → ℕ → Discovery F → Discovery F
  notify kind id m =
      emit
        (post_notification_msg (record {
          notification_type = kind;
          entity_id = id;
          cmd_type = 0;
          desc_type = 0;
          desc_index = 0;
          cmd_status = 0;
          notification_id = 0;
        }))
        m

  unfoldable pub state_departing : Discovery F → Discovery F
  state_departing m = emit (post_log_msg debug) m

  unfoldable pub state_timeout : ℕ → Discovery F → Discovery F
  state_timeout entity_index m = record m {
    entities_vec = remove_entity entity_index m.entities_vec;
  }

module _ {F : Type 0} (p : Adpdu F) where
  abbrev pub ether_frame_init : F
  ether_frame_init = p.ether_frame p.mac_addr adp_frame_len

  abbrev discover_header : ℕ → Header
  discover_header target_entity_id = record {
    cd = 1;
    sv = 0;
    version = 0;
    message_type = 2;
    valid_time = 0;
    control_data_length = 56;
    entity_id = target_entity_id;
  }

  -- The frame and the state with the log line of a failed write.
  unfoldable pub common_hdr_init : ℕ → F → Discovery F → F × Discovery F
  common_hdr_init target_entity_id frame m =
      let header = discover_header target_entity_id in
      (
        p.write_header header frame,
        if p.is_written header frame then m else emit (post_log_msg error) m,
      )

  unfoldable pub tx_discover : F → Discovery F → Discovery F
  tx_discover frame m =
      let m1 = emit (send_frame frame) m in
      if p.is_sent frame then m1 else emit (post_log_msg error) m1

  unfoldable pub state_discover : ℕ → Discovery F → Discovery F
  state_discover discover_id m =
      let (frame, m1) = common_hdr_init discover_id ether_frame_init m in tx_discover frame m1

  unfoldable pub perform_discover : ℕ → Discovery F → Discovery F
  perform_discover entity_id m = state_discover entity_id m

  unfoldable pub state_avail : ℕ → F → Discovery F → Discovery F
  state_avail now frame m =
      let id = p.entity_id frame in
      let timeout_ms = p.valid_time frame * 2 * 1000 in
      elim (have_entity id m.entities_vec) [
        | some i ↦ record m { entities_vec = update_entity_timeout now i timeout_ms m.entities_vec }
        | none ↦ notify end_station_connected id (record m {
          entities_vec =
              add_entity
                (record { entity_id = id; inflight_timer = start timeout_ms now new_timer })
                m.entities_vec;
        })
      ]

  abbrev pub first_discover : Discovery F → Discovery F
  first_discover m = if m.first_tick then record (state_discover 0 m) { first_tick = false } else m

  unfoldable pub disconnect : List Entities → Option ℕ → Discovery F → Discovery F × Option ℕ
  disconnect polled none m = (record m { entities_vec = polled }, none)
  disconnect polled (some i) m =
      let m1 = record m { entities_vec = polled } in
      elim (get_elem? polled i) [
        | none ↦ (m1, none)
        | some e ↦
            (notify end_station_disconnected e.entity_id (state_timeout i m1), some e.entity_id)
      ]

  -- The state, and the out-parameter if the return value is true.
  unfoldable pub tick : ℕ → Discovery F → Discovery F × Option ℕ
  unfolding disconnect
  tick now m =
      let m1 = first_discover m in
      let (polled, found) = poll_entities now m1.entities_vec in disconnect polled found m1
