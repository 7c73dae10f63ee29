-- ===== src/Controller/State.antt =====
-- The state of controller_imp with the state machines it owns, and its time tick. `C` is the type of
-- a configuration descriptor, `F` of a frame.
use avdecc_lib.Prelude.{ℕ, Bool, Option, none, some, List, ◌==◌, ◌||◌, map, modify_first}
use avdecc_lib.Output.{LogLevel}
use avdecc_lib.Aecp.Pdu.{Aecpdu}
use avdecc_lib.Aecp.Machine.{Aecp, is_active_operation_with_notification_id}
use avdecc_lib.Acmp.Machine.{Acmp, Acmpdu}
use avdecc_lib.Aecp.Machine as AecpMachine
use avdecc_lib.Acmp.Machine as AcmpMachine
use avdecc_lib.Adp.{Adpdu, Discovery}
use avdecc_lib.Adp
use avdecc_lib.EndStation.Requests.{background_read_update_timeouts, background_read_submit_pending}
use avdecc_lib.EndStation.Read.{EndStation, set_disconnected}

-- What an adp object keeps of the last ADPDU.
pub record AdpInfo : Type 0 where
  pub available_index : ℕ
  pub entity_model_id : ℕ

-- An end station of end_station_vec with its adp object.
pub record Station (C : Type 0) : Type 0 where
  pub end_station : EndStation C
  pub adp : AdpInfo

pub record ControllerState (C F : Type 0) : Type 0 where
  pub aecp : Aecp F
  pub acmp : Acmp F
  pub discovery : Discovery F
  pub end_station_vec : List (Station C)
  -- The controller's own log lines, the newest first.
  pub logged : List LogLevel

module _ {C : Type 0} where
  abbrev pub has_id : ℕ → Station C → Bool
  has_id id s = s.end_station.end_station_entity_id == id

  -- Whether an end station with the id is found, and a change of the first such.
  abbrev pub update_by_entity_id :
      ℕ → (EndStation C → EndStation C) → List (Station C) → List (Station C)
  update_by_entity_id id f stations =
      modify_first (has_id id) (λ s. record s { end_station = f s.end_station }) stations

  -- The two calls of the loop over the end stations.
  unfoldable pub background_tick : ℕ → Station C → Station C
  background_tick now s = record s {
    end_station = record s.end_station {
      background =
          background_read_submit_pending now
            (background_read_update_timeouts now s.end_station.background);
    };
  }

  unfoldable pub disconnect_station : Option ℕ → List (Station C) → List (Station C)
  disconnect_station none stations = stations
  disconnect_station (some id) stations = update_by_entity_id id set_disconnected stations

module _ {C F : Type 0} (p : Aecpdu F) (q : Acmpdu F) (r : Adpdu F) where
  unfoldable pub time_tick_event : ℕ → ControllerState C F → ControllerState C F
  time_tick_event now s =
      let (discovery, gone) = Adp.tick r now s.discovery in
      record s {
        aecp = AecpMachine.tick p now s.aecp;
        acmp = AcmpMachine.tick q now s.acmp;
        discovery = discovery;
        end_station_vec = map (background_tick now) (disconnect_station gone s.end_station_vec);
      }

module _ {C F : Type 0} (p : Aecpdu F) (q : Acmpdu F) where
  unfoldable pub is_inflight_cmd_with_notification_id : ℕ → ControllerState C F → Bool
  is_inflight_cmd_with_notification_id id s =
      AecpMachine.is_inflight_cmd_with_notification_id p id s.aecp
      || AcmpMachine.is_inflight_cmd_with_notification_id q id s.acmp
