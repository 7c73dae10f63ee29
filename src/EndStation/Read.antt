-- ===== src/EndStation/Read.antt =====
-- The end station's own state, and proc_read_desc_resp.
use avdecc_lib.Prelude.{
  ℕ, ◌/◌, ◌%◌, Bool, true, false, not, ◌&&◌, Option, none, some, List, [], ◌∷◌, ◌++◌, if◌then◌else◌,
  ◌==◌, leb, length, get_elem?, modify_at,
}
use avdecc_lib.Output.{error}
use avdecc_lib.Aecp.Pdu.{Aecpdu}
use avdecc_lib.Aecp.Machine.{Aecp, update_inflight_for_rcvd_resp}
use avdecc_lib.EndStation.Requests.{
  Background, act, read_completed, read_desc_init, post_log_msg, is_empty,
  background_read_update_inflight, background_read_submit_pending,
}
use avdecc_lib.EndStation.Descriptors.{
  Descriptor, entity, configuration, other_descriptor, Configuration, desc_index_from_frame,
  background_read_deduce_next,
}

-- entity_descriptor_imp, as far as the end station uses it.
pub record EntityDescriptor (C : Type 0) : Type 0 where
  pub current_configuration : ℕ
  pub config_desc_vec : List C

-- The characters ' ', 'C' and 'D' of end_station_connection_status.
pub data ConnectionStatus : Type 0 where
  not_set connected disconnected : ConnectionStatus

pub record EndStation (C : Type 0) : Type 0 where
  pub end_station_entity_id : ℕ
  pub end_station_connection_status : ConnectionStatus
  pub current_entity_desc : ℕ
  pub current_config_desc : ℕ
  pub selected_entity_index : ℕ
  pub selected_config_index : ℕ
  pub background : Background
  pub entity_desc_vec : List (EntityDescriptor C)

module _ {C : Type 0} where
  unfoldable pub end_station_init : EndStation C → EndStation C
  end_station_init s = record s {
    current_entity_desc = 0;
    current_config_desc = 0;
    selected_entity_index = 0;
    selected_config_index = 0;
    background = act (read_desc_init 0 0) s.background;
  }

  unfoldable pub end_station_reenumerate : EndStation C → EndStation C
  end_station_reenumerate s = end_station_init (record s { entity_desc_vec = [] })

  abbrev pub set_connected : EndStation C → EndStation C
  set_connected s = record s { end_station_connection_status = connected }

  abbrev pub set_disconnected : EndStation C → EndStation C
  set_disconnected s = record s { end_station_connection_status = disconnected }

  -- entity_desc_vec.at(current_entity_desc)->config_desc_count(); a missing entity has none.
  abbrev pub config_desc_count : EndStation C → ℕ
  config_desc_count s = elim (get_elem? s.entity_desc_vec s.current_entity_desc) [
    | none ↦ 0
    | some e ↦ length e.config_desc_vec
  ]

  -- Whether there is an entity descriptor and it has a configuration.
  abbrev pub has_config : EndStation C → Bool
  has_config s = leb 1 (length s.entity_desc_vec) && leb 1 (config_desc_count s)

  -- ->get_config_desc_by_index(current_config_desc), under `has_config`.
  abbrev pub current_config : EndStation C → Option C
  current_config s = elim (get_elem? s.entity_desc_vec s.current_entity_desc) [
    | none ↦ none
    | some e ↦ get_elem? e.config_desc_vec s.current_config_desc
  ]

  abbrev pub is_none : Option C → Bool
  is_none none = true
  is_none (some _) = false

  abbrev pub background_act : (Background → Background) → EndStation C → EndStation C
  background_act f s = record s { background = f s.background }

  abbrev pub log_error : EndStation C → EndStation C
  log_error s = background_act (act (post_log_msg error)) s

  -- Whether a descriptor that was read without error is stored.
  unfoldable pub store_descriptor : Descriptor → EndStation C → Bool
  store_descriptor entity s = true
  store_descriptor configuration s = (length s.entity_desc_vec == 1) && (config_desc_count s == 0)
  store_descriptor _ s = (length s.entity_desc_vec == 1) && leb 1 (config_desc_count s)

  unfoldable pub push_config : Option C → EndStation C → EndStation C
  push_config none s = log_error s
  push_config (some c) s = record s {
    entity_desc_vec =
        modify_at s.entity_desc_vec s.current_entity_desc
          (λ e. record e { config_desc_vec = e.config_desc_vec ++ c ∷ [] });
  }

  -- The first entity descriptor; its current configuration becomes the end station's.
  unfoldable pub push_entity : Option ℕ → EndStation C → EndStation C
  push_entity none s = log_error s
  push_entity (some current) s = record s {
    entity_desc_vec = record { current_configuration = current; config_desc_vec = [] } ∷ [];
    current_config_desc = current;
  }

  unfoldable pub set_config : Option C → EndStation C → EndStation C
  set_config none s = log_error s
  set_config (some c) s = record s {
    entity_desc_vec = modify_at s.entity_desc_vec s.current_entity_desc (λ e. record e {
      config_desc_vec = modify_at e.config_desc_vec s.current_config_desc (λ _. c);
    });
  }

module _ {F C : Type 0} (p : Aecpdu F) (k : Configuration F C) where
  -- The try block: an exception of a constructor is caught and logged. none stands for a call
  -- through a null pointer.
  unfoldable pub store : Descriptor → F → EndStation C → Option (EndStation C)
  unfolding push_entity push_config set_config
  store entity frame s =
      some
        (if length s.entity_desc_vec == 0 then push_entity (k.new_entity_descriptor frame) s else s)
  store configuration frame s = some (push_config (k.new_configuration frame) s)
  store other_descriptor frame s = some (log_error s)
  store d frame s = elim (current_config s) [
    | none ↦ none
    | some c ↦ some (set_config (k.store_desc d frame c) s)
  ]

  -- background_read_deduce_next, for the configuration that is current after the store; the
  -- look-up logs when it returns NULL.
  unfoldable pub deduce_next : ℕ → F → EndStation C → Option (EndStation C)
  deduce_next desc_type frame s =
      let cd = if has_config s then current_config s else none in
      let missing = has_config s && is_none cd in
      let s1 = if missing then log_error s else s in
      elim (background_read_deduce_next k cd desc_type frame s1.background) [
        | none ↦ none
        | some b ↦ some (record s1 { background = b })
      ]

  unfoldable pub store_and_deduce : ℕ → F → EndStation C → Option (EndStation C)
  store_and_deduce desc_type frame s = elim (store (k.descriptor desc_type) frame s) [
    | none ↦ none
    | some s1 ↦ deduce_next desc_type frame s1
  ]

  -- From the update of the list in flight to the end.
  unfoldable pub finish_read : ℕ → ℕ → F → EndStation C → EndStation C
  finish_read now desc_type frame s =
      let b1 =
        background_read_update_inflight desc_type (desc_index_from_frame k desc_type frame)
          s.background in
      let b2 = background_read_submit_pending now b1 in
      let done = has_config s && is_empty b2.inflight && is_empty b2.pending in
      record s { background = if done then act (read_completed s.end_station_entity_id) b2 else b2 }

  -- The end station, the AECP state machine, the notification id and whether 0 is returned; -1
  -- otherwise. The out-parameter `status` is the status in the frame.
  unfoldable pub proc_read_desc_resp :
      ℕ → ℕ → F → EndStation C → Aecp F → Option (EndStation C × Aecp F × ℕ × Bool)
  proc_read_desc_resp now notification_id frame s m =
      let s0 =
        if has_config s
        then elim (current_config s) [ none ↦ log_error (log_error s) | some _ ↦ s ]
        else s in
      if not (k.is_read_desc_resp frame)
      then some (log_error s0, m, notification_id, false)
      else (let desc_type = k.desc_type frame in
          let u_field = p.command_type frame / 32768 % 2 == 1 in
          let (m1, id, _) =
            update_inflight_for_rcvd_resp p notification_id (p.message_type frame) u_field frame
              m in
          let stored = (p.status frame == 0) && store_descriptor (k.descriptor desc_type) s0 in
          elim (if stored then store_and_deduce desc_type frame s0 else some s0) [
            | none ↦ none
            | some s1 ↦ some (finish_read now desc_type frame s1, m1, id, true)
          ])
