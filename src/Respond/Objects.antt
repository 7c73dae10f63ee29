-- ===== src/Respond/Objects.antt =====
-- The way from an end station to a descriptor object and back: entity_desc_vec.at(current_entity_desc)
-- ->get_config_desc_by_index(current_config_desc)->get_<type>_desc_by_index(desc_index).
use avdecc_lib.Prelude.{ℕ, Option, none, some, List, if◌then◌else◌, get_elem?, modify_at}
use avdecc_lib.EndStation.Read.{EndStation, current_config, log_error}
use avdecc_lib.Config.Objects.{ConfigurationDescriptor}
use avdecc_lib.Descriptor.Frames.{Reply}
use avdecc_lib.Descriptor.StreamInput.{StreamInput}
use avdecc_lib.Descriptor.StreamOutput.{StreamOutput}
use avdecc_lib.Descriptor.AudioUnit.{AudioUnitObject}
use avdecc_lib.Descriptor.ClockDomain.{ClockDomain}
use avdecc_lib.Descriptor.MemoryObject.{MemoryObject}
use avdecc_lib.Controller.Interface.{Answer}

abbrev pub Station : Type 0 → Type 0
Station F = EndStation (ConfigurationDescriptor F)

-- One of the vectors of a configuration.
pub record Vector (F O : Type 0) : Type 0 where
  pub items : ConfigurationDescriptor F → List O
  pub with_items : List O → ConfigurationDescriptor F → ConfigurationDescriptor F

module _ {F : Type 0} where
  abbrev pub audio_units : Vector F (AudioUnitObject F)
  audio_units = record {
    items = λ c. c.audio_unit_desc_vec;
    with_items = λ v c. record c { audio_unit_desc_vec = v };
  }

  abbrev pub stream_inputs : Vector F (StreamInput F)
  stream_inputs = record {
    items = λ c. c.stream_input_desc_vec;
    with_items = λ v c. record c { stream_input_desc_vec = v };
  }

  abbrev pub stream_outputs : Vector F (StreamOutput F)
  stream_outputs = record {
    items = λ c. c.stream_output_desc_vec;
    with_items = λ v c. record c { stream_output_desc_vec = v };
  }

  abbrev pub clock_domains : Vector F (ClockDomain F)
  clock_domains = record {
    items = λ c. c.clock_domain_desc_vec;
    with_items = λ v c. record c { clock_domain_desc_vec = v };
  }

  abbrev pub memory_objects : Vector F MemoryObject
  memory_objects = record {
    items = λ c. c.memory_object_desc_vec;
    with_items = λ v c. record c { memory_object_desc_vec = v };
  }

  abbrev pub with_config :
      (ConfigurationDescriptor F → ConfigurationDescriptor F) → Station F → Station F
  with_config f s = record s {
    entity_desc_vec =
        modify_at s.entity_desc_vec s.current_entity_desc
          (λ e. record e { config_desc_vec = modify_at e.config_desc_vec s.current_config_desc f });
  }

  module _ {O : Type 0} (v : Vector F O) where
    -- The change of an object is a change of the vector that holds it.
    abbrev pub put_object : ℕ → O → Station F → Station F
    put_object i o s = with_config (λ c. v.with_items (modify_at (v.items c) i (λ _. o)) c) s

abbrev pub answer : {S M : Type 0} → S → M → ℕ → ℕ → Option ℕ → Answer S M
answer s m notification_id status operation_id = record {
  station = s;
  machine = m;
  notification_id = notification_id;
  status = status;
  operation_id = operation_id;
}

module _ {F O M : Type 0} where
  abbrev pub after : Vector F O → ℕ → Reply O M → Station F → Answer (Station F) M
  after v i r s =
      let s1 = put_object v i r.object s in
      answer (if r.is_ok then s1 else log_error s1) r.machine r.notification_id r.status none

  -- After a method that changes nothing that is modelled.
  abbrev pub after_method : Reply O M → Station F → Answer (Station F) M
  after_method r s =
      answer (if r.is_ok then s else log_error s) r.machine r.notification_id r.status none

  -- The call of a proc method of the object at an index. none stands for a call through a null
  -- pointer, or an exception that nothing catches: there is no entity, or no configuration. The
  -- look-up of an object that is not there logs, and so does the dispatch.
  unfoldable pub respond_to :
      Vector F O
      → (ℕ → ℕ → F → O → M → Reply O M)
      → ℕ
      → ℕ
      → ℕ
      → F
      → Station F
      → M
      → Option (Answer (Station F) M)
  respond_to v proc i notification_id status frame s m = elim (current_config s) [
    | none ↦ none
    | some c ↦ elim (get_elem? (v.items c) i) [
      | none ↦ some (answer (log_error (log_error s)) m notification_id status none)
      | some o ↦ some (after v i (proc notification_id status frame o m) s)
    ]
  ]
