-- ===== src/EndStation/Missing.antt =====
-- A response that leads to a descriptor that is not there.
use avdecc_lib.Prelude.{ℕ, ◌≡◌, refl, true, none, some, [], ◌∷◌}
use avdecc_lib.Aecp.Pdu.{Aecpdu}
use avdecc_lib.Aecp.Machine.{Aecp}
use avdecc_lib.EndStation.Requests.{Background}
use avdecc_lib.EndStation.Descriptors.{
  Configuration, audio_unit, index_of, desc_index_from_frame, queue_audio_unit, deduce,
  background_read_deduce_next,
}
use avdecc_lib.EndStation.Read.{
  EndStation, connected, store_descriptor, store, set_config, deduce_next, store_and_deduce,
  proc_read_desc_resp,
}

module _ {F C : Type 0} (p : Aecpdu F) (k : Configuration F C) where
  -- An end station whose entity and one configuration have been read.
  abbrev pub enumerated : ℕ → Background → ℕ → C → EndStation C
  enumerated id b current c = record {
    end_station_entity_id = id;
    end_station_connection_status = connected;
    current_entity_desc = 0;
    current_config_desc = 0;
    selected_entity_index = 0;
    selected_config_index = 0;
    background = b;
    entity_desc_vec = record { current_configuration = current; config_desc_vec = c ∷ [] } ∷ [];
  }

  deduce_next_null :
      (t : ℕ) (f : F) (id : ℕ) (b : Background) (current : ℕ) (c : C)
      → k.descriptor t ≡ audio_unit
      → k.get_audio_unit_desc_by_index c (k.descriptor_index audio_unit f) ≡ none
      → deduce_next p k t f (enumerated id b current c) ≡ none
  unfolding deduce_next background_read_deduce_next deduce desc_index_from_frame index_of
      queue_audio_unit
  deduce_next_null t f id b current c d g = rw (deduce_next, d, background_read_deduce_next, g) refl

  -- A response whose audio unit is stored, but not at the position that is its index.
  pub proc_read_desc_resp_null :
      (now nid : ℕ) (f : F) (id : ℕ) (b : Background) (current : ℕ) (c c' : C) (m : Aecp F)
      → k.is_read_desc_resp f ≡ true
      → p.status f ≡ 0
      → k.descriptor (k.desc_type f) ≡ audio_unit
      → k.store_desc audio_unit f c ≡ some c'
      → k.get_audio_unit_desc_by_index c' (k.descriptor_index audio_unit f) ≡ none
      → proc_read_desc_resp p k now nid f (enumerated id b current c) m ≡ none
  unfolding proc_read_desc_resp store_and_deduce store store_descriptor set_config
  proc_read_desc_resp_null now nid f id b current c c' m r s d t g =
      rw
        (
          r,
          s,
          store_and_deduce,
          d,
          store,
          t,
          deduce_next_null (k.desc_type f) f id b current c' d g,
        )
        refl
