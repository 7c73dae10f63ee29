-- ===== src/Respond/Format.antt =====
-- What a response changes in the descriptor objects: the format of a stream follows the successful
-- SET_STREAM_FORMAT responses.
use avdecc_lib.Prelude.{
  ℕ, zero, suc, ◌%◌, ◌≡◌, ◌≢◌, refl, ap, inl, inr, true, some, List, [], ◌∷◌, ◌==◌, arith,
  if◌then◌else◌, get_elem?, modify_at, get_elem?-modify_at, Option-cases,
}
use avdecc_lib.EndStation.Descriptors.{stream_input}
use avdecc_lib.EndStation.Read.{current_config}
use avdecc_lib.Aecp.Pdu.{Aecpdu}
use avdecc_lib.Aecp.Machine.{Aecp}
use avdecc_lib.Config.Objects.{ConfigurationDescriptor, Frames}
use avdecc_lib.Descriptor.Frames.{set_stream_format, Reader, proc_resp}
use avdecc_lib.Descriptor.StreamInput.{
  StreamInput, proc_set_stream_format_resp, update_stream_format,
}
use avdecc_lib.Controller.Interface.{Answer}
use avdecc_lib.Respond.Objects.{
  Station, Vector, stream_inputs, with_config, put_object, after, respond_to,
}
use avdecc_lib.Respond.Aem.{to_stream, aem_case, proc_rcvd_aem_resp}

get_elem?-modify_at-other :
    {A : Type 0} (xs : List A) (i j : ℕ) (f : A → A)
    → i ≢ j
    → get_elem? (modify_at xs i f) j ≡ get_elem? xs j
get_elem?-modify_at-other [] i j f h = refl
get_elem?-modify_at-other (x ∷ xs) zero zero f h = ground (arith, h)
get_elem?-modify_at-other (x ∷ xs) zero (suc j) f h = refl
get_elem?-modify_at-other (x ∷ xs) (suc i) zero f h = refl
get_elem?-modify_at-other (x ∷ xs) (suc i) (suc j) f h =
    get_elem?-modify_at-other xs i j f (λ q. h (ap suc q))

module _ {F : Type 0} where
  current_config-with_config :
      (h : ConfigurationDescriptor F → ConfigurationDescriptor F) (s : Station F)
      → (c : ConfigurationDescriptor F) → current_config s ≡ some c
      → current_config (with_config h s) ≡ some (h c)
  current_config-with_config h s c e =
      elim (Option-cases (get_elem? s.entity_desc_vec s.current_entity_desc)) [
        | inl q ↦ cc
        | inr (d, q) ↦
            let k : get_elem? (with_config h s).entity_desc_vec s.current_entity_desc
                ≡ some (record d {
                  config_desc_vec = modify_at d.config_desc_vec s.current_config_desc h;
                }) =
              get_elem?-modify_at s.entity_desc_vec s.current_entity_desc _ q in
            rw (current_config, k)
              (get_elem?-modify_at d.config_desc_vec s.current_config_desc h
                (rw (current_config, q) at e))
      ]

  -- What an answer leaves of a configuration: one object of a vector is changed.
  current_config-put_object :
      {O : Type 0} (v : Vector F O) (i : ℕ) (o : O) (s : Station F) (c : ConfigurationDescriptor F)
      → current_config s ≡ some c
      → current_config (put_object v i o s)
        ≡ some (v.with_items (modify_at (v.items c) i (λ _. o)) c)
  current_config-put_object v i o s c e = current_config-with_config _ s c e

module _ {F : Type 0} (p : Aecpdu F) (g : Reader F) (n : Frames F) where
  -- The stream input object after a response.
  abbrev pub formatted : F → StreamInput F → StreamInput F
  formatted f o = record o {
    current_format = if p.status f == 0 then g.stream_format f else o.current_format;
    aem_cmd_set_stream_format_resp = some f;
  }

  -- The configuration after a response.
  abbrev updated : ℕ → F → StreamInput F → ConfigurationDescriptor F → ConfigurationDescriptor F
  updated i f o c = record c {
    stream_input_desc_vec = modify_at c.stream_input_desc_vec i (λ _. formatted f o);
  }

  after-object :
      (nid st : ℕ) (f : F) (m : Aecp F) (o : StreamInput F)
      → g.is_read set_stream_format f ≡ true
      → ((proc_set_stream_format_resp p g nid st f o m).object ≡ formatted f o)
        × ((proc_set_stream_format_resp p g nid st f o m).is_ok ≡ true)
  unfolding proc_set_stream_format_resp proc_resp update_stream_format
  after-object nid st f m o r = ground (arith, r)

  after-config :
      (i nid st : ℕ) (f : F) (s : Station F) (m : Aecp F) (c : ConfigurationDescriptor F)
      → (o : StreamInput F) → current_config s ≡ some c
      → g.is_read set_stream_format f ≡ true
      → current_config
          (after stream_inputs i (proc_set_stream_format_resp p g nid st f o m) s).station
        ≡ some (updated i f o c)
  after-config i nid st f s m c o e r =
      let (eo, ek) = after-object nid st f m o r in
      rw (eo, ek) (current_config-put_object stream_inputs i (formatted f o) s c e)

  -- After a SET_STREAM_FORMAT response that can be read, for a stream input that is stored in the current configuration, the input at its index keeps the response and has the format in it as its current format if the status is success, and its earlier format otherwise; every other input, and every output, of the configuration is as before.
  pub set_stream_format_lem :
      (now nid st : ℕ) (f : F) (s : Station F) (m : Aecp F) (c : ConfigurationDescriptor F)
      → (o : StreamInput F) → g.command (p.command_type f % 32768) ≡ set_stream_format
      → n.descriptor (g.descriptor_type set_stream_format f) ≡ stream_input
      → current_config s ≡ some c
      → get_elem? c.stream_input_desc_vec (g.descriptor_index set_stream_format f) ≡ some o
      → g.is_read set_stream_format f ≡ true
      → (a : Answer (Station F) (Aecp F)) × (proc_rcvd_aem_resp p g n now nid st f s m ≡ some a)
        × ((c' : ConfigurationDescriptor F) × (current_config a.station ≡ some c')
            × (get_elem? c'.stream_input_desc_vec (g.descriptor_index set_stream_format f)
                ≡ some (formatted f o))
            × ((j : ℕ)
                → g.descriptor_index set_stream_format f ≢ j
                → get_elem? c'.stream_input_desc_vec j ≡ get_elem? c.stream_input_desc_vec j)
            × (c'.stream_output_desc_vec ≡ c.stream_output_desc_vec))
  unfolding proc_rcvd_aem_resp aem_case to_stream respond_to
  set_stream_format_lem now nid st f s m c o hc hd e h r =
      let i = g.descriptor_index set_stream_format f in
      (
        after stream_inputs i (proc_set_stream_format_resp p g nid st f o m) s,
        rw (proc_rcvd_aem_resp, hc, to_stream, hd, respond_to, e, h) refl,
        (
          updated i f o c,
          after-config i nid st f s m c o e r,
          get_elem?-modify_at c.stream_input_desc_vec i (λ _. formatted f o) h,
          λ j k. get_elem?-modify_at-other c.stream_input_desc_vec i j _ k,
          refl,
        ),
      )
