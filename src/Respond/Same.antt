-- ===== src/Respond/Same.antt =====
-- proc_read_desc_resp changes neither the entity id nor the connection status of its end station.
use avdecc_lib.Prelude.{
  ℕ, ◌≡◌, refl, true, false, Bool, Option, none, some, ◌==◌, inl, inr, arith, Bool-cases,
  Option-cases, if◌then◌else◌, ◌&&◌,
}
use mathlib.Core.Option.{some-injective}
use mathlib.Core.Path.{◌∙◌}
use avdecc_lib.EndStation.Descriptors.{Descriptor, Configuration}
use avdecc_lib.EndStation.Read.{
  EndStation, current_config, log_error, has_config, push_entity, push_config, set_config, store,
  deduce_next, store_and_deduce, finish_read, proc_read_desc_resp, store_descriptor,
}
use avdecc_lib.Aecp.Pdu.{Aecpdu}
use avdecc_lib.Aecp.Machine.{Aecp}

module _ {C : Type 0} where
  abbrev pub Same : EndStation C → EndStation C → Type 0
  Same t s =
      (t.end_station_entity_id ≡ s.end_station_entity_id)
      × (t.end_station_connection_status ≡ s.end_station_connection_status)

  pub Same-trans : (r s t : EndStation C) → Same t s → Same s r → Same t r
  Same-trans r s t h k = (h.0 ∙ k.0, h.1 ∙ k.1)

  abbrev pub Kept : Option (EndStation C) → EndStation C → Type 0
  Kept x s = (t : EndStation C) → x ≡ some t → Same t s

  Kept-some : (u s : EndStation C) → Same u s → Kept (some u) s
  Kept-some u s h t e = rw (some-injective _ _ e) at h

  Same-first :
      {M : Type 0} (x y : EndStation C × M × ℕ × Bool) (s : EndStation C)
      → Same x.0 s
      → some x ≡ some y
      → Same y.0 s
  Same-first x y s h e = rw (some-injective _ _ e) at h

  module _ {F : Type 0} (p : Aecpdu F) (k : Configuration F C) where
    store-Same : (d : Descriptor) (f : F) (s : EndStation C) → Kept (store p k d f s) s
    unfolding store push_entity push_config set_config
    store-Same d f s t e = ground arith

    deduce_next-Same : (d : ℕ) (f : F) (s : EndStation C) → Kept (deduce_next p k d f s) s
    unfolding deduce_next
    deduce_next-Same d f s t e = ground arith

    store_and_deduce-Same : (d : ℕ) (f : F) (s : EndStation C) → Kept (store_and_deduce p k d f s) s
    unfolding store_and_deduce
    store_and_deduce-Same d f s = elim (Option-cases (store p k (k.descriptor d) f s)) [
      | inl q ↦ rw (store_and_deduce, q) (λ t e. cc)
      | inr (s1, q) ↦
          rw (store_and_deduce, q)
            (λ t e.
              Same-trans s s1 t (deduce_next-Same d f s1 t e)
                (store-Same (k.descriptor d) f s s1 q))
    ]

    finish_read-Same : (now d : ℕ) (f : F) (s : EndStation C) → Same (finish_read p k now d f s) s
    unfolding finish_read
    finish_read-Same now d f s = ground arith

    -- What is stored, from the state that the look-ups leave.
    stored-Same :
        (b : Bool) (d : ℕ) (f : F) (s : EndStation C)
        → Kept (if b then store_and_deduce p k d f s else some s) s
    stored-Same true d f s t e = store_and_deduce-Same d f s t e
    stored-Same false d f s t e = Kept-some s s (refl, refl) t e

    finished-Same :
        (now d : ℕ) (f : F) (s : EndStation C) (x : Option (EndStation C))
        → Kept x s
        → (y : EndStation C × Aecp F × ℕ × Bool) (m : Aecp F) (id : ℕ)
        → (elim x [ none ↦ none | some s1 ↦ some (finish_read p k now d f s1, m, id, true) ])
          ≡ some y
        → Same y.0 s
    finished-Same now d f s none h y m id e = cc
    finished-Same now d f s (some s1) h y m id e =
        Same-first (finish_read p k now d f s1, m, id, true) y s
          (Same-trans s s1 (finish_read p k now d f s1) (finish_read-Same now d f s1) (h s1 refl)) e

    -- The state after the look-ups before the message is read.
    abbrev looked_up : EndStation C → EndStation C
    looked_up s =
        if has_config s
        then elim (current_config s) [ none ↦ log_error (log_error s) | some _ ↦ s ]
        else s

    looked_up-Same : (s : EndStation C) → Same (looked_up s) s
    looked_up-Same s = ground arith

    pub proc_read_desc_resp-Same :
        (now nid : ℕ) (f : F) (s : EndStation C) (m : Aecp F) (y : EndStation C × Aecp F × ℕ × Bool)
        → proc_read_desc_resp p k now nid f s m ≡ some y
        → Same y.0 s
    unfolding proc_read_desc_resp
    proc_read_desc_resp-Same now nid f s m y e = elim (Bool-cases (k.is_read_desc_resp f)) [
      | inl q ↦
          finished-Same now (k.desc_type f) f s _
            (λ t e'.
              Same-trans s (looked_up s) t
                (stored-Same
                  ((p.status f == 0)
                    && store_descriptor (k.descriptor (k.desc_type f)) (looked_up s))
                  (k.desc_type f) f (looked_up s) t e')
                (looked_up-Same s))
            y _ _ (rw (proc_read_desc_resp, q) at e)
      | inr q ↦
          Same-first (log_error (looked_up s), m, nid, false) y s (looked_up-Same s)
            (rw (proc_read_desc_resp, q) at e)
    ]
