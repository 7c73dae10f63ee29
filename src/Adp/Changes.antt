-- ===== src/Adp/Changes.antt =====
-- Which entities a received ADPDU and a tick leave in the list.
use avdecc_lib.Prelude.{
  ℕ, ◌*◌, ◌≡◌, Bool, true, false, Option, none, some, List, arith, refl, ap, sym, inl, inr,
  if◌then◌else◌, ◌==◌, get_elem?, erase_at, Option-cases, Bool-cases,
}
use mathlib.Core.Path.{◌∙◌}
use avdecc_lib.Timer.{start}
use avdecc_lib.Adp.{
  Adpdu, Entities, Discovery, have_entity, poll_entities, state_timeout, state_avail, tick,
  disconnect, first_discover,
}
use avdecc_lib.Adp.EntityList.{
  have_entity-present, poll_entities-Distinct, poll_entities-present, present, present-append,
  present-erase_at, present-modify_at,
}
use avdecc_lib.Adp.Presence.{Inv, first_discover-entities_vec, first_discover-Inv}

erased :
    (j id : ℕ) (b c : Bool) {d : Bool}
    → d ≡ b
    → d ≡ (if id == j then true else c)
    → (id ≡ j → c ≡ false)
    → c ≡ (if id == j then false else b)
erased j id b c {d} e q n = elim (Bool-cases c) [
  | inl t ↦ ground (arith, e, q, n, t)
  | inr t ↦ ground (arith, e, q, n, t)
]

module _ {F : Type 0} (p : Adpdu F) where
  -- What an ADPDU and a tick do to the entities that are present.
  pub present-state_avail :
      (now : ℕ) (f : F) (m : Discovery F) (j : ℕ)
      → present j (state_avail p now f m).entities_vec
        ≡ (if p.entity_id f == j then true else present j m.entities_vec)
  unfolding state_avail
  present-state_avail now f m j = elim (Option-cases (have_entity (p.entity_id f) m.entities_vec)) [
    | inl e ↦ rw (e, state_avail) (present-append j m.entities_vec _)
    | inr (i, e) ↦
        rw (e, state_avail)
          (present-modify_at
              (λ x. record x {
                inflight_timer = start (p.valid_time f * 2 * 1000) now x.inflight_timer;
              })
              (λ x. refl) j m.entities_vec i
            ∙ had j m.entities_vec i e)
  ]
    where
      had :
          (j : ℕ) (es : List Entities) (i : ℕ)
          → have_entity (p.entity_id f) es ≡ some i
          → present j es ≡ (if p.entity_id f == j then true else present j es)
      had j es i e = ground (arith, have_entity-present (p.entity_id f) es i e, ne j es)
        where
          ne :
              (j : ℕ) (es : List Entities)
              → p.entity_id f ≡ j
              → present j es ≡ present (p.entity_id f) es
          ne j es q = ap (λ z. present z es) (sym q)

  -- The state of an entity id after the id that a tick returns is gone.
  abbrev pub left : Option ℕ → ℕ → Bool → Bool
  left none j b = b
  left (some id) j b = if id == j then false else b

  pub present-tick :
      (now : ℕ) (m : Discovery F) (j : ℕ)
      → Inv m
      → present j (tick p now m).0.entities_vec ≡ left (tick p now m).1 j (present j m.entities_vec)
  unfolding tick disconnect state_timeout
  present-tick now m j h =
      go (first_discover p m) (first_discover-Inv p m h)
      ∙ ap (λ z. left (tick p now m).1 j (present j z)) (first_discover-entities_vec p m)
    where
      go :
          (n : Discovery F)
          → Inv n
          → present j
              (disconnect p
                (poll_entities now n.entities_vec).0
                (poll_entities now n.entities_vec).1
                n).0.entities_vec
            ≡ left
                (disconnect p
                  (poll_entities now n.entities_vec).0
                  (poll_entities now n.entities_vec).1
                  n).1
                j
                (present j n.entities_vec)
      go n g = elim (Option-cases (poll_entities now n.entities_vec).1) [
        | inl e ↦ rw e (poll_entities-present now j n.entities_vec)
        | inr (i, e) ↦ elim (Option-cases (get_elem? (poll_entities now n.entities_vec).0 i)) [
          | inl d ↦ rw (e, disconnect, d) (poll_entities-present now j n.entities_vec)
          | inr (x, d) ↦ rw (e, disconnect, d) (gone n g i x d)
        ]
      ]
        where
          gone :
              (n : Discovery F)
              → Inv n
              → (i : ℕ) (x : Entities) → get_elem? (poll_entities now n.entities_vec).0 i ≡ some x
              → present j (erase_at (poll_entities now n.entities_vec).0 i)
                ≡ (if x.entity_id == j then false else present j n.entities_vec)
          gone n g i x d =
              erased j x.entity_id (present j n.entities_vec) _
                (poll_entities-present now j n.entities_vec)
                (present-erase_at j _ i x (poll_entities-Distinct now n.entities_vec g.distinct)
                  d).0
                (λ q.
                  rw (sym q)
                    (present-erase_at j _ i x (poll_entities-Distinct now n.entities_vec g.distinct)
                      d).1)
