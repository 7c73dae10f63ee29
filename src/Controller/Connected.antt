-- ===== src/Controller/Connected.antt =====
-- Lists of end stations with distinct ids, and the marks of their connection.
use avdecc_lib.Prelude.{
  ℕ, zero, suc, ◌≡◌, ◌≢◌, ap, sym, inl, inr, Bool, true, false, some, List, [], ◌∷◌, ◌++◌, arith,
  map, any, get_elem?, modify_at, modify_first, All, Bool-cases,
}
use mathlib.Core.Path.{◌∙◌, subst}
use mathlib.Core.Option.{some-injective}
use avdecc_lib.EndStation.Read.{ConnectionStatus, connected, disconnected}
use avdecc_lib.Controller.State.{Station, has_id}
use avdecc_lib.Controller.Packets.{update_last}

abbrev pub mark : Bool → ConnectionStatus
mark true = connected
mark false = disconnected

module _ {C : Type 0} where
  abbrev pub id_of : Station C → ℕ
  id_of s = s.end_station.end_station_entity_id

  abbrev pub status_of : Station C → ConnectionStatus
  status_of s = s.end_station.end_station_connection_status

  -- The status of an end station is what the presence of its id says.
  abbrev pub IsMarked : (ℕ → Bool) → Station C → Type 0
  IsMarked here s = status_of s ≡ mark (here (id_of s))

  abbrev pub Others : ℕ → List (Station C) → Type 0
  Others id = All (λ s. id_of s ≢ id)

  abbrev pub Unique : List (Station C) → Type 0
  Unique [] = Unit {0}
  Unique (s ∷ ss) = Others (id_of s) ss × Unique ss

  pub any-Others : (id : ℕ) (ss : List (Station C)) → any (has_id id) ss ≡ false → Others id ss
  any-Others id [] e = tt
  any-Others id (s ∷ ss) e = ground (arith, e, any-Others id ss)

  pub any_ne :
      (id : ℕ) (s : Station C) (ss : List (Station C))
      → Others (id_of s) ss
      → any (has_id id) ss ≡ true
      → id_of s ≢ id
  any_ne id s [] o e = cc
  any_ne id s (t ∷ ss) o e = elim (Bool-cases (has_id id t)) [
    | inl q ↦ ground (arith, q, o.0)
    | inr q ↦ any_ne id s ss o.1 (rw q at e)
  ]

  pub All-keep :
      (here there : ℕ → Bool) (id : ℕ) (ss : List (Station C))
      → ((j : ℕ) → id ≢ j → there j ≡ here j)
      → Others id ss
      → All (IsMarked here) ss
      → All (IsMarked there) ss
  All-keep here there id [] k o a = tt
  All-keep here there id (s ∷ ss) k o a =
      (a.0 ∙ ap mark (sym (k (id_of s) (λ e. o.0 (sym e)))), All-keep here there id ss k o.1 a.1)

  -- A change of end stations that keeps their ids.
  module _ (f : Station C → Station C) (keeps : (s : Station C) → id_of (f s) ≡ id_of s) where
    Others-update_last :
        (j id : ℕ) (ss : List (Station C)) → Others j ss → Others j (update_last id f ss)
    unfolding update_last
    Others-update_last j id [] o = tt
    Others-update_last j id (s ∷ ss) o = elim (Bool-cases (any (has_id id) ss)) [
      | inl e ↦ rw (e, update_last) (o.0, Others-update_last j id ss o.1)
      | inr e ↦ elim (Bool-cases (has_id id s)) [
        | inl q ↦ rw (e, update_last, q) ((λ z. o.0 (sym (keeps s) ∙ z)), o.1)
        | inr q ↦ rw (e, update_last, q) o
      ]
    ]

    pub Unique-update_last :
        (id : ℕ) (ss : List (Station C)) → Unique ss → Unique (update_last id f ss)
    unfolding update_last
    Unique-update_last id [] u = tt
    Unique-update_last id (s ∷ ss) u = elim (Bool-cases (any (has_id id) ss)) [
      | inl e ↦
          rw (e, update_last) (Others-update_last (id_of s) id ss u.0, Unique-update_last id ss u.1)
      | inr e ↦ elim (Bool-cases (has_id id s)) [
        | inl q ↦ rw (e, update_last, q) (rw (keeps s) u.0, u.1)
        | inr q ↦ rw (e, update_last, q) u
      ]
    ]

    Others-modify_first :
        (j id : ℕ) (ss : List (Station C)) → Others j ss → Others j (modify_first (has_id id) f ss)
    Others-modify_first j id [] o = tt
    Others-modify_first j id (s ∷ ss) o = elim (Bool-cases (has_id id s)) [
      | inl q ↦ rw q ((λ z. o.0 (sym (keeps s) ∙ z)), o.1)
      | inr q ↦ rw q (o.0, Others-modify_first j id ss o.1)
    ]

    pub Unique-modify_first :
        (id : ℕ) (ss : List (Station C)) → Unique ss → Unique (modify_first (has_id id) f ss)
    Unique-modify_first id [] u = tt
    Unique-modify_first id (s ∷ ss) u = elim (Bool-cases (has_id id s)) [
      | inl q ↦ rw q (rw (keeps s) u.0, u.1)
      | inr q ↦ rw q (Others-modify_first (id_of s) id ss u.0, Unique-modify_first id ss u.1)
    ]

    Others-map : (j : ℕ) (ss : List (Station C)) → Others j ss → Others j (map f ss)
    Others-map j [] o = tt
    Others-map j (s ∷ ss) o = ((λ z. o.0 (sym (keeps s) ∙ z)), Others-map j ss o.1)

    pub Unique-map : (ss : List (Station C)) → Unique ss → Unique (map f ss)
    Unique-map [] u = tt
    Unique-map (s ∷ ss) u = (rw (keeps s) (Others-map (id_of s) ss u.0), Unique-map ss u.1)

    -- The end station with the id gets the mark, and there is no other with the id.
    pub All-update_last :
        (here there : ℕ → Bool) (id : ℕ) (ss : List (Station C))
        → ((j : ℕ) → id ≢ j → there j ≡ here j)
        → there id ≡ true
        → ((s : Station C) → IsMarked here s → status_of (f s) ≡ connected)
        → any (has_id id) ss ≡ true
        → Unique ss
        → All (IsMarked here) ss
        → All (IsMarked there) (update_last id f ss)
    unfolding update_last
    All-update_last here there id [] k t c e u a = tt
    All-update_last here there id (s ∷ ss) k t c e u a = elim (Bool-cases (any (has_id id) ss)) [
      | inl q ↦
          rw (q, update_last)
            (
              a.0 ∙ ap mark (sym (k (id_of s) (λ z. any_ne id s ss u.0 q (sym z)))),
              All-update_last here there id ss k t c q u.1 a.1,
            )
      | inr q ↦ elim (Bool-cases (has_id id s)) [
        | inl w ↦
            rw (q, update_last, w)
              (
                c s a.0 ∙ sym (ap mark (ap there (keeps s ∙ ground (arith, w)) ∙ t)),
                All-keep here there id ss k (any-Others id ss q) a.1,
              )
        | inr w ↦ absurd (ground (arith, q, w, e))
      ]
    ]

    pub All-modify_first :
        (here there : ℕ → Bool) (id : ℕ) (ss : List (Station C))
        → ((j : ℕ) → id ≢ j → there j ≡ here j)
        → there id ≡ false
        → ((s : Station C) → status_of (f s) ≡ disconnected)
        → Unique ss
        → All (IsMarked here) ss
        → All (IsMarked there) (modify_first (has_id id) f ss)
    All-modify_first here there id [] k t c u a = tt
    All-modify_first here there id (s ∷ ss) k t c u a = elim (Bool-cases (has_id id s)) [
      | inl w ↦ rw w (
        c s ∙ sym (ap mark (ap there (keeps s ∙ ground (arith, w)) ∙ t)),
        All-keep here there id ss k (rw (same w) at u.0) a.1,
      )
      | inr w ↦ rw w (
        a.0 ∙ ap mark (sym (k (id_of s) (ground (arith, w)))),
        All-modify_first here there id ss k t c u.1 a.1,
      )
    ]
      where
        same : (has_id id s ≡ true) → id_of s ≡ id
        same w = ground (arith, w)

  Others-append :
      (j : ℕ) (ss : List (Station C)) (s : Station C)
      → Others j ss
      → id_of s ≢ j
      → Others j (ss ++ s ∷ [])
  Others-append j [] s o n = (n, tt)
  Others-append j (t ∷ ss) s o n = (o.0, Others-append j ss s o.1 n)

  pub Unique-append :
      (ss : List (Station C)) (s : Station C)
      → Unique ss
      → Others (id_of s) ss
      → Unique (ss ++ s ∷ [])
  Unique-append [] s u o = (tt, tt)
  Unique-append (t ∷ ss) s u o =
      (Others-append (id_of t) ss s u.0 (λ e. o.0 (sym e)), Unique-append ss s u.1 o.1)

  pub All-map_same :
      (here : ℕ → Bool) (f : Station C → Station C) (ss : List (Station C))
      → ((s : Station C) → (id_of (f s) ≡ id_of s) × (status_of (f s) ≡ status_of s))
      → All (IsMarked here) ss
      → All (IsMarked here) (map f ss)
  All-map_same here f [] k a = tt
  All-map_same here f (s ∷ ss) k a =
      ((k s).1 ∙ a.0 ∙ sym (ap (λ z. mark (here z)) (k s).0), All-map_same here f ss k a.1)

  Others-modify_at :
      (j i : ℕ) (f : Station C → Station C) (ss : List (Station C)) (s : Station C)
      → get_elem? ss i ≡ some s
      → id_of (f s) ≡ id_of s
      → Others j ss
      → Others j (modify_at ss i f)
  Others-modify_at j i f [] s e k o = tt
  Others-modify_at j zero f (t ∷ ss) s e k o = (
    (λ z. o.0 (sym (subst (λ y. id_of (f y) ≡ id_of y) (sym (some-injective _ _ e)) k) ∙ z)),
    o.1,
  )
  Others-modify_at j (suc i) f (t ∷ ss) s e k o = (o.0, Others-modify_at j i f ss s e k o.1)

  pub Unique-modify_at :
      (i : ℕ) (f : Station C → Station C) (ss : List (Station C)) (s : Station C)
      → get_elem? ss i ≡ some s
      → id_of (f s) ≡ id_of s
      → Unique ss
      → Unique (modify_at ss i f)
  Unique-modify_at i f [] s e k u = tt
  Unique-modify_at zero f (t ∷ ss) s e k u =
      (rw (subst (λ y. id_of (f y) ≡ id_of y) (sym (some-injective _ _ e)) k) u.0, u.1)
  Unique-modify_at (suc i) f (t ∷ ss) s e k u =
      (Others-modify_at (id_of t) i f ss s e k u.0, Unique-modify_at i f ss s e k u.1)

  pub All-put :
      (here : ℕ → Bool) (i : ℕ) (f : Station C → Station C) (ss : List (Station C)) (s : Station C)
      → get_elem? ss i ≡ some s
      → id_of (f s) ≡ id_of s
      → status_of (f s) ≡ status_of s
      → All (IsMarked here) ss
      → All (IsMarked here) (modify_at ss i f)
  All-put here i f [] s e k c a = tt
  All-put here zero f (t ∷ ss) s e k c a = (
    subst (λ z. IsMarked here z → IsMarked here (f z)) (sym (some-injective _ _ e))
        (λ m. c ∙ m ∙ sym (ap (λ z. mark (here z)) k)) a.0,
    a.1,
  )
  All-put here (suc i) f (t ∷ ss) s e k c a = (a.0, All-put here i f ss s e k c a.1)
