-- ===== src/Adp/EntityList.antt =====
-- The list of entities of the ADP discovery state machine: which ids stand in it, each once, and what
-- the changes of the list do to them.
use avdecc_lib.Prelude.{
  ℕ, zero, suc, ◌≡◌, ◌≢◌, Bool, true, false, none, some, List, [], ◌∷◌, ◌++◌, arith, refl, sym, inl,
  inr, if◌then◌else◌, ◌==◌, get_elem?, erase_at, modify_at, any, All, Option-cases, Bool-cases,
}
use avdecc_lib.Adp.{Entities, have_entity, poll_entities}

abbrev pub present : ℕ → List Entities → Bool
present id = any (λ e. e.entity_id == id)

abbrev pub Absent : ℕ → List Entities → Type 0
Absent id = All (λ e. e.entity_id ≢ id)

abbrev pub Distinct : List Entities → Type 0
Distinct [] = Unit {0}
Distinct (e ∷ es) = Absent e.entity_id es × Distinct es

pub Absent-present : (id : ℕ) (es : List Entities) → Absent id es → present id es ≡ false
Absent-present id [] a = refl
Absent-present id (e ∷ es) a = ground (arith, a.0, Absent-present id es a.1)

pub have_entity-Absent : (id : ℕ) (es : List Entities) → have_entity id es ≡ none → Absent id es
unfolding have_entity
have_entity-Absent id [] n = tt
have_entity-Absent id (e ∷ es) n = ground (arith, have_entity-Absent id es)

pub have_entity-present :
    (id : ℕ) (es : List Entities) (i : ℕ) → have_entity id es ≡ some i → present id es ≡ true
unfolding have_entity
have_entity-present id [] i e = cc
have_entity-present id (x ∷ es) i e = elim (Bool-cases (x.entity_id == id)) [
  | inl q ↦ rw q refl
  | inr q ↦ elim (Option-cases (have_entity id es)) [
    | inl n ↦ ground (arith, q, n, e)
    | inr (j, n) ↦ rw q (have_entity-present id es j n)
  ]
]

module _ (f : Entities → Entities) (k : (e : Entities) → (f e).entity_id ≡ e.entity_id) where
  pub present-modify_at :
      (id : ℕ) (es : List Entities) (i : ℕ) → present id (modify_at es i f) ≡ present id es
  present-modify_at id [] i = refl
  present-modify_at id (e ∷ es) zero = ground (arith, k e)
  present-modify_at id (e ∷ es) (suc i) = ground (arith, present-modify_at id es i)

  pub Absent-modify_at :
      (id : ℕ) (es : List Entities) (i : ℕ) → Absent id es → Absent id (modify_at es i f)
  Absent-modify_at id [] i a = tt
  Absent-modify_at id (e ∷ es) zero a = ((rw (k e) a.0), a.1)
  Absent-modify_at id (e ∷ es) (suc i) a = (a.0, Absent-modify_at id es i a.1)

  pub Distinct-modify_at : (es : List Entities) (i : ℕ) → Distinct es → Distinct (modify_at es i f)
  Distinct-modify_at [] i d = tt
  Distinct-modify_at (e ∷ es) zero d = ((rw (k e) d.0), d.1)
  Distinct-modify_at (e ∷ es) (suc i) d =
      (Absent-modify_at e.entity_id es i d.0, Distinct-modify_at es i d.1)

pub present-append :
    (id : ℕ) (es : List Entities) (x : Entities)
    → present id (es ++ x ∷ []) ≡ (if x.entity_id == id then true else present id es)
present-append id [] x = refl
present-append id (e ∷ es) x = ground (arith, present-append id es x)

pub Absent-append :
    (id : ℕ) (es : List Entities) (x : Entities)
    → Absent id es
    → x.entity_id ≢ id
    → Absent id (es ++ x ∷ [])
Absent-append id [] x a n = (n, tt)
Absent-append id (e ∷ es) x a n = (a.0, Absent-append id es x a.1 n)

pub Distinct-append :
    (es : List Entities) (x : Entities)
    → Distinct es
    → Absent x.entity_id es
    → Distinct (es ++ x ∷ [])
Distinct-append [] x d a = (tt, tt)
Distinct-append (e ∷ es) x d a =
    (Absent-append e.entity_id es x d.0 (λ q. a.0 (sym q)), Distinct-append es x d.1 a.1)

pub Absent-erase_at :
    (id : ℕ) (es : List Entities) (i : ℕ) → Absent id es → Absent id (erase_at es i)
Absent-erase_at id [] i a = tt
Absent-erase_at id (e ∷ es) zero a = a.1
Absent-erase_at id (e ∷ es) (suc i) a = (a.0, Absent-erase_at id es i a.1)

pub Distinct-erase_at : (es : List Entities) (i : ℕ) → Distinct es → Distinct (erase_at es i)
Distinct-erase_at [] i d = tt
Distinct-erase_at (e ∷ es) zero d = d.1
Distinct-erase_at (e ∷ es) (suc i) d =
    (Absent-erase_at e.entity_id es i d.0, Distinct-erase_at es i d.1)

pub Absent-get_elem? :
    (id i : ℕ) (es : List Entities) {x : Entities}
    → Absent id es
    → get_elem? es i ≡ some x
    → x.entity_id ≢ id
Absent-get_elem? id i [] a e = cc
Absent-get_elem? id zero (x ∷ es) a e = ground (arith, a.0)
Absent-get_elem? id (suc i) (x ∷ es) a e = Absent-get_elem? id i es a.1 e

-- Entity i is the only one with its id.
pub present-erase_at :
    (id : ℕ) (es : List Entities) (i : ℕ) (x : Entities)
    → Distinct es
    → get_elem? es i ≡ some x
    → (present id es ≡ (if x.entity_id == id then true else present id (erase_at es i)))
      × (present x.entity_id (erase_at es i) ≡ false)
present-erase_at id [] i x d e = cc
present-erase_at id (y ∷ es) zero x d e =
    (ground arith, ground (arith, Absent-present y.entity_id es d.0))
present-erase_at id (y ∷ es) (suc i) x d e = (
  ground (arith, (present-erase_at id es i x d.1 e).0, Absent-get_elem? y.entity_id i es d.0 e),
  ground (arith, (present-erase_at id es i x d.1 e).1, Absent-get_elem? y.entity_id i es d.0 e),
)

-- The polls change no id.
pub poll_entities-present :
    (now id : ℕ) (es : List Entities) → present id (poll_entities now es).0 ≡ present id es
unfolding poll_entities
poll_entities-present now id [] = refl
poll_entities-present now id (e ∷ es) = ground (arith, poll_entities-present now id es)

pub poll_entities-Absent :
    (now id : ℕ) (es : List Entities) → Absent id es → Absent id (poll_entities now es).0
unfolding poll_entities
poll_entities-Absent now id [] a = tt
poll_entities-Absent now id (e ∷ es) a = ground (arith, a, poll_entities-Absent now id es a.1)

pub poll_entities-Distinct :
    (now : ℕ) (es : List Entities) → Distinct es → Distinct (poll_entities now es).0
unfolding poll_entities
poll_entities-Distinct now [] d = tt
poll_entities-Distinct now (e ∷ es) d =
    ground
      (arith, d, poll_entities-Absent now e.entity_id es d.0, poll_entities-Distinct now es d.1)
