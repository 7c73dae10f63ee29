-- ===== src/Adp/Presence.antt =====
-- The entities of the list against the END_STATION_CONNECTED and END_STATION_DISCONNECTED
-- notifications of a history.
use avdecc_lib.Prelude.{
  ℕ, ◌*◌, ◌≡◌, Bool, true, false, Option, none, some, List, [], ◌∷◌, arith, refl, sym, inl, inr,
  if◌then◌else◌, ◌==◌, get_elem?, erase_at, Option-cases, Bool-cases,
}
use avdecc_lib.Timer.{start}
use avdecc_lib.Output.{
  Notification, NotificationType, end_station_connected, end_station_disconnected, posted,
}
use avdecc_lib.Adp.{
  Adpdu, Entities, Discovery, new_discovery, have_entity, poll_entities, state_departing,
  state_timeout, common_hdr_init, tx_discover, state_discover, perform_discover, state_avail, tick,
  notify, disconnect, first_discover,
}
use avdecc_lib.Adp.EntityList.{
  Absent-present, Distinct, Distinct-append, Distinct-erase_at, Distinct-modify_at,
  have_entity-Absent, poll_entities-Distinct, poll_entities-present, present, present-append,
  present-erase_at, present-modify_at,
}

-- The calls that the controller makes.
pub data Call (F : Type 0) : Type 0 where
  avail : ℕ → F → Call F
  ticks : ℕ → Call F
  discover : ℕ → Call F
  departing : Call F

abbrev pub apply : {F : Type 0} → Adpdu F → Call F → Discovery F → Discovery F
apply p (avail now f) m = state_avail p now f m
apply p (ticks now) m = (tick p now m).0
apply p (discover id) m = perform_discover p id m
apply p departing m = state_departing m

abbrev pub run : {F : Type 0} → Adpdu F → List (Call F) → Discovery F → Discovery F
run p [] m = m
run p (c ∷ cs) m = run p cs (apply p c m)

-- Whether the notifications, newest first, leave the end station connected; none if one of them
-- connects a connected end station, disconnects one that is not, or is of another kind.
abbrev pub moved : NotificationType → Option Bool → Option Bool
moved end_station_connected (some false) = some true
moved end_station_disconnected (some true) = some false
moved _ _ = none

abbrev pub presence : ℕ → List Notification → Option Bool
presence id [] = some false
presence id (n ∷ ns) =
    if n.entity_id == id then moved n.notification_type (presence id ns) else presence id ns

told-connected :
    (id j : ℕ) (ns : List Notification) (b : Bool)
    → presence j ns ≡ some b
    → (id ≡ j → b ≡ false)
    → (if id == j then moved end_station_connected (presence j ns) else presence j ns)
      ≡ some (if id == j then true else b)
told-connected id j ns b e n = elim (Bool-cases b) [
  | inl t ↦ ground (arith, n, t)
  | inr t ↦ ground (arith, n, t)
]

told-disconnected :
    (id j : ℕ) (ns : List Notification) (b c : Bool)
    → presence j ns ≡ some b
    → b ≡ (if id == j then true else c)
    → (id ≡ j → c ≡ false)
    → (if id == j then moved end_station_disconnected (presence j ns) else presence j ns) ≡ some c
told-disconnected id j ns b c e q n = elim (Bool-cases c) [
  | inl t ↦ ground (arith, n, q, t)
  | inr t ↦ ground (arith, n, q, t)
]

-- The list holds each end station once, and the notifications connect the ones it holds.
pub record Inv {F : Type 0} (m : Discovery F) : Type 0 where
  pub distinct : Distinct m.entities_vec
  pub told : (id : ℕ) → presence id (posted m.out) ≡ some (present id m.entities_vec)

module _ {F : Type 0} (p : Adpdu F) where
  discover-entities_vec :
      (id : ℕ) (m : Discovery F) → (state_discover p id m).entities_vec ≡ m.entities_vec
  unfolding state_discover common_hdr_init tx_discover
  discover-entities_vec id m = ground arith

  posted-discover : (id : ℕ) (m : Discovery F) → posted (state_discover p id m).out ≡ posted m.out
  unfolding state_discover common_hdr_init tx_discover
  posted-discover id m = ground arith

  state_discover-Inv : (id : ℕ) (m : Discovery F) → Inv m → Inv (state_discover p id m)
  state_discover-Inv id m h = record {
    distinct = rw (discover-entities_vec id m) h.distinct;
    told = λ j. rw (posted-discover id m, discover-entities_vec id m) (h.told j);
  }

  pub state_avail-Inv : (now : ℕ) (f : F) (m : Discovery F) → Inv m → Inv (state_avail p now f m)
  unfolding state_avail
  state_avail-Inv now f m h = elim (Option-cases (have_entity (p.entity_id f) m.entities_vec)) [
    | inl e ↦
        rw (e, state_avail)
          (record {
            distinct =
                Distinct-append m.entities_vec _ h.distinct
                  (have_entity-Absent (p.entity_id f) m.entities_vec e);
            told = λ j. rw (present-append j m.entities_vec _) (
                told-connected (p.entity_id f) j (posted m.out) (present j m.entities_vec)
                  (h.told j)
                  (λ q. rw (sym q) (
                    Absent-present (p.entity_id f) m.entities_vec
                      (have_entity-Absent (p.entity_id f) m.entities_vec e))));
          })
    | inr (i, e) ↦
        rw (e, state_avail)
          (record {
            distinct = Distinct-modify_at _ (λ x. refl) m.entities_vec i h.distinct;
            told = λ j.
                rw
                  (present-modify_at
                    (λ x. record x {
                      inflight_timer = start (p.valid_time f * 2 * 1000) now x.inflight_timer;
                    })
                    (λ x. refl) j m.entities_vec i)
                  (h.told j);
          })
  ]

  polled-Inv :
      (now : ℕ) (m : Discovery F)
      → Inv m
      → Inv (record m { entities_vec = (poll_entities now m.entities_vec).0 })
  polled-Inv now m h = record {
    distinct = poll_entities-Distinct now m.entities_vec h.distinct;
    told = λ j. rw (poll_entities-present now j m.entities_vec) (h.told j);
  }

  disconnect-Inv :
      (i : ℕ) (x : Entities) (m : Discovery F)
      → Inv m
      → get_elem? m.entities_vec i ≡ some x
      → Inv (notify end_station_disconnected x.entity_id (state_timeout i m))
  unfolding state_timeout
  disconnect-Inv i x m h e = record {
    distinct = Distinct-erase_at m.entities_vec i h.distinct;
    told = λ j.
        told-disconnected x.entity_id j (posted m.out) (present j m.entities_vec)
          (present j (erase_at m.entities_vec i)) (h.told j)
          (present-erase_at j m.entities_vec i x h.distinct e).0
          (λ q. rw (sym q) (present-erase_at j m.entities_vec i x h.distinct e).1);
  }

  pub first_discover-entities_vec :
      (m : Discovery F) → (first_discover p m).entities_vec ≡ m.entities_vec
  first_discover-entities_vec m = ground (arith, discover-entities_vec 0 m)

  posted-first_discover : (m : Discovery F) → posted (first_discover p m).out ≡ posted m.out
  posted-first_discover m = ground (arith, posted-discover 0 m)

  pub first_discover-Inv : (m : Discovery F) → Inv m → Inv (first_discover p m)
  first_discover-Inv m h = record {
    distinct = rw (first_discover-entities_vec m) h.distinct;
    told = λ j. rw (posted-first_discover m, first_discover-entities_vec m) (h.told j);
  }

  pub tick-Inv : (now : ℕ) (m : Discovery F) → Inv m → Inv (tick p now m).0
  unfolding tick disconnect
  tick-Inv now m h = go (first_discover p m) (first_discover-Inv m h)
    where
      go :
          (n : Discovery F)
          → Inv n
          → Inv
              (disconnect p
                (poll_entities now n.entities_vec).0
                (poll_entities now n.entities_vec).1
                n).0
      go n g = elim (Option-cases (poll_entities now n.entities_vec).1) [
        | inl e ↦ rw e (polled-Inv now n g)
        | inr (i, e) ↦ elim (Option-cases (get_elem? (poll_entities now n.entities_vec).0 i)) [
          | inl d ↦ rw (e, disconnect, d) (polled-Inv now n g)
          | inr (x, d) ↦ rw (e, disconnect, d) (disconnect-Inv i x _ (polled-Inv now n g) d)
        ]
      ]

  apply-Inv : (c : Call F) (m : Discovery F) → Inv m → Inv (apply p c m)
  unfolding perform_discover state_departing
  apply-Inv (avail now f) m h = state_avail-Inv now f m h
  apply-Inv (ticks now) m h = tick-Inv now m h
  apply-Inv (discover id) m h = state_discover-Inv id m h
  apply-Inv departing m h = record { distinct = h.distinct; told = h.told }

  run-Inv : (cs : List (Call F)) (m : Discovery F) → Inv m → Inv (run p cs m)
  run-Inv [] m h = h
  run-Inv (c ∷ cs) m h = run-Inv cs (apply p c m) (apply-Inv c m h)

  -- After every history of the discovery state machine from its start, no entity id stands twice in the list of entities, and for each id the notifications posted alternate between END_STATION_CONNECTED, first, and END_STATION_DISCONNECTED, and the last of them is END_STATION_CONNECTED exactly when the list holds the id.
  pub presence-run :
      (cs : List (Call F))
      → let m = run p cs new_discovery in
        Distinct m.entities_vec
        × ((id : ℕ) → presence id (posted m.out) ≡ some (present id m.entities_vec))
  presence-run cs = (h.distinct, h.told)
    where
      h : Inv (run p cs new_discovery)
      h = run-Inv cs new_discovery (record { distinct = tt; told = λ id. refl })
