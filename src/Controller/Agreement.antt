-- ===== src/Controller/Agreement.antt =====
-- An end station is marked connected exactly while the ADP discovery state machine holds it.
use avdecc_lib.Prelude.{
  ℕ, ◌/◌, ◌%◌, ◌≡◌, ◌≢◌, refl, ap, sym, inl, inr, Bool, true, false, ◌||◌, some, arith, ◌==◌, any,
  get_elem?, modify_at, All, All-append, Bool-cases, Option-cases,
}
use mathlib.Core.Path.{◌∙◌}
use avdecc_lib.Aecp.Pdu.{
  Aecpdu, MessageType, aem_command, aem_response, address_access_command, address_access_response,
  other_message,
}
use avdecc_lib.Aecp.Machine.{Aecp}
use avdecc_lib.Acmp.Machine.{Acmpdu, Acmp}
use avdecc_lib.Adp.{Adpdu, state_avail}
use avdecc_lib.Adp.Presence.{Inv, state_avail-Inv}
use avdecc_lib.Adp.Changes.{present-state_avail}
use avdecc_lib.Adp.EntityList.{present}
use avdecc_lib.EndStation.Read.{EndStation, connected, end_station_init, end_station_reenumerate}
use avdecc_lib.Util.{convert_eui48_to_uint64}
use avdecc_lib.Controller.State.{Station, ControllerState, has_id}
use avdecc_lib.Controller.Packets.{
  readvertise, new_station, rx_adp, rx_aecp, rx_aecp_message, rx_acmp, rx_subtype,
  proc_controller_avail_resp, rx_packet_event, find_in_end_station, acmp_entity_id,
  is_controller_available,
}
use avdecc_lib.Controller.Interface.{
  Packet, Responses, Received, Subtype, adp_subtype, aecp_subtype, acmp_subtype, other_subtype,
}
use avdecc_lib.Controller.Connected.{
  mark, id_of, status_of, IsMarked, Unique, any-Others, All-keep, Unique-update_last,
  All-update_last, Unique-append, Unique-modify_at, All-put,
}

-- What an end station does with a response of its own leaves its id and its connection alone.
pub record IsResponses {C F : Type 0} (e : Responses C F) : Type 0 where
  pub aem_keeps :
      (now nid st : ℕ) (f : F) (s : EndStation C) (m : Aecp F)
      → let t = (e.proc_rcvd_aem_resp now nid st f s m).station in
        (t.end_station_entity_id ≡ s.end_station_entity_id)
        × (t.end_station_connection_status ≡ s.end_station_connection_status)
  pub aa_keeps :
      (nid st : ℕ) (f : F) (s : EndStation C) (m : Aecp F)
      → let t = (e.proc_rcvd_aecp_aa_resp nid st f s m).station in
        (t.end_station_entity_id ≡ s.end_station_entity_id)
        × (t.end_station_connection_status ≡ s.end_station_connection_status)
  pub acmp_keeps :
      (nid st : ℕ) (f : F) (s : EndStation C) (m : Acmp F)
      → let t = (e.proc_rcvd_acmp_resp nid st f s m).station in
        (t.end_station_entity_id ≡ s.end_station_entity_id)
        × (t.end_station_connection_status ≡ s.end_station_connection_status)

pub record Agree {C F : Type 0} (s : ControllerState C F) : Type 0 where
  pub discovery : Inv s.discovery
  pub unique : Unique s.end_station_vec
  pub marked : All (IsMarked (λ id. present id s.discovery.entities_vec)) s.end_station_vec

module _ {C F : Type 0} (k : Packet F) (p : Aecpdu F) (q : Acmpdu F) (r : Adpdu F)
    (e : Responses C F) where
  readvertise-id : (f : F) (s : Station C) → id_of (readvertise k p q r e f s) ≡ id_of s
  unfolding readvertise end_station_reenumerate end_station_init
  readvertise-id f s = ground arith

  readvertise-connected :
      (here : ℕ → Bool) (f : F) (s : Station C)
      → IsMarked here s
      → status_of (readvertise k p q r e f s) ≡ connected
  unfolding readvertise end_station_reenumerate end_station_init
  readvertise-connected here f s m = elim (Bool-cases (here (id_of s))) [
    | inl t ↦ ground (arith, m, t)
    | inr t ↦ ground (arith, m, t)
  ]

  new_station_lem : (f : F) → (id_of (new_station k p q r e f) ≡ r.entity_id f)
  unfolding end_station_init
  new_station_lem f = refl

  rx_adp-Agree :
      (now : ℕ) (f : F) (s : ControllerState C F) → Agree s → Agree (rx_adp k p q r e now f s)
  unfolding rx_adp end_station_init
  rx_adp-Agree now f s h = elim (Bool-cases (r.entity_id f == 0)) [
    | inl z ↦ elim (Bool-cases (k.is_entity_discover f)) [
      | inl d ↦ rw (z, d) h
      | inr d ↦ rw (z, d) (record { discovery = h.discovery; unique = h.unique; marked = h.marked })
    ]
    | inr z ↦ elim (Bool-cases (any (has_id (r.entity_id f)) s.end_station_vec)) [
      | inl a ↦
          rw (z, a)
            (record {
              discovery = state_avail-Inv r now f s.discovery h.discovery;
              unique =
                  Unique-update_last (readvertise k p q r e f) (readvertise-id f) (r.entity_id f)
                    s.end_station_vec h.unique;
              marked =
                  All-update_last (readvertise k p q r e f) (readvertise-id f) here there
                    (r.entity_id f) s.end_station_vec other here_now (readvertise-connected here f)
                    a h.unique h.marked;
            })
      | inr a ↦
          rw (z, a)
            (record {
              discovery = state_avail-Inv r now f s.discovery h.discovery;
              unique =
                  Unique-append s.end_station_vec _ h.unique
                    (any-Others (r.entity_id f) s.end_station_vec a);
              marked =
                  All-append (IsMarked there) s.end_station_vec _
                    (All-keep here there (r.entity_id f) s.end_station_vec other
                      (any-Others (r.entity_id f) s.end_station_vec a) h.marked)
                    (sym (ap mark here_now), tt);
            })
    ]
  ]
    where
      here : ℕ → Bool
      here id = present id s.discovery.entities_vec

      there : ℕ → Bool
      there id = present id (state_avail r now f s.discovery).entities_vec

      other : (j : ℕ) → r.entity_id f ≢ j → there j ≡ here j
      other j n = present-state_avail r now f s.discovery j ∙ ground (arith, n)

      here_now : there (r.entity_id f) ≡ true
      here_now = present-state_avail r now f s.discovery (r.entity_id f) ∙ ground arith

  -- A change of the AECP or ACMP state machine and of end station i.
  put-Agree :
      (i : ℕ) (g : Station C → Station C) (t : Station C) (s u : ControllerState C F)
      → get_elem? s.end_station_vec i ≡ some t
      → (id_of (g t) ≡ id_of t) × (status_of (g t) ≡ status_of t)
      → u.discovery ≡ s.discovery
      → u.end_station_vec ≡ modify_at s.end_station_vec i g
      → Agree s
      → Agree u
  put-Agree i g t s u w keeps d v h = record {
    discovery = rw d h.discovery;
    unique = rw v (Unique-modify_at i g s.end_station_vec t w keeps.0 h.unique);
    marked =
        rw (v, d)
          (All-put (λ id. present id s.discovery.entities_vec) i g s.end_station_vec t w keeps.0
            keeps.1 h.marked);
  }

  pub same-Agree :
      (s u : ControllerState C F)
      → u.discovery ≡ s.discovery
      → u.end_station_vec ≡ s.end_station_vec
      → Agree s
      → Agree u
  same-Agree s u d v h = record {
    discovery = rw d h.discovery;
    unique = rw v h.unique;
    marked = rw (v, d) h.marked;
  }

  avail_resp-Agree :
      (f : F) (s : ControllerState C F) (o : Received)
      → Agree s
      → Agree (proc_controller_avail_resp k p q r e f s o).0
  unfolding proc_controller_avail_resp
  avail_resp-Agree f s o h = elim (Bool-cases (k.is_controller_avail_read f)) [
    | inl b ↦ rw b (same-Agree s _ refl refl h)
    | inr b ↦ rw b (same-Agree s _ refl refl h)
  ]

  module _ (law : IsResponses e) where
    aecp_message-Agree :
        (t : MessageType) (now : ℕ) (f : F) (i : ℕ) (x : Station C) (s : ControllerState C F)
        (o : Received)
        → get_elem? s.end_station_vec i ≡ some x
        → Agree s
        → Agree (rx_aecp_message k p q r e t now f i x s o).0
    unfolding rx_aecp_message
    aecp_message-Agree aem_response now f i x s o w h =
        elim (Bool-cases
          (is_controller_available k p q r e (p.command (p.command_type f % 32768)))) [
            | inl b ↦ rw b (avail_resp-Agree f s o h)
            | inr b ↦ rw b (
                put-Agree i _ x s _ w
                  (law.aem_keeps now o.notification_id o.status f x.end_station s.aecp) refl refl h)
          ]
    aecp_message-Agree address_access_response now f i x s o w h =
        put-Agree i _ x s _ w (law.aa_keeps o.notification_id o.status f x.end_station s.aecp) refl
          refl h
    aecp_message-Agree aem_command now f i x s o w h = h
    aecp_message-Agree address_access_command now f i x s o w h = h
    aecp_message-Agree other_message now f i x s o w h = h

    rx_aecp-Agree :
        (to_us : Bool) (now : ℕ) (f : F) (s : ControllerState C F) (o : Received)
        → Agree s
        → Agree (rx_aecp k p q r e to_us now f s o).0
    unfolding rx_aecp
    rx_aecp-Agree false now f s o h = h
    rx_aecp-Agree true now f s o h =
        elim (Option-cases (find_in_end_station k p q r e (p.stream_id f) f s.end_station_vec)) [
          | inl n ↦ rw (n, rx_aecp) h
          | inr (i, n) ↦ elim (Option-cases (get_elem? s.end_station_vec i)) [
            | inl w ↦ rw (n, rx_aecp, w) h
            | inr (x, w) ↦
                rw (n, rx_aecp, w) (aecp_message-Agree (p.message_type f) now f i x s o w h)
          ]
        ]

    rx_acmp-Agree :
        (unset now : ℕ) (f : F) (s : ControllerState C F) (o : Received)
        → Agree s
        → Agree (rx_acmp k p q r e unset now f s o).0
    unfolding rx_acmp
    rx_acmp-Agree unset now f s o h =
        elim (Option-cases (
          find_in_end_station k p q r e
            (acmp_entity_id k p q r e unset (q.class (q.message_type f)) f) f s.end_station_vec)) [
              | inl n ↦ rw (n, rx_acmp) (same-Agree s _ refl refl h)
              | inr (i, n) ↦ elim (Option-cases (get_elem? s.end_station_vec i)) [
                | inl w ↦ rw (n, rx_acmp, w) (same-Agree s _ refl refl h)
                | inr (x, w) ↦
                    rw (n, rx_acmp, w)
                      (put-Agree i _ x s _ w
                        (law.acmp_keeps o.notification_id o.status f x.end_station s.acmp) refl refl
                        h)
              ]
            ]

    rx_subtype-Agree :
        (t : Subtype) (to_us : Bool) (unset now : ℕ) (f : F) (s : ControllerState C F)
        (o : Received)
        → Agree s
        → Agree (rx_subtype k p q r e t to_us unset now f s o).0
    unfolding rx_subtype
    rx_subtype-Agree adp_subtype to_us unset now f s o h = elim (Bool-cases (k.is_ignored f)) [
      | inl b ↦ rw b h
      | inr b ↦ rw b (rx_adp-Agree now f s h)
    ]
    rx_subtype-Agree aecp_subtype to_us unset now f s o h = rx_aecp-Agree to_us now f s o h
    rx_subtype-Agree acmp_subtype to_us unset now f s o h = rx_acmp-Agree unset now f s o h
    rx_subtype-Agree other_subtype to_us unset now f s o h = h

    pub rx_packet_event-Agree :
        (unset now : ℕ) (f : F) (s : ControllerState C F) (o : Received)
        → Agree s
        → Agree (rx_packet_event k p q r e unset now f s o).0
    unfolding rx_packet_event
    rx_packet_event-Agree unset now f s o h =
        elim (Bool-cases (
          (convert_eui48_to_uint64 (k.dest_address f) == k.mac_addr)
          || (convert_eui48_to_uint64 (k.dest_address f) / 1099511627776 % 2 == 1))) [
            | inl b ↦ rw b (rx_subtype-Agree (k.subtype f) _ unset now f s _ h)
            | inr b ↦ rw b h
          ]
