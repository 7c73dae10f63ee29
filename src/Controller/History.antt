-- ===== src/Controller/History.antt =====
-- Histories of the controller: packets received and sent, and time ticks.
use avdecc_lib.Prelude.{ℕ, ◌≡◌, refl, ap, sym, Bool, Option, none, some, List, [], ◌∷◌, arith, All}
use mathlib.Core.Path.{◌∙◌}
use avdecc_lib.Aecp.Pdu.{Aecpdu}
use avdecc_lib.Aecp.Machine.{new_aecp}
use avdecc_lib.Acmp.Machine.{Acmpdu, new_acmp}
use avdecc_lib.Adp.{Adpdu, new_discovery}
use avdecc_lib.Adp as AdpMachine
use avdecc_lib.Adp.Presence.{tick-Inv}
use avdecc_lib.Adp.Changes.{present-tick, left}
use avdecc_lib.Adp.EntityList.{present}
use avdecc_lib.Controller.State.{
  Station, ControllerState, background_tick, disconnect_station, time_tick_event,
}
use avdecc_lib.Controller.Packets.{rx_packet_event, tx_subtype, tx_packet_event}
use avdecc_lib.Controller.Interface.{
  Packet, Responses, Received, Subtype, adp_subtype, aecp_subtype, acmp_subtype, other_subtype,
}
use avdecc_lib.Controller.Connected.{
  mark, id_of, status_of, IsMarked, Unique, Unique-modify_first, All-modify_first, Unique-map,
  All-map_same,
}
use avdecc_lib.Controller.Agreement.{IsResponses, Agree, same-Agree, rx_packet_event-Agree}

pub data Event (F : Type 0) : Type 0 where
  receives : ℕ → ℕ → F → Received → Event F
  sends : ℕ → ℕ → ℕ → F → Event F
  ticks : ℕ → Event F

abbrev pub new_controller : {C F : Type 0} → ControllerState C F
new_controller = record {
  aecp = new_aecp;
  acmp = new_acmp;
  discovery = new_discovery;
  end_station_vec = [];
  logged = [];
}

module _ {C F : Type 0} (k : Packet F) (p : Aecpdu F) (q : Acmpdu F) (r : Adpdu F)
    (e : Responses C F) where
  abbrev pub apply : Event F → ControllerState C F → ControllerState C F
  apply (receives unset now f o) s = (rx_packet_event k p q r e unset now f s o).0
  apply (sends now nid flag f) s = tx_packet_event k p q r e now nid flag f s
  apply (ticks now) s = time_tick_event p q r now s

  abbrev pub run : List (Event F) → ControllerState C F → ControllerState C F
  run [] s = s
  run (v ∷ vs) s = run vs (apply v s)

  tx_subtype-Agree :
      (t : Subtype) (now nid flag : ℕ) (f : F) (s : ControllerState C F)
      → Agree s
      → Agree (tx_subtype k p q r e t now nid flag f s)
  unfolding tx_subtype
  tx_subtype-Agree adp_subtype now nid flag f s h = same-Agree k p q r e s _ refl refl h
  tx_subtype-Agree aecp_subtype now nid flag f s h = same-Agree k p q r e s _ refl refl h
  tx_subtype-Agree acmp_subtype now nid flag f s h = same-Agree k p q r e s _ refl refl h
  tx_subtype-Agree other_subtype now nid flag f s h = same-Agree k p q r e s _ refl refl h

  disconnect-IsMarked :
      (gone : Option ℕ) (here there : ℕ → Bool) (ss : List (Station C))
      → ((j : ℕ) → there j ≡ left r gone j (here j))
      → Unique ss
      → All (IsMarked here) ss
      → Unique (disconnect_station gone ss) × All (IsMarked there) (disconnect_station gone ss)
  unfolding disconnect_station
  disconnect-IsMarked none here there ss d u a = (u, keep ss a)
    where
      keep : (ts : List (Station C)) → All (IsMarked here) ts → All (IsMarked there) ts
      keep [] b = tt
      keep (t ∷ ts) b = (b.0 ∙ ap mark (sym (d (id_of t))), keep ts b.1)
  disconnect-IsMarked (some id) here there ss d u a = (
    Unique-modify_first _ (λ s. refl) id ss u,
    All-modify_first _ (λ s. refl) here there id ss (λ j n. d j ∙ ground (arith, n))
        (d id ∙ ground arith) (λ s. refl) u a,
  )

  time_tick_event-Agree :
      (now : ℕ) (s : ControllerState C F) → Agree s → Agree (time_tick_event p q r now s)
  unfolding time_tick_event background_tick
  time_tick_event-Agree now s h =
      let marked =
        disconnect-IsMarked (AdpMachine.tick r now s.discovery).1
          (λ j. present j s.discovery.entities_vec)
          (λ j. present j (AdpMachine.tick r now s.discovery).0.entities_vec) s.end_station_vec
          (λ j. present-tick r now s.discovery j h.discovery) h.unique h.marked in
      record {
        discovery = tick-Inv r now s.discovery h.discovery;
        unique = Unique-map (background_tick now) (λ t. refl) _ marked.0;
        marked =
            All-map_same (λ j. present j (AdpMachine.tick r now s.discovery).0.entities_vec)
              (background_tick now) _ (λ t. (refl, refl)) marked.1;
      }

  run-Agree :
      IsResponses e → (vs : List (Event F)) (s : ControllerState C F) → Agree s → Agree (run vs s)
  unfolding tx_packet_event
  run-Agree law [] s h = h
  run-Agree law (receives unset now f o ∷ vs) s h =
      run-Agree law vs _ (rx_packet_event-Agree k p q r e law unset now f s o h)
  run-Agree law (sends now nid flag f ∷ vs) s h =
      run-Agree law vs _ (tx_subtype-Agree (k.subtype f) now nid flag f s h)
  run-Agree law (ticks now ∷ vs) s h = run-Agree law vs _ (time_tick_event-Agree now s h)

  -- If what an end station does with a response of its own leaves its entity id and its connection status alone, then after every history of packets received and sent and of time ticks from a new controller no two end stations have the same entity id, and each end station has the status connected if the ADP discovery state machine holds its entity id, and the status disconnected otherwise.
  pub status-run :
      IsResponses e
      → (vs : List (Event F))
      → let s = run vs new_controller in
        Unique s.end_station_vec
        × All
            (λ t. status_of t ≡ mark (present (id_of t) s.discovery.entities_vec))
            s.end_station_vec
  status-run law vs = (h.unique, h.marked)
    where
      h : Agree (run vs new_controller)
      h = run-Agree law vs new_controller (record {
        discovery = record { distinct = tt; told = λ id. refl };
        unique = tt;
        marked = tt;
      })
