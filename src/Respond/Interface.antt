-- ===== src/Respond/Interface.antt =====
-- The responses of an end station as the interface `Responses` of the controller, and what follows
-- for the controller. The interface has no fault: where the dispatch ends the program, its answer
-- stands for no state and leaves everything as it was.
use avdecc_lib.Prelude.{ℕ, ◌≡◌, refl, Option, none, some, List, All}
use avdecc_lib.Aecp.Pdu.{Aecpdu}
use avdecc_lib.Acmp.Machine.{Acmpdu}
use avdecc_lib.Adp.{Adpdu}
use avdecc_lib.Adp.EntityList.{present}
use avdecc_lib.Config.Objects.{ConfigurationDescriptor, Frames}
use avdecc_lib.Descriptor.Frames.{Reader}
use avdecc_lib.Controller.Interface.{Answer, Packet, Responses}
use avdecc_lib.Controller.Connected.{mark, id_of, status_of, Unique}
use avdecc_lib.Controller.Agreement.{IsResponses}
use avdecc_lib.Controller.History.{Event, new_controller, run, status-run}
use avdecc_lib.Respond.Objects.{Station, answer}
use avdecc_lib.Respond.Aem.{proc_rcvd_aem_resp, proc_rcvd_aecp_aa_resp}
use avdecc_lib.Respond.Acmp.{proc_rcvd_acmp_resp}
use avdecc_lib.Respond.Same.{Same}
use avdecc_lib.Respond.Identity.{
  Keeps, proc_rcvd_aem_resp-Keeps, proc_rcvd_aecp_aa_resp-Keeps, proc_rcvd_acmp_resp-Keeps,
}

module _ {F M : Type 0} where
  abbrev pub or_stopped :
      Station F → M → ℕ → ℕ → Option (Answer (Station F) M) → Answer (Station F) M
  or_stopped s m nid status none = answer s m nid status none
  or_stopped s m nid status (some a) = a

  or_stopped-Same :
      (s : Station F) (m : M) (nid st : ℕ) (x : Option (Answer (Station F) M))
      → Keeps x s
      → Same (or_stopped s m nid st x).station s
  or_stopped-Same s m nid st none k = (refl, refl)
  or_stopped-Same s m nid st (some a) k = k a refl

module _ {F : Type 0} (p : Aecpdu F) (q : Acmpdu F) (g : Reader F) (n : Frames F) where
  abbrev pub end_station_responses : Responses (ConfigurationDescriptor F) F
  end_station_responses = record {
    proc_rcvd_aem_resp =
        λ now nid st f s m. or_stopped s m nid st (proc_rcvd_aem_resp p g n now nid st f s m);
    proc_rcvd_aecp_aa_resp =
        λ nid st f s m. or_stopped s m nid st (proc_rcvd_aecp_aa_resp p g n nid st f s m);
    proc_rcvd_acmp_resp =
        λ nid st f s m. or_stopped s m nid st (proc_rcvd_acmp_resp q g nid st f s m);
  }

  pub end_station_responses-IsResponses : IsResponses end_station_responses
  end_station_responses-IsResponses = record {
    aem_keeps = λ now nid st f s m.
        or_stopped-Same s m nid st _ (proc_rcvd_aem_resp-Keeps p g n now nid st f s m);
    aa_keeps = λ nid st f s m.
        or_stopped-Same s m nid st _ (proc_rcvd_aecp_aa_resp-Keeps p g n nid st f s m);
    acmp_keeps =
        λ nid st f s m. or_stopped-Same s m nid st _ (proc_rcvd_acmp_resp-Keeps q g nid st f s m);
  }

  -- With end stations that answer as the dispatch over their descriptors does, after every history of packets received and sent and of time ticks from a new controller no two end stations have the same entity id, and each end station has the status connected if the ADP discovery state machine holds its entity id, and the status disconnected otherwise.
  pub status-run_end_stations :
      (k : Packet F) (r : Adpdu F) (vs : List (Event F))
      → let s = run k p q r end_station_responses vs new_controller in
        Unique s.end_station_vec
        × All
            (λ t. status_of t ≡ mark (present (id_of t) s.discovery.entities_vec))
            s.end_station_vec
  status-run_end_stations k r vs =
      status-run k p q r end_station_responses end_station_responses-IsResponses vs
