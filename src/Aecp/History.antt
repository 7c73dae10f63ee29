-- ===== src/Aecp/History.antt =====
-- Histories of the AECP state machine: what the rest of the library calls, one call after another.
use avdecc_lib.Prelude.{arith, ◌+◌, ◌≡◌, ℕ, suc, Bool, List, [], ◌∷◌, if◌then◌else◌, ◌==◌}
use avdecc_lib.Output.{sent_frames}
use avdecc_lib.Aecp.Pdu.{Aecpdu, MessageType}
use avdecc_lib.Aecp.Machine.{
  Aecp, state_send_cmd, update_inflight_for_rcvd_resp, tick, start_operation,
  update_operation_for_rcvd_resp,
}

-- A call of the machine. The numbers are the clock where it is read, then the notification id.
pub data Call (F : Type 0) : Type 0 where
  sends : ℕ → ℕ → ℕ → F → Call F
  receives : ℕ → MessageType → Bool → F → Call F
  ticks : ℕ → Call F
  starts_operation : ℕ → ℕ → ℕ → F → Call F
  reports_operation : ℕ → ℕ → ℕ → F → Call F

module _ {F : Type 0} (p : Aecpdu F) where
  abbrev pub step : Call F → Aecp F → Aecp F
  step (sends now nid flag f) m = state_send_cmd p now nid flag f m
  step (receives nid msg u f) m = (update_inflight_for_rcvd_resp p nid msg u f m).0
  step (ticks now) m = tick p now m
  step (starts_operation nid id type f) m = start_operation p nid id type f m
  step (reports_operation nid id percent f) m =
      (update_operation_for_rcvd_resp p nid id percent f m).0

  abbrev pub run : List (Call F) → Aecp F → Aecp F
  run [] m = m
  run (c ∷ cs) m = run cs (step c m)

  -- How often a frame with the sequence id was handed to the network.
  abbrev pub count_id : ℕ → List F → ℕ
  count_id v [] = 0
  count_id v (f ∷ fs) = let rest = count_id v fs in if p.sequence_id f == v then suc rest else rest

  abbrev pub transmissions : ℕ → Aecp F → ℕ
  transmissions v m = count_id v (sent_frames m.out)

-- How many commands a history submits.
abbrev pub submitted : {F : Type 0} → List (Call F) → ℕ
submitted [] = 0
submitted (sends _ _ _ _ ∷ cs) = suc (submitted cs)
submitted (_ ∷ cs) = submitted cs

pub submitted_cons :
    {F : Type 0} (c : Call F) (cs : List (Call F))
    → submitted (c ∷ cs) ≡ submitted (c ∷ []) + submitted cs
submitted_cons (sends _ _ _ _) cs = omega arith
submitted_cons (receives _ _ _ _) cs = omega arith
submitted_cons (ticks _) cs = omega arith
submitted_cons (starts_operation _ _ _ _) cs = omega arith
submitted_cons (reports_operation _ _ _ _) cs = omega arith
