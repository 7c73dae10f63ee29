-- ===== src/Aecp/Operations.antt =====
-- Operations: from start_operation to the response that ends one.
use avdecc_lib.Prelude.{
  ℕ, ◌≡◌, ◌⊎◌, refl, ap, inl, inr, true, false, none, some, ◌∷◌, find_if, erase_first,
  if◌then◌else◌, ◌==◌, ◌&&◌, ◌||◌, Bool-cases, Option-cases,
}
use avdecc_lib.Output.{posted, sent_frames, cmd_with_notification}
use avdecc_lib.Aecp.Pdu.{Aecpdu}
use avdecc_lib.Aecp.Callback.{
  callback-inflight_cmds, callback-active_operations, sent_frames-callback, posted-callback, report,
}
use avdecc_lib.Aecp.Machine.{
  Aecp, Operation, operation_id_comp, update_operation_for_rcvd_resp, is_response,
}

module _ {F : Type 0} (p : Aecpdu F) where
  -- A response about an operation sends nothing and leaves the commands in flight alone. If no operation with the id is active it changes nothing and is answered by -1 and the caller's notification id. Otherwise it is answered by 1 and the notification id of the first such operation; that operation is removed exactly when the response says 0 or 1000 per mille, and a response to an operation that wants a notification is reported once under its notification id.
  pub update_operation_lem :
      (nid oid percent : ℕ) (f : F) (m : Aecp F)
      → let (m', id, found) = update_operation_for_rcvd_resp p nid oid percent f m in
        (m'.inflight_cmds ≡ m.inflight_cmds)
        × (sent_frames m'.out ≡ sent_frames m.out)
        × (((find_if (operation_id_comp oid) m.active_operations ≡ none)
              × (m' ≡ m)
              × (id ≡ nid)
              × (found ≡ false))
            ⊎ ((j : Operation F) × (find_if (operation_id_comp oid) m.active_operations ≡ some j)
                × (id ≡ j.cmd_notification_id)
                × (found ≡ true)
                × (m'.active_operations ≡ (
                    if (percent == 0) || (percent == 1000)
                    then erase_first (operation_id_comp oid) m.active_operations
                    else m.active_operations))
                × (posted m'.out ≡ (
                    if (j.cmd_notification_flag == cmd_with_notification)
                      && is_response (p.message_type f)
                    then report p j.cmd_notification_id j.cmd_notification_flag f m ∷ posted m.out
                    else posted m.out))))
  unfolding update_operation_for_rcvd_resp
  update_operation_lem nid oid percent f m =
      elim (Option-cases (find_if (operation_id_comp oid) m.active_operations)) [
        | inl e ↦ rw (e, update_operation_for_rcvd_resp) (refl, refl, inl (refl, refl, refl, refl))
        | inr (j, e) ↦
            let c = callback-inflight_cmds p j.cmd_notification_id j.cmd_notification_flag f m in
            let o =
              callback-active_operations p j.cmd_notification_id j.cmd_notification_flag f m in
            let t = sent_frames-callback p j.cmd_notification_id j.cmd_notification_flag f m in
            let n = posted-callback p j.cmd_notification_id j.cmd_notification_flag f m in
            elim (Bool-cases ((percent == 0) || (percent == 1000))) [
              | inl q ↦
                  rw (e, update_operation_for_rcvd_resp, q)
                    (c, t, inr (j, refl, refl, refl, ap (erase_first (operation_id_comp oid)) o, n))
              | inr q ↦
                  rw (e, update_operation_for_rcvd_resp, q) (c, t, inr (j, refl, refl, refl, o, n))
            ]
      ]
