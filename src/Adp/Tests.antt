-- ===== src/Adp/Tests.antt =====
-- An end station that comes, goes and comes again; a frame is an entity id and a valid time.
use avdecc_lib.Prelude.{ℕ, ◌≡◌, refl, true, some, List, [], ◌∷◌, map}
use avdecc_lib.Timer.{start, timeout}
use avdecc_lib.Output.{posted}
use avdecc_lib.Adp.{
  Adpdu, new_discovery, have_entity, poll_entities, state_avail, tick, disconnect, state_timeout,
  state_discover, common_hdr_init, tx_discover,
}
use avdecc_lib.Adp.Presence.{Call, avail, ticks, run, presence, presence-run}
use avdecc_lib.Adp.EntityList.{present}

abbrev test_pdu : Adpdu (ℕ × ℕ)
test_pdu = record {
  entity_id = λ f. f.0;
  valid_time = λ f. f.1;
  ether_frame = λ a n. (a, n);
  write_header = λ h f. (h.entity_id, 0);
  is_written = λ h f. true;
  mac_addr = 1;
  is_sent = λ f. true;
}

abbrev coming_and_going : List (Call (ℕ × ℕ))
coming_and_going =
    ticks 0
    ∷ avail 100 (7, 1)
    ∷ avail 1500 (7, 1)
    ∷ ticks 3000
    ∷ ticks 3501
    ∷ avail 4000 (7, 1)
    ∷ avail 4000 (8, 31)
    ∷ ticks 7000
    ∷ []

coming_and_going-posted :
    map (λ n. n.entity_id) (posted (run test_pdu coming_and_going new_discovery).out)
    ≡ 7 ∷ 8 ∷ 7 ∷ 7 ∷ 7 ∷ []
unfolding have_entity poll_entities state_avail tick disconnect state_timeout state_discover
    common_hdr_init tx_discover start timeout
coming_and_going-posted = refl

presence-run_example :
    presence 8 (posted (run test_pdu coming_and_going new_discovery).out)
    ≡ some (present 8 (run test_pdu coming_and_going new_discovery).entities_vec)
presence-run_example = (presence-run test_pdu coming_and_going).1 8
