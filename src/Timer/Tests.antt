-- ===== src/Timer/Tests.antt =====
-- A timer polled across the wrap of the 32-bit clock.
use avdecc_lib.Prelude.{◌+◌, ◌≡◌, refl, true, false, arith}
use avdecc_lib.Timer.{new_timer, start, timeout}
use avdecc_lib.Timer.Expiry.{timeout-start}

timeout-start_example : (timeout (4294967000 + 500) (start 250 4294967000 new_timer)).elapsed ≡ true
timeout-start_example =
    (timeout-start 250 4294967000 500 new_timer (omega arith) (omega arith)).1 (omega arith)

not_yet : (timeout (4294967000 + 250) (start 250 4294967000 new_timer)).elapsed ≡ false
unfolding timeout start
not_yet = refl
