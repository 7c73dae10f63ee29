-- ===== src/EndStation/Batch.antt =====
-- Background reads make progress without any answer: what is in flight times out, and each tick
-- then sends the next requests.
use avdecc_lib.Prelude.{ℕ, ◌+◌, ◌<◌, ◌≡◌, true, List, [], ◌∷◌, u32}
use avdecc_lib.EndStation.Requests.{
  Request, Background, background_read_update_timeouts, background_read_submit_pending,
}

-- What controller_imp::time_tick_event does for an end station.
unfoldable pub tick : ℕ → Background → Background
tick now b = background_read_submit_pending now (background_read_update_timeouts now b)

abbrev pub ticks : List ℕ → Background → Background
ticks [] b = b
ticks (now ∷ times) b = ticks times (tick now b)

-- The times lie more than 750 ms and less than 2^32 ms apart.
abbrev pub Spaced : ℕ → List ℕ → Type 0
Spaced last [] = Unit {0}
Spaced last (now ∷ times) = (last + 750 < now) × (now < last + 4294967296) × Spaced now times

-- The request was sent at the time.
pub record IsSentAt (at_ms : ℕ) (r : Request) : Type 0 where
  pub timed : r.request_timer.running ≡ true
  pub count : r.request_timer.count ≡ 750
  pub start_time : r.request_timer.start_time ≡ u32 at_ms
