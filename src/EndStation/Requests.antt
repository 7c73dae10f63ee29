-- ===== src/EndStation/Requests.antt =====
-- The two lists of background read requests of end_station_imp, m_backbround_read_pending and
-- m_backbround_read_inflight, and the operations on them. A descriptor type and index are uint16_t.
use avdecc_lib.Prelude.{
  ℕ, zero, suc, ◌+◌, Bool, true, false, ◌&&◌, Option, none, some, List, [], ◌∷◌, ◌++◌,
  if◌then◌else◌, ◌==◌, u16,
}
use avdecc_lib.Timer.{Timer, new_timer, start, timeout}
use avdecc_lib.Output.{LogLevel, error, debug}

-- background_read_request.
pub record Request : Type 0 where
  pub desc_type : ℕ
  pub index : ℕ
  pub request_timer : Timer

-- What the end station does: it queues a READ_DESCRIPTOR command without notification for
-- transmission, it posts END_STATION_READ_COMPLETED for an entity id, or NO_MATCH_FOUND for a command
-- type, it logs.
pub data Action : Type 0 where
  read_desc_init : ℕ → ℕ → Action
  read_completed : ℕ → Action
  no_match_found : ℕ → Action
  post_log_msg : LogLevel → Action

pub record Background : Type 0 where
  pub pending : List Request
  pub inflight : List Request
  -- The newest first.
  pub actions : List Action

abbrev pub no_background : Background
no_background = record { pending = []; inflight = []; actions = [] }

abbrev pub act : Action → Background → Background
act a b = record b { actions = a ∷ b.actions }

abbrev pub background_read_request : ℕ → ℕ → Request
background_read_request t i = record { desc_type = t; index = u16 i; request_timer = new_timer }

-- The requests of the loop from index `i` on, `count` of them.
unfoldable pub requests : ℕ → ℕ → ℕ → List Request
requests desc_type i zero = []
requests desc_type i (suc count) =
    background_read_request desc_type i ∷ requests desc_type (i + 1) count

unfoldable pub queue_background_read_request : ℕ → ℕ → ℕ → Background → Background
queue_background_read_request desc_type desc_base_index desc_count b = record b {
  pending = b.pending ++ requests desc_type desc_base_index desc_count;
}

abbrev pub poll : ℕ → Request → Request
poll now r = record r { request_timer = timeout now r.request_timer }

-- The loop of `background_read_update_timeouts`: the list it leaves, and the log lines.
unfoldable pub update_timeouts : ℕ → List Request → List Action → List Request × List Action
update_timeouts now [] actions = ([], actions)
update_timeouts now (r ∷ rs) actions =
    let expired = (poll now r).request_timer.elapsed in
    let (kept, logged) =
      update_timeouts now rs (if expired then post_log_msg error ∷ actions else actions) in
    (if expired then kept else poll now r ∷ kept, logged)

unfoldable pub background_read_update_timeouts : ℕ → Background → Background
background_read_update_timeouts now b =
    let (kept, logged) = update_timeouts now b.inflight b.actions in
    record b { inflight = kept; actions = logged }

abbrev pub is_read : ℕ → Option ℕ → Request → Bool
is_read desc_type none r = false
is_read desc_type (some i) r = (r.desc_type == desc_type) && (r.index == i)

-- The loop of `background_read_update_inflight`.
unfoldable pub without_read : ℕ → Option ℕ → List Request → List Request
without_read desc_type desc_index [] = []
without_read desc_type desc_index (r ∷ rs) =
    let rest = without_read desc_type desc_index rs in
    if is_read desc_type desc_index r then rest else r ∷ rest

-- The argument `desc_index` is what desc_index_from_frame finds.
unfoldable pub background_read_update_inflight : ℕ → Option ℕ → Background → Background
background_read_update_inflight desc_type desc_index b = record b {
  inflight = without_read desc_type desc_index b.inflight;
}

-- A request leaves the front of the pending list: the body of the loop, as the first time.
unfoldable pub submit : ℕ → Request → List Request → Background → Background
submit now r rest b = record b {
  pending = rest;
  inflight = b.inflight ++ record r { request_timer = start 750 now r.request_timer } ∷ [];
  actions = read_desc_init r.desc_type r.index ∷ post_log_msg debug ∷ b.actions;
}

-- The loop of `background_read_submit_pending`, over the pending list.
unfoldable pub submit_same : ℕ → ℕ → List Request → Background → Background
submit_same now desc_type [] b = b
submit_same now desc_type (r ∷ rest) b =
    let more = submit_same now desc_type rest (submit now r rest b) in
    if r.desc_type == desc_type then more else b

unfoldable pub submit_list : ℕ → List Request → Background → Background
submit_list now [] b = b
submit_list now (r ∷ rest) b = submit_same now r.desc_type rest (submit now r rest b)

abbrev pub is_empty : List Request → Bool
is_empty [] = true
is_empty (_ ∷ _) = false

unfoldable pub background_read_submit_pending : ℕ → Background → Background
background_read_submit_pending now b =
    if is_empty b.inflight then submit_list now b.pending b else b
