-- ===== src/Ring.antt =====
-- The ring buffers of controller/lib/src/notification.{h,cpp} and log.{h,cpp} and the threads that
-- empty them, linux/notification_imp.cpp and linux/log_imp.cpp. An entry is a value of `A`; indices
-- are uint32_t; `signals` is the value of the semaphore that a post releases and a dispatch takes.
pub mod Order
mod Tests
use avdecc_lib.Prelude.{
  ℕ, ◌+◌, ◌-◌, ◌%◌, Bool, true, false, Option, none, some, List, [], ◌∷◌, if◌then◌else◌, ltb, leb,
  ◌==◌, u32, u32_mod,
}
use avdecc_lib.Output.{
  Notification, NotificationType, no_match_found, end_station_connected, end_station_disconnected,
  command_timeout, response_received, end_station_read_completed, LogLevel, error, warning, notice,
  info, debug, verbose,
}

-- NOTIFICATION_BUF_COUNT and LOG_BUF_COUNT.
abbrev pub buf_count : ℕ
buf_count = 32

pub record Ring (A : Type 0) : Type 0 where
  pub read_index : ℕ
  pub write_index : ℕ
  pub missed_event_cnt : ℕ
  pub buf : ℕ → A
  pub signals : ℕ

-- What one round of the dispatch thread does: it waits for a signal, it hands an entry to the
-- callback, or it ends.
pub data Round (A : Type 0) : Type 0 where
  blocked : Round A
  delivered : A → Ring A → Round A
  ended : Ring A → Round A

module _ {A : Type 0} where
  -- The constructor; the buffer's first content is not set.
  abbrev pub new_ring : (ℕ → A) → Ring A
  new_ring garbage = record {
    read_index = 0;
    write_index = 0;
    missed_event_cnt = 0;
    buf = garbage;
    signals = 0;
  }

  -- write_index - read_index, as uint32_t.
  abbrev pub used : Ring A → ℕ
  used r = u32 (r.write_index + u32_mod - r.read_index)

  abbrev pub store : (ℕ → A) → ℕ → A → ℕ → A
  store buf i a j = if j == i then a else buf j

  unfoldable pub post : A → Ring A → Ring A
  post a r =
      if ltb buf_count (used r)
      then record r { missed_event_cnt = u32 (r.missed_event_cnt + 1) }
      else record r {
        write_index = u32 (r.write_index + 1);
        buf = store r.buf (r.write_index % buf_count) a;
        signals = r.signals + 1;
      }

  unfoldable pub dispatch : Ring A → Round A
  dispatch r =
      if r.signals == 0
      then blocked
      else (let s = record r { signals = r.signals - 1 } in
          if ltb 0 (used s)
          then delivered (s.buf (s.read_index % buf_count))
              (record s { read_index = u32 (s.read_index + 1) })
          else ended s)

-- The test of the notification type: each of the six values passes.
abbrev pub is_notification_type : NotificationType → Bool
is_notification_type no_match_found = true
is_notification_type end_station_connected = true
is_notification_type end_station_disconnected = true
is_notification_type command_timeout = true
is_notification_type response_received = true
is_notification_type end_station_read_completed = true

unfoldable pub post_notification_msg : Notification → Ring Notification → Ring Notification
post_notification_msg n r =
    if ltb buf_count (used r)
    then post n r
    else (if is_notification_type n.notification_type then post n r else r)

-- The value of a level in enum logging_levels.
abbrev pub level_value : LogLevel → ℕ
level_value error = 0
level_value warning = 1
level_value notice = 2
level_value info = 3
level_value debug = 4
level_value verbose = 5

-- A log line: its level and its text, which vsprintf_s makes.
pub record LogData (M : Type 0) : Type 0 where
  pub level : LogLevel
  pub msg : M
  pub time_stamp_ms : ℕ

pub record Log (M : Type 0) : Type 0 where
  pub log_level : ℕ
  pub ring : Ring (LogData M)

module _ {M : Type 0} where
  unfoldable pub post_log_msg : LogLevel → M → Log M → Log M
  post_log_msg level msg l =
      if leb (level_value level) l.log_level
      then record l { ring = post (record { level = level; msg = msg; time_stamp_ms = 0 }) l.ring }
      else l
