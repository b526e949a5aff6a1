-- ===== src/Sink/Failures.antt =====
-- Network failures: their detection, the switch to buffering, the recovery task, and the events of
-- the buffer manager.

pub mod Messages
pub mod Backoff
pub mod Recovery
use gst_kvs_sink.Common.{
  ℕ, ◌+◌, ◌-◌, ◌*◌, ◌%◌, ◌^◌, Bool, true, false, ◌&&◌, ◌||◌, Option, none, some, List, [], ◌∷◌,
  ◌++◌, map, leb, if◌then◌else◌, min, Text, codes, Result, ok, err, panic,
}
use gst_kvs_sink.Common.Words.{u64_limit}
use gst_kvs_sink.Common.Time.{ClockApi, Duration, from_secs}
use gst_kvs_sink.MediaUploader.{MediaUploader}
use gst_kvs_sink.Buffer.Names.{contains}
use gst_kvs_sink.Buffer.World.{Buffer, BufferManagerEvent, historical_upload_complete, upload_error}
use gst_kvs_sink.Buffer.Upload.{trigger_upload_all}
use gst_kvs_sink.Sink.State.{UploadMode, immediate, buffer_only, State, Sink}
use gst_kvs_sink.Sink.Render.{set_duration, update_fragment_duration, is_immediate, with_state}

-- `to_lowercase`, of ASCII.
unfoldable pub to_lower : ℕ → ℕ
to_lower c = if leb 65 c && leb c 90 then c + 32 else c

-- `is_network_error_str`
unfoldable pub is_network_error_str : Text → Bool
unfolding to_lower
is_network_error_str text =
    let lower = map to_lower text in
    contains (codes "connection") lower
    || (contains (codes "network") lower
        || (contains (codes "timeout") lower
            || (contains (codes "dns") lower || contains (codes "resolve") lower)))

-- The delay before a recovery attempt, in seconds: `u64` arithmetic, wrapping as in a build
-- without overflow checks.
unfoldable pub backoff_secs : ℕ → ℕ
backoff_secs failures = 30 * (2 ^ (failures - 1) % u64_limit) % u64_limit

unfoldable pub recovery_delay : ℕ → Duration
recovery_delay failures = from_secs (min (backoff_secs failures) 300)

-- `switch_mode`: the switch waits for the next key frame.
unfoldable pub switch_mode : UploadMode → State → State
switch_mode m st = record st {
  pending_mode_switch = some m;
  recovery_task = if is_immediate m then false else st.recovery_task;
}

-- One event in `process_buffer_events`.
unfoldable pub handle_event : BufferManagerEvent → State → State
handle_event (historical_upload_complete true) st =
    switch_mode immediate (record st { consecutive_failures = 0; recovery_task = false })
handle_event (historical_upload_complete false) st = switch_mode buffer_only st
handle_event (upload_error e) st = st

unfoldable pub handle_events : List BufferManagerEvent → State → State
handle_events [] st = st
handle_events (e ∷ es) st = handle_events es (handle_event e st)

abbrev pub received : Option (List BufferManagerEvent) → List BufferManagerEvent
received none = []
received (some events) = events

abbrev pub drained : Option (List BufferManagerEvent) → Option (List BufferManagerEvent)
drained none = none
drained (some events) = some []

module _ {U : Type 0} where
  -- The sections of `handle_network_failure` behind its first test, each under a lock of its own:
  -- the mode and the count of failures, then the fragment duration, and at last the handle of the
  -- spawned task.
  unfoldable pub enter_buffering : Sink U → Sink U
  enter_buffering s = record s {
    state = record (s.state) {
      current_mode = buffer_only;
      consecutive_failures = s.state.consecutive_failures + 1;
      last_recovery_attempt = some s.instant;
    };
  }

  unfoldable pub store_task : Sink U → Sink U
  store_task s = record s {
    state = record (s.state) {
      recovery_task = s.state.recovery_task || s.state.has_buffer_manager;
    };
  }

  -- `handle_network_failure`: the sections one after the other, with no other task between them.
  unfoldable pub handle_network_failure : Sink U → Sink U
  unfolding enter_buffering set_duration store_task
  handle_network_failure s =
      if s.state.recovery_task then s else store_task (set_duration buffer_only (enter_buffering s))

  -- `process_buffer_events`
  unfoldable pub process_buffer_events : Sink U → Sink U
  process_buffer_events s =
      if s.state.has_buffer_event_rx
      then record s {
        state = handle_events (received s.buffer.events) s.state;
        buffer = record (s.buffer) { events = drained s.buffer.events };
      }
      else s

module _ {U : Type 0} (clock : ClockApi) (uploader : MediaUploader U) where
  -- One round of the recovery task behind its delay: whether the task goes on, and the state.
  unfoldable pub recovery_attempt : Sink U → Bool × Sink U
  recovery_attempt s =
      let (r, b) = trigger_upload_all clock uploader none none s.buffer in
      let s' : Sink U = record s { buffer = b } in
      elim r [
        | ok _ ↦ (
          false,
          process_buffer_events (
              with_state (record (s'.state) { consecutive_failures = 0; recovery_task = false })
                s'),
        )
        | err e ↦
            if is_network_error_str e
            then (
              true,
              with_state
                  (record (s'.state) { consecutive_failures = s'.state.consecutive_failures + 1 })
                  s',
            )
            else (true, s')
        | panic ↦ (false, s')
      ]

  -- `KvsSink::trigger_upload`, and the task of the `trigger-upload` signal with its time range.
  unfoldable pub trigger_upload : Option ℕ → Option ℕ → Sink U → Result (Unit {0}) × Sink U
  trigger_upload start end s =
      if s.state.has_buffer_manager
      then (let (r, b) = trigger_upload_all clock uploader start end s.buffer in
          let s' : Sink U = record s { buffer = b } in
          elim r [
            | ok _ ↦ (ok tt, process_buffer_events s')
            | err e ↦ (err (codes "Failed to trigger upload: " ++ e), s')
            | panic ↦ (panic, s')
          ])
      else (ok tt, s)
