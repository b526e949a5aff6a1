-- ===== src/Sink/Signals.antt =====
-- The action signal `trigger-upload`, its task, and the smaller calls on the element.
pub mod Outcome
use gst_kvs_sink.Common.{
  ℕ, zero, suc, Bool, true, false, Option, none, some, List, [], ◌∷◌, if◌then◌else◌, Text, Result,
  ok, err, panic,
}
use gst_kvs_sink.Common.Time.{SystemTime, Instant, ClockApi}
use gst_kvs_sink.MediaUploader.{MediaUploader}
use gst_kvs_sink.Buffer.World.{Buffer}
use gst_kvs_sink.Buffer.Upload.{BufferStats, stats, trigger_upload_all}
use gst_kvs_sink.Sink.Settings
use gst_kvs_sink.Sink.State
use gst_kvs_sink.Sink.State.{Sink}
use gst_kvs_sink.Sink.Render.{with_state}
use gst_kvs_sink.Sink.Failures.{process_buffer_events}

-- The time library: a time that `parse_from_rfc3339` reads, as `SystemTime::from` converts it, and
-- the text of a time.
pub record Chrono : Type 0 where
  pub parse_from_rfc3339 : Text → Option SystemTime
  pub to_rfc3339 : SystemTime → Text

-- A value of the signal: the element, an optional text, or something else.
pub data Argument : Type 0 where
  element : Argument
  text : Option Text → Argument
  other : Argument

-- The messages that the signal's task posts on the bus.
pub data Message : Type 0 where
  upload_trigger_success : Option Text → Option Text → Message
  upload_trigger_error : Text → Option Text → Option Text → Message

-- `arg.get::<Option<String>>().ok().flatten()`
unfoldable pub get_option_text : Argument → Option Text
get_option_text element = none
get_option_text (text t) = t
get_option_text other = none

-- `args.get(n).and_then(..)`
unfoldable pub get_argument : ℕ → List Argument → Option Text
get_argument n [] = none
get_argument zero (a ∷ args) = get_option_text a
get_argument (suc n) (a ∷ args) = get_argument n args

unfoldable pub is_element : List Argument → Bool
is_element [] = false
is_element (element ∷ args) = true
is_element (text t ∷ args) = false
is_element (other ∷ args) = false

abbrev pub bind : {A B : Type 0} → Option A → (A → Option B) → Option B
bind none f = none
bind (some a) f = f a

abbrev pub map_option : {A B : Type 0} → (A → B) → Option A → Option B
map_option f none = none
map_option f (some a) = some (f a)

module _ {U : Type 0} where
  -- `buffer_stats`
  unfoldable pub buffer_stats : Bool → Sink U → Option BufferStats
  buffer_stats manager_locked s =
      if s.state.has_buffer_manager
      then (if manager_locked then none else some (stats s.buffer))
      else none

  -- `cancel_recovery_task`: whether there was one, and the state without it.
  unfoldable pub cancel_recovery_task : Sink U → Bool × Sink U
  cancel_recovery_task s =
      if s.state.recovery_task
      then (true, with_state (record (s.state) { recovery_task = false }) s)
      else (false, s)

  -- `KvsSink::new`, on the buffer directory and the clocks of a process, with an uploader.
  unfoldable pub new : U → Buffer U → Instant → Option Text → Sink U
  new uploader world instant region = record {
    settings = Settings.default region;
    state = State.default;
    buffer = record world { uploader = uploader };
    uploader_locked = false;
    instant = instant;
  }

  -- `set_uploader`
  unfoldable pub set_uploader : U → Sink U → Sink U
  set_uploader uploader s = record s { buffer = record (s.buffer) { uploader = uploader } }

module _ (chrono : Chrono) where
  -- A time of the signal: a text that is no time counts as none.
  unfoldable pub argument_time : ℕ → List Argument → Option SystemTime
  argument_time n args = bind (get_argument n args) chrono.parse_from_rfc3339

  -- The signal's handler: what it returns, and the task that it spawns, by its time range.
  unfoldable pub trigger_upload_signal :
      {U : Type 0} → List Argument → Sink U → Bool × Option (Option SystemTime × Option SystemTime)
  unfolding argument_time
  trigger_upload_signal args s =
      if is_element args
      then (if s.state.has_buffer_manager
          then (true, some (argument_time 1 args, argument_time 2 args))
          else (false, none))
      else (false, none)

module _ {U : Type 0} (clock : ClockApi) (chrono : Chrono) (uploader : MediaUploader U) where
  -- The task: the messages that it posts, and the state. A panic ends it without a message.
  unfoldable pub upload_trigger_task :
      Option SystemTime → Option SystemTime → Sink U → List Message × Sink U
  upload_trigger_task start end s =
      let (r, b) = trigger_upload_all clock uploader start end s.buffer in
      let s' : Sink U = record s { buffer = b } in
      let from = map_option chrono.to_rfc3339 start in
      let to = map_option chrono.to_rfc3339 end in
      elim r [
        | ok _ ↦ (upload_trigger_success from to ∷ [], process_buffer_events s')
        | err e ↦ (upload_trigger_error e from to ∷ [], s')
        | panic ↦ ([], s')
      ]
