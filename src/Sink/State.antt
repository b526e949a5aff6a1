-- ===== src/Sink/State.antt =====
-- The state of the element, with the buffer manager and the uploader that it shares.
use gst_kvs_sink.Common.{ℕ, Bool, false, Option, none, List, []}
use gst_kvs_sink.Common.Time.{Instant, ClockTime}
use gst_kvs_sink.Fragment.{Fragment}
use gst_kvs_sink.MkvWriter.{MkvWriter, Frame}
use gst_kvs_sink.Buffer.World.{Buffer}
use gst_kvs_sink.Sink.Settings.{Settings}

pub data UploadMode : Type 0 where
  immediate buffer_only : UploadMode

pub record UploadItem : Type 0 where
  pub fragment : Fragment
  pub mode : UploadMode
  pub starts_new_session : Bool

abbrev pub fragment_queue_capacity : ℕ
fragment_queue_capacity = 64

-- The hand-off channel, oldest item first, and whether its receiver is gone.
pub record Queue : Type 0 where
  pub items : List UploadItem
  pub closed : Bool

-- `State`. A handle of a task, of the manager and of the event channel is kept as whether it is
-- there; what they lead to is in `Sink`.
pub record State : Type 0 where
  pub mkv_writer : Option MkvWriter
  pub current_fragment_start_pts : Option ClockTime
  pub waiting_for_keyframe : Bool
  pub current_fragment_frames : List Frame
  pub has_buffer_manager : Bool
  pub current_mode : UploadMode
  pub has_buffer_event_rx : Bool
  pub recovery_task : Bool
  pub consecutive_failures : ℕ
  pub last_recovery_attempt : Option Instant
  pub pending_mode_switch : Option UploadMode
  pub fragment_tx : Option Queue
  pub upload_task : Bool
  pub pending_new_session : Bool
  pub session_reset_in_flight : Bool
  pub dropped_fragments : ℕ

-- `State::default`
abbrev pub default : State
default = record {
  mkv_writer = none;
  current_fragment_start_pts = none;
  waiting_for_keyframe = false;
  current_fragment_frames = [];
  has_buffer_manager = false;
  current_mode = buffer_only;
  has_buffer_event_rx = false;
  recovery_task = false;
  consecutive_failures = 0;
  last_recovery_attempt = none;
  pending_mode_switch = none;
  fragment_tx = none;
  upload_task = false;
  pending_new_session = false;
  session_reset_in_flight = false;
  dropped_fragments = 0;
}

-- The element: its settings, its state, the buffer manager with the uploader, whether somebody
-- holds the uploader's lock, and the readings of the monotonic clock.
pub record Sink (U : Type 0) : Type 0 where
  pub settings : Settings
  pub state : State
  pub buffer : Buffer U
  pub uploader_locked : Bool
  pub instant : Instant

-- How a call from the pipeline ends.
pub data Flow : Type 0 where
  flow_ok flow_error flow_panic : Flow
