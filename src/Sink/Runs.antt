-- ===== src/Sink/Runs.antt =====
-- Runs of the element.
use gst_kvs_sink.Common.{none, ◌≤◌, ◌≡◌, refl, true, false, some, List, [], ◌∷◌, ◌++◌, codes, arith}
use gst_kvs_sink.Common.Time.{from_secs, SystemTime}
use gst_kvs_sink.Fragment.{Fragment}
use gst_kvs_sink.Buffer.World.{FileName}
use gst_kvs_sink.Buffer.Scan.{new_manager, scan_existing}
use gst_kvs_sink.Kvs.Client.{display, internal}
use gst_kvs_sink.MkvWriter.{Frame}
use gst_kvs_sink.Sink.State.{Sink}
use gst_kvs_sink.Sink.Render.{render}
use gst_kvs_sink.Sink.Failures.{recovery_delay, is_network_error_str}
use gst_kvs_sink.Sink.Failures.Backoff.{recovery_delay_bounds, recovery_delay_wraps}
use gst_kvs_sink.Sink.Failures.Messages.{is_network_error_str-display}
use gst_kvs_sink.Sink.Lifecycle.{start}
use gst_kvs_sink.Sink.Handoff.{IsReady}
use gst_kvs_sink.Sink.Handoff.Steps.{frame, next, stay, start-Steps-IsReady}
use gst_kvs_sink.Sink.Settings.{buffer_directory, region, text, set_property, get_property}
use gst_kvs_sink.Sink.Settings.RoundTrip.{get_after, get_property-after_set, fits, same_property}
use gst_kvs_sink.Sink.State.{immediate, UploadItem}
use gst_kvs_sink.Sink.Failures.{recovery_attempt}
use gst_kvs_sink.Sink.Failures.Recovery.{GoesLive, recovery_attempt-GoesLive}
use gst_kvs_sink.Buffer.Upload.{trigger_upload_all}
use gst_kvs_sink.Common.{◌⊎◌, panic}
use gst_kvs_sink.Sink.State
use gst_kvs_sink.Examples.{late, offline, stocked, plain_clock, plain_webm, keeper, idle_sink}

recovery_delay_bounds_example :
    (from_secs 30 ≤ recovery_delay 5) × (recovery_delay 5 ≤ from_secs 300)
recovery_delay_bounds_example = recovery_delay_bounds 4 (omega arith)

recovery_delay_wraps_example : recovery_delay 70 ≡ 0
recovery_delay_wraps_example = recovery_delay_wraps 6

is_network_error_str-display_example :
    is_network_error_str (
      display (
        internal (
          codes "Failed to reconnect after exhausting retries: "
          ++ codes "Failed to create stream")))
    ≡ is_network_error_str (codes "Failed to create stream")
is_network_error_str-display_example =
    is_network_error_str-display (codes "Failed to create stream")

abbrev never : FileName → SystemTime
never p = 0

abbrev running : Sink (List Fragment)
running = (start keeper never idle_sink).1

abbrev key : Frame
key = record { pts = some 0; duration = some 40_000_000; delta_unit = false; bytes = some (7 ∷ []) }

start-Steps-IsReady_example : IsReady (render plain_clock plain_webm keeper key running).1.state
unfolding start new_manager scan_existing
start-Steps-IsReady_example =
    start-Steps-IsReady keeper never plain_clock plain_webm idle_sink
      (render plain_clock plain_webm keeper key running).1 refl
      (next (frame key running) (stay (render plain_clock plain_webm keeper key running).1))

get_property-after_set_example :
    get_after region
      (set_property plain_clock none buffer_directory (text (codes "/data")) idle_sink.settings)
    ≡ some (text (codes "eu-west-1"))
unfolding fits get_property same_property
get_property-after_set_example =
    get_property-after_set plain_clock none buffer_directory region (text (codes "/data"))
      idle_sink.settings refl

-- The service is offline, and the disk works.
abbrev cut_off : Sink (List Fragment)
cut_off = record idle_sink { buffer = stocked }

abbrev tagged : UploadItem
tagged = record { fragment = late; mode = immediate; starts_new_session = true }

-- A file with one fragment waits, and the service stays offline.
abbrev recovering : Sink (List Fragment)
recovering = record cut_off {
  state = record State.default { has_buffer_event_rx = true; recovery_task = true };
}

recovery_attempt-GoesLive_example :
    ((trigger_upload_all plain_clock offline none none stocked).0 ≡ panic)
    ⊎ (((recovery_attempt plain_clock offline recovering).0 ≡ false)
        × GoesLive (recovery_attempt plain_clock offline recovering).1.state)
recovery_attempt-GoesLive_example =
    recovery_attempt-GoesLive plain_clock offline recovering
      (record { no_failures = refl; after_epoch = λ n. omega arith }) refl refl
