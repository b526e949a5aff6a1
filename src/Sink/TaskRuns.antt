-- ===== src/Sink/TaskRuns.antt =====
-- Runs of the element's tasks: the signal, the recovery, and the stop.
use gst_kvs_sink.Common.{
  ◌≡◌, refl, true, false, none, some, List, [], ◌∷◌, codes, arith, panic, ◌⊎◌,
}
use gst_kvs_sink.Common.Time.{SystemTime}
use gst_kvs_sink.Fragment.{Fragment}
use gst_kvs_sink.MkvWriter.{Frame}
use gst_kvs_sink.Buffer.World.{FileName}
use gst_kvs_sink.Buffer.Names.{contains}
use gst_kvs_sink.Buffer.Scan.{new_manager, scan_existing}
use gst_kvs_sink.Buffer.Upload.{trigger_upload_all}
use gst_kvs_sink.Sink.State
use gst_kvs_sink.Sink.State.{immediate, buffer_only, UploadItem, Queue, Sink}
use gst_kvs_sink.Sink.Render.{
  switch_to, set_duration, update_fragment_duration, mode_duration, render,
}
use gst_kvs_sink.Sink.Failures.{
  enter_buffering, recovery_delay, handle_network_failure, is_network_error_str,
}
use gst_kvs_sink.Sink.Failures.Recovery.{GoesLive}
use gst_kvs_sink.Sink.Lifecycle.{start}
use gst_kvs_sink.Sink.Handoff.Steps.{frame, next, stay}
use gst_kvs_sink.Sink.Invariant.{IsCoherent}
use gst_kvs_sink.Sink.Invariant.Steps.{start-Steps-IsCoherent}
use gst_kvs_sink.Sink.Signals.{
  Chrono, Argument, element, text, argument_time, trigger_upload_signal, upload_trigger_task,
  get_argument, get_option_text, is_element,
}
use gst_kvs_sink.Sink.Signals.Outcome.{Announces, trigger_upload_signal-Announces}
use gst_kvs_sink.Sink.Recovery.{recovery_task}
use gst_kvs_sink.Sink.Recovery.Ends.{recovery_task_ends}
use gst_kvs_sink.Sink.Stop.{worker_rounds, stop}
use gst_kvs_sink.Sink.Stop.Drain.{worker_rounds_empties}
use gst_kvs_sink.Sink.Stop.Detached.{stop_detaches}
use gst_kvs_sink.Sink.Worker.{reset_if_tagged, reset_returns}
use gst_kvs_sink.Examples.{
  early, late, offline, stocked, plain_clock, plain_webm, keeper, idle_sink,
}

abbrev never : FileName → SystemTime
never p = 0

abbrev running : Sink (List Fragment)
running = (start keeper never idle_sink).1

abbrev key : Frame
key = record { pts = some 0; duration = some 40_000_000; delta_unit = false; bytes = some (7 ∷ []) }

start-Steps-IsCoherent_example : IsCoherent (render plain_clock plain_webm keeper key running).1
unfolding start new_manager scan_existing
start-Steps-IsCoherent_example =
    start-Steps-IsCoherent keeper never plain_clock plain_webm idle_sink
      (render plain_clock plain_webm keeper key running).1 refl refl refl
      (next (frame key running) (stay (render plain_clock plain_webm keeper key running).1))

-- A file with one fragment waits, and the element is set up.
abbrev ready : Sink (List Fragment)
ready = record idle_sink {
  buffer = stocked;
  state = record State.default { has_buffer_manager = true; has_buffer_event_rx = true };
}

-- A time library that reads no text.
abbrev strict : Chrono
strict = record { parse_from_rfc3339 = λ t. none; to_rfc3339 = λ t. [] }

abbrev args : List Argument
args = element ∷ text none ∷ text (some (codes "tomorrow")) ∷ []

trigger_upload_signal-Announces_example :
    (trigger_upload_signal strict args ready ≡ (true, some (none, none)))
    × (((trigger_upload_all plain_clock keeper none none stocked).0 ≡ panic)
        ⊎ Announces plain_clock strict keeper none none immediate
            (upload_trigger_task plain_clock strict keeper none none ready))
unfolding argument_time get_argument get_option_text
trigger_upload_signal-Announces_example =
    trigger_upload_signal-Announces plain_clock strict keeper args ready (unfold is_element in refl)
      refl refl (record { no_failures = refl; after_epoch = λ n. omega arith }) refl

recovery_task_ends_example :
    let t = recovery_task plain_clock offline 1 (handle_network_failure ready) in
    ((trigger_upload_all plain_clock offline none none stocked).0 ≡ panic)
    ⊎ ((t.0 ≡ true) × (t.1 ≡ recovery_delay 1 ∷ []) × GoesLive t.2.state)
recovery_task_ends_example =
    recovery_task_ends plain_clock offline 0 ready refl
      (record { no_failures = refl; after_epoch = λ n. omega arith }) refl refl

-- The element has one frame, and is to go live.
abbrev pending : Sink (List Fragment)
pending = record idle_sink {
  state = record State.default {
    current_fragment_start_pts = some 0;
    pending_mode_switch = some immediate;
  };
}

abbrev later : Frame
later = record key { pts = some 3_000_000_000 }

-- One fragment is to be sent, one to be buffered.
abbrev live_item : UploadItem
live_item = record { fragment = early; mode = immediate; starts_new_session = false }

abbrev kept_item : UploadItem
kept_item = record { fragment = late; mode = buffer_only; starts_new_session = false }

abbrev queue : Queue
queue = record { items = live_item ∷ kept_item ∷ []; closed = false }

abbrev queued : Sink (List Fragment)
queued = record ready {
  state = record (ready.state) { fragment_tx = some queue; upload_task = true };
}

worker_rounds_empties_example :
    (worker_rounds plain_clock offline 2 queued).state.fragment_tx
    ≡ some (record queue { items = [] })
worker_rounds_empties_example =
    worker_rounds_empties plain_clock offline 2 (live_item ∷ kept_item ∷ []) queued queue
      (λ f u e. cc) (λ u e. cc) refl refl (omega arith)

stop_detaches_example :
    ((stop plain_clock offline 2 queued).0 ≡ true)
    × ((stop plain_clock offline 2 queued).1.state ≡ State.default)
unfolding reset_if_tagged reset_returns is_network_error_str contains
stop_detaches_example =
    stop_detaches plain_clock offline 1 live_item (kept_item ∷ []) queued refl refl refl refl refl
      refl refl refl

-- A switch to streaming and a network failure that overlap: the switch sets the mode, the failure
-- its mode and its duration, and the switch its duration. The element then buffers, in fragments of
-- the length for streaming.
overlapping_switch :
    let t =
      set_duration immediate
        (set_duration buffer_only (enter_buffering (switch_to immediate running))) in
    (t.state.current_mode ≡ buffer_only) × (t.settings.fragment_duration ≡ mode_duration immediate)
unfolding set_duration enter_buffering switch_to update_fragment_duration mode_duration
overlapping_switch = (refl, refl)
