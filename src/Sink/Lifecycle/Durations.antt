-- ===== src/Sink/Lifecycle/Durations.antt =====
-- The fragment duration behind `start`.
use gst_kvs_sink.Common.{◌≡◌, true, ok, arith}
use gst_kvs_sink.Common.Time.{SystemTime}
use gst_kvs_sink.MediaUploader.{MediaUploader}
use gst_kvs_sink.Buffer.World.{FileName}
use gst_kvs_sink.Sink.State.{Sink}
use gst_kvs_sink.Sink.Render.{update_fragment_duration, mode_duration}
use gst_kvs_sink.Sink.Lifecycle.{start, started, initial_mode}

-- A successful `start` leaves the duration of the mode, 2 or 15 seconds, and the mode that the
-- settings name, whatever duration was set before.
pub start_duration :
    {U : Type 0} (uploader : MediaUploader U) (modified : FileName → SystemTime) (s : Sink U)
    → (start uploader modified s).0 ≡ ok tt
    → let s' = (start uploader modified s).1 in
      (s'.settings.fragment_duration ≡ mode_duration (initial_mode s.settings))
      × (s'.state.current_mode ≡ initial_mode s.settings)
      × (s'.state.waiting_for_keyframe ≡ true)
unfolding start started update_fragment_duration
start_duration uploader modified s h = (ground arith, ground arith, ground arith)
