-- ===== src/Sink/Lifecycle.antt =====
-- `start`, the guard of `change_state`, `set_caps` and `event`.
pub mod Durations
use gst_kvs_sink.Common.{
  ℕ, ◌*◌, Bool, true, false, not, Option, none, some, List, [], is_empty, if◌then◌else◌, unwrap_or,
  Text, codes, ◌++◌, Result, ok, err, panic,
}
use gst_kvs_sink.Common.Time.{SystemTime, ClockApi, from_secs}
use gst_kvs_sink.MediaUploader.{MediaUploader}
use gst_kvs_sink.MkvWriter
use gst_kvs_sink.MkvWriter.{MkvWriter, WebmApi, set_codec_metadata}
use gst_kvs_sink.Buffer.World.{FileName, Buffer, text_eq}
use gst_kvs_sink.Buffer.Scan.{new_manager, set_event_channel}
use gst_kvs_sink.Sink.Settings.{Settings}
use gst_kvs_sink.Sink.State
use gst_kvs_sink.Sink.State.{UploadMode, immediate, buffer_only, State, Sink, Flow}
use gst_kvs_sink.Sink.Render.{update_fragment_duration, finalize_and_enqueue, with_state}

-- The guard of `Ready -> Paused`: the buffer directory is set.
unfoldable pub may_pause : Settings → Bool
may_pause settings = elim settings.buffer_directory [ none ↦ false | some dir ↦ not (is_empty dir) ]

unfoldable pub initial_mode : Settings → UploadMode
initial_mode settings =
    if text_eq settings.mode (codes "continuous") then immediate else buffer_only

-- The state that `start` leaves when all its parts were made.
unfoldable pub started : UploadMode → State → State
started m st = record st {
  mkv_writer = some MkvWriter.new;
  has_buffer_manager = true;
  waiting_for_keyframe = true;
  current_mode = m;
  has_buffer_event_rx = true;
  fragment_tx = some (record { items = []; closed = false });
  upload_task = true;
  session_reset_in_flight = false;
}

-- `set_caps` behind the reading of the caps: the numbers default to 1920 and 1080 there.
unfoldable pub set_caps : {U : Type 0} → Option ℕ → Option ℕ → Option (List ℕ) → Sink U → Sink U
set_caps width height codec_data s = elim s.state.mkv_writer [
  | none ↦ s
  | some w ↦
      with_state
        (record (s.state) {
          mkv_writer =
              some (set_codec_metadata (unwrap_or width 1920) (unwrap_or height 1080) codec_data w);
        })
        s
]

module _ {U : Type 0} (clock : ClockApi) (api : WebmApi) (uploader : MediaUploader U) where
  -- `event` at the end of the stream: a failure is logged only.
  unfoldable pub end_of_stream : Sink U → Sink U
  end_of_stream s = (finalize_and_enqueue clock api uploader s).1

module _ {U : Type 0} (uploader : MediaUploader U) (modified : FileName → SystemTime) where
  -- `start`, of an element whose manager state is fresh: `stored` is what the directory holds.
  unfoldable pub start : Sink U → Result (Unit {0}) × Sink U
  start s =
      if is_empty s.settings.stream_name
      then (err (codes "Stream name not set"), s)
      else (let (r, u) =
            uploader.initialize s.settings.stream_name s.settings.region s.buffer.uploader in
          let s' : Sink U = record s { buffer = record (s.buffer) { uploader = u } } in
          elim r [
            | err e ↦ (err (codes "Failed to initialize media uploader: " ++ e), s')
            | panic ↦ (panic, s')
            | ok _ ↦ elim s.settings.buffer_directory [
              | none ↦ (err (codes "buffer-directory property is required"), s')
              | some dir ↦
                  let m = initial_mode s.settings in
                  let (made, b) =
                    new_manager modified s.settings.stream_name
                      (from_secs (s.settings.max_buffer_hours * 3600)) s'.buffer in
                  elim made [
                    | err e ↦ (
                      err (codes "Failed to create buffered upload manager: " ++ e),
                      record s' { buffer = b },
                    )
                    | panic ↦ (panic, record s' { buffer = b })
                    | ok _ ↦ (
                      ok tt,
                      record s' {
                        buffer = set_event_channel b;
                        state = started m s'.state;
                        settings = update_fragment_duration m s'.settings;
                      },
                    )
                  ]
            ]
          ])
