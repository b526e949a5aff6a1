-- ===== src/Sink/Render.antt =====
-- The streaming thread: `render_buffer` and what it calls. Nothing here waits for the network.
use gst_kvs_sink.Common.{
  suc, ◌+◌, ◌-◌, Bool, true, false, not, ◌&&◌, Option, none, some, [], ◌∷◌, ◌++◌, leb, is_empty,
  if◌then◌else◌, length, unwrap_or, ok, err, panic,
}
use gst_kvs_sink.Common.Time.{ClockTime, ClockApi}
use gst_kvs_sink.Fragment.{Fragment}
use gst_kvs_sink.MediaUploader.{MediaUploader}
use gst_kvs_sink.MkvWriter.{MkvWriter, Frame, WebmApi, reset_for_new_session, finalize_fragment}
use gst_kvs_sink.Sink.Settings.{Settings}
use gst_kvs_sink.Sink.State.{
  UploadMode, immediate, buffer_only, State, Sink, Flow, flow_ok, flow_error, flow_panic,
  fragment_queue_capacity,
}

-- `update_fragment_duration`
unfoldable pub mode_duration : UploadMode → ClockTime
mode_duration immediate = 2_000_000_000
mode_duration buffer_only = 15_000_000_000

unfoldable pub update_fragment_duration : UploadMode → Settings → Settings
update_fragment_duration m settings = record settings { fragment_duration = mode_duration m }

unfoldable pub is_immediate : UploadMode → Bool
is_immediate immediate = true
is_immediate buffer_only = false

-- `should_fragment_on_duration`; the difference saturates at zero.
unfoldable pub should_fragment_on_duration : State → Frame → Settings → Bool
should_fragment_on_duration st frame settings = elim st.current_fragment_start_pts [
  | none ↦ false
  | some start ↦ elim frame.pts [
    | none ↦ false
    | some pts ↦ leb settings.fragment_duration (pts - start)
  ]
]

abbrev pub reset_writer : ClockTime → Option MkvWriter → Option MkvWriter
reset_writer pts none = none
reset_writer pts (some w) = some (reset_for_new_session pts w)

-- `begin_session_reset`
unfoldable pub begin_session_reset : ClockTime → State → State
begin_session_reset pts st = record st {
  mkv_writer = reset_writer pts st.mkv_writer;
  pending_new_session = true;
  session_reset_in_flight = true;
}

-- `try_send` on the hand-off channel with a finished fragment, and what follows its result.
unfoldable pub try_enqueue : Fragment → State → Flow × State
try_enqueue f st =
    let tagged = st.pending_new_session in
    let taken : State = record st { pending_new_session = false } in
    elim st.fragment_tx [
      | none ↦ (flow_error, taken)
      | some q ↦
          if q.closed
          then (flow_error, taken)
          else if leb fragment_queue_capacity (length q.items)
          then (
            flow_ok,
            record taken {
              dropped_fragments = st.dropped_fragments + 1;
              pending_new_session = tagged;
            },
          )
          else (
            flow_ok,
            record taken {
              fragment_tx = some (record q {
                items =
                    q.items
                    ++ (record { fragment = f; mode = st.current_mode; starts_new_session = tagged }
                        ∷ []);
              });
            },
          )
    ]

abbrev pub with_state : {U : Type 0} → State → Sink U → Sink U
with_state st s = record s { state = st }

unfoldable pub start_fragment : Frame → State → State
start_fragment frame st = record st {
  current_fragment_start_pts = frame.pts;
  current_fragment_frames = [];
}

unfoldable pub add_frame : {U : Type 0} → Frame → Sink U → Sink U
add_frame frame s =
    with_state
      (record (s.state) {
        current_fragment_frames = s.state.current_fragment_frames ++ (frame ∷ []);
      })
      s

-- The wait for the first key frame.
unfoldable pub begin_if_waiting : Frame → State → State
begin_if_waiting frame st =
    if st.waiting_for_keyframe
    then record (start_fragment frame st) { waiting_for_keyframe = false }
    else st

module _ {U : Type 0} where
  -- The sections of a mode switch, each under a lock of its own: the mode, and then the fragment
  -- duration.
  unfoldable pub switch_to : UploadMode → Sink U → Sink U
  switch_to m s = with_state (record (s.state) { current_mode = m; pending_mode_switch = none }) s

  unfoldable pub set_duration : UploadMode → Sink U → Sink U
  set_duration m s = record s { settings = update_fragment_duration m s.settings }

module _ {U : Type 0} (clock : ClockApi) (api : WebmApi) (uploader : MediaUploader U) where
  -- `finalize_and_enqueue_current_fragment`
  unfoldable pub finalize_and_enqueue : Sink U → Flow × Sink U
  finalize_and_enqueue s =
      if is_empty s.state.current_fragment_frames then (flow_ok, s) else elim s.state.mkv_writer [
        | none ↦ (flow_error, s)
        | some w ↦
            let wall = s.buffer.clock s.buffer.readings in
            let (r, w') = finalize_fragment clock api wall s.state.current_fragment_frames w in
            let written : State = record (s.state) { mkv_writer = some w' } in
            let s' : Sink U = record s {
              state = written;
              buffer = record (s.buffer) { readings = suc s.buffer.readings };
            } in
            elim r [
              | ok f ↦ let (flow, st) = try_enqueue f written in (flow, with_state st s')
              | err e ↦ (flow_error, s')
              | panic ↦ (flow_panic, s')
            ]
      ]

  -- `is_kvs_session_expired`: not, where the lock is taken.
  unfoldable pub is_kvs_session_expired : Sink U → Bool
  is_kvs_session_expired s =
      if s.uploader_locked then false else uploader.is_session_expired s.buffer.uploader

  -- A pending mode switch, or else a due session reset, at a key frame: the sections one after the
  -- other, with no other task between them.
  unfoldable pub at_boundary : Option UploadMode → Bool → Frame → Sink U → Sink U
  unfolding switch_to set_duration
  at_boundary none needs_reset frame s =
      if needs_reset then with_state (begin_session_reset (unwrap_or frame.pts 0) s.state) s else s
  at_boundary (some m) needs_reset frame s =
      let s' = set_duration m (switch_to m s) in
      if is_immediate m
      then with_state (begin_session_reset (unwrap_or frame.pts 0) s'.state) s'
      else s'

  -- `render_buffer` once streaming has begun. Its guards read the state before the fragment is
  -- finalized.
  unfoldable pub render_started : Frame → Sink U → Flow × Sink U
  render_started frame s =
      let should = not frame.delta_unit && should_fragment_on_duration s.state frame s.settings in
      let needs_reset = is_kvs_session_expired s && not s.state.session_reset_in_flight in
      let pending = s.state.pending_mode_switch in
      if should
      then (let (flow, s') = finalize_and_enqueue s in
          elim flow [
            | flow_ok ↦
                let s'' = at_boundary pending needs_reset frame s' in
                (flow_ok, add_frame frame (with_state (start_fragment frame s''.state) s''))
            | flow_error ↦ (flow_error, s')
            | flow_panic ↦ (flow_panic, s')
          ])
      else (flow_ok, add_frame frame s)

  -- `render`, which is `render_buffer`.
  unfoldable pub render : Frame → Sink U → Flow × Sink U
  render frame s =
      if s.state.waiting_for_keyframe && frame.delta_unit
      then (flow_ok, s)
      else render_started frame (with_state (begin_if_waiting frame s.state) s)
