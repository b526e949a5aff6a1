-- ===== src/Sink/Handoff/Frames.antt =====
-- The hand-off under the calls from the pipeline.
use gst_kvs_sink.Common.{
  suc, refl, Bool, true, false, ◌&&◌, not, Option, none, some, is_empty, ok, err, panic, Result,
  unwrap_or,
}
use gst_kvs_sink.Common.Time.{ClockApi}
use gst_kvs_sink.Fragment.{Fragment}
use gst_kvs_sink.MediaUploader.{MediaUploader}
use gst_kvs_sink.MkvWriter.{Frame, WebmApi, MkvWriter, finalize_fragment}
use gst_kvs_sink.Sink.State.{
  UploadMode, immediate, buffer_only, State, Sink, Flow, flow_ok, flow_error, flow_panic,
}
use gst_kvs_sink.Sink.Render.{
  is_immediate, should_fragment_on_duration, try_enqueue, with_state, start_fragment, add_frame,
  begin_if_waiting, finalize_and_enqueue, is_kvs_session_expired, at_boundary, render_started,
  render,
}
use gst_kvs_sink.Sink.Handoff.{
  IsReady, Agrees-IsReady, begin_session_reset-IsReady, try_enqueue-IsReady,
  begin_if_waiting-Agrees, IsReady-result,
}

module _ {U : Type 0} (clock : ClockApi) (api : WebmApi) (uploader : MediaUploader U) where
  -- What follows the writer's result in `finalize_and_enqueue`.
  abbrev pub then_enqueue : Result Fragment → State → Sink U → Flow × Sink U
  then_enqueue r written s = elim r [
    | ok f ↦ (let (flow, st) = try_enqueue f written in (flow, with_state st s))
    | err e ↦ (flow_error, s)
    | panic ↦ (flow_panic, s)
  ]

  then_enqueue-IsReady :
      (r : Result Fragment) (written : State) (s : Sink U)
      → IsReady written
      → IsReady s.state
      → IsReady (then_enqueue r written s).1.state
  then_enqueue-IsReady (ok f) written s h k = try_enqueue-IsReady f written h
  then_enqueue-IsReady (err e) written s h k = k
  then_enqueue-IsReady panic written s h k = k

  abbrev pub write_with : Option MkvWriter → Sink U → Flow × Sink U
  write_with writer s = elim writer [
    | none ↦ (flow_error, s)
    | some w ↦
        let wall = s.buffer.clock s.buffer.readings in
        let (r, w') = finalize_fragment clock api wall s.state.current_fragment_frames w in
        let written : State = record (s.state) { mkv_writer = some w' } in
        then_enqueue r written (record s {
          state = written;
          buffer = record (s.buffer) { readings = suc s.buffer.readings };
        })
  ]

  write_with-IsReady :
      (writer : Option MkvWriter) (s : Sink U)
      → IsReady s.state
      → IsReady (write_with writer s).1.state
  write_with-IsReady none s h = h
  write_with-IsReady (some w) s h =
      let (r, w') =
        finalize_fragment clock api (s.buffer.clock s.buffer.readings)
          s.state.current_fragment_frames w in
      let written : State = record (s.state) { mkv_writer = some w' } in
      let kept =
        Agrees-IsReady {st = s.state} {st' = written}
          (record { fragment_tx = refl; pending = refl; in_flight = refl }) h in
      then_enqueue-IsReady r written _ kept kept

  pub finalize_and_enqueue-IsReady :
      (s : Sink U) → IsReady s.state → IsReady (finalize_and_enqueue clock api uploader s).1.state
  unfolding finalize_and_enqueue
  finalize_and_enqueue-IsReady s h =
      IsReady-result (is_empty s.state.current_fragment_frames) (flow_ok, s)
        (write_with s.state.mkv_writer s) h (write_with-IsReady s.state.mkv_writer s h)

  at_boundary-IsReady :
      (m : Option UploadMode) (needs_reset : Bool) (frame : Frame) (s : Sink U)
      → IsReady s.state
      → IsReady (at_boundary clock api uploader m needs_reset frame s).state
  unfolding at_boundary is_immediate
  at_boundary-IsReady none true frame s h =
      begin_session_reset-IsReady (unwrap_or frame.pts 0) s.state h
  at_boundary-IsReady none false frame s h = h
  at_boundary-IsReady (some immediate) needs_reset frame s h =
      begin_session_reset-IsReady (unwrap_or frame.pts 0) _
        (Agrees-IsReady (record { fragment_tx = refl; pending = refl; in_flight = refl }) h)
  at_boundary-IsReady (some buffer_only) needs_reset frame s h =
      Agrees-IsReady (record { fragment_tx = refl; pending = refl; in_flight = refl }) h

  abbrev pub then_render : Frame → Option UploadMode → Bool → Flow → Sink U → Flow × Sink U
  then_render frame pending needs_reset flow s' = elim flow [
    | flow_ok ↦
        let s'' = at_boundary clock api uploader pending needs_reset frame s' in
        (flow_ok, add_frame frame (with_state (start_fragment frame s''.state) s''))
    | flow_error ↦ (flow_error, s')
    | flow_panic ↦ (flow_panic, s')
  ]

  then_render-IsReady :
      (frame : Frame) (pending : Option UploadMode) (needs_reset : Bool) (flow : Flow) (s' : Sink U)
      → IsReady s'.state
      → IsReady (then_render frame pending needs_reset flow s').1.state
  unfolding add_frame start_fragment
  then_render-IsReady frame pending needs_reset flow_ok s' h =
      Agrees-IsReady (record { fragment_tx = refl; pending = refl; in_flight = refl })
        (at_boundary-IsReady pending needs_reset frame s' h)
  then_render-IsReady frame pending needs_reset flow_error s' h = h
  then_render-IsReady frame pending needs_reset flow_panic s' h = h

  render_started-IsReady :
      (frame : Frame) (s : Sink U)
      → IsReady s.state
      → IsReady (render_started clock api uploader frame s).1.state
  unfolding render_started add_frame
  render_started-IsReady frame s h =
      let (flow, s') = finalize_and_enqueue clock api uploader s in
      let needs_reset =
        is_kvs_session_expired clock api uploader s && not s.state.session_reset_in_flight in
      IsReady-result (not frame.delta_unit && should_fragment_on_duration s.state frame s.settings)
        (then_render frame s.state.pending_mode_switch needs_reset flow s')
        (flow_ok, add_frame frame s)
        (then_render-IsReady frame s.state.pending_mode_switch needs_reset flow s'
          (finalize_and_enqueue-IsReady s h))
        (Agrees-IsReady (record { fragment_tx = refl; pending = refl; in_flight = refl }) h)

  pub render-IsReady :
      (frame : Frame) (s : Sink U)
      → IsReady s.state
      → IsReady (render clock api uploader frame s).1.state
  unfolding render
  render-IsReady frame s h =
      let s' = with_state (begin_if_waiting frame s.state) s in
      IsReady-result (s.state.waiting_for_keyframe && frame.delta_unit) (flow_ok, s)
        (render_started clock api uploader frame s') h
        (render_started-IsReady frame s' (Agrees-IsReady (begin_if_waiting-Agrees frame s.state) h))
