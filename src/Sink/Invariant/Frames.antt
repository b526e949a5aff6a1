-- ===== src/Sink/Invariant/Frames.antt =====
-- The invariant under the calls from the pipeline.
use mathlib.Core.Path.{subst}
use gst_kvs_sink.Common.{
  suc, ◌≤◌, ◌≡◌, refl, sym, ◌∙◌, Bool, true, false, not, ◌&&◌, Option, none, some, List, [], ◌∷◌,
  ◌++◌, arith, if◌then◌else◌, is_empty, Result, ok, err, panic,
}
use gst_kvs_sink.Common.Time.{ClockApi}
use gst_kvs_sink.Fragment.{Fragment}
use gst_kvs_sink.MediaUploader.{MediaUploader}
use gst_kvs_sink.MkvWriter.{Frame, WebmApi, MkvWriter, finalize_fragment}
use gst_kvs_sink.Sink.State.{
  UploadMode, immediate, buffer_only, State, Sink, Flow, flow_ok, flow_error, flow_panic,
}
use gst_kvs_sink.Sink.Render.{
  mode_duration, is_immediate, update_fragment_duration, try_enqueue, with_state, start_fragment,
  add_frame, begin_if_waiting, begin_session_reset, finalize_and_enqueue, is_kvs_session_expired,
  should_fragment_on_duration, at_boundary, render_started, render,
}
use gst_kvs_sink.Sink.Handoff.Frames.{then_enqueue, write_with, then_render}
use gst_kvs_sink.Sink.Invariant.{
  BeginsWithKey, IsCoherent, Keeps, Keeps-IsCoherent, IsCoherent-result,
}

try_enqueue_keeps :
    (f : Fragment) (st : State)
    → ((try_enqueue f st).1.current_mode ≡ st.current_mode)
      × ((try_enqueue f st).1.waiting_for_keyframe ≡ st.waiting_for_keyframe)
      × ((try_enqueue f st).1.current_fragment_frames ≡ st.current_fragment_frames)
      × ((try_enqueue f st).1.recovery_task ≡ st.recovery_task)
      × ((try_enqueue f st).1.consecutive_failures ≡ st.consecutive_failures)
unfolding try_enqueue
try_enqueue_keeps f st = (ground arith, ground arith, ground arith, ground arith, ground arith)

Keeps-result :
    {A U : Type 0} (b : Bool) {s : Sink U} (r r' : A × Sink U)
    → Keeps s r.1
    → Keeps s r'.1
    → Keeps s (if b then r else r').1
Keeps-result true r r' h k = h
Keeps-result false r r' h k = k

module _ {U : Type 0} (clock : ClockApi) (api : WebmApi) (uploader : MediaUploader U) where
  then_enqueue-Keeps :
      (r : Result Fragment) (s s' : Sink U)
      → Keeps s s'
      → Keeps s (then_enqueue clock api uploader r s'.state s').1
  then_enqueue-Keeps (ok f) s s' h =
      let (mode, waiting, frames, task, failures) = try_enqueue_keeps f s'.state in
      record {
        duration = h.duration;
        mode = mode ∙ h.mode;
        waiting = waiting ∙ h.waiting;
        frames = frames ∙ h.frames;
        task = task ∙ h.task;
        failures = failures ∙ h.failures;
      }
  then_enqueue-Keeps (err e) s s' h = h
  then_enqueue-Keeps panic s s' h = h

  write_with-Keeps :
      (writer : Option MkvWriter) (s : Sink U) → Keeps s (write_with clock api uploader writer s).1
  write_with-Keeps none s = ground arith
  write_with-Keeps (some w) s =
      let (r, w') =
        finalize_fragment clock api (s.buffer.clock s.buffer.readings)
          s.state.current_fragment_frames w in
      then_enqueue-Keeps r s
        (record s {
          state = record (s.state) { mkv_writer = some w' };
          buffer = record (s.buffer) { readings = suc s.buffer.readings };
        })
        (ground arith)

  pub finalize_and_enqueue-Keeps :
      (s : Sink U) → Keeps s (finalize_and_enqueue clock api uploader s).1
  unfolding finalize_and_enqueue
  finalize_and_enqueue-Keeps s =
      Keeps-result (is_empty s.state.current_fragment_frames) (flow_ok, s)
        (write_with clock api uploader s.state.mkv_writer s) (ground arith)
        (write_with-Keeps s.state.mkv_writer s)

  -- What the boundary leaves is coherent but for the frames, which are begun anew behind it.
  record Began (s t : Sink U) : Type 0 where
    duration : t.settings.fragment_duration ≡ mode_duration t.state.current_mode
    waiting : t.state.waiting_for_keyframe ≡ s.state.waiting_for_keyframe
    task : t.state.recovery_task ≡ s.state.recovery_task
    failures : t.state.consecutive_failures ≡ s.state.consecutive_failures

  at_boundary-Began :
      (m : Option UploadMode) (needs_reset : Bool) (frame : Frame) (s : Sink U)
      → s.settings.fragment_duration ≡ mode_duration s.state.current_mode
      → Began s (at_boundary clock api uploader m needs_reset frame s)
  unfolding at_boundary is_immediate begin_session_reset update_fragment_duration
  at_boundary-Began none true frame s h = record {
    duration = h;
    waiting = refl;
    task = refl;
    failures = refl;
  }
  at_boundary-Began none false frame s h = record {
    duration = h;
    waiting = refl;
    task = refl;
    failures = refl;
  }
  at_boundary-Began (some immediate) needs_reset frame s h = record {
    duration = refl;
    waiting = refl;
    task = refl;
    failures = refl;
  }
  at_boundary-Began (some buffer_only) needs_reset frame s h = record {
    duration = refl;
    waiting = refl;
    task = refl;
    failures = refl;
  }

  -- Behind the boundary the key frame begins a fragment.
  then_begin-IsCoherent :
      (frame : Frame) (pending : Option UploadMode) (needs_reset : Bool) (s : Sink U)
      → frame.delta_unit ≡ false
      → s.state.waiting_for_keyframe ≡ false
      → s.settings.fragment_duration ≡ mode_duration s.state.current_mode
      → (s.state.recovery_task ≡ true → 1 ≤ s.state.consecutive_failures)
      → IsCoherent (then_render clock api uploader frame pending needs_reset flow_ok s).1
  unfolding add_frame start_fragment
  then_begin-IsCoherent frame pending needs_reset s key ready d counted =
      let b = at_boundary-Began pending needs_reset frame s d in
      record {
        duration = b.duration;
        frames = (b.waiting ∙ ready, key);
        counted = λ e. rw b.failures (counted (sym b.task ∙ e));
      }

  then_render-IsCoherent :
      (frame : Frame) (pending : Option UploadMode) (needs_reset : Bool) (flow : Flow) (s : Sink U)
      → frame.delta_unit ≡ false
      → s.state.waiting_for_keyframe ≡ false
      → IsCoherent s
      → IsCoherent (then_render clock api uploader frame pending needs_reset flow s).1
  then_render-IsCoherent frame pending needs_reset flow_ok s key ready h =
      then_begin-IsCoherent frame pending needs_reset s key ready h.duration h.counted
  then_render-IsCoherent frame pending needs_reset flow_error s key ready h = h
  then_render-IsCoherent frame pending needs_reset flow_panic s key ready h = h

  BeginsWithKey-append :
      (frames : List Frame) (frame : Frame) (waiting : Bool)
      → waiting ≡ false
      → BeginsWithKey waiting frames
      → BeginsWithKey waiting (frames ++ (frame ∷ []))
  BeginsWithKey-append [] frame waiting e h = cc
  BeginsWithKey-append (f ∷ fs) frame waiting e h = h

  -- A test that chooses a result, of which the first case is coherent where the test holds.
  IsCoherent-choice :
      {A : Type 0} (b : Bool) (r r' : A × Sink U)
      → (b ≡ true → IsCoherent r.1)
      → IsCoherent r'.1
      → IsCoherent (if b then r else r').1
  IsCoherent-choice true r r' h k = h refl
  IsCoherent-choice false r r' h k = k

  and_left : (a b : Bool) → (not a && b) ≡ true → a ≡ false
  and_left false b e = refl
  and_left true b e = cc

  render_started-IsCoherent :
      (frame : Frame) (s : Sink U)
      → s.state.waiting_for_keyframe ≡ false
      → IsCoherent s
      → IsCoherent (render_started clock api uploader frame s).1
  unfolding render_started add_frame
  render_started-IsCoherent frame s ready h =
      let (flow, s') = finalize_and_enqueue clock api uploader s in
      let k = finalize_and_enqueue-Keeps s in
      let needs_reset =
        is_kvs_session_expired clock api uploader s && not s.state.session_reset_in_flight in
      let on_time = should_fragment_on_duration s.state frame s.settings in
      IsCoherent-choice (not frame.delta_unit && on_time)
        (then_render clock api uploader frame s.state.pending_mode_switch needs_reset flow s')
        (flow_ok, add_frame frame s)
        (λ e.
          then_render-IsCoherent frame s.state.pending_mode_switch needs_reset flow s'
            (and_left frame.delta_unit on_time e) (k.waiting ∙ ready) (Keeps-IsCoherent s s' k h))
        (record {
          duration = h.duration;
          frames =
              BeginsWithKey-append s.state.current_fragment_frames frame
                s.state.waiting_for_keyframe ready h.frames;
          counted = h.counted;
        })

  finalize_and_enqueue-empty :
      (s : Sink U)
      → s.state.current_fragment_frames ≡ []
      → finalize_and_enqueue clock api uploader s ≡ (flow_ok, s)
  unfolding finalize_and_enqueue
  finalize_and_enqueue-empty s e = ground arith

  -- The first key frame, with which streaming begins.
  render_begun-IsCoherent :
      (frame : Frame) (s : Sink U)
      → frame.delta_unit ≡ false
      → s.state.waiting_for_keyframe ≡ false
      → s.state.current_fragment_frames ≡ []
      → s.settings.fragment_duration ≡ mode_duration s.state.current_mode
      → (s.state.recovery_task ≡ true → 1 ≤ s.state.consecutive_failures)
      → IsCoherent (render_started clock api uploader frame s).1
  unfolding render_started add_frame
  render_begun-IsCoherent frame s key ready empty d counted =
      let needs_reset =
        is_kvs_session_expired clock api uploader s && not s.state.session_reset_in_flight in
      let on_time = should_fragment_on_duration s.state frame s.settings in
      let r = finalize_and_enqueue clock api uploader s in
      IsCoherent-result (not frame.delta_unit && on_time)
        (then_render clock api uploader frame s.state.pending_mode_switch needs_reset r.0 r.1)
        (flow_ok, add_frame frame s)
        (subst
          (λ (q : Flow × Sink U).
            IsCoherent
              (then_render clock api uploader frame s.state.pending_mode_switch needs_reset q.0
                q.1).1)
          (sym (finalize_and_enqueue-empty s empty))
          (then_begin-IsCoherent frame s.state.pending_mode_switch needs_reset s key ready d
            counted))
        (record { duration = d; frames = rw empty (ready, key); counted = counted })

  abbrev begun : Bool → Frame → Sink U → Sink U
  begun waiting frame s =
      with_state
        (if waiting
          then record (start_fragment frame s.state) { waiting_for_keyframe = false }
          else s.state)
        s

  render_case-IsCoherent :
      (waiting delta : Bool) (frame : Frame) (s : Sink U)
      → s.state.waiting_for_keyframe ≡ waiting
      → frame.delta_unit ≡ delta
      → IsCoherent s
      → IsCoherent
          (if waiting && delta
            then (flow_ok, s)
            else render_started clock api uploader frame (begun waiting frame s)).1
  unfolding start_fragment
  render_case-IsCoherent true true frame s w d h = h
  render_case-IsCoherent true false frame s w d h =
      render_begun-IsCoherent frame (begun true frame s) d refl refl h.duration h.counted
  render_case-IsCoherent false delta frame s w d h = render_started-IsCoherent frame s w h

  pub render-IsCoherent :
      (frame : Frame) (s : Sink U) → IsCoherent s → IsCoherent (render clock api uploader frame s).1
  unfolding render begin_if_waiting
  render-IsCoherent frame s h =
      render_case-IsCoherent s.state.waiting_for_keyframe frame.delta_unit frame s refl refl h
