-- ===== src/Sink/Invariant/Steps.antt =====
-- The invariant of the element's state over the calls of its tasks.
use mathlib.Core.Path.{subst}
use gst_kvs_sink.Common.{
  ℕ, ◌≡◌, Bool, true, false, Option, List, [], ◌∷◌, arith, Result, ok, err, panic,
}
use gst_kvs_sink.Common.Time.{ClockApi, SystemTime}
use gst_kvs_sink.MediaUploader.{MediaUploader}
use gst_kvs_sink.MkvWriter.{Frame, WebmApi}
use gst_kvs_sink.Buffer.World.{FileName}
use gst_kvs_sink.Buffer.Upload.{trigger_upload_all}
use gst_kvs_sink.Sink.State.{Sink}
use gst_kvs_sink.Sink.Render.{update_fragment_duration}
use gst_kvs_sink.Sink.Failures.{trigger_upload}
use gst_kvs_sink.Sink.Lifecycle.{start, started, set_caps, end_of_stream}
use gst_kvs_sink.Sink.Handoff.Steps.{
  Step, Steps, frame, finish, caps, work, drain, recover, upload, pass, stay, next, then_drain,
}
use gst_kvs_sink.Sink.Invariant.{
  BeginsWithKey, IsCoherent, Keeps, Keeps-IsCoherent, IsCoherent-result,
  process_buffer_events-IsCoherent,
}
use gst_kvs_sink.Sink.Invariant.Work.{Worked, worker_step-Worked, recovery_attempt-IsCoherent}
use gst_kvs_sink.Sink.Invariant.Frames.{render-IsCoherent, finalize_and_enqueue-Keeps}

module _ {U : Type 0} (clock : ClockApi) (api : WebmApi) (uploader : MediaUploader U) where
  then_drain-IsCoherent :
      (r : Result (Unit {0})) (s : Sink U)
      → IsCoherent s
      → IsCoherent (then_drain clock api uploader r s).1
  then_drain-IsCoherent (ok x) s h = process_buffer_events-IsCoherent s h
  then_drain-IsCoherent (err e) s h = h
  then_drain-IsCoherent panic s h = h

  trigger_upload-IsCoherent :
      (from to : Option ℕ) (s : Sink U)
      → IsCoherent s
      → IsCoherent (trigger_upload clock uploader from to s).1
  unfolding trigger_upload
  trigger_upload-IsCoherent from to s h =
      let (r, b) = trigger_upload_all clock uploader from to s.buffer in
      let s' : Sink U = record s { buffer = b } in
      let h' : IsCoherent s' = record {
        duration = h.duration;
        frames = h.frames;
        counted = h.counted;
      } in
      IsCoherent-result s.state.has_buffer_manager (then_drain clock api uploader r s') (ok tt, s)
        (then_drain-IsCoherent r s' h') h

  set_caps-Keeps :
      (width height : Option ℕ) (codec : Option (List ℕ)) (s : Sink U)
      → Keeps s (set_caps width height codec s)
  unfolding set_caps
  set_caps-Keeps width height codec s = ground arith

  Step-IsCoherent : {s t : Sink U} → Step clock api uploader s t → IsCoherent s → IsCoherent t
  unfolding end_of_stream
  Step-IsCoherent (frame f s) h = render-IsCoherent clock api uploader f s h
  Step-IsCoherent (finish s) h =
      Keeps-IsCoherent s _ (finalize_and_enqueue-Keeps clock api uploader s) h
  Step-IsCoherent (caps width height codec s) h =
      Keeps-IsCoherent s _ (set_caps-Keeps width height codec s) h
  Step-IsCoherent (work s s' e) h =
      subst (Worked clock uploader) e (worker_step-Worked clock uploader s h)
  Step-IsCoherent (drain s) h = process_buffer_events-IsCoherent s h
  Step-IsCoherent (recover s) h = recovery_attempt-IsCoherent clock uploader s h
  Step-IsCoherent (upload from to s) h = trigger_upload-IsCoherent from to s h
  Step-IsCoherent (pass l t s) h = record {
    duration = h.duration;
    frames = h.frames;
    counted = h.counted;
  }

  Steps-IsCoherent : {s t : Sink U} → Steps clock api uploader s t → IsCoherent s → IsCoherent t
  Steps-IsCoherent (stay s) h = h
  Steps-IsCoherent (next e es) h = Steps-IsCoherent es (Step-IsCoherent e h)

BeginsWithKey-none :
    (waiting : Bool) (frames : List Frame)
    → frames ≡ []
    → waiting ≡ true
    → BeginsWithKey waiting frames
BeginsWithKey-none waiting [] e h = h
BeginsWithKey-none waiting (f ∷ fs) e h = cc

module _ {U : Type 0} (uploader : MediaUploader U) (modified : FileName → SystemTime) where
  start-IsCoherent :
      (s : Sink U)
      → s.state.current_fragment_frames ≡ []
      → s.state.recovery_task ≡ false
      → (start uploader modified s).0 ≡ ok tt
      → IsCoherent (start uploader modified s).1
  unfolding start started update_fragment_duration
  start-IsCoherent s empty calm h = record {
    duration = ground arith;
    frames = BeginsWithKey-none _ _ (ground arith) (ground arith);
    counted = λ e. ground (arith);
  }

  -- From a start that succeeded, of an element without frames or a recovery task, and after any
  -- sequence of the pipeline's calls, the rounds of the worker that do not end it, the recovery
  -- attempts, the events of the buffer, and the uploads that the application asks for, each of
  -- which runs to its end before the next begins: the fragment duration is that of the current
  -- mode; the frames of the current fragment begin with a key frame, and there are none exactly
  -- while the element waits for the first one; and while a recovery task runs, at least one failure
  -- is counted. Calls that overlap are not covered: there the first and the last part can fail.
  pub start-Steps-IsCoherent :
      (clock : ClockApi) (api : WebmApi) (s t : Sink U)
      → s.state.current_fragment_frames ≡ []
      → s.state.recovery_task ≡ false
      → (start uploader modified s).0 ≡ ok tt
      → Steps clock api uploader (start uploader modified s).1 t
      → IsCoherent t
  start-Steps-IsCoherent clock api s t empty calm h steps =
      Steps-IsCoherent clock api uploader steps (start-IsCoherent s empty calm h)
