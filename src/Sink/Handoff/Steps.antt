-- ===== src/Sink/Handoff/Steps.antt =====
-- Every interleaving of the pipeline, the worker, the recovery task and the application.
use mathlib.Core.Path.{subst}
use gst_kvs_sink.Common.{
  ◌++◌, codes, ℕ, ◌≡◌, refl, Bool, true, false, Option, some, List, [], arith, Result, ok, err,
  panic,
}
use gst_kvs_sink.Common.Time.{ClockApi, SystemTime, Instant}
use gst_kvs_sink.MediaUploader.{MediaUploader}
use gst_kvs_sink.MkvWriter.{Frame, WebmApi}
use gst_kvs_sink.Buffer.World.{FileName}
use gst_kvs_sink.Buffer.Upload.{trigger_upload_all}
use gst_kvs_sink.Sink.State.{Sink}
use gst_kvs_sink.Sink.Render.{render}
use gst_kvs_sink.Sink.Failures.{process_buffer_events, recovery_attempt, trigger_upload}
use gst_kvs_sink.Sink.Worker.{worker_step}
use gst_kvs_sink.Sink.Lifecycle.{start, started, set_caps, end_of_stream}
use gst_kvs_sink.Sink.Handoff.{
  IsReady, Agrees-IsReady, process_buffer_events-IsReady, IsReady-result,
}
use gst_kvs_sink.Sink.Handoff.Work.{worker_step-IsReady, recovery_attempt-IsReady, AfterWork}
use gst_kvs_sink.Sink.Handoff.Frames.{finalize_and_enqueue-IsReady, render-IsReady}

module _ {U : Type 0} (clock : ClockApi) (api : WebmApi) (uploader : MediaUploader U) where
  -- One step of one task. The worker's is a round that did not end it; the buffer and the uploader
  -- change with it as the code says. `pass` lets time go by, and the lock change hands.
  pub data Step : Sink U → Sink U → Type 0 where
    frame : (f : Frame) (s : Sink U) → Step s (render clock api uploader f s).1
    finish : (s : Sink U) → Step s (end_of_stream clock api uploader s)
    caps :
        (width height : Option ℕ) (codec : Option (List ℕ)) (s : Sink U)
        → Step s (set_caps width height codec s)
    work : (s s' : Sink U) → worker_step clock uploader s ≡ some (true, s') → Step s s'
    drain : (s : Sink U) → Step s (process_buffer_events s)
    recover : (s : Sink U) → Step s (recovery_attempt clock uploader s).1
    upload : (from to : Option ℕ) (s : Sink U) → Step s (trigger_upload clock uploader from to s).1
    pass :
        (l : Bool) (t : Instant) (s : Sink U)
        → Step s (record s { uploader_locked = l; instant = t })

  pub data Steps : Sink U → Sink U → Type 0 where
    stay : (s : Sink U) → Steps s s
    next : {s t u : Sink U} → Step s t → Steps t u → Steps s u

  -- What follows the upload in `trigger_upload`.
  abbrev pub then_drain : Result (Unit {0}) → Sink U → Result (Unit {0}) × Sink U
  then_drain r s = elim r [
    | ok _ ↦ (ok tt, process_buffer_events s)
    | err e ↦ (err (codes "Failed to trigger upload: " ++ e), s)
    | panic ↦ (panic, s)
  ]

  then_drain-IsReady :
      (r : Result (Unit {0})) (s : Sink U) → IsReady s.state → IsReady (then_drain r s).1.state
  then_drain-IsReady (ok x) s h = process_buffer_events-IsReady s h
  then_drain-IsReady (err e) s h = h
  then_drain-IsReady panic s h = h

  trigger_upload-IsReady :
      (from to : Option ℕ) (s : Sink U)
      → IsReady s.state
      → IsReady (trigger_upload clock uploader from to s).1.state
  unfolding trigger_upload
  trigger_upload-IsReady from to s h =
      let (r, b) = trigger_upload_all clock uploader from to s.buffer in
      IsReady-result s.state.has_buffer_manager (then_drain r (record s { buffer = b })) (ok tt, s)
        (then_drain-IsReady r (record s { buffer = b }) h) h

  set_caps-IsReady :
      (width height : Option ℕ) (codec : Option (List ℕ)) (s : Sink U)
      → IsReady s.state
      → IsReady (set_caps width height codec s).state
  unfolding set_caps
  set_caps-IsReady width height codec s h =
      Agrees-IsReady
        (record { fragment_tx = ground arith; pending = ground arith; in_flight = ground arith }) h

  Step-IsReady : {s t : Sink U} → Step s t → IsReady s.state → IsReady t.state
  unfolding end_of_stream
  Step-IsReady (frame f s) h = render-IsReady clock api uploader f s h
  Step-IsReady (finish s) h = finalize_and_enqueue-IsReady clock api uploader s h
  Step-IsReady (caps width height codec s) h = set_caps-IsReady width height codec s h
  Step-IsReady (work s s' e) h =
      subst (AfterWork clock uploader) e (worker_step-IsReady clock uploader s h)
  Step-IsReady (drain s) h = process_buffer_events-IsReady s h
  Step-IsReady (recover s) h = recovery_attempt-IsReady clock uploader s h
  Step-IsReady (upload from to s) h = trigger_upload-IsReady from to s h
  Step-IsReady (pass l t s) h = h

  Steps-IsReady : {s t : Sink U} → Steps s t → IsReady s.state → IsReady t.state
  Steps-IsReady (stay s) h = h
  Steps-IsReady (next e es) h = Steps-IsReady es (Step-IsReady e h)

module _ {U : Type 0} (uploader : MediaUploader U) (modified : FileName → SystemTime) where
  start-IsReady :
      (s : Sink U)
      → (start uploader modified s).0 ≡ ok tt
      → IsReady (start uploader modified s).1.state
  unfolding start started
  start-IsReady s h = record {
    queue = record { items = []; closed = false };
    there = ground arith;
    is_open = refl;
    bounded = omega arith;
    asked = λ e. ground (arith);
  }

  -- From a start that succeeded, and under every interleaving of the pipeline's calls, the rounds
  -- of the worker that do not end it, the recovery attempts, the events of the buffer, and the
  -- uploads that the application asks for: the hand-off channel stays open and holds at most 64
  -- fragments, and a session reset that is in flight is asked for by the next fragment or by one
  -- in the channel.
  pub start-Steps-IsReady :
      (clock : ClockApi) (api : WebmApi) (s t : Sink U)
      → (start uploader modified s).0 ≡ ok tt
      → Steps clock api uploader (start uploader modified s).1 t
      → IsReady t.state
  start-Steps-IsReady clock api s t h steps =
      Steps-IsReady clock api uploader steps (start-IsReady s h)
