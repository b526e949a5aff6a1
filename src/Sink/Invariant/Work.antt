-- ===== src/Sink/Invariant/Work.antt =====
-- The invariant under the worker and the recovery task.
use gst_kvs_sink.Common.{
  Bool, true, false, Option, none, some, List, [], ◌∷◌, arith, Result, ok, err, panic, Text,
}
use gst_kvs_sink.Common.Time.{ClockApi}
use gst_kvs_sink.Fragment.{Fragment}
use gst_kvs_sink.MediaUploader.{MediaUploader}
use gst_kvs_sink.Buffer.Upload.{trigger_upload_all}
use gst_kvs_sink.Sink.State.{UploadMode, immediate, buffer_only, UploadItem, Queue, Sink}
use gst_kvs_sink.Sink.Render.{with_state}
use gst_kvs_sink.Sink.Failures.{is_network_error_str, recovery_attempt}
use gst_kvs_sink.Sink.Failures.Recovery.{then_recover}
use gst_kvs_sink.Sink.Worker.{
  with_uploader, buffer_fragment, after_failure, reset_if_tagged, dispatch, process_item,
  process_item_cases, receive, worker_step,
}
use gst_kvs_sink.Sink.Invariant.{
  IsCoherent, Keeps, Keeps-IsCoherent, IsCoherent-if, IsCoherent-result,
  process_buffer_events-IsCoherent, handle_network_failure-IsCoherent,
}

module _ {U : Type 0} (clock : ClockApi) (uploader : MediaUploader U) where
  after_failure-IsCoherent : (e : Text) (s : Sink U) → IsCoherent s → IsCoherent (after_failure e s)
  unfolding after_failure
  after_failure-IsCoherent e s h =
      IsCoherent-if (is_network_error_str e) _ s (handle_network_failure-IsCoherent s h) h

  buffer_fragment-Keeps : (f : Fragment) (s : Sink U) → Keeps s (buffer_fragment clock f s)
  unfolding buffer_fragment
  buffer_fragment-Keeps f s = ground arith

  reset_if_tagged-Keeps : (tag : Bool) (s : Sink U) → Keeps s (reset_if_tagged clock uploader tag s)
  unfolding reset_if_tagged
  reset_if_tagged-Keeps true s = ground arith
  reset_if_tagged-Keeps false s = ground arith

  with_uploader-Keeps : (u : U) (s : Sink U) → Keeps s (with_uploader u s)
  with_uploader-Keeps u s = ground arith

  abbrev then_buffer : Fragment → Result (Unit {0}) → Sink U → Bool × Sink U
  then_buffer f r s = elim r [
    | ok _ ↦ (true, s)
    | err e ↦ (true, buffer_fragment clock f (after_failure e s))
    | panic ↦ (false, s)
  ]

  then_buffer-IsCoherent :
      (f : Fragment) (r : Result (Unit {0})) (s : Sink U)
      → IsCoherent s
      → IsCoherent (then_buffer f r s).1
  then_buffer-IsCoherent f (ok x) s h = h
  then_buffer-IsCoherent f (err e) s h =
      Keeps-IsCoherent _ _ (buffer_fragment-Keeps f (after_failure e s))
        (after_failure-IsCoherent e s h)
  then_buffer-IsCoherent f panic s h = h

  dispatch-IsCoherent :
      (m : UploadMode) (f : Fragment) (s : Sink U)
      → IsCoherent s
      → IsCoherent (dispatch clock uploader m f s).1
  unfolding dispatch
  dispatch-IsCoherent buffer_only f s h = Keeps-IsCoherent s _ (buffer_fragment-Keeps f s) h
  dispatch-IsCoherent immediate f s h =
      let (r, u) = uploader.put_fragment f s.buffer.uploader in
      then_buffer-IsCoherent f r (with_uploader u s)
        (Keeps-IsCoherent s _ (with_uploader-Keeps u s) h)

  abbrev Received : Option (UploadItem × Sink U) → Type 0
  Received none = Unit
  Received (some (item, s)) = IsCoherent s

  abbrev take_item : List UploadItem → Queue → Sink U → Option (UploadItem × Sink U)
  take_item items q s = elim items [
    | [] ↦ none
    | item ∷ items ↦
        some (
          item,
          with_state (record (s.state) { fragment_tx = some (record q { items = items }) }) s,
        )
  ]

  take_item-Received :
      (items : List UploadItem) (q : Queue) (s : Sink U)
      → IsCoherent s
      → Received (take_item items q s)
  take_item-Received [] q s h = tt
  take_item-Received (item ∷ items) q s h = record {
    duration = h.duration;
    frames = h.frames;
    counted = h.counted;
  }

  abbrev receive_from : Option Queue → Sink U → Option (UploadItem × Sink U)
  receive_from tx s = elim tx [ none ↦ none | some q ↦ take_item q.items q s ]

  receive_from-Received :
      (tx : Option Queue) (s : Sink U) → IsCoherent s → Received (receive_from tx s)
  receive_from-Received none s h = tt
  receive_from-Received (some q) s h = take_item-Received q.items q s h

  receive-Received : (s : Sink U) → IsCoherent s → Received (receive clock uploader s)
  unfolding receive
  receive-Received s h = receive_from-Received s.state.fragment_tx s h

  abbrev then_process : Option (UploadItem × Sink U) → Option (Bool × Sink U)
  then_process o = elim o [
    | none ↦ none
    | some (item, s) ↦ some (process_item clock uploader item s)
  ]

  abbrev pub Worked : Option (Bool × Sink U) → Type 0
  Worked none = Unit
  Worked (some (more, s)) = IsCoherent s

  then_process-Worked : (o : Option (UploadItem × Sink U)) → Received o → Worked (then_process o)
  then_process-Worked none h = tt
  then_process-Worked (some (item, s)) h =
      let h' = Keeps-IsCoherent s _ (reset_if_tagged-Keeps item.starts_new_session s) h in
      process_item_cases clock uploader (λ r. IsCoherent r.1) item s
        (λ came. dispatch-IsCoherent item.mode item.fragment _ h') (λ gone. h')

  pub worker_step-Worked : (s : Sink U) → IsCoherent s → Worked (worker_step clock uploader s)
  unfolding worker_step
  worker_step-Worked s h = then_process-Worked (receive clock uploader s) (receive-Received s h)

  then_recover-IsCoherent :
      (r : Result (Unit {0})) (s : Sink U) → IsCoherent s → IsCoherent (then_recover r s).1
  then_recover-IsCoherent (ok x) s h =
      process_buffer_events-IsCoherent _
        (record { duration = h.duration; frames = h.frames; counted = λ e. cc })
  then_recover-IsCoherent (err e) s h =
      IsCoherent-result (is_network_error_str e) _ _
        (record { duration = h.duration; frames = h.frames; counted = λ c. omega arith }) h
  then_recover-IsCoherent panic s h = h

  pub recovery_attempt-IsCoherent :
      (s : Sink U) → IsCoherent s → IsCoherent (recovery_attempt clock uploader s).1
  unfolding recovery_attempt
  recovery_attempt-IsCoherent s h =
      let (r, b) = trigger_upload_all clock uploader none none s.buffer in
      then_recover-IsCoherent r (record s { buffer = b })
        (record { duration = h.duration; frames = h.frames; counted = h.counted })
