-- ===== src/Sink/Handoff/Work.antt =====
-- The hand-off under the worker and the recovery task.
use mathlib.Core.Path.{subst}
use gst_kvs_sink.Common.{
  ◌≤◌, ◌≡◌, refl, sym, ap, ◌∙◌, Bool, true, false, ◌||◌, Option, none, some, List, [], ◌∷◌, arith,
  length, ok, err, panic, Result,
}
use gst_kvs_sink.Common.Time.{ClockApi}
use gst_kvs_sink.Fragment.{Fragment}
use gst_kvs_sink.MediaUploader.{MediaUploader}
use gst_kvs_sink.Buffer.Upload.{trigger_upload_all}
use gst_kvs_sink.Sink.State.{
  UploadMode, immediate, buffer_only, UploadItem, Queue, Sink, fragment_queue_capacity,
}
use gst_kvs_sink.Sink.Render.{with_state}
use gst_kvs_sink.Sink.Failures.{handle_network_failure, is_network_error_str, recovery_attempt}
use gst_kvs_sink.Sink.Failures.Recovery.{then_recover}
use gst_kvs_sink.Sink.Worker.{
  buffer_fragment, after_failure, reset_if_tagged, reset_returns, dispatch, process_item,
  process_item_cases, receive, worker_step,
}
use gst_kvs_sink.Sink.Handoff.{
  has_tag, IsReady, Agrees, Agrees-IsReady, process_buffer_events-IsReady, IsReady-result,
}

module _ {U : Type 0} (clock : ClockApi) (uploader : MediaUploader U) where
  pub dispatch-Agrees :
      (m : UploadMode) (f : Fragment) (s : Sink U)
      → Agrees s.state (dispatch clock uploader m f s).1.state
  unfolding dispatch buffer_fragment after_failure handle_network_failure
  dispatch-Agrees buffer_only f s = record { fragment_tx = refl; pending = refl; in_flight = refl }
  dispatch-Agrees immediate f s = record {
    fragment_tx = ground arith;
    pending = ground arith;
    in_flight = ground arith;
  }

  -- An item that was taken off the queue: if it asks for a session, the flag is cleared with it.
  reset_if_tagged-IsReady :
      (tag : Bool) (s : Sink U) (q : Queue)
      → s.state.fragment_tx ≡ some q
      → q.closed ≡ false
      → length q.items ≤ fragment_queue_capacity
      → (s.state.session_reset_in_flight ≡ true
          → (s.state.pending_new_session || (tag || has_tag q.items)) ≡ true)
      → reset_returns clock uploader tag s ≡ true
      → IsReady (reset_if_tagged clock uploader tag s).state
  unfolding reset_if_tagged reset_returns
  reset_if_tagged-IsReady true s q there open_ bounded asked came = record {
    queue = q;
    there = ground arith;
    is_open = open_;
    bounded = bounded;
    asked = λ e. absurd (ground arith);
  }
  reset_if_tagged-IsReady false s q there open_ bounded asked came = record {
    queue = q;
    there = there;
    is_open = open_;
    bounded = bounded;
    asked = asked;
  }

  -- What `receive` finds in a queue.
  abbrev pub taken : List UploadItem → Queue → Sink U → Option (UploadItem × Sink U)
  taken [] q s = none
  taken (item ∷ items) q s =
      some
        (item, with_state (record (s.state) { fragment_tx = some (record q { items = items }) }) s)

  pub receive_lem :
      (s : Sink U) (q : Queue)
      → s.state.fragment_tx ≡ some q
      → receive clock uploader s ≡ taken q.items q s
  unfolding receive
  receive_lem s q there = ground arith

  abbrev pub AfterWork : Option (Bool × Sink U) → Type 0
  AfterWork none = Unit
  AfterWork (some (true, s)) = IsReady s.state
  AfterWork (some (false, s)) = Unit

  AfterWork-more : (r : Bool × Sink U) → IsReady (r.1).state → AfterWork (some r)
  AfterWork-more (true, s) h = h
  AfterWork-more (false, s) h = tt

  process_taken-IsReady :
      (items : List UploadItem) (s : Sink U) (q : Queue)
      → q.items ≡ items
      → q.closed ≡ false
      → length q.items ≤ fragment_queue_capacity
      → (s.state.session_reset_in_flight ≡ true
          → (s.state.pending_new_session || has_tag q.items) ≡ true)
      → AfterWork (elim (taken items q s) [
        | none ↦ none
        | some (item, s') ↦ some (process_item clock uploader item s')
      ])
  unfolding has_tag
  process_taken-IsReady [] s q e open_ bounded asked = tt
  process_taken-IsReady (item ∷ items) s q e open_ bounded asked =
      let s' =
        with_state (record (s.state) { fragment_tx = some (record q { items = items }) }) s in
      process_item_cases clock uploader (λ r. AfterWork (some r)) item s'
        (λ came.
          let s'' = reset_if_tagged clock uploader item.starts_new_session s' in
          AfterWork-more (dispatch clock uploader item.mode item.fragment s'') (
            Agrees-IsReady (dispatch-Agrees item.mode item.fragment s'') (
              reset_if_tagged-IsReady item.starts_new_session s' (record q { items = items }) refl
                open_ (ground arith)
                (λ h. ap (λ l. s.state.pending_new_session || has_tag l) (sym e) ∙ asked h) came)))
        (λ gone. tt)

  pub worker_step-IsReady :
      (s : Sink U) → IsReady s.state → AfterWork (worker_step clock uploader s)
  unfolding worker_step
  worker_step-IsReady s h =
      subst
        (λ o.
          AfterWork
            (elim o [ none ↦ none | some (item, s') ↦ some (process_item clock uploader item s') ]))
        (sym (receive_lem s h.queue h.there))
        (process_taken-IsReady h.queue.items s h.queue refl h.is_open h.bounded h.asked)

  then_recover-IsReady :
      (r : Result (Unit {0})) (s : Sink U) → IsReady s.state → IsReady (then_recover r s).1.state
  then_recover-IsReady (ok x) s h =
      process_buffer_events-IsReady _
        (Agrees-IsReady (record { fragment_tx = refl; pending = refl; in_flight = refl }) h)
  then_recover-IsReady (err e) s h =
      IsReady-result (is_network_error_str e) _ _
        (Agrees-IsReady (record { fragment_tx = refl; pending = refl; in_flight = refl }) h) h
  then_recover-IsReady panic s h = h

  pub recovery_attempt-IsReady :
      (s : Sink U) → IsReady s.state → IsReady (recovery_attempt clock uploader s).1.state
  unfolding recovery_attempt
  recovery_attempt-IsReady s h =
      let (r, b) = trigger_upload_all clock uploader none none s.buffer in
      then_recover-IsReady r (record s { buffer = b }) h
