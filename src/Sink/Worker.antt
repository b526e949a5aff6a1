-- ===== src/Sink/Worker.antt =====
-- The upload worker: every network and disk operation for finished fragments.
pub mod Delivery
use gst_kvs_sink.Common.{
  ◌≡◌, Bool-cases, inl, inr, Bool, true, false, Option, none, some, [], ◌∷◌, if◌then◌else◌, Text,
  ok, err, panic,
}
use gst_kvs_sink.Common.Time.{ClockApi}
use gst_kvs_sink.Fragment.{Fragment}
use gst_kvs_sink.MediaUploader.{MediaUploader}
use gst_kvs_sink.Buffer.Store.{push_fragment}
use gst_kvs_sink.Sink.State.{UploadMode, immediate, buffer_only, UploadItem, Sink}
use gst_kvs_sink.Sink.Render.{with_state}
use gst_kvs_sink.Sink.Failures.{is_network_error_str, handle_network_failure}

module _ {U : Type 0} where
  abbrev pub with_uploader : U → Sink U → Sink U
  with_uploader u s = record s { buffer = record (s.buffer) { uploader = u } }

  -- `buffer_fragment`: a failure is logged only.
  unfoldable pub buffer_fragment : ClockApi → Fragment → Sink U → Sink U
  buffer_fragment clock f s = record s { buffer = (push_fragment clock f s.buffer).1 }

  -- What follows a failed direct upload, before the fragment goes to disk.
  unfoldable pub after_failure : Text → Sink U → Sink U
  after_failure e s = if is_network_error_str e then handle_network_failure s else s

module _ {U : Type 0} (clock : ClockApi) (uploader : MediaUploader U) where
  -- The reset before a tagged fragment; the flag is cleared whether it succeeds or fails, but not
  -- if it panics.
  unfoldable pub reset_if_tagged : Bool → Sink U → Sink U
  reset_if_tagged false s = s
  reset_if_tagged true s =
      let (r, u) = uploader.reset_session s.buffer.uploader in
      let s' = with_uploader u s in
      let s'' = with_state (record (s'.state) { session_reset_in_flight = false }) s' in
      elim r [ ok _ ↦ s'' | err e ↦ s'' | panic ↦ s' ]

  -- Whether the reset came back: a panic of the uploader ends the worker.
  unfoldable pub reset_returns : Bool → Sink U → Bool
  reset_returns false s = true
  reset_returns true s = elim (uploader.reset_session s.buffer.uploader).0 [
    | ok _ ↦ true
    | err e ↦ true
    | panic ↦ false
  ]

  -- A fragment that is finished is sent in immediate mode, and buffered on failure; it is buffered
  -- in buffering mode. A panic of the uploader ends the worker.
  unfoldable pub dispatch : UploadMode → Fragment → Sink U → Bool × Sink U
  dispatch buffer_only f s = (true, buffer_fragment clock f s)
  dispatch immediate f s =
      let (r, u) = uploader.put_fragment f s.buffer.uploader in
      let s' = with_uploader u s in
      elim r [
        | ok _ ↦ (true, s')
        | err e ↦ (true, buffer_fragment clock f (after_failure e s'))
        | panic ↦ (false, s')
      ]

  -- One round of `upload_worker`: whether it goes on, and the state.
  unfoldable pub process_item : UploadItem → Sink U → Bool × Sink U
  process_item item s =
      let s' = reset_if_tagged item.starts_new_session s in
      if reset_returns item.starts_new_session s
      then dispatch item.mode item.fragment s'
      else (false, s')

  -- A round by whether the reset came back.
  pub process_item_cases :
      (P : Bool × Sink U → Type 0) (item : UploadItem) (s : Sink U)
      → let s' = reset_if_tagged item.starts_new_session s in
        (reset_returns item.starts_new_session s ≡ true → P (dispatch item.mode item.fragment s'))
        → (reset_returns item.starts_new_session s ≡ false → P (false, s'))
        → P (process_item item s)
  unfolding process_item
  process_item_cases P item s came gone =
      elim (Bool-cases (reset_returns item.starts_new_session s)) [
        | inl e ↦ rw e (came e)
        | inr e ↦ rw e (gone e)
      ]

  -- `rx.recv()`: the oldest item of the channel, if there is one.
  unfoldable pub receive : Sink U → Option (UploadItem × Sink U)
  receive s = elim s.state.fragment_tx [
    | none ↦ none
    | some q ↦ elim q.items [
      | [] ↦ none
      | item ∷ items ↦ some (
        item,
        with_state (record (s.state) { fragment_tx = some (record q { items = items }) }) s,
      )
    ]
  ]

  unfoldable pub worker_step : Sink U → Option (Bool × Sink U)
  worker_step s = elim (receive s) [ none ↦ none | some (item, s') ↦ some (process_item item s') ]
