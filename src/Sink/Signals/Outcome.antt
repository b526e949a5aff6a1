-- ===== src/Sink/Signals/Outcome.antt =====
-- What the task of the signal `trigger-upload` leads to.
use mathlib.Core.Path.{subst}
use gst_kvs_sink.Common.{
  ◌≡◌, refl, sym, ap, ◌∙◌, Bool, true, false, Option, some, List, [], ◌∷◌, ◌++◌, map, append_assoc,
  is_none, arith, if◌then◌else◌, inl, inr, ◌⊎◌, Result, ok, err, panic,
}
use gst_kvs_sink.Common.Time.{SystemTime, ClockApi}
use gst_kvs_sink.MediaUploader.{MediaUploader}
use gst_kvs_sink.Buffer.World.{BufferManagerEvent, historical_upload_complete, upload_error}
use gst_kvs_sink.Buffer.Upload.{trigger_upload_all}
use gst_kvs_sink.Buffer.Upload.Outcome.{IsHealthy, Completed, trigger_upload_all_ends}
use gst_kvs_sink.Sink.State.{UploadMode, immediate, buffer_only, State, Sink}
use gst_kvs_sink.Sink.Failures.{
  switch_mode, handle_event, handle_events, received, process_buffer_events,
}
use gst_kvs_sink.Sink.Failures.Recovery.{handle_events-append, process_buffer_events_state}
use gst_kvs_sink.Sink.Signals.{
  Chrono, Argument, Message, upload_trigger_success, upload_trigger_error, is_element,
  argument_time, trigger_upload_signal, upload_trigger_task, map_option,
}

-- The mode that the element switches to at the next key frame, by whether the range has an end.
abbrev pub target_mode : Bool → UploadMode
target_mode open_ended = if open_ended then immediate else buffer_only

handle_events-switch :
    (es : List BufferManagerEvent) (flag : Bool) (st : State)
    → (handle_events (es ++ (historical_upload_complete flag ∷ [])) st).pending_mode_switch
      ≡ some (target_mode flag)
unfolding handle_event switch_mode
handle_events-switch es true st =
    rw (handle_events-append es (historical_upload_complete true) st) refl
handle_events-switch es false st =
    rw (handle_events-append es (historical_upload_complete false) st) refl

module _ {U : Type 0} (clock : ClockApi) (chrono : Chrono) (uploader : MediaUploader U) where
  -- The task posts one message, of success, and the element waits for the next key frame to switch
  -- to this mode.
  pub record Announces (start end : Option SystemTime) (m : UploadMode) (r : List Message × Sink U)
      : Type 0 where
    pub posted :
        r.0
        ≡ upload_trigger_success
            (map_option chrono.to_rfc3339 start)
            (map_option chrono.to_rfc3339 end)
          ∷ []
    pub switch : r.1.state.pending_mode_switch ≡ some m

  abbrev then_post :
      Option SystemTime → Option SystemTime → Result (Unit {0}) → Sink U → List Message × Sink U
  then_post start end r s =
      let from = map_option chrono.to_rfc3339 start in
      let to = map_option chrono.to_rfc3339 end in
      elim r [
        | ok _ ↦ (upload_trigger_success from to ∷ [], process_buffer_events s)
        | err e ↦ (upload_trigger_error e from to ∷ [], s)
        | panic ↦ ([], s)
      ]

  then_post-Announces :
      (start end : Option SystemTime) (r : Result (Unit {0})) (s : Sink U)
      (front : List BufferManagerEvent) (flag : Bool)
      → r ≡ ok tt
      → s.state.has_buffer_event_rx ≡ true
      → s.buffer.events ≡ some (front ++ (historical_upload_complete flag ∷ []))
      → Announces start end (target_mode flag) (then_post start end r s)
  then_post-Announces start end (ok x) s front flag came rx sent = record {
    posted = refl;
    switch =
        ap (λ st. st.pending_mode_switch) (process_buffer_events_state s rx)
        ∙ ap (λ es. (handle_events (received es) s.state).pending_mode_switch) sent
        ∙ handle_events-switch front flag s.state;
  }
  then_post-Announces start end (err e) s front flag came rx sent = cc
  then_post-Announces start end panic s front flag came rx sent = cc

  -- Where the manager and its event channel are set up, the directory's operations go well and the
  -- clock stands behind the epoch: the signal on the element is accepted, and its task, unless the
  -- upload panics, posts one message, of success, with the times that could be read; and the
  -- element switches at the next key frame, to streaming if no end of the range could be read, an
  -- end whose text is no RFC 3339 time included, and else to buffering.
  pub trigger_upload_signal-Announces :
      (args : List Argument) (s : Sink U) {before : List BufferManagerEvent}
      → is_element args ≡ true
      → s.state.has_buffer_manager ≡ true
      → s.state.has_buffer_event_rx ≡ true
      → IsHealthy s.buffer
      → s.buffer.events ≡ some before
      → (let start = argument_time chrono 1 args in
          let end = argument_time chrono 2 args in
          (trigger_upload_signal chrono args s ≡ (true, some (start, end)))
          × (((trigger_upload_all clock uploader start end s.buffer).0 ≡ panic)
              ⊎ Announces start end
                  (target_mode (is_none end))
                  (upload_trigger_task clock chrono uploader start end s)))
  unfolding trigger_upload_signal upload_trigger_task
  trigger_upload_signal-Announces args s {before} self manager rx h sent =
      let start = argument_time chrono 1 args in
      let end = argument_time chrono 2 args in
      let (r, b) = trigger_upload_all clock uploader start end s.buffer in
      (
        ground arith,
        elim (trigger_upload_all_ends clock uploader start end s.buffer h) [
          | inl p ↦ inl p
          | inr (came, shut, done) ↦
              let (errors, after) = subst (λ o. Completed (is_none end) o b.events) sent done in
              inr (
                then_post-Announces start end r (record s { buffer = b })
                  (before ++ map upload_error errors) (is_none end) came rx
                  (after
                    ∙ ap some (
                        sym (
                          append_assoc before (map upload_error errors)
                            (historical_upload_complete (is_none end) ∷ [])))))
        ],
      )
