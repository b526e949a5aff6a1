-- ===== src/Sink/Failures/Recovery.antt =====
-- What a recovery attempt concludes.
use mathlib.Core.Path.{subst}
use gst_kvs_sink.Common.{
  ◌+◌, ◌≡◌, refl, sym, ap, ◌∙◌, Bool, true, false, none, some, List, [], ◌∷◌, ◌++◌, map,
  append_assoc, arith, if◌then◌else◌, inl, inr, ◌⊎◌, Result, ok, err, panic,
}
use gst_kvs_sink.Common.Time.{ClockApi}
use gst_kvs_sink.MediaUploader.{MediaUploader}
use gst_kvs_sink.Buffer.World.{BufferManagerEvent, historical_upload_complete, upload_error}
use gst_kvs_sink.Buffer.Upload.{trigger_upload_all}
use gst_kvs_sink.Buffer.Upload.Outcome.{IsHealthy, Completed, trigger_upload_all_ends}
use gst_kvs_sink.Sink.State.{State, Sink, immediate}
use gst_kvs_sink.Sink.Render.{is_immediate, with_state}
use gst_kvs_sink.Sink.Failures.{
  is_network_error_str, switch_mode, handle_event, handle_events, received, process_buffer_events,
  recovery_attempt,
}

pub handle_events-append :
    (es : List BufferManagerEvent) (e : BufferManagerEvent) (st : State)
    → handle_events (es ++ (e ∷ [])) st ≡ handle_event e (handle_events es st)
unfolding handle_events
handle_events-append [] e st = refl
handle_events-append (x ∷ es) e st = handle_events-append es e (handle_event x st)

-- The element waits for the next key frame to go live, and no recovery is under way.
pub record GoesLive (st : State) : Type 0 where
  pub switch : st.pending_mode_switch ≡ some immediate
  pub failures : st.consecutive_failures ≡ 0
  pub no_task : st.recovery_task ≡ false

handle_events-GoesLive :
    (es : List BufferManagerEvent) (st : State)
    → GoesLive (handle_events (es ++ (historical_upload_complete true ∷ [])) st)
unfolding handle_event switch_mode is_immediate
handle_events-GoesLive es st =
    subst GoesLive (sym (handle_events-append es (historical_upload_complete true) st))
      (record { switch = refl; failures = refl; no_task = refl })

module _ {U : Type 0} where
  pub process_buffer_events_state :
      (s : Sink U)
      → s.state.has_buffer_event_rx ≡ true
      → (process_buffer_events s).state ≡ handle_events (received s.buffer.events) s.state
  unfolding process_buffer_events
  process_buffer_events_state s e = ground arith

  -- What `recovery_attempt` does with the result of the upload.
  abbrev pub then_recover : Result (Unit {0}) → Sink U → Bool × Sink U
  then_recover r s = elim r [
    | ok _ ↦ (
      false,
      process_buffer_events
          (with_state (record (s.state) { consecutive_failures = 0; recovery_task = false }) s),
    )
    | err e ↦
        if is_network_error_str e
        then (
          true,
          with_state (record (s.state) { consecutive_failures = s.state.consecutive_failures + 1 })
              s,
        )
        else (true, s)
    | panic ↦ (false, s)
  ]

  then_recover-GoesLive :
      (r : Result (Unit {0})) (s : Sink U) (front : List BufferManagerEvent)
      → r ≡ ok tt
      → s.state.has_buffer_event_rx ≡ true
      → s.buffer.events ≡ some (front ++ (historical_upload_complete true ∷ []))
      → ((then_recover r s).0 ≡ false) × GoesLive (then_recover r s).1.state
  then_recover-GoesLive (ok x) s front came rx sent =
      let st : State = record (s.state) { consecutive_failures = 0; recovery_task = false } in
      (
        refl,
        subst GoesLive (sym (process_buffer_events_state (with_state st s) rx)) (
            subst (λ es. GoesLive (handle_events (received es) st)) (sym sent)
              (handle_events-GoesLive front st)),
      )
  then_recover-GoesLive (err e) s front came rx sent = cc
  then_recover-GoesLive panic s front came rx sent = cc

module _ {U : Type 0} (clock : ClockApi) (uploader : MediaUploader U) where
  -- Where the directory's operations go well, the clock stands behind the epoch and the event
  -- channel is set up: unless the upload panics, the first recovery attempt ends the recovery task
  -- as a success, clears the failure count, and has the element go live at the next key frame. No
  -- answer of the uploader changes this, an error for every fragment included.
  pub recovery_attempt-GoesLive :
      (s : Sink U) {before : List BufferManagerEvent}
      → IsHealthy s.buffer
      → s.state.has_buffer_event_rx ≡ true
      → s.buffer.events ≡ some before
      → ((trigger_upload_all clock uploader none none s.buffer).0 ≡ panic)
        ⊎ (((recovery_attempt clock uploader s).0 ≡ false)
            × GoesLive (recovery_attempt clock uploader s).1.state)
  unfolding recovery_attempt
  recovery_attempt-GoesLive s {before} h rx sent =
      let (r, b) = trigger_upload_all clock uploader none none s.buffer in
      elim (trigger_upload_all_ends clock uploader none none s.buffer h) [
        | inl p ↦ inl p
        | inr (came, shut, done) ↦
            let (errors, after) = subst (λ o. Completed true o b.events) sent done in
            inr (
              then_recover-GoesLive r (record s { buffer = b }) (before ++ map upload_error errors)
                came rx
                (after
                  ∙ ap some (
                      sym (
                        append_assoc before (map upload_error errors)
                          (historical_upload_complete true ∷ [])))))
      ]
