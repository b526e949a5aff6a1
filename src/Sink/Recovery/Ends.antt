-- ===== src/Sink/Recovery/Ends.antt =====
-- That the recovery task ends.
use mathlib.Core.Path.{subst}
use gst_kvs_sink.Common.{
  ℕ, suc, ◌+◌, ◌≡◌, sym, ap, ◌∙◌, Bool, true, false, none, some, List, [], ◌∷◌, arith, inl, inr,
  ◌⊎◌, panic,
}
use gst_kvs_sink.Common.Time.{ClockApi, Duration}
use gst_kvs_sink.MediaUploader.{MediaUploader}
use gst_kvs_sink.Buffer.World.{BufferManagerEvent}
use gst_kvs_sink.Buffer.Upload.{trigger_upload_all}
use gst_kvs_sink.Buffer.Upload.Outcome.{IsHealthy}
use gst_kvs_sink.Sink.State.{Sink}
use gst_kvs_sink.Sink.Failures.{recovery_delay, handle_network_failure, recovery_attempt}
use gst_kvs_sink.Sink.Failures.Recovery.{GoesLive, recovery_attempt-GoesLive}
use gst_kvs_sink.Sink.Recovery.{sleep, recovery_task, round_delay}

module _ {U : Type 0} where
  handle_network_failure_lem :
      (s : Sink U)
      → s.state.recovery_task ≡ false
      → ((handle_network_failure s).buffer ≡ s.buffer)
        × ((handle_network_failure s).state.has_buffer_event_rx ≡ s.state.has_buffer_event_rx)
        × ((handle_network_failure s).state.consecutive_failures ≡ s.state.consecutive_failures + 1)
  unfolding handle_network_failure
  handle_network_failure_lem s e = (ground arith, ground arith, ground arith)

module _ {U : Type 0} (clock : ClockApi) (uploader : MediaUploader U) where
  recovery_task_round :
      (n : ℕ) (s : Sink U)
      → (recovery_attempt clock uploader (sleep (round_delay s) s)).0 ≡ false
      → recovery_task clock uploader (suc n) s
        ≡ (true, round_delay s ∷ [], (recovery_attempt clock uploader (sleep (round_delay s) s)).1)
  unfolding recovery_task
  recovery_task_round n s e = ground arith

  recovery_task_first :
      (n : ℕ) (s : Sink U) {before : List BufferManagerEvent}
      → IsHealthy s.buffer
      → s.state.has_buffer_event_rx ≡ true
      → s.buffer.events ≡ some before
      → (let t = recovery_task clock uploader (suc n) s in
          ((trigger_upload_all clock uploader none none s.buffer).0 ≡ panic)
          ⊎ ((t.0 ≡ true) × (t.1 ≡ round_delay s ∷ []) × GoesLive t.2.state))
  unfolding sleep
  recovery_task_first n s h rx sent =
      let d = round_delay s in
      elim (recovery_attempt-GoesLive clock uploader (sleep d s) h rx sent) [
        | inl p ↦ inl p
        | inr (over, live) ↦
            let e = recovery_task_round n s over in
            inr (
              ap (λ t. t.0) e,
              ap (λ t. t.1) e,
              subst (λ (t : Bool × List Duration × Sink U). GoesLive t.2.state) (sym e) live,
            )
      ]

  -- Where the directory's operations go well, the clock stands behind the epoch and the event
  -- channel is set up: after a network failure without a recovery task, unless the upload panics,
  -- the recovery task sleeps once, for the delay that belongs to one failure more, and ends after
  -- its first round; the element then waits for the next key frame to go live, and no failure is
  -- counted.
  pub recovery_task_ends :
      (n : ℕ) (s : Sink U) {before : List BufferManagerEvent}
      → s.state.recovery_task ≡ false
      → IsHealthy s.buffer
      → s.state.has_buffer_event_rx ≡ true
      → s.buffer.events ≡ some before
      → (let t = recovery_task clock uploader (suc n) (handle_network_failure s) in
          ((trigger_upload_all clock uploader none none s.buffer).0 ≡ panic)
          ⊎ ((t.0 ≡ true)
              × (t.1 ≡ recovery_delay (s.state.consecutive_failures + 1) ∷ [])
              × GoesLive t.2.state))
  recovery_task_ends n s {before} calm h rx sent =
      let (same, rx', counted) = handle_network_failure_lem s calm in
      let f = handle_network_failure s in
      elim (recovery_task_first n f (subst IsHealthy (sym same) h) (rx' ∙ rx)
        (ap (λ b. b.events) same ∙ sent)) [
          | inl p ↦ inl (ap (λ b. (trigger_upload_all clock uploader none none b).0) (sym same) ∙ p)
          | inr (ended, slept, live) ↦
              inr (ended, slept ∙ ap (λ c. recovery_delay c ∷ []) counted, live)
        ]
