-- ===== src/Sink/Stop.antt =====
-- `stop`: the end of the recovery task and of the worker.
pub mod Drain
pub mod Detached
use gst_kvs_sink.Common.{ℕ, zero, suc, Bool, true, false, none, some, if◌then◌else◌}
use gst_kvs_sink.Common.Time.{ClockApi}
use gst_kvs_sink.MediaUploader.{MediaUploader}
use gst_kvs_sink.Sink.State
use gst_kvs_sink.Sink.State.{Sink}
use gst_kvs_sink.Sink.Render.{with_state}
use gst_kvs_sink.Sink.Worker.{worker_step}
use gst_kvs_sink.Sink.Signals.{cancel_recovery_task}

module _ {U : Type 0} (clock : ClockApi) (uploader : MediaUploader U) where
  -- The worker's loop, for a number of rounds: it ends when the channel is empty, which nobody
  -- fills any more, or with a panic.
  unfoldable pub worker_rounds : ℕ → Sink U → Sink U
  worker_rounds zero s = s
  worker_rounds (suc n) s = elim (worker_step clock uploader s) [
    | none ↦ s
    | some (more, s') ↦ elim more [ true ↦ worker_rounds n s' | false ↦ s' ]
  ]

  -- `stop`, where the worker gets through this many rounds before it is aborted: whether a recovery
  -- task is left behind, whose handle the reset of the state drops, and the element.
  unfoldable pub stop : ℕ → Sink U → Bool × Sink U
  stop rounds s =
      let s' = (cancel_recovery_task s).1 in
      let drained = if s'.state.upload_task then worker_rounds rounds s' else s' in
      (drained.state.recovery_task, with_state State.default drained)
