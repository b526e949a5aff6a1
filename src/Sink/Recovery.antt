-- ===== src/Sink/Recovery.antt =====
-- The recovery task that `handle_network_failure` spawns, round after round, and the switch back to
-- streaming.
pub mod Ends
use gst_kvs_sink.Common.{ℕ, zero, suc, ◌+◌, Bool, true, false, none, List, [], ◌∷◌, if◌then◌else◌}
use gst_kvs_sink.Common.Time.{ClockApi, Duration}
use gst_kvs_sink.MediaUploader.{MediaUploader}
use gst_kvs_sink.Sink.State.{Sink}
use gst_kvs_sink.Sink.Failures.{recovery_delay, recovery_attempt}

module _ {U : Type 0} where
  -- The delay of a round, which follows the failures counted so far.
  abbrev pub round_delay : Sink U → Duration
  round_delay s = recovery_delay s.state.consecutive_failures

  -- `tokio::time::sleep(delay)`
  unfoldable pub sleep : Duration → Sink U → Sink U
  sleep delay s = record s { instant = s.instant + delay }

module _ {U : Type 0} (clock : ClockApi) (uploader : MediaUploader U) where
  -- The loop of the task, for a number of rounds: whether it ended, the delays that it slept, and
  -- the state. The task itself has no bound.
  unfoldable pub recovery_task : ℕ → Sink U → Bool × List Duration × Sink U
  recovery_task zero s = (false, [], s)
  recovery_task (suc n) s =
      let (more, s') = recovery_attempt clock uploader (sleep (round_delay s) s) in
      let (ended, delays, t) = recovery_task n s' in
      if more then (ended, round_delay s ∷ delays, t) else (true, round_delay s ∷ [], s')
