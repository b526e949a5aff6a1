-- ===== src/MkvWriter/Runs.antt =====
-- Runs of the writer's timestamps.
use gst_kvs_sink.Common.{◌+◌, ◌^◌, ◌≤◌, ◌≡◌, refl, some, arith, ok}
use gst_kvs_sink.Common.Time.{ClockTime, unix_epoch}
use gst_kvs_sink.MkvWriter.{
  MkvWriter, timestamp_bytes, relative_ms, calculate_absolute_timestamp, new,
}
use gst_kvs_sink.MkvWriter.Timestamps.{
  from_be, from_be-timestamp_bytes, relative_ms_exact, relative_ms_wraps,
  calculate_absolute_timestamp_mono,
}
use gst_kvs_sink.Examples.{plain_clock}

from_be-timestamp_bytes_example : from_be 0 (timestamp_bytes 1_700_000_000_123) ≡ 1_700_000_000_123
from_be-timestamp_bytes_example = from_be-timestamp_bytes 1_700_000_000_123 (omega arith)

relative_ms_exact_example : relative_ms plain_clock 1_000_000_000 3_500_000_000 ≡ 2500
relative_ms_exact_example =
    relative_ms_exact plain_clock 1_000_000_000 3_500_000_000 (omega arith) (omega arith)

relative_ms_wraps_example : 2 ^ 15 ≤ relative_ms plain_clock 0 40_000_000_000
relative_ms_wraps_example =
    relative_ms_wraps plain_clock 0 40_000_000_000 (omega arith) (omega arith) (omega arith)

abbrev begun : MkvWriter
begun = record new {
  stream_start_timestamp = some 1_000_000_000;
  session_start_wall_time = some (unix_epoch + 5_000_000_000);
}

calculate_absolute_timestamp_mono_example :
    (ta : ClockTime) × (tb : ClockTime) × (calculate_absolute_timestamp plain_clock begun
        2_000_000_000
      ≡ ok ta)
    × (calculate_absolute_timestamp plain_clock begun 4_000_000_000 ≡ ok tb)
    × (ta ≤ tb)
calculate_absolute_timestamp_mono_example =
    calculate_absolute_timestamp_mono plain_clock begun 2_000_000_000 4_000_000_000 refl refl
      (omega arith) (omega arith) (omega arith)
