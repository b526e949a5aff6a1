-- ===== src/MkvWriter/Timestamps.antt =====
-- The timestamps that the writer puts into a cluster.
use gst_kvs_sink.Common.{
  ℕ, ◌+◌, ◌-◌, ◌*◌, ◌/◌, ◌^◌, ◌≤◌, ◌<◌, ◌≡◌, some, List, [], ◌∷◌, arith, leb, if◌then◌else◌, ok,
}
use gst_kvs_sink.Common.Words.{u64_limit, IsU64}
use gst_kvs_sink.Common.Time.{SystemTime, ClockTime, ClockApi, unix_epoch}
use gst_kvs_sink.MkvWriter.{
  MkvWriter, be_bytes, timestamp_bytes, relative_ms, calculate_absolute_timestamp,
}

-- An unsigned number from its bytes, the most significant first, as an EBML reader takes it.
abbrev pub from_be : ℕ → List ℕ → ℕ
from_be acc [] = acc
from_be acc (b ∷ bs) = from_be (acc * 256 + b) bs

-- The cluster timestamp takes 1, 2, 4 or 8 bytes, and an EBML reader gets the 64-bit number back
-- from them.
pub from_be-timestamp_bytes : (v : ℕ) → IsU64 v → from_be 0 (timestamp_bytes v) ≡ v
unfolding timestamp_bytes be_bytes
from_be-timestamp_bytes v h = ground arith

-- A frame whose time lies less than 2^15 ms behind the cluster's start keeps the whole distance.
pub relative_ms_exact :
    (clock : ClockApi) (start t : ClockTime)
    → start ≤ t
    → t / 1_000_000 - start / 1_000_000 < 2 ^ 15
    → relative_ms clock start t ≡ t / 1_000_000 - start / 1_000_000
unfolding relative_ms
relative_ms_exact clock start t h small =
    rw (clock.mseconds_lem t, clock.mseconds_lem start) (ground arith)

-- A frame that lies 2^15 ms or more behind the cluster's start, but less than 2^16 ms, gets a
-- 16-bit field whose sign bit is set: as a signed number it lies before the start.
pub relative_ms_wraps :
    (clock : ClockApi) (start t : ClockTime)
    → start ≤ t
    → 2 ^ 15 ≤ t / 1_000_000 - start / 1_000_000
    → t / 1_000_000 - start / 1_000_000 < 2 ^ 16
    → 2 ^ 15 ≤ relative_ms clock start t
unfolding relative_ms
relative_ms_wraps clock start t h big fits =
    rw (clock.mseconds_lem t, clock.mseconds_lem start) (ground arith)

absolute_at :
    (clock : ClockApi) (w : MkvWriter) {wall : SystemTime} {start : ClockTime} (t : ClockTime)
    → w.session_start_wall_time ≡ some wall
    → w.stream_start_timestamp ≡ some start
    → unix_epoch ≤ wall
    → wall - unix_epoch + t < u64_limit
    → calculate_absolute_timestamp clock w t
      ≡ ok ((wall + (if leb start t then t - start else 0) - unix_epoch) / 1_000_000 * 1_000_000)
unfolding calculate_absolute_timestamp
absolute_at clock w {wall} {start} t hw hs e small =
    let d = (wall + (if leb start t then t - start else 0) - unix_epoch) / 1_000_000 in
    let bound : d * 1_000_000 < u64_limit = ground arith in
    ground (arith, clock.from_mseconds_lem d bound)

-- Once a session has begun, on a clock behind the epoch: of two fragments of it, the later one has
-- no earlier absolute timestamp, and neither fails.
pub calculate_absolute_timestamp_mono :
    (clock : ClockApi) (w : MkvWriter) {wall : SystemTime} {start : ClockTime} (a b : ClockTime)
    → w.session_start_wall_time ≡ some wall
    → w.stream_start_timestamp ≡ some start
    → unix_epoch ≤ wall
    → wall - unix_epoch + b < u64_limit
    → a ≤ b
    → (ta : ClockTime) × (tb : ClockTime) × (calculate_absolute_timestamp clock w a ≡ ok ta)
      × (calculate_absolute_timestamp clock w b ≡ ok tb)
      × (ta ≤ tb)
calculate_absolute_timestamp_mono clock w {wall} {start} a b hw hs e small h = (
  (wall + (if leb start a then a - start else 0) - unix_epoch) / 1_000_000 * 1_000_000,
  (wall + (if leb start b then b - start else 0) - unix_epoch) / 1_000_000 * 1_000_000,
  absolute_at clock w a hw hs e (omega arith),
  absolute_at clock w b hw hs e small,
  ground arith,
)
