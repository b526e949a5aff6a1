-- ===== src/Common/Time.antt =====
-- Points in time and durations of the standard library, and the clock time of GStreamer.
use Prim.Native.Nat.{ℕ, ◌-◌, ◌*◌, ◌/◌, ◌^◌, ◌<◌}
use mathlib.Core.Path.{◌≡◌}
use mathlib.Core.Option.{Option, none, some}
use gst_kvs_sink.Common.Tests.{leb, if◌then◌else◌}
use gst_kvs_sink.Common.Words.{u64_limit}

-- A `SystemTime` is the number of nanoseconds since the earliest instant that it can show, whose
-- seconds are `i64::MIN`; `UNIX_EPOCH` stands 2^63 seconds later. An `Instant` counts likewise.
abbrev pub SystemTime : Type 0
SystemTime = ℕ

abbrev pub Instant : Type 0
Instant = ℕ

-- A `Duration` in nanoseconds.
abbrev pub Duration : Type 0
Duration = ℕ

abbrev pub unix_epoch : SystemTime
unix_epoch = 2 ^ 63 * 1_000_000_000

-- `later.duration_since(earlier)`, an error if `later` comes first.
abbrev pub duration_since : SystemTime → SystemTime → Option Duration
duration_since later earlier = if leb earlier later then some (later - earlier) else none

abbrev pub duration_secs : Duration → ℕ
duration_secs d = d / 1_000_000_000

abbrev pub from_secs : ℕ → Duration
from_secs n = n * 1_000_000_000

abbrev pub as_millis : Duration → ℕ
as_millis d = d / 1_000_000

abbrev pub from_millis : ℕ → Duration
from_millis n = n * 1_000_000

-- `ClockTime` of the GStreamer bindings holds nanoseconds. The three conversions that the program
-- calls are the bindings' own, with what their documentation says of them: `none` is the panic of a
-- time that 64 bits do not hold.
abbrev pub ClockTime : Type 0
ClockTime = ℕ

pub record ClockApi : Type 0 where
  pub mseconds : ClockTime → ℕ
  pub from_mseconds : ℕ → Option ClockTime
  pub from_nseconds : ℕ → Option ClockTime
  pub mseconds_lem : (t : ClockTime) → mseconds t ≡ t / 1_000_000
  pub from_mseconds_lem :
      (n : ℕ) → n * 1_000_000 < u64_limit → from_mseconds n ≡ some (n * 1_000_000)
  pub from_nseconds_lem : (n : ℕ) → n < u64_limit - 1 → from_nseconds n ≡ some n
