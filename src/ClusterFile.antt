-- ===== src/ClusterFile.antt =====
-- The records of a mega-cluster file, of src/buffered_upload_manager.rs: what
-- `append_fragment_to_mega_cluster` writes, and `ClusterFileReader` reads.
mod Cursor
pub mod RoundTrip
pub mod Recovery
mod Runs
use gst_kvs_sink.Common.{
  ℕ, zero, suc, ◌+◌, ◌*◌, ◌/◌, ◌%◌, Option, none, some, List, [], ◌∷◌, ◌++◌, ltb, leb, ◌==◌,
  if◌then◌else◌, length, slice, unwrap_or, Text, codes,
}
use gst_kvs_sink.Common.Words.{u64_limit, u64_to_le_bytes, u64_from_le_bytes}
use gst_kvs_sink.Common.Time.{
  SystemTime, unix_epoch, duration_since, as_millis, from_millis, ClockApi,
}
use gst_kvs_sink.Fragment
use gst_kvs_sink.Fragment.{Fragment}

-- `timestamp_ms` of the record: a time before the epoch counts as the epoch.
unfoldable pub timestamp_ms : Fragment → ℕ
timestamp_ms f = as_millis (unwrap_or (duration_since f.timestamp unix_epoch) 0) % u64_limit

-- The numbers of a record's header, in the order of the file.
pub record Metadata : Type 0 where
  pub cluster_size : ℕ
  pub timestamp : ℕ
  pub duration : ℕ
  pub header_size : ℕ

unfoldable pub metadata : ClockApi → Fragment → Metadata
metadata clock f = record {
  cluster_size = length f.cluster_data;
  timestamp = timestamp_ms f;
  duration = clock.mseconds f.duration;
  header_size = length f.header_data;
}

-- One call that writes to the file, with the context that its error is given.
pub record Write : Type 0 where
  pub bytes : List ℕ
  pub context : Option Text

-- The writes of one record, in order.
unfoldable pub record_writes : ClockApi → Fragment → List Write
record_writes clock f =
    let m = metadata clock f in
    record { bytes = u64_to_le_bytes m.cluster_size; context = none }
    ∷ record { bytes = u64_to_le_bytes m.timestamp; context = none }
    ∷ record { bytes = u64_to_le_bytes m.duration; context = none }
    ∷ record { bytes = u64_to_le_bytes m.header_size; context = none }
    ∷ record {
      bytes = f.header_data;
      context = some (codes "Failed to write headers to mega-cluster file");
    }
    ∷ record {
      bytes = f.cluster_data;
      context = some (codes "Failed to write cluster to mega-cluster file");
    }
    ∷ []

-- `ClusterFileReader`: the whole file, and how far it is read.
pub record Reader : Type 0 where
  pub bytes : List ℕ
  pub offset : ℕ

-- What `next` returns: `None`, an item, or no return because of a panic.
pub data Next : Type 0 where
  eof : Next
  item : Fragment → Next
  panicked : Next

-- `self.data[at..at + 8].try_into()`, then `u64::from_le_bytes`.
unfoldable pub read_u64 : List ℕ → ℕ → Option ℕ
read_u64 bytes at =
    let s = slice bytes at (at + 8) in if length s == 8 then some (u64_from_le_bytes s) else none

infixl 5 ◌>>=◌
abbrev ◌>>=◌ : {A B : Type 0} → Option A → (A → Option B) → Option B
none >>= f = none
some a >>= f = f a

unfoldable pub read_metadata : Reader → Option Metadata
unfolding read_u64
read_metadata r = do
  c ← read_u64 r.bytes r.offset
  t ← read_u64 r.bytes (r.offset + 8)
  d ← read_u64 r.bytes (r.offset + 16)
  h ← read_u64 r.bytes (r.offset + 24)
  some (record { cluster_size = c; timestamp = t; duration = d; header_size = h })

-- The part of `next` behind the headers. An end past `usize` panics: at the sum where overflow
-- is checked, and else at the slice, since the wrapped end lies before its start. A duration that 64
-- bits do not hold in nanoseconds panics behind the cluster data.
unfoldable pub read_cluster : ClockApi → SystemTime → Metadata → List ℕ → Reader → Next × Reader
unfolding Fragment.new
read_cluster clock now m headers r =
    let cluster_end = r.offset + m.cluster_size in
    if leb u64_limit cluster_end
    then (panicked, r)
    else if ltb (length r.bytes) cluster_end
    then (eof, r)
    else elim (clock.from_mseconds m.duration) [
      | none ↦ (panicked, record r { offset = cluster_end })
      | some duration ↦ (
        item (record (Fragment.new now headers (slice r.bytes r.offset cluster_end) duration) {
          timestamp = unix_epoch + from_millis m.timestamp;
        }),
        record r { offset = cluster_end },
      )
    ]

unfoldable pub read_headers : ClockApi → SystemTime → Metadata → Reader → Next × Reader
read_headers clock now m r =
    let header_end = r.offset + m.header_size in
    if leb u64_limit header_end
    then (panicked, r)
    else if ltb (length r.bytes) header_end
    then (eof, r)
    else read_cluster clock now m (slice r.bytes r.offset header_end)
        (record r { offset = header_end })

-- `ClusterFileReader::next`.
unfoldable pub next : ClockApi → SystemTime → Reader → Next × Reader
next clock now r =
    if ltb (length r.bytes) (r.offset + 32) then (eof, r) else elim (read_metadata r) [
      | none ↦ (eof, r)
      | some m ↦ read_headers clock now m (record r { offset = r.offset + 32 })
    ]

-- How a walk through a file ends. `exhausted` is no behaviour of the program: the fuel ran out.
pub data Ending : Type 0 where
  finished crashed exhausted : Ending

-- `for result in reader`, collecting what it yields.
unfoldable pub read_from : ClockApi → SystemTime → ℕ → Reader → List Fragment × Ending
read_from clock now zero r = ([], exhausted)
read_from clock now (suc fuel) r =
    let (x, r') = next clock now r in
    elim x [
      | eof ↦ ([], finished)
      | panicked ↦ ([], crashed)
      | item f ↦ let (fs, e) = read_from clock now fuel r' in (f ∷ fs, e)
    ]

-- `ClusterFileReader::from_path` on a file with these bytes.
unfoldable pub reader : List ℕ → Reader
reader bytes = record { bytes = bytes; offset = 0 }

-- Each record takes 32 bytes at least, so the length is fuel enough.
unfoldable pub read_file : ClockApi → SystemTime → List ℕ → List Fragment × Ending
unfolding reader
read_file clock now bytes = read_from clock now (suc (length bytes)) (reader bytes)

-- The bytes of a record: its writes, one behind the other.
unfoldable pub concat : List Write → List ℕ
concat [] = []
concat (w ∷ ws) = w.bytes ++ concat ws

unfoldable pub record_bytes : ClockApi → Fragment → List ℕ
unfolding concat record_writes
record_bytes clock f = concat (record_writes clock f)

unfoldable pub file_bytes : ClockApi → List Fragment → List ℕ
file_bytes clock [] = []
file_bytes clock (f ∷ fs) = record_bytes clock f ++ file_bytes clock fs

-- What a record keeps of a fragment: times in whole milliseconds, and no number.
unfoldable pub stored : ClockApi → Fragment → Fragment
stored clock f = record f {
  fragment_number = none;
  duration = f.duration / 1_000_000 * 1_000_000;
  timestamp = unix_epoch + from_millis (timestamp_ms f);
}
