-- ===== src/ClusterFile/Runs.antt =====
-- Runs of the record format on two fragments.
use gst_kvs_sink.Common.{◌*◌, ◌≤◌, ◌≡◌, ◌≢◌, List, [], ◌∷◌, ◌++◌, map, take, length, arith}
use gst_kvs_sink.Common.Words.{u64_to_le_bytes}
use gst_kvs_sink.Fragment.{Fragment}
use gst_kvs_sink.ClusterFile.{
  Metadata, finished, crashed, exhausted, read_file, record_bytes, file_bytes, stored, metadata,
  concat, record_writes,
}
use gst_kvs_sink.ClusterFile.RoundTrip.{IsInRange, header}
use gst_kvs_sink.ClusterFile.Recovery.{read_file-cut, read_file-corrupt, read_file_total}
use gst_kvs_sink.Examples.{plain_clock, early, late}

abbrev two : List Fragment
two = early ∷ late ∷ []

read_file-cut_example :
    read_file plain_clock 0
      (file_bytes plain_clock (early ∷ []) ++ take 20 (record_bytes plain_clock late))
    ≡ (map (stored plain_clock) (early ∷ []), finished)
unfolding file_bytes record_bytes concat record_writes metadata u64_to_le_bytes header IsInRange
read_file-cut_example =
    read_file-cut plain_clock 0 (early ∷ []) late 20 (omega arith, tt) (omega arith) (omega arith)
      (omega arith)

abbrev corrupt : Metadata
corrupt = record {
  cluster_size = 0;
  timestamp = 0;
  duration = 0;
  header_size = 18446744073709551615;
}

read_file-corrupt_example :
    read_file plain_clock 0 (file_bytes plain_clock (early ∷ []) ++ header corrupt [])
    ≡ (map (stored plain_clock) (early ∷ []), crashed)
unfolding file_bytes record_bytes concat record_writes metadata u64_to_le_bytes header IsInRange
read_file-corrupt_example =
    read_file-corrupt plain_clock 0 (early ∷ []) corrupt [] (omega arith, tt)
      (omega arith, omega arith, omega arith, omega arith) (omega arith) (omega arith)

read_file_total_example :
    let (fs, e) = read_file plain_clock 0 (file_bytes plain_clock two) in
    (e ≢ exhausted) × (32 * length fs ≤ length (file_bytes plain_clock two))
read_file_total_example = read_file_total plain_clock 0 (file_bytes plain_clock two)
