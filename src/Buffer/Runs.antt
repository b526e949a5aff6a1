-- ===== src/Buffer/Runs.antt =====
-- Runs of the buffer on a small directory.
use gst_kvs_sink.Common.{◌≡◌, refl, true, false, none, some, List, [], ◌∷◌, arith, ok, codes}
use gst_kvs_sink.Common.Time.{unix_epoch}
use gst_kvs_sink.Fragment.{Fragment}
use gst_kvs_sink.ClusterFile.{file_bytes}
use gst_kvs_sink.Buffer.Names.{
  starts_with, contains, ends_with, file_name, is_cluster_file, is_cluster_file-file_name,
}
use gst_kvs_sink.Buffer.World.{Buffer, lookup, text_eq, fine, fails}
use gst_kvs_sink.Buffer.Upload.{trigger_upload_all}
use gst_kvs_sink.Buffer.Upload.Outcome.{trigger_upload_all_ends, EndsWell}
use gst_kvs_sink.Buffer.Store.{cleanup}
use gst_kvs_sink.Buffer.Store.Retention.{Trimmed, cleanup-Trimmed}
use gst_kvs_sink.Buffer.Scan.{scan_existing}
use gst_kvs_sink.Buffer.Scan.Found.{is_queued, scan_existing-is_queued}
use gst_kvs_sink.Examples.{open_file, plain_clock, early, empty_buffer, offline}

is_cluster_file-file_name_example :
    is_cluster_file (codes "cam") (file_name (codes "cam") 1234) ≡ true
is_cluster_file-file_name_example = is_cluster_file-file_name (codes "cam") 1234

-- The third write fails after four bytes.
abbrev failing : Buffer (List Fragment)
failing = record empty_buffer {
  current_mega_cluster = some open_file;
  disk = (codes "a.dat", file_bytes plain_clock (early ∷ [])) ∷ [];
  outcomes = fine ∷ fine ∷ fails 4 (codes "disk full") ∷ [];
}

-- One file waits for its upload, and the service cannot be reached.
abbrev waiting : Buffer (List Fragment)
waiting = record empty_buffer {
  mega_cluster_files =
      record {
        file_path = codes "a.dat";
        start_time = unix_epoch;
        end_time = unix_epoch;
        file_size = 35;
        cluster_count = 1;
        uploaded = false;
        upload_attempts = 0;
        last_upload_attempt = none;
        last_upload_error = none;
      }
      ∷ [];
  disk = (codes "a.dat", file_bytes plain_clock (early ∷ [])) ∷ [];
}

trigger_upload_all_ends_example :
    EndsWell plain_clock offline true waiting
      (trigger_upload_all plain_clock offline none none waiting)
trigger_upload_all_ends_example =
    trigger_upload_all_ends plain_clock offline none none waiting
      (record { no_failures = refl; after_epoch = λ n. omega arith })

cleanup-Trimmed_example :
    ((cleanup waiting).0 ≡ ok tt)
    × Trimmed
        (waiting.clock 0)
        waiting.max_buffer_duration
        waiting.mega_cluster_files
        (cleanup waiting).1.mega_cluster_files
cleanup-Trimmed_example = cleanup-Trimmed waiting

-- A directory with a file of an earlier run, behind one of another stream.
abbrev restarted : Buffer (List Fragment)
restarted = record empty_buffer {
  disk = (codes "other_clusters_5.dat", []) ∷ (codes "cam_clusters_7.dat", 1 ∷ []) ∷ [];
}

scan_existing-is_queued_example :
    ((scan_existing (λ p. unix_epoch) restarted).0 ≡ ok tt)
    × (is_queued
          (codes "cam_clusters_7.dat")
          (scan_existing (λ p. unix_epoch) restarted).1.mega_cluster_files
        ≡ true)
unfolding lookup text_eq is_cluster_file starts_with contains ends_with
scan_existing-is_queued_example =
    scan_existing-is_queued (codes "cam_clusters_7.dat") (λ p. unix_epoch) restarted refl refl refl
