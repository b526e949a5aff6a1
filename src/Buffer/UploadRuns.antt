-- ===== src/Buffer/UploadRuns.antt =====
-- Runs of the upload of the buffer.
use gst_kvs_sink.Common.{◌≡◌, ◌≢◌, refl, ap, false, none, List, [], ◌∷◌, arith, ok, codes}
use gst_kvs_sink.Common.Time.{unix_epoch}
use gst_kvs_sink.Fragment.{Fragment}
use gst_kvs_sink.ClusterFile.{stored, file_bytes, record_bytes}
use gst_kvs_sink.Buffer.Names.{file_name}
use gst_kvs_sink.Buffer.World.{FileName, MegaClusterFile, Buffer, lookup, text_eq}
use gst_kvs_sink.Buffer.Disk.{text_eq_self}
use gst_kvs_sink.Common.Words.{u64_to_le_bytes}
use gst_kvs_sink.Buffer.Upload.{trigger_upload_all, select, eligible, overlaps_time_range}
use gst_kvs_sink.Buffer.Upload.Delivered.{sent_all}
use gst_kvs_sink.Buffer.Upload.Backlog.{trigger_upload_all-Holds}
use gst_kvs_sink.Examples.{open_file, stocked, plain_clock, early, late, keeper}

abbrev older : MegaClusterFile
older = record {
  file_path = codes "b.dat";
  start_time = unix_epoch;
  end_time = unix_epoch;
  file_size = 36;
  cluster_count = 1;
  uploaded = false;
  upload_attempts = 0;
  last_upload_attempt = none;
  last_upload_error = none;
}

apart : (p q : FileName) → text_eq p q ≡ false → p ≢ q
apart p q h e = cc (h, ap (λ r. text_eq p r) e, text_eq_self p)

-- A file waits in the queue, and the current one holds a fragment.
abbrev backlog : Buffer (List Fragment)
backlog = record stocked {
  mega_cluster_files = older ∷ [];
  disk =
      (codes "a.dat", file_bytes plain_clock (early ∷ []))
      ∷ (codes "b.dat", file_bytes plain_clock (late ∷ []))
      ∷ [];
}

trigger_upload_all-Holds_example :
    ((trigger_upload_all plain_clock keeper none none backlog).0 ≡ ok tt)
    × ((trigger_upload_all plain_clock keeper none none backlog).1.uploader
        ≡ sent_all keeper (stored plain_clock late ∷ stored plain_clock early ∷ []) [])
unfolding select eligible overlaps_time_range lookup text_eq file_name file_bytes record_bytes
    u64_to_le_bytes
trigger_upload_all-Holds_example =
    trigger_upload_all-Holds plain_clock keeper ((older, late ∷ []) ∷ []) (early ∷ []) backlog
      (record { healthy = refl; current = open_file; there = refl; content = refl }) (λ f u. refl)
      (λ n. omega arith) refl ((refl, (omega arith, tt), omega arith), (tt, tt))
      (apart _ _ refl, tt) (apart _ _ refl, tt) (apart _ _ refl) (omega arith, tt) (omega arith)
