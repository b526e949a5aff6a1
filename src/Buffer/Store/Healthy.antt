-- ===== src/Buffer/Store/Healthy.antt =====
-- A buffer whose current file holds whole records.
use gst_kvs_sink.Common.{◌≡◌, some, List, []}
use gst_kvs_sink.Common.Time.{ClockApi}
use gst_kvs_sink.Fragment.{Fragment}
use gst_kvs_sink.ClusterFile.{file_bytes}
use gst_kvs_sink.Buffer.World.{CurrentMegaClusterFile, Buffer, lookup}

-- No operation fails, and the current file holds the records of these fragments.
pub record Holds {U : Type 0} (clock : ClockApi) (s : Buffer U) (gs : List Fragment) : Type 0 where
  pub healthy : s.outcomes ≡ []
  pub current : CurrentMegaClusterFile
  pub there : s.current_mega_cluster ≡ some current
  pub content : lookup current.file_path s.disk ≡ some (file_bytes clock gs)
