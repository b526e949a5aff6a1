-- ===== src/Fragment.antt =====
-- `Fragment` of src/fragment.rs: MKV headers and cluster data, both as bytes.
use gst_kvs_sink.Common.{ℕ, ◌+◌, Bool, not, Option, none, some, List, length, is_empty}
use gst_kvs_sink.Common.Time.{SystemTime, ClockTime}

pub record Fragment : Type 0 where
  pub header_data : List ℕ
  pub cluster_data : List ℕ
  pub fragment_number : Option ℕ
  pub duration : ClockTime
  pub timestamp : SystemTime

-- `Fragment::new`; `now` is the reading of the system clock.
unfoldable pub new : SystemTime → List ℕ → List ℕ → ClockTime → Fragment
new now header_data cluster_data duration = record {
  header_data = header_data;
  cluster_data = cluster_data;
  fragment_number = none;
  duration = duration;
  timestamp = now;
}

unfoldable pub with_number : Fragment → ℕ → Fragment
with_number f num = record f { fragment_number = some num }

unfoldable pub has_headers : Fragment → Bool
has_headers f = not (is_empty f.header_data)

unfoldable pub total_size : Fragment → ℕ
total_size f = length f.header_data + length f.cluster_data

unfoldable pub cluster_size : Fragment → ℕ
cluster_size f = length f.cluster_data
