-- ===== src/Examples.antt =====
-- Concrete parameters and data for the runs of the components.
use gst_kvs_sink.Common.{
  ℕ, ◌-◌, ◌<◌, ◌≡◌, ◌*◌, ◌+◌, ◌/◌, ltb, if◌then◌else◌, arith, refl, true, false, none, some, List,
  [], ◌∷◌, ok, err, codes,
}
use gst_kvs_sink.Common.Words.{u64_limit}
use gst_kvs_sink.Common.Time.{ClockApi, unix_epoch}
use gst_kvs_sink.Fragment.{Fragment}
use gst_kvs_sink.MediaUploader.{MediaUploader}
use gst_kvs_sink.MkvWriter.{WebmApi}
use gst_kvs_sink.ClusterFile.{file_bytes}
use gst_kvs_sink.Buffer.World.{Buffer, CurrentMegaClusterFile}
use gst_kvs_sink.Sink.State
use gst_kvs_sink.Sink.State.{Sink}

pub in_range :
    (n : ℕ)
    → n * 1_000_000 < u64_limit
    → (if ltb (n * 1_000_000) u64_limit then some (n * 1_000_000) else none) ≡ some (n * 1_000_000)
in_range n h = ground arith

pub below_last :
    (n : ℕ) → n < u64_limit - 1 → (if ltb n (u64_limit - 1) then some n else none) ≡ some n
below_last n h = ground arith

abbrev pub plain_clock : ClockApi
plain_clock = record {
  mseconds = λ t. t / 1_000_000;
  from_mseconds = λ n. if ltb (n * 1_000_000) u64_limit then some (n * 1_000_000) else none;
  from_nseconds = λ n. if ltb n (u64_limit - 1) then some n else none;
  mseconds_lem = λ t. refl;
  from_mseconds_lem = in_range;
  from_nseconds_lem = below_last;
}

abbrev pub plain_webm : WebmApi
plain_webm = record { encode = λ calls. ok []; simple_block = λ bytes relative key. bytes }

-- Two fragments, two seconds apart.
abbrev pub early : Fragment
early = record {
  header_data = 1 ∷ 2 ∷ [];
  cluster_data = 3 ∷ [];
  fragment_number = none;
  duration = 2_000_000_000;
  timestamp = unix_epoch + 1_000_000_000;
}

abbrev pub late : Fragment
late = record {
  header_data = 1 ∷ 2 ∷ [];
  cluster_data = 4 ∷ 5 ∷ [];
  fragment_number = none;
  duration = 2_000_000_000;
  timestamp = unix_epoch + 3_000_000_000;
}

-- An uploader that keeps what it is sent, and one that is offline.
abbrev pub keeper : MediaUploader (List Fragment)
keeper = record {
  initialize = λ stream region sent. (ok tt, sent);
  put_fragment = λ f sent. (ok tt, f ∷ sent);
  is_session_expired = λ sent. false;
  reset_session = λ sent. (ok tt, sent);
}

abbrev pub offline : MediaUploader (List Fragment)
offline = record {
  initialize = λ stream region sent. (ok tt, sent);
  put_fragment = λ f sent. (err (codes "connection refused"), sent);
  is_session_expired = λ sent. true;
  reset_session = λ sent. (err (codes "connection refused"), sent);
}

-- A buffer in an empty directory.
abbrev pub empty_buffer : Buffer (List Fragment)
empty_buffer = record {
  stream_name = codes "cam";
  max_buffer_duration = 3_600_000_000_000;
  last_fragment_time = none;
  current_mega_cluster = none;
  mega_cluster_files = [];
  events = some [];
  disk = [];
  outcomes = [];
  clock = λ n. unix_epoch + 5_000_000_000;
  readings = 0;
  call_counter = 0;
  uploader = [];
}

-- A file that holds one fragment.
abbrev pub open_file : CurrentMegaClusterFile
open_file = record {
  file_path = codes "a.dat";
  file_created_at = unix_epoch;
  start_time = unix_epoch;
  last_fragment_time = unix_epoch;
  current_size = 35;
  cluster_count = 1;
}

abbrev pub stocked : Buffer (List Fragment)
stocked = record empty_buffer {
  current_mega_cluster = some open_file;
  disk = (codes "a.dat", file_bytes plain_clock (early ∷ [])) ∷ [];
}

abbrev pub idle_sink : Sink (List Fragment)
idle_sink = record {
  settings = record {
    stream_name = codes "cam";
    region = codes "eu-west-1";
    fragment_duration = 7;
    session_duration_secs = 2400;
    mode = codes "continuous";
    buffer_directory = some (codes "/tmp");
    max_buffer_hours = 1;
    segment_duration_secs = 60;
  };
  state = State.default;
  buffer = empty_buffer;
  uploader_locked = false;
  instant = 0;
}
