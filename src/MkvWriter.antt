-- ===== src/MkvWriter.antt =====
-- `MkvWriter` of src/mkv_writer.rs: timestamps, and the elements that make up a fragment.
pub mod Timestamps
mod Runs
use gst_kvs_sink.Common.{
  ℕ, zero, suc, ◌+◌, ◌-◌, ◌/◌, ◌%◌, ◌^◌, Bool, not, Option, none, some, List, [], ◌∷◌, ◌++◌, leb,
  is_empty, if◌then◌else◌, unwrap_or, Text, codes, Result, ok, err, panic,
}
use gst_kvs_sink.Common.Words.{u64_limit}
use gst_kvs_sink.Common.Time.{
  SystemTime, ClockTime, ClockApi, unix_epoch, duration_since, as_millis,
}
use gst_kvs_sink.Fragment
use gst_kvs_sink.Fragment.{Fragment}

-- A GStreamer buffer, as far as the writer reads it; `bytes` is `none` if it cannot be mapped.
pub record Frame : Type 0 where
  pub pts : Option ClockTime
  pub duration : Option ClockTime
  pub delta_unit : Bool
  pub bytes : Option (List ℕ)

-- The Matroska elements that the writer names.
pub data Tag : Type 0 where
  ebml_start ebml_end segment_start info_start info_end tracks_start tracks_end : Tag
  track_entry_start track_entry_end video_start video_end cluster_start : Tag
  doc_type muxing_app writing_app codec_id : Text → Tag
  doc_type_version timestamp_scale track_number track_uid track_type : ℕ → Tag
  pixel_width pixel_height : ℕ → Tag
  codec_private : List ℕ → Tag

-- One call on the element writer: `write`, `write_advanced` with an unknown size, and `write_raw`
-- of a cluster timestamp or of a simple block.
pub data Call : Type 0 where
  write write_unknown_sized : Tag → Call
  write_timestamp : List ℕ → Call
  write_block : List ℕ → Call

-- What the Matroska library does: it encodes a run of calls, and the bytes of a simple block on
-- track 1 from the frame's bytes, its relative time as a 16-bit word, and whether it is a key
-- frame.
pub record WebmApi : Type 0 where
  pub encode : List Call → Result (List ℕ)
  pub simple_block : List ℕ → ℕ → Bool → List ℕ

pub record MkvWriter : Type 0 where
  pub stream_start_timestamp : Option ClockTime
  pub pts_offset : ClockTime
  pub session_start_wall_time : Option SystemTime
  pub width : ℕ
  pub height : ℕ
  pub codec_data : Option (List ℕ)

abbrev pub new : MkvWriter
new = record {
  stream_start_timestamp = none;
  pts_offset = 0;
  session_start_wall_time = none;
  width = 1920;
  height = 1080;
  codec_data = none;
}

infixl 5 ◌>>=◌
abbrev pub ◌>>=◌ {ℓ κ} : {A : Type ℓ} {B : Type κ} → Result A → (A → Result B) → Result B
ok a >>= f = f a
err e >>= f = err e
panic >>= f = panic

-- The calls of `generate_mkv_headers`.
unfoldable pub header_calls : MkvWriter → List Call
header_calls w =
    write ebml_start
    ∷ write (doc_type (codes "matroska"))
    ∷ write (doc_type_version 4)
    ∷ write ebml_end
    ∷ write_unknown_sized segment_start
    ∷ write info_start
    ∷ write (timestamp_scale 1_000_000)
    ∷ write (muxing_app (codes "gstrskvssink"))
    ∷ write (writing_app (codes "gstrskvssink"))
    ∷ write info_end
    ∷ write tracks_start
    ∷ write track_entry_start
    ∷ write (track_number 1)
    ∷ write (track_uid 1)
    ∷ write (track_type 1)
    ∷ write (codec_id (codes "V_MPEG4/ISO/AVC"))
    ∷ (elim w.codec_data [ none ↦ [] | some bytes ↦ write (codec_private bytes) ∷ [] ]
        ++ (write video_start
            ∷ write (pixel_width w.width)
            ∷ write (pixel_height w.height)
            ∷ write video_end
            ∷ write track_entry_end
            ∷ write tracks_end
            ∷ []))

unfoldable pub generate_mkv_headers : WebmApi → MkvWriter → Result (List ℕ)
generate_mkv_headers api w = api.encode (header_calls w)

unfoldable pub reset_for_new_session : ClockTime → MkvWriter → MkvWriter
reset_for_new_session pts w = record w {
  pts_offset = pts;
  stream_start_timestamp = none;
  session_start_wall_time = none;
}

unfoldable pub set_codec_metadata : ℕ → ℕ → Option (List ℕ) → MkvWriter → MkvWriter
set_codec_metadata width height codec_data w = record w {
  width = width;
  height = height;
  codec_data = codec_data;
}

unfoldable pub normalize_pts : MkvWriter → ClockTime → ClockTime
normalize_pts w pts = if leb w.pts_offset pts then pts - w.pts_offset else 0

-- `calculate_absolute_timestamp`
unfoldable pub calculate_absolute_timestamp : ClockApi → MkvWriter → ClockTime → Result ClockTime
calculate_absolute_timestamp clock w normalized = elim w.session_start_wall_time [
  | none ↦ err (codes "Session start wall time not initialized")
  | some wall ↦ elim w.stream_start_timestamp [
    | none ↦ err (codes "Stream start timestamp not initialized")
    | some start ↦
        let elapsed = if leb start normalized then normalized - start else 0 in
        elim (duration_since (wall + elapsed) unix_epoch) [
          | none ↦ err (codes "Failed to calculate Unix timestamp")
          | some d ↦ elim (clock.from_mseconds (as_millis d % u64_limit)) [
            | none ↦ panic
            | some t ↦ ok t
          ]
        ]
  ]
]

-- `to_be_bytes` of a number in `k` bytes.
unfoldable pub be_bytes : ℕ → ℕ → List ℕ
be_bytes zero n = []
be_bytes (suc k) n = be_bytes k (n / 256) ++ ((n % 256) ∷ [])

-- The cluster timestamp in 1, 2, 4 or 8 bytes, the most significant first.
unfoldable pub timestamp_bytes : ℕ → List ℕ
timestamp_bytes v =
    if leb v 0xff
    then (v % 256) ∷ []
    else if leb v 0xffff
    then (v / 256 % 256) ∷ (v % 256) ∷ []
    else if leb v 0xffff_ffff
    then be_bytes 4 v
    else be_bytes 8 v

-- `cluster_relative_ms`: the difference in milliseconds `as i16`, here as the 16-bit word.
unfoldable pub relative_ms : ClockApi → ClockTime → ClockTime → ℕ
relative_ms clock start normalized =
    if leb start normalized then (clock.mseconds normalized - clock.mseconds start) % 2 ^ 16 else 0

-- `write_simple_block`, up to the call on the writer. The checks of the AVCC format only log.
unfoldable pub block_call : WebmApi → Frame → ℕ → Result Call
block_call api frame relative = elim frame.bytes [
  | none ↦ err (codes "Failed to map buffer")
  | some bytes ↦
      if is_empty bytes
      then err (codes "Empty GStreamer buffer detected - encoder produced corrupt data")
      else ok (write_block (api.simple_block bytes relative (not frame.delta_unit)))
]

unfoldable pub block_calls :
    ClockApi → WebmApi → MkvWriter → ClockTime → List Frame → Result (List Call)
block_calls clock api w start [] = ok []
block_calls clock api w start (frame ∷ frames) = do
  let relative = relative_ms clock start (normalize_pts w (unwrap_or frame.pts 0))
  call ← block_call api frame relative
  calls ← block_calls clock api w start frames
  ok (call ∷ calls)

-- `write_cluster_and_frames`, as its calls, and `generate_pure_cluster_data`.
unfoldable pub cluster_calls :
    ClockApi → WebmApi → MkvWriter → ClockTime → List Frame → Result (List Call)
cluster_calls clock api w start frames = do
  t ← calculate_absolute_timestamp clock w start
  blocks ← block_calls clock api w start frames
  ok (
      write_unknown_sized cluster_start
      ∷ write_timestamp (timestamp_bytes (clock.mseconds t))
      ∷ blocks)

unfoldable pub generate_pure_cluster_data :
    ClockApi → WebmApi → MkvWriter → ClockTime → List Frame → Result (List ℕ)
generate_pure_cluster_data clock api w start frames = do
  calls ← cluster_calls clock api w start frames
  api.encode calls

unfoldable pub last_frame : Frame → List Frame → Frame
last_frame f [] = f
last_frame f (g ∷ fs) = last_frame g fs

-- The span from the first frame to the end of the last; none if the last comes before the first.
unfoldable pub fragment_duration : Frame → Frame → ClockTime
fragment_duration first last =
    let from = unwrap_or first.pts 0 in
    let to = unwrap_or last.pts 0 in
    if leb from to then to - from + unwrap_or last.duration 0 else 0

-- The first fragment of a session sets its start, at a reading of the wall clock.
unfoldable pub begin_session : SystemTime → ClockTime → MkvWriter → MkvWriter
begin_session wall normalized w = elim w.stream_start_timestamp [
  | none ↦ record w {
    stream_start_timestamp = some normalized;
    session_start_wall_time = some wall;
  }
  | some start ↦ w
]

-- `finalize_fragment`, at a reading of the wall clock.
unfoldable pub finalize_fragment :
    ClockApi → WebmApi → SystemTime → List Frame → MkvWriter → Result Fragment × MkvWriter
finalize_fragment clock api wall [] w =
    ((do headers ← generate_mkv_headers api w; ok (Fragment.new wall headers [] 0)), w)
finalize_fragment clock api wall (first ∷ frames) w =
    let normalized = normalize_pts w (unwrap_or first.pts 0) in
    let w' = begin_session wall normalized w in
    (
      (do
        headers ← generate_mkv_headers api w'
        cluster ← generate_pure_cluster_data clock api w' normalized (first ∷ frames)
        ok (Fragment.new wall headers cluster (fragment_duration first (last_frame first frames)))),
      w',
    )
