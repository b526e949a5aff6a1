-- ===== src/Buffer/Store.antt =====
-- The storing side of `BufferedUploadManager`: `push_fragment` and what it calls.
pub mod Faults
pub mod Append
pub mod Healthy
pub mod Retention
pub mod Went
use gst_kvs_sink.Common.{
  ℕ, zero, suc, ◌+◌, ◌%◌, Bool, true, false, ◌&&◌, ◌||◌, Option, none, some, List, [], ◌∷◌, ◌++◌,
  ltb, leb, ◌==◌, if◌then◌else◌, length, unwrap_or, Text, codes, ok, err, panic,
}
use gst_kvs_sink.Common.Time.{
  SystemTime, Duration, unix_epoch, duration_since, as_millis, from_secs, ClockApi,
}
use gst_kvs_sink.Fragment.{Fragment}
use gst_kvs_sink.ClusterFile.{Write, record_writes}
use gst_kvs_sink.Buffer.Names.{file_name}
use gst_kvs_sink.Buffer.World.{
  FileName, MegaClusterFile, CurrentMegaClusterFile, Buffer, Action, pure, fail, ◌>>=◌, ◌>>◌,
  context, now, touch, create_file, write_all, remove_file,
}

abbrev pub mega_cluster_duration : Duration
mega_cluster_duration = from_secs 1800

abbrev pub mega_cluster_max_size : ℕ
mega_cluster_max_size = 45_000_000

-- The age test, and the size test, of a current file at a reading of the clock.
unfoldable pub is_due : SystemTime → CurrentMegaClusterFile → Bool
is_due t c =
    leb mega_cluster_duration (unwrap_or (duration_since t c.file_created_at) 0)
    || leb mega_cluster_max_size c.current_size

-- The entry of the upload queue that a closed file gets.
unfoldable pub queued : CurrentMegaClusterFile → MegaClusterFile
queued c = record {
  file_path = c.file_path;
  start_time = c.start_time;
  end_time = c.last_fragment_time;
  file_size = c.current_size;
  cluster_count = c.cluster_count;
  uploaded = false;
  upload_attempts = 0;
  last_upload_attempt = none;
  last_upload_error = none;
}

-- A file that was just created.
abbrev pub new_file : FileName → SystemTime → SystemTime → CurrentMegaClusterFile
new_file p created start = record {
  file_path = p;
  file_created_at = created;
  start_time = start;
  last_fragment_time = start;
  current_size = 0;
  cluster_count = 0;
}

-- The counters of the current file behind one more fragment.
unfoldable pub counted : Fragment → CurrentMegaClusterFile → CurrentMegaClusterFile
counted f c = record c {
  current_size = c.current_size + (32 + length f.header_data + length f.cluster_data);
  last_fragment_time = f.timestamp;
  cluster_count = c.cluster_count + 1;
}

module _ {U : Type 0} where
  -- `should_rotate_mega_cluster_file`
  unfoldable pub should_rotate : Action U Bool
  unfolding is_due
  should_rotate s = elim s.current_mega_cluster [
    | none ↦ (ok true, s)
    | some c ↦ (do t ← now; pure (is_due t c)) s
  ]

  -- `now.duration_since(UNIX_EPOCH)?.as_millis()`
  unfoldable pub since_epoch : SystemTime → Action U ℕ
  since_epoch t = elim (duration_since t unix_epoch) [
    | none ↦ fail (codes "second time provided was later than self")
    | some d ↦ pure (as_millis d)
  ]

  unfoldable pub open_current : FileName → SystemTime → SystemTime → Action U Unit
  open_current p created start s =
      (ok tt, record s { current_mega_cluster = some (new_file p created start) })

  -- `start_new_mega_cluster_file`
  unfoldable pub start_new : SystemTime → Action U Unit
  unfolding since_epoch open_current
  start_new start s =
      (do
        t ← now
        ms ← since_epoch t
        let p = file_name s.stream_name ms
        context (some (codes "Failed to create mega-cluster file")) (create_file p)
        open_current p t start)
        s

  unfoldable pub enqueue : MegaClusterFile → Action U Unit
  enqueue f s = (ok tt, record s { mega_cluster_files = s.mega_cluster_files ++ (f ∷ []) })

  -- `finalize_mega_cluster_file`: flush, sync, and add to the upload queue.
  unfoldable pub finalize : CurrentMegaClusterFile → Action U Unit
  unfolding enqueue queued
  finalize c = do touch; touch; enqueue (queued c)

  -- `if let Some(current) = self.current_mega_cluster.take() { finalize(current)? }`
  unfoldable pub close_current : Action U Unit
  close_current s = elim s.current_mega_cluster [
    | none ↦ (ok tt, s)
    | some c ↦ finalize c (record s { current_mega_cluster = none })
  ]

  unfoldable pub rotate : Bool → SystemTime → Action U Unit
  rotate false start = pure tt
  rotate true start = do close_current; start_new start

  -- The writes of a record, each with `?`.
  unfoldable pub write_each : FileName → List Write → Action U Unit
  write_each p [] s = (ok tt, s)
  write_each p (w ∷ ws) s =
      let (r, s') = context w.context (write_all p w.bytes) s in
      elim r [ ok _ ↦ write_each p ws s' | err e ↦ (err e, s') | panic ↦ (panic, s') ]

  unfoldable pub set_current : CurrentMegaClusterFile → Action U Unit
  set_current c s = (ok tt, record s { current_mega_cluster = some c })

  unfoldable pub set_last_fragment_time : SystemTime → Action U Unit
  set_last_fragment_time t s = (ok tt, record s { last_fragment_time = some t })

  -- The second half of `append_fragment_to_mega_cluster`: the record and the counters.
  unfoldable pub append_current : ClockApi → Fragment → Action U Unit
  unfolding set_current set_last_fragment_time
  append_current clock f s = elim s.current_mega_cluster [
    | none ↦ (err (codes "No current mega-cluster file (should not happen)"), s)
    | some c ↦
        (do
          write_each c.file_path (record_writes clock f)
          touch
          set_current (counted f c)
          set_last_fragment_time f.timestamp)
          s
  ]

  -- `append_fragment_to_mega_cluster`
  unfoldable pub append_fragment : ClockApi → Fragment → Action U Unit
  append_fragment clock f = do due ← should_rotate; rotate due f.timestamp; append_current clock f

  -- The loop of `cleanup_old_mega_cluster_files`, over the queue from its front.
  unfoldable pub cleanup_files : SystemTime → List MegaClusterFile → Action U Unit
  cleanup_files t [] s = (ok tt, record s { mega_cluster_files = [] })
  cleanup_files t (f ∷ fs) s =
      let rest = cleanup_files t fs (remove_file f.file_path s).1 in
      if ltb s.max_buffer_duration (unwrap_or (duration_since t f.start_time) 0) && f.uploaded
      then rest
      else (ok tt, record s { mega_cluster_files = f ∷ fs })

  unfoldable pub cleanup : Action U Unit
  cleanup s = (do t ← now; cleanup_files t s.mega_cluster_files) s

  -- The static counter of `push_fragment`.
  unfoldable pub count_call : Action U ℕ
  count_call s = let n = s.call_counter + 1 in (ok n, record s { call_counter = n })

  unfoldable pub push_fragment : ClockApi → Fragment → Action U Unit
  unfolding count_call
  push_fragment clock f = do
    append_fragment clock f
    n ← count_call
    if n % 100 == 0 then cleanup else pure tt
