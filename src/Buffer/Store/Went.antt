-- ===== src/Buffer/Store/Went.antt =====
-- The state that a healthy step of `push_fragment` leaves, in full.
use gst_kvs_sink.Common.{
  suc, ◌+◌, ◌-◌, ◌%◌, ◌≤◌, ◌≡◌, refl, true, false, none, some, List, [], ◌∷◌, ◌++◌, arith, ◌==◌,
  if◌then◌else◌, ok, All,
}
use gst_kvs_sink.Common.Time.{SystemTime, ClockApi, unix_epoch, as_millis}
use gst_kvs_sink.Fragment.{Fragment}
use gst_kvs_sink.ClusterFile.{record_writes}
use gst_kvs_sink.Buffer.Names.{file_name}
use gst_kvs_sink.Buffer.World.{
  FileName, MegaClusterFile, CurrentMegaClusterFile, Buffer, pure, create_file, insert,
}
use gst_kvs_sink.Buffer.Store.{
  should_rotate, is_due, rotate, close_current, start_new, finalize, queued, write_each,
  append_current, append_fragment, cleanup, cleanup_files, push_fragment, new_file, counted,
}

-- The name of the file that is begun at the second reading of the clock from here.
abbrev pub new_name : {U : Type 0} → Buffer U → FileName
new_name s = file_name s.stream_name (as_millis (s.clock (suc s.readings) - unix_epoch))

module _ {U : Type 0} where
  pub should_rotate_open :
      (s : Buffer U) {c : CurrentMegaClusterFile}
      → s.current_mega_cluster ≡ some c
      → should_rotate s
        ≡ (ok (is_due (s.clock s.readings) c), record s { readings = suc s.readings })
  unfolding should_rotate
  should_rotate_open s h = ground arith

  pub should_rotate-none :
      (s : Buffer U) → s.current_mega_cluster ≡ none → should_rotate s ≡ (ok true, s)
  unfolding should_rotate
  should_rotate-none s h = ground arith

  pub close_current_open :
      (s : Buffer U) {c : CurrentMegaClusterFile}
      → s.outcomes ≡ []
      → s.current_mega_cluster ≡ some c
      → close_current s ≡ (
        ok tt,
        record s {
          current_mega_cluster = none;
          mega_cluster_files = s.mega_cluster_files ++ (queued c ∷ []);
          outcomes = [];
        },
      )
  unfolding close_current finalize
  close_current_open s h e = ground arith

  pub close_current-none :
      (s : Buffer U) → s.current_mega_cluster ≡ none → close_current s ≡ (ok tt, s)
  unfolding close_current
  close_current-none s h = ground arith

  -- The state with a file of this name begun.
  abbrev pub begun : FileName → SystemTime → Buffer U → Buffer U
  begun p t s = record s {
    readings = suc s.readings;
    outcomes = [];
    disk = insert p [] s.disk;
    current_mega_cluster = some (new_file p (s.clock s.readings) t);
  }

  pub start_new-begun :
      (t : SystemTime) (s : Buffer U)
      → s.outcomes ≡ []
      → unix_epoch ≤ s.clock s.readings
      → start_new t s
        ≡ (ok tt, begun (file_name s.stream_name (as_millis (s.clock s.readings - unix_epoch))) t s)
  unfolding start_new create_file
  start_new-begun t s h e = ground arith

  cleanup_files-kept :
      (t : SystemTime) (fs : List MegaClusterFile) (s : Buffer U)
      → All (λ m. m.uploaded ≡ false) fs
      → cleanup_files t fs s ≡ (ok tt, record s { mega_cluster_files = fs })
  unfolding cleanup_files
  cleanup_files-kept t [] s h = refl
  cleanup_files-kept t (m ∷ fs) s (h, hs) = ground arith

  pub cleanup-kept :
      (s : Buffer U)
      → All (λ m. m.uploaded ≡ false) s.mega_cluster_files
      → cleanup s ≡ (ok tt, record s { readings = suc s.readings })
  unfolding cleanup
  cleanup-kept s h =
      cleanup_files-kept (s.clock s.readings) s.mega_cluster_files
        (record s { readings = suc s.readings }) h

module _ {U : Type 0} (clock : ClockApi) (f : Fragment) (s : Buffer U) where
  pub append_current_went :
      {c : CurrentMegaClusterFile} {s' : Buffer U}
      → s.current_mega_cluster ≡ some c
      → write_each c.file_path (record_writes clock f) s ≡ (ok tt, s')
      → s'.outcomes ≡ []
      → append_current clock f s ≡ (
        ok tt,
        record s' {
          outcomes = [];
          current_mega_cluster = some (counted f c);
          last_fragment_time = some f.timestamp;
        },
      )
  unfolding append_current
  append_current_went h w o = ground arith

  pub append_fragment_stays :
      {s₁ : Buffer U}
      → should_rotate s ≡ (ok false, s₁)
      → append_fragment clock f s ≡ append_current clock f s₁
  unfolding append_fragment rotate
  append_fragment_stays h = ground arith

  pub append_fragment_rotates :
      {s₁ s₂ s₃ : Buffer U}
      → should_rotate s ≡ (ok true, s₁)
      → close_current s₁ ≡ (ok tt, s₂)
      → start_new f.timestamp s₂ ≡ (ok tt, s₃)
      → append_fragment clock f s ≡ append_current clock f s₃
  unfolding append_fragment rotate
  append_fragment_rotates h c n = ground arith

  pub push_fragment_counts :
      {s' : Buffer U}
      → append_fragment clock f s ≡ (ok tt, s')
      → push_fragment clock f s
        ≡ (if (s'.call_counter + 1) % 100 == 0 then cleanup else pure tt)
            (record s' { call_counter = s'.call_counter + 1 })
  unfolding push_fragment
  push_fragment_counts h = ground arith
