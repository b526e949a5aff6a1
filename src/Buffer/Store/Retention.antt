-- ===== src/Buffer/Store/Retention.antt =====
-- The periodic cleanup.
use mathlib.Core.Path.{subst}
use gst_kvs_sink.Common.{
  ℕ, suc, ◌<◌, ◌≡◌, refl, ap, true, Bool-cases, ◌&&◌, List, [], ◌∷◌, ◌++◌, All, arith, ltb,
  unwrap_or, inl, inr, ok,
}
use gst_kvs_sink.Common.Time.{SystemTime, Duration, duration_since}
use gst_kvs_sink.Buffer.World.{MegaClusterFile, Buffer, remove_file}
use gst_kvs_sink.Buffer.Store.{cleanup, cleanup_files}

-- The file is uploaded, and older than this.
pub record IsOutdated (t : SystemTime) (limit : Duration) (f : MegaClusterFile) : Type 0 where
  pub uploaded : f.uploaded ≡ true
  pub old : limit < unwrap_or (duration_since t f.start_time) 0

-- The queue lost files at its front only, and each of them was outdated.
abbrev pub Trimmed : SystemTime → Duration → List MegaClusterFile → List MegaClusterFile → Type 0
Trimmed t limit before after =
    (gone : List MegaClusterFile) × (before ≡ gone ++ after) × All (IsOutdated t limit) gone

module _ {U : Type 0} where
  remove_file_limit :
      (p : List ℕ) (s : Buffer U) → (remove_file p s).1.max_buffer_duration ≡ s.max_buffer_duration
  unfolding remove_file
  remove_file_limit p s = ground arith

  cleanup_files-Trimmed :
      (t : SystemTime) (fs : List MegaClusterFile) (s : Buffer U)
      → ((cleanup_files t fs s).0 ≡ ok tt)
        × Trimmed t s.max_buffer_duration fs (cleanup_files t fs s).1.mega_cluster_files
  unfolding cleanup_files
  cleanup_files-Trimmed t [] s = (refl, ([], refl, tt))
  cleanup_files-Trimmed t (f ∷ fs) s =
      elim (Bool-cases
        (ltb s.max_buffer_duration (unwrap_or (duration_since t f.start_time) 0) && f.uploaded)) [
          | inl due ↦
              let s' = (remove_file f.file_path s).1 in
              let (came, trimmed) = cleanup_files-Trimmed t fs s' in
              let (gone, split, all) = trimmed in
              rw due (
                came,
                (
                  f ∷ gone,
                  ap (λ l. f ∷ l) split,
                  (
                    record { uploaded = ground arith; old = ground arith },
                    subst (λ d. All (IsOutdated t d) gone) (remove_file_limit f.file_path s) all,
                  ),
                ),
              )
          | inr kept ↦ rw kept (refl, ([], refl, tt))
        ]

  -- The cleanup never fails. It takes files off the front of the queue only, and each of them is
  -- uploaded and older than the retention time: a file that is not uploaded is never dropped,
  -- however old it is, nor is any file behind it.
  pub cleanup-Trimmed :
      (s : Buffer U)
      → ((cleanup s).0 ≡ ok tt)
        × Trimmed
            (s.clock s.readings)
            s.max_buffer_duration
            s.mega_cluster_files
            (cleanup s).1.mega_cluster_files
  unfolding cleanup
  cleanup-Trimmed s =
      cleanup_files-Trimmed (s.clock s.readings) s.mega_cluster_files
        (record s { readings = suc s.readings })
