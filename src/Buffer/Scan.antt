-- ===== src/Buffer/Scan.antt =====
-- `BufferedUploadManager::new`: the directory is made, and files of earlier runs are queued.
pub mod Found
use gst_kvs_sink.Common.{
  ℕ, Bool, true, false, ◌||◌, ◌&&◌, none, some, List, [], ◌∷◌, ◌++◌, map, ltb, ◌==◌, if◌then◌else◌,
  length, Text, codes, ok,
}
use gst_kvs_sink.Common.Time.{SystemTime, Duration}
use gst_kvs_sink.Buffer.Names.{is_cluster_file}
use gst_kvs_sink.Buffer.World.{
  FileName, MegaClusterFile, Buffer, Action, ◌>>◌, context, touch, attempt, fine, fails,
}

-- A directory entry: its name, its time of modification where that can be read, and its size.
pub record Entry : Type 0 where
  pub name : FileName
  pub modified : SystemTime
  pub size : ℕ

-- Names in the order of their bytes.
unfoldable pub text_le : Text → Text → Bool
text_le [] b = true
text_le (x ∷ a) [] = false
text_le (x ∷ a) (y ∷ b) = ltb x y || (x == y && text_le a b)

-- `sort_by_key` on the path, a stable sort.
unfoldable pub insert_sorted : Entry → List Entry → List Entry
insert_sorted e [] = e ∷ []
insert_sorted e (x ∷ xs) = if text_le e.name x.name then e ∷ x ∷ xs else x ∷ insert_sorted e xs

unfoldable pub sort_by_name : List Entry → List Entry
unfolding text_le insert_sorted
sort_by_name [] = []
sort_by_name (e ∷ es) = insert_sorted e (sort_by_name es)

-- The queue's entry for a file of an earlier run.
unfoldable pub recovered : Entry → MegaClusterFile
recovered e = record {
  file_path = e.name;
  start_time = e.modified;
  end_time = e.modified;
  file_size = e.size;
  cluster_count = 0;
  uploaded = false;
  upload_attempts = 0;
  last_upload_attempt = none;
  last_upload_error = none;
}

unfoldable pub matching : Text → List Entry → List Entry
matching stream [] = []
matching stream (e ∷ es) =
    let rest = matching stream es in if is_cluster_file stream e.name then e ∷ rest else rest

-- The entries of the directory. The file system's own times are a parameter.
unfoldable pub entries : (FileName → SystemTime) → List (FileName × List ℕ) → List Entry
entries modified [] = []
entries modified ((p, bytes) ∷ d) =
    record { name = p; modified = modified p; size = length bytes } ∷ entries modified d

module _ {U : Type 0} (modified : FileName → SystemTime) where
  -- `scan_existing_mega_cluster_files`: an unreadable directory is no error.
  unfoldable pub scan_existing : Action U Unit
  scan_existing s =
      let (o, s') = attempt s in
      elim o [
        | fails n e ↦ (ok tt, s')
        | fine ↦ (
          ok tt,
          record s' {
            mega_cluster_files =
                s'.mega_cluster_files
                ++ map recovered
                    (sort_by_name (matching s'.stream_name (entries modified s'.disk)));
          },
        )
      ]

  abbrev fresh : Text → Duration → Action U Unit
  fresh stream max_age s = (
    ok tt,
    record s {
      stream_name = stream;
      max_buffer_duration = max_age;
      last_fragment_time = none;
      current_mega_cluster = none;
      mega_cluster_files = [];
      events = none;
    },
  )

  -- `BufferedUploadManager::new`, on the directory, the clock and the uploader of this state.
  unfoldable pub new_manager : Text → Duration → Action U Unit
  new_manager stream max_age = do
    context (some (codes "Failed to create buffer directory")) touch
    fresh stream max_age
    scan_existing

-- `set_event_channel`, with a channel that is empty.
abbrev pub set_event_channel : {U : Type 0} → Buffer U → Buffer U
set_event_channel s = record s { events = some [] }
