-- ===== src/Buffer/Upload.antt =====
-- The uploading side of `BufferedUploadManager`: `trigger_upload_all` and what it calls, and
-- `stats`. The manager's lock is held from the call to its return, so that no other operation
-- of the manager runs in between.
pub mod Quiet
pub mod Outcome
pub mod Delivered
pub mod Whole
pub mod Backlog
pub mod Log
pub mod Pushes
pub mod Buffered
use gst_kvs_sink.Common.{
  ℕ, ◌+◌, Bool, true, false, not, ◌&&◌, Option, none, some, List, [], ◌∷◌, ◌++◌, ltb, is_some,
  is_none, is_empty, if◌then◌else◌, length, Text, codes, Result, ok, err, panic,
}
use gst_kvs_sink.Common.Time.{SystemTime, ClockApi}
use gst_kvs_sink.Fragment.{Fragment}
use gst_kvs_sink.MediaUploader.{MediaUploader}
use gst_kvs_sink.ClusterFile.{Ending, finished, crashed, exhausted, read_file}
use gst_kvs_sink.Buffer.World.{
  FileName, text_eq, MegaClusterFile, BufferManagerEvent, historical_upload_complete, upload_error,
  Buffer, Action, pure, ◌>>=◌, ◌>>◌, context, now, read_bytes, remove_file,
}
use gst_kvs_sink.Buffer.Store.{finalize, close_current, start_new}

abbrev pub max_upload_retries : ℕ
max_upload_retries = 5

-- `overlaps_time_range`
unfoldable pub overlaps_time_range : MegaClusterFile → Option SystemTime → Option SystemTime → Bool
overlaps_time_range file start end =
    let before : Bool = elim start [ none ↦ false | some t ↦ ltb file.end_time t ] in
    let after : Bool = elim end [ none ↦ false | some t ↦ ltb t file.start_time ] in
    if before then false else if after then false else true

-- The filter of `trigger_upload_all`.
unfoldable pub eligible : Option SystemTime → Option SystemTime → MegaClusterFile → Bool
unfolding overlaps_time_range
eligible start end file =
    not file.uploaded
    && (ltb file.upload_attempts max_upload_retries && overlaps_time_range file start end)

unfoldable pub select : (MegaClusterFile → Bool) → List MegaClusterFile → List MegaClusterFile
select p [] = []
select p (f ∷ fs) = let rest = select p fs in if p f then f ∷ rest else rest

-- `iter_mut().find(|f| &f.file_path == path)`, and a change of what was found.
unfoldable pub has_path : FileName → List MegaClusterFile → Bool
has_path p [] = false
has_path p (f ∷ fs) = if text_eq f.file_path p then true else has_path p fs

unfoldable pub change_first :
    (MegaClusterFile → MegaClusterFile) → FileName → List MegaClusterFile → List MegaClusterFile
change_first g p [] = []
change_first g p (f ∷ fs) = if text_eq f.file_path p then g f ∷ fs else f ∷ change_first g p fs

-- `VecDeque::back`
unfoldable pub back : List MegaClusterFile → Option MegaClusterFile
back [] = none
back (f ∷ []) = some f
back (f ∷ g ∷ fs) = back (g ∷ fs)

unfoldable pub set_uploaded : SystemTime → MegaClusterFile → MegaClusterFile
set_uploaded t f = record f {
  uploaded = true;
  last_upload_attempt = some t;
  last_upload_error = none;
}

unfoldable pub set_failed : SystemTime → Text → MegaClusterFile → MegaClusterFile
set_failed t e f = record f {
  upload_attempts = f.upload_attempts + 1;
  last_upload_attempt = some t;
  last_upload_error = some e;
}

module _ {U : Type 0} where
  unfoldable pub change_files : (List MegaClusterFile → List MegaClusterFile) → Action U Unit
  change_files g s = (ok tt, record s { mega_cluster_files = g s.mega_cluster_files })

  -- A failure to delete is logged only.
  unfoldable pub try_remove : FileName → Action U Unit
  try_remove p s = (ok tt, (remove_file p s).1)

  -- `mark_mega_cluster_uploaded`
  unfoldable pub mark_uploaded : FileName → Action U Unit
  unfolding change_files try_remove
  mark_uploaded p s =
      if has_path p s.mega_cluster_files
      then (do t ← now; change_files (change_first (set_uploaded t) p); try_remove p) s
      else (ok tt, s)

  -- `mark_mega_cluster_failed`
  unfoldable pub mark_failed : FileName → Text → Action U Unit
  unfolding change_files
  mark_failed p e s =
      if has_path p s.mega_cluster_files
      then (do t ← now; change_files (change_first (set_failed t e) p)) s
      else (ok tt, s)

  -- `if let Some(tx) = &self.event_tx { let _ = tx.send(event); }`
  unfoldable pub send : BufferManagerEvent → Action U Unit
  send event s = elim s.events [
    | none ↦ (ok tt, s)
    | some sent ↦ (ok tt, record s { events = some (sent ++ (event ∷ [])) })
  ]

module _ {U : Type 0} (clock : ClockApi) (uploader : MediaUploader U) where
  unfoldable pub put_fragment : Fragment → Action U Unit
  put_fragment f s =
      let (r, u) = uploader.put_fragment f s.uploader in (r, record s { uploader = u })

  -- The fragments of a file, sent in order up to the first error; then the reader ends.
  unfoldable pub put_each : List Fragment → Ending → Action U Unit
  put_each [] finished s = (ok tt, s)
  put_each [] crashed s = (panic, s)
  put_each [] exhausted s = (panic, s)
  put_each (f ∷ fs) e s =
      let (r, s') = put_fragment f s in
      elim r [ ok _ ↦ put_each fs e s' | err x ↦ (err x, s') | panic ↦ (panic, s') ]

  -- `upload_mega_cluster_file`. The reader holds the whole file in memory, so that what it yields
  -- does not depend on the uploads in between.
  unfoldable pub upload_file : MegaClusterFile → Action U Unit
  upload_file file s =
      (do
        bytes ← context (some (codes "Failed to read cluster file")) (read_bytes file.file_path)
        let (fs, e) = read_file clock (s.clock s.readings) bytes
        put_each fs e)
        s

  -- What is done with the result of one upload.
  unfoldable pub settle : FileName → Result (Unit {0}) → Action U Unit
  settle p (ok _) s = mark_uploaded p s
  settle p (err e) s = (do mark_failed p e; send (upload_error e)) s
  settle p panic s = (panic, s)

  unfoldable pub upload_one : MegaClusterFile → Action U Unit
  upload_one file s = let (r, s') = upload_file file s in settle file.file_path r s'

  -- Step 4: `for file in &files_to_upload`.
  unfoldable pub upload_each : List MegaClusterFile → Action U Unit
  upload_each [] s = (ok tt, s)
  upload_each (f ∷ fs) s =
      let (r, s') = upload_one f s in
      elim r [ ok _ ↦ upload_each fs s' | err x ↦ (err x, s') | panic ↦ (panic, s') ]

  -- Step 6: upload the file at the back of the queue, if it is not uploaded.
  unfoldable pub upload_back : Action U Unit
  upload_back s = elim (back s.mega_cluster_files) [
    | none ↦ (ok tt, s)
    | some file ↦ if file.uploaded then (ok tt, s) else upload_one file s
  ]

  -- Steps 5 and 6: the file that was begun in step 3.
  unfoldable pub finish_new : Action U Unit
  finish_new s = elim s.current_mega_cluster [
    | none ↦ (ok tt, s)
    | some c ↦
        let s' : Buffer U = record s { current_mega_cluster = none } in
        if ltb 0 c.cluster_count then (do finalize c; upload_back) s' else (ok tt, s')
  ]

  -- Steps 3 to 6, for the files that step 2 selected.
  unfoldable pub upload_selected : List MegaClusterFile → Action U Unit
  upload_selected files = do t ← now; start_new t; upload_each files; finish_new

  unfoldable pub selected : Option SystemTime → Option SystemTime → Action U (List MegaClusterFile)
  selected start end s = (ok (select (eligible start end) s.mega_cluster_files), s)

  unfoldable pub trigger_upload_all : Option SystemTime → Option SystemTime → Action U Unit
  unfolding selected
  trigger_upload_all start end = do
    close_current
    files ← selected start end
    if is_empty files then pure tt else upload_selected files
    send (historical_upload_complete (is_none end))

-- `BufferStats`, and `stats`.
pub record BufferStats : Type 0 where
  pub total_clusters : ℕ
  pub total_bytes : ℕ
  pub mega_cluster_files : ℕ

unfoldable pub sum_of : (MegaClusterFile → ℕ) → List MegaClusterFile → ℕ
sum_of g [] = 0
sum_of g (f ∷ fs) = g f + sum_of g fs

unfoldable pub stats : {U : Type 0} → Buffer U → BufferStats
stats s = record {
  total_clusters = sum_of (λ f. f.cluster_count) s.mega_cluster_files;
  total_bytes =
      sum_of (λ f. f.file_size) s.mega_cluster_files
      + elim s.current_mega_cluster [ none ↦ 0 | some c ↦ c.current_size ];
  mega_cluster_files = length s.mega_cluster_files;
}
