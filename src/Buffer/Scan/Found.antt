-- ===== src/Buffer/Scan/Found.antt =====
-- What the scan of the directory finds.
use gst_kvs_sink.Common.{
  ℕ, ◌≡◌, refl, ap, ◌∙◌, Bool, true, false, Bool-cases, ◌||◌, some, List, [], ◌∷◌, ◌++◌, map, arith,
  inl, inr, Text, ok,
}
use gst_kvs_sink.Common.Time.{SystemTime}
use gst_kvs_sink.Buffer.Names.{is_cluster_file}
use gst_kvs_sink.Buffer.World.{FileName, MegaClusterFile, Buffer, lookup, text_eq}
use gst_kvs_sink.Buffer.Disk.{text_eq→eq}
use gst_kvs_sink.Buffer.Scan.{
  Entry, insert_sorted, sort_by_name, recovered, matching, entries, scan_existing,
}

-- A file of this name is in the queue.
unfoldable pub is_queued : FileName → List MegaClusterFile → Bool
is_queued p [] = false
is_queued p (f ∷ fs) = text_eq f.file_path p || is_queued p fs

unfoldable has_entry : FileName → List Entry → Bool
has_entry p [] = false
has_entry p (e ∷ es) = text_eq e.name p || has_entry p es

module _ (p : FileName) where
  has_entry-insert_sorted :
      (e : Entry) (es : List Entry) → has_entry p (insert_sorted e es) ≡ has_entry p (e ∷ es)
  unfolding has_entry insert_sorted
  has_entry-insert_sorted e [] = refl
  has_entry-insert_sorted e (x ∷ xs) = ground (arith, has_entry-insert_sorted e xs)

  has_entry-sort_by_name : (es : List Entry) → has_entry p (sort_by_name es) ≡ has_entry p es
  unfolding has_entry sort_by_name
  has_entry-sort_by_name [] = refl
  has_entry-sort_by_name (e ∷ es) =
      has_entry-insert_sorted e (sort_by_name es)
      ∙ ap (λ b. text_eq e.name p || b) (has_entry-sort_by_name es)

  is_queued-recovered : (es : List Entry) → is_queued p (map recovered es) ≡ has_entry p es
  unfolding is_queued has_entry recovered
  is_queued-recovered [] = refl
  is_queued-recovered (e ∷ es) = ap (λ b. text_eq e.name p || b) (is_queued-recovered es)

  is_queued-append :
      (xs ys : List MegaClusterFile) → is_queued p (xs ++ ys) ≡ (is_queued p xs || is_queued p ys)
  unfolding is_queued
  is_queued-append [] ys = refl
  is_queued-append (x ∷ xs) ys = ground (arith, is_queued-append xs ys)

  has_entry-matching :
      (stream : Text) (modified : FileName → SystemTime) (d : List (FileName × List ℕ))
      {bytes : List ℕ}
      → is_cluster_file stream p ≡ true
      → lookup p d ≡ some bytes
      → has_entry p (matching stream (entries modified d)) ≡ true
  unfolding has_entry matching entries lookup
  has_entry-matching stream modified [] h e = cc
  has_entry-matching stream modified ((q, content) ∷ d) {bytes} h e =
      elim (Bool-cases (text_eq q p)) [
        | inl same ↦
            let matches : is_cluster_file stream q ≡ true =
              ap (is_cluster_file stream) (text_eq→eq q p same) ∙ h in
            ground arith
        | inr other ↦
            let behind : lookup p d ≡ some bytes = ground arith in
            let found = has_entry-matching stream modified d {bytes = bytes} h behind in
            ground arith
      ]

  after_true : (a b : Bool) → b ≡ true → (a || b) ≡ true
  after_true true b h = refl
  after_true false b h = h

  -- Where the directory can be read, and its entries' metadata with it: each file in it whose name
  -- is that of a mega-cluster file of this stream is in the upload queue behind the scan, whatever
  -- the directory's order, and the scan does not fail.
  pub scan_existing-is_queued :
      {U : Type 0} (modified : FileName → SystemTime) (s : Buffer U) {bytes : List ℕ}
      → s.outcomes ≡ []
      → is_cluster_file s.stream_name p ≡ true
      → lookup p s.disk ≡ some bytes
      → ((scan_existing modified s).0 ≡ ok tt)
        × (is_queued p (scan_existing modified s).1.mega_cluster_files ≡ true)
  unfolding scan_existing
  scan_existing-is_queued modified s healthy named there =
      let found = matching s.stream_name (entries modified s.disk) in
      (
        ground arith,
        rw healthy (
            is_queued-append s.mega_cluster_files (map recovered (sort_by_name found))
            ∙ after_true (is_queued p s.mega_cluster_files)
                (is_queued p (map recovered (sort_by_name found)))
                (is_queued-recovered (sort_by_name found)
                  ∙ (has_entry-sort_by_name found
                      ∙ has_entry-matching s.stream_name modified s.disk named there))),
      )
