-- ===== src/Buffer/Upload/Backlog.antt =====
-- That all that is buffered is sent: the files of the queue, and the current file.
use mathlib.Core.Path.{subst}
use mathlib.Core.List.{map-append}
use gst_kvs_sink.Common.{
  ℕ, ◌^◌, ◌≤◌, ◌<◌, ◌≡◌, ◌≢◌, refl, sym, ap, ◌∙◌, Bool, true, none, some, List, [], ◌∷◌, ◌++◌, map,
  append_assoc, append-nil, arith, length, All, ok,
}
use gst_kvs_sink.Common.Words.{IsU64}
use gst_kvs_sink.Common.Time.{ClockApi, unix_epoch}
use gst_kvs_sink.Fragment.{Fragment}
use gst_kvs_sink.MediaUploader.{MediaUploader}
use gst_kvs_sink.ClusterFile.{file_bytes, stored}
use gst_kvs_sink.Buffer.World.{FileName, MegaClusterFile, CurrentMegaClusterFile, Buffer, lookup}
use gst_kvs_sink.Buffer.Store.{close_current, finalize, queued}
use gst_kvs_sink.Buffer.Store.Healthy.{Holds}
use gst_kvs_sink.Buffer.Upload.{select, eligible, overlaps_time_range, trigger_upload_all}
use gst_kvs_sink.Buffer.Upload.Delivered.{Stock, files_of, stored_in, AreStored, sent_all}
use gst_kvs_sink.Buffer.Store.Went.{new_name}
use gst_kvs_sink.Buffer.Upload.Whole.{trigger_upload_all-sent_all}

-- The current file, behind the others.
abbrev pub with_current : CurrentMegaClusterFile → List Fragment → List Stock → List Stock
with_current c gs stock = stock ++ ((queued c, gs) ∷ [])

pub select-append :
    (p : MegaClusterFile → Bool) (xs : List MegaClusterFile) (y : MegaClusterFile)
    → p y ≡ true
    → select p (xs ++ (y ∷ [])) ≡ select p xs ++ (y ∷ [])
unfolding select
select-append p [] y e = ground arith
select-append p (x ∷ xs) y e = ground (arith, select-append p xs y e)

pub stored_in-append :
    (clock : ClockApi) (xs ys : List Stock)
    → stored_in clock (xs ++ ys) ≡ stored_in clock xs ++ stored_in clock ys
stored_in-append clock [] ys = refl
stored_in-append clock ((file, gs) ∷ xs) ys =
    ap (λ l. map (stored clock) gs ++ l) (stored_in-append clock xs ys)
    ∙ sym (append_assoc (map (stored clock) gs) (stored_in clock xs) (stored_in clock ys))

pub All-append :
    {A : Type 0} (P : A → Type 0) (xs : List A) (y : A) → All P xs → P y → All P (xs ++ (y ∷ []))
All-append P [] y h e = (e, tt)
All-append P (x ∷ xs) y (p, h) e = (p, All-append P xs y h e)

pub AreStored-append :
    (clock : ClockApi) (d : List (FileName × List ℕ)) (stock : List Stock) (file : MegaClusterFile)
    (gs : List Fragment)
    → AreStored clock d stock
    → All (λ x. x.0.file_path ≢ file.file_path) stock
    → lookup file.file_path d ≡ some (file_bytes clock gs)
    → All (λ g. IsU64 g.duration) gs
    → length (file_bytes clock gs) < 2 ^ 63
    → AreStored clock d (stock ++ ((file, gs) ∷ []))
AreStored-append clock d [] file gs h ne there fits small = ((there, fits, small), (tt, tt))
AreStored-append clock d ((x, xs) ∷ stock) file gs (here, (other, h)) (n, ne) there fits small = (
  here,
  (
    All-append (λ y. y.0.file_path ≢ x.file_path) stock (file, gs) other (λ e. n (sym e)),
    AreStored-append clock d stock file gs h ne there fits small,
  ),
)

pub queued-eligible : (c : CurrentMegaClusterFile) → eligible none none (queued c) ≡ true
unfolding eligible overlaps_time_range queued
queued-eligible c = refl

module _ {U : Type 0} where
  pub close_current-queued :
      (s : Buffer U) {c : CurrentMegaClusterFile}
      → s.outcomes ≡ []
      → s.current_mega_cluster ≡ some c
      → ((close_current s).1.mega_cluster_files ≡ s.mega_cluster_files ++ (queued c ∷ []))
        × ((close_current s).1.disk ≡ s.disk)
        × (new_name (close_current s).1 ≡ new_name s)
  unfolding close_current finalize
  close_current-queued s h e = (ground arith, ground arith, ground arith)

module _ {U : Type 0} (clock : ClockApi) (uploader : MediaUploader U) where
  -- Where the directory's operations go well, the clock stands behind the epoch, and the uploader
  -- accepts every fragment: if the current file holds the fragments `gs`, and the files of the queue
  -- that are not uploaded and were tried less than five times hold whole records, all under
  -- different names, none of them the name of the file that is begun for the time of the upload,
  -- then `trigger_upload_all` without a time range returns `Ok` and sends all fragments that are
  -- buffered, those of the queue first and then `gs`, in the order of their pushes, each as its
  -- record keeps it, and nothing else.
  pub trigger_upload_all-Holds :
      (stock : List Stock) (gs : List Fragment) (s : Buffer U) (h : Holds clock s gs)
      → ((f : Fragment) (u : U) → (uploader.put_fragment f u).0 ≡ ok tt)
      → ((n : ℕ) → unix_epoch ≤ s.clock n)
      → select (eligible none none) s.mega_cluster_files ≡ files_of stock
      → AreStored clock s.disk stock
      → All (λ x. x.0.file_path ≢ h.current.file_path) stock
      → All (λ x. x.0.file_path ≢ new_name s) stock
      → h.current.file_path ≢ new_name s
      → All (λ g. IsU64 g.duration) gs
      → length (file_bytes clock gs) < 2 ^ 63
      → ((trigger_upload_all clock uploader none none s).0 ≡ ok tt)
        × ((trigger_upload_all clock uploader none none s).1.uploader
            ≡ sent_all uploader (stored_in clock stock ++ map (stored clock) gs) s.uploader)
  trigger_upload_all-Holds stock gs s h accepts epoch e stored_ apart fresh new_ fits small =
      let c = h.current in
      let (files, disk, name) = close_current-queued s h.healthy h.there in
      let (came, sent) =
        trigger_upload_all-sent_all clock uploader accepts none none (with_current c gs stock) s
          (record { no_failures = h.healthy; after_epoch = epoch })
          (ap (select (eligible none none)) files
            ∙ select-append (eligible none none) s.mega_cluster_files (queued c) (queued-eligible c)
            ∙ ap (λ l. l ++ (queued c ∷ [])) e
            ∙ sym (map-append (λ (x : Stock). x.0) stock ((queued c, gs) ∷ [])))
          (subst (λ d. AreStored clock d (with_current c gs stock)) (sym disk)
            (AreStored-append clock s.disk stock (queued c) gs stored_ (unfold queued in apart)
              (unfold queued in h.content) fits small))
          (subst (λ p. All (λ x. x.0.file_path ≢ p) (with_current c gs stock)) (sym name)
            (All-append (λ (x : Stock). x.0.file_path ≢ new_name s) stock (queued c, gs) fresh
              (unfold queued in new_))) in
      (
        came,
        sent
            ∙ ap (λ l. sent_all uploader l s.uploader)
                (stored_in-append clock stock ((queued c, gs) ∷ [])
                  ∙ ap (λ l. stored_in clock stock ++ l) (append-nil (map (stored clock) gs))),
      )
