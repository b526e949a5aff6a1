-- ===== src/Buffer/Upload/Delivered.antt =====
-- What an upload of the buffer sends.
use mathlib.Core.Path.{subst}
use gst_kvs_sink.Common.{
  ℕ, ◌^◌, ◌<◌, ◌≡◌, ◌≢◌, refl, sym, ap, ◌∙◌, some, List, [], ◌∷◌, ◌++◌, map, arith, length, All,
  Result, ok, err, panic,
}
use gst_kvs_sink.Common.Words.{IsU64}
use gst_kvs_sink.Common.Time.{SystemTime, ClockApi}
use gst_kvs_sink.Fragment.{Fragment}
use gst_kvs_sink.MediaUploader.{MediaUploader}
use gst_kvs_sink.ClusterFile.{Ending, finished, read_file, file_bytes, stored}
use gst_kvs_sink.ClusterFile.RoundTrip.{read-file_bytes}
use gst_kvs_sink.Buffer.World.{FileName, MegaClusterFile, Buffer, lookup, read_bytes, remove_file}
use gst_kvs_sink.Buffer.Disk.{lookup-erase_ne}
use gst_kvs_sink.Buffer.Upload.Quiet.{after_read}
use gst_kvs_sink.Buffer.Upload.{
  mark_uploaded, put_fragment, put_each, upload_file, settle, upload_one, upload_each,
}

-- A file of the queue, and the fragments whose records it holds.
abbrev pub Stock : Type 0
Stock = MegaClusterFile × List Fragment

abbrev pub files_of : List Stock → List MegaClusterFile
files_of stock = map (λ x. x.0) stock

-- What reading the files yields.
abbrev pub stored_in : ClockApi → List Stock → List Fragment
stored_in clock [] = []
stored_in clock ((file, gs) ∷ stock) = map (stored clock) gs ++ stored_in clock stock

-- These files of the directory hold the records of these fragments, and have different names.
abbrev pub AreStored : ClockApi → List (FileName × List ℕ) → List Stock → Type 0
AreStored clock d [] = Unit
AreStored clock d ((file, gs) ∷ stock) =
    ((lookup file.file_path d ≡ some (file_bytes clock gs))
      × All (λ g. IsU64 g.duration) gs
      × (length (file_bytes clock gs) < 2 ^ 63))
    × (All (λ x. x.0.file_path ≢ file.file_path) stock × AreStored clock d stock)

pub AreStored-after :
    (clock : ClockApi) (d d' : List (FileName × List ℕ)) (p : FileName) (stock : List Stock)
    → ((q : FileName) → q ≢ p → lookup q d' ≡ lookup q d)
    → All (λ x. x.0.file_path ≢ p) stock
    → AreStored clock d stock
    → AreStored clock d' stock
AreStored-after clock d d' p [] same ne h = tt
AreStored-after clock d d' p ((file, gs) ∷ stock) same (n, ne) ((there, fits, small), (other, h)) =
    (
      (same file.file_path n ∙ there, fits, small),
      (other, AreStored-after clock d d' p stock same ne h),
    )

-- A step that changes no file but this one, and leaves the uploader and the open file alone.
pub record Spares {U : Type 0} (p : FileName) (s s' : Buffer U) : Type 0 where
  pub healthy : s.outcomes ≡ [] → s'.outcomes ≡ []
  pub uploader : s'.uploader ≡ s.uploader
  pub others : (q : FileName) → q ≢ p → lookup q s'.disk ≡ lookup q s.disk

-- The uploader's state after it was sent these fragments.
module _ {U : Type 0} (uploader : MediaUploader U) where
  abbrev pub sent_all : List Fragment → U → U
  sent_all [] u = u
  sent_all (f ∷ fs) u = sent_all fs (uploader.put_fragment f u).1

  sent_all-append :
      (fs gs : List Fragment) (u : U) → sent_all (fs ++ gs) u ≡ sent_all gs (sent_all fs u)
  sent_all-append [] gs u = refl
  sent_all-append (f ∷ fs) gs u = sent_all-append fs gs (uploader.put_fragment f u).1

module _ {U : Type 0} where
  remove_file-Spares :
      (p : FileName) (s : Buffer U) → s.outcomes ≡ [] → Spares p s (remove_file p s).1
  unfolding remove_file
  remove_file-Spares p s h = record {
    healthy = λ e. ground arith;
    uploader = ground arith;
    others = λ q ne. ground (arith, lookup-erase_ne p q s.disk ne);
  }

  mark_uploaded-Spares :
      (p : FileName) (s : Buffer U)
      → s.outcomes ≡ []
      → ((mark_uploaded p s).0 ≡ ok tt) × Spares p s (mark_uploaded p s).1
  unfolding mark_uploaded remove_file
  mark_uploaded-Spares p s h = (
    ground arith,
    record {
      healthy = λ e. ground arith;
      uploader = ground arith;
      others = λ q ne. ground (arith, lookup-erase_ne p q s.disk ne);
    },
  )

module _ {U : Type 0} (clock : ClockApi) (uploader : MediaUploader U)
    (accepts : (f : Fragment) (u : U) → (uploader.put_fragment f u).0 ≡ ok tt) where
  put_each-accepted :
      (fs : List Fragment) (s : Buffer U)
      → put_each clock uploader fs finished s
        ≡ (ok tt, record s { uploader = sent_all uploader fs s.uploader })
  unfolding put_each put_fragment
  put_each-accepted [] s = refl
  put_each-accepted (f ∷ fs) s = ground (
    arith,
    accepts f s.uploader,
    put_each-accepted fs (record s { uploader = (uploader.put_fragment f s.uploader).1 }),
  )

  read_bytes-there :
      (p : FileName) (s : Buffer U) {bytes : List ℕ}
      → s.outcomes ≡ []
      → lookup p s.disk ≡ some bytes
      → read_bytes p s ≡ (ok bytes, record s { outcomes = [] })
  unfolding read_bytes
  read_bytes-there p s h e = ground arith

  after_read-accepted :
      (t : SystemTime) (s : Buffer U) (bytes : List ℕ) {fs : List Fragment}
      → read_file clock t bytes ≡ (fs, finished)
      → after_read clock uploader t (ok bytes) s
        ≡ (ok tt, record s { uploader = sent_all uploader fs s.uploader })
  after_read-accepted t s bytes {fs} e =
      ap (λ (r : List Fragment × Ending). put_each clock uploader r.0 r.1 s) e
      ∙ put_each-accepted fs s

  upload_file-accepted :
      (file : MegaClusterFile) (gs : List Fragment) (s : Buffer U)
      → s.outcomes ≡ []
      → lookup file.file_path s.disk ≡ some (file_bytes clock gs)
      → All (λ g. IsU64 g.duration) gs
      → length (file_bytes clock gs) < 2 ^ 63
      → upload_file clock uploader file s ≡ (
        ok tt,
        record s { outcomes = []; uploader = sent_all uploader (map (stored clock) gs) s.uploader },
      )
  unfolding upload_file
  upload_file-accepted file gs s h there fits small =
      let t = s.clock s.readings in
      ap (λ (r : Result (List ℕ) × Buffer U). after_read clock uploader t r.0 r.1)
        (read_bytes-there file.file_path s h there)
      ∙ after_read-accepted t (record s { outcomes = [] }) (file_bytes clock gs)
          (read-file_bytes clock t gs fits small)

  -- One file is sent, and no other is touched.
  record Sent (file : MegaClusterFile) (gs : List Fragment) (s : Buffer U)
      (r : Result (Unit {0}) × Buffer U) : Type 0 where
    came : r.0 ≡ ok tt
    healthy : r.1.outcomes ≡ []
    sent : r.1.uploader ≡ sent_all uploader (map (stored clock) gs) s.uploader
    others : (q : FileName) → q ≢ file.file_path → lookup q r.1.disk ≡ lookup q s.disk

  upload_one-Sent :
      (file : MegaClusterFile) (gs : List Fragment) (s : Buffer U)
      → s.outcomes ≡ []
      → lookup file.file_path s.disk ≡ some (file_bytes clock gs)
      → All (λ g. IsU64 g.duration) gs
      → length (file_bytes clock gs) < 2 ^ 63
      → Sent file gs s (upload_one clock uploader file s)
  unfolding upload_one settle
  upload_one-Sent file gs s h there fits small =
      let s' : Buffer U = record s {
        outcomes = [];
        uploader = sent_all uploader (map (stored clock) gs) s.uploader;
      } in
      let (came, spares) = mark_uploaded-Spares file.file_path s' refl in
      subst
        (λ (r : Result (Unit {0}) × Buffer U).
          Sent file gs s (settle clock uploader file.file_path r.0 r.1))
        (sym (upload_file-accepted file gs s h there fits small))
        (record {
          came = came;
          healthy = spares.healthy refl;
          sent = spares.uploader;
          others = spares.others;
        })

  abbrev then_each :
      List MegaClusterFile → Result (Unit {0}) → Buffer U → Result (Unit {0}) × Buffer U
  then_each fs r s = elim r [
    | ok _ ↦ upload_each clock uploader fs s
    | err x ↦ (err x, s)
    | panic ↦ (panic, s)
  ]

  -- Where no file operation fails and the uploader accepts every fragment: the upload of files
  -- with different names, each of which holds whole records, sends all their fragments, file after
  -- file and in each file in the order of the pushes, and nothing else, and returns `Ok`.
  -- A fragment's duration is a 64-bit number, and each file is smaller than 2^63 bytes.
  pub upload_each-sent_all :
      (stock : List Stock) (s : Buffer U)
      → s.outcomes ≡ []
      → AreStored clock s.disk stock
      → ((upload_each clock uploader (files_of stock) s).0 ≡ ok tt)
        × ((upload_each clock uploader (files_of stock) s).1.uploader
            ≡ sent_all uploader (stored_in clock stock) s.uploader)
  unfolding upload_each
  upload_each-sent_all [] s h stored_ = (refl, refl)
  upload_each-sent_all ((file, gs) ∷ stock) s h ((there, fits, small), (other, rest)) =
      let one = upload_one-Sent file gs s h there fits small in
      let (r, s') = upload_one clock uploader file s in
      let (came, later) =
        upload_each-sent_all stock s' one.healthy
          (AreStored-after clock s.disk s'.disk file.file_path stock one.others other rest) in
      subst
        (λ q.
          ((then_each (files_of stock) q s').0 ≡ ok tt)
          × ((then_each (files_of stock) q s').1.uploader
              ≡ sent_all uploader (map (stored clock) gs ++ stored_in clock stock) s.uploader))
        (sym one.came)
        (
          came,
          later
              ∙ ap (sent_all uploader (stored_in clock stock)) one.sent
              ∙ sym (
                  sent_all-append uploader (map (stored clock) gs) (stored_in clock stock)
                    s.uploader),
        )
