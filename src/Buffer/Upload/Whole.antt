-- ===== src/Buffer/Upload/Whole.antt =====
-- What `trigger_upload_all` sends.
use mathlib.Core.Path.{subst}
use gst_kvs_sink.Common.{
  suc, ◌-◌, ◌≤◌, ◌≡◌, ◌≢◌, refl, sym, ap, ◌∙◌, Bool, Option, some, List, [], ◌∷◌, arith, is_none,
  is_empty, All, Result, ok, err, panic, if◌then◌else◌,
}
use gst_kvs_sink.Common.Time.{SystemTime, ClockApi, unix_epoch, as_millis}
use gst_kvs_sink.Fragment.{Fragment}
use gst_kvs_sink.MediaUploader.{MediaUploader}
use gst_kvs_sink.Buffer.Names.{file_name}
use gst_kvs_sink.Buffer.World.{
  MegaClusterFile, CurrentMegaClusterFile, historical_upload_complete, Buffer, create_file, pure,
}
use gst_kvs_sink.Buffer.Disk.{lookup-insert_ne}
use gst_kvs_sink.Buffer.Store.Went.{new_name}
use gst_kvs_sink.Buffer.Store.{close_current, start_new, new_file, finalize}
use gst_kvs_sink.Buffer.Upload.{
  select, selected, eligible, send, upload_each, upload_selected, trigger_upload_all,
}
use gst_kvs_sink.Buffer.Upload.Quiet.{upload_each-Quiet}
use gst_kvs_sink.Buffer.Upload.Outcome.{
  IsHealthy, close_current-healthy, finish_new-empty, then_finish, then_upload, then_select,
}
use gst_kvs_sink.Buffer.Upload.Delivered.{
  Stock, files_of, stored_in, AreStored, Spares, sent_all, AreStored-after, upload_each-sent_all,
}

module _ {U : Type 0} where
  start_new-Spares :
      (t : SystemTime) (s : Buffer U)
      → s.outcomes ≡ []
      → unix_epoch ≤ s.clock s.readings
      → ((start_new t s).0 ≡ ok tt)
        × Spares
            (file_name s.stream_name (as_millis (s.clock s.readings - unix_epoch)))
            s
            (start_new t s).1
        × ((start_new t s).1.current_mega_cluster
            ≡ some (
                new_file
                  (file_name s.stream_name (as_millis (s.clock s.readings - unix_epoch)))
                  (s.clock s.readings)
                  t))
  unfolding start_new create_file
  start_new-Spares t s h e =
      let p = file_name s.stream_name (as_millis (s.clock s.readings - unix_epoch)) in
      (
        ground arith,
        record {
          healthy = λ x. ground arith;
          uploader = ground arith;
          others = λ q ne. ground (arith, lookup-insert_ne p q [] s.disk ne);
        },
        ground arith,
      )

module _ {U : Type 0} (clock : ClockApi) (uploader : MediaUploader U)
    (accepts : (f : Fragment) (u : U) → (uploader.put_fragment f u).0 ≡ ok tt) where
  -- The call came well, and left the uploader in this state.
  abbrev pub Sends : U → Result (Unit {0}) × Buffer U → Type 0
  Sends u r = (r.0 ≡ ok tt) × (r.1.uploader ≡ u)

  then_finish-Sends :
      (r : Result (Unit {0})) (s : Buffer U) (u : U) {c : CurrentMegaClusterFile}
      → s.current_mega_cluster ≡ some c
      → c.cluster_count ≡ 0
      → Sends u (r, s)
      → Sends u (then_finish clock uploader r s)
  then_finish-Sends (ok x) s u open_ empty (came, sent) =
      rw (finish_new-empty clock uploader s open_ empty) (refl, sent)
  then_finish-Sends (err x) s u open_ empty (came, sent) = cc
  then_finish-Sends panic s u open_ empty (came, sent) = cc

  then_upload-Sends :
      (r : Result (Unit {0})) (s : Buffer U) (stock : List Stock) {c : CurrentMegaClusterFile}
      → r ≡ ok tt
      → s.current_mega_cluster ≡ some c
      → c.cluster_count ≡ 0
      → s.outcomes ≡ []
      → AreStored clock s.disk stock
      → Sends
          (sent_all uploader (stored_in clock stock) s.uploader)
          (then_upload clock uploader (files_of stock) r s)
  then_upload-Sends (ok x) s stock came open_ empty h stored_ =
      let (r', s') = upload_each clock uploader (files_of stock) s in
      let q = upload_each-Quiet clock uploader (files_of stock) s in
      then_finish-Sends r' s' (sent_all uploader (stored_in clock stock) s.uploader)
        (q.current ∙ open_) empty (upload_each-sent_all clock uploader accepts stock s h stored_)
  then_upload-Sends (err x) s stock came open_ empty h stored_ = cc
  then_upload-Sends panic s stock came open_ empty h stored_ = cc

  upload_selected-Sends :
      (stock : List Stock) (s : Buffer U)
      → IsHealthy s
      → AreStored clock s.disk stock
      → All (λ x. x.0.file_path ≢ new_name s) stock
      → Sends
          (sent_all uploader (stored_in clock stock) s.uploader)
          (upload_selected clock uploader (files_of stock) s)
  unfolding upload_selected
  upload_selected-Sends stock s h stored_ fresh =
      let s₁ : Buffer U = record s { readings = suc s.readings } in
      let (came, spares, open_) =
        start_new-Spares (s.clock s.readings) s₁ h.no_failures (h.after_epoch (suc s.readings)) in
      let (r, s') = start_new (s.clock s.readings) s₁ in
      subst
        (λ u.
          Sends (sent_all uploader (stored_in clock stock) u)
            (then_upload clock uploader (files_of stock) r s'))
        spares.uploader
        (then_upload-Sends r s' stock came open_ refl (spares.healthy h.no_failures)
          (AreStored-after clock s.disk s'.disk (new_name s) stock spares.others fresh stored_))

  abbrev chosen : List MegaClusterFile → Buffer U → Result (Unit {0}) × Buffer U
  chosen files s = (if is_empty files then pure tt else upload_selected clock uploader files) s

  chosen-Sends :
      (stock : List Stock) (files : List MegaClusterFile) (s : Buffer U)
      → files ≡ files_of stock
      → IsHealthy s
      → AreStored clock s.disk stock
      → All (λ x. x.0.file_path ≢ new_name s) stock
      → Sends (sent_all uploader (stored_in clock stock) s.uploader) (chosen files s)
  chosen-Sends [] files s e h stored_ fresh =
      subst (λ fs. Sends s.uploader (chosen fs s)) (sym e) (refl, refl)
  chosen-Sends ((file, gs) ∷ stock) files s e h stored_ fresh =
      subst
        (λ fs.
          Sends (sent_all uploader (stored_in clock ((file, gs) ∷ stock)) s.uploader) (chosen fs s))
        (sym e) (upload_selected-Sends ((file, gs) ∷ stock) s h stored_ fresh)

  then_send-Sends :
      (flag : Bool) (r : Result (Unit {0})) (s : Buffer U) (u : U)
      → Sends u (r, s)
      → Sends u (elim r [
        | ok _ ↦ send (historical_upload_complete flag) s
        | err x ↦ (err x, s)
        | panic ↦ (panic, s)
      ])
  unfolding send
  then_send-Sends flag (ok x) s u (came, sent) = (ground arith, ground arith)
  then_send-Sends flag (err x) s u (came, sent) = cc
  then_send-Sends flag panic s u (came, sent) = cc

  then_select-Sends :
      (start end : Option SystemTime) (stock : List Stock) (r : Result (Unit {0})) (s : Buffer U)
      → r ≡ ok tt
      → select (eligible start end) s.mega_cluster_files ≡ files_of stock
      → IsHealthy s
      → AreStored clock s.disk stock
      → All (λ x. x.0.file_path ≢ new_name s) stock
      → Sends
          (sent_all uploader (stored_in clock stock) s.uploader)
          (then_select clock uploader start end r s)
  then_select-Sends start end stock (ok x) s came e h stored_ fresh =
      let r = chosen (select (eligible start end) s.mega_cluster_files) s in
      then_send-Sends (is_none end) r.0 r.1 (sent_all uploader (stored_in clock stock) s.uploader)
        (chosen-Sends stock (select (eligible start end) s.mega_cluster_files) s e h stored_ fresh)
  then_select-Sends start end stock (err x) s came e h stored_ fresh = cc
  then_select-Sends start end stock panic s came e h stored_ fresh = cc

  close_current_uploader : (s : Buffer U) → (close_current s).1.uploader ≡ s.uploader
  unfolding close_current finalize
  close_current_uploader s = ground arith

  -- Where the directory's operations go well, the clock stands behind the epoch, and the uploader
  -- accepts every fragment: if, once the current file is closed, the files in the time range that
  -- are not uploaded and were tried less than five times hold whole records under different names,
  -- none of them the name of the file that is begun for the time of the upload, then
  -- `trigger_upload_all` returns `Ok` and sends the fragments of all these files, file after file
  -- in the order of the queue and in each file in the order of the pushes, and nothing else.
  pub trigger_upload_all-sent_all :
      (start end : Option SystemTime) (stock : List Stock) (s : Buffer U)
      → IsHealthy s
      → select (eligible start end) (close_current s).1.mega_cluster_files ≡ files_of stock
      → AreStored clock (close_current s).1.disk stock
      → All (λ x. x.0.file_path ≢ new_name (close_current s).1) stock
      → ((trigger_upload_all clock uploader start end s).0 ≡ ok tt)
        × ((trigger_upload_all clock uploader start end s).1.uploader
            ≡ sent_all uploader (stored_in clock stock) s.uploader)
  unfolding trigger_upload_all selected
  trigger_upload_all-sent_all start end stock s h e stored_ fresh =
      let (came, shut, fine_, clock_, events_) = close_current-healthy s h.no_failures in
      let (r, s') = close_current s in
      let healthy : IsHealthy s' = record {
        no_failures = fine_;
        after_epoch = λ n. subst (λ c. unix_epoch ≤ c n) (sym clock_) (h.after_epoch n);
      } in
      let (good, sent) = then_select-Sends start end stock r s' came e healthy stored_ fresh in
      (good, sent ∙ ap (sent_all uploader (stored_in clock stock)) (close_current_uploader s))
