-- ===== src/Buffer/Upload/Buffered.antt =====
-- Calls of `push_fragment`, one behind the other, and then `trigger_upload_all`.
use mathlib.Core.Path.{subst}
use mathlib.Core.List.{map-append}
use gst_kvs_sink.Common.{
  ℕ, ◌^◌, ◌<◌, ◌≤◌, ◌≡◌, ◌≢◌, refl, sym, ap, ◌∙◌, none, List, [], ◌∷◌, ◌++◌, map, arith, ok, All,
  length, inl, inr,
}
use gst_kvs_sink.Common.Words.{IsU64}
use gst_kvs_sink.Common.Time.{ClockApi, unix_epoch}
use gst_kvs_sink.Fragment.{Fragment}
use gst_kvs_sink.MediaUploader.{MediaUploader}
use gst_kvs_sink.ClusterFile.{file_bytes, stored}
use gst_kvs_sink.Buffer.World.{CurrentMegaClusterFile, Buffer}
use gst_kvs_sink.Buffer.Store.{queued, push_fragment}
use gst_kvs_sink.Buffer.Store.Went
use gst_kvs_sink.Buffer.Store.Went.{new_name, begun}
use gst_kvs_sink.Buffer.Upload.{select, eligible, overlaps_time_range, trigger_upload_all}
use gst_kvs_sink.Buffer.Upload.Delivered.{Stock, files_of, stored_in, AreStored, sent_all}
use gst_kvs_sink.Buffer.Upload.Whole.{trigger_upload_all-sent_all}
use gst_kvs_sink.Buffer.Upload.Backlog.{with_current, All-append, AreStored-append}
use gst_kvs_sink.Buffer.Upload.Pushes.{
  held, held-with_current, IsVoid, IsLogOf, push_fragment-IsLogOf,
}
use gst_kvs_sink.Buffer.Upload.Log.{IsWaiting, Log, HasNewName, All-files_of}

select-waiting :
    (stock : List Stock)
    → All (λ x. IsWaiting x.0) stock
    → select (eligible none none) (files_of stock) ≡ files_of stock
unfolding select eligible overlaps_time_range
select-waiting [] h = refl
select-waiting (x ∷ stock) (h, hs) =
    ground (arith, h.not_uploaded, h.untried, select-waiting stock hs)

stored_in-held :
    (clock : ClockApi) (stock : List Stock)
    → stored_in clock stock ≡ map (stored clock) (held stock)
stored_in-held clock [] = refl
stored_in-held clock ((file, gs) ∷ stock) =
    ap (λ l. map (stored clock) gs ++ l) (stored_in-held clock stock)
    ∙ sym (map-append (stored clock) gs (held stock))

-- The buffers that calls of `push_fragment` with these fragments make of one that holds nothing
-- yet. Before each call, no file bears the name of the file that it may begin; durations are
-- 64-bit numbers, and the fragments' records come to less than 2^63 bytes.
pub data Buffered {U : Type 0} (clock : ClockApi) : Buffer U → List Fragment → Type 0 where
  opened :
      (s : Buffer U)
      → s.outcomes ≡ []
      → ((n : ℕ) → unix_epoch ≤ s.clock n)
      → s.current_mega_cluster ≡ none
      → s.mega_cluster_files ≡ []
      → Buffered clock s []
  pushed :
      (s : Buffer U) (fs : List Fragment) (f : Fragment)
      → Buffered clock s fs
      → HasNewName s
      → IsU64 f.duration
      → length (file_bytes clock (fs ++ (f ∷ []))) < 2 ^ 63
      → Buffered clock (push_fragment clock f s).1 (fs ++ (f ∷ []))

Buffered-IsLogOf :
    {U : Type 0} (clock : ClockApi) (s : Buffer U) (fs : List Fragment)
    → Buffered clock s fs
    → IsLogOf clock s fs
Buffered-IsLogOf clock s fs (opened s' h e c q) =
    inl (record { healthy = h; epoch = e; closed = c; empty = q }, refl)
Buffered-IsLogOf clock s fs (pushed s' fs' f b new_ fit small) =
    (push_fragment-IsLogOf clock f s' fs' (Buffered-IsLogOf clock s' fs' b) new_ fit small).1

module _ {U : Type 0} (clock : ClockApi) (uploader : MediaUploader U)
    (accepts : (f : Fragment) (u : U) → (uploader.put_fragment f u).0 ≡ ok tt) where
  -- The upload returned `Ok`, and sent these fragments and no others.
  abbrev pub Delivers : List Fragment → Buffer U → Type 0
  Delivers fs s =
      ((trigger_upload_all clock uploader none none s).0 ≡ ok tt)
      × ((trigger_upload_all clock uploader none none s).1.uploader
          ≡ sent_all uploader (map (stored clock) fs) s.uploader)

  trigger_upload_all-void : (s : Buffer U) → IsVoid s → Delivers [] s
  unfolding select
  trigger_upload_all-void s h =
      trigger_upload_all-sent_all clock uploader accepts none none [] s
        (record { no_failures = h.healthy; after_epoch = h.epoch })
        (ap (λ r. select (eligible none none) r.1.mega_cluster_files)
            (Went.close_current-none s h.closed)
          ∙ ap (select (eligible none none)) h.empty)
        tt tt

  trigger_upload_all-Log :
      (s : Buffer U) {stock : List Stock} {c : CurrentMegaClusterFile} {last : List Fragment}
      → Log clock s stock c last
      → HasNewName s
      → Delivers (held stock ++ last) s
  unfolding queued
  trigger_upload_all-Log s {stock} {c} {last} h new_ =
      let files = with_current c last stock in
      let waiting : All (λ (x : Stock). IsWaiting x.0) files =
        All-append (λ (x : Stock). IsWaiting x.0) stock (queued c, last) h.waiting
          (record { not_uploaded = refl; untried = refl }) in
      let shut = sym (Went.close_current_open s h.healthy h.there) in
      let (came, sent) =
        trigger_upload_all-sent_all clock uploader accepts none none files s
          (record { no_failures = h.healthy; after_epoch = h.epoch })
          (subst (λ r. select (eligible none none) r.1.mega_cluster_files ≡ files_of files) shut
            (ap (λ l. select (eligible none none) (l ++ (queued c ∷ []))) h.queue
              ∙ ap (select (eligible none none))
                  (sym (map-append (λ (x : Stock). x.0) stock ((queued c, last) ∷ [])))
              ∙ select-waiting files waiting))
          (subst (λ r. AreStored clock r.1.disk files) shut
            (AreStored-append clock s.disk stock (queued c) last h.stored_ h.apart h.content h.fits
              h.small))
          (subst (λ r. All (λ (x : Stock). x.0.file_path ≢ new_name r.1) files) shut
            (All-append (λ (x : Stock). x.0.file_path ≢ new_name s) stock (queued c, last)
              (All-files_of (λ m. m.file_path ≢ new_name s) stock
                (subst (All (λ m. m.file_path ≢ new_name s)) h.queue new_.closed))
              (new_.open_ c h.there))) in
      (
        came,
        sent
            ∙ ap (λ l. sent_all uploader l s.uploader)
                (stored_in-held clock files
                  ∙ ap (map (stored clock)) (held-with_current c last stock)),
      )

  IsLogOf-Delivers :
      (s : Buffer U) (fs : List Fragment) → IsLogOf clock s fs → HasNewName s → Delivers fs s
  IsLogOf-Delivers s fs (inl (void, e)) new_ =
      subst (λ l. Delivers l s) (sym e) (trigger_upload_all-void s void)
  IsLogOf-Delivers s fs (inr (stock, c, last, log, e)) new_ =
      subst (λ l. Delivers l s) e (trigger_upload_all-Log s log new_)

-- Where the directory's operations go well, the clock stands behind the epoch, the uploader
-- accepts every fragment, and no file bears the name of one that is begun later: what
-- `trigger_upload_all` without a time range sends, after any number of calls of `push_fragment`
-- on a buffer that held nothing, is exactly the fragments of these calls, in their order, each as
-- its record keeps it. It returns `Ok`. This holds over rotations and cleanups, for durations of
-- 64 bits and records of less than 2^63 bytes in all.
pub trigger_upload_all-Buffered :
    {U : Type 0} (clock : ClockApi) (uploader : MediaUploader U) (s : Buffer U) (fs : List Fragment)
    → ((f : Fragment) (u : U) → (uploader.put_fragment f u).0 ≡ ok tt)
    → Buffered clock s fs
    → HasNewName s
    → ((trigger_upload_all clock uploader none none s).0 ≡ ok tt)
      × ((trigger_upload_all clock uploader none none s).1.uploader
          ≡ sent_all uploader (map (stored clock) fs) s.uploader)
trigger_upload_all-Buffered clock uploader s fs accepts b new_ =
    IsLogOf-Delivers clock uploader accepts s fs (Buffered-IsLogOf clock s fs b) new_
