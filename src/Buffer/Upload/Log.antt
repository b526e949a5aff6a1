-- ===== src/Buffer/Upload/Log.antt =====
-- The buffer as one log: the closed files that wait for an upload, and the current file behind them.
use mathlib.Core.Path.{subst}
use gst_kvs_sink.Common.{
  ℕ, suc, ◌+◌, ◌%◌, ◌^◌, ◌<◌, ◌≤◌, ◌≡◌, ◌≢◌, refl, sym, ap, ◌∙◌, Bool, true, false, some, List, [],
  ◌∷◌, ◌++◌, arith, ◌==◌, if◌then◌else◌, Result, ok, err, panic, All, length,
}
use gst_kvs_sink.Common.Words.{IsU64}
use gst_kvs_sink.Common.Time.{SystemTime, ClockApi, unix_epoch}
use gst_kvs_sink.Fragment.{Fragment}
use gst_kvs_sink.ClusterFile.{record_writes, record_bytes, file_bytes}
use gst_kvs_sink.Buffer.World.{
  FileName, MegaClusterFile, CurrentMegaClusterFile, Buffer, pure, lookup, insert,
}
use gst_kvs_sink.Buffer.Disk.{lookup-insert_self, lookup-insert_ne}
use gst_kvs_sink.Buffer.Store.{
  write_each, append_current, append_fragment, cleanup, push_fragment, new_file, counted,
}
use gst_kvs_sink.Buffer.Store.Faults.{write_each-Wrote}
use gst_kvs_sink.Buffer.Store.Append.{file_bytes-append, HaveU64, HaveU64-append}
use gst_kvs_sink.Buffer.Store.Went
use gst_kvs_sink.Buffer.Store.Went.{new_name, begun}
use gst_kvs_sink.Buffer.Upload.Delivered.{Stock, files_of, AreStored, AreStored-after}

-- A file that no upload was tried of.
pub record IsWaiting (m : MegaClusterFile) : Type 0 where
  pub not_uploaded : m.uploaded ≡ false
  pub untried : m.upload_attempts ≡ 0

-- In a healthy directory, these files wait in the queue and hold these fragments, and the current
-- file holds `last`.
pub record Log {U : Type 0} (clock : ClockApi) (s : Buffer U) (stock : List Stock)
    (c : CurrentMegaClusterFile) (last : List Fragment) : Type 0 where
  pub healthy : s.outcomes ≡ []
  pub epoch : (n : ℕ) → unix_epoch ≤ s.clock n
  pub there : s.current_mega_cluster ≡ some c
  pub content : lookup c.file_path s.disk ≡ some (file_bytes clock last)
  pub fits : HaveU64 last
  pub small : length (file_bytes clock last) < 2 ^ 63
  pub queue : s.mega_cluster_files ≡ files_of stock
  pub waiting : All (λ x. IsWaiting x.0) stock
  pub stored_ : AreStored clock s.disk stock
  pub apart : All (λ x. x.0.file_path ≢ c.file_path) stock

-- The file that is begun next has a name of its own.
pub record HasNewName {U : Type 0} (s : Buffer U) : Type 0 where
  pub closed : All (λ m. m.file_path ≢ new_name s) s.mega_cluster_files
  pub open_ :
      (c : CurrentMegaClusterFile) → s.current_mega_cluster ≡ some c → c.file_path ≢ new_name s

pub All-files_of :
    (P : MegaClusterFile → Type 0) (stock : List Stock)
    → All P (files_of stock)
    → All (λ x. P x.0) stock
All-files_of P [] h = tt
All-files_of P (x ∷ stock) (h, hs) = (h, All-files_of P stock hs)

All-of_files :
    (stock : List Stock)
    → All (λ x. IsWaiting x.0) stock
    → All (λ m. m.uploaded ≡ false) (files_of stock)
All-of_files [] h = tt
All-of_files (x ∷ stock) (h, hs) = (h.not_uploaded, All-of_files stock hs)

module _ {U : Type 0} (clock : ClockApi) (f : Fragment) where
  -- The call came well, and left such a log.
  abbrev pub Keeps :
      List Stock → CurrentMegaClusterFile → List Fragment → Result (Unit {0}) × Buffer U → Type 0
  Keeps stock c last r = (r.0 ≡ ok tt) × Log clock r.1 stock c last

  pub append_current-Log :
      (s : Buffer U) {stock : List Stock} {c : CurrentMegaClusterFile} {last : List Fragment}
      → Log clock s stock c last
      → IsU64 f.duration
      → length (file_bytes clock (last ++ (f ∷ []))) < 2 ^ 63
      → Keeps stock (counted f c) (last ++ (f ∷ [])) (append_current clock f s)
  unfolding counted record_bytes
  append_current-Log s {stock} {c} {last} h fit small =
      let w = write_each-Wrote (record_writes clock f) c.file_path s h.content in
      let (came, quiet) = w.healthy h.healthy in
      let s' : Buffer U = record s { disk = w.disk; outcomes = w.outcomes } in
      subst (Keeps stock (counted f c) (last ++ (f ∷ [])))
        (sym (
          Went.append_current_went clock f s {s' = s'} h.there
            (ap (λ x. (x, (write_each c.file_path (record_writes clock f) s).1)) came
              ∙ ap (λ t. (ok tt, t)) w.state)
            quiet))
        (
          refl,
          record {
            healthy = refl;
            epoch = h.epoch;
            there = refl;
            content =
                w.content
                ∙ ap (λ l. some (file_bytes clock last ++ l)) (w.whole came)
                ∙ ap some (sym (file_bytes-append clock last f));
            fits = HaveU64-append last f h.fits fit;
            small = small;
            queue = h.queue;
            waiting = h.waiting;
            stored_ =
                AreStored-after clock s.disk w.disk c.file_path stock w.others h.apart h.stored_;
            apart = h.apart;
          },
        )

  -- A file that was just begun, behind the others.
  pub begun-Log :
      (p : FileName) (t : SystemTime) (s : Buffer U) (stock : List Stock)
      → ((n : ℕ) → unix_epoch ≤ s.clock n)
      → s.mega_cluster_files ≡ files_of stock
      → All (λ x. IsWaiting x.0) stock
      → AreStored clock s.disk stock
      → All (λ x. x.0.file_path ≢ p) stock
      → Log clock (begun p t s) stock (new_file p (s.clock s.readings) t) []
  unfolding file_bytes
  begun-Log p t s stock e q w h a = record {
    healthy = refl;
    epoch = e;
    there = refl;
    content = lookup-insert_self p [] s.disk;
    fits = tt;
    small = omega arith;
    queue = q;
    waiting = w;
    stored_ =
        AreStored-after clock s.disk (insert p [] s.disk) p stock
          (λ q ne. lookup-insert_ne p q [] s.disk ne) a h;
    apart = a;
  }

  pub counted-Log :
      (s : Buffer U) {stock : List Stock} {c : CurrentMegaClusterFile} {last : List Fragment}
      {n m : ℕ}
      → Log clock s stock c last
      → Log clock (record s { call_counter = n; readings = m }) stock c last
  counted-Log s h = record {
    healthy = h.healthy;
    epoch = h.epoch;
    there = h.there;
    content = h.content;
    fits = h.fits;
    small = h.small;
    queue = h.queue;
    waiting = h.waiting;
    stored_ = h.stored_;
    apart = h.apart;
  }

  pub uploader-Log :
      (u : U) (s : Buffer U) {stock : List Stock} {c : CurrentMegaClusterFile}
      {last : List Fragment}
      → Log clock s stock c last
      → Log clock (record s { uploader = u }) stock c last
  uploader-Log u s h = record {
    healthy = h.healthy;
    epoch = h.epoch;
    there = h.there;
    content = h.content;
    fits = h.fits;
    small = h.small;
    queue = h.queue;
    waiting = h.waiting;
    stored_ = h.stored_;
    apart = h.apart;
  }

  finish-Log :
      (b : Bool) (s : Buffer U) {stock : List Stock} {c : CurrentMegaClusterFile}
      {last : List Fragment}
      → Log clock s stock c last
      → Keeps stock c last ((if b then cleanup else pure tt) s)
  finish-Log false s h = (refl, h)
  finish-Log true s {stock} {c} {last} h =
      subst (Keeps stock c last)
        (sym (
          Went.cleanup-kept s
            (subst (All (λ m. m.uploaded ≡ false)) (sym h.queue) (All-of_files stock h.waiting))))
        (refl, counted-Log s {n = s.call_counter} {m = suc s.readings} h)

  pub then_push :
      (s : Buffer U) (r : Result (Unit {0})) (s' : Buffer U) {stock : List Stock}
      {c : CurrentMegaClusterFile} {last : List Fragment}
      → append_fragment clock f s ≡ (r, s')
      → Keeps stock c last (r, s')
      → Keeps stock c last (push_fragment clock f s)
  then_push s (ok x) s' {stock} {c} {last} e (came, h) =
      let n = s'.call_counter + 1 in
      subst (Keeps stock c last) (sym (Went.push_fragment_counts clock f s e)) (
        finish-Log (n % 100 == 0) (record s' { call_counter = n })
          (counted-Log s' {n = n} {m = s'.readings} h))
  then_push s (err x) s' e (came, h) = cc
  then_push s panic s' e (came, h) = cc
