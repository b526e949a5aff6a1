-- ===== src/Sink/Worker/Delivery.antt =====
-- What becomes of a fragment that the worker takes.
use gst_kvs_sink.Common.{
  ◌^◌, ◌<◌, ◌≡◌, Bool, true, false, List, [], ◌∷◌, ◌++◌, ◌⊎◌, Result, ok, err, panic, length,
}
use gst_kvs_sink.Common.Words.{IsU64}
use gst_kvs_sink.Common.Time.{ClockApi}
use gst_kvs_sink.Fragment.{Fragment}
use gst_kvs_sink.ClusterFile.{file_bytes}
use gst_kvs_sink.MediaUploader.{MediaUploader}
use gst_kvs_sink.Buffer.World.{Buffer, CurrentMegaClusterFile}
use gst_kvs_sink.Buffer.Upload.Delivered.{Stock}
use gst_kvs_sink.Buffer.Upload.Log.{Log, HasNewName}
use gst_kvs_sink.Buffer.Upload.Pushes.{Pushed}
use gst_kvs_sink.Sink.State.{UploadMode, immediate, UploadItem, Sink}
use gst_kvs_sink.Sink.Worker.{buffer_fragment, after_failure}

-- A buffer that is in order for the next fragment `f`: it is such a log, the file that may be begun
-- has a name of its own, and the fragment's record fits.
pub record IsOpen {U : Type 0} (clock : ClockApi) (f : Fragment) (b : Buffer U) (stock : List Stock)
    (c : CurrentMegaClusterFile) (last : List Fragment) : Type 0 where
  pub log : Log clock b stock c last
  pub new_name : HasNewName b
  pub fit : IsU64 f.duration
  pub small : length (file_bytes clock (last ++ (f ∷ []))) < 2 ^ 63

module _ {U : Type 0} (clock : ClockApi) (uploader : MediaUploader U) (f : Fragment)
    (stock : List Stock) (c : CurrentMegaClusterFile) (last : List Fragment) where
  -- The fragment went to disk, as a push to this log puts it there.
  abbrev pub Stored : Buffer U → Buffer U → Type 0
  Stored b b' = Pushed clock f b stock c last (ok tt, b')

  -- The uploader accepted the fragment, in immediate mode, and the buffer holds what it held.
  pub record Accepted (m : UploadMode) (u : U) (b : Buffer U) : Type 0 where
    pub mode : m ≡ immediate
    pub accepted : (uploader.put_fragment f u).0 ≡ ok tt
    pub untouched : Log clock b stock c last

  -- How the second half of a round ends: a panic of the uploader ended the worker in immediate
  -- mode, or the fragment was accepted, or it went to disk.
  abbrev pub Dispatched : UploadMode → U → Buffer U → Bool × Sink U → Type 0
  Dispatched m u b r =
      ((m ≡ immediate) × ((uploader.put_fragment f u).0 ≡ panic) × (r.0 ≡ false))
      ⊎ ((r.0 ≡ true) × (Accepted m u r.1.buffer ⊎ Stored b r.1.buffer))

  abbrev then_buffer : Result (Unit {0}) → Sink U → Bool × Sink U
  then_buffer r s = elim r [
    | ok _ ↦ (true, s)
    | err e ↦ (true, buffer_fragment clock f (after_failure e s))
    | panic ↦ (false, s)
  ]

-- The uploader that the fragment is sent to: behind the reset, if the item asks for one.
abbrev pub uploader_after : {U : Type 0} → MediaUploader U → Bool → U → U
uploader_after uploader false u = u
uploader_after uploader true u = (uploader.reset_session u).1

-- How a round of the worker ends: a panic in the session reset that the item asks for ended the
-- worker, and the buffer holds what it held; or it ends as its second half does.
abbrev pub Delivered :
    {U : Type 0}
    → ClockApi
    → MediaUploader U
    → UploadItem
    → List Stock
    → CurrentMegaClusterFile
    → List Fragment
    → Buffer U
    → Bool × Sink U
    → Type 0
Delivered clock uploader item stock c last b r =
    ((item.starts_new_session ≡ true)
      × ((uploader.reset_session b.uploader).0 ≡ panic)
      × (r.0 ≡ false)
      × Log clock r.1.buffer stock c last)
    ⊎ Dispatched clock uploader item.fragment stock c last item.mode
        (uploader_after uploader item.starts_new_session b.uploader) b r
