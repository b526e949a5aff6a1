-- ===== src/Buffer/LogRuns.antt =====
-- A run of pushes over a rotation, and of the upload behind them.
use gst_kvs_sink.Common.{
  ◌*◌, ◌+◌, ◌≡◌, ◌≢◌, refl, ap, ◌∙◌, false, none, some, Option, List, [], ◌∷◌, map, All, arith, ok,
}
use gst_kvs_sink.Common.Time.{unix_epoch}
use gst_kvs_sink.Common.Words.{u64_to_le_bytes}
use gst_kvs_sink.Fragment.{Fragment}
use gst_kvs_sink.ClusterFile.{
  stored, record_writes, file_bytes, record_bytes, next, read_file, read_from,
}
use gst_kvs_sink.Buffer.Names.{file_name, decimal}
use gst_kvs_sink.Buffer.World.{
  FileName, MegaClusterFile, Buffer, CurrentMegaClusterFile, text_eq, create_file, write_all,
  insert, append_bytes, lookup, read_bytes, remove_file,
}
use gst_kvs_sink.Buffer.Disk.{text_eq_self}
use gst_kvs_sink.Buffer.Store.{
  push_fragment, append_fragment, should_rotate, is_due, rotate, close_current, finalize, queued,
  start_new, write_each, append_current, counted,
}
use gst_kvs_sink.Buffer.Store.Went.{new_name}
use gst_kvs_sink.Buffer.Upload.{
  trigger_upload_all, eligible, finish_new, has_path, mark_uploaded, put_each, select, send, settle,
  upload_each, upload_file, upload_one, upload_selected,
}
use gst_kvs_sink.Buffer.Upload.Delivered.{sent_all}
use gst_kvs_sink.Buffer.Upload.Log.{Log, HasNewName}
use gst_kvs_sink.Buffer.Upload.Buffered.{opened, pushed, trigger_upload_all-Buffered}
use gst_kvs_sink.Examples.{stocked, open_file, plain_clock, early, late, keeper, empty_buffer}

-- Each reading of the clock is half an hour behind the last.
abbrev slow : Buffer (List Fragment)
slow = record empty_buffer { clock = λ n. unix_epoch + n * 1_800_000_000_000 }

abbrev one : Buffer (List Fragment)
one = (push_fragment plain_clock early slow).1

abbrev two : Buffer (List Fragment)
two = (push_fragment plain_clock late one).1

apart : (p q : FileName) → text_eq p q ≡ false → p ≢ q
apart p q h e = cc (h, ap (λ r. text_eq p r) e, text_eq_self p)

-- The name of the current file, or none.
abbrev current_name : Option CurrentMegaClusterFile → FileName
current_name none = []
current_name (some c) = c.file_path

names_apart :
    {b : Option CurrentMegaClusterFile} (p : FileName)
    → text_eq (current_name b) p ≡ false
    → (c : CurrentMegaClusterFile) → b ≡ some c
    → c.file_path ≢ p
names_apart p h c e n = apart _ p h (ap current_name e ∙ n)

-- The small directory as a log.
pub stocked-Log : Log plain_clock stocked [] open_file (early ∷ [])
unfolding lookup text_eq file_bytes record_bytes u64_to_le_bytes
stocked-Log = record {
  healthy = refl;
  epoch = λ n. omega arith;
  there = refl;
  content = refl;
  fits = (omega arith, tt);
  small = omega arith;
  queue = refl;
  waiting = tt;
  stored_ = tt;
  apart = tt;
}

pub stocked-HasNewName : HasNewName stocked
unfolding text_eq file_name decimal
stocked-HasNewName = record { closed = tt; open_ = λ c e. names_apart _ refl c e }

slow-HasNewName : HasNewName slow
slow-HasNewName = record { closed = tt; open_ = λ c e. cc e }

one-HasNewName : HasNewName one
unfolding push_fragment append_fragment should_rotate is_due rotate close_current start_new
    write_each append_current counted create_file write_all insert text_eq file_name decimal
    record_writes
one-HasNewName = record { closed = tt; open_ = λ c e. names_apart _ refl c e }

two_name : text_eq (current_name two.current_mega_cluster) (new_name two) ≡ false
unfolding push_fragment append_fragment should_rotate is_due rotate close_current finalize queued
    start_new write_each append_current counted create_file write_all insert text_eq file_name
    decimal record_writes
two_name = refl

-- The first file was closed by the second push.
two_closed : map (λ m. text_eq m.file_path (new_name two)) two.mega_cluster_files ≡ false ∷ []
unfolding push_fragment append_fragment should_rotate is_due rotate close_current finalize queued
    start_new write_each append_current counted create_file write_all insert text_eq file_name
    decimal record_writes
two_closed = refl

closed_apart :
    (p : FileName) (files : List MegaClusterFile)
    → map (λ m. text_eq m.file_path p) files ≡ false ∷ []
    → All (λ m. m.file_path ≢ p) files
closed_apart p [] h = tt
closed_apart p (m ∷ []) h = (apart _ _ (cc h), tt)
closed_apart p (m ∷ n ∷ files) h = cc h

two-HasNewName : HasNewName two
two-HasNewName = record {
  closed = closed_apart (new_name two) two.mega_cluster_files two_closed;
  open_ = λ c e. names_apart {b = two.current_mega_cluster} (new_name two) two_name c e;
}

trigger_upload_all-Buffered_example :
    ((trigger_upload_all plain_clock keeper none none two).0 ≡ ok tt)
    × ((trigger_upload_all plain_clock keeper none none two).1.uploader
        ≡ sent_all keeper (stored plain_clock early ∷ stored plain_clock late ∷ []) two.uploader)
unfolding file_bytes record_bytes u64_to_le_bytes
trigger_upload_all-Buffered_example =
    trigger_upload_all-Buffered plain_clock keeper two (early ∷ late ∷ []) (λ f u. refl)
      (pushed one (early ∷ []) late
        (pushed slow [] early (opened slow refl (λ n. omega arith) refl refl) slow-HasNewName
          (omega arith) (omega arith))
        one-HasNewName (omega arith) (omega arith))
      two-HasNewName

-- Where the upload begins its file in the millisecond of the first push, that file takes the name
-- of the one that holds the fragment, and empties it: nothing is sent.
one_millisecond :
    (trigger_upload_all plain_clock keeper none none
      (push_fragment plain_clock early empty_buffer).1).1.uploader
    ≡ []
unfolding decimal file_name counted push_fragment append_fragment close_current should_rotate rotate
    start_new append_current write_each finalize finish_new has_path mark_uploaded put_each send
    select eligible upload_selected upload_each upload_one settle upload_file trigger_upload_all
    create_file write_all append_bytes insert lookup read_bytes remove_file text_eq record_writes
    next read_file read_from
one_millisecond = refl
