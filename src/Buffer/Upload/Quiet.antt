-- ===== src/Buffer/Upload/Quiet.antt =====
-- The parts of `trigger_upload_all`: what they leave alone, and the errors that they report.
use mathlib.Core.Path.{subst}
use mathlib.Core.List.{map-append}
use gst_kvs_sink.Common.{
  ℕ, ◌≡◌, refl, sym, ap, ◌∙◌, Option, none, some, List, [], ◌∷◌, ◌++◌, map, append_assoc,
  append-nil, arith, inl, inr, ◌⊎◌, Text, Result, ok, err, panic, codes, with_context,
}
use gst_kvs_sink.Common.Time.{SystemTime, ClockApi}
use gst_kvs_sink.Fragment.{Fragment}
use gst_kvs_sink.MediaUploader.{MediaUploader}
use gst_kvs_sink.ClusterFile.{Ending, finished, crashed, exhausted, read_file}
use gst_kvs_sink.Buffer.World.{
  MegaClusterFile, BufferManagerEvent, upload_error, Buffer, read_bytes, remove_file,
}
use gst_kvs_sink.Buffer.Upload.{
  mark_uploaded, mark_failed, send, put_fragment, put_each, upload_file, settle, upload_one,
  upload_each,
}

-- A step that uses up no outcome where none is left, and touches neither the open file, the clock
-- nor the events.
pub record Calm {U : Type 0} (s s' : Buffer U) : Type 0 where
  pub healthy : s.outcomes ≡ [] → s'.outcomes ≡ []
  pub current : s'.current_mega_cluster ≡ s.current_mega_cluster
  pub clock : s'.clock ≡ s.clock
  pub events : s'.events ≡ s.events

module _ {U : Type 0} where
  read_bytes-Calm : (p : List ℕ) (s : Buffer U) → Calm s (read_bytes p s).1
  unfolding read_bytes
  read_bytes-Calm p s = ground arith

  remove_file-Calm : (p : List ℕ) (s : Buffer U) → Calm s (remove_file p s).1
  unfolding remove_file
  remove_file-Calm p s = ground arith

  mark_uploaded-Calm :
      (p : List ℕ) (s : Buffer U) → Calm s (mark_uploaded p s).1 × ((mark_uploaded p s).0 ≡ ok tt)
  unfolding mark_uploaded remove_file
  mark_uploaded-Calm p s = (ground arith, ground arith)

  mark_failed-Calm :
      (p : List ℕ) (e : Text) (s : Buffer U)
      → Calm s (mark_failed p e s).1 × ((mark_failed p e s).0 ≡ ok tt)
  unfolding mark_failed
  mark_failed-Calm p e s = (ground arith, ground arith)

-- Errors that were reported between two lists of events.
abbrev pub Reported : Option (List BufferManagerEvent) → Option (List BufferManagerEvent) → Type 0
Reported none after = after ≡ none
Reported (some before) after =
    (errors : List Text) × (after ≡ some (before ++ map upload_error errors))

pub Reported-refl :
    (events after : Option (List BufferManagerEvent)) → after ≡ events → Reported events after
Reported-refl none after h = h
Reported-refl (some before) after h = ([], h ∙ ap some (sym (append-nil before)))

Reported-trans :
    (a b c : Option (List BufferManagerEvent)) → Reported a b → Reported b c → Reported a c
Reported-trans none none c h k = k
Reported-trans none (some b) c h k = cc
Reported-trans (some a) none c (errors, h) k = cc
Reported-trans (some a) (some b) c (errors, h) (more, k) = (
  errors ++ more,
  cc (
    append_assoc a (map upload_error errors) (map upload_error more),
    map-append upload_error errors more,
  ),
)

-- A call that does not end in an error, and is calm but for the upload errors that it reports.
pub record Quiet {U : Type 0} (s : Buffer U) (r : Result (Unit {0}) × Buffer U) : Type 0 where
  pub ended : (r.0 ≡ ok tt) ⊎ (r.0 ≡ panic)
  pub healthy : s.outcomes ≡ [] → r.1.outcomes ≡ []
  pub current : r.1.current_mega_cluster ≡ s.current_mega_cluster
  pub clock : r.1.clock ≡ s.clock
  pub reported : Reported s.events r.1.events

Quiet-after_Calm :
    {U : Type 0} {s s' : Buffer U} (r : Result (Unit {0}) × Buffer U)
    → Calm s s'
    → Quiet s' r
    → Quiet s r
Quiet-after_Calm {s = s} {s' = s'} r c q = record {
  ended = q.ended;
  healthy = λ h. q.healthy (c.healthy h);
  current = q.current ∙ c.current;
  clock = q.clock ∙ c.clock;
  reported = Reported-trans s.events s'.events r.1.events (Reported-refl _ _ c.events) q.reported;
}

Quiet-of_Calm :
    {U : Type 0} {s : Buffer U} (r : Result (Unit {0}) × Buffer U)
    → Calm s r.1
    → (r.0 ≡ ok tt) ⊎ (r.0 ≡ panic)
    → Quiet s r
Quiet-of_Calm {s = s} r c e = record {
  ended = e;
  healthy = c.healthy;
  current = c.current;
  clock = c.clock;
  reported = Reported-refl s.events r.1.events c.events;
}

abbrev pub with_event :
    BufferManagerEvent → Option (List BufferManagerEvent) → Option (List BufferManagerEvent)
with_event e none = none
with_event e (some before) = some (before ++ (e ∷ []))

Reported-with_event :
    (e : Text) (o : Option (List BufferManagerEvent)) → Reported o (with_event (upload_error e) o)
Reported-with_event e none = refl
Reported-with_event e (some before) = (e ∷ [], refl)

module _ {U : Type 0} where
  pub events-send :
      (e : BufferManagerEvent) (s : Buffer U) → (send e s).1.events ≡ with_event e s.events
  unfolding send
  events-send e s = ground arith

  send_error-Quiet : (e : Text) (s : Buffer U) → Quiet s (send (upload_error e) s)
  send_error-Quiet e s = record {
    ended = unfold send in ground arith;
    healthy = unfold send in ground arith;
    current = unfold send in ground arith;
    clock = unfold send in ground arith;
    reported =
        subst (Reported s.events) (sym (events-send (upload_error e) s))
          (Reported-with_event e s.events);
  }

module _ {U : Type 0} (clock : ClockApi) (uploader : MediaUploader U) where
  put_each-Calm :
      (fs : List Fragment) (e : Ending) (s : Buffer U) → Calm s (put_each clock uploader fs e s).1
  unfolding put_each put_fragment
  put_each-Calm [] finished s = ground arith
  put_each-Calm [] crashed s = ground arith
  put_each-Calm [] exhausted s = ground arith
  put_each-Calm (f ∷ fs) e s =
      ground
        (arith, put_each-Calm fs e (record s { uploader = (uploader.put_fragment f s.uploader).1 }))

  -- What `upload_file` does with the bytes that it read, or the error.
  abbrev pub after_read : SystemTime → Result (List ℕ) → Buffer U → Result (Unit {0}) × Buffer U
  after_read t r s = elim (with_context (codes "Failed to read cluster file") r) [
    | ok bytes ↦ let (fs, e) = read_file clock t bytes in put_each clock uploader fs e s
    | err e ↦ (err e, s)
    | panic ↦ (panic, s)
  ]

  Calm-trans : {s t u : Buffer U} → Calm s t → Calm t u → Calm s u
  Calm-trans h k = record {
    healthy = λ e. k.healthy (h.healthy e);
    current = k.current ∙ h.current;
    clock = k.clock ∙ h.clock;
    events = k.events ∙ h.events;
  }

  after_read-Calm :
      (t : SystemTime) (r : Result (List ℕ)) {s : Buffer U} (s' : Buffer U)
      → Calm s s'
      → Calm s (after_read t r s').1
  after_read-Calm t (ok bytes) s' h =
      let (fs, e) = read_file clock t bytes in Calm-trans h (put_each-Calm fs e s')
  after_read-Calm t (err e) s' h = h
  after_read-Calm t panic s' h = h

  upload_file-Calm :
      (file : MegaClusterFile) (s : Buffer U) → Calm s (upload_file clock uploader file s).1
  unfolding upload_file
  upload_file-Calm file s =
      after_read-Calm (s.clock s.readings) (read_bytes file.file_path s).0
        (read_bytes file.file_path s).1 (read_bytes-Calm file.file_path s)

  then_send-Quiet :
      (e : Text) (r : Result (Unit {0})) (s' : Buffer U) {s : Buffer U}
      → r ≡ ok tt
      → Calm s s'
      → Quiet s
          (elim r [ ok _ ↦ send (upload_error e) s' | err x ↦ (err x, s') | panic ↦ (panic, s') ])
  then_send-Quiet e (ok x) s' came calm = Quiet-after_Calm _ calm (send_error-Quiet e s')
  then_send-Quiet e (err x) s' came calm = cc
  then_send-Quiet e panic s' came calm = cc

  settle-Quiet :
      (p : List ℕ) (r : Result (Unit {0})) (s : Buffer U) → Quiet s (settle clock uploader p r s)
  unfolding settle
  settle-Quiet p (ok x) s =
      let (calm, came) = mark_uploaded-Calm p s in Quiet-of_Calm (mark_uploaded p s) calm (inl came)
  settle-Quiet p (err e) s =
      let (calm, came) = mark_failed-Calm p e s in
      then_send-Quiet e (mark_failed p e s).0 (mark_failed p e s).1 came calm
  settle-Quiet p panic s = record {
    ended = inr refl;
    healthy = λ h. h;
    current = refl;
    clock = refl;
    reported = Reported-refl s.events s.events refl;
  }

  upload_one-Quiet :
      (file : MegaClusterFile) (s : Buffer U) → Quiet s (upload_one clock uploader file s)
  unfolding upload_one
  upload_one-Quiet file s =
      let (r, s') = upload_file clock uploader file s in
      Quiet-after_Calm _ (upload_file-Calm file s) (settle-Quiet file.file_path r s')

  Quiet-trans :
      {s : Buffer U} (r : Result (Unit {0})) (s' : Buffer U) (q : Result (Unit {0}) × Buffer U)
      → Quiet s (r, s')
      → Quiet s' q
      → Quiet s q
  Quiet-trans {s} r s' q h k = record {
    ended = k.ended;
    healthy = λ e. k.healthy (h.healthy e);
    current = k.current ∙ h.current;
    clock = k.clock ∙ h.clock;
    reported = Reported-trans s.events s'.events q.1.events h.reported k.reported;
  }

  abbrev then_each :
      List MegaClusterFile → Result (Unit {0}) → Buffer U → Result (Unit {0}) × Buffer U
  then_each fs r s = elim r [
    | ok _ ↦ upload_each clock uploader fs s
    | err x ↦ (err x, s)
    | panic ↦ (panic, s)
  ]

  then_each-Quiet :
      (fs : List MegaClusterFile) (r : Result (Unit {0})) (s' : Buffer U) {s : Buffer U}
      → Quiet s (r, s')
      → Quiet s' (upload_each clock uploader fs s')
      → Quiet s (then_each fs r s')
  then_each-Quiet fs (ok x) s' h rest = Quiet-trans (ok x) s' _ h rest
  then_each-Quiet fs (err x) s' h rest = h
  then_each-Quiet fs panic s' h rest = h

  pub upload_each-Quiet :
      (fs : List MegaClusterFile) (s : Buffer U) → Quiet s (upload_each clock uploader fs s)
  unfolding upload_each
  upload_each-Quiet [] s = record {
    ended = inl refl;
    healthy = λ h. h;
    current = refl;
    clock = refl;
    reported = Reported-refl s.events s.events refl;
  }
  upload_each-Quiet (f ∷ fs) s =
      let (r, s') = upload_one clock uploader f s in
      then_each-Quiet fs r s' (upload_one-Quiet f s) (upload_each-Quiet fs s')

-- A list of errors, and what comes behind it.
pub Reported-after :
    {before middle : Option (List BufferManagerEvent)} (after : Option (List BufferManagerEvent))
    → middle ≡ before
    → Reported middle after
    → Reported before after
Reported-after after e h = subst (λ o. Reported o after) e h
