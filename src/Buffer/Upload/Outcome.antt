-- ===== src/Buffer/Upload/Outcome.antt =====
-- How `trigger_upload_all` ends.
use mathlib.Core.Path.{subst}
use gst_kvs_sink.Common.{
  ℕ, suc, ◌-◌, ◌≤◌, ◌≡◌, refl, sym, ap, ◌∙◌, Bool, Option, none, some, List, [], ◌∷◌, ◌++◌, map,
  append_assoc, arith, is_none, is_empty, inl, inr, ◌⊎◌, Text, Result, ok, err, panic,
  if◌then◌else◌,
}
use gst_kvs_sink.Common.Time.{SystemTime, ClockApi, unix_epoch, as_millis}
use gst_kvs_sink.MediaUploader.{MediaUploader}
use gst_kvs_sink.Buffer.Names.{file_name}
use gst_kvs_sink.Buffer.World.{
  MegaClusterFile, CurrentMegaClusterFile, BufferManagerEvent, historical_upload_complete,
  upload_error, Buffer, create_file, pure,
}
use gst_kvs_sink.Buffer.Store.{close_current, start_new, finalize, new_file}
use gst_kvs_sink.Buffer.Upload.{
  select, selected, eligible, send, upload_each, finish_new, upload_selected, trigger_upload_all,
}
use gst_kvs_sink.Buffer.Upload.Quiet.{
  Reported, Reported-refl, Reported-after, Quiet, with_event, events-send, upload_each-Quiet,
}

-- A state whose coming file operations all go well, and whose clock stands behind the epoch.
pub record IsHealthy {U : Type 0} (s : Buffer U) : Type 0 where
  pub no_failures : s.outcomes ≡ []
  pub after_epoch : (n : ℕ) → unix_epoch ≤ s.clock n

-- A file that was just begun: it is open, empty, and nothing else has changed.
record Begun {U : Type 0} (s : Buffer U) (r : Result (Unit {0}) × Buffer U) : Type 0 where
  came : r.0 ≡ ok tt
  healthy : r.1.outcomes ≡ []
  opened :
      (c : CurrentMegaClusterFile) × (r.1.current_mega_cluster ≡ some c) × (c.cluster_count ≡ 0)
  events : r.1.events ≡ s.events

module _ {U : Type 0} where
  pub close_current-healthy :
      (s : Buffer U)
      → s.outcomes ≡ []
      → ((close_current s).0 ≡ ok tt)
        × ((close_current s).1.current_mega_cluster ≡ none)
        × ((close_current s).1.outcomes ≡ [])
        × ((close_current s).1.clock ≡ s.clock)
        × ((close_current s).1.events ≡ s.events)
  unfolding close_current finalize
  close_current-healthy s h = (ground arith, ground arith, ground arith, ground arith, ground arith)

  start_new-Begun :
      (t : SystemTime) (s : Buffer U)
      → s.outcomes ≡ []
      → unix_epoch ≤ s.clock s.readings
      → Begun s (start_new t s)
  unfolding start_new create_file
  start_new-Begun t s h e =
      let p = file_name s.stream_name (as_millis (s.clock s.readings - unix_epoch)) in
      record {
        came = ground arith;
        healthy = ground arith;
        opened = (new_file p (s.clock s.readings) t, ground arith, refl);
        events = ground arith;
      }

  -- An empty file that step 3 began is dropped by step 5.
  pub finish_new-empty :
      (clock : ClockApi) (uploader : MediaUploader U) (s : Buffer U) {c : CurrentMegaClusterFile}
      → s.current_mega_cluster ≡ some c
      → c.cluster_count ≡ 0
      → finish_new clock uploader s ≡ (ok tt, record s { current_mega_cluster = none })
  unfolding finish_new
  finish_new-empty clock uploader s h e = ground arith

-- The upload of the selected files panicked, or it succeeded, with the new file dropped and nothing
-- but upload errors reported.
Finished : {U : Type 0} → Buffer U → Result (Unit {0}) × Buffer U → Type 0
Finished s r =
    (r.0 ≡ panic)
    ⊎ ((r.0 ≡ ok tt) × (r.1.current_mega_cluster ≡ none) × Reported s.events r.1.events)

module _ {U : Type 0} (clock : ClockApi) (uploader : MediaUploader U) where
  abbrev pub then_finish : Result (Unit {0}) → Buffer U → Result (Unit {0}) × Buffer U
  then_finish r s = elim r [
    | ok _ ↦ finish_new clock uploader s
    | err x ↦ (err x, s)
    | panic ↦ (panic, s)
  ]

  then_finish-Finished :
      (r : Result (Unit {0})) (s₀ s' : Buffer U) {s : Buffer U} {c : CurrentMegaClusterFile}
      → Quiet s (r, s')
      → s.current_mega_cluster ≡ some c
      → c.cluster_count ≡ 0
      → s.events ≡ s₀.events
      → Finished s₀ (then_finish r s')
  unfolding Finished
  then_finish-Finished (ok x) s₀ s' q open_ empty e =
      rw (finish_new-empty clock uploader s' (q.current ∙ open_) empty)
        (inr (refl, refl, Reported-after s'.events e q.reported))
  then_finish-Finished (err x) s₀ s' q open_ empty e = elim q.ended [ inl k ↦ cc | inr k ↦ cc ]
  then_finish-Finished panic s₀ s' q open_ empty e = inl refl

  abbrev pub then_upload :
      List MegaClusterFile → Result (Unit {0}) → Buffer U → Result (Unit {0}) × Buffer U
  then_upload files r s = elim r [
    | ok _ ↦ (let (r', s') = upload_each clock uploader files s in then_finish r' s')
    | err x ↦ (err x, s)
    | panic ↦ (panic, s)
  ]

  then_upload-Finished :
      (files : List MegaClusterFile) (r : Result (Unit {0})) (s' : Buffer U) {s : Buffer U}
      → Begun s (r, s')
      → Finished s (then_upload files r s')
  then_upload-Finished files (ok x) s' {s} b =
      let (c, open_, empty) = b.opened in
      let (r', s'') = upload_each clock uploader files s' in
      then_finish-Finished r' s s'' (upload_each-Quiet clock uploader files s') open_ empty b.events
  then_upload-Finished files (err x) s' b = cc (b.came)
  then_upload-Finished files panic s' b = cc (b.came)

  upload_selected-Finished :
      (files : List MegaClusterFile) (s : Buffer U)
      → IsHealthy s
      → Finished s (upload_selected clock uploader files s)
  unfolding upload_selected Finished
  upload_selected-Finished files s h =
      let s₁ : Buffer U = record s { readings = suc s.readings } in
      let (r, s') = start_new (s.clock s.readings) s₁ in
      then_upload-Finished files r s'
        (start_new-Begun (s.clock s.readings) s₁ h.no_failures (h.after_epoch (suc s.readings)))

-- What the channel has received: upload errors, and then the completion with this flag.
abbrev pub Completed :
    Bool → Option (List BufferManagerEvent) → Option (List BufferManagerEvent) → Type 0
Completed flag none after = after ≡ none
Completed flag (some before) after =
    (errors : List Text) × (after
      ≡ some (before ++ (map upload_error errors ++ (historical_upload_complete flag ∷ []))))

Completed-with_event :
    (flag : Bool) (before after : Option (List BufferManagerEvent))
    → Reported before after
    → Completed flag before (with_event (historical_upload_complete flag) after)
Completed-with_event flag none after h = rw h
Completed-with_event flag (some before) after (errors, h) = (
  errors,
  rw h (
      ap some
        (append_assoc before (map upload_error errors) (historical_upload_complete flag ∷ []))),
)

module _ {U : Type 0} (clock : ClockApi) (uploader : MediaUploader U) where
  -- How the call ended: by a panic, or well, with no file open and the completion reported.
  abbrev pub EndsWell : Bool → Buffer U → Result (Unit {0}) × Buffer U → Type 0
  EndsWell flag s r =
      (r.0 ≡ panic)
      ⊎ ((r.0 ≡ ok tt) × (r.1.current_mega_cluster ≡ none) × Completed flag s.events r.1.events)

  then_complete-EndsWell :
      (flag : Bool) (r : Result (Unit {0})) (s s' : Buffer U)
      → Finished s (r, s')
      → EndsWell flag s (elim r [
        | ok _ ↦ send (historical_upload_complete flag) s'
        | err x ↦ (err x, s')
        | panic ↦ (panic, s')
      ])
  unfolding Finished
  then_complete-EndsWell flag (ok x) s s' (inl p) = cc
  then_complete-EndsWell flag (ok x) s s' (inr (came, shut, reported)) = inr (
    unfold send in ground arith,
    unfold send in ground arith,
    subst (Completed flag s.events) (sym (events-send (historical_upload_complete flag) s'))
        (Completed-with_event flag s.events s'.events reported),
  )
  then_complete-EndsWell flag (err x) s s' (inl p) = cc
  then_complete-EndsWell flag (err x) s s' (inr q) = cc (q.0)
  then_complete-EndsWell flag panic s s' h = inl refl

  abbrev pub then_select :
      Option SystemTime
      → Option SystemTime
      → Result (Unit {0})
      → Buffer U
      → Result (Unit {0}) × Buffer U
  then_select start end r s = elim r [
    | ok _ ↦
        (let files = select (eligible start end) s.mega_cluster_files in
          let (r', s') =
            ((if is_empty files then pure tt else upload_selected clock uploader files) s) in
          elim r' [
            | ok _ ↦ send (historical_upload_complete (is_none end)) s'
            | err x ↦ (err x, s')
            | panic ↦ (panic, s')
          ])
    | err x ↦ (err x, s)
    | panic ↦ (panic, s)
  ]

  selected-Finished :
      (files : List MegaClusterFile) (s : Buffer U)
      → IsHealthy s
      → s.current_mega_cluster ≡ none
      → Finished s ((if is_empty files then pure tt else upload_selected clock uploader files) s)
  unfolding Finished
  selected-Finished [] s h shut = inr (refl, shut, Reported-refl s.events s.events refl)
  selected-Finished (f ∷ files) s h shut = upload_selected-Finished clock uploader (f ∷ files) s h

  then_select-EndsWell :
      (start end : Option SystemTime) (r : Result (Unit {0})) (s : Buffer U)
      → r ≡ ok tt
      → IsHealthy s
      → s.current_mega_cluster ≡ none
      → EndsWell (is_none end) s (then_select start end r s)
  then_select-EndsWell start end (ok x) s came h shut =
      let files = select (eligible start end) s.mega_cluster_files in
      let r = ((if is_empty files then pure tt else upload_selected clock uploader files) s) in
      then_complete-EndsWell (is_none end) r.0 s r.1 (selected-Finished files s h shut)
  then_select-EndsWell start end (err x) s came h shut = cc
  then_select-EndsWell start end panic s came h shut = cc

  -- Where the directory's operations go well and the clock stands behind the epoch,
  -- `trigger_upload_all` never returns an error, whatever the uploader answers: unless a read of
  -- a damaged file or the uploader panics, it returns `Ok`, leaves no file open, and reports
  -- the completion last, with the flag that there is no end of the time range.
  pub trigger_upload_all_ends :
      (start end : Option SystemTime) (s : Buffer U)
      → IsHealthy s
      → EndsWell (is_none end) s (trigger_upload_all clock uploader start end s)
  unfolding trigger_upload_all selected
  trigger_upload_all_ends start end s h =
      let (came, shut, fine_, clock_, events_) = close_current-healthy s h.no_failures in
      let (r, s') = close_current s in
      let healthy : IsHealthy s' = record {
        no_failures = fine_;
        after_epoch = λ n. subst (λ c. unix_epoch ≤ c n) (sym clock_) (h.after_epoch n);
      } in
      subst
        (λ e.
          (then_select start end r s').0 ≡ panic
          ⊎ (((then_select start end r s').0 ≡ ok tt)
              × ((then_select start end r s').1.current_mega_cluster ≡ none)
              × Completed (is_none end) e (then_select start end r s').1.events))
        events_ (then_select-EndsWell start end r s' came healthy shut)
