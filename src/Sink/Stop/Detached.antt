-- ===== src/Sink/Stop/Detached.antt =====
-- The recovery task that `stop` leaves behind.
use mathlib.Core.Path.{subst}
use gst_kvs_sink.Common.{
  ℕ, zero, suc, ◌≡◌, refl, sym, ap, ◌∙◌, Bool, true, false, Option, none, some, List, [], ◌∷◌,
  arith, Text, ok, err, panic, Option-cases, inl, inr, if◌then◌else◌,
}
use gst_kvs_sink.Common.Time.{ClockApi}
use gst_kvs_sink.Fragment.{Fragment}
use gst_kvs_sink.MediaUploader.{MediaUploader}
use gst_kvs_sink.Buffer.World.{Buffer}
use gst_kvs_sink.Sink.State
use gst_kvs_sink.Sink.State.{UploadMode, immediate, buffer_only, UploadItem, Queue, State, Sink}
use gst_kvs_sink.Sink.Failures.{is_network_error_str, handle_network_failure}
use gst_kvs_sink.Sink.Worker.{
  buffer_fragment, after_failure, reset_if_tagged, reset_returns, dispatch, process_item,
  process_item_cases, receive, worker_step,
}
use gst_kvs_sink.Sink.Signals.{cancel_recovery_task}
use gst_kvs_sink.Sink.Handoff.Work.{taken}
use gst_kvs_sink.Sink.Stop.{worker_rounds, stop}
use gst_kvs_sink.Sink.Stop.Drain.{then_rounds, without, worker_step_lem}

module _ {U : Type 0} (clock : ClockApi) (uploader : MediaUploader U) where
  reset_if_tagged_task :
      (tag : Bool) (s : Sink U)
      → ((reset_if_tagged clock uploader tag s).state.recovery_task ≡ s.state.recovery_task)
        × ((reset_if_tagged clock uploader tag s).state.has_buffer_manager
            ≡ s.state.has_buffer_manager)
  unfolding reset_if_tagged
  reset_if_tagged_task true s = (ground arith, ground arith)
  reset_if_tagged_task false s = (refl, refl)

  dispatch_task :
      (m : UploadMode) (f : Fragment) (s : Sink U)
      → s.state.recovery_task ≡ true
      → (dispatch clock uploader m f s).1.state.recovery_task ≡ true
  unfolding dispatch buffer_fragment after_failure handle_network_failure
  dispatch_task buffer_only f s e = e
  dispatch_task immediate f s e = ground arith

  -- Nothing in a round of the worker ends a recovery task.
  process_item_task :
      (item : UploadItem) (s : Sink U)
      → s.state.recovery_task ≡ true
      → (process_item clock uploader item s).1.state.recovery_task ≡ true
  process_item_task item s e =
      let kept = (reset_if_tagged_task item.starts_new_session s).0 ∙ e in
      process_item_cases clock uploader (λ r. r.1.state.recovery_task ≡ true) item s
        (λ came.
          dispatch_task item.mode item.fragment
            (reset_if_tagged clock uploader item.starts_new_session s) kept)
        (λ gone. kept)

  abbrev Runs : Option (Bool × Sink U) → Type 0
  Runs none = Unit
  Runs (some (more, s)) = s.state.recovery_task ≡ true

  abbrev processed : Option (UploadItem × Sink U) → Option (Bool × Sink U)
  processed o = elim o [ none ↦ none | some (item, s) ↦ some (process_item clock uploader item s) ]

  processed-Runs :
      (items : List UploadItem) (q : Queue) (s : Sink U)
      → s.state.recovery_task ≡ true
      → Runs (processed (taken clock uploader items q s))
  processed-Runs [] q s e = tt
  processed-Runs (item ∷ items) q s e = process_item_task item (without clock uploader items q s) e

  worker_step-none : (s : Sink U) → s.state.fragment_tx ≡ none → worker_step clock uploader s ≡ none
  unfolding worker_step receive
  worker_step-none s e = ground arith

  worker_step-Runs :
      (s : Sink U) → s.state.recovery_task ≡ true → Runs (worker_step clock uploader s)
  worker_step-Runs s e = elim (Option-cases s.state.fragment_tx) [
    | inl gone ↦ rw (worker_step-none s gone) tt
    | inr (q, there) ↦
        subst Runs (sym (worker_step_lem clock uploader q.items s q there refl))
          (processed-Runs q.items q s e)
  ]

  then_rounds_task :
      (n : ℕ) (o : Option (Bool × Sink U)) (s : Sink U)
      → ((t : Sink U)
          → t.state.recovery_task ≡ true
          → (worker_rounds clock uploader n t).state.recovery_task ≡ true)
      → s.state.recovery_task ≡ true
      → Runs o
      → (then_rounds clock uploader n o s).state.recovery_task ≡ true
  then_rounds_task n none s later e h = e
  then_rounds_task n (some (true, t)) s later e h = later t h
  then_rounds_task n (some (false, t)) s later e h = h

  worker_rounds_task :
      (n : ℕ) (s : Sink U)
      → s.state.recovery_task ≡ true
      → (worker_rounds clock uploader n s).state.recovery_task ≡ true
  unfolding worker_rounds
  worker_rounds_task zero s e = e
  worker_rounds_task (suc n) s e =
      then_rounds_task n (worker_step clock uploader s) s (worker_rounds_task n) e
        (worker_step-Runs s e)

  then_some_task :
      (n : ℕ) (more : Bool) (t s : Sink U)
      → t.state.recovery_task ≡ true
      → (then_rounds clock uploader n (some (more, t)) s).state.recovery_task ≡ true
  then_some_task n true t s h = worker_rounds_task n t h
  then_some_task n false t s h = h

  -- A direct upload that fails with a network error spawns the task.
  dispatch_spawns :
      (f : Fragment) (s : Sink U) {e : Text}
      → (uploader.put_fragment f s.buffer.uploader).0 ≡ err e
      → is_network_error_str e ≡ true
      → s.state.has_buffer_manager ≡ true
      → s.state.recovery_task ≡ false
      → ((dispatch clock uploader immediate f s).1.state.recovery_task ≡ true)
        × ((dispatch clock uploader immediate f s).0 ≡ true)
  unfolding dispatch buffer_fragment after_failure handle_network_failure
  dispatch_spawns f s failed network manager calm = (ground arith, ground arith)

  process_item_spawns :
      (item : UploadItem) (s : Sink U) {e : Text}
      → item.mode ≡ immediate
      → reset_returns clock uploader item.starts_new_session s ≡ true
      → (uploader.put_fragment item.fragment
          (reset_if_tagged clock uploader item.starts_new_session s).buffer.uploader).0
        ≡ err e
      → is_network_error_str e ≡ true
      → s.state.has_buffer_manager ≡ true
      → s.state.recovery_task ≡ false
      → ((process_item clock uploader item s).1.state.recovery_task ≡ true)
        × ((process_item clock uploader item s).0 ≡ true)
  unfolding process_item
  process_item_spawns item s live came failed network manager calm =
      let (task, held) = reset_if_tagged_task item.starts_new_session s in
      rw (live, came)
        (dispatch_spawns item.fragment (reset_if_tagged clock uploader item.starts_new_session s)
          failed network (held ∙ manager) (task ∙ calm))

  worker_rounds_spawns :
      (n : ℕ) (item : UploadItem) (items : List UploadItem) (s : Sink U) {q : Queue} {e : Text}
      → s.state.fragment_tx ≡ some q
      → q.items ≡ item ∷ items
      → item.mode ≡ immediate
      → reset_returns clock uploader item.starts_new_session (without clock uploader items q s)
        ≡ true
      → (uploader.put_fragment item.fragment
          (reset_if_tagged clock uploader item.starts_new_session
            (without clock uploader items q s)).buffer.uploader).0
        ≡ err e
      → is_network_error_str e ≡ true
      → s.state.has_buffer_manager ≡ true
      → s.state.recovery_task ≡ false
      → (worker_rounds clock uploader (suc n) s).state.recovery_task ≡ true
  unfolding worker_rounds
  worker_rounds_spawns n item items s {q} there e live came failed network manager calm =
      let s' = without clock uploader items q s in
      let (spawned, more) = process_item_spawns item s' live came failed network manager calm in
      ap (λ o. (then_rounds clock uploader n o s).state.recovery_task)
        (worker_step_lem clock uploader (item ∷ items) s q there e)
      ∙ then_some_task n (process_item clock uploader item s').0
          (process_item clock uploader item s').1 s spawned

  cancel_recovery_task_lem :
      (s : Sink U)
      → ((cancel_recovery_task s).1.state.recovery_task ≡ false)
        × ((cancel_recovery_task s).1.state.upload_task ≡ s.state.upload_task)
        × ((cancel_recovery_task s).1.state.has_buffer_manager ≡ s.state.has_buffer_manager)
        × ((cancel_recovery_task s).1.state.fragment_tx ≡ s.state.fragment_tx)
        × ((cancel_recovery_task s).1.buffer ≡ s.buffer)
  unfolding cancel_recovery_task
  cancel_recovery_task_lem s =
      (ground arith, ground arith, ground arith, ground arith, ground arith)

  reset_if_tagged_uploader :
      (tag : Bool) (s t : Sink U)
      → t.buffer ≡ s.buffer
      → (reset_if_tagged clock uploader tag t).buffer.uploader
        ≡ (reset_if_tagged clock uploader tag s).buffer.uploader
  unfolding reset_if_tagged
  reset_if_tagged_uploader true s t e = ground arith
  reset_if_tagged_uploader false s t e = ap (λ (b : Buffer U). b.uploader) e

  reset_if_tagged_returns :
      (tag : Bool) (s t : Sink U)
      → t.buffer ≡ s.buffer
      → reset_returns clock uploader tag t ≡ reset_returns clock uploader tag s
  unfolding reset_returns
  reset_if_tagged_returns true s t e =
      ap
        (λ (b : Buffer U). elim (uploader.reset_session b.uploader).0 [
          | ok _ ↦ true
          | err x ↦ true
          | panic ↦ false
        ])
        e
  reset_if_tagged_returns false s t e = refl

  -- The state that `stop` leaves is fresh. Where the next fragment of the queue is to be sent
  -- directly, a session reset before it does not panic, and the sending fails with a network error while the worker drains its queue: `stop`
  -- leaves a recovery task behind, which it neither cancelled nor keeps a handle of, whether one
  -- was running before or not.
  pub stop_detaches :
      (n : ℕ) (item : UploadItem) (items : List UploadItem) (s : Sink U) {q : Queue} {e : Text}
      → s.state.upload_task ≡ true
      → s.state.has_buffer_manager ≡ true
      → s.state.fragment_tx ≡ some q
      → q.items ≡ item ∷ items
      → item.mode ≡ immediate
      → reset_returns clock uploader item.starts_new_session s ≡ true
      → (uploader.put_fragment item.fragment
          (reset_if_tagged clock uploader item.starts_new_session s).buffer.uploader).0
        ≡ err e
      → is_network_error_str e ≡ true
      → ((stop clock uploader (suc n) s).0 ≡ true)
        × ((stop clock uploader (suc n) s).1.state ≡ State.default)
  unfolding stop
  stop_detaches n item items s {q} task manager there e live came failed network =
      let t = (cancel_recovery_task s).1 in
      let (calm, same_task, same_manager, same_tx, same) = cancel_recovery_task_lem s in
      (
        ap
              (λ (b : Bool).
                (if b then worker_rounds clock uploader (suc n) t else t).state.recovery_task)
              (same_task ∙ task)
            ∙ worker_rounds_spawns n item items t (same_tx ∙ there) e live
                (reset_if_tagged_returns item.starts_new_session s
                    (without clock uploader items q t) same
                  ∙ came)
                (ap (λ u. (uploader.put_fragment item.fragment u).0)
                    (reset_if_tagged_uploader item.starts_new_session s
                      (without clock uploader items q t) same)
                  ∙ failed)
                network (same_manager ∙ manager) calm,
        refl,
      )
