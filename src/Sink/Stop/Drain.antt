-- ===== src/Sink/Stop/Drain.antt =====
-- That the worker gets through its queue.
use gst_kvs_sink.Common.{
  ℕ, zero, suc, ◌≤◌, ◌≡◌, ◌≢◌, refl, ap, ◌∙◌, Bool, true, false, Option, none, some, List, [], ◌∷◌,
  arith, length, panic,
}
use gst_kvs_sink.Common.Time.{ClockApi}
use gst_kvs_sink.Fragment.{Fragment}
use gst_kvs_sink.MediaUploader.{MediaUploader}
use gst_kvs_sink.Sink.State.{UploadMode, immediate, buffer_only, UploadItem, Queue, Sink}
use gst_kvs_sink.Sink.Render.{with_state}
use gst_kvs_sink.Sink.Worker.{
  reset_if_tagged, reset_returns, dispatch, process_item, process_item_cases, worker_step,
}
use gst_kvs_sink.Sink.Handoff.Work.{taken, receive_lem, dispatch-Agrees}
use gst_kvs_sink.Sink.Stop.{worker_rounds}

module _ {U : Type 0} (clock : ClockApi) (uploader : MediaUploader U) where
  dispatch_goes_on :
      (m : UploadMode) (f : Fragment) (s : Sink U)
      → ((f : Fragment) (u : U) → (uploader.put_fragment f u).0 ≢ panic)
      → (dispatch clock uploader m f s).0 ≡ true
  unfolding dispatch
  dispatch_goes_on buffer_only f s sound = refl
  dispatch_goes_on immediate f s sound = ground (arith, sound f s.buffer.uploader)

  reset_if_tagged_queue :
      (tag : Bool) (s : Sink U)
      → (reset_if_tagged clock uploader tag s).state.fragment_tx ≡ s.state.fragment_tx
  unfolding reset_if_tagged
  reset_if_tagged_queue true s = ground arith
  reset_if_tagged_queue false s = refl

  process_item_queue :
      (item : UploadItem) (s : Sink U)
      → (process_item clock uploader item s).1.state.fragment_tx ≡ s.state.fragment_tx
  process_item_queue item s =
      let s' = reset_if_tagged clock uploader item.starts_new_session s in
      process_item_cases clock uploader (λ r. r.1.state.fragment_tx ≡ s.state.fragment_tx) item s
        (λ came.
          (dispatch-Agrees clock uploader item.mode item.fragment s').fragment_tx
          ∙ reset_if_tagged_queue item.starts_new_session s)
        (λ gone. reset_if_tagged_queue item.starts_new_session s)

  reset_returns_sound :
      (tag : Bool) (s : Sink U)
      → ((u : U) → (uploader.reset_session u).0 ≢ panic)
      → reset_returns clock uploader tag s ≡ true
  unfolding reset_returns
  reset_returns_sound false s sound = refl
  reset_returns_sound true s sound = ground (arith, sound s.buffer.uploader)

  process_item_goes_on :
      (item : UploadItem) (s : Sink U)
      → ((f : Fragment) (u : U) → (uploader.put_fragment f u).0 ≢ panic)
      → ((u : U) → (uploader.reset_session u).0 ≢ panic)
      → (process_item clock uploader item s).0 ≡ true
  process_item_goes_on item s sound resets =
      process_item_cases clock uploader (λ r. r.0 ≡ true) item s
        (λ came.
          dispatch_goes_on item.mode item.fragment
            (reset_if_tagged clock uploader item.starts_new_session s) sound)
        (λ gone. cc (gone, reset_returns_sound item.starts_new_session s resets))

  abbrev pub then_rounds : ℕ → Option (Bool × Sink U) → Sink U → Sink U
  then_rounds n o s = elim o [
    | none ↦ s
    | some (more, s') ↦ elim more [ true ↦ worker_rounds clock uploader n s' | false ↦ s' ]
  ]

  abbrev pub without : List UploadItem → Queue → Sink U → Sink U
  without items q s =
      with_state (record (s.state) { fragment_tx = some (record q { items = items }) }) s

  pub worker_step_lem :
      (items : List UploadItem) (s : Sink U) (q : Queue)
      → s.state.fragment_tx ≡ some q
      → q.items ≡ items
      → worker_step clock uploader s ≡ elim (taken clock uploader items q s) [
        | none ↦ none
        | some (item, s') ↦ some (process_item clock uploader item s')
      ]
  unfolding worker_step
  worker_step_lem items s q there e =
      ap
        (λ o. elim o [ none ↦ none | some (item, s') ↦ some (process_item clock uploader item s') ])
        (receive_lem clock uploader s q there ∙ ap (λ l. taken clock uploader l q s) e)

  -- Where the uploader never panics: the worker gets through a queue in as many rounds as it has
  -- items, so that nothing that was handed off is left in it.
  pub worker_rounds_empties :
      (n : ℕ) (items : List UploadItem) (s : Sink U) (q : Queue)
      → ((f : Fragment) (u : U) → (uploader.put_fragment f u).0 ≢ panic)
      → ((u : U) → (uploader.reset_session u).0 ≢ panic)
      → s.state.fragment_tx ≡ some q
      → q.items ≡ items
      → length items ≤ n
      → (worker_rounds clock uploader n s).state.fragment_tx ≡ some (record q { items = [] })
  unfolding worker_rounds
  worker_rounds_empties zero [] s q sound resets there e le =
      there ∙ ap (λ l. some (record q { items = l })) e
  worker_rounds_empties zero (item ∷ items) s q sound resets there e le = absurd (omega arith)
  worker_rounds_empties (suc n) [] s q sound resets there e le =
      ap (λ o. (then_rounds n o s).state.fragment_tx) (worker_step_lem [] s q there e)
      ∙ (there ∙ ap (λ l. some (record q { items = l })) e)
  worker_rounds_empties (suc n) (item ∷ items) s q sound resets there e le =
      let s' = without items q s in
      let r = process_item clock uploader item s' in
      ap (λ o. (then_rounds n o s).state.fragment_tx) (worker_step_lem (item ∷ items) s q there e)
      ∙ (ap (λ more. (then_rounds n (some (more, r.1)) s).state.fragment_tx)
            (process_item_goes_on item s' sound resets)
          ∙ worker_rounds_empties n items r.1 (record q { items = items }) sound resets
              (process_item_queue item s') refl (omega arith))
