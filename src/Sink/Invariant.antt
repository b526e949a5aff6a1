-- ===== src/Sink/Invariant.antt =====
-- What holds of the element's state between any two calls of its tasks that do not overlap: the
-- fragment duration is that of the mode, a fragment begins with a key frame, and a recovery task
-- has a failure behind it.
pub mod Work
pub mod Frames
pub mod Steps
use gst_kvs_sink.Common.{
  ℕ, suc, ◌+◌, ◌≤◌, ◌≡◌, refl, sym, ap, ◌∙◌, Bool, true, false, not, ◌&&◌, Option, none, some, List,
  [], ◌∷◌, ◌++◌, arith, if◌then◌else◌, is_empty, inl, inr, ◌⊎◌, Result, ok, err, panic, Text,
  unwrap_or,
}
use gst_kvs_sink.Common.Time.{ClockApi}
use gst_kvs_sink.Fragment.{Fragment}
use gst_kvs_sink.MediaUploader.{MediaUploader}
use gst_kvs_sink.MkvWriter.{Frame, WebmApi, MkvWriter, finalize_fragment}
use gst_kvs_sink.Buffer.World.{BufferManagerEvent, historical_upload_complete, upload_error}
use gst_kvs_sink.Sink.State.{
  UploadMode, immediate, buffer_only, State, Sink, Flow, flow_ok, flow_error, flow_panic,
}
use gst_kvs_sink.Sink.Render.{
  mode_duration, is_immediate, update_fragment_duration, try_enqueue, with_state, start_fragment,
  add_frame, begin_if_waiting, begin_session_reset, finalize_and_enqueue, is_kvs_session_expired,
  should_fragment_on_duration, at_boundary, render_started, render,
}
use gst_kvs_sink.Sink.Failures.{
  switch_mode, handle_event, handle_events, handle_network_failure, process_buffer_events, received,
  is_network_error_str,
}

-- The frames of the current fragment: none while the element waits, or else a key frame first.
abbrev pub BeginsWithKey : Bool → List Frame → Type 0
BeginsWithKey waiting [] = waiting ≡ true
BeginsWithKey waiting (f ∷ fs) = (waiting ≡ false) × (f.delta_unit ≡ false)

pub record IsCoherent {U : Type 0} (s : Sink U) : Type 0 where
  pub duration : s.settings.fragment_duration ≡ mode_duration s.state.current_mode
  pub frames : BeginsWithKey s.state.waiting_for_keyframe s.state.current_fragment_frames
  pub counted : s.state.recovery_task ≡ true → 1 ≤ s.state.consecutive_failures

-- A step that changes none of what the invariant speaks of.
pub record Keeps {U : Type 0} (s t : Sink U) : Type 0 where
  pub duration : t.settings.fragment_duration ≡ s.settings.fragment_duration
  pub mode : t.state.current_mode ≡ s.state.current_mode
  pub waiting : t.state.waiting_for_keyframe ≡ s.state.waiting_for_keyframe
  pub frames : t.state.current_fragment_frames ≡ s.state.current_fragment_frames
  pub task : t.state.recovery_task ≡ s.state.recovery_task
  pub failures : t.state.consecutive_failures ≡ s.state.consecutive_failures

pub Keeps-IsCoherent : {U : Type 0} (s t : Sink U) → Keeps s t → IsCoherent s → IsCoherent t
Keeps-IsCoherent s t k h = record {
  duration = k.duration ∙ h.duration ∙ ap mode_duration (sym k.mode);
  frames = rw (k.waiting, k.frames) h.frames;
  counted = λ e. rw k.failures (h.counted (sym k.task ∙ e));
}

-- A test that chooses between two states that are coherent.
pub IsCoherent-if :
    {U : Type 0} (b : Bool) (s t : Sink U)
    → IsCoherent s
    → IsCoherent t
    → IsCoherent (if b then s else t)
IsCoherent-if true s t h k = h
IsCoherent-if false s t h k = k

pub IsCoherent-result :
    {A U : Type 0} (b : Bool) (r r' : A × Sink U)
    → IsCoherent r.1
    → IsCoherent r'.1
    → IsCoherent (if b then r else r').1
IsCoherent-result true r r' h k = h
IsCoherent-result false r r' h k = k

-- Two states of which the second differs only in what the events of the buffer change.
record Counts (st st' : State) : Type 0 where
  mode : st'.current_mode ≡ st.current_mode
  waiting : st'.waiting_for_keyframe ≡ st.waiting_for_keyframe
  frames : st'.current_fragment_frames ≡ st.current_fragment_frames
  counted :
      (st.recovery_task ≡ true → 1 ≤ st.consecutive_failures)
      → st'.recovery_task ≡ true
      → 1 ≤ st'.consecutive_failures

handle_event-Counts : (e : BufferManagerEvent) (st : State) → Counts st (handle_event e st)
unfolding handle_event switch_mode is_immediate
handle_event-Counts (historical_upload_complete true) st = record {
  mode = refl;
  waiting = refl;
  frames = refl;
  counted = λ h e. cc;
}
handle_event-Counts (historical_upload_complete false) st = record {
  mode = refl;
  waiting = refl;
  frames = refl;
  counted = λ h e. h e;
}
handle_event-Counts (upload_error x) st = record {
  mode = refl;
  waiting = refl;
  frames = refl;
  counted = λ h e. h e;
}

handle_events-Counts : (es : List BufferManagerEvent) (st : State) → Counts st (handle_events es st)
unfolding handle_events
handle_events-Counts [] st = record {
  mode = refl;
  waiting = refl;
  frames = refl;
  counted = λ h e. h e;
}
handle_events-Counts (e ∷ es) st =
    let a = handle_event-Counts e st in
    let b = handle_events-Counts es (handle_event e st) in
    record {
      mode = b.mode ∙ a.mode;
      waiting = b.waiting ∙ a.waiting;
      frames = b.frames ∙ a.frames;
      counted = λ h. b.counted (a.counted h);
    }

module _ {U : Type 0} where
  pub process_buffer_events-IsCoherent :
      (s : Sink U) → IsCoherent s → IsCoherent (process_buffer_events s)
  unfolding process_buffer_events
  process_buffer_events-IsCoherent s h =
      let c = handle_events-Counts (received s.buffer.events) s.state in
      IsCoherent-if s.state.has_buffer_event_rx _ s
        (record {
          duration = h.duration ∙ ap mode_duration (sym c.mode);
          frames = rw (c.waiting, c.frames) h.frames;
          counted = c.counted h.counted;
        })
        h

  pub handle_network_failure-IsCoherent :
      (s : Sink U) → IsCoherent s → IsCoherent (handle_network_failure s)
  unfolding handle_network_failure update_fragment_duration
  handle_network_failure-IsCoherent s h =
      IsCoherent-if s.state.recovery_task s _ h
        (record { duration = refl; frames = h.frames; counted = λ e. omega arith })
