-- ===== src/Sink/Handoff.antt =====
-- The hand-off of fragments from the pipeline to the worker, and the request for a new session
-- that travels with them, under every interleaving of the two.
pub mod Work
pub mod Frames
pub mod Steps
use mathlib.Core.Path.{subst}
use gst_kvs_sink.Common.{
  ℕ, suc, ◌+◌, ◌≤◌, ◌≡◌, refl, sym, ap, ◌∙◌, Bool, true, false, ◌||◌, ◌&&◌, not, Option, none, some,
  List, [], ◌∷◌, ◌++◌, arith, leb, ltb, leb-false, Bool-cases, is_empty, if◌then◌else◌, length,
  length-append, inl, inr, ◌⊎◌, Text, ok, err, panic, Result, unwrap_or,
}
use gst_kvs_sink.Common.Time.{ClockApi}
use gst_kvs_sink.Fragment.{Fragment}
use gst_kvs_sink.MediaUploader.{MediaUploader}
use gst_kvs_sink.MkvWriter.{Frame, WebmApi, MkvWriter, finalize_fragment}
use gst_kvs_sink.Buffer.World.{BufferManagerEvent, historical_upload_complete, upload_error}
use gst_kvs_sink.Buffer.Upload.{trigger_upload_all}
use gst_kvs_sink.Sink.Settings.{Settings}
use gst_kvs_sink.Sink.State.{
  UploadMode, immediate, buffer_only, UploadItem, Queue, State, Sink, Flow, flow_ok, flow_error,
  flow_panic, fragment_queue_capacity,
}
use gst_kvs_sink.Sink.Render.{
  is_immediate, update_fragment_duration, should_fragment_on_duration, begin_session_reset,
  try_enqueue, with_state, start_fragment, add_frame, begin_if_waiting, finalize_and_enqueue,
  is_kvs_session_expired, at_boundary, render_started, render,
}
use gst_kvs_sink.Sink.Failures.{
  switch_mode, handle_event, handle_events, handle_network_failure, process_buffer_events, received,
  is_network_error_str, recovery_attempt,
}
use gst_kvs_sink.Sink.Worker.{
  buffer_fragment, after_failure, reset_if_tagged, dispatch, process_item, receive, worker_step,
  with_uploader,
}

-- Some item of the queue asks for a new session.
unfoldable pub has_tag : List UploadItem → Bool
has_tag [] = false
has_tag (item ∷ items) = item.starts_new_session || has_tag items

has_tag-append : (xs ys : List UploadItem) → has_tag (xs ++ ys) ≡ (has_tag xs || has_tag ys)
unfolding has_tag
has_tag-append [] ys = refl
has_tag-append (x ∷ xs) ys = ground (arith, has_tag-append xs ys)

-- The channel is open and holds at most its capacity, and a reset that is in flight is asked for,
-- by the next fragment or by one in the queue.
pub record IsReady (st : State) : Type 0 where
  pub queue : Queue
  pub there : st.fragment_tx ≡ some queue
  pub is_open : queue.closed ≡ false
  pub bounded : length queue.items ≤ fragment_queue_capacity
  pub asked :
      st.session_reset_in_flight ≡ true → (st.pending_new_session || has_tag queue.items) ≡ true

-- Two states that agree on the hand-off.
pub record Agrees (st st' : State) : Type 0 where
  pub fragment_tx : st'.fragment_tx ≡ st.fragment_tx
  pub pending : st'.pending_new_session ≡ st.pending_new_session
  pub in_flight : st'.session_reset_in_flight ≡ st.session_reset_in_flight

pub Agrees-IsReady : {st st' : State} → Agrees st st' → IsReady st → IsReady st'
Agrees-IsReady a h = record {
  queue = h.queue;
  there = a.fragment_tx ∙ h.there;
  is_open = h.is_open;
  bounded = h.bounded;
  asked = λ e. ap (λ b. b || has_tag h.queue.items) a.pending ∙ h.asked (sym a.in_flight ∙ e);
}

pub begin_session_reset-IsReady :
    (pts : ℕ) (st : State) → IsReady st → IsReady (begin_session_reset pts st)
unfolding begin_session_reset
begin_session_reset-IsReady pts st h = record {
  queue = h.queue;
  there = h.there;
  is_open = h.is_open;
  bounded = h.bounded;
  asked = λ e. refl;
}

-- What the fragment finds behind the queue that it is put in.
abbrev put_behind : UploadItem → Queue → Queue
put_behind item q = record q { items = q.items ++ (item ∷ []) }

try_enqueue-full :
    (f : Fragment) (st : State) {q : Queue}
    → st.fragment_tx ≡ some q
    → q.closed ≡ false
    → leb fragment_queue_capacity (length q.items) ≡ true
    → try_enqueue f st ≡ (flow_ok, record st { dropped_fragments = st.dropped_fragments + 1 })
unfolding try_enqueue
try_enqueue-full f st there open_ full = ground arith

try_enqueue-room :
    (f : Fragment) (st : State) {q : Queue}
    → st.fragment_tx ≡ some q
    → q.closed ≡ false
    → leb fragment_queue_capacity (length q.items) ≡ false
    → try_enqueue f st ≡ (
      flow_ok,
      record st {
        fragment_tx = some (
            put_behind
              (record {
                fragment = f;
                mode = st.current_mode;
                starts_new_session = st.pending_new_session;
              })
              q);
        pending_new_session = false;
      },
    )
unfolding try_enqueue
try_enqueue-room f st there open_ room = ground arith

-- The request moves from the state into the queue.
moved : (a b : Bool) → (a || b) ≡ true → (b || (a || false)) ≡ true
moved true true h = refl
moved true false h = refl
moved false b h = ground arith

pub try_enqueue-IsReady : (f : Fragment) (st : State) → IsReady st → IsReady (try_enqueue f st).1
unfolding has_tag
try_enqueue-IsReady f st h =
    elim (Bool-cases (leb fragment_queue_capacity (length h.queue.items))) [
      | inl full ↦ rw (try_enqueue-full f st h.there h.is_open full) (record {
        queue = h.queue;
        there = h.there;
        is_open = h.is_open;
        bounded = h.bounded;
        asked = h.asked;
      })
      | inr room ↦
          let item : UploadItem = record {
            fragment = f;
            mode = st.current_mode;
            starts_new_session = st.pending_new_session;
          } in
          rw (try_enqueue-room f st h.there h.is_open room) (record {
            queue = put_behind item h.queue;
            there = refl;
            is_open = h.is_open;
            bounded = ground (arith, length-append h.queue.items (item ∷ []));
            asked = λ e.
                rw (has_tag-append h.queue.items (item ∷ []))
                  (moved st.pending_new_session (has_tag h.queue.items) (h.asked e));
          })
    ]

switch_mode-Agrees : (m : UploadMode) (st : State) → Agrees st (switch_mode m st)
unfolding switch_mode
switch_mode-Agrees m st = record { fragment_tx = refl; pending = refl; in_flight = refl }

handle_event-IsReady :
    (e : BufferManagerEvent) (st : State) → IsReady st → IsReady (handle_event e st)
unfolding handle_event switch_mode
handle_event-IsReady (historical_upload_complete true) st h =
    Agrees-IsReady (record { fragment_tx = refl; pending = refl; in_flight = refl }) h
handle_event-IsReady (historical_upload_complete false) st h =
    Agrees-IsReady (switch_mode-Agrees buffer_only st) h
handle_event-IsReady (upload_error e) st h = h

handle_events-IsReady :
    (es : List BufferManagerEvent) (st : State) → IsReady st → IsReady (handle_events es st)
unfolding handle_events
handle_events-IsReady [] st h = h
handle_events-IsReady (e ∷ es) st h =
    handle_events-IsReady es (handle_event e st) (handle_event-IsReady e st h)

pub begin_if_waiting-Agrees : (frame : Frame) (st : State) → Agrees st (begin_if_waiting frame st)
unfolding begin_if_waiting start_fragment
begin_if_waiting-Agrees frame st = record {
  fragment_tx = ground arith;
  pending = ground arith;
  in_flight = ground arith;
}

-- A test that chooses between two states that are ready.
pub IsReady-if :
    {U : Type 0} (b : Bool) (s t : Sink U)
    → IsReady s.state
    → IsReady t.state
    → IsReady (if b then s else t).state
IsReady-if true s t h k = h
IsReady-if false s t h k = k

-- A test that chooses between two results whose states are ready.
pub IsReady-result :
    {A U : Type 0} (b : Bool) (r r' : A × Sink U)
    → IsReady r.1.state
    → IsReady r'.1.state
    → IsReady (if b then r else r').1.state
IsReady-result true r r' h k = h
IsReady-result false r r' h k = k

module _ {U : Type 0} where
  pub process_buffer_events-IsReady :
      (s : Sink U) → IsReady s.state → IsReady (process_buffer_events s).state
  unfolding process_buffer_events
  process_buffer_events-IsReady s h =
      IsReady-if s.state.has_buffer_event_rx _ s
        (handle_events-IsReady (received s.buffer.events) s.state h) h

  handle_network_failure-Agrees : (s : Sink U) → Agrees s.state (handle_network_failure s).state
  unfolding handle_network_failure
  handle_network_failure-Agrees s = record {
    fragment_tx = ground arith;
    pending = ground arith;
    in_flight = ground arith;
  }

  after_failure-Agrees : (e : Text) (s : Sink U) → Agrees s.state (after_failure e s).state
  unfolding after_failure handle_network_failure
  after_failure-Agrees e s = record {
    fragment_tx = ground arith;
    pending = ground arith;
    in_flight = ground arith;
  }
