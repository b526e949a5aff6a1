-- ===== src/Kvs/Connection/Health.antt =====
-- When `send_fragment` accepts a fragment.
use mathlib.Core.Path.{subst}
use gst_kvs_sink.Common.{
  suc, List, [], ◌∷◌, ◌+◌, ◌<◌, ℕ, ◌≡◌, ◌≢◌, ◌↔◌, refl, sym, ap, ◌∙◌, Bool, true, false, Bool-cases,
  Option, Option-cases, none, some, arith, ltb, inl, inr, ◌⊎◌, Result, ok, err, panic, codes,
}
use gst_kvs_sink.Fragment.{Fragment}
use gst_kvs_sink.Common.Time.{Instant}
use gst_kvs_sink.Kvs.Acks.{
  AckEventType, KvsAcknowledgment, buffering, received, persisted, error, idle,
}
use gst_kvs_sink.Kvs.Connection.{
  apply_ack, apply_acks, trim_status, Sender, KvsConnection, Monitor, waiting, done, elapsed_secs,
  send_bytes, send_both, process_acknowledgments, check_stale, check_connection_health,
  send_checked, send_fragment,
}
use gst_kvs_sink.Kvs.Connection.Fresh.{send_checked-open, then_checked}

send_both_ok :
    (b : Bool) (f : Fragment) (ch : Sender) → (send_both b f ch).0 ≡ ok tt → ch.closed ≡ false
unfolding send_both send_bytes
send_both_ok true f ch h = ground arith
send_both_ok false f ch h = ground arith

-- Which reading of the clock the acknowledgments behind this one are taken at: the service's report
-- that it idles takes two.
abbrev next_reading : AckEventType → ℕ → ℕ
next_reading buffering n = suc n
next_reading received n = suc n
next_reading persisted n = suc n
next_reading error n = suc n
next_reading idle n = suc (suc n)

-- When the last of these acknowledgments was taken, from this reading of the clock on; and the last
-- report that the service idles, at the second reading of its two.
abbrev pub heard_at : (ℕ → Instant) → List KvsAcknowledgment → ℕ → Instant → Instant
heard_at clock [] n t = t
heard_at clock (a ∷ as_) n t = heard_at clock as_ (next_reading a.event_type n) (clock n)

abbrev idle_after : (ℕ → Instant) → AckEventType → ℕ → Option Instant → Option Instant
idle_after clock buffering n o = o
idle_after clock received n o = o
idle_after clock persisted n o = o
idle_after clock error n o = o
idle_after clock idle n o = some (clock (suc n))

abbrev pub idle_at : (ℕ → Instant) → List KvsAcknowledgment → ℕ → Option Instant → Option Instant
idle_at clock [] n o = o
idle_at clock (a ∷ as_) n o =
    idle_at clock as_ (next_reading a.event_type n) (idle_after clock a.event_type n o)

-- What the health check accepts, by the times of the last acknowledgments.
abbrev pub IsRecent : (ℕ → Instant) → ℕ → Instant → Option Instant → Type 0
IsRecent clock n t o =
    (clock n < t + 31_000_000_000)
    ⊎ ((t' : Instant) × (o ≡ some t') × (clock (suc n) < t' + 31_000_000_000))

module _ {N : Type 0} where
  -- When the service was heard of last, with the acknowledgments that wait: by one of them, or else
  -- as was known before.
  abbrev pub last_heard : KvsConnection N → Instant
  last_heard k = elim k.ack_receiver [
    | none ↦ k.last_ack_time
    | some acks ↦ heard_at k.clock acks k.readings k.last_ack_time
  ]

  abbrev pub last_idle : KvsConnection N → Option Instant
  last_idle k = elim k.ack_receiver [
    | none ↦ k.last_idle_time
    | some acks ↦ idle_at k.clock acks k.readings k.last_idle_time
  ]

  -- The service has been heard of less than 31 seconds ago, which is within 30 whole seconds: by an
  -- acknowledgment, or else by one that it idles. `n` is the reading of the clock at this test.
  abbrev pub WasHeard : KvsConnection N → ℕ → Type 0
  WasHeard k n = IsRecent k.clock n (last_heard k) (last_idle k)

  -- The response has not ended, the service has been heard of, and the channel is open.
  pub record IsAlive (k : KvsConnection N) : Type 0 where
    pub running : k.connection_monitor ≢ some done
    pub heard : WasHeard k (process_acknowledgments k).readings
    pub channel : Sender
    pub there : k.fragment_sender ≡ some channel
    pub is_open : channel.closed ≡ false

  -- What the acknowledgments change of what the health check reads.
  record Heard (t : Instant) (o : Option Instant) (k k' : KvsConnection N) : Type 0 where
    clock : k'.clock ≡ k.clock
    monitor : k'.connection_monitor ≡ k.connection_monitor
    sender : k'.fragment_sender ≡ k.fragment_sender
    heard : k'.last_ack_time ≡ t
    idles : k'.last_idle_time ≡ o

  apply_ack-Heard :
      (a : KvsAcknowledgment) (k : KvsConnection N)
      → Heard
          (k.clock k.readings)
          (idle_after k.clock a.event_type k.readings k.last_idle_time)
          k
          (apply_ack a k)
  unfolding apply_ack
  apply_ack-Heard a k = record {
    clock = ground arith;
    monitor = ground arith;
    sender = ground arith;
    heard = ground arith;
    idles = ground arith;
  }

  apply_ack_readings :
      (a : KvsAcknowledgment) (k : KvsConnection N)
      → (apply_ack a k).readings ≡ next_reading a.event_type k.readings
  unfolding apply_ack
  apply_ack_readings a k = ground arith

  apply_acks-Heard :
      (acks : List KvsAcknowledgment) (k : KvsConnection N)
      → Heard
          (heard_at k.clock acks k.readings k.last_ack_time)
          (idle_at k.clock acks k.readings k.last_idle_time)
          k
          (apply_acks acks k)
  unfolding apply_acks
  apply_acks-Heard [] k = record {
    clock = refl;
    monitor = refl;
    sender = refl;
    heard = refl;
    idles = refl;
  }
  apply_acks-Heard (a ∷ acks) k =
      let k' = apply_ack a k in
      let one = apply_ack-Heard a k in
      let n = apply_ack_readings a k in
      let rest = apply_acks-Heard acks k' in
      record {
        clock = rest.clock ∙ one.clock;
        monitor = rest.monitor ∙ one.monitor;
        sender = rest.sender ∙ one.sender;
        heard =
            rest.heard
            ∙ ap (λ c. heard_at c acks k'.readings k'.last_ack_time) one.clock
            ∙ ap (λ r. heard_at k.clock acks r k'.last_ack_time) n
            ∙ ap (heard_at k.clock acks (next_reading a.event_type k.readings)) one.heard;
        idles =
            rest.idles
            ∙ ap (λ c. idle_at c acks k'.readings k'.last_idle_time) one.clock
            ∙ ap (λ r. idle_at k.clock acks r k'.last_idle_time) n
            ∙ ap (idle_at k.clock acks (next_reading a.event_type k.readings)) one.idles;
      }

  trim_status-Heard :
      (k : KvsConnection N) → Heard k.last_ack_time k.last_idle_time k (trim_status k)
  unfolding trim_status
  trim_status-Heard k = record {
    clock = ground arith;
    monitor = ground arith;
    sender = ground arith;
    heard = ground arith;
    idles = ground arith;
  }

  abbrev drained : Option (List KvsAcknowledgment) → KvsConnection N → KvsConnection N
  drained o k = elim o [
    | none ↦ k
    | some acks ↦ trim_status (apply_acks acks (record k { ack_receiver = some [] }))
  ]

  drained-Heard :
      (o : Option (List KvsAcknowledgment)) (k : KvsConnection N)
      → Heard
          (elim o [
            | none ↦ k.last_ack_time
            | some acks ↦ heard_at k.clock acks k.readings k.last_ack_time
          ])
          (elim o [
            | none ↦ k.last_idle_time
            | some acks ↦ idle_at k.clock acks k.readings k.last_idle_time
          ])
          k
          (drained o k)
  drained-Heard none k = record {
    clock = refl;
    monitor = refl;
    sender = refl;
    heard = refl;
    idles = refl;
  }
  drained-Heard (some acks) k =
      let a = apply_acks-Heard acks (record k { ack_receiver = some [] }) in
      let t = trim_status-Heard (apply_acks acks (record k { ack_receiver = some [] })) in
      record {
        clock = t.clock ∙ a.clock;
        monitor = t.monitor ∙ a.monitor;
        sender = t.sender ∙ a.sender;
        heard = t.heard ∙ a.heard;
        idles = t.idles ∙ a.idles;
      }

  process_acknowledgments-Heard :
      (k : KvsConnection N) → Heard (last_heard k) (last_idle k) k (process_acknowledgments k)
  unfolding process_acknowledgments
  process_acknowledgments-Heard k = drained-Heard k.ack_receiver k

  check_stale-IsRecent :
      (k : KvsConnection N)
      → (check_stale k).0 ≡ ok tt
      → IsRecent k.clock k.readings k.last_ack_time k.last_idle_time
  unfolding check_stale
  check_stale-IsRecent k h = elim (Bool-cases (ltb 30 (elapsed_secs k k.last_ack_time))) [
    | inr recent ↦ inl (ground arith)
    | inl stale ↦ elim (Option-cases k.last_idle_time) [
      | inl never ↦ absurd (ground arith)
      | inr (t, e) ↦ inr (t, e, ground arith)
    ]
  ]

  check_stale_recent :
      (k : KvsConnection N)
      → IsRecent k.clock k.readings k.last_ack_time k.last_idle_time
      → (check_stale k).0 ≡ ok tt
  unfolding check_stale
  check_stale_recent k (inl recent) = ground arith
  check_stale_recent k (inr (t, e, recent)) = ground arith

  WasHeard-IsRecent :
      (k : KvsConnection N)
      → let k' = process_acknowledgments k in
        WasHeard k k'.readings ≡ IsRecent k'.clock k'.readings k'.last_ack_time k'.last_idle_time
  WasHeard-IsRecent k =
      let k' = process_acknowledgments k in
      let h = process_acknowledgments-Heard k in
      sym (
        ap (λ c. IsRecent c k'.readings k'.last_ack_time k'.last_idle_time) h.clock
        ∙ ap (λ t. IsRecent k.clock k'.readings t k'.last_idle_time) h.heard
        ∙ ap (IsRecent k.clock k'.readings (last_heard k)) h.idles)

  abbrev checked : Option Monitor → KvsConnection N → Result (Unit {0}) × KvsConnection N
  checked monitor k = elim monitor [
    | none ↦ check_stale k
    | some waiting ↦ check_stale k
    | some done ↦ (err (codes "Connection closed by server"), k)
  ]

  checked_ok :
      (monitor : Option Monitor) (k : KvsConnection N)
      → (checked monitor k).0 ≡ ok tt
      → (monitor ≢ some done) × ((check_stale k).0 ≡ ok tt)
  checked_ok none k h = ((λ e. cc), h)
  checked_ok (some waiting) k h = ((λ e. cc), h)
  checked_ok (some done) k h = cc

  checked_alive :
      (monitor : Option Monitor) (k : KvsConnection N)
      → monitor ≢ some done
      → (check_stale k).0 ≡ ok tt
      → (checked monitor k).0 ≡ ok tt
  checked_alive none k n h = h
  checked_alive (some waiting) k n h = h
  checked_alive (some done) k n h = absurd (n refl)

  check_connection_health_ok :
      (k : KvsConnection N)
      → (check_connection_health k).0 ≡ ok tt
      → (k.connection_monitor ≢ some done)
        × IsRecent k.clock k.readings k.last_ack_time k.last_idle_time
  unfolding check_connection_health
  check_connection_health_ok k h =
      let (running, came) = checked_ok k.connection_monitor k h in
      (running, check_stale-IsRecent k came)

  check_connection_health_sender :
      (k : KvsConnection N) → (check_connection_health k).1.fragment_sender ≡ k.fragment_sender
  unfolding check_connection_health check_stale
  check_connection_health_sender k = ground arith

  send_checked_ok :
      (f : Fragment) (k : KvsConnection N)
      → (send_checked f k).0 ≡ ok tt
      → (ch : Sender) × (k.fragment_sender ≡ some ch) × (ch.closed ≡ false)
  unfolding send_checked
  send_checked_ok f k h = elim (Option-cases k.fragment_sender) [
    | inl gone ↦ absurd (ground arith)
    | inr (ch, e) ↦ (ch, e, send_both_ok k.first_fragment_of_connection f ch (ground arith))
  ]

  then_checked_ok :
      (f : Fragment) (r : Result (Unit {0})) (k : KvsConnection N)
      → (then_checked f (r, k)).0 ≡ ok tt
      → (r ≡ ok tt) × ((send_checked f k).0 ≡ ok tt)
  then_checked_ok f (ok x) k h = (refl, h)
  then_checked_ok f (err e) k h = cc
  then_checked_ok f panic k h = cc

  send_fragment_ok :
      (f : Fragment) (k : KvsConnection N) → (send_fragment f k).0 ≡ ok tt → IsAlive k
  unfolding send_fragment
  send_fragment_ok f k h =
      let k₁ = process_acknowledgments k in
      let same = process_acknowledgments-Heard k in
      let (r, k₂) = check_connection_health k₁ in
      let (healthy, sent) = then_checked_ok f r k₂ h in
      let (running, heard) = check_connection_health_ok k₁ healthy in
      let (ch, there, is_open) = send_checked_ok f k₂ sent in
      record {
        running = λ e. running (same.monitor ∙ e);
        heard = subst (λ A. A) (sym (WasHeard-IsRecent k)) heard;
        channel = ch;
        there = sym same.sender ∙ (sym (check_connection_health_sender k₁) ∙ there);
        is_open = is_open;
      }

  send_fragment_alive :
      (f : Fragment) (k : KvsConnection N) → IsAlive k → (send_fragment f k).0 ≡ ok tt
  unfolding send_fragment check_connection_health
  send_fragment_alive f k h =
      let k₁ = process_acknowledgments k in
      let same = process_acknowledgments-Heard k in
      let came =
        checked_alive k₁.connection_monitor k₁ (λ e. h.running (sym same.monitor ∙ e))
          (check_stale_recent k₁ (subst (λ A. A) (WasHeard-IsRecent k) h.heard)) in
      let r = checked k₁.connection_monitor k₁ in
      ap (λ q. (then_checked f (q, r.1)).0) came
      ∙ send_checked-open f r.1 (check_connection_health_sender k₁ ∙ (same.sender ∙ h.there))
          h.is_open

  -- `send_fragment` accepts a fragment, which then waits to be sent, exactly if the response has
  -- not ended, the channel of the request's body is open, and the service was heard of less than 31
  -- seconds before, by the last acknowledgment that waits or, if none does, by the last one before,
  -- or else by the last report that it idles. That a fragment is accepted does not say that the
  -- service persisted it.
  pub send_fragment-IsAlive :
      (f : Fragment) (k : KvsConnection N) → ((send_fragment f k).0 ≡ ok tt) ↔ IsAlive k
  send_fragment-IsAlive f k = (send_fragment_ok f k, send_fragment_alive f k)
