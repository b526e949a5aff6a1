-- ===== src/Kvs/Acks/Invariant.antt =====
-- The order of the acknowledgments of a fragment.
use gst_kvs_sink.Common.{
  ℕ, ◌≡◌, refl, Bool, true, false, Bool-cases, Option, none, some, List, [], ◌∷◌, ◌++◌, All, arith,
  inl, inr, is_some, if◌then◌else◌, Result, ok, err, panic,
}
use gst_kvs_sink.Common.Time.{Instant}
use gst_kvs_sink.Fragment.{Fragment}
use gst_kvs_sink.Kvs.Acks.{
  AckEventType, buffering, received, persisted, error, idle, KvsAcknowledgment, FragmentAckStatus,
  awaits, acknowledge, acknowledge_first, retain, get_error_description,
}
use gst_kvs_sink.Kvs.Connection.{
  KvsConnection, tick, instant, apply_ack, apply_acks, trim_status, process_acknowledgments,
  check_stale, check_connection_health, new_status, send_checked, send_fragment,
}

-- What is persisted was received, and what was received was buffered.
pub record IsOrdered (s : FragmentAckStatus) : Type 0 where
  pub received_first : s.persisted_ack ≡ true → s.received_ack ≡ true
  pub buffered_first : s.received_ack ≡ true → s.buffering_ack ≡ true

abbrev pub AreOrdered : List FragmentAckStatus → Type 0
AreOrdered ss = All IsOrdered ss

acknowledge-IsOrdered :
    (ack : KvsAcknowledgment) (s : FragmentAckStatus)
    → awaits ack.event_type s ≡ true
    → IsOrdered s
    → IsOrdered (acknowledge ack s)
unfolding acknowledge awaits get_error_description
acknowledge-IsOrdered ack s e h =
    let _r = h.received_first in
    let _b = h.buffered_first in
    record { received_first = ground arith; buffered_first = ground arith }

-- The test that finds a status, and the change of what it found.
acknowledge_first-AreOrdered :
    (ack : KvsAcknowledgment) (ss : List FragmentAckStatus)
    → AreOrdered ss
    → AreOrdered (acknowledge_first ack ss)
unfolding acknowledge_first
acknowledge_first-AreOrdered ack [] h = tt
acknowledge_first-AreOrdered ack (s ∷ ss) (h, hs) = elim (Bool-cases (awaits ack.event_type s)) [
  | inl e ↦ rw e (acknowledge-IsOrdered ack s e h, hs)
  | inr e ↦ rw e (h, acknowledge_first-AreOrdered ack ss hs)
]

retain-AreOrdered :
    (p : FragmentAckStatus → Bool) (ss : List FragmentAckStatus)
    → AreOrdered ss
    → AreOrdered (retain p ss)
unfolding retain
retain-AreOrdered p [] h = tt
retain-AreOrdered p (s ∷ ss) (h, hs) = elim (Bool-cases (p s)) [
  | inl e ↦ rw e (h, retain-AreOrdered p ss hs)
  | inr e ↦ rw e (retain-AreOrdered p ss hs)
]

AreOrdered-append :
    (ss : List FragmentAckStatus) (s : FragmentAckStatus)
    → AreOrdered ss
    → IsOrdered s
    → AreOrdered (ss ++ (s ∷ []))
AreOrdered-append [] s h k = (k, tt)
AreOrdered-append (r ∷ ss) s (h, hs) k = (h, AreOrdered-append ss s hs k)

new_status-IsOrdered : (n : ℕ) (t : Instant) → IsOrdered (new_status n t)
new_status-IsOrdered n t = record { received_first = λ e. cc; buffered_first = λ e. cc }

module _ {N : Type 0} where
  -- The status behind one acknowledgment, whatever its kind.
  abbrev applied : AckEventType → KvsAcknowledgment → KvsConnection N → KvsConnection N
  applied e ack k =
      let seen : KvsConnection N = tick (record k { last_ack_time = instant k }) in
      elim e [
        | idle ↦ tick (record seen { last_idle_time = some (instant seen) })
        | _ ↦
            if is_some ack.fragment_number
            then record seen { fragment_status = acknowledge_first ack seen.fragment_status }
            else seen
      ]

  when_numbered :
      (b : Bool) (ack : KvsAcknowledgment) (k k' : KvsConnection N)
      → k'.fragment_status ≡ acknowledge_first ack k.fragment_status
      → AreOrdered k.fragment_status
      → AreOrdered (if b then k' else k).fragment_status
  when_numbered true ack k k' e h = rw e (acknowledge_first-AreOrdered ack k.fragment_status h)
  when_numbered false ack k k' e h = h

  apply_kind :
      (e : AckEventType) (ack : KvsAcknowledgment) (k : KvsConnection N)
      → AreOrdered k.fragment_status
      → AreOrdered (applied e ack k).fragment_status
  apply_kind buffering ack k h =
      when_numbered (is_some ack.fragment_number) ack
        (tick (record k { last_ack_time = instant k })) _ refl h
  apply_kind received ack k h =
      when_numbered (is_some ack.fragment_number) ack
        (tick (record k { last_ack_time = instant k })) _ refl h
  apply_kind persisted ack k h =
      when_numbered (is_some ack.fragment_number) ack
        (tick (record k { last_ack_time = instant k })) _ refl h
  apply_kind error ack k h =
      when_numbered (is_some ack.fragment_number) ack
        (tick (record k { last_ack_time = instant k })) _ refl h
  apply_kind idle ack k h = h

  apply_ack-AreOrdered :
      (ack : KvsAcknowledgment) (k : KvsConnection N)
      → AreOrdered k.fragment_status
      → AreOrdered (apply_ack ack k).fragment_status
  unfolding apply_ack
  apply_ack-AreOrdered ack k h = apply_kind ack.event_type ack k h

  apply_acks-AreOrdered :
      (acks : List KvsAcknowledgment) (k : KvsConnection N)
      → AreOrdered k.fragment_status
      → AreOrdered (apply_acks acks k).fragment_status
  unfolding apply_acks
  apply_acks-AreOrdered [] k h = h
  apply_acks-AreOrdered (a ∷ acks) k h =
      apply_acks-AreOrdered acks (apply_ack a k) (apply_ack-AreOrdered a k h)

  AreOrdered-if :
      (b : Bool) (k k' : KvsConnection N)
      → AreOrdered k.fragment_status
      → AreOrdered k'.fragment_status
      → AreOrdered (if b then k else k').fragment_status
  AreOrdered-if true k k' h h' = h
  AreOrdered-if false k k' h h' = h'

  trim_status-AreOrdered :
      (k : KvsConnection N)
      → AreOrdered k.fragment_status
      → AreOrdered (trim_status k).fragment_status
  unfolding trim_status
  trim_status-AreOrdered k h = AreOrdered-if _ _ k (retain-AreOrdered _ k.fragment_status h) h

  abbrev drained : Option (List KvsAcknowledgment) → KvsConnection N → KvsConnection N
  drained acks k = elim acks [
    | none ↦ k
    | some found ↦ trim_status (apply_acks found (record k { ack_receiver = some [] }))
  ]

  drained-AreOrdered :
      (acks : Option (List KvsAcknowledgment)) (k : KvsConnection N)
      → AreOrdered k.fragment_status
      → AreOrdered (drained acks k).fragment_status
  drained-AreOrdered none k h = h
  drained-AreOrdered (some acks) k h =
      trim_status-AreOrdered _ (apply_acks-AreOrdered acks (record k { ack_receiver = some [] }) h)

  check_connection_health_status :
      (k : KvsConnection N) → (check_connection_health k).1.fragment_status ≡ k.fragment_status
  unfolding check_connection_health check_stale
  check_connection_health_status k = ground arith

  send_checked_status :
      (f : Fragment) (k : KvsConnection N)
      → (send_checked f k).1.fragment_status
        ≡ k.fragment_status ++ (new_status k.next_fragment_num (k.clock k.readings) ∷ [])
  unfolding send_checked
  send_checked_status f k = ground arith

  abbrev then_send :
      Fragment → Result (Unit {0}) → KvsConnection N → Result (Unit {0}) × KvsConnection N
  then_send f r k = elim r [ ok _ ↦ send_checked f k | err e ↦ (err e, k) | panic ↦ (panic, k) ]

  then_send-AreOrdered :
      (f : Fragment) (r : Result (Unit {0})) (k : KvsConnection N)
      → AreOrdered k.fragment_status
      → AreOrdered (then_send f r k).1.fragment_status
  then_send-AreOrdered f (ok x) k h = rw (send_checked_status f k) (
      AreOrdered-append k.fragment_status _ h
        (new_status-IsOrdered k.next_fragment_num (k.clock k.readings)))
  then_send-AreOrdered f (err e) k h = h
  then_send-AreOrdered f panic k h = h

  -- Whatever acknowledgments arrive, in whatever order, and however the sending ends: behind
  -- `send_fragment`, as before it, each tracked fragment that counts as persisted counts as
  -- received, and each that counts as received counts as buffered.
  pub send_fragment-AreOrdered :
      (f : Fragment) (k : KvsConnection N)
      → AreOrdered k.fragment_status
      → AreOrdered (send_fragment f k).1.fragment_status
  unfolding send_fragment process_acknowledgments
  send_fragment-AreOrdered f k h =
      let (r, k') = check_connection_health (process_acknowledgments k) in
      then_send-AreOrdered f r k' (
        rw (check_connection_health_status (process_acknowledgments k))
          (drained-AreOrdered k.ack_receiver k h))
