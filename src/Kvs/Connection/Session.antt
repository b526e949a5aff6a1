-- ===== src/Kvs/Connection/Session.antt =====
-- What a session reset changes.
use gst_kvs_sink.Common.{
  ℕ, ◌≡◌, ◌≢◌, refl, ◌∙◌, true, List, [], ◌∷◌, arith, inl, inr, ◌⊎◌, Result, ok, err, panic,
}
use gst_kvs_sink.Common.Time.{Duration}
use gst_kvs_sink.Kvs.Connection.{
  KvsConnection, Network, tick, instant, timestamp_now, connect, cleared, reconnect_once,
  reconnect_with_backoff, reset_session_internal,
}
use gst_kvs_sink.Kvs.Connection.Carried.{Carries}
use gst_kvs_sink.Kvs.Connection.Framing.{then_again, give_up, reconnect_with_backoff-Carries}

-- Two states of the same session.
record InSession {N : Type 0} (k k' : KvsConnection N) : Type 0 where
  session_start : k'.session_start ≡ k.session_start
  number : k'.next_fragment_num ≡ k.next_fragment_num
  timestamp : k'.producer_start_timestamp ≡ k.producer_start_timestamp

module _ {N : Type 0} (net : Network N) where
  reconnect_once-InSession : (k : KvsConnection N) → InSession k (reconnect_once net k).1
  unfolding reconnect_once connect cleared
  reconnect_once-InSession k = record {
    session_start = ground arith;
    number = ground arith;
    timestamp = ground arith;
  }

  InSession-trans : {j k l : KvsConnection N} → InSession j k → InSession k l → InSession j l
  InSession-trans h g = record {
    session_start = g.session_start ∙ h.session_start;
    number = g.number ∙ h.number;
    timestamp = g.timestamp ∙ h.timestamp;
  }

  then_again-InSession :
      (waits : List Duration) (r : Result (Unit {0})) (k : KvsConnection N) {j : KvsConnection N}
      → InSession j k
      → InSession k (reconnect_with_backoff net waits k).1
      → InSession j (then_again net waits r k).1
  then_again-InSession waits (ok x) k h g = h
  then_again-InSession waits (err x) k h g = InSession-trans h g
  then_again-InSession waits panic k h g = h

  give_up-InSession :
      (r : Result (Unit {0})) (k : KvsConnection N) {j : KvsConnection N}
      → InSession j k
      → InSession j (give_up net r k).1
  give_up-InSession (ok x) k h = h
  give_up-InSession (err x) k h = h
  give_up-InSession panic k h = h

  reconnect_with_backoff-InSession :
      (waits : List Duration) (k : KvsConnection N)
      → InSession k (reconnect_with_backoff net waits k).1
  unfolding reconnect_with_backoff
  reconnect_with_backoff-InSession [] k =
      let (r, k') = reconnect_once net k in give_up-InSession r k' (reconnect_once-InSession k)
  reconnect_with_backoff-InSession (wait ∷ waits) k =
      let (r, k') = reconnect_once net k in
      then_again-InSession waits r k' (reconnect_once-InSession k)
        (reconnect_with_backoff-InSession waits k')

  -- How a reset ends: with a fresh channel and a new start of the session, or without success and
  -- the start of the session as it was. Either way fragments are numbered from 1 and the producer's
  -- timestamp is that of the reset.
  pub record WasReset (k : KvsConnection N) (r : Result (Unit {0}) × KvsConnection N) : Type 0 where
    pub number : r.1.next_fragment_num ≡ 1
    pub timestamp : r.1.producer_start_timestamp ≡ timestamp_now k
    pub ended :
        ((r.0 ≡ ok tt) × Carries (r.1) [] × ((n : ℕ) × (r.1.session_start ≡ r.1.clock n)))
        ⊎ ((r.0 ≢ ok tt) × (r.1.session_start ≡ k.session_start))

  abbrev then_start : Result (Unit {0}) → KvsConnection N → Result (Unit {0}) × KvsConnection N
  then_start r k = elim r [
    | ok _ ↦ (ok tt, tick (record k { session_start = instant k }))
    | err e ↦ (err e, k)
    | panic ↦ (panic, k)
  ]

  then_start-WasReset :
      (r : Result (Unit {0})) (k k₀ j : KvsConnection N)
      → j.next_fragment_num ≡ 1
      → j.producer_start_timestamp ≡ timestamp_now k₀
      → j.session_start ≡ k₀.session_start
      → InSession j k
      → (r ≡ ok tt → Carries k [])
      → WasReset k₀ (then_start r k)
  then_start-WasReset (ok x) k k₀ j one at start h fresh =
      let c = fresh refl in
      record {
        number = h.number ∙ one;
        timestamp = h.timestamp ∙ at;
        ended = inl (
          refl,
          record {
            channel = c.channel;
            there = c.there;
            carried = c.carried;
            at_start = c.at_start;
          },
          (k.readings, refl),
        );
      }
  then_start-WasReset (err x) k k₀ j one at start h fresh = record {
    number = h.number ∙ one;
    timestamp = h.timestamp ∙ at;
    ended = inr ((λ e. cc), h.session_start ∙ start);
  }
  then_start-WasReset panic k k₀ j one at start h fresh = record {
    number = h.number ∙ one;
    timestamp = h.timestamp ∙ at;
    ended = inr ((λ e. cc), h.session_start ∙ start);
  }

  -- However many attempts the reconnection takes: behind a session reset fragments are numbered
  -- from 1 and the producer's timestamp is that of the reset. If it succeeds, a fresh channel
  -- waits for headers, and the session starts at a reading of the clock; if not, the start of the
  -- session is as it was, so that an expired session stays expired.
  pub reset_session_internal-WasReset :
      (waits : List Duration) (k : KvsConnection N)
      → WasReset k (reset_session_internal net waits k)
  unfolding reset_session_internal
  reset_session_internal-WasReset waits k =
      let j : KvsConnection N = tick (record k {
        producer_start_timestamp = timestamp_now k;
        next_fragment_num = 1;
        first_fragment_of_connection = true;
        fragment_status = [];
      }) in
      let (r, k') = reconnect_with_backoff net waits j in
      then_start-WasReset r k' k j refl refl refl (reconnect_with_backoff-InSession waits j)
        (reconnect_with_backoff-Carries net waits j)
