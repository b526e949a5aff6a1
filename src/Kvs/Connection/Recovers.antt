-- ===== src/Kvs/Connection/Recovers.antt =====
-- That a fragment is accepted once the network is back.
use mathlib.Core.Path.{subst}
use gst_kvs_sink.Common.{
  ℕ, zero, suc, ◌≤◌, ◌≡◌, ◌≢◌, refl, sym, ◌∙◌, List, [], ◌∷◌, arith, length, Result, ok, err, panic,
}
use gst_kvs_sink.Common.Retry.{FailsThen}
use gst_kvs_sink.Common.Time.{Duration}
use gst_kvs_sink.Fragment.{Fragment}
use gst_kvs_sink.Kvs.Connection.{
  KvsConnection, Network, send_fragment, connect, cleared, reconnect_once, reconnect_with_backoff,
}
use gst_kvs_sink.Kvs.Connection.Framing.{
  then_again, give_up, then_fail, then_resend, then_reconnect,
}
use gst_kvs_sink.Kvs.Client.{put_on, resend}
use gst_kvs_sink.Kvs.Connection.Fresh.{IsFresh, Runs, send_fragment-fresh}
use gst_kvs_sink.Kvs.Connection.Sends.{IsSame, send_fragment-IsSame, send_fragment_returns}

module _ {N : Type 0} (net : Network N) where
  -- The opening of a request, as a call on the network alone.
  abbrev pub opening : KvsConnection N → N → Result (Unit {0}) × N
  opening k = net.open_request k.stream_name k.region k.producer_start_timestamp

  reconnect_once_result : (k : KvsConnection N) → (reconnect_once net k).0 ≡ (opening k k.network).0
  unfolding reconnect_once connect cleared
  reconnect_once_result k = ground arith

  -- What an attempt leaves of the connection.
  record IsTried (k k' : KvsConnection N) : Type 0 where
    stream_name : k'.stream_name ≡ k.stream_name
    region : k'.region ≡ k.region
    start : k'.producer_start_timestamp ≡ k.producer_start_timestamp
    clock : k'.clock ≡ k.clock
    network : k'.network ≡ (opening k k.network).1

  reconnect_once-IsTried : (k : KvsConnection N) → IsTried k (reconnect_once net k).1
  unfolding reconnect_once connect cleared
  reconnect_once-IsTried k = ground arith

  reconnect_once-IsFresh :
      (k : KvsConnection N)
      → Runs k.clock
      → (reconnect_once net k).0 ≡ ok tt
      → IsFresh (reconnect_once net k).1
  unfolding reconnect_once connect cleared
  reconnect_once-IsFresh k run e = record {
    sender = ground arith;
    monitor = ground arith;
    acks = ground arith;
    status = ground arith;
    recent = ground (arith, run k.readings);
  }

  FailsThen-tried :
      (j : ℕ) (k k' : KvsConnection N)
      → IsTried k k'
      → FailsThen j (opening k) (opening k k.network).1
      → FailsThen j (opening k') k'.network
  FailsThen-tried j k k' t h = rw (t.stream_name, t.region, t.start, t.network) h

  FailsThen-same :
      (j : ℕ) (k k' : KvsConnection N)
      → IsSame k k'
      → FailsThen j (opening k) k.network
      → FailsThen j (opening k') k'.network
  FailsThen-same j k k' t h = rw (t.stream_name, t.region, t.start, t.network) h

  -- With as many waits as attempts fail, and a network that answers then, the connection is made.
  then_again-IsFresh :
      (waits : List Duration) (r : Result (Unit {0})) (k : KvsConnection N)
      → (r ≡ ok tt → IsFresh k)
      → (r ≢ ok tt
          → ((reconnect_with_backoff net waits k).0 ≡ ok tt)
            × IsFresh (reconnect_with_backoff net waits k).1)
      → r ≢ panic
      → ((then_again net waits r k).0 ≡ ok tt) × IsFresh (then_again net waits r k).1
  then_again-IsFresh waits (ok x) k now later n = (refl, now refl)
  then_again-IsFresh waits (err e) k now later n = later (λ x. cc)
  then_again-IsFresh waits panic k now later n = elim (n refl) [ ]

  give_up-IsFresh :
      (r : Result (Unit {0})) (k : KvsConnection N)
      → (r ≡ ok tt → IsFresh k)
      → r ≡ ok tt
      → ((give_up net r k).0 ≡ ok tt) × IsFresh (give_up net r k).1
  give_up-IsFresh (ok x) k now e = (refl, now refl)
  give_up-IsFresh (err x) k now e = cc
  give_up-IsFresh panic k now e = cc

  reconnect_with_backoff-IsFresh :
      (waits : List Duration) (j : ℕ) (k : KvsConnection N)
      → Runs k.clock
      → j ≤ length waits
      → FailsThen j (opening k) k.network
      → ((reconnect_with_backoff net waits k).0 ≡ ok tt)
        × IsFresh (reconnect_with_backoff net waits k).1
  unfolding reconnect_with_backoff FailsThen
  reconnect_with_backoff-IsFresh [] zero k run le (x, e) =
      let (r, k') = reconnect_once net k in
      give_up-IsFresh r k' (reconnect_once-IsFresh k run) (reconnect_once_result k ∙ e)
  reconnect_with_backoff-IsFresh [] (suc j) k run le h = ground arith
  reconnect_with_backoff-IsFresh (w ∷ waits) zero k run le (x, e) =
      let (r, k') = reconnect_once net k in
      let came : r ≡ ok tt = reconnect_once_result k ∙ e in
      then_again-IsFresh waits r k' (reconnect_once-IsFresh k run) (λ no. absurd (no came))
        (λ p. cc)
  reconnect_with_backoff-IsFresh (w ∷ waits) (suc j) k run le ((x, e), h) =
      let (r, k') = reconnect_once net k in
      let failed : r ≡ err x = reconnect_once_result k ∙ e in
      let t = reconnect_once-IsTried k in
      then_again-IsFresh waits r k' (λ yes. cc)
        (λ no.
          reconnect_with_backoff-IsFresh waits j k' (subst Runs (sym t.clock) run) (ground arith)
            (FailsThen-tried j k k' t h))
        (λ p. cc)

  then_fail_ok :
      (r : Result (Unit {0})) (k : KvsConnection N) → r ≡ ok tt → (then_fail net r k).0 ≡ ok tt
  then_fail_ok r k e = rw e refl

  resend-fresh : (f : Fragment) (k : KvsConnection N) → IsFresh k → (resend net f k).0 ≡ ok tt
  unfolding resend
  resend-fresh f k h =
      then_fail_ok (send_fragment f k).0 (send_fragment f k).1 (send_fragment-fresh f k h)

  then_resend-fresh :
      (f : Fragment) (r : Result (Unit {0})) (k : KvsConnection N)
      → r ≡ ok tt
      → IsFresh k
      → (then_resend net f r k).0 ≡ ok tt
  then_resend-fresh f (ok x) k e h = resend-fresh f k h
  then_resend-fresh f (err x) k e h = cc
  then_resend-fresh f panic k e h = cc

  then_reconnect_ok :
      (waits : List Duration) (f : Fragment) (j : ℕ) (r : Result (Unit {0})) (k : KvsConnection N)
      → r ≢ panic
      → Runs k.clock
      → j ≤ length waits
      → FailsThen j (opening k) k.network
      → (then_reconnect net waits f r k).0 ≡ ok tt
  then_reconnect_ok waits f j (ok x) k n run le h = refl
  then_reconnect_ok waits f j (err x) k n run le h =
      let (came, fresh) = reconnect_with_backoff-IsFresh waits j k run le h in
      let (r', k') = reconnect_with_backoff net waits k in then_resend-fresh f r' k' came fresh
  then_reconnect_ok waits f j panic k n run le h = absurd (n refl)

  -- Where opening a request fails `j` times in a row and then succeeds, `j` is no more than the
  -- number of waits that the backoff policy hands out, and two successive readings of the clock
  -- are at most 30 seconds apart: `put_fragment` accepts the fragment, in whatever state the
  -- connection is, closed by the server, stale or without a channel included. That it is accepted
  -- says that its bytes wait on the open request's channel, not that the service persisted it.
  pub put_on_recovers :
      (waits : List Duration) (f : Fragment) (j : ℕ) (k : KvsConnection N)
      → Runs k.clock
      → j ≤ length waits
      → FailsThen j (opening k) k.network
      → (put_on net waits f k).0 ≡ ok tt
  unfolding put_on
  put_on_recovers waits f j k run le h =
      let same = send_fragment-IsSame f k in
      let (r, k') = send_fragment f k in
      then_reconnect_ok waits f j r k' (send_fragment_returns f k) (subst Runs (sym same.clock) run)
        le (FailsThen-same j k k' same h)
