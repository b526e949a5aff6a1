-- ===== src/Kvs/Connection/Sends.antt =====
-- What a send leaves as it is: the stream, the clock and the network.
use gst_kvs_sink.Common.{
  ◌≡◌, ◌≢◌, refl, ◌∙◌, Option, none, some, List, [], ◌∷◌, arith, codes, Result, ok, err, panic,
}
use gst_kvs_sink.Fragment.{Fragment}
use gst_kvs_sink.Kvs.Acks.{KvsAcknowledgment}
use gst_kvs_sink.Kvs.Connection.{
  KvsConnection, done, send_bytes, send_both, apply_ack, apply_acks, trim_status,
  process_acknowledgments, check_stale, check_connection_health, send_checked, send_fragment,
}
use gst_kvs_sink.Kvs.Connection.Fresh.{then_checked}

-- Two states of a connection to the same stream, on the same network.
pub record IsSame {N : Type 0} (k k' : KvsConnection N) : Type 0 where
  pub stream_name : k'.stream_name ≡ k.stream_name
  pub region : k'.region ≡ k.region
  pub start : k'.producer_start_timestamp ≡ k.producer_start_timestamp
  pub clock : k'.clock ≡ k.clock
  pub network : k'.network ≡ k.network
  pub monitor : k'.connection_monitor ≡ k.connection_monitor

module _ {N : Type 0} where
  IsSame-trans : {j k l : KvsConnection N} → IsSame j k → IsSame k l → IsSame j l
  IsSame-trans h k = record {
    stream_name = k.stream_name ∙ h.stream_name;
    region = k.region ∙ h.region;
    start = k.start ∙ h.start;
    clock = k.clock ∙ h.clock;
    network = k.network ∙ h.network;
    monitor = k.monitor ∙ h.monitor;
  }

  IsSame-refl : (k : KvsConnection N) → IsSame k k
  IsSame-refl k = record {
    stream_name = refl;
    region = refl;
    start = refl;
    clock = refl;
    network = refl;
    monitor = refl;
  }

  apply_ack-IsSame : (ack : KvsAcknowledgment) (k : KvsConnection N) → IsSame k (apply_ack ack k)
  unfolding apply_ack
  apply_ack-IsSame ack k = ground arith

  apply_acks-IsSame :
      (acks : List KvsAcknowledgment) (k : KvsConnection N) → IsSame k (apply_acks acks k)
  unfolding apply_acks
  apply_acks-IsSame [] k = IsSame-refl k
  apply_acks-IsSame (a ∷ acks) k =
      IsSame-trans (apply_ack-IsSame a k) (apply_acks-IsSame acks (apply_ack a k))

  process_acknowledgments-IsSame :
      (acks : Option (List KvsAcknowledgment)) (k : KvsConnection N)
      → k.ack_receiver ≡ acks
      → IsSame k (process_acknowledgments k)
  unfolding process_acknowledgments trim_status
  process_acknowledgments-IsSame none k e = ground arith
  process_acknowledgments-IsSame (some acks) k e =
      ground (arith, apply_acks-IsSame acks (record k { ack_receiver = some [] }))

  check_connection_health-IsSame : (k : KvsConnection N) → IsSame k (check_connection_health k).1
  unfolding check_connection_health check_stale
  check_connection_health-IsSame k = ground arith

  send_checked-IsSame : (f : Fragment) (k : KvsConnection N) → IsSame k (send_checked f k).1
  unfolding send_checked
  send_checked-IsSame f k = ground arith

  then_checked-IsSame :
      (f : Fragment) (r : Result (Unit {0})) {j : KvsConnection N} (k : KvsConnection N)
      → IsSame j k
      → IsSame j (then_checked f (r, k)).1
  then_checked-IsSame f (ok x) k h = IsSame-trans h (send_checked-IsSame f k)
  then_checked-IsSame f (err e) k h = h
  then_checked-IsSame f panic k h = h

  pub send_fragment-IsSame : (f : Fragment) (k : KvsConnection N) → IsSame k (send_fragment f k).1
  unfolding send_fragment
  send_fragment-IsSame f k =
      let k' = process_acknowledgments k in
      let (r, k'') = check_connection_health k' in
      then_checked-IsSame f r k'' (
        IsSame-trans (process_acknowledgments-IsSame k.ack_receiver k refl)
          (check_connection_health-IsSame k'))

  -- A send ends well or with an error.
  send_checked_returns : (f : Fragment) (k : KvsConnection N) → (send_checked f k).0 ≢ panic
  unfolding send_checked send_both send_bytes
  send_checked_returns f k = ground arith

  check_connection_health_returns : (k : KvsConnection N) → (check_connection_health k).0 ≢ panic
  unfolding check_connection_health check_stale
  check_connection_health_returns k = ground arith

  pub send_fragment_returns : (f : Fragment) (k : KvsConnection N) → (send_fragment f k).0 ≢ panic
  unfolding send_fragment
  send_fragment_returns f k =
      let k' = process_acknowledgments k in
      ground (
        arith,
        check_connection_health_returns k',
        send_checked_returns f (check_connection_health k').1,
      )

  check_connection_health-done :
      (k : KvsConnection N)
      → k.connection_monitor ≡ some done
      → (check_connection_health k).0 ≡ err (codes "Connection closed by server")
  unfolding check_connection_health
  check_connection_health-done k e = ground arith

  -- Once the response has ended, nothing is sent over its connection any more.
  pub send_fragment-done :
      (f : Fragment) (k : KvsConnection N)
      → k.connection_monitor ≡ some done
      → (send_fragment f k).0 ≡ err (codes "Connection closed by server")
  unfolding send_fragment
  send_fragment-done f k e =
      let k' = process_acknowledgments k in
      let same = process_acknowledgments-IsSame k.ack_receiver k refl in
      ground (arith, check_connection_health-done k' (same.monitor ∙ e))
