-- ===== src/Kvs/Connection.antt =====
-- `KvsConnection`: sending, acknowledgments, health, and reconnection.
pub mod Carried
pub mod Framing
pub mod Session
pub mod Fresh
pub mod Sends
pub mod Recovers
pub mod Health
use gst_kvs_sink.Common.{
  ℕ, suc, ◌+◌, ◌-◌, ◌*◌, Bool, true, false, not, ◌&&◌, Option, none, some, List, [], ◌∷◌, ◌++◌, ltb,
  leb, ◌==◌, is_some, if◌then◌else◌, length, unwrap_or, Text, codes, Result, ok, err, panic,
  with_context,
}
use gst_kvs_sink.Common.Time.{
  SystemTime, Instant, Duration, unix_epoch, duration_since, duration_secs, from_secs, as_millis,
}
use gst_kvs_sink.Fragment.{Fragment}
use gst_kvs_sink.Buffer.Names.{decimal}
use gst_kvs_sink.Kvs.Acks.{
  AckEventType, idle, KvsAcknowledgment, FragmentAckStatus, acknowledge_first, retain,
}

abbrev pub stale_connection_timeout_secs : ℕ
stale_connection_timeout_secs = 30

abbrev pub fragment_status_retention : ℕ
fragment_status_retention = 150

abbrev pub fragment_status_timeout_secs : ℕ
fragment_status_timeout_secs = 120

-- The sending half of the channel that feeds the request's body: what was sent over it, and
-- whether the receiving half is gone. A full channel only delays `send`.
pub record Sender : Type 0 where
  pub sent : List (List ℕ)
  pub closed : Bool

-- What `try_recv` finds in the one-shot channel of the response task.
pub data Monitor : Type 0 where
  waiting done : Monitor

-- The fields of `KvsConnection`; the clocks and the network stand below them. `ack_receiver`
-- holds the acknowledgments that have arrived. `N` is the network's own state.
pub record KvsConnection (N : Type 0) : Type 0 where
  pub stream_name : Text
  pub region : Text
  pub producer_start_timestamp : Text
  pub session_start : Instant
  pub max_session_duration : Duration
  pub next_fragment_num : ℕ
  pub first_fragment_of_connection : Bool
  pub fragment_sender : Option Sender
  pub connection_monitor : Option Monitor
  pub ack_receiver : Option (List KvsAcknowledgment)
  pub fragment_status : List FragmentAckStatus
  pub last_ack_time : Instant
  pub last_idle_time : Option Instant
  pub clock : ℕ → Instant
  pub wall : ℕ → SystemTime
  pub readings : ℕ
  pub network : N

-- What the connection asks of the AWS libraries: to open a PutMedia request for a stream, a region
-- and a producer start timestamp.
pub record Network (N : Type 0) : Type 0 where
  pub open_request : Text → Text → Text → N → Result (Unit {0}) × N

abbrev pub stale_error : ℕ → Text
stale_error secs =
    codes "Connection appears stale - no acknowledgments for " ++ (decimal secs ++ codes " seconds")

abbrev pub new_status : ℕ → Instant → FragmentAckStatus
new_status num t = record {
  fragment_number = decimal num;
  sent_time = t;
  buffering_ack = false;
  received_ack = false;
  persisted_ack = false;
  error = none;
}

-- `sender.send(..).await`
unfoldable pub send_bytes : Text → List ℕ → Sender → Result Sender
send_bytes failure bytes ch =
    if ch.closed then err failure else ok (record ch { sent = ch.sent ++ (bytes ∷ []) })

-- The two sends of `send_fragment`: the channel afterwards, and how they went.
unfoldable pub send_both : Bool → Fragment → Sender → Result (Unit {0}) × Sender
send_both with_headers f ch =
    let first : Result Sender =
      if with_headers
      then send_bytes (codes "Failed to send headers - channel closed") f.header_data ch
      else ok ch in
    elim first [
      | err e ↦ (err e, ch)
      | panic ↦ (panic, ch)
      | ok ch' ↦
          elim (send_bytes (codes "Failed to send cluster - channel closed") f.cluster_data ch') [
            | ok ch'' ↦ (ok tt, ch'')
            | err e ↦ (err e, ch')
            | panic ↦ (panic, ch')
          ]
    ]

module _ {N : Type 0} where
  abbrev pub tick : KvsConnection N → KvsConnection N
  tick k = record k { readings = suc k.readings }

  -- `Instant::now()`, at the reading that is next.
  abbrev pub instant : KvsConnection N → Instant
  instant k = k.clock k.readings

  -- `earlier.elapsed().as_secs()`; an `Instant` in the future has elapsed by zero.
  abbrev pub elapsed_secs : KvsConnection N → Instant → ℕ
  elapsed_secs k earlier = duration_secs (instant k - earlier)

  -- The producer start timestamp of the present moment.
  unfoldable pub timestamp_now : KvsConnection N → Text
  timestamp_now k =
      decimal (as_millis (unwrap_or (duration_since (k.wall k.readings) unix_epoch) 0))

  -- One acknowledgment in the loop of `process_acknowledgments`.
  unfoldable pub apply_ack : KvsAcknowledgment → KvsConnection N → KvsConnection N
  apply_ack ack k =
      let seen : KvsConnection N = tick (record k { last_ack_time = instant k }) in
      elim ack.event_type [
        | idle ↦ tick (record seen { last_idle_time = some (instant seen) })
        | _ ↦
            if is_some ack.fragment_number
            then record seen { fragment_status = acknowledge_first ack seen.fragment_status }
            else seen
      ]

  unfoldable pub apply_acks : List KvsAcknowledgment → KvsConnection N → KvsConnection N
  apply_acks [] k = k
  apply_acks (ack ∷ acks) k = apply_acks acks (apply_ack ack k)

  -- The cleanup that ends `process_acknowledgments`. All statuses are judged at one reading.
  unfoldable pub trim_status : KvsConnection N → KvsConnection N
  trim_status k =
      if ltb fragment_status_retention (length k.fragment_status)
      then tick (record k {
        fragment_status =
            retain
              (λ s.
                not s.persisted_ack
                && leb (elapsed_secs k s.sent_time) fragment_status_timeout_secs)
              k.fragment_status;
      })
      else k

  -- `process_acknowledgments`
  unfoldable pub process_acknowledgments : KvsConnection N → KvsConnection N
  process_acknowledgments k = elim k.ack_receiver [
    | none ↦ k
    | some acks ↦ trim_status (apply_acks acks (record k { ack_receiver = some [] }))
  ]

  -- The part of `check_connection_health` behind the monitor.
  unfoldable pub check_stale : KvsConnection N → Result (Unit {0}) × KvsConnection N
  check_stale k =
      let elapsed = elapsed_secs k k.last_ack_time in
      let k' : KvsConnection N = tick k in
      if ltb stale_connection_timeout_secs elapsed
      then elim k.last_idle_time [
        | none ↦ (err (stale_error elapsed), k')
        | some last_idle ↦
            if ltb stale_connection_timeout_secs (elapsed_secs k' last_idle)
            then (err (stale_error elapsed), tick k')
            else (ok tt, tick k')
      ]
      else (ok tt, k')

  -- `check_connection_health`
  unfoldable pub check_connection_health : KvsConnection N → Result (Unit {0}) × KvsConnection N
  check_connection_health k = elim k.connection_monitor [
    | none ↦ check_stale k
    | some waiting ↦ check_stale k
    | some done ↦ (err (codes "Connection closed by server"), k)
  ]

  -- `send_fragment` behind the acknowledgments and the health check.
  unfoldable pub send_checked : Fragment → KvsConnection N → Result (Unit {0}) × KvsConnection N
  send_checked f k =
      let k' : KvsConnection N = tick (record k {
        fragment_status = k.fragment_status ++ (new_status k.next_fragment_num (instant k) ∷ []);
      }) in
      elim k.fragment_sender [
        | none ↦ (err (codes "No active streaming connection"), k')
        | some ch ↦
            let (r, ch') = send_both k.first_fragment_of_connection f ch in
            let sent : KvsConnection N = record k' { fragment_sender = some ch' } in
            elim r [
              | ok _ ↦ (
                ok tt,
                record sent {
                  next_fragment_num = k.next_fragment_num + 1;
                  first_fragment_of_connection = false;
                },
              )
              | err e ↦ (err e, sent)
              | panic ↦ (panic, sent)
            ]
      ]

  -- `send_fragment`
  unfoldable pub send_fragment : Fragment → KvsConnection N → Result (Unit {0}) × KvsConnection N
  send_fragment f k =
      let (r, k') = check_connection_health (process_acknowledgments k) in
      elim r [ ok _ ↦ send_checked f k' | err e ↦ (err e, k') | panic ↦ (panic, k') ]

  -- `KvsConnection::is_session_expired`
  unfoldable pub is_session_expired : KvsConnection N → Bool
  is_session_expired k = ltb k.max_session_duration (instant k - k.session_start)

  -- The channels from the response task, just made.
  abbrev pub watched : KvsConnection N → KvsConnection N
  watched k = record k { connection_monitor = some waiting; ack_receiver = some [] }

module _ {N : Type 0} (net : Network N) where
  -- `connect`: what the AWS libraries answer; a success installs a fresh channel.
  unfoldable pub connect : KvsConnection N → Result (Unit {0}) × KvsConnection N
  connect k =
      let (r, n) = net.open_request k.stream_name k.region k.producer_start_timestamp k.network in
      elim r [
        | ok _ ↦ (
          ok tt,
          record k { network = n; fragment_sender = some (record { sent = []; closed = false }) },
        )
        | err e ↦ (err e, record k { network = n })
        | panic ↦ (panic, record k { network = n })
      ]

  -- The state that `reconnect_once` clears before it connects.
  unfoldable pub cleared : KvsConnection N → KvsConnection N
  cleared k = tick (record k {
    fragment_sender = none;
    connection_monitor = none;
    ack_receiver = none;
    fragment_status = [];
    last_ack_time = instant k;
    last_idle_time = none;
    first_fragment_of_connection = true;
  })

  -- `reconnect_once`
  unfoldable pub reconnect_once : KvsConnection N → Result (Unit {0}) × KvsConnection N
  reconnect_once k =
      let (r, k') = connect (cleared k) in
      elim r [ ok _ ↦ (ok tt, watched k') | err e ↦ (err e, k') | panic ↦ (panic, k') ]

  -- `reconnect_with_backoff`. The list holds the waits that the backoff policy hands out before it
  -- gives up, which it does once its maximal elapsed time is over.
  unfoldable pub reconnect_with_backoff :
      List Duration → KvsConnection N → Result (Unit {0}) × KvsConnection N
  reconnect_with_backoff [] k =
      let (r, k') = reconnect_once k in
      elim r [
        | ok _ ↦ (ok tt, k')
        | err e ↦ (err (codes "Failed to reconnect after exhausting retries: " ++ e), k')
        | panic ↦ (panic, k')
      ]
  reconnect_with_backoff (wait ∷ waits) k =
      let (r, k') = reconnect_once k in
      let again = reconnect_with_backoff waits k' in
      elim r [ ok _ ↦ (ok tt, k') | err e ↦ again | panic ↦ (panic, k') ]

  -- `reset_session_internal`
  unfoldable pub reset_session_internal :
      List Duration → KvsConnection N → Result (Unit {0}) × KvsConnection N
  reset_session_internal waits k =
      let (r, k') = reconnect_with_backoff waits (
        tick (record k {
          producer_start_timestamp = timestamp_now k;
          next_fragment_num = 1;
          first_fragment_of_connection = true;
          fragment_status = [];
        })) in
      elim r [
        | ok _ ↦ (ok tt, tick (record k' { session_start = instant k' }))
        | err e ↦ (err e, k')
        | panic ↦ (panic, k')
      ]
