-- ===== src/Kvs/Client.antt =====
-- `KvsClient` as a `MediaUploader`.
use gst_kvs_sink.Common.{
  ℕ, ◌*◌, Bool, true, false, Option, none, some, List, [], ◌++◌, Text, codes, Result, ok, err,
  panic, if◌then◌else◌, unwrap_or,
}
use gst_kvs_sink.Common.Time.{
  SystemTime, Instant, Duration, unix_epoch, duration_since, from_secs, as_millis,
}
use gst_kvs_sink.Fragment.{Fragment}
use gst_kvs_sink.MediaUploader.{MediaUploader}
use gst_kvs_sink.Buffer.Names.{decimal}
use gst_kvs_sink.Kvs.Connection
use gst_kvs_sink.Kvs.Connection.{
  KvsConnection, Network, connect, watched, send_fragment, reconnect_with_backoff,
  reset_session_internal,
}

-- What a client meets besides its connection: the clocks and the network before there is one, the
-- waits of the backoff policy, and whether someone holds the lock when it is tried.
pub record KvsClient (N : Type 0) : Type 0 where
  pub inner : Option (KvsConnection N)
  pub clock : ℕ → Instant
  pub wall : ℕ → SystemTime
  pub network : N
  pub waits : List Duration
  pub lock_held : Bool

-- `KvsError`, as its `Display` prints it.
pub data KvsError : Type 0 where
  network aws_error connection internal : Text → KvsError

unfoldable pub display : KvsError → Text
display (network e) = codes "Network error: " ++ e
display (aws_error e) = codes "AWS error: " ++ e
display (connection e) = codes "Connection error: " ++ e
display (internal e) = codes "Internal error: " ++ e

module _ {N : Type 0} where
  -- `KvsClient::new`, in a process with these clocks, on a network, and with a backoff policy.
  unfoldable pub new_client : (ℕ → Instant) → (ℕ → SystemTime) → N → List Duration → KvsClient N
  new_client clock wall net waits = record {
    inner = none;
    clock = clock;
    wall = wall;
    network = net;
    waits = waits;
    lock_held = false;
  }

  -- `KvsConnection::new`
  unfoldable pub new_connection : Text → Text → KvsClient N → KvsConnection N
  new_connection stream_name region c = record {
    stream_name = stream_name;
    region = region;
    producer_start_timestamp =
        decimal (as_millis (unwrap_or (duration_since (c.wall 0) unix_epoch) 0));
    session_start = c.clock 0;
    max_session_duration = from_secs (40 * 60);
    next_fragment_num = 1;
    first_fragment_of_connection = true;
    fragment_sender = none;
    connection_monitor = none;
    ack_receiver = none;
    fragment_status = [];
    last_ack_time = c.clock 1;
    last_idle_time = none;
    clock = c.clock;
    wall = c.wall;
    readings = 2;
    network = c.network;
  }

  abbrev pub hold : KvsConnection N → KvsClient N → KvsClient N
  hold k c = record c { inner = some k }

  -- `is_session_expired`: not expired, where the lock is held or there is no connection.
  unfoldable pub is_session_expired : KvsClient N → Bool
  is_session_expired c =
      if c.lock_held
      then false
      else elim c.inner [ none ↦ false | some k ↦ Connection.is_session_expired k ]

module _ {N : Type 0} (net : Network N) where
  unfoldable pub initialize : Text → Text → KvsClient N → Result (Unit {0}) × KvsClient N
  initialize stream_name region c =
      let (r, k) = connect net (new_connection stream_name region c) in
      elim r [
        | ok _ ↦ (ok tt, hold (watched k) c)
        | err e ↦ (err (display (internal e)), record c { network = k.network })
        | panic ↦ (panic, c)
      ]

  -- The second attempt, on a connection that was made anew.
  unfoldable pub resend : Fragment → KvsConnection N → Result (Unit {0}) × KvsConnection N
  resend f k =
      let (r, k') = send_fragment f k in
      elim r [
        | ok _ ↦ (ok tt, k')
        | err e ↦ (
          err (display (connection (codes "Failed to send fragment after reconnection: " ++ e))),
          k',
        )
        | panic ↦ (panic, k')
      ]

  unfoldable pub put_on :
      List Duration → Fragment → KvsConnection N → Result (Unit {0}) × KvsConnection N
  put_on waits f k =
      let (r, k') = send_fragment f k in
      elim r [
        | ok _ ↦ (ok tt, k')
        | panic ↦ (panic, k')
        | err _ ↦
            let (r', k'') = reconnect_with_backoff net waits k' in
            elim r' [
              | ok _ ↦ resend f k''
              | err e ↦ (err (display (internal e)), k'')
              | panic ↦ (panic, k'')
            ]
      ]

  unfoldable pub put_fragment : Fragment → KvsClient N → Result (Unit {0}) × KvsClient N
  put_fragment f c = elim c.inner [
    | none ↦ (err (codes "Internal error: KVS client not initialized - call initialize() first"), c)
    | some k ↦ let (r, k') = put_on c.waits f k in (r, hold k' c)
  ]

  unfoldable pub reset_session : KvsClient N → Result (Unit {0}) × KvsClient N
  reset_session c = elim c.inner [
    | none ↦ (err (display (internal (codes "KVS client not initialized"))), c)
    | some k ↦
        let (r, k') = reset_session_internal net c.waits k in
        elim r [
          | ok _ ↦ (ok tt, hold k' c)
          | err e ↦ (err (display (connection (codes "Session reset failed: " ++ e))), hold k' c)
          | panic ↦ (panic, hold k' c)
        ]
  ]

  -- The client fills the interface of the sink and the buffer.
  abbrev pub kvs_uploader : MediaUploader (KvsClient N)
  kvs_uploader = record {
    initialize = initialize;
    put_fragment = put_fragment;
    is_session_expired = is_session_expired;
    reset_session = reset_session;
  }
