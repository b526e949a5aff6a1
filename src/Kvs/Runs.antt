-- ===== src/Kvs/Runs.antt =====
-- Runs of the connection.
use mathlib.Core.Logic.{◌↔◌}
use gst_kvs_sink.Common.{
  ℕ, ◌≡◌, refl, true, false, Option, ◌+◌, none, some, [], ◌∷◌, ◌++◌, ok, err, Text, codes,
  if◌then◌else◌, ◌==◌, arith,
}
use gst_kvs_sink.Kvs.Acks.{KvsAcknowledgment, buffering, acknowledge_first, awaits}
use gst_kvs_sink.Kvs.Acks.Invariant.{AreOrdered, send_fragment-AreOrdered}
use gst_kvs_sink.Kvs.AckStream.{trim, is_space}
use gst_kvs_sink.Kvs.Connection.{
  KvsConnection, Network, new_status, waiting, done, send_fragment, send_checked, send_both,
  send_bytes, check_connection_health, check_stale, process_acknowledgments, apply_acks, apply_ack,
  trim_status,
}
use gst_kvs_sink.Kvs.Connection.Session.{WasReset, reset_session_internal-WasReset}
use gst_kvs_sink.Kvs.Connection.{reset_session_internal}
use gst_kvs_sink.Kvs.Connection.Carried.{Carries, chunks}
use gst_kvs_sink.Kvs.Connection.Framing.{Accepted, put_on-Accepted}
use gst_kvs_sink.Kvs.Client.{put_on}
use gst_kvs_sink.Common.Retry.{FailsThen, after_attempts}
use gst_kvs_sink.Kvs.Connection.Recovers.{put_on_recovers}
use gst_kvs_sink.Kvs.Connection.Health.{IsAlive, send_fragment-IsAlive}
use gst_kvs_sink.Kvs.Request.{Aws, open_request, get_or_create_stream, ensure_stream}
use gst_kvs_sink.Kvs.Request.Opened.{OpenedOr, open_request-Opened}
use gst_kvs_sink.Kvs.Request.Retry.{get_or_create_stream_recovers}
use gst_kvs_sink.Kvs.AckStream.Response.{
  Response, failed, answered, bytes, broken, handle_response, after_response, fresh_channel,
  is_utf8, is_utf8_behind, lead,
}
use gst_kvs_sink.Kvs.AckStream.Delivered.{
  arrived, handle_response_acks, acks_of, ack_of, whole_lines, readable,
}
use gst_kvs_sink.Kvs.AckStream.Closed.{after_response-Carries}
use gst_kvs_sink.Examples.{early, late}

abbrev ack : KvsAcknowledgment
ack = record {
  event_type = buffering;
  fragment_timecode = none;
  fragment_number = some (codes "1");
  error_id = none;
  error_code = none;
}

-- A connection that has carried one fragment, with an acknowledgment on its way.
abbrev busy : KvsConnection Unit
busy = record {
  stream_name = codes "cam";
  region = codes "eu-west-1";
  producer_start_timestamp = codes "0";
  session_start = 0;
  max_session_duration = 1000;
  next_fragment_num = 2;
  first_fragment_of_connection = false;
  fragment_sender = some (record { sent = chunks (early ∷ []); closed = false });
  connection_monitor = some waiting;
  ack_receiver = some (ack ∷ []);
  fragment_status = new_status 1 0 ∷ [];
  last_ack_time = 0;
  last_idle_time = none;
  clock = λ n. 5;
  wall = λ n. 5;
  readings = 0;
  network = tt;
}

abbrev quiet : Network Unit
quiet = record { open_request = λ stream region start n. (ok tt, n) }

send_fragment-AreOrdered_example : AreOrdered (send_fragment late busy).1.fragment_status
send_fragment-AreOrdered_example =
    send_fragment-AreOrdered late busy
      (record { received_first = λ e. cc; buffered_first = λ e. cc }, tt)

put_on-Accepted_example : Accepted quiet (put_on quiet [] late busy).1 (early ∷ []) late
unfolding put_on send_fragment send_checked send_both send_bytes check_connection_health check_stale
    process_acknowledgments apply_acks apply_ack trim_status acknowledge_first awaits
put_on-Accepted_example =
    put_on-Accepted quiet [] late busy (early ∷ [])
      (record {
        channel = record { sent = chunks (early ∷ []); closed = false };
        there = refl;
        carried = refl;
        at_start = refl;
      })
      refl

-- A parser that takes every line.
abbrev parse_any : Text → Option KvsAcknowledgment
parse_any t = some ack

reset_session_internal-WasReset_example :
    WasReset quiet busy (reset_session_internal quiet (500 ∷ []) busy)
reset_session_internal-WasReset_example = reset_session_internal-WasReset quiet (500 ∷ []) busy

-- Services that count the requests for an endpoint, the first of which they refuse, and the
-- requests that were sent.
abbrev services : Aws (ℕ × ℕ) (Unit {0})
services = record {
  describe_stream = λ region stream n. (err (codes "ResourceNotFoundException"), n);
  create_stream = λ region stream media hours n. (ok tt, n);
  get_data_endpoint = λ region stream n. (
    (if n.0 == 0 then err (codes "timeout") else ok (some (codes "https://kvs"))),
    (n.0 + 1, n.1),
  );
  provide_credentials = λ n. (ok tt, n);
  sign = λ request n. (ok ((codes "authorization", codes "AWS4") ∷ []), n);
  build_client = λ n. (ok tt, n);
  header_name = λ t. ok t;
  header_value = λ t. ok t;
  send = λ request n. (n.0, n.1 + 1);
  retry_waits = 200 ∷ [];
}

open_request-Opened_example :
    OpenedOr services
      (λ n. n.1 ≡ 0)
      (codes "cam")
      (codes "eu-west-1")
      (codes "0")
      (open_request services (codes "cam") (codes "eu-west-1") (codes "0") (0, 0))
open_request-Opened_example =
    open_request-Opened services (λ n. n.1 ≡ 0) (codes "cam") (codes "eu-west-1") (codes "0") (0, 0)
      (record {
        describe = λ r s n h. h;
        create = λ r s n h. h;
        endpoint = λ r s n h. h;
        credentials = λ n h. h;
        sign = λ q n h. h;
        client = λ n h. h;
      })
      (record { stream_name = refl; start = refl; timecode = refl; value = λ t e. cc }) refl

get_or_create_stream_recovers_example :
    get_or_create_stream services (codes "cam") (codes "eu-west-1") (0, 0)
    ≡ (ok (codes "https://kvs"), (2, 0))
unfolding ensure_stream FailsThen after_attempts
get_or_create_stream_recovers_example =
    get_or_create_stream_recovers services (codes "cam") (codes "eu-west-1") (codes "https://kvs") 1
      (0, 0) refl (omega arith) ((codes "timeout", refl), (some (codes "https://kvs"), refl)) refl

-- A network that refuses the first request.
abbrev shaky : Network ℕ
shaky = record {
  open_request =
      λ stream region start n. ((if n == 0 then err (codes "dns error") else ok tt), n + 1);
}

abbrev cut_off : KvsConnection ℕ
cut_off = record {
  stream_name = codes "cam";
  region = codes "eu-west-1";
  producer_start_timestamp = codes "0";
  session_start = 0;
  max_session_duration = 1000;
  next_fragment_num = 2;
  first_fragment_of_connection = false;
  fragment_sender = some (record { sent = chunks (early ∷ []); closed = true });
  connection_monitor = some done;
  ack_receiver = none;
  fragment_status = [];
  last_ack_time = 0;
  last_idle_time = none;
  clock = λ n. 5;
  wall = λ n. 5;
  readings = 0;
  network = 0;
}

put_on_recovers_example : (put_on shaky (500 ∷ []) late cut_off).0 ≡ ok tt
unfolding FailsThen
put_on_recovers_example =
    put_on_recovers shaky (500 ∷ []) late 1 cut_off (λ n. omega arith) (omega arith)
      ((codes "dns error", refl), (tt, refl))

-- A line in two chunks, a chunk that is not UTF-8 by itself, and an error.
abbrev reply : Response
reply = answered 200 (
    bytes (codes "{a")
    ∷ bytes (195 ∷ [])
    ∷ bytes (codes "}" ++ (10 ∷ []))
    ∷ broken (codes "reset")
    ∷ bytes (codes "{b}" ++ (10 ∷ []))
    ∷ [])

-- The connection takes one acknowledgment before the send.
handle_response_acks_example :
    arrived
      (handle_response parse_any reply (record (fresh_channel (1 ∷ [])) { acks = ack ∷ [] })).1
    ≡ ack ∷ ack ∷ []
unfolding is_utf8 is_utf8_behind lead readable whole_lines acks_of ack_of trim is_space
handle_response_acks_example =
    handle_response_acks parse_any 200 _ (record (fresh_channel (1 ∷ [])) { acks = ack ∷ [] }) refl
      refl

after_response-Carries_example :
    Carries
      (put_on quiet [] late (after_response parse_any (failed (codes "refused")) busy)).1
      (late ∷ [])
unfolding after_response FailsThen
after_response-Carries_example =
    after_response-Carries quiet parse_any (failed (codes "refused")) [] late busy (
      put_on_recovers quiet [] late 0 (after_response parse_any (failed (codes "refused")) busy)
        (λ n. omega arith) (omega arith) (tt, refl))

send_fragment-IsAlive_example : ((send_fragment late busy).0 ≡ ok tt) ↔ IsAlive busy
send_fragment-IsAlive_example = send_fragment-IsAlive late busy
