-- ===== src/Kvs/AckStream/Closed.antt =====
-- What becomes of a fragment once the service's answer has ended.
use gst_kvs_sink.Common.{◌≡◌, Option, some, List, [], ◌∷◌, arith, Text, Result, ok, err, panic}
use gst_kvs_sink.Common.Time.{Duration}
use gst_kvs_sink.Fragment.{Fragment}
use gst_kvs_sink.Kvs.Acks.{KvsAcknowledgment}
use gst_kvs_sink.Kvs.Connection.{
  KvsConnection, Network, done, send_fragment, reconnect_with_backoff,
}
use gst_kvs_sink.Kvs.Connection.Carried.{Carries}
use gst_kvs_sink.Kvs.Connection.Framing.{
  then_reconnect, then_resend-Carries, reconnect_with_backoff-Carries,
}
use gst_kvs_sink.Kvs.Connection.Sends.{send_fragment-done}
use gst_kvs_sink.Kvs.Client.{put_on}
use gst_kvs_sink.Kvs.AckStream.Response.{
  Response, failed, answered, handle_response, after_response,
}

module _ {N : Type 0} (net : Network N) (parse : Text → Option KvsAcknowledgment) where
  after_response-done :
      (response : Response) (k : KvsConnection N)
      → (after_response parse response k).connection_monitor ≡ some done
  unfolding after_response handle_response
  after_response-done (failed e) k = ground arith
  after_response-done (answered status chunks) k = ground arith

  then_reconnect-Carries :
      (waits : List Duration) (f : Fragment) (r : Result (Unit {0})) (k : KvsConnection N)
      {e : Text}
      → r ≡ err e
      → (then_reconnect net waits f r k).0 ≡ ok tt
      → Carries (then_reconnect net waits f r k).1 (f ∷ [])
  then_reconnect-Carries waits f (ok x) k e h = cc
  then_reconnect-Carries waits f (err x) k e h =
      let (r', k') = reconnect_with_backoff net waits k in
      then_resend-Carries net f r' k' (reconnect_with_backoff-Carries net waits k) h
  then_reconnect-Carries waits f panic k e h = cc

  -- However the service's answer to the request ended, be it a refused connection, a status that
  -- is no success, an error in the middle of the stream, or its end: if `put_fragment` accepts a
  -- fragment afterwards, then over a new channel, which carries the fragment's headers and
  -- cluster and nothing else.
  pub after_response-Carries :
      (response : Response) (waits : List Duration) (f : Fragment) (k : KvsConnection N)
      → (put_on net waits f (after_response parse response k)).0 ≡ ok tt
      → Carries (put_on net waits f (after_response parse response k)).1 (f ∷ [])
  unfolding put_on
  after_response-Carries response waits f k h =
      let j = after_response parse response k in
      let (r, k') = send_fragment f j in
      then_reconnect-Carries waits f r k' (send_fragment-done f j (after_response-done response k))
        h
