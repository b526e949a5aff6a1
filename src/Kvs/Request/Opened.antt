-- ===== src/Kvs/Request/Opened.antt =====
-- When a PutMedia request is started, and what it carries.
use gst_kvs_sink.Common.{
  ◌≡◌, refl, ap, List, ◌++◌, Text, codes, Result, ok, err, panic, with_context,
}
use gst_kvs_sink.Kvs.Request.{
  Header, Aws, put_media_headers, put_media_url, get_or_create_stream, sign_request, all_headers,
  post, open_request,
}
use gst_kvs_sink.Kvs.Request.Ends.{
  Ends, IsKept, IsEndpoint, bind-Ends, plain-Ends, context-Ends, get_or_create_stream-Ends,
  sign_request-Ends,
}
use gst_kvs_sink.Kvs.Request.Headers.{HeaderRules, all_headers-last}

-- The last call was the sending of a request to the endpoint that the service named, and its last headers name the
-- stream, the start, and absolute time codes.
pub record Opened {N C : Type 0} (aws : Aws N C) (P : N → Type 0) (stream region start : Text)
    (n : N) : Type 0 where
  pub before : N
  pub held : P before
  pub endpoint : Text
  pub answered : IsEndpoint aws stream region endpoint
  pub front : List Header
  pub sent :
      n
      ≡ aws.send
          (record {
            url = endpoint ++ codes "/putMedia";
            headers = front ++ put_media_headers stream start;
          })
          before

-- How the opening of a request ends: with the request sent, or without one.
abbrev pub OpenedOr :
    {N C : Type 0} → Aws N C → (N → Type 0) → Text → Text → Text → Result (Unit {0}) × N → Type 0
OpenedOr aws P stream region start r = Ends P (λ x n. Opened aws P stream region start n) r.0 r.1

module _ {N C : Type 0} (aws : Aws N C) (P : N → Type 0) where
  post-Opened :
      (rules : HeaderRules aws) (signed : List Header) (stream region start endpoint : Text) (n : N)
      → P n
      → IsEndpoint aws stream region endpoint
      → (r : Result (List Header)) → all_headers aws signed (put_media_headers stream start) ≡ r
      → OpenedOr aws P stream region start (elim r [
        | ok hs ↦ post aws (record { url = put_media_url endpoint; headers = hs }) n
        | err e ↦ (err e, n)
        | panic ↦ (panic, n)
      ])
  unfolding post put_media_url
  post-Opened rules signed stream region start endpoint n h asked (ok hs) e =
      let (front, last) = all_headers-last aws rules signed stream start e in
      record {
        before = n;
        held = h;
        endpoint = endpoint;
        answered = asked;
        front = front;
        sent =
            ap (λ l. aws.send (record { url = endpoint ++ codes "/putMedia"; headers = l }) n) last;
      }
  post-Opened rules signed stream region start endpoint n h asked (err x) e = h
  post-Opened rules signed stream region start endpoint n h asked panic e = h

  -- For every property of the services' state that no other call than the sending of a request
  -- destroys, and where header names in lower case and header values are kept as they are: if
  -- opening a request succeeds, its last call sends one, to the endpoint that the service answered
  -- when it was asked for this stream's in this region, with "/putMedia" behind it, and the
  -- request's last headers name the stream, the producer's start timestamp and absolute time
  -- codes, whatever the signer returns; the property holds until then. If it fails or panics, the
  -- property holds at the end, so that nothing was sent.
  pub open_request-Opened :
      (stream region start : Text) (n : N)
      → IsKept aws P
      → HeaderRules aws
      → P n
      → OpenedOr aws P stream region start (open_request aws stream region start n)
  unfolding open_request
  open_request-Opened stream region start n kept rules h =
      let R : Unit {0} → N → Type 0 = λ x m. Opened aws P stream region start m in
      let headers = put_media_headers stream start in
      let (r, n') = get_or_create_stream aws stream region n in
      bind-Ends P (λ a m. P m × IsEndpoint aws stream region a) R r n' _
        (get_or_create_stream-Ends aws P kept stream region n h)
        (λ endpoint m answer.
          let hm = answer.0 in
          let url = put_media_url endpoint in
          let (q, m') = sign_request aws url region headers m in
          bind-Ends P (λ a m. P m) R q m' _ (sign_request-Ends aws P kept url region headers m hm)
            (λ signed l hl.
              let t = codes "Failed to create HTTP client" in
              let (c, l') = aws.build_client l in
              bind-Ends P (λ a m. P m) R (with_context t c) l' _
                (context-Ends P (λ a m. P m) t c l' (plain-Ends P c l' (kept.client l hl)))
                (λ x k hk.
                  post-Opened rules signed stream region start endpoint k hk answer.1
                    (all_headers aws signed headers) refl)))
