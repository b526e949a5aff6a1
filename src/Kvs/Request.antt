-- ===== src/Kvs/Request.antt =====
-- The PutMedia request of a connection: `get_or_create_stream`, `sign_request` and the part of
-- `connect` before the channel, as calls on the AWS libraries and the HTTP library. What those
-- answer is a parameter, with a state `N` of the services behind them.
pub mod Ends
pub mod Headers
pub mod Opened
pub mod Retry
use gst_kvs_sink.Common.{
  ℕ, Option, none, some, List, [], ◌∷◌, ◌++◌, Text, codes, Result, ok, err, panic, with_context,
}
use gst_kvs_sink.Common.Time.{Duration}
use gst_kvs_sink.Kvs.Connection.{Network}

abbrev pub default_retention_hours : ℕ
default_retention_hours = 730

abbrev pub Header : Type 0
Header = Text × Text

-- What `sign` is given: the credentials, and the request without its body.
pub record SigningRequest (C : Type 0) : Type 0 where
  pub identity : C
  pub region : Text
  pub service : Text
  pub method : Text
  pub url : Text
  pub headers : List Header

-- The request that `send` starts. Its headers are the inserts into the header map, in order; its
-- body is the receiving half of the fragments' channel.
pub record PutMediaRequest : Type 0 where
  pub url : Text
  pub headers : List Header

-- The libraries' calls: of the Kinesis Video control plane (region and stream name first), of the
-- credentials provider, of the signer, and of the HTTP client. `retry_waits` are the waits that
-- the backoff policy of the data endpoint hands out before it gives up.
pub record Aws (N C : Type 0) : Type 0 where
  pub describe_stream : Text → Text → N → Result (Unit {0}) × N
  pub create_stream : Text → Text → Text → ℕ → N → Result (Unit {0}) × N
  pub get_data_endpoint : Text → Text → N → Result (Option Text) × N
  pub provide_credentials : N → Result C × N
  pub sign : SigningRequest C → N → Result (List Header) × N
  pub build_client : N → Result (Unit {0}) × N
  pub header_name : Text → Result Text
  pub header_value : Text → Result Text
  pub send : PutMediaRequest → N → N
  pub retry_waits : List Duration

-- A call that may fail, on the state of the services.
abbrev pub Call : Type 0 → Type 0 → Type 0
Call N A = N → Result A × N

module _ {N : Type 0} where
  abbrev pub pure : {A : Type 0} → A → Call N A
  pure a n = (ok a, n)

  infixl 5 ◌>>=◌ ◌>>◌
  abbrev pub ◌>>=◌ : {A B : Type 0} → Call N A → (A → Call N B) → Call N B
  ◌>>=◌ m f n =
      let (r, n') = m n in elim r [ ok a ↦ f a n' | err e ↦ (err e, n') | panic ↦ (panic, n') ]

  abbrev pub ◌>>◌ : {A B : Type 0} → Call N A → Call N B → Call N B
  ◌>>◌ m k n =
      let (r, n') = m n in elim r [ ok a ↦ k n' | err e ↦ (err e, n') | panic ↦ (panic, n') ]

  abbrev pub context : {A : Type 0} → Text → Call N A → Call N A
  context t m n = let (r, n') = m n in (with_context t r, n')

  -- `.is_err()`: what to do on an error; a success goes on.
  abbrev pub or_else : Call N (Unit {0}) → Call N (Unit {0}) → Call N (Unit {0})
  or_else m k n =
      let (r, n') = m n in elim r [ ok _ ↦ (ok tt, n') | err e ↦ k n' | panic ↦ (panic, n') ]

  abbrev pub lift : {A : Type 0} → Result A → Call N A
  lift r n = (r, n)

-- The signing parameters of `sign_request`.
abbrev pub to_sign : {C : Type 0} → C → Text → Text → List Header → SigningRequest C
to_sign credentials url region headers = record {
  identity = credentials;
  region = region;
  service = codes "kinesisvideo";
  method = codes "POST";
  url = url;
  headers = headers;
}

-- The three headers that `connect` asks to be signed.
unfoldable pub put_media_headers : Text → Text → List Header
put_media_headers stream start =
    (codes "x-amzn-stream-name", stream)
    ∷ (codes "x-amzn-producer-start-timestamp", start)
    ∷ (codes "x-amzn-fragment-timecode-type", codes "ABSOLUTE")
    ∷ []

unfoldable pub put_media_url : Text → Text
put_media_url endpoint = endpoint ++ codes "/putMedia"

module _ {N C : Type 0} (aws : Aws N C) where
  -- The stream is created when it cannot be described, whatever the reason.
  unfoldable pub ensure_stream : Text → Text → Call N (Unit {0})
  ensure_stream stream region = or_else (aws.describe_stream region stream) (
      context (codes "Failed to create stream")
        (aws.create_stream region stream (codes "video/h264") default_retention_hours))

  -- `backoff::future::retry`, around `get_data_endpoint`.
  unfoldable pub retry_endpoint : List Duration → Text → Text → Call N (Option Text)
  retry_endpoint [] stream region n = aws.get_data_endpoint region stream n
  retry_endpoint (wait ∷ waits) stream region n =
      let (r, n') = aws.get_data_endpoint region stream n in
      let again = retry_endpoint waits stream region n' in
      elim r [ ok found ↦ (ok found, n') | err e ↦ again | panic ↦ (panic, n') ]

  unfoldable pub require_endpoint : Option Text → Call N Text
  require_endpoint none n = (err (codes "No data endpoint returned"), n)
  require_endpoint (some endpoint) n = (ok endpoint, n)

  unfoldable pub get_or_create_stream : Text → Text → Call N Text
  get_or_create_stream stream region = do
    ensure_stream stream region
    found ←
        context (codes "Failed to refresh data endpoint after retries")
          (retry_endpoint aws.retry_waits stream region)
    require_endpoint found

  unfoldable pub sign_request : Text → Text → List Header → Call N (List Header)
  sign_request url region headers = do
    credentials ← context (codes "Failed to get AWS credentials") aws.provide_credentials
    aws.sign (to_sign credentials url region headers)

  -- The loop that fills the header map: the first name or value that is refused ends it.
  unfoldable pub insert_headers : List Header → List Header → Result (List Header)
  insert_headers done [] = ok done
  insert_headers done ((name, value) ∷ rest) = elim (aws.header_name name) [
    | err e ↦ err e
    | panic ↦ panic
    | ok name' ↦ elim (aws.header_value value) [
      | err e ↦ err e
      | panic ↦ panic
      | ok value' ↦ insert_headers (done ++ ((name', value') ∷ [])) rest
    ]
  ]

  unfoldable pub all_headers : List Header → List Header → Result (List Header)
  all_headers signed headers =
      insert_headers ((codes "transfer-encoding", codes "chunked") ∷ []) (signed ++ headers)

  unfoldable pub post : PutMediaRequest → Call N (Unit {0})
  post request n = (ok tt, aws.send request n)

  -- `connect`, up to the request that it starts.
  unfoldable pub open_request : Text → Text → Text → Call N (Unit {0})
  open_request stream region start = do
    endpoint ← get_or_create_stream stream region
    signed ← sign_request (put_media_url endpoint) region (put_media_headers stream start)
    context (codes "Failed to create HTTP client") aws.build_client
    headers ← lift (all_headers signed (put_media_headers stream start))
    post (record { url = put_media_url endpoint; headers = headers })

  -- The AWS libraries fill the interface of the connection.
  abbrev pub aws_network : Network N
  aws_network = record { open_request = open_request }
