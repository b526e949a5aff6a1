-- ===== src/Kvs/Request/Retry.antt =====
-- The retries of `get_or_create_stream`.
use gst_kvs_sink.Common.{
  ℕ, zero, suc, ◌≤◌, ◌≡◌, refl, ap, ◌∙◌, some, List, [], ◌∷◌, arith, length, Text, codes, Result,
  ok, err, panic, with_context,
}
use gst_kvs_sink.Common.Time.{Duration}
use gst_kvs_sink.Common.Retry.{FailsThen, after_attempts, after_attempts_last}
use gst_kvs_sink.Kvs.Request.{
  Aws, ensure_stream, retry_endpoint, require_endpoint, get_or_create_stream,
}

module _ {N C : Type 0} (aws : Aws N C) where
  retry_endpoint_lem :
      (waits : List Duration) (stream region : Text) (j : ℕ) (n : N)
      → j ≤ length waits
      → FailsThen j (aws.get_data_endpoint region stream) n
      → retry_endpoint aws waits stream region n
        ≡ aws.get_data_endpoint region stream
            (after_attempts j (aws.get_data_endpoint region stream) n)
  unfolding retry_endpoint FailsThen after_attempts
  retry_endpoint_lem [] stream region zero n le h = refl
  retry_endpoint_lem [] stream region (suc j) n le h = absurd (omega arith)
  retry_endpoint_lem (w ∷ waits) stream region zero n le (a, e) = ground arith
  retry_endpoint_lem (w ∷ waits) stream region (suc j) n le ((x, e), h) = ground (
    arith,
    retry_endpoint_lem waits stream region j (aws.get_data_endpoint region stream n).1 (omega arith)
        h,
  )

  -- The part of `get_or_create_stream` behind the stream's creation.
  abbrev then_endpoint : Text → Text → Result (Unit {0}) → N → Result Text × N
  then_endpoint stream region r n = elim r [
    | ok _ ↦
        (let (q, n') = retry_endpoint aws aws.retry_waits stream region n in
          elim (with_context (codes "Failed to refresh data endpoint after retries") q) [
            | ok found ↦ require_endpoint aws found n'
            | err e ↦ (err e, n')
            | panic ↦ (panic, n')
          ])
    | err e ↦ (err e, n)
    | panic ↦ (panic, n)
  ]

  then_endpoint_found :
      (stream region : Text) (r : Result (Unit {0})) (n : N) {n' : N} {endpoint : Text}
      → r ≡ ok tt
      → retry_endpoint aws aws.retry_waits stream region n ≡ (ok (some endpoint), n')
      → then_endpoint stream region r n ≡ (ok endpoint, n')
  unfolding require_endpoint
  then_endpoint_found stream region (ok x) n e h = ground (arith, ap (λ r. r.0) h, ap (λ r. r.1) h)
  then_endpoint_found stream region (err x) n e h = cc
  then_endpoint_found stream region panic n e h = cc

  -- Where the stream is described or else created, the service refuses its data endpoint `j` times
  -- in a row and then names one, and `j` is no more than the number of waits that the backoff
  -- policy hands out: `get_or_create_stream` returns that endpoint, after `j + 1` requests for it.
  pub get_or_create_stream_recovers :
      (stream region endpoint : Text) (j : ℕ) (n : N)
      → (ensure_stream aws stream region n).0 ≡ ok tt
      → j ≤ length aws.retry_waits
      → FailsThen j (aws.get_data_endpoint region stream) (ensure_stream aws stream region n).1
      → (aws.get_data_endpoint region stream (
          after_attempts j
            (aws.get_data_endpoint region stream)
            (ensure_stream aws stream region n).1)).0
        ≡ ok (some endpoint)
      → get_or_create_stream aws stream region n ≡ (
        ok endpoint,
        (after_attempts
            (suc j)
            (aws.get_data_endpoint region stream)
            (ensure_stream aws stream region n).1),
      )
  unfolding get_or_create_stream
  get_or_create_stream_recovers stream region endpoint j n made le h named =
      let (r, n') = ensure_stream aws stream region n in
      then_endpoint_found stream region r n' made (
        retry_endpoint_lem aws.retry_waits stream region j n' le h
        ∙ cc (named, after_attempts_last j (aws.get_data_endpoint region stream) n'))
