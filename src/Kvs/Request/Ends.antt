-- ===== src/Kvs/Request/Ends.antt =====
-- How the calls before the request end.
use gst_kvs_sink.Common.{
  ◌≡◌, refl, Option, none, some, List, [], ◌∷◌, Text, codes, Result, ok, err, panic, with_context,
}
use gst_kvs_sink.Common.Time.{Duration}
use gst_kvs_sink.Kvs.Request.{
  Header, SigningRequest, Aws, ensure_stream, retry_endpoint, require_endpoint, to_sign,
  get_or_create_stream, sign_request,
}

-- How a call ends: with a result and a state that stand in `Q`, or without a result, in `P`.
abbrev pub Ends : {A N : Type 0} → (N → Type 0) → (A → N → Type 0) → Result A → N → Type 0
Ends P Q (ok a) n = Q a n
Ends P Q (err e) n = P n
Ends P Q panic n = P n

-- The calls before the request is sent do not lead out of `P`.
pub record IsKept {N C : Type 0} (aws : Aws N C) (P : N → Type 0) : Type 0 where
  pub describe : (region stream : Text) (n : N) → P n → P (aws.describe_stream region stream n).1
  pub create :
      (region stream : Text) (n : N)
      → P n
      → P (aws.create_stream region stream (codes "video/h264") 730 n).1
  pub endpoint : (region stream : Text) (n : N) → P n → P (aws.get_data_endpoint region stream n).1
  pub credentials : (n : N) → P n → P (aws.provide_credentials n).1
  pub sign : (request : SigningRequest C) (n : N) → P n → P (aws.sign request n).1
  pub client : (n : N) → P n → P (aws.build_client n).1

-- The service's answer when it is asked for the data endpoint of this stream, in this region.
abbrev pub IsEndpoint : {N C : Type 0} → Aws N C → Text → Text → Text → Type 0
IsEndpoint {N} aws stream region endpoint =
    (m : N) × ((aws.get_data_endpoint region stream m).0 ≡ ok (some endpoint))

module _ {N : Type 0} (P : N → Type 0) where
  pub bind-Ends :
      {A B : Type 0} (Q : A → N → Type 0) (R : B → N → Type 0) (r : Result A) (n : N)
      (f : A → N → Result B × N)
      → Ends P Q r n
      → ((a : A) (n' : N) → Q a n' → Ends P R (f a n').0 (f a n').1)
      → (let q : Result B × N = elim r [ ok a ↦ f a n | err e ↦ (err e, n) | panic ↦ (panic, n) ] in
          Ends P R q.0 q.1)
  bind-Ends Q R (ok a) n f h next = next a n h
  bind-Ends Q R (err e) n f h next = h
  bind-Ends Q R panic n f h next = h

  -- A call that keeps `P` ends in it.
  pub plain-Ends : {A : Type 0} (r : Result A) (n : N) → P n → Ends P (λ a n'. P n') r n
  plain-Ends (ok a) n h = h
  plain-Ends (err e) n h = h
  plain-Ends panic n h = h

  pub context-Ends :
      {A : Type 0} (Q : A → N → Type 0) (t : Text) (r : Result A) (n : N)
      → Ends P Q r n
      → Ends P Q (with_context t r) n
  context-Ends Q t (ok a) n h = h
  context-Ends Q t (err e) n h = h
  context-Ends Q t panic n h = h

  or_else-Ends :
      (r : Result (Unit {0})) (n : N) (k : N → Result (Unit {0}) × N)
      → P n
      → Ends P (λ a n'. P n') (k n).0 (k n).1
      → (let q : Result (Unit {0}) × N = elim r [
        | ok _ ↦ (ok tt, n)
        | err e ↦ k n
        | panic ↦ (panic, n)
      ] in
          Ends P (λ a n'. P n') q.0 q.1)
  or_else-Ends (ok a) n k h other = h
  or_else-Ends (err e) n k h other = other
  or_else-Ends panic n k h other = h

module _ {N C : Type 0} (aws : Aws N C) (P : N → Type 0) (kept : IsKept aws P) where
  ensure_stream-Ends :
      (stream region : Text) (n : N)
      → P n
      → Ends P
          (λ a n'. P n')
          (ensure_stream aws stream region n).0
          (ensure_stream aws stream region n).1
  unfolding ensure_stream
  ensure_stream-Ends stream region n h =
      let (r, n') = aws.describe_stream region stream n in
      let h' = kept.describe region stream n h in
      let (r', n'') = aws.create_stream region stream (codes "video/h264") 730 n' in
      let t = codes "Failed to create stream" in
      or_else-Ends P r n'
        (λ m.
          let (q, m') = aws.create_stream region stream (codes "video/h264") 730 m in
          (with_context t q, m'))
        h'
        (context-Ends P (λ a m. P m) t r' n''
          (plain-Ends P r' n'' (kept.create region stream n' h')))

  again-Ends :
      {A : Type 0} (Q : A → N → Type 0) (r : Result A) (n : N) (again : Result A × N)
      → Ends P Q r n
      → Ends P Q again.0 again.1
      → (let q : Result A × N = elim r [ ok a ↦ (ok a, n) | err e ↦ again | panic ↦ (panic, n) ] in
          Ends P Q q.0 q.1)
  again-Ends Q (ok a) n again h k = h
  again-Ends Q (err e) n again h k = k
  again-Ends Q panic n again h k = h

  -- The service answers this when it is asked for the endpoint of the stream.
  abbrev Answers : Text → Text → Option Text → Type 0
  Answers stream region found = (m : N) × ((aws.get_data_endpoint region stream m).0 ≡ ok found)

  answered-Ends :
      (stream region : Text) (m : N) (r : Result (Option Text)) (n : N)
      → (aws.get_data_endpoint region stream m).0 ≡ r
      → P n
      → Ends P (λ found n'. P n' × Answers stream region found) r n
  answered-Ends stream region m (ok found) n e h = (h, (m, e))
  answered-Ends stream region m (err x) n e h = h
  answered-Ends stream region m panic n e h = h

  retry_endpoint-Ends :
      (waits : List Duration) (stream region : Text) (n : N)
      → P n
      → Ends P
          (λ found n'. P n' × Answers stream region found)
          (retry_endpoint aws waits stream region n).0
          (retry_endpoint aws waits stream region n).1
  unfolding retry_endpoint
  retry_endpoint-Ends [] stream region n h =
      let (r, n') = aws.get_data_endpoint region stream n in
      answered-Ends stream region n r n' refl (kept.endpoint region stream n h)
  retry_endpoint-Ends (wait ∷ waits) stream region n h =
      let (r, n') = aws.get_data_endpoint region stream n in
      let h' = kept.endpoint region stream n h in
      again-Ends (λ found m. P m × Answers stream region found) r n'
        (retry_endpoint aws waits stream region n') (answered-Ends stream region n r n' refl h')
        (retry_endpoint-Ends waits stream region n' h')

  require_endpoint-Ends :
      (stream region : Text) (found : Option Text) (n : N)
      → P n
      → Answers stream region found
      → Ends P
          (λ a n'. P n' × IsEndpoint aws stream region a)
          (require_endpoint aws found n).0
          (require_endpoint aws found n).1
  unfolding require_endpoint
  require_endpoint-Ends stream region none n h e = h
  require_endpoint-Ends stream region (some endpoint) n h e = (h, e)

  pub get_or_create_stream-Ends :
      (stream region : Text) (n : N)
      → P n
      → Ends P
          (λ a n'. P n' × IsEndpoint aws stream region a)
          (get_or_create_stream aws stream region n).0
          (get_or_create_stream aws stream region n).1
  unfolding get_or_create_stream
  get_or_create_stream-Ends stream region n h =
      let t = codes "Failed to refresh data endpoint after retries" in
      let (r, n') = ensure_stream aws stream region n in
      let Q : Option Text → N → Type 0 = λ found m. P m × Answers stream region found in
      let R : Text → N → Type 0 = λ a m. P m × IsEndpoint aws stream region a in
      bind-Ends P (λ a m. P m) R r n' _ (ensure_stream-Ends stream region n h)
        (λ x m hm.
          let (q, m') = retry_endpoint aws aws.retry_waits stream region m in
          bind-Ends P Q R (with_context t q) m' _
            (context-Ends P Q t q m' (retry_endpoint-Ends aws.retry_waits stream region m hm))
            (λ found m'' h''. require_endpoint-Ends stream region found m'' h''.0 h''.1))

  pub sign_request-Ends :
      (url region : Text) (headers : List Header) (n : N)
      → P n
      → Ends P
          (λ a n'. P n')
          (sign_request aws url region headers n).0
          (sign_request aws url region headers n).1
  unfolding sign_request
  sign_request-Ends url region headers n h =
      let t = codes "Failed to get AWS credentials" in
      let (r, n') = aws.provide_credentials n in
      bind-Ends P (λ a m. P m) (λ a m. P m) (with_context t r) n' _
        (context-Ends P (λ a m. P m) t r n' (plain-Ends P r n' (kept.credentials n h)))
        (λ x m hm.
          let (q, m') = aws.sign (to_sign x url region headers) m in
          plain-Ends P q m' (kept.sign (to_sign x url region headers) m hm))
