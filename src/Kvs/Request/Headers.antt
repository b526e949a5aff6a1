-- ===== src/Kvs/Request/Headers.antt =====
-- The headers of the request.
use mathlib.Core.Path.{subst}
use gst_kvs_sink.Common.{
  ◌≡◌, refl, sym, ◌∙◌, List, [], ◌∷◌, ◌++◌, append_assoc, append-nil, Text, codes, Result, ok, err,
  panic,
}
use gst_kvs_sink.Kvs.Request.{Header, Aws, put_media_headers, insert_headers, all_headers}

-- What the HTTP library documents of header names in lower case, and of values.
pub record HeaderRules {N C : Type 0} (aws : Aws N C) : Type 0 where
  pub stream_name : aws.header_name (codes "x-amzn-stream-name") ≡ ok (codes "x-amzn-stream-name")
  pub start :
      aws.header_name (codes "x-amzn-producer-start-timestamp")
      ≡ ok (codes "x-amzn-producer-start-timestamp")
  pub timecode :
      aws.header_name (codes "x-amzn-fragment-timecode-type")
      ≡ ok (codes "x-amzn-fragment-timecode-type")
  pub value : (t : Text) {t' : Text} → aws.header_value t ≡ ok t' → t' ≡ t

module _ {N C : Type 0} (aws : Aws N C) where
  abbrev then_insert : List Header → Result (List Header) → Result (List Header)
  then_insert hs (ok done) = insert_headers aws done hs
  then_insert hs (err e) = err e
  then_insert hs panic = panic

  abbrev with_value : List Header → List Header → Text → Result Text → Result (List Header)
  with_value done rest name value = elim value [
    | err e ↦ err e
    | panic ↦ panic
    | ok v ↦ insert_headers aws (done ++ ((name, v) ∷ [])) rest
  ]

  abbrev with_name : List Header → List Header → Result Text → Result Text → Result (List Header)
  with_name done rest name value = elim name [
    | err e ↦ err e
    | panic ↦ panic
    | ok n ↦ with_value done rest n value
  ]

  with_name-append :
      (done rest ys : List Header) (name value : Result Text)
      → ((more : List Header)
          → insert_headers aws more (rest ++ ys) ≡ then_insert ys (insert_headers aws more rest))
      → with_name done (rest ++ ys) name value ≡ then_insert ys (with_name done rest name value)
  with_name-append done rest ys (ok n) (ok v) ih = ih (done ++ ((n, v) ∷ []))
  with_name-append done rest ys (ok n) (err e) ih = refl
  with_name-append done rest ys (ok n) panic ih = refl
  with_name-append done rest ys (err e) value ih = refl
  with_name-append done rest ys panic value ih = refl

  insert_headers-append :
      (done xs ys : List Header)
      → insert_headers aws done (xs ++ ys) ≡ then_insert ys (insert_headers aws done xs)
  unfolding insert_headers
  insert_headers-append done [] ys = refl
  insert_headers-append done ((name, value) ∷ xs) ys =
      with_name-append done xs ys (aws.header_name name) (aws.header_value value)
        (λ more. insert_headers-append more xs ys)

  -- The headers of the request are inserted last, as they are.
  with_value-last :
      (rules : HeaderRules aws) (done rest : List Header) (name value : Text) {out : List Header}
      (v : Result Text)
      → aws.header_value value ≡ v
      → with_value done rest name v ≡ ok out
      → insert_headers aws (done ++ ((name, value) ∷ [])) rest ≡ ok out
  with_value-last rules done rest name value {out} (ok v) e h =
      subst (λ w. insert_headers aws (done ++ ((name, w) ∷ [])) rest ≡ ok out) (rules.value value e)
        h
  with_value-last rules done rest name value (err x) e h = cc
  with_value-last rules done rest name value panic e h = cc

  insert_one :
      (rules : HeaderRules aws) (done rest : List Header) (name value : Text) {out : List Header}
      → aws.header_name name ≡ ok name
      → insert_headers aws done ((name, value) ∷ rest) ≡ ok out
      → insert_headers aws (done ++ ((name, value) ∷ [])) rest ≡ ok out
  unfolding insert_headers
  insert_one rules done rest name value {out} e h =
      with_value-last rules done rest name value (aws.header_value value) refl
        (subst (λ r. with_name done rest r (aws.header_value value) ≡ ok out) e h)

  AreKept : List Header → Type 0
  AreKept [] = Unit
  AreKept ((name, value) ∷ hs) = (aws.header_name name ≡ ok name) × AreKept hs

  insert_headers-kept :
      (rules : HeaderRules aws) (done hs : List Header) {out : List Header}
      → AreKept hs
      → insert_headers aws done hs ≡ ok out
      → out ≡ done ++ hs
  unfolding insert_headers AreKept
  insert_headers-kept rules done [] k h = cc (h, append-nil done)
  insert_headers-kept rules done ((name, value) ∷ hs) (e, k) h =
      insert_headers-kept rules (done ++ ((name, value) ∷ [])) hs k
        (insert_one rules done hs name value e h)
      ∙ append_assoc done ((name, value) ∷ []) hs

  then_insert-kept :
      (rules : HeaderRules aws) (r : Result (List Header)) (hs : List Header) {out : List Header}
      → AreKept hs
      → then_insert hs r ≡ ok out
      → (front : List Header) × (out ≡ front ++ hs)
  then_insert-kept rules (ok done) hs k h = (done, insert_headers-kept rules done hs k h)
  then_insert-kept rules (err e) hs k h = cc
  then_insert-kept rules panic hs k h = cc

  pub all_headers-last :
      (rules : HeaderRules aws) (signed : List Header) (stream start : Text) {out : List Header}
      → all_headers aws signed (put_media_headers stream start) ≡ ok out
      → (front : List Header) × (out ≡ front ++ put_media_headers stream start)
  unfolding all_headers AreKept put_media_headers
  all_headers-last rules signed stream start h =
      let first : List Header = (codes "transfer-encoding", codes "chunked") ∷ [] in
      then_insert-kept rules (insert_headers aws first signed) (put_media_headers stream start)
        (rules.stream_name, (rules.start, (rules.timecode, tt)))
        (sym (insert_headers-append first signed (put_media_headers stream start)) ∙ h)
